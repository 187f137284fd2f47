-- ===== src/Mgmt/Answers.antt =====
-- The answers of `p_thread_mgmt` of src/statsd.c.
use statsd_c.Base.{
  ℕ, ◌<◌, ◌≡◌, ◌∙◌, refl, ap, sym, Bool, true, false, some, List, [], ◌∷◌, ◌++◌, Bytes, All,
  All-append, arith, length, length-append, ltb, codes, map,
}
use mathlib.Core.List.{append_assoc}
use statsd_c.Base.Assoc.{Assoc}
use statsd_c.Exec.{ok}
use statsd_c.Strings.{print_into}
use statsd_c.Platform.{Platform}
use statsd_c.Store.{State, Timer}
use statsd_c.Packet.Tokens.{Free, tokens, tokens-append, tokens-delimiter}
use statsd_c.Mgmt.{
  Mgmt, recv_data, mgmt_step, mgmt_end, prompt, begins_with, recv_into, counter_lines, timer_values,
  timer_list, answer,
}

print_into-fits : (size : ℕ) (t : Bytes) → length t < size → print_into size t ≡ ok t
print_into-fits size t h = ground arith

recv_into-again :
    (ds es buf : Bytes) → recv_into ds (recv_into (ds ++ es) buf) ≡ recv_into (ds ++ es) buf
unfolding recv_into
recv_into-again [] es buf = refl
recv_into-again (d ∷ ds) es [] = refl
recv_into-again (d ∷ ds) es (b ∷ buf) = ap (◌∷◌ d) (recv_into-again ds es buf)

recv_into_idem : (ds buf : Bytes) → recv_into ds (recv_into ds buf) ≡ recv_into ds buf
unfolding recv_into
recv_into_idem [] buf = refl
recv_into_idem (d ∷ ds) [] = refl
recv_into_idem (d ∷ ds) (b ∷ buf) = ap (◌∷◌ d) (recv_into_idem ds buf)

-- The buffer is neither cleared nor ended behind the data: once a client has sent a request, its
-- beginning alone, sent by any client, is handled as the whole request would be.
pub mgmt_step-stale :
    (P : Platform) (friendly : Bool) (s : State P) (fd : ℕ) (ds es : Bytes) (m : Mgmt)
    → (let m' : Mgmt = record m { buf = recv_into (ds ++ es) m.buf } in
        mgmt_step P friendly s (recv_data fd ds) m'
        ≡ mgmt_step P friendly s (recv_data fd (ds ++ es)) m')
unfolding mgmt_step
mgmt_step-stale P friendly s fd ds es m =
    rw (recv_into-again ds es m.buf, recv_into_idem (ds ++ es) m.buf) refl

begins_with-counters :
    (buf : Bytes)
    → begins_with (codes "counters") buf ≡ true
    → begins_with (codes "help") buf ≡ false
unfolding begins_with
begins_with-counters [] h = refl
begins_with-counters (c ∷ cs) h = ground (arith, h)

module _ (P : Platform) where
  open P use {LongDouble, Double, print_lf, print_f, hash_items, array_elems}

  -- What a client reads in one line.
  abbrev pub counter_line : Bytes × LongDouble → Bytes
  counter_line e = e.0 ++ (codes ": " ++ print_lf e.1)

  -- No end of line in the name and in the number, and the number fits its buffer.
  abbrev pub Sendable : Bytes × LongDouble → Type 0
  Sendable e = Free b'\n' e.0 × Free b'\n' (print_lf e.1) × (length (print_lf e.1) < 32)

  abbrev all_lines : Assoc LongDouble → Bytes
  all_lines [] = []
  all_lines ((key, value) ∷ rest) =
      key ++ (codes ": " ++ (print_lf value ++ (codes "\n" ++ all_lines rest)))

  counter_lines-returns :
      (cs : Assoc LongDouble) → All Sendable cs → counter_lines P cs ≡ ok (all_lines cs)
  unfolding counter_lines
  counter_lines-returns [] h = refl
  counter_lines-returns ((key, value) ∷ rest) h =
      let (f, g, l) = h.0 in
      rw (print_into-fits 32 (print_lf value) l, counter_lines-returns rest h.1) refl

  tokens-chunk :
      (d : ℕ) (t rest : Bytes)
      → 0 < length t
      → Free d t
      → tokens d (t ++ d ∷ rest) ≡ t ∷ tokens d rest
  tokens-chunk d [] rest h f = absurd (omega arith)
  tokens-chunk d (c ∷ t) rest h f = tokens-append d c t rest f

  tokens-line :
      (key value rest : Bytes)
      → Free b'\n' key
      → Free b'\n' value
      → tokens b'\n' (key ++ (codes ": " ++ (value ++ b'\n' ∷ rest)))
        ≡ (key ++ (codes ": " ++ value)) ∷ tokens b'\n' rest
  tokens-line key value rest f g =
      ap (tokens b'\n') (sym (append_assoc key (codes ": " ++ value) (b'\n' ∷ rest)))
      ∙ tokens-chunk b'\n' (key ++ (codes ": " ++ value)) rest
          (omega (arith, length-append key (codes ": " ++ value)))
          (All-append _ key (codes ": " ++ value) f (refl, (refl, g)))

  tokens-all_lines :
      (cs : Assoc LongDouble) (rest : Bytes)
      → All Sendable cs
      → tokens b'\n' (all_lines cs ++ rest) ≡ map counter_line cs ++ tokens b'\n' rest
  tokens-all_lines [] rest h = refl
  tokens-all_lines ((key, value) ∷ cs) rest h =
      let (f, g, l) = h.0 in
      rw
        (
          append_assoc key (codes ": " ++ (print_lf value ++ (codes "\n" ++ all_lines cs))) rest,
          append_assoc (print_lf value) (codes "\n" ++ all_lines cs) rest,
          tokens-line key (print_lf value) (all_lines cs ++ rest) f g,
          tokens-all_lines cs rest h.1,
        )
        refl

  tokens-end : (rest : Bytes) → tokens b'\n' (mgmt_end ++ rest) ≡ codes "END" ∷ tokens b'\n' rest
  tokens-end rest =
      tokens-append b'\n' b'E' (codes "ND") (b'\n' ∷ rest) (refl, (refl, (refl, tt)))
      ∙ ap (◌∷◌ (codes "END")) (tokens-delimiter b'\n' rest)

  -- A request that begins with "counters", in letters of either case, is answered with a text
  -- that, cut at the ends of lines, gives one line for each counter in the order of the table,
  -- "END", and the prompt in friendly mode. The names and the printed values hold no end of line,
  -- and the values fit the buffer.
  pub answer-counters :
      (friendly : Bool) (s : State P) (buf : Bytes)
      → begins_with (codes "counters") buf ≡ true
      → All Sendable (hash_items LongDouble s.counters)
      → (text : Bytes) × (answer P friendly s buf ≡ ok (some text))
        × (tokens b'\n' text
            ≡ map counter_line (hash_items LongDouble s.counters)
              ++ codes "END" ∷ tokens b'\n' (prompt friendly))
  unfolding answer
  answer-counters friendly s buf b h =
      let cs = hash_items LongDouble s.counters in
      (
        all_lines cs ++ (mgmt_end ++ prompt friendly),
        rw (begins_with-counters buf b, b, counter_lines-returns cs h) refl,
        tokens-all_lines cs (mgmt_end ++ prompt friendly) h
            ∙ ap (λ t. map counter_line cs ++ t) (tokens-end (prompt friendly)),
      )

  abbrev pub joined : List Double → Bytes
  joined [] = []
  joined (d ∷ ds) = print_f d ++ joined ds

  -- The value's text fits its buffer.
  abbrev pub FitsBuffer : Double → Type 0
  FitsBuffer d = length (print_f d) < 32

  timer_values-joined :
      (ds : List Double) → All FitsBuffer ds → timer_values P false ds ≡ ok (joined ds)
  unfolding timer_values
  timer_values-joined [] h = refl
  timer_values-joined (d ∷ ds) h =
      rw (print_into-fits 32 (print_f d) h.0, timer_values-joined ds h.1) refl

  timer_values-first :
      (d : Double) (ds : List Double)
      → All FitsBuffer (d ∷ ds)
      → timer_values P true (d ∷ ds) ≡ ok (codes "," ++ joined (d ∷ ds))
  unfolding timer_values
  timer_values-first d ds h =
      rw (print_into-fits 32 (print_f d) h.0, timer_values-joined ds h.1) refl

  ltb-true : {n : ℕ} → 0 < n → ltb 0 n ≡ true
  ltb-true h = ground arith

  -- The values of a timer are sent with a comma in front of the first, and with nothing between
  -- them. Their texts have to fit the buffer.
  timer_list-unseparated :
      (t : Timer P) (d : Double) (ds : List Double)
      → 0 < t.count
      → array_elems t.values ≡ d ∷ ds
      → All FitsBuffer (d ∷ ds)
      → timer_list P t ≡ ok (codes " [," ++ (joined (d ∷ ds) ++ codes "]"))
  unfolding timer_list
  timer_list-unseparated t d ds n e h = rw (ltb-true n, e, timer_values-first d ds h) refl

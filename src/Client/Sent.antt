-- ===== src/Client/Sent.antt =====
-- What the server of src/statsd.c makes of the packets that src/statsd_client.c sends.
use statsd_c.Base.{
  ℕ, zero, suc, ◌+◌, ◌/◌, ◌%◌, ◌<◌, ◌^◌, ◌≡◌, ◌∙◌, refl, ap, sym, true, ◌||◌, none, [], ◌∷◌, ◌++◌,
  Bytes, All, ◌==◌, ltb, arith, length, length-append, All-append, codes, Bool-cases, inl, inr,
}
use mathlib.Core.Path.{subst}
use mathlib.Core.List.{append-nil}
use statsd_c.Exec.{ok}
use statsd_c.Strings.{is_digit, sanitize_key}
use statsd_c.Strings.Decimal.{
  ℤ, pos, print_ld, print_nat, digits_onto, digits_onto-head, atol-print_ld,
}
use statsd_c.Platform.{Platform}
use statsd_c.Platform.Laws.{HashLaws, ArrayLaws}
use statsd_c.Store.{State, fits_key}
use statsd_c.Store.Update.{increment}
use statsd_c.Store.View.{IsValid, Does, count}
use statsd_c.Packet.{
  CharValue, unset, process_stats_packet, process_tokens, value_loop, token_fields, field_loop,
  no_fields,
}
use statsd_c.Packet.Tokens.{Free, tokens, tokens-append, tokens-Free, tokens-delimiter}
use statsd_c.Packet.Report.{counter, IsNumber, render_packet}
use statsd_c.Packet.Split.{number_chars, has_pipe-append, report_fields, token_fields-render, kept}
use statsd_c.Packet.Refine.{tokens-packet}
use statsd_c.Packet.Effect.{long_enough, seen, process_stats_packet-Does}
use statsd_c.Client.{
  opt_counter, opt_timer, opt_value, opt_sample_rate, timer_message, counter_message, client_main,
}

-- A printed natural number is a number of the line format.
digits_onto-All :
    (f n : ℕ) (rest : Bytes)
    → All (λ x. is_digit x ≡ true) rest
    → All (λ x. is_digit x ≡ true) (digits_onto f n rest)
unfolding digits_onto
digits_onto-All zero n rest h = h
digits_onto-All (suc f) n rest h = elim (Bool-cases (ltb n 10)) [
  | inl one ↦ rw one (ground arith, h)
  | inr more ↦ rw more (digits_onto-All f (n / 10) ((b'0' + n % 10) ∷ rest) (ground arith, h))
]

print_ld-digits : (n : ℕ) → All (λ x. is_digit x ≡ true) (print_ld (pos n))
unfolding print_ld print_nat
print_ld-digits n = digits_onto-All (suc n) n [] tt

digits-chars :
    (t : Bytes) → All (λ x. is_digit x ≡ true) t → All (λ x. (is_digit x || x == b'.') ≡ true) t
digits-chars [] h = tt
digits-chars (c ∷ t) h = (ground (arith, h.0), digits-chars t h.1)

-- A printed number has a first byte.
print_ld-cons : (n : ℕ) → (c : ℕ) × (t : Bytes) × (print_ld (pos n) ≡ c ∷ t)
unfolding print_ld print_nat
print_ld-cons n = let (c, t, e, d) = digits_onto-head (suc n) n [] (omega arith) in (c, t, e)

IsNumber-print_ld : (n : ℕ) → IsNumber (print_ld (pos n))
IsNumber-print_ld n =
    let (c, t, e) = print_ld-cons n in
    subst IsNumber (sym e) (
      subst (All (λ x. (is_digit x || x == b'.') ≡ true)) e
        (digits-chars (print_ld (pos n)) (print_ld-digits n)))

-- The third field of a timer's message is taken for the type. Digits are no type, so that the
-- report is one for a counter.
field_loop-digits :
    (n r : Bytes) (v : CharValue)
    → IsNumber n
    → All (λ x. is_digit x ≡ true) r
    → field_loop 1 (n ∷ r ∷ []) (no_fields v) ≡ report_fields (counter n none)
unfolding field_loop
field_loop-digits n [] v w h = rw (kept n w) refl
field_loop-digits n (c ∷ []) v w h = rw (kept n w) (ground (arith, h.0))
field_loop-digits n (c ∷ d ∷ r) v w h = rw (kept n w) (ground (arith, h.0))

tokens-timer :
    (c d : ℕ) (n r : Bytes)
    → Free b'|' (c ∷ n)
    → Free b'|' (d ∷ r)
    → tokens b'|' ((c ∷ n) ++ (codes "||" ++ d ∷ r)) ≡ (c ∷ n) ∷ (d ∷ r) ∷ []
tokens-timer c d n r f g =
    tokens-append b'|' c n (b'|' ∷ d ∷ r) f
    ∙ ap (◌∷◌ (c ∷ n)) (tokens-delimiter b'|' (d ∷ r) ∙ tokens-Free b'|' d r g)

digits-Free : (t : Bytes) → All (λ x. is_digit x ≡ true) t → Free b':' t × Free b'|' t
digits-Free t h = let q = number_chars t (digits-chars t h) in (q.0, q.1)

tokens-timer_message :
    (n r : ℕ)
    → tokens b'|' (print_ld (pos n) ++ (codes "||" ++ print_ld (pos r)))
      ≡ print_ld (pos n) ∷ print_ld (pos r) ∷ []
tokens-timer_message n r =
    let (c, t, e) = print_ld-cons n in
    let (d, u, g) = print_ld-cons r in
    rw (e, g)
      (tokens-timer c d t u
        (subst (Free b'|') e (digits-Free (print_ld (pos n)) (print_ld-digits n)).1)
        (subst (Free b'|') g (digits-Free (print_ld (pos r)) (print_ld-digits r)).1))

-- The token that a timer's message holds.
token_fields-timer :
    (n r : ℕ) (v : CharValue)
    → token_fields (print_ld (pos n) ++ (codes "||" ++ print_ld (pos r))) v
      ≡ report_fields (counter (print_ld (pos n)) none)
unfolding token_fields
token_fields-timer n r v =
    rw (has_pipe-append (print_ld (pos n)) (b'|' ∷ print_ld (pos r)), tokens-timer_message n r)
      (field_loop-digits (print_ld (pos n)) (print_ld (pos r)) v (IsNumber-print_ld n)
        (print_ld-digits r))

Free-colon : (n r : ℕ) → Free b':' (print_ld (pos n) ++ (codes "||" ++ print_ld (pos r)))
Free-colon n r =
    All-append _ (print_ld (pos n)) (codes "||" ++ print_ld (pos r))
      (digits-Free (print_ld (pos n)) (print_ld-digits n)).0
      (refl, (refl, (digits-Free (print_ld (pos r)) (print_ld-digits r)).0))

tokens-tail :
    (c : ℕ) (name tail : Bytes)
    → Free b':' (c ∷ name)
    → Free b':' tail
    → 0 < length tail
    → tokens b':' (c ∷ name ++ b':' ∷ tail) ≡ (c ∷ name) ∷ tail ∷ []
tokens-tail c name [] f g l = absurd (omega arith)
tokens-tail c name (d ∷ tail) f g l =
    tokens-append b':' c name (d ∷ tail) f ∙ ap (◌∷◌ (c ∷ name)) (tokens-Free b':' d tail g)

-- The server handles the timer's message as that of a counter.
process_stats_packet-timer :
    (P : Platform) (c : ℕ) (name : Bytes) (n r : ℕ) (now : ℤ)
    → Free b':' (c ∷ name)
    → process_stats_packet P now (timer_message (c ∷ name) (pos n) (pos r))
      ≡ process_stats_packet P now (render_packet (c ∷ name) (counter (print_ld (pos n)) none ∷ []))
unfolding process_tokens value_loop
process_stats_packet-timer P c name n r now f =
    rw
      (
        long_enough P now (timer_message (c ∷ name) (pos n) (pos r)) (
            omega (
              arith,
              length-append name (b':' ∷ (print_ld (pos n) ++ (codes "||" ++ print_ld (pos r)))),
            )),
        tokens-tail c name (print_ld (pos n) ++ (codes "||" ++ print_ld (pos r))) f (Free-colon n r)
            (omega (arith, length-append (print_ld (pos n)) (codes "||" ++ print_ld (pos r)))),
        token_fields-timer n r unset,
        long_enough P now (render_packet (c ∷ name) (counter (print_ld (pos n)) none ∷ []))
            (omega (arith, length-append name (b':' ∷ (print_ld (pos n) ++ codes "|c" ++ [])))),
        tokens-packet c name (counter (print_ld (pos n)) none ∷ []) f (IsNumber-print_ld n, tt),
        token_fields-render (counter (print_ld (pos n)) none) unset (IsNumber-print_ld n),
      )
      refl

module _ {P : Platform} (H : HashLaws P) (A : ArrayLaws P) where
  -- `statsd_client -t NAME -v N -s R` sends one packet, and the server, instead of recording a
  -- time, adds N to the counter of that name. N and R are not negative, the name holds no colon and
  -- fits a key, and the message fits the client's buffer.
  pub client_main-timer :
      (c : ℕ) (name : Bytes) (n r now : ℕ) (s : State P)
      → Free b':' (c ∷ name)
      → fits_key (sanitize_key (c ∷ name)) ≡ true
      → length (timer_message (c ∷ name) (pos n) (pos r)) < 1024
      → now < 10 ^ 19
      → IsValid P s
      → (packet : Bytes) × (client_main (
            opt_timer (c ∷ name)
            ∷ opt_value (print_ld (pos n))
            ∷ opt_sample_rate (print_ld (pos r))
            ∷ [])
          ≡ ok (packet ∷ []))
        × Does P (process_stats_packet P (pos now) packet) s (λ m. seen H now (
            count P
              (sanitize_key (c ∷ name))
              (P.widen (increment P (P.strtod (print_ld (pos n))) (P.of_nat 1)))
              m))
  unfolding client_main
  client_main-timer c name n r now s f fits l small v = (
    timer_message (c ∷ name) (pos n) (pos r),
    rw (atol-print_ld (pos n), atol-print_ld (pos r)) (ground (arith, l)),
    rw (process_stats_packet-timer P c name n r (pos now) f) (
        process_stats_packet-Does H A c name (counter (print_ld (pos n)) none) [] now s f fits
          (IsNumber-print_ld n, tt) small v),
  )

  -- `statsd_client -c NAME -v N` sends one packet, by which the server adds N to the counter. N is
  -- not negative, the name holds no colon and fits a key, and the message fits the client's buffer.
  pub client_main-counter :
      (c : ℕ) (name : Bytes) (n now : ℕ) (s : State P)
      → Free b':' (c ∷ name)
      → fits_key (sanitize_key (c ∷ name)) ≡ true
      → length (counter_message (c ∷ name) (pos n)) < 1024
      → now < 10 ^ 19
      → IsValid P s
      → (packet : Bytes) × (client_main (opt_counter (c ∷ name) ∷ opt_value (print_ld (pos n)) ∷ [])
          ≡ ok (packet ∷ []))
        × Does P (process_stats_packet P (pos now) packet) s (λ m. seen H now (
            count P
              (sanitize_key (c ∷ name))
              (P.widen (increment P (P.strtod (print_ld (pos n))) (P.of_nat 1)))
              m))
  unfolding client_main
  client_main-counter c name n now s f fits l small v = (
    counter_message (c ∷ name) (pos n),
    rw (atol-print_ld (pos n)) (ground (arith, l)),
    subst
        (λ t. Does P (process_stats_packet P (pos now) (c ∷ name ++ b':' ∷ t)) s (λ m. seen H now (
          count P (sanitize_key (c ∷ name))
            (P.widen (increment P (P.strtod (print_ld (pos n))) (P.of_nat 1))) m)))
        (append-nil (print_ld (pos n) ++ codes "|c"))
        (process_stats_packet-Does H A c name (counter (print_ld (pos n)) none) [] now s f fits
          (IsNumber-print_ld n, tt) small v),
  )

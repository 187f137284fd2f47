-- ===== src/Worker/Arrival.antt =====
-- From the socket to the tables of src/statsd.c: the UDP thread, the ring, the queue thread and the
-- line protocol together.
use statsd_c.Base.{
  ℕ, zero, suc, ◌+◌, ◌-◌, ◌<◌, ◌≤◌, ◌^◌, ◌≡◌, ◌≢◌, ◌∙◌, refl, ap, true, false, ◌||◌, List, [], ◌∷◌,
  Bytes, All, map, ◌==◌, arith, length, take,
}
use mathlib.Core.Path.{subst}
use statsd_c.Exec.{ok}
use statsd_c.Strings.{sanitize_key}
use statsd_c.Strings.Decimal.{ℤ, pos}
use statsd_c.Platform.{Platform}
use statsd_c.Platform.Laws.{HashLaws, ArrayLaws}
use statsd_c.Store.{State, fits_key}
use statsd_c.Store.View.{Metrics, view, IsValid, Does, Does-then}
use statsd_c.Packet.{process_stats_packet}
use statsd_c.Packet.Tokens.{Free}
use statsd_c.Packet.Report.{Report, IsWritable, render_packet, meanings}
use statsd_c.Packet.Effect.{seen, process_stats_packet-Does}
use statsd_c.Queue.{Queue, queue_init}
use statsd_c.Queue.Fifo.{Holds, queue_init-Holds}
use statsd_c.Worker.{
  buflen, c_string, received, datagram, udp_rounds, is_json, process_packet, drain_queue,
}
use statsd_c.Worker.Drain.{process_all, drain_queue-Holds, udp_rounds-Holds}

-- A packet of the line format: the name, with its first byte, and the reports, with the first one.
pub record Line : Type 0 where
  pub first : ℕ
  pub others : Bytes
  pub report : Report
  pub reports : List Report

abbrev pub name : Line → Bytes
name l = l.first ∷ l.others

abbrev pub all_reports : Line → List Report
all_reports l = l.report ∷ l.reports

abbrev pub text : Line → Bytes
text l = render_packet (name l) (all_reports l)

-- The name has no colon, does not look like JSON and fits a key, the reports are writable, and the
-- text has no NUL and fits the buffer of the UDP thread.
pub record IsSendable (l : Line) : Type 0 where
  pub no_colon : Free b':' (name l)
  pub no_json : (l.first == b'{' || l.first == b'[') ≡ false
  pub fits : fits_key (sanitize_key (name l)) ≡ true
  pub writable : All IsWritable (all_reports l)
  pub no_nul : All (λ c. (c == 0) ≡ false) (text l)
  pub short : length (text l) < buflen

take-of_length_le : (n : ℕ) (t : Bytes) → length t ≤ n → take n t ≡ t
take-of_length_le zero [] h = refl
take-of_length_le (suc n) [] h = refl
take-of_length_le zero (c ∷ t) h = absurd (omega arith)
take-of_length_le (suc n) (c ∷ t) h = ap (◌∷◌ c) (take-of_length_le n t (omega arith))

c_string-eq_self : (t : Bytes) → All (λ c. (c == 0) ≡ false) t → c_string t ≡ t
unfolding c_string
c_string-eq_self [] h = refl
c_string-eq_self (c ∷ cs) h = rw (h.0, c_string-eq_self cs h.1) refl

-- A datagram that the UDP thread stores as it came: it has a byte, no NUL, and fits the buffer.
pub record IsWhole (t : Bytes) : Type 0 where
  pub some_byte : t ≢ []
  pub no_nul : All (λ c. (c == 0) ≡ false) t
  pub short : length t < buflen

pub text-IsWhole : (l : Line) → IsSendable l → IsWhole (text l)
text-IsWhole l w = record { some_byte = λ e. cc; no_nul = w.no_nul; short = w.short }

All-IsWhole : (ls : List Line) → All IsSendable ls → All IsWhole (map text ls)
All-IsWhole [] h = tt
All-IsWhole (l ∷ ls) h = (text-IsWhole l h.0, All-IsWhole ls h.1)

received-eq_self : (t : Bytes) → IsWhole t → received t ≡ t
unfolding received
received-eq_self t w =
    ap c_string (take-of_length_le (buflen - 1) t (omega (arith, w.short)))
    ∙ c_string-eq_self t w.no_nul

map-received : (ts : List Bytes) → All IsWhole ts → map received ts ≡ ts
map-received [] h = refl
map-received (t ∷ ts) h = rw (received-eq_self t h.0, map-received ts h.1) refl

All-some_byte : (ts : List Bytes) → All IsWhole ts → All (λ d. d ≢ []) ts
All-some_byte [] h = tt
All-some_byte (t ∷ ts) h = (h.0.some_byte, All-some_byte ts h.1)

length-texts : (ls : List Line) → length (map text ls) ≡ length ls
length-texts [] = refl
length-texts (l ∷ ls) = ap suc (length-texts ls)

-- Packets that the queue thread carries out, behind the socket and the ring: the metrics change in
-- the same way, and the ring is empty again.
pub arrival-Does :
    (P : Platform) (size fuel : ℕ) (ts : List Bytes) (clock : ℕ → ℤ) (s : State P)
    {g : Metrics P → Metrics P}
    → 0 < size
    → length ts ≤ size
    → length ts < fuel
    → All IsWhole ts
    → Does P (process_all P clock ts) s g
    → (q : Queue) × (t : State P) × (drain_queue P size fuel clock
          (udp_rounds size (map datagram ts) queue_init)
          s
        ≡ ok (q, t))
      × Holds size q []
      × (view P t ≡ g (view P s))
      × IsValid P t
arrival-Does P size fuel ts clock s positive room enough w d =
    let stored : Holds size (udp_rounds size (map datagram ts) queue_init) ts =
      subst (Holds size (udp_rounds size (map datagram ts) queue_init)) (map-received ts w) (
        udp_rounds-Holds size ts queue_init [] (queue_init-Holds size positive) (All-some_byte ts w)
          (omega (arith, room))) in
    let (q, empty, drained) = drain_queue-Holds P size fuel clock ts _ s stored enough d.returns in
    (q, d.after, drained, empty, d.viewed, d.valid)

module _ {P : Platform} (H : HashLaws P) (A : ArrayLaws P) where
  pub process_packet-text :
      (now : ℤ) (l : Line)
      → IsSendable l
      → process_packet P now (text l) ≡ process_stats_packet P now (text l)
  unfolding process_packet is_json
  process_packet-text now l w = rw w.no_json refl

  -- What the reports mean, each packet at its time.
  abbrev pub arrived : (ℕ → ℕ) → List Line → Metrics P → Metrics P
  arrived clock [] m = m
  arrived clock (l ∷ ls) m =
      arrived (λ n. clock (n + 1)) ls
        (seen H (clock 0) (meanings P (sanitize_key (name l)) (all_reports l) m))

  process_all-Does :
      (ls : List Line) (clock : ℕ → ℕ) (s : State P)
      → All IsSendable ls
      → ((n : ℕ) → clock n < 10 ^ 19)
      → IsValid P s
      → Does P (process_all P (λ n. pos (clock n)) (map text ls)) s (arrived clock ls)
  unfolding process_all
  process_all-Does [] clock s w small v = record {
    after = s;
    returns = refl;
    viewed = refl;
    locks_kept = refl;
    valid = v;
  }
  process_all-Does (l ∷ ls) clock s w small v =
      let one =
        process_stats_packet-Does H A l.first l.others l.report l.reports (clock 0) s w.0.no_colon
          w.0.fits w.0.writable (small 0) v in
      rw (process_packet-text (pos (clock 0)) l w.0) (
        Does-then P one
          (process_all-Does ls (λ n. clock (n + 1)) one.after w.1 (λ n. small (n + 1)) one.valid))

  -- What clients send is what the server counts. Any packets that can be sent in the line format,
  -- no more than the ring has slots, that come in as datagrams at an empty ring, are all stored,
  -- taken out in their order and carried out: the metrics change by what every report of every
  -- packet means, each packet is recorded as the last one seen, and the ring is empty again. The
  -- fuel of the queue thread's loop is above the number of packets, and times are below 10^19.
  lines-Does :
      (size fuel : ℕ) (ls : List Line) (clock : ℕ → ℕ) (s : State P)
      → 0 < size
      → length ls ≤ size
      → length ls < fuel
      → All IsSendable ls
      → ((n : ℕ) → clock n < 10 ^ 19)
      → IsValid P s
      → (q : Queue) × (t : State P) × (drain_queue P size fuel
            (λ n. pos (clock n))
            (udp_rounds size (map datagram (map text ls)) queue_init)
            s
          ≡ ok (q, t))
        × Holds size q []
        × (view P t ≡ arrived clock ls (view P s))
        × IsValid P t
  lines-Does size fuel ls clock s positive room enough w small v =
      arrival-Does P size fuel (map text ls) (λ n. pos (clock n)) s positive
        (omega (arith, length-texts ls, room)) (omega (arith, length-texts ls, enough))
        (All-IsWhole ls w) (process_all-Does ls clock s w small v)

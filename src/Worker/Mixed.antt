-- ===== src/Worker/Mixed.antt =====
-- Packets of both protocols of src/statsd.c, from the socket to the tables.
use statsd_c.Base.{ℕ, ◌+◌, ◌<◌, ◌≤◌, ◌^◌, ◌≡◌, refl, true, List, [], ◌∷◌, Bytes, All, map, length}
use statsd_c.Exec.{ok}
use statsd_c.Strings.{sanitize_key}
use statsd_c.Strings.Decimal.{ℤ, pos}
use statsd_c.Platform.{Platform, json_object, json_array, parsed}
use statsd_c.Platform.Laws.{HashLaws, ArrayLaws}
use statsd_c.Store.{State}
use statsd_c.Store.View.{Metrics, view, IsValid, Does, Does-then}
use statsd_c.Packet.Report.{meanings}
use statsd_c.Packet.Effect.{seen, process_stats_packet-Does}
use statsd_c.Json.{process_json_stats_packet}
use statsd_c.Json.Effect.{
  Asks, AllAsk, process_json_stats_packet-array, process_json_stats_packet-object,
}
use statsd_c.Queue.{Queue, queue_init}
use statsd_c.Queue.Fifo.{Holds}
use statsd_c.Worker.{datagram, udp_rounds, is_json, process_packet, drain_queue}
use statsd_c.Worker.Drain.{process_all}
use statsd_c.Worker.Arrival.{
  Line, IsSendable, IsWhole, name, all_reports, text, text-IsWhole, process_packet-text,
  arrival-Does,
}

module _ {P : Platform} (H : HashLaws P) (A : ArrayLaws P) where
  -- What a packet means at the time `now`: one of the line format, or a JSON text that json-c reads
  -- as an array of objects or as an object.
  pub data Means (now : ℕ) : Bytes → (Metrics P → Metrics P) → Type 0 where
    line :
        (l : Line)
        → IsSendable l
        → Means now
            (text l)
            (λ m. seen H now (meanings P (sanitize_key (name l)) (all_reports l) m))
    array :
        (buf : Bytes) (j : P.Json) (g : Metrics P → Metrics P)
        → is_json P buf ≡ true
        → 2 ≤ length buf
        → IsWhole buf
        → P.json_tokener_parse buf ≡ parsed j
        → P.json_get_type j ≡ json_array
        → AllAsk P (P.json_array_items j) g
        → Means now buf g
    object :
        (buf : Bytes) (j : P.Json) (g : Metrics P → Metrics P)
        → is_json P buf ≡ true
        → 2 ≤ length buf
        → IsWhole buf
        → P.json_tokener_parse buf ≡ parsed j
        → P.json_get_type j ≡ json_object
        → Asks P j g
        → Means now buf g

  -- One packet after the other, each at its time.
  pub data AllMean : (ℕ → ℕ) → List Bytes → (Metrics P → Metrics P) → Type 0 where
    none_left : (clock : ℕ → ℕ) → AllMean clock [] (λ m. m)
    next :
        (clock : ℕ → ℕ) (t : Bytes) (ts : List Bytes) (g h : Metrics P → Metrics P)
        → Means (clock 0) t g
        → AllMean (λ n. clock (n + 1)) ts h
        → AllMean clock (t ∷ ts) (λ m. h (g m))

  Means-IsWhole : {now : ℕ} {t : Bytes} {g : Metrics P → Metrics P} → Means now t g → IsWhole t
  Means-IsWhole (line l w) = text-IsWhole l w
  Means-IsWhole (array buf j g a b w c d e) = w
  Means-IsWhole (object buf j g a b w c d e) = w

  AllMean-IsWhole :
      (ts : List Bytes) {clock : ℕ → ℕ} {g : Metrics P → Metrics P}
      → AllMean clock ts g
      → All IsWhole ts
  AllMean-IsWhole [] (none_left clock) = tt
  AllMean-IsWhole (t ∷ ts) (next clock _ _ g h m rest) = (Means-IsWhole m, AllMean-IsWhole ts rest)

  process_packet-json :
      (now : ℤ) (buf : Bytes)
      → is_json P buf ≡ true
      → process_packet P now buf ≡ process_json_stats_packet P now buf
  unfolding process_packet is_json
  process_packet-json now buf e = rw e refl

  process_packet-Does :
      (now : ℕ) (t : Bytes) {g : Metrics P → Metrics P} (s : State P)
      → Means now t g
      → now < 10 ^ 19
      → IsValid P s
      → Does P (process_packet P (pos now) t) s g
  process_packet-Does now _ s (line l w) small v = rw (process_packet-text H A (pos now) l w) (
      process_stats_packet-Does H A l.first l.others l.report l.reports now s w.no_colon w.fits
        w.writable small v)
  process_packet-Does now _ s (array buf j g a b w c d e) small v =
      rw (process_packet-json (pos now) buf a)
        (process_json_stats_packet-array H A (pos now) buf j g s b c d e v)
  process_packet-Does now _ s (object buf j g a b w c d e) small v =
      rw (process_packet-json (pos now) buf a)
        (process_json_stats_packet-object H A (pos now) buf j g s b c d e v)

  process_all-Does :
      (ts : List Bytes) {clock : ℕ → ℕ} {g : Metrics P → Metrics P} (s : State P)
      → AllMean clock ts g
      → ((n : ℕ) → clock n < 10 ^ 19)
      → IsValid P s
      → Does P (process_all P (λ n. pos (clock n)) ts) s g
  unfolding process_all
  process_all-Does [] s (none_left clock) small v = record {
    after = s;
    returns = refl;
    viewed = refl;
    locks_kept = refl;
    valid = v;
  }
  process_all-Does (t ∷ ts) s (next clock _ _ g h m rest) small v =
      let one = process_packet-Does (clock 0) t s m (small 0) v in
      Does-then P one (process_all-Does ts one.after rest (λ n. small (n + 1)) one.valid)

  -- What clients send is what the server counts. Any packets, each of the line format or a JSON
  -- text that json-c reads as an object or as an array of objects, no more than the ring has slots,
  -- that come in as datagrams at an empty ring, are all stored, taken out in their order and carried
  -- out: the metrics change by what the packets mean, one after the other, each at its time, and
  -- the ring is empty again. The fuel of the queue thread's loop is above the number of packets, and
  -- times are below 10^19.
  pub packets-Does :
      (size fuel : ℕ) (ts : List Bytes) (clock : ℕ → ℕ) (g : Metrics P → Metrics P) (s : State P)
      → 0 < size
      → length ts ≤ size
      → length ts < fuel
      → AllMean clock ts g
      → ((n : ℕ) → clock n < 10 ^ 19)
      → IsValid P s
      → (q : Queue) × (t : State P) × (drain_queue P size fuel
            (λ n. pos (clock n))
            (udp_rounds size (map datagram ts) queue_init)
            s
          ≡ ok (q, t))
        × Holds size q []
        × (view P t ≡ g (view P s))
        × IsValid P t
  packets-Does size fuel ts clock g s positive room enough m small v =
      arrival-Does P size fuel ts (λ n. pos (clock n)) s positive room enough (AllMean-IsWhole ts m)
        (process_all-Does ts s m small v)

-- ===== src/Server/Names.antt =====
-- No name comes twice into a table of src/statsd.c, whatever packets mean.
use statsd_c.Base.{codes, Bool-cases, inl, inr, ℕ, sym, none, some, Option, List, [], ◌∷◌, Bytes}
use mathlib.Core.Path.{subst}
use statsd_c.Base.Assoc.{Distinct, map_values, Distinct-alter, Distinct-map_values}
use statsd_c.Strings.Decimal.{ℤ, pos}
use statsd_c.Platform.{Platform}
use statsd_c.Platform.Laws.{HashLaws, ArrayLaws}
use statsd_c.Store.{stat_name}
use statsd_c.Store.View.{Metrics, plus, collect, count, set_gauge, time, set_stat}
use statsd_c.Packet.Report.{Report, counter, gauge, gauge_down, gauge_up, timer, meaning, meanings}
use statsd_c.Json.Effect
use statsd_c.Json.Effect.{Asks, AllAsk, done, more}
use statsd_c.Worker.Arrival.{name, all_reports}
use statsd_c.Strings.{sanitize_key}
use statsd_c.Worker.Mixed.{Means, line, array, object, AllMean, none_left, next}
use statsd_c.Flush.Posted.{recorded, recording, flushed}
use statsd_c.Flush.{Round, graphite_socket}

module _ (P : Platform) where
  -- No two entries of a table have the same name.
  pub record NamesDiffer (m : Metrics P) : Type 0 where
    pub stats : Distinct m.stats
    pub counters : Distinct m.counters
    pub gauges : Distinct m.gauges
    pub timers : Distinct m.timers

  abbrev pub Keeps : (Metrics P → Metrics P) → Type 0
  Keeps g = (m : Metrics P) → NamesDiffer m → NamesDiffer (g m)

  count-Keeps : (key : Bytes) (d : P.LongDouble) → Keeps (count P key d)
  count-Keeps key d m n = record {
    stats = n.stats;
    counters = Distinct-alter key (plus P d) m.counters n.counters;
    gauges = n.gauges;
    timers = n.timers;
  }

  set_gauge-Keeps :
      (key : Bytes) (f : Option P.LongDouble → P.LongDouble) → Keeps (set_gauge P key f)
  set_gauge-Keeps key f m n = record {
    stats = n.stats;
    counters = n.counters;
    gauges = Distinct-alter key f m.gauges n.gauges;
    timers = n.timers;
  }

  time-Keeps : (key : Bytes) (d : P.Double) → Keeps (time P key d)
  time-Keeps key d m n = record {
    stats = n.stats;
    counters = n.counters;
    gauges = n.gauges;
    timers = Distinct-alter key (collect P d) m.timers n.timers;
  }

  pub set_stat-Keeps : (group key : Bytes) (z : ℤ) → Keeps (set_stat P group key z)
  set_stat-Keeps group key z m n = record {
    stats = Distinct-alter (stat_name group key) (λ _. z) m.stats n.stats;
    counters = n.counters;
    gauges = n.gauges;
    timers = n.timers;
  }

  meaning-Keeps : (key : Bytes) (r : Report) → Keeps (meaning P key r)
  meaning-Keeps key (counter n none) = count-Keeps key _
  meaning-Keeps key (counter n (some r)) = count-Keeps key _
  meaning-Keeps key (gauge n) = set_gauge-Keeps key _
  meaning-Keeps key (gauge_down n) = set_gauge-Keeps key _
  meaning-Keeps key (gauge_up n) = set_gauge-Keeps key _
  meaning-Keeps key (timer n) = time-Keeps key _

  meanings-Keeps : (key : Bytes) (rs : List Report) → Keeps (meanings P key rs)
  meanings-Keeps key [] m n = n
  meanings-Keeps key (r ∷ rs) m n =
      meanings-Keeps key rs (meaning P key r m) (meaning-Keeps key r m n)

  Asks-Keeps : {j : P.Json} {g : Metrics P → Metrics P} → Asks P j g → Keeps g
  Asks-Keeps (Effect.timer t v a b c d e) = subst Keeps (sym e) (time-Keeps _ _)
  Asks-Keeps (Effect.counter t v a b c d e) = subst Keeps (sym e) (count-Keeps _ _)
  Asks-Keeps (Effect.both t c a b e) = subst Keeps (sym e) (λ m n. n)
  Asks-Keeps (Effect.neither a b e) = subst Keeps (sym e) (λ m n. n)
  Asks-Keeps (Effect.timer_alone t a b c e) = subst Keeps (sym e) (λ m n. n)
  Asks-Keeps (Effect.counter_alone t a b c e) = subst Keeps (sym e) (λ m n. n)

  AllAsk-Keeps : (js : List (Option P.Json)) {g : Metrics P → Metrics P} → AllAsk P js g → Keeps g
  AllAsk-Keeps [] done m n = n
  AllAsk-Keeps (_ ∷ js) (more j g o a rest) m n = AllAsk-Keeps js rest (g m) (Asks-Keeps a m n)

  -- A round of the flush thread.
  pub flushed-Keeps : (r : Round) (sent : ℕ) → Keeps (flushed r sent)
  flushed-Keeps r sent m n =
      recording-Keeps
        (record m {
          counters = map_values (λ _. P.long_of_nat 0) m.counters;
          timers = map_values (λ _. []) m.timers;
        })
        (record {
          stats = n.stats;
          counters = Distinct-map_values (λ _. P.long_of_nat 0) m.counters n.counters;
          gauges = n.gauges;
          timers = Distinct-map_values (λ _. []) m.timers n.timers;
        })
    where
      recorded-Keeps : (o : Option ℤ) → Keeps (recorded o sent)
      recorded-Keeps none m n = n
      recorded-Keeps (some sock) m n =
          set_stat-Keeps (codes "graphite") (codes "last_flush") (pos sent) m n

      recording-Keeps : Keeps (recording r sent)
      recording-Keeps = elim (Bool-cases r.enable_graphite) [
        | inl on ↦ rw on (recorded-Keeps (graphite_socket r.inet_pton r.socket))
        | inr off ↦ rw off (λ m n. n)
      ]

module _ {P : Platform} (H : HashLaws P) (A : ArrayLaws P) where
  Means-Keeps : {now : ℕ} {t : Bytes} {g : Metrics P → Metrics P} → Means H A now t g → Keeps P g
  Means-Keeps {now} (line l w) m n =
      set_stat-Keeps P (codes "messages") (codes "last_msg_seen") (pos now) _
        (meanings-Keeps P (sanitize_key (name l)) (all_reports l) m n)
  Means-Keeps (array buf j g a b w c d e) m n = AllAsk-Keeps P (P.json_array_items j) e m n
  Means-Keeps (object buf j g a b w c d e) m n = Asks-Keeps P e m n

  pub AllMean-Keeps :
      (ts : List Bytes) {clock : ℕ → ℕ} {g : Metrics P → Metrics P}
      → AllMean H A clock ts g
      → Keeps P g
  AllMean-Keeps [] (none_left clock) m n = n
  AllMean-Keeps (t ∷ ts) (next clock _ _ g h one rest) m n =
      AllMean-Keeps ts rest (g m) (Means-Keeps one m n)

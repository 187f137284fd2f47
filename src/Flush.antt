-- ===== src/Flush.antt =====
-- One round of `p_thread_flush` of src/statsd.c: what it writes for graphite and sends to ganglia,
-- and what it resets. The sockets are outside: a message is a value, and `Round` says which calls
-- succeeded.
mod Output
pub mod Parts
pub mod Said
pub mod Figures
pub mod Counters
pub mod Extremes
pub mod Mean
pub mod Timers
pub mod Emptied
pub mod Resets
pub mod Posted
pub mod Whole
unfoldable pub use Output.*
use statsd_c.Base.{
  ℕ, zero, suc, ◌+◌, ◌-◌, Bool, true, false, ◌&&◌, Option, none, some, List, [], ◌∷◌, ◌++◌, Bytes,
  ◌==◌, ltb, leb, length, take, codes, if◌then◌else◌,
}
use statsd_c.Base.Assoc.{Assoc}
use statsd_c.Exec.{
  Exec, Result, ok, fault, pure, raise, gets, modify, check, lift, overflow, use_after_free, killed,
  ◌>>=◌, ◌>>◌,
}
use statsd_c.Strings.Decimal.{ℤ, pos, negsuc, print_ld, ltoa}
use statsd_c.Platform.{Platform}
use statsd_c.Store.{
  State, Timer, wait_for_counters_lock, remove_counters_lock, wait_for_timers_lock,
  remove_timers_lock,
}
use statsd_c.Store.Update.{update_stat}
use Figures.{TimerFigures, timer_figures}

module _ (P : Platform) where
  open P use {
    Double, LongDouble, print_f, print_lf, widen, div_double, div_long, long_of_nat, long_of_int,
    hash_write, hash_items, array_clear, array_new,
  }

  -- `SEND_GMETRIC_DOUBLE` and `SEND_GMETRIC_INT`: the value is printed into 30 bytes.
  abbrev pub send_gmetric : Bool → Bytes → Bytes → Bytes → Bytes → Out → Exec (State P) Out
  send_gmetric is_double group name value units o = do
    check (leb (length value + 1) 30) overflow
    pure (with_message is_double group name value units o)

  -- Two messages, one under the prefixed name.
  pub two_messages : Round → Bytes → LongDouble → LongDouble → Bytes → Out → Exec (State P) Out
  two_messages r key value whole units o =
      let k = prefixed r.ganglia_metric_prefix key in
      if gmetric_on r
      then (send_gmetric true k k (print_lf value) units o >>= λ o'.
          send_gmetric true key key (print_lf whole) units o')
      else pure o

  abbrev pub counter_text : Round → Bytes → LongDouble → List Bytes
  counter_text r key c =
      codes "stats."
      ∷ key
      ∷ codes " "
      ∷ print_lf (div_long c (long_of_int r.flush_interval))
      ∷ codes " "
      ∷ print_ld r.ts
      ∷ codes "\nstats_counts_"
      ∷ key
      ∷ codes " "
      ∷ print_lf c
      ∷ codes " "
      ∷ print_ld r.ts
      ∷ codes "\n"
      ∷ []

  pub reset_counter : Bytes → Exec (State P) (Unit {0})
  reset_counter key = do
    wait_for_counters_lock P
    modify λ s. record s { counters = hash_write LongDouble key (long_of_nat 0) s.counters }
    remove_counters_lock P

  -- The loop over the counters: print, send, set to 0.
  unfoldable pub flush_counters : Round → Assoc LongDouble → Out → Exec (State P) Out
  flush_counters r [] o = pure o
  flush_counters r ((key, c) ∷ rest) o = do
    o' ←
        two_messages r key (div_long c (long_of_int r.flush_interval)) c (codes "count")
          (print_stat r.enable_graphite (counter_text r key c) o)
    reset_counter key
    flush_counters r rest (one_more o')

  abbrev pub gauge_text : Round → Bytes → LongDouble → List Bytes
  gauge_text r key g =
      codes "stats."
      ∷ key
      ∷ codes " "
      ∷ print_lf g
      ∷ codes " "
      ∷ print_ld r.ts
      ∷ codes "\nstats_gauges_"
      ∷ key
      ∷ codes " "
      ∷ print_lf g
      ∷ codes " "
      ∷ print_ld r.ts
      ∷ codes "\n"
      ∷ []

  -- The loop over the gauges, which keep their values.
  unfoldable pub flush_gauges : Round → Assoc LongDouble → Out → Exec (State P) Out
  flush_gauges r [] o = pure o
  flush_gauges r ((key, g) ∷ rest) o = do
    o' ←
        two_messages r key g g (codes "gauge") (print_stat r.enable_graphite (gauge_text r key g) o)
    flush_gauges r rest (one_more o')

  -- One line of a timer's text: `stats.timers.KEY.FIELD VALUE TS`.
  abbrev pub timer_line : Round → Bytes → Bytes → Bytes → List Bytes → List Bytes
  timer_line r key field value rest =
      codes "stats.timers."
      ∷ key
      ∷ codes "."
      ∷ field
      ∷ codes " "
      ∷ value
      ∷ codes " "
      ∷ print_ld r.ts
      ∷ codes "\n"
      ∷ rest

  -- The text is printed after `count` was reset, and reads it again.
  abbrev pub timer_text : Round → Bytes → TimerFigures P → ℕ → List Bytes
  timer_text r key f count = timer_line r key (codes "mean") (print_f f.mean) (
      timer_line r key (codes "upper") (print_f f.max) (
        timer_line r key (codes "upper_" ++ print_ld r.percentile) (print_f f.max_at_threshold) (
          timer_line r key (codes "lower") (print_f f.min)
            (timer_line r key (codes "count") (print_ld (pos count)) []))))

  -- A figure in seconds, under the timer's name with a suffix: the cast to `long double` binds
  -- before the division.
  abbrev pub send_seconds : Bytes → Bytes → Double → Out → Exec (State P) Out
  send_seconds key suffix d =
      send_gmetric true key (key ++ suffix) (print_lf (div_long (widen d) (long_of_nat 1000)))
        (codes "sec")

  -- The buffer of the percentile's name has 12 bytes beside the key.
  abbrev pub percentile_suffix : Round → Bytes
  percentile_suffix r = codes "_" ++ (print_ld r.percentile ++ codes "th_pct")

  pub timer_messages : Round → Bytes → TimerFigures P → ℕ → Out → Exec (State P) Out
  timer_messages r key f count o = do
    o₁ ← send_seconds key (codes "_mean") f.mean o
    o₂ ← send_seconds key (codes "_upper") f.max o₁
    check (leb (length (percentile_suffix r) + 1) 12) overflow
    o₃ ← send_seconds key (percentile_suffix r) f.max_at_threshold o₂
    o₄ ← send_seconds key (codes "_lower") f.min o₃
    send_gmetric false key (key ++ codes "_count") (print_ld (pos count)) (codes "count") o₄

  -- The end of the locked part: `utarray_clear`, `count = 0`, and the lock given back.
  pub reset_timer : Bytes → Timer P → Exec (State P) (Unit {0})
  reset_timer key t = do
    modify λ s. record s {
      timers =
          hash_write (Timer P) key (record { count = 0; values = array_clear t.values }) s.timers;
    }
    remove_timers_lock P

  -- The locked part behind `wait_for_timers_lock`: the figures, and the reset.
  pub locked_timer : Round → Bytes → Timer P → Exec (State P) (TimerFigures P)
  locked_timer r key t = do
    f ← lift (timer_figures P r.percentile t.count t.values)
    reset_timer key t
    pure f

  pub report_timer : Round → Bytes → TimerFigures P → ℕ → Out → Exec (State P) Out
  unfolding timer_messages
  report_timer r key f count o =
      let o' = print_stat r.enable_graphite (timer_text r key f count) o in
      if gmetric_on r then timer_messages r key f count o' else pure o'

  -- `s_timer->count`, read through the pointer to the entry; no entry is ever removed.
  pub count_now : Bytes → Exec (State P) ℕ
  count_now key s = elim (P.hash_find (Timer P) key s.timers) [
    | none ↦ fault use_after_free
    | some t ↦ ok (t.count, s)
  ]

  -- The count that is reported is read again, after the lock is given back.
  unfoldable pub flush_timer : Round → Bytes → Timer P → Out → Exec (State P) Out
  flush_timer r key t o = do
    wait_for_timers_lock P
    f ← locked_timer r key t
    count ← count_now key
    report_timer r key f count o

  -- The loop over the timers; one with no value is only counted.
  unfoldable pub flush_timers : Round → Assoc (Timer P) → Out → Exec (State P) Out
  unfolding flush_timer
  flush_timers r [] o = pure o
  flush_timers r ((key, t) ∷ rest) o = do
    o' ← if ltb 0 t.count then flush_timer r key t o else pure o
    flush_timers r rest (one_more o')

  abbrev pub totals_text : Round → Out → List Bytes
  totals_text r o =
      codes "statsd.numStats "
      ∷ print_ld (pos o.num_stats)
      ∷ codes " "
      ∷ print_ld r.ts
      ∷ codes "\n"
      ∷ []

  unfoldable pub flush_totals : Round → Out → Exec (State P) Out
  flush_totals r o =
      let o' = print_stat r.enable_graphite (totals_text r o) o in
      if gmetric_on r
      then send_gmetric false (codes "statsd") (codes "statsd_numstats_collected")
          (print_ld (pos o.num_stats)) (codes "count") o'
      else pure o'

  -- After sending: `graphite.last_flush`, printed into 12 bytes.
  unfoldable pub record_flush : Round → Exec (State P) (Unit {0})
  record_flush r = do
    check (leb (length (print_ld r.sent_at) + 1) 12) overflow
    update_stat P (codes "graphite") (codes "last_flush") (print_ld r.sent_at)

  -- The bytes that `send` took, if the process outlives it.
  pub delivered : SendResult → Bytes → Exec (State P) (Option Bytes)
  delivered (taken n) text = pure (some (take n text))
  delivered send_failed text = pure none
  delivered sigpipe text = raise killed

  -- `connect` and `send`, whose results are not looked at, and `close`; then the stat.
  unfoldable pub graphite_sent : Round → Out → Option ℤ → Exec (State P) Out
  unfolding record_flush delivered
  graphite_sent r o none = pure o
  graphite_sent r o (some sock) = do
    sent ← delivered (r.send r.connect) o.stat_string
    record_flush r
    pure (record o { sent = sent })

  unfoldable pub graphite_flush : Round → Out → Exec (State P) Out
  unfolding graphite_sent graphite_socket
  graphite_flush r o = graphite_sent r o (graphite_socket r.inet_pton r.socket)

  -- The body of the loop behind THREAD_SLEEP, without the dump for debugging. `ts_string` is
  -- printed into 20 bytes and not used.
  unfoldable pub flush_round : Round → Exec (State P) Out
  unfolding flush_totals graphite_flush
  flush_round r = do
    ts_string ← lift (ltoa r.ts)
    cs ← gets (λ s. hash_items LongDouble s.counters)
    o₁ ←
        flush_counters r cs (record { stat_string = []; messages = []; num_stats = 0; sent = none })
    ts ← gets (λ s. hash_items (Timer P) s.timers)
    o₂ ← flush_timers r ts o₁
    gs ← gets (λ s. hash_items LongDouble s.gauges)
    o₃ ← flush_gauges r gs o₂
    o₄ ← flush_totals r o₃
    if r.enable_graphite then graphite_flush r o₄ else pure o₄

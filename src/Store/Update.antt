-- ===== src/Store/Update.antt =====
-- `update_stat`, `update_counter`, `update_gauge`, `update_gauge_plusminus`, `update_timer` and
-- `add_timer` of src/statsd.c, built without LOCK_OPTIMIZE. Each looks its key up first: what it
-- found goes to a helper with a clause for the entry and one for NULL.
use statsd_c.Base.{ℕ, ◌+◌, false, Option, none, some, Bytes, ltb, if◌then◌else◌}
use statsd_c.Exec.{Exec, pure, raise, gets, modify, uninitialised, ◌>>=◌, ◌>>◌}
use statsd_c.Strings.Decimal.{atol}
use statsd_c.Platform.{Platform}
use statsd_c.Store.{
  Stat, Timer, State, strcpy_key, stat_name, wait_for_stats_lock, remove_stats_lock,
  wait_for_counters_lock, remove_counters_lock, wait_for_gauges_lock, remove_gauges_lock,
  wait_for_timers_lock, remove_timers_lock,
}

module _ (P : Platform) where
  open P use {
    Double, LongDouble, of_nat, sub_double, add_double, mul_double, div_double, eq_double, widen,
    add_long, sub_long, hash_find, hash_add, hash_write, array_new, array_push_back,
  }

  -- What one report adds to a counter: a sample rate of 0 stands for none.
  abbrev pub increment : Double → Double → Double
  increment value sample_rate =
      if eq_double sample_rate (of_nat 0)
      then value
      else mul_double value (div_double (of_nat 1) sample_rate)

  counter_found : Bytes → Double → Double → Option LongDouble → Exec (State P) (Unit {0})
  counter_found key value sample_rate (some c) = do
    wait_for_counters_lock P
    modify λ s. record s {
      counters =
          hash_write LongDouble key (add_long c (widen (increment value sample_rate))) s.counters;
    }
    remove_counters_lock P
  counter_found key value sample_rate none = do
    strcpy_key P key
    wait_for_counters_lock P
    modify λ s. record s {
      counters = hash_add LongDouble key (widen (increment value sample_rate)) s.counters;
    }
    remove_counters_lock P

  unfoldable pub update_counter : Bytes → Double → Double → Exec (State P) (Unit {0})
  unfolding counter_found
  update_counter key value sample_rate = do
    c ← gets (λ s. hash_find LongDouble key s.counters)
    counter_found key value sample_rate c

  -- `plusminus`: 0 sets, 1 subtracts, 2 adds; the old value stays for any other.
  abbrev pub plusminus_found : ℕ → Double → LongDouble → LongDouble
  plusminus_found plusminus value g =
      if ltb plusminus 1
      then widen value
      else if ltb plusminus 2
      then sub_long g (widen value)
      else if ltb plusminus 3
      then add_long g (widen value)
      else g

  -- The value of a new gauge, which is not set for any other `plusminus`.
  abbrev pub plusminus_new : ℕ → Double → Option LongDouble
  plusminus_new plusminus value =
      if ltb plusminus 1
      then some (widen value)
      else if ltb plusminus 2
      then some (widen (sub_double (of_nat 0) value))
      else if ltb plusminus 3
      then some (widen (add_double (of_nat 0) value))
      else none

  gauge_set : Option LongDouble → Exec (State P) LongDouble
  gauge_set (some g) = pure g
  gauge_set none = raise uninitialised

  plusminus_gauge_found : Bytes → Double → ℕ → Option LongDouble → Exec (State P) (Unit {0})
  unfolding gauge_set
  plusminus_gauge_found key value plusminus (some g) = do
    wait_for_gauges_lock P
    modify λ s. record s {
      gauges = hash_write LongDouble key (plusminus_found plusminus value g) s.gauges;
    }
    remove_gauges_lock P
  plusminus_gauge_found key value plusminus none = do
    strcpy_key P key
    g ← gauge_set (plusminus_new plusminus value)
    wait_for_gauges_lock P
    modify λ s. record s { gauges = hash_add LongDouble key g s.gauges }
    remove_gauges_lock P

  unfoldable pub update_gauge_plusminus : Bytes → Double → ℕ → Exec (State P) (Unit {0})
  unfolding plusminus_gauge_found
  update_gauge_plusminus key value plusminus = do
    g ← gets (λ s. hash_find LongDouble key s.gauges)
    plusminus_gauge_found key value plusminus g

  gauge_found : Bytes → Double → Option LongDouble → Exec (State P) (Unit {0})
  gauge_found key value (some g) = do
    wait_for_gauges_lock P
    modify λ s. record s { gauges = hash_write LongDouble key (widen value) s.gauges }
    remove_gauges_lock P
  gauge_found key value none = do
    strcpy_key P key
    wait_for_gauges_lock P
    modify λ s. record s { gauges = hash_add LongDouble key (widen value) s.gauges }
    remove_gauges_lock P

  unfoldable pub update_gauge : Bytes → Double → Exec (State P) (Unit {0})
  unfolding gauge_found
  update_gauge key value = do
    g ← gets (λ s. hash_find LongDouble key s.gauges)
    gauge_found key value g

  timer_found : Bytes → Double → Option (Timer P) → Exec (State P) (Unit {0})
  timer_found key value (some t) = do
    wait_for_timers_lock P
    modify λ s. record s {
      timers =
          hash_write (Timer P) key
            (record { count = t.count + 1; values = array_push_back value t.values }) s.timers;
    }
    remove_timers_lock P
  timer_found key value none = do
    strcpy_key P key
    wait_for_timers_lock P
    modify λ s. record s {
      timers =
          hash_add (Timer P) key
            (record { count = 0 + 1; values = array_push_back value array_new }) s.timers;
    }
    remove_timers_lock P

  unfoldable pub update_timer : Bytes → Double → Exec (State P) (Unit {0})
  unfolding timer_found
  update_timer key value = do
    t ← gets (λ s. hash_find (Timer P) key s.timers)
    timer_found key value t

  -- The older function for timers, which counts before it stores.
  add_timer_found : Bytes → Double → Option (Timer P) → Exec (State P) (Unit {0})
  add_timer_found key value (some t) = do
    wait_for_timers_lock P
    modify λ s. record s {
      timers = hash_write (Timer P) key (record t { count = t.count + 1 }) s.timers;
    }
    modify λ s. record s {
      timers =
          hash_write (Timer P) key
            (record { count = t.count + 1; values = array_push_back value t.values }) s.timers;
    }
    remove_timers_lock P
  add_timer_found key value none = do
    strcpy_key P key
    wait_for_timers_lock P
    modify λ s. record s {
      timers =
          hash_add (Timer P) key (record { count = 1; values = array_push_back value array_new })
            s.timers;
    }
    remove_timers_lock P

  unfoldable pub add_timer : Bytes → Double → Exec (State P) (Unit {0})
  unfolding add_timer_found
  add_timer key value = do
    t ← gets (λ s. hash_find (Timer P) key s.timers)
    add_timer_found key value t

  stat_found : Bytes → Bytes → Bytes → Option Stat → Exec (State P) (Unit {0})
  stat_found group key value (some l) = do
    wait_for_stats_lock P
    modify λ s. record s {
      stats = hash_write Stat (stat_name group key) (record l { value = atol value }) s.stats;
    }
    remove_stats_lock P
  stat_found group key value none = do
    wait_for_stats_lock P
    modify λ s. record s {
      stats =
          hash_add Stat (stat_name group key)
            (record { group_name = group; key_name = key; value = atol value; locked = false })
            s.stats;
    }
    remove_stats_lock P

  -- The two `strcpy` into the local `l` come before the look-up.
  unfoldable pub update_stat : Bytes → Bytes → Bytes → Exec (State P) (Unit {0})
  unfolding stat_found
  update_stat group key value = do
    strcpy_key P group
    strcpy_key P key
    found ← gets (λ s. hash_find Stat (stat_name group key) s.stats)
    stat_found group key value found

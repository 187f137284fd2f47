-- ===== src/Store.antt =====
-- The globals that the handlers of src/statsd.c change, with the structs of src/stats.h,
-- src/counters.h, src/gauges.h and src/timers.h and their semaphores.
pub mod Update
pub mod View
pub mod Refine
pub mod Timers
pub mod AddTimer
use statsd_c.Base.{
  ℕ, ◌+◌, ◌-◌, Bool, List, [], ◌++◌, Bytes, ◌==◌, ltb, length, replicate, if◌then◌else◌,
}
use statsd_c.Exec.{Result, ok, fault, Exec, blocked, overflow, check}
use statsd_c.Strings.Decimal.{ℤ}
use statsd_c.Platform.{Platform}

-- `char key[100]`, `group_name[100]`, `key_name[100]`
abbrev pub key_size : ℕ
key_size = 100

-- The text and its NUL fit into a field of 100 bytes.
abbrev pub fits_key : Bytes → Bool
fits_key k = ltb (length k) key_size

-- The semaphores' values.
pub record Locks : Type 0 where
  pub stats_lock : ℕ
  pub counters_lock : ℕ
  pub gauges_lock : ℕ
  pub timers_lock : ℕ

-- `statsd_stat_name_t` zeroed by `memset` and filled by two `strcpy`: the 200 bytes that uthash
-- compares.
abbrev pub name_field : Bytes → Bytes
name_field x = x ++ replicate (key_size - length x) 0

abbrev pub stat_name : Bytes → Bytes → Bytes
stat_name group key = name_field group ++ name_field key

-- `statsd_stat_t`
pub record Stat : Type 0 where
  pub group_name : Bytes
  pub key_name : Bytes
  pub value : ℤ
  pub locked : Bool

module _ (P : Platform) where
  -- `statsd_timer_t`; its key is the table's.
  pub record Timer : Type 0 where
    pub count : ℕ
    pub values : P.Array

  -- Counters and gauges hold one `long double` beside the key.
  pub record State : Type 0 where
    pub stats : P.Table Stat
    pub counters : P.Table P.LongDouble
    pub gauges : P.Table P.LongDouble
    pub timers : P.Table Timer
    pub locks : Locks

  -- `strcpy` into a field of 100 bytes.
  abbrev pub strcpy_key : Bytes → Exec State (Unit {0})
  strcpy_key k = check (fits_key k) overflow

  -- `sem_wait` and `sem_post`, given how to read and write the semaphore.
  abbrev pub sem_wait : (Locks → ℕ) → (Locks → ℕ → Locks) → Exec State (Unit {0})
  sem_wait get put s =
      if get s.locks == 0
      then fault blocked
      else ok (tt, record s { locks = put s.locks (get s.locks - 1) })

  abbrev pub sem_post : (Locks → ℕ) → (Locks → ℕ → Locks) → Exec State (Unit {0})
  sem_post get put s = ok (tt, record s { locks = put s.locks (get s.locks + 1) })

  abbrev pub wait_for_stats_lock : Exec State (Unit {0})
  wait_for_stats_lock = sem_wait (λ l. l.stats_lock) (λ l n. record l { stats_lock = n })

  abbrev pub remove_stats_lock : Exec State (Unit {0})
  remove_stats_lock = sem_post (λ l. l.stats_lock) (λ l n. record l { stats_lock = n })

  abbrev pub wait_for_counters_lock : Exec State (Unit {0})
  wait_for_counters_lock = sem_wait (λ l. l.counters_lock) (λ l n. record l { counters_lock = n })

  abbrev pub remove_counters_lock : Exec State (Unit {0})
  remove_counters_lock = sem_post (λ l. l.counters_lock) (λ l n. record l { counters_lock = n })

  abbrev pub wait_for_gauges_lock : Exec State (Unit {0})
  wait_for_gauges_lock = sem_wait (λ l. l.gauges_lock) (λ l n. record l { gauges_lock = n })

  abbrev pub remove_gauges_lock : Exec State (Unit {0})
  remove_gauges_lock = sem_post (λ l. l.gauges_lock) (λ l n. record l { gauges_lock = n })

  abbrev pub wait_for_timers_lock : Exec State (Unit {0})
  wait_for_timers_lock = sem_wait (λ l. l.timers_lock) (λ l n. record l { timers_lock = n })

  abbrev pub remove_timers_lock : Exec State (Unit {0})
  remove_timers_lock = sem_post (λ l. l.timers_lock) (λ l n. record l { timers_lock = n })

-- ===== src/Startup.antt =====
-- The start of `main` in src/statsd.c up to the threads: the semaphores and `init_stats`.
pub mod Locks
pub mod Names
use statsd_c.Base.{
  ℕ, ◌+◌, Bool, true, false, Option, none, some, Bytes, leb, length, codes, if◌then◌else◌,
}
use statsd_c.Exec.{Exec, pure, check, overflow, ◌>>=◌, ◌>>◌}
use statsd_c.Strings.Decimal.{ℤ, print_ld}
use statsd_c.Platform.{Platform}
use statsd_c.Store.{Stat, Timer, State, remove_stats_lock}
use statsd_c.Store.Update.{update_stat}
use statsd_c.Serialize.Load.{statsd_deserialize}

module _ (P : Platform) where
  -- The tables are NULL, and `sem_init` gives each semaphore the value 1.
  unfoldable pub initial_state : State P
  initial_state = record {
    stats = P.hash_empty Stat;
    counters = P.hash_empty P.LongDouble;
    gauges = P.hash_empty P.LongDouble;
    timers = P.hash_empty (Timer P);
    locks = record { stats_lock = 1; counters_lock = 1; gauges_lock = 1; timers_lock = 1 };
  }

  -- With `-s` and without `-c` the file is loaded, whose text is the argument. What
  -- `statsd_deserialize` returns is not looked at.
  pub restore : Bool → Option (Option Bytes) → Exec (State P) (Unit {0})
  restore true file = pure tt
  restore false none = pure tt
  restore false (some file) = statsd_deserialize P file >>= λ _. pure tt

  -- The three stats that every server has.
  unfoldable pub first_stats : Bytes → Exec (State P) (Unit {0})
  first_stats startup_time =
      (update_stat P (codes "graphite") (codes "last_flush") startup_time
        >> update_stat P (codes "messages") (codes "last_msg_seen") startup_time)
      >> update_stat P (codes "messages") (codes "bad_lines_seen") (codes "0")

  -- The time is printed into 12 bytes.
  unfoldable pub init_stats : Bool → Option (Option Bytes) → ℤ → Exec (State P) (Unit {0})
  unfolding restore first_stats
  init_stats clear_stats serialize_file now = do
    check (leb (length (print_ld now) + 1) 12) overflow
    restore clear_stats serialize_file
    remove_stats_lock P
    first_stats (print_ld now)

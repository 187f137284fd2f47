-- ===== src/Startup/Locks.antt =====
-- What `init_stats` of src/statsd.c does to the tables and to `stats_lock`.
use statsd_c.Base.{
  ℕ, ◌+◌, ◌<◌, ◌^◌, ◌≡◌, ◌∙◌, refl, ap, Bool, true, false, Option, none, some, Bytes, codes, arith,
  leb, length,
}
use statsd_c.Exec.{ok}
use statsd_c.Strings.Decimal.{pos, print_ld, atol, atol-print_ld, length-print_ld-le}
use statsd_c.Platform.{Platform}
use statsd_c.Platform.Laws.{HashLaws}
use statsd_c.Store.{State}
use statsd_c.Store.View.{view, set_stat, IsValid, Does, Does-then}
use statsd_c.Store.Timers.{update_stat-Does}
use statsd_c.Serialize.Load.{statsd_deserialize}
use statsd_c.Startup.{restore, first_stats, init_stats}

-- No `-s`, or `-c` besides it, or a file that cannot be read.
abbrev pub Unloaded : Bool → Option (Option Bytes) → Type 0
Unloaded true file = Unit
Unloaded false none = Unit
Unloaded false (some none) = Unit
Unloaded false (some (some text)) = ⊥

module _ {P : Platform} (H : HashLaws P) where
  pub first_stats-Does :
      (t : Bytes) (s : State P)
      → IsValid P s
      → Does P (first_stats P t) s (λ m.
        set_stat P (codes "messages") (codes "bad_lines_seen") (atol (codes "0")) (
          set_stat P
            (codes "messages")
            (codes "last_msg_seen")
            (atol t)
            (set_stat P (codes "graphite") (codes "last_flush") (atol t) m)))
  unfolding first_stats
  first_stats-Does t s v =
      let a = update_stat-Does H (codes "graphite") (codes "last_flush") t s refl refl v in
      let b =
        update_stat-Does H (codes "messages") (codes "last_msg_seen") t a.after refl refl a.valid in
      let ab = Does-then P a b in
      Does-then P ab (
        update_stat-Does H (codes "messages") (codes "bad_lines_seen") (codes "0") ab.after refl
          refl ab.valid)

  -- The state behind `remove_stats_lock`.
  abbrev pub posted : State P → State P
  posted s = record s { locks = record s.locks { stats_lock = s.locks.stats_lock + 1 } }

  pub posted-IsValid : (s : State P) → IsValid P s → IsValid P (posted s)
  posted-IsValid s v = record {
    unlocked = record {
      stats_free = omega arith;
      counters_free = v.unlocked.counters_free;
      gauges_free = v.unlocked.gauges_free;
      timers_free = v.unlocked.timers_free;
    };
    counted = v.counted;
  }

  fits-time : (now : ℕ) → now < 10 ^ 11 → leb (length (print_ld (pos now)) + 1) 12 ≡ true
  fits-time now h = ground (arith, length-print_ld-le 10 now h)

  pub init_stats-steps :
      (clear_stats : Bool) (file : Option (Option Bytes)) (now : ℕ) (s : State P)
      → Unloaded clear_stats file
      → now < 10 ^ 11
      → init_stats P clear_stats file (pos now) s ≡ first_stats P (print_ld (pos now)) (posted s)
  unfolding init_stats restore statsd_deserialize
  init_stats-steps true file now s u h = rw (fits-time now h) refl
  init_stats-steps false none now s u h = rw (fits-time now h) refl
  init_stats-steps false (some none) now s u h = rw (fits-time now h) refl
  init_stats-steps false (some (some text)) now s u h = absurd u

  -- Where there is no text to load, `init_stats` sets the three first stats and nothing else of the
  -- metrics, but it posts `stats_lock` without having waited: the semaphore, 1 at first, is one
  -- greater from then on. The time has eleven digits at most.
  pub init_stats-posted :
      (clear_stats : Bool) (file : Option (Option Bytes)) (now : ℕ) (s : State P)
      → Unloaded clear_stats file
      → now < 10 ^ 11
      → IsValid P s
      → (s' : State P) × (init_stats P clear_stats file (pos now) s ≡ ok (tt, s'))
        × (s'.locks ≡ record s.locks { stats_lock = s.locks.stats_lock + 1 })
        × (view P s'
            ≡ set_stat P (codes "messages") (codes "bad_lines_seen") (atol (codes "0")) (
                set_stat P
                  (codes "messages")
                  (codes "last_msg_seen")
                  (pos now)
                  (set_stat P (codes "graphite") (codes "last_flush") (pos now) (view P s))))
  init_stats-posted clear_stats file now s u h v =
      let d = first_stats-Does (print_ld (pos now)) (posted s) (posted-IsValid s v) in
      (
        d.after,
        init_stats-steps clear_stats file now s u h ∙ d.returns,
        d.locks_kept,
        d.viewed
            ∙ ap
                (λ n. set_stat P (codes "messages") (codes "bad_lines_seen") (atol (codes "0")) (
                  set_stat P (codes "messages") (codes "last_msg_seen") n
                    (set_stat P (codes "graphite") (codes "last_flush") n (view P s))))
                (atol-print_ld (pos now)),
      )

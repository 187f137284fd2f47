-- ===== src/Store/AddTimer.antt =====
-- The two functions of src/statsd.c for timers.
use statsd_c.Base.{◌+◌, ◌<◌, ◌≡◌, refl, true, inl, inr, Bytes, arith, Option-cases}
use statsd_c.Base.Assoc.{replace-replace}
use statsd_c.Exec.{ok}
use statsd_c.Platform.{Platform}
use statsd_c.Platform.Laws.{HashLaws}
use statsd_c.Store.{State, Timer, fits_key}
use statsd_c.Store.Update.{add_timer, update_timer}

-- `add_timer` and `update_timer` do the same, on every name that fits while the lock is free: both
-- return, the tables of timers hold the same items, and nothing else changes.
pub add_timer-update_timer :
    {P : Platform} (H : HashLaws P) (key : Bytes) (value : P.Double) (s : State P)
    → fits_key key ≡ true
    → 0 < s.locks.timers_lock
    → (t u : P.Table (Timer P)) × (add_timer P key value s ≡ ok (tt, record s { timers = t }))
      × (update_timer P key value s ≡ ok (tt, record s { timers = u }))
      × (P.hash_items (Timer P) t ≡ P.hash_items (Timer P) u)
unfolding add_timer update_timer
add_timer-update_timer {P} H key value s fits free =
    elim (Option-cases (P.hash_find (Timer P) key s.timers)) [
      | inl e ↦
          let t : Timer P = record { count = 1; values = P.array_push_back value P.array_new } in
          let table = P.hash_add (Timer P) key t s.timers in
          (table, table, ground (arith, e), ground (arith, e), refl)
      | inr (t, e) ↦
          let counted : Timer P = record t { count = t.count + 1 } in
          let whole : Timer P = record {
            count = t.count + 1;
            values = P.array_push_back value t.values;
          } in
          (
            P.hash_write (Timer P) key whole (P.hash_write (Timer P) key counted s.timers),
            P.hash_write (Timer P) key whole s.timers,
            ground (arith, e),
            ground (arith, e),
            rw
                (
                  H.items-write (Timer P) key whole (P.hash_write (Timer P) key counted s.timers),
                  H.items-write (Timer P) key counted s.timers,
                  H.items-write (Timer P) key whole s.timers,
                )
                (replace-replace key counted whole (P.hash_items (Timer P) s.timers)),
          )
    ]

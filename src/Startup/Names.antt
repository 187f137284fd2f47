-- ===== src/Startup/Names.antt =====
-- The stats that a server has from its start on: the first one's name is longer than src/serialize.c
-- has room for.
use statsd_c.Base.{
  ℕ, ◌+◌, ◌<◌, ◌^◌, ◌≡◌, ◌∙◌, refl, sym, Bool, true, Option, [], ◌∷◌, Bytes, codes, arith, length,
}
use mathlib.Core.Path.{subst}
use statsd_c.Base.Assoc.{Assoc, alter}
use statsd_c.Exec.{ok, fault, overflow, bind-ok, ◌>>◌}
use statsd_c.Strings.Decimal.{ℤ, pos, print_ld, atol}
use statsd_c.Platform.{Platform}
use statsd_c.Platform.Laws.{HashLaws}
use statsd_c.Store.{State, Stat, Timer, fits_key, stat_name}
use statsd_c.Store.Update.{update_stat}
use statsd_c.Store.View.{IsValid}
use statsd_c.Store.Timers.{update_stat-items, restamped}
use statsd_c.Serialize.{statsd_serialize}
use statsd_c.Serialize.Overflow.{statsd_serialize-fault}
use statsd_c.Startup.{first_stats, init_stats, initial_state}
use statsd_c.Startup.Locks.{Unloaded, posted, posted-IsValid, init_stats-steps}

-- There is a first stat, and its two names have more than six bytes together.
abbrev pub LongFirst : Assoc Stat → Type 0
LongFirst [] = ⊥
LongFirst ((name, st) ∷ rest) = 6 < length st.group_name + length st.key_name

alter-LongFirst :
    (name group key : Bytes) (n : ℤ) (l : Assoc Stat)
    → LongFirst l
    → LongFirst (alter name (restamped group key n) l)
unfolding alter
alter-LongFirst name group key n [] h = absurd h
alter-LongFirst name group key n ((k, st) ∷ l) h = ground (arith, h)

module _ {P : Platform} (H : HashLaws P) where
  -- What one call of `update_stat` leaves behind.
  record Named (group key value : Bytes) (s : State P) : Type 0 where
    after : State P
    returns : update_stat P group key value s ≡ ok (tt, after)
    names : LongFirst (P.hash_items Stat after.stats)
    locks_kept : after.locks ≡ s.locks
    valid : IsValid P after

  update_stat-Named :
      (group key value : Bytes) (s : State P)
      → fits_key group ≡ true
      → fits_key key ≡ true
      → IsValid P s
      → LongFirst (
          alter
            (stat_name group key)
            (restamped group key (atol value))
            (P.hash_items Stat s.stats))
      → Named group key value s
  update_stat-Named group key value s f g v h =
      let (t, returns, items) = update_stat-items H group key value s f g v in
      record {
        after = record s { stats = t };
        returns = returns;
        names = subst LongFirst (sym items) h;
        locks_kept = refl;
        valid = record { unlocked = v.unlocked; counted = v.counted };
      }

  first_stats-LongFirst :
      (t : Bytes) (s : State P)
      → IsValid P s
      → P.hash_items Stat s.stats ≡ []
      → (s' : State P) × (first_stats P t s ≡ ok (tt, s'))
        × (s'.locks ≡ s.locks)
        × LongFirst (P.hash_items Stat s'.stats)
  unfolding first_stats
  first_stats-LongFirst t s v e =
      let first : LongFirst (
          alter (stat_name (codes "graphite") (codes "last_flush"))
            (restamped (codes "graphite") (codes "last_flush") (atol t))
            (P.hash_items Stat s.stats)) =
        rw e (unfold alter in omega arith) in
      let a = update_stat-Named (codes "graphite") (codes "last_flush") t s refl refl v first in
      let b =
        update_stat-Named (codes "messages") (codes "last_msg_seen") t a.after refl refl a.valid
          (alter-LongFirst _ (codes "messages") (codes "last_msg_seen") (atol t) _ a.names) in
      let c =
        update_stat-Named (codes "messages") (codes "bad_lines_seen") (codes "0") b.after refl refl
          b.valid
          (alter-LongFirst _ (codes "messages") (codes "bad_lines_seen") (atol (codes "0")) _
            b.names) in
      (
        c.after,
        bind-ok
              (update_stat P (codes "graphite") (codes "last_flush") t
                >> update_stat P (codes "messages") (codes "last_msg_seen") t)
              (λ _. update_stat P (codes "messages") (codes "bad_lines_seen") (codes "0"))
              (bind-ok (update_stat P (codes "graphite") (codes "last_flush") t)
                  (λ _. update_stat P (codes "messages") (codes "last_msg_seen") t) a.returns
                ∙ b.returns)
            ∙ c.returns,
        c.locks_kept ∙ b.locks_kept ∙ a.locks_kept,
        c.names,
      )

  serialize-LongFirst :
      (opened : Bool) (l : Assoc Stat) (s : State P)
      → P.hash_items Stat s.stats ≡ l
      → LongFirst l
      → 0 < s.locks.stats_lock
      → statsd_serialize P opened s ≡ fault overflow
  serialize-LongFirst opened [] s e h free = absurd h
  serialize-LongFirst opened ((name, st) ∷ rest) s e h free =
      statsd_serialize-fault P opened name st rest s e h free

  pub initial_state-IsValid :
      IsValid P (initial_state P) × (P.hash_items Stat (initial_state P).stats ≡ [])
  unfolding initial_state
  initial_state-IsValid = (
    record { unlocked = omega arith; counted = rw (H.items-empty (Timer P)) tt },
    H.items-empty Stat,
  )

  -- From the start on nothing can be saved: with no text to load, `init_stats` returns, and then
  -- `statsd_serialize` writes past its buffer for a name, whether the file can be opened or not.
  pub init_stats-unsaved :
      (clear_stats : Bool) (file : Option (Option Bytes)) (now : ℕ) (opened : Bool)
      → Unloaded clear_stats file
      → now < 10 ^ 11
      → (s : State P) × (init_stats P clear_stats file (pos now) (initial_state P) ≡ ok (tt, s))
        × (statsd_serialize P opened s ≡ fault overflow)
  init_stats-unsaved clear_stats file now opened u h =
      let (v, e) = initial_state-IsValid in
      let start = posted H (initial_state P) in
      let (s, r, l, n) =
        first_stats-LongFirst (print_ld (pos now)) start (posted-IsValid H (initial_state P) v) e in
      (
        s,
        init_stats-steps H clear_stats file now (initial_state P) u h ∙ r,
        serialize-LongFirst opened (P.hash_items Stat s.stats) s refl n (rw l (omega arith)),
      )

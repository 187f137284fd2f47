-- ===== src/Store/Timers.antt =====
-- `update_timer`, `add_timer` and `update_stat` of src/statsd.c against the view.
use mathlib.Core.Option
use statsd_c.Base.{
  ◌+◌, ◌≡◌, refl, true, false, Option, none, some, inl, inr, [], ◌∷◌, Bytes, arith, Option-cases,
  length-append,
}
use statsd_c.Base.Assoc.{alter, map_values-alter, All-alter}
use statsd_c.Exec.{ok}
use statsd_c.Strings.Decimal.{ℤ, atol}
use statsd_c.Platform.{Platform}
use statsd_c.Platform.Laws.{HashLaws, ArrayLaws}
use statsd_c.Store.{Stat, Timer, State, fits_key, stat_name}
use statsd_c.Store.Update.{update_timer, update_stat}
use statsd_c.Store.Refine.{items_found, items_new}
use statsd_c.Store.View.{view, collect, time, set_stat, Does, IsValid, Counted}

module _ {P : Platform} where
  -- What one report makes of a timer.
  abbrev timed : P.Double → Option (Timer P) → Timer P
  timed d none = record { count = 0 + 1; values = P.array_push_back d P.array_new }
  timed d (some t) = record { count = t.count + 1; values = P.array_push_back d t.values }

  module _ (A : ArrayLaws P) where
    values-timed :
        (d : P.Double) (o : Option (Timer P))
        → P.array_elems (timed d o).values
          ≡ collect P d (Option.map (λ (t : Timer P). P.array_elems t.values) o)
    values-timed d none = rw (A.elems-push_back, A.elems-new)
    values-timed d (some t) = rw A.elems-push_back

    timed-Counted-none : (d : P.Double) → Counted P (timed d none)
    timed-Counted-none d = rw (A.elems-push_back, A.elems-new) refl

    timed-Counted-some : (d : P.Double) (t : Timer P) → Counted P t → Counted P (timed d (some t))
    timed-Counted-some d t h =
        rw A.elems-push_back (omega (arith, length-append (P.array_elems t.values) (d ∷ []), h))

    -- A table whose items are those of `t` with the value added.
    time-Does-of :
        (H : HashLaws P) (key : Bytes) (d : P.Double) (s : State P) (t' : P.Table (Timer P))
        → IsValid P s
        → P.hash_items (Timer P) t' ≡ alter key (timed d) (P.hash_items (Timer P) s.timers)
        → (view P (record s { timers = t' }) ≡ time P key d (view P s))
          × IsValid P (record s { timers = t' })
    time-Does-of H key d s t' valid e = (
      rw e (
          rw (
            map_values-alter (λ (t : Timer P). P.array_elems t.values) key (timed d) (collect P d)
              (P.hash_items (Timer P) s.timers) (values-timed d))),
      record {
        unlocked = valid.unlocked;
        counted = rw e (
            All-alter (Counted P) key (timed d) (P.hash_items (Timer P) s.timers)
              (timed-Counted-none d) (timed-Counted-some d) valid.counted);
      },
    )

-- The entry of a stat after an update.
abbrev pub restamped : Bytes → Bytes → ℤ → Option Stat → Stat
restamped group key n none = record {
  group_name = group;
  key_name = key;
  value = n;
  locked = false;
}
restamped group key n (some l) = record l { value = n }

stamp : (group key : Bytes) (n : ℤ) (o : Option Stat) → (restamped group key n o).value ≡ n
stamp group key n none = refl
stamp group key n (some l) = refl

module _ {P : Platform} (H : HashLaws P) where
  module _ (A : ArrayLaws P) where
    pub update_timer-Does :
        (key : Bytes) (value : P.Double) (s : State P)
        → fits_key key ≡ true
        → IsValid P s
        → Does P (update_timer P key value) s (time P key value)
    unfolding update_timer
    update_timer-Does key value s fits valid =
        elim (Option-cases (P.hash_find (Timer P) key s.timers)) [
          | inl e ↦
              let t' = P.hash_add (Timer P) key (timed value none) s.timers in
              let (v, w) =
                time-Does-of A H key value s t' valid (items_new H key (timed value) s.timers e) in
              record {
                after = record s { timers = t' };
                returns = ground (arith, e, valid.unlocked.timers_free);
                viewed = v;
                locks_kept = refl;
                valid = w;
              }
          | inr (t, e) ↦
              let t' = P.hash_write (Timer P) key (timed value (some t)) s.timers in
              let (v, w) =
                time-Does-of A H key value s t' valid
                  (items_found H key (timed value) s.timers e) in
              record {
                after = record s { timers = t' };
                returns = ground (arith, e, valid.unlocked.timers_free);
                viewed = v;
                locks_kept = refl;
                valid = w;
              }
        ]

  -- The items behind `update_stat`, whole: the entry of the name is restamped or new.
  pub update_stat-items :
      (group key value : Bytes) (s : State P)
      → fits_key group ≡ true
      → fits_key key ≡ true
      → IsValid P s
      → (t : P.Table Stat) × (update_stat P group key value s ≡ ok (tt, record s { stats = t }))
        × (P.hash_items Stat t
            ≡ alter
                (stat_name group key)
                (restamped group key (atol value))
                (P.hash_items Stat s.stats))
  unfolding update_stat
  update_stat-items group key value s fits_group fits valid =
      let name = stat_name group key in
      let f = restamped group key (atol value) in
      elim (Option-cases (P.hash_find Stat name s.stats)) [
        | inl e ↦ (
          P.hash_add Stat name (f none) s.stats,
          ground (arith, e, valid.unlocked.stats_free),
          items_new H name f s.stats e,
        )
        | inr (l, e) ↦ (
          P.hash_write Stat name (f (some l)) s.stats,
          ground (arith, e, valid.unlocked.stats_free),
          items_found H name f s.stats e,
        )
      ]

  pub update_stat-Does :
      (group key value : Bytes) (s : State P)
      → fits_key group ≡ true
      → fits_key key ≡ true
      → IsValid P s
      → Does P (update_stat P group key value) s (set_stat P group key (atol value))
  unfolding update_stat
  update_stat-Does group key value s fits_group fits valid =
      let f = restamped group key (atol value) in
      let (t, returns, items) = update_stat-items group key value s fits_group fits valid in
      record {
        after = record s { stats = t };
        returns = returns;
        viewed = rw items (
            rw (
              map_values-alter (λ (x : Stat). x.value) (stat_name group key) f (λ _. atol value)
                (P.hash_items Stat s.stats) (stamp group key (atol value))));
        locks_kept = refl;
        valid = record { unlocked = valid.unlocked; counted = valid.counted };
      }

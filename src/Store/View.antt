-- ===== src/Store/View.antt =====
-- What the tables hold, without pointers, locks and hashing: lists of names and numbers in the
-- order in which the names first came, and what each report means for them.
use statsd_c.Base.{◌<◌, ◌≡◌, ◌∙◌, ap, Option, none, some, List, [], ◌∷◌, ◌++◌, Bytes, All, length}
use statsd_c.Base.Assoc.{Assoc, alter, map_values}
use statsd_c.Exec.{Exec, ok, ◌>>◌, bind-ok}
use statsd_c.Strings.Decimal.{ℤ}
use statsd_c.Platform.{Platform}
use statsd_c.Store.{Stat, Timer, State, Locks, stat_name}

module _ (P : Platform) where
  open P use {
    Double, LongDouble, of_nat, add_double, sub_double, widen, add_long, sub_long, hash_items,
    array_elems,
  }

  pub record Metrics : Type 0 where
    pub stats : Assoc ℤ
    pub counters : Assoc LongDouble
    pub gauges : Assoc LongDouble
    pub timers : Assoc (List Double)

  abbrev pub timers_view : P.Table (Timer P) → Assoc (List Double)
  timers_view t = map_values (λ (x : Timer P). array_elems x.values) (hash_items (Timer P) t)

  abbrev pub stats_view : P.Table Stat → Assoc ℤ
  stats_view t = map_values (λ (x : Stat). x.value) (hash_items Stat t)

  abbrev pub view : State P → Metrics
  view s = record {
    stats = stats_view s.stats;
    counters = hash_items LongDouble s.counters;
    gauges = hash_items LongDouble s.gauges;
    timers = timers_view s.timers;
  }

  -- A counter starts at its first increment and then adds up.
  abbrev pub plus : LongDouble → Option LongDouble → LongDouble
  plus d none = d
  plus d (some c) = add_long c d

  abbrev pub count : Bytes → LongDouble → Metrics → Metrics
  count key d m = record m { counters = alter key (plus d) m.counters }

  -- The three ways to report a gauge. A change of a gauge that is not there starts at 0.
  abbrev pub assigned : Double → Option LongDouble → LongDouble
  assigned d _ = widen d

  abbrev pub lowered : Double → Option LongDouble → LongDouble
  lowered d none = widen (sub_double (of_nat 0) d)
  lowered d (some g) = sub_long g (widen d)

  abbrev pub raised : Double → Option LongDouble → LongDouble
  raised d none = widen (add_double (of_nat 0) d)
  raised d (some g) = add_long g (widen d)

  abbrev pub set_gauge : Bytes → (Option LongDouble → LongDouble) → Metrics → Metrics
  set_gauge key f m = record m { gauges = alter key f m.gauges }

  -- A timer collects its values in the order of arrival.
  abbrev pub collect : Double → Option (List Double) → List Double
  collect d none = d ∷ []
  collect d (some ds) = ds ++ d ∷ []

  abbrev pub time : Bytes → Double → Metrics → Metrics
  time key d m = record m { timers = alter key (collect d) m.timers }

  abbrev pub set_stat : Bytes → Bytes → ℤ → Metrics → Metrics
  set_stat group key n m = record m { stats = alter (stat_name group key) (λ _. n) m.stats }

  -- No semaphore is taken.
  pub record Unlocked (l : Locks) : Type 0 where
    pub stats_free : 0 < l.stats_lock
    pub counters_free : 0 < l.counters_lock
    pub gauges_free : 0 < l.gauges_lock
    pub timers_free : 0 < l.timers_lock

  -- `count` is the number of values kept.
  abbrev pub Counted : Timer P → Type 0
  Counted t = t.count ≡ length (array_elems t.values)

  pub record IsValid (s : State P) : Type 0 where
    pub unlocked : Unlocked s.locks
    pub counted : All (λ (e : Bytes × Timer P). Counted e.1) (hash_items (Timer P) s.timers)

  -- The call returns, the semaphores are as before, the invariant holds, and the tables hold what
  -- `g` says.
  pub record Does (m : Exec (State P) (Unit {0})) (s : State P) (g : Metrics → Metrics)
      : Type 0 where
    pub after : State P
    pub returns : m s ≡ ok (tt, after)
    pub viewed : view after ≡ g (view s)
    pub locks_kept : after.locks ≡ s.locks
    pub valid : IsValid after

  -- One call after the other.
  pub Does-then :
      {m k : Exec (State P) (Unit {0})} {s : State P} {g h : Metrics → Metrics} (d : Does m s g)
      → Does k d.after h
      → Does (m >> k) s (λ x. h (g x))
  Does-then {m} {k} {s} {g} {h} d e = record {
    after = e.after;
    returns = bind-ok m (λ _. k) d.returns ∙ e.returns;
    viewed = e.viewed ∙ ap h d.viewed;
    locks_kept = e.locks_kept ∙ d.locks_kept;
    valid = e.valid;
  }

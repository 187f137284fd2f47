-- ===== src/Flush/Resets.antt =====
-- The tables of src/statsd.c behind the resets of a round of `p_thread_flush`.
use statsd_c.Base.{◌≡◌, refl, inl, inr, List, [], ◌∷◌, Bytes, All, arith, length, ltb, Bool-cases}
use statsd_c.Base.Assoc.{Assoc, map_values}
use statsd_c.Platform.{Platform}
use statsd_c.Platform.Laws.{HashLaws, ArrayLaws}
use statsd_c.Store.{State, Timer}
use statsd_c.Store.View.{view, IsValid, Counted}
use statsd_c.Flush.{Round}
use statsd_c.Flush.Emptied.{emptied}

module _ {P : Platform} where
  module _ (A : ArrayLaws P) (r : Round) where
    length-zero : (ds : List P.Double) → length ds ≡ 0 → ds ≡ []
    length-zero [] h = refl
    length-zero (d ∷ ds) h = absurd (omega arith)

    emptied-elems : (t : Timer P) → Counted P t → P.array_elems (emptied r t).values ≡ []
    emptied-elems t h = elim (Bool-cases (ltb 0 t.count)) [
      | inl busy ↦ rw busy (A.elems-clear t.values)
      | inr idle ↦ rw idle (length-zero (P.array_elems t.values) (ground (arith, h, idle)))
    ]

    emptied-Counted : (t : Timer P) → Counted P t → Counted P (emptied r t)
    emptied-Counted t h = elim (Bool-cases (ltb 0 t.count)) [
      | inl busy ↦ rw busy (rw (A.elems-clear t.values) refl)
      | inr idle ↦ rw idle h
    ]

    -- All timers are empty, and their counts are right.
    All-emptied :
        (ts : Assoc (Timer P))
        → All (λ (e : Bytes × Timer P). Counted P e.1) ts
        → (map_values (λ (t : Timer P). P.array_elems t.values) (map_values (emptied r) ts)
            ≡ map_values (λ _. []) (map_values (λ (t : Timer P). P.array_elems t.values) ts))
          × All (λ (e : Bytes × Timer P). Counted P e.1) (map_values (emptied r) ts)
    All-emptied [] h = (refl, tt)
    All-emptied ((key, t) ∷ ts) h =
        let (e, c) = All-emptied ts h.1 in
        (rw (emptied-elems t h.0, e) refl, (emptied-Counted t h.0, c))

    module _ (H : HashLaws P) where
      -- The two loops that reset.
      pub resets-view :
          (s : State P) (cs : P.Table P.LongDouble) (ts : P.Table (Timer P))
          → IsValid P s
          → P.hash_items P.LongDouble cs
            ≡ map_values (λ _. P.long_of_nat 0) (P.hash_items P.LongDouble s.counters)
          → P.hash_items (Timer P) ts ≡ map_values (emptied r) (P.hash_items (Timer P) s.timers)
          → (view P (record s { counters = cs; timers = ts }) ≡ record (view P s) {
            counters = map_values (λ _. P.long_of_nat 0) (view P s).counters;
            timers = map_values (λ _. []) (view P s).timers;
          })
            × IsValid P (record s { counters = cs; timers = ts })
      resets-view s cs ts v a b =
          let (e, c) = All-emptied (P.hash_items (Timer P) s.timers) v.counted in
          (rw (a, b, e) refl, record { unlocked = v.unlocked; counted = rw b c })

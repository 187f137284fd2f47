-- ===== src/Store/Refine.antt =====
-- The update functions of src/statsd.c against the view: each returns, gives back its semaphore,
-- keeps the invariant, and changes the view as the specification of Store/View says.
use statsd_c.Base.{ℕ, ◌≡◌, refl, true, Option, none, some, inl, inr, Bytes, arith, Option-cases}
use statsd_c.Base.Assoc.{alter, alter-eq-append, alter-eq-replace}
use statsd_c.Platform.{Platform}
use statsd_c.Platform.Laws.{HashLaws}
use statsd_c.Store.{State, fits_key}
use statsd_c.Store.Update.{
  increment, update_counter, plusminus_new, plusminus_found, update_gauge_plusminus, update_gauge,
}
use statsd_c.Store.View.{count, plus, assigned, lowered, raised, set_gauge, Does, IsValid}

module _ {P : Platform} (H : HashLaws P) where
  pub items_found :
      {V : Type 0} (k : Bytes) (f : Option V → V) (t : P.Table V) {v : V}
      → P.hash_find V k t ≡ some v
      → P.hash_items V (P.hash_write V k (f (some v)) t) ≡ alter k f (P.hash_items V t)
  items_found {V} k f t {v} e =
      rw (H.items-write V k (f (some v)) t)
        (rw (alter-eq-replace k f (P.hash_items V t) {v = v} (rw (← H.find-items V k t) e)))

  pub items_new :
      {V : Type 0} (k : Bytes) (f : Option V → V) (t : P.Table V)
      → P.hash_find V k t ≡ none
      → P.hash_items V (P.hash_add V k (f none) t) ≡ alter k f (P.hash_items V t)
  items_new {V} k f t e =
      rw (H.items-add V k (f none) t e)
        (rw (alter-eq-append k f (P.hash_items V t) (rw (← H.find-items V k t) e)))

  pub update_counter-Does :
      (key : Bytes) (value rate : P.Double) (s : State P)
      → fits_key key ≡ true
      → IsValid P s
      → Does P (update_counter P key value rate) s (count P key (P.widen (increment P value rate)))
  unfolding update_counter
  update_counter-Does key value rate s fits valid =
      let d = P.widen (increment P value rate) in
      elim (Option-cases (P.hash_find P.LongDouble key s.counters)) [
        | inl e ↦ record {
          after = record s { counters = P.hash_add P.LongDouble key d s.counters };
          returns = ground (arith, e, valid.unlocked.counters_free);
          viewed = rw (items_new key (plus P d) s.counters e);
          locks_kept = refl;
          valid = record { unlocked = valid.unlocked; counted = valid.counted };
        }
        | inr (c, e) ↦ record {
          after = record s { counters = P.hash_write P.LongDouble key (P.add_long c d) s.counters };
          returns = ground (arith, e, valid.unlocked.counters_free);
          viewed = rw (items_found key (plus P d) s.counters e);
          locks_kept = refl;
          valid = record { unlocked = valid.unlocked; counted = valid.counted };
        }
      ]

  module _ (key : Bytes) (value : P.Double) (s : State P) (fits : fits_key key ≡ true)
      (valid : IsValid P s) where
    -- A gauge report of the kind `n`, which sets a new gauge to `f none` and an old one, `g`, to
    -- `f (some g)`.
    plusminus-Does :
        (n : ℕ) (f : Option P.LongDouble → P.LongDouble)
        → plusminus_new P n value ≡ some (f none)
        → ((g : P.LongDouble) → plusminus_found P n value g ≡ f (some g))
        → Does P (update_gauge_plusminus P key value n) s (set_gauge P key f)
    unfolding update_gauge_plusminus
    plusminus-Does n f fresh old = elim (Option-cases (P.hash_find P.LongDouble key s.gauges)) [
      | inl e ↦ record {
        after = record s { gauges = P.hash_add P.LongDouble key (f none) s.gauges };
        returns = ground (arith, e, fresh, valid.unlocked.gauges_free);
        viewed = rw (items_new key f s.gauges e);
        locks_kept = refl;
        valid = record { unlocked = valid.unlocked; counted = valid.counted };
      }
      | inr (g, e) ↦ record {
        after = record s { gauges = P.hash_write P.LongDouble key (f (some g)) s.gauges };
        returns = ground (arith, e, old g, valid.unlocked.gauges_free);
        viewed = rw (items_found key f s.gauges e);
        locks_kept = refl;
        valid = record { unlocked = valid.unlocked; counted = valid.counted };
      }
    ]

    pub update_gauge-Does : Does P (update_gauge P key value) s (set_gauge P key (assigned P value))
    unfolding update_gauge
    update_gauge-Does = elim (Option-cases (P.hash_find P.LongDouble key s.gauges)) [
      | inl e ↦ record {
        after = record s { gauges = P.hash_add P.LongDouble key (P.widen value) s.gauges };
        returns = ground (arith, e, valid.unlocked.gauges_free);
        viewed = rw (items_new key (assigned P value) s.gauges e);
        locks_kept = refl;
        valid = record { unlocked = valid.unlocked; counted = valid.counted };
      }
      | inr (g, e) ↦ record {
        after = record s { gauges = P.hash_write P.LongDouble key (P.widen value) s.gauges };
        returns = ground (arith, e, valid.unlocked.gauges_free);
        viewed = rw (items_found key (assigned P value) s.gauges e);
        locks_kept = refl;
        valid = record { unlocked = valid.unlocked; counted = valid.counted };
      }
    ]

    pub update_gauge_plusminus-Does :
        Does P (update_gauge_plusminus P key value 0) s (set_gauge P key (assigned P value))
        × Does P (update_gauge_plusminus P key value 1) s (set_gauge P key (lowered P value))
        × Does P (update_gauge_plusminus P key value 2) s (set_gauge P key (raised P value))
    update_gauge_plusminus-Does = (
      plusminus-Does 0 (assigned P value) refl (λ g. refl),
      plusminus-Does 1 (lowered P value) refl (λ g. refl),
      plusminus-Does 2 (raised P value) refl (λ g. refl),
    )

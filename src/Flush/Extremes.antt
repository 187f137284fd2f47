-- ===== src/Flush/Extremes.antt =====
-- The minimum and the maximum of a timer in `p_thread_flush` of src/statsd.c.
use statsd_c.Base.{
  ◌≡◌, ◌∙◌, refl, false, inl, inr, ◌⊎◌, List, [], ◌∷◌, All, Bool-cases, if◌then◌else◌,
}
use statsd_c.Platform.{Platform}
use statsd_c.Platform.Laws.{OrderLaws}
use statsd_c.Flush.Figures.{min_max, extremes}

-- The number is one of the list.
abbrev pub Among : {A : Type 0} → A → List A → Type 0
Among x [] = ⊥
Among x (y ∷ ys) = (x ≡ y) ⊎ Among x ys

module _ {P : Platform} (O : OrderLaws P) where
  open P use {Double, lt_double}

  -- `lo` is not above, and `hi` not below, any of them.
  abbrev pub Encloses : Double → Double → List Double → Type 0
  Encloses lo hi = All (λ d. (lt_double d lo ≡ false) × (lt_double hi d ≡ false))

  Encloses-trans :
      (lo hi lo' hi' : Double) (ds : List Double)
      → lt_double lo lo' ≡ false
      → lt_double hi' hi ≡ false
      → Encloses lo hi ds
      → Encloses lo' hi' ds
  Encloses-trans lo hi lo' hi' [] a b e = tt
  Encloses-trans lo hi lo' hi' (d ∷ ds) a b e = (
    (O.not_lt_trans d lo lo' e.0.0 a, O.not_lt_trans hi' hi d b e.0.1),
    Encloses-trans lo hi lo' hi' ds a b e.1,
  )

  -- The smaller and the greater of two, as the loop picks them.
  abbrev lower : Double → Double → Double
  lower lo d = if lt_double d lo then d else lo

  abbrev higher : Double → Double → Double
  higher hi d = if lt_double hi d then d else hi

  lower_lem :
      (lo d : Double)
      → (lt_double lo (lower lo d) ≡ false)
        × (lt_double d (lower lo d) ≡ false)
        × ((lower lo d ≡ lo) ⊎ (lower lo d ≡ d))
  lower_lem lo d = elim (Bool-cases (lt_double d lo)) [
    | inl e ↦ rw e (O.lt_asymm d lo e, O.lt_irrefl d, inr refl)
    | inr e ↦ rw e (O.lt_irrefl lo, e, inl refl)
  ]

  higher_lem :
      (hi d : Double)
      → (lt_double (higher hi d) hi ≡ false)
        × (lt_double (higher hi d) d ≡ false)
        × ((higher hi d ≡ hi) ⊎ (higher hi d ≡ d))
  higher_lem hi d = elim (Bool-cases (lt_double hi d)) [
    | inl e ↦ rw e (O.lt_asymm hi d e, O.lt_irrefl d, inr refl)
    | inr e ↦ rw e (O.lt_irrefl hi, e, inl refl)
  ]

  Among-picked :
      (x y lo d : Double) (ds : List Double)
      → (y ≡ lo) ⊎ (y ≡ d)
      → (x ≡ y) ⊎ Among x ds
      → (x ≡ lo) ⊎ Among x (d ∷ ds)
  Among-picked x y lo d ds (inl p) (inl q) = inl (q ∙ p)
  Among-picked x y lo d ds (inr p) (inl q) = inr (inl (q ∙ p))
  Among-picked x y lo d ds c (inr q) = inr (inr q)

  min_max_lem :
      (lo hi : Double) (ds : List Double)
      → let (a, b) = min_max P lo hi ds in
        (lt_double lo a ≡ false)
        × (lt_double b hi ≡ false)
        × Encloses a b ds
        × ((a ≡ lo) ⊎ Among a ds)
        × ((b ≡ hi) ⊎ Among b ds)
  unfolding min_max
  min_max_lem lo hi [] = (O.lt_irrefl lo, O.lt_irrefl hi, tt, inl refl, inl refl)
  min_max_lem lo hi (d ∷ ds) =
      let (p, q, r, m, n) = min_max_lem (lower lo d) (higher hi d) ds in
      let (u, v, w) = lower_lem lo d in
      let (x, y, z) = higher_lem hi d in
      let (a, b) = min_max P (lower lo d) (higher hi d) ds in
      (
        O.not_lt_trans lo (lower lo d) a u p,
        O.not_lt_trans b (higher hi d) hi q x,
        ((O.not_lt_trans d (lower lo d) a v p, O.not_lt_trans b (higher hi d) d q y), r),
        Among-picked a (lower lo d) lo d ds w m,
        Among-picked b (higher hi d) hi d ds z n,
      )

  -- For values that are no NaN, "lower" and "upper" of a timer with a value are two of its values,
  -- and no value lies outside of them.
  pub extremes-Encloses :
      (d : Double) (ds : List Double)
      → let (lo, hi) = extremes P (d ∷ ds) in
        Encloses lo hi (d ∷ ds) × Among lo (d ∷ ds) × Among hi (d ∷ ds)
  unfolding extremes
  extremes-Encloses d ds = let (p, q, r, m, n) = min_max_lem d d ds in (((p, q), r), m, n)

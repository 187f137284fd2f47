-- ===== src/Flush/Mean.antt =====
-- The mean and the percentile of a timer in `p_thread_flush` of src/statsd.c.
use mathlib.Core.List.{foldl, Perm}
use mathlib.Core.Path.{subst}
use statsd_c.Base.{
  ℕ, zero, suc, ◌+◌, ◌-◌, ◌<◌, ◌≤◌, ◌≡◌, ◌∙◌, refl, ap, true, false, some, List, [], ◌∷◌, ◌++◌, All,
  arith, length, length-append, take, get_elem?, ltb,
}
use statsd_c.Exec.{ok, fault, null_pointer}
use statsd_c.Strings.Decimal.{ℤ, pos}
use statsd_c.Platform.{Platform}
use statsd_c.Platform.Laws.{SortLaws}
use statsd_c.Flush.Figures.{
  TimerFigures, double_sort, extremes, sum_from, pred_int, threshold_index, several_figures,
  timer_figures,
}

-- An index below the length is the index of an element.
element : {A : Type 0} (xs : List A) (i : ℕ) → i < length xs → (x : A) × (get_elem? xs i ≡ some x)
element [] i h = absurd (omega arith)
element (x ∷ xs) zero h = (x, refl)
element (x ∷ xs) (suc i) h = element xs i (omega arith)

one_less : (n : ℕ) → n + 1 - 1 ≡ n
one_less n = omega arith

take-length_append : {A : Type 0} (xs ys : List A) → take (length xs) (xs ++ ys) ≡ xs
take-length_append [] ys = refl
take-length_append (x ∷ xs) ys = ap (◌∷◌ x) (take-length_append xs ys)

module _ (P : Platform) where
  open P use {Double, of_nat, of_int, first_byte, add_double, div_double, lt_double}

  -- No element is below one in front of it.
  abbrev pub Ascending : List Double → Type 0
  Ascending [] = Unit
  Ascending (d ∷ ds) = All (λ e. lt_double e d ≡ false) ds × Ascending ds

  All-last :
      (Q : Double → Type 0) (ds : List Double) (last : Double) → All Q (ds ++ last ∷ []) → Q last
  All-last Q [] last h = h.0
  All-last Q (d ∷ ds) last h = All-last Q ds last h.1

  -- The last one is not below any other.
  Ascending-last :
      (ds : List Double) (last : Double)
      → Ascending (ds ++ last ∷ [])
      → All (λ d. lt_double last d ≡ false) ds
  Ascending-last [] last h = tt
  Ascending-last (d ∷ ds) last h =
      (All-last (λ e. lt_double e d ≡ false) ds last h.0, Ascending-last ds last h.1)

  sum_from-foldl : (a : Double) (ds : List Double) → sum_from P a ds ≡ foldl add_double a ds
  unfolding sum_from
  sum_from-foldl a [] = refl
  sum_from-foldl a (d ∷ ds) = sum_from-foldl (add_double a d) ds

  -- The lowest and the greatest are any pair here.
  several_figures-found :
      (pct : ℤ) (ds : List Double) (last at : Double) (lo hi : Double) (i : ℕ)
      → pred_int (threshold_index P pct (length ds + 1)) ≡ pos i
      → get_elem? (ds ++ last ∷ []) i ≡ some at
      → several_figures P pct (length ds + 1) (ds ++ last ∷ []) (lo, hi)
        ≡ ok (record {
          min = lo;
          max = hi;
          mean = div_double (sum_from P (of_nat 0) ds) (of_nat (length ds + 1));
          max_at_threshold = of_int (first_byte at);
        })
  unfolding several_figures
  several_figures-found pct ds last at lo hi i index found = ground (
    arith,
    index,
    found,
    ap (λ n. take n (ds ++ last ∷ [])) (one_less (length ds)),
    take-length_append ds (last ∷ []),
  )

  -- The figures of a timer with two or more values, which `qsort` puts in ascending order, if the
  -- index of the percentile lies in the array. The "mean" is the sum of all of the values but a
  -- greatest one, divided by the number of all of them; the percentile is the first byte of the value
  -- at the index.
  pub timer_figures-several :
      (S : SortLaws P) (pct : ℤ) (values : P.Array) (ds : List Double) (last : Double) (i : ℕ)
      → P.array_elems (P.array_sort (double_sort P) values) ≡ ds ++ last ∷ []
      → Ascending (ds ++ last ∷ [])
      → 0 < length ds
      → pred_int (threshold_index P pct (length ds + 1)) ≡ pos i
      → i ≤ length ds
      → (f : TimerFigures P) × (at : Double) × (timer_figures P pct (length ds + 1) values ≡ ok f)
        × Perm (ds ++ last ∷ []) (P.array_elems values)
        × All (λ d. lt_double last d ≡ false) ds
        × (f.mean ≡ div_double (foldl add_double (of_nat 0) ds) (of_nat (length ds + 1)))
        × (get_elem? (ds ++ last ∷ []) i ≡ some at)
        × (f.max_at_threshold ≡ of_int (first_byte at))
  unfolding timer_figures several_figures
  timer_figures-several S pct values ds last i sorted up many index inside =
      let (at, found) =
        element (ds ++ last ∷ []) i (omega (arith, length-append ds (last ∷ []), inside)) in
      let several : ltb 1 (length ds + 1) ≡ true = ground (arith, many) in
      let figures_with : Double → TimerFigures P = λ total. record {
        min = (extremes P (ds ++ last ∷ [])).0;
        max = (extremes P (ds ++ last ∷ [])).1;
        mean = div_double total (of_nat (length ds + 1));
        max_at_threshold = of_int (first_byte at);
      } in
      (
        figures_with (foldl add_double (of_nat 0) ds),
        at,
        rw (sorted, several)
              (several_figures-found pct ds last at (extremes P (ds ++ last ∷ [])).0
                (extremes P (ds ++ last ∷ [])).1 i index found)
            ∙ ap (λ m. ok (figures_with m)) (sum_from-foldl (of_nat 0) ds),
        subst (λ l. Perm l (P.array_elems values)) sorted (S.elems-sort (double_sort P) values),
        Ascending-last ds last up,
        refl,
        found,
        refl,
      )

  -- If the percentile's share of the number of values is rounded to 0, the index is -1, and the
  -- round reads through NULL.
  several_figures-null :
      (pct : ℤ) (count : ℕ) (ds : List Double) (m : Double × Double)
      → threshold_index P pct count ≡ pos 0
      → several_figures P pct count ds m ≡ fault null_pointer
  unfolding several_figures
  several_figures-null pct count ds m e = ground (arith, e)

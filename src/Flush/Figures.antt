-- ===== src/Flush/Figures.antt =====
-- The figures of one timer in `p_thread_flush` of src/statsd.c: the sort with `double_sort`, and the
-- loops over the sorted array.
use statsd_c.Base.{
  ℕ, zero, suc, ◌-◌, none, some, List, [], ◌∷◌, ltb, get_elem?, take, if◌then◌else◌,
}
use statsd_c.Exec.{Result, ok, fault, null_pointer}
use statsd_c.Strings.Decimal.{ℤ, pos, negsuc}
use statsd_c.Platform.{Platform}

-- `thresholdIndex - 1`
abbrev pub pred_int : ℤ → ℤ
pred_int (pos zero) = negsuc 0
pred_int (pos (suc n)) = pos n
pred_int (negsuc n) = negsuc (suc n)

module _ (P : Platform) where
  open P use {
    Double, of_nat, of_int, add_double, mul_double, div_double, eq_double, lt_double, truncate,
    first_byte, Array, array_sort, array_elems,
  }

  unfoldable pub double_sort : Double → Double → ℤ
  double_sort a b = if eq_double a b then pos 0 else if lt_double a b then negsuc 0 else pos 1

  pub record TimerFigures : Type 0 where
    pub min : Double
    pub max : Double
    pub mean : Double
    pub max_at_threshold : Double

  -- The loop for `min` and `max` behind the first element.
  unfoldable pub min_max : Double → Double → List Double → Double × Double
  min_max min max [] = (min, max)
  min_max min max (d ∷ ds) =
      min_max (if lt_double d min then d else min) (if lt_double max d then d else max) ds

  -- Both are 0 for an empty array.
  unfoldable pub extremes : List Double → Double × Double
  unfolding min_max
  extremes [] = (of_nat 0, of_nat 0)
  extremes (d ∷ ds) = min_max d d ds

  -- `sum += *i` over the elements that the loop meets.
  unfoldable pub sum_from : Double → List Double → Double
  sum_from sum [] = sum
  sum_from sum (d ∷ ds) = sum_from (add_double sum d) ds

  -- `* utarray_eltptr(values, j)`: the macro compares the `int` with an unsigned length, so that a
  -- negative index and one past the end both give NULL; its result is a `char *`.
  unfoldable pub char_at : List Double → ℤ → Result Double
  char_at ds (negsuc j) = fault null_pointer
  char_at ds (pos j) = elim (get_elem? ds j) [
    | none ↦ fault null_pointer
    | some d ↦ ok (of_int (first_byte d))
  ]

  abbrev pub threshold_index : ℤ → ℕ → ℤ
  threshold_index pct count =
      truncate (mul_double (div_double (of_int pct) (of_nat 100)) (of_nat count))

  -- With more than one value. The loop for the sum stops after `count - 1` elements.
  unfoldable pub several_figures : ℤ → ℕ → List Double → Double × Double → Result TimerFigures
  unfolding char_at sum_from
  several_figures pct count ds (min, max) =
      elim (char_at ds (pred_int (threshold_index pct count))) [
        | fault e ↦ fault e
        | ok at ↦ ok (record {
          min = min;
          max = max;
          mean = div_double (sum_from (of_nat 0) (take (count - 1) ds)) (of_nat count);
          max_at_threshold = at;
        })
      ]

  one_figure : Double × Double → TimerFigures
  one_figure (min, max) = record { min = min; max = max; mean = min; max_at_threshold = max }

  unfoldable pub timer_figures : ℤ → ℕ → Array → Result TimerFigures
  unfolding double_sort extremes one_figure several_figures
  timer_figures pct count values =
      let ds = array_elems (array_sort double_sort values) in
      if ltb 1 count
      then several_figures pct count ds (extremes ds)
      else ok (one_figure (extremes ds))

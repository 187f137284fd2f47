-- ===== src/Flush/Said.antt =====
-- What a round of `p_thread_flush` of src/statsd.c says of each entry, and the calls that say it.
use mathlib.Core.List.{append_assoc}
use statsd_c.Base.{
  ℕ, ◌+◌, ◌<◌, ◌≡◌, ◌∙◌, refl, ap, Bool, true, false, ◌⊎◌, inl, inr, List, [], ◌∷◌, ◌++◌, Bytes,
  All, arith, codes, length, ltb, leb, Bool-cases, if◌then◌else◌,
}
use statsd_c.Exec.{Result, ok, fault, overflow, check, bind-ok}
use statsd_c.Strings.Decimal.{pos, print_ld}
use statsd_c.Platform.{Platform}
use statsd_c.Store.{State, Timer}
use statsd_c.Flush.{
  Round, Out, Message, gmetric_on, prefixed, print_stat, concat, send_gmetric, two_messages,
  timer_text, percentile_suffix, timer_messages, report_timer, send_seconds, with_message,
  flush_totals,
}
use statsd_c.Flush.Figures.{TimerFigures, timer_figures}
use statsd_c.Flush.Parts.{Part, silent, counted, emit, printed, Fits, say, emit-off, emit-on}

module _ (P : Platform) (r : Round) where
  open P use {LongDouble, Double, print_f, print_lf, div_long, long_of_nat, long_of_int, widen}

  abbrev pub rate_per_second : LongDouble → LongDouble
  rate_per_second c = div_long c (long_of_int r.flush_interval)

  -- Lines of graphite's protocol: a name, a value, and the time of the round.
  abbrev pub lines : List (Bytes × Bytes) → Bytes
  lines [] = []
  lines ((name, value) ∷ rest) =
      name ++ (codes " " ++ (value ++ (codes " " ++ (print_ld r.ts ++ (codes "\n" ++ lines rest)))))

  -- Two numbers: to graphite under the name and under the name with another prefix, to ganglia under
  -- the name with the prefix of the options and under the name.
  abbrev pub twice : Bytes → LongDouble → LongDouble → Bytes → Bytes → Part
  twice key v w units prefix =
      let k = prefixed r.ganglia_metric_prefix key in
      record {
        text = lines ((codes "stats." ++ key, print_lf v) ∷ (prefix ++ key, print_lf w) ∷ []);
        messages =
            record { is_double = true; group = k; name = k; value = print_lf v; units = units }
            ∷ record {
              is_double = true;
              group = key;
              name = key;
              value = print_lf w;
              units = units;
            }
            ∷ [];
        stats = 0;
      }

  -- A counter: what it counts in a second, and what it counted.
  abbrev pub counter_part : Bytes × LongDouble → Part
  counter_part (key, c) =
      counted (twice key (rate_per_second c) c (codes "count") (codes "stats_counts_"))

  -- A gauge, twice the same.
  abbrev pub gauge_part : Bytes × LongDouble → Part
  gauge_part (key, g) = counted (twice key g g (codes "gauge") (codes "stats_gauges_"))

  -- A figure of a timer, in seconds.
  abbrev pub seconds : Bytes → Bytes → Double → Message
  seconds key suffix d = record {
    is_double = true;
    group = key;
    name = key ++ suffix;
    value = print_lf (div_long (widen d) (long_of_nat 1000));
    units = codes "sec";
  }

  -- The figures of a timer, and as the number of its values always 0.
  abbrev pub figures_part : Bytes → TimerFigures P → Part
  figures_part key f = record {
    text = lines (
        (codes "stats.timers." ++ (key ++ codes ".mean"), print_f f.mean)
        ∷ (codes "stats.timers." ++ (key ++ codes ".upper"), print_f f.max)
        ∷ (
          codes "stats.timers." ++ (key ++ (codes ".upper_" ++ print_ld r.percentile)),
          print_f f.max_at_threshold,
        )
        ∷ (codes "stats.timers." ++ (key ++ codes ".lower"), print_f f.min)
        ∷ (codes "stats.timers." ++ (key ++ codes ".count"), print_ld (pos 0))
        ∷ []);
    messages =
        seconds key (codes "_mean") f.mean
        ∷ seconds key (codes "_upper") f.max
        ∷ seconds key (percentile_suffix P r) f.max_at_threshold
        ∷ seconds key (codes "_lower") f.min
        ∷ record {
          is_double = false;
          group = key;
          name = key ++ codes "_count";
          value = print_ld (pos 0);
          units = codes "count";
        }
        ∷ [];
    stats = 0;
  }

  abbrev pub computed_part : Bytes → Result (TimerFigures P) → Part
  computed_part key (ok f) = figures_part key f
  computed_part key (fault e) = silent

  -- A timer with no value is only counted.
  abbrev pub timer_part : Bytes × Timer P → Part
  timer_part (key, t) = counted (
      if ltb 0 t.count
      then computed_part key (timer_figures P r.percentile t.count t.values)
      else silent)

  -- The number of stats, at the end.
  abbrev pub totals_part : ℕ → Part
  totals_part n = record {
    text = lines ((codes "statsd.numStats", print_ld (pos n)) ∷ []);
    messages =
        record {
          is_double = false;
          group = codes "statsd";
          name = codes "statsd_numstats_collected";
          value = print_ld (pos n);
          units = codes "count";
        }
        ∷ [];
    stats = 0;
  }

  -- The percentile's name fits its buffer, or ganglia is off.
  abbrev pub SuffixFits : Type 0
  SuffixFits = (gmetric_on r ≡ false) ⊎ (length (percentile_suffix P r) < 12)

  -- What is printed is those lines.
  timer_text-lines :
      (key : Bytes) (f : TimerFigures P)
      → concat (timer_text P r key f 0) ≡ (figures_part key f).text
  timer_text-lines key f = simp append_assoc

  timer_text-printed :
      (key : Bytes) (f : TimerFigures P) (o : Out)
      → print_stat r.enable_graphite (timer_text P r key f 0) o ≡ printed r (figures_part key f) o
  timer_text-printed key f o =
      ap
        (λ t. record o {
          stat_string = if r.enable_graphite then o.stat_string ++ t else o.stat_string;
        })
        (timer_text-lines key f)

  two_messages-on :
      (key u : Bytes) (v w : LongDouble) (o : Out) (s : State P)
      → gmetric_on r ≡ true
      → length (print_lf v) < 30
      → length (print_lf w) < 30
      → two_messages P r key v w u o s ≡ ok (say (twice key v w u []).messages o, s)
  unfolding two_messages
  two_messages-on key u v w o s on a b = ground arith

  pub two_messages-returns :
      (key u prefix : Bytes) (v w : LongDouble) (o : Out) (s : State P)
      → Fits r (twice key v w u prefix)
      → two_messages P r key v w u (printed r (twice key v w u prefix) o) s
        ≡ ok (emit r (twice key v w u prefix) o, s)
  unfolding two_messages
  two_messages-returns key u prefix v w o s h = elim (Bool-cases (gmetric_on r)) [
    | inr off ↦
        rw (off, two_messages) refl
        ∙ ap (λ x. ok (x, s)) (emit-off r (twice key v w u prefix) o off refl)
    | inl on ↦ elim h [
      | inl off ↦ ground (arith, on, off)
      | inr (a, (b, _)) ↦
          two_messages-on key u v w (printed r (twice key v w u prefix) o) s on a b
          ∙ ap (λ x. ok (x, s)) (emit-on r (twice key v w u prefix) o on refl)
    ]
  ]

  send-returns :
      (is_double : Bool) (group name value units : Bytes) (o : Out) (s : State P)
      → length value < 30
      → send_gmetric P is_double group name value units o s
        ≡ ok (with_message is_double group name value units o, s)
  send-returns is_double group name value units o s h = ground arith

  seconds-returns :
      (key suffix : Bytes) (d : Double) (o : Out) (s : State P)
      → length (print_lf (div_long (widen d) (long_of_nat 1000))) < 30
      → send_seconds P key suffix d o s ≡ ok (say (seconds key suffix d ∷ []) o, s)
  seconds-returns key suffix d o s h =
      send-returns true key (key ++ suffix) (print_lf (div_long (widen d) (long_of_nat 1000)))
        (codes "sec") o s h

  timer_messages-on :
      (key : Bytes) (f : TimerFigures P) (o : Out) (s : State P)
      → length (percentile_suffix P r) < 12
      → All (λ (m : Message). length m.value < 30) (figures_part key f).messages
      → timer_messages P r key f 0 o s ≡ ok (say (figures_part key f).messages o, s)
  unfolding timer_messages
  timer_messages-on key f o s short (a, (b, (c, (d, (e, _))))) =
      let o₁ = say (seconds key (codes "_mean") f.mean ∷ []) o in
      let o₂ = say (seconds key (codes "_upper") f.max ∷ []) o₁ in
      let o₃ = say (seconds key (percentile_suffix P r) f.max_at_threshold ∷ []) o₂ in
      let o₄ = say (seconds key (codes "_lower") f.min ∷ []) o₃ in
      bind-ok (send_seconds P key (codes "_mean") f.mean o) _
        (seconds-returns key (codes "_mean") f.mean o s a)
      ∙ bind-ok (send_seconds P key (codes "_upper") f.max o₁) _
          (seconds-returns key (codes "_upper") f.max o₁ s b)
      ∙ bind-ok (check (leb (length (percentile_suffix P r) + 1) 12) overflow) _
          (ground (arith, short))
      ∙ bind-ok (send_seconds P key (percentile_suffix P r) f.max_at_threshold o₂) _
          (seconds-returns key (percentile_suffix P r) f.max_at_threshold o₂ s c)
      ∙ bind-ok (send_seconds P key (codes "_lower") f.min o₃) _
          (seconds-returns key (codes "_lower") f.min o₃ s d)
      ∙ send-returns false key (key ++ codes "_count") (print_ld (pos 0)) (codes "count") o₄ s e

  pub report_timer-returns :
      (key : Bytes) (f : TimerFigures P) (o : Out) (s : State P)
      → SuffixFits
      → Fits r (figures_part key f)
      → report_timer P r key f 0 o s ≡ ok (emit r (figures_part key f) o, s)
  unfolding report_timer
  report_timer-returns key f o s short h = elim (Bool-cases (gmetric_on r)) [
    | inr off ↦
        rw (off, report_timer) refl
        ∙ ap (λ x. ok (x, s)) (timer_text-printed key f o)
        ∙ ap (λ x. ok (x, s)) (emit-off r (figures_part key f) o off refl)
    | inl on ↦ elim short [
      | inl off ↦ absurd (ground (arith, on, off))
      | inr small ↦ elim h [
        | inl off ↦ absurd (ground (arith, on, off))
        | inr values ↦
            rw (on, report_timer) refl
            ∙ ap (λ x. timer_messages P r key f 0 x s) (timer_text-printed key f o)
            ∙ timer_messages-on key f (printed r (figures_part key f) o) s small values
            ∙ ap (λ x. ok (x, s)) (emit-on r (figures_part key f) o on refl)
      ]
    ]
  ]

  pub flush_totals-returns :
      (o : Out) (s : State P)
      → Fits r (totals_part o.num_stats)
      → flush_totals P r o s ≡ ok (emit r (totals_part o.num_stats) o, s)
  unfolding flush_totals
  flush_totals-returns o s h = elim (Bool-cases (gmetric_on r)) [
    | inr off ↦
        rw (off, flush_totals) refl
        ∙ ap (λ x. ok (x, s)) (emit-off r (totals_part o.num_stats) o off refl)
    | inl on ↦ elim h [
      | inl off ↦ absurd (ground (arith, on, off))
      | inr (a, _) ↦
          rw (on, flush_totals)
            (send-returns false (codes "statsd") (codes "statsd_numstats_collected")
              (print_ld (pos o.num_stats)) (codes "count") (printed r (totals_part o.num_stats) o) s
              a)
          ∙ ap (λ x. ok (x, s)) (emit-on r (totals_part o.num_stats) o on refl)
    ]
  ]

-- ===== src/Flush/Emptied.antt =====
-- The loops over the timers and over the gauges in `p_thread_flush` of src/statsd.c.
use mathlib.Core.List.{append_assoc}
use mathlib.Core.Path.{subst}
use statsd_c.Base.{
  ◌<◌, ◌≡◌, ◌∙◌, refl, sym, ap, some, true, false, ◌⊎◌, inl, inr, [], ◌∷◌, ◌++◌, Bytes, All, arith,
  ltb, codes, if◌then◌else◌,
}
use statsd_c.Base.Assoc.{
  lookup, lookup-append, Apart, Apart-concat, Apart-nil, Assoc, Distinct, map_values,
  replace-append,
}
use statsd_c.Exec.{ok, bind-ok}
use statsd_c.Platform.{Platform}
use statsd_c.Platform.Laws.{HashLaws}
use statsd_c.Store.{State, Timer}
use statsd_c.Flush.{
  Round, Out, two_messages, print_stat, gauge_text, flush_timer, flush_timers, flush_gauges,
  one_more,
}
use statsd_c.Flush.Figures.{TimerFigures, timer_figures}
use statsd_c.Flush.Timers.{flush_timer-eq}
use statsd_c.Flush.Parts.{
  silent, parts, counted, emit, emit-join, emit-silent, emit-counted, Fits, Fits-left, Fits-right,
}
use statsd_c.Flush.Said.{
  SuffixFits, twice, gauge_part, figures_part, timer_part, two_messages-returns,
}

module _ {P : Platform} (r : Round) where
  open P use {LongDouble}

  -- A timer after the round.
  abbrev pub emptied : Timer P → Timer P
  emptied t = if ltb 0 t.count then record { count = 0; values = P.array_clear t.values } else t

  -- The timer has no value, or its figures can be computed.
  abbrev pub Flushable : Bytes × Timer P → Type 0
  Flushable (key, t) =
      (t.count ≡ 0)
      ⊎ ((0 < t.count)
          × (f : TimerFigures P) × (timer_figures P r.percentile t.count t.values ≡ ok f))

  -- After the loop over `ts`, whose entries come behind `done` in the table.
  pub record Emptied (done ts : Assoc (Timer P)) (o : Out) (s : State P) : Type 0 where
    pub after : State P
    pub returns : flush_timers P r ts o s ≡ ok (emit r (parts (timer_part P r) ts) o, after)
    pub items : P.hash_items (Timer P) after.timers ≡ done ++ map_values emptied ts
    pub others : after ≡ record s { timers = after.timers }

  module _ (H : HashLaws P) where
    -- What one timer leaves behind.
    record One (key : Bytes) (t : Timer P) (done ts : Assoc (Timer P)) (o : Out) (s : State P)
        : Type 0 where
      table : P.Table (Timer P)
      returns :
          flush_timers P r ((key, t) ∷ ts) o s
          ≡ flush_timers P r ts (emit r (timer_part P r (key, t)) o) (record s { timers = table })
      items : P.hash_items (Timer P) table ≡ done ++ (key, emptied t) ∷ ts

    -- The entry that comes next is found.
    here :
        (key : Bytes) (t : Timer P) (done ts : Assoc (Timer P)) (s : State P)
        → P.hash_items (Timer P) s.timers ≡ done ++ (key, t) ∷ ts
        → Apart done ((key, t) ∷ ts)
        → P.hash_find (Timer P) key s.timers ≡ some t
    here key t done ts s items a =
        H.find-items (Timer P) key s.timers
        ∙ ap (lookup key) items
        ∙ lookup-append key t done ts a.0

    flush_timers-cons :
        (key : Bytes) (t : Timer P) (done ts : Assoc (Timer P)) (o : Out) (s : State P)
        → SuffixFits P r
        → Fits r (timer_part P r (key, t))
        → P.hash_items (Timer P) s.timers ≡ done ++ (key, t) ∷ ts
        → Apart done ((key, t) ∷ ts)
        → 0 < s.locks.timers_lock
        → Flushable (key, t)
        → One key t done ts o s
    unfolding flush_timers
    flush_timers-cons key t done ts o s short fits items a free (inl none_yet) =
        let idle : ltb 0 t.count ≡ false = ground arith in
        let part : timer_part P r (key, t) ≡ counted silent = rw idle refl in
        record {
          table = s.timers;
          returns =
              rw idle refl
              ∙ ap (λ x. flush_timers P r ts x s)
                  (ap one_more (sym (emit-silent r o))
                    ∙ emit-counted r silent o refl
                    ∙ ap (λ p. emit r p o) (sym part));
          items = rw idle items;
        }
    flush_timers-cons key t done ts o s short fits items a free (inr (some_values, f, figures)) =
        let busy : ltb 0 t.count ≡ true = ground arith in
        let empty : Timer P = record { count = 0; values = P.array_clear t.values } in
        let said = figures_part P r key f in
        let part : timer_part P r (key, t) ≡ counted said = rw (busy, figures) refl in
        let table = P.hash_write (Timer P) key empty s.timers in
        record {
          table = table;
          returns =
              rw busy (
                bind-ok (flush_timer P r key t o) (λ o'. flush_timers P r ts (one_more o'))
                  (flush_timer-eq H r key t f o s (here key t done ts s items a) short
                    (subst (Fits r) part fits) figures free))
              ∙ ap (λ x. flush_timers P r ts x (record s { timers = table }))
                  (emit-counted r said o refl ∙ ap (λ p. emit r p o) (sym part));
          items =
              H.items-write (Timer P) key empty s.timers
              ∙ rw (busy, items) (replace-append key empty t done ts a.0);
        }

    flush_timers-from :
        (ts done : Assoc (Timer P)) (o : Out) (s : State P)
        → SuffixFits P r
        → Fits r (parts (timer_part P r) ts)
        → P.hash_items (Timer P) s.timers ≡ done ++ ts
        → Distinct ts
        → Apart done ts
        → All Flushable ts
        → 0 < s.locks.timers_lock
        → Emptied done ts o s
    flush_timers-from [] done o s short fits items d a p free = record {
      after = s;
      returns = unfold flush_timers in ap (λ x. ok (x, s)) (sym (emit-silent r o));
      items = items;
      others = refl;
    }
    flush_timers-from ((key, t) ∷ ts) done o s short fits items d a p free =
        let part = timer_part P r (key, t) in
        let more = parts (timer_part P r) ts in
        let one =
          flush_timers-cons key t done ts o s short (Fits-left r part more fits) items a free p.0 in
        let rest =
          flush_timers-from ts (done ++ (key, emptied t) ∷ []) (emit r part o)
            (record s { timers = one.table }) short (Fits-right r part more fits)
            (one.items ∙ sym (append_assoc done ((key, emptied t) ∷ []) ts)) d.1
            (Apart-concat key (emptied t) done ts d.0 a.1) p.1 free in
        record {
          after = rest.after;
          returns =
              one.returns ∙ rest.returns ∙ ap (λ x. ok (x, rest.after)) (emit-join r part more o);
          items = rest.items ∙ append_assoc done ((key, emptied t) ∷ []) _;
          others = rest.others;
        }

    pub flush_timers-Emptied :
        (o : Out) (s : State P)
        → SuffixFits P r
        → Fits r (parts (timer_part P r) (P.hash_items (Timer P) s.timers))
        → Distinct (P.hash_items (Timer P) s.timers)
        → All Flushable (P.hash_items (Timer P) s.timers)
        → 0 < s.locks.timers_lock
        → Emptied [] (P.hash_items (Timer P) s.timers) o s
    flush_timers-Emptied o s short fits d p free =
        flush_timers-from (P.hash_items (Timer P) s.timers) [] o s short fits refl d
          (Apart-nil (Timer P) (P.hash_items (Timer P) s.timers)) p free

  -- The gauges are only reported.
  pub flush_gauges-returns :
      (gs : Assoc LongDouble) (o : Out) (s : State P)
      → Fits r (parts (gauge_part P r) gs)
      → flush_gauges P r gs o s ≡ ok (emit r (parts (gauge_part P r) gs) o, s)
  unfolding flush_gauges
  flush_gauges-returns [] o s fits = ap (λ x. ok (x, s)) (sym (emit-silent r o))
  flush_gauges-returns ((key, g) ∷ gs) o s fits =
      let text = gauge_text P r key g in
      let said = twice P r key g g (codes "gauge") (codes "stats_gauges_") in
      let part = gauge_part P r (key, g) in
      let more = parts (gauge_part P r) gs in
      bind-ok (two_messages P r key g g (codes "gauge") (print_stat r.enable_graphite text o))
        (λ o'. flush_gauges P r gs (one_more o'))
        (two_messages-returns P r key (codes "gauge") (codes "stats_gauges_") g g o s
          (Fits-left r part more fits))
      ∙ ap (λ x. flush_gauges P r gs x s) (emit-counted r said o refl)
      ∙ flush_gauges-returns gs (emit r part o) s (Fits-right r part more fits)
      ∙ ap (λ x. ok (x, s)) (emit-join r part more o)

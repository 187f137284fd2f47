-- ===== src/Flush/Timers.antt =====
-- One timer in `p_thread_flush` of src/statsd.c.
use statsd_c.Base.{sym, ◌-◌, ◌<◌, ◌≡◌, ◌∙◌, refl, ap, some, [], Bytes, arith}
use statsd_c.Exec.{lift, ok, pure, ◌>>=◌, bind-ok}
use statsd_c.Platform.{Platform}
use statsd_c.Platform.Laws.{HashLaws, ArrayLaws}
use statsd_c.Base.Assoc.{lookup, lookup-replace, replace, map_values-replace}
use statsd_c.Store.{State, Timer, wait_for_timers_lock}
use statsd_c.Store.View.{view, timers_view}
use statsd_c.Flush.{Round, Out, reset_timer, count_now, locked_timer, report_timer, flush_timer}
use statsd_c.Flush.Figures.{TimerFigures, timer_figures}
use statsd_c.Flush.Parts.{emit, Fits}
use statsd_c.Flush.Said.{SuffixFits, figures_part, report_timer-returns}

module _ {P : Platform} where
  -- The state in which the lock is held.
  abbrev held : State P → State P
  held s = record s { locks = record s.locks { timers_lock = s.locks.timers_lock - 1 } }

  wait-returns :
      (s : State P) → 0 < s.locks.timers_lock → wait_for_timers_lock P s ≡ ok (tt, held s)
  wait-returns s free = ground arith

  abbrev pub reset : Bytes → Timer P → State P → State P
  reset key t s = record s {
    timers =
        P.hash_write (Timer P) key (record { count = 0; values = P.array_clear t.values }) s.timers;
  }

  reset_timer-returns :
      (key : Bytes) (t : Timer P) (s : State P)
      → 0 < s.locks.timers_lock
      → reset_timer P key t (held s) ≡ ok (tt, reset key t s)
  unfolding reset_timer
  reset_timer-returns key t s free = ground arith

  locked_timer-returns :
      (r : Round) (key : Bytes) (t : Timer P) (f : TimerFigures P) (s : State P)
      → timer_figures P r.percentile t.count t.values ≡ ok f
      → 0 < s.locks.timers_lock
      → locked_timer P r key t (held s) ≡ ok (f, reset key t s)
  unfolding locked_timer
  locked_timer-returns r key t f s figures free =
      bind-ok (lift (timer_figures P r.percentile t.count t.values))
        (λ f'. reset_timer P key t >>= λ _. pure f') {s = held s} (rw (figures, lift) refl)
      ∙ bind-ok (reset_timer P key t) (λ _. pure f) (reset_timer-returns key t s free)

module _ {P : Platform} (H : HashLaws P) where
  -- The entry is found, and it has no value any more.
  count_now-reset :
      (key : Bytes) (t : Timer P) (s : State P)
      → P.hash_find (Timer P) key s.timers ≡ some t
      → count_now P key (reset key t s) ≡ ok (0, reset key t s)
  unfolding count_now
  count_now-reset key t s e =
      let empty : Timer P = record { count = 0; values = P.array_clear t.values } in
      let found : P.hash_find (Timer P) key (P.hash_write (Timer P) key empty s.timers)
          ≡ some empty =
        H.find-items (Timer P) key (P.hash_write (Timer P) key empty s.timers)
        ∙ ap (lookup key) (H.items-write (Timer P) key empty s.timers)
        ∙ lookup-replace key t empty (P.hash_items (Timer P) s.timers)
            (sym (H.find-items (Timer P) key s.timers) ∙ e) in
      rw (found, count_now) refl

  -- A timer with values is reset in its table, and its figures are said.
  pub flush_timer-eq :
      (r : Round) (key : Bytes) (t : Timer P) (f : TimerFigures P) (o : Out) (s : State P)
      → P.hash_find (Timer P) key s.timers ≡ some t
      → SuffixFits P r
      → Fits r (figures_part P r key f)
      → timer_figures P r.percentile t.count t.values ≡ ok f
      → 0 < s.locks.timers_lock
      → flush_timer P r key t o s ≡ ok (emit r (figures_part P r key f) o, reset key t s)
  unfolding flush_timer
  flush_timer-eq r key t f o s here short fits figures free =
      bind-ok (wait_for_timers_lock P)
        (λ _. locked_timer P r key t >>= λ f'. count_now P key >>= λ n. report_timer P r key f' n o)
        (wait-returns s free)
      ∙ bind-ok (locked_timer P r key t)
          (λ f'. count_now P key >>= λ n. report_timer P r key f' n o)
          (locked_timer-returns r key t f s figures free)
      ∙ bind-ok (count_now P key) (λ n. report_timer P r key f n o) (count_now-reset key t s here)
      ∙ report_timer-returns P r key f o (reset key t s) short fits

  module _ (A : ArrayLaws P) where
    -- A timer of the table that has values, and whose figures can be computed, is emptied, and only
    -- it; the five lines that are added for it, if graphite is on, and the five messages, if ganglia
    -- is, give its figures under their names and, as the number of its values, always 0, which is
    -- what `count` holds when it is read again. With ganglia on, the figures and the percentile's
    -- name have to fit their buffers; the lock is free.
    pub flush_timer-returns :
        (r : Round) (key : Bytes) (t : Timer P) (f : TimerFigures P) (o : Out) (s : State P)
        → P.hash_find (Timer P) key s.timers ≡ some t
        → SuffixFits P r
        → Fits r (figures_part P r key f)
        → timer_figures P r.percentile t.count t.values ≡ ok f
        → 0 < s.locks.timers_lock
        → (s' : State P) × (flush_timer P r key t o s ≡ ok (emit r (figures_part P r key f) o, s'))
          × (view P s' ≡ record (view P s) { timers = replace key [] (timers_view P s.timers) })
    flush_timer-returns r key t f o s here short fits figures free =
        let empty : Timer P = record { count = 0; values = P.array_clear t.values } in
        (
          reset key t s,
          flush_timer-eq r key t f o s here short fits figures free,
          rw (H.items-write (Timer P) key empty s.timers) (
              rw (
                map_values-replace (λ (x : Timer P). P.array_elems x.values) key empty
                    (P.hash_items (Timer P) s.timers),
                A.elems-clear,
              )),
        )

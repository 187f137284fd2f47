-- ===== src/Tests/Interleavings.antt =====
-- Two threads at once on the sample platform.
use statsd_c.Base.{
  ℕ, ◌+◌, ◌≤◌, ◌≡◌, refl, none, some, List, [], ◌∷◌, ◌++◌, Bytes, arith, length, codes,
}
use statsd_c.Queue.{queue_init, update}
use statsd_c.Threads.Counter.{
  away, leaving, sleeping, reported, updated, report, reset, UpdaterMove, divide, print, call, read,
  write, updates, flushes, Reached, start, later, System, value_after, updater_inside,
  flusher_inside,
}
use statsd_c.Threads.Counter.Order.{Reached-exclusive, Reached-value_after, update-unreported}
use statsd_c.Threads.Counter.Progress.{Leads, Reached-Leads}
use statsd_c.Threads.Ring
use statsd_c.Threads.Ring.{
  put, taken, answered_null, stores, pops, all_put, all_taken, NullWhenEmpty, ProducerMove,
  ConsumerMove,
}
use statsd_c.Threads.Ring.Storing.{options}
use statsd_c.Threads.Ring.Fifo.{Reached-first_out}
use statsd_c.Threads.Timer
use statsd_c.Threads.Timer.Kept.{Reached-figured}
use statsd_c.Flush.Figures.{double_sort}
use mathlib.Core.List.{Perm}
use statsd_c.Tests.Sample.{sample, sample-ArrayLaws, sample-SortLaws, sort_by}

-- The flush thread has reported 40, and the queue thread has added 2 and holds the semaphore.
abbrev between : System sample
between = record {
  mem = record { value = 42; counters_lock = 0 };
  updater = leaving;
  flusher = reported;
}

Reached-between : Reached sample 40 (updated 2 0 ∷ report 40 40 ∷ []) between
Reached-between =
    later
      (later
        (later (later (later (later start (flushes divide)) (flushes print)) (updates (call 2 0)))
          (updates (UpdaterMove.wait refl)))
        (updates read))
      (updates write)

Reached-exclusive_example :
    updater_inside sample between.updater + flusher_inside sample between.flusher ≤ 1
Reached-exclusive_example = Reached-exclusive Reached-between

Reached-value_after_example :
    between.mem.value ≡ value_after sample 40 (updated 2 0 ∷ report 40 40 ∷ [])
Reached-value_after_example = Reached-value_after Reached-between

Reached-Leads_example :
    (t : System sample) × Leads between t × (t.updater ≡ away) × (t.flusher ≡ sleeping)
Reached-Leads_example = Reached-Leads Reached-between

update-unreported_example :
    (s : System sample) × Reached sample 40 (reset ∷ updated 2 0 ∷ report 40 40 ∷ []) s
    × (s.updater ≡ away)
    × (s.flusher ≡ sleeping)
    × (s.mem.value ≡ 0)
update-unreported_example = update-unreported {P = sample} 40 2 0

-- A second packet comes in while the first one is taken out of a ring of two slots.
abbrev crossing : Ring.System
crossing = record {
  mem = record {
    store_pos = 1;
    retrieve_pos = 0;
    slot =
        update (update (update queue_init.slot 0 (some (codes "a"))) 1 (some (codes "b"))) 0 none;
  };
  producer = Ring.placed;
  consumer = Ring.emptied (some (codes "a"));
}

Reached-crossing :
    Ring.Reached 2
      (taken (some (codes "a")) ∷ put (codes "b") ∷ put (codes "a") ∷ answered_null ∷ [])
      crossing
unfolding queue_init
Reached-crossing =
    Ring.later
      (Ring.later
        (Ring.later
          (Ring.later
            (Ring.later
              (Ring.later
                (Ring.later
                  (Ring.later
                    (Ring.later
                      (Ring.later (Ring.later Ring.start (pops (ConsumerMove.null refl)))
                        (stores (ProducerMove.call (codes "a"))))
                      (stores ProducerMove.test))
                    (stores ProducerMove.place))
                  (stores ProducerMove.advance))
                (pops (ConsumerMove.look {ptr = codes "a"} refl)))
              (stores (ProducerMove.call (codes "b"))))
            (stores ProducerMove.test))
          (pops ConsumerMove.get))
        (stores ProducerMove.place))
      (pops ConsumerMove.clear)

Reached-first_out_example :
    (rest : List Bytes) × (all_put
        (taken (some (codes "a")) ∷ put (codes "b") ∷ put (codes "a") ∷ answered_null ∷ [])
      ≡ all_taken
          (taken (some (codes "a")) ∷ put (codes "b") ∷ put (codes "a") ∷ answered_null ∷ [])
        ++ options rest)
    × (length rest ≤ 2)
    × NullWhenEmpty
        (taken (some (codes "a")) ∷ put (codes "b") ∷ put (codes "a") ∷ answered_null ∷ [])
unfolding all_put all_taken
Reached-first_out_example =
    Reached-first_out 2 (omega arith) Reached-crossing (omega arith, (omega arith, tt))

-- The flush thread empties a timer with the values 5 and 2 while the queue thread waits with 7.
abbrev figures_of : List ℕ
figures_of = sort_by (double_sort sample) (5 ∷ 2 ∷ [])

abbrev emptying : Timer.System sample
emptying = record {
  mem = record { count = 2; values = []; timers_lock = 0 };
  updater = Timer.waiting 7;
  flusher = Timer.zeroing;
}

Reached-emptying : Timer.Reached sample 2 (5 ∷ 2 ∷ []) (Timer.figured figures_of ∷ []) emptying
Reached-emptying =
    Timer.later
      (Timer.later
        (Timer.later
          (Timer.later
            (Timer.later
              (Timer.later Timer.start (Timer.flushes (Timer.FlusherMove.test (omega arith))))
              (Timer.updates (Timer.UpdaterMove.call 7)))
            (Timer.flushes (Timer.FlusherMove.wait refl)))
          (Timer.flushes Timer.FlusherMove.sort))
        (Timer.flushes Timer.FlusherMove.measure))
      (Timer.flushes Timer.FlusherMove.clear)

Reached-figured_example :
    Perm
      (Timer.all_added sample (5 ∷ 2 ∷ []) (Timer.figured figures_of ∷ []))
      (Timer.all_figured sample (Timer.figured figures_of ∷ []) ++ [])
Reached-figured_example = Reached-figured sample-ArrayLaws sample-SortLaws Reached-emptying

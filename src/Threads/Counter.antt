-- ===== src/Threads/Counter.antt =====
-- A counter that the queue thread updates (`update_counter` of src/statsd.c) while the flush thread
-- reports and resets it (`p_thread_flush`), with the semaphore `counters_lock` between them.
pub mod Order
pub mod Progress
use statsd_c.Base.{ℕ, suc, ◌≡◌, Option, none, some, List, [], ◌∷◌}
use statsd_c.Platform.{Platform}
use statsd_c.Store.Update.{increment}

module _ (P : Platform) where
  open P use {Double, LongDouble, add_long, widen, long_of_nat}

  -- `c->value` and the value of the semaphore.
  pub record Shared : Type 0 where
    pub value : LongDouble
    pub counters_lock : ℕ

  -- Where the queue thread stands, on a counter that is there already: outside, in front of
  -- `wait_for_counters_lock`, of the read and of the write of `c->value`, and of
  -- `remove_counters_lock`. The arguments are `value`, `sample_rate` and what was read.
  pub data Updater : Type 0 where
    away : Updater
    waiting : Double → Double → Updater
    reading : Double → Double → Updater
    writing : Double → Double → LongDouble → Updater
    leaving : Updater

  -- Where the flush thread stands: outside; behind the division, with the value read for it; in
  -- front of the wait, of the reset and of the post.
  pub data Flusher : Type 0 where
    sleeping : Flusher
    rated : LongDouble → Flusher
    reported : Flusher
    clearing : Flusher
    cleared : Flusher

  -- What is seen from outside: an update, with `value` and `sample_rate`; a report, of the value
  -- that is divided and of the value that is printed; a reset.
  pub data Event : Type 0 where
    updated : Double → Double → Event
    report : LongDouble → LongDouble → Event
    reset : Event

  abbrev pub sum : Double → Double → LongDouble → LongDouble
  sum value sample_rate c = add_long c (widen (increment P value sample_rate))

  -- One access of the queue thread.
  pub data UpdaterMove (m : Shared) : Updater → Option Event → Shared → Updater → Type 0 where
    call : (value sample_rate : Double) → UpdaterMove m away none m (waiting value sample_rate)
    wait :
        {value sample_rate : Double} {n : ℕ}
        → m.counters_lock ≡ suc n
        → UpdaterMove m
            (waiting value sample_rate)
            none
            (record m { counters_lock = n })
            (reading value sample_rate)
    read :
        {value sample_rate : Double}
        → UpdaterMove m (reading value sample_rate) none m (writing value sample_rate m.value)
    write :
        {value sample_rate : Double} {c : LongDouble}
        → UpdaterMove m
            (writing value sample_rate c)
            (some (updated value sample_rate))
            (record m { value = sum value sample_rate c })
            leaving
    post : UpdaterMove m leaving none (record m { counters_lock = suc m.counters_lock }) away

  -- One access of the flush thread. The value is read twice, both times without the semaphore.
  pub data FlusherMove (m : Shared) : Flusher → Option Event → Shared → Flusher → Type 0 where
    divide : FlusherMove m sleeping none m (rated m.value)
    print : {v : LongDouble} → FlusherMove m (rated v) (some (report v m.value)) m reported
    wait :
        {n : ℕ}
        → m.counters_lock ≡ suc n
        → FlusherMove m reported none (record m { counters_lock = n }) clearing
    clear : FlusherMove m clearing (some reset) (record m { value = long_of_nat 0 }) cleared
    post : FlusherMove m cleared none (record m { counters_lock = suc m.counters_lock }) sleeping

  pub record System : Type 0 where
    pub mem : Shared
    pub updater : Updater
    pub flusher : Flusher

  -- One of the two threads moves.
  pub data Step (s : System) : Option Event → System → Type 0 where
    updates :
        {e : Option Event} {m : Shared} {u : Updater}
        → UpdaterMove s.mem s.updater e m u
        → Step s e (record s { mem = m; updater = u })
    flushes :
        {e : Option Event} {m : Shared} {f : Flusher}
        → FlusherMove s.mem s.flusher e m f
        → Step s e (record s { mem = m; flusher = f })

  -- The semaphore is initialised to 1.
  abbrev pub initial : LongDouble → System
  initial v = record {
    mem = record { value = v; counters_lock = 1 };
    updater = away;
    flusher = sleeping;
  }

  abbrev pub happened : Option Event → List Event → List Event
  happened none h = h
  happened (some e) h = e ∷ h

  -- The states in reach, with the events so far, the last one first.
  pub data Reached (v : LongDouble) : List Event → System → Type 0 where
    start : Reached v [] (initial v)
    later :
        {h : List Event} {s t : System} {e : Option Event}
        → Reached v h s
        → Step s e t
        → Reached v (happened e h) t

  -- The value when the events take place one after the other.
  unfoldable pub value_after : LongDouble → List Event → LongDouble
  value_after v [] = v
  value_after v (updated value sample_rate ∷ h) = sum value sample_rate (value_after v h)
  value_after v (report rate count ∷ h) = value_after v h
  value_after v (reset ∷ h) = long_of_nat 0

  -- Between the wait and the post.
  abbrev pub updater_inside : Updater → ℕ
  updater_inside away = 0
  updater_inside (waiting value sample_rate) = 0
  updater_inside (reading value sample_rate) = 1
  updater_inside (writing value sample_rate c) = 1
  updater_inside leaving = 1

  abbrev pub flusher_inside : Flusher → ℕ
  flusher_inside sleeping = 0
  flusher_inside (rated v) = 0
  flusher_inside reported = 0
  flusher_inside clearing = 1
  flusher_inside cleared = 1

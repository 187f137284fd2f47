-- ===== src/Threads/Timer.antt =====
-- A timer that the queue thread adds to (`update_timer` of src/statsd.c) while the flush thread
-- computes its figures and empties it (`p_thread_flush`), with the semaphore `timers_lock`.
pub mod Kept
use statsd_c.Base.{ℕ, suc, ◌+◌, ◌<◌, ◌≡◌, Option, none, some, List, [], ◌∷◌, ◌++◌}
use statsd_c.Platform.{Platform}
use statsd_c.Flush.Figures.{double_sort}

module _ (P : Platform) where
  open P use {Double, Array, array_push_back, array_sort, array_clear, array_elems}

  -- `t->count`, `t->values` and the value of the semaphore.
  pub record Shared : Type 0 where
    pub count : ℕ
    pub values : Array
    pub timers_lock : ℕ

  -- Where the queue thread stands, on a timer that is there already: outside; in front of the wait,
  -- of `utarray_push_back`, of the read and of the write of `count`, and of the post.
  pub data Updater : Type 0 where
    away : Updater
    waiting pushing : Double → Updater
    counting : Updater
    storing : ℕ → Updater
    leaving : Updater

  -- Where the flush thread stands: in front of the test of `count`; in front of the wait, of
  -- `utarray_sort`, of the loops over the values, of `utarray_clear` with the values that the figures
  -- were computed from, of the reset of `count`, of the post, and of the print of `count`.
  pub data Flusher : Type 0 where
    sleeping asking sorting measuring : Flusher
    clearing : List Double → Flusher
    zeroing posting printing : Flusher

  -- A value is added; figures of some values are made and the timer emptied; a count is printed.
  pub data Event : Type 0 where
    added : Double → Event
    figured : List Double → Event
    printed : ℕ → Event

  pub data UpdaterMove (m : Shared) : Updater → Option Event → Shared → Updater → Type 0 where
    call : (value : Double) → UpdaterMove m away none m (waiting value)
    wait :
        {value : Double} {n : ℕ}
        → m.timers_lock ≡ suc n
        → UpdaterMove m (waiting value) none (record m { timers_lock = n }) (pushing value)
    push :
        {value : Double}
        → UpdaterMove m
            (pushing value)
            (some (added value))
            (record m { values = array_push_back value m.values })
            counting
    read : UpdaterMove m counting none m (storing m.count)
    write : {n : ℕ} → UpdaterMove m (storing n) none (record m { count = n + 1 }) leaving
    post : UpdaterMove m leaving none (record m { timers_lock = suc m.timers_lock }) away

  pub data FlusherMove (m : Shared) : Flusher → Option Event → Shared → Flusher → Type 0 where
    skip : m.count ≡ 0 → FlusherMove m sleeping none m sleeping
    test : 0 < m.count → FlusherMove m sleeping none m asking
    wait :
        {n : ℕ}
        → m.timers_lock ≡ suc n
        → FlusherMove m asking none (record m { timers_lock = n }) sorting
    sort :
        FlusherMove m sorting none
          (record m { values = array_sort (double_sort P) m.values })
          measuring
    measure : FlusherMove m measuring none m (clearing (array_elems m.values))
    clear :
        {ds : List Double}
        → FlusherMove m
            (clearing ds)
            (some (figured ds))
            (record m { values = array_clear m.values })
            zeroing
    zero_count : FlusherMove m zeroing none (record m { count = 0 }) posting
    post : FlusherMove m posting none (record m { timers_lock = suc m.timers_lock }) printing
    print : FlusherMove m printing (some (printed m.count)) m sleeping

  pub record System : Type 0 where
    pub mem : Shared
    pub updater : Updater
    pub flusher : Flusher

  pub data Step (s : System) : Option Event → System → Type 0 where
    updates :
        {e : Option Event} {m : Shared} {u : Updater}
        → UpdaterMove s.mem s.updater e m u
        → Step s e (record s { mem = m; updater = u })
    flushes :
        {e : Option Event} {m : Shared} {f : Flusher}
        → FlusherMove s.mem s.flusher e m f
        → Step s e (record s { mem = m; flusher = f })

  -- A timer with `n` as its count, and the semaphore as it is initialised.
  abbrev pub initial : ℕ → Array → System
  initial n a = record {
    mem = record { count = n; values = a; timers_lock = 1 };
    updater = away;
    flusher = sleeping;
  }

  abbrev pub happened : Option Event → List Event → List Event
  happened none h = h
  happened (some e) h = e ∷ h

  -- The states in reach, with the events so far, the last one first.
  pub data Reached (n : ℕ) (a : Array) : List Event → System → Type 0 where
    start : Reached n a [] (initial n a)
    later :
        {h : List Event} {s t : System} {e : Option Event}
        → Reached n a h s
        → Step s e t
        → Reached n a (happened e h) t

  -- The values that were there or were added, and those that the figures were computed from.
  unfoldable pub all_added : Array → List Event → List Double
  all_added a [] = array_elems a
  all_added a (added d ∷ h) = all_added a h ++ d ∷ []
  all_added a (figured ds ∷ h) = all_added a h
  all_added a (printed n ∷ h) = all_added a h

  unfoldable pub all_figured : List Event → List Double
  all_figured [] = []
  all_figured (added d ∷ h) = all_figured h
  all_figured (figured ds ∷ h) = all_figured h ++ ds
  all_figured (printed n ∷ h) = all_figured h

  -- Between the wait and the post.
  abbrev pub updater_holds : Updater → ℕ
  updater_holds away = 0
  updater_holds (waiting value) = 0
  updater_holds (pushing value) = 1
  updater_holds counting = 1
  updater_holds (storing n) = 1
  updater_holds leaving = 1

  abbrev pub flusher_holds : Flusher → ℕ
  flusher_holds sleeping = 0
  flusher_holds asking = 0
  flusher_holds sorting = 1
  flusher_holds measuring = 1
  flusher_holds (clearing ds) = 1
  flusher_holds zeroing = 1
  flusher_holds posting = 1
  flusher_holds printing = 0

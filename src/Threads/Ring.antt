-- ===== src/Threads/Ring.antt =====
-- `queue_store` and `queue_pop_first` of src/queue.c, called by two threads at once: the mutex around
-- their bodies is commented out in the source, so that their accesses interleave.
pub mod Storing
pub mod Fifo
use statsd_c.Base.{
  ℕ, ◌+◌, ◌<◌, ◌≡◌, ◌==◌, Option, none, some, List, [], ◌∷◌, ◌++◌, Bytes, length, if◌then◌else◌,
}
use statsd_c.Queue.{Queue, queue_init, update, store_index, next_retrieve}

-- Where the UDP thread stands in `queue_store`: outside; in front of the test of `queue_store_pos`,
-- of the write to the slot, and of the increment.
pub data Producer : Type 0 where
  away : Producer
  testing placing : Bytes → Producer
  placed : Producer

-- Where the queue thread stands in `queue_pop_first`: outside, so in front of the test for NULL; in
-- front of the second read of the slot; with `tmpptr` in front of the reset of the slot, of the
-- increment, and of the test of `queue_retrieve_pos`.
pub data Consumer : Type 0 where
  outside found : Consumer
  holding emptied advanced : Option Bytes → Consumer

-- A packet is written to its slot; a slot is set to NULL behind the read of its packet; the answer
-- is NULL.
pub data Event : Type 0 where
  put : Bytes → Event
  taken : Option Bytes → Event
  answered_null : Event

-- The packets written and the packets taken, the first one first.
unfoldable pub all_put : List Event → List (Option Bytes)
all_put [] = []
all_put (put ptr ∷ h) = all_put h ++ some ptr ∷ []
all_put (taken tmpptr ∷ h) = all_put h
all_put (answered_null ∷ h) = all_put h

unfoldable pub all_taken : List Event → List (Option Bytes)
all_taken [] = []
all_taken (put ptr ∷ h) = all_taken h
all_taken (taken tmpptr ∷ h) = all_taken h ++ tmpptr ∷ []
all_taken (answered_null ∷ h) = all_taken h

-- At each write fewer than `size` packets were written and not taken.
abbrev pub NeverFull : ℕ → List Event → Type 0
NeverFull size [] = Unit
NeverFull size (put ptr ∷ h) = (length (all_put h) < length (all_taken h) + size) × NeverFull size h
NeverFull size (taken tmpptr ∷ h) = NeverFull size h
NeverFull size (answered_null ∷ h) = NeverFull size h

-- At each answer NULL every packet written was taken.
abbrev pub NullWhenEmpty : List Event → Type 0
NullWhenEmpty [] = Unit
NullWhenEmpty (put ptr ∷ h) = NullWhenEmpty h
NullWhenEmpty (taken tmpptr ∷ h) = NullWhenEmpty h
NullWhenEmpty (answered_null ∷ h) = (all_put h ≡ all_taken h) × NullWhenEmpty h

pub record System : Type 0 where
  pub mem : Queue
  pub producer : Producer
  pub consumer : Consumer

abbrev pub initial : System
initial = record { mem = queue_init; producer = away; consumer = outside }

abbrev pub happened : Option Event → List Event → List Event
happened none h = h
happened (some e) h = e ∷ h

module _ (size : ℕ) where
  pub data ProducerMove (q : Queue) : Producer → Option Event → Queue → Producer → Type 0 where
    call : (ptr : Bytes) → ProducerMove q away none q (testing ptr)
    test :
        {ptr : Bytes}
        → ProducerMove q
            (testing ptr)
            none
            (record q { store_pos = store_index size q })
            (placing ptr)
    place :
        {ptr : Bytes}
        → ProducerMove q
            (placing ptr)
            (some (put ptr))
            (record q { slot = update q.slot q.store_pos (some ptr) })
            placed
    advance : ProducerMove q placed none (record q { store_pos = q.store_pos + 1 }) away

  abbrev pub wrapped : ℕ → ℕ
  wrapped pos = if pos == size then 0 else pos

  pub data ConsumerMove (q : Queue) : Consumer → Option Event → Queue → Consumer → Type 0 where
    null : q.slot q.retrieve_pos ≡ none → ConsumerMove q outside (some answered_null) q outside
    look : {ptr : Bytes} → q.slot q.retrieve_pos ≡ some ptr → ConsumerMove q outside none q found
    get : ConsumerMove q found none q (holding (q.slot q.retrieve_pos))
    clear :
        {tmpptr : Option Bytes}
        → ConsumerMove q
            (holding tmpptr)
            (some (taken tmpptr))
            (record q { slot = update q.slot q.retrieve_pos none })
            (emptied tmpptr)
    advance :
        {tmpptr : Option Bytes}
        → ConsumerMove q
            (emptied tmpptr)
            none
            (record q { retrieve_pos = q.retrieve_pos + 1 })
            (advanced tmpptr)
    wrap :
        {tmpptr : Option Bytes}
        → ConsumerMove q
            (advanced tmpptr)
            none
            (record q { retrieve_pos = wrapped q.retrieve_pos })
            outside

  pub data Step (s : System) : Option Event → System → Type 0 where
    stores :
        {e : Option Event} {q : Queue} {p : Producer}
        → ProducerMove s.mem s.producer e q p
        → Step s e (record s { mem = q; producer = p })
    pops :
        {e : Option Event} {q : Queue} {c : Consumer}
        → ConsumerMove s.mem s.consumer e q c
        → Step s e (record s { mem = q; consumer = c })

  -- The states in reach, with the events so far, the last one first.
  pub data Reached : List Event → System → Type 0 where
    start : Reached [] initial
    later :
        {h : List Event} {s t : System} {e : Option Event}
        → Reached h s
        → Step s e t
        → Reached (happened e h) t

-- ===== src/Threads/Counter/Progress.antt =====
-- The queue thread and the flush thread of src/statsd.c do not block each other for good.
use statsd_c.Base.{ℕ, zero, suc, ◌+◌, ◌≡◌, refl, Option, List, arith, inl, inr, ◌⊎◌}
use statsd_c.Platform.{Platform}
use statsd_c.Threads.Counter.{
  Shared, Updater, away, waiting, reading, writing, leaving, Flusher, sleeping, rated, reported,
  clearing, cleared, Event, UpdaterMove, FlusherMove, print, clear, read, write, System, Step,
  updates, flushes, Reached, updater_inside, flusher_inside,
}
use statsd_c.Threads.Counter.Order.{Reached-Inv}

one_outside : (l a b : ℕ) → l + (a + b) ≡ 1 → (a ≡ 0) ⊎ (b ≡ 0)
one_outside l zero b h = inl refl
one_outside l (suc a) b h = inr (omega arith)

module _ {P : Platform} where
  -- Some steps lead from one state to the other.
  pub data Leads : System P → System P → Type 0 where
    here : {s : System P} → Leads s s
    more : {s t u : System P} {e : Option (Event P)} → Step P s e t → Leads t u → Leads s u

  Leads-trans : {s t u : System P} → Leads s t → Leads t u → Leads s u
  Leads-trans here b = b
  Leads-trans (more st a) b = more st (Leads-trans a b)

  abbrev at : Shared P → Updater P → Flusher P → System P
  at m u f = record { mem = m; updater = u; flusher = f }

  -- The semaphore is 1 again, and the queue thread is outside.
  abbrev Returns : Shared P → Updater P → Flusher P → Type 0
  Returns m u f = (m' : Shared P) × Leads (at m u f) (at m' away f) × (m'.counters_lock ≡ 1)

  updater-Returns :
      (m : Shared P) (u : Updater P) (f : Flusher P)
      → m.counters_lock + updater_inside P u ≡ 1
      → Returns m u f
  updater-Returns m away f h = (m, here, omega arith)
  updater-Returns m leaving f h = (_, more (updates UpdaterMove.post) here, omega arith)
  updater-Returns m (writing value sample_rate c) f h =
      (_, more (updates write) (more (updates UpdaterMove.post) here), omega arith)
  updater-Returns m (reading value sample_rate) f h = (
    _,
    more (updates read) (more (updates write) (more (updates UpdaterMove.post) here)),
    omega arith,
  )
  updater-Returns m (waiting value sample_rate) f h =
      let free : m.counters_lock ≡ suc 0 = omega arith in
      (
        _,
        more (updates (UpdaterMove.wait free))
            (more (updates read) (more (updates write) (more (updates UpdaterMove.post) here))),
        refl,
      )

  abbrev Sleeps : Shared P → Updater P → Flusher P → Type 0
  Sleeps m u f = (m' : Shared P) × Leads (at m u f) (at m' u sleeping) × (m'.counters_lock ≡ 1)

  reported-Sleeps : (m : Shared P) (u : Updater P) → m.counters_lock ≡ 1 → Sleeps m u reported
  reported-Sleeps m u h = (
    _,
    more (flushes (FlusherMove.wait h))
        (more (flushes clear) (more (flushes FlusherMove.post) here)),
    refl,
  )

  flusher-Sleeps :
      (m : Shared P) (u : Updater P) (f : Flusher P)
      → m.counters_lock + flusher_inside P f ≡ 1
      → Sleeps m u f
  flusher-Sleeps m u sleeping h = (m, here, omega arith)
  flusher-Sleeps m u cleared h = (_, more (flushes FlusherMove.post) here, omega arith)
  flusher-Sleeps m u clearing h =
      (_, more (flushes clear) (more (flushes FlusherMove.post) here), omega arith)
  flusher-Sleeps m u reported h = reported-Sleeps m u (omega arith)
  flusher-Sleeps m u (rated v) h =
      let (m', l, e) = reported-Sleeps m u (omega arith) in (m', more (flushes print) l, e)

  -- The one inside goes first.
  home :
      (m : Shared P) (u : Updater P) (f : Flusher P)
      → m.counters_lock + (updater_inside P u + flusher_inside P f) ≡ 1
      → (updater_inside P u ≡ 0) ⊎ (flusher_inside P f ≡ 0)
      → (m' : Shared P) × Leads (at m u f) (at m' away sleeping)
  home m u f h (inl out) =
      let (a, la, ea) = flusher-Sleeps m u f (omega arith) in
      let (b, lb, eb) = updater-Returns a u sleeping (omega arith) in (b, Leads-trans la lb)
  home m u f h (inr out) =
      let (a, la, ea) = updater-Returns m u f (omega arith) in
      let (b, lb, eb) = flusher-Sleeps a away f (omega arith) in (b, Leads-trans la lb)

  -- No state in reach is a deadlock: from each of them both threads can still finish, the queue
  -- thread its update and the flush thread its report and reset of the counter.
  pub Reached-Leads :
      {v : P.LongDouble} {h : List (Event P)} {s : System P}
      → Reached P v h s
      → (t : System P) × Leads s t × (t.updater ≡ away) × (t.flusher ≡ sleeping)
  Reached-Leads {s} r =
      let posts = (Reached-Inv r).posts in
      let (m, l) = home s.mem s.updater s.flusher posts (
        one_outside s.mem.counters_lock (updater_inside P s.updater) (flusher_inside P s.flusher)
          posts) in
      (at m away sleeping, l, refl, refl)

-- ===== src/Threads/Counter/Order.antt =====
-- The updates and resets of a counter in src/statsd.c take place one after the other.
use statsd_c.Base.{◌+◌, ◌≤◌, ◌≡◌, refl, Option, List, [], ◌∷◌, arith}
use statsd_c.Platform.{Platform}
use statsd_c.Threads.Counter.{
  Shared, Updater, away, waiting, reading, writing, leaving, Flusher, sleeping, Event, updated,
  report, reset, UpdaterMove, FlusherMove, divide, print, clear, call, read, write, System, updates,
  flushes, Reached, start, later, happened, value_after, updater_inside, flusher_inside,
}

module _ {P : Platform} where
  -- What the queue thread has read is what the counter still holds.
  abbrev IsCurrent : P.LongDouble → Updater P → Type 0
  IsCurrent v (writing value sample_rate c) = c ≡ v
  IsCurrent v u = Unit

  pub record Inv (v : P.LongDouble) (h : List (Event P)) (s : System P) : Type 0 where
    pub posts : s.mem.counters_lock + (updater_inside P s.updater + flusher_inside P s.flusher) ≡ 1
    pub value : s.mem.value ≡ value_after P v h
    pub current : IsCurrent s.mem.value s.updater

  updates-Inv :
      {v : P.LongDouble} {h : List (Event P)} {m m' : Shared P} {u u' : Updater P} {f : Flusher P}
      {e : Option (Event P)}
      → Inv v h (record { mem = m; updater = u; flusher = f })
      → UpdaterMove P m u e m' u'
      → Inv v (happened P e h) (record { mem = m'; updater = u'; flusher = f })
  unfolding value_after
  updates-Inv i (call value sample_rate) = record { posts = i.posts; value = i.value; current = tt }
  updates-Inv i (UpdaterMove.wait g) = record {
    posts = ground (arith, g, i.posts);
    value = i.value;
    current = tt;
  }
  updates-Inv i read = record { posts = i.posts; value = i.value; current = refl }
  updates-Inv i write = record {
    posts = i.posts;
    value = rw (← i.value, i.current) refl;
    current = tt;
  }
  updates-Inv i UpdaterMove.post = record {
    posts = ground (arith, i.posts);
    value = i.value;
    current = tt;
  }

  -- With the flush thread inside, the queue thread is outside and has read nothing.
  outside-IsCurrent : (v : P.LongDouble) (u : Updater P) → updater_inside P u ≡ 0 → IsCurrent v u
  outside-IsCurrent v (writing value sample_rate c) h = absurd (ground arith)
  outside-IsCurrent v away h = tt
  outside-IsCurrent v (waiting value sample_rate) h = tt
  outside-IsCurrent v (reading value sample_rate) h = tt
  outside-IsCurrent v leaving h = tt

  flushes-Inv :
      {v : P.LongDouble} {h : List (Event P)} {m m' : Shared P} {u : Updater P} {f f' : Flusher P}
      {e : Option (Event P)}
      → Inv v h (record { mem = m; updater = u; flusher = f })
      → FlusherMove P m f e m' f'
      → Inv v (happened P e h) (record { mem = m'; updater = u; flusher = f' })
  unfolding value_after
  flushes-Inv i divide = record { posts = i.posts; value = i.value; current = i.current }
  flushes-Inv i print = record { posts = i.posts; value = i.value; current = i.current }
  flushes-Inv i (FlusherMove.wait g) = record {
    posts = ground (arith, g, i.posts);
    value = i.value;
    current = i.current;
  }
  flushes-Inv {u} i clear = record {
    posts = i.posts;
    value = refl;
    current = outside-IsCurrent _ u (omega (arith, i.posts));
  }
  flushes-Inv i FlusherMove.post = record {
    posts = ground (arith, i.posts);
    value = i.value;
    current = i.current;
  }

  pub Reached-Inv :
      {v : P.LongDouble} {h : List (Event P)} {s : System P} → Reached P v h s → Inv v h s
  unfolding value_after
  Reached-Inv start = record { posts = refl; value = refl; current = tt }
  Reached-Inv (later r (updates mv)) = updates-Inv (Reached-Inv r) mv
  Reached-Inv (later r (flushes mv)) = flushes-Inv (Reached-Inv r) mv

  -- Never are the queue thread and the flush thread both between the wait for `counters_lock` and
  -- its post, however their accesses to a counter are interleaved.
  pub Reached-exclusive :
      {v : P.LongDouble} {h : List (Event P)} {s : System P}
      → Reached P v h s
      → updater_inside P s.updater + flusher_inside P s.flusher ≤ 1
  Reached-exclusive r = omega (arith, (Reached-Inv r).posts)

  -- However the accesses of the queue thread and of the flush thread to a counter are interleaved,
  -- it holds what its updates and resets give when they take place one after the other, in the
  -- order of their writes: no update overwrites a reset or another update.
  pub Reached-value_after :
      {v : P.LongDouble} {h : List (Event P)} {s : System P}
      → Reached P v h s
      → s.mem.value ≡ value_after P v h
  Reached-value_after r = (Reached-Inv r).value

  -- An update between the report of a counter and its reset is lost. From every value and for
  -- every update there is a run in which the counter is reported with the value in front of the
  -- update, the update is carried out as a whole, and the counter is reset behind it.
  pub update-unreported :
      (v : P.LongDouble) (value sample_rate : P.Double)
      → (s : System P) × Reached P v (reset ∷ updated value sample_rate ∷ report v v ∷ []) s
        × (s.updater ≡ away)
        × (s.flusher ≡ sleeping)
        × (s.mem.value ≡ P.long_of_nat 0)
  update-unreported v value sample_rate = (
    _,
    later
        (later
          (later
            (later
              (later
                (later
                  (later
                    (later (later (later start (flushes divide)) (flushes print))
                      (updates (call value sample_rate)))
                    (updates (UpdaterMove.wait refl)))
                  (updates read))
                (updates write))
              (updates UpdaterMove.post))
            (flushes (FlusherMove.wait refl)))
          (flushes clear))
        (flushes FlusherMove.post),
    refl,
    refl,
    refl,
  )

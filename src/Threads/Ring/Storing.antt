-- ===== src/Threads/Ring/Storing.antt =====
-- What holds of the ring of src/queue.c in front of each access of its two threads, and that the
-- accesses of the UDP thread keep it.
use statsd_c.Base.{
  ℕ, suc, ◌+◌, ◌<◌, ◌≡◌, ◌∙◌, refl, sym, ap, ◌==◌, false, Option, some, List, [], ◌∷◌, ◌++◌, Bytes,
  length, length-append, arith,
}
use mathlib.Core.List.{append_assoc}
use statsd_c.Queue.{Queue, update, store_index, next_retrieve, queue_store_sized}
use statsd_c.Queue.Fifo.{Holds, queue_store-Holds}
use statsd_c.Threads.Ring.{
  Producer, testing, placing, placed, Consumer, outside, found, holding, emptied, advanced, Event,
  put, ProducerMove, wrapped, happened, all_put, all_taken, NeverFull, NullWhenEmpty,
}

abbrev pub options : List Bytes → List (Option Bytes)
options [] = []
options (x ∷ xs) = some x ∷ options xs

length-options : (xs : List Bytes) → length (options xs) ≡ length xs
length-options [] = refl
length-options (x ∷ xs) = ap suc (length-options xs)

options-concat : (xs : List Bytes) (x : Bytes) → options (xs ++ x ∷ []) ≡ options xs ++ some x ∷ []
options-concat [] x = refl
options-concat (y ∷ xs) x = ap (◌∷◌ (some y)) (options-concat xs x)

module _ (size : ℕ) where
  -- The positions once both calls are through.
  abbrev pub store_end : Producer → ℕ → ℕ
  store_end placed pos = pos + 1
  store_end p pos = pos

  abbrev pub retrieve_end : Consumer → ℕ → ℕ
  retrieve_end (emptied tmpptr) pos = next_retrieve size pos
  retrieve_end (advanced tmpptr) pos = wrapped size pos
  retrieve_end c pos = pos

  -- The ring as the calls leave it that have passed the write to their slot.
  abbrev pub settled : Producer → Consumer → Queue → Queue
  settled p c q = record {
    store_pos = store_end p q.store_pos;
    retrieve_pos = retrieve_end c q.retrieve_pos;
    slot = q.slot;
  }

  -- What the queue thread knows of the packets in the ring.
  abbrev pub Seen : Consumer → List Bytes → Type 0
  Seen found [] = ⊥
  Seen (holding tmpptr) [] = ⊥
  Seen (holding tmpptr) (x ∷ xs) = tmpptr ≡ some x
  Seen c xs = Unit

  -- Behind the test the UDP thread's position is an index.
  abbrev pub Ready : Producer → ℕ → Type 0
  Ready (placing ptr) pos = pos < size
  Ready p pos = Unit

  pub record Inv (h : List Event) (p : Producer) (c : Consumer) (q : Queue) : Type 0 where
    pub rest : List Bytes
    pub holds : Holds size (settled p c q) rest
    pub kept : all_put h ≡ all_taken h ++ options rest
    pub seen : Seen c rest
    pub ready : Ready p q.store_pos
    pub nulls : NullWhenEmpty h

  -- A move that leaves the ring as it is, seen from behind the calls.
  pub carried :
      {h : List Event} {p p' : Producer} {c c' : Consumer} {q q' : Queue} (i : Inv h p c q)
      → settled p c q ≡ settled p' c' q'
      → Seen c' i.rest
      → Ready p' q'.store_pos
      → Inv h p' c' q'
  carried i e s r = record {
    rest = i.rest;
    holds = rw (← e) i.holds;
    kept = i.kept;
    seen = s;
    ready = r;
    nulls = i.nulls;
  }

  -- The next index is all that counts of `store_pos`.
  Holds-store_index :
      (q : Queue) (xs : List Bytes)
      → Holds size q xs
      → Holds size (record q { store_pos = store_index size q }) xs
  Holds-store_index q xs h = record {
    pending = record {
      retrieve_lt = h.pending.retrieve_lt;
      store_le = ground (arith, h.pending.store_le);
      length_le = h.pending.length_le;
      slots = h.pending.slots;
    };
    next_store = ground (arith, h.next_store, h.pending.store_le, h.pending.retrieve_lt);
  }

  queue_store-at :
      (q : Queue) (ptr : Bytes)
      → q.store_pos < size
      → queue_store_sized size ptr q
        ≡ record q { store_pos = q.store_pos + 1; slot = update q.slot q.store_pos (some ptr) }
  unfolding queue_store_sized
  queue_store-at q ptr h = let e : (q.store_pos == size) ≡ false = ground arith in rw e refl

  Seen-append : (c : Consumer) (xs : List Bytes) (ptr : Bytes) → Seen c xs → Seen c (xs ++ ptr ∷ [])
  Seen-append outside xs ptr h = tt
  Seen-append found [] ptr h = absurd h
  Seen-append found (x ∷ xs) ptr h = tt
  Seen-append (holding tmpptr) [] ptr h = absurd h
  Seen-append (holding tmpptr) (x ∷ xs) ptr h = h
  Seen-append (emptied tmpptr) xs ptr h = tt
  Seen-append (advanced tmpptr) xs ptr h = tt

  -- Fewer than `size` packets are in the ring.
  room :
      (h : List Event) (rest : List Bytes)
      → all_put h ≡ all_taken h ++ options rest
      → length (all_put h) < length (all_taken h) + size
      → length rest < size
  room h rest e l =
      let whole : length (all_put h) ≡ length (all_taken h) + length (options rest) =
        rw e (length-append (all_taken h) (options rest)) in
      omega (arith, whole, length-options rest)

  place-Inv :
      {h : List Event} {c : Consumer} {q : Queue} {ptr : Bytes}
      → Inv h (placing ptr) c q
      → length (all_put h) < length (all_taken h) + size
      → Inv (put ptr ∷ h) placed c (record q { slot = update q.slot q.store_pos (some ptr) })
  unfolding all_put all_taken
  place-Inv {h} {c} {q} {ptr} i l = record {
    rest = i.rest ++ ptr ∷ [];
    holds = rw (← queue_store-at (settled (placing ptr) c q) ptr i.ready) (
        queue_store-Holds size (settled (placing ptr) c q) i.rest ptr i.holds
          (room h i.rest i.kept l));
    kept =
        ap (λ l. l ++ some ptr ∷ []) i.kept
        ∙ append_assoc (all_taken h) (options i.rest) (some ptr ∷ [])
        ∙ ap (◌++◌ (all_taken h)) (sym (options-concat i.rest ptr));
    seen = Seen-append c i.rest ptr i.seen;
    ready = tt;
    nulls = i.nulls;
  }

  pub stores-Inv :
      {h : List Event} {p p' : Producer} {c : Consumer} {q q' : Queue} {e : Option Event}
      → Inv h p c q
      → ProducerMove size q p e q' p'
      → NeverFull size (happened e h)
      → Inv (happened e h) p' c q'
  stores-Inv i (ProducerMove.call ptr) n = carried i refl i.seen tt
  stores-Inv {c} {q} i (ProducerMove.test {ptr}) n = record {
    rest = i.rest;
    holds = Holds-store_index (settled (testing ptr) c q) i.rest i.holds;
    kept = i.kept;
    seen = i.seen;
    ready = ground (arith, i.holds.pending.store_le, i.holds.pending.retrieve_lt);
    nulls = i.nulls;
  }
  stores-Inv i ProducerMove.place n = place-Inv i n.0
  stores-Inv i ProducerMove.advance n = carried i refl i.seen tt

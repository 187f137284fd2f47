-- ===== src/Threads/Ring/Fifo.antt =====
-- The ring of src/queue.c under two threads is a first-in first-out queue.
use statsd_c.Base.{
  ℕ, ◌<◌, ◌≤◌, ◌≡◌, ◌∙◌, refl, sym, ap, Option, none, some, List, [], ◌∷◌, ◌++◌, Bytes, length,
  arith,
}
use mathlib.Core.List.{append-nil, append_assoc}
use statsd_c.Queue.{Queue, update}
use statsd_c.Queue.Fifo.{Holds, queue_init-Holds, Holds-tail, slot-head, pop_eq}
use statsd_c.Threads.Ring.Storing.{options, settled, Seen, Ready, Inv, carried, stores-Inv}
use statsd_c.Threads.Ring.{
  Producer, Consumer, outside, found, holding, emptied, Event, put, taken, answered_null,
  ConsumerMove, System, stores, pops, happened, Reached, start, later, all_put, all_taken,
  NeverFull, NullWhenEmpty,
}

module _ (size : ℕ) where
  -- A slot is NULL at `queue_retrieve_pos` only if the ring is empty.
  null-Inv :
      (h : List Event) (p : Producer) (q : Queue) (rest : List Bytes)
      → Holds size (settled size p outside q) rest
      → all_put h ≡ all_taken h ++ options rest
      → q.slot q.retrieve_pos ≡ none
      → all_put h ≡ all_taken h
  null-Inv h p q [] o k e = k ∙ append-nil (all_taken h)
  null-Inv h p q (x ∷ xs) o k e =
      absurd (cc (e, slot-head size (settled size p outside q) x xs o.pending))

  look-Seen :
      (p : Producer) (q : Queue) (ptr : Bytes) (rest : List Bytes)
      → Holds size (settled size p outside q) rest
      → q.slot q.retrieve_pos ≡ some ptr
      → Seen size found rest
  look-Seen p q ptr [] o e = absurd (ground (arith, e, o.pending.slots 0, o.pending.retrieve_lt))
  look-Seen p q ptr (x ∷ xs) o e = tt

  get-Seen :
      (p : Producer) (q : Queue) (rest : List Bytes)
      → Holds size (settled size p found q) rest
      → Seen size found rest
      → Seen size (holding (q.slot q.retrieve_pos)) rest
  get-Seen p q [] o s = s
  get-Seen p q (x ∷ xs) o s = slot-head size (settled size p found q) x xs o.pending

  clear-Inv :
      {h : List Event} {p : Producer} {q : Queue} {tmpptr : Option Bytes} (rest : List Bytes)
      → Holds size (settled size p (holding tmpptr) q) rest
      → all_put h ≡ all_taken h ++ options rest
      → Seen size (holding tmpptr) rest
      → Ready size p q.store_pos
      → NullWhenEmpty h
      → Inv size
          (taken tmpptr ∷ h)
          p
          (emptied tmpptr)
          (record q { slot = update q.slot q.retrieve_pos none })
  unfolding all_put all_taken
  clear-Inv [] o k s r n = absurd s
  clear-Inv {h} {p} {q} {tmpptr} (x ∷ xs) o k s r n = record {
    rest = xs;
    holds =
        rw (← ap (λ t. t.1) (pop_eq size (settled size p (holding tmpptr) q) x xs o.pending))
          (Holds-tail size (settled size p (holding tmpptr) q) x xs o);
    kept =
        k
        ∙ sym (append_assoc (all_taken h) (some x ∷ []) (options xs))
        ∙ ap (λ t. (all_taken h ++ t ∷ []) ++ options xs) (sym s);
    seen = tt;
    ready = r;
    nulls = n;
  }

  pops-Inv :
      {h : List Event} {p : Producer} {c c' : Consumer} {q q' : Queue} {e : Option Event}
      → Inv size h p c q
      → ConsumerMove size q c e q' c'
      → Inv size (happened e h) p c' q'
  unfolding all_put all_taken
  pops-Inv {h} {p} {q} i (ConsumerMove.null g) = record {
    rest = i.rest;
    holds = i.holds;
    kept = i.kept;
    seen = tt;
    ready = i.ready;
    nulls = (null-Inv h p q i.rest i.holds i.kept g, i.nulls);
  }
  pops-Inv {p} {q} i (ConsumerMove.look {ptr} g) =
      carried size i refl (look-Seen p q ptr i.rest i.holds g) i.ready
  pops-Inv {p} {q} i ConsumerMove.get =
      carried size i refl (get-Seen p q i.rest i.holds i.seen) i.ready
  pops-Inv i ConsumerMove.clear = clear-Inv i.rest i.holds i.kept i.seen i.ready i.nulls
  pops-Inv i ConsumerMove.advance = carried size i refl tt i.ready
  pops-Inv i ConsumerMove.wrap = carried size i refl tt i.ready

  NeverFull-earlier :
      (e : Option Event) (h : List Event) → NeverFull size (happened e h) → NeverFull size h
  NeverFull-earlier none h n = n
  NeverFull-earlier (some (put ptr)) h n = n.1
  NeverFull-earlier (some (taken tmpptr)) h n = n
  NeverFull-earlier (some answered_null) h n = n

  Reached-Inv :
      {h : List Event} {s : System}
      → 0 < size
      → Reached size h s
      → NeverFull size h
      → Inv size h s.producer s.consumer s.mem
  unfolding all_put all_taken
  Reached-Inv positive start n = record {
    rest = [];
    holds = queue_init-Holds size positive;
    kept = refl;
    seen = tt;
    ready = tt;
    nulls = tt;
  }
  Reached-Inv positive (later {h} {e} r (stores mv)) n =
      stores-Inv size (Reached-Inv positive r (NeverFull-earlier e h n)) mv n
  Reached-Inv positive (later {h} {e} r (pops mv)) n =
      pops-Inv (Reached-Inv positive r (NeverFull-earlier e h n)) mv

  -- However the accesses of the two threads to the ring are interleaved, from its initialisation
  -- on: while fewer than `size` packets are in it at each write, the packets that `queue_pop_first`
  -- takes are the ones that `queue_store` wrote, each once and in their order, up to the packets
  -- `rest` that are still in it, and it answers NULL only when all of them were taken.
  pub Reached-first_out :
      {h : List Event} {s : System}
      → 0 < size
      → Reached size h s
      → NeverFull size h
      → (rest : List Bytes) × (all_put h ≡ all_taken h ++ options rest)
        × (length rest ≤ size)
        × NullWhenEmpty h
  Reached-first_out positive r n =
      let i = Reached-Inv positive r n in (i.rest, i.kept, i.holds.pending.length_le, i.nulls)

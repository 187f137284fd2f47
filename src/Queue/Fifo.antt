-- ===== src/Queue/Fifo.antt =====
-- src/queue.c against a bounded first-in first-out queue, and what happens past its capacity.
use statsd_c.Base.{
  ℕ, zero, suc, ◌+◌, ◌-◌, ◌≤◌, ◌<◌, ◌≡◌, ◌≢◌, refl, List, [], ◌∷◌, ◌++◌, Option, none, some, Bytes,
  arith, length, get_elem?, leb, if◌then◌else◌, ap,
}
use native.Mathlib.Decide.{dec_lt}
use statsd_c.Queue.{
  Queue, queue_init, update, store_index, queue_store_sized, next_retrieve, take_out,
  queue_pop_first_sized,
}

-- A client's calls.
pub data Call : Type 0 where
  store : Bytes → Call
  pop : Call

-- The ideal queue: what each call returns, `queue_store` returning no packet.
unfoldable pub ideal_run : List Bytes → List Call → List (Option Bytes)
ideal_run xs [] = []
ideal_run xs (store p ∷ cs) = none ∷ ideal_run (xs ++ p ∷ []) cs
ideal_run [] (pop ∷ cs) = none ∷ ideal_run [] cs
ideal_run (x ∷ xs) (pop ∷ cs) = some x ∷ ideal_run xs cs

-- At each `store` fewer than `size` packets are pending.
abbrev pub NeverFull : ℕ → List Bytes → List Call → Type 0
NeverFull size xs [] = Unit
NeverFull size xs (store p ∷ cs) = (length xs < size) × NeverFull size (xs ++ p ∷ []) cs
NeverFull size [] (pop ∷ cs) = NeverFull size [] cs
NeverFull size (x ∷ xs) (pop ∷ cs) = NeverFull size xs cs

get_elem?-concat :
    (xs : List Bytes) (p : Bytes) (i : ℕ)
    → i ≢ length xs
    → get_elem? (xs ++ p ∷ []) i ≡ get_elem? xs i
get_elem?-concat [] p zero h = absurd (h refl)
get_elem?-concat [] p (suc i) h = refl
get_elem?-concat (x ∷ xs) p zero h = refl
get_elem?-concat (x ∷ xs) p (suc i) h = get_elem?-concat xs p i (omega arith)

get_elem?-concat_last :
    (xs : List Bytes) (p : Bytes) → get_elem? (xs ++ p ∷ []) (length xs) ≡ some p
get_elem?-concat_last [] p = refl
get_elem?-concat_last (x ∷ xs) p = get_elem?-concat_last xs p

length-concat : (xs : List Bytes) (p : Bytes) → length (xs ++ p ∷ []) ≡ length xs + 1
length-concat [] p = omega arith
length-concat (x ∷ xs) p = omega (arith, length-concat xs p)

get_elem?-of_length_le : (xs : List Bytes) (i : ℕ) → length xs ≤ i → get_elem? xs i ≡ none
get_elem?-of_length_le [] i h = refl
get_elem?-of_length_le (x ∷ xs) zero h = absurd (omega arith)
get_elem?-of_length_le (x ∷ xs) (suc i) h = get_elem?-of_length_le xs i (omega arith)

module _ (size : ℕ) where
  -- The index `i` places behind `r`, going round at `size`.
  abbrev pub place : ℕ → ℕ → ℕ
  place r i = if leb size (r + i) then r + i - size else r + i

  -- The slots from `retrieve_pos` on hold `xs`, the others NULL.
  pub record Pending (q : Queue) (xs : List Bytes) : Type 0 where
    pub retrieve_lt : q.retrieve_pos < size
    pub store_le : q.store_pos ≤ size
    pub length_le : length xs ≤ size
    pub slots : (i : ℕ) → i < size → q.slot (place q.retrieve_pos i) ≡ get_elem? xs i

  -- Besides, the next packet goes behind the last one.
  pub record Holds (q : Queue) (xs : List Bytes) : Type 0 where
    pub pending : Pending q xs
    pub next_store : store_index size q ≡ place q.retrieve_pos (length xs)

  unfoldable pub run : Queue → List Call → List (Option Bytes)
  run q [] = []
  run q (store p ∷ cs) = none ∷ run (queue_store_sized size p q) cs
  run q (pop ∷ cs) = let (r, q') = queue_pop_first_sized size q in r ∷ run q' cs

  pub queue_init-Holds : 0 < size → Holds queue_init []
  unfolding queue_init
  queue_init-Holds h = record {
    pending = record {
      retrieve_lt = h;
      store_le = omega arith;
      length_le = omega arith;
      slots = λ i hi. refl;
    };
    next_store = ground arith;
  }

  slots-store :
      (q : Queue) (xs : List Bytes) (p : Bytes)
      → Holds q xs
      → length xs < size
      → (i : ℕ) → i < size
      → (queue_store_sized size p q).slot (place q.retrieve_pos i) ≡ get_elem? (xs ++ p ∷ []) i
  unfolding queue_store_sized
  slots-store q xs p h room i hi = ground (
    arith,
    h.pending.slots i,
    get_elem?-concat xs p i,
    get_elem?-concat_last xs p,
    h.next_store,
    h.pending.retrieve_lt,
  )

  pub queue_store-Holds :
      (q : Queue) (xs : List Bytes) (p : Bytes)
      → Holds q xs
      → length xs < size
      → Holds (queue_store_sized size p q) (xs ++ p ∷ [])
  unfolding queue_store_sized
  queue_store-Holds q xs p h room = record {
    pending = record {
      retrieve_lt = h.pending.retrieve_lt;
      store_le = ground (arith, h.pending.store_le, h.pending.retrieve_lt);
      length_le = omega (arith, length-concat xs p);
      slots = slots-store q xs p h room;
    };
    next_store =
        ground (arith, h.next_store, length-concat xs p, h.pending.retrieve_lt, h.pending.store_le);
  }

  -- An empty queue answers NULL and stays as it is.
  pub queue_pop_first-nil : (q : Queue) → Pending q [] → queue_pop_first_sized size q ≡ (none, q)
  unfolding queue_pop_first_sized
  queue_pop_first-nil q h = ground (arith, h.slots 0, h.retrieve_lt)

  pub slot-head :
      (q : Queue) (x : Bytes) (xs : List Bytes)
      → Pending q (x ∷ xs)
      → q.slot q.retrieve_pos ≡ some x
  slot-head q x xs h = ground (arith, h.slots 0, h.retrieve_lt)

  pub pop_eq :
      (q : Queue) (x : Bytes) (xs : List Bytes)
      → Pending q (x ∷ xs)
      → queue_pop_first_sized size q ≡ (
        some x,
        record q {
          retrieve_pos = next_retrieve size q.retrieve_pos;
          slot = update q.slot q.retrieve_pos none;
        },
      )
  unfolding queue_pop_first_sized
  pop_eq q x xs h = rw (slot-head q x xs h, take_out) refl

  pub slots-pop :
      (q : Queue) (x : Bytes) (xs : List Bytes)
      → Pending q (x ∷ xs)
      → (i : ℕ) → i < size
      → update q.slot q.retrieve_pos none (place (next_retrieve size q.retrieve_pos) i)
        ≡ get_elem? xs i
  slots-pop q x xs h i hi = elim (dec_lt (suc i) size) [
    | yes inside ↦ ground (arith, h.slots (suc i), h.retrieve_lt)
    | no last ↦ ground (arith, get_elem?-of_length_le xs i, h.length_le, h.retrieve_lt)
  ]

  pub Pending-tail :
      (q : Queue) (x : Bytes) (xs : List Bytes)
      → Pending q (x ∷ xs)
      → Pending (queue_pop_first_sized size q).1 xs
  Pending-tail q x xs h = rw (pop_eq q x xs h) (record {
    retrieve_lt = ground (arith, h.retrieve_lt);
    store_le = h.store_le;
    length_le = omega (arith, h.length_le);
    slots = slots-pop q x xs h;
  })

  pub Holds-tail :
      (q : Queue) (x : Bytes) (xs : List Bytes)
      → Holds q (x ∷ xs)
      → Holds (queue_pop_first_sized size q).1 xs
  Holds-tail q x xs h = record {
    pending = Pending-tail q x xs h.pending;
    next_store =
        rw (pop_eq q x xs h.pending)
          (ground (arith, h.next_store, h.pending.retrieve_lt, h.pending.length_le));
  }

  -- While fewer than `size` packets are pending at each `queue_store`, every call returns what the
  -- ideal queue of the pending packets returns: no packet is lost, doubled or overtaken.
  pub run_refines :
      (cs : List Call) (q : Queue) (xs : List Bytes)
      → Holds q xs
      → NeverFull size xs cs
      → run q cs ≡ ideal_run xs cs
  unfolding run ideal_run
  run_refines [] q xs h n = refl
  run_refines (store p ∷ cs) q xs h n = rw (
      run_refines cs (queue_store_sized size p q) (xs ++ p ∷ []) (queue_store-Holds q xs p h n.0)
        n.1)
  run_refines (pop ∷ cs) q [] h n =
      rw (queue_pop_first-nil q h.pending) (ap (◌∷◌ none) (run_refines cs q [] h n))
  run_refines (pop ∷ cs) q (x ∷ xs) h n =
      rw (run_refines cs (queue_pop_first_sized size q).1 xs (Holds-tail q x xs h) n)
        (rw (pop_eq q x xs h.pending))

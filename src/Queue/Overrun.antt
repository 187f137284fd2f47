-- ===== src/Queue/Overrun.antt =====
-- src/queue.c past its capacity: `queue_store` does not look at what it overwrites.
use mathlib.Core.Path.{subst}
use statsd_c.Base.{
  ℕ, zero, suc, ◌+◌, ◌<◌, ◌≡◌, ◌≢◌, refl, List, [], ◌∷◌, none, some, Bytes, arith, length,
  get_elem?,
}
use statsd_c.Queue.{Queue, update, store_index, queue_store_sized, queue_pop_first_sized}
use statsd_c.Queue.Fifo.{Pending, Holds, place, Pending-tail, pop_eq}

-- `queue_pop_first` until it has answered `n` times.
unfoldable pub pop_times : ℕ → ℕ → Queue → Queue
pop_times size zero q = q
pop_times size (suc n) q = pop_times size n (queue_pop_first_sized size q).1

module _ (size : ℕ) where
  -- A store into the full queue replaces the oldest packet, in its place.
  pub full_store-Pending :
      (q : Queue) (x : Bytes) (xs : List Bytes) (p : Bytes)
      → Holds size q (x ∷ xs)
      → length (x ∷ xs) ≡ size
      → Pending size (queue_store_sized size p q) (p ∷ xs)
  unfolding queue_store_sized
  full_store-Pending q x xs p h full = record {
    retrieve_lt = h.pending.retrieve_lt;
    store_le = ground (arith, h.pending.retrieve_lt, h.pending.store_le);
    length_le = h.pending.length_le;
    slots = λ i hi. go i hi (h.pending.slots i hi) h.next_store h.pending.retrieve_lt;
  }
    where
      go :
          (i : ℕ)
          → i < size
          → q.slot (place size q.retrieve_pos i) ≡ get_elem? (x ∷ xs) i
          → store_index size q ≡ place size q.retrieve_pos (length (x ∷ xs))
          → q.retrieve_pos < size
          → update q.slot (store_index size q) (some p) (place size q.retrieve_pos i)
            ≡ get_elem? (p ∷ xs) i
      go zero hi e n r = ground arith
      go (suc i) hi e n r = ground arith

  drain :
      (xs : List Bytes) (q : Queue)
      → Pending size q xs
      → Pending size (pop_times size (length xs) q) []
        × ((pop_times size (length xs) q).retrieve_pos ≡ place size q.retrieve_pos (length xs))
        × ((pop_times size (length xs) q).store_pos ≡ q.store_pos)
  unfolding pop_times
  drain [] q h = (h, ground (arith, h.retrieve_lt), refl)
  drain (x ∷ xs) q h =
      let (a, b, c) = drain xs (queue_pop_first_sized size q).1 (Pending-tail size q x xs h) in
      (
        a,
        ground (arith, b, pop_eq size q x xs h, h.retrieve_lt, h.length_le),
        ground (arith, c, pop_eq size q x xs h),
      )

  pop-store_apart :
      (q : Queue) (z : Bytes)
      → Pending size q []
      → store_index size q ≢ q.retrieve_pos
      → (queue_pop_first_sized size (queue_store_sized size z q)).0 ≡ none
  unfolding queue_store_sized queue_pop_first_sized
  pop-store_apart q z h apart = ground (arith, h.slots 0, h.retrieve_lt)

  positions_after :
      (q : Queue) (xs : List Bytes) (p : Bytes)
      → Holds size q xs
      → length xs ≡ size
      → ((queue_store_sized size p q).retrieve_pos ≡ q.retrieve_pos)
        × ((queue_store_sized size p q).store_pos ≡ q.retrieve_pos + 1)
  unfolding queue_store_sized
  positions_after q xs p h full = (refl, ground (arith, h.next_store, h.pending.retrieve_lt))

  drained_apart :
      (q q' : Queue) (n : ℕ)
      → q.retrieve_pos < size
      → n ≡ size
      → 1 < size
      → q'.retrieve_pos ≡ place size q.retrieve_pos n
      → q'.store_pos ≡ q.retrieve_pos + 1
      → store_index size q' ≢ q'.retrieve_pos
  drained_apart q q' n r full big a b = ground arith

  -- One packet more than fit, and the reader meets it before the older ones, which shows that the
  -- oldest is lost. Once the reader has then taken out `size` packets the two positions are apart:
  -- the next packet stored is not found, although nothing else is in the queue.
  pub overrun_stalls :
      (q : Queue) (x : Bytes) (xs : List Bytes) (p z : Bytes)
      → Holds size q (x ∷ xs)
      → length (x ∷ xs) ≡ size
      → 1 < size
      → ((queue_pop_first_sized size (queue_store_sized size p q)).0 ≡ some p)
        × (let q' = pop_times size size (queue_store_sized size p q) in
            (queue_pop_first_sized size (queue_store_sized size z q')).0 ≡ none)
  overrun_stalls q x xs p z h full big =
      let q₁ = queue_store_sized size p q in
      let s = full_store-Pending q x xs p h full in
      let (pos, next) = positions_after q (x ∷ xs) p h full in
      let (d, a, b) = drain (p ∷ xs) q₁ s in
      (
        rw (pop_eq size q₁ p xs s) refl,
        subst
            (λ n.
              (queue_pop_first_sized size (queue_store_sized size z (pop_times size n q₁))).0
              ≡ none)
            full
            (pop-store_apart (pop_times size (length (p ∷ xs)) q₁) z d (
              drained_apart q₁ (pop_times size (length (p ∷ xs)) q₁) (length (p ∷ xs)) s.retrieve_lt
                full big a (omega (arith, pos, next, b)))),
      )

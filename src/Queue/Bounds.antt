-- ===== src/Queue/Bounds.antt =====
-- The positions of src/queue.c stay inside the array.
use statsd_c.Base.{ℕ, ◌≤◌, ◌<◌, Bytes, arith}
use statsd_c.Queue.{Queue, queue_init, store_index, queue_store_sized, queue_pop_first_sized}

-- `queue_store_pos` may rest one past the end, the next call of `queue_store` wraps it.
pub record InBounds (size : ℕ) (q : Queue) : Type 0 where
  pub store_le : q.store_pos ≤ size
  pub retrieve_lt : q.retrieve_pos < size

module _ (size : ℕ) (positive : 0 < size) where
  pub queue_init-InBounds : InBounds size queue_init
  unfolding queue_init
  queue_init-InBounds = omega arith

  pub indices_lt :
      {q : Queue} → InBounds size q → (store_index size q < size) × (q.retrieve_pos < size)
  indices_lt v = ground arith

  pub queue_store-InBounds :
      {q : Queue} (p : Bytes) → InBounds size q → InBounds size (queue_store_sized size p q)
  unfolding queue_store_sized
  queue_store-InBounds p v = ground arith

  pub queue_pop_first-InBounds :
      {q : Queue} → InBounds size q → InBounds size (queue_pop_first_sized size q).1
  unfolding queue_pop_first_sized
  queue_pop_first-InBounds v = ground arith

  -- With positions in bounds, `queue_store` and `queue_pop_first` use an index inside the array,
  -- and leave the positions in bounds.
  pub calls-InBounds :
      {q : Queue} (p : Bytes)
      → InBounds size q
      → (store_index size q < size)
        × (q.retrieve_pos < size)
        × InBounds size (queue_store_sized size p q)
        × InBounds size (queue_pop_first_sized size q).1
  calls-InBounds p v =
      let (a, b) = indices_lt v in (a, b, queue_store-InBounds p v, queue_pop_first-InBounds v)

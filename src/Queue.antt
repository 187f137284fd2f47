-- ===== src/Queue.antt =====
-- src/queue.c: the ring of packets between the UDP thread and the queue thread. The array is a
-- function on its indices; that no call goes past `MAX_QUEUE_SIZE` is proved in Queue/Bounds.
-- The packet is the string behind the `char *`, and NULL is `none`.
pub mod Bounds
pub mod Fifo
pub mod Overrun
use statsd_c.Base.{ℕ, ◌+◌, ◌*◌, Bool, Option, none, some, Bytes, ◌==◌, if◌then◌else◌}

-- The globals `queue`, `queue_store_pos` and `queue_retrieve_pos`.
pub record Queue : Type 0 where
  pub store_pos : ℕ
  pub retrieve_pos : ℕ
  pub slot : ℕ → Option Bytes

abbrev pub max_queue_size : ℕ
max_queue_size = 1024 * 1024

-- `a[i] = v`
abbrev pub update : (ℕ → Option Bytes) → ℕ → Option Bytes → ℕ → Option Bytes
update a i v j = if i == j then v else a j

unfoldable pub queue_init : Queue
queue_init = record { store_pos = 0; retrieve_pos = 0; slot = λ _. none }

-- The size is a parameter, so that the proofs do not compute with 2^20.
module _ (size : ℕ) where
  -- The index that the next `queue_store` writes.
  abbrev pub store_index : Queue → ℕ
  store_index q = if q.store_pos == size then 0 else q.store_pos

  unfoldable pub queue_store_sized : Bytes → Queue → Queue
  queue_store_sized ptr q =
      let pos = store_index q in
      record q { store_pos = pos + 1; slot = update q.slot pos (some ptr) }

  abbrev pub next_retrieve : ℕ → ℕ
  next_retrieve pos = if pos + 1 == size then 0 else pos + 1

  -- the part of `queue_pop_first` behind its test for NULL
  pub take_out : Option Bytes → Queue → Option Bytes × Queue
  take_out none q = (none, q)
  take_out (some tmpptr) q = (
    some tmpptr,
    record q {
      retrieve_pos = next_retrieve q.retrieve_pos;
      slot = update q.slot q.retrieve_pos none;
    },
  )

  unfoldable pub queue_pop_first_sized : Queue → Option Bytes × Queue
  unfolding take_out
  queue_pop_first_sized q = take_out (q.slot q.retrieve_pos) q

unfoldable pub queue_store : Bytes → Queue → Queue
queue_store = queue_store_sized max_queue_size

unfoldable pub queue_pop_first : Queue → Option Bytes × Queue
queue_pop_first = queue_pop_first_sized max_queue_size

-- ===== src/Worker.antt =====
-- The threads between the socket and the tables: `p_thread_udp` and `p_thread_queue` of
-- src/statsd.c, over the ring of src/queue.c.
pub mod Drain
pub mod Arrival
pub mod Mixed
use statsd_c.Base.{
  ℕ, zero, suc, ◌+◌, ◌-◌, Bool, true, false, ◌||◌, Option, none, some, List, [], ◌∷◌, Bytes, ◌==◌,
  take, if◌then◌else◌,
}
use statsd_c.Exec.{Exec, Result, ok, fault}
use statsd_c.Strings.Decimal.{ℤ}
use statsd_c.Platform.{Platform}
use statsd_c.Store.{State}
use statsd_c.Queue.{Queue, queue_store_sized, queue_pop_first_sized}
use statsd_c.Packet.{process_stats_packet}
use statsd_c.Json.{process_json_stats_packet}

abbrev pub buflen : ℕ
buflen = 65536

-- A buffer read as a C string.
unfoldable pub c_string : Bytes → Bytes
c_string [] = []
c_string (c ∷ cs) = let rest = c_string cs in if c == 0 then [] else c ∷ rest

-- `read` into the zeroed `buf_in` of BUFLEN bytes, the NUL at its end, and `strdup`.
unfoldable pub received : Bytes → Bytes
unfolding c_string
received datagram = c_string (take (buflen - 1) datagram)

-- What one round of the loop of `p_thread_udp` meets: `select` fails or times out, `read` fails, or
-- there is a datagram.
pub data UdpEvent : Type 0 where
  select_error timeout read_error : UdpEvent
  datagram : Bytes → UdpEvent

module _ (size : ℕ) where
  -- The queue after the round, or `none` if the thread ends: `read` returned 0 or less.
  unfoldable pub udp_round : UdpEvent → Queue → Option Queue
  udp_round select_error q = some q
  udp_round timeout q = some q
  udp_round read_error q = none
  udp_round (datagram []) q = none
  udp_round (datagram (c ∷ cs)) q = some (queue_store_sized size (received (c ∷ cs)) q)

  unfoldable pub udp_rounds : List UdpEvent → Queue → Queue
  unfolding udp_round
  udp_rounds [] q = q
  udp_rounds (e ∷ es) q = elim (udp_round e q) [ none ↦ q | some q' ↦ udp_rounds es q' ]

module _ (P : Platform) where
  -- `buf_in[0] == '{' || buf_in[0] == '['`
  unfoldable pub is_json : Bytes → Bool
  is_json [] = false
  is_json (c ∷ cs) = c == b'{' || c == b'['

  -- One packet, at the time `now`.
  unfoldable pub process_packet : ℤ → Bytes → Exec (State P) (Unit {0})
  unfolding is_json
  process_packet now packet =
      if is_json packet
      then process_json_stats_packet P now packet
      else process_stats_packet P now packet

  -- The inner loop of `p_thread_queue`, until the queue answers NULL. The fuel is more than the
  -- number of packets; `clock` gives the time at each packet.
  unfoldable pub drain_queue : (size : ℕ) → ℕ → (ℕ → ℤ) → Queue → State P → Result (Queue × State P)
  drain_queue size zero clock q s = ok (q, s)
  drain_queue size (suc fuel) clock q s =
      let (popped, q') = queue_pop_first_sized size q in
      elim popped [
        | none ↦ ok (q', s)
        | some packet ↦ elim (process_packet (clock 0) packet s) [
          | fault e ↦ fault e
          | ok (u, s') ↦ drain_queue size fuel (λ n. clock (n + 1)) q' s'
        ]
      ]

-- ===== src/Process/Receiving.antt =====
-- When the UDP thread of src/statsd.c stops receiving.
use statsd_c.Base.{ℕ, ◌≡◌, refl, Bool, true, List, [], ◌∷◌, ◌++◌, All}
use statsd_c.Exec.{ok}
use statsd_c.Strings.Decimal.{pos}
use statsd_c.Platform.{Platform}
use statsd_c.Store.{State}
use statsd_c.Options.{Globals}
use statsd_c.Queue.{Queue, queue_store_sized}
use statsd_c.Worker.{
  UdpEvent, select_error, timeout, read_error, datagram, udp_round, udp_rounds, received,
}
use statsd_c.Process.{close}
use statsd_c.Process.Shutdown.{close_socket}
use statsd_c.Process.Sockets.{UdpCalls, udp_ended, udp_setup, p_thread_udp}

-- No datagram is empty, and `read` never fails.
abbrev pub GoesOn : UdpEvent → Type 0
GoesOn select_error = Unit
GoesOn timeout = Unit
GoesOn read_error = ⊥
GoesOn (datagram []) = ⊥
GoesOn (datagram (c ∷ cs)) = Unit

module _ (size : ℕ) where
  -- The rounds in front of an empty datagram, and what is left of those behind it.
  udp_rounds-empty :
      (es rest : List UdpEvent) (q : Queue)
      → All GoesOn es
      → udp_rounds size (es ++ datagram [] ∷ rest) q ≡ udp_rounds size es q
  unfolding udp_rounds
  udp_rounds-empty [] rest q h = refl
  udp_rounds-empty (select_error ∷ es) rest q h = udp_rounds-empty es rest q h.1
  udp_rounds-empty (timeout ∷ es) rest q h = udp_rounds-empty es rest q h.1
  udp_rounds-empty (read_error ∷ es) rest q h = absurd h.0
  udp_rounds-empty (datagram [] ∷ es) rest q h = absurd h.0
  udp_rounds-empty (datagram (c ∷ cs) ∷ es) rest q h =
      udp_rounds-empty es rest (queue_store_sized size (received (c ∷ cs)) q) h.1

  udp_ended-empty :
      (es rest : List UdpEvent) (q : Queue)
      → All GoesOn es
      → udp_ended size (es ++ datagram [] ∷ rest) q ≡ true
  unfolding udp_ended udp_round
  udp_ended-empty [] rest q h = refl
  udp_ended-empty (select_error ∷ es) rest q h = udp_ended-empty es rest q h.1
  udp_ended-empty (timeout ∷ es) rest q h = udp_ended-empty es rest q h.1
  udp_ended-empty (read_error ∷ es) rest q h = absurd h.0
  udp_ended-empty (datagram [] ∷ es) rest q h = absurd h.0
  udp_ended-empty (datagram (c ∷ cs) ∷ es) rest q h =
      udp_ended-empty es rest (queue_store_sized size (received (c ∷ cs)) q) h.1

-- A datagram without a byte ends the UDP thread, whose socket is open and bound and which has met
-- neither an empty datagram nor a failing `read` before: what comes in behind it is never stored,
-- the socket is closed, twice, and the tables stay as they are.
pub p_thread_udp-empty :
    (P : Platform) (size : ℕ) (g : Globals) (opened : Bool) (n : ℕ) (calls : UdpCalls)
    (es rest : List UdpEvent) (q : Queue) (s : State P)
    → calls.socket ≡ pos n
    → calls.bound ≡ true
    → All GoesOn es
    → p_thread_udp P size g opened calls (es ++ datagram [] ∷ rest) q s
      ≡ ok (
        (
          udp_setup P size g opened (pos n) ++ close (pos n) ∷ close_socket (pos n),
          udp_rounds size es q,
        ),
        s,
      )
unfolding p_thread_udp
p_thread_udp-empty P size g opened n calls es rest q s e b h =
    rw (e, b, udp_ended-empty size es rest q h, udp_rounds-empty size es rest q h) refl

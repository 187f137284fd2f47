-- ===== src/Process/Sockets.antt =====
-- What `p_thread_udp` and `p_thread_mgmt` of src/statsd.c do before their loops, and the UDP thread
-- as a whole.
use statsd_c.Base.{
  ℕ, Bool, true, false, Option, none, some, List, [], ◌∷◌, ◌++◌, Bytes, codes, if◌then◌else◌,
}
use statsd_c.Exec.{Exec, pure, ◌>>=◌}
use statsd_c.Strings.Decimal.{ℤ, pos, negsuc}
use statsd_c.Platform.{Platform}
use statsd_c.Store.{State}
use statsd_c.Options.{Globals}
use statsd_c.Queue.{Queue}
use statsd_c.Worker.{UdpEvent, udp_round, udp_rounds}
use statsd_c.Mgmt.{Mgmt, mgmt_start}
use statsd_c.Process.{
  Act, close, reuse_address, set_nonblocking, bind_port, listen_on, perror, exit,
}
use statsd_c.Process.Shutdown.{die_with_error, close_socket}

-- The result of `socket`, and whether `bind` succeeds.
pub record UdpCalls : Type 0 where
  pub socket : ℤ
  pub bound : Bool

-- The thread's calls, and the queue behind it.
abbrev pub UdpRun : Type 0
UdpRun = List Act × Queue

module _ (size : ℕ) where
  -- Whether the loop has ended by `break`.
  unfoldable pub udp_ended : List UdpEvent → Queue → Bool
  udp_ended [] q = false
  udp_ended (e ∷ es) q = elim (udp_round size e q) [ none ↦ true | some q' ↦ udp_ended es q' ]

  -- The socket is closed in front of the `break`, and again behind the loop.
  abbrev pub closed : Bool → ℤ → List Act
  closed ended socket = if ended then close socket ∷ close_socket socket else []

  -- The loop on a bound socket.
  unfoldable pub udp_loop : ℤ → List UdpEvent → Queue → UdpRun
  unfolding udp_ended
  udp_loop socket es q = (closed (udp_ended es q) socket, udp_rounds size es q)

  abbrev pub after_acts : List Act → UdpRun → UdpRun
  after_acts acts (more, q) = (acts ++ more, q)

module _ (P : Platform) (size : ℕ) (g : Globals) (opened : Bool) where
  -- A failed call ends the process with what is saved by then.
  abbrev pub udp_dies : Bytes → ℤ → List Act → Queue → Exec (State P) UdpRun
  udp_dies message socket before q = do
    acts ← die_with_error P message g socket opened
    pure (before ++ acts, q)

  abbrev pub udp_setup : ℤ → List Act
  udp_setup socket = reuse_address socket ∷ set_nonblocking socket ∷ bind_port socket g.port ∷ []

  -- With a socket.
  unfoldable pub udp_bind : Bool → ℤ → List UdpEvent → Queue → Exec (State P) UdpRun
  unfolding udp_loop
  udp_bind true socket es q = pure (after_acts size (udp_setup socket) (udp_loop size socket es q))
  udp_bind false socket es q = udp_dies (codes "UDP: Could not bind") socket (udp_setup socket) q

  unfoldable pub udp_socket : ℤ → Bool → List UdpEvent → Queue → Exec (State P) UdpRun
  unfolding udp_bind
  udp_socket (negsuc n) bound es q = udp_dies (codes "UDP: Could not grab socket.") (negsuc n) [] q
  udp_socket (pos n) bound es q = udp_bind bound (pos n) es q

  -- `stats_udp_socket` is what `socket` returned, also if that is -1.
  unfoldable pub p_thread_udp : UdpCalls → List UdpEvent → Queue → Exec (State P) UdpRun
  unfolding udp_socket
  p_thread_udp calls = udp_socket calls.socket calls.bound

-- The calls in front of the management loop.
pub record MgmtCalls : Type 0 where
  pub socket : ℤ
  pub reusable : Bool
  pub bound : Bool
  pub listening : Bool

-- The calls made, and the thread's state, or `none` if the process has ended by `exit(1)`, which
-- saves nothing.
abbrev pub MgmtOpened : Type 0
MgmtOpened = List Act × Option Mgmt

unfoldable pub mgmt_bind : MgmtCalls → ℤ → ℕ → Bytes → MgmtOpened
mgmt_bind calls mgmt_port fd buf =
    if calls.bound
    then if calls.listening
      then (bind_port (pos fd) mgmt_port ∷ listen_on (pos fd) 10 ∷ [], some (mgmt_start fd buf))
      else (bind_port (pos fd) mgmt_port ∷ listen_on (pos fd) 10 ∷ exit 1 ∷ [], none)
    else (bind_port (pos fd) mgmt_port ∷ exit 1 ∷ [], none)

abbrev pub after_setup : List Act → MgmtOpened → MgmtOpened
after_setup acts (more, m) = (acts ++ more, m)

unfoldable pub mgmt_socket : MgmtCalls → ℤ → ℤ → Bytes → MgmtOpened
unfolding mgmt_bind
mgmt_socket calls mgmt_port (negsuc n) buf = (perror (codes "socket error") ∷ exit 1 ∷ [], none)
mgmt_socket calls mgmt_port (pos fd) buf =
    if calls.reusable
    then after_setup (reuse_address (pos fd) ∷ []) (mgmt_bind calls mgmt_port fd buf)
    else (reuse_address (pos fd) ∷ perror (codes "setsockopt error") ∷ exit 1 ∷ [], none)

unfoldable pub mgmt_open : MgmtCalls → ℤ → Bytes → MgmtOpened
unfolding mgmt_socket
mgmt_open calls mgmt_port buf = mgmt_socket calls mgmt_port calls.socket buf

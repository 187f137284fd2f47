-- ===== src/Mgmt/Clients.antt =====
-- The connections of `p_thread_mgmt` of src/statsd.c.
use statsd_c.Base.{ℕ, ◌≤◌, ◌≡◌, ap, Bool, true, Option, none, some, Bytes, arith}
use mathlib.Core.Path.{subst}
use statsd_c.Exec.{Result, ok, fault, and_then}
use statsd_c.Platform.{Platform}
use statsd_c.Store.{State}
use statsd_c.Mgmt.{
  Mgmt, MgmtEvent, accepted, accept_error, recv_ended, recv_data, mgmt_step, mgmt_start, answer,
  answered, recv_into, connect, disconnect,
}

-- Every descriptor that is watched lies in the range that the loop goes through.
pub record Polled (m : Mgmt) : Type 0 where
  pub le_fdmax : (i : ℕ) → m.master i ≡ true → i ≤ m.fdmax

connect-Polled : (fd : ℕ) (m : Mgmt) → Polled m → Polled (connect fd m)
connect-Polled fd m v = record { le_fdmax = λ i h. ground (arith, v.le_fdmax i) }

disconnect-Polled : (fd : ℕ) (m : Mgmt) → Polled m → Polled (disconnect fd m)
disconnect-Polled fd m v = record { le_fdmax = λ i h. ground (arith, v.le_fdmax i) }

mgmt_start-Polled : (fd : ℕ) (buf : Bytes) → Polled (mgmt_start fd buf)
unfolding mgmt_start
mgmt_start-Polled fd buf = record { le_fdmax = λ i h. ground arith }

answered-Polled : (fd : ℕ) (m : Mgmt) (a : Option Bytes) → Polled m → Polled (answered fd m a).1
answered-Polled fd m none v = disconnect-Polled fd m v
answered-Polled fd m (some text) v = v

module _ (P : Platform) (friendly : Bool) where
  -- The states of the management thread: after the start, and after an event that it survives,
  -- whatever the tables hold then.
  pub data Reached (listener : ℕ) (buf : Bytes) : Mgmt → Type 0 where
    started : Reached listener buf (mgmt_start listener buf)
    stepped :
        (s : State P) (e : MgmtEvent) {m m' : Mgmt} {sent : Bytes}
        → Reached listener buf m
        → mgmt_step P friendly s e m ≡ ok (sent, m')
        → Reached listener buf m'

  and_then-Polled :
      (fd : ℕ) (m : Mgmt) (r : Result (Option Bytes)) {sent : Bytes} {m' : Mgmt}
      → Polled m
      → and_then r (λ a. ok (answered fd m a)) ≡ ok (sent, m')
      → Polled m'
  and_then-Polled fd m (ok a) {sent} {m'} v e =
      let p : answered fd m a ≡ (sent, m') = cc in
      subst Polled (ap (λ o. o.1) p) (answered-Polled fd m a v)
  and_then-Polled fd m (fault f) v e = cc

  mgmt_step-Polled :
      (s : State P) (e : MgmtEvent) {m m' : Mgmt} {sent : Bytes}
      → Polled m
      → mgmt_step P friendly s e m ≡ ok (sent, m')
      → Polled m'
  unfolding mgmt_step
  mgmt_step-Polled s (accepted fd) {m} {m'} {sent} v e =
      let p : connect fd m ≡ m' = cc in subst Polled p (connect-Polled fd m v)
  mgmt_step-Polled s accept_error {m} {m'} v e = let p : m ≡ m' = cc in subst Polled p v
  mgmt_step-Polled s (recv_ended fd) {m} {m'} v e =
      let p : disconnect fd m ≡ m' = cc in subst Polled p (disconnect-Polled fd m v)
  mgmt_step-Polled s (recv_data fd bytes) {m} v e =
      let m₁ : Mgmt = record m { buf = recv_into bytes m.buf } in
      and_then-Polled fd m₁ (answer P friendly s m₁.buf) (record { le_fdmax = v.le_fdmax }) e

  -- In every state that the management thread reaches, each descriptor that it watches, the
  -- listening socket and every client, is one that its loop looks at.
  pub Reached-Polled : (listener : ℕ) (buf : Bytes) (m : Mgmt) → Reached listener buf m → Polled m
  Reached-Polled listener buf _ started = mgmt_start-Polled listener buf
  Reached-Polled listener buf _ (stepped s e {m} {m'} r p) =
      mgmt_step-Polled s e (Reached-Polled listener buf m r) p

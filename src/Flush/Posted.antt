-- ===== src/Flush/Posted.antt =====
-- The end of a round of `p_thread_flush` of src/statsd.c: the text is sent, and the time recorded.
use statsd_c.Base.{
  false, true, ◌≢◌, ◌⊎◌, take, Bytes, ℕ, ◌<◌, ◌^◌, ◌≡◌, ◌∙◌, refl, ap, Option, none, some, inl, inr,
  [], arith, codes, Bool-cases, if◌then◌else◌,
}
use statsd_c.Base.Assoc.{map_values}
use statsd_c.Exec.{fault, killed, bind-fault, ok, Exec, pure, bind-ok}
use statsd_c.Strings.Decimal.{ℤ, pos, print_ld, atol-print_ld, length-print_ld-le}
use statsd_c.Platform.{Platform}
use statsd_c.Platform.Laws.{HashLaws}
use statsd_c.Store.{State}
use statsd_c.Store.Update.{update_stat}
use statsd_c.Store.View.{Metrics, view, set_stat, IsValid}
use statsd_c.Store.Timers.{update_stat-Does}
use statsd_c.Flush.{
  SendResult, taken, send_failed, sigpipe, delivered, Round, Out, record_flush, graphite_socket,
  graphite_sent, graphite_flush,
}

-- What graphite is sent: the bytes of the text that `send` took.
abbrev pub on_wire : SendResult → Bytes → Option Bytes
on_wire (taken n) text = some (take n text)
on_wire send_failed text = none
on_wire sigpipe text = none

-- With a socket.
abbrev pub posted : Round → Option ℤ → Out → Out
posted r none o = o
posted r (some sock) o = record o { sent = on_wire (r.send r.connect) o.stat_string }

abbrev pub posting : Round → Out → Out
posting r o = if r.enable_graphite then posted r (graphite_socket r.inet_pton r.socket) o else o

-- No SIGPIPE: graphite is off, there is no socket, or `send` does not raise it.
abbrev pub Survives : Round → Type 0
Survives r =
    (r.enable_graphite ≡ false)
    ⊎ (graphite_socket r.inet_pton r.socket ≡ none)
    ⊎ (r.send r.connect ≢ sigpipe)

module _ {P : Platform} where
  -- With a socket for graphite the time of sending is recorded.
  abbrev pub recorded : Option ℤ → ℕ → Metrics P → Metrics P
  recorded none sent m = m
  recorded (some sock) sent m = set_stat P (codes "graphite") (codes "last_flush") (pos sent) m

  abbrev pub recording : Round → ℕ → Metrics P → Metrics P
  recording r sent =
      if r.enable_graphite then recorded (graphite_socket r.inet_pton r.socket) sent else (λ k. k)

  -- The metrics behind a round.
  abbrev pub flushed : Round → ℕ → Metrics P → Metrics P
  flushed r sent m = recording r sent (record m {
    counters = map_values (λ _. P.long_of_nat 0) m.counters;
    timers = map_values (λ _. []) m.timers;
  })

  -- A call that returns this output.
  pub record Sent (m : Exec (State P) Out) (o : Out) (s : State P) (g : Metrics P → Metrics P)
      : Type 0 where
    pub after : State P
    pub returns : m s ≡ ok (o, after)
    pub viewed : view P after ≡ g (view P s)
    pub valid : IsValid P after

  -- The end of the round.
  unfoldable pub last_part : Round → Out → Exec (State P) Out
  last_part r o = if r.enable_graphite then graphite_flush P r o else pure o

  module _ (H : HashLaws P) where
    record_flush-returns :
        (r : Round) (sent : ℕ) (s t : State P)
        → r.sent_at ≡ pos sent
        → sent < 10 ^ 11
        → update_stat P (codes "graphite") (codes "last_flush") (print_ld (pos sent)) s ≡ ok (tt, t)
        → record_flush P r s ≡ ok (tt, t)
    unfolding record_flush
    record_flush-returns r sent s t e small u =
        rw e (ground (arith, u, length-print_ld-le 10 sent small))

    delivered-returns :
        (d : SendResult) (text : Bytes) (s : State P)
        → d ≢ sigpipe
        → delivered P d text s ≡ ok (on_wire d text, s)
    unfolding delivered
    delivered-returns (taken n) text s h = refl
    delivered-returns send_failed text s h = refl
    delivered-returns sigpipe text s h = absurd (h refl)

    no_socket-Sent :
        (r : Round) (sent : ℕ) (o : Out) (s : State P)
        → IsValid P s
        → Sent (graphite_sent P r o none) o s (λ m. m)
    unfolding graphite_sent
    no_socket-Sent r sent o s v = record { after = s; returns = refl; viewed = refl; valid = v }

    record_flush-Sent :
        (r : Round) (sent : ℕ) (o : Out) (s : State P) (sock : ℤ)
        → r.sent_at ≡ pos sent
        → sent < 10 ^ 11
        → IsValid P s
        → r.send r.connect ≢ sigpipe
        → Sent
            (graphite_sent P r o (some sock))
            (posted r (some sock) o)
            s
            (recorded (some sock) sent)
    unfolding graphite_sent
    record_flush-Sent r sent o s sock e small v alive =
        let d =
          update_stat-Does H (codes "graphite") (codes "last_flush") (print_ld (pos sent)) s refl
            refl v in
        let whole = posted r (some sock) o in
        record {
          after = d.after;
          returns =
              bind-ok (delivered P (r.send r.connect) o.stat_string) _
                (delivered-returns (r.send r.connect) o.stat_string s alive)
              ∙ bind-ok (record_flush P r) (λ _. pure whole)
                  (record_flush-returns r sent s d.after e small d.returns);
          viewed =
              d.viewed
              ∙ ap (λ n. set_stat P (codes "graphite") (codes "last_flush") n (view P s))
                  (atol-print_ld (pos sent));
          valid = d.valid;
        }

    graphite_sent-Sent :
        (r : Round) (sent : ℕ) (o : Out) (s : State P)
        → r.sent_at ≡ pos sent
        → sent < 10 ^ 11
        → IsValid P s
        → (sock : Option ℤ) → (sock ≡ none) ⊎ (r.send r.connect ≢ sigpipe)
        → Sent (graphite_sent P r o sock) (posted r sock o) s (recorded sock sent)
    graphite_sent-Sent r sent o s e small v none alive = no_socket-Sent r sent o s v
    graphite_sent-Sent r sent o s e small v (some sock) (inr alive) =
        record_flush-Sent r sent o s sock e small v alive
    graphite_sent-Sent r sent o s e small v (some sock) (inl closed) =
        absurd (ground (arith, closed))

    pub last_part-Sent :
        (r : Round) (sent : ℕ) (o : Out) (s : State P)
        → r.sent_at ≡ pos sent
        → sent < 10 ^ 11
        → IsValid P s
        → Survives r
        → Sent (last_part r o) (posting r o) s (recording r sent)
    unfolding last_part graphite_flush
    last_part-Sent r sent o s e small v alive = elim (Bool-cases r.enable_graphite) [
      | inl on ↦ rw on (
          graphite_sent-Sent r sent o s e small v (graphite_socket r.inet_pton r.socket)
            (elim alive [ inl off ↦ absurd (ground (arith, on, off)) | inr rest ↦ rest ]))
      | inr off ↦ rw off (record { after = s; returns = refl; viewed = refl; valid = v })
    ]

    -- On a connection that was refused or closed.
    pub last_part-killed :
        (r : Round) (o : Out) (s : State P) (sock : ℤ)
        → r.enable_graphite ≡ true
        → graphite_socket r.inet_pton r.socket ≡ some sock
        → r.send r.connect ≡ sigpipe
        → last_part r o s ≡ fault killed
    unfolding last_part graphite_flush graphite_sent delivered
    last_part-killed r o s sock on opened refused =
        rw (on, opened, graphite_sent)
          (bind-fault (delivered P (r.send r.connect) o.stat_string) _
            (rw (refused, delivered) refl))

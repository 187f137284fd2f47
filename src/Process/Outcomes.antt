-- ===== src/Process/Outcomes.antt =====
-- How src/statsd.c starts, becomes a daemon, and ends.
use statsd_c.Base.{
  ℕ, suc, ◌+◌, ◌<◌, ◌≤◌, ◌^◌, ◌≡◌, ◌≢◌, ◌↔◌, ◌∙◌, ap, refl, Bool, false, Option, some, List, [],
  ◌∷◌, ◌++◌, Bytes, zero, ◌==◌, inl, inr, Bool-cases, codes, arith, length, length-append,
}
use native.Mathlib.Decide.{dec_lt}
use statsd_c.Exec.{Result, ok, fault, overflow, and_then, bind-fault}
use statsd_c.Strings.{print_into}
use statsd_c.Strings.Decimal.{ℤ, pos, negsuc, print_ld, atol}
use statsd_c.Platform.{Platform}
use statsd_c.Platform.Laws.{HashLaws}
use statsd_c.Store.{State}
use statsd_c.Store.View.{view, set_stat}
use statsd_c.Queue.{queue_init}
use statsd_c.Options.{ServerOption, Globals, configure}
use statsd_c.Serialize.{statsd_serialize}
use statsd_c.Startup.{initial_state}
use statsd_c.Startup.Locks.{Unloaded, init_stats-posted}
use statsd_c.Startup.Names.{init_stats-unsaved, initial_state-IsValid}
use statsd_c.Process.{Act, lock_path, fork_child, open_file, lockf, write_text, close}
use statsd_c.Process.Shutdown.{cleanup, save_state}
use statsd_c.Process.Daemon.{
  DaemonCalls, is_negative, returns, exits, Trace, before, take_lock, forked, detach, set_signals,
  daemonize_server,
}
use statsd_c.Process.Start.{
  prologue, open_log, create_all, join_all, file_to_load, serving, server_main,
}

-- The PID file is locked and the PID fits its ten bytes.
abbrev pub Locked : DaemonCalls → Type 0
Locked c =
    (is_negative c.open_lock ≡ false)
    × (is_negative c.lockf_result ≡ false)
    × (length (print_ld (pos c.getpid)) < 9)

-- A call that returns to `main`.
abbrev pub Returned : Result Trace → Type 0
Returned r = (acts : List Act) × (r ≡ ok (acts, returns))

print_pid : (t : Bytes) → length t < 9 → print_into 10 (t ++ codes "\n") ≡ ok (t ++ codes "\n")
print_pid t h = ground (arith, length-append t (codes "\n"))

print_pid-fault : (t : Bytes) → 9 ≤ length t → print_into 10 (t ++ codes "\n") ≡ fault overflow
print_pid-fault t h = ground (arith, length-append t (codes "\n"))

take_lock-Returned : (c : DaemonCalls) (path : Bytes) → Locked c → Returned (take_lock c path)
unfolding take_lock
take_lock-Returned c path (a, b, l) = (
  open_file path
      ∷ lockf c.open_lock
      ∷ write_text c.open_lock (print_ld (pos c.getpid) ++ codes "\n")
      ∷ close c.open_lock
      ∷ set_signals,
  rw (a, b, print_pid (print_ld (pos c.getpid)) l) refl,
)

take_lock-Locked : (c : DaemonCalls) (path : Bytes) → Returned (take_lock c path) → Locked c
unfolding take_lock
take_lock-Locked c path (acts, e) = elim (Bool-cases (is_negative c.open_lock)) [
  | inl a ↦ absurd (ground (arith, e, a))
  | inr a ↦ elim (Bool-cases (is_negative c.lockf_result)) [
    | inl b ↦ absurd (ground (arith, e, a, b))
    | inr b ↦ elim (dec_lt (length (print_ld (pos c.getpid))) 9) [
      | yes l ↦ (a, b, l)
      | no l ↦ absurd (ground (arith, e, a, b, print_pid-fault (print_ld (pos c.getpid))))
    ]
  ]
]

before-Returned :
    (acts : List Act) (r : Result Trace)
    → Returned r
    → Returned (and_then r (λ t. ok (before acts t)))
before-Returned acts r (more, e) = (acts ++ more, rw e refl)

Returned-before :
    (acts : List Act) (r : Result Trace)
    → Returned (and_then r (λ t. ok (before acts t)))
    → Returned r
Returned-before acts (ok (more, returns)) (all, e) = (more, refl)
Returned-before acts (ok (more, exits n)) (all, e) = absurd (cc)
Returned-before acts (fault f) (all, e) = absurd (cc)

==_false : (a b : ℕ) → a ≢ b → (a == b) ≡ false
==_false a b h = ground arith

forked-Returned :
    (c : DaemonCalls) (path : Bytes) (f : ℤ) → Returned (forked c path f) ↔ ((f ≡ pos 0) × Locked c)
unfolding forked
forked-Returned c path (negsuc n) = ((λ (acts, e). absurd (cc)), (λ (e, l). absurd (cc)))
forked-Returned c path (pos (suc n)) =
    ((λ (acts, e). absurd (cc)), (λ (e, l). absurd (ground arith)))
forked-Returned c path (pos zero) = (
  (λ r. (
    refl,
    take_lock-Locked c path (Returned-before (fork_child ∷ detach c) (take_lock c path) r),
  )),
  (λ (e, l).
      before-Returned (fork_child ∷ detach c) (take_lock c path) (take_lock-Returned c path l)),
)

-- A process that init has not started returns from `daemonize_server` to `main` exactly when it is
-- the child of a `fork`, could open and lock the file, and its PID has eight digits at most.
pub daemonize_server-Returned :
    (c : DaemonCalls) (g : Globals)
    → c.getppid ≢ 1
    → Returned (daemonize_server c g) ↔ ((c.fork ≡ pos 0) × Locked c)
unfolding daemonize_server
daemonize_server-Returned c g h =
    rw (==_false c.getppid 1 h) (forked-Returned c (lock_path g.lock_file) c.fork)

initial-stats_lock : (P : Platform) → (initial_state P).locks.stats_lock + 1 ≡ 2
unfolding initial_state
initial-stats_lock P = refl

-- A server that is not to be a daemon, with no text to load, starts its four threads over an empty
-- queue, with the three first stats at the time of its start and no other metric. Its semaphore
-- `stats_lock` then admits two threads, since `init_stats` posts it once too often. The time of the
-- start has at most 11 digits.
pub server_main-serving :
    {P : Platform} (H : HashLaws P) (opts : List ServerOption) (text : Option Bytes) (now : ℕ)
    (c : DaemonCalls) (g : Globals)
    → configure opts ≡ ok (some g)
    → g.daemonize ≡ false
    → Unloaded g.clear_stats (file_to_load g.serialize_file text)
    → now < 10 ^ 11
    → (s : State P) × (server_main P opts text (pos now) c
        ≡ ok (
          prologue ++ (open_log g.debug ++ ([] ++ (create_all ++ join_all))),
          serving g s queue_init,
        ))
      × (s.locks.stats_lock ≡ 2)
      × (view P s
          ≡ set_stat P (codes "messages") (codes "bad_lines_seen") (atol (codes "0")) (
              set_stat P (codes "messages") (codes "last_msg_seen") (pos now) (
                set_stat P
                  (codes "graphite")
                  (codes "last_flush")
                  (pos now)
                  (view P (initial_state P)))))
unfolding server_main
server_main-serving {P} H opts text now c g e d u h =
    let (v, _) = initial_state-IsValid H in
    let (s, r, l, w) =
      init_stats-posted H g.clear_stats (file_to_load g.serialize_file text) now (initial_state P) u
        h v in
    (s, rw (e, r, d) refl, ap (λ k. k.stats_lock) l ∙ initial-stats_lock P, w)

save_state-fault :
    {P : Platform} (file : Bytes) (opened : Bool) (s : State P)
    → statsd_serialize P opened s ≡ fault overflow
    → save_state P (some file) opened s ≡ fault overflow
unfolding save_state
save_state-fault {P} file opened s e = bind-fault (statsd_serialize P opened) _ e

cleanup-fault :
    {P : Platform} (g : Globals) (file : Bytes) (stats_udp_socket : ℤ) (opened : Bool) (s : State P)
    → g.serialize_file ≡ some file
    → statsd_serialize P opened s ≡ fault overflow
    → cleanup P g stats_udp_socket opened s ≡ fault overflow
unfolding cleanup
cleanup-fault {P} g file stats_udp_socket opened s f e =
    bind-fault (save_state P g.serialize_file opened) _ (rw f (save_state-fault file opened s e))

-- With `-s` and no text to load, a server that is not to be a daemon starts, but a `cleanup` in the
-- state in which it starts writes past a buffer before it has saved anything. The time of the start
-- has at most 11 digits.
pub cleanup-unsaved :
    {P : Platform} (H : HashLaws P) (opts : List ServerOption) (text : Option Bytes) (now : ℕ)
    (c : DaemonCalls) (g : Globals) (file : Bytes) (stats_udp_socket : ℤ) (opened : Bool)
    → configure opts ≡ ok (some g)
    → g.daemonize ≡ false
    → g.serialize_file ≡ some file
    → Unloaded g.clear_stats (some text)
    → now < 10 ^ 11
    → (s : State P) × (server_main P opts text (pos now) c
        ≡ ok (
          prologue ++ (open_log g.debug ++ ([] ++ (create_all ++ join_all))),
          serving g s queue_init,
        ))
      × (cleanup P g stats_udp_socket opened s ≡ fault overflow)
unfolding server_main
cleanup-unsaved {P} H opts text now c g file stats_udp_socket opened e d f u h =
    let (s, r, w) = init_stats-unsaved H g.clear_stats (some text) now opened u h in
    (s, rw (e, f, r, d) refl, cleanup-fault g file stats_udp_socket opened s f w)

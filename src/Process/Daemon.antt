-- ===== src/Process/Daemon.antt =====
-- `daemonize_server` of src/statsd.c.
use statsd_c.Base.{
  ℕ, zero, suc, List, [], ◌∷◌, ◌++◌, Bytes, ◌==◌, codes, if◌then◌else◌, Bool, true, false,
}
use statsd_c.Exec.{Result, ok, and_then}
use statsd_c.Strings.{print_into}
use statsd_c.Strings.Decimal.{ℤ, pos, negsuc, print_ld}
use statsd_c.Options.{Globals}
use statsd_c.Process.{
  Act, signal, close, open_file, lockf, write_text, fork_child, setuid_root, setsid, dup_null,
  umask_022, syslog, lock_path, sigchld, sigtstp, sigttou, sigttin, sighup, sigterm, ignored,
  handled,
}

-- What the calls of `daemonize_server` return.
pub record DaemonCalls : Type 0 where
  pub getppid : ℕ
  pub fork : ℤ
  pub getdtablesize : ℕ
  pub open_lock : ℤ
  pub lockf_result : ℤ
  pub getpid : ℕ

abbrev pub is_negative : ℤ → Bool
is_negative (pos n) = false
is_negative (negsuc n) = true

-- `for (pid = getdtablesize(); pid >= 0; --pid) close(pid);`
unfoldable pub close_down : ℕ → List Act
close_down zero = close (pos 0) ∷ []
close_down (suc n) = close (pos (suc n)) ∷ close_down n

abbrev pub set_signals : List Act
set_signals =
    signal sigchld ignored
    ∷ signal sigtstp ignored
    ∷ signal sigttou ignored
    ∷ signal sigttin ignored
    ∷ signal sighup handled
    ∷ signal sigterm handled
    ∷ []

-- How the call ends: it returns, or the process ends with a status.
pub data Ending : Type 0 where
  returns : Ending
  exits : ℕ → Ending

-- The calls made, and the ending.
abbrev pub Trace : Type 0
Trace = List Act × Ending

-- Behind the lock: the PID in ten bytes, and the signals.
unfoldable pub write_pid : DaemonCalls → Result Trace
write_pid c =
    and_then (print_into 10 (print_ld (pos c.getpid) ++ codes "\n"))
      (λ str. ok (write_text c.open_lock str ∷ close c.open_lock ∷ set_signals, returns))

abbrev pub before : List Act → Trace → Trace
before acts (rest, e) = (acts ++ rest, e)

unfoldable pub take_lock : DaemonCalls → Bytes → Result Trace
unfolding write_pid
take_lock c path =
    if is_negative c.open_lock
    then ok (open_file path ∷ syslog (codes "Could not serialize PID to lock file") ∷ [], exits 1)
    else if is_negative c.lockf_result
    then ok (
      open_file path ∷ lockf c.open_lock ∷ syslog (codes "Could not create lock, bailing out") ∷ [],
      exits 0,
    )
    else and_then (write_pid c) λ t. ok (before (open_file path ∷ lockf c.open_lock ∷ []) t)

-- The child: its own session, no descriptor open but the three on /dev/null.
abbrev pub detach : DaemonCalls → List Act
detach c = setuid_root ∷ setsid ∷ (close_down c.getdtablesize ++ dup_null ∷ umask_022 ∷ [])

-- By the value of `fork`: an error, the child, the parent.
unfoldable pub forked : DaemonCalls → Bytes → ℤ → Result Trace
unfolding take_lock
forked c path (negsuc n) = ok (fork_child ∷ [], exits 1)
forked c path (pos zero) = and_then (take_lock c path) λ t. ok (before (fork_child ∷ detach c) t)
forked c path (pos (suc n)) = ok (fork_child ∷ [], exits 0)

-- A process that init has started is a daemon already.
unfoldable pub daemonize_server : DaemonCalls → Globals → Result Trace
unfolding forked
daemonize_server c g =
    if c.getppid == 1 then ok ([], returns) else forked c (lock_path g.lock_file) c.fork

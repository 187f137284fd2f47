-- ===== src/Process/Shutdown.antt =====
-- `cleanup`, `die_with_error` and the signal handlers of src/statsd.c.
use statsd_c.Base.{Bool, true, false, Option, none, some, List, [], ◌∷◌, ◌++◌, Bytes, codes, ◌==◌}
use statsd_c.Exec.{Exec, pure, ◌>>=◌}
use statsd_c.Strings.Decimal.{ℤ, pos, negsuc}
use statsd_c.Platform.{Platform}
use statsd_c.Store.{State}
use statsd_c.Serialize.{statsd_serialize}
use statsd_c.Options.{Globals}
use statsd_c.Process.{
  Act, pthread_cancel, sem_destroy, close, unlink, write_file, perror, syslog, exit, udp, mgmt,
  flush, queue, stats_sem, counters_sem, gauges_sem, timers_sem, lock_path,
}

abbrev pub cancel_all : List Act
cancel_all =
    pthread_cancel flush ∷ pthread_cancel udp ∷ pthread_cancel mgmt ∷ pthread_cancel queue ∷ []

-- `if (stats_udp_socket) close(stats_udp_socket);`
abbrev pub close_socket : ℤ → List Act
close_socket (pos n) = elim (n == 0) [ true ↦ [] | false ↦ close (pos n) ∷ [] ]
close_socket (negsuc n) = close (negsuc n) ∷ []

-- The file, if `statsd_serialize` could write it.
abbrev pub written : Bytes → Option Bytes → List Act
written file none = syslog (codes "Failed to serialize state.") ∷ []
written file (some text) =
    write_file file text ∷ syslog (codes "Serialized state successfully.") ∷ []

abbrev pub destroy_all : List Act
destroy_all =
    sem_destroy stats_sem
    ∷ sem_destroy timers_sem
    ∷ sem_destroy counters_sem
    ∷ sem_destroy gauges_sem
    ∷ []

module _ (P : Platform) where
  -- The part under `if (serialize_file)`; `opened` says whether the file can be opened.
  unfoldable pub save_state : Option Bytes → Bool → Exec (State P) (List Act)
  save_state none opened = pure []
  save_state (some file) opened = do text ← statsd_serialize P opened; pure (written file text)

  -- The calls of `cleanup`, but for the log.
  unfoldable pub cleanup : Globals → ℤ → Bool → Exec (State P) (List Act)
  cleanup g stats_udp_socket opened = do
    saved ← save_state g.serialize_file opened
    pure (
        cancel_all
        ++ (close_socket stats_udp_socket
            ++ (saved ++ (destroy_all ++ unlink (lock_path g.lock_file) ∷ []))))

  -- A message, `cleanup`, and the end of the process.
  pub cleanup_and_exit : Act → Globals → ℤ → Bool → Exec (State P) (List Act)
  unfolding cleanup
  cleanup_and_exit message g stats_udp_socket opened = do
    acts ← cleanup g stats_udp_socket opened
    pure (message ∷ (acts ++ exit 1 ∷ []))

  unfoldable pub die_with_error : Bytes → Globals → ℤ → Bool → Exec (State P) (List Act)
  unfolding cleanup_and_exit
  die_with_error s = cleanup_and_exit (perror s)

  unfoldable pub sighup_handler : Globals → ℤ → Bool → Exec (State P) (List Act)
  unfolding cleanup_and_exit
  sighup_handler = cleanup_and_exit (syslog (codes "SIGHUP caught"))

  unfoldable pub sigint_handler : Globals → ℤ → Bool → Exec (State P) (List Act)
  unfolding cleanup_and_exit
  sigint_handler = cleanup_and_exit (syslog (codes "SIGINT caught"))

  unfoldable pub sigquit_handler : Globals → ℤ → Bool → Exec (State P) (List Act)
  unfolding cleanup_and_exit
  sigquit_handler = cleanup_and_exit (syslog (codes "SIGQUIT caught"))

  unfoldable pub sigterm_handler : Globals → ℤ → Bool → Exec (State P) (List Act)
  unfolding cleanup_and_exit
  sigterm_handler = cleanup_and_exit (syslog (codes "SIGTERM caught"))

-- ===== src/Process/Start.antt =====
-- `main` of src/statsd.c: from the options to the threads.
use statsd_c.Base.{ℕ, Bool, Option, none, some, List, [], ◌∷◌, ◌++◌, Bytes, if◌then◌else◌}
use statsd_c.Exec.{Result, ok, and_then}
use statsd_c.Strings.Decimal.{ℤ}
use statsd_c.Platform.{Platform}
use statsd_c.Store.{State}
use statsd_c.Queue.{Queue, queue_init}
use statsd_c.Options.{ServerOption, Globals, configure}
use statsd_c.Startup.{initial_state, init_stats}
use statsd_c.Process.{
  Act, pthread_create, pthread_detach, pthread_join, sem_init, signal, openlog_debug, openlog_info,
  exit, udp, mgmt, flush, queue, stats_sem, counters_sem, gauges_sem, timers_sem, sigint, sigquit,
  handled,
}
use statsd_c.Process.Daemon.{DaemonCalls, returns, exits, Trace, daemonize_server}

-- In front of the options.
abbrev pub prologue : List Act
prologue =
    signal sigint handled
    ∷ signal sigquit handled
    ∷ sem_init stats_sem 1
    ∷ sem_init timers_sem 1
    ∷ sem_init counters_sem 1
    ∷ sem_init gauges_sem 1
    ∷ []

abbrev pub open_log : Bool → List Act
open_log debug = (if debug then openlog_debug else openlog_info) ∷ []

abbrev pub create_all : List Act
create_all =
    pthread_create udp ∷ pthread_create mgmt ∷ pthread_create flush ∷ pthread_create queue ∷ []

abbrev pub detach_all : List Act
detach_all =
    pthread_detach udp ∷ pthread_detach mgmt ∷ pthread_detach flush ∷ pthread_detach queue ∷ []

abbrev pub join_all : List Act
join_all = pthread_join udp ∷ pthread_join mgmt ∷ pthread_join flush ∷ pthread_join queue ∷ []

-- The threads, and what `main` does beside them: it detaches them and spins, or joins them.
abbrev pub run_threads : Bool → List Act
run_threads daemonize = create_all ++ (if daemonize then detach_all else join_all)

-- The file's text, if there is a file to load.
abbrev pub file_to_load : Option Bytes → Option Bytes → Option (Option Bytes)
file_to_load none text = none
file_to_load (some file) text = some text

-- `if (daemonize) daemonize_server();`
abbrev pub maybe_daemonize : DaemonCalls → Globals → Result Trace
maybe_daemonize c g = if g.daemonize then daemonize_server c g else ok ([], returns)

module _ (P : Platform) where
  -- The server runs, with its tables and the empty queue, or the process has ended.
  pub data Outcome : Type 0 where
    serving : Globals → State P → Queue → Outcome
    ended : ℕ → Outcome

  -- Behind `daemonize_server`.
  abbrev pub go_on : Globals → State P → Trace → List Act × Outcome
  go_on g s (acts, returns) =
      (prologue ++ (open_log g.debug ++ (acts ++ run_threads g.daemonize)), serving g s queue_init)
  go_on g s (acts, exits n) = (prologue ++ (open_log g.debug ++ acts), ended n)

  -- Behind the options; `none` stands for `syntax`, which ends the process.
  unfoldable pub started :
      Option Bytes → ℤ → DaemonCalls → Option Globals → Result (List Act × Outcome)
  started text now c none = ok (prologue ++ exit 1 ∷ [], ended 1)
  started text now c (some g) =
      and_then
        (init_stats P g.clear_stats (file_to_load g.serialize_file text) now (initial_state P))
        (λ r. and_then (maybe_daemonize c g) (λ t. ok (go_on g r.1 t)))

  -- `main`, at the time `now`; `text` is what the file of `-s` holds, if it can be read.
  unfoldable pub server_main :
      List ServerOption → Option Bytes → ℤ → DaemonCalls → Result (List Act × Outcome)
  unfolding started
  server_main opts text now c = and_then (configure opts) (started text now c)

-- ===== src/Process.antt =====
-- The process around the tables in src/statsd.c: what it asks the operating system for. The calls
-- are values of the model, in the order in which they are made, and what they return is an input.
pub mod Shutdown
pub mod Daemon
pub mod Sockets
pub mod Start
pub mod Outcomes
pub mod Receiving
use statsd_c.Base.{ℕ, Option, none, some, List, [], ◌∷◌, Bytes, codes}
use statsd_c.Strings.Decimal.{ℤ}
use statsd_c.Options.{Globals}

pub data Thread : Type 0 where
  udp mgmt flush queue : Thread

pub data Semaphore : Type 0 where
  stats_sem counters_sem gauges_sem timers_sem : Semaphore

-- The signals that the program handles or ignores.
pub data Signal : Type 0 where
  sigint sigquit sighup sigterm sigchld sigtstp sigttou sigttin : Signal

pub data Disposition : Type 0 where
  ignored handled : Disposition

pub data Act : Type 0 where
  pthread_create pthread_cancel pthread_detach pthread_join : Thread → Act
  -- `sem_init` with the value, and `sem_destroy`
  sem_init : Semaphore → ℕ → Act
  sem_destroy : Semaphore → Act
  signal : Signal → Disposition → Act
  close unlock : ℤ → Act
  unlink : Bytes → Act
  -- a file that is written whole
  write_file : Bytes → Bytes → Act
  -- a file that is opened or created, a lock on it, and a text written to it
  open_file : Bytes → Act
  lockf : ℤ → Act
  write_text : ℤ → Bytes → Act
  fork_child setuid_root setsid dup_null umask_022 : Act
  reuse_address set_nonblocking : ℤ → Act
  bind_port : ℤ → ℤ → Act
  listen_on : ℤ → ℕ → Act
  perror syslog : Bytes → Act
  -- `openlog` behind `setlogmask`, down to debugging messages or not
  openlog_debug openlog_info : Act
  exit : ℕ → Act

-- LOCK_FILE, unless `-l` names another.
abbrev pub lock_path : Option Bytes → Bytes
lock_path none = codes "/tmp/statsd.lock"
lock_path (some lock_file) = lock_file

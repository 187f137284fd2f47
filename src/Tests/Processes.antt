-- ===== src/Tests/Processes.antt =====
-- The process on the sample platform: its start, its threads, and its end.
use statsd_c.Base.{◌≡◌, ◌↔◌, refl, true, false, none, some, [], ◌∷◌, ◌++◌, arith, codes}
use statsd_c.Exec.{ok, fault, overflow}
use statsd_c.Strings.Decimal.{pos, atol}
use statsd_c.Store.{State, Timer}
use statsd_c.Store.Update.{add_timer, update_timer}
use statsd_c.Store.AddTimer.{add_timer-update_timer}
use statsd_c.Store.View.{view, set_stat}
use statsd_c.Queue.{queue_init}
use statsd_c.Options.{
  opt_debug, opt_serialize, Globals, globals, configure, server_options, server_option,
}
use statsd_c.Startup.{initial_state}
use statsd_c.Worker.{datagram, timeout, udp_rounds}
use statsd_c.Process.{close}
use statsd_c.Process.Shutdown.{cleanup, close_socket}
use statsd_c.Process.Daemon.{DaemonCalls, daemonize_server}
use statsd_c.Process.Sockets.{udp_setup, p_thread_udp}
use statsd_c.Process.Start.{prologue, open_log, create_all, join_all, serving, server_main}
use statsd_c.Process.Outcomes.{
  Locked, Returned, daemonize_server-Returned, server_main-serving, cleanup-unsaved,
}
use statsd_c.Process.Receiving.{p_thread_udp-empty}
use statsd_c.Tests.Sample.{sample, sample-HashLaws, start}

-- The calls of a child that becomes a daemon with the PID 4711.
abbrev calls : DaemonCalls
calls = record {
  getppid = 700;
  fork = pos 0;
  getdtablesize = 4;
  open_lock = pos 3;
  lockf_result = pos 0;
  getpid = 4711;
}

daemonize_server-Returned_example :
    Returned (daemonize_server calls globals) ↔ ((calls.fork ≡ pos 0) × Locked calls)
daemonize_server-Returned_example = daemonize_server-Returned calls globals (omega arith)

-- "-d"
abbrev debugging : Globals
debugging = record globals {
  debug = true;
  percentiles = pos 90 ∷ [];
  ganglia_spoof = some (codes "statsd:statsd");
}

configure-debugging : configure (opt_debug ∷ []) ≡ ok (some debugging)
unfolding configure server_options server_option globals
configure-debugging = refl

-- "-s /tmp/s"
abbrev saving : Globals
saving = record globals {
  serialize_file = some (codes "/tmp/s");
  percentiles = pos 90 ∷ [];
  ganglia_spoof = some (codes "statsd:statsd");
}

configure-saving : configure (opt_serialize (codes "/tmp/s") ∷ []) ≡ ok (some saving)
unfolding configure server_options server_option globals
configure-saving = refl

server_main-serving_example :
    (s : State sample) × (server_main sample (opt_debug ∷ []) none (pos 1700000000) calls
      ≡ ok (
        prologue ++ (open_log true ++ ([] ++ (create_all ++ join_all))),
        serving debugging s queue_init,
      ))
    × (s.locks.stats_lock ≡ 2)
    × (view sample s
        ≡ set_stat sample (codes "messages") (codes "bad_lines_seen") (atol (codes "0")) (
            set_stat sample (codes "messages") (codes "last_msg_seen") (pos 1700000000) (
              set_stat sample
                (codes "graphite")
                (codes "last_flush")
                (pos 1700000000)
                (view sample (initial_state sample)))))
unfolding globals
server_main-serving_example =
    server_main-serving sample-HashLaws (opt_debug ∷ []) none 1700000000 calls debugging
      configure-debugging refl tt (omega arith)

cleanup-unsaved_example :
    (s : State sample) × (server_main sample
        (opt_serialize (codes "/tmp/s") ∷ [])
        none
        (pos 1700000000)
        calls
      ≡ ok (
        prologue ++ (open_log false ++ ([] ++ (create_all ++ join_all))),
        serving saving s queue_init,
      ))
    × (cleanup sample saving (pos 5) true s ≡ fault overflow)
unfolding globals
cleanup-unsaved_example =
    cleanup-unsaved sample-HashLaws (opt_serialize (codes "/tmp/s") ∷ []) none 1700000000 calls
      saving (codes "/tmp/s") (pos 5) true configure-saving refl refl tt (omega arith)

-- One packet, and an empty datagram in front of another.
p_thread_udp-empty_example :
    p_thread_udp sample 4 globals true
      (record { socket = pos 5; bound = true })
      ((datagram (codes "a:1|c") ∷ timeout ∷ []) ++ datagram [] ∷ (datagram (codes "b:1|c") ∷ []))
      queue_init
      start
    ≡ ok (
      (
        udp_setup sample 4 globals true (pos 5) ++ close (pos 5) ∷ close_socket (pos 5),
        udp_rounds 4 (datagram (codes "a:1|c") ∷ timeout ∷ []) queue_init,
      ),
      start,
    )
p_thread_udp-empty_example =
    p_thread_udp-empty sample 4 globals true 5 (record { socket = pos 5; bound = true })
      (datagram (codes "a:1|c") ∷ timeout ∷ []) (datagram (codes "b:1|c") ∷ []) queue_init start
      refl refl (tt, (tt, tt))

add_timer-update_timer_example :
    (t u : sample.Table (Timer sample)) × (add_timer sample (codes "db") 7 start
      ≡ ok (tt, record start { timers = t }))
    × (update_timer sample (codes "db") 7 start ≡ ok (tt, record start { timers = u }))
    × (sample.hash_items (Timer sample) t ≡ sample.hash_items (Timer sample) u)
add_timer-update_timer_example =
    add_timer-update_timer sample-HashLaws (codes "db") 7 start refl (omega arith)

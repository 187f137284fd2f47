-- ===== src/Lib.antt =====
-- A verification library for statsd-c, a server that collects counters, gauges and timers from UDP
-- packets and reports them to graphite and ganglia.
--
-- How the program works. The UDP thread (`p_thread_udp` of src/statsd.c) puts each datagram into
-- the ring of src/queue.c. The queue thread (`p_thread_queue`) takes them out and gives each to
-- `process_json_stats_packet` or `process_stats_packet`, which call the update functions on the
-- four uthash tables `stats`, `counters`, `gauges` and `timers`. The flush thread
-- (`p_thread_flush`) writes the tables out once in each interval and resets counters and timers. The
-- management thread (`p_thread_mgmt`) answers questions about the tables.
--
-- Which file models which part:
-- Base, Exec: shared names, C strings as lists of bytes, association lists; what a call does:
--   it returns with a new state, or it ends in a `Fault` (undefined behaviour, or a semaphore
--   that nobody gives back).
-- Queue: src/queue.c. `queue_store` and `queue_pop_first` at MAX_QUEUE_SIZE are instances of the
--   versions with the size as a parameter, for which everything is proved.
-- Strings: src/strings.c. `sprintf("%ld")` and `atol` of the C library are written out in
--   Strings/Decimal.
-- Platform: floating point, uthash, utarray and json-c as parameters, with the laws that are
--   used as hypotheses in Platform/Laws. Tests/Sample has an instance that satisfies them.
-- Store: the structs and semaphores of src/stats.h, src/counters.h, src/gauges.h, src/timers.h;
--   Store/Update: the `update_...` functions and `add_timer` of src/statsd.c. Store/View is their
--   specification: lists of names with numbers, and the predicate `Does`, by which a call returns,
--   changes the view in a given way, keeps the invariant and gives back the semaphores.
-- Packet: `process_stats_packet`, with `strtok_r` in Packet/Tokens. Packet/Report says which
--   reports there are, how they are written and what they mean. Packet/Effect, Packet/Faults and
--   Packet/Long have the theorems.
-- Json: `process_json_stats_packet` and `process_json_stats_object`.
-- Worker: the loops of `p_thread_udp` and `p_thread_queue`; Worker/Arrival puts them together with
--   the ring and the line protocol, Worker/Mixed with both protocols.
-- Flush: one round of `p_thread_flush`; Flush/Output has what it reads and writes, Flush/Figures
--   the figures of a timer. Flush/Parts and Flush/Said say what a round has to report of each entry,
--   as one text and a list of messages, with the lines of the text as pairs of a name and a value;
--   Flush/Counters, Flush/Timers and Flush/Emptied have the loops, Flush/Posted the sending, with
--   what `connect` and `send` do as inputs, Flush/Whole the round, Flush/Extremes the least and the
--   greatest value of a timer, and Flush/Mean its mean and its percentile.
-- Mgmt: the loop of `p_thread_mgmt` over ready descriptors and its answers; Mgmt/Clients and
--   Mgmt/Answers have the theorems.
-- Serialize: `statsd_serialize` of src/serialize.c; Serialize/Load: `statsd_deserialize`.
--   Serialize/Kind says how a table is written and read, and Serialize/Reading has the loops for any
--   table; Serialize/Tables has its instances for timers, counters and gauges, Serialize/Document
--   and Serialize/Whole put them together with the stats, as json-c's objects.
-- Options: the options of `main` in src/statsd.c and the globals they set.
-- Startup: the semaphores at the start, and `init_stats`.
-- Process: what src/statsd.c asks the operating system for. Process/Start: `main` as a whole;
--   Process/Daemon: `daemonize_server`; Process/Sockets: `p_thread_udp` as a whole and the first part
--   of `p_thread_mgmt`; Process/Shutdown: `cleanup`, `die_with_error` and the signal handlers. A call
--   of the system is a value of `Act`, and what it returns is an input.
-- Threads/Ring: `queue_store` of the UDP thread and `queue_pop_first` of the queue thread at once, an
--   access to the ring at a time. Threads/Counter: a counter between `update_counter` of the queue
--   thread and the reset of `p_thread_flush`, with `counters_lock`. Threads/Timer: a timer between
--   `update_timer` and its figures, with `timers_lock`. A state is in reach with the list of its
--   events.
-- Server: `init_stats`, batches of packets and rounds of the flush thread in any order, a handler at a
--   time.
-- Dump: `dump_stats`.
-- Client: src/statsd_client.c, from the options to the packets; Client/Host: `resolve_host`.
-- Client/Usage, Options/Usage: the usage texts.
--
-- Bounds and fuel. Keys have 100 bytes, buffers the sizes of the source. The loop over tokens has
-- as fuel the length of the text and one more, and more fuel gives the same tokens. The inner loop
-- of the queue thread has fuel, which has to be above the number of pending packets. `long` is
-- unbounded, and `int` counts are natural numbers, so overflow of a count is outside.
--
-- Not modelled. Outside of Threads a handler runs without another one between its steps, as the
-- semaphores are meant to ensure. In Threads the accesses take place in one order for all
-- threads; what a compiler or a processor may reorder is outside. LOCK_OPTIMIZE is off, as in
-- src/CMakeLists.txt. Memory is seen only where a pointer can be unset, freed or NULL when it is
-- used; leaks and a failing `malloc` are outside. How json-c prints and
-- parses a text is outside, too, and with it what a number loses there: the "%lf" of the json-c
-- beside the program keeps six decimals. Most messages
-- to syslog are left out, and so are the client's clock and `SEND_GMETRIC_STRING`, which has no
-- caller. The copies of json-c, uthash and embeddedgmetric under src/ are other projects' code.
pub mod Base
pub mod Exec
pub mod Strings
pub mod Platform
pub mod Store
pub mod Packet
pub mod Json
pub mod Worker
pub mod Flush
pub mod Queue
pub mod Mgmt
pub mod Client
pub mod Options
pub mod Serialize
pub mod Startup
pub mod Process
pub mod Threads
pub mod Server
pub mod Dump
mod Tests

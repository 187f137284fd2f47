-- ===== src/Server.antt =====
-- The server of src/statsd.c as a whole: `init_stats`, then batches of packets and rounds of the
-- flush thread in any order, a handler at a time.
pub mod Names
pub mod Served
use statsd_c.Base.{ℕ, ◌<◌, ◌≤◌, ◌^◌, ◌≡◌, Bool, Option, List, Bytes, All, map, length}
use statsd_c.Exec.{ok}
use statsd_c.Strings.Decimal.{ℤ, pos}
use statsd_c.Platform.{Platform}
use statsd_c.Platform.Laws.{HashLaws, ArrayLaws}
use statsd_c.Store.{State, Timer}
use statsd_c.Store.View.{Metrics}
use statsd_c.Queue.{Queue, queue_init}
use statsd_c.Worker.{datagram, udp_rounds, drain_queue}
use statsd_c.Worker.Mixed.{AllMean}
use statsd_c.Flush.{Round, Out, flush_round}
use statsd_c.Flush.Parts.{Fits}
use statsd_c.Flush.Posted.{Survives}
use statsd_c.Flush.Said.{SuffixFits}
use statsd_c.Flush.Emptied.{Flushable}
use statsd_c.Flush.Whole.{round_said}
use statsd_c.Startup.{initial_state, init_stats}
use statsd_c.Startup.Locks.{Unloaded}

module _ {P : Platform} (H : HashLaws P) (A : ArrayLaws P) where
  -- The packets can be received at an empty ring and carried out, and the times are in range.
  pub record Batch (size fuel : ℕ) (ts : List Bytes) (clock : ℕ → ℕ) (g : Metrics P → Metrics P)
      : Type 0 where
    pub positive : 0 < size
    pub room : length ts ≤ size
    pub enough : length ts < fuel
    pub mean : AllMean H A clock ts g
    pub in_range : (n : ℕ) → clock n < 10 ^ 19

  -- The round can print what it has to and compute the figures of the timers, and `send` raises no
  -- SIGPIPE.
  pub record Ready (r : Round) (now sent : ℕ) (s : State P) : Type 0 where
    pub suffix : SuffixFits P r
    pub values : Fits r (round_said P r s)
    pub alive : Survives r
    pub at_start : r.ts ≡ pos now
    pub start_in_range : now < 10 ^ 19
    pub at_end : r.sent_at ≡ pos sent
    pub end_in_range : sent < 10 ^ 11
    pub figures : All (Flushable r) (P.hash_items (Timer P) s.timers)

  -- The states of the server: from the start, without a file to load, by packets and by rounds.
  pub data Reached : State P → Type 0 where
    begun_at :
        (clear_stats : Bool) (file : Option (Option Bytes)) (now : ℕ) (s : State P)
        → Unloaded clear_stats file
        → now < 10 ^ 11
        → init_stats P clear_stats file (pos now) (initial_state P) ≡ ok (tt, s)
        → Reached s
    packets_taken :
        (size fuel : ℕ) (ts : List Bytes) (clock : ℕ → ℕ) (g : Metrics P → Metrics P) (q : Queue)
        (s t : State P)
        → Reached s
        → Batch size fuel ts clock g
        → drain_queue P size fuel
            (λ n. pos (clock n))
            (udp_rounds size (map datagram ts) queue_init)
            s
          ≡ ok (q, t)
        → Reached t
    round_done :
        (r : Round) (now sent : ℕ) (o : Out) (s t : State P)
        → Reached s
        → Ready r now sent s
        → flush_round P r s ≡ ok (o, t)
        → Reached t

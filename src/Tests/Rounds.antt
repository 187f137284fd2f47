-- ===== src/Tests/Rounds.antt =====
-- JSON packets, the queue thread and the flush on the sample platform.
use statsd_c.Base.{
  ℕ, false, true, some, none, inr, ltb, All, get_elem?, ◌+◌, inl, ◌≡◌, ◌/◌, refl, [], ◌∷◌, arith,
  codes, bytes_eq,
}
use statsd_c.Base.Assoc.{lookup, replace}
use statsd_c.Exec.{fault, ok, fault}
use statsd_c.Strings.{sanitize_key}
use statsd_c.Strings.Decimal.{negsuc, pos, print_ld, print_nat, digits_onto, atol, read_digits}
use statsd_c.Store.{State, stat_name}
use statsd_c.Packet.{process_stats_packet, process_tokens, update_last_msg_seen}
use statsd_c.Packet.Tokens.{tokens}
use statsd_c.Store.View.{IsValid, Does, Metrics, count, time, view, timers_view}
use statsd_c.Store.Update.{increment, update_counter, update_stat}
use statsd_c.Json.{process_json_stats_packet}
use statsd_c.Json.Effect.{timer, counter, AllAsk, done, more, process_json_stats_packet-array}
use statsd_c.Queue.{Queue, queue_init, queue_store_sized}
use statsd_c.Queue.Fifo.{Holds, queue_init-Holds, queue_store-Holds}
use statsd_c.Worker.{process_packet, drain_queue}
use statsd_c.Worker.Drain.{process_all, drain_queue-Holds}
use statsd_c.Flush.{taken, sigpipe, Round, Out, flush_timer, flush_round}
use statsd_c.Flush.Figures.{
  min_max, extremes, several_figures, sum_from, double_sort, timer_figures, TimerFigures,
}
use statsd_c.Flush.Emptied.{Flushable}
use statsd_c.Flush.Parts.{emit}
use statsd_c.Flush.Said.{figures_part}
use statsd_c.Flush.Mean.{timer_figures-several}
use mathlib.Core.List.{Perm}
use statsd_c.Flush.Extremes.{Encloses, Among, extremes-Encloses}
use statsd_c.Flush.Posted.{flushed}
use statsd_c.Flush.Whole.{reported, flush_round-returns}
use statsd_c.Flush.Counters.{Flushed, flush_counters-Flushed}
use statsd_c.Flush.Timers.{flush_timer-returns}
use statsd_c.Tests.Sample.{
  sample, sample-HashLaws, sample-ArrayLaws, sample-OrderLaws, sample-SortLaws, start,
  start-IsValid,
}
use statsd_c.Tests.Nodes.{document, node_of_document}

abbrev asked : Metrics sample → Metrics sample
asked m = count sample (codes "c") (increment sample 3 0) (time sample (codes "a_b") 7 m)

document_asks : AllAsk sample (sample.json_array_items node_of_document) asked
unfolding sanitize_key lookup bytes_eq
document_asks =
    more _ _ refl (timer _ _ refl refl refl refl refl)
      (more _ _ refl (counter _ _ refl refl refl refl refl) done)

process_json_stats_packet-array_example :
    Does sample (process_json_stats_packet sample (pos 7) document) start asked
unfolding bytes_eq
process_json_stats_packet-array_example =
    process_json_stats_packet-array sample-HashLaws sample-ArrayLaws (pos 7) document
      node_of_document asked start (omega arith) refl refl document_asks start-IsValid

abbrev queued : Queue
queued = queue_store_sized 3 (codes "hits") queue_init

queued-Holds : Holds 3 queued (codes "hits" ∷ [])
queued-Holds =
    queue_store-Holds 3 queue_init [] (codes "hits") (queue_init-Holds 3 (omega arith))
      (omega arith)

-- One more hit, seen at the time 8.
abbrev one_hit : State sample
one_hit = record start {
  counters = (codes "hits", 41) ∷ [];
  stats =
      (
        stat_name (codes "messages") (codes "last_msg_seen"),
        record {
          group_name = codes "messages";
          key_name = codes "last_msg_seen";
          value = pos 8;
          locked = false;
        },
      )
      ∷ [];
}

drain_queue-Holds_example :
    (q : Queue) × Holds 3 q []
    × (drain_queue sample 3 5 (λ n. pos (n + 8)) queued start ≡ ok (q, one_hit))
unfolding process_all process_packet process_stats_packet process_tokens update_last_msg_seen tokens
    update_counter update_stat sanitize_key bytes_eq lookup replace print_ld print_nat digits_onto
    atol read_digits
drain_queue-Holds_example =
    drain_queue-Holds sample 3 5 (λ n. pos (n + 8)) (codes "hits" ∷ []) queued start {t = one_hit}
      queued-Holds (omega arith) refl

abbrev round : Round
round = record {
  flush_interval = pos 10;
  enable_gmetric = false;
  gmetric_opened = false;
  ganglia_metric_prefix = none;
  enable_graphite = true;
  inet_pton = pos 1;
  socket = pos 7;
  connect = pos 0;
  send = λ c. taken 200;
  percentile = pos 90;
  ts = pos 5;
  sent_at = pos 6;
}

abbrev nothing : Out
nothing = record { stat_string = []; messages = []; num_stats = 0; sent = none }

flush_counters-Flushed_example :
    Flushed sample round [] (sample.hash_items sample.LongDouble start.counters) nothing start
unfolding print_nat digits_onto
flush_counters-Flushed_example =
    flush_counters-Flushed sample-HashLaws round nothing start (tt, tt)
      (inr (omega arith, (omega arith, tt))) (omega arith)

extremes-Encloses_example :
    let (lo, hi) = extremes sample (4 ∷ 9 ∷ 2 ∷ []) in
    Encloses sample-OrderLaws lo hi (4 ∷ 9 ∷ 2 ∷ [])
    × Among lo (4 ∷ 9 ∷ 2 ∷ [])
    × Among hi (4 ∷ 9 ∷ 2 ∷ [])
extremes-Encloses_example = extremes-Encloses sample-OrderLaws 4 (9 ∷ 2 ∷ [])

-- Of 10, 2 and 3 the reported mean is (2 + 3) / 3.
timer_figures-several_example :
    (f : TimerFigures sample) × (at : ℕ) × (timer_figures sample (pos 100) 3 (10 ∷ 2 ∷ 3 ∷ [])
      ≡ ok f)
    × Perm {A = ℕ} (2 ∷ 3 ∷ 10 ∷ []) (10 ∷ 2 ∷ 3 ∷ [])
    × All (λ d. ltb 10 d ≡ false) (2 ∷ 3 ∷ [])
    × (f.mean ≡ (0 + 2 + 3) / 3)
    × (get_elem? (2 ∷ 3 ∷ 10 ∷ []) 2 ≡ some at)
    × (f.max_at_threshold ≡ sample.of_int (sample.first_byte at))
unfolding double_sort
timer_figures-several_example =
    timer_figures-several sample sample-SortLaws (pos 100) (10 ∷ 2 ∷ 3 ∷ []) (2 ∷ 3 ∷ []) 10 2 refl
      ((refl, (refl, tt)), ((refl, tt), (tt, tt))) (omega arith) refl (omega arith)

abbrev db_figures : TimerFigures sample
db_figures = record { min = 4; max = 4; mean = 4; max_at_threshold = 4 }

-- A state with one value in the timer.
abbrev timed : State sample
timed = record start { timers = (codes "db", record { count = 1; values = 4 ∷ [] }) ∷ [] }

flush_timer-returns_example :
    (s' : State sample) × (flush_timer sample round
        (codes "db")
        (record { count = 1; values = 4 ∷ [] })
        nothing
        timed
      ≡ ok (emit round (figures_part sample round (codes "db") db_figures) nothing, s'))
    × (view sample s' ≡ record (view sample timed) {
      timers = replace (codes "db") [] (timers_view sample timed.timers);
    })
unfolding timer_figures lookup bytes_eq
flush_timer-returns_example =
    flush_timer-returns sample-HashLaws sample-ArrayLaws round (codes "db")
      (record { count = 1; values = 4 ∷ [] }) db_figures nothing timed refl (inl refl) (inl refl)
      refl (omega arith)

-- The round with the greatest value for the percentile, and with ganglia on.
abbrev top_round : Round
top_round = record round { percentile = pos 100; enable_gmetric = true; gmetric_opened = true }

abbrev start_figures : TimerFigures sample
start_figures = record { min = 2; max = 5; mean = 1; max_at_threshold = 5 }

start-Flushable :
    Flushable {P = sample} top_round (codes "db", record { count = 2; values = 5 ∷ 2 ∷ [] })
unfolding timer_figures extremes min_max several_figures sum_from
start-Flushable = inr (omega arith, start_figures, refl)

flush_round-returns_example :
    (t : State sample) × (flush_round sample top_round start
      ≡ ok (reported sample top_round start, t))
    × (view sample t ≡ flushed top_round 6 (view sample start))
    × IsValid sample t
unfolding timer_figures extremes min_max several_figures sum_from print_nat digits_onto print_ld
flush_round-returns_example =
    flush_round-returns sample-ArrayLaws top_round sample-HashLaws 5 6 start (inr (omega arith))
      (inr (omega arith)) (inr (inr (λ e. cc))) refl (omega arith) refl (omega arith) start-IsValid
      (tt, tt) (tt, tt) (start-Flushable, tt)

-- The connection is refused.
abbrev refused_round : Round
refused_round = record top_round { connect = negsuc 0; send = λ c. sigpipe }

-- ===== src/Tests/Serving.antt =====
-- The server on the sample platform: its start, a packet, and a round of the flush thread.
use statsd_c.Base.{some, false, ◌≡◌, refl, true, none, [], ◌∷◌, map, arith, codes, inr, bytes_eq}
use statsd_c.Base.Assoc.{lookup, replace}
use statsd_c.Exec.{ok}
use statsd_c.Strings.{sanitize_key, sanitize_value, sanitize_gaugevalue}
use statsd_c.Strings.Decimal.{pos, print_ld, print_nat, digits_onto, atol, read_digits}
use statsd_c.Store.{State, stat_name}
use statsd_c.Store.Update.{update_stat, update_counter, update_timer}
use statsd_c.Startup.{initial_state, init_stats}
use statsd_c.Flush.{taken, Round, flush_round}
use statsd_c.Flush.Figures.{timer_figures}
use statsd_c.Flush.Posted
use statsd_c.Flush.Whole.{reported}
use statsd_c.Server.{Reached, Batch, Ready, begun_at, packets_taken}
use statsd_c.Server.Served.{Served, Reached-Served, Reached-flush_round}
use statsd_c.Tests.Arrivals.{hits, hits-IsSendable}
use statsd_c.Worker.Mixed.{line, next, none_left}
use statsd_c.Worker.Arrival.{text, all_reports}
use statsd_c.Worker.{datagram, udp_rounds, received, drain_queue, process_packet, is_json, c_string}
use statsd_c.Store.View.{Metrics, view}
use statsd_c.Queue.{Queue, queue_init, queue_pop_first_sized, queue_store_sized}
use statsd_c.Packet.{
  value_loop, post_token, token_fields, process_stats_packet, process_tokens, update_last_msg_seen,
}
use statsd_c.Packet.Tokens.{tokens}
use statsd_c.Packet.Report.{meanings}
use statsd_c.Packet.Effect.{seen}
use statsd_c.Tests.Sample.{sample, sample-HashLaws, sample-ArrayLaws, start}

abbrev begun : State sample
begun = record start {
  stats =
      (
        stat_name (codes "graphite") (codes "last_flush"),
        record {
          group_name = codes "graphite";
          key_name = codes "last_flush";
          value = pos 7;
          locked = false;
        },
      )
      ∷ (
        stat_name (codes "messages") (codes "last_msg_seen"),
        record {
          group_name = codes "messages";
          key_name = codes "last_msg_seen";
          value = pos 7;
          locked = false;
        },
      )
      ∷ (
        stat_name (codes "messages") (codes "bad_lines_seen"),
        record {
          group_name = codes "messages";
          key_name = codes "bad_lines_seen";
          value = pos 0;
          locked = false;
        },
      )
      ∷ [];
  counters = [];
  gauges = [];
  timers = [];
  locks = record start.locks { stats_lock = 2 };
}

begun-Reached : Reached sample-HashLaws sample-ArrayLaws begun
unfolding init_stats initial_state update_stat print_ld print_nat digits_onto atol read_digits
    bytes_eq lookup
begun-Reached = begun_at true none 7 begun tt (omega arith) refl

-- After "hits:2|c:7|ms", at the time 8.
abbrev counted : State sample
counted = record begun {
  stats =
      (
        stat_name (codes "graphite") (codes "last_flush"),
        record {
          group_name = codes "graphite";
          key_name = codes "last_flush";
          value = pos 7;
          locked = false;
        },
      )
      ∷ (
        stat_name (codes "messages") (codes "last_msg_seen"),
        record {
          group_name = codes "messages";
          key_name = codes "last_msg_seen";
          value = pos 8;
          locked = false;
        },
      )
      ∷ (
        stat_name (codes "messages") (codes "bad_lines_seen"),
        record {
          group_name = codes "messages";
          key_name = codes "bad_lines_seen";
          value = pos 0;
          locked = false;
        },
      )
      ∷ [];
  counters = (codes "hits", 2) ∷ [];
  timers = (codes "hits", record { count = 1; values = 7 ∷ [] }) ∷ [];
}

abbrev meant : Metrics sample → Metrics sample
meant m = seen sample-HashLaws 8 (meanings sample (codes "hits") (all_reports hits) m)

hits-Batch : Batch sample-HashLaws sample-ArrayLaws 4 3 (text hits ∷ []) (λ n. 8) meant
unfolding sanitize_key
hits-Batch = record {
  positive = omega arith;
  room = omega arith;
  enough = omega arith;
  mean = next (λ n. 8) (text hits) [] _ _ (line hits hits-IsSendable) (none_left (λ n. 8));
  in_range = λ n. omega arith;
}

counted-drained :
    (q : Queue) × (drain_queue sample 4 3
        (λ n. pos 8)
        (udp_rounds 4 (map datagram (text hits ∷ [])) queue_init)
        begun
      ≡ ok (q, counted))
unfolding drain_queue udp_rounds received process_packet process_stats_packet process_tokens
    update_last_msg_seen tokens update_counter update_timer update_stat sanitize_key sanitize_value
    bytes_eq lookup replace print_ld print_nat digits_onto atol read_digits c_string is_json
    queue_pop_first_sized queue_store_sized queue_init value_loop post_token token_fields
    sanitize_gaugevalue
counted-drained = (_, refl)

counted-Reached : Reached sample-HashLaws sample-ArrayLaws counted
counted-Reached =
    packets_taken 4 3 (text hits ∷ []) (λ n. 8) meant counted-drained.0 begun counted begun-Reached
      hits-Batch counted-drained.1

Reached-Served_example : Served sample-HashLaws sample-ArrayLaws counted
Reached-Served_example = Reached-Served sample-HashLaws sample-ArrayLaws counted counted-Reached

abbrev round : Round
round = record {
  flush_interval = pos 10;
  enable_gmetric = true;
  gmetric_opened = true;
  ganglia_metric_prefix = some (codes "x.");
  enable_graphite = true;
  inet_pton = pos 1;
  socket = pos 7;
  connect = pos 0;
  send = λ c. taken 200;
  percentile = pos 90;
  ts = pos 10;
  sent_at = pos 11;
}

round-Ready : Ready sample-HashLaws sample-ArrayLaws round 10 11 counted
unfolding timer_figures print_nat digits_onto print_ld
round-Ready = record {
  suffix = inr (omega arith);
  values = inr (omega arith);
  alive = inr (inr (λ e. cc));
  at_start = refl;
  start_in_range = omega arith;
  at_end = refl;
  end_in_range = omega arith;
  figures =
      (inr (omega arith, record { min = 7; max = 7; mean = 7; max_at_threshold = 7 }, refl), tt);
}

Reached-flush_round_example :
    (t : State sample) × (flush_round sample round counted ≡ ok (reported sample round counted, t))
    × (view sample t ≡ Posted.flushed round 11 (view sample counted))
    × Reached sample-HashLaws sample-ArrayLaws t
Reached-flush_round_example =
    Reached-flush_round sample-HashLaws sample-ArrayLaws round 10 11 counted counted-Reached
      round-Ready

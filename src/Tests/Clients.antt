-- ===== src/Tests/Clients.antt =====
-- The client and the management port on the sample platform.
use statsd_c.Base.{◌≡◌, refl, true, false, some, [], ◌∷◌, ◌++◌, Bytes, arith, codes, map}
use statsd_c.Exec.{ok}
use statsd_c.Strings.{sanitize_key}
use statsd_c.Strings.Decimal.{pos, print_ld, print_nat, digits_onto}
use statsd_c.Store.Update.{increment}
use statsd_c.Store.View.{Does, count}
use statsd_c.Packet.{process_stats_packet}
use statsd_c.Packet.Tokens.{tokens}
use statsd_c.Packet.Effect.{seen}
use statsd_c.Client.{opt_counter, opt_timer, opt_value, opt_sample_rate, client_main}
use statsd_c.Client.Sent.{client_main-timer, client_main-counter}
use statsd_c.Mgmt.{
  Mgmt, mgmt_start, accepted, recv_data, mgmt_step, recv_into, begins_with, answer, prompt, connect,
}
use statsd_c.Mgmt.Clients.{Polled, Reached, started, stepped, Reached-Polled}
use statsd_c.Mgmt.Answers.{mgmt_step-stale, answer-counters, counter_line}
use statsd_c.Tests.Sample.{sample, sample-HashLaws, sample-ArrayLaws, start, start-IsValid}

client_main-timer_example :
    (packet : Bytes) × (client_main (
        opt_timer (codes "db")
        ∷ opt_value (print_ld (pos 31))
        ∷ opt_sample_rate (print_ld (pos 1))
        ∷ [])
      ≡ ok (packet ∷ []))
    × Does sample (process_stats_packet sample (pos 7) packet) start (λ m. seen sample-HashLaws 7 (
        count sample
          (sanitize_key (codes "db"))
          (increment sample (sample.strtod (print_ld (pos 31))) 1)
          m))
unfolding sanitize_key print_ld print_nat digits_onto
client_main-timer_example =
    client_main-timer sample-HashLaws sample-ArrayLaws b'd' (codes "b") 31 1 7 start
      (refl, (refl, tt)) refl (omega arith) (omega arith) start-IsValid

client_main-counter_example :
    (packet : Bytes) × (client_main (opt_counter (codes "hits") ∷ opt_value (print_ld (pos 2)) ∷ [])
      ≡ ok (packet ∷ []))
    × Does sample (process_stats_packet sample (pos 7) packet) start (λ m. seen sample-HashLaws 7 (
        count sample
          (sanitize_key (codes "hits"))
          (increment sample (sample.strtod (print_ld (pos 2))) 1)
          m))
unfolding sanitize_key print_ld print_nat digits_onto
client_main-counter_example =
    client_main-counter sample-HashLaws sample-ArrayLaws b'h' (codes "its") 2 7 start
      (refl, (refl, (refl, (refl, tt)))) refl (omega arith) (omega arith) start-IsValid

-- After "quit", the letter "q" from another client is taken for "quit", too.
abbrev listening : Mgmt
listening = record { master = λ i. false; fdmax = 3; buf = codes "\0\0\0\0\0\0\0\0" }

mgmt_step-stale_example :
    mgmt_step sample false start
      (recv_data 5 (codes "q"))
      (record listening { buf = recv_into (codes "q" ++ codes "uit") listening.buf })
    ≡ mgmt_step sample false start
        (recv_data 5 (codes "q" ++ codes "uit"))
        (record listening { buf = recv_into (codes "q" ++ codes "uit") listening.buf })
mgmt_step-stale_example = mgmt_step-stale sample false start 5 (codes "q") (codes "uit") listening

answer-counters_example :
    (text : Bytes) × (answer sample true start (codes "Counters\n") ≡ ok (some text))
    × (tokens b'\n' text
        ≡ map (counter_line sample) (sample.hash_items sample.LongDouble start.counters)
          ++ codes "END" ∷ tokens b'\n' (prompt true))
unfolding begins_with print_nat digits_onto
answer-counters_example =
    answer-counters sample true start (codes "Counters\n") refl
      (((refl, (refl, (refl, (refl, tt)))), (refl, (refl, tt)), omega arith), tt)

-- The listening socket 3 and a client 5.
abbrev one_client : Mgmt
one_client = connect 5 (mgmt_start 3 (codes "\0\0\0\0"))

one_client-Reached : Reached sample false 3 (codes "\0\0\0\0") one_client
unfolding mgmt_step
one_client-Reached = stepped start (accepted 5) started refl

Reached-Polled_example : Polled one_client
Reached-Polled_example =
    Reached-Polled sample false 3 (codes "\0\0\0\0") one_client one_client-Reached

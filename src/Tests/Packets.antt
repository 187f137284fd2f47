-- ===== src/Tests/Packets.antt =====
-- Packets on the sample platform.
use statsd_c.Base.{
  ◌≡◌, refl, false, none, some, List, [], ◌∷◌, Bytes, arith, codes, bytes_eq, replicate,
}
use statsd_c.Base.Assoc.{lookup, replace}
use statsd_c.Exec.{ok, fault, uninitialised, use_after_free, overflow}
use statsd_c.Strings.{sanitize_key, sanitize_value, sanitize_gaugevalue}
use statsd_c.Strings.Decimal.{pos, atol, print_ld, print_nat, digits_onto, read_digits}
use statsd_c.Store.{stat_name}
use statsd_c.Store.Update.{update_gauge_plusminus, update_stat}
use statsd_c.Store.View.{Does}
use statsd_c.Packet.{
  process_stats_packet, process_tokens, update_last_msg_seen, value_loop, post_token, token_fields,
}
use statsd_c.Packet.Tokens.{tokens}
use statsd_c.Packet.Report.{Report, counter, gauge_down, timer, render_packet, meanings}
use statsd_c.Packet.Effect.{process_stats_packet-Does, seen}
use statsd_c.Packet.Long.{process_stats_packet-long}
use statsd_c.Packet.Faults.{
  process_stats_packet-bare, process_stats_packet-stale, process_stats_packet-freed,
}
use statsd_c.Tests.Sample.{sample, sample-HashLaws, sample-ArrayLaws, start, start-IsValid}

abbrev reports : List Report
reports = counter (codes "5") (some (codes "1")) ∷ gauge_down (codes "2") ∷ timer (codes "31") ∷ []

packet_text : render_packet (codes "a.b") reports ≡ codes "a.b:5|c|@1:-2|g:31|ms"
packet_text = refl

-- The packet runs.
packet_runs :
    (process_stats_packet sample (pos 1700000000) (codes "load:5|g") start)
    ≡ ok (
      tt,
      record start {
        gauges = (codes "load", 5) ∷ [];
        stats =
            (
              stat_name (codes "messages") (codes "last_msg_seen"),
              record {
                group_name = codes "messages";
                key_name = codes "last_msg_seen";
                value = pos 1700000000;
                locked = false;
              },
            )
            ∷ [];
      },
    )
unfolding process_stats_packet process_tokens update_last_msg_seen value_loop post_token
    token_fields tokens update_gauge_plusminus update_stat sanitize_key sanitize_value
    sanitize_gaugevalue bytes_eq lookup replace print_ld print_nat digits_onto atol read_digits
packet_runs = refl

process_stats_packet-Does_example :
    Does sample
      (process_stats_packet sample (pos 1700000000) (render_packet (codes "a.b") reports))
      start
      (λ m.
        seen sample-HashLaws 1700000000 (meanings sample (sanitize_key (codes "a.b")) reports m))
unfolding sanitize_key
process_stats_packet-Does_example =
    process_stats_packet-Does sample-HashLaws sample-ArrayLaws b'a' (codes ".b")
      (counter (codes "5") (some (codes "1"))) (gauge_down (codes "2") ∷ timer (codes "31") ∷ [])
      1700000000 start (refl, (refl, (refl, tt))) refl
      (((refl, tt), (refl, tt), (refl, tt)), ((refl, tt), ((refl, (refl, tt)), tt))) (omega arith)
      start-IsValid

process_stats_packet-bare_example :
    process_stats_packet sample (pos 7) (codes "hits:1") start ≡ fault uninitialised
process_stats_packet-bare_example =
    process_stats_packet-bare sample (pos 7) start b'h' b'1' (codes "its") []
      (refl, (refl, (refl, (refl, tt)))) (refl, tt) (refl, tt)

-- 99 bytes, so that the name has 100.
abbrev long_name : Bytes
long_name = replicate 99 b'x'

process_stats_packet-long_example :
    process_stats_packet sample
      (pos 7)
      (render_packet (b'x' ∷ long_name) (timer (codes "5") ∷ counter (codes "1") none ∷ []))
      start
    ≡ fault overflow
unfolding sanitize_key lookup bytes_eq
process_stats_packet-long_example =
    process_stats_packet-long sample (pos 7) b'x' long_name (timer (codes "5"))
      (counter (codes "1") none ∷ []) start (ground arith) (omega arith)
      ((refl, tt), ((refl, tt), tt)) refl

process_stats_packet-stale_example :
    Does sample (process_stats_packet sample (pos 7) (codes "hits:5|c:9")) start (λ m.
      seen sample-HashLaws 7 (
        meanings sample
          (sanitize_key (codes "hits"))
          (counter (codes "5") none ∷ counter (codes "5") none ∷ [])
          m))
unfolding sanitize_key
process_stats_packet-stale_example =
    process_stats_packet-stale sample-HashLaws sample-ArrayLaws b'h' b'9' (codes "its") (codes "5")
      [] 7 start (refl, (refl, (refl, (refl, tt)))) refl (refl, tt) (refl, tt) (refl, tt)
      (omega arith) start-IsValid

process_stats_packet-freed_example :
    process_stats_packet sample (pos 7) (codes "hits:5|g:9") start ≡ fault use_after_free
unfolding sanitize_key
process_stats_packet-freed_example =
    process_stats_packet-freed sample-HashLaws sample-ArrayLaws b'h' b'9' (codes "its") (codes "5")
      [] (pos 7) start (refl, (refl, (refl, (refl, tt)))) refl (refl, tt) (refl, tt) (refl, tt)
      start-IsValid

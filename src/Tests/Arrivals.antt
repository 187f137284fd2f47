-- ===== src/Tests/Arrivals.antt =====
-- Packets from the socket to the tables of the sample platform.
use statsd_c.Base.{bytes_eq, ◌≡◌, refl, none, [], ◌∷◌, map, arith, codes}
use statsd_c.Base.Assoc.{lookup}
use statsd_c.Packet.Effect.{seen}
use statsd_c.Exec.{ok}
use statsd_c.Strings.{sanitize_key}
use statsd_c.Strings.Decimal.{pos}
use statsd_c.Store.{State}
use statsd_c.Store.View.{Metrics, view, count, time, IsValid}
use statsd_c.Packet.Report.{meanings, counter, gauge_up, timer}
use statsd_c.Queue.{Queue, queue_init}
use statsd_c.Queue.Fifo.{Holds}
use statsd_c.Json.Effect.{AllAsk, done, more}
use statsd_c.Json.Effect
use statsd_c.Worker.{datagram, udp_rounds, is_json, drain_queue}
use statsd_c.Worker.Arrival.{Line, IsSendable, all_reports, text}
use statsd_c.Worker.Mixed.{AllMean, line, array, next, none_left, packets-Does}
use statsd_c.Tests.Nodes.{document, node_of_document}
use statsd_c.Tests.Sample.{sample, sample-HashLaws, sample-ArrayLaws, start, start-IsValid}

-- "hits:2|c:7|ms" and "load:+1|g"
abbrev pub hits : Line
hits = record {
  first = b'h';
  others = codes "its";
  report = counter (codes "2") none;
  reports = timer (codes "7") ∷ [];
}

abbrev load : Line
load = record { first = b'l'; others = codes "oad"; report = gauge_up (codes "1"); reports = [] }

text-hits : text hits ≡ codes "hits:2|c:7|ms"
text-hits = refl

pub hits-IsSendable : IsSendable hits
unfolding sanitize_key
hits-IsSendable = record {
  no_colon = (refl, (refl, (refl, (refl, tt))));
  no_json = refl;
  fits = refl;
  writable = ((refl, tt), ((refl, tt), tt));
  no_nul = ground arith;
  short = omega arith;
}

load-IsSendable : IsSendable load
unfolding sanitize_key
load-IsSendable = record {
  no_colon = (refl, (refl, (refl, (refl, tt))));
  no_json = refl;
  fits = refl;
  writable = ((refl, tt), tt);
  no_nul = ground arith;
  short = omega arith;
}

-- A packet of each protocol.
abbrev document_asks : Metrics sample → Metrics sample
document_asks m = count sample (codes "c") 3 (time sample (codes "a_b") 7 m)

abbrev mixed : Metrics sample → Metrics sample
mixed m = document_asks (
    seen sample-HashLaws 1700000000
      (meanings sample (sanitize_key (codes "hits")) (all_reports hits) m))

mixed-AllMean :
    AllMean sample-HashLaws sample-ArrayLaws (λ n. 1700000000) (text hits ∷ document ∷ []) mixed
unfolding sanitize_key bytes_eq lookup is_json
mixed-AllMean =
    next (λ n. 1700000000) (text hits) (document ∷ []) _ _ (line hits hits-IsSendable)
      (next (λ n. 1700000000) document [] _ _
        (array document node_of_document document_asks refl (omega arith)
          (record { some_byte = λ e. cc; no_nul = ground arith; short = omega arith }) refl refl
          (more _ _ refl (Effect.timer _ _ refl refl refl refl refl)
            (more _ _ refl (Effect.counter _ _ refl refl refl refl refl) done)))
        (none_left (λ n. 1700000000)))

packets-Does_example :
    (q : Queue) × (t : State sample) × (drain_queue sample 4 3
        (λ n. pos 1700000000)
        (udp_rounds 4 (map datagram (text hits ∷ document ∷ [])) queue_init)
        start
      ≡ ok (q, t))
    × Holds 4 q []
    × (view sample t ≡ mixed (view sample start))
    × IsValid sample t
packets-Does_example =
    packets-Does sample-HashLaws sample-ArrayLaws 4 3 (text hits ∷ document ∷ []) (λ n. 1700000000)
      mixed start (omega arith) (omega arith) (omega arith) mixed-AllMean (λ n. omega arith)
      start-IsValid

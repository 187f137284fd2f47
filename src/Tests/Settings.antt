-- ===== src/Tests/Settings.antt =====
-- Command lines of the server.
use statsd_c.Base.{◌≡◌, refl, true, some, [], ◌∷◌, ◌++◌, codes}
use statsd_c.Exec.{ok, fault, overflow}
use statsd_c.Strings.Decimal.{pos, atol, read_digits}
use statsd_c.Packet.Tokens.{strtok_r}
use statsd_c.Options.{
  opt_debug, opt_flush, opt_graphite, opt_percentiles, globals, configure, server_options,
  server_option,
}
use statsd_c.Options.Percentiles.{configure-percentiles}

-- "-F 30 -R 10.0.0.1"
configure-graphite :
    configure (opt_flush (codes "30") ∷ opt_graphite (codes "10.0.0.1") ∷ [])
    ≡ ok (
        some (record globals {
          flush_interval = pos 30;
          graphite_host = some (codes "10.0.0.1");
          enable_graphite = true;
          percentiles = pos 90 ∷ [];
          ganglia_spoof = some (codes "statsd:statsd");
        }))
unfolding configure server_options server_option globals atol read_digits
configure-graphite = refl

-- "-d -T 50,95"
configure-percentiles_example :
    configure ((opt_debug ∷ []) ++ opt_percentiles (codes "50,95") ∷ []) ≡ fault overflow
unfolding strtok_r
configure-percentiles_example =
    configure-percentiles (opt_debug ∷ []) [] (codes "50,95") {t = codes "50"} {u = codes "95"}
      (tt, tt) refl

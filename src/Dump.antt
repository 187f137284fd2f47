-- ===== src/Dump.antt =====
-- `dump_stats` of src/statsd.c: the messages for the log.
use statsd_c.Base.{Bool, List, [], ◌∷◌, ◌++◌, Bytes, codes, map, if◌then◌else◌}
use statsd_c.Strings.Decimal.{print_ld}
use statsd_c.Platform.{Platform}
use statsd_c.Store.{Stat, State}

-- "%s.%s: %ld"
abbrev pub dump_stat : Stat → Bytes
dump_stat s = s.group_name ++ (codes "." ++ (s.key_name ++ (codes ": " ++ print_ld s.value)))

module _ (P : Platform) where
  -- "%s: %Lf", for a counter and for a gauge
  abbrev pub dump_value : Bytes × P.LongDouble → Bytes
  dump_value (key, value) = key ++ (codes ": " ++ P.print_lf value)

  -- Nothing unless `-d` was given.
  unfoldable pub dump_stats : Bool → State P → List Bytes
  dump_stats debug s =
      if debug
      then codes "Stats dump:" ∷ map (λ e. dump_stat e.1) (P.hash_items Stat s.stats)
        ++ (codes "Counters dump:" ∷ map dump_value (P.hash_items P.LongDouble s.counters)
            ++ (codes "Gauges dump:" ∷ map dump_value (P.hash_items P.LongDouble s.gauges)))
      else []

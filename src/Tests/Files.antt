-- ===== src/Tests/Files.antt =====
-- Serialization on the sample platform.
use statsd_c.Base.{◌≡◌, refl, true, false, [], ◌∷◌, arith, codes, bytes_eq}
use statsd_c.Exec.{fault, overflow}
use statsd_c.Strings.Decimal.{pos}
use statsd_c.Store.{State, Stat, stat_name}
use statsd_c.Serialize.{statsd_serialize}
use statsd_c.Serialize.Overflow.{statsd_serialize-fault}
use statsd_c.Serialize.Whole.{Storable, Fresh}
use statsd_c.Serialize.Load.{deserialize_stats, load_stat_split, add_stat, at_period}
use statsd_c.Serialize.Restored.{Restored, deserialize_parsed-Restored}
use statsd_c.Tests.Nodes.{Node, integer, new_object, with_member}
use statsd_c.Tests.Sample.{
  sample, sample-HashLaws, sample-ArrayLaws, sample-JsonLaws, start, start-IsValid,
}

abbrev last_flush : Stat
last_flush = record {
  group_name = codes "graphite";
  key_name = codes "last_flush";
  value = pos 5;
  locked = false;
}

-- The stat that `init_stats` sets.
abbrev flushed : State sample
flushed = record start {
  stats = (stat_name (codes "graphite") (codes "last_flush"), last_flush) ∷ [];
}

-- The tables of a running server, with two counters more.
abbrev saved : State sample
saved = record flushed { counters = (codes "hits", 40) ∷ (codes "errors", 2) ∷ [] }

-- The tables when the server starts.
abbrev fresh : State sample
fresh = record start { counters = []; gauges = []; timers = [] }

abbrev flushed_stats : Node
flushed_stats = with_member new_object (codes "graphite.last_flush") (integer (pos 5))

saved-Storable : Storable sample saved
unfolding bytes_eq
saved-Storable = record {
  timers_distinct = (tt, tt);
  timers_fit = (refl, tt);
  gauges_distinct = (tt, tt);
  gauges_fit = (refl, tt);
  counters_distinct = ((refl, tt), (tt, tt));
  counters_fit = (refl, (refl, tt));
}

fresh-Fresh : Fresh sample fresh
fresh-Fresh = record {
  unlocked = start-IsValid.unlocked;
  no_timers = refl;
  no_gauges = refl;
  no_counters = refl;
}

deserialize_parsed-Restored_example : Restored sample flushed_stats flushed.stats saved fresh
unfolding deserialize_stats add_stat load_stat_split at_period bytes_eq
deserialize_parsed-Restored_example =
    deserialize_parsed-Restored sample sample-HashLaws sample-ArrayLaws sample-JsonLaws saved fresh
      flushed_stats flushed.stats start-IsValid.unlocked saved-Storable fresh-Fresh refl refl

statsd_serialize-fault_example : statsd_serialize sample true flushed ≡ fault overflow
statsd_serialize-fault_example =
    statsd_serialize-fault sample true (stat_name (codes "graphite") (codes "last_flush"))
      last_flush [] flushed refl (omega arith) (omega arith)

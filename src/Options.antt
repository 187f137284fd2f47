-- ===== src/Options.antt =====
-- The options of `main` in src/statsd.c. What `getopt` returns is a value, with `optarg`, and
-- `atoi` is read as `atol`.
pub mod Percentiles
pub mod Usage
use statsd_c.Base.{
  ℕ, zero, suc, ◌+◌, Bool, true, false, Option, none, some, List, [], ◌∷◌, ◌++◌, Bytes, ◌==◌, ltb,
  length, codes, if◌then◌else◌,
}
use statsd_c.Exec.{Result, ok, fault, overflow, and_then}
use statsd_c.Strings.Decimal.{ℤ, pos, atol}
use statsd_c.Packet.Tokens.{span, strtok_r}

-- `-h` and what `getopt` does not know, the flags, and the options with an argument.
pub data ServerOption : Type 0 where
  opt_help opt_debug opt_daemonize opt_friendly opt_clear : ServerOption
  opt_flush opt_port opt_mgmt_port opt_serialize opt_graphite opt_graphite_port opt_ganglia
        opt_ganglia_port opt_spoof opt_prefix opt_lock_file opt_percentiles :
      Bytes → ServerOption

-- The globals that the options set; `percentiles` holds `num_percentiles` elements of the array.
pub record Globals : Type 0 where
  pub port : ℤ
  pub mgmt_port : ℤ
  pub ganglia_port : ℤ
  pub flush_interval : ℤ
  pub debug : Bool
  pub friendly : Bool
  pub clear_stats : Bool
  pub daemonize : Bool
  pub enable_gmetric : Bool
  pub enable_graphite : Bool
  pub graphite_port : ℤ
  pub serialize_file : Option Bytes
  pub ganglia_host : Option Bytes
  pub ganglia_spoof : Option Bytes
  pub graphite_host : Option Bytes
  pub ganglia_metric_prefix : Option Bytes
  pub lock_file : Option Bytes
  pub percentiles : List ℤ

unfoldable pub globals : Globals
globals = record {
  port = pos 8125;
  mgmt_port = pos 8126;
  ganglia_port = pos 8649;
  flush_interval = pos 10;
  debug = false;
  friendly = false;
  clear_stats = false;
  daemonize = false;
  enable_gmetric = false;
  enable_graphite = false;
  graphite_port = pos 2003;
  serialize_file = none;
  ganglia_host = none;
  ganglia_spoof = none;
  graphite_host = none;
  ganglia_metric_prefix = none;
  lock_file = none;
  percentiles = [];
}

-- `int percentiles[5]`
abbrev pub percentiles_size : ℕ
percentiles_size = 5

-- What the text holds after `strtok` has found its first token: a NUL follows the token.
unfoldable pub cut : ℕ → Bytes → Bytes
cut d [] = []
cut d (c ∷ s) = let rest = cut d s in if c == d then c ∷ rest else c ∷ (span d s).0

-- `percentiles[num_percentiles] = i; num_percentiles++`
abbrev pub add_percentile : ℤ → List ℤ → Result (List ℤ)
add_percentile i percentiles =
    if ltb (length percentiles) percentiles_size then ok (percentiles ++ i ∷ []) else fault overflow

-- The loop of `-T`: it gives `p_raw` to `strtok` each time. Every round takes a place of the array,
-- so that fuel for one round more than there are places is enough.
unfoldable pub percentile_loop : ℕ → Bytes → List ℤ → Result (List ℤ)
percentile_loop zero p_raw percentiles = ok percentiles
percentile_loop (suc fuel) p_raw percentiles = elim (strtok_r b',' p_raw) [
  | none ↦ ok percentiles
  | some (pch, rest) ↦
      and_then (add_percentile (atol pch) percentiles) (percentile_loop fuel (cut b',' p_raw))
]

-- The `switch (opt)`, or `none` where `syntax` ends the program.
unfoldable pub server_option : ServerOption → Globals → Result (Option Globals)
unfolding percentile_loop
server_option opt_help g = ok none
server_option opt_debug g = ok (some (record g { debug = true }))
server_option opt_daemonize g = ok (some (record g { daemonize = true }))
server_option opt_friendly g = ok (some (record g { friendly = true }))
server_option opt_clear g = ok (some (record g { clear_stats = true }))
server_option (opt_flush optarg) g = ok (some (record g { flush_interval = atol optarg }))
server_option (opt_port optarg) g = ok (some (record g { port = atol optarg }))
server_option (opt_mgmt_port optarg) g = ok (some (record g { mgmt_port = atol optarg }))
server_option (opt_serialize optarg) g = ok (some (record g { serialize_file = some optarg }))
server_option (opt_graphite optarg) g =
    ok (some (record g { graphite_host = some optarg; enable_graphite = true }))
server_option (opt_graphite_port optarg) g = ok (some (record g { graphite_port = atol optarg }))
server_option (opt_ganglia optarg) g =
    ok (some (record g { ganglia_host = some optarg; enable_gmetric = true }))
server_option (opt_ganglia_port optarg) g = ok (some (record g { ganglia_port = atol optarg }))
server_option (opt_spoof optarg) g = ok (some (record g { ganglia_spoof = some optarg }))
server_option (opt_prefix optarg) g = ok (some (record g { ganglia_metric_prefix = some optarg }))
server_option (opt_lock_file optarg) g = ok (some (record g { lock_file = some optarg }))
server_option (opt_percentiles optarg) g =
    and_then (percentile_loop (percentiles_size + 1) optarg g.percentiles)
      λ ps. ok (some (record g { percentiles = ps }))

abbrev pub next_option :
    (Globals → Result (Option Globals)) → Option Globals → Result (Option Globals)
next_option f none = ok none
next_option f (some g) = f g

unfoldable pub server_options : List ServerOption → Globals → Result (Option Globals)
server_options [] g = ok (some g)
server_options (opt ∷ opts) g = and_then (server_option opt g) (next_option (server_options opts))

abbrev pub default_percentiles : List ℤ → List ℤ
default_percentiles [] = pos 90 ∷ []
default_percentiles (p ∷ ps) = p ∷ ps

abbrev pub default_spoof : Option Bytes → Option Bytes
default_spoof none = some (codes "statsd:statsd")
default_spoof (some spoof) = some spoof

-- Behind the loop: the values that have no option.
abbrev pub with_defaults : Globals → Globals
with_defaults g = record g {
  percentiles = default_percentiles g.percentiles;
  ganglia_spoof = default_spoof g.ganglia_spoof;
}

abbrev pub settled : Option Globals → Result (Option Globals)
settled none = ok none
settled (some g) = ok (some (with_defaults g))

-- The globals after the options, or `none` if the program has ended.
unfoldable pub configure : List ServerOption → Result (Option Globals)
unfolding server_options globals
configure opts = and_then (server_options opts globals) settled

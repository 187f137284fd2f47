-- ===== src/Options/Percentiles.antt =====
-- The percentiles that src/statsd.c is configured with.
use statsd_c.Base.{
  ℕ, zero, suc, ◌+◌, ◌≤◌, ◌<◌, ◌≡◌, ◌∙◌, refl, ap, sym, true, some, List, [], ◌∷◌, ◌++◌, Bytes,
  ◌==◌, ltb, arith, length, length-append, All, Bool-cases, inl, inr,
}
use mathlib.Core.List.{append-nil}
use statsd_c.Exec.{ok, fault, overflow, and_then}
use statsd_c.Strings.Decimal.{ℤ, pos, atol}
use statsd_c.Packet.Tokens.{span, strtok_r}
use statsd_c.Options.{
  ServerOption, opt_help, opt_debug, opt_daemonize, opt_friendly, opt_clear, opt_flush, opt_port,
  opt_mgmt_port, opt_serialize, opt_graphite, opt_graphite_port, opt_ganglia, opt_ganglia_port,
  opt_spoof, opt_prefix, opt_lock_file, opt_percentiles, Globals, globals, cut, percentile_loop,
  server_option, server_options, with_defaults, default_percentiles, settled, configure,
}

span-again : (d : ℕ) (s : Bytes) → span d (span d s).0 ≡ ((span d s).0, [])
unfolding span
span-again d [] = refl
span-again d (c ∷ s) = elim (Bool-cases (c == d)) [
  | inl e ↦ rw e refl
  | inr e ↦ rw e (rw (e, span-again d s) refl)
]

cut-again : (d : ℕ) (s : Bytes) → cut d (cut d s) ≡ cut d s
unfolding cut
cut-again d [] = refl
cut-again d (c ∷ s) = elim (Bool-cases (c == d)) [
  | inl e ↦ rw e (rw e (ap (◌∷◌ c) (cut-again d s)))
  | inr e ↦ rw e (rw (e, span-again d s) refl)
]

strtok_r-cut :
    (d : ℕ) (s : Bytes) {t rest : Bytes}
    → strtok_r d s ≡ some (t, rest)
    → strtok_r d (cut d s) ≡ some (t, [])
unfolding cut strtok_r
strtok_r-cut d [] h = ground arith
strtok_r-cut d (c ∷ s) {t} {rest} h = elim (Bool-cases (c == d)) [
  | inl e ↦ rw e (rw e (strtok_r-cut d s {t = t} {rest = rest} (ground (arith, h, e))))
  | inr e ↦ rw e (rw (e, span-again d s) (ground (arith, h, e)))
]

percentile_loop-fault :
    (fuel : ℕ) (p : Bytes) (ps : List ℤ) {t rest : Bytes}
    → strtok_r b',' p ≡ some (t, rest)
    → length ps ≤ 5
    → 5 < length ps + fuel
    → percentile_loop fuel p ps ≡ fault overflow
unfolding percentile_loop
percentile_loop-fault zero p ps h l f = absurd (omega arith)
percentile_loop-fault (suc fuel) p ps {t} h l f = elim (Bool-cases (ltb (length ps) 5)) [
  | inl e ↦
      rw (h, e, percentile_loop)
        (percentile_loop-fault fuel (cut b',' p) (ps ++ atol t ∷ []) (strtok_r-cut b',' p h)
          (ground (arith, e, length-append ps (atol t ∷ [])))
          (omega (arith, length-append ps (atol t ∷ []))))
  | inr e ↦ rw (h, e, percentile_loop) refl
]

-- Every option but `-h` and `-T`.
abbrev pub IsPlain : ServerOption → Type 0
IsPlain opt_help = ⊥
IsPlain (opt_percentiles optarg) = ⊥
IsPlain _ = Unit

server_option-plain :
    (opt : ServerOption) (g : Globals)
    → IsPlain opt
    → (g' : Globals) × (server_option opt g ≡ ok (some g')) × (g'.percentiles ≡ g.percentiles)
unfolding server_option
server_option-plain opt_help g h = absurd h
server_option-plain opt_debug g h = (record g { debug = true }, refl, refl)
server_option-plain opt_daemonize g h = (record g { daemonize = true }, refl, refl)
server_option-plain opt_friendly g h = (record g { friendly = true }, refl, refl)
server_option-plain opt_clear g h = (record g { clear_stats = true }, refl, refl)
server_option-plain (opt_flush x) g h = (record g { flush_interval = atol x }, refl, refl)
server_option-plain (opt_port x) g h = (record g { port = atol x }, refl, refl)
server_option-plain (opt_mgmt_port x) g h = (record g { mgmt_port = atol x }, refl, refl)
server_option-plain (opt_serialize x) g h = (record g { serialize_file = some x }, refl, refl)
server_option-plain (opt_graphite x) g h =
    (record g { graphite_host = some x; enable_graphite = true }, refl, refl)
server_option-plain (opt_graphite_port x) g h = (record g { graphite_port = atol x }, refl, refl)
server_option-plain (opt_ganglia x) g h =
    (record g { ganglia_host = some x; enable_gmetric = true }, refl, refl)
server_option-plain (opt_ganglia_port x) g h = (record g { ganglia_port = atol x }, refl, refl)
server_option-plain (opt_spoof x) g h = (record g { ganglia_spoof = some x }, refl, refl)
server_option-plain (opt_prefix x) g h = (record g { ganglia_metric_prefix = some x }, refl, refl)
server_option-plain (opt_lock_file x) g h = (record g { lock_file = some x }, refl, refl)
server_option-plain (opt_percentiles x) g h = absurd h

-- Plain options in front of others are carried out, and leave the percentiles.
server_options-plain :
    (opts rest : List ServerOption) (g : Globals)
    → All IsPlain opts
    → (g' : Globals) × (server_options (opts ++ rest) g ≡ server_options rest g')
      × (g'.percentiles ≡ g.percentiles)
unfolding server_options
server_options-plain [] rest g h = (g, refl, refl)
server_options-plain (opt ∷ opts) rest g h =
    let (g₁, e, p) = server_option-plain opt g h.0 in
    let (g₂, f, q) = server_options-plain opts rest g₁ h.1 in (g₂, rw e f, q ∙ p)

configure-server_options :
    (opts : List ServerOption) → configure opts ≡ and_then (server_options opts globals) settled
unfolding configure
configure-server_options opts = refl

-- With every option but `-h` and `-T`, any number of them in any order, the program starts with the
-- 90th percentile and no other.
pub configure-plain :
    (opts : List ServerOption)
    → All IsPlain opts
    → (g : Globals) × (configure opts ≡ ok (some g)) × (g.percentiles ≡ pos 90 ∷ [])
unfolding server_options globals
configure-plain opts h =
    let (g, e, p) = server_options-plain opts [] globals h in
    (
      with_defaults g,
      rw (configure-server_options opts, sym (append-nil opts), e) refl,
      ap default_percentiles p,
    )

percentiles-fault :
    (optarg : Bytes) (rest : List ServerOption) (g : Globals) {t u : Bytes}
    → strtok_r b',' optarg ≡ some (t, u)
    → g.percentiles ≡ []
    → server_options (opt_percentiles optarg ∷ rest) g ≡ fault overflow
unfolding server_options server_option
percentiles-fault optarg rest g f p =
    rw (p, percentile_loop-fault 6 optarg [] f (omega arith) (omega arith)) refl

-- With a `-T` that names a percentile, the program writes past the end of its array of
-- percentiles, whatever options stand in front of it, but `-h` and another `-T`, and behind it.
pub configure-percentiles :
    (opts rest : List ServerOption) (optarg : Bytes) {t u : Bytes}
    → All IsPlain opts
    → strtok_r b',' optarg ≡ some (t, u)
    → configure (opts ++ opt_percentiles optarg ∷ rest) ≡ fault overflow
unfolding globals
configure-percentiles opts rest optarg h f =
    let (g, e, p) = server_options-plain opts (opt_percentiles optarg ∷ rest) globals h in
    rw
      (
        configure-server_options (opts ++ opt_percentiles optarg ∷ rest),
        e,
        percentiles-fault optarg rest g f p,
      )
      refl

-- ===== src/Client.antt =====
-- src/statsd_client.c: the options, and the packet that is sent. `getopt`, the address and the
-- socket are outside: an option is a value, and so is a packet.
pub mod Sent
pub mod Host
pub mod Usage
use statsd_c.Base.{
  ℕ, ◌+◌, Bool, true, false, Option, none, some, List, [], ◌∷◌, ◌++◌, Bytes, codes, replicate,
  if◌then◌else◌,
}
use statsd_c.Exec.{Result, ok, fault, and_then, uninitialised}
use statsd_c.Strings.{print_into}
use statsd_c.Strings.Decimal.{ℤ, pos, negsuc, print_ld, atol}

-- What `getopt` returns, with `optarg`; any other letter is passed over.
pub data ClientOption : Type 0 where
  opt_help opt_performance opt_unknown : ClientOption
  opt_counter opt_timer opt_port opt_sample_rate opt_host opt_value opt_iterations :
      Bytes → ClientOption

-- The local variables of `main`; `value` has none before `-v`.
pub record Settings : Type 0 where
  pub host : Bytes
  pub counter : Option Bytes
  pub timer : Option Bytes
  pub value : Option ℤ
  pub port : ℤ
  pub sample_rate : ℤ
  pub performance_test : Bool
  pub performance_test_iterations : ℤ

unfoldable pub defaults : Settings
defaults = record {
  host = codes "127.0.0.1";
  counter = none;
  timer = none;
  value = none;
  port = pos 8125;
  sample_rate = pos 1;
  performance_test = false;
  performance_test_iterations = pos 10000;
}

-- The `switch (opt)`, or `none` where `main` returns.
unfoldable pub client_option : ClientOption → Settings → Option Settings
client_option opt_help s = none
client_option (opt_counter optarg) s = some (record s { counter = some optarg })
client_option (opt_timer optarg) s = some (record s { timer = some optarg })
client_option (opt_port optarg) s = some (record s { port = atol optarg })
client_option (opt_sample_rate optarg) s = some (record s { sample_rate = atol optarg })
client_option (opt_host optarg) s = some (record s { host = optarg })
client_option (opt_value optarg) s = some (record s { value = some (atol optarg) })
client_option opt_performance s = some (record s { performance_test = true })
client_option (opt_iterations optarg) s =
    some (record s { performance_test_iterations = atol optarg })
client_option opt_unknown s = some s

unfoldable pub client_options : List ClientOption → Settings → Option Settings
unfolding client_option
client_options [] s = some s
client_options (opt ∷ opts) s = elim (client_option opt s) [
  | none ↦ none
  | some s' ↦ client_options opts s'
]

-- "%s:%ld||%d" and "%s:%ld|c"
abbrev pub timer_message : Bytes → ℤ → ℤ → Bytes
timer_message timer value sample_rate =
    timer ++ (b':' ∷ (print_ld value ++ (codes "||" ++ print_ld sample_rate)))

abbrev pub counter_message : Bytes → ℤ → Bytes
counter_message counter value = counter ++ (b':' ∷ (print_ld value ++ codes "|c"))

-- A read of `value`.
abbrev pub value_of : Option ℤ → Result ℤ
value_of none = fault uninitialised
value_of (some value) = ok value

-- The message in `buf` of 1024 bytes, by `timer` and `counter`; `none` stands for the usage text.
unfoldable pub client_message : Option Bytes → Option Bytes → Settings → Result (Option Bytes)
client_message (some timer) (some counter) s = ok none
client_message none none s = ok none
client_message (some timer) none s = and_then (value_of s.value) λ value.
    and_then (print_into 1024 (timer_message timer value s.sample_rate)) λ buf. ok (some buf)
client_message none (some counter) s =
    and_then (value_of s.value)
      λ value. and_then (print_into 1024 (counter_message counter value)) λ buf. ok (some buf)

-- How often the loop of the performance test sends.
abbrev pub times : ℤ → ℕ
times (pos n) = n
times (negsuc n) = 0

abbrev pub sent : Settings → Option Bytes → List Bytes
sent s none = []
sent s (some buf) =
    if s.performance_test then replicate (times s.performance_test_iterations) buf else buf ∷ []

-- `main`: the packets that are sent.
unfoldable pub client_main : List ClientOption → Result (List Bytes)
unfolding client_options client_message defaults
client_main opts = elim (client_options opts defaults) [
  | none ↦ ok []
  | some s ↦ and_then (client_message s.timer s.counter s) λ m. ok (sent s m)
]

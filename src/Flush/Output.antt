-- ===== src/Flush/Output.antt =====
-- What a round of `p_thread_flush` of src/statsd.c reads, and what it writes and sends.
use statsd_c.Base.{
  ℕ, zero, suc, ◌+◌, Bool, ◌&&◌, Option, none, some, List, [], ◌∷◌, ◌++◌, Bytes, if◌then◌else◌,
}
use statsd_c.Strings.Decimal.{ℤ, pos, negsuc}

-- What `send` did: it took so many bytes, it returned -1, or it raised SIGPIPE, as it does on a
-- connection that was refused or closed. Nothing in src/statsd.c handles or blocks that signal.
pub data SendResult : Type 0 where
  taken : ℕ → SendResult
  send_failed sigpipe : SendResult

-- The options that a round reads, and what its system calls returned.
pub record Round : Type 0 where
  pub flush_interval : ℤ
  pub enable_gmetric : Bool
  pub gmetric_opened : Bool
  pub ganglia_metric_prefix : Option Bytes
  pub enable_graphite : Bool
  -- what `inet_pton` and `socket` return
  pub inet_pton : ℤ
  pub socket : ℤ
  -- what `connect` returns, and what `send` does behind a `connect` that returned this
  pub connect : ℤ
  pub send : ℤ → SendResult
  -- `percentiles[0]`
  pub percentile : ℤ
  -- `time(NULL)`, at the start and after sending
  pub ts : ℤ
  pub sent_at : ℤ

-- The fields of `gmetric_message_t` that differ between messages.
pub record Message : Type 0 where
  pub is_double : Bool
  pub group : Bytes
  pub name : Bytes
  pub value : Bytes
  pub units : Bytes

-- `statString`, the messages sent, `numStats`, and the bytes that graphite was sent.
pub record Out : Type 0 where
  pub stat_string : Bytes
  pub messages : List Message
  pub num_stats : ℕ
  pub sent : Option Bytes

-- The socket for graphite, or `none` for `nova`: the address is no IPv4 address, or there is no
-- socket.
unfoldable pub graphite_socket : ℤ → ℤ → Option ℤ
graphite_socket (negsuc n) socket = none
graphite_socket (pos zero) socket = none
graphite_socket (pos (suc n)) (negsuc m) = none
graphite_socket (pos (suc n)) (pos sock) = some (pos sock)

abbrev pub concat : List Bytes → Bytes
concat [] = []
concat (t ∷ ts) = t ++ concat ts

-- `utstring_printf`, if graphite is on.
abbrev pub print_stat : Bool → List Bytes → Out → Out
print_stat graphite parts o = record o {
  stat_string = if graphite then o.stat_string ++ concat parts else o.stat_string;
}

-- One more message sent.
abbrev pub with_message : Bool → Bytes → Bytes → Bytes → Bytes → Out → Out
with_message is_double group name value units o = record o {
  messages =
      o.messages
      ++ record { is_double = is_double; group = group; name = name; value = value; units = units }
        ∷ [];
}

-- Whether ganglia is on in this round: a failed `gmetric_open` switches it off.
abbrev pub gmetric_on : Round → Bool
gmetric_on r = r.enable_gmetric && r.gmetric_opened

abbrev pub prefixed : Option Bytes → Bytes → Bytes
prefixed none key = key
prefixed (some prefix) key = prefix ++ key

abbrev pub one_more : Out → Out
one_more o = record o { num_stats = o.num_stats + 1 }

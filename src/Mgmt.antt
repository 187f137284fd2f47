-- ===== src/Mgmt.antt =====
-- `p_thread_mgmt` of src/statsd.c: the connections of the management port and the answers to the
-- commands. The sockets are outside: an event is what `select` and the calls behind it returned,
-- and what is sent to the event's descriptor is a value.
pub mod Clients
pub mod Answers
use statsd_c.Base.{
  ℕ, ◌+◌, Bool, true, false, ◌&&◌, Option, none, some, List, [], ◌∷◌, ◌++◌, Bytes, ◌==◌, ltb, leb,
  length, codes, if◌then◌else◌,
}
use statsd_c.Base.Assoc.{Assoc}
use statsd_c.Exec.{Result, ok, fault, and_then}
use statsd_c.Strings.{print_into}
use statsd_c.Strings.Decimal.{ℤ, pos, print_ld}
use statsd_c.Platform.{Platform}
use statsd_c.Store.{Stat, Timer, State}

-- The macros MGMT_END, MGMT_BADCOMMAND, MGMT_PROMPT and MGMT_HELP.
abbrev pub mgmt_end : Bytes
mgmt_end = codes "END\n\n"

abbrev pub mgmt_badcommand : Bytes
mgmt_badcommand = codes "ERROR\n"

abbrev pub mgmt_prompt : Bytes
mgmt_prompt = codes "statsd> "

abbrev pub mgmt_help : Bytes
mgmt_help = codes "Commands: stats, counters, timers, quit\n\n"

-- The prompt, in friendly mode.
abbrev pub prompt : Bool → Bytes
prompt friendly = if friendly then mgmt_prompt else []

-- `tolower`
abbrev pub lower : ℕ → ℕ
lower c = if leb b'A' c && leb c b'Z' then c + 32 else c

-- `strncasecmp(buf, word, strlen(word)) == 0`
unfoldable pub begins_with : Bytes → Bytes → Bool
begins_with [] buf = true
begins_with (w ∷ ws) [] = false
begins_with (w ∷ ws) (c ∷ cs) =
    let rest = begins_with ws cs in if lower c == lower w then rest else false

-- `recv` into `buf`: at most as many bytes as it has, and the bytes behind them stay.
unfoldable pub recv_into : Bytes → Bytes → Bytes
recv_into [] buf = buf
recv_into (d ∷ ds) [] = []
recv_into (d ∷ ds) (b ∷ bs) = d ∷ recv_into ds bs

module _ (P : Platform) where
  open P use {Double, LongDouble, print_f, print_lf, hash_items, array_elems}

  -- The macros that print a number into 32 bytes and send it.
  abbrev pub stream_send_long_double : LongDouble → Result Bytes
  stream_send_long_double y = print_into 32 (print_lf y)

  abbrev pub stream_send_double : Double → Result Bytes
  stream_send_double y = print_into 32 (print_f y)

  abbrev pub stream_send_long : ℤ → Result Bytes
  stream_send_long y = print_into 32 (print_ld y)

  abbrev pub stream_send_int : ℕ → Result Bytes
  stream_send_int y = print_into 32 (print_ld (pos y))

  -- The answer to "counters": `KEY: VALUE` in lines. A value is printed into 32 bytes.
  unfoldable pub counter_lines : Assoc LongDouble → Result Bytes
  counter_lines [] = ok []
  counter_lines ((key, value) ∷ rest) = and_then (stream_send_long_double value) λ z.
      and_then (counter_lines rest)
        λ lines. ok (key ++ (codes ": " ++ (z ++ (codes "\n" ++ lines))))

  -- The values of a timer. The comma is sent if the value is the first.
  unfoldable pub timer_values : Bool → List Double → Result Bytes
  timer_values first [] = ok []
  timer_values first (j ∷ js) = and_then (stream_send_double j) λ z.
      and_then (timer_values false js)
        λ values. ok ((if first then codes "," else []) ++ (z ++ values))

  -- The values of a timer that has some.
  unfoldable pub timer_list : Timer P → Result Bytes
  unfolding timer_values
  timer_list t =
      if ltb 0 t.count
      then and_then (timer_values true (array_elems t.values))
          (λ values. ok (codes " [" ++ (values ++ codes "]")))
      else ok []

  -- The answer to "timers".
  unfoldable pub timer_lines : Assoc (Timer P) → Result Bytes
  unfolding timer_list
  timer_lines [] = ok []
  timer_lines ((key, t) ∷ rest) = and_then (stream_send_int t.count) λ z.
      and_then (timer_list t) λ values.
        and_then (timer_lines rest)
          λ lines. ok (key ++ (codes ": " ++ (z ++ (values ++ (codes "\n" ++ lines)))))

  -- A group of one byte is not sent.
  abbrev pub group_prefix : Stat → Bytes
  group_prefix s = if ltb 1 (length s.group_name) then s.group_name ++ codes "." else []

  -- The answer to "stats".
  unfoldable pub stat_lines : Assoc Stat → Result Bytes
  stat_lines [] = ok []
  stat_lines ((name, s) ∷ rest) = and_then (stream_send_long s.value) λ z.
      and_then (stat_lines rest)
        λ lines. ok (group_prefix s ++ (s.key_name ++ (codes ": " ++ (z ++ (codes "\n" ++ lines)))))

  -- A list with its end and the prompt.
  abbrev pub finished : Bool → Result Bytes → Result (Option Bytes)
  finished friendly lines = and_then lines λ t. ok (some (t ++ (mgmt_end ++ prompt friendly)))

  -- What a client is sent for its data, or `none` if it is disconnected.
  unfoldable pub answer : Bool → State P → Bytes → Result (Option Bytes)
  answer friendly s buf =
      if begins_with (codes "help") buf
      then ok (some (mgmt_help ++ prompt friendly))
      else if begins_with (codes "counters") buf
      then finished friendly (counter_lines (hash_items LongDouble s.counters))
      else if begins_with (codes "timers") buf
      then finished friendly (timer_lines (hash_items (Timer P) s.timers))
      else if begins_with (codes "stats") buf
      then finished friendly (stat_lines (hash_items Stat s.stats))
      else if begins_with (codes "quit") buf
      then ok none
      else ok (some (mgmt_badcommand ++ prompt friendly))

-- `master`, `fdmax` and `buf`.
pub record Mgmt : Type 0 where
  pub master : ℕ → Bool
  pub fdmax : ℕ
  pub buf : Bytes

abbrev pub fd_set : ℕ → (ℕ → Bool) → ℕ → Bool
fd_set fd set i = if i == fd then true else set i

abbrev pub fd_clr : ℕ → (ℕ → Bool) → ℕ → Bool
fd_clr fd set i = if i == fd then false else set i

-- What a ready descriptor meets: a new connection, a failing `accept`, a client that hung up or
-- whose `recv` failed, and a client's data.
pub data MgmtEvent : Type 0 where
  accepted : ℕ → MgmtEvent
  accept_error : MgmtEvent
  recv_ended : ℕ → MgmtEvent
  recv_data : ℕ → Bytes → MgmtEvent

-- Before the loop: the listening socket alone, and whatever the stack holds in `buf`.
unfoldable pub mgmt_start : ℕ → Bytes → Mgmt
mgmt_start stats_mgmt_socket buf = record {
  master = fd_set stats_mgmt_socket (λ i. false);
  fdmax = stats_mgmt_socket;
  buf = buf;
}

abbrev pub disconnect : ℕ → Mgmt → Mgmt
disconnect fd m = record m { master = fd_clr fd m.master }

abbrev pub connect : ℕ → Mgmt → Mgmt
connect fd m = record m {
  master = fd_set fd m.master;
  fdmax = if ltb m.fdmax fd then fd else m.fdmax;
}

-- The client stays, or goes with "quit".
abbrev pub answered : ℕ → Mgmt → Option Bytes → Bytes × Mgmt
answered fd m none = ([], disconnect fd m)
answered fd m (some text) = (text, m)

module _ (P : Platform) where
  -- The body of the loop over the descriptors at one that is ready.
  unfoldable pub mgmt_step : Bool → State P → MgmtEvent → Mgmt → Result (Bytes × Mgmt)
  mgmt_step friendly s (accepted newfd) m = ok (prompt friendly, connect newfd m)
  mgmt_step friendly s accept_error m = ok ([], m)
  mgmt_step friendly s (recv_ended fd) m = ok ([], disconnect fd m)
  mgmt_step friendly s (recv_data fd bytes) m =
      let m' : Mgmt = record m { buf = recv_into bytes m.buf } in
      and_then (answer P friendly s m'.buf) λ a. ok (answered fd m' a)

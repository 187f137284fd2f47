-- ===== src/Packet.antt =====
-- `process_stats_packet` of src/statsd.c: the line format `key:value|type|@rate:value|type`.
-- `strtok_r` on the buffer and on a token is Packet/Tokens; what the body writes into a token lies
-- in front of the place where `strtok_r` goes on.
pub mod Tokens
pub mod Report
pub mod Split
pub mod Refine
pub mod Effect
pub mod Faults
pub mod Long
use statsd_c.Base.{
  ℕ, ◌+◌, Bool, true, false, ◌&&◌, Option, none, some, List, [], ◌∷◌, Bytes, ◌==◌, ltb, leb, length,
  codes, if◌then◌else◌,
}
use statsd_c.Exec.{
  Result, Exec, ok, fault, pure, raise, uninitialised, use_after_free, null_pointer, overflow,
  check, ◌>>=◌, ◌>>◌,
}
use statsd_c.Strings.{sanitize_key, sanitize_value, sanitize_gaugevalue}
use statsd_c.Strings.Decimal.{ℤ, print_ld}
use statsd_c.Platform.{Platform}
use statsd_c.Store.{State}
use statsd_c.Store.Update.{update_counter, update_gauge_plusminus, update_timer, update_stat}
use Tokens.{tokens}

-- The pointer `charvalue`, which is declared outside the loop over the tokens: never set, at a
-- string, or at memory that was freed.
pub data CharValue : Type 0 where
  unset : CharValue
  live : Bytes → CharValue
  freed : CharValue

-- The variables of one token.
pub record Fields : Type 0 where
  pub charvalue : CharValue
  pub is_timer : Bool
  pub is_gauge : Bool
  pub s_sample_rate : Option Bytes

abbrev pub no_fields : CharValue → Fields
no_fields v = record { charvalue = v; is_timer = false; is_gauge = false; s_sample_rate = none }

-- `strstr(token, "|") != NULL`
unfoldable pub has_pipe : Bytes → Bool
has_pipe [] = false
has_pipe (c ∷ cs) = let rest = has_pipe cs in if c == b'|' then true else rest

-- `case 2`
unfoldable pub field_type : Bytes → Fields → Fields
field_type [] f = record f { is_timer = false }
field_type (c ∷ []) f = record f {
  is_timer = false;
  is_gauge = if c == b'g' then true else f.is_gauge;
}
field_type (c ∷ d ∷ _) f =
    if c == b'm' && d == b's' then record f { is_timer = true; is_gauge = false } else f

-- The `switch (j)`.
unfoldable pub field_case : ℕ → Bytes → Fields → Fields
unfolding field_type
field_case j subtoken f =
    if j == 1
    then record f { charvalue = live (sanitize_gaugevalue subtoken) }
    else if j == 2
    then field_type subtoken f
    else if j == 3
    then record f { s_sample_rate = some subtoken }
    else f

-- The loop over the fields of a token.
unfoldable pub field_loop : ℕ → List Bytes → Fields → Fields
unfolding field_case
field_loop j [] f = f
field_loop j (subtoken ∷ rest) f = field_loop (j + 1) rest (field_case j subtoken f)

-- The fields of a token. A token with no pipe sets none: its number goes to `value`, which every
-- branch below overwrites before it is read.
unfoldable pub token_fields : Bytes → CharValue → Fields
unfolding field_loop has_pipe
token_fields token v =
    if has_pipe token then field_loop 1 (tokens b'|' token) (no_fields v) else no_fields v

module _ (P : Platform) where
  open P use {Double, of_nat, strtod}

  -- A read through `charvalue`.
  abbrev pub deref : CharValue → Exec (State P) Bytes
  deref unset = raise uninitialised
  deref (live v) = pure v
  deref freed = raise use_after_free

  -- The sample rate of a counter, 1.0 unless the third field begins with `@`.
  unfoldable pub rate_of : Option Bytes → Double
  rate_of none = of_nat 1
  rate_of (some []) = of_nat 1
  rate_of (some (c ∷ rate)) = if c == b'@' then strtod rate else of_nat 1

  -- The branch for a gauge, by the first byte of `charvalue`.
  unfoldable pub gauge_report : Bytes → Bytes → Exec (State P) (Unit {0})
  gauge_report key_name [] = update_gauge_plusminus P key_name (strtod (sanitize_value [])) 0
  gauge_report key_name (c ∷ v) =
      if c == b'-'
      then update_gauge_plusminus P key_name (strtod (sanitize_value v)) 1
      else if c == b'+'
      then update_gauge_plusminus P key_name (strtod (sanitize_value v)) 2
      else update_gauge_plusminus P key_name (strtod (sanitize_value (c ∷ v))) 0

  -- The three branches behind "Post token processing", at the string of `charvalue`: what is
  -- reported, and `charvalue` after it.
  timer_token : Bytes → Bytes → Exec (State P) CharValue
  timer_token key_name v = do
    update_timer P key_name (strtod (sanitize_value v))
    pure (live (sanitize_value v))

  gauge_token : Bytes → Bytes → Exec (State P) CharValue
  unfolding gauge_report
  gauge_token key_name v = do gauge_report key_name v; pure freed

  counter_token : Bytes → Option Bytes → Bytes → Exec (State P) CharValue
  unfolding rate_of
  counter_token key_name s_sample_rate v = do
    update_counter P key_name (strtod (sanitize_value v)) (rate_of s_sample_rate)
    pure (live (sanitize_value v))

  token_branch : Bytes → Fields → Bytes → Exec (State P) CharValue
  unfolding timer_token gauge_token counter_token
  token_branch key_name f v =
      if f.is_timer
      then timer_token key_name v
      else if f.is_gauge
      then gauge_token key_name v
      else counter_token key_name f.s_sample_rate v

  unfoldable pub post_token : Bytes → Fields → Exec (State P) CharValue
  unfolding token_branch
  post_token key_name f = do v ← deref f.charvalue; token_branch key_name f v

  -- The loop over the tokens behind the key.
  unfoldable pub value_loop : Bytes → CharValue → List Bytes → Exec (State P) (Unit {0})
  value_loop key_name v [] = pure tt
  value_loop key_name v (token ∷ rest) = do
    v' ← post_token key_name (token_fields token v)
    value_loop key_name v' rest

  -- The loop over all tokens with what follows it. With no token `key_name` is still NULL in the
  -- call of `update_counter`.
  unfoldable pub process_tokens : List Bytes → Exec (State P) (Unit {0})
  process_tokens [] = raise null_pointer
  process_tokens (key ∷ []) = update_counter P (sanitize_key key) (of_nat 1) (of_nat 1)
  process_tokens (key ∷ token ∷ rest) = value_loop (sanitize_key key) unset (token ∷ rest)

  -- `sprintf` into a local buffer of `size` bytes.
  abbrev pub sprintf_into : ℕ → Bytes → Exec (State P) (Unit {0})
  sprintf_into size text = check (leb (length text + 1) size) overflow

  -- `UPDATE_LAST_MSG_SEEN()` at the time `now`.
  unfoldable pub update_last_msg_seen : ℤ → Exec (State P) (Unit {0})
  update_last_msg_seen now = do
    sprintf_into 32 (print_ld now)
    update_stat P (codes "messages") (codes "last_msg_seen") (print_ld now)

  unfoldable pub process_stats_packet : ℤ → Bytes → Exec (State P) (Unit {0})
  process_stats_packet now buf_in =
      if ltb (length buf_in) 2
      then update_last_msg_seen now
      else process_tokens (tokens b':' buf_in) >> update_last_msg_seen now

-- ===== src/Serialize.antt =====
-- `statsd_serialize` of src/serialize.c: the tables as a JSON text. The file is outside: the text
-- is a value.
pub mod Load
pub mod Counters
pub mod Overflow
pub mod Kind
pub mod Reading
pub mod Tables
pub mod Document
pub mod Whole
pub mod Restored
use statsd_c.Base.{
  ℕ, ◌+◌, ◌-◌, ◌%◌, ◌^◌, Bool, true, false, Option, none, some, List, [], ◌∷◌, ◌++◌, Bytes, ◌==◌,
  ltb, leb, length, codes, if◌then◌else◌,
}
use statsd_c.Base.Assoc.{Assoc}
use statsd_c.Exec.{
  Exec, Result, ok, fault, pure, raise, gets, modify, check, lift, and_then, overflow, null_pointer,
  bad_json, ◌>>=◌, ◌>>◌,
}
use statsd_c.Strings.{print_into}
use statsd_c.Strings.Decimal.{ℤ, pos, negsuc}
use statsd_c.Platform.{
  Platform, JsonType, json_object, json_array, json_other, Parsed, parsed_null, error_ptr, parsed,
}
use statsd_c.Store.{
  Stat, Timer, State, strcpy_key, stat_name, key_size, wait_for_stats_lock, remove_stats_lock,
  wait_for_counters_lock, remove_counters_lock, wait_for_gauges_lock, remove_gauges_lock,
  wait_for_timers_lock, remove_timers_lock,
}
use statsd_c.Worker.{c_string}

-- A `long` as the argument of `json_object_new_int`: its lower 32 bits, with the sign.
abbrev pub to_int : ℤ → ℤ
to_int (pos n) =
    if ltb (n % 2 ^ 32) (2 ^ 31) then pos (n % 2 ^ 32) else negsuc (2 ^ 32 - 1 - n % 2 ^ 32)
to_int (negsuc n) =
    if ltb (n % 2 ^ 32) (2 ^ 31) then negsuc (n % 2 ^ 32) else pos (2 ^ 32 - 1 - n % 2 ^ 32)

-- The bytes that `malloc` gives for `tmpkey`: the size of the conditional's type, a `size_t`.
abbrev pub tmpkey_size : ℕ
tmpkey_size = 8

module _ (P : Platform) where
  open P use {
    Double, LongDouble, Json, narrow, hash_items, array_elems, json_new_object, json_object_add,
    json_new_array, json_array_add, json_new_int, json_new_double, json_to_string,
  }

  -- "%s.%s" into `tmpkey`; the name of the group is an array, so that the other branch never runs.
  unfoldable pub serialize_stats : Assoc Stat → Json → Result Json
  serialize_stats [] obj = ok obj
  serialize_stats ((name, s) ∷ rest) obj =
      and_then (print_into tmpkey_size (s.group_name ++ (codes "." ++ s.key_name))) (λ tmpkey.
        serialize_stats rest (json_object_add obj tmpkey (json_new_int (to_int s.value))))

  unfoldable pub serialize_values : List Double → Json → Json
  serialize_values [] array = array
  serialize_values (d ∷ ds) array = serialize_values ds (json_array_add array (json_new_double d))

  unfoldable pub serialize_timers : Assoc (Timer P) → Json → Json
  unfolding serialize_values
  serialize_timers [] obj = obj
  serialize_timers ((key, t) ∷ rest) obj =
      serialize_timers rest
        (json_object_add obj key (serialize_values (array_elems t.values) json_new_array))

  -- The loops over the counters and over the gauges.
  unfoldable pub serialize_doubles : Assoc LongDouble → Json → Json
  serialize_doubles [] obj = obj
  serialize_doubles ((key, value) ∷ rest) obj =
      serialize_doubles rest (json_object_add obj key (json_new_double (narrow value)))

  -- The four blocks, each under its lock; the first has its loop in a definition of its own.
  unfoldable pub stats_items : Assoc Stat → Exec (State P) Json
  stats_items items = do
    obj ← lift (serialize_stats items json_new_object)
    remove_stats_lock P
    pure obj

  unfoldable pub stats_object : Exec (State P) Json
  stats_object = do
    wait_for_stats_lock P
    items ← gets (λ s. hash_items Stat s.stats)
    stats_items items

  unfoldable pub timers_object : Exec (State P) Json
  timers_object = do
    wait_for_timers_lock P
    items ← gets (λ s. hash_items (Timer P) s.timers)
    remove_timers_lock P
    pure (serialize_timers items json_new_object)

  unfoldable pub counters_object : Exec (State P) Json
  counters_object = do
    wait_for_counters_lock P
    items ← gets (λ s. hash_items LongDouble s.counters)
    remove_counters_lock P
    pure (serialize_doubles items json_new_object)

  unfoldable pub gauges_object : Exec (State P) Json
  gauges_object = do
    wait_for_gauges_lock P
    items ← gets (λ s. hash_items LongDouble s.gauges)
    remove_gauges_lock P
    pure (serialize_doubles items json_new_object)

  abbrev pub whole_object : Json → Json → Json → Json → Json
  whole_object stats timers counters gauges =
      let o₁ = json_object_add json_new_object (codes "stats") stats in
      let o₂ = json_object_add o₁ (codes "timers") timers in
      let o₃ = json_object_add o₂ (codes "gauges") gauges in
      json_object_add o₃ (codes "counters") counters

  -- The text that is written, or `none` if the file cannot be opened.
  unfoldable pub statsd_serialize : Bool → Exec (State P) (Option Bytes)
  unfolding timers_object counters_object gauges_object
  statsd_serialize opened = do
    stats ← stats_object
    timers ← timers_object
    counters ← counters_object
    gauges ← gauges_object
    pure
        (if opened then some (json_to_string (whole_object stats timers counters gauges)) else none)

-- ===== src/Json.antt =====
-- `process_json_stats_packet` and `process_json_stats_object` of src/statsd.c. json-c is a parameter:
-- its calls follow pointers without a look at them, so a NULL or an error pointer, and a value that
-- is no object, are faults here.
pub mod Effect
use statsd_c.Base.{
  ℕ, Bool, true, false, Option, none, some, List, [], ◌∷◌, Bytes, ltb, length, codes, if◌then◌else◌,
}
use statsd_c.Exec.{Exec, ok, pure, raise, null_pointer, bad_json, ◌>>=◌, ◌>>◌}
use statsd_c.Strings.{sanitize_key}
use statsd_c.Strings.Decimal.{ℤ}
use statsd_c.Platform.{
  Platform, JsonType, json_object, json_array, json_other, Parsed, parsed_null, error_ptr, parsed,
}
use statsd_c.Store.{State}
use statsd_c.Store.Update.{update_counter, update_timer}
use statsd_c.Packet.{update_last_msg_seen}

module _ (P : Platform) where
  open P use {
    Double, Json, of_nat, json_tokener_parse, json_get_type, json_object_get, json_array_items,
    json_get_string, json_get_double,
  }

  -- The sample rate: 0 if there is no such member.
  abbrev pub json_rate : Option Json → Double
  json_rate none = of_nat 0
  json_rate (some r) = json_get_double r

  -- The branch for a timer, by its "value".
  json_timer : Json → Option Json → Exec (State P) (Unit {0})
  json_timer timer_obj none = pure tt
  json_timer timer_obj (some value_obj) =
      update_timer P (sanitize_key (json_get_string timer_obj)) (json_get_double value_obj)

  -- The branch for a counter, by its "value" and "sample_rate".
  json_counter : Json → Option Json → Option Json → Exec (State P) (Unit {0})
  json_counter counter_obj none sample_rate_obj = pure tt
  json_counter counter_obj (some value_obj) sample_rate_obj =
      update_counter P (sanitize_key (json_get_string counter_obj)) (json_get_double value_obj)
        (json_rate sample_rate_obj)

  -- By the members "timer" and "counter"; NULL is `none`.
  json_members : Json → Option Json → Option Json → Exec (State P) (Unit {0})
  unfolding json_timer json_counter
  json_members sobj (some timer_obj) (some counter_obj) = pure tt
  json_members sobj (some timer_obj) none =
      json_timer timer_obj (json_object_get sobj (codes "value"))
  json_members sobj none (some counter_obj) =
      json_counter counter_obj (json_object_get sobj (codes "value"))
        (json_object_get sobj (codes "sample_rate"))
  json_members sobj none none = pure tt

  -- What `json_object_object_get` finds at a value of another type.
  json_typed : Json → JsonType → Exec (State P) (Unit {0})
  unfolding json_members
  json_typed sobj json_object =
      json_members sobj (json_object_get sobj (codes "timer"))
        (json_object_get sobj (codes "counter"))
  json_typed sobj _ = raise bad_json

  unfoldable pub process_json_stats_object : Option Json → Exec (State P) (Unit {0})
  unfolding json_typed
  process_json_stats_object none = raise null_pointer
  process_json_stats_object (some sobj) = json_typed sobj (json_get_type sobj)

  -- The loop over the elements of an array.
  unfoldable pub json_elements : List (Option Json) → Exec (State P) (Unit {0})
  json_elements [] = pure tt
  json_elements (sobj ∷ rest) = do process_json_stats_object sobj; json_elements rest

  json_by_type : Json → JsonType → Exec (State P) (Unit {0})
  json_by_type obj json_object = process_json_stats_object (some obj)
  json_by_type obj json_array = json_elements (json_array_items obj)
  json_by_type obj json_other = pure tt

  -- The test `!obj` does not see json-c's error pointer, and `json_object_get_type` reads through
  -- it.
  json_parsed : Parsed Json → Exec (State P) (Unit {0})
  unfolding json_by_type
  json_parsed parsed_null = pure tt
  json_parsed error_ptr = raise bad_json
  json_parsed (parsed obj) = json_by_type obj (json_get_type obj)

  unfoldable pub process_json_stats_packet : ℤ → Bytes → Exec (State P) (Unit {0})
  unfolding json_parsed
  process_json_stats_packet now buf_in =
      if ltb (length buf_in) 2
      then update_last_msg_seen P now
      else json_parsed (json_tokener_parse buf_in)

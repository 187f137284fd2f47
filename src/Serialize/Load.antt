-- ===== src/Serialize/Load.antt =====
-- `statsd_deserialize` of src/serialize.c: the tables from a JSON text. The file is outside: `none`
-- is a file that cannot be opened or read.
use statsd_c.Base.{
  ◌+◌, Bool, true, false, Option, none, some, List, [], ◌∷◌, ◌++◌, Bytes, ◌==◌, ltb, leb, length,
  codes, if◌then◌else◌,
}
use statsd_c.Base.Assoc.{Assoc}
use statsd_c.Exec.{Exec, pure, raise, modify, check, overflow, null_pointer, bad_json, ◌>>=◌, ◌>>◌}
use statsd_c.Strings.Decimal.{ℤ, pos}
use statsd_c.Platform.{
  Platform, json_object, json_array, json_other, Parsed, parsed_null, error_ptr, parsed,
}
use statsd_c.Store.{
  Stat, Timer, State, strcpy_key, stat_name, key_size, wait_for_stats_lock, remove_stats_lock,
  wait_for_counters_lock, remove_counters_lock, wait_for_gauges_lock, remove_gauges_lock,
  wait_for_timers_lock, remove_timers_lock,
}
use statsd_c.Worker.{c_string}

-- `strchr(key, '.')`: the text in front of it and behind it.
unfoldable pub at_period : Bytes → Option (Bytes × Bytes)
at_period [] = none
at_period (c ∷ cs) =
    let rest = at_period cs in
    if c == b'.' then some ([], cs) else elim rest [ none ↦ none | some (g, k) ↦ some (c ∷ g, k) ]

module _ (P : Platform) where
  open P use {
    Double, LongDouble, Json, widen, of_nat, hash_add, array_new, array_push_back,
    json_tokener_parse, json_get_type, json_object_get, json_array_items, json_get_double,
    json_get_int, json_members_of,
  }

  -- `json_object_get_double` and `json_object_get_int` of a member, 0 for NULL.
  abbrev pub double_member : Option Json → Double
  double_member none = of_nat 0
  double_member (some val) = json_get_double val

  abbrev pub int_member : Option Json → ℤ
  int_member none = pos 0
  int_member (some val) = json_get_int val

  -- The body of the loop over the counters in the file.
  unfoldable pub load_counter : Bytes → Option Json → Exec (State P) (Unit {0})
  load_counter key val = do
    strcpy_key P key
    wait_for_counters_lock P
    modify
        λ s. record s { counters = hash_add LongDouble key (widen (double_member val)) s.counters }
    remove_counters_lock P

  unfoldable pub deserialize_counters : Assoc (Option Json) → Exec (State P) (Unit {0})
  deserialize_counters [] = pure tt
  deserialize_counters ((key, val) ∷ rest) = do load_counter key val; deserialize_counters rest

  unfoldable pub load_gauge : Bytes → Option Json → Exec (State P) (Unit {0})
  load_gauge key val = do
    strcpy_key P key
    wait_for_gauges_lock P
    modify λ s. record s { gauges = hash_add LongDouble key (widen (double_member val)) s.gauges }
    remove_gauges_lock P

  unfoldable pub deserialize_gauges : Assoc (Option Json) → Exec (State P) (Unit {0})
  unfolding load_gauge
  deserialize_gauges [] = pure tt
  deserialize_gauges ((key, val) ∷ rest) = do load_gauge key val; deserialize_gauges rest

  -- The elements of a timer's array; NULL and another type are followed all the same.
  abbrev pub timer_elements : Option Json → Exec (State P) (List (Option Json))
  timer_elements none = raise null_pointer
  timer_elements (some val) = elim (json_get_type val) [
    | json_array ↦ pure (json_array_items val)
    | json_object ↦ raise bad_json
    | json_other ↦ raise bad_json
  ]

  unfoldable pub push_all : List (Option Json) → P.Array → P.Array
  push_all [] values = values
  push_all (d ∷ ds) values = push_all ds (array_push_back (double_member d) values)

  unfoldable pub load_timer : Bytes → Option Json → Exec (State P) (Unit {0})
  unfolding push_all
  load_timer key val = do
    strcpy_key P key
    ds ← timer_elements val
    wait_for_timers_lock P
    modify λ s. record s {
      timers =
          hash_add (Timer P) key (record { count = length ds; values = push_all ds array_new })
            s.timers;
    }
    remove_timers_lock P

  unfoldable pub deserialize_timers : Assoc (Option Json) → Exec (State P) (Unit {0})
  unfolding load_timer
  deserialize_timers [] = pure tt
  deserialize_timers ((key, val) ∷ rest) = do load_timer key val; deserialize_timers rest

  -- The rest of `load_stat`, when the name is in place.
  unfoldable pub add_stat : Bytes → Bytes → Bytes → ℤ → Exec (State P) (Unit {0})
  add_stat name group key value = do
    wait_for_stats_lock P
    modify λ s. record s {
      stats =
          hash_add Stat name
            (record { group_name = group; key_name = key; value = value; locked = false }) s.stats;
    }
    remove_stats_lock P

  -- A group of 100 bytes leaves no room for its NUL, and is read on into the key.
  abbrev pub group_text : Bytes → Bytes → Bytes
  group_text group key = if leb key_size (length group) then group ++ key else group

  -- The name is split at its first period: `strncpy` writes the group without a NUL, and two bytes
  -- more than the key has.
  unfoldable pub load_stat_split : Bytes → Option (Bytes × Bytes) → ℤ → Exec (State P) (Unit {0})
  load_stat_split name none value = do strcpy_key P name; add_stat (stat_name [] name) [] name value
  load_stat_split name (some (group, key)) value = do
    check (leb (length group) key_size) overflow
    check (leb (length key + 2) key_size) overflow
    add_stat (stat_name group key) (group_text group key) key value

  unfoldable pub deserialize_stats : Assoc (Option Json) → Exec (State P) (Unit {0})
  unfolding at_period
  deserialize_stats [] = pure tt
  deserialize_stats ((key, val) ∷ rest) = do
    load_stat_split key (at_period key) (int_member val)
    deserialize_stats rest

  -- `json_object_object_foreach` over a member of the document, which follows a NULL.
  abbrev pub members_at : Json → Bytes → Exec (State P) (Assoc (Option Json))
  members_at obj name = elim (json_object_get obj name) [
    | none ↦ raise null_pointer
    | some o ↦ elim (json_get_type o) [
      | json_object ↦ pure (json_members_of o)
      | json_array ↦ raise null_pointer
      | json_other ↦ raise null_pointer
    ]
  ]

  unfoldable pub deserialize_object : Json → Exec (State P) (Unit {0})
  deserialize_object obj = do
    stats ← members_at obj (codes "stats")
    deserialize_stats stats
    timers ← members_at obj (codes "timers")
    deserialize_timers timers
    gauges ← members_at obj (codes "gauges")
    deserialize_gauges gauges
    counters ← members_at obj (codes "counters")
    deserialize_counters counters

  -- What `json_tokener_parse` returned is not looked at.
  unfoldable pub deserialize_parsed : Parsed Json → Exec (State P) Bool
  deserialize_parsed parsed_null = raise null_pointer
  deserialize_parsed error_ptr = raise bad_json
  deserialize_parsed (parsed obj) = elim (json_get_type obj) [
    | json_object ↦ deserialize_object obj >> pure true
    | json_array ↦ raise bad_json
    | json_other ↦ raise bad_json
  ]

  -- A file of less than ten bytes is passed over.
  unfoldable pub statsd_deserialize : Option Bytes → Exec (State P) Bool
  unfolding deserialize_parsed
  statsd_deserialize none = pure false
  statsd_deserialize (some text) =
      if ltb (length text) 10
      then pure false
      else deserialize_parsed (json_tokener_parse (c_string text))

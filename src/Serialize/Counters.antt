-- ===== src/Serialize/Counters.antt =====
-- The counters of src/serialize.c, written and read back, whatever the other tables are.
use statsd_c.Base.{◌<◌, ◌≡◌, ◌∙◌, refl, sym, ap, true, Option, [], ◌++◌, All}
use statsd_c.Base.Assoc.{Assoc, Distinct, map_values}
use statsd_c.Exec.{ok}
use statsd_c.Platform.{Platform}
use statsd_c.Platform.Laws.{HashLaws, JsonLaws}
use statsd_c.Store.{State, fits_key}
use statsd_c.Serialize.{serialize_doubles}
use statsd_c.Serialize.Load.{deserialize_counters}
use statsd_c.Serialize.Reading.{load_members-Kept}
use statsd_c.Serialize.Tables.{counters_kind, serialize_doubles-counters}

module _ (P : Platform) where
  open P use {LongDouble, Json, narrow, widen, json_members_of, hash_items}

  -- `double` and back to `long double`.
  abbrev pub rounded : Assoc LongDouble → Assoc LongDouble
  rounded = map_values (λ v. widen (narrow v))

  -- What loading the counters leaves behind.
  pub record Loaded (cs : Assoc LongDouble) (members : Assoc (Option Json)) (s : State P)
      : Type 0 where
    pub after : State P
    pub returns : deserialize_counters P members s ≡ ok (tt, after)
    pub items :
        hash_items LongDouble after.counters ≡ hash_items LongDouble s.counters ++ rounded cs
    pub others : after ≡ record s { counters = after.counters }

  -- Counters that are written and then read into an empty table are in it again, in the same order
  -- under the same names, each value rounded to a `double`, and nothing else changes. The names
  -- differ and fit their fields, and the lock is free.
  pub serialize_doubles-Loaded :
      (H : HashLaws P) (L : JsonLaws P) (cs : Assoc LongDouble) (s : State P)
      → Distinct cs
      → hash_items LongDouble s.counters ≡ []
      → All (λ e. fits_key e.0 ≡ true) cs
      → 0 < s.locks.counters_lock
      → Loaded cs (json_members_of (serialize_doubles P cs P.json_new_object)) s
  unfolding counters_kind
  serialize_doubles-Loaded H L cs s d e f free =
      let k = load_members-Kept (counters_kind L) H L cs s f d e free in
      record {
        after = record s { counters = k.after };
        returns =
            ap (λ j. deserialize_counters P (json_members_of j) s)
              (serialize_doubles-counters L cs P.json_new_object)
            ∙ k.returns;
        items = k.items ∙ ap (λ l. l ++ rounded cs) (sym e);
        others = refl;
      }

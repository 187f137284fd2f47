-- ===== src/Platform/Laws.antt =====
-- The documented behaviour of uthash, utarray and json-c that the theorems rely on, as hypotheses.
use statsd_c.Base.{◌≡◌, true, false, Option, none, some, [], ◌∷◌, ◌++◌, Bytes}
use mathlib.Core.List.{Perm}
use statsd_c.Strings.Decimal.{ℤ}
use statsd_c.Base.Assoc.{lookup, replace, Absent}
use statsd_c.Platform.{Platform, json_object, json_array}

-- A table behaves as the list of its items in the order in which they were added. HASH_ADD wants
-- a key that is not in the table.
pub record HashLaws (P : Platform) : Type 1 where
  pub items-empty : (V : Type 0) → P.hash_items V (P.hash_empty V) ≡ []
  pub items-add :
      (V : Type 0) (k : Bytes) (v : V) (t : P.Table V)
      → P.hash_find V k t ≡ none
      → P.hash_items V (P.hash_add V k v t) ≡ P.hash_items V t ++ (k, v) ∷ []
  pub items-write :
      (V : Type 0) (k : Bytes) (v : V) (t : P.Table V)
      → P.hash_items V (P.hash_write V k v t) ≡ replace k v (P.hash_items V t)
  pub find-items :
      (V : Type 0) (k : Bytes) (t : P.Table V) → P.hash_find V k t ≡ lookup k (P.hash_items V t)

-- An array behaves as the list of its elements.
pub record ArrayLaws (P : Platform) : Type 0 where
  pub elems-new : P.array_elems P.array_new ≡ []
  pub elems-push_back :
      (d : P.Double) (a : P.Array)
      → P.array_elems (P.array_push_back d a) ≡ P.array_elems a ++ d ∷ []
  pub elems-clear : (a : P.Array) → P.array_elems (P.array_clear a) ≡ []

-- `utarray_sort`, so `qsort`, changes the order of the elements only.
pub record SortLaws (P : Platform) : Type 0 where
  pub elems-sort :
      (compare : P.Double → P.Double → ℤ) (a : P.Array)
      → Perm (P.array_elems (P.array_sort compare a)) (P.array_elems a)

-- What json_object_object_get makes of a lookup: NULL for a member that is missing or NULL.
abbrev pub present {ℓ} : {A : Type ℓ} → Option (Option A) → Option A
present none = none
present (some v) = v

-- A new object holds the members that were added under names it did not have, in their order, an
-- array its elements, and a number is read back.
pub record JsonLaws (P : Platform) : Type 0 where
  pub members-new : P.json_members_of P.json_new_object ≡ []
  pub members-add :
      (o : P.Json) (k : Bytes) (v : P.Json)
      → Absent k (P.json_members_of o)
      → P.json_members_of (P.json_object_add o k v) ≡ P.json_members_of o ++ (k, some v) ∷ []
  pub double-new : (d : P.Double) → P.json_get_double (P.json_new_double d) ≡ d
  pub type-new_object : P.json_get_type P.json_new_object ≡ json_object
  pub type-object_add :
      (o : P.Json) (k : Bytes) (v : P.Json)
      → P.json_get_type o ≡ json_object
      → P.json_get_type (P.json_object_add o k v) ≡ json_object
  pub get-members :
      (o : P.Json) (k : Bytes)
      → P.json_get_type o ≡ json_object
      → P.json_object_get o k ≡ present (lookup k (P.json_members_of o))
  pub type-new_array : P.json_get_type P.json_new_array ≡ json_array
  pub items-new : P.json_array_items P.json_new_array ≡ []
  pub type-array_add :
      (a v : P.Json)
      → P.json_get_type a ≡ json_array
      → P.json_get_type (P.json_array_add a v) ≡ json_array
  pub items-array_add :
      (a v : P.Json)
      → P.json_get_type a ≡ json_array
      → P.json_array_items (P.json_array_add a v) ≡ P.json_array_items a ++ some v ∷ []

-- The comparison of numbers that are no NaN, such as `strtod` makes of digits and points: a strict
-- order in which what is not below is above or equal.
pub record OrderLaws (P : Platform) : Type 0 where
  pub lt_irrefl : (a : P.Double) → P.lt_double a a ≡ false
  pub lt_asymm : (a b : P.Double) → P.lt_double a b ≡ true → P.lt_double b a ≡ false
  pub not_lt_trans :
      (a b c : P.Double)
      → P.lt_double a b ≡ false
      → P.lt_double b c ≡ false
      → P.lt_double a c ≡ false

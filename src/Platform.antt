-- ===== src/Platform.antt =====
-- What the program calls and does not implement: floating point, uthash's tables, utarray's
-- arrays, json-c. The operations are parameters of the model; `HashLaws` and `ArrayLaws` say what
-- is documented of the containers, in terms of the items in the order of insertion.
pub mod Laws
use statsd_c.Base.{ℕ, Bool, List, Option, Bytes}
use statsd_c.Strings.Decimal.{ℤ}

-- `json_object_get_type`
pub data JsonType : Type 0 where
  json_object json_array json_other : JsonType

-- What `json_tokener_parse` returns: NULL (for the text "null"), an object, or json-c's error
-- pointer, which is not NULL.
pub data Parsed (Json : Type 0) : Type 0 where
  parsed_null error_ptr : Parsed Json
  parsed : Json → Parsed Json

pub record Platform : Type 1 where
  -- `double`
  pub Double : Type 0
  pub of_nat : ℕ → Double
  pub of_int : ℤ → Double
  pub add_double : Double → Double → Double
  pub sub_double : Double → Double → Double
  pub mul_double : Double → Double → Double
  pub div_double : Double → Double → Double
  pub eq_double : Double → Double → Bool
  pub lt_double : Double → Double → Bool
  -- `(int) d`
  pub truncate : Double → ℤ
  -- the first byte of the object representation, read as a `char`
  pub first_byte : Double → ℤ
  -- `strtod(s, NULL)`
  pub strtod : Bytes → Double
  -- "%f"
  pub print_f : Double → Bytes
  -- `long double`
  pub LongDouble : Type 0
  pub widen : Double → LongDouble
  pub narrow : LongDouble → Double
  pub long_of_nat : ℕ → LongDouble
  pub long_of_int : ℤ → LongDouble
  pub add_long : LongDouble → LongDouble → LongDouble
  pub sub_long : LongDouble → LongDouble → LongDouble
  pub div_long : LongDouble → LongDouble → LongDouble
  -- "%Lf"
  pub print_lf : LongDouble → Bytes
  -- uthash: a NULL head, HASH_FIND, HASH_ADD, a write through the pointer that HASH_FIND returned
  -- or HASH_ITER visits, and the items that HASH_ITER visits. The key is the key's bytes.
  pub Table : Type 0 → Type 0
  pub hash_empty : (V : Type 0) → Table V
  pub hash_find : (V : Type 0) → Bytes → Table V → Option V
  pub hash_add : (V : Type 0) → Bytes → V → Table V → Table V
  pub hash_write : (V : Type 0) → Bytes → V → Table V → Table V
  pub hash_items : (V : Type 0) → Table V → List (Bytes × V)
  -- utarray: utarray_new, utarray_push_back, utarray_clear, utarray_sort (by a comparison), and the
  -- elements that utarray_next visits
  pub Array : Type 0
  pub array_new : Array
  pub array_push_back : Double → Array → Array
  pub array_clear : Array → Array
  pub array_sort : (Double → Double → ℤ) → Array → Array
  pub array_elems : Array → List Double
  -- json-c: a member of an object or an array may be NULL
  pub Json : Type 0
  pub json_tokener_parse : Bytes → Parsed Json
  pub json_get_type : Json → JsonType
  pub json_object_get : Json → Bytes → Option Json
  pub json_array_items : Json → List (Option Json)
  pub json_get_string : Json → Bytes
  pub json_get_double : Json → Double
  pub json_get_int : Json → ℤ
  -- the members that json_object_object_foreach visits, new values, and the text of a value
  pub json_members_of : Json → List (Bytes × Option Json)
  pub json_new_object : Json
  pub json_object_add : Json → Bytes → Json → Json
  pub json_new_array : Json
  pub json_array_add : Json → Json → Json
  pub json_new_int : ℤ → Json
  pub json_new_double : Double → Json
  pub json_to_string : Json → Bytes

-- ===== src/Tests/Sample.antt =====
-- A platform over the natural numbers, on which the laws hold, and a state after start-up.
use statsd_c.Base.{ℕ, ◌+◌, ◌-◌, ◌*◌, ◌/◌, ◌%◌, refl, List, [], ◌∷◌, ◌++◌, arith, ◌==◌, ltb, codes}
use mathlib.Core.List.{Perm}
use mathlib.Core.List.Perm
use statsd_c.Base.Assoc.{Assoc, lookup, replace}
use statsd_c.Strings.Decimal.{ℤ, pos, negsuc, print_nat, read_digits}
use statsd_c.Platform.{Platform}
use statsd_c.Platform.Laws.{HashLaws, ArrayLaws, SortLaws, OrderLaws, JsonLaws}
use statsd_c.Tests.Nodes.{
  Node, number, integer, new_object, new_array, with_member, with_element, node_type, node_members,
  node_get, node_items, node_string, node_double, node_int, printed, read_node,
}
use statsd_c.Store.{State, Locks}
use statsd_c.Store.View.{IsValid}

abbrev pub insert_by : (ℕ → ℕ → ℤ) → ℕ → List ℕ → List ℕ
insert_by cmp x [] = x ∷ []
insert_by cmp x (y ∷ ys) = elim (cmp y x) [ pos n ↦ x ∷ y ∷ ys | negsuc n ↦ y ∷ insert_by cmp x ys ]

abbrev pub sort_by : (ℕ → ℕ → ℤ) → List ℕ → List ℕ
sort_by cmp [] = []
sort_by cmp (x ∷ xs) = insert_by cmp x (sort_by cmp xs)

abbrev pub pos_part : ℤ → ℕ
pos_part (pos n) = n
pos_part (negsuc n) = 0

abbrev pub sample : Platform
sample = record {
  Double = ℕ;
  of_nat = λ n. n;
  of_int = pos_part;
  add_double = ◌+◌;
  sub_double = ◌-◌;
  mul_double = ◌*◌;
  div_double = ◌/◌;
  eq_double = ◌==◌;
  lt_double = ltb;
  truncate = pos;
  first_byte = λ n. pos (n % 256);
  strtod = read_digits 0;
  print_f = print_nat;
  LongDouble = ℕ;
  widen = λ n. n;
  narrow = λ n. n;
  long_of_nat = λ n. n;
  long_of_int = pos_part;
  add_long = ◌+◌;
  sub_long = ◌-◌;
  div_long = ◌/◌;
  print_lf = print_nat;
  Table = Assoc;
  hash_empty = λ V. [];
  hash_find = λ V k t. lookup k t;
  hash_add = λ V k v t. t ++ (k, v) ∷ [];
  hash_write = λ V k v t. replace k v t;
  hash_items = λ V t. t;
  Array = List ℕ;
  array_new = [];
  array_push_back = λ d a. a ++ d ∷ [];
  array_clear = λ a. [];
  array_sort = sort_by;
  array_elems = λ a. a;
  Json = Node;
  json_tokener_parse = read_node;
  json_get_type = node_type;
  json_object_get = node_get;
  json_array_items = node_items;
  json_get_string = node_string;
  json_get_double = node_double;
  json_get_int = node_int;
  json_members_of = node_members;
  json_new_object = new_object;
  json_object_add = with_member;
  json_new_array = new_array;
  json_array_add = with_element;
  json_new_int = integer;
  json_new_double = number;
  json_to_string = printed;
}

pub sample-HashLaws : HashLaws sample
sample-HashLaws = record {
  items-empty = λ V. refl;
  items-add = λ V k v t h. refl;
  items-write = λ V k v t. refl;
  find-items = λ V k t. refl;
}

pub sample-ArrayLaws : ArrayLaws sample
sample-ArrayLaws = record {
  elems-new = refl;
  elems-push_back = λ d a. refl;
  elems-clear = λ a. refl;
}

inserted-Perm :
    (cmp : ℕ → ℕ → ℤ) (x y : ℕ) (ys : List ℕ) (z : ℤ)
    → Perm (insert_by cmp x ys) (x ∷ ys)
    → Perm (elim z [ pos n ↦ x ∷ y ∷ ys | negsuc n ↦ y ∷ insert_by cmp x ys ]) (x ∷ y ∷ ys)
inserted-Perm cmp x y ys (pos n) p = Perm.refl (x ∷ y ∷ ys)
inserted-Perm cmp x y ys (negsuc n) p = Perm.trans (Perm.cons y p) (Perm.swap x y ys)

insert_by-Perm : (cmp : ℕ → ℕ → ℤ) (x : ℕ) (ys : List ℕ) → Perm (insert_by cmp x ys) (x ∷ ys)
insert_by-Perm cmp x [] = Perm.refl (x ∷ [])
insert_by-Perm cmp x (y ∷ ys) = inserted-Perm cmp x y ys (cmp y x) (insert_by-Perm cmp x ys)

sort_by-Perm : (cmp : ℕ → ℕ → ℤ) (xs : List ℕ) → Perm (sort_by cmp xs) xs
sort_by-Perm cmp [] = Perm.refl []
sort_by-Perm cmp (x ∷ xs) =
    Perm.trans (insert_by-Perm cmp x (sort_by cmp xs)) (Perm.cons x (sort_by-Perm cmp xs))

pub sample-SortLaws : SortLaws sample
sample-SortLaws = record { elems-sort = sort_by-Perm }

pub sample-JsonLaws : JsonLaws sample
sample-JsonLaws = record {
  members-new = refl;
  members-add = λ o k v h. refl;
  double-new = λ d. refl;
  type-new_object = refl;
  type-object_add = λ o k v h. refl;
  get-members = λ o k h. refl;
  type-new_array = refl;
  items-new = refl;
  type-array_add = λ a v h. refl;
  items-array_add = λ a v h. refl;
}

pub sample-OrderLaws : OrderLaws sample
sample-OrderLaws = record {
  lt_irrefl = λ a. ground arith;
  lt_asymm = λ a b h. ground arith;
  not_lt_trans = λ a b c h k. ground arith;
}

abbrev pub sample_locks : Locks
sample_locks = record { stats_lock = 1; counters_lock = 1; gauges_lock = 1; timers_lock = 1 }

-- One entry of each kind.
abbrev pub start : State sample
start = record {
  stats = [];
  counters = (codes "hits", 40) ∷ [];
  gauges = (codes "load", 3) ∷ [];
  timers = (codes "db", record { count = 2; values = 5 ∷ 2 ∷ [] }) ∷ [];
  locks = sample_locks;
}

pub start-IsValid : IsValid sample start
start-IsValid = record { unlocked = omega arith; counted = (refl, tt) }

-- ===== src/Serialize/Tables.antt =====
-- The counters, the gauges and the timers of src/serialize.c, each written and read back.
use statsd_c.Base.{
  ◌<◌, ◌≡◌, ◌∙◌, refl, sym, ap, true, Option, some, List, [], ◌∷◌, ◌++◌, Bytes, arith, length, map,
}
use mathlib.Core.List.{append-nil, append_assoc}
use statsd_c.Base.Assoc.{Assoc}
use statsd_c.Exec.{ok, bind-ok}
use statsd_c.Platform.{Platform, json_array}
use statsd_c.Platform.Laws.{ArrayLaws, JsonLaws}
use statsd_c.Store.{State, Timer, fits_key, strcpy_key}
use statsd_c.Store.View.{Counted}
use statsd_c.Serialize.{serialize_doubles, serialize_values, serialize_timers}
use statsd_c.Serialize.Load.{
  load_counter, load_gauge, load_timer, timer_elements, push_all, deserialize_counters,
  deserialize_gauges, deserialize_timers,
}
use statsd_c.Serialize.Kind.{Kind, add_members}

module _ {P : Platform} (L : JsonLaws P) where
  open P use {
    Double, LongDouble, Json, narrow, widen, json_new_double, json_new_array, json_array_items,
    json_get_type, array_elems, array_new, hash_add,
  }

  pub load_counter-returns :
      (key : Bytes) (v : LongDouble) (s : State P)
      → fits_key key ≡ true
      → 0 < s.locks.counters_lock
      → load_counter P key (some (json_new_double (narrow v))) s
        ≡ ok (tt, record s { counters = hash_add LongDouble key (widen (narrow v)) s.counters })
  unfolding load_counter
  load_counter-returns key v s f free = ground (arith, f, L.double-new (narrow v))

  unfoldable pub counters_kind : Kind P LongDouble LongDouble
  unfolding deserialize_counters
  counters_kind = record {
    text = λ e. e.0;
    json = λ v. json_new_double (narrow v);
    value = λ v. widen (narrow v);
    Fits = λ e. fits_key e.0 ≡ true;
    table = λ s. s.counters;
    put = λ t s. record s { counters = t };
    Free = λ s. 0 < s.locks.counters_lock;
    load_members = deserialize_counters P;
    table-put = λ t s. refl;
    put-put = λ t u s. refl;
    put-table = λ s. refl;
    Free-put = λ t s free. free;
    load_members-nil = λ s. refl;
    load_members-cons = λ e rest s f free.
        bind-ok (load_counter P e.0 (some (json_new_double (narrow e.1))))
          (λ _. deserialize_counters P rest) (load_counter-returns e.0 e.1 s f free);
    text-separates = λ e d f g apart. apart;
  }

  pub load_gauge-returns :
      (key : Bytes) (v : LongDouble) (s : State P)
      → fits_key key ≡ true
      → 0 < s.locks.gauges_lock
      → load_gauge P key (some (json_new_double (narrow v))) s
        ≡ ok (tt, record s { gauges = hash_add LongDouble key (widen (narrow v)) s.gauges })
  unfolding load_gauge
  load_gauge-returns key v s f free = ground (arith, f, L.double-new (narrow v))

  unfoldable pub gauges_kind : Kind P LongDouble LongDouble
  unfolding deserialize_gauges
  gauges_kind = record {
    text = λ e. e.0;
    json = λ v. json_new_double (narrow v);
    value = λ v. widen (narrow v);
    Fits = λ e. fits_key e.0 ≡ true;
    table = λ s. s.gauges;
    put = λ t s. record s { gauges = t };
    Free = λ s. 0 < s.locks.gauges_lock;
    load_members = deserialize_gauges P;
    table-put = λ t s. refl;
    put-put = λ t u s. refl;
    put-table = λ s. refl;
    Free-put = λ t s free. free;
    load_members-nil = λ s. refl;
    load_members-cons = λ e rest s f free.
        bind-ok (load_gauge P e.0 (some (json_new_double (narrow e.1))))
          (λ _. deserialize_gauges P rest) (load_gauge-returns e.0 e.1 s f free);
    text-separates = λ e d f g apart. apart;
  }

  -- The elements that stand for values.
  abbrev elements : List Double → List (Option Json)
  elements = map (λ d. some (json_new_double d))

  serialize_values-type :
      (ds : List Double) (a : Json)
      → json_get_type a ≡ json_array
      → json_get_type (serialize_values P ds a) ≡ json_array
  unfolding serialize_values
  serialize_values-type [] a h = h
  serialize_values-type (d ∷ ds) a h =
      serialize_values-type ds (P.json_array_add a (json_new_double d))
        (L.type-array_add a (json_new_double d) h)

  serialize_values-items :
      (ds : List Double) (a : Json)
      → json_get_type a ≡ json_array
      → json_array_items (serialize_values P ds a) ≡ json_array_items a ++ elements ds
  unfolding serialize_values
  serialize_values-items [] a h = sym (append-nil (json_array_items a))
  serialize_values-items (d ∷ ds) a h =
      serialize_values-items ds (P.json_array_add a (json_new_double d))
        (L.type-array_add a (json_new_double d) h)
      ∙ rw (L.items-array_add a (json_new_double d) h)
          (append_assoc (json_array_items a) (some (json_new_double d) ∷ []) (elements ds))

  -- What is read back of a timer.
  abbrev pub reread : Timer P → Timer P
  reread t = record {
    count = length (elements (array_elems t.values));
    values = push_all P (elements (array_elems t.values)) array_new;
  }

  -- The array of a timer.
  abbrev timer_json : Timer P → Json
  timer_json t = serialize_values P (array_elems t.values) json_new_array

  timer_json-items :
      (t : Timer P) → json_array_items (timer_json t) ≡ elements (array_elems t.values)
  timer_json-items t =
      serialize_values-items (array_elems t.values) json_new_array L.type-new_array
      ∙ ap (λ l. l ++ elements (array_elems t.values)) L.items-new

  timer_elements-returns :
      (t : Timer P) (s : State P)
      → timer_elements P (some (timer_json t)) s ≡ ok (elements (array_elems t.values), s)
  timer_elements-returns t s =
      rw
        (
          serialize_values-type (array_elems t.values) json_new_array L.type-new_array,
          timer_elements,
          timer_json-items t,
        )
        refl

  pub load_timer-returns :
      (key : Bytes) (t : Timer P) (s : State P)
      → fits_key key ≡ true
      → 0 < s.locks.timers_lock
      → load_timer P key (some (timer_json t)) s
        ≡ ok (tt, record s { timers = hash_add (Timer P) key (reread t) s.timers })
  unfolding load_timer
  load_timer-returns key t s f free =
      bind-ok (strcpy_key P key) _ (rw f refl)
      ∙ bind-ok (timer_elements P (some (timer_json t))) _ (timer_elements-returns t s)
      ∙ ground arith

  unfoldable pub timers_kind : Kind P (Timer P) (Timer P)
  unfolding deserialize_timers
  timers_kind = record {
    text = λ e. e.0;
    json = timer_json;
    value = reread;
    Fits = λ e. fits_key e.0 ≡ true;
    table = λ s. s.timers;
    put = λ t s. record s { timers = t };
    Free = λ s. 0 < s.locks.timers_lock;
    load_members = deserialize_timers P;
    table-put = λ t s. refl;
    put-put = λ t u s. refl;
    put-table = λ s. refl;
    Free-put = λ t s free. free;
    load_members-nil = λ s. refl;
    load_members-cons = λ e rest s f free.
        bind-ok (load_timer P e.0 (some (timer_json e.1))) (λ _. deserialize_timers P rest)
          (load_timer-returns e.0 e.1 s f free);
    text-separates = λ e d f g apart. apart;
  }

  pub serialize_doubles-counters :
      (es : Assoc LongDouble) (obj : Json)
      → serialize_doubles P es obj ≡ add_members P counters_kind es obj
  unfolding serialize_doubles add_members counters_kind
  serialize_doubles-counters [] obj = refl
  serialize_doubles-counters (e ∷ es) obj =
      serialize_doubles-counters es (P.json_object_add obj e.0 (json_new_double (narrow e.1)))

  pub serialize_doubles-gauges :
      (es : Assoc LongDouble) (obj : Json)
      → serialize_doubles P es obj ≡ add_members P gauges_kind es obj
  unfolding serialize_doubles add_members gauges_kind
  serialize_doubles-gauges [] obj = refl
  serialize_doubles-gauges (e ∷ es) obj =
      serialize_doubles-gauges es (P.json_object_add obj e.0 (json_new_double (narrow e.1)))

  pub serialize_timers-eq :
      (es : Assoc (Timer P)) (obj : Json)
      → serialize_timers P es obj ≡ add_members P timers_kind es obj
  unfolding serialize_timers add_members timers_kind
  serialize_timers-eq [] obj = refl
  serialize_timers-eq (e ∷ es) obj =
      serialize_timers-eq es (P.json_object_add obj e.0 (timer_json e.1))

  module _ (A : ArrayLaws P) where
    push_all-elements :
        (ds : List Double) (a : P.Array)
        → array_elems (push_all P (elements ds) a) ≡ array_elems a ++ ds
    unfolding push_all
    push_all-elements [] a = sym (append-nil (array_elems a))
    push_all-elements (d ∷ ds) a =
        push_all-elements ds (P.array_push_back (P.json_get_double (json_new_double d)) a)
        ∙ rw (L.double-new d, A.elems-push_back d a) (append_assoc (array_elems a) (d ∷ []) ds)

    -- The values are all back, in their order.
    pub reread-elems : (t : Timer P) → array_elems (reread t).values ≡ array_elems t.values
    reread-elems t =
        push_all-elements (array_elems t.values) array_new
        ∙ ap (λ l. l ++ array_elems t.values) A.elems-new

    length-elements : (ds : List Double) → length (elements ds) ≡ length ds
    length-elements [] = refl
    length-elements (d ∷ ds) = omega (arith, length-elements ds)

    pub reread-Counted : (t : Timer P) → Counted P (reread t)
    reread-Counted t = length-elements (array_elems t.values) ∙ ap length (sym (reread-elems t))

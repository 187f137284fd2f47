-- ===== src/Serialize/Restored.antt =====
-- `statsd_deserialize` of src/serialize.c on what `statsd_serialize` makes of the timers, the gauges
-- and the counters, as json-c's objects: the printing and the parsing of the text are json-c's.
use statsd_c.Base.{ap, ◌≡◌, ◌∙◌, refl, true}
use statsd_c.Base.Assoc.{All-map_values, map_values-map_values, map_values}
use statsd_c.Exec.{ok, pure, bind-ok}
use statsd_c.Platform.{Platform, json_object, parsed}
use statsd_c.Platform.Laws.{HashLaws, ArrayLaws, JsonLaws}
use statsd_c.Store.{Stat, Timer, State}
use statsd_c.Store.View.{Metrics, view, IsValid, Unlocked, Counted}
use statsd_c.Serialize.{
  serialize_timers, serialize_doubles, whole_object, timers_object, counters_object, gauges_object,
}
use statsd_c.Serialize.Load.{deserialize_object, deserialize_parsed, deserialize_stats}
use statsd_c.Serialize.Tables.{
  counters_kind, gauges_kind, timers_kind, reread, reread-elems, reread-Counted,
}
use statsd_c.Serialize.Whole.{
  Storable, Fresh, timers_kept, gauges_kept, counters_kept, read_back, timers_json, gauges_json,
  counters_json, whole, document-whole, deserialize_object-returns,
}
use statsd_c.Serialize.Document.{
  document, whole_object-type, timers_object-returns, counters_object-returns,
  gauges_object-returns,
}

module _ (P : Platform) where
  open P use {Json, LongDouble, narrow, widen, hash_items}

  -- What the objects keep of the numbers: a counter and a gauge as a `double`, and every value of a
  -- timer. The stats are those of `st`.
  abbrev pub rounded : P.Table Stat → Metrics P → Metrics P
  rounded st m = record {
    stats = map_values (λ (x : Stat). x.value) (hash_items Stat st);
    counters = map_values (λ v. widen (narrow v)) m.counters;
    gauges = map_values (λ v. widen (narrow v)) m.gauges;
    timers = m.timers;
  }

  -- The three objects are made and the tables are as they were; the document of them and of the
  -- stats is read into tables that hold what the objects keep.
  pub record Restored (stats : Json) (st : P.Table Stat) (s s₀ : State P) : Type 0 where
    pub timers : Json
    pub counters : Json
    pub gauges : Json
    pub timers_made : timers_object P s ≡ ok (timers, s)
    pub counters_made : counters_object P s ≡ ok (counters, s)
    pub gauges_made : gauges_object P s ≡ ok (gauges, s)
    pub after : State P
    pub reads :
        deserialize_parsed P (parsed (whole_object P stats timers counters gauges)) s₀
        ≡ ok (true, after)
    pub viewed : view P after ≡ rounded st (view P s)
    pub locks_kept : after.locks ≡ s₀.locks
    pub valid : IsValid P after

  module _ (H : HashLaws P) (A : ArrayLaws P) (L : JsonLaws P) (s s₀ : State P) where
    -- The tables after they have been read.
    abbrev after_reading : P.Table Stat → Storable P s → Fresh P s₀ → State P
    after_reading st q f =
        let k₂ = timers_kept P H A L s s₀ st q f in
        let k₃ = gauges_kept P H A L s s₀ st k₂.after q f in
        let k₄ = counters_kept P H A L s s₀ st k₂.after k₃.after q f in
        read_back P H A L s s₀ st k₂.after k₃.after k₄.after

    after_reading-view :
        (st : P.Table Stat) (q : Storable P s) (f : Fresh P s₀)
        → view P (after_reading st q f) ≡ rounded st (view P s)
    unfolding timers_kind gauges_kind counters_kind
    after_reading-view st q f =
        let k₂ = timers_kept P H A L s s₀ st q f in
        let k₃ = gauges_kept P H A L s s₀ st k₂.after q f in
        let k₄ = counters_kept P H A L s s₀ st k₂.after k₃.after q f in
        rw
          (
            k₂.items,
            k₃.items,
            k₄.items,
            map_values-map_values (reread L) (λ (x : Timer P). P.array_elems x.values)
                (λ (x : Timer P). P.array_elems x.values) (hash_items (Timer P) s.timers)
                (reread-elems L A),
          )
          refl

    after_reading-IsValid :
        (st : P.Table Stat) (q : Storable P s) (f : Fresh P s₀) → IsValid P (after_reading st q f)
    unfolding timers_kind
    after_reading-IsValid st q f =
        let k₂ = timers_kept P H A L s s₀ st q f in
        record {
          unlocked = f.unlocked;
          counted = rw k₂.items (
              All-map_values (reread L) (Counted P) (hash_items (Timer P) s.timers)
                (reread-Counted L A));
        }

    deserialize_parsed-whole :
        (stats : Json) (st : P.Table Stat)
        → P.json_get_type stats ≡ json_object
        → deserialize_stats P (P.json_members_of stats) s₀ ≡ ok (tt, record s₀ { stats = st })
        → (q : Storable P s) (f : Fresh P s₀)
        → deserialize_parsed P (parsed (whole P H A L s s₀ stats)) s₀
          ≡ ok (true, after_reading st q f)
    unfolding deserialize_parsed
    deserialize_parsed-whole stats st shape loaded q f =
        rw
          (
            deserialize_parsed,
            whole_object-type P L stats (timers_json P H A L s s₀) (counters_json P H A L s s₀)
                (gauges_json P H A L s s₀),
          )
          (bind-ok (deserialize_object P (whole P H A L s s₀ stats)) (λ _. pure true)
            (deserialize_object-returns P H A L s s₀ stats st shape loaded q f))

    deserialize_parsed-returns :
        (stats : Json) (st : P.Table Stat)
        → P.json_get_type stats ≡ json_object
        → deserialize_stats P (P.json_members_of stats) s₀ ≡ ok (tt, record s₀ { stats = st })
        → (q : Storable P s) (f : Fresh P s₀)
        → deserialize_parsed P (parsed (document P s stats)) s₀ ≡ ok (true, after_reading st q f)
    deserialize_parsed-returns stats st shape loaded q f =
        ap (λ d. deserialize_parsed P (parsed d) s₀) (document-whole P H A L s s₀ stats)
        ∙ deserialize_parsed-whole stats st shape loaded q f

  -- The objects that `statsd_serialize` makes of the timers, the gauges and the counters, whatever
  -- the stats, are those that `statsd_deserialize` reads out of a document, under the same names and
  -- in the same order, with the invariant: a timer has all its values in their order, and a counter
  -- and a gauge are rounded to a `double`. The stats of the document are an object that is read into
  -- the table `st`. The names of the timers, of the gauges and of the counters differ and fit the
  -- fields; the locks are free; and no timers, gauges and counters are in the tables that are read
  -- into. The document is json-c's object: what the numbers lose when json-c prints it as a text is
  -- not in the statement.
  pub deserialize_parsed-Restored :
      (H : HashLaws P) (A : ArrayLaws P) (L : JsonLaws P) (s s₀ : State P)
      → (stats : Json) (st : P.Table Stat) → Unlocked P s.locks
      → Storable P s
      → Fresh P s₀
      → P.json_get_type stats ≡ json_object
      → deserialize_stats P (P.json_members_of stats) s₀ ≡ ok (tt, record s₀ { stats = st })
      → Restored stats st s s₀
  deserialize_parsed-Restored H A L s s₀ stats st u q f shape loaded = record {
    timers = serialize_timers P (hash_items (Timer P) s.timers) P.json_new_object;
    counters = serialize_doubles P (hash_items LongDouble s.counters) P.json_new_object;
    gauges = serialize_doubles P (hash_items LongDouble s.gauges) P.json_new_object;
    timers_made = timers_object-returns P s u;
    counters_made = counters_object-returns P s u;
    gauges_made = gauges_object-returns P s u;
    after = after_reading H A L s s₀ st q f;
    reads = deserialize_parsed-returns H A L s s₀ stats st shape loaded q f;
    viewed = after_reading-view H A L s s₀ st q f;
    locks_kept = refl;
    valid = after_reading-IsValid H A L s s₀ st q f;
  }

-- ===== src/Serialize/Whole.antt =====
-- `statsd_deserialize` of src/serialize.c on the objects of the timers, the gauges and the counters
-- that `statsd_serialize` makes: one table after the other.
use statsd_c.Base.{◌≡◌, ◌∙◌, refl, true, [], All, codes, bytes_eq}
use statsd_c.Base.Assoc.{Distinct, lookup}
use statsd_c.Exec.{ok, bind-ok}
use statsd_c.Platform.{Platform, json_object}
use statsd_c.Platform.Laws.{HashLaws, ArrayLaws, JsonLaws}
use statsd_c.Store.{Stat, Timer, State, fits_key}
use statsd_c.Store.View.{Unlocked}
use statsd_c.Serialize.{whole_object}
use statsd_c.Serialize.Load.{
  deserialize_object, deserialize_stats, deserialize_timers, deserialize_gauges, members_at,
}
use statsd_c.Serialize.Kind.{add_members, type-add_members}
use statsd_c.Serialize.Reading.{Kept, load_members-Kept}
use statsd_c.Serialize.Tables.{
  counters_kind, gauges_kind, timers_kind, serialize_doubles-counters, serialize_doubles-gauges,
  serialize_timers-eq,
}
use statsd_c.Serialize.Document.{document, members_at-returns}

module _ (P : Platform) where
  open P use {Json, LongDouble, narrow, widen, hash_items}

  -- Timers, gauges and counters whose names differ and fit the fields. The stats are any.
  pub record Storable (s : State P) : Type 0 where
    pub timers_distinct : Distinct (hash_items (Timer P) s.timers)
    pub timers_fit : All (λ e. fits_key e.0 ≡ true) (hash_items (Timer P) s.timers)
    pub gauges_distinct : Distinct (hash_items LongDouble s.gauges)
    pub gauges_fit : All (λ e. fits_key e.0 ≡ true) (hash_items LongDouble s.gauges)
    pub counters_distinct : Distinct (hash_items LongDouble s.counters)
    pub counters_fit : All (λ e. fits_key e.0 ≡ true) (hash_items LongDouble s.counters)

  -- No timers, gauges and counters, with the locks free.
  pub record Fresh (s : State P) : Type 0 where
    pub unlocked : Unlocked P s.locks
    pub no_timers : hash_items (Timer P) s.timers ≡ []
    pub no_gauges : hash_items LongDouble s.gauges ≡ []
    pub no_counters : hash_items LongDouble s.counters ≡ []

  module _ (H : HashLaws P) (A : ArrayLaws P) (L : JsonLaws P) (s s₀ : State P) where
    -- The four tables after they have been read.
    abbrev pub read_back :
        P.Table Stat → P.Table (Timer P) → P.Table LongDouble → P.Table LongDouble → State P
    read_back st ti ga co = record {
      stats = st;
      timers = ti;
      gauges = ga;
      counters = co;
      locks = s₀.locks;
    }

    pub timers_kept :
        (t : P.Table Stat)
        → Storable s
        → Fresh s₀
        → Kept (timers_kind L) H (hash_items (Timer P) s.timers) (record s₀ { stats = t })
    unfolding timers_kind
    timers_kept t q f =
        load_members-Kept (timers_kind L) H L (hash_items (Timer P) s.timers)
          (record s₀ { stats = t }) q.timers_fit q.timers_distinct f.no_timers
          f.unlocked.timers_free

    pub gauges_kept :
        (t : P.Table Stat) (u : P.Table (Timer P))
        → Storable s
        → Fresh s₀
        → Kept
            (gauges_kind L)
            H
            (hash_items LongDouble s.gauges)
            (record s₀ { stats = t; timers = u })
    unfolding gauges_kind
    gauges_kept t u q f =
        load_members-Kept (gauges_kind L) H L (hash_items LongDouble s.gauges)
          (record s₀ { stats = t; timers = u }) q.gauges_fit q.gauges_distinct f.no_gauges
          f.unlocked.gauges_free

    pub counters_kept :
        (t : P.Table Stat) (u : P.Table (Timer P)) (v : P.Table LongDouble)
        → Storable s
        → Fresh s₀
        → Kept
            (counters_kind L)
            H
            (hash_items LongDouble s.counters)
            (record s₀ { stats = t; timers = u; gauges = v })
    unfolding counters_kind
    counters_kept t u v q f =
        load_members-Kept (counters_kind L) H L (hash_items LongDouble s.counters)
          (record s₀ { stats = t; timers = u; gauges = v }) q.counters_fit q.counters_distinct
          f.no_counters f.unlocked.counters_free

    abbrev pub timers_json : Json
    timers_json = add_members P (timers_kind L) (hash_items (Timer P) s.timers) P.json_new_object

    abbrev pub gauges_json : Json
    gauges_json = add_members P (gauges_kind L) (hash_items LongDouble s.gauges) P.json_new_object

    abbrev pub counters_json : Json
    counters_json =
        add_members P (counters_kind L) (hash_items LongDouble s.counters) P.json_new_object

    module _ (stats : Json) where
      abbrev pub whole : Json
      whole = whole_object P stats timers_json counters_json gauges_json

      pub document-whole : document P s stats ≡ whole
      document-whole =
          rw
            (
              serialize_timers-eq L (hash_items (Timer P) s.timers) P.json_new_object,
              serialize_doubles-counters L (hash_items LongDouble s.counters) P.json_new_object,
              serialize_doubles-gauges L (hash_items LongDouble s.gauges) P.json_new_object,
            )
            refl

      -- One table after the other.
      pub deserialize_object-returns :
          (st : P.Table Stat)
          → P.json_get_type stats ≡ json_object
          → deserialize_stats P (P.json_members_of stats) s₀ ≡ ok (tt, record s₀ { stats = st })
          → (q : Storable s) (f : Fresh s₀)
          → let k₂ = timers_kept st q f in
            let k₃ = gauges_kept st k₂.after q f in
            let k₄ = counters_kept st k₂.after k₃.after q f in
            deserialize_object P whole s₀ ≡ ok (tt, read_back st k₂.after k₃.after k₄.after)
      unfolding deserialize_object timers_kind gauges_kind counters_kind lookup bytes_eq
      deserialize_object-returns st shape loaded q f =
          let k₂ = timers_kept st q f in
          let k₃ = gauges_kept st k₂.after q f in
          let k₄ = counters_kept st k₂.after k₃.after q f in
          let at = members_at-returns P L stats timers_json counters_json gauges_json in
          let ready = L.type-new_object in
          bind-ok (members_at P whole (codes "stats")) _ (at (codes "stats") stats s₀ refl shape)
          ∙ bind-ok (deserialize_stats P (P.json_members_of stats)) _ loaded
          ∙ bind-ok (members_at P whole (codes "timers")) _ (
              at (codes "timers") timers_json (record s₀ { stats = st }) refl
                (type-add_members P (timers_kind L) L (hash_items (Timer P) s.timers)
                  P.json_new_object ready))
          ∙ bind-ok (deserialize_timers P (P.json_members_of timers_json)) _ k₂.returns
          ∙ bind-ok (members_at P whole (codes "gauges")) _ (
              at (codes "gauges") gauges_json (record s₀ { stats = st; timers = k₂.after }) refl
                (type-add_members P (gauges_kind L) L (hash_items LongDouble s.gauges)
                  P.json_new_object ready))
          ∙ bind-ok (deserialize_gauges P (P.json_members_of gauges_json)) _ k₃.returns
          ∙ bind-ok (members_at P whole (codes "counters")) _ (
              at (codes "counters") counters_json
                (record s₀ { stats = st; timers = k₂.after; gauges = k₃.after }) refl
                (type-add_members P (counters_kind L) L (hash_items LongDouble s.counters)
                  P.json_new_object ready))
          ∙ k₄.returns

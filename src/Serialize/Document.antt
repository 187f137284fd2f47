-- ===== src/Serialize/Document.antt =====
-- The document of src/serialize.c: what `statsd_serialize` makes of the tables, and its four
-- members.
use statsd_c.Base.{◌≡◌, ◌∙◌, refl, ap, some, [], ◌∷◌, ◌++◌, Bytes, arith, codes, bytes_eq, Option}
use statsd_c.Base.Assoc.{Assoc, Absent, lookup}
use statsd_c.Exec.{ok}
use statsd_c.Platform.{Platform, json_object}
use statsd_c.Platform.Laws.{JsonLaws, present}
use statsd_c.Store.{Timer, State}
use statsd_c.Store.View.{Unlocked}
use statsd_c.Serialize.{
  serialize_timers, serialize_doubles, whole_object, timers_object, counters_object, gauges_object,
}
use statsd_c.Serialize.Load.{members_at}

module _ (P : Platform) where
  open P use {
    Json, json_new_object, json_get_type, json_members_of, json_object_get, json_object_add,
    hash_items,
  }

  -- The document, around the object of the stats.
  abbrev pub document : State P → Json → Json
  document s stats =
      whole_object P stats (serialize_timers P (hash_items (Timer P) s.timers) json_new_object)
        (serialize_doubles P (hash_items P.LongDouble s.counters) json_new_object)
        (serialize_doubles P (hash_items P.LongDouble s.gauges) json_new_object)

  pub timers_object-returns :
      (s : State P)
      → Unlocked P s.locks
      → timers_object P s
        ≡ ok (serialize_timers P (hash_items (Timer P) s.timers) json_new_object, s)
  unfolding timers_object
  timers_object-returns s u = ground (arith, u.timers_free)

  pub counters_object-returns :
      (s : State P)
      → Unlocked P s.locks
      → counters_object P s
        ≡ ok (serialize_doubles P (hash_items P.LongDouble s.counters) json_new_object, s)
  unfolding counters_object
  counters_object-returns s u = ground (arith, u.counters_free)

  pub gauges_object-returns :
      (s : State P)
      → Unlocked P s.locks
      → gauges_object P s
        ≡ ok (serialize_doubles P (hash_items P.LongDouble s.gauges) json_new_object, s)
  unfolding gauges_object
  gauges_object-returns s u = ground (arith, u.gauges_free)

  module _ (L : JsonLaws P) (stats timers counters gauges : Json) where
    pub whole_object-type :
        json_get_type (whole_object P stats timers counters gauges) ≡ json_object
    whole_object-type = L.type-object_add _ (codes "counters") counters (
        L.type-object_add _ (codes "gauges") gauges (
          L.type-object_add _ (codes "timers") timers
            (L.type-object_add json_new_object (codes "stats") stats L.type-new_object)))

    members-next :
        (o : Json) (k : Bytes) (v : Json) (ms : Assoc (Option Json))
        → json_members_of o ≡ ms
        → Absent k ms
        → json_members_of (json_object_add o k v) ≡ ms ++ (k, some v) ∷ []
    members-next o k v ms e a = L.members-add o k v (rw e a) ∙ ap (λ m. m ++ (k, some v) ∷ []) e

    abbrev four : Assoc (Option Json)
    four =
        (codes "stats", some stats)
        ∷ (codes "timers", some timers)
        ∷ (codes "gauges", some gauges)
        ∷ (codes "counters", some counters)
        ∷ []

    whole_object-members : json_members_of (whole_object P stats timers counters gauges) ≡ four
    unfolding bytes_eq
    whole_object-members =
        let o₁ = json_object_add json_new_object (codes "stats") stats in
        let o₂ = json_object_add o₁ (codes "timers") timers in
        let o₃ = json_object_add o₂ (codes "gauges") gauges in
        members-next o₃ (codes "counters") counters _
          (members-next o₂ (codes "gauges") gauges _
            (members-next o₁ (codes "timers") timers _
              (members-next json_new_object (codes "stats") stats [] L.members-new tt) (refl, tt))
            (refl, (refl, tt)))
          (refl, (refl, (refl, tt)))

    -- One of the four is found, if it is an object.
    pub members_at-returns :
        (name : Bytes) (obj : Json) (s : State P)
        → present (lookup name four) ≡ some obj
        → json_get_type obj ≡ json_object
        → members_at P (whole_object P stats timers counters gauges) name s
          ≡ ok (json_members_of obj, s)
    members_at-returns name obj s e h =
        rw
          (
            L.get-members (whole_object P stats timers counters gauges) name whole_object-type,
            members_at,
            whole_object-members,
            e,
            h,
          )
          refl

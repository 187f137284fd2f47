-- ===== src/Serialize/Kind.antt =====
-- The four loops of src/serialize.c that write a table into an object, and the four that read one,
-- as one loop each over the entries of a table.
use statsd_c.Base.{◌≡◌, ◌∙◌, sym, false, Option, some, [], ◌∷◌, ◌++◌, Bytes, All, bytes_eq, map}
use mathlib.Core.List.{append-nil, append_assoc}
use statsd_c.Base.Assoc.{Assoc, Absent, Distinct, Apart, Apart-concat}
use statsd_c.Exec.{Exec, ok}
use statsd_c.Platform.{Platform, json_object}
use statsd_c.Platform.Laws.{JsonLaws}
use statsd_c.Store.{State}

module _ {U W : Type 0} (Q : Bytes × U → Type 0) (f : Bytes × U → Bytes × W) where
  -- `f` keeps different names apart.
  abbrev Separates : Type 0
  Separates =
      (e d : Bytes × U) → Q e → Q d → bytes_eq e.0 d.0 ≡ false → bytes_eq (f e).0 (f d).0 ≡ false

  Absent-map :
      (g : Separates) (d : Bytes × U) (l : Assoc U)
      → Q d
      → All Q l
      → Absent d.0 l
      → Absent (f d).0 (map f l)
  Absent-map g d [] q qs a = tt
  Absent-map g d (e ∷ l) q qs a = (g e d qs.0 q a.0, Absent-map g d l q qs.1 a.1)

  Distinct-map : (g : Separates) (l : Assoc U) → All Q l → Distinct l → Distinct (map f l)
  Distinct-map g [] qs d = tt
  Distinct-map g (e ∷ l) qs d = (Absent-map g e l qs.0 qs.1 d.0, Distinct-map g l qs.1 d.1)

module _ (P : Platform) where
  open P use {Json, json_members_of, json_object_add, json_get_type, hash_items, hash_add}

  -- How one of the tables is written and read: the member that stands for an entry, what is read
  -- back of a value, and the table's place among the globals.
  pub record Kind (U V : Type 0) : Type 1 where
    pub text : Bytes × U → Bytes
    pub json : U → Json
    pub value : U → V
    -- The name can be written and read.
    pub Fits : Bytes × U → Type 0
    pub table : State P → P.Table V
    pub put : P.Table V → State P → State P
    -- The table's lock is free.
    pub Free : State P → Type 0
    pub load_members : Assoc (Option Json) → Exec (State P) (Unit {0})
    pub table-put : (t : P.Table V) (s : State P) → table (put t s) ≡ t
    pub put-put : (t u : P.Table V) (s : State P) → put t (put u s) ≡ put t s
    pub put-table : (s : State P) → put (table s) s ≡ s
    pub Free-put : (t : P.Table V) (s : State P) → Free s → Free (put t s)
    pub load_members-nil : (s : State P) → load_members [] s ≡ ok (tt, s)
    pub load_members-cons :
        (e : Bytes × U) (rest : Assoc (Option Json)) (s : State P)
        → Fits e
        → Free s
        → load_members ((text e, some (json e.1)) ∷ rest) s
          ≡ load_members rest (put (hash_add V e.0 (value e.1) (table s)) s)
    pub text-separates :
        (e d : Bytes × U)
        → Fits e
        → Fits d
        → bytes_eq e.0 d.0 ≡ false
        → bytes_eq (text e) (text d) ≡ false

  module _ {U V : Type 0} (K : Kind U V) where
    -- The members that stand for the entries.
    abbrev pub written : Assoc U → Assoc (Option Json)
    written = map (λ e. (K.text e, some (K.json e.1)))

    unfoldable pub add_members : Assoc U → Json → Json
    add_members [] obj = obj
    add_members (e ∷ es) obj = add_members es (json_object_add obj (K.text e) (K.json e.1))

    pub Distinct-written : (es : Assoc U) → All K.Fits es → Distinct es → Distinct (written es)
    Distinct-written = Distinct-map K.Fits (λ e. (K.text e, some (K.json e.1))) K.text-separates

    pub members-add_members :
        (L : JsonLaws P) (es : Assoc U) (obj : Json)
        → Distinct (written es)
        → Apart (json_members_of obj) (written es)
        → json_members_of (add_members es obj) ≡ json_members_of obj ++ written es
    unfolding add_members
    members-add_members L [] obj d a = sym (append-nil (json_members_of obj))
    members-add_members L (e ∷ es) obj d a =
        let added = L.members-add obj (K.text e) (K.json e.1) a.0 in
        members-add_members L es (json_object_add obj (K.text e) (K.json e.1)) d.1 (
          rw added (
            Apart-concat (K.text e) (some (K.json e.1)) (json_members_of obj) (written es) d.0 a.1))
        ∙ rw added
            (append_assoc (json_members_of obj) ((K.text e, some (K.json e.1)) ∷ []) (written es))

    pub type-add_members :
        (L : JsonLaws P) (es : Assoc U) (obj : Json)
        → json_get_type obj ≡ json_object
        → json_get_type (add_members es obj) ≡ json_object
    unfolding add_members
    type-add_members L [] obj h = h
    type-add_members L (e ∷ es) obj h =
        type-add_members L es (json_object_add obj (K.text e) (K.json e.1))
          (L.type-object_add obj (K.text e) (K.json e.1) h)

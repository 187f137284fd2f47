-- ===== src/Serialize/Reading.antt =====
-- The loops of `statsd_deserialize` of src/serialize.c over the members that a table was written to.
use statsd_c.Base.{◌≡◌, ◌∙◌, sym, ap, [], ◌∷◌, ◌++◌, All, Option}
use mathlib.Core.List.{append-nil, append_assoc}
use mathlib.Core.Path.{subst}
use statsd_c.Base.Assoc.{Assoc, Distinct, Apart, Apart-concat, Apart-nil, map_values, lookup-Absent}
use statsd_c.Exec.{ok}
use statsd_c.Platform.{Platform}
use statsd_c.Platform.Laws.{HashLaws, JsonLaws}
use statsd_c.Store.{State}
use statsd_c.Serialize.Kind.{Kind, written, add_members, Distinct-written, members-add_members}

module _ {P : Platform} {U V : Type 0} (K : Kind P U V) (H : HashLaws P) where
  open P use {hash_items, hash_add}

  -- The members of the entries have been read into the table: it holds them behind what it held.
  pub record Read (es : Assoc U) (s : State P) : Type 0 where
    pub after : P.Table V
    pub returns : K.load_members (written P K es) s ≡ ok (tt, K.put after s)
    pub items : hash_items V after ≡ hash_items V (K.table s) ++ map_values K.value es

  load_members-Read :
      (es : Assoc U) (s : State P)
      → All K.Fits es
      → Distinct es
      → Apart (hash_items V (K.table s)) es
      → K.Free s
      → Read es s
  load_members-Read [] s q d a free = record {
    after = K.table s;
    returns = K.load_members-nil s ∙ ap (λ x. ok (tt, x)) (sym (K.put-table s));
    items = sym (append-nil (hash_items V (K.table s)));
  }
  load_members-Read (e ∷ es) s q d a free =
      let t = hash_add V e.0 (K.value e.1) (K.table s) in
      let items_now : hash_items V (K.table (K.put t s))
          ≡ hash_items V (K.table s) ++ (e.0, K.value e.1) ∷ [] =
        ap (hash_items V) (K.table-put t s)
        ∙ H.items-add V e.0 (K.value e.1) (K.table s)
            (H.find-items V e.0 (K.table s) ∙ lookup-Absent e.0 (hash_items V (K.table s)) a.0) in
      let rest =
        load_members-Read es (K.put t s) q.1 d.1
          (subst (λ l. Apart l es) (sym items_now)
            (Apart-concat e.0 (K.value e.1) (hash_items V (K.table s)) es d.0 a.1))
          (K.Free-put t s free) in
      record {
        after = rest.after;
        returns =
            K.load_members-cons e (written P K es) s q.0 free
            ∙ rest.returns
            ∙ ap (λ x. ok (tt, x)) (K.put-put rest.after t s);
        items =
            rest.items
            ∙ ap (λ l. l ++ map_values K.value es) items_now
            ∙ append_assoc (hash_items V (K.table s)) ((e.0, K.value e.1) ∷ [])
                (map_values K.value es);
      }

  -- What an empty table reads of the members of the object that a table was written to.
  pub record Kept (es : Assoc U) (s : State P) : Type 0 where
    pub after : P.Table V
    pub returns :
        K.load_members (P.json_members_of (add_members P K es P.json_new_object)) s
        ≡ ok (tt, K.put after s)
    pub items : hash_items V after ≡ map_values K.value es

  pub load_members-Kept :
      (L : JsonLaws P) (es : Assoc U) (s : State P)
      → All K.Fits es
      → Distinct es
      → hash_items V (K.table s) ≡ []
      → K.Free s
      → Kept es s
  load_members-Kept L es s q d e free =
      let r = load_members-Read es s q d (rw e (Apart-nil V es)) free in
      let members : P.json_members_of (add_members P K es P.json_new_object) ≡ written P K es =
        members-add_members P K L es P.json_new_object (Distinct-written P K es q d)
          (rw L.members-new (Apart-nil (Option P.Json) (written P K es)))
        ∙ ap (λ l. l ++ written P K es) L.members-new in
      record {
        after = r.after;
        returns = ap (λ m. K.load_members m s) members ∙ r.returns;
        items = r.items ∙ ap (λ l. l ++ map_values K.value es) e;
      }

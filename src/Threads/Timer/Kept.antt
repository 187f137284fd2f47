-- ===== src/Threads/Timer/Kept.antt =====
-- No value of a timer in src/statsd.c is lost between its update and its figures.
use mathlib.Core.List.{Perm, append-nil, append_assoc}
use mathlib.Core.List.Perm
use mathlib.Core.Path.{subst}
use statsd_c.Base.{ℕ, ◌+◌, ◌≡◌, refl, Option, List, [], ◌∷◌, ◌++◌, arith}
use statsd_c.Platform.{Platform}
use statsd_c.Platform.Laws.{ArrayLaws, SortLaws}
use statsd_c.Flush.Figures.{double_sort}
use statsd_c.Threads.Timer.{
  Shared, Updater, Flusher, sleeping, asking, sorting, measuring, clearing, zeroing, posting,
  printing, Event, UpdaterMove, FlusherMove, System, updates, flushes, Reached, start, later,
  happened, all_added, all_figured, updater_holds, flusher_holds,
}

module _ {P : Platform} where
  -- The values that the figures were computed from are still those in the array.
  abbrev IsMeasured : P.Array → Flusher P → Type 0
  IsMeasured a (clearing ds) = P.array_elems a ≡ ds
  IsMeasured a f = Unit

  record Inv (a : P.Array) (h : List (Event P)) (s : System P) : Type 0 where
    posts : s.mem.timers_lock + (updater_holds P s.updater + flusher_holds P s.flusher) ≡ 1
    kept : Perm (all_added P a h) (all_figured P h ++ P.array_elems s.mem.values)
    measured : IsMeasured s.mem.values s.flusher

  -- With the queue thread inside, the flush thread is outside.
  outside-IsMeasured : (a : P.Array) (f : Flusher P) → flusher_holds P f ≡ 0 → IsMeasured a f
  outside-IsMeasured a (clearing ds) h = absurd (ground arith)
  outside-IsMeasured a sleeping h = tt
  outside-IsMeasured a asking h = tt
  outside-IsMeasured a sorting h = tt
  outside-IsMeasured a measuring h = tt
  outside-IsMeasured a zeroing h = tt
  outside-IsMeasured a posting h = tt
  outside-IsMeasured a printing h = tt

  module _ (A : ArrayLaws P) (S : SortLaws P) where
    push-kept :
        (xs ys zs : List P.Double) (d : P.Double)
        → Perm xs (ys ++ zs)
        → Perm (xs ++ d ∷ []) (ys ++ (zs ++ d ∷ []))
    push-kept xs ys zs d p =
        subst (Perm (xs ++ d ∷ [])) (append_assoc ys zs (d ∷ [])) (Perm.append_right (d ∷ []) p)

    updates-Inv :
        {a : P.Array} {h : List (Event P)} {m m' : Shared P} {u u' : Updater P} {f : Flusher P}
        {e : Option (Event P)}
        → Inv a h (record { mem = m; updater = u; flusher = f })
        → UpdaterMove P m u e m' u'
        → Inv a (happened P e h) (record { mem = m'; updater = u'; flusher = f })
    unfolding all_added all_figured
    updates-Inv i (UpdaterMove.call value) = record {
      posts = i.posts;
      kept = i.kept;
      measured = i.measured;
    }
    updates-Inv i (UpdaterMove.wait g) = record {
      posts = ground (arith, g, i.posts);
      kept = i.kept;
      measured = i.measured;
    }
    updates-Inv {h} {m} {f} i (UpdaterMove.push {value}) = record {
      posts = i.posts;
      kept =
          rw (A.elems-push_back value m.values)
            (push-kept _ (all_figured P h) (P.array_elems m.values) value i.kept);
      measured = outside-IsMeasured _ f (omega (arith, i.posts));
    }
    updates-Inv i UpdaterMove.read = record {
      posts = i.posts;
      kept = i.kept;
      measured = i.measured;
    }
    updates-Inv i UpdaterMove.write = record {
      posts = i.posts;
      kept = i.kept;
      measured = i.measured;
    }
    updates-Inv i UpdaterMove.post = record {
      posts = ground (arith, i.posts);
      kept = i.kept;
      measured = i.measured;
    }

    flushes-Inv :
        {a : P.Array} {h : List (Event P)} {m m' : Shared P} {u : Updater P} {f f' : Flusher P}
        {e : Option (Event P)}
        → Inv a h (record { mem = m; updater = u; flusher = f })
        → FlusherMove P m f e m' f'
        → Inv a (happened P e h) (record { mem = m'; updater = u; flusher = f' })
    unfolding all_added all_figured
    flushes-Inv i (FlusherMove.skip g) = record { posts = i.posts; kept = i.kept; measured = tt }
    flushes-Inv i (FlusherMove.test g) = record { posts = i.posts; kept = i.kept; measured = tt }
    flushes-Inv i (FlusherMove.wait g) = record {
      posts = ground (arith, g, i.posts);
      kept = i.kept;
      measured = tt;
    }
    flushes-Inv {h} {m} i FlusherMove.sort = record {
      posts = i.posts;
      kept =
          Perm.trans i.kept (
            Perm.append_left (all_figured P h) (Perm.symm (S.elems-sort (double_sort P) m.values)));
      measured = tt;
    }
    flushes-Inv i FlusherMove.measure = record { posts = i.posts; kept = i.kept; measured = refl }
    flushes-Inv {a} {h} {m} i (FlusherMove.clear {ds}) = record {
      posts = i.posts;
      kept =
          rw (A.elems-clear m.values, append-nil (all_figured P h ++ ds))
            (subst (λ l. Perm (all_added P a h) (all_figured P h ++ l)) i.measured i.kept);
      measured = tt;
    }
    flushes-Inv i FlusherMove.zero_count = record { posts = i.posts; kept = i.kept; measured = tt }
    flushes-Inv i FlusherMove.post = record {
      posts = ground (arith, i.posts);
      kept = i.kept;
      measured = tt;
    }
    flushes-Inv i FlusherMove.print = record { posts = i.posts; kept = i.kept; measured = tt }

    Reached-Inv :
        {n : ℕ} {a : P.Array} {h : List (Event P)} {s : System P} → Reached P n a h s → Inv a h s
    unfolding all_added all_figured
    Reached-Inv {a} start = record {
      posts = refl;
      kept = Perm.refl (P.array_elems a);
      measured = tt;
    }
    Reached-Inv (later r (updates mv)) = updates-Inv (Reached-Inv r) mv
    Reached-Inv (later r (flushes mv)) = flushes-Inv (Reached-Inv r) mv

    -- However the accesses of the queue thread and of the flush thread to a timer are interleaved,
    -- every value that was there or was added went into the figures of exactly one report, or is
    -- still in the array.
    pub Reached-figured :
        {n : ℕ} {a : P.Array} {h : List (Event P)} {s : System P}
        → Reached P n a h s
        → Perm (all_added P a h) (all_figured P h ++ P.array_elems s.mem.values)
    Reached-figured r = (Reached-Inv r).kept

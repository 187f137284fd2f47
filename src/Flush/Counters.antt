-- ===== src/Flush/Counters.antt =====
-- The loop over the counters in `p_thread_flush` of src/statsd.c.
use mathlib.Core.List.{append_assoc}
use statsd_c.Base.{◌<◌, ◌≡◌, ◌∙◌, refl, sym, ap, [], ◌∷◌, ◌++◌, Bytes, arith, codes}
use statsd_c.Base.Assoc.{
  Apart, Apart-concat, Apart-nil, Assoc, Distinct, map_values, replace-append,
}
use statsd_c.Exec.{ok, ◌>>◌, bind-ok}
use statsd_c.Platform.{Platform}
use statsd_c.Platform.Laws.{HashLaws}
use statsd_c.Store.{State}
use statsd_c.Flush.{
  Round, Out, two_messages, print_stat, counter_text, flush_counters, reset_counter, one_more,
}
use statsd_c.Flush.Parts.{
  parts, emit, emit-join, emit-silent, emit-counted, Fits, Fits-left, Fits-right,
}
use statsd_c.Flush.Said.{rate_per_second, twice, counter_part, two_messages-returns}

module _ (P : Platform) (r : Round) where
  open P use {LongDouble, long_of_nat}

  -- After the loop over `cs`, whose entries come behind `done` in the table.
  pub record Flushed (done cs : Assoc LongDouble) (o : Out) (s : State P) : Type 0 where
    pub after : State P
    pub returns : flush_counters P r cs o s ≡ ok (emit r (parts (counter_part P r) cs) o, after)
    pub items : P.hash_items LongDouble after.counters ≡ done ++ map_values (λ _. long_of_nat 0) cs
    pub others : after ≡ record s { counters = after.counters }

  module _ (H : HashLaws P) where
    reset_counter-returns :
        (key : Bytes) (s : State P)
        → 0 < s.locks.counters_lock
        → reset_counter P key s
          ≡ ok (tt, record s { counters = P.hash_write LongDouble key (long_of_nat 0) s.counters })
    unfolding reset_counter
    reset_counter-returns key s free = ground arith

    flush_counters-cons :
        (key : Bytes) (c : LongDouble) (cs : Assoc LongDouble) (o : Out) (s : State P)
        → Fits r (counter_part P r (key, c))
        → 0 < s.locks.counters_lock
        → flush_counters P r ((key, c) ∷ cs) o s
          ≡ flush_counters P r cs
              (emit r (counter_part P r (key, c)) o)
              (record s { counters = P.hash_write LongDouble key (long_of_nat 0) s.counters })
    unfolding flush_counters
    flush_counters-cons key c cs o s p free =
        let text = counter_text P r key c in
        let said =
          twice P r key (rate_per_second P r c) c (codes "count") (codes "stats_counts_") in
        let zero_it = P.hash_write LongDouble key (long_of_nat 0) s.counters in
        bind-ok
          (two_messages P r key (rate_per_second P r c) c (codes "count")
            (print_stat r.enable_graphite text o))
          (λ o'. reset_counter P key >> flush_counters P r cs (one_more o'))
          (two_messages-returns P r key (codes "count") (codes "stats_counts_")
            (rate_per_second P r c) c o s p)
        ∙ bind-ok (reset_counter P key) (λ _. flush_counters P r cs (one_more (emit r said o)))
            (reset_counter-returns key s free)
        ∙ ap (λ x. flush_counters P r cs x (record s { counters = zero_it }))
            (emit-counted r said o refl)

    flush_counters-from :
        (cs done : Assoc LongDouble) (o : Out) (s : State P)
        → P.hash_items LongDouble s.counters ≡ done ++ cs
        → Distinct cs
        → Apart done cs
        → Fits r (parts (counter_part P r) cs)
        → 0 < s.locks.counters_lock
        → Flushed done cs o s
    flush_counters-from [] done o s items d a p free = record {
      after = s;
      returns = unfold flush_counters in ap (λ x. ok (x, s)) (sym (emit-silent r o));
      items = items;
      others = refl;
    }
    flush_counters-from ((key, c) ∷ cs) done o s items d a p free =
        let zero_it = P.hash_write LongDouble key (long_of_nat 0) s.counters in
        let one = counter_part P r (key, c) in
        let more = parts (counter_part P r) cs in
        let written : P.hash_items LongDouble zero_it ≡ (done ++ (key, long_of_nat 0) ∷ []) ++ cs =
          H.items-write LongDouble key (long_of_nat 0) s.counters
          ∙ (rw items (replace-append key (long_of_nat 0) c done cs a.0)
              ∙ sym (append_assoc done ((key, long_of_nat 0) ∷ []) cs)) in
        let f =
          flush_counters-from cs (done ++ (key, long_of_nat 0) ∷ []) (emit r one o)
            (record s { counters = zero_it }) written d.1
            (Apart-concat key (long_of_nat 0) done cs d.0 a.1) (Fits-right r one more p) free in
        record {
          after = f.after;
          returns =
              flush_counters-cons key c cs o s (Fits-left r one more p) free
              ∙ f.returns
              ∙ ap (λ x. ok (x, f.after)) (emit-join r one more o);
          items = f.items ∙ append_assoc done ((key, long_of_nat 0) ∷ []) _;
          others = f.others;
        }

-- The loop over all counters returns: it sets each counter to 0 in its place and changes nothing
-- else; it adds the text of every counter, with its total and its total by the second, in the order
-- of the table, if graphite is on, and the two messages of every counter, if ganglia is, and counts
-- them. With ganglia on, the printed values have to fit the buffers of the messages.
pub flush_counters-Flushed :
    {P : Platform} (H : HashLaws P) (r : Round) (o : Out) (s : State P)
    → Distinct (P.hash_items P.LongDouble s.counters)
    → Fits r (parts (counter_part P r) (P.hash_items P.LongDouble s.counters))
    → 0 < s.locks.counters_lock
    → Flushed P r [] (P.hash_items P.LongDouble s.counters) o s
flush_counters-Flushed {P} H r o s d p free =
    flush_counters-from P r H (P.hash_items P.LongDouble s.counters) [] o s refl d
      (Apart-nil P.LongDouble (P.hash_items P.LongDouble s.counters)) p free

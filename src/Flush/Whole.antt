-- ===== src/Flush/Whole.antt =====
-- One round of `p_thread_flush` of src/statsd.c as a whole.
use statsd_c.Base.{
  ℕ, ◌+◌, ◌<◌, ◌^◌, ◌≡◌, ◌∙◌, refl, sym, ap, List, none, [], ◌∷◌, All, arith, length,
}
use statsd_c.Base.Assoc.{map_values, Distinct}
use statsd_c.Exec.{ok, Exec, gets, ◌>>=◌, bind-ok}
use statsd_c.Strings.Decimal.{pos, ltoa-pos}
use statsd_c.Platform.{Platform}
use statsd_c.Platform.Laws.{HashLaws, ArrayLaws}
use statsd_c.Store.{State, Timer}
use statsd_c.Store.View.{view, IsValid}
use statsd_c.Flush.{
  Round, Out, flush_counters, flush_timers, flush_gauges, flush_totals, flush_round,
}
use statsd_c.Flush.Counters.{flush_counters-Flushed}
use statsd_c.Flush.Parts.{Part, join, parts, emit, emit-join, Fits, Fits-left, Fits-right}
use statsd_c.Flush.Said.{
  SuffixFits, counter_part, gauge_part, timer_part, totals_part, flush_totals-returns,
}
use mathlib.Core.Path.{subst}
use statsd_c.Flush.Resets.{resets-view}
use statsd_c.Flush.Emptied.{Flushable, flush_timers-Emptied, flush_gauges-returns}
use statsd_c.Flush.Posted.{Survives, posting, recording, flushed, last_part, last_part-Sent}

abbrev nothing : Out
nothing = record { stat_string = []; messages = []; num_stats = 0; sent = none }

parts-stats :
    {E : Type 0} (f : E → Part) (es : List E)
    → ((e : E) → (f e).stats ≡ 1)
    → (parts f es).stats ≡ length es
parts-stats f [] h = refl
parts-stats f (e ∷ es) h = omega (arith, h e, parts-stats f es h)

module _ {P : Platform} where
  -- The round from the gauges on, and from the timers on.
  from_gauges : Round → Out → Exec (State P) Out
  unfolding last_part
  from_gauges r o = gets (λ s. P.hash_items P.LongDouble s.gauges) >>= λ gs.
      flush_gauges P r gs o >>= λ o'. flush_totals P r o' >>= last_part r

  from_timers : Round → Out → Exec (State P) Out
  unfolding from_gauges
  from_timers r o =
      gets (λ s. P.hash_items (Timer P) s.timers) >>= λ ts. flush_timers P r ts o >>= from_gauges r

module _ (P : Platform) (r : Round) (s : State P) where
  abbrev counters_said : Part
  counters_said = parts (counter_part P r) (P.hash_items P.LongDouble s.counters)

  abbrev timers_said : Part
  timers_said = parts (timer_part P r) (P.hash_items (Timer P) s.timers)

  abbrev gauges_said : Part
  gauges_said = parts (gauge_part P r) (P.hash_items P.LongDouble s.gauges)

  -- What a round says of the tables, and of their number of entries.
  abbrev pub entries_said : Part
  entries_said = join (join counters_said timers_said) gauges_said

  abbrev pub entries : ℕ
  entries =
      length (P.hash_items P.LongDouble s.counters)
      + length (P.hash_items (Timer P) s.timers)
      + length (P.hash_items P.LongDouble s.gauges)

  abbrev pub round_said : Part
  round_said = join entries_said (totals_part P r entries)

  -- The output of a round.
  abbrev pub reported : Out
  reported = posting r (emit r round_said nothing)

  stats_said : (emit r entries_said nothing).num_stats ≡ entries
  stats_said = omega (
    arith,
    parts-stats (counter_part P r) (P.hash_items P.LongDouble s.counters) (λ e. refl),
    parts-stats (timer_part P r) (P.hash_items (Timer P) s.timers) (λ e. refl),
    parts-stats (gauge_part P r) (P.hash_items P.LongDouble s.gauges) (λ e. refl),
  )

  entries-emit :
      emit r gauges_said (emit r timers_said (emit r counters_said nothing))
      ≡ emit r entries_said nothing
  entries-emit =
      ap (emit r gauges_said) (emit-join r counters_said timers_said nothing)
      ∙ emit-join r (join counters_said timers_said) gauges_said nothing

  totals-returns :
      (t : State P)
      → Fits r (totals_part P r entries)
      → flush_totals P r (emit r entries_said nothing) t ≡ ok (emit r round_said nothing, t)
  totals-returns t fits =
      flush_totals-returns P r (emit r entries_said nothing) t
        (subst (λ n. Fits r (totals_part P r n)) (sym stats_said) fits)
      ∙ ap (λ n. ok (emit r (totals_part P r n) (emit r entries_said nothing), t)) stats_said
      ∙ ap (λ x. ok (x, t)) (emit-join r entries_said (totals_part P r entries) nothing)

module _ {P : Platform} (A : ArrayLaws P) (r : Round) (H : HashLaws P) where
  -- What a round does until it sends: it has everything to say, and the tables are reset.
  record Collected (s : State P) : Type 0 where
    after : State P
    leads : flush_round P r s ≡ last_part r (emit r (round_said P r s) nothing) after
    viewed : view P after ≡ record (view P s) {
      counters = map_values (λ _. P.long_of_nat 0) (view P s).counters;
      timers = map_values (λ _. []) (view P s).timers;
    }
    valid : IsValid P after

  flush_round-Collected :
      (now : ℕ) (s : State P)
      → SuffixFits P r
      → Fits r (round_said P r s)
      → r.ts ≡ pos now
      → now < 10 ^ 19
      → IsValid P s
      → Distinct (P.hash_items P.LongDouble s.counters)
      → Distinct (P.hash_items (Timer P) s.timers)
      → All (Flushable r) (P.hash_items (Timer P) s.timers)
      → Collected s
  unfolding flush_round from_timers from_gauges last_part
  flush_round-Collected now s short fits e small v dc dt figures =
      let total = totals_part P r (entries P r s) in
      let all = Fits-left r (entries_said P r s) total fits in
      let two = join (counters_said P r s) (timers_said P r s) in
      let both = Fits-left r two (gauges_said P r s) all in
      let o₁ = emit r (counters_said P r s) nothing in
      let o₂ = emit r (timers_said P r s) o₁ in
      let o₃ = emit r (gauges_said P r s) o₂ in
      let a =
        flush_counters-Flushed H r nothing s dc
          (Fits-left r (counters_said P r s) (timers_said P r s) both) v.unlocked.counters_free in
      let s₁ = record s { counters = a.after.counters } in
      let b =
        flush_timers-Emptied r H o₁ s₁ short
          (Fits-right r (counters_said P r s) (timers_said P r s) both) dt figures
          v.unlocked.timers_free in
      let s₂ = record s₁ { timers = b.after.timers } in
      let (seen, valid) = resets-view A r H s a.after.counters b.after.timers v a.items b.items in
      record {
        after = s₂;
        leads =
            rw (e, ltoa-pos now small) refl
            ∙ bind-ok (flush_counters P r (P.hash_items P.LongDouble s.counters) nothing)
                (from_timers r) (a.returns ∙ ap (λ k. ok (o₁, k)) a.others)
            ∙ bind-ok (flush_timers P r (P.hash_items (Timer P) s.timers) o₁) (from_gauges r)
                (b.returns ∙ ap (λ k. ok (o₂, k)) b.others)
            ∙ bind-ok (flush_gauges P r (P.hash_items P.LongDouble s.gauges) o₂)
                (λ o. flush_totals P r o >>= last_part r)
                (flush_gauges-returns r (P.hash_items P.LongDouble s.gauges) o₂ s₂
                    (Fits-right r two (gauges_said P r s) all)
                  ∙ ap (λ x. ok (x, s₂)) (entries-emit P r s))
            ∙ bind-ok (flush_totals P r (emit r (entries_said P r s) nothing)) (last_part r)
                (totals-returns P r s s₂ (Fits-right r (entries_said P r s) total fits));
        viewed = seen;
        valid = valid;
      }

  -- A round of the flush thread returns, for all tables in which no counter and no timer occurs
  -- twice and the figures of each timer with values can be computed, unless `send` raises SIGPIPE.
  -- Its output says of every counter, then of every timer, then of every gauge, in the order of the
  -- tables, and at last of their number, the lines for graphite, if graphite is on, and the messages
  -- for ganglia, if ganglia is; with a socket for graphite, the bytes of the text that `send` takes
  -- are sent. The round sets every counter to 0, empties every timer, keeps the gauges, records the
  -- time of sending if graphite is on and has a socket, also where `send` failed, and changes no
  -- other stat. The invariant is kept. With ganglia on, the values and the percentile's name have to
  -- fit their buffers. `time(NULL)` is below 10^19, and below 10^11 at the time of sending.
  pub flush_round-returns :
      (now sent : ℕ) (s : State P)
      → SuffixFits P r
      → Fits r (round_said P r s)
      → Survives r
      → r.ts ≡ pos now
      → now < 10 ^ 19
      → r.sent_at ≡ pos sent
      → sent < 10 ^ 11
      → IsValid P s
      → Distinct (P.hash_items P.LongDouble s.counters)
      → Distinct (P.hash_items (Timer P) s.timers)
      → All (Flushable r) (P.hash_items (Timer P) s.timers)
      → (t : State P) × (flush_round P r s ≡ ok (reported P r s, t))
        × (view P t ≡ flushed r sent (view P s))
        × IsValid P t
  flush_round-returns now sent s short fits alive e small f digits v dc dt figures =
      let c = flush_round-Collected now s short fits e small v dc dt figures in
      let o = emit r (round_said P r s) nothing in
      let l = last_part-Sent H r sent o c.after f digits c.valid alive in
      (l.after, c.leads ∙ l.returns, l.viewed ∙ ap (recording r sent) c.viewed, l.valid)

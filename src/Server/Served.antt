-- ===== src/Server/Served.antt =====
-- What holds in every state of the server of src/statsd.c, whatever packets came and however often
-- the flush thread ran.
use statsd_c.Base.{◌∙◌, codes, ◌<◌, ◌^◌, ℕ, ◌≡◌, sym, Bool, Option, Bytes, arith}
use mathlib.Core.Path.{subst}
use statsd_c.Base.Assoc.{Distinct-of_map_values}
use statsd_c.Exec.{Result, ok}
use statsd_c.Strings.Decimal.{pos, print_ld}
use statsd_c.Platform.{Platform}
use statsd_c.Platform.Laws.{HashLaws, ArrayLaws}
use statsd_c.Store.{State, Stat, Timer}
use statsd_c.Store.View.{view, IsValid}
use statsd_c.Worker.Mixed.{packets-Does}
use statsd_c.Flush.{Round, flush_round}
use statsd_c.Flush.Posted
use statsd_c.Flush.Whole.{reported, flush_round-returns}
use statsd_c.Startup.{initial_state, init_stats}
use statsd_c.Startup.Locks.{Unloaded, posted, posted-IsValid, first_stats-Does, init_stats-steps}
use statsd_c.Startup.Names.{initial_state-IsValid}
use statsd_c.Server.{Ready, Reached, begun_at, packets_taken, round_done}
use statsd_c.Server.Names.{NamesDiffer, set_stat-Keeps, AllMean-Keeps, flushed-Keeps}

same_state :
    {A S : Type 0} {r : Result (A × S)} {a b : A} {s t : S} → r ≡ ok (a, s) → r ≡ ok (b, t) → s ≡ t
same_state e f = ground (arith, e, f)

module _ {P : Platform} (H : HashLaws P) (A : ArrayLaws P) where
  -- The semaphores are free, every timer's count is right, and no name comes twice into a table.
  pub record Served (s : State P) : Type 0 where
    pub valid : IsValid P s
    pub names : NamesDiffer P (view P s)

  -- The tables are empty at first.
  initial_state-NamesDiffer : NamesDiffer P (view P (initial_state P))
  unfolding initial_state
  initial_state-NamesDiffer = record {
    stats = rw (H.items-empty Stat) tt;
    counters = rw (H.items-empty P.LongDouble) tt;
    gauges = rw (H.items-empty P.LongDouble) tt;
    timers = rw (H.items-empty (Timer P)) tt;
  }

  init_stats-Served :
      (clear_stats : Bool) (file : Option (Option Bytes)) (now : ℕ) (s : State P)
      → Unloaded clear_stats file
      → now < 10 ^ 11
      → init_stats P clear_stats file (pos now) (initial_state P) ≡ ok (tt, s)
      → Served s
  init_stats-Served clear_stats file now s u small e =
      let (v, _) = initial_state-IsValid H in
      let d =
        first_stats-Does H (print_ld (pos now)) (posted H (initial_state P))
          (posted-IsValid H (initial_state P) v) in
      let steps = init_stats-steps H clear_stats file now (initial_state P) u small in
      subst Served (same_state (steps ∙ d.returns) e) (record {
        valid = d.valid;
        names = subst (NamesDiffer P) (sym d.viewed) (
            set_stat-Keeps P (codes "messages") (codes "bad_lines_seen") _ _ (
              set_stat-Keeps P (codes "messages") (codes "last_msg_seen") _ _ (
                set_stat-Keeps P (codes "graphite") (codes "last_flush") _ _
                  initial_state-NamesDiffer)));
      })

  -- A round returns in a state that is served.
  round-returns :
      (r : Round) (now sent : ℕ) (s : State P)
      → Served s
      → Ready H A r now sent s
      → (t : State P) × (flush_round P r s ≡ ok (reported P r s, t))
        × (view P t ≡ Posted.flushed r sent (view P s))
        × IsValid P t
  round-returns r now sent s v c =
      flush_round-returns A r H now sent s c.suffix c.values c.alive c.at_start c.start_in_range
        c.at_end c.end_in_range v.valid v.names.counters
        (Distinct-of_map_values (λ (t : Timer P). P.array_elems t.values)
          (P.hash_items (Timer P) s.timers) v.names.timers)
        c.figures

  -- In every state that the server reaches, from its start without a file to load, by batches of
  -- packets and rounds of the flush thread in any order, the semaphores are free, the count of every
  -- timer is the number of its values, and no name comes twice into a table.
  pub Reached-Served : (s : State P) → Reached H A s → Served s
  Reached-Served s (begun_at clear_stats file now _ u small e) =
      init_stats-Served clear_stats file now s u small e
  Reached-Served t (packets_taken size fuel ts clock g q s _ before b e) =
      let v = Reached-Served s before in
      let (q', t', drained, _, viewed, valid) =
        packets-Does H A size fuel ts clock g s b.positive b.room b.enough b.mean b.in_range
          v.valid in
      subst Served (same_state drained e) (record {
        valid = valid;
        names = subst (NamesDiffer P) (sym viewed) (AllMean-Keeps H A ts b.mean _ v.names);
      })
  Reached-Served t (round_done r now sent o s _ before c e) =
      let v = Reached-Served s before in
      let (t', returns, viewed, valid) = round-returns r now sent s v c in
      subst Served (same_state returns e) (record {
        valid = valid;
        names = subst (NamesDiffer P) (sym viewed) (flushed-Keeps P r sent _ v.names);
      })

  -- What came before does not keep the flush thread from a round. In every state that the server
  -- reaches, from its start without a file to load, by batches of packets and rounds in any order, a
  -- round that can print its values and compute the figures of the timers, and in which `send` raises
  -- no SIGPIPE, returns: its report is that of the tables as they are, it sets the counters to 0,
  -- empties the timers and records the time of sending, if graphite is on and has a socket, and the
  -- state behind it is reached again.
  pub Reached-flush_round :
      (r : Round) (now sent : ℕ) (s : State P)
      → Reached H A s
      → Ready H A r now sent s
      → (t : State P) × (flush_round P r s ≡ ok (reported P r s, t))
        × (view P t ≡ Posted.flushed r sent (view P s))
        × Reached H A t
  Reached-flush_round r now sent s before c =
      let (t, returns, viewed, _) = round-returns r now sent s (Reached-Served s before) c in
      (t, returns, viewed, round_done r now sent (reported P r s) s t before c returns)

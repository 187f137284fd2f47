-- ===== src/Packet/Long.antt =====
-- Names that are too long for the entries that src/statsd.c makes for them.
use statsd_c.Base.{
  ℕ, ◌≤◌, ◌≡◌, none, some, List, [], ◌∷◌, Bytes, All, map, arith, length, length-append,
}
use statsd_c.Exec.{fault, overflow, bind-fault}
use statsd_c.Strings.{sanitize_key}
use statsd_c.Strings.Decimal.{ℤ}
use statsd_c.Platform.{Platform}
use statsd_c.Store.{State, Timer}
use statsd_c.Store.Update.{update_counter, update_gauge_plusminus, update_gauge, update_timer}
use statsd_c.Packet.Tokens.{Free}
use statsd_c.Packet.{
  unset, post_token, value_loop, process_tokens, process_stats_packet, update_last_msg_seen,
}
use statsd_c.Packet.Split.{report_fields, token_fields-render}
use statsd_c.Packet.Refine.{value_of, tokens-packet}
use statsd_c.Packet.Effect.{long_enough}
use statsd_c.Packet.Report.{
  Report, counter, gauge, gauge_down, gauge_up, timer, IsWritable, render, render_all,
  render_packet,
}

module _ (P : Platform) where
  -- The table that the report is for has no entry of this name.
  abbrev pub IsNew : Bytes → Report → State P → Type 0
  IsNew key (counter n r) s = P.hash_find P.LongDouble key s.counters ≡ none
  IsNew key (gauge n) s = P.hash_find P.LongDouble key s.gauges ≡ none
  IsNew key (gauge_down n) s = P.hash_find P.LongDouble key s.gauges ≡ none
  IsNew key (gauge_up n) s = P.hash_find P.LongDouble key s.gauges ≡ none
  IsNew key (timer n) s = P.hash_find (Timer P) key s.timers ≡ none

  post_token-fault :
      (key : Bytes) (r : Report) (s : State P)
      → 100 ≤ length key
      → IsWritable r
      → IsNew key r s
      → post_token P key (report_fields r) s ≡ fault overflow
  unfolding post_token update_counter update_gauge_plusminus update_gauge update_timer
  post_token-fault key (counter n none) s long w new = ground (arith, value_of n w, new, long)
  post_token-fault key (counter n (some r)) s long w new = ground (arith, value_of n w.0, new, long)
  post_token-fault key (gauge (c ∷ n)) s long w new =
      ground (arith, value_of (c ∷ n) w, new, long, w.0)
  post_token-fault key (gauge []) s long w new = absurd w
  post_token-fault key (gauge_down n) s long w new = ground (arith, value_of n w, new, long)
  post_token-fault key (gauge_up n) s long w new = ground (arith, value_of n w, new, long)
  post_token-fault key (timer n) s long w new = ground (arith, value_of n w, new, long)

  value_loop-fault :
      (key : Bytes) (r : Report) (rest : List Bytes) (s : State P)
      → 100 ≤ length key
      → IsWritable r
      → IsNew key r s
      → value_loop P key unset (render r ∷ rest) s ≡ fault overflow
  unfolding value_loop
  value_loop-fault key r rest s long w new = rw (token_fields-render r unset w) (
      bind-fault (post_token P key (report_fields r)) (λ u. value_loop P key u rest)
        (post_token-fault key r s long w new))

  -- A packet that reports on a name which is new to the table of its first report, and which has 100
  -- bytes or more after `sanitize_key`, writes past the end of the key of the entry that is made for
  -- it: with a counter, a gauge or a timer, and whatever reports follow.
  pub process_stats_packet-long :
      (now : ℤ) (c : ℕ) (name : Bytes) (r : Report) (rs : List Report) (s : State P)
      → Free b':' (c ∷ name)
      → 100 ≤ length (sanitize_key (c ∷ name))
      → All IsWritable (r ∷ rs)
      → IsNew (sanitize_key (c ∷ name)) r s
      → process_stats_packet P now (render_packet (c ∷ name) (r ∷ rs)) s ≡ fault overflow
  unfolding process_tokens
  process_stats_packet-long now c name r rs s f long w new =
      rw
        (
          long_enough P now (render_packet (c ∷ name) (r ∷ rs))
              (omega (arith, length-append name (render_all (r ∷ rs)))),
          tokens-packet c name (r ∷ rs) f w,
        )
        (bind-fault (process_tokens P ((c ∷ name) ∷ map render (r ∷ rs)))
          (λ _. update_last_msg_seen P now) {s = s}
          (value_loop-fault (sanitize_key (c ∷ name)) r (map render rs) s long w.0 new))

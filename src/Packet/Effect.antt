-- ===== src/Packet/Effect.antt =====
-- `process_stats_packet` of src/statsd.c as a whole, on packets that are written as they should be.
use statsd_c.Base.{
  ℕ, ◌≤◌, ◌<◌, ◌^◌, ◌≡◌, ◌∙◌, refl, ap, true, List, ◌∷◌, Bytes, All, codes, arith, length,
  length-append,
}
use statsd_c.Exec.{◌>>◌}
use statsd_c.Strings.{sanitize_key}
use statsd_c.Strings.Decimal.{ℤ, pos, print_ld, atol-print_ld, length-print_ld}
use statsd_c.Platform.{Platform}
use statsd_c.Platform.Laws.{HashLaws, ArrayLaws}
use statsd_c.Store.{State, fits_key}
use statsd_c.Store.View.{Metrics, view, IsValid, Does, Does-then, count, set_stat}
use statsd_c.Store.Update.{increment}
use statsd_c.Store.Refine.{update_counter-Does}
use statsd_c.Store.Timers.{update_stat-Does}
use statsd_c.Packet.Tokens.{Free, tokens, tokens-Free}
use statsd_c.Packet.{unset, process_tokens, update_last_msg_seen, process_stats_packet}
use statsd_c.Packet.Refine.{value_loop-Does, tokens-packet}
use statsd_c.Packet.Report.{Report, IsWritable, render_all, render_packet, meanings}

pub long_enough :
    (P : Platform) (now : ℤ) (buf : Bytes)
    → 2 ≤ length buf
    → process_stats_packet P now buf
      ≡ (process_tokens P (tokens b':' buf) >> update_last_msg_seen P now)
unfolding process_stats_packet
long_enough P now buf h = ground arith

module _ {P : Platform} (H : HashLaws P) where
  -- `messages.last_msg_seen` becomes the time `now`.
  abbrev pub seen : ℕ → Metrics P → Metrics P
  seen now = set_stat P (codes "messages") (codes "last_msg_seen") (pos now)

  pub update_last_msg_seen-Does :
      (now : ℕ) (s : State P)
      → now < 10 ^ 19
      → IsValid P s
      → Does P (update_last_msg_seen P (pos now)) s (seen now)
  unfolding update_last_msg_seen
  update_last_msg_seen-Does now s small v =
      let d =
        update_stat-Does H (codes "messages") (codes "last_msg_seen") (print_ld (pos now)) s refl
          refl v in
      record {
        after = d.after;
        returns = ground (arith, d.returns, length-print_ld now);
        viewed =
            d.viewed
            ∙ ap (λ n. set_stat P (codes "messages") (codes "last_msg_seen") n (view P s))
                (atol-print_ld (pos now));
        locks_kept = d.locks_kept;
        valid = d.valid;
      }

  module _ (A : ArrayLaws P) where
    -- A packet that names a metric (a text with no colon, at most 99 bytes long after
    -- `sanitize_key`) and writes any number of reports on it, one at least, is carried out
    -- completely: the call returns, the metrics change by what each report means, in their order,
    -- `messages.last_msg_seen` is set to the time, nothing else changes, and the semaphores and
    -- the invariant are kept.
    pub process_stats_packet-Does :
        (c : ℕ) (name : Bytes) (r : Report) (rs : List Report) (now : ℕ) (s : State P)
        → Free b':' (c ∷ name)
        → fits_key (sanitize_key (c ∷ name)) ≡ true
        → All IsWritable (r ∷ rs)
        → now < 10 ^ 19
        → IsValid P s
        → Does P
            (process_stats_packet P (pos now) (render_packet (c ∷ name) (r ∷ rs)))
            s
            (λ m. seen now (meanings P (sanitize_key (c ∷ name)) (r ∷ rs) m))
    unfolding process_tokens
    process_stats_packet-Does c name r rs now s free fits w small v =
        let loop = value_loop-Does H A (sanitize_key (c ∷ name)) fits (r ∷ rs) unset s w v in
        let last = update_last_msg_seen-Does now loop.after small loop.valid in
        rw
          (
            long_enough P (pos now) (render_packet (c ∷ name) (r ∷ rs))
                (omega (arith, length-append name (render_all (r ∷ rs)))),
            tokens-packet c name (r ∷ rs) free w,
          )
          (Does-then P loop last)

  -- A name alone, of two bytes at least, adds one to the counter of that name.
  pub process_stats_packet-name :
      (c d : ℕ) (name : Bytes) (now : ℕ) (s : State P)
      → Free b':' (c ∷ d ∷ name)
      → fits_key (sanitize_key (c ∷ d ∷ name)) ≡ true
      → now < 10 ^ 19
      → IsValid P s
      → Does P (process_stats_packet P (pos now) (c ∷ d ∷ name)) s (λ m.
        seen now (
          count P
            (sanitize_key (c ∷ d ∷ name))
            (P.widen (increment P (P.of_nat 1) (P.of_nat 1)))
            m))
  unfolding process_tokens
  process_stats_packet-name c d name now s free fits small v =
      let add =
        update_counter-Does H (sanitize_key (c ∷ d ∷ name)) (P.of_nat 1) (P.of_nat 1) s fits v in
      let last = update_last_msg_seen-Does now add.after small add.valid in
      rw (long_enough P (pos now) (c ∷ d ∷ name) (omega arith), tokens-Free b':' c (d ∷ name) free)
        (Does-then P add last)

-- ===== src/Packet/Faults.antt =====
-- Packets on which `process_stats_packet` of src/statsd.c runs into undefined behaviour, and a
-- bare number whose value is not used.
use statsd_c.Base.{
  ℕ, ◌≤◌, ◌<◌, ◌^◌, ◌≡◌, ◌∙◌, refl, ap, true, false, none, [], ◌∷◌, ◌++◌, Bytes, All, arith, length,
  length-append,
}
use mathlib.Core.Path.{subst}
use statsd_c.Exec.{fault, uninitialised, null_pointer, use_after_free, bind-ok, bind-fault}
use statsd_c.Strings.{sanitize_key}
use statsd_c.Strings.Decimal.{ℤ, pos}
use statsd_c.Platform.{Platform}
use statsd_c.Platform.Laws.{HashLaws, ArrayLaws}
use statsd_c.Store.{State, fits_key}
use statsd_c.Store.View.{IsValid, Does, Does-then}
use statsd_c.Packet.Tokens.{Free, tokens, tokens-nil, tokens-append, tokens-Free, tokens-delimiter}
use statsd_c.Packet.{
  CharValue, unset, live, freed, no_fields, has_pipe, token_fields, post_token, value_loop,
  process_tokens, process_stats_packet, update_last_msg_seen,
}
use statsd_c.Packet.Split.{report_fields, token_fields-render}
use statsd_c.Packet.Refine.{render-cons, post_token-TokenDoes, Free-render}
use statsd_c.Packet.Effect.{long_enough, seen, update_last_msg_seen-Does}
use statsd_c.Packet.Report.{Report, counter, gauge, IsNumber, IsWritable, render, meaning, meanings}

has_pipe-Free : (t : Bytes) → Free b'|' t → has_pipe t ≡ false
unfolding has_pipe
has_pipe-Free [] f = refl
has_pipe-Free (c ∷ t) f = ground (arith, has_pipe-Free t f.1)

-- A token with no pipe sets none of the variables.
bare_fields : (t : Bytes) (v : CharValue) → Free b'|' t → token_fields t v ≡ no_fields v
unfolding token_fields
bare_fields t v f = rw (has_pipe-Free t f)

tokens-colons : (buf : Bytes) → All (λ c. c ≡ b':') buf → tokens b':' buf ≡ []
tokens-colons [] h = tokens-nil b':'
tokens-colons (c ∷ buf) h = rw h.0 (tokens-delimiter b':' buf ∙ tokens-colons buf h.1)

module _ (P : Platform) (now : ℤ) (s : State P) where
  -- A packet of colons: `key_name` is still NULL when it is used.
  process_stats_packet-colons :
      (buf : Bytes)
      → All (λ c. c ≡ b':') buf
      → 2 ≤ length buf
      → process_stats_packet P now buf s ≡ fault null_pointer
  unfolding process_tokens
  process_stats_packet-colons buf h l = rw (long_enough P now buf l, tokens-colons buf h) refl

  -- A number with no type, as in "name:1": `charvalue` was never set.
  pub process_stats_packet-bare :
      (c d : ℕ) (name number : Bytes)
      → Free b':' (c ∷ name)
      → Free b':' (d ∷ number)
      → Free b'|' (d ∷ number)
      → process_stats_packet P now (c ∷ name ++ b':' ∷ d ∷ number) s ≡ fault uninitialised
  unfolding process_tokens value_loop post_token
  process_stats_packet-bare c d name number f g h =
      rw
        (
          long_enough P now (c ∷ name ++ b':' ∷ d ∷ number)
              (omega (arith, length-append name (b':' ∷ d ∷ number))),
          tokens-append b':' c name (d ∷ number) f,
          tokens-Free b':' d number g,
          bare_fields (d ∷ number) unset h,
        )
        refl

-- A name, a written report, and a number with no type behind it.
abbrev pub bare_after : Bytes → Report → Bytes → Bytes
bare_after name r number = name ++ b':' ∷ (render r ++ b':' ∷ number)

tokens-bare_after :
    (c d : ℕ) (name number : Bytes) (r : Report)
    → Free b':' (c ∷ name)
    → Free b':' (d ∷ number)
    → IsWritable r
    → tokens b':' (bare_after (c ∷ name) r (d ∷ number)) ≡ (c ∷ name) ∷ render r ∷ (d ∷ number) ∷ []
tokens-bare_after c d name number r f g w =
    let (e, u, p) = render-cons r w in
    tokens-append b':' c name (render r ++ b':' ∷ d ∷ number) f
    ∙ ap (◌∷◌ (c ∷ name)) (
        rw p (
          tokens-append b':' e u (d ∷ number) (subst (Free b':') p (Free-render r w))
          ∙ ap (◌∷◌ (e ∷ u)) (tokens-Free b':' d number g)))

length-bare_after :
    (c d : ℕ) (name number : Bytes) (r : Report) → 2 ≤ length (bare_after (c ∷ name) r (d ∷ number))
length-bare_after c d name number r =
    omega (arith, length-append name (b':' ∷ (render r ++ b':' ∷ d ∷ number)))

module _ {P : Platform} (H : HashLaws P) (A : ArrayLaws P) where
  -- The loop takes the number for another report of the counter before it.
  value_loop-stale :
      (key n bare : Bytes) (s : State P)
      → fits_key key ≡ true
      → IsNumber n
      → Free b'|' bare
      → IsValid P s
      → Does P
          (value_loop P key unset (render (counter n none) ∷ bare ∷ []))
          s
          (meanings P key (counter n none ∷ counter n none ∷ []))
  unfolding value_loop
  value_loop-stale key n bare s fits w h v =
      let r = counter n none in
      let a = post_token-TokenDoes H A key fits r s w v in
      let b = post_token-TokenDoes H A key fits r a.after w a.valid in
      record {
        after = b.after;
        returns = rw (token_fields-render r unset w) (
            bind-ok (post_token P key (report_fields r)) (λ u. value_loop P key u (bare ∷ []))
              a.returns
            ∙ rw (bare_fields bare (live n) h) (
                bind-ok (post_token P key (report_fields r)) (λ u. value_loop P key u [])
                  b.returns));
        viewed = b.viewed ∙ ap (meaning P key r) a.viewed;
        locks_kept = b.locks_kept ∙ a.locks_kept;
        valid = b.valid;
      }

  value_loop-freed :
      (key n bare : Bytes) (s : State P)
      → fits_key key ≡ true
      → IsNumber n
      → Free b'|' bare
      → IsValid P s
      → value_loop P key unset (render (gauge n) ∷ bare ∷ []) s ≡ fault use_after_free
  unfolding value_loop
  value_loop-freed key n bare s fits w h v =
      let r = gauge n in
      let a = post_token-TokenDoes H A key fits r s w v in
      rw (token_fields-render r unset w) (
        bind-ok (post_token P key (report_fields r)) (λ u. value_loop P key u (bare ∷ [])) a.returns
        ∙ rw (bare_fields bare freed h) (unfold post_token in refl))

  -- A number with no type behind a counter, as in "name:5|c:7": its own value is not used, the
  -- counter's is added a second time.
  pub process_stats_packet-stale :
      (c d : ℕ) (name n number : Bytes) (now : ℕ) (s : State P)
      → Free b':' (c ∷ name)
      → fits_key (sanitize_key (c ∷ name)) ≡ true
      → IsNumber n
      → Free b':' (d ∷ number)
      → Free b'|' (d ∷ number)
      → now < 10 ^ 19
      → IsValid P s
      → Does P
          (process_stats_packet P (pos now) (bare_after (c ∷ name) (counter n none) (d ∷ number)))
          s
          (λ m.
            seen H now
              (meanings P (sanitize_key (c ∷ name)) (counter n none ∷ counter n none ∷ []) m))
  unfolding process_tokens
  process_stats_packet-stale c d name n number now s f fits w g h small v =
      let loop = value_loop-stale (sanitize_key (c ∷ name)) n (d ∷ number) s fits w h v in
      let last = update_last_msg_seen-Does H now loop.after small loop.valid in
      rw
        (
          long_enough P (pos now) (bare_after (c ∷ name) (counter n none) (d ∷ number))
              (length-bare_after c d name number (counter n none)),
          tokens-bare_after c d name number (counter n none) f g w,
        )
        (Does-then P loop last)

  -- A number with no type behind a gauge, as in "name:5|g:7": the memory of `charvalue` is read
  -- after it was freed.
  pub process_stats_packet-freed :
      (c d : ℕ) (name n number : Bytes) (now : ℤ) (s : State P)
      → Free b':' (c ∷ name)
      → fits_key (sanitize_key (c ∷ name)) ≡ true
      → IsNumber n
      → Free b':' (d ∷ number)
      → Free b'|' (d ∷ number)
      → IsValid P s
      → process_stats_packet P now (bare_after (c ∷ name) (gauge n) (d ∷ number)) s
        ≡ fault use_after_free
  unfolding process_tokens
  process_stats_packet-freed c d name n number now s f fits w g h v =
      rw
        (
          long_enough P now (bare_after (c ∷ name) (gauge n) (d ∷ number))
              (length-bare_after c d name number (gauge n)),
          tokens-bare_after c d name number (gauge n) f g w,
        )
        (bind-fault (process_tokens P ((c ∷ name) ∷ render (gauge n) ∷ (d ∷ number) ∷ []))
          (λ _. update_last_msg_seen P now) {s = s}
          (value_loop-freed (sanitize_key (c ∷ name)) n (d ∷ number) s fits w h v))

-- ===== src/Packet/Refine.antt =====
-- The tokens of written reports, and what the loop over them does.
use statsd_c.Base.{
  ℕ, ◌≡◌, ◌∙◌, refl, ap, true, none, some, List, [], ◌∷◌, ◌++◌, Bytes, All, codes, map, arith,
  All-append,
}
use mathlib.Core.List.{append-nil}
use mathlib.Core.Path.{subst}
use statsd_c.Exec.{Exec, ok, bind-ok}
use statsd_c.Strings.{sanitize_value}
use statsd_c.Strings.Sanitize.{sanitize_value-eq_self}
use statsd_c.Platform.{Platform}
use statsd_c.Platform.Laws.{HashLaws, ArrayLaws}
use statsd_c.Store.{State, fits_key}
use statsd_c.Store.View.{view, IsValid, Does}
use statsd_c.Store.Refine.{update_counter-Does, update_gauge_plusminus-Does}
use statsd_c.Store.Timers.{update_timer-Does}
use statsd_c.Packet.Tokens.{Free, tokens, tokens-append, tokens-Free}
use statsd_c.Packet.{CharValue, live, freed, post_token, value_loop}
use statsd_c.Packet.Split.{number_chars, All-of_IsNumber, token_fields-render, report_fields}
use statsd_c.Packet.Report.{
  Report, counter, gauge, gauge_down, gauge_up, timer, IsNumber, IsWritable, render, render_all,
  meaning, meanings,
}

pub value_of : (n : Bytes) → IsNumber n → sanitize_value n ≡ n
value_of n w = sanitize_value-eq_self n (number_chars n (All-of_IsNumber n w)).2

-- What is left in `charvalue`.
abbrev pub left_in : Report → CharValue
left_in (counter n r) = live n
left_in (timer n) = live n
left_in _ = freed

module _ {P : Platform} (H : HashLaws P) (A : ArrayLaws P) (key : Bytes)
    (fits : fits_key key ≡ true) where
  -- One token: the update behind it, and `charvalue`.
  pub record TokenDoes (r : Report) (s : State P) : Type 0 where
    pub after : State P
    pub returns : post_token P key (report_fields r) s ≡ ok (left_in r, after)
    pub viewed : view P after ≡ meaning P key r (view P s)
    pub locks_kept : after.locks ≡ s.locks
    pub valid : IsValid P after

  token-of :
      (r : Report) (s : State P) {m : Exec (State P) (Unit {0})} (d : Does P m s (meaning P key r))
      → post_token P key (report_fields r) s ≡ ok (left_in r, d.after)
      → TokenDoes r s
  token-of r s d e = record {
    after = d.after;
    returns = e;
    viewed = d.viewed;
    locks_kept = d.locks_kept;
    valid = d.valid;
  }

  pub post_token-TokenDoes : (r : Report) (s : State P) → IsWritable r → IsValid P s → TokenDoes r s
  unfolding post_token
  post_token-TokenDoes (counter n none) s w v =
      let d = update_counter-Does H key (P.strtod n) (P.of_nat 1) s fits v in
      token-of (counter n none) s d (ground (arith, value_of n w, d.returns))
  post_token-TokenDoes (counter n (some r)) s w v =
      let d = update_counter-Does H key (P.strtod n) (P.strtod r) s fits v in
      token-of (counter n (some r)) s d (ground (arith, value_of n w.0, d.returns))
  post_token-TokenDoes (gauge (c ∷ n)) s w v =
      let d = (update_gauge_plusminus-Does H key (P.strtod (c ∷ n)) s fits v).0 in
      token-of (gauge (c ∷ n)) s d (ground (arith, value_of (c ∷ n) w, d.returns, w.0))
  post_token-TokenDoes (gauge []) s w v = absurd w
  post_token-TokenDoes (gauge_down n) s w v =
      let d = (update_gauge_plusminus-Does H key (P.strtod n) s fits v).1 in
      token-of (gauge_down n) s d (ground (arith, value_of n w, d.returns))
  post_token-TokenDoes (gauge_up n) s w v =
      let d = (update_gauge_plusminus-Does H key (P.strtod n) s fits v).2 in
      token-of (gauge_up n) s d (ground (arith, value_of n w, d.returns))
  post_token-TokenDoes (timer n) s w v =
      let d = update_timer-Does H A key (P.strtod n) s fits v in
      token-of (timer n) s d (ground (arith, value_of n w, d.returns))

  pub value_loop-Does :
      (rs : List Report) (cv : CharValue) (s : State P)
      → All IsWritable rs
      → IsValid P s
      → Does P (value_loop P key cv (map render rs)) s (meanings P key rs)
  unfolding value_loop
  value_loop-Does [] cv s w v = record {
    after = s;
    returns = refl;
    viewed = refl;
    locks_kept = refl;
    valid = v;
  }
  value_loop-Does (r ∷ rs) cv s w v =
      let t = post_token-TokenDoes r s w.0 v in
      let d = value_loop-Does rs (left_in r) t.after w.1 t.valid in
      record {
        after = d.after;
        returns = rw (token_fields-render r cv w.0) (
            bind-ok (post_token P key (report_fields r)) (λ v'. value_loop P key v' (map render rs))
              t.returns
            ∙ d.returns);
        viewed = d.viewed ∙ ap (meanings P key rs) t.viewed;
        locks_kept = d.locks_kept ∙ t.locks_kept;
        valid = d.valid;
      }

-- A number and what follows it hold no colon.
Free-number : (n rest : Bytes) → IsNumber n → Free b':' rest → Free b':' (n ++ rest)
Free-number n rest w f = All-append _ n rest (number_chars n (All-of_IsNumber n w)).0 f

pub Free-render : (r : Report) → IsWritable r → Free b':' (render r)
Free-render (counter n none) w = Free-number n (codes "|c") w (refl, (refl, tt))
Free-render (counter n (some r)) w =
    Free-number n (codes "|c|@" ++ r) w.0 (refl, (refl, (refl, (refl, w.1))))
Free-render (gauge n) w = Free-number n (codes "|g") w (refl, (refl, tt))
Free-render (gauge_down n) w = (refl, Free-number n (codes "|g") w (refl, (refl, tt)))
Free-render (gauge_up n) w = (refl, Free-number n (codes "|g") w (refl, (refl, tt)))
Free-render (timer n) w = Free-number n (codes "|ms") w (refl, (refl, (refl, tt)))

pub render-cons : (r : Report) → IsWritable r → (c : ℕ) × (t : Bytes) × (render r ≡ c ∷ t)
render-cons (counter (c ∷ n) none) w = (c, n ++ codes "|c", refl)
render-cons (counter [] none) w = absurd w
render-cons (counter (c ∷ n) (some r)) w = (c, n ++ (codes "|c|@" ++ r), refl)
render-cons (counter [] (some r)) w = absurd w.0
render-cons (gauge (c ∷ n)) w = (c, n ++ codes "|g", refl)
render-cons (gauge []) w = absurd w
render-cons (gauge_down n) w = (b'-', n ++ codes "|g", refl)
render-cons (gauge_up n) w = (b'+', n ++ codes "|g", refl)
render-cons (timer (c ∷ n)) w = (c, n ++ codes "|ms", refl)
render-cons (timer []) w = absurd w

-- A text with no colon in front of written reports is the first token.
pub tokens-packet :
    (c : ℕ) (t : Bytes) (rs : List Report)
    → Free b':' (c ∷ t)
    → All IsWritable rs
    → tokens b':' (c ∷ t ++ render_all rs) ≡ (c ∷ t) ∷ map render rs
tokens-packet c t [] f w = rw append-nil (tokens-Free b':' c t f)
tokens-packet c t (r ∷ rs) f w =
    let (d, u, e) = render-cons r w.0 in
    tokens-append b':' c t (render r ++ render_all rs) f
    ∙ ap (◌∷◌ (c ∷ t)) (rw e (tokens-packet d u rs (subst (Free b':') e (Free-render r w.0)) w.1))

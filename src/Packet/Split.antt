-- ===== src/Packet/Split.antt =====
-- How `process_stats_packet` splits the text of a report.
use statsd_c.Base.{
  ℕ, ◌≡◌, ◌∙◌, refl, ap, true, false, ◌||◌, none, some, List, [], ◌∷◌, ◌++◌, Bytes, All, ◌==◌,
  codes, arith,
}
use statsd_c.Strings.{is_digit, is_value_char, is_gaugevalue_char, sanitize_gaugevalue}
use statsd_c.Strings.Sanitize.{sanitize_gaugevalue-eq_self}
use statsd_c.Packet.Tokens.{Free, tokens, tokens-append, tokens-Free}
use statsd_c.Packet.{Fields, CharValue, live, has_pipe, token_fields, field_loop, no_fields}
use statsd_c.Packet.Report.{
  Report, counter, gauge, gauge_down, gauge_up, timer, IsNumber, IsWritable, render,
}

-- The characters of a number are no separators, and both filters keep them.
pub number_chars :
    (n : Bytes)
    → All (λ x. (is_digit x || x == b'.') ≡ true) n
    → Free b':' n
      × Free b'|' n
      × All (λ c. is_value_char c ≡ true) n
      × All (λ c. is_gaugevalue_char c ≡ true) n
number_chars [] h = (tt, tt, tt, tt)
number_chars (c ∷ n) h = ground (arith, number_chars n h.1)

pub All-of_IsNumber : (n : Bytes) → IsNumber n → All (λ x. (is_digit x || x == b'.') ≡ true) n
All-of_IsNumber [] h = absurd h
All-of_IsNumber (c ∷ n) h = h

pub has_pipe-append : (a b : Bytes) → has_pipe (a ++ b'|' ∷ b) ≡ true
unfolding has_pipe
has_pipe-append [] b = refl
has_pipe-append (c ∷ a) b = ground (arith, has_pipe-append a b)

-- The fields of a written report.
abbrev pub fields : Report → List Bytes
fields (counter n none) = n ∷ codes "c" ∷ []
fields (counter n (some r)) = n ∷ codes "c" ∷ (b'@' ∷ r) ∷ []
fields (gauge n) = n ∷ codes "g" ∷ []
fields (gauge_down n) = (b'-' ∷ n) ∷ codes "g" ∷ []
fields (gauge_up n) = (b'+' ∷ n) ∷ codes "g" ∷ []
fields (timer n) = n ∷ codes "ms" ∷ []

pub tokens-render : (r : Report) → IsWritable r → tokens b'|' (render r) ≡ fields r
tokens-render (counter (c ∷ n) none) w =
    tokens-append b'|' c n (codes "c") (number_chars (c ∷ n) w).1
    ∙ ap (◌∷◌ (c ∷ n)) (tokens-Free b'|' b'c' [] (refl, tt))
tokens-render (counter [] none) w = absurd w
tokens-render (counter (c ∷ n) (some r)) w =
    tokens-append b'|' c n (codes "c|@" ++ r) (number_chars (c ∷ n) w.0).1
    ∙ ap (◌∷◌ (c ∷ n)) (
        tokens-append b'|' b'c' [] (b'@' ∷ r) (refl, tt)
        ∙ ap (◌∷◌ (codes "c")) (tokens-Free b'|' b'@' r (refl, w.2)))
tokens-render (counter [] (some r)) w = absurd w.0
tokens-render (gauge (c ∷ n)) w =
    tokens-append b'|' c n (codes "g") (number_chars (c ∷ n) w).1
    ∙ ap (◌∷◌ (c ∷ n)) (tokens-Free b'|' b'g' [] (refl, tt))
tokens-render (gauge []) w = absurd w
tokens-render (gauge_down n) w =
    tokens-append b'|' b'-' n (codes "g") (refl, (number_chars n (All-of_IsNumber n w)).1)
    ∙ ap (◌∷◌ (b'-' ∷ n)) (tokens-Free b'|' b'g' [] (refl, tt))
tokens-render (gauge_up n) w =
    tokens-append b'|' b'+' n (codes "g") (refl, (number_chars n (All-of_IsNumber n w)).1)
    ∙ ap (◌∷◌ (b'+' ∷ n)) (tokens-Free b'|' b'g' [] (refl, tt))
tokens-render (timer (c ∷ n)) w =
    tokens-append b'|' c n (codes "ms") (number_chars (c ∷ n) w).1
    ∙ ap (◌∷◌ (c ∷ n)) (tokens-Free b'|' b'm' (codes "s") (refl, (refl, tt)))
tokens-render (timer []) w = absurd w

-- What the loop over the fields finds.
abbrev pub report_fields : Report → Fields
report_fields (counter n none) = record {
  charvalue = live n;
  is_timer = false;
  is_gauge = false;
  s_sample_rate = none;
}
report_fields (counter n (some r)) = record {
  charvalue = live n;
  is_timer = false;
  is_gauge = false;
  s_sample_rate = some (b'@' ∷ r);
}
report_fields (gauge n) = record {
  charvalue = live n;
  is_timer = false;
  is_gauge = true;
  s_sample_rate = none;
}
report_fields (gauge_down n) = record {
  charvalue = live (b'-' ∷ n);
  is_timer = false;
  is_gauge = true;
  s_sample_rate = none;
}
report_fields (gauge_up n) = record {
  charvalue = live (b'+' ∷ n);
  is_timer = false;
  is_gauge = true;
  s_sample_rate = none;
}
report_fields (timer n) = record {
  charvalue = live n;
  is_timer = true;
  is_gauge = false;
  s_sample_rate = none;
}

pub has_pipe-render : (r : Report) → has_pipe (render r) ≡ true
unfolding has_pipe
has_pipe-render (counter n none) = has_pipe-append n (codes "c")
has_pipe-render (counter n (some r)) = has_pipe-append n (codes "c|@" ++ r)
has_pipe-render (gauge n) = has_pipe-append n (codes "g")
has_pipe-render (gauge_down n) = has_pipe-append n (codes "g")
has_pipe-render (gauge_up n) = has_pipe-append n (codes "g")
has_pipe-render (timer n) = has_pipe-append n (codes "ms")

pub kept : (n : Bytes) → IsNumber n → sanitize_gaugevalue n ≡ n
kept n w = sanitize_gaugevalue-eq_self n (number_chars n (All-of_IsNumber n w)).3

kept_signed :
    (c : ℕ) (n : Bytes)
    → is_gaugevalue_char c ≡ true
    → IsNumber n
    → sanitize_gaugevalue (c ∷ n) ≡ c ∷ n
kept_signed c n e w =
    sanitize_gaugevalue-eq_self (c ∷ n) (e, (number_chars n (All-of_IsNumber n w)).3)

pub field_loop-fields :
    (r : Report) (v : CharValue)
    → IsWritable r
    → field_loop 1 (fields r) (no_fields v) ≡ report_fields r
unfolding field_loop
field_loop-fields (counter n none) v w = rw (kept n w) refl
field_loop-fields (counter n (some r)) v w = rw (kept n w.0) refl
field_loop-fields (gauge n) v w = rw (kept n w) refl
field_loop-fields (gauge_down n) v w = rw (kept_signed b'-' n refl w) refl
field_loop-fields (gauge_up n) v w = rw (kept_signed b'+' n refl w) refl
field_loop-fields (timer n) v w = rw (kept n w) refl

-- The fields of a written report, whatever `charvalue` was.
pub token_fields-render :
    (r : Report) (v : CharValue) → IsWritable r → token_fields (render r) v ≡ report_fields r
unfolding token_fields
token_fields-render r v w = rw (has_pipe-render r, tokens-render r w) (field_loop-fields r v w)

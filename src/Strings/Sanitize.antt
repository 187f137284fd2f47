-- ===== src/Strings/Sanitize.antt =====
-- What src/strings.c makes of a name and of a value.
use mathlib.Core.Path.{subst}
use statsd_c.Base.{ℕ, ◌↔◌, ◌⊎◌, ◌≤◌, ◌≡◌, refl, true, [], ◌∷◌, ◌++◌, Bytes, arith, All, length}
use statsd_c.Strings.{
  is_key_char, is_value_char, is_gaugevalue_char, sanitize_key, sanitize_value, sanitize_gaugevalue,
}

-- Letters, digits, `_` and `-`, by their ASCII codes.
abbrev pub IsPlain : ℕ → Type 0
IsPlain c =
    ((48 ≤ c) × (c ≤ 57)) ⊎ ((65 ≤ c) × (c ≤ 90)) ⊎ ((97 ≤ c) × (c ≤ 122)) ⊎ (c ≡ 95) ⊎ (c ≡ 45)

IsPlain-iff : (c : ℕ) → IsPlain c ↔ (is_key_char c ≡ true)
IsPlain-iff c = ground arith

sanitize_key-allowed : (k : Bytes) → All (λ c. is_key_char c ≡ true) (sanitize_key k)
unfolding sanitize_key
sanitize_key-allowed [] = tt
sanitize_key-allowed (c ∷ p) = ground (arith, sanitize_key-allowed p)

-- A name that is sanitised already is left alone.
pub sanitize_key-eq_self : (k : Bytes) → All (λ c. is_key_char c ≡ true) k → sanitize_key k ≡ k
unfolding sanitize_key
sanitize_key-eq_self [] h = refl
sanitize_key-eq_self (c ∷ p) h = ground (arith, sanitize_key-eq_self p)

All-IsPlain : (k : Bytes) → All (λ c. is_key_char c ≡ true) k → All IsPlain k
All-IsPlain [] h = tt
All-IsPlain (c ∷ p) h = ((IsPlain-iff c).1 h.0, All-IsPlain p h.1)

All-allowed : (k : Bytes) → All IsPlain k → All (λ c. is_key_char c ≡ true) k
All-allowed [] h = tt
All-allowed (c ∷ p) h = ((IsPlain-iff c).0 h.0, All-allowed p h.1)

length-sanitize_key-le : (k : Bytes) → length (sanitize_key k) ≤ length k
unfolding sanitize_key
length-sanitize_key-le [] = omega arith
length-sanitize_key-le (c ∷ p) = ground (arith, length-sanitize_key-le p)

-- What `sanitize_key` returns holds ASCII letters, digits, `_` and `-` only, so none of the
-- separators of the wire format and of the outputs; it is no longer than the name; and the names that
-- it leaves as they are are those that hold nothing else.
pub sanitize_key-All :
    (k : Bytes)
    → All IsPlain (sanitize_key k)
      × (length (sanitize_key k) ≤ length k)
      × ((sanitize_key k ≡ k) ↔ All IsPlain k)
sanitize_key-All k =
    let plain = All-IsPlain (sanitize_key k) (sanitize_key-allowed k) in
    (
      plain,
      length-sanitize_key-le k,
      ((λ e. subst (All IsPlain) e plain), (λ h. sanitize_key-eq_self k (All-allowed k h))),
    )

pub sanitize_key_idem : (k : Bytes) → sanitize_key (sanitize_key k) ≡ sanitize_key k
sanitize_key_idem k = sanitize_key-eq_self (sanitize_key k) (sanitize_key-allowed k)

pub sanitize_key-append : (a b : Bytes) → sanitize_key (a ++ b) ≡ sanitize_key a ++ sanitize_key b
unfolding sanitize_key
sanitize_key-append [] b = refl
sanitize_key-append (c ∷ a) b = ground (arith, sanitize_key-append a b)

pub sanitize_value-eq_self :
    (k : Bytes) → All (λ c. is_value_char c ≡ true) k → sanitize_value k ≡ k
unfolding sanitize_value
sanitize_value-eq_self [] h = refl
sanitize_value-eq_self (c ∷ p) h = ground (arith, sanitize_value-eq_self p)

pub sanitize_gaugevalue-eq_self :
    (k : Bytes) → All (λ c. is_gaugevalue_char c ≡ true) k → sanitize_gaugevalue k ≡ k
unfolding sanitize_gaugevalue
sanitize_gaugevalue-eq_self [] h = refl
sanitize_gaugevalue-eq_self (c ∷ p) h = ground (arith, sanitize_gaugevalue-eq_self p)

pub sanitize_value-All : (k : Bytes) → All (λ c. is_value_char c ≡ true) (sanitize_value k)
unfolding sanitize_value
sanitize_value-All [] = tt
sanitize_value-All (c ∷ p) = ground (arith, sanitize_value-All p)

-- The two filters that a counter's or a timer's number passes are together the second one.
pub sanitize_value-gaugevalue :
    (k : Bytes) → sanitize_value (sanitize_gaugevalue k) ≡ sanitize_value k
unfolding sanitize_value sanitize_gaugevalue
sanitize_value-gaugevalue [] = refl
sanitize_value-gaugevalue (c ∷ p) = ground (arith, sanitize_value-gaugevalue p)

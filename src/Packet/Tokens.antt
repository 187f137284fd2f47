-- ===== src/Packet/Tokens.antt =====
-- `strtok_r` of the C library, and the tokens that a loop over it visits.
use statsd_c.Base.{
  ℕ, zero, suc, ◌≤◌, ◌<◌, ◌≡◌, refl, false, Option, none, some, List, [], ◌∷◌, ◌++◌, Bytes, arith,
  All, length, ◌==◌, if◌then◌else◌, ap, ◌∙◌, sym,
}

-- The text up to the delimiter or the end, and what follows the delimiter.
unfoldable pub span : ℕ → Bytes → Bytes × Bytes
span d [] = ([], [])
span d (c ∷ s) = let (t, rest) = span d s in if c == d then ([], s) else (c ∷ t, rest)

-- The token after the delimiters at the front, and the text where the next call starts.
unfoldable pub strtok_r : ℕ → Bytes → Option (Bytes × Bytes)
unfolding span
strtok_r d [] = none
strtok_r d (c ∷ s) =
    let later = strtok_r d s in
    let (t, rest) = span d s in if c == d then later else some (c ∷ t, rest)

-- A loop that calls `strtok_r` until it returns NULL; each call uses up a byte.
unfoldable pub tokens_fuel : ℕ → ℕ → Bytes → List Bytes
tokens_fuel zero d s = []
tokens_fuel (suc f) d s = elim (strtok_r d s) [
  | none ↦ []
  | some (t, rest) ↦ t ∷ tokens_fuel f d rest
]

unfoldable pub tokens : ℕ → Bytes → List Bytes
unfolding tokens_fuel strtok_r
tokens d s = tokens_fuel (suc (length s)) d s

length-span : (d : ℕ) (s : Bytes) → length (span d s).1 ≤ length s
unfolding span
length-span d [] = omega arith
length-span d (c ∷ s) = ground (arith, length-span d s)

length-strtok_r :
    (d : ℕ) (s : Bytes) {t rest : Bytes} → strtok_r d s ≡ some (t, rest) → length rest < length s
unfolding strtok_r
length-strtok_r d [] h = ground arith
length-strtok_r d (c ∷ s) {t} {rest} h =
    ground (arith, length-strtok_r d s {t = t} {rest = rest}, length-span d s)

-- More fuel than bytes changes nothing: the loop has ended by NULL.
pub tokens_fuel-enough :
    (f g d : ℕ) (s : Bytes) → length s < f → length s < g → tokens_fuel f d s ≡ tokens_fuel g d s
unfolding tokens_fuel
tokens_fuel-enough zero g d s h k = absurd (omega arith)
tokens_fuel-enough (suc f) zero d s h k = absurd (omega arith)
tokens_fuel-enough (suc f) (suc g) d s h k = go (strtok_r d s) refl (λ t rest e.
    tokens_fuel-enough f g d rest (omega (arith, length-strtok_r d s e))
      (omega (arith, length-strtok_r d s e)))
  where
    go :
        (o : Option (Bytes × Bytes))
        → strtok_r d s ≡ o
        → ((t rest : Bytes)
            → strtok_r d s ≡ some (t, rest)
            → tokens_fuel f d rest ≡ tokens_fuel g d rest)
        → tokens_fuel (suc f) d s ≡ tokens_fuel (suc g) d s
    go none e ih = rw (e, tokens_fuel) refl
    go (some (t, rest)) e ih = rw (e, tokens_fuel) (ap (◌∷◌ t) (ih t rest e))

-- The byte does not occur.
abbrev pub Free : ℕ → Bytes → Type 0
Free d = All (λ c. (c == d) ≡ false)

span-append : (d : ℕ) (t rest : Bytes) → Free d t → span d (t ++ d ∷ rest) ≡ (t, rest)
unfolding span
span-append d [] rest f = ground arith
span-append d (c ∷ t) rest f = ground (arith, span-append d t rest f.1)

span-Free : (d : ℕ) (t : Bytes) → Free d t → span d t ≡ (t, [])
unfolding span
span-Free d [] f = refl
span-Free d (c ∷ t) f = ground (arith, span-Free d t f.1)

strtok_r-append :
    (d c : ℕ) (t rest : Bytes)
    → Free d (c ∷ t)
    → strtok_r d (c ∷ t ++ d ∷ rest) ≡ some (c ∷ t, rest)
unfolding strtok_r
strtok_r-append d c t rest f = ground (arith, span-append d t rest f.1)

strtok_r-Free : (d c : ℕ) (t : Bytes) → Free d (c ∷ t) → strtok_r d (c ∷ t) ≡ some (c ∷ t, [])
unfolding strtok_r
strtok_r-Free d c t f = ground (arith, span-Free d t f.1)

tokens_fuel-some :
    (f d : ℕ) (s : Bytes) {t rest : Bytes}
    → strtok_r d s ≡ some (t, rest)
    → tokens_fuel (suc f) d s ≡ t ∷ tokens_fuel f d rest
unfolding tokens_fuel
tokens_fuel-some f d s e = rw (e, tokens_fuel) refl

-- The loop is the repeated call of `strtok_r`: a token, and then the tokens of what is left.
pub tokens-some :
    (d : ℕ) (s : Bytes) {t rest : Bytes}
    → strtok_r d s ≡ some (t, rest)
    → tokens d s ≡ t ∷ tokens d rest
unfolding tokens
tokens-some d s {t} {rest} e =
    tokens_fuel-some (length s) d s e
    ∙ ap (◌∷◌ t) (
        tokens_fuel-enough (length s) (suc (length rest)) d rest (length-strtok_r d s e)
          (omega arith))

pub tokens-none : (d : ℕ) (s : Bytes) → strtok_r d s ≡ none → tokens d s ≡ []
unfolding tokens
tokens-none d s e = rw (e, tokens_fuel) refl

pub tokens-nil : (d : ℕ) → tokens d [] ≡ []
unfolding strtok_r
tokens-nil d = tokens-none d [] refl

-- A text without the delimiter, in front of one and at the end.
pub tokens-append :
    (d c : ℕ) (t rest : Bytes)
    → Free d (c ∷ t)
    → tokens d (c ∷ t ++ d ∷ rest) ≡ (c ∷ t) ∷ tokens d rest
tokens-append d c t rest f = tokens-some d (c ∷ t ++ d ∷ rest) (strtok_r-append d c t rest f)

pub tokens-Free : (d c : ℕ) (t : Bytes) → Free d (c ∷ t) → tokens d (c ∷ t) ≡ (c ∷ t) ∷ []
tokens-Free d c t f =
    tokens-some d (c ∷ t) (strtok_r-Free d c t f) ∙ ap (◌∷◌ (c ∷ t)) (tokens-nil d)

-- Delimiters at the front are passed over.
pub tokens-delimiter : (d : ℕ) (s : Bytes) → tokens d (d ∷ s) ≡ tokens d s
unfolding strtok_r
tokens-delimiter d s = go (strtok_r d s) refl
  where
    go : (o : Option (Bytes × Bytes)) → strtok_r d s ≡ o → tokens d (d ∷ s) ≡ tokens d s
    go none e = tokens-none d (d ∷ s) (ground (arith, e)) ∙ sym (tokens-none d s e)
    go (some (t, rest)) e =
        tokens-some d (d ∷ s) {t = t} {rest = rest} (ground (arith, e)) ∙ sym (tokens-some d s e)

-- ===== src/Strings/Decimal.antt =====
-- `sprintf("%ld")` and `atol` for a `long`, as the program uses them, and the two printers of
-- src/strings.c. The C library's functions are written out from their documentation; `atol` of a
-- text beyond the range of `long` is undefined in C, and here it is the number that the text says.
use statsd_c.Base.{
  ℕ, zero, suc, ◌+◌, ◌-◌, ◌*◌, ◌/◌, ◌%◌, ◌≤◌, ◌<◌, ◌^◌, ◌≡◌, refl, ◌∙◌, ap, Bool, ◌||◌, ◌&&◌, true,
  [], ◌∷◌, Bytes, arith, ◌==◌, leb, ltb, length, Bool-cases, inl, inr, if◌then◌else◌,
}
use native.Mathlib.Nat.{pow-suc}
use statsd_c.Exec.{Result, ok, fault, overflow}
use statsd_c.Strings.{is_digit, print_into}

-- A `long`: `negsuc n` is -(n + 1).
pub data ℤ : Type 0 where
  pos : ℕ → ℤ
  negsuc : ℕ → ℤ

-- The digits of `n` in front of `rest`; the fuel is more than `n`.
unfoldable pub digits_onto : ℕ → ℕ → Bytes → Bytes
digits_onto zero n rest = rest
digits_onto (suc f) n rest =
    let shorter = digits_onto f (n / 10) ((b'0' + n % 10) ∷ rest) in
    if ltb n 10 then (b'0' + n) ∷ rest else shorter

unfoldable pub print_nat : ℕ → Bytes
print_nat n = digits_onto (suc n) n []

-- "%ld"
unfoldable pub print_ld : ℤ → Bytes
print_ld (pos n) = print_nat n
print_ld (negsuc n) = b'-' ∷ print_nat (suc n)

-- The digits at the front, on top of those read before.
unfoldable pub read_digits : ℕ → Bytes → ℕ
read_digits acc [] = acc
read_digits acc (c ∷ cs) =
    let rest = read_digits (acc * 10 + (c - b'0')) cs in if is_digit c then rest else acc

-- `isspace`
abbrev pub is_space : ℕ → Bool
is_space c = c == b' ' || leb 9 c && leb c 13

abbrev pub negate : ℕ → ℤ
negate zero = pos 0
negate (suc n) = negsuc n

unfoldable pub atol : Bytes → ℤ
unfolding read_digits
atol [] = pos 0
atol (c ∷ cs) =
    let rest = atol cs in
    if is_space c
    then rest
    else if c == b'-'
    then negate (read_digits 0 cs)
    else if c == b'+'
    then pos (read_digits 0 cs)
    else pos (read_digits 0 (c ∷ cs))

-- `ltoa`: the buffer has 20 bytes.
unfoldable pub ltoa : ℤ → Result Bytes
ltoa l = print_into 20 (print_ld l)

read_digits-onto :
    (f n : ℕ) (rest : Bytes) → n < f → read_digits 0 (digits_onto f n rest) ≡ read_digits n rest
unfolding read_digits digits_onto
read_digits-onto zero n rest h = absurd (omega arith)
read_digits-onto (suc f) n rest h = elim (Bool-cases (ltb n 10)) [
  | inl one ↦ rw one (ground (arith, ap (λ k. read_digits k rest) (last_digit n)))
  | inr more ↦ rw more (
      read_digits-onto f (n / 10) ((b'0' + n % 10) ∷ rest) (ground arith)
      ∙ ground (arith, ap (λ k. read_digits k rest) (push_digit n)))
]
  where
    last_digit : (n : ℕ) → 0 * 10 + (b'0' + n - b'0') ≡ n
    last_digit n = omega arith

    push_digit : (n : ℕ) → n / 10 * 10 + (b'0' + n % 10 - b'0') ≡ n
    push_digit n = omega arith

-- The first byte of a printed number is a digit.
pub digits_onto-head :
    (f n : ℕ) (rest : Bytes)
    → n < f
    → (c : ℕ) × (cs : Bytes) × (digits_onto f n rest ≡ c ∷ cs) × (is_digit c ≡ true)
unfolding digits_onto
digits_onto-head zero n rest h = absurd (omega arith)
digits_onto-head (suc f) n rest h = elim (Bool-cases (ltb n 10)) [
  | inl one ↦ (b'0' + n, rest, rw one refl, ground arith)
  | inr more ↦ rw more (digits_onto-head f (n / 10) ((b'0' + n % 10) ∷ rest) (ground arith))
]

atol-digits :
    (c : ℕ) (cs : Bytes) → is_digit c ≡ true → atol (c ∷ cs) ≡ pos (read_digits 0 (c ∷ cs))
unfolding atol
atol-digits c cs h = ground arith

read_digits-nil : (n : ℕ) → read_digits n [] ≡ n
unfolding read_digits
read_digits-nil n = refl

atol-minus : (cs : Bytes) → atol (b'-' ∷ cs) ≡ negate (read_digits 0 cs)
unfolding atol
atol-minus cs = refl

-- `atol` reads back what "%ld" prints.
pub atol-print_ld : (l : ℤ) → atol (print_ld l) ≡ l
unfolding print_ld print_nat
atol-print_ld (pos n) =
    let (c, cs, e, d) = digits_onto-head (suc n) n [] (omega arith) in
    let read : read_digits 0 (c ∷ cs) ≡ n =
      rw (← e) (read_digits-onto (suc n) n [] (omega arith) ∙ read_digits-nil n) in
    rw e (atol-digits c cs d ∙ ap pos read)
atol-print_ld (negsuc n) =
    atol-minus (digits_onto (suc (suc n)) (suc n) [])
    ∙ ap negate (read_digits-onto (suc (suc n)) (suc n) [] (omega arith) ∙ read_digits-nil (suc n))

pow-pos : (k : ℕ) → 1 ≤ 10 ^ k
pow-pos zero = omega arith
pow-pos (suc k) = omega (arith, pow-suc 10 k, pow-pos k)

length-digits_onto-le :
    (k f n : ℕ) (rest : Bytes)
    → n < f
    → n < 10 ^ suc k
    → length (digits_onto f n rest) ≤ suc k + length rest
unfolding digits_onto
length-digits_onto-le k zero n rest h b = absurd (omega arith)
length-digits_onto-le zero (suc f) n rest h b = ground arith
length-digits_onto-le (suc k) (suc f) n rest h b =
    ground (arith, length-digits_onto-le k f (n / 10) ((b'0' + n % 10) ∷ rest), pow-suc 10 (suc k))

lt-length-digits_onto :
    (f n : ℕ) (rest : Bytes) → n < f → length rest < length (digits_onto f n rest)
unfolding digits_onto
lt-length-digits_onto zero n rest h = absurd (omega arith)
lt-length-digits_onto (suc f) n rest h = elim (Bool-cases (ltb n 10)) [
  | inl one ↦ rw one (omega arith)
  | inr more ↦
      rw more (ground (arith, lt-length-digits_onto f (n / 10) ((b'0' + n % 10) ∷ rest), more))
]

digits_onto-more :
    (f n : ℕ) (rest : Bytes)
    → 10 ≤ n
    → digits_onto (suc f) n rest ≡ digits_onto f (n / 10) ((b'0' + n % 10) ∷ rest)
unfolding digits_onto
digits_onto-more f n rest h = ground arith

le-length-digits_onto :
    (k f n : ℕ) (rest : Bytes)
    → n < f
    → 10 ^ k ≤ n
    → suc k + length rest ≤ length (digits_onto f n rest)
le-length-digits_onto zero f n rest h b = omega (arith, lt-length-digits_onto f n rest h)
le-length-digits_onto (suc k) zero n rest h b = absurd (omega arith)
le-length-digits_onto (suc k) (suc f) n rest h b =
    let big : 10 ≤ n = omega (arith, pow-suc 10 k, pow-pos k) in
    rw (digits_onto-more f n rest big) (
      omega (
        arith,
        le-length-digits_onto k f (n / 10) ((b'0' + n % 10) ∷ rest) (omega arith)
            (omega (arith, pow-suc 10 k)),
      ))

-- The text of a number below 10^19 has 19 bytes at most.
pub length-print_ld : (n : ℕ) → n < 10 ^ 19 → length (print_ld (pos n)) ≤ 19
unfolding print_ld print_nat
length-print_ld n h = omega (arith, length-digits_onto-le 18 (suc n) n [] (omega arith) h)

-- The text of a number has as many digits as the power of ten above it.
pub length-print_ld-le : (k n : ℕ) → n < 10 ^ suc k → length (print_ld (pos n)) ≤ suc k
unfolding print_ld print_nat
length-print_ld-le k n h = omega (arith, length-digits_onto-le k (suc n) n [] (omega arith) h)

pub ltoa-pos : (n : ℕ) → n < 10 ^ 19 → ltoa (pos n) ≡ ok (print_ld (pos n))
unfolding ltoa print_ld print_nat
ltoa-pos n h = ground (arith, length-digits_onto-le 18 (suc n) n [])

-- The 20 bytes of `ltoa` hold the text of every number below 10^19 that is not negative, so of every
-- such `long`, and `atol` reads the number back from it.
pub atol-ltoa : (n : ℕ) → n < 10 ^ 19 → (t : Bytes) × (ltoa (pos n) ≡ ok t) × (atol t ≡ pos n)
atol-ltoa n h = (print_ld (pos n), ltoa-pos n h, atol-print_ld (pos n))

-- On a negative number of 19 digits or more `ltoa` writes past its 20 bytes.
pub ltoa-negsuc : (n : ℕ) → 10 ^ 18 ≤ n + 1 → ltoa (negsuc n) ≡ fault overflow
unfolding ltoa print_ld print_nat
ltoa-negsuc n h = ground (arith, le-length-digits_onto 18 (suc (suc n)) (suc n) [])

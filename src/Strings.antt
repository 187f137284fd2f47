-- ===== src/Strings.antt =====
-- src/strings.c: the three filters over C strings, and the number printers with their 20-byte
-- buffers. A filter writes into `k` itself no more bytes than it read, so its result is a value.
pub mod Sanitize
pub mod Decimal
pub mod LongDouble
use statsd_c.Base.{ℕ, ◌+◌, Bool, ◌&&◌, ◌||◌, List, [], ◌∷◌, Bytes, ◌==◌, leb, length, if◌then◌else◌}
use statsd_c.Exec.{Result, ok, fault, overflow}

-- `*p >= '0' && *p <= '9'`
abbrev pub is_digit : ℕ → Bool
is_digit c = leb b'0' c && leb c b'9'

abbrev pub is_key_char : ℕ → Bool
is_key_char c =
    leb b'a' c && leb c b'z' || leb b'A' c && leb c b'Z' || is_digit c || c == b'_' || c == b'-'

unfoldable pub sanitize_key : Bytes → Bytes
sanitize_key [] = []
sanitize_key (c ∷ p) =
    let rest = sanitize_key p in
    if c == b'.'
    then b'_' ∷ rest
    else if c == b'\\' || c == b'/'
    then b'-' ∷ rest
    else if is_key_char c
    then c ∷ rest
    else rest

abbrev pub is_value_char : ℕ → Bool
is_value_char c = c == b'.' || c == b'-' || is_digit c

unfoldable pub sanitize_value : Bytes → Bytes
sanitize_value [] = []
sanitize_value (c ∷ p) = let rest = sanitize_value p in if is_value_char c then c ∷ rest else rest

abbrev pub is_gaugevalue_char : ℕ → Bool
is_gaugevalue_char c = c == b'.' || c == b'-' || c == b'+' || is_digit c

unfoldable pub sanitize_gaugevalue : Bytes → Bytes
sanitize_gaugevalue [] = []
sanitize_gaugevalue (c ∷ p) =
    let rest = sanitize_gaugevalue p in if is_gaugevalue_char c then c ∷ rest else rest

-- `sprintf` into a buffer of `size` bytes: the terminating NUL must fit, too.
abbrev pub print_into : ℕ → Bytes → Result Bytes
print_into size text = if leb (length text + 1) size then ok text else fault overflow

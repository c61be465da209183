-- ===== src/Hex.antt =====
-- preconfirmation/src/util.rs: numbers and bytes as hexadecimal text. A text is the list of its bytes.
-- `encode` and `decode` of the crate hex are arguments; the others are Rust's standard library.
pub mod RoundTrip
use taiko_preconfer.Prelude.{
  ℕ, zero, suc, ◌+◌, ◌-◌, ◌*◌, ◌/◌, ◌%◌, Bool, true, false, ◌&&◌, Option, none, some, List, [], ◌∷◌,
  ◌++◌, if◌then◌else◌, ltb, leb, ◌==◌, u64_mod,
}
use taiko_preconfer.Prelude.Outcome.{Outcome, ok, err, ◌>>=◌}
use taiko_preconfer.Batch.{Bytes}

-- The kinds of std::num::IntErrorKind that a `u64` can have here.
pub data ParseIntError : Type 0 where
  empty invalid_digit pos_overflow : ParseIntError

-- `trim_start_matches("0x")`: as often as the text starts so.
unfoldable pub trim_start_matches : Bytes → Bytes
trim_start_matches [] = []
trim_start_matches (c ∷ []) = c ∷ []
trim_start_matches (c ∷ d ∷ s) =
    let rest = trim_start_matches s in if c == b'0' && d == b'x' then rest else c ∷ d ∷ s

-- `char::to_digit(16)`.
unfoldable pub to_digit : ℕ → Option ℕ
to_digit c =
    if leb b'0' c && leb c b'9'
    then some (c - b'0')
    else if leb b'a' c && leb c b'f'
    then some (c - b'a' + 10)
    else if leb b'A' c && leb c b'F'
    then some (c - b'A' + 10)
    else none

-- A round of the loop of `u64::from_str_radix(…, 16)`, with checked arithmetic.
unfoldable pub push_digit : ℕ → ℕ → Outcome ParseIntError ℕ
unfolding to_digit
push_digit result c = elim (to_digit c) [
  | none ↦ err invalid_digit
  | some x ↦ if ltb (result * 16 + x) u64_mod then ok (result * 16 + x) else err pos_overflow
]

unfoldable pub read_digits : ℕ → Bytes → Outcome ParseIntError ℕ
unfolding push_digit
read_digits result [] = ok result
read_digits result (c ∷ s) = push_digit result c >>= λ next. read_digits next s

-- A plus is allowed before the digits.
unfoldable pub from_str_radix_16 : Bytes → Outcome ParseIntError ℕ
unfolding read_digits
from_str_radix_16 [] = err empty
from_str_radix_16 (c ∷ []) = read_digits 0 (c ∷ [])
from_str_radix_16 (c ∷ d ∷ s) =
    if c == b'+' then read_digits 0 (d ∷ s) else read_digits 0 (c ∷ d ∷ s)

unfoldable pub hex_to_u64 : Bytes → Outcome ParseIntError ℕ
unfolding trim_start_matches from_str_radix_16
hex_to_u64 s = from_str_radix_16 (trim_start_matches s)

unfoldable pub from_digit : ℕ → ℕ
from_digit x = if ltb x 10 then b'0' + x else b'a' + (x - 10)

-- The digits of a number, without zeros before them; the fuel is the number of digits at most.
unfoldable pub digits : ℕ → ℕ → Bytes
unfolding from_digit
digits zero value = []
digits (suc fuel) value =
    let high = digits fuel (value / 16) in
    if ltb value 16 then from_digit value ∷ [] else high ++ from_digit (value % 16) ∷ []

-- `format!("{value:#x}")`: a u64 has sixteen digits at most.
unfoldable pub u64_to_hex : ℕ → Bytes
unfolding digits
u64_to_hex value = b'0' ∷ b'x' ∷ digits 16 value

module _ {E : Type 0} (encode : Bytes → Bytes) (decode : Bytes → Outcome E Bytes) where
  unfoldable pub hex_encode : Bytes → Bytes
  hex_encode bytes = b'0' ∷ b'x' ∷ encode bytes

  unfoldable pub hex_decode : Bytes → Outcome E Bytes
  unfolding trim_start_matches
  hex_decode hex_string = decode (trim_start_matches hex_string)

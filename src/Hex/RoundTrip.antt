-- ===== src/Hex/RoundTrip.antt =====
-- preconfirmation/src/util.rs: what is written in hexadecimal is read again.
use taiko_preconfer.Prelude.{
  ℕ, zero, suc, ◌+◌, ◌*◌, ◌/◌, ◌%◌, ◌^◌, ◌<◌, ◌≡◌, refl, ap, ◌∙◌, arith, some, [], ◌∷◌, ◌++◌, All,
  All-append, ltb, lt→ltb, length-append, ==_iff, ◌==◌, u64_mod, Bool-cases, inl, inr, length,
}
use taiko_preconfer.Prelude.Outcome.{ok, ◌>>=◌, Outcome-cases}
use taiko_preconfer.Batch.{Bytes}
use taiko_preconfer.Hex.{
  trim_start_matches, to_digit, push_digit, read_digits, from_str_radix_16, hex_to_u64, from_digit,
  digits, u64_to_hex,
}

to_digit-from_digit : (x : ℕ) → x < 16 → to_digit (from_digit x) ≡ some x
unfolding to_digit from_digit
to_digit-from_digit x h = ground arith

-- A hexadecimal digit is neither a plus nor an x.
abbrev pub IsDigit : ℕ → Type 0
IsDigit c = (c ≡ b'x' → ⊥) × (c ≡ b'+' → ⊥)

from_digit-IsDigit : (x : ℕ) → x < 16 → IsDigit (from_digit x)
unfolding from_digit
from_digit-IsDigit x h = (λ e. ground arith, λ e. ground arith)

digits-IsDigit : (fuel value : ℕ) → All IsDigit (digits fuel value)
unfolding digits
digits-IsDigit zero value = tt
digits-IsDigit (suc fuel) value = elim (Bool-cases (ltb value 16)) [
  | inl e ↦ rw e (from_digit-IsDigit value (ground arith), tt)
  | inr e ↦ rw e (
      All-append IsDigit (digits fuel (value / 16)) (from_digit (value % 16) ∷ [])
        (digits-IsDigit fuel (value / 16)) (from_digit-IsDigit (value % 16) (omega arith), tt))
]

read_digits-append :
    (result : ℕ) (s t : Bytes)
    → read_digits result (s ++ t) ≡ (read_digits result s >>= λ value. read_digits value t)
unfolding read_digits
read_digits-append result [] t = refl
read_digits-append result (c ∷ s) t = elim (Outcome-cases (push_digit result c)) [
  | inl (next, e) ↦ rw (e, read_digits) (read_digits-append next s t)
  | inr (inl (x, e)) ↦ rw (e, read_digits)
  | inr (inr e) ↦ rw (e, read_digits)
]

push_digit_lem :
    (result x : ℕ)
    → x < 16
    → result * 16 + x < u64_mod
    → push_digit result (from_digit x) ≡ ok (result * 16 + x)
unfolding push_digit
push_digit_lem result x h fits = rw (to_digit-from_digit x h, push_digit) (rw (lt→ltb _ _ fits))

read_last :
    (result x : ℕ)
    → x < 16
    → result * 16 + x < u64_mod
    → read_digits result (from_digit x ∷ []) ≡ ok (result * 16 + x)
unfolding read_digits
read_last result x h fits = rw (push_digit_lem result x h fits, read_digits)

-- Fuel for each digit is enough.
read_digits-digits :
    (fuel value : ℕ)
    → value < u64_mod
    → value < 16 ^ fuel
    → read_digits 0 (digits fuel value) ≡ ok value
unfolding digits read_digits
read_digits-digits zero value fits h = let e : 0 ≡ value = omega arith in ap ok e
read_digits-digits (suc fuel) value fits h = elim (Bool-cases (ltb value 16)) [
  | inl e ↦ rw e (read_last 0 value (ground arith) (omega arith) ∙ ap ok (omega arith))
  | inr e ↦
      let high = read_digits-digits fuel (value / 16) (omega arith) (omega (arith, h)) in
      rw e (
        read_digits-append 0 (digits fuel (value / 16)) (from_digit (value % 16) ∷ [])
        ∙ rw (high, ◌>>=◌)
            (read_last (value / 16) (value % 16) (omega arith) (omega arith) ∙ ap ok (omega arith)))
]

digits_pos : (fuel value : ℕ) → 0 < length (digits (suc fuel) value)
unfolding digits
digits_pos fuel value =
    ground (arith, length-append (digits fuel (value / 16)) (from_digit (value % 16) ∷ []))

trim_start_matches_same : (s : Bytes) → All IsDigit s → trim_start_matches s ≡ s
unfolding trim_start_matches
trim_start_matches_same [] h = refl
trim_start_matches_same (c ∷ []) h = refl
trim_start_matches_same (c ∷ d ∷ s) h = elim (Bool-cases (d == b'x')) [
  | inl e ↦ absurd (h.1.0.0 ((==_iff d b'x').0 e))
  | inr e ↦ ground arith
]

from_str_radix_16_lem :
    (s : Bytes) → All IsDigit s → 0 < length s → from_str_radix_16 s ≡ read_digits 0 s
unfolding from_str_radix_16
from_str_radix_16_lem [] h pos = absurd (omega arith)
from_str_radix_16_lem (c ∷ []) h pos = refl
from_str_radix_16_lem (c ∷ d ∷ s) h pos = elim (Bool-cases (c == b'+')) [
  | inl e ↦ absurd (h.0.1 ((==_iff c b'+').0 e))
  | inr e ↦ rw e
]

-- Each u64 is read again from its hexadecimal text.
pub hex_to_u64-u64_to_hex : (value : ℕ) → value < u64_mod → hex_to_u64 (u64_to_hex value) ≡ ok value
unfolding hex_to_u64 u64_to_hex
hex_to_u64-u64_to_hex value fits =
    rw (trim_start_matches_same (digits 16 value) (digits-IsDigit 16 value)) (
      from_str_radix_16_lem (digits 16 value) (digits-IsDigit 16 value) (digits_pos 15 value)
      ∙ read_digits-digits 16 value fits (omega arith))

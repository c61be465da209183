-- ===== src/Blob/Fields.antt =====
-- preconfirmation/src/blob.rs: one round of the loop packs 127 bytes of the input into four fields.
use Prim.Native.Nat.{bit_and, bit_or}
use taiko_preconfer.Prelude.{
  ℕ, zero, suc, ◌+◌, ◌*◌, ◌/◌, ◌%◌, ◌^◌, ◌<◌, ◌≡◌, refl, arith, Bool, true, ◌&&◌, ◌==◌,
}
use taiko_preconfer.Blob.{mask_1, mask_2, mask_3, mask_4}

-- The test holds of the first `count` numbers.
tested : (test : ℕ → Bool) (count : ℕ) → Bool
tested test zero = true
tested test (suc count) = tested test count && test count

tested-holds :
    (test : ℕ → Bool) {value : ℕ} (count : ℕ)
    → value < count
    → tested test count ≡ true
    → test value ≡ true
unfolding tested
tested-holds test zero below all = elim below [ ]
tested-holds test {value} (suc count) below all =
    ground (arith, tested-holds test {value = value} count)

-- The masks take a byte apart.
masks_table :
    tested
      (λ x.
        (bit_and x mask_1 == x % 64)
        && ((bit_and x mask_2 == x % 16)
            && ((bit_and x mask_3 / 2 ^ 2 == x / 64 * 16) && (bit_and x mask_4 / 2 ^ 4 == x / 16))))
      256
    ≡ true
unfolding tested
masks_table = refl

masks :
    (x : ℕ)
    → x < 256
    → (bit_and x mask_1 ≡ x % 64)
      × (bit_and x mask_2 ≡ x % 16)
      × (bit_and x mask_3 / 2 ^ 2 ≡ x / 64 * 16)
      × (bit_and x mask_4 / 2 ^ 4 ≡ x / 16)
masks x h = ground (arith, tested-holds _ 256 h masks_table)

-- Bits that do not overlap add up: `a` below 16, and `b` of the two bits above.
or_table :
    tested
      (λ a. tested (λ b. (bit_or a (b * 16) == a + b * 16) && (bit_or (b * 16) a == b * 16 + a)) 4)
      16
    ≡ true
unfolding tested
or_table = refl

disjoint :
    (a b : ℕ) → a < 16 → b < 4 → (bit_or a (b * 16) ≡ a + b * 16) × (bit_or (b * 16) a ≡ b * 16 + a)
disjoint a b ha hb = ground (arith, tested-holds _ 4 hb (tested-holds _ 16 ha or_table))

-- The bytes that the loop writes first into each field.
pub first_bytes :
    (x y z : ℕ)
    → x < 256
    → y < 256
    → z < 256
    → (bit_and x mask_1 ≡ x % 64)
      × (bit_or (bit_and y mask_2) (bit_and x mask_3 / 2 ^ 2) ≡ y % 16 + x / 64 * 16)
      × (bit_and z mask_1 ≡ z % 64)
      × (bit_or (bit_and z mask_3 / 2 ^ 2) (bit_and y mask_4 / 2 ^ 4) ≡ z / 64 * 16 + y / 16)
first_bytes x y z hx hy hz =
    let (x1, _, x3, _) = masks x hx in
    let (_, y2, _, y4) = masks y hy in
    let (z1, _, z3, _) = masks z hz in
    (
      x1,
      rw (y2, x3) (disjoint (y % 16) (x / 64) (omega arith) (omega arith)).0,
      z1,
      rw (z3, y4) (disjoint (y / 16) (z / 64) (omega arith) (omega arith)).1,
    )

-- ===== src/Batch/Padding.antt =====
-- preconfirmation/src/util.rs, `pad_left`: the extra data of a block and of a batch.
use taiko_preconfer.Prelude.{
  ℕ, zero, suc, ◌+◌, ◌-◌, ◌*◌, ◌≤◌, ◌<◌, ◌≡◌, refl, arith, none, some, [], ◌∷◌, ◌++◌, leb, leb→le,
  Bool-cases, inl, inr, ◌⊎◌, length, replicate, length-append, length-replicate,
}
use taiko_preconfer.Batch.{pad_left, Bytes}

-- The number that bytes encode, most significant byte first.
abbrev pub big_endian : ℕ → Bytes → ℕ
big_endian acc [] = acc
big_endian acc (b ∷ bs) = big_endian (acc * 256 + b) bs

big_endian-zeros :
    (k : ℕ) (bytes : Bytes) → big_endian 0 (replicate k 0 ++ bytes) ≡ big_endian 0 bytes
big_endian-zeros zero bytes = refl
big_endian-zeros (suc k) bytes = big_endian-zeros k bytes

-- At most N bytes are padded to exactly N bytes that encode the same number, most significant
-- byte first; on more than N bytes the function panics.
pub pad_left_lem :
    (n : ℕ) (bytes : Bytes)
    → ((length bytes ≤ n)
        × ((padded : Bytes) × (pad_left n bytes ≡ some padded)
            × (length padded ≡ n)
            × (big_endian 0 padded ≡ big_endian 0 bytes)))
      ⊎ ((n < length bytes) × (pad_left n bytes ≡ none))
unfolding pad_left
pad_left_lem n bytes = elim (Bool-cases (leb (length bytes) n)) [
  | inl e ↦ inl (
    leb→le _ _ e,
    (
      replicate (n - length bytes) 0 ++ bytes,
      rw e,
      omega (
        arith,
        leb→le _ _ e,
        length-append (replicate (n - length bytes) 0) bytes,
        length-replicate {A = ℕ} (n - length bytes) 0,
      ),
      big_endian-zeros (n - length bytes) bytes,
    ),
  )
  | inr e ↦ inr (ground arith, rw e)
]

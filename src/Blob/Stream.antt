-- ===== src/Blob/Stream.antt =====
-- preconfirmation/src/blob.rs: the reader gives the data as if zeros followed it without end.
use native.Mathlib.Decide.{dec_le}
use native.Mathlib.Nat.{zero-add, suc-add}
use taiko_preconfer.Prelude.{
  ℕ, zero, suc, ◌+◌, ◌-◌, ◌≡◌, refl, ap, ◌∙◌, sym, min, List, [], ◌∷◌, ◌++◌, arith, inl, inr,
  Bool-cases, leb, leb→le, length, get_or, take, drop, replicate, length-drop, drop-drop, drop-nil,
  drop_all,
}
use taiko_preconfer.Blob.{ByteReader, read_byte, read_bytes}

-- The first `n` bytes of the data followed by padding, and the byte at its front.
abbrev pub take_padded : ℕ → List ℕ → List ℕ
take_padded zero xs = []
take_padded (suc n) [] = 0 ∷ take_padded n []
take_padded (suc n) (x ∷ xs) = x ∷ take_padded n xs

abbrev pub front : List ℕ → ℕ
front [] = 0
front (x ∷ xs) = x

pub length-take_padded : (n : ℕ) (xs : List ℕ) → length (take_padded n xs) ≡ n
length-take_padded zero xs = refl
length-take_padded (suc n) [] = ap suc (length-take_padded n [])
length-take_padded (suc n) (x ∷ xs) = ap suc (length-take_padded n xs)

take_padded-nil : (n : ℕ) → take_padded n [] ≡ replicate n 0
take_padded-nil zero = refl
take_padded-nil (suc n) = ap (◌∷◌ 0) (take_padded-nil n)

-- What `read_bytes` copies, `k` bytes, and fills, `j` bytes, for a buffer of `n` bytes.
padded :
    (n j k : ℕ) (xs : List ℕ)
    → k ≡ min n (length xs)
    → j ≡ n - k
    → take k xs ++ replicate j 0 ≡ take_padded n xs
padded n j zero [] hk hj = let same : j ≡ n = omega arith in rw same (sym (take_padded-nil n))
padded zero zero zero (x ∷ xs) hk hj = refl
padded zero (suc j) zero (x ∷ xs) hk hj = absurd (omega arith)
padded (suc n) j zero (x ∷ xs) hk hj = absurd (omega arith)
padded n j (suc k) [] hk hj = absurd (omega arith)
padded zero j (suc k) (x ∷ xs) hk hj = absurd (omega arith)
padded (suc n) j (suc k) (x ∷ xs) hk hj = ap (◌∷◌ x) (padded n j k xs (omega arith) (omega arith))

front-drop : (p : ℕ) (input : List ℕ) → get_or input p 0 ≡ front (drop p input)
front-drop zero [] = refl
front-drop zero (x ∷ xs) = refl
front-drop (suc p) [] = refl
front-drop (suc p) (x ∷ xs) = front-drop p xs

-- `read_byte` takes the front of what is left.
pub read_byte_lem :
    (r : ByteReader) (input : List ℕ)
    → ((read_byte r input).0 ≡ front (drop r.read_bytes input))
      × (drop (read_byte r input).1.read_bytes input ≡ drop 1 (drop r.read_bytes input))
unfolding read_byte
read_byte_lem r input = (
  elim (Bool-cases (leb (length input) r.read_bytes)) [
    | inl past ↦ rw past (rw (drop_all r.read_bytes input (leb→le _ _ past)))
    | inr inside ↦ rw inside (front-drop r.read_bytes input)
  ],
  sym (drop-drop 1 r.read_bytes input),
)

drop-min : (n k : ℕ) (xs : List ℕ) → k ≡ min n (length xs) → drop k xs ≡ drop n xs
drop-min n k xs h = elim (dec_le n (length xs)) [
  | yes fits ↦ let same : k ≡ n = omega arith in rw same
  | no short ↦ drop_all k xs (omega arith) ∙ sym (drop_all n xs (omega arith))
]

-- `read_bytes` fills a buffer of `n` bytes from what is left, if its limit `m` is `n` or the number
-- of bytes left.
pub read_bytes_lem :
    (r : ByteReader) (input : List ℕ) (n m : ℕ)
    → min m (length input - r.read_bytes) ≡ min n (length input - r.read_bytes)
    → ((read_bytes r input n m).0 ≡ take_padded n (drop r.read_bytes input))
      × (drop (read_bytes r input n m).1.read_bytes input ≡ drop n (drop r.read_bytes input))
unfolding read_bytes
read_bytes_lem r input n m limit =
    let left = drop r.read_bytes input in
    let size = length-drop r.read_bytes input in
    let k = min m (length input - r.read_bytes) in
    elim (Bool-cases (leb (length input) r.read_bytes)) [
      | inl past ↦
          let nothing = drop_all r.read_bytes input (leb→le _ _ past) in
          rw past (
            sym (take_padded-nil n) ∙ ap (take_padded n) (sym nothing),
            rw nothing (sym (drop-nil n)),
          )
      | inr inside ↦ rw inside (
        padded n (n - k) k left (omega (arith, size, limit)) refl,
        sym (drop-drop k r.read_bytes input) ∙ drop-min n k left (omega (arith, size, limit)),
      )
    ]

take_padded_uncons :
    (n : ℕ) (xs : List ℕ) → take_padded (suc n) xs ≡ front xs ∷ take_padded n (drop 1 xs)
take_padded_uncons n [] = refl
take_padded_uncons n (x ∷ xs) = refl

pub take_padded_add :
    (m n : ℕ) (xs : List ℕ) → take_padded (m + n) xs ≡ take_padded m xs ++ take_padded n (drop m xs)
take_padded_add zero n xs = rw (zero-add n)
take_padded_add (suc m) n [] = rw (suc-add m n) (
    ap (◌∷◌ 0)
      (take_padded_add m n [] ∙ ap (λ t. take_padded m [] ++ take_padded n t) (drop-nil m)))
take_padded_add (suc m) n (x ∷ xs) = rw (suc-add m n) (ap (◌∷◌ x) (take_padded_add m n xs))

-- The 96 bytes that a round reads after the first content: three times a byte and a content.
pub take_padded_fields :
    (t : List ℕ)
    → take_padded 96 t
      ≡ front t
        ∷ (take_padded 31 (drop 1 t)
            ++ (front (drop 32 t)
                ∷ (take_padded 31 (drop 33 t) ++ (front (drop 64 t) ∷ take_padded 31 (drop 65 t)))))
take_padded_fields t =
    let third =
      ap (take_padded 32) (drop-drop 31 33 t)
      ∙ take_padded_uncons 31 (drop 64 t)
      ∙ ap (λ u. front (drop 64 t) ∷ take_padded 31 u) (drop-drop 1 64 t) in
    let second =
      ap (take_padded 64) (drop-drop 31 1 t)
      ∙ take_padded_uncons 63 (drop 32 t)
      ∙ ap (λ u. front (drop 32 t) ∷ take_padded 63 u) (drop-drop 1 32 t)
      ∙ ap (◌∷◌ (front (drop 32 t)))
          (take_padded_add 31 32 (drop 33 t) ∙ ap (◌++◌ (take_padded 31 (drop 33 t))) third) in
    take_padded_uncons 95 t
    ∙ ap (◌∷◌ (front t))
        (take_padded_add 31 64 (drop 1 t) ∙ ap (◌++◌ (take_padded 31 (drop 1 t))) second)

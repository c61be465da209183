-- ===== src/Blob/Canonical.antt =====
-- preconfirmation/src/blob.rs: the size of a blob and the values of its fields.
use taiko_preconfer.Prelude.{
  ℕ, zero, suc, ◌+◌, ◌-◌, ◌*◌, ◌/◌, ◌%◌, ◌<◌, ◌≤◌, ◌≡◌, refl, ap, ◌∙◌, sym, List, ◌∷◌, ◌++◌, arith,
  length, drop, subst, drop-append, drop-replicate, append_assoc, length-append, length-replicate,
  All,
}
use taiko_preconfer.Blob.{create_blob, iterations, zeroed, max_blob_data_size, bytes_per_blob}
use taiko_preconfer.Blob.Stream.{take_padded, front, length-take_padded}
use taiko_preconfer.Blob.Layout.{IsByte, group, pack, room, front-IsByte, All-drop}
use taiko_preconfer.Blob.Rounds.{content, create_blob_lem, room_lem}
use taiko_preconfer.Blob.Decode.{length-group}

length-pack : (k : ℕ) (s : List ℕ) → length (pack k s) ≡ 128 * k
unfolding pack
length-pack zero s = refl
length-pack (suc k) s =
    let g = group (take_padded 31 s) (drop 31 s) in
    omega (
      arith,
      length-append g (pack k (drop 127 s)),
      length-group (take_padded 31 s) (drop 31 s) (length-take_padded 31 s),
      length-pack k (drop 127 s),
    )

length-zeroed : (n : ℕ) → length (zeroed n) ≡ n
unfolding zeroed
length-zeroed n = length-replicate n 0

-- The first byte of each field, at every 32nd place, is below 64: with 31 more bytes the field's
-- value is below 2 ^ 254, and so below the modulus of the BLS field.
unfoldable pub IsCanonical : ℕ → List ℕ → Type 0
IsCanonical zero blob = Unit {0}
IsCanonical (suc k) blob = (front blob < 64) × IsCanonical k (drop 32 blob)

field-IsCanonical :
    (b : ℕ) (f rest : List ℕ) (k : ℕ)
    → b < 64
    → length f ≡ 31
    → IsCanonical k rest
    → IsCanonical (suc k) ((b ∷ f) ++ rest)
unfolding IsCanonical
field-IsCanonical b f rest k small l h =
    (small, subst (IsCanonical k) (sym (drop-append 31 f rest l)) h)

front-zeroed : (n : ℕ) → front (zeroed n) ≡ 0
unfolding zeroed
front-zeroed zero = refl
front-zeroed (suc n) = refl

zeroed-IsCanonical : (k n : ℕ) → n ≡ 32 * k → IsCanonical k (zeroed n)
unfolding IsCanonical zeroed
zeroed-IsCanonical zero n e = tt
zeroed-IsCanonical (suc k) n e =
    let parts : n ≡ 32 + 32 * k = omega arith in
    (
      omega (arith, front-zeroed n),
      subst (IsCanonical k)
          (sym (ap (λ m. drop 32 (zeroed m)) parts ∙ drop-replicate 32 (32 * k) 0))
          (zeroed-IsCanonical k (32 * k) refl),
    )

regroup : (p q r s t : List ℕ) → (p ++ q ++ r ++ s) ++ t ≡ p ++ (q ++ (r ++ (s ++ t)))
regroup p q r s t = simp append_assoc

group-IsCanonical :
    (f0 t rest : List ℕ) (k : ℕ)
    → length f0 ≡ 31
    → All IsByte t
    → IsCanonical k rest
    → IsCanonical (suc (suc (suc (suc k)))) (group f0 t ++ rest)
group-IsCanonical f0 t rest k l bytes h =
    let x = front t in
    let y = front (drop 32 t) in
    let z = front (drop 64 t) in
    let y_byte = front-IsByte (drop 32 t) (All-drop 32 t bytes) in
    let z_byte = front-IsByte (drop 64 t) (All-drop 64 t bytes) in
    let x_byte = front-IsByte t bytes in
    let b1 = y % 16 + x / 64 * 16 in
    let b3 = z / 64 * 16 + y / 16 in
    let f1 = take_padded 31 (drop 1 t) in
    let f2 = take_padded 31 (drop 33 t) in
    let f3 = take_padded 31 (drop 65 t) in
    let third =
      field-IsCanonical b3 f3 rest k (omega arith) (length-take_padded 31 (drop 65 t)) h in
    let second =
      field-IsCanonical (z % 64) f2 ((b3 ∷ f3) ++ rest) (suc k) (omega arith)
        (length-take_padded 31 (drop 33 t)) third in
    let first =
      field-IsCanonical b1 f1 ((z % 64 ∷ f2) ++ ((b3 ∷ f3) ++ rest)) (suc (suc k)) (omega arith)
        (length-take_padded 31 (drop 1 t)) second in
    subst (IsCanonical (suc (suc (suc (suc k)))))
      (sym (regroup (x % 64 ∷ f0) (b1 ∷ f1) (z % 64 ∷ f2) (b3 ∷ f3) rest))
      (field-IsCanonical (x % 64) f0 ((b1 ∷ f1) ++ ((z % 64 ∷ f2) ++ ((b3 ∷ f3) ++ rest)))
        (suc (suc (suc k))) (omega arith) l first)

-- Four fields for each of `k` groups, and `n` more.
abbrev fields_with : ℕ → ℕ → ℕ
fields_with zero n = n
fields_with (suc k) n = suc (suc (suc (suc (fields_with k n))))

pack-IsCanonical :
    (k n : ℕ) (s rest : List ℕ)
    → All IsByte s
    → IsCanonical n rest
    → IsCanonical (fields_with k n) (pack k s ++ rest)
unfolding pack
pack-IsCanonical zero n s rest bytes h = h
pack-IsCanonical (suc k) n s rest bytes h =
    subst (IsCanonical (fields_with (suc k) n))
      (sym (append_assoc (group (take_padded 31 s) (drop 31 s)) (pack k (drop 127 s)) rest))
      (group-IsCanonical (take_padded 31 s) (drop 31 s) (pack k (drop 127 s) ++ rest)
        (fields_with k n) (length-take_padded 31 s) (All-drop 31 s bytes)
        (pack-IsCanonical k n (drop 127 s) rest (All-drop 127 s bytes) h))

fields_with_lem : (k n : ℕ) → fields_with k n ≡ 4 * k + n
fields_with_lem zero n = omega arith
fields_with_lem (suc k) n = omega (arith, fields_with_lem k n)

-- For every input of at most the capacity of a blob, `create_blob` gives a blob of exactly
-- 131,072 bytes, in which each of the 4,096 fields is below the modulus of the BLS field (its
-- first byte is below 64), as EIP-4844 asks for.
pub create_blob-IsCanonical :
    (input : List ℕ)
    → All IsByte input
    → length input ≤ max_blob_data_size
    → (length (create_blob input) ≡ bytes_per_blob) × IsCanonical 4096 (create_blob input)
create_blob-IsCanonical input bytes size =
    let k = iterations input - 1 in
    let rounds : iterations input ≡ suc k = unfold iterations in omega arith in
    let padding = bytes_per_blob - 128 * suc k in
    let within : suc k ≤ 1024 = unfold iterations in omega arith in
    let fits : room (suc k) padding ≡ bytes_per_blob = omega (arith, room_lem (suc k) padding) in
    let blob = create_blob_lem input bytes k padding rounds fits in
    let fields_left = 4096 - 4 * suc k in
    let whole =
      pack-IsCanonical (suc k) fields_left (content input) (zeroed padding)
        (omega arith, (omega arith, (omega arith, (omega arith, bytes))))
        (zeroed-IsCanonical fields_left padding (omega arith)) in
    let count : fields_with (suc k) fields_left ≡ 4096 =
      omega (arith, fields_with_lem (suc k) fields_left) in
    (
      ap length blob
          ∙ omega (
            arith,
            length-append (pack (suc k) (content input)) (zeroed padding),
            length-pack (suc k) (content input),
            length-zeroed padding,
          ),
      subst (IsCanonical 4096) (sym blob)
          (subst (λ n. IsCanonical n (pack (suc k) (content input) ++ zeroed padding)) count whole),
    )

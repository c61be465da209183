-- ===== src/Blob/Sequence.antt =====
-- preconfirmation/src/blob.rs, `tx_bytes_to_blobs`: data that is longer than a blob.
use taiko_preconfer.Prelude.{
  ℕ, zero, suc, ◌-◌, ◌%◌, ◌≤◌, ◌≡◌, refl, ap, ◌∙◌, arith, List, [], ◌∷◌, ◌++◌, All, All-take,
  All-drop, append-take-drop, length, take, drop, length-take, length-drop, min,
}
use taiko_preconfer.Blob.{max_blob_data_size, create_blobs, chunks, tx_bytes_to_blobs}
use taiko_preconfer.Blob.Layout.{IsByte}
use taiko_preconfer.Blob.Decode.{decode_blob, decode_blob-create_blob}

-- What a reader of the blobs puts together.
abbrev pub decode_blobs : List (List ℕ) → List ℕ
decode_blobs [] = []
decode_blobs (b ∷ bs) = decode_blob b ++ decode_blobs bs

-- The last blob has room for the metadata in its last group.
abbrev pub Fits : List ℕ → Type 0
Fits xs = length xs % max_blob_data_size % 127 ≤ 123

first_chunk-fits :
    (n : ℕ) → n % max_blob_data_size % 127 ≤ 123 → min max_blob_data_size n % 127 ≤ 123
first_chunk-fits n h = omega arith

rest_fits :
    (n : ℕ)
    → n % max_blob_data_size % 127 ≤ 123
    → (n - max_blob_data_size) % max_blob_data_size % 127 ≤ 123
rest_fits n h = omega arith

-- Fuel for each element is enough.
chunks_lem :
    (fuel : ℕ) (xs : List ℕ)
    → length xs ≤ fuel
    → All IsByte xs
    → Fits xs
    → decode_blobs (create_blobs (chunks fuel max_blob_data_size xs)) ≡ xs
unfolding chunks create_blobs
chunks_lem zero [] enough bytes fits = refl
chunks_lem zero (x ∷ xs) enough bytes fits = absurd (omega arith)
chunks_lem (suc fuel) [] enough bytes fits = refl
chunks_lem (suc fuel) (x ∷ xs) enough bytes fits =
    let ys = x ∷ xs in
    let size = length-take max_blob_data_size ys in
    let left = length-drop max_blob_data_size ys in
    let first =
      decode_blob-create_blob (take max_blob_data_size ys)
        (All-take IsByte max_blob_data_size ys bytes) (omega (arith, size))
        (rw size (first_chunk-fits (length ys) fits)) in
    let rest =
      chunks_lem fuel (drop max_blob_data_size ys) (omega (arith, left, enough))
        (All-drop IsByte max_blob_data_size ys bytes) (rw left (rest_fits (length ys) fits)) in
    ap
      (λ l.
        l
        ++ decode_blobs
            (create_blobs (chunks fuel max_blob_data_size (drop max_blob_data_size ys))))
      first
    ∙ (ap (λ l. take max_blob_data_size ys ++ l) rest ∙ append-take-drop max_blob_data_size ys)

-- Data of any length survives the round trip through as many blobs as it needs, if its last blob leaves
-- room for the metadata in its last group: all other blobs do.
pub decode_blobs-tx_bytes_to_blobs :
    (tx_bytes : List ℕ)
    → All IsByte tx_bytes
    → length tx_bytes % max_blob_data_size % 127 ≤ 123
    → decode_blobs (tx_bytes_to_blobs tx_bytes) ≡ tx_bytes
unfolding tx_bytes_to_blobs
decode_blobs-tx_bytes_to_blobs tx_bytes bytes fits =
    chunks_lem (length tx_bytes) tx_bytes (omega arith) bytes fits

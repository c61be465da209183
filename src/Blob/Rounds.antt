-- ===== src/Blob/Rounds.antt =====
-- preconfirmation/src/blob.rs: what `create_blob` returns, written without its loop.
use taiko_preconfer.Prelude.{
  ℕ, zero, suc, ◌+◌, ◌*◌, ◌/◌, ◌<◌, ◌≡◌, refl, ap, ◌∙◌, sym, List, [], ◌∷◌, ◌++◌, arith, min,
  length, drop, append_assoc, append-nil, drop-drop, All, false, ◌==◌, as_u8, as_u32,
}
use taiko_preconfer.Blob.{
  Encoder, fill, encode_fields, encode_rounds, zeroed, write_version_and_data_size, first_encoder,
  iterations, create_blob, bytes_per_blob,
}
use taiko_preconfer.Blob.Stream.{take_padded, read_bytes_lem, length-take_padded}
use taiko_preconfer.Blob.Layout.{
  IsByte, All-drop, At, recast, fill-At, encode_fields-At, group, room, pack,
}

-- The metadata that stands before the data: the version and the size in three bytes.
abbrev pub metadata : ℕ → List ℕ
metadata size = 0 ∷ as_u8 (size / 65536) ∷ as_u8 (size / 256) ∷ as_u8 size ∷ []

module _ (input : List ℕ) where
  later_rounds :
      (k idx : ℕ) (e : Encoder) (rest written : List ℕ) (padding : ℕ)
      → 0 < idx
      → At input e rest written (room k padding)
      → All IsByte rest
      → (encode_rounds input idx k e).blob_bytes ≡ written ++ pack k rest ++ zeroed padding
  unfolding encode_rounds pack
  later_rounds zero idx e rest written padding pos a bytes =
      a.blob ∙ ap (λ w. w ++ zeroed padding) (sym (append-nil written))
  later_rounds (suc k) idx e rest written padding pos a bytes =
      let padding' = room k padding in
      let (a1, f1) = fill-At input e rest written _ a in
      let a2 =
        encode_fields-At input (fill input e) (take_padded 31 rest) (drop 31 rest) written padding'
          a1 f1 (length-take_padded 31 rest) (All-drop 31 rest bytes) in
      let g = group (take_padded 31 rest) (drop 31 rest) in
      let next = recast input _ padding' (drop-drop 96 31 rest) refl a2 in
      let not_first : (idx == 0) ≡ false = ground arith in
      rw (not_first, encode_rounds)
        (later_rounds k (idx + 1) (encode_fields input (fill input e)) (drop 127 rest)
            (written ++ g) padding (omega arith) next (All-drop 127 rest bytes)
          ∙ ap (λ w. w ++ zeroed padding) (append_assoc written g (pack k (drop 127 rest))))

  -- The whole loop, from the buffer that the metadata and the first bytes fill.
  every_round :
      (k : ℕ) (e : Encoder) (f0 rest : List ℕ) (padding : ℕ)
      → At input e rest [] (room (suc k) padding)
      → e.buffer ≡ f0
      → length f0 ≡ 31
      → All IsByte rest
      → (encode_rounds input 0 (suc k) e).blob_bytes
        ≡ (group f0 rest ++ pack k (drop 96 rest)) ++ zeroed padding
  unfolding encode_rounds
  every_round k e f0 rest padding a start h bytes =
      later_rounds k 1 (encode_fields input e) (drop 96 rest) (group f0 rest) padding (omega arith)
        (encode_fields-At input e f0 rest [] (room k padding) a start h bytes)
        (All-drop 96 rest bytes)

  -- The metadata and the data, which the groups hold one after another.
  abbrev pub content : List ℕ
  content = metadata (as_u32 (length input)) ++ input

  first_encoder_lem :
      (padding : ℕ)
      → padding ≡ bytes_per_blob
      → At input (first_encoder input) (drop 31 content) [] padding
        × ((first_encoder input).buffer ≡ take_padded 31 content)
  unfolding first_encoder write_version_and_data_size
  first_encoder_lem padding room_eq =
      let (bytes, on) =
        read_bytes_lem (record { read_bytes = 0 }) input 27 (min 27 (length input)) (omega arith) in
      (
        record { left = on; size = refl; blob = ap zeroed (sym room_eq) },
        ap (λ t. metadata (as_u32 (length input)) ++ t) bytes,
      )

  -- The blob is the metadata and the data in `iterations` groups, and zeros up to the blob's size.
  pub create_blob_lem :
      All IsByte input
      → (k padding : ℕ) → iterations input ≡ suc k
      → room (suc k) padding ≡ bytes_per_blob
      → create_blob input ≡ pack (suc k) content ++ zeroed padding
  unfolding create_blob pack
  create_blob_lem bytes k padding rounds size =
      let (a, f) = first_encoder_lem (room (suc k) padding) size in
      rw (rounds, create_blob)
        (every_round k (first_encoder input) (take_padded 31 content) (drop 31 content) padding a f
            (length-take_padded 31 content) (All-drop 27 input bytes)
          ∙ ap
              (λ s.
                (group (take_padded 31 content) (drop 31 content) ++ pack k s) ++ zeroed padding)
              (drop-drop 96 31 content))

pub room_lem : (k padding : ℕ) → room k padding ≡ 128 * k + padding
room_lem zero padding = omega arith
room_lem (suc k) padding = omega (arith, room_lem k padding)

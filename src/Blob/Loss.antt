-- ===== src/Blob/Loss.antt =====
-- preconfirmation/src/blob.rs: data at whose lengths the rounds of `create_blob` have no room for the
-- four bytes of metadata.
use taiko_preconfer.Prelude.{
  ℕ, zero, suc, ◌+◌, ◌-◌, ◌*◌, ◌/◌, ◌%◌, ◌<◌, ◌≤◌, ◌≡◌, refl, ap, ◌∙◌, sym, List, [], ◌∷◌, ◌++◌,
  arith, length, drop, length-append, length-drop, All, All-append, as_u32,
}
use taiko_preconfer.Blob.{create_blob, iterations, zeroed, bytes_per_blob}
use taiko_preconfer.Blob.Stream.{take_padded, front}
use taiko_preconfer.Blob.Layout.{IsByte, group, pack, room}
use taiko_preconfer.Blob.Rounds.{metadata, content, create_blob_lem, room_lem}

take_padded-append :
    (n : ℕ) (s u : List ℕ) → n ≤ length s → take_padded n (s ++ u) ≡ take_padded n s
take_padded-append zero s u h = refl
take_padded-append (suc n) [] u h = absurd (omega arith)
take_padded-append (suc n) (x ∷ s) u h = ap (◌∷◌ x) (take_padded-append n s u (omega arith))

drop-append_le : (n : ℕ) (s u : List ℕ) → n ≤ length s → drop n (s ++ u) ≡ drop n s ++ u
drop-append_le zero s u h = refl
drop-append_le (suc n) [] u h = absurd (omega arith)
drop-append_le (suc n) (x ∷ s) u h = drop-append_le n s u (omega arith)

front-append : (s u : List ℕ) → 0 < length s → front (s ++ u) ≡ front s
front-append [] u h = absurd (omega arith)
front-append (x ∷ s) u h = refl

module _ (s u : List ℕ) where
  byte_at : (n : ℕ) → n < length s → front (drop n (s ++ u)) ≡ front (drop n s)
  byte_at n h =
      ap front (drop-append_le n s u (omega arith))
      ∙ front-append (drop n s) u (omega (arith, length-drop n s))

  content_at :
      (n : ℕ) → n + 31 ≤ length s → take_padded 31 (drop n (s ++ u)) ≡ take_padded 31 (drop n s)
  content_at n h =
      ap (take_padded 31) (drop-append_le n s u (omega arith))
      ∙ take_padded-append 31 (drop n s) u (omega (arith, length-drop n s))

-- A group holds nothing behind its 127 bytes.
group-append : (f0 t u : List ℕ) → 96 ≤ length t → group f0 (t ++ u) ≡ group f0 t
group-append f0 t u h =
    let x = front-append t u (omega arith) in
    let y = byte_at t u 32 (omega arith) in
    let z = byte_at t u 64 (omega arith) in
    let f1 = content_at t u 1 (omega arith) in
    let f2 = content_at t u 33 (omega arith) in
    let f3 = content_at t u 65 (omega arith) in
    λ i.
      ((((x i % 64) ∷ f0) ++ ((y i % 16 + x i / 64 * 16) ∷ f1 i)) ++ ((z i % 64) ∷ f2 i))
      ++ ((z i / 64 * 16 + y i / 16) ∷ f3 i)

pack-append : (k : ℕ) (s u : List ℕ) → 127 * k ≤ length s → pack k (s ++ u) ≡ pack k s
unfolding pack
pack-append zero s u h = refl
pack-append (suc k) s u h =
    let size = length-drop 31 s in
    let f = take_padded-append 31 s u (omega arith) in
    let t = drop-append_le 31 s u (omega arith) in
    let g =
      (λ i. group (f i) (t i))
      ∙ group-append (take_padded 31 s) (drop 31 s) u (omega (arith, size)) in
    let others =
      ap (pack k) (drop-append_le 127 s u (omega arith))
      ∙ pack-append k (drop 127 s) u (omega (arith, length-drop 127 s)) in
    λ i. g i ++ others i

module _ (xs : List ℕ) (bytes : All IsByte xs) (over : 124 ≤ (length xs + 1) % 127)
    (small : length xs < 127 * 1023) where
  -- What the groups hold: all but the last byte.
  kept : List ℕ
  kept = metadata (as_u32 (length xs + 1)) ++ xs

  without_last :
      (d : ℕ)
      → d < 256
      → create_blob (xs ++ d ∷ [])
        ≡ pack (suc (length xs / 127)) kept ++ zeroed (bytes_per_blob - 128 * suc (length xs / 127))
  unfolding kept
  without_last d hd =
      let k = length xs / 127 in
      let input = xs ++ d ∷ [] in
      let size : length input ≡ length xs + 1 = omega (arith, length-append xs (d ∷ [])) in
      let padding = bytes_per_blob - 128 * suc k in
      let rounds : iterations input ≡ suc k = unfold iterations in omega (arith, size) in
      let fits : room (suc k) padding ≡ bytes_per_blob = omega (arith, room_lem (suc k) padding) in
      let all_bytes = All-append IsByte xs (d ∷ []) bytes (hd, tt) in
      let split : content input ≡ kept ++ d ∷ [] = ap (λ n. metadata (as_u32 n) ++ input) size in
      create_blob_lem input all_bytes k padding rounds fits
      ∙ ap (λ s. pack (suc k) s ++ zeroed padding) split
      ∙ ap (λ p. p ++ zeroed padding) (pack-append (suc k) kept (d ∷ []) (omega arith))

  -- Where the metadata and all but the last byte of the data fill the groups, the last byte is not in
  -- the blob: data that differ in it have the same blob. The data's length is then 124, 125 or 126
  -- more than a multiple of 127, and at most 127 * 1023.
  pub create_blob_drops_last :
      (b c : ℕ) → b < 256 → c < 256 → create_blob (xs ++ b ∷ []) ≡ create_blob (xs ++ c ∷ [])
  create_blob_drops_last b c hb hc = without_last b hb ∙ sym (without_last c hc)

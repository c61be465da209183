-- ===== src/Blob/Decode.antt =====
-- What a reader of the blob recovers, by the layout that EIP-4844 rollups use: a description that
-- does not mention the encoder. Theorems on `create_blob` of preconfirmation/src/blob.rs.
use taiko_preconfer.Prelude.{
  ℕ, zero, suc, ◌+◌, ◌-◌, ◌*◌, ◌/◌, ◌%◌, ◌<◌, ◌≤◌, ◌≡◌, refl, ap, ◌∙◌, sym, List, [], ◌∷◌, ◌++◌,
  arith, length, take, drop, get_or, append_assoc, append-nil, take-append, drop-append,
  length-append, drop-drop, All, as_u8, as_u32,
}
use taiko_preconfer.Blob.{
  create_blob, iterations, zeroed, max_iterations, bytes_per_blob, max_blob_data_size,
}
use taiko_preconfer.Blob.Stream.{
  take_padded, front, length-take_padded, take_padded_add, take_padded_fields,
}
use taiko_preconfer.Blob.Layout.{IsByte, All-drop, front-IsByte, group, pack}
use taiko_preconfer.Blob.Rounds.{content, create_blob_lem, room_lem}
use taiko_preconfer.Blob.Layout.{room}

-- The 127 bytes of a group of four fields.
abbrev pub unpack_group : List ℕ → List ℕ
unpack_group g =
    let a = front g in
    let b = front (drop 32 g) in
    let c = front (drop 64 g) in
    let d = front (drop 96 g) in
    take 31 (drop 1 g)
    ++ ((a % 64 + b / 16 % 4 * 64)
        ∷ (take 31 (drop 33 g)
            ++ ((b % 16 + d % 16 * 16)
                ∷ (take 31 (drop 65 g) ++ ((c % 64 + d / 16 % 4 * 64) ∷ take 31 (drop 97 g))))))

unfoldable pub unpack : ℕ → List ℕ → List ℕ
unpack zero blob = []
unpack (suc k) blob = unpack_group (take 128 blob) ++ unpack k (drop 128 blob)

-- The data among the unpacked bytes: its length stands in the three bytes after the version.
abbrev pub data_of : List ℕ → List ℕ
data_of bytes =
    take (get_or bytes 1 0 * 65536 + get_or bytes 2 0 * 256 + get_or bytes 3 0) (drop 4 bytes)

unfoldable pub decode_blob : List ℕ → List ℕ
decode_blob blob = data_of (unpack max_iterations blob)

-- `unpack_group` by its parts.
abbrev join : ℕ → ℕ → ℕ → ℕ → List ℕ → List ℕ → List ℕ → List ℕ → List ℕ
join a b c d f0 f1 f2 f3 =
    f0
    ++ ((a % 64 + b / 16 % 4 * 64)
        ∷ (f1 ++ ((b % 16 + d % 16 * 16) ∷ (f2 ++ ((c % 64 + d / 16 % 4 * 64) ∷ f3)))))

joined :
    (a : ℕ) {b b' c c' d d' : ℕ} {f0 f0' f1 f1' f2 f2' f3 f3' : List ℕ}
    → f0 ≡ f0'
    → f1 ≡ f1'
    → f2 ≡ f2'
    → f3 ≡ f3'
    → b ≡ b'
    → c ≡ c'
    → d ≡ d'
    → join a b c d f0 f1 f2 f3 ≡ join a b' c' d' f0' f1' f2' f3'
joined a p0 p1 p2 p3 pb pc pd = λ i. join a (pb i) (pc i) (pd i) (p0 i) (p1 i) (p2 i) (p3 i)

skip : (n : ℕ) (f rest : List ℕ) → length f ≡ 31 → drop (31 + n) (f ++ rest) ≡ drop n rest
skip n f rest h = sym (drop-drop n 31 (f ++ rest)) ∙ ap (drop n) (drop-append 31 f rest h)

nest : (p q r s : List ℕ) → ((p ++ q) ++ r) ++ s ≡ p ++ (q ++ (r ++ s))
nest p q r s = simp append_assoc

-- Unpacking four fields whose contents have 31 bytes.
unpack_fields :
    (a b c d : ℕ) (f0 f1 f2 f3 : List ℕ)
    → length f0 ≡ 31
    → length f1 ≡ 31
    → length f2 ≡ 31
    → length f3 ≡ 31
    → unpack_group ((((a ∷ f0) ++ (b ∷ f1)) ++ (c ∷ f2)) ++ (d ∷ f3)) ≡ join a b c d f0 f1 f2 f3
unpack_fields a b c d f0 f1 f2 f3 h0 h1 h2 h3 =
    let r3 = d ∷ f3 in
    let r2 = c ∷ (f2 ++ r3) in
    let r1 = b ∷ (f1 ++ r2) in
    let g = a ∷ (f0 ++ r1) in
    let at_32 : drop 32 g ≡ r1 = skip 0 f0 r1 h0 in
    let at_33 : drop 33 g ≡ f1 ++ r2 = skip 1 f0 r1 h0 in
    let at_64 : drop 64 g ≡ r2 = skip 32 f0 r1 h0 ∙ skip 0 f1 r2 h1 in
    let at_65 : drop 65 g ≡ f2 ++ r3 = skip 33 f0 r1 h0 ∙ skip 1 f1 r2 h1 in
    let at_96 : drop 96 g ≡ r3 = skip 64 f0 r1 h0 ∙ skip 32 f1 r2 h1 ∙ skip 0 f2 r3 h2 in
    let at_97 : drop 97 g ≡ f3 = skip 65 f0 r1 h0 ∙ skip 33 f1 r2 h1 ∙ skip 1 f2 r3 h2 in
    let c0 : take 31 (f0 ++ r1) ≡ f0 = take-append 31 f0 r1 h0 in
    let c1 : take 31 (drop 33 g) ≡ f1 = ap (take 31) at_33 ∙ take-append 31 f1 r2 h1 in
    let c2 : take 31 (drop 65 g) ≡ f2 = ap (take 31) at_65 ∙ take-append 31 f2 r3 h2 in
    let c3 : take 31 (drop 97 g) ≡ f3 =
      ap (take 31) at_97 ∙ (ap (take 31) (sym (append-nil f3)) ∙ take-append 31 f3 [] h3) in
    ap unpack_group (nest (a ∷ f0) (b ∷ f1) (c ∷ f2) (d ∷ f3))
    ∙ joined a c0 c1 c2 c3 (ap front at_32) (ap front at_64) (ap front at_96)

-- Spreading three bytes over four first bytes loses nothing.
spread :
    (x y z : ℕ)
    → x < 256
    → y < 256
    → z < 256
    → let b = y % 16 + x / 64 * 16 in
      let d = z / 64 * 16 + y / 16 in
      (x % 64 % 64 + b / 16 % 4 * 64 ≡ x)
      × (b % 16 + d % 16 * 16 ≡ y)
      × (z % 64 % 64 + d / 16 % 4 * 64 ≡ z)
spread x y z hx hy hz = omega arith

-- The group of a stream's next 127 bytes is unpacked to them.
unpack_group-group :
    (s : List ℕ)
    → All IsByte s
    → unpack_group (group (take_padded 31 s) (drop 31 s)) ≡ take_padded 127 s
unpack_group-group s h =
    let t = drop 31 s in
    let ht = All-drop 31 s h in
    let (x, y, z) =
      spread (front t) (front (drop 32 t)) (front (drop 64 t)) (front-IsByte t ht)
        (front-IsByte (drop 32 t) (All-drop 32 t ht))
        (front-IsByte (drop 64 t) (All-drop 64 t ht)) in
    unpack_fields _ _ _ _ (take_padded 31 s) (take_padded 31 (drop 1 t))
      (take_padded 31 (drop 33 t)) (take_padded 31 (drop 65 t)) (length-take_padded 31 s)
      (length-take_padded 31 (drop 1 t)) (length-take_padded 31 (drop 33 t))
      (length-take_padded 31 (drop 65 t))
    ∙ (λ i.
        take_padded 31 s
        ++ (x i
            ∷ (take_padded 31 (drop 1 t)
                ++ (y i ∷ (take_padded 31 (drop 33 t) ++ (z i ∷ take_padded 31 (drop 65 t)))))))
    ∙ ap (◌++◌ (take_padded 31 s)) (sym (take_padded_fields t))
    ∙ sym (take_padded_add 31 96 s)

pub length-group : (f0 t : List ℕ) → length f0 ≡ 31 → length (group f0 t) ≡ 128
length-group f0 t h =
    let x = front t in
    let y = front (drop 32 t) in
    let z = front (drop 64 t) in
    let p = x % 64 ∷ f0 in
    let q = (y % 16 + x / 64 * 16) ∷ take_padded 31 (drop 1 t) in
    let r = z % 64 ∷ take_padded 31 (drop 33 t) in
    let s = (z / 64 * 16 + y / 16) ∷ take_padded 31 (drop 65 t) in
    omega (
      arith,
      h,
      length-append ((p ++ q) ++ r) s,
      length-append (p ++ q) r,
      length-append p q,
      length-take_padded 31 (drop 1 t),
      length-take_padded 31 (drop 33 t),
      length-take_padded 31 (drop 65 t),
    )

-- Unpacking gives the packed bytes back, group by group.
unpack-pack :
    (k n : ℕ) (s rest : List ℕ)
    → k ≤ n
    → All IsByte s
    → unpack n (pack k s ++ rest) ≡ take_padded (127 * k) s ++ unpack (n - k) rest
unfolding unpack pack
unpack-pack zero n s rest le h = let e : n - 0 ≡ n = omega arith in rw e
unpack-pack (suc k) zero s rest le h = absurd (omega arith)
unpack-pack (suc k) (suc n) s rest le h =
    let g = group (take_padded 31 s) (drop 31 s) in
    let others = pack k (drop 127 s) in
    let size = length-group (take_padded 31 s) (drop 31 s) (length-take_padded 31 s) in
    let blob : (g ++ others) ++ rest ≡ g ++ (others ++ rest) = append_assoc g others rest in
    let first =
      ap unpack_group (ap (take 128) blob ∙ take-append 128 g (others ++ rest) size)
      ∙ unpack_group-group s h in
    let behind =
      ap (unpack n) (ap (drop 128) blob ∙ drop-append 128 g (others ++ rest) size)
      ∙ unpack-pack k n (drop 127 s) rest (omega arith) (All-drop 127 s h) in
    let more : 127 * suc k ≡ 127 + 127 * k = omega arith in
    let fewer : suc n - suc k ≡ n - k = omega arith in
    rw (more, fewer)
      ((λ i. first i ++ behind i)
        ∙ sym (
            append_assoc (take_padded 127 s) (take_padded (127 * k) (drop 127 s))
              (unpack (n - k) rest))
        ∙ ap (λ l. l ++ unpack (n - k) rest) (sym (take_padded_add 127 (127 * k) s)))

take-take_padded :
    (m n : ℕ) (xs rest : List ℕ) → length xs ≡ n → n ≤ m → take n (take_padded m xs ++ rest) ≡ xs
take-take_padded m zero [] rest h le = refl
take-take_padded m zero (x ∷ xs) rest h le = absurd (omega arith)
take-take_padded m (suc n) [] rest h le = absurd (omega arith)
take-take_padded zero (suc n) (x ∷ xs) rest h le = absurd (omega arith)
take-take_padded (suc m) (suc n) (x ∷ xs) rest h le =
    ap (◌∷◌ x) (take-take_padded m n xs rest (omega arith) (omega arith))

-- The length is read back from the metadata.
size_bytes :
    (n : ℕ)
    → n ≤ max_blob_data_size
    → as_u8 (as_u32 n / 65536) * 65536 + as_u8 (as_u32 n / 256) * 256 + as_u8 (as_u32 n) ≡ n
size_bytes n h = omega arith

-- Data of a blob's size or less survives the round trip if it leaves room for the metadata in its
-- last group.
pub decode_blob-create_blob :
    (input : List ℕ)
    → All IsByte input
    → length input ≤ max_blob_data_size
    → length input % 127 ≤ 123
    → decode_blob (create_blob input) ≡ input
unfolding decode_blob
decode_blob-create_blob input bytes size rest =
    let k = length input / 127 in
    let m = 127 * k + 123 in
    let padding = bytes_per_blob - 128 * suc k in
    let rounds : iterations input ≡ suc k = unfold iterations in omega arith in
    let fits : room (suc k) padding ≡ bytes_per_blob = omega (arith, room_lem (suc k) padding) in
    let blob = create_blob_lem input bytes k padding rounds fits in
    let whole =
      unpack-pack (suc k) max_iterations (content input) (zeroed padding) (omega arith)
        (omega arith, (omega arith, (omega arith, (omega arith, bytes)))) in
    let after = unpack (max_iterations - suc k) (zeroed padding) in
    let four : 127 * suc k ≡ 4 + m = omega arith in
    let front_first =
      ap (λ n. take_padded n (content input) ++ after) four
      ∙ ap (λ l. l ++ after) (take_padded_add 4 m (content input)) in
    ap data_of (ap (unpack max_iterations) blob ∙ whole ∙ front_first)
    ∙ ap (λ n. take n (take_padded m input ++ after)) (size_bytes (length input) size)
    ∙ take-take_padded m (length input) input after refl (omega arith)

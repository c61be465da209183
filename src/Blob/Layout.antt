-- ===== src/Blob/Layout.antt =====
-- preconfirmation/src/blob.rs: the loop of `create_blob` writes one group of four fields after another.
use taiko_preconfer.Prelude.{
  ℕ, zero, suc, ◌+◌, ◌*◌, ◌/◌, ◌%◌, ◌^◌, ◌<◌, ◌≡◌, refl, ap, ◌∙◌, sym, List, [], ◌∷◌, ◌++◌, arith,
  bit_and, bit_or, length, take, drop, take-append, drop-append, drop-drop, append_assoc,
  length-append, drop-replicate, All,
}
use taiko_preconfer.Blob.{
  Encoder, write, fill, emit, next_byte, zeroed, encode_fields, mask_1, mask_2, mask_3, mask_4,
}
use taiko_preconfer.Blob.Stream.{
  take_padded, front, read_byte_lem, read_bytes_lem, length-take_padded,
}
use taiko_preconfer.Blob.Fields.{first_bytes}

abbrev pub IsByte : ℕ → Type 0
IsByte b = b < 256

pub All-drop : (n : ℕ) (xs : List ℕ) → All IsByte xs → All IsByte (drop n xs)
All-drop zero xs h = h
All-drop (suc n) [] h = tt
All-drop (suc n) (x ∷ xs) h = All-drop n xs h.1

pub front-IsByte : (xs : List ℕ) → All IsByte xs → front xs < 256
front-IsByte [] h = omega arith
front-IsByte (x ∷ xs) h = h.0

-- Four fields: their first bytes, the content `f0` of the first, and the bytes `t` after that.
abbrev pub fields : ℕ → ℕ → ℕ → ℕ → List ℕ → List ℕ → List ℕ
fields b0 b1 b2 b3 f0 t =
    (b0 ∷ f0)
    ++ (b1 ∷ take_padded 31 (drop 1 t))
    ++ (b2 ∷ take_padded 31 (drop 33 t))
    ++ (b3 ∷ take_padded 31 (drop 65 t))

-- A group: the three bytes between the contents are spread over the first bytes.
abbrev pub group : List ℕ → List ℕ → List ℕ
group f0 t =
    let x = front t in
    let y = front (drop 32 t) in
    let z = front (drop 64 t) in
    fields (x % 64) (y % 16 + x / 64 * 16) (z % 64) (z / 64 * 16 + y / 16) f0 t

group_lem :
    (x y z : ℕ) (f0 t : List ℕ)
    → x ≡ front t
    → y ≡ front (drop 32 t)
    → z ≡ front (drop 64 t)
    → All IsByte t
    → fields
        (bit_and x mask_1)
        (bit_or (bit_and y mask_2) (bit_and x mask_3 / 2 ^ 2))
        (bit_and z mask_1)
        (bit_or (bit_and z mask_3 / 2 ^ 2) (bit_and y mask_4 / 2 ^ 4))
        f0
        t
      ≡ group f0 t
group_lem x y z f0 t ex ey ez bytes =
    let (b0, b1, b2, b3) =
      first_bytes (front t) (front (drop 32 t)) (front (drop 64 t)) (front-IsByte t bytes)
        (front-IsByte (drop 32 t) (All-drop 32 t bytes))
        (front-IsByte (drop 64 t) (All-drop 64 t bytes)) in
    rw (ex, ey, ez) (rw (b0, b1, b2, b3))

regroup : (w p q r s : List ℕ) → (((w ++ p) ++ q) ++ r) ++ s ≡ w ++ (((p ++ q) ++ r) ++ s)
regroup w p q r s = simp append_assoc

drop-zeroed : (n m : ℕ) → drop n (zeroed (n + m)) ≡ zeroed m
unfolding zeroed
drop-zeroed n m = drop-replicate n m 0

-- The encoder has `rest` still to read, has written `written`, and has `padding` bytes of room.
pub record At (input : List ℕ) (e : Encoder) (rest written : List ℕ) (padding : ℕ) : Type 0 where
  pub left : drop e.reader.read_bytes input ≡ rest
  pub size : e.writer.written_bytes ≡ length written
  pub blob : e.blob_bytes ≡ written ++ zeroed padding

module _ (input : List ℕ) where
  emit-At :
      (e : Encoder) (b : ℕ) (rest written : List ℕ) (padding : ℕ)
      → At input e rest written (32 + padding)
      → length e.buffer ≡ 31
      → At input (emit b e) rest (written ++ b ∷ e.buffer) padding × ((emit b e).buffer ≡ e.buffer)
  unfolding emit write
  emit-At e b rest written padding a h =
      let room = zeroed (32 + padding) in
      let before : take e.writer.written_bytes e.blob_bytes ≡ written =
        rw (a.blob, a.size) (take-append (length written) written room refl) in
      let after : drop (e.writer.written_bytes + 32) e.blob_bytes ≡ zeroed padding =
        rw (a.blob, a.size)
          (sym (drop-drop 32 (length written) (written ++ room))
            ∙ ap (drop 32) (drop-append (length written) written room refl)
            ∙ drop-zeroed 32 padding) in
      (
        record {
          left = a.left;
          size = omega (arith, a.size, length-append written (b ∷ e.buffer), h);
          blob = rw (before, after) (sym (append_assoc written (b ∷ e.buffer) (zeroed padding)));
        },
        refl,
      )

  pub fill-At :
      (e : Encoder) (rest written : List ℕ) (padding : ℕ)
      → At input e rest written padding
      → At input (fill input e) (drop 31 rest) written padding
        × ((fill input e).buffer ≡ take_padded 31 rest)
  unfolding fill
  fill-At e rest written padding a =
      let (bytes, on) = read_bytes_lem e.reader input 31 31 refl in
      (
        record { left = on ∙ ap (drop 31) a.left; size = a.size; blob = a.blob },
        bytes ∙ ap (take_padded 31) a.left,
      )

  next_byte-At :
      (e : Encoder) (rest written : List ℕ) (padding : ℕ)
      → At input e rest written padding
      → ((next_byte input e).0 ≡ front rest)
        × At input (next_byte input e).1 (drop 1 rest) written padding
        × ((next_byte input e).1.buffer ≡ e.buffer)
  unfolding next_byte
  next_byte-At e rest written padding a =
      let (byte, on) = read_byte_lem e.reader input in
      (
        byte ∙ ap front a.left,
        record { left = on ∙ ap (drop 1) a.left; size = a.size; blob = a.blob },
        refl,
      )

  pub recast :
      (e : Encoder) {r r' w w' : List ℕ} (padding : ℕ)
      → r ≡ r'
      → w ≡ w'
      → At input e r w padding
      → At input e r' w' padding
  recast e padding p q a = record {
    left = a.left ∙ p;
    size = a.size ∙ ap length q;
    blob = a.blob ∙ ap (λ w. w ++ zeroed padding) q;
  }

  -- A byte is read, a field written, and the next field's content read.
  abbrev after_field : ℕ → Encoder → Encoder
  after_field b e = fill input (emit b (next_byte input e).1)

  after_field-At :
      (e : Encoder) (b : ℕ) (f rest written : List ℕ) (padding : ℕ)
      → At input e rest written (32 + padding)
      → e.buffer ≡ f
      → length f ≡ 31
      → At input (after_field b e) (drop 32 rest) (written ++ b ∷ f) padding
        × ((after_field b e).buffer ≡ take_padded 31 (drop 1 rest))
  after_field-At e b f rest written padding a same h =
      let (_, a1, kept) = next_byte-At e rest written (32 + padding) a in
      let full = kept ∙ same in
      let (a2, _) =
        emit-At (next_byte input e).1 b (drop 1 rest) written padding a1 (ap length full ∙ h) in
      let (a3, buf) = fill-At (emit b (next_byte input e).1) (drop 1 rest) _ padding a2 in
      (recast _ padding (drop-drop 31 1 rest) (ap (λ g. written ++ b ∷ g) full) a3, buf)

  module _ (e : Encoder) (f0 rest written : List ℕ) (padding : ℕ)
      (a : At input e rest written (32 + (32 + (32 + (32 + padding))))) (start : e.buffer ≡ f0)
      (h : length f0 ≡ 31) where
    after_one :
        (b0 : ℕ)
        → At input
            (after_field b0 e)
            (drop 32 rest)
            (written ++ b0 ∷ f0)
            (32 + (32 + (32 + padding)))
          × ((after_field b0 e).buffer ≡ take_padded 31 (drop 1 rest))
    after_one b0 = after_field-At e b0 f0 rest written _ a start h

    after_two :
        (b0 b1 : ℕ)
        → At input
            (after_field b1 (after_field b0 e))
            (drop 64 rest)
            ((written ++ b0 ∷ f0) ++ b1 ∷ take_padded 31 (drop 1 rest))
            (32 + (32 + padding))
          × ((after_field b1 (after_field b0 e)).buffer ≡ take_padded 31 (drop 33 rest))
    after_two b0 b1 =
        let (a1, f1) = after_one b0 in
        let (a2, f2) =
          after_field-At (after_field b0 e) b1 (take_padded 31 (drop 1 rest)) (drop 32 rest) _ _ a1
            f1 (length-take_padded 31 (drop 1 rest)) in
        (recast _ _ (drop-drop 32 32 rest) refl a2, f2 ∙ ap (take_padded 31) (drop-drop 1 32 rest))

    after_three :
        (b0 b1 b2 : ℕ)
        → At input
            (after_field b2 (after_field b1 (after_field b0 e)))
            (drop 96 rest)
            (((written ++ b0 ∷ f0) ++ b1 ∷ take_padded 31 (drop 1 rest))
              ++ b2 ∷ take_padded 31 (drop 33 rest))
            (32 + padding)
          × ((after_field b2 (after_field b1 (after_field b0 e))).buffer
              ≡ take_padded 31 (drop 65 rest))
    after_three b0 b1 b2 =
        let (a2, f2) = after_two b0 b1 in
        let (a3, f3) =
          after_field-At _ b2 (take_padded 31 (drop 33 rest)) (drop 64 rest) _ _ a2 f2
            (length-take_padded 31 (drop 33 rest)) in
        (recast _ _ (drop-drop 32 64 rest) refl a3, f3 ∙ ap (take_padded 31) (drop-drop 1 64 rest))

    four_fields :
        (b0 b1 b2 b3 : ℕ)
        → At input
            (emit b3 (after_field b2 (after_field b1 (after_field b0 e))))
            (drop 96 rest)
            (written
              ++ ((b0 ∷ f0)
                  ++ (b1 ∷ take_padded 31 (drop 1 rest))
                  ++ (b2 ∷ take_padded 31 (drop 33 rest))
                  ++ (b3 ∷ take_padded 31 (drop 65 rest))))
            padding
    four_fields b0 b1 b2 b3 =
        let (a3, f3) = after_three b0 b1 b2 in
        let (a4, _) =
          emit-At _ b3 _ _ padding a3 (ap length f3 ∙ length-take_padded 31 (drop 65 rest)) in
        recast _ padding refl
          (ap
              (λ g.
                (((written ++ b0 ∷ f0) ++ b1 ∷ take_padded 31 (drop 1 rest))
                  ++ b2 ∷ take_padded 31 (drop 33 rest))
                ++ b3 ∷ g)
              f3
            ∙ regroup written (b0 ∷ f0) (b1 ∷ take_padded 31 (drop 1 rest))
                (b2 ∷ take_padded 31 (drop 33 rest)) (b3 ∷ take_padded 31 (drop 65 rest)))
          a4

  pub encode_fields-At :
      (e : Encoder) (f0 rest written : List ℕ) (padding : ℕ)
      → At input e rest written (32 + (32 + (32 + (32 + padding))))
      → e.buffer ≡ f0
      → length f0 ≡ 31
      → All IsByte rest
      → At input (encode_fields input e) (drop 96 rest) (written ++ group f0 rest) padding
  unfolding encode_fields
  encode_fields-At e f0 rest written padding a start h bytes =
      let x = (next_byte input e).0 in
      let x_eq = (next_byte-At e rest written _ a).0 in
      let b0 = bit_and x mask_1 in
      let e2 = after_field b0 e in
      let (a2, f2) = after_one e f0 rest written padding a start h b0 in
      let y = (next_byte input e2).0 in
      let y_eq = (next_byte-At e2 (drop 32 rest) _ _ a2).0 in
      let b1 = bit_or (bit_and y mask_2) (bit_and x mask_3 / 2 ^ 2) in
      let e4 = after_field b1 e2 in
      let (a4, f4) = after_two e f0 rest written padding a start h b0 b1 in
      let z = (next_byte input e4).0 in
      let z_eq = (next_byte-At e4 (drop 64 rest) _ _ a4).0 in
      let b2 = bit_and z mask_1 in
      let b3 = bit_or (bit_and z mask_3 / 2 ^ 2) (bit_and y mask_4 / 2 ^ 4) in
      recast _ padding refl (ap (◌++◌ written) (group_lem x y z f0 rest x_eq y_eq z_eq bytes))
        (four_fields e f0 rest written padding a start h b0 b1 b2 b3)

-- Room for `k` groups, and `padding` bytes after them.
abbrev pub room : ℕ → ℕ → ℕ
room zero padding = padding
room (suc k) padding = 32 + (32 + (32 + (32 + room k padding)))

-- `k` groups that hold the bytes of `s`, zeros behind them where `s` is short.
unfoldable pub pack : ℕ → List ℕ → List ℕ
pack zero s = []
pack (suc k) s = group (take_padded 31 s) (drop 31 s) ++ pack k (drop 127 s)

-- ===== src/Streams/Dedup.antt =====
-- The filters of merged streams: an item is dropped if it repeats the last one that came through.
use taiko_preconfer.Prelude.{
  ℕ, ◌≡◌, refl, Bool, true, List, [], ◌∷◌, if◌then◌else◌, arith, Bool-cases, inl, inr, ◌&&◌, ◌==◌,
}
use taiko_preconfer.Chain.{Header, Block}
use taiko_preconfer.Streams.{
  seen, filter_ids, get_id_stream, filter_headers, get_header_stream, filter_blocks,
  get_block_stream,
}

-- The list without the items that equal the one just before them, stated of the input alone.
abbrev pub squeeze_after : {A : Type 0} → (A → A → Bool) → A → List A → List A
squeeze_after same last [] = []
squeeze_after same last (x ∷ xs) =
    if same x last then squeeze_after same x xs else x ∷ squeeze_after same x xs

-- A block or header counts as the same if number and hash agree.
abbrev pub same_header : Header → Header → Bool
same_header a b = a.number == b.number && a.hash == b.hash

abbrev pub squeeze : {A : Type 0} → (A → A → Bool) → List A → List A
squeeze same [] = []
squeeze same (x ∷ xs) = x ∷ squeeze_after same x xs

filter_ids-squeeze : (last : ℕ) (ids : List ℕ) → filter_ids last ids ≡ squeeze_after ◌==◌ last ids
unfolding filter_ids
filter_ids-squeeze last [] = refl
filter_ids-squeeze last (id ∷ ids) =
    ground (arith, filter_ids-squeeze id ids, filter_ids-squeeze last ids)

seen_same : (x h : Header) → same_header x h ≡ true → seen x ≡ seen h
seen_same x h e = ground arith

filter_headers-squeeze :
    (h : Header) (hs : List Header) → filter_headers (seen h) hs ≡ squeeze_after same_header h hs
unfolding filter_headers
filter_headers-squeeze h [] = refl
filter_headers-squeeze h (x ∷ xs) = elim (Bool-cases (same_header x h)) [
  | inl e ↦ ground (arith, seen_same x h e, filter_headers-squeeze x xs)
  | inr e ↦ ground (arith, filter_headers-squeeze x xs, filter_headers-squeeze h xs)
]

-- Whatever the interleaving, the stream of ids drops an id that repeats the one before it, and
-- leading zeros.
pub get_id_stream-squeeze : (merged : List ℕ) → get_id_stream merged ≡ squeeze_after ◌==◌ 0 merged
unfolding get_id_stream
get_id_stream-squeeze merged = filter_ids-squeeze 0 merged

-- The header stream drops exactly the headers that agree in number and hash with the one before
-- them; the first header always comes through.
pub get_header_stream-squeeze :
    (merged : List Header) → get_header_stream merged ≡ squeeze same_header merged
unfolding get_header_stream filter_headers
get_header_stream-squeeze [] = refl
get_header_stream-squeeze (h ∷ hs) = rw (filter_headers-squeeze h hs)

module _ {Tx : Type 0} where
  abbrev pub same_block : Block Tx → Block Tx → Bool
  same_block a b = same_header a.header b.header

  filter_blocks-squeeze :
      (b : Block Tx) (bs : List (Block Tx))
      → filter_blocks (seen b.header) bs ≡ squeeze_after same_block b bs
  unfolding filter_blocks
  filter_blocks-squeeze b [] = refl
  filter_blocks-squeeze b (x ∷ xs) = elim (Bool-cases (same_block x b)) [
    | inl e ↦ ground (arith, seen_same x.header b.header e, filter_blocks-squeeze x xs)
    | inr e ↦ ground (arith, filter_blocks-squeeze x xs, filter_blocks-squeeze b xs)
  ]

  -- So does the stream of L2 blocks.
  pub get_block_stream-squeeze :
      (merged : List (Block Tx)) → get_block_stream merged ≡ squeeze same_block merged
  unfolding get_block_stream filter_blocks
  get_block_stream-squeeze [] = refl
  get_block_stream-squeeze (b ∷ bs) = rw (filter_blocks-squeeze b bs)

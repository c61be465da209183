-- ===== src/Cache/Order.antt =====
-- preconfirmation/src/tx_cache.rs: the cache as a list in order, and as a map from block numbers.
use taiko_preconfer.Prelude.{
  ℕ, ◌<◌, ◌≡◌, inl, inr, ◌≢◌, refl, Option, none, some, List, [], ◌∷◌, arith, ◌==◌, leb, leb→le,
  if◌then◌else◌, Bool-cases, Sorted, All, All-map,
}
use taiko_preconfer.Chain.{Block}
use taiko_preconfer.Cache.{replace_or_push, insert_sorted, sort, add_block}

module _ {Tx : Type 0} where
  abbrev Before : Block Tx → Block Tx → Type 0
  Before a b = a.header.number < b.header.number

  -- Numbers rise along the cache, so no two blocks of it have the same number.
  abbrev pub IsOrdered : List (Block Tx) → Type 0
  IsOrdered bs = Sorted Before bs

  -- The block with a number.
  abbrev pub find : ℕ → List (Block Tx) → Option (Block Tx)
  find n [] = none
  find n (b ∷ bs) = if b.header.number == n then some b else find n bs

  Differ : Block Tx → Block Tx → Type 0
  Differ a b = a.header.number ≢ b.header.number

  module _ (P : Block Tx → Type 0) where
    All-replace_or_push :
        (x : Block Tx) (bs : List (Block Tx)) → P x → All P bs → All P (replace_or_push x bs)
    unfolding replace_or_push
    All-replace_or_push x [] px h = (px, tt)
    All-replace_or_push x (b ∷ bs) px h = elim (Bool-cases (b.header.number == x.header.number)) [
      | inl e ↦ rw e (px, h.1)
      | inr e ↦ rw e (h.0, All-replace_or_push x bs px h.1)
    ]

    All-insert_sorted :
        (x : Block Tx) (bs : List (Block Tx)) → P x → All P bs → All P (insert_sorted x bs)
    unfolding insert_sorted
    All-insert_sorted x [] px h = (px, tt)
    All-insert_sorted x (b ∷ bs) px h = elim (Bool-cases (leb x.header.number b.header.number)) [
      | inl e ↦ rw e (px, h)
      | inr e ↦ rw e (h.0, All-insert_sorted x bs px h.1)
    ]

    All-sort : (bs : List (Block Tx)) → All P bs → All P (sort bs)
    unfolding sort
    All-sort [] h = tt
    All-sort (b ∷ bs) h = All-insert_sorted b (sort bs) h.0 (All-sort bs h.1)

    pub All-add_block :
        (bs : List (Block Tx)) (x : Block Tx) → All P bs → P x → All P (add_block bs x)
    unfolding add_block
    All-add_block bs x h px = All-sort (replace_or_push x bs) (All-replace_or_push x bs px h)

  -- Replacing or pushing keeps the numbers apart.
  apart :
      (x : Block Tx) (bs : List (Block Tx))
      → Sorted Differ bs
      → Sorted Differ (replace_or_push x bs)
  unfolding replace_or_push Differ
  apart x [] d = (tt, tt)
  apart x (b ∷ bs) d = elim (Bool-cases (b.header.number == x.header.number)) [
    | inl e ↦ rw e (All-map (Differ b) bs (λ c h. ground arith) d.0, d.1)
    | inr e ↦ rw e (All-replace_or_push (Differ b) x bs (ground arith) d.0, apart x bs d.1)
  ]

  insert_sorted-IsOrdered :
      (x : Block Tx) (bs : List (Block Tx))
      → All (Differ x) bs
      → IsOrdered bs
      → IsOrdered (insert_sorted x bs)
  unfolding insert_sorted Differ
  insert_sorted-IsOrdered x [] d o = (tt, tt)
  insert_sorted-IsOrdered x (b ∷ bs) d o = elim (Bool-cases (leb x.header.number b.header.number)) [
    | inl e ↦
        let less : x.header.number < b.header.number = omega (arith, leb→le _ _ e, d.0) in
        rw e ((less, All-map (Before b) bs (λ c h. omega arith) o.0), o)
    | inr e ↦
        rw e (
          All-insert_sorted (Before b) x bs (ground arith) o.0,
          insert_sorted-IsOrdered x bs d.1 o.1,
        )
  ]

  sort-IsOrdered : (bs : List (Block Tx)) → Sorted Differ bs → IsOrdered (sort bs)
  unfolding sort
  sort-IsOrdered [] d = tt
  sort-IsOrdered (b ∷ bs) d =
      insert_sorted-IsOrdered b (sort bs) (All-sort (Differ b) bs d.0) (sort-IsOrdered bs d.1)

  IsOrdered-apart : (bs : List (Block Tx)) → IsOrdered bs → Sorted Differ bs
  unfolding Differ
  IsOrdered-apart [] o = tt
  IsOrdered-apart (b ∷ bs) o =
      (All-map (Before b) bs (λ c h. omega arith) o.0, IsOrdered-apart bs o.1)

  -- A stored block leaves the numbers of the cache rising.
  pub add_block-IsOrdered :
      (bs : List (Block Tx)) (x : Block Tx) → IsOrdered bs → IsOrdered (add_block bs x)
  unfolding add_block
  add_block-IsOrdered bs x o =
      sort-IsOrdered (replace_or_push x bs) (apart x bs (IsOrdered-apart bs o))

  find-replace_or_push :
      (n : ℕ) (x : Block Tx) (bs : List (Block Tx))
      → find n (replace_or_push x bs) ≡ (if x.header.number == n then some x else find n bs)
  unfolding replace_or_push
  find-replace_or_push n x [] = refl
  find-replace_or_push n x (b ∷ bs) = ground (arith, find-replace_or_push n x bs)

  find-insert_sorted :
      (n : ℕ) (x : Block Tx) (bs : List (Block Tx))
      → find n (insert_sorted x bs) ≡ (if x.header.number == n then some x else find n bs)
  unfolding insert_sorted
  find-insert_sorted n x [] = refl
  find-insert_sorted n x (b ∷ bs) = ground (arith, find-insert_sorted n x bs)

  find-sort : (n : ℕ) (bs : List (Block Tx)) → find n (sort bs) ≡ find n bs
  unfolding sort
  find-sort n [] = refl
  find-sort n (b ∷ bs) = rw (find-insert_sorted n b (sort bs), find-sort n bs)

  -- The cache is a map from numbers to blocks: a stored block is found under its number, and nothing
  -- else changes. This holds of a block without transactions too.
  pub find-add_block :
      (n : ℕ) (bs : List (Block Tx)) (x : Block Tx)
      → find n (add_block bs x) ≡ (if x.header.number == n then some x else find n bs)
  unfolding add_block
  find-add_block n bs x = rw (find-sort n (replace_or_push x bs)) (find-replace_or_push n x bs)

  -- Two caches in order that hold the same blocks under the same numbers are the same list.
  find_above : (n : ℕ) (bs : List (Block Tx)) → All (λ b. n < b.header.number) bs → find n bs ≡ none
  find_above n [] h = refl
  find_above n (b ∷ bs) h = ground (arith, find_above n bs h.1)

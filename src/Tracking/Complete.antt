-- ===== src/Tracking/Complete.antt =====
-- taiko-preconfer/src/onchain_tracking_loop.rs, `create_block_stream`: no block is lost on the way.
use taiko_preconfer.Prelude.{
  ◌≡◌, ◌⊎◌, inl, inr, refl, sym, subst, ◌∙◌, arith, Bool, true, false, List, [], ◌∷◌, All, All-map,
  All-split, Bool-cases,
}
use taiko_preconfer.Prelude.Outcome.{Outcome, ok, >>=-eq-ok}
use taiko_preconfer.Chain.{Block}
use taiko_preconfer.Streams.{get_block_stream, get_block_polling_stream}
use taiko_preconfer.Streams.Dedup.{squeeze, squeeze_after, same_block, get_block_stream-squeeze}
use taiko_preconfer.Streams.Polling.{answered, polling-stream}
use taiko_preconfer.Tracking.Sources.{Source, merge, ok_blocks, create_block_stream}

module _ {Tx : Type 0} where
  -- A block of the list has the number and the hash of `b`.
  abbrev pub SeenIn : List (Block Tx) → Block Tx → Type 0
  SeenIn [] b = ⊥
  SeenIn (x ∷ xs) b = (same_block b x ≡ true) ⊎ SeenIn xs b

  same_block_refl : (b : Block Tx) → same_block b b ≡ true
  same_block_refl b = ground arith

  same_block_trans :
      (a b c : Block Tx) → same_block a b ≡ true → same_block b c ≡ true → same_block a c ≡ true
  same_block_trans a b c p q = ground arith

  SeenIn-same :
      (xs : List (Block Tx)) (a b : Block Tx) → same_block a b ≡ true → SeenIn xs b → SeenIn xs a
  SeenIn-same [] a b p q = elim q [ ]
  SeenIn-same (x ∷ xs) a b p (inl q) = inl (same_block_trans a b x p q)
  SeenIn-same (x ∷ xs) a b p (inr q) = inr (SeenIn-same xs a b p q)

  -- What is seen in a list is seen wherever all of the list is seen.
  SeenIn-trans :
      (xs ys : List (Block Tx)) (a : Block Tx) → All (SeenIn ys) xs → SeenIn xs a → SeenIn ys a
  SeenIn-trans [] ys a h p = elim p [ ]
  SeenIn-trans (x ∷ xs) ys a h (inl p) = SeenIn-same ys a x p h.0
  SeenIn-trans (x ∷ xs) ys a h (inr p) = SeenIn-trans xs ys a h.1 p

  abbrev Kept : Block Tx → List (Block Tx) → Block Tx → Type 0
  Kept last xs b = (same_block b last ≡ true) ⊎ SeenIn (squeeze_after same_block last xs) b

  squeeze_after_drops :
      (last x : Block Tx) (xs : List (Block Tx))
      → same_block x last ≡ true
      → squeeze_after same_block last (x ∷ xs) ≡ squeeze_after same_block x xs
  squeeze_after_drops last x xs e = rw e refl

  squeeze_after_keeps :
      (last x : Block Tx) (xs : List (Block Tx))
      → same_block x last ≡ false
      → squeeze_after same_block last (x ∷ xs) ≡ x ∷ squeeze_after same_block x xs
  squeeze_after_keeps last x xs e = rw e refl

  again :
      (last x : Block Tx) (xs : List (Block Tx))
      → same_block x last ≡ true
      → (b : Block Tx) → Kept x xs b
      → (same_block b last ≡ true) ⊎ SeenIn (squeeze_after same_block x xs) b
  again last x xs e b (inl p) = inl (same_block_trans b x last p e)
  again last x xs e b (inr q) = inr q

  squeeze_after-Kept : (last : Block Tx) (xs : List (Block Tx)) → All (Kept last xs) xs
  squeeze_after-Kept last [] = tt
  squeeze_after-Kept last (x ∷ xs) = elim (Bool-cases (same_block x last)) [
    | inl e ↦
        subst (λ l. All (λ b. (same_block b last ≡ true) ⊎ SeenIn l b) (x ∷ xs))
          (sym (squeeze_after_drops last x xs e))
          (inl e, All-map (Kept x xs) xs (λ b k. again last x xs e b k) (squeeze_after-Kept x xs))
    | inr e ↦
        subst (λ l. All (λ b. (same_block b last ≡ true) ⊎ SeenIn l b) (x ∷ xs))
          (sym (squeeze_after_keeps last x xs e))
          (
            inr (inl (same_block_refl x)),
            All-map (Kept x xs) xs (λ b k. inr k) (squeeze_after-Kept x xs),
          )
  ]

  squeeze-SeenIn : (xs : List (Block Tx)) → All (SeenIn (squeeze same_block xs)) xs
  squeeze-SeenIn [] = tt
  squeeze-SeenIn (x ∷ xs) = (inl (same_block_refl x), squeeze_after-Kept x xs)

  get_block_stream-SeenIn : (xs : List (Block Tx)) → All (SeenIn (get_block_stream xs)) xs
  get_block_stream-SeenIn xs =
      subst (λ ys. All (SeenIn ys) xs) (sym (get_block_stream-squeeze xs)) (squeeze-SeenIn xs)

module _ {A : Type 0} (P : A → Type 0) where
  merge-All : (turns : List Bool) (xs ys : List A) → All P (merge turns xs ys) → All P xs × All P ys
  unfolding merge
  merge-All [] xs ys h = All-split P xs ys h
  merge-All (true ∷ turns) [] ys h = (tt, h)
  merge-All (true ∷ turns) (x ∷ xs) ys h = let (a, b) = merge-All turns xs ys h.1 in ((h.0, a), b)
  merge-All (false ∷ turns) xs [] h = (h, tt)
  merge-All (false ∷ turns) xs (y ∷ ys) h = let (a, b) = merge-All turns xs ys h.1 in (a, (h.0, b))

module _ {E Tx : Type 0} (turns : List Bool) (source : Source E (Outcome E (Block Tx)) Tx) where
  -- Once both connections stand, the stream of L2 blocks has for each block that the subscription
  -- delivers, and for each that polling finds, one of its number and hash, in whatever order they
  -- arrive.
  pub create_block_stream-SeenIn :
      (delivered : List (Outcome E (Block Tx))) (blocks : List (Block Tx))
      → source.subscribe ≡ ok delivered
      → create_block_stream turns source ≡ ok blocks
      → All (SeenIn blocks) (ok_blocks delivered) × All (SeenIn blocks) (answered source.polls)
  unfolding create_block_stream
  create_block_stream-SeenIn delivered blocks subscribed created =
      let (c, _, h1) = >>=-eq-ok source.connect _ created in
      let (w, _, h2) = >>=-eq-ok source.connect_ws _ h1 in
      let (ws, found, h3) = >>=-eq-ok source.subscribe _ h2 in
      let polled = get_block_polling_stream source.polls in
      let made : get_block_stream (merge turns (ok_blocks delivered) polled) ≡ blocks =
        let one : ok delivered ≡ (let r : Outcome E (List (Outcome E (Block Tx))) = ok ws in r) =
          sym subscribed ∙ found in
        let same : ws ≡ delivered = ground arith in
        subst (λ l. get_block_stream (merge turns (ok_blocks l) polled) ≡ blocks) same
          (ground arith) in
      let (from_ws, from_polls) = merge-All (SeenIn blocks) turns (ok_blocks delivered) polled (
        subst (λ l. All (SeenIn l) (merge turns (ok_blocks delivered) polled)) made
          (get_block_stream-SeenIn (merge turns (ok_blocks delivered) polled))) in
      (
        from_ws,
        All-map (SeenIn polled) (answered source.polls)
            (λ b k. SeenIn-trans polled blocks b from_polls k)
            (subst (λ l. All (SeenIn l) (answered source.polls))
              (sym (polling-stream source.polls).1)
              (get_block_stream-SeenIn (answered source.polls))),
      )

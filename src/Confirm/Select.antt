-- ===== src/Confirm/Select.antt =====
-- preconfirmation/src/preconf/confirmation_strategy.rs: the batch that `send` hands to the client.
use taiko_preconfer.Prelude.{
  ℕ, ◌≤◌, ◌<◌, ◌≡◌, ◌≢◌, ◌⊎◌, ◌↔◌, inl, inr, refl, ap, sym, subst, ◌∙◌, arith, Bool, true, Option,
  none, some, List, [], ◌∷◌, ◌++◌, ◌==◌, length, All, Bool-cases, ==_iff,
}
use taiko_preconfer.Prelude.Outcome.{Outcome, ok, err, panic, >>=-eq-ok}
use taiko_preconfer.Chain.{Block}
use taiko_preconfer.Confirm.{
  Strategy, decoding, first_anchor_id, block_anchor_id, batch_blocks, is_due, select_from,
}

module _ {Tx D : Type 0} (get_anchor_block_id : Tx → Outcome D ℕ) where
  -- The first transaction anchors the block to the L1 block `id`.
  abbrev pub Anchors : ℕ → List Tx → Type 0
  Anchors id [] = ⊥
  Anchors id (tx ∷ txs) = get_anchor_block_id tx ≡ ok id

  abbrev pub HasAnchor : ℕ → Block Tx → Type 0
  HasAnchor id b = Anchors id b.transactions

  -- The list does not go on with a block that has this anchor id.
  abbrev pub Stops : ℕ → List (Block Tx) → Type 0
  Stops id [] = Unit
  Stops id (b ∷ bs) = ¬ HasAnchor id b

  -- What a batch is: the longest prefix of the candidates whose blocks have the anchor id.
  abbrev pub IsBatch : ℕ → List (Block Tx) → List (Block Tx) → Type 0
  IsBatch id blocks batch =
      (rest : List (Block Tx)) × (blocks ≡ batch ++ rest) × All (HasAnchor id) batch × Stops id rest

  Anchors-unique : (txs : List Tx) (a b : ℕ) → Anchors a txs → Anchors b txs → a ≡ b
  Anchors-unique [] a b p q = elim p [ ]
  Anchors-unique (tx ∷ txs) a b p q =
      let same : ok a ≡ (let r : Outcome D ℕ = ok b in r) = sym p ∙ q in ground arith

  IsBatch-pos :
      (id : ℕ) (b : Block Tx) (bs batch : List (Block Tx))
      → HasAnchor id b
      → IsBatch id (b ∷ bs) batch
      → 0 < length batch
  IsBatch-pos id b bs [] has (rest, split, all, stop) =
      absurd (subst (Stops id) (sym split) stop has)
  IsBatch-pos id b bs (x ∷ batch) has h = omega arith

  module _ {C : Type 0} where
    decoding-eq-ok : (m : Outcome D ℕ) (id : ℕ) → decoding {C = C} m ≡ ok id → m ≡ ok id
    decoding-eq-ok (ok a) id h = ground arith
    decoding-eq-ok (err e) id h = cc
    decoding-eq-ok panic id h = cc

    first_anchor_id-Anchors :
        (number id : ℕ) (txs : List Tx)
        → first_anchor_id {C = C} get_anchor_block_id number txs ≡ ok id
        → Anchors id txs
    first_anchor_id-Anchors number id [] h = cc
    first_anchor_id-Anchors number id (tx ∷ txs) h = decoding-eq-ok (get_anchor_block_id tx) id h

    batch_blocks-IsBatch :
        (id : ℕ) (blocks batch : List (Block Tx))
        → batch_blocks {C = C} get_anchor_block_id id blocks ≡ ok batch
        → IsBatch id blocks batch
    unfolding batch_blocks block_anchor_id
    batch_blocks-IsBatch id [] batch h =
        let e : [] ≡ batch = ground arith in subst (IsBatch id []) e ([], refl, tt, tt)
    batch_blocks-IsBatch id (b ∷ bs) batch h =
        let (own, anchored, go) = >>=-eq-ok (block_anchor_id {C = C} get_anchor_block_id b) _ h in
        let has = first_anchor_id-Anchors b.header.number own b.transactions anchored in
        elim (Bool-cases (own == id)) [
          | inl e ↦
              let (more, tail, last) =
                >>=-eq-ok (batch_blocks {C = C} get_anchor_block_id id bs) _ (rw e at go) in
              let (rest, split, all, stop) = batch_blocks-IsBatch id bs more tail in
              let whole : b ∷ more ≡ batch = ground arith in
              subst (IsBatch id (b ∷ bs)) whole (
                rest,
                ap (◌∷◌ b) split,
                (subst (λ n. HasAnchor n b) ((==_iff own id).0 e) has, all),
                stop,
              )
          | inr e ↦
              let over = rw e at go in
              let nothing : [] ≡ batch = ground arith in
              subst (IsBatch id (b ∷ bs)) nothing (
                b ∷ bs,
                refl,
                tt,
                λ same. absurd (ground (arith, Anchors-unique b.transactions own id has same)),
              )
        ]

  -- Something calls for a batch now: the caller, another anchor id among the candidates, a new
  -- anchor id, or enough blocks.
  abbrev pub Due : Strategy → Bool → ℕ → ℕ → ℕ → ℕ → Type 0
  Due s force_send current id in_batch in_all =
      ((force_send ≡ true) ⊎ (in_batch ≢ in_all)) ⊎ ((id ≢ current) ⊎ (s.max_blocks ≤ in_batch))

  is_due_lem :
      (s : Strategy) (force_send : Bool) (current id in_batch in_all : ℕ)
      → 0 < in_batch
      → (is_due s force_send current id in_batch in_all ≡ true)
        ↔ Due s force_send current id in_batch in_all
  unfolding is_due
  is_due_lem s force_send current id in_batch in_all pos = ground arith

  -- The two ways in which a selection ends without an error: there is no candidate, or there is a
  -- batch, which is selected exactly if it is due.
  abbrev pub IsSelection :
      Strategy → Bool → ℕ → List (Block Tx) → Option (List (Block Tx) × ℕ) → Type 0
  IsSelection s force_send current blocks selected =
      ((blocks ≡ []) × (selected ≡ none))
      ⊎ ((batch : List (Block Tx)) × (id : ℕ) × (0 < length batch)
          × IsBatch id blocks batch
          × (((selected ≡ some (batch, id))
                × Due s force_send current id (length batch) (length blocks))
              ⊎ ((selected ≡ none) × ¬ Due s force_send current id (length batch) (length blocks))))

  module _ {C : Type 0} (s : Strategy) (force_send : Bool) (current : ℕ) where
    pub select_from_lem :
        (blocks : List (Block Tx)) (selected : Option (List (Block Tx) × ℕ))
        → select_from {C = C} get_anchor_block_id s force_send current blocks ≡ ok selected
        → IsSelection s force_send current blocks selected
    unfolding select_from block_anchor_id
    select_from_lem [] selected h = inl (refl, ground arith)
    select_from_lem (b ∷ bs) selected h =
        let (id, anchored, go) = >>=-eq-ok (block_anchor_id {C = C} get_anchor_block_id b) _ h in
        let (batch, collected, go') =
          >>=-eq-ok (batch_blocks {C = C} get_anchor_block_id id (b ∷ bs)) _ go in
        let is_batch = batch_blocks-IsBatch id (b ∷ bs) batch collected in
        let has = first_anchor_id-Anchors b.header.number id b.transactions anchored in
        let pos = IsBatch-pos id b bs batch has is_batch in
        let due = is_due_lem s force_send current id (length batch) (length (b ∷ bs)) pos in
        elim (Bool-cases (is_due s force_send current id (length batch) (length (b ∷ bs)))) [
          | inl e ↦
              let chosen = rw e at go' in
              inr (batch, id, pos, is_batch, inl (ground arith, due.0 e))
          | inr e ↦
              let nothing = rw e at go' in
              inr (
                batch,
                id,
                pos,
                is_batch,
                inr (ground arith, λ d. absurd (ground (arith, due.1 d))),
              )
        ]

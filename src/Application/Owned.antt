-- ===== src/Application/Owned.antt =====
-- taiko-preconfer/src/main.rs: whose blocks the start picks up.
use taiko_preconfer.Prelude.{
  ℕ, zero, suc, ◌+◌, ◌≤◌, ◌≡◌, subst, arith, true, ◌==◌, List, [], ◌∷◌, All, Bool-cases, inl, inr,
}
use taiko_preconfer.Prelude.Outcome.{Outcome, ok, >>=-eq-ok}
use taiko_preconfer.Chain.{Header, Block}
use taiko_preconfer.Tracking.{is_unconfirmed, unconfirmed_from}

-- A block of this preconfer, anchored not before the last batch.
module _ {E Tx : Type 0} (get_anchor_block_id : Tx → Outcome E ℕ)
    (preconfer confirmed_anchor_id : ℕ) where
  abbrev Anchored : List Tx → Type 0
  Anchored [] = ⊥
  Anchored (tx ∷ txs) = (id : ℕ) × (get_anchor_block_id tx ≡ ok id) × (confirmed_anchor_id ≤ id)

  abbrev pub IsOwn : Block Tx → Type 0
  IsOwn b = (b.header.beneficiary ≡ preconfer) × Anchored b.transactions

  module _ (get_block_by_id : ℕ → Outcome E (Block Tx)) where
    is_unconfirmed-IsOwn :
        (header : Header) (txs : List Tx)
        → is_unconfirmed get_block_by_id get_anchor_block_id preconfer confirmed_anchor_id header
            txs
          ≡ ok true
        → (header.beneficiary ≡ preconfer) × Anchored txs
    unfolding is_unconfirmed
    is_unconfirmed-IsOwn header [] h = cc
    is_unconfirmed-IsOwn header (tx ∷ txs) h = elim (Bool-cases (header.beneficiary == preconfer)) [
      | inl e ↦
          let (id, decoded, late) =
            >>=-eq-ok (get_anchor_block_id tx) _ (rw (e, is_unconfirmed) at h) in
          (ground arith, (id, decoded, ground arith))
      | inr e ↦ absurd (let none_left = rw (e, is_unconfirmed) at h in cc)
    ]

    pub unconfirmed_from-IsOwn :
        (count id : ℕ) (blocks : List (Block Tx))
        → unconfirmed_from get_block_by_id get_anchor_block_id preconfer confirmed_anchor_id count
            id
          ≡ ok blocks
        → All IsOwn blocks
    unfolding unconfirmed_from
    unconfirmed_from-IsOwn zero id blocks h =
        let same : [] ≡ blocks = ground arith in subst (All IsOwn) same tt
    unconfirmed_from-IsOwn (suc count) id blocks h =
        let (b, found, h1) = >>=-eq-ok (get_block_by_id id) _ h in
        let (picked, answer, h2) =
          >>=-eq-ok
            (is_unconfirmed get_block_by_id get_anchor_block_id preconfer confirmed_anchor_id
              b.header b.transactions)
            _ h1 in
        let (rest, later, h3) =
          >>=-eq-ok
            (unconfirmed_from get_block_by_id get_anchor_block_id preconfer confirmed_anchor_id
              count (id + 1))
            _ h2 in
        let own = unconfirmed_from-IsOwn count (id + 1) rest later in
        elim (Bool-cases picked) [
          | inl e ↦
              let done = rw e at h3 in
              let same : b ∷ rest ≡ blocks = ground arith in
              subst (All IsOwn) same
                (is_unconfirmed-IsOwn b.header b.transactions (rw e at answer), own)
          | inr e ↦
              let done = rw e at h3 in
              let same : rest ≡ blocks = ground arith in subst (All IsOwn) same own
        ]

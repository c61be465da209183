-- ===== src/Batch/Readable.antt =====
-- preconfirmation/src/taiko/taiko_l1_client.rs, `read_blocks`, on a batch of the confirmation strategy: each
-- of its blocks has an anchor transaction, so none is read with a panic.
use taiko_preconfer.Prelude.{
  ℕ, ◌<◌, ◌≡◌, refl, arith, inl, inr, List, [], ◌∷◌, ◌++◌, All, length, ltb, sub64, as_u16, some,
  Bool-cases,
}
use taiko_preconfer.Prelude.Outcome.{Outcome}
use taiko_preconfer.Chain.{Block}
use taiko_preconfer.Batch.{
  BlockParams, read_blocks, without_first, read_from, get_tx_envelopes_without_anchor_from_block,
}
use taiko_preconfer.Confirm.Select.{Anchors, HasAnchor}

module _ {D Tx : Type 0} (get_anchor_block_id : Tx → Outcome D ℕ) where
  without_anchor :
      (id : ℕ) (b : Block Tx)
      → HasAnchor get_anchor_block_id id b
      → (txs : List Tx) × (get_tx_envelopes_without_anchor_from_block b ≡ some txs)
  unfolding get_tx_envelopes_without_anchor_from_block
  without_anchor id b h = first_removed b.transactions h
    where
      first_removed :
          (txs : List Tx)
          → Anchors get_anchor_block_id id txs
          → (rest : List Tx) × (without_first txs ≡ some rest)
      first_removed [] h = elim h [ ]
      first_removed (tx ∷ txs) h = (txs, refl)

  -- Blocks with an anchor transaction are read without a panic.
  read_from_returns :
      (id last_timestamp : ℕ) (blocks : List (Block Tx))
      → All (HasAnchor get_anchor_block_id id) blocks
      → (p : List BlockParams × List Tx × ℕ) × (read_from last_timestamp blocks ≡ some p)
  unfolding read_from
  read_from_returns id last_timestamp [] h = (([], [], last_timestamp), refl)
  read_from_returns id last_timestamp (b ∷ bs) h =
      let (p, later) = read_from_returns id b.header.timestamp bs h.1 in
      let (own, removed) = without_anchor id b h.0 in
      let time_shift = sub64 b.header.timestamp last_timestamp in
      elim (Bool-cases (ltb time_shift 256)) [
        | inr far ↦ (([], [], last_timestamp), rw (far, read_from))
        | inl near ↦ (
          (
            record {
              num_transactions = as_u16 (length own);
              time_shift = time_shift;
              signal_slots = [];
            }
                ∷ p.0,
            own ++ p.1,
            p.2,
          ),
          rw (near, removed, later, read_from),
        )
      ]

  pub read_blocks_returns :
      (id : ℕ) (blocks : List (Block Tx))
      → 0 < length blocks
      → All (HasAnchor get_anchor_block_id id) blocks
      → (p : List BlockParams × List Tx × ℕ) × (read_blocks blocks ≡ some p)
  unfolding read_blocks
  read_blocks_returns id [] pos h = absurd (omega arith)
  read_blocks_returns id (b ∷ bs) pos h = read_from_returns id b.header.timestamp (b ∷ bs) h

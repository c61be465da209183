-- ===== src/Batch/Agreement.antt =====
-- preconfirmation/src/taiko/taiko_l1_client.rs and preconfirmation/src/verification.rs: the parameters
-- and the transactions of a batch, as the proposer and as the verifier compute them.
use native.Mathlib.Nat.{mod-eq_of_lt}
use taiko_preconfer.Prelude.{
  ℕ, suc, ◌+◌, ◌-◌, ◌%◌, ◌^◌, ◌≤◌, ◌<◌, ◌≡◌, refl, ap, sym, subst, inl, inr, arith, some, List, [],
  ◌∷◌, ◌++◌, ltb, ltb→lt, length, All, Bool-cases, List-cases, sub64, as_u8, as_u16,
}
use taiko_preconfer.Chain.{Block}
use taiko_preconfer.Batch.{
  BlockParams, get_tx_envelopes_without_anchor_from_block,
  get_tx_envelopes_without_anchor_from_blocks, read_from, read_blocks, block_params_from,
  block_params,
}

count_lem : (m n : ℕ) → m ≡ suc n → (as_u16 m + 2 ^ 16 - 1) % 2 ^ 16 ≡ as_u16 n
count_lem m n h = omega arith

module _ {Tx : Type 0} where
  -- The block has its anchor transaction.
  abbrev pub HasFirst : Block Tx → Type 0
  HasFirst b = 0 < length b.transactions

  -- The blocks' timestamps, one after another, are at most 255 seconds apart.
  abbrev pub Near : ℕ → List (Block Tx) → Type 0
  Near last [] = Unit
  Near last (b ∷ bs) = (sub64 b.header.timestamp last < 256) × Near b.header.timestamp bs

  abbrev pub last_timestamp : ℕ → List (Block Tx) → ℕ
  last_timestamp last [] = last
  last_timestamp last (b ∷ bs) = last_timestamp b.header.timestamp bs

  -- The list does not go on with a block that is near.
  abbrev pub Splits : ℕ → List (Block Tx) → Type 0
  Splits last [] = Unit
  Splits last (b ∷ bs) = 256 ≤ sub64 b.header.timestamp last

  abbrev Prefix : ℕ → List (Block Tx) → Type 0
  Prefix last blocks =
      (kept : List (Block Tx)) × (rest : List (Block Tx)) × (txs : List Tx) × (blocks
        ≡ kept ++ rest)
      × Near last kept
      × Splits (last_timestamp last kept) rest
      × (get_tx_envelopes_without_anchor_from_blocks kept ≡ some txs)
      × (read_from last blocks ≡ some (block_params_from last kept, txs, last_timestamp last kept))

  without_first_lem :
      (b : Block Tx)
      → HasFirst b
      → (txs : List Tx) × (get_tx_envelopes_without_anchor_from_block b ≡ some txs)
        × (length b.transactions ≡ suc (length txs))
  unfolding get_tx_envelopes_without_anchor_from_block
  without_first_lem b h = elim (List-cases b.transactions) [
    | inl e ↦ absurd (omega (arith, ap length e))
    | inr (tx, txs, e) ↦ (txs, rw e, ap length e)
  ]

  read_from_lem : (last : ℕ) (blocks : List (Block Tx)) → All HasFirst blocks → Prefix last blocks
  unfolding read_from block_params_from get_tx_envelopes_without_anchor_from_blocks
  read_from_lem last [] h = ([], [], [], refl, tt, tt, refl, refl)
  read_from_lem last (b ∷ bs) h =
      let t = b.header.timestamp in
      let (txs, own, count) = without_first_lem b h.0 in
      let (kept, rest, more, split, near, stop, all_txs, read) = read_from_lem t bs h.1 in
      elim (Bool-cases (ltb (sub64 t last) 256)) [
        | inl e ↦
            let shift : as_u8 (sub64 t last) ≡ sub64 t last = mod-eq_of_lt (ltb→lt _ _ e) in
            let number = count_lem (length b.transactions) (length txs) count in
            (
              b ∷ kept,
              rest,
              txs ++ more,
              ap (◌∷◌ b) split,
              (ltb→lt _ _ e, near),
              stop,
              rw own (rw all_txs refl),
              rw (e, read_from) (rw own (rw read (rw (shift, number) refl))),
            )
        | inr e ↦ ([], b ∷ bs, [], refl, tt, ground arith, refl, rw (e, read_from) refl)
      ]

  front_lem :
      (b : Block Tx) (bs kept rest : List (Block Tx))
      → b ∷ bs ≡ kept ++ rest
      → Splits (last_timestamp b.header.timestamp kept) rest
      → (0 < length kept) × (block_params kept ≡ some (block_params_from b.header.timestamp kept))
  unfolding block_params
  front_lem b bs [] rest split stop =
      let far = subst (Splits b.header.timestamp) (sym split) stop in absurd (omega (arith, far))
  front_lem b bs (k ∷ ks) rest split stop =
      let same : k ≡ b = ground arith in
      (
        omega arith,
        ap (λ (x : Block Tx). some (block_params_from x.header.timestamp (k ∷ ks))) same,
      )

  -- For blocks that have their anchor transactions, `read_blocks` reads the longest front part
  -- `kept` whose timestamps are at most 255 seconds apart. It has at least one block. The parameters
  -- and the transactions are those that the verifier computes from `kept`.
  pub read_blocks-agrees :
      (b : Block Tx) (bs : List (Block Tx))
      → All HasFirst (b ∷ bs)
      → (kept : List (Block Tx)) × (rest : List (Block Tx)) × (txs : List Tx) × (params : List
          BlockParams)
        × (b ∷ bs ≡ kept ++ rest)
        × (0 < length kept)
        × Near b.header.timestamp kept
        × Splits (last_timestamp b.header.timestamp kept) rest
        × (get_tx_envelopes_without_anchor_from_blocks kept ≡ some txs)
        × (block_params kept ≡ some params)
        × (read_blocks (b ∷ bs) ≡ some (params, txs, last_timestamp b.header.timestamp kept))
  unfolding read_blocks block_params
  read_blocks-agrees b bs h =
      let t = b.header.timestamp in
      let (kept, rest, txs, split, near, stop, all_txs, read) = read_from_lem t (b ∷ bs) h in
      let (pos, params) = front_lem b bs kept rest split stop in
      (kept, rest, txs, block_params_from t kept, split, pos, near, stop, all_txs, params, read)

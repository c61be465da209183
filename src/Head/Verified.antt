-- ===== src/Head/Verified.antt =====
-- preconfirmation/src/stream/l2_head_info_stream.rs with the verifier of
-- preconfirmation/src/verification.rs: the confirmation of a batch of this preconfer.
use taiko_preconfer.Prelude.{
  ℕ, suc, ◌<◌, ◌≡◌, refl, subst, sym, ap, ◌∙◌, inr, true, Option, none, some, List, [], ◌∷◌, ◌++◌,
  if◌then◌else◌, ltb, leb, ==_iff, ◌==◌, ◌↔◌, unwrap_or, length, take, take-append, retain, All,
}
use taiko_preconfer.Prelude.Outcome.{ok, ok_injective}
use taiko_preconfer.Chain.{Header, Block}
use taiko_preconfer.Anchor.{ValidAnchor}
use taiko_preconfer.Cache.Order.{find}
use taiko_preconfer.Batch.{
  Bytes, BlockParams, Batch, block_params, block_params_from,
  get_tx_envelopes_without_anchor_from_blocks, read_blocks,
}
use taiko_preconfer.Batch.Agreement.{HasFirst, read_blocks-agrees}
use taiko_preconfer.Blob.{tx_bytes_to_blobs}
use taiko_preconfer.Batch.Contract.{AreHashes, contract_hash, meta_hash_of-contract_hash}
use taiko_preconfer.Batch.Meta.{
  Codec, Stats2, LastBatchVerifier, latest, compute_batch_meta_hash, verify_last_batch,
  verify_blocks, verify,
}
use taiko_preconfer.Head.{State, confirmed, handle}
use taiko_preconfer.Head.Confirmed.{confirmed_in_sync}

front_unique :
    {A : Type 0} (xs ys xs' ys' : List A)
    → xs ++ ys ≡ xs' ++ ys'
    → length xs ≡ length xs'
    → xs ≡ xs'
front_unique xs ys xs' ys' same size =
    sym (take-append (length xs) xs ys refl)
    ∙ (ap (take (length xs)) same ∙ take-append (length xs) xs' ys' (sym size))

length-block_params_from :
    {Tx : Type 0} (t : ℕ) (bs : List (Block Tx)) → length (block_params_from t bs) ≡ length bs
unfolding block_params_from
length-block_params_from t [] = refl
length-block_params_from t (b ∷ bs) = ap suc (length-block_params_from b.header.timestamp bs)

length-block_params :
    {Tx : Type 0} (bs : List (Block Tx)) (params : List BlockParams)
    → block_params bs ≡ some params
    → length params ≡ length bs
unfolding block_params
length-block_params [] params h = cc
length-block_params (b ∷ bs) params h =
    let same : block_params_from b.header.timestamp (b ∷ bs) ≡ params = cc in
    subst (λ p. length p ≡ length (b ∷ bs)) same
      (length-block_params_from b.header.timestamp (b ∷ bs))

module _ {E Tx : Type 0} (c : Codec E Tx) (k : Block Tx) (ks rest : List (Block Tx))
    (params : List BlockParams) (txs : List Tx) (last : ℕ)
    (anchored : All HasFirst ((k ∷ ks) ++ rest))
    (read : read_blocks ((k ∷ ks) ++ rest) ≡ some (params, txs, last))
    (whole : length params ≡ length (k ∷ ks)) where
  front_agrees :
      (block_params (k ∷ ks) ≡ some params)
      × (get_tx_envelopes_without_anchor_from_blocks (k ∷ ks) ≡ some txs)
  front_agrees =
      let (kept, left, own_txs, own, split, pos, near, stop, all_txs, own_params, own_read) =
        read_blocks-agrees k (ks ++ rest) anchored in
      let same_params : own ≡ params = cc in
      let same_txs : own_txs ≡ txs = cc in
      let size : length own ≡ length kept = length-block_params kept own own_params in
      let front : kept ≡ k ∷ ks =
        front_unique kept left (k ∷ ks) rest (sym split)
          (sym size ∙ (ap length same_params ∙ whole)) in
      (
        subst (λ l. block_params l ≡ some params) front (own_params ∙ ap some same_params),
        subst (λ l. get_tx_envelopes_without_anchor_from_blocks l ≡ some txs) front
            (all_txs ∙ ap some same_txs),
      )

  module _ (v : LastBatchVerifier E) (stats2 : Stats2) (batch : Batch) (anchor submit : Header)
      (named : latest v.taiko_inbox ≡ ok (stats2, batch))
      (anchored_at : v.taiko_inbox.get_block_by_number batch.anchor_block_id ≡ ok (some anchor))
      (submitted_at : v.taiko_inbox.get_block_by_number stats2.last_proposed_in ≡ ok (some submit))
      (tx_bytes : Bytes) (hashes : List ℕ) (compressed : c.compress txs ≡ ok tx_bytes)
      (hashed : v.use_blobs ≡ true → AreHashes c (tx_bytes_to_blobs tx_bytes) hashes) where
    -- The hash that the contract has stored if the blocks are the ones of its last batch.
    abbrev pub own_hash : ℕ
    own_hash =
        contract_hash c k.header.beneficiary params tx_bytes hashes batch anchor.hash
          submit.timestamp stats2.last_proposed_in v.base_fee_config v.use_blobs

    hash_lem :
        compute_batch_meta_hash c k.header.beneficiary
          (k ∷ ks)
          batch
          anchor.hash
          submit.timestamp
          stats2.last_proposed_in
          v.base_fee_config
          v.use_blobs
        ≡ ok own_hash
    unfolding compute_batch_meta_hash
    hash_lem =
        let (own, all_txs) = front_agrees in
        rw own (
          rw all_txs (
            meta_hash_of-contract_hash c k.header.beneficiary params tx_bytes hashes batch
              anchor.hash submit.timestamp stats2.last_proposed_in v.base_fee_config txs v.use_blobs
              compressed hashed))

    verify_lem :
        (valid_anchor : ValidAnchor) (blocks : List (Block Tx))
        → retain (λ b. leb b.header.number batch.last_block_id) blocks ≡ k ∷ ks
        → (verify c v valid_anchor blocks).1 ≡ ok (own_hash == batch.meta_hash)
    unfolding verify verify_blocks
    verify_lem valid_anchor blocks up_to =
        rw (named, verify_last_batch)
          (rw (up_to, verify_blocks) (rw anchored_at (rw submitted_at (rw hash_lem refl))))

    -- Let the cache up to the last block of the contract's last batch be the blocks of which `read_blocks`
    -- makes the first proposal. The verifier accepts them exactly if the contract has stored the hash of
    -- that proposal: of its parameters, its data in the call or in blobs, and the L1 blocks in which it was
    -- anchored and proposed.
    pub verify_iff :
        (valid_anchor : ValidAnchor) (blocks : List (Block Tx))
        → retain (λ b. leb b.header.number batch.last_block_id) blocks ≡ k ∷ ks
        → ((verify c v valid_anchor blocks).1 ≡ ok true) ↔ (batch.meta_hash ≡ own_hash)
    verify_iff valid_anchor blocks up_to =
        let test = ==_iff own_hash batch.meta_hash in
        let answer = verify_lem valid_anchor blocks up_to in
        (
          λ accepted. sym (test.0 (ok_injective _ true (sym answer ∙ accepted))),
          λ stored. answer ∙ ap ok (test.1 (sym stored)),
        )

    -- Let the contract's last batch be the proposal that `read_blocks` made of the first blocks of a
    -- batch: the contract has stored the hash of that proposal's parameters, of its data in the call or in
    -- blobs, and of the L1 blocks in which it was anchored and proposed. Let the cache up to the last block
    -- of that batch be these blocks. A new confirmation is then accepted: the blocks up to the confirmed
    -- one are dropped, every later block is kept, and no header is passed on.
    pub own_batch_confirmed :
        batch.meta_hash ≡ own_hash
        → (get_block : Option ℕ → Option (Block Tx)) (valid_anchor : ValidAnchor) (s : State Tx)
          (id : ℕ)
        → unwrap_or s.last_confirmed_block_id 0 < id
        → retain (λ b. leb b.header.number batch.last_block_id) s.tx_cache ≡ k ∷ ks
        → (t : State Tx) × (handle get_block
              (λ blocks. (verify c v valid_anchor blocks).1)
              s
              (confirmed id)
            ≡ ok (t, []))
          × (t.last_confirmed_block_id ≡ some id)
          × ((n : ℕ) → find n t.tx_cache ≡ (if ltb id n then find n s.tx_cache else none))
    own_batch_confirmed stored get_block valid_anchor s id newer up_to =
        confirmed_in_sync get_block (λ blocks. (verify c v valid_anchor blocks).1) s id newer
          (inr ((verify_iff valid_anchor s.tx_cache up_to).1 stored))

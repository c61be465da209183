-- ===== src/Batch/Meta.antt =====
-- preconfirmation/src/verification.rs and preconfirmation/src/taiko/taiko_l1_client.rs: the proposal of
-- a batch, the hash of a batch's metadata, and the check of the last confirmed batch.
use taiko_preconfer.Prelude.{
  ℕ, Bool, true, false, Option, none, some, List, [], ◌∷◌, if◌then◌else◌, leb, ◌==◌, sub64, as_u8,
  as_u32, length, drop, retain,
}
use taiko_preconfer.Prelude.Outcome.{Outcome, ok, err, panic, or_panic, expect, ◌>>=◌}
use taiko_preconfer.Chain.{Header, Block}
use taiko_preconfer.Anchor
use taiko_preconfer.Anchor.{ValidAnchor}
use taiko_preconfer.Whitelist.{Address}
use taiko_preconfer.Blob.{tx_bytes_to_blobs}
use taiko_preconfer.Blob.Sidecar.{KzgSettings, BlobTransactionSidecar, tx_bytes_to_sidecar}
use taiko_preconfer.Batch.{
  Bytes, BaseFeeConfig, BlockParams, BlobParams, BatchParams, BatchInfo, BatchMetadata, Batch,
  ProposeBatchParams, pad_left, get_tx_envelopes_without_anchor_from_blocks, block_params,
}

unfoldable pub get_blob_params : Option BlobTransactionSidecar → ℕ → BlobParams
get_blob_params sidecar tx_bytes_len = record {
  blob_hashes = [];
  first_blob_index = 0;
  num_blobs = elim sidecar [ some s ↦ as_u8 (length s.blobs) | none ↦ 0 ];
  byte_offset = 0;
  byte_size = as_u32 tx_bytes_len;
  created_in = 0;
}

-- An error of c_kzg is a panic.
unfoldable pub get_tx_bytes_and_sidecar :
    {E F : Type 0}
    → KzgSettings E
    → Bytes
    → Bool
    → Outcome F (Bytes × Option BlobTransactionSidecar)
get_tx_bytes_and_sidecar kzg tx_bytes use_blobs =
    if use_blobs
    then (expect (tx_bytes_to_sidecar kzg tx_bytes) >>= λ sidecar. ok ([], some sidecar))
    else ok (tx_bytes, none)

-- The ABI encoders of alloy, as arguments.
module _ (encode_batch_params : BatchParams → Bytes)
    (encode_propose_batch_params : ProposeBatchParams → Bytes) where
  unfoldable pub create_propose_batch_params :
      Address → List BlockParams → BlobParams → ℕ → ℕ → ℕ → Address → Bytes
  create_propose_batch_params proposer blocks blob_params parent_meta_hash anchor_block_id
        last_block_timestamp coinbase =
      let batch_params : BatchParams = record {
        proposer = proposer;
        coinbase = coinbase;
        parent_meta_hash = parent_meta_hash;
        anchor_block_id = anchor_block_id;
        last_block_timestamp = last_block_timestamp;
        revert_if_not_first_proposal = false;
        blob_params = blob_params;
        blocks = blocks;
      } in
      encode_propose_batch_params
        (record { bytes_x = []; bytes_y = encode_batch_params batch_params })

-- The parts of alloy, libdeflater and c_kzg that are used: hash, encoders, compression, and the
-- versioned hash of a blob's commitment.
pub record Codec (E Tx : Type 0) : Type 0 where
  pub keccak256 : Bytes → ℕ
  pub encode_txs : ℕ → List ℕ → Bytes
  pub encode_info : BatchInfo → Bytes
  pub encode_metadata : BatchMetadata → Bytes
  pub compress : List Tx → Outcome E Bytes
  pub blob_hash : Bytes → Outcome E ℕ

-- The two statistics that are read, and what the node and the contract answer.
pub record Stats2 : Type 0 where
  pub num_batches : ℕ
  pub last_proposed_in : ℕ

pub record Inbox (E : Type 0) : Type 0 where
  pub get_stats2 : Outcome E Stats2
  pub get_batch : ℕ → Outcome E Batch
  pub get_block_by_number : ℕ → Outcome E (Option Header)

unfoldable pub latest : {E : Type 0} → Inbox E → Outcome E (Stats2 × Batch)
latest inbox = do
  stats2 ← inbox.get_stats2
  batch ← inbox.get_batch (sub64 stats2.num_batches 1)
  ok (stats2, batch)

unfoldable pub get_latest_confirmed_batch : {E : Type 0} → Inbox E → Outcome E Batch
get_latest_confirmed_batch inbox = do
  stats2 ← inbox.get_stats2
  inbox.get_batch (sub64 stats2.num_batches 1)

-- The verifier without its anchor, which is shared.
pub record LastBatchVerifier (E : Type 0) : Type 0 where
  pub taiko_inbox : Inbox E
  pub base_fee_config : BaseFeeConfig
  pub use_blobs : Bool

module _ {E Tx : Type 0} (c : Codec E Tx) where
  -- `collect` into a Result: the first error ends it.
  unfoldable pub get_blob_hashes : List Bytes → Outcome E (List ℕ)
  get_blob_hashes [] = ok []
  get_blob_hashes (blob ∷ blobs) = do
    hash ← c.blob_hash blob
    hashes ← get_blob_hashes blobs
    ok (hash ∷ hashes)

  -- The hash from the blocks' parameters and transactions on.
  unfoldable pub meta_hash_of :
      Address → List BlockParams → List Tx → Batch → ℕ → ℕ → ℕ → BaseFeeConfig → Bool → Outcome E ℕ
  meta_hash_of preconfer params txs batch anchor_hash proposed_at proposed_in config use_blobs = do
    tx_bytes ← c.compress txs
    blob_hashes ← if use_blobs then get_blob_hashes (tx_bytes_to_blobs tx_bytes) else ok []
    let tx_bytes_hash = c.keccak256 (if use_blobs then [] else tx_bytes)
    extra_data ← or_panic (pad_left 32 (config.sharing_pctg ∷ []))
    let info : BatchInfo = record {
      txs_hash = c.keccak256 (drop 32 (c.encode_txs tx_bytes_hash blob_hashes));
      blocks = params;
      blob_hashes = blob_hashes;
      extra_data = extra_data;
      coinbase = preconfer;
      proposed_in = proposed_in;
      blob_created_in = if use_blobs then proposed_in else 0;
      blob_byte_offset = 0;
      blob_byte_size = as_u32 (length tx_bytes);
      gas_limit = 240000000;
      last_block_id = batch.last_block_id;
      last_block_timestamp = batch.last_block_timestamp;
      anchor_block_id = batch.anchor_block_id;
      anchor_block_hash = anchor_hash;
      base_fee_config = config;
    }
    ok (
        c.keccak256 (
          c.encode_metadata (record {
            info_hash = c.keccak256 (c.encode_info info);
            proposer = preconfer;
            batch_id = batch.batch_id;
            proposed_at = proposed_at;
          })))

  unfoldable pub compute_batch_meta_hash :
      Address → List (Block Tx) → Batch → ℕ → ℕ → ℕ → BaseFeeConfig → Bool → Outcome E ℕ
  compute_batch_meta_hash preconfer blocks batch anchor_hash proposed_at proposed_in config
        use_blobs =
      do
        params ← or_panic (block_params blocks)
        txs ← or_panic (get_tx_envelopes_without_anchor_from_blocks blocks)
        meta_hash_of preconfer params txs batch anchor_hash proposed_at proposed_in config use_blobs

  -- The fee recipient and the blocks, where there are blocks.
  unfoldable pub verify_blocks :
      Inbox E → Stats2 → Batch → List (Block Tx) → BaseFeeConfig → Bool → Outcome E Bool
  verify_blocks inbox stats2 batch [] config use_blobs = ok true
  verify_blocks inbox stats2 batch (b ∷ bs) config use_blobs = do
    anchor_block ← inbox.get_block_by_number batch.anchor_block_id
    anchor_header ← or_panic anchor_block
    submit_block ← inbox.get_block_by_number stats2.last_proposed_in
    submit_header ← or_panic submit_block
    computed ←
        compute_batch_meta_hash b.header.beneficiary (b ∷ bs) batch anchor_header.hash
          submit_header.timestamp stats2.last_proposed_in config use_blobs
    ok (computed == batch.meta_hash)

  -- The shared anchor after the call, and the call's result.
  unfoldable pub verify_last_batch :
      Inbox E → ValidAnchor → List (Block Tx) → BaseFeeConfig → Bool → ValidAnchor × Outcome E Bool
  unfolding verify_blocks
  verify_last_batch inbox valid_anchor unconfirmed_l2_blocks config use_blobs =
      elim (latest inbox) [
        | ok (stats2, batch) ↦ (
          Anchor.update_last_anchor_id valid_anchor batch.anchor_block_id,
          verify_blocks inbox stats2 batch
              (retain (λ b. leb b.header.number batch.last_block_id) unconfirmed_l2_blocks) config
              use_blobs,
        )
        | err e ↦ (valid_anchor, err e)
        | panic ↦ (valid_anchor, panic)
      ]

  -- `LastBatchVerifier::verify`: the verifier keeps a handle of the shared anchor.
  unfoldable pub verify :
      LastBatchVerifier E → ValidAnchor → List (Block Tx) → ValidAnchor × Outcome E Bool
  unfolding verify_last_batch
  verify v valid_anchor unconfirmed_l2_blocks =
      verify_last_batch v.taiko_inbox valid_anchor unconfirmed_l2_blocks v.base_fee_config
        v.use_blobs

-- ===== src/Batch/Contract.antt =====
-- preconfirmation/src/verification.rs: the hash that the inbox contract stores for a batch, field by
-- field, and the hash that the verifier computes.
use taiko_preconfer.Prelude.{
  ℕ, ◌≡◌, refl, Bool, true, false, List, [], ◌∷◌, ◌++◌, if◌then◌else◌, length, drop, replicate,
  as_u32,
}
use taiko_preconfer.Prelude.Outcome.{ok}
use taiko_preconfer.Whitelist.{Address}
use taiko_preconfer.Blob.{tx_bytes_to_blobs}
use taiko_preconfer.Batch.{Bytes, BaseFeeConfig, BlockParams, Batch, pad_left}
use taiko_preconfer.Batch.Meta.{Codec, get_blob_hashes, meta_hash_of}

module _ {E Tx : Type 0} (c : Codec E Tx) where
  -- The versioned hashes of blobs, in their order.
  abbrev pub AreHashes : List Bytes → List ℕ → Type 0
  AreHashes [] [] = Unit
  AreHashes (blob ∷ blobs) (hash ∷ hashes) = (c.blob_hash blob ≡ ok hash) × AreHashes blobs hashes
  AreHashes [] (hash ∷ hashes) = ⊥
  AreHashes (blob ∷ blobs) [] = ⊥

  get_blob_hashes-AreHashes :
      (blobs : List Bytes) (hashes : List ℕ)
      → AreHashes blobs hashes
      → get_blob_hashes c blobs ≡ ok hashes
  unfolding get_blob_hashes
  get_blob_hashes-AreHashes [] [] h = refl
  get_blob_hashes-AreHashes [] (hash ∷ hashes) h = absurd h
  get_blob_hashes-AreHashes (blob ∷ blobs) [] h = absurd h
  get_blob_hashes-AreHashes (blob ∷ blobs) (hash ∷ hashes) (first, rest) =
      rw (first, get_blob_hashes-AreHashes blobs hashes rest) refl

  module _ (preconfer : Address) (params : List BlockParams) (tx_bytes : Bytes) (hashes : List ℕ)
      (batch : Batch) (anchor_hash proposed_at proposed_in : ℕ) (config : BaseFeeConfig) where
    -- What the contract stores for a batch that is proposed by its coinbase in the block `proposed_in`
    -- at the time `proposed_at`. Its data is in blobs, with these hashes, or in the call. The block gas
    -- limit is the protocol's, and the share of the base fee is a word of 32 bytes.
    abbrev pub contract_hash : Bool → ℕ
    contract_hash use_blobs = c.keccak256 (
        c.encode_metadata (record {
          info_hash = c.keccak256 (
              c.encode_info (record {
                txs_hash = c.keccak256 (
                    drop 32 (
                      c.encode_txs (c.keccak256 (if use_blobs then [] else tx_bytes))
                        (if use_blobs then hashes else [])));
                blocks = params;
                blob_hashes = if use_blobs then hashes else [];
                extra_data = replicate 31 0 ++ config.sharing_pctg ∷ [];
                coinbase = preconfer;
                proposed_in = proposed_in;
                blob_created_in = if use_blobs then proposed_in else 0;
                blob_byte_offset = 0;
                blob_byte_size = as_u32 (length tx_bytes);
                gas_limit = 240000000;
                last_block_id = batch.last_block_id;
                last_block_timestamp = batch.last_block_timestamp;
                anchor_block_id = batch.anchor_block_id;
                anchor_block_hash = anchor_hash;
                base_fee_config = config;
              }));
          proposer = preconfer;
          batch_id = batch.batch_id;
          proposed_at = proposed_at;
        }))

    pub meta_hash_of-contract_hash :
        (txs : List Tx) (use_blobs : Bool)
        → c.compress txs ≡ ok tx_bytes
        → (use_blobs ≡ true → AreHashes (tx_bytes_to_blobs tx_bytes) hashes)
        → meta_hash_of c preconfer params txs batch anchor_hash proposed_at proposed_in config
            use_blobs
          ≡ ok (contract_hash use_blobs)
    unfolding meta_hash_of pad_left
    meta_hash_of-contract_hash txs true compressed hashed =
        rw (compressed, get_blob_hashes-AreHashes (tx_bytes_to_blobs tx_bytes) hashes (hashed refl))
          refl
    meta_hash_of-contract_hash txs false compressed hashed = rw compressed refl

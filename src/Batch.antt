-- ===== src/Batch.antt =====
-- preconfirmation/src/taiko/taiko_l1_client.rs and preconfirmation/src/verification.rs: the batch
-- that the proposer builds from blocks, and the batch that the verifier rebuilds from blocks. The
-- structs are those of preconfirmation/src/taiko/contracts.rs.
pub mod Agreement
pub mod Calls
pub mod Contract
pub mod Meta
pub mod Padding
pub mod Propose
pub mod Published
pub mod Readable
pub mod Requests
use taiko_preconfer.Prelude.{
  ℕ, ◌<◌, ◌-◌, ◌+◌, ◌%◌, ◌^◌, Bool, true, false, Option, none, some, List, [], ◌∷◌, ◌++◌,
  if◌then◌else◌, ltb, leb, ◌==◌, sub64, as_u8, as_u16, as_u32, length, drop, replicate, retain,
  unwrap_or, ◌>>=◌,
}
use taiko_preconfer.Chain.{Header, Block}
use taiko_preconfer.Whitelist.{Address}

-- Hashes and addresses are their bits, read as numbers; bytes are numbers below 256.
abbrev pub Bytes : Type 0
Bytes = List ℕ

pub record BaseFeeConfig : Type 0 where
  pub adjustment_quotient : ℕ
  pub sharing_pctg : ℕ
  pub gas_issuance_per_second : ℕ
  pub min_gas_excess : ℕ
  pub max_gas_issuance_per_block : ℕ

pub record BlockParams : Type 0 where
  pub num_transactions : ℕ
  pub time_shift : ℕ
  pub signal_slots : List ℕ

pub record BlobParams : Type 0 where
  pub blob_hashes : List ℕ
  pub first_blob_index : ℕ
  pub num_blobs : ℕ
  pub byte_offset : ℕ
  pub byte_size : ℕ
  pub created_in : ℕ

pub record BatchParams : Type 0 where
  pub proposer : Address
  pub coinbase : Address
  pub parent_meta_hash : ℕ
  pub anchor_block_id : ℕ
  pub last_block_timestamp : ℕ
  pub revert_if_not_first_proposal : Bool
  pub blob_params : BlobParams
  pub blocks : List BlockParams

pub record BatchInfo : Type 0 where
  pub txs_hash : ℕ
  pub blocks : List BlockParams
  pub blob_hashes : List ℕ
  pub extra_data : Bytes
  pub coinbase : Address
  pub proposed_in : ℕ
  pub blob_created_in : ℕ
  pub blob_byte_offset : ℕ
  pub blob_byte_size : ℕ
  pub gas_limit : ℕ
  pub last_block_id : ℕ
  pub last_block_timestamp : ℕ
  pub anchor_block_id : ℕ
  pub anchor_block_hash : ℕ
  pub base_fee_config : BaseFeeConfig

pub record BatchMetadata : Type 0 where
  pub info_hash : ℕ
  pub proposer : Address
  pub batch_id : ℕ
  pub proposed_at : ℕ

-- The fields of the contract's Batch that the program reads.
pub record Batch : Type 0 where
  pub meta_hash : ℕ
  pub last_block_id : ℕ
  pub batch_id : ℕ
  pub last_block_timestamp : ℕ
  pub anchor_block_id : ℕ

pub record ProposeBatchParams : Type 0 where
  pub bytes_x : Bytes
  pub bytes_y : Bytes

-- `pad_left::<N>`: none is the panic on more than N bytes.
unfoldable pub pad_left : ℕ → Bytes → Option Bytes
pad_left n bytes =
    if leb (length bytes) n then some (replicate (n - length bytes) 0 ++ bytes) else none

module _ {Tx : Type 0} where
  -- `txs.remove(0)`, which panics on a block without transactions.
  abbrev pub without_first : List Tx → Option (List Tx)
  without_first [] = none
  without_first (tx ∷ txs) = some txs

  unfoldable pub get_tx_envelopes_without_anchor_from_block : Block Tx → Option (List Tx)
  get_tx_envelopes_without_anchor_from_block block = without_first block.transactions

  unfoldable pub get_tx_envelopes_without_anchor_from_blocks : List (Block Tx) → Option (List Tx)
  get_tx_envelopes_without_anchor_from_blocks [] = some []
  get_tx_envelopes_without_anchor_from_blocks (b ∷ bs) = do
    txs ← get_tx_envelopes_without_anchor_from_block b
    rest ← get_tx_envelopes_without_anchor_from_blocks bs
    some (txs ++ rest)

  -- The loop of `read_blocks`: the parameters and the transactions pushed from here on, and the
  -- last timestamp.
  unfoldable pub read_from : ℕ → List (Block Tx) → Option (List BlockParams × List Tx × ℕ)
  read_from last_timestamp [] = some ([], [], last_timestamp)
  read_from last_timestamp (b ∷ bs) =
      let time_shift = sub64 b.header.timestamp last_timestamp in
      elim (ltb time_shift 256) [
        | true ↦ get_tx_envelopes_without_anchor_from_block b >>= λ block_txs.
            read_from b.header.timestamp bs >>= λ (params, txs, last). some (
              record {
                num_transactions = as_u16 (length block_txs);
                time_shift = time_shift;
                signal_slots = [];
              }
                  ∷ params,
              block_txs ++ txs,
              last,
            )
        | false ↦ some ([], [], last_timestamp)
      ]

  unfoldable pub read_blocks : List (Block Tx) → Option (List BlockParams × List Tx × ℕ)
  unfolding read_from
  read_blocks [] = none
  read_blocks (b ∷ bs) = read_from b.header.timestamp (b ∷ bs)

  -- The verifier's `block_params`.
  unfoldable pub block_params_from : ℕ → List (Block Tx) → List BlockParams
  block_params_from last_timestamp [] = []
  block_params_from last_timestamp (b ∷ bs) =
      record {
        num_transactions = (as_u16 (length b.transactions) + 2 ^ 16 - 1) % 2 ^ 16;
        time_shift = as_u8 (sub64 b.header.timestamp last_timestamp);
        signal_slots = [];
      }
      ∷ block_params_from b.header.timestamp bs

  unfoldable pub block_params : List (Block Tx) → Option (List BlockParams)
  unfolding block_params_from
  block_params [] = none
  block_params (b ∷ bs) = some (block_params_from b.header.timestamp (b ∷ bs))

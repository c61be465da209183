-- ===== src/Batch/Propose.antt =====
-- preconfirmation/src/taiko/taiko_l1_client.rs, `send`: the transaction that proposes a batch. It is
-- built and sent in a thread of its own, of which no error reaches the caller.
use taiko_preconfer.Prelude.{ℕ, ◌+◌, ◌%◌, ◌^◌, Bool, true, false, Option, none, some, List, length}
use taiko_preconfer.Prelude.Outcome.{Outcome, ok, or_panic, log_error, expect, map_or, ◌>>=◌}
use taiko_preconfer.Chain.{Block}
use taiko_preconfer.Whitelist.{Address}
use taiko_preconfer.Batch.{Bytes, BlockParams, BatchParams, ProposeBatchParams, read_blocks}
use taiko_preconfer.Blob.Sidecar.{KzgSettings, BlobTransactionSidecar}
use taiko_preconfer.Batch.Meta.{
  Inbox, get_blob_params, get_tx_bytes_and_sidecar, create_propose_batch_params,
  get_latest_confirmed_batch,
}

-- `+` on u128.
abbrev pub add128 : ℕ → ℕ → ℕ
add128 a b = (a + b) % 2 ^ 128

-- The fields of alloy's TransactionRequest that are set; the call is `proposeBatch` with its two
-- arguments.
pub record TransactionRequest : Type 0 where
  pub from : Address
  pub to : Address
  pub params : Bytes
  pub tx_list : Bytes
  pub sidecar : Option BlobTransactionSidecar
  pub max_fee_per_blob_gas : Option ℕ
  pub gas_limit : Option ℕ
  pub max_fee_per_gas : Option ℕ
  pub max_priority_fee_per_gas : Option ℕ
  pub nonce : Option ℕ

pub record Eip1559Estimation : Type 0 where
  pub max_fee_per_gas : ℕ
  pub max_priority_fee_per_gas : ℕ

-- The client's fields, and what it asks of the node and of libraries. The two premiums are computed
-- in floating point: `fee_premium` is `(rel_fee_premium * fee as f32).round() as u128`, and `blob_fee`
-- is `(fee as f32 * (1.0 + rel_blob_fee_premium)) as u128`.
pub record L1Client (E Tx : Type 0) : Type 0 where
  pub preconfer_address : Address
  pub router_address : Address
  pub use_blobs : Bool
  pub fee_premium : ℕ → ℕ
  pub blob_fee : ℕ → ℕ
  pub inbox : Inbox E
  pub kzg : KzgSettings E
  pub compress : List Tx → Outcome E Bytes
  pub encode_batch_params : BatchParams → Bytes
  pub encode_propose_batch_params : ProposeBatchParams → Bytes
  pub get_blob_base_fee : Outcome E ℕ
  pub get_transaction_count : Address → Outcome E ℕ
  pub estimate_gas : TransactionRequest → Outcome E ℕ
  pub estimate_eip1559_fees : Outcome E Eip1559Estimation
  -- The transaction is handed to the node; the inner part is the wait for its receipt.
  pub send_transaction : TransactionRequest → Outcome E (Outcome E (Unit {0}))

module _ {E Tx : Type 0} (c : L1Client E Tx) where
  -- The request before the estimates: the call, and the blobs with their fee.
  unfoldable pub with_blobs :
      TransactionRequest → Option BlobTransactionSidecar → Outcome E TransactionRequest
  with_blobs tx none = ok tx
  with_blobs tx (some sidecar) = do
    blob_base_fee ← log_error c.get_blob_base_fee
    ok (elim blob_base_fee [
      | none ↦ record tx { sidecar = some sidecar }
      | some fee ↦ record tx {
        sidecar = some sidecar;
        max_fee_per_blob_gas = some (c.blob_fee fee);
      }
    ])

  unfoldable pub call_params :
      List BlockParams → Option BlobTransactionSidecar → ℕ → ℕ → ℕ → ℕ → Bytes
  call_params block_params sidecar tx_bytes_len parent_meta_hash anchor_id last_timestamp =
      create_propose_batch_params c.encode_batch_params c.encode_propose_batch_params
        c.preconfer_address block_params (get_blob_params sidecar tx_bytes_len) parent_meta_hash
        anchor_id last_timestamp c.preconfer_address

  unfoldable pub request : ℕ → List BlockParams × List Tx × ℕ → Outcome E TransactionRequest
  unfolding with_blobs call_params
  request anchor_id (block_params, txs, last_timestamp) = do
    tx_bytes ← expect (c.compress txs)
    (tx_list, sidecar) ← get_tx_bytes_and_sidecar c.kzg tx_bytes c.use_blobs
    parent_meta_hash ← map_or 0 (λ batch. batch.meta_hash) (get_latest_confirmed_batch c.inbox)
    with_blobs
        (record {
          from = c.preconfer_address;
          to = c.router_address;
          params =
              call_params block_params sidecar (length tx_bytes) parent_meta_hash anchor_id
                last_timestamp;
          tx_list = tx_list;
          sidecar = none;
          max_fee_per_blob_gas = none;
          gas_limit = none;
          max_fee_per_gas = none;
          max_priority_fee_per_gas = none;
          nonce = none;
        })
        sidecar

  -- The fees and the nonce are set if both estimates are there; only then is the nonce needed.
  unfoldable pub priced :
      TransactionRequest
      → Option ℕ
      → Option Eip1559Estimation
      → Outcome E (Option TransactionRequest)
  priced tx none fee_estimate = ok none
  priced tx (some gas_limit) none = ok none
  priced tx (some gas_limit) (some fee_estimate) = do
    nonce ← expect (c.get_transaction_count c.preconfer_address)
    let premium = c.fee_premium fee_estimate.max_priority_fee_per_gas
    ok (
        some (record tx {
          gas_limit = some gas_limit;
          max_fee_per_gas = some (add128 fee_estimate.max_fee_per_gas premium);
          max_priority_fee_per_gas = some (add128 fee_estimate.max_priority_fee_per_gas premium);
          nonce = some nonce;
        }))

  -- The transaction that is handed to the node, if there is one.
  unfoldable pub propose : List (Block Tx) → ℕ → Outcome E (Option TransactionRequest)
  unfolding request priced
  propose blocks anchor_id = do
    batch ← or_panic (read_blocks blocks)
    tx ← request anchor_id batch
    gas_limit ← log_error (c.estimate_gas tx)
    fee_estimate ← log_error c.estimate_eip1559_fees
    priced tx gas_limit fee_estimate

  -- Whether a receipt came.
  unfoldable pub await_receipt : Option (Outcome E (Unit {0})) → Outcome E Bool
  await_receipt none = ok false
  await_receipt (some get_receipt) = do
    receipt ← log_error get_receipt
    ok (elim receipt [ none ↦ false | some done ↦ true ])

  unfoldable pub submit : Option TransactionRequest → Outcome E Bool
  unfolding await_receipt
  submit none = ok false
  submit (some tx) = log_error (c.send_transaction tx) >>= await_receipt

  -- The thread.
  unfoldable pub confirm : List (Block Tx) → ℕ → Outcome E Bool
  unfolding propose submit
  confirm blocks anchor_id = propose blocks anchor_id >>= submit

-- `send`: `tx_handle` says whether the thread of the call before has finished, if there was one. A new
-- thread is started only then; `spawn` is the system's answer to that.
unfoldable pub should_spawn : Option Bool → Bool
should_spawn none = true
should_spawn (some is_finished) = is_finished

unfoldable pub send_batch :
    {E Tx : Type 0}
    → L1Client E Tx
    → Option Bool
    → Outcome E (Unit {0})
    → List (Block Tx)
    → ℕ
    → Outcome E (Option (Outcome E Bool))
unfolding should_spawn confirm
send_batch c tx_handle spawn blocks anchor_id = elim (should_spawn tx_handle) [
  | false ↦ ok none
  | true ↦ spawn >>= λ _. ok (some (confirm c blocks anchor_id))
]

-- ===== src/Examples/Requests.antt =====
-- The theorems at concrete inputs: the transaction that proposes a batch.
use taiko_preconfer.Prelude.{ℕ, ◌+◌, ◌≡◌, refl, false, none, some, List, [], ◌∷◌, length}
use taiko_preconfer.Prelude.Outcome.{ok, err, log_error}
use taiko_preconfer.Chain.{Block}
use taiko_preconfer.Batch.{BlockParams, read_blocks, get_tx_envelopes_without_anchor_from_block}
use taiko_preconfer.Batch.Meta.{
  Inbox, get_blob_params, get_tx_bytes_and_sidecar, create_propose_batch_params,
  get_latest_confirmed_batch,
}
use taiko_preconfer.Batch.Propose.{
  TransactionRequest, L1Client, call_params, request, with_blobs, priced, propose,
}
use taiko_preconfer.Batch.Requests.{IsProposed, propose-IsProposed}

abbrev pub block : ℕ → Block ℕ
block n = record {
  header = record {
    number = n;
    timestamp = 100 + n;
    beneficiary = 77;
    gas_used = 0;
    state_root = 0;
    hash = 9000 + n;
  };
  transactions = 40 ∷ n ∷ [];
}

abbrev pub inbox : Inbox ℕ
inbox = record {
  get_stats2 = ok (record { num_batches = 5; last_proposed_in = 60 });
  get_batch = λ id. ok (record {
    meta_hash = 11;
    last_block_id = 2;
    batch_id = id;
    last_block_timestamp = 102;
    anchor_block_id = 40;
  });
  get_block_by_number = λ number. ok none;
}

abbrev pub client : L1Client ℕ ℕ
client = record {
  preconfer_address = 77;
  router_address = 78;
  use_blobs = false;
  fee_premium = λ fee. fee;
  blob_fee = λ fee. fee;
  inbox = inbox;
  kzg = record {
    blob_to_kzg_commitment = λ blob. ok (5 ∷ []);
    compute_blob_kzg_proof = λ blob commitment. ok (6 ∷ commitment);
  };
  compress = λ txs. ok txs;
  encode_batch_params = λ params. params.anchor_block_id ∷ params.last_block_timestamp ∷ [];
  encode_propose_batch_params = λ params. params.bytes_y;
  get_blob_base_fee = err 1;
  get_transaction_count = λ account. ok 4;
  estimate_gas = λ tx. ok (21000 + length tx.tx_list);
  estimate_eip1559_fees = ok (record { max_fee_per_gas = 30; max_priority_fee_per_gas = 2 });
  send_transaction = λ tx. ok (ok tt);
}

abbrev pub proposed : TransactionRequest
proposed = record {
  from = 77;
  to = 78;
  params = 40 ∷ 107 ∷ [];
  tx_list = 6 ∷ 7 ∷ [];
  sidecar = none;
  max_fee_per_blob_gas = none;
  gas_limit = some 21002;
  max_fee_per_gas = some 32;
  max_priority_fee_per_gas = some 4;
  nonce = some 4;
}

proposes : propose client (block 6 ∷ block 7 ∷ []) 40 ≡ ok (some proposed)
unfolding propose request with_blobs priced call_params get_blob_params get_tx_bytes_and_sidecar
    create_propose_batch_params get_latest_confirmed_batch read_blocks
    get_tx_envelopes_without_anchor_from_block log_error
proposes = refl

propose-IsProposed_example :
    (params : List BlockParams) × (txs : List ℕ) × (last : ℕ) × (read_blocks
        (block 6 ∷ block 7 ∷ [])
      ≡ some (params, txs, last))
    × IsProposed client 40 params txs last (some proposed)
propose-IsProposed_example =
    propose-IsProposed client (block 6 ∷ block 7 ∷ []) 40 (some proposed) proposes

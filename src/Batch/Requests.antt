-- ===== src/Batch/Requests.antt =====
-- preconfirmation/src/taiko/taiko_l1_client.rs, `send`: what the thread hands to the node.
use taiko_preconfer.Prelude.{ℕ, ◌≡◌, ◌⊎◌, inl, inr, refl, subst, arith, Option, none, some, List}
use taiko_preconfer.Prelude.Outcome.{ok, err, or_panic, log_error, expect, >>=-eq-ok, ok_injective}
use taiko_preconfer.Chain.{Block}
use taiko_preconfer.Batch.{BlockParams, read_blocks}
use taiko_preconfer.Batch.Calls.{
  expect-eq-ok, Logged, log_error-Logged, or_panic-eq-ok, IsCall, IsBare, request-IsCall,
}
use taiko_preconfer.Batch.Propose.{
  TransactionRequest, Eip1559Estimation, L1Client, add128, request, priced, propose,
}

module _ {E Tx : Type 0} (c : L1Client E Tx) where
  -- The same request without gas, fees and nonce.
  abbrev pub bare : TransactionRequest → TransactionRequest
  bare tx = record tx {
    gas_limit = none;
    max_fee_per_gas = none;
    max_priority_fee_per_gas = none;
    nonce = none;
  }

  bare_lem : (tx : TransactionRequest) → IsBare c tx → tx ≡ bare tx
  bare_lem tx (gas, fee, priority, nonce) = λ i. record tx {
    gas_limit = gas i;
    max_fee_per_gas = fee i;
    max_priority_fee_per_gas = priority i;
    nonce = nonce i;
  }

  -- The request with both estimates: the gas of the request without these, fees and the nonce of the
  -- account.
  pub record IsPriced (tx : TransactionRequest) : Type 0 where
    pub estimate : Eip1559Estimation
    pub gas : ℕ
    pub account_nonce : ℕ
    pub gas_estimated : c.estimate_gas (bare tx) ≡ ok gas
    pub fee_estimated : c.estimate_eip1559_fees ≡ ok estimate
    pub counted : c.get_transaction_count c.preconfer_address ≡ ok account_nonce
    pub gas_lem : tx.gas_limit ≡ some gas
    pub nonce_lem : tx.nonce ≡ some account_nonce
    pub fee_lem :
        tx.max_fee_per_gas
        ≡ some (add128 estimate.max_fee_per_gas (c.fee_premium estimate.max_priority_fee_per_gas))
    pub priority_lem :
        tx.max_priority_fee_per_gas
        ≡ some (
            add128 estimate.max_priority_fee_per_gas
              (c.fee_premium estimate.max_priority_fee_per_gas))

  -- What became of the request `tx`: an estimate failed, or it was handed over with its price.
  abbrev pub IsProposed : ℕ → List BlockParams → List Tx → ℕ → Option TransactionRequest → Type 0
  IsProposed anchor_id params txs last none =
      (tx : TransactionRequest) × IsCall c anchor_id params txs last tx
      × IsBare c tx
      × (((e : E) × (c.estimate_gas tx ≡ err e)) ⊎ ((e : E) × (c.estimate_eip1559_fees ≡ err e)))
  IsProposed anchor_id params txs last (some tx) =
      IsCall c anchor_id params txs last tx × IsPriced tx

  priced-IsProposed :
      (anchor_id : ℕ) (params : List BlockParams) (txs : List Tx) (last : ℕ)
      (tx : TransactionRequest) (gas : Option ℕ) (fees : Option Eip1559Estimation)
      (result : Option TransactionRequest)
      → IsCall c anchor_id params txs last tx × IsBare c tx
      → Logged (c.estimate_gas tx) gas
      → Logged c.estimate_eip1559_fees fees
      → priced c tx gas fees ≡ ok result
      → IsProposed anchor_id params txs last result
  unfolding priced
  priced-IsProposed anchor_id params txs last tx none fees result v g f h =
      let same : none ≡ result = ground arith in
      subst (IsProposed anchor_id params txs last) same (tx, v.0, v.1, inl g)
  priced-IsProposed anchor_id params txs last tx (some gas) none result v g f h =
      let same : none ≡ result = ground arith in
      subst (IsProposed anchor_id params txs last) same (tx, v.0, v.1, inr f)
  priced-IsProposed anchor_id params txs last tx (some gas) (some fees) result v g f h =
      let (nonce, counted, h1) =
        >>=-eq-ok (expect (c.get_transaction_count c.preconfer_address)) _ h in
      subst (IsProposed anchor_id params txs last) (ok_injective _ result h1) (
        record {
          tx_bytes = v.0.tx_bytes;
          parent_meta_hash = v.0.parent_meta_hash;
          compressed = v.0.compressed;
          parent = v.0.parent;
          sender = v.0.sender;
          router = v.0.router;
          carried = v.0.carried;
          blob_fee = v.0.blob_fee;
          call = v.0.call;
        },
        record {
          estimate = fees;
          gas = gas;
          account_nonce = nonce;
          gas_estimated = subst (λ t. c.estimate_gas t ≡ ok gas) (bare_lem tx v.1) g;
          fee_estimated = f;
          counted = expect-eq-ok (c.get_transaction_count c.preconfer_address) nonce counted;
          gas_lem = refl;
          nonce_lem = refl;
          fee_lem = refl;
          priority_lem = refl;
        },
      )

  -- If the thread of `send` neither panics nor stops at an error, it has built the call of
  -- `proposeBatch` from the parameters and transactions that `read_blocks` reads, with the hash of the
  -- inbox's last batch as its parent, or zero if the inbox answered with an error. The compressed
  -- transactions are in the call, or in blobs with their commitments and proofs and a fee, if the node
  -- tells the base fee. The thread hands nothing to the node if an estimate of gas or fees failed; else
  -- it hands over that call, with the gas that was estimated for it, the account's nonce, and both fees
  -- raised by the same premium.
  pub propose-IsProposed :
      (blocks : List (Block Tx)) (anchor_id : ℕ) (result : Option TransactionRequest)
      → propose c blocks anchor_id ≡ ok result
      → (params : List BlockParams) × (txs : List Tx) × (last : ℕ) × (read_blocks blocks
          ≡ some (params, txs, last))
        × IsProposed anchor_id params txs last result
  unfolding propose
  propose-IsProposed blocks anchor_id result h =
      let ((params, txs, last), read, h1) = >>=-eq-ok (or_panic (read_blocks blocks)) _ h in
      let (tx, built, h2) = >>=-eq-ok (request c anchor_id (params, txs, last)) _ h1 in
      let (gas, gas_logged, h3) = >>=-eq-ok (log_error (c.estimate_gas tx)) _ h2 in
      let (fees, fees_logged, h4) = >>=-eq-ok (log_error c.estimate_eip1559_fees) _ h3 in
      (
        params,
        txs,
        last,
        or_panic-eq-ok (read_blocks blocks) (params, txs, last) read,
        priced-IsProposed anchor_id params txs last tx gas fees result
            (request-IsCall c anchor_id params txs last tx built)
            (log_error-Logged (c.estimate_gas tx) gas gas_logged)
            (log_error-Logged c.estimate_eip1559_fees fees fees_logged) h4,
      )

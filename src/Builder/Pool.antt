-- ===== src/Builder/Pool.antt =====
-- preconfirmation/src/taiko/taiko_l2_client.rs: the block that is built over the nodes' plain answers.
use Prim.Native.String
use Prim.Native.String.{String}
use taiko_preconfer.Prelude.{
  ℕ, ◌^◌, ◌≤◌, ◌<◌, ◌≡◌, Bool, true, false, is_empty, ◌⊎◌, Option, some, List, [], ◌∷◌, add64,
  as_u32, as_u64, unwrap_or,
}
use taiko_preconfer.Prelude.Outcome.{ok, err}
use taiko_preconfer.Chain.{Header}
use taiko_preconfer.Whitelist.{Address}
use taiko_preconfer.Batch.{Bytes}
use taiko_preconfer.Builder.{TypedTransaction, BuildPreconfBlockRequest}
use taiko_preconfer.Builder.Sign.{Signature, sign_with_fixed_k}
use taiko_preconfer.Builder.Client.{
  MempoolTxList, Response, L2Nodes, flatten_mempool_txs, mempool_params, l2_client,
}
use taiko_preconfer.Builder.Publish.{IsRequest}

module _ {E Tx S : Type 0} (n : L2Nodes E Tx S) where
  -- The request went out with a token of the secret, for an hour, and came back with success.
  pub record IsPosted (now : ℕ) (request : BuildPreconfBlockRequest) (header : Header)
      : Type 0 where
    pub secret : Bytes
    pub token : String
    pub response : Response E
    pub decoded : n.hex_decode n.jwt_secret ≡ ok secret
    pub encoded : n.encode_jwt (record { iat = now; exp = some (add64 now 3600) }) secret ≡ ok token
    pub sent : n.send (String.◌++◌ "Bearer " token) request ≡ ok response
    pub success : (200 ≤ response.status) × (response.status < 300)
    pub answered : response.json ≡ ok header

  module _ (now : ℕ) (golden_touch : Address) (anchor_id root : ℕ) (last : Header) (time : ℕ)
      (end_of_sequencing : Bool) where
    -- The call of the anchor contract, in a transaction with this fee and this nonce.
    abbrev pub anchor_transaction : ℕ → ℕ → TypedTransaction
    anchor_transaction base_fee nonce = record {
      chain_id = n.chain_id;
      nonce = nonce;
      gas_limit = 1000000;
      max_fee_per_gas = base_fee;
      max_priority_fee_per_gas = 0;
      to = n.taiko_anchor;
      value = 0;
      input = n.abi_encode (record {
        anchor_block_id = anchor_id;
        anchor_state_root = root;
        parent_gas_used = as_u32 last.gas_used;
        base_fee_config = n.base_fee_config;
        signal_slots = [];
      });
    }

    -- The anchor transaction has the account's next nonce and is signed with k = 1, or with k = 2 where
    -- that fails.
    pub record IsAnchor (base_fee : ℕ) (anchor_tx : Tx) : Type 0 where
      pub nonce : ℕ
      pub sig : Signature
      pub counted : n.get_transaction_count golden_touch ≡ ok nonce
      pub signed :
          (sign_with_fixed_k n.ecdsa (anchor_transaction base_fee nonce) 1 ≡ ok sig)
          ⊎ (((e : E) × (sign_with_fixed_k n.ecdsa (anchor_transaction base_fee nonce) 1 ≡ err e))
              × (sign_with_fixed_k n.ecdsa (anchor_transaction base_fee nonce) 2 ≡ ok sig))
      pub sealed : anchor_tx ≡ n.envelope (anchor_transaction base_fee nonce) sig

    -- A block that is built over the nodes' answers: the fee is the contract's, and fits; the transactions
    -- are the anchor transaction and all of the mempool's lists; and the request is posted.
    pub record IsPooled (header : Header) : Type 0 where
      pub base_fee : ℕ
      pub lists : Option (List (MempoolTxList Tx))
      pub anchor_tx : Tx
      pub request : BuildPreconfBlockRequest
      pub asked : n.get_basefee_v2 (as_u32 last.gas_used) time n.base_fee_config ≡ ok base_fee
      pub fits : base_fee < 2 ^ 128
      pub anchor : IsAnchor base_fee anchor_tx
      pub wanted :
          (is_empty (flatten_mempool_txs (unwrap_or lists [])) ≡ false) ⊎ (end_of_sequencing ≡ true)
      pub pool : n.tx_pool_content (mempool_params n (as_u64 base_fee)) ≡ ok lists
      pub requested :
          IsRequest
            (l2_client n now)
            golden_touch
            anchor_id
            root
            last
            time
            end_of_sequencing
            base_fee
            (anchor_tx ∷ flatten_mempool_txs (unwrap_or lists []))
            request
      pub posted : IsPosted now request header

-- ===== src/Builder/Client.antt =====
-- preconfirmation/src/taiko/taiko_l2_client.rs and preconfirmation/src/client/alloy_util.rs: the
-- client's operations over the nodes' plain answers, and the client that the block builder uses.
use Prim.Native.String
use Prim.Native.String.{String}
use taiko_preconfer.Prelude.{
  ℕ, ◌^◌, true, false, ◌&&◌, Option, some, List, [], ◌∷◌, ◌++◌, if◌then◌else◌, ltb, leb, as_u32,
  add64, unwrap_or,
}
use taiko_preconfer.Prelude.Outcome.{Outcome, ok, err, or_panic, ◌>>=◌}
use taiko_preconfer.Chain.{Header}
use taiko_preconfer.Whitelist.{Address}
use taiko_preconfer.Blob.{max_blob_data_size}
use taiko_preconfer.Batch.{Bytes, BaseFeeConfig}
use taiko_preconfer.Builder.{
  AnchorCall, TypedTransaction, BuildPreconfBlockRequest, L2Client, gas_limit,
}
use taiko_preconfer.Builder.Sign.{Signature, Ecdsa, sign_with_fixed_k}

pub record MempoolTxList (Tx : Type 0) : Type 0 where
  pub tx_list : List Tx
  pub estimated_gas_used : ℕ
  pub bytes_length : ℕ

-- The parameters of `taikoAuth_txPoolContent`, in their order.
pub record MempoolParams : Type 0 where
  pub beneficiary : Address
  pub base_fee : ℕ
  pub block_max_gas_limit : ℕ
  pub max_bytes_per_tx_list : ℕ
  pub locals : List String
  pub max_transactions_lists : ℕ

pub record Claims : Type 0 where
  pub iat : ℕ
  pub exp : Option ℕ

pub record Response (E : Type 0) : Type 0 where
  pub status : ℕ
  pub text : Outcome E String
  pub json : Outcome E Header

-- What the client keeps, and what nodes and libraries answer.
pub record L2Nodes (E Tx S : Type 0) : Type 0 where
  pub auth_url : String
  pub jwt_secret : String
  pub address : Address
  pub taiko_anchor : Address
  pub chain_id : ℕ
  pub base_fee_config : BaseFeeConfig
  pub from_hex : String → Option Bytes
  pub auth_client : String → Bytes → Outcome E (Unit {0})
  pub tx_pool_content : MempoolParams → Outcome E (Option (List (MempoolTxList Tx)))
  pub get_basefee_v2 : ℕ → ℕ → BaseFeeConfig → Outcome E ℕ
  pub from_uint_128 : ℕ → E
  pub get_transaction_count : Address → Outcome E ℕ
  pub abi_encode : AnchorCall → Bytes
  pub ecdsa : Ecdsa E S
  pub envelope : TypedTransaction → Signature → Tx
  pub compress : List Tx → Outcome E Bytes
  pub hex_decode : String → Outcome E Bytes
  pub encode_jwt : Claims → Bytes → Outcome E String
  pub send : String → BuildPreconfBlockRequest → Outcome E (Response E)
  pub invalid_reqwest : ℕ → String → E

unfoldable pub flatten_mempool_txs : {Tx : Type 0} → List (MempoolTxList Tx) → List Tx
flatten_mempool_txs [] = []
flatten_mempool_txs (l ∷ ls) = l.tx_list ++ flatten_mempool_txs ls

module _ {E Tx S : Type 0} (n : L2Nodes E Tx S) where
  abbrev pub mempool_params : ℕ → MempoolParams
  mempool_params base_fee = record {
    beneficiary = n.address;
    base_fee = base_fee;
    block_max_gas_limit = gas_limit;
    max_bytes_per_tx_list = max_blob_data_size;
    locals = [];
    max_transactions_lists = 1;
  }

  -- Both functions of this name: no answer counts as no list. A secret that is not hex is a panic.
  unfoldable pub get_mempool_txs : ℕ → Outcome E (List Tx)
  unfolding flatten_mempool_txs
  get_mempool_txs base_fee = do
    jwt_secret ← or_panic (n.from_hex n.jwt_secret)
    auth_client ← n.auth_client n.auth_url jwt_secret
    mempool_tx_lists ← n.tx_pool_content (mempool_params base_fee)
    ok (flatten_mempool_txs (unwrap_or mempool_tx_lists []))

  -- The contract's answer has 256 bits, of which 128 are allowed.
  unfoldable pub get_base_fee : ℕ → ℕ → Outcome E ℕ
  get_base_fee parent_gas_used timestamp = do
    base_fee ← n.get_basefee_v2 (as_u32 parent_gas_used) timestamp n.base_fee_config
    if ltb base_fee (2 ^ 128) then ok base_fee else err (n.from_uint_128 base_fee)

  -- A token that is valid for an hour from `now` on.
  unfoldable pub get_jwt_secret : ℕ → Outcome E String
  get_jwt_secret now = do
    secret_bytes ← n.hex_decode n.jwt_secret
    jwt_token ← n.encode_jwt (record { iat = now; exp = some (add64 now 3600) }) secret_bytes
    ok (String.◌++◌ "Bearer " jwt_token)

  -- The request of `publish_preconfirmed_transactions` and its answer.
  unfoldable pub post : ℕ → BuildPreconfBlockRequest → Outcome E Header
  unfolding get_jwt_secret
  post now request = do
    token ← get_jwt_secret now
    response ← n.send token request
    elim (leb 200 response.status && ltb response.status 300) [
      | true ↦ response.json
      | false ↦ response.text >>= λ text. err (n.invalid_reqwest response.status text)
    ]

  -- The client as the block builder sees it, at a time in seconds.
  unfoldable pub l2_client : ℕ → L2Client E Tx Signature
  unfolding get_mempool_txs get_base_fee post
  l2_client now = record {
    chain_id = n.chain_id;
    address = n.address;
    taiko_anchor = n.taiko_anchor;
    base_fee_config = n.base_fee_config;
    get_nonce = n.get_transaction_count;
    get_base_fee = get_base_fee;
    get_mempool_txs = get_mempool_txs;
    abi_encode = n.abi_encode;
    sign_with_fixed_k = sign_with_fixed_k n.ecdsa;
    envelope = n.envelope;
    compress = n.compress;
    post = post now;
  }

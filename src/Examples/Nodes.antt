-- ===== src/Examples/Nodes.antt =====
-- The theorems at concrete inputs: the client over its nodes, and the signature.
use taiko_preconfer.Prelude.{
  ℕ, ◌+◌, ◌≤◌, ◌≡◌, refl, arith, if◌then◌else◌, ltb, ◌-◌, true, none, some, Option, [], ◌∷◌,
}
use taiko_preconfer.Prelude.Outcome.{Outcome, ok, err}
use taiko_preconfer.Builder.{TypedTransaction, sign_anchor_tx}
use taiko_preconfer.Builder.Sign.{
  Signature, Ecdsa, IsSigned, sign_with_fixed_k, get_signed, get_signed-IsSigned,
}
use taiko_preconfer.Builder.Client.{L2Nodes}
use taiko_preconfer.Examples.Loops.{header}

-- A signature is its s, which is low up to 50; with k = 1 there is none.
abbrev normalized : ℕ → Option ℕ
normalized x = if ltb 50 x then some (100 - x) else none

abbrev signed_at : TypedTransaction → ℕ → Outcome ℕ ℕ
signed_at tx k = if ltb k 2 then err 1 else ok 70

abbrev ecdsa : Ecdsa ℕ ℕ
ecdsa = record {
  sign_prehashed = signed_at;
  normalize_s = normalized;
  r_of = λ x. x + 1;
  s_of = λ x. x;
}

low_lem : (x : ℕ) → normalized x ≡ none → x ≤ 50
low_lem x h = ground arith

lowered_lem : (x y : ℕ) → normalized x ≡ some y → y ≤ 50
lowered_lem x y h = ground arith

abbrev anchor_tx : TypedTransaction
anchor_tx = record {
  chain_id = 167;
  nonce = 4;
  gas_limit = 1000000;
  max_fee_per_gas = 25;
  max_priority_fee_per_gas = 0;
  to = 12;
  value = 0;
  input = 40 ∷ [];
}

abbrev signature : Signature
signature = record { r = 71; s = 30; is_odd = true }

signs : get_signed ecdsa anchor_tx ≡ ok (anchor_tx, signature)
unfolding get_signed sign_anchor_tx sign_with_fixed_k
signs = refl

get_signed-IsSigned_example :
    (anchor_tx ≡ anchor_tx) × IsSigned ecdsa 50 low_lem lowered_lem anchor_tx signature
get_signed-IsSigned_example =
    get_signed-IsSigned ecdsa 50 low_lem lowered_lem anchor_tx anchor_tx signature signs

-- Transactions are numbers. The mempool has two lists, and the node accepts each request.
abbrev nodes : L2Nodes ℕ ℕ ℕ
nodes = record {
  auth_url = "http://l2";
  jwt_secret = "05";
  address = 10;
  taiko_anchor = 12;
  chain_id = 167;
  base_fee_config = record {
    adjustment_quotient = 8;
    sharing_pctg = 75;
    gas_issuance_per_second = 5000000;
    min_gas_excess = 1340000000;
    max_gas_issuance_per_block = 600000000;
  };
  from_hex = λ s. some (5 ∷ []);
  auth_client = λ url secret. ok tt;
  tx_pool_content = λ params. ok (
      some (
        record { tx_list = 71 ∷ 72 ∷ []; estimated_gas_used = 42000; bytes_length = 200 }
        ∷ record { tx_list = 73 ∷ []; estimated_gas_used = 21000; bytes_length = 100 }
        ∷ []));
  get_basefee_v2 = λ gas time fees. ok 25;
  from_uint_128 = λ x. 2;
  get_transaction_count = λ account. ok 4;
  abi_encode = λ anchor_call. anchor_call.anchor_block_id ∷ [];
  ecdsa = ecdsa;
  envelope = λ tx sig. tx.nonce + sig.s;
  compress = λ txs. ok txs;
  hex_decode = λ s. ok (5 ∷ []);
  encode_jwt = λ claims secret. ok "token";
  send = λ token request. ok (record { status = 200; text = ok ""; json = ok (header 7) });
  invalid_reqwest = λ status text. 3;
}

-- ===== src/UnitTests/Builders.antt =====
-- preconfirmation/src/preconf/block_builder.rs, `mod tests`, with the mocked client.
use taiko_preconfer.Prelude.{ℕ, ◌≡◌, refl, true, false, ◌==◌, Option, none, some, List, [], ◌∷◌}
use taiko_preconfer.Prelude.Outcome.{Outcome, ok, panic}
use taiko_preconfer.Chain.{Header}
use taiko_preconfer.Batch.{pad_left}
use taiko_preconfer.Builder.{
  L2Client, build_block, get_signed_anchor_tx, sign_anchor_tx, publish_request,
  create_executable_data,
}
use taiko_preconfer.UnitTests.Blocks.{get_header}

-- The client, by its mempool and its answer to a request. A transaction is the r of its signature, and the
-- anchor transaction's is 1; compressed transactions are these numbers.
abbrev mocked_client : List ℕ → (List ℕ → Outcome ℕ Header) → L2Client ℕ ℕ ℕ
mocked_client mempool answer = record {
  chain_id = 167;
  address = 10;
  taiko_anchor = 12;
  base_fee_config = record {
    adjustment_quotient = 8;
    sharing_pctg = 50;
    gas_issuance_per_second = 5000000;
    min_gas_excess = 1344899430;
    max_gas_issuance_per_block = 600000000;
  };
  get_nonce = λ account. ok 10;
  get_base_fee = λ gas time. ok 100;
  get_mempool_txs = λ fee. ok mempool;
  abi_encode = λ anchor_call. [];
  sign_with_fixed_k = λ tx k. ok 1;
  envelope = λ tx signature. signature;
  compress = λ txs. ok txs;
  post = λ request. answer request.executable_data.transactions;
}

-- A call with other transactions than the test wants is a panic of the mock.
abbrev wants_two : List ℕ → Outcome ℕ Header
wants_two (r ∷ tx ∷ []) = elim (r == 1) [ true ↦ ok (get_header 1234 321) | false ↦ panic ]
wants_two _ = panic

unfoldable build_blocks_adds_anchor_transaction : Outcome ℕ (Option Header)
build_blocks_adds_anchor_transaction =
    build_block (mocked_client (0 ∷ []) wants_two) 77 (0, 0) (get_header 1234 100) 135 true

build_blocks_adds_anchor_transaction_passes :
    build_blocks_adds_anchor_transaction ≡ ok (some (get_header 1234 321))
unfolding build_blocks_adds_anchor_transaction build_block get_signed_anchor_tx sign_anchor_tx
    publish_request create_executable_data pad_left get_header
build_blocks_adds_anchor_transaction_passes = refl

unfoldable no_block_gets_published_when_mempool_is_empty : Outcome ℕ (Option Header)
no_block_gets_published_when_mempool_is_empty =
    build_block (mocked_client [] (λ txs. panic)) 77 (0, 0) (get_header 1234 100) 135 false

no_block_gets_published_when_mempool_is_empty_passes :
    no_block_gets_published_when_mempool_is_empty ≡ ok none
unfolding no_block_gets_published_when_mempool_is_empty build_block get_signed_anchor_tx
    sign_anchor_tx publish_request create_executable_data pad_left get_header
no_block_gets_published_when_mempool_is_empty_passes = refl

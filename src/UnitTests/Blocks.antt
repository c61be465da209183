-- ===== src/UnitTests/Blocks.antt =====
-- preconfirmation/src/test_util.rs: headers and blocks of the tests.
use taiko_preconfer.Prelude.{ℕ, ◌+◌, ◌*◌, List, [], ◌∷◌}
use taiko_preconfer.Chain.{Header, Block}

-- The hash tells headers of the tests apart, whose timestamps are below 1000.
unfoldable pub get_header : ℕ → ℕ → Header
get_header number timestamp = record {
  number = number;
  timestamp = timestamp;
  beneficiary = 0;
  gas_used = 0;
  state_root = 0;
  hash = 1000 * number + timestamp;
}

-- A transaction is its nonce.
unfoldable pub get_block_with_txs : ℕ → ℕ → List ℕ → Block ℕ
unfolding get_header
get_block_with_txs number timestamp txs = record {
  header = get_header number timestamp;
  transactions = txs;
}

unfoldable pub get_block : ℕ → ℕ → Block ℕ
unfolding get_block_with_txs
get_block number timestamp = get_block_with_txs number timestamp (0 ∷ [])

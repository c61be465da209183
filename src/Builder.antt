-- ===== src/Builder.antt =====
-- preconfirmation/src/preconf/block_builder.rs, with the anchor transaction and the request of
-- preconfirmation/src/taiko/taiko_l2_client.rs, preconfirmation/src/taiko/anchor.rs and
-- preconfirmation/src/taiko/sign.rs.
pub mod Client
pub mod Pool
pub mod Publish
pub mod Sign
use taiko_preconfer.Prelude.{
  ℕ, ◌%◌, ◌^◌, Bool, true, false, not, ◌&&◌, Option, none, some, List, [], ◌∷◌, if◌then◌else◌,
  is_empty, add64, as_u32, as_u64,
}
use taiko_preconfer.Prelude.Outcome.{Outcome, ok, err, panic, or_panic, ◌>>=◌}
use taiko_preconfer.Chain.{Header}
use taiko_preconfer.Whitelist.{Address}
use taiko_preconfer.Batch.{Bytes, BaseFeeConfig, pad_left}

abbrev pub anchor_gas_limit : ℕ
anchor_gas_limit = 1000000

abbrev pub gas_limit : ℕ
gas_limit = 241000000

pub record AnchorCall : Type 0 where
  pub anchor_block_id : ℕ
  pub anchor_state_root : ℕ
  pub parent_gas_used : ℕ
  pub base_fee_config : BaseFeeConfig
  pub signal_slots : List ℕ

-- The fields of alloy's TxEip1559; the access list is empty.
pub record TypedTransaction : Type 0 where
  pub chain_id : ℕ
  pub nonce : ℕ
  pub gas_limit : ℕ
  pub max_fee_per_gas : ℕ
  pub max_priority_fee_per_gas : ℕ
  pub to : Address
  pub value : ℕ
  pub input : Bytes

unfoldable pub create_anchor_transaction :
    (AnchorCall → Bytes) → ℕ → ℕ → ℕ → ℕ → Address → AnchorCall → TypedTransaction
create_anchor_transaction abi_encode chain_id nonce max_fee_per_gas max_priority_fee_per_gas
      taiko_anchor_address anchor_tx =
    record {
      chain_id = chain_id;
      nonce = nonce;
      gas_limit = anchor_gas_limit;
      max_fee_per_gas = max_fee_per_gas;
      max_priority_fee_per_gas = max_priority_fee_per_gas;
      to = taiko_anchor_address;
      value = 0;
      input = abi_encode anchor_tx;
    }

-- `Result::or`: the first success; a panic of either outcome comes before the choice.
unfoldable pub or : {E A : Type 0} → Outcome E A → Outcome E A → Outcome E A
or panic second = panic
or (ok a) panic = panic
or (ok a) (ok b) = ok a
or (ok a) (err e) = ok a
or (err e) second = second

-- `sign_with_fixed_k` with k = 1, and with k = 2 if that is an error; both are computed.
unfoldable pub sign_anchor_tx :
    {E S : Type 0} → (TypedTransaction → ℕ → Outcome E S) → TypedTransaction → Outcome E S
unfolding or
sign_anchor_tx sign_with_fixed_k tx = or (sign_with_fixed_k tx 1) (sign_with_fixed_k tx 2)

pub record ExecutableData : Type 0 where
  pub parent_hash : ℕ
  pub fee_recipient : Address
  pub block_number : ℕ
  pub gas_limit : ℕ
  pub timestamp : ℕ
  pub transactions : Bytes
  pub extra_data : Bytes
  pub base_fee_per_gas : ℕ

pub record BuildPreconfBlockRequest : Type 0 where
  pub executable_data : ExecutableData
  pub end_of_sequencing : Bool

-- What the L2 client keeps, and what it asks of nodes and libraries. `envelope` puts a signature to
-- a transaction; `post` sends a request, with its token, and reads the answer.
pub record L2Client (E Tx S : Type 0) : Type 0 where
  pub chain_id : ℕ
  pub address : Address
  pub taiko_anchor : Address
  pub base_fee_config : BaseFeeConfig
  pub get_nonce : Address → Outcome E ℕ
  pub get_base_fee : ℕ → ℕ → Outcome E ℕ
  pub get_mempool_txs : ℕ → Outcome E (List Tx)
  pub abi_encode : AnchorCall → Bytes
  pub sign_with_fixed_k : TypedTransaction → ℕ → Outcome E S
  pub envelope : TypedTransaction → S → Tx
  pub compress : List Tx → Outcome E Bytes
  pub post : BuildPreconfBlockRequest → Outcome E Header

module _ {E Tx S : Type 0} (c : L2Client E Tx S) where
  unfoldable pub get_signed_anchor_tx : ℕ → ℕ → ℕ → ℕ → ℕ → Outcome E Tx
  get_signed_anchor_tx anchor_block_id anchor_state_root parent_gas_used nonce max_fee_per_gas = do
    let tx =
        create_anchor_transaction c.abi_encode c.chain_id nonce max_fee_per_gas 0 c.taiko_anchor
          (record {
            anchor_block_id = anchor_block_id;
            anchor_state_root = anchor_state_root;
            parent_gas_used = parent_gas_used;
            base_fee_config = c.base_fee_config;
            signal_slots = [];
          })
    signature ← sign_anchor_tx c.sign_with_fixed_k tx
    ok (c.envelope tx signature)

  unfoldable pub create_executable_data :
      ℕ → ℕ → ℕ → Address → ℕ → ℕ → ℕ → List Tx → Outcome E ExecutableData
  create_executable_data base_fee_per_gas block_number sharing_percentage fee_recipient gas_limit
        parent_hash timestamp txs =
      do
        tx_bytes ← c.compress txs
        extra_data ← or_panic (pad_left 32 (sharing_percentage ∷ []))
        ok (record {
          parent_hash = parent_hash;
          fee_recipient = fee_recipient;
          block_number = block_number;
          gas_limit = gas_limit;
          timestamp = timestamp;
          transactions = tx_bytes;
          extra_data = extra_data;
          base_fee_per_gas = base_fee_per_gas;
        })

  -- The request that `publish_preconfirmed_transactions` sends.
  unfoldable pub publish_request :
      ℕ → ℕ → Header → List Tx → Bool → Outcome E BuildPreconfBlockRequest
  publish_request base_fee timestamp parent_header txs end_of_sequencing = do
    executable ←
        create_executable_data base_fee (add64 parent_header.number 1)
          c.base_fee_config.sharing_pctg c.address gas_limit parent_header.hash timestamp txs
    ok (record { executable_data = executable; end_of_sequencing = end_of_sequencing })

  unfoldable pub publish_preconfirmed_transactions :
      ℕ → ℕ → Header → List Tx → Bool → Outcome E Header
  publish_preconfirmed_transactions base_fee timestamp parent_header txs end_of_sequencing =
      publish_request base_fee timestamp parent_header txs end_of_sequencing >>= c.post

  -- The transactions of the block and its base fee, if a block is to be published.
  unfoldable pub collect : Address → ℕ × ℕ → Header → ℕ → Bool → Outcome E (Option (List Tx × ℕ))
  collect golden_touch_address (anchor_block_id, anchor_state_root) last_l2_header slot_timestamp
        end_of_sequencing =
      do
        base_fee ← c.get_base_fee last_l2_header.gas_used slot_timestamp
        txs ← c.get_mempool_txs (as_u64 base_fee)
        elim (is_empty txs && not end_of_sequencing) [
          | true ↦ ok none
          | false ↦ c.get_nonce golden_touch_address >>= λ nonce.
              get_signed_anchor_tx anchor_block_id anchor_state_root
                (as_u32 last_l2_header.gas_used) nonce base_fee
              >>= λ anchor_tx. ok (some (anchor_tx ∷ txs, base_fee))
        ]

  unfoldable pub publish_collected :
      Header → ℕ → Bool → Option (List Tx × ℕ) → Outcome E (Option Header)
  unfolding publish_preconfirmed_transactions
  publish_collected last_l2_header slot_timestamp end_of_sequencing none = ok none
  publish_collected last_l2_header slot_timestamp end_of_sequencing (some (txs, base_fee)) = do
    header ←
        publish_preconfirmed_transactions (as_u64 base_fee) slot_timestamp last_l2_header txs
          end_of_sequencing
    ok (some header)

  -- The header that comes back, if a block was published.
  unfoldable pub build_block : Address → ℕ × ℕ → Header → ℕ → Bool → Outcome E (Option Header)
  unfolding collect publish_collected
  build_block golden_touch_address anchor last_l2_header slot_timestamp end_of_sequencing = do
    collected ← collect golden_touch_address anchor last_l2_header slot_timestamp end_of_sequencing
    publish_collected last_l2_header slot_timestamp end_of_sequencing collected

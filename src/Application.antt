-- ===== src/Application.antt =====
-- taiko-preconfer/src/main.rs: the start of the program, up to the three loops, with the clients of
-- preconfirmation/src/taiko/taiko_l1_client.rs and preconfirmation/src/taiko/taiko_l2_client.rs that it
-- makes. Nodes, keys and contracts are arguments.
pub mod Deliveries
pub mod Launch
pub mod Owned
pub mod Sending
use Prim.Native.String.{String, ◌++◌}
use taiko_preconfer.Prelude.{ℕ, Bool, false, Option, none, some, List, mul64}
use taiko_preconfer.Prelude.Outcome.{Outcome, ok, ok_or, ◌>>=◌}
use taiko_preconfer.Chain.{Header, Block}
use taiko_preconfer.Clock
use taiko_preconfer.Clock.{Duration, as_secs}
use taiko_preconfer.Handover
use taiko_preconfer.Whitelist.{Address}
use taiko_preconfer.Anchor
use taiko_preconfer.Anchor.{ValidAnchor, AnchorHeader, update_block_number, update_last_anchor_id}
use taiko_preconfer.Batch.{BaseFeeConfig}
use taiko_preconfer.Batch.Meta.{Inbox, get_latest_confirmed_batch}
use taiko_preconfer.Configuration.{Config}
use taiko_preconfer.Confirm.{Strategy, ValidTimestamp}
use taiko_preconfer.Head
use taiko_preconfer.Head.{State}
use taiko_preconfer.Tracking.{slot_model, unconfirmed_l2_blocks}

-- The parts of the inbox's configuration that are read.
pub record InboxConfig : Type 0 where
  pub base_fee_config : BaseFeeConfig
  pub max_anchor_height_offset : ℕ

-- What is asked of alloy, of the nodes and of the contracts. Asked twice for the latest header, a node
-- may answer differently: the number tells the requests apart.
pub record Nodes (E Tx Provider Key : Type 0) : Type 0 where
  pub connect : String → Outcome E Provider
  pub connect_ws : String → Outcome E Provider
  pub get_signing_key : String → Outcome E Key
  pub address_of : Key → Address
  pub wallet : String → Outcome E (Unit {0})
  pub get_chain_id : Provider → Outcome E ℕ
  pub get_latest_block : Provider → ℕ → Outcome E (Option Header)
  pub null_resp : E
  pub inbox_config : Provider → Outcome E InboxConfig
  pub inbox : Provider → Inbox E
  pub get_header_by_id : ℕ → Outcome E AnchorHeader
  pub get_block_by_id : ℕ → Outcome E (Block Tx)
  pub get_anchor_block_id : Tx → Outcome E ℕ

pub record TaikoL2Client (Provider Key : Type 0) : Type 0 where
  pub auth_url : String
  pub taiko_anchor : Address
  pub provider : Provider
  pub base_fee_config : BaseFeeConfig
  pub chain_id : ℕ
  pub golden_touch_signing_key : Key
  pub preconfirmation_url : String
  pub jwt_secret : String
  pub address : Address

pub record TaikoL1Client (Provider F : Type 0) : Type 0 where
  pub provider : Provider
  pub propose_timeout : Duration
  pub preconfer_address : Address
  pub preconf_router_address : Address
  pub taiko_inbox : Provider
  pub use_blobs : Bool
  pub relative_fee_premium : F
  pub relative_blob_fee_premium : F

-- What the loops start from. `waiting_for_previous_preconfer` is false at first.
pub record Launched (Tx Provider Key F : Type 0) : Type 0 where
  pub slots : Clock.SlotModel
  pub windows : Handover.SlotModel
  pub l2_client : TaikoL2Client Provider Key
  pub l1_client : TaikoL1Client Provider F
  pub last_l2_header : Header
  pub last_l1_timestamp : ℕ
  pub valid_anchor : ValidAnchor
  pub head : State Tx
  pub strategy : Strategy
  pub status_url : String

-- `ValidTimestamp::new`.
unfoldable pub valid_timestamp_of : ℕ → ValidTimestamp
valid_timestamp_of max_offset = record { max_offset = max_offset }

-- `BlockConstrainedConfirmationStrategy::new`, without the client and the cache.
unfoldable pub strategy_of : Address → ℕ → ValidTimestamp → Strategy
strategy_of address max_blocks valid = record {
  max_blocks = max_blocks;
  valid_timestamp = valid;
  address = address;
}

module _ {E Tx Provider Key F : Type 0} (n : Nodes E Tx Provider Key) (config : Config F) where
  unfoldable pub get_inbox : Outcome E Provider
  get_inbox = n.connect_ws config.l1_ws_url

  unfoldable pub get_whitelist : Outcome E Provider
  get_whitelist = n.connect config.l1_client_url

  unfoldable pub get_taiko_l2_client :
      BaseFeeConfig → Address → Outcome E (TaikoL2Client Provider Key)
  get_taiko_l2_client base_fee_config preconfer_address = do
    provider ← n.connect config.l2_client_url
    chain_id ← n.get_chain_id provider
    key ← n.get_signing_key config.golden_touch_private_key
    ok (record {
      auth_url = config.l2_auth_client_url;
      taiko_anchor = config.taiko_anchor_address;
      provider = provider;
      base_fee_config = base_fee_config;
      chain_id = chain_id;
      golden_touch_signing_key = key;
      preconfirmation_url = (config.l2_preconfirmation_url ++ "/") ++ "preconfBlocks";
      jwt_secret = config.jwt_secret;
      address = preconfer_address;
    })

  unfoldable pub get_taiko_l1_client : Address → Outcome E (TaikoL1Client Provider F)
  unfolding get_inbox
  get_taiko_l1_client preconfer_address = do
    signer ← n.wallet config.private_key
    l1_provider ← n.connect config.l1_client_url
    taiko_inbox ← get_inbox
    ok (record {
      provider = l1_provider;
      propose_timeout = config.propose_timeout;
      preconfer_address = preconfer_address;
      preconf_router_address = config.taiko_preconf_router_address;
      taiko_inbox = taiko_inbox;
      use_blobs = config.use_blobs;
      relative_fee_premium = config.relative_fee_premium;
      relative_blob_fee_premium = config.relative_blob_fee_premium;
    })

  -- `get_latest_header` of both clients.
  unfoldable pub get_latest_header : Provider → ℕ → Outcome E Header
  get_latest_header provider request =
      n.get_latest_block provider request >>= λ block. ok_or block n.null_resp

  -- The anchor that the program starts with, and the last confirmed block.
  unfoldable pub first_anchor : ℕ → ℕ → Provider → Outcome E (ValidAnchor × ℕ × ℕ)
  first_anchor max_anchor_id_offset l1_number taiko_inbox = do
    let fresh = update_block_number (Anchor.new max_anchor_id_offset config.anchor_id_lag) l1_number
    batch ← get_latest_confirmed_batch (n.inbox taiko_inbox)
    anchor ← Anchor.update n.get_header_by_id (update_last_anchor_id fresh batch.anchor_block_id)
    ok (anchor, batch.anchor_block_id, batch.last_block_id)

  -- What is made of all answers at the end.
  unfoldable pub assemble :
      ℕ
      → TaikoL2Client Provider Key
      → TaikoL1Client Provider F
      → Header
      → ℕ
      → Address
      → ValidAnchor
      → ℕ
      → List (Block Tx)
      → Launched Tx Provider Key F
  unfolding valid_timestamp_of strategy_of
  assemble max_offset l2_client l1_client l2_header l1_timestamp address anchor confirmed blocks =
      record {
        slots = slot_model config.l1_genesis_time config.l1_slot_duration config.l1_slots_per_epoch;
        windows = Handover.new config.handover_window_slots config.l1_slots_per_epoch;
        l2_client = l2_client;
        l1_client = l1_client;
        last_l2_header = l2_header;
        last_l1_timestamp = l1_timestamp;
        valid_anchor = anchor;
        head = Head.start (some confirmed) blocks;
        strategy =
            strategy_of address config.max_blocks_per_batch
              (valid_timestamp_of (mul64 max_offset (as_secs config.l1_slot_duration)));
        status_url = config.l2_preconfirmation_url ++ "/status";
      }

  -- The last part of `main` before the loops, from the first anchor on.
  unfoldable pub prepare :
      Provider
      → ℕ
      → TaikoL2Client Provider Key
      → TaikoL1Client Provider F
      → Header
      → ℕ
      → ℕ
      → Address
      → Outcome E (Launched Tx Provider Key F)
  unfolding first_anchor assemble
  prepare taiko_inbox max_offset l2_client l1_client l2_header l1_timestamp l1_number address = do
    (anchor, anchor_id, confirmed) ← first_anchor max_offset l1_number taiko_inbox
    blocks ←
        unconfirmed_l2_blocks n.get_block_by_id n.get_anchor_block_id address anchor_id confirmed
          l2_header.number
    ok (
        assemble max_offset l2_client l1_client l2_header l1_timestamp address anchor confirmed
          blocks)

  -- `main`, from the configuration to the start of the loops.
  unfoldable pub launch : Outcome E (Launched Tx Provider Key F)
  unfolding get_inbox get_whitelist get_taiko_l2_client get_taiko_l1_client get_latest_header
      prepare
  launch = do
    taiko_inbox ← get_inbox
    inbox_config ← n.inbox_config taiko_inbox
    key ← n.get_signing_key config.private_key
    let address = n.address_of key
    l2_client ← get_taiko_l2_client inbox_config.base_fee_config address
    l2_header ← get_latest_header l2_client.provider 0
    l1_client ← get_taiko_l1_client address
    l1_header ← get_latest_header l1_client.provider 0
    whitelist ← get_whitelist
    later_l1_header ← get_latest_header l1_client.provider 1
    prepare taiko_inbox inbox_config.max_anchor_height_offset l2_client l1_client l2_header
        l1_header.timestamp later_l1_header.number address

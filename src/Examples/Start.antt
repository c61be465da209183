-- ===== src/Examples/Start.antt =====
-- The theorems at concrete inputs: the configuration, the start, and the batches after it.
use Prim.Native.String.{String}
use text.Mathlib.Text.{◌==◌}
use taiko_preconfer.Prelude.{
  ℕ, ◌+◌, ◌*◌, ◌≡◌, refl, arith, true, false, Option, none, some, List, [], ◌∷◌, All, if◌then◌else◌,
  ltb,
}
use taiko_preconfer.Prelude.Outcome.{ok, err}
use taiko_preconfer.Chain.{Header, Block}
use taiko_preconfer.Anchor
use taiko_preconfer.Handover
use taiko_preconfer.Batch
use taiko_preconfer.Batch.Meta.{Inbox, get_latest_confirmed_batch}
use taiko_preconfer.Configuration.{Config, Env}
use taiko_preconfer.Confirm.{candidates, prune, block_anchor_id, batch_blocks, is_due, select}
use taiko_preconfer.Cache.{add_block, sort, replace_or_push, retain_blocks}
use taiko_preconfer.Head
use taiko_preconfer.Head.{State, unconfirmed, handle}
use taiko_preconfer.Head.Stream.{Event, received, removal, IsFaithful, get_l2_head_stream}
use taiko_preconfer.Tracking.{unconfirmed_l2_blocks, unconfirmed_from, slot_model}
use taiko_preconfer.Application.{Nodes, Launched, launch}
use taiko_preconfer.Application.Launch.{IsReady, launch-IsReady}
use taiko_preconfer.Application.Sending.{IsProposable, launched-IsProposable}

-- Every setting is there but one.
abbrev environment : Env ℕ ℕ ℕ ℕ ℕ
environment = record {
  var = λ name. if name == "L2_WS_URL" then err 5 else ok "12";
  parse_u64 = λ text. ok 12;
  parse_u32 = λ text. ok 12;
  parse_usize = λ text. ok 12;
  parse_bool = λ text. ok true;
  parse_address = λ text. ok 12;
  percent = λ n. n;
}

abbrev config : Config ℕ
config = record {
  l1_genesis_time = 1000;
  l1_slot_duration = 12000;
  l1_slots_per_epoch = 32;
  l2_slot_duration = 2000;
  handover_window_slots = 4;
  handover_start_buffer = 6000;
  anchor_id_lag = 8;
  l2_client_url = "l2";
  l2_preconfirmation_url = "preconf";
  l2_auth_client_url = "auth";
  l2_ws_url = "l2ws";
  l1_client_url = "l1";
  l1_ws_url = "l1ws";
  poll_period = 500;
  taiko_anchor_address = 21;
  taiko_inbox_address = 22;
  taiko_preconf_router_address = 23;
  taiko_whitelist_address = 24;
  golden_touch_address = 25;
  golden_touch_private_key = "gold";
  private_key = "key";
  jwt_secret = "secret";
  max_blocks_per_batch = 10;
  use_blobs = false;
  propose_timeout = 60000;
  relative_fee_premium = 0;
  relative_blob_fee_premium = 0;
  status_sync_max_delay = 100;
}

abbrev header : ℕ → Header
header n = record {
  number = n;
  timestamp = 2000 + 2 * n;
  beneficiary = 77;
  gas_used = 0;
  state_root = 0;
  hash = 9000 + n;
}

-- A transaction is a number, and the first of a block is the id that it anchors to.
abbrev block : ℕ → Block ℕ
block n = record { header = header n; transactions = 96 ∷ n ∷ [] }

abbrev inbox : Inbox ℕ
inbox = record {
  get_stats2 = ok (record { num_batches = 5; last_proposed_in = 60 });
  get_batch = λ id. ok (record {
    meta_hash = 11;
    last_block_id = 2;
    batch_id = id;
    last_block_timestamp = 102;
    anchor_block_id = 95;
  });
  get_block_by_number = λ number. ok none;
}

abbrev base_fee_config : Batch.BaseFeeConfig
base_fee_config = record {
  adjustment_quotient = 8;
  sharing_pctg = 75;
  gas_issuance_per_second = 5000000;
  min_gas_excess = 1340000000;
  max_gas_issuance_per_block = 600000000;
}

-- The L1 has 104 blocks and the L2 has 4; a provider is its url, and a key is a number.
abbrev nodes : Nodes ℕ ℕ String ℕ
nodes = record {
  connect = λ url. ok url;
  connect_ws = λ url. ok url;
  get_signing_key = λ key. ok 77;
  address_of = λ key. key;
  wallet = λ key. ok tt;
  get_chain_id = λ provider. ok 167;
  get_latest_block = λ provider request. ok (some (header (if provider == "l2" then 4 else 104)));
  null_resp = 0;
  inbox_config =
      λ provider. ok (record { base_fee_config = base_fee_config; max_anchor_height_offset = 96 });
  inbox = λ provider. inbox;
  get_header_by_id = λ id. ok (record { timestamp = 90; state_root = 91 });
  get_block_by_id = λ id. ok (block id);
  get_anchor_block_id = λ tx. ok tx;
}

abbrev launched : Launched ℕ String ℕ ℕ
launched = record {
  slots = record { genesis_timestamp = 1000; slot_duration = 12000; epoch_duration = 384000 };
  windows = record { active_epoch = none; handover_slots = 4; slots_per_epoch = 32 };
  l2_client = record {
    auth_url = "auth";
    taiko_anchor = 21;
    provider = "l2";
    base_fee_config = base_fee_config;
    chain_id = 167;
    golden_touch_signing_key = 77;
    preconfirmation_url = "preconf/preconfBlocks";
    jwt_secret = "secret";
    address = 77;
  };
  l1_client = record {
    provider = "l1";
    propose_timeout = 60000;
    preconfer_address = 77;
    preconf_router_address = 23;
    taiko_inbox = "l1ws";
    use_blobs = false;
    relative_fee_premium = 0;
    relative_blob_fee_premium = 0;
  };
  last_l2_header = header 4;
  last_l1_timestamp = 2208;
  valid_anchor = record {
    max_offset = 96;
    desired_offset = 8;
    block_number = 104;
    current_anchor = record { id = 96; time = 90; state_root = 91 };
    last_anchor_id = 95;
  };
  head = record {
    last_confirmed_block_id = some 2;
    tx_cache = block 3 ∷ block 4 ∷ [];
    first_confirmation = true;
  };
  strategy = record {
    max_blocks = 10;
    valid_timestamp = record { max_offset = 1152 };
    address = 77;
  };
  status_url = "preconf/status";
}

launches : launch nodes config ≡ ok launched
unfolding launch get_latest_confirmed_batch Anchor.update unconfirmed_l2_blocks unconfirmed_from
    slot_model Handover.new Anchor.update_last_anchor_id Anchor.compute_valid_anchor_id Head.start
    Anchor.update_block_number Anchor.new
launches = refl

nodes_by_id : (id : ℕ) (b : Block ℕ) → nodes.get_block_by_id id ≡ ok b → b.header.number ≡ id
nodes_by_id id b h = ground arith

launch-IsReady_example : IsReady nodes config launched
launch-IsReady_example = launch-IsReady nodes config nodes_by_id launched launches

abbrev get_block : Option ℕ → Option (Block ℕ)
get_block none = some (block 5)
get_block (some id) = some (block id)

get_block_by_id : (id : ℕ) (b : Block ℕ) → get_block (some id) ≡ some b → b.header.number ≡ id
get_block_by_id id b h = ground arith

-- The fifth block arrives, and the third is removed.
abbrev events : List (Event ℕ ℕ)
events =
    received get_block (λ blocks. ok true) (unconfirmed (block 5))
    ∷ removal (λ b. ltb 3 b.header.number)
    ∷ []

events-IsFaithful : All IsFaithful events
events-IsFaithful = (get_block_by_id, (tt, tt))

abbrev fourth_and_fifth : List (Block ℕ)
fourth_and_fifth = block 4 ∷ block 5 ∷ []

selects :
    select {C = ℕ} nodes.get_anchor_block_id launched.strategy 2100 true 96
      (prune launched.strategy 2100 (get_l2_head_stream launched.head events).0.tx_cache)
    ≡ ok (some (fourth_and_fifth, 96))
unfolding select candidates prune retain_blocks get_l2_head_stream handle add_block sort
    replace_or_push block_anchor_id batch_blocks is_due
selects = refl

launched-IsProposable_example :
    (key : ℕ) × (nodes.get_signing_key config.private_key ≡ ok key)
    × (launched.strategy.address ≡ nodes.address_of key)
    × IsProposable nodes.get_anchor_block_id launched.strategy 2100
        (get_l2_head_stream launched.head events).0.last_confirmed_block_id
        fourth_and_fifth
        96
launched-IsProposable_example =
    launched-IsProposable nodes config nodes_by_id launched launches events events-IsFaithful 2100
      true 96 fourth_and_fifth 96 selects

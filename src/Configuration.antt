-- ===== src/Configuration.antt =====
-- preconfirmation/src/preconf/config.rs: the configuration, read from the environment. Durations are
-- in milliseconds, and the genesis time in seconds of the UNIX epoch; a `Secret` is its text.
use Prim.Native.String.{String}
use taiko_preconfer.Prelude.{ℕ, ◌*◌, ◌^◌, Bool, ltb, if◌then◌else◌}
use taiko_preconfer.Prelude.Outcome.{Outcome, ok, err, panic, ◌>>=◌}
use taiko_preconfer.Clock.{Duration}
use taiko_preconfer.Whitelist.{Address}

pub record Config (F : Type 0) : Type 0 where
  pub l1_genesis_time : ℕ
  pub l1_slot_duration : Duration
  pub l1_slots_per_epoch : ℕ
  pub l2_slot_duration : Duration
  pub handover_window_slots : ℕ
  pub handover_start_buffer : Duration
  pub anchor_id_lag : ℕ
  pub l2_client_url : String
  pub l2_preconfirmation_url : String
  pub l2_auth_client_url : String
  pub l2_ws_url : String
  pub l1_client_url : String
  pub l1_ws_url : String
  pub poll_period : Duration
  pub taiko_anchor_address : Address
  pub taiko_inbox_address : Address
  pub taiko_preconf_router_address : Address
  pub taiko_whitelist_address : Address
  pub golden_touch_address : Address
  pub golden_touch_private_key : String
  pub private_key : String
  pub jwt_secret : String
  pub max_blocks_per_batch : ℕ
  pub use_blobs : Bool
  pub propose_timeout : Duration
  pub relative_fee_premium : F
  pub relative_blob_fee_premium : F
  pub status_sync_max_delay : Duration

pub data ConfigError (V I R B H : Type 0) : Type 0 where
  var : V → ConfigError V I R B H
  parse_int : I → ConfigError V I R B H
  parse_float : R → ConfigError V I R B H
  parse_bool : B → ConfigError V I R B H
  from_hex : H → ConfigError V I R B H

-- The environment, the parsers of std and alloy, and `n as f32 / 100.0`.
pub record Env (V I B H F : Type 0) : Type 0 where
  pub var : String → Outcome V String
  pub parse_u64 : String → Outcome I ℕ
  pub parse_u32 : String → Outcome I ℕ
  pub parse_usize : String → Outcome I ℕ
  pub parse_bool : String → Outcome B Bool
  pub parse_address : String → Outcome H Address
  pub percent : ℕ → F

-- `map_err`, and the conversion that `?` makes.
abbrev pub map_err : {E D A : Type 0} → (E → D) → Outcome E A → Outcome D A
map_err f (ok a) = ok a
map_err f (err e) = err (f e)
map_err f panic = panic

-- `UNIX_EPOCH + Duration::from_secs(seconds)`, which panics past the range of a SystemTime.
abbrev pub system_time : {E : Type 0} → ℕ → Outcome E ℕ
system_time seconds = if ltb seconds (2 ^ 63) then ok seconds else panic

module _ {V I R B H F : Type 0} (env : Env V I B H F) where
  abbrev pub read_var : String → Outcome (ConfigError V I R B H) String
  read_var name = map_err ConfigError.var (env.var name)

  abbrev pub read_u64 : String → Outcome (ConfigError V I R B H) ℕ
  read_u64 name = read_var name >>= λ text. map_err parse_int (env.parse_u64 text)

  abbrev pub read_genesis : String → Outcome (ConfigError V I R B H) ℕ
  read_genesis name = read_u64 name >>= system_time

  abbrev pub read_u32 : String → Outcome (ConfigError V I R B H) ℕ
  read_u32 name = read_var name >>= λ text. map_err parse_int (env.parse_u32 text)

  abbrev pub read_usize : String → Outcome (ConfigError V I R B H) ℕ
  read_usize name = read_var name >>= λ text. map_err parse_int (env.parse_usize text)

  abbrev pub read_bool : String → Outcome (ConfigError V I R B H) Bool
  read_bool name = read_var name >>= λ text. map_err ConfigError.parse_bool (env.parse_bool text)

  abbrev pub read_address : String → Outcome (ConfigError V I R B H) Address
  read_address name = read_var name >>= λ text. map_err from_hex (env.parse_address text)

  unfoldable pub try_from_env : Outcome (ConfigError V I R B H) (Config F)
  try_from_env = do
    l1_genesis_time ← read_genesis "L1_GENESIS_TIMESTAMP_S"
    l1_slot_duration ← read_u64 "L1_SLOT_TIME_MS"
    l1_slots_per_epoch ← read_u64 "L1_SLOTS_PER_EPOCH"
    l2_slot_duration ← read_u64 "L2_SLOT_TIME_MS"
    handover_window_slots ← read_u32 "HANDOVER_WINDOW_SLOTS"
    handover_start_buffer ← read_u64 "HANDOVER_WINDOW_START_BUFFER_MS"
    anchor_id_lag ← read_u64 "ANCHOR_ID_LAG"
    l2_client_url ← read_var "L2_CLIENT_URL"
    l2_preconfirmation_url ← read_var "L2_PRECONFIRMATION_URL"
    l2_auth_client_url ← read_var "L2_AUTH_CLIENT_URL"
    l2_ws_url ← read_var "L2_WS_URL"
    l1_client_url ← read_var "L1_CLIENT_URL"
    l1_ws_url ← read_var "L1_WS_URL"
    poll_period ← read_u64 "POLL_TIME_MS"
    taiko_anchor_address ← read_address "TAIKO_ANCHOR_ADDRESS"
    taiko_inbox_address ← read_address "TAIKO_INBOX_ADDRESS"
    taiko_preconf_router_address ← read_address "TAIKO_PRECONF_ROUTER_ADDRESS"
    taiko_whitelist_address ← read_address "TAIKO_WHITELIST_ADDRESS"
    golden_touch_address ← read_address "GOLDEN_TOUCH_ADDRESS"
    golden_touch_private_key ← read_var "GOLDEN_TOUCH_PRIVATE_KEY"
    private_key ← read_var "PRIVATE_KEY"
    jwt_secret ← read_var "JWT_SECRET"
    max_blocks_per_batch ← read_usize "MAX_BLOCKS_PER_BATCH"
    use_blobs ← read_bool "USE_BLOBS"
    propose_timeout ← read_u64 "PROPOSE_TIMEOUT_S"
    relative_fee_premium ← read_u32 "RELATIVE_FEE_PREMIUM_IN_PERCENT"
    relative_blob_fee_premium ← read_u32 "RELATIVE_BLOB_FEE_PREMIUM_IN_PERCENT"
    status_sync_max_delay ← read_u64 "STATUS_SYNC_MAX_DELAY_MS"
    ok (record {
      l1_genesis_time = l1_genesis_time;
      l1_slot_duration = l1_slot_duration;
      l1_slots_per_epoch = l1_slots_per_epoch;
      l2_slot_duration = l2_slot_duration;
      handover_window_slots = handover_window_slots;
      handover_start_buffer = handover_start_buffer;
      anchor_id_lag = anchor_id_lag;
      l2_client_url = l2_client_url;
      l2_preconfirmation_url = l2_preconfirmation_url;
      l2_auth_client_url = l2_auth_client_url;
      l2_ws_url = l2_ws_url;
      l1_client_url = l1_client_url;
      l1_ws_url = l1_ws_url;
      poll_period = poll_period;
      taiko_anchor_address = taiko_anchor_address;
      taiko_inbox_address = taiko_inbox_address;
      taiko_preconf_router_address = taiko_preconf_router_address;
      taiko_whitelist_address = taiko_whitelist_address;
      golden_touch_address = golden_touch_address;
      golden_touch_private_key = golden_touch_private_key;
      private_key = private_key;
      jwt_secret = jwt_secret;
      max_blocks_per_batch = max_blocks_per_batch;
      use_blobs = use_blobs;
      propose_timeout = propose_timeout * 1000;
      relative_fee_premium = env.percent relative_fee_premium;
      relative_blob_fee_premium = env.percent relative_blob_fee_premium;
      status_sync_max_delay = status_sync_max_delay;
    })

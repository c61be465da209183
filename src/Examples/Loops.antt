-- ===== src/Examples/Loops.antt =====
-- The theorems at concrete inputs: the loops, the block builder and the start.
use taiko_preconfer.Prelude.{
  ℕ, ◌+◌, ◌*◌, ◌++◌, ◌≤◌, ◌<◌, Sorted, List, ◌≡◌, inl, inr, refl, arith, true, false, none, some,
  [], ◌∷◌, All,
}
use taiko_preconfer.Prelude.Outcome.{Outcome, ok, err}
use taiko_preconfer.Chain.{Header, Block}
use taiko_preconfer.Anchor
use taiko_preconfer.Anchor.{AnchorHeader, ValidAnchor}
use taiko_preconfer.Whitelist.Epochs.{entry}
use taiko_preconfer.Clock.{get_slot, get_timestamp}
use taiko_preconfer.Handover.{
  can_preconfirm, can_confirm, is_handover_start_slot, is_first_preconfirmation_slot,
  within_handover_period, is_last_slot_before_handover_window,
}
use taiko_preconfer.Batch.{pad_left}
use taiko_preconfer.Builder.{
  L2Client, build_block, get_signed_anchor_tx, sign_anchor_tx, publish_request,
  create_executable_data,
}
use taiko_preconfer.Loops.{Config, Duty, Position, SendCall, locate, enter, confirmation_step}
use taiko_preconfer.Loops.Preconfirm.{Action, Reads, waits, refresh_anchor, preconfirmation_step}
use taiko_preconfer.Loops.Safety.{IsLegal, preconfirmation_step-IsLegal}
use taiko_preconfer.Loops.Waiting.{waits_never}
use taiko_preconfer.Monitor.{SequencingStatus, is_end_of_sequencing_status_unsafe, ready}
use taiko_preconfer.Monitor.Ready.{Agrees, Polls, ready-Agrees, ready_returns}
use taiko_preconfer.Tracking.{L1State, unconfirmed_from, unconfirmed_l2_blocks}
use taiko_preconfer.Clock.RoundTrip
use taiko_preconfer.Loops.Location.{IsDivided, IsLocated, locate-bounds}
use taiko_preconfer.Loops.Sequencing.{HasHandover}
use taiko_preconfer.Loops.Runs.{Event, iteration, l1_block, preconfirmation_run, built}
use taiko_preconfer.Loops.Sync.{skips_slot, no_block_while_waiting}
use taiko_preconfer.Loops.Rising.{IsAligned, preconfirmation_run-Sorted}
use taiko_preconfer.Clock.Wakeup.{remaining_until_next_slot}

abbrev pub config : Config
config = record {
  slot_model = record { genesis_timestamp = 1000; slot_duration = 12000; epoch_duration = 384000 };
  l2_slot_duration = 2000;
  anchor_id_lag = 8;
  preconfer_address = 10;
}

abbrev pub duty : Duty
duty = record {
  whitelist = record { operators = entry 1 10 ∷ entry 2 11 ∷ [] };
  windows = record { active_epoch = some 1; handover_slots = 4; slots_per_epoch = 32 };
}

-- Slot 3 of epoch 1, in the third L2 slot.
abbrev position : Position
position = record {
  slot = record { epoch = 1; slot = 3 };
  subslots_per_slot = 6;
  subslot_in_slot = 2;
  subslot = 20;
  slot_timestamp = 1424;
}

position_lem : locate config 1425 ≡ some position
unfolding locate get_slot get_timestamp
position_lem = refl

waits_never_example : waits position duty ≡ []
waits_never_example =
    waits_never config 1425 position duty position_lem (omega arith) (omega arith) (omega arith)
      (omega arith)

abbrev pub anchor : ValidAnchor
anchor = record {
  max_offset = 96;
  desired_offset = 8;
  block_number = 0;
  current_anchor = record { id = 0; time = 0; state_root = 0 };
  last_anchor_id = 0;
}

abbrev node : ℕ → Outcome ℕ AnchorHeader
node id = ok (record { timestamp = 90; state_root = 91 })

abbrev reads : Reads
reads = record { waiting = false; waiting_later = false; skip_slot = true; next_operator = none }

builds :
    preconfirmation_step node config reads 1425 duty anchor
    ≡ ok (duty, anchor, Action.build_block 1424 false ∷ [])
unfolding preconfirmation_step locate get_slot get_timestamp can_preconfirm is_handover_start_slot
    refresh_anchor is_last_slot_before_handover_window is_first_preconfirmation_slot
builds = refl

abbrev pub call : SendCall
call = record { l1_slot_timestamp = 1432; force_send = false; current_anchor_id = 0 }

sends : confirmation_step config false none 1425 anchor 1420 duty ≡ some (duty, some call)
unfolding confirmation_step get_slot is_last_slot_before_handover_window can_confirm
    is_handover_start_slot within_handover_period Anchor.id_and_state_root
sends = refl

abbrev pub header : ℕ → Header
header n = record {
  number = n;
  timestamp = 100 + 2 * n;
  beneficiary = 10;
  gas_used = 0;
  state_root = 0;
  hash = 9000 + n;
}

-- Transactions are numbers; a signature is the k that it is made with.
abbrev client : L2Client ℕ ℕ ℕ
client = record {
  chain_id = 167;
  address = 10;
  taiko_anchor = 12;
  base_fee_config = record {
    adjustment_quotient = 8;
    sharing_pctg = 75;
    gas_issuance_per_second = 5000000;
    min_gas_excess = 1340000000;
    max_gas_issuance_per_block = 600000000;
  };
  get_nonce = λ account. ok 4;
  get_base_fee = λ gas time. ok 25;
  get_mempool_txs = λ fee. ok (71 ∷ 72 ∷ []);
  abi_encode = λ anchor_call. anchor_call.anchor_block_id ∷ [];
  sign_with_fixed_k = λ tx k. ok k;
  envelope = λ tx signature. tx.nonce + signature;
  compress = λ txs. ok txs;
  post = λ request. ok (header 7);
}

publishes : build_block client 13 (40, 41) (header 6) 114 false ≡ ok (some (header 7))
unfolding build_block get_signed_anchor_tx sign_anchor_tx publish_request create_executable_data
    pad_left
publishes = refl

abbrev tracked : L1State
tracked = record { valid_anchor = anchor; last_l1_timestamp = 0 }

abbrev l2_node : ℕ → Outcome ℕ (Block ℕ)
l2_node id = ok (record { header = header id; transactions = 40 ∷ [] })

abbrev decode : ℕ → Outcome ℕ ℕ
decode tx = ok tx

picked_up :
    unconfirmed_l2_blocks l2_node decode 10 35 5 7
    ≡ ok (
        record { header = header 6; transactions = 40 ∷ [] }
        ∷ record { header = header 7; transactions = 40 ∷ [] }
        ∷ [])
unfolding unconfirmed_l2_blocks unconfirmed_from
picked_up = refl

l2_node-number : (id : ℕ) (b : Block ℕ) → l2_node id ≡ ok b → b.header.number ≡ id
l2_node-number id b h = ground arith

abbrev status : SequencingStatus
status = record { highest_unsafe_l2_payload_block_id = 7; end_of_sequencing_block_hash = 9007 }

abbrev rounds : List (Outcome ℕ SequencingStatus × Header)
rounds = (ok status, header 6) ∷ (ok status, header 7) ∷ []

becomes_ready : ready rounds ≡ some (ok tt)
unfolding ready is_end_of_sequencing_status_unsafe
becomes_ready = refl

ready-Agrees_example :
    (before : List (Outcome ℕ SequencingStatus × Header)) × (s : SequencingStatus) × (h : Header)
    × (after : List (Outcome ℕ SequencingStatus × Header)) × (rounds ≡ before ++ (ok s, h) ∷ after)
    × All Polls before
    × Agrees s h
ready-Agrees_example = ready-Agrees rounds becomes_ready

ready_returns_example :
    ready {E = ℕ} ((ok status, header 6) ∷ (ok status, header 7) ∷ (err 1, header 8) ∷ [])
    ≡ some (ok tt)
ready_returns_example =
    ready_returns ((ok status, header 6) ∷ []) ((err 1, header 8) ∷ []) status (header 7) (tt, tt)
      (refl, refl)

config-IsValid : RoundTrip.IsValid config.slot_model 32
config-IsValid = record { slot_pos = omega arith; epoch_pos = omega arith; whole = refl }

config-IsDivided : IsDivided config 6
config-IsDivided = record { several = omega arith; l2_pos = omega arith; divided = refl }

duty-HasHandover : HasHandover 32 duty
duty-HasHandover = record { epoch_lem = refl; shorter = omega arith }

preconfirmation_step-IsLegal_example :
    (p : Position) × IsLocated config 32 6 config-IsValid config-IsDivided 1425 p
    × All (IsLegal config p (enter config p duty)) (Action.build_block 1424 false ∷ [])
preconfirmation_step-IsLegal_example =
    preconfirmation_step-IsLegal config 32 6 config-IsValid config-IsDivided 1425 (omega arith) node
      reads anchor duty duty anchor (Action.build_block 1424 false ∷ []) duty-HasHandover
      (omega arith) builds

locate-bounds_example :
    (p : Position) × (locate config 1425 ≡ some p)
    × (p.slot_timestamp ≤ 1425)
    × (1425 < p.slot_timestamp + 2)
    × (p.subslot_in_slot < 6)
    × (p.subslots_per_slot ≡ 6)
locate-bounds_example =
    locate-bounds config 32 6 config-IsValid config-IsDivided 1425 (omega arith) (omega arith)

config-IsAligned : IsAligned config
config-IsAligned = record { whole = refl; genesis = refl }

-- Two iterations, with a new L1 block between them. The first takes 300 ms, after which the loop sleeps
-- for 700 ms; the second starts 5 ms late and takes 600 ms.
abbrev run_events : List (Event ℕ)
run_events = iteration 0 300 reads node ∷ l1_block 7 ∷ iteration 5 600 reads node ∷ []

abbrev later_anchor : ValidAnchor
later_anchor = record {
  max_offset = 96;
  desired_offset = 8;
  block_number = 7;
  current_anchor = record { id = 0; time = 0; state_root = 0 };
  last_anchor_id = 0;
}

runs :
    preconfirmation_run (λ e. 1) config run_events 1425000 duty anchor
    ≡ ok (duty, later_anchor, Action.build_block 1424 false ∷ Action.build_block 1426 false ∷ [])
unfolding preconfirmation_run preconfirmation_step locate get_slot get_timestamp can_preconfirm
    is_handover_start_slot refresh_anchor is_last_slot_before_handover_window
    Anchor.update_block_number is_first_preconfirmation_slot remaining_until_next_slot
runs = refl

preconfirmation_run-Sorted_example :
    Sorted ◌<◌ (built (Action.build_block 1424 false ∷ Action.build_block 1426 false ∷ []))
preconfirmation_run-Sorted_example =
    preconfirmation_run-Sorted config 32 6 config-IsValid config-IsDivided config-IsAligned (λ e. 1)
      run_events 1425000 duty duty anchor later_anchor
      (Action.build_block 1424 false ∷ Action.build_block 1426 false ∷ []) (omega arith)
      (omega arith, (tt, (omega arith, tt))) runs

-- With a genesis at an odd second the sleep ends amid an L2 slot: an iteration that starts late is
-- followed by one in the same L2 slot.
abbrev odd_config : Config
odd_config = record config {
  slot_model = record { genesis_timestamp = 1001; slot_duration = 12000; epoch_duration = 384000 };
}

abbrev late_events : List (Event ℕ)
late_events = iteration 1200 300 reads node ∷ iteration 5 600 reads node ∷ []

builds_twice :
    preconfirmation_run (λ e. 1) odd_config late_events 1430000 duty anchor
    ≡ ok (duty, anchor, Action.build_block 1431 false ∷ Action.build_block 1431 false ∷ [])
unfolding preconfirmation_run preconfirmation_step locate get_slot get_timestamp can_preconfirm
    is_handover_start_slot refresh_anchor is_last_slot_before_handover_window
    is_first_preconfirmation_slot remaining_until_next_slot
builds_twice = refl

-- The flag is seen at the first poll, and the second comes past the deadline.
abbrev waiting_reads : Reads
waiting_reads = record {
  waiting = false;
  waiting_later = true;
  skip_slot = true;
  next_operator = none;
}

quiet : preconfirmation_step node config waiting_reads 1425 duty anchor ≡ ok (duty, anchor, [])
unfolding preconfirmation_step locate get_slot get_timestamp can_preconfirm is_handover_start_slot
    refresh_anchor is_last_slot_before_handover_window is_first_preconfirmation_slot
quiet = refl

polled : true ≡ skips_slot 500 position ((1424100, true) ∷ (1424600, false) ∷ [])
unfolding skips_slot
polled = refl

no_block_while_waiting_example : built [] ≡ []
no_block_while_waiting_example =
    no_block_while_waiting node config waiting_reads anchor 1425 position 500
      ((1424100, true) ∷ (1424600, false) ∷ []) duty duty anchor [] position_lem
      (inr (refl, polled, (inr refl, (inl (omega arith), tt)))) quiet

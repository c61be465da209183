-- ===== src/Loops.antt =====
-- taiko-preconfer/src/preconfirmation_loop.rs and taiko-preconfer/src/confirmation_loop.rs: one
-- iteration of each loop as a step on the loop's state. What is read from shared state, from the
-- clock and from nodes during the iteration is an argument, so that every interleaving is covered.
pub mod Confirming
pub mod Location
pub mod Preconfirm
pub mod Rising
pub mod Runs
pub mod Safety
pub mod Sequencing
pub mod Sync
pub mod Waiting
use taiko_preconfer.Prelude.{
  ℕ, ◌%◌, Bool, true, false, not, ◌&&◌, ◌||◌, Option, none, some, List, [], ◌∷◌, ◌++◌,
  if◌then◌else◌, ◌==◌, add64, sub64, mul64, div?, mod?, unwrap_or, ◌>>=◌,
}
use taiko_preconfer.Clock
use taiko_preconfer.Clock.{Duration, Slot, as_secs, get_slot, get_timestamp}
use taiko_preconfer.Handover
use taiko_preconfer.Handover.{
  set_active_epoch, can_preconfirm, can_confirm, is_handover_start_slot,
  is_first_preconfirmation_slot, is_last_slot_before_handover_window, within_handover_period,
}
use taiko_preconfer.Whitelist
use taiko_preconfer.Whitelist.{
  Address, WhitelistMonitor, is_current_and_next, is_active_in, change_epoch,
  update_current_operator, update_next_operator,
}
use taiko_preconfer.Anchor
use taiko_preconfer.Anchor.{ValidAnchor}

-- The parts of the configuration that the loops read.
pub record Config : Type 0 where
  pub slot_model : Clock.SlotModel
  pub l2_slot_duration : Duration
  pub anchor_id_lag : ℕ
  pub preconfer_address : Address

-- What both loops keep between iterations.
pub record Duty : Type 0 where
  pub whitelist : WhitelistMonitor
  pub windows : Handover.SlotModel

-- `is_active_in` for an epoch, and then `set_active_epoch`.
unfoldable pub activate : Address → ℕ → Duty → Duty
activate preconfer epoch d =
    if is_active_in d.whitelist preconfer epoch
    then record d { windows = set_active_epoch d.windows epoch }
    else d

-- The start of both loops, with the whitelist contract's two answers.
unfoldable pub start :
    Config → Handover.SlotModel → ℕ → Option Address → Option Address → Option Duty
unfolding activate
start c windows now current next = do
  slot ← get_slot c.slot_model now
  let known =
      update_next_operator (update_current_operator Whitelist.new slot.epoch current) slot.epoch
        next
  let d : Duty = record { whitelist = known; windows = windows }
  some (
      activate c.preconfer_address (add64 slot.epoch 1) (activate c.preconfer_address slot.epoch d))

-- Where a timestamp lies: its slot, the L2 slot within that slot and within the epoch, and the
-- timestamp at which the L2 slot starts.
pub record Position : Type 0 where
  pub slot : Slot
  pub subslots_per_slot : ℕ
  pub subslot_in_slot : ℕ
  pub subslot : ℕ
  pub slot_timestamp : ℕ

unfoldable pub locate : Config → ℕ → Option Position
locate c timestamp = do
  subslots_per_slot ← div? (as_secs c.slot_model.slot_duration) (as_secs c.l2_slot_duration)
  slot ← get_slot c.slot_model timestamp
  slot_start ← get_timestamp c.slot_model slot
  subslot_duration ← div? (as_secs c.slot_model.slot_duration) subslots_per_slot
  subslot_in_slot ← div? (sub64 timestamp slot_start) subslot_duration
  some (record {
    slot = slot;
    subslots_per_slot = subslots_per_slot;
    subslot_in_slot = subslot_in_slot;
    subslot = add64 (mul64 slot.slot subslots_per_slot) subslot_in_slot;
    slot_timestamp = add64 slot_start (mul64 subslot_in_slot (as_secs c.l2_slot_duration));
  })

-- The change of epochs at the start of an iteration of the preconfirmation loop.
unfoldable pub enter : Config → Position → Duty → Duty
unfolding activate
enter c p d =
    let changed = record d { whitelist = change_epoch d.whitelist p.slot.epoch } in
    let e = if p.subslot == 0 then changed else d in
    if is_handover_start_slot e.windows p.slot.slot && p.subslot_in_slot == 0
    then activate c.preconfer_address (add64 p.slot.epoch 1) e
    else e

unfoldable pub may_build : Config → Position → Duty → Bool
may_build c p d =
    can_preconfirm d.windows p.slot || is_current_and_next d.whitelist c.preconfer_address

unfoldable pub must_wait : Position → Duty → Bool
must_wait p d = is_first_preconfirmation_slot d.windows p.slot && p.subslot == 0

unfoldable pub is_end_of_sequencing : Position → Duty → Bool
is_end_of_sequencing p d =
    is_last_slot_before_handover_window d.windows p.slot.slot
    && unwrap_or (mod? p.subslot p.subslots_per_slot) 0 == sub64 p.subslots_per_slot 1

-- The confirmation strategy's arguments: the L1 timestamp, whether to force, and the anchor.
pub record SendCall : Type 0 where
  pub l1_slot_timestamp : ℕ
  pub force_send : Bool
  pub current_anchor_id : ℕ

unfoldable pub enter_slot : Config → Slot → Duty → Duty
unfolding activate
enter_slot c slot d =
    let changed = record d { whitelist = change_epoch d.whitelist slot.epoch } in
    let e = if slot.slot == 0 then changed else d in
    if is_handover_start_slot e.windows slot.slot
    then activate c.preconfer_address (add64 slot.epoch 1) e
    else e

unfoldable pub may_confirm : Config → Slot → Duty → Bool
may_confirm c slot d =
    (can_confirm d.windows slot || is_current_and_next d.whitelist c.preconfer_address)
    && not (is_last_slot_before_handover_window d.windows slot.slot)

-- An iteration of the confirmation loop: the state, and the call of `send` if there is one.
unfoldable pub confirmation_step :
    Config → Bool → Option Address → ℕ → ValidAnchor → ℕ → Duty → Option (Duty × Option SendCall)
unfolding enter_slot may_confirm
confirmation_step c waiting next_operator timestamp anchor latest_l1_timestamp d = do
  slot ← get_slot c.slot_model timestamp
  let e = enter_slot c slot d
  let call : SendCall = record {
    l1_slot_timestamp = add64 latest_l1_timestamp (as_secs c.slot_model.slot_duration);
    force_send = within_handover_period e.windows slot.slot;
    current_anchor_id = (Anchor.id_and_state_root anchor).0;
  }
  let after =
      if is_last_slot_before_handover_window e.windows slot.slot
      then record e { whitelist = update_next_operator e.whitelist slot.epoch next_operator }
      else e
  some (if waiting then (e, none) else (after, if may_confirm c slot e then some call else none))

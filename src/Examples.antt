-- ===== src/Examples.antt =====
-- The theorems at concrete inputs: time, slots, operators and anchors.
mod Blocks
mod Batches
mod Loops
mod Requests
mod Confirmed
mod Nodes
mod Published
mod Running
mod Start
use taiko_preconfer.Prelude.{
  ℕ, ◌+◌, ◌*◌, ◌≤◌, ◌<◌, ◌≡◌, ◌↔◌, ◌⊎◌, refl, arith, true, some, List, [], ◌∷◌, ◌%◌, u64_mod,
}
use taiko_preconfer.Prelude.Outcome.{Outcome, ok}
use taiko_preconfer.Clock
use taiko_preconfer.Clock.{Slot, get_slot, get_timestamp, as_secs}
use taiko_preconfer.Clock.RoundTrip
use taiko_preconfer.Clock.RoundTrip.{get_slot-get_timestamp, get_timestamp-get_slot}
use taiko_preconfer.Clock.Wakeup.{remaining_until_next_slot, remaining_until_next_slot-aligned}
use taiko_preconfer.Handover.{
  SlotModel, can_preconfirm, is_first_preconfirmation_slot, is_last_slot_before_handover_window,
}
use taiko_preconfer.Handover.Windows.{
  IsValid, InWindow, number, can_preconfirm_iff, is_first_preconfirmation_slot_iff,
  is_last_slot_before_handover_window_iff, can_preconfirm_exclusive,
}
use taiko_preconfer.Whitelist.{
  Address, WhitelistMonitor, update_current_operator, update_next_operator, change_epoch,
  is_current_and_next, is_active_in,
}
use taiko_preconfer.Whitelist.Epochs.{
  entry, update-operators, change_epoch-update_next_operator, operator_queries,
}
use taiko_preconfer.Anchor.{compute_valid_anchor_id}
use taiko_preconfer.Anchor.Bounds.{
  IsAllowed, compute_valid_anchor_id-least, compute_valid_anchor_id_wraps,
}

-- Slots of 12 seconds, 32 to an epoch.
abbrev clock : Clock.SlotModel
clock = record { genesis_timestamp = 1000; slot_duration = 12000; epoch_duration = 384000 }

clock-IsValid : RoundTrip.IsValid clock 32
clock-IsValid = record { slot_pos = omega arith; epoch_pos = omega arith; whole = refl }

abbrev slot_at : ℕ → ℕ → Slot
slot_at epoch slot = record { epoch = epoch; slot = slot }

get_timestamp-get_slot_example :
    (start : ℕ) × (get_timestamp clock (slot_at 1 9) ≡ some start)
    × (get_slot clock start ≡ some (slot_at 1 9))
get_timestamp-get_slot_example =
    get_timestamp-get_slot clock 32 clock-IsValid (slot_at 1 9) (omega arith) (omega arith)

remaining_until_next_slot-aligned_example :
    (rest : ℕ) × (remaining_until_next_slot 12000 50500 ≡ ok rest)
    × (rest < 12000)
    × ((50500 + rest) % 12000 ≡ 0)
remaining_until_next_slot-aligned_example =
    remaining_until_next_slot-aligned 12000 50500 (omega arith) (omega arith)

-- Four of 32 slots are for the handover, and epoch 3 is active.
abbrev preconfer : SlotModel
preconfer = record { active_epoch = some 3; handover_slots = 4; slots_per_epoch = 32 }

preconfer-IsValid : IsValid preconfer
preconfer-IsValid = record { handover_le = omega arith; fits = omega arith }

can_preconfirm_iff_example :
    (can_preconfirm preconfer (slot_at 2 29) ≡ true)
    ↔ InWindow preconfer 3 (number preconfer (slot_at 2 29))
can_preconfirm_iff_example =
    can_preconfirm_iff preconfer preconfer-IsValid 3 refl (slot_at 2 29) (omega arith) (omega arith)

can_preconfirm_at : can_preconfirm preconfer (slot_at 2 29) ≡ true
unfolding can_preconfirm
can_preconfirm_at = refl

can_preconfirm_exclusive_example : preconfer.active_epoch ≡ preconfer.active_epoch
can_preconfirm_exclusive_example =
    can_preconfirm_exclusive preconfer preconfer (slot_at 2 29) refl refl can_preconfirm_at
      can_preconfirm_at

abbrev stale : WhitelistMonitor
stale = record { operators = entry 1 10 ∷ entry 2 11 ∷ [] }

abbrev alice : Address
alice = 10

abbrev bob : Address
bob = 11

abbrev both : WhitelistMonitor
both = record { operators = entry 5 10 ∷ entry 6 11 ∷ [] }

update-operators_example :
    (update_next_operator (update_current_operator stale 5 (some 10)) 5 (some 11)).operators
    ≡ entry 5 10 ∷ entry 6 11 ∷ []
update-operators_example =
    update-operators stale 5 10 11 ((omega arith, tt), (tt, tt)) (omega arith)

compute_valid_anchor_id-least_example :
    let id = compute_valid_anchor_id 1000 96 8 950 in
    IsAllowed 1000 96 8 950 id × ((other : ℕ) → IsAllowed 1000 96 8 950 other → id ≤ other)
compute_valid_anchor_id-least_example =
    compute_valid_anchor_id-least 1000 96 8 950 (omega arith) (omega arith) (omega arith)

compute_valid_anchor_id_wraps_example : u64_mod ≤ compute_valid_anchor_id 3 96 8 0 + 8
compute_valid_anchor_id_wraps_example =
    compute_valid_anchor_id_wraps 3 96 8 0 (omega arith) (omega arith) (omega arith) (omega arith)

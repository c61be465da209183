-- ===== src/UnitTests/Handovers.antt =====
-- preconfirmation/src/preconf/slot_model.rs, `mod tests`.
use taiko_preconfer.Prelude.{ℕ, ◌-◌, ◌≡◌, refl, Bool, true, not, ◌&&◌, [], ◌∷◌, all}
use taiko_preconfer.Clock.{Slot}
use taiko_preconfer.Handover
use taiko_preconfer.Handover.{
  SlotModel, set_active_epoch, can_preconfirm, can_confirm, is_first_preconfirmation_slot,
}

abbrev test_slots_per_epoch : ℕ
test_slots_per_epoch = 10

-- Three handover slots, without and with an active epoch.
abbrev model : SlotModel
model = Handover.new 3 test_slots_per_epoch

abbrev active : SlotModel
active = set_active_epoch model 1

-- `u64::MAX` handover slots.
abbrev endless : SlotModel
endless = Handover.new 18446744073709551615 test_slots_per_epoch

abbrev slot : ℕ → ℕ → Slot
slot epoch n = record { epoch = epoch; slot = n }

unfoldable if_no_active_epoch_is_set_then_can_not_preconfirm : Bool
if_no_active_epoch_is_set_then_can_not_preconfirm = not (can_preconfirm endless (slot 0 0))

unfoldable if_more_than_handover_slots_behind_active_epoch_then_can_not_preconfirm : Bool
if_more_than_handover_slots_behind_active_epoch_then_can_not_preconfirm =
    not (can_preconfirm active (slot 0 (test_slots_per_epoch - 3 - 1)))

unfoldable if_exactly_handover_slots_behind_active_epoch_then_can_preconfirm : Bool
if_exactly_handover_slots_behind_active_epoch_then_can_preconfirm =
    can_preconfirm active (slot 0 (test_slots_per_epoch - 3))

unfoldable if_in_active_epoch_can_preconfirm : Bool
if_in_active_epoch_can_preconfirm = can_preconfirm active (slot 1 0)

unfoldable if_after_active_epoch_can_not_preconfirm : Bool
if_after_active_epoch_can_not_preconfirm = not (can_preconfirm active (slot 2 0))

unfoldable if_less_than_handover_slots_from_end_active_epoch_can_not_preconfirm : Bool
if_less_than_handover_slots_from_end_active_epoch_can_not_preconfirm =
    not (can_preconfirm active (slot 1 7))

unfoldable is_first_slot_in_preconfirmation_window : Bool
is_first_slot_in_preconfirmation_window = is_first_preconfirmation_slot active (slot 0 7)

unfoldable is_not_first_slot_in_preconfirmation_window : Bool
is_not_first_slot_in_preconfirmation_window = not (is_first_preconfirmation_slot active (slot 0 8))

unfoldable if_no_active_epoch_is_set_then_is_not_first_slot_in_preconfirmation_window : Bool
if_no_active_epoch_is_set_then_is_not_first_slot_in_preconfirmation_window =
    not (is_first_preconfirmation_slot endless (slot 0 7))

unfoldable is_last_slot_before_handover_window_test : Bool
is_last_slot_before_handover_window_test = Handover.is_last_slot_before_handover_window model 6

unfoldable is_not_last_slot_before_handover_window : Bool
is_not_last_slot_before_handover_window = not (Handover.is_last_slot_before_handover_window model 7)

unfoldable if_no_active_epoch_is_set_then_can_not_confirm : Bool
if_no_active_epoch_is_set_then_can_not_confirm = not (can_confirm endless (slot 0 0))

unfoldable if_in_active_epoch_can_confirm : Bool
if_in_active_epoch_can_confirm = can_confirm active (slot 1 0)

unfoldable if_behind_active_epoch_can_not_confirm : Bool
if_behind_active_epoch_can_not_confirm = not (can_confirm active (slot 0 0))

unfoldable if_after_active_epoch_can_not_confirm : Bool
if_after_active_epoch_can_not_confirm = not (can_confirm active (slot 2 0))

unfoldable within_handover_period_test : Bool
within_handover_period_test =
    not (Handover.within_handover_period model 0) && not (Handover.within_handover_period model 6)

unfoldable not_within_handover_period : Bool
not_within_handover_period =
    Handover.within_handover_period model 7 && Handover.within_handover_period model 9

all_pass :
    all
      (λ passes. passes)
      (if_no_active_epoch_is_set_then_can_not_preconfirm
        ∷ if_more_than_handover_slots_behind_active_epoch_then_can_not_preconfirm
        ∷ if_exactly_handover_slots_behind_active_epoch_then_can_preconfirm
        ∷ if_in_active_epoch_can_preconfirm ∷ if_after_active_epoch_can_not_preconfirm
        ∷ if_less_than_handover_slots_from_end_active_epoch_can_not_preconfirm
        ∷ is_first_slot_in_preconfirmation_window ∷ is_not_first_slot_in_preconfirmation_window
        ∷ if_no_active_epoch_is_set_then_is_not_first_slot_in_preconfirmation_window
        ∷ is_last_slot_before_handover_window_test ∷ is_not_last_slot_before_handover_window
        ∷ if_no_active_epoch_is_set_then_can_not_confirm ∷ if_in_active_epoch_can_confirm
        ∷ if_behind_active_epoch_can_not_confirm ∷ if_after_active_epoch_can_not_confirm
        ∷ within_handover_period_test ∷ not_within_handover_period ∷ [])
    ≡ true
unfolding if_no_active_epoch_is_set_then_can_not_preconfirm
    if_more_than_handover_slots_behind_active_epoch_then_can_not_preconfirm
    if_exactly_handover_slots_behind_active_epoch_then_can_preconfirm
    if_in_active_epoch_can_preconfirm if_after_active_epoch_can_not_preconfirm
    if_less_than_handover_slots_from_end_active_epoch_can_not_preconfirm
    is_first_slot_in_preconfirmation_window is_not_first_slot_in_preconfirmation_window
    if_no_active_epoch_is_set_then_is_not_first_slot_in_preconfirmation_window
    is_last_slot_before_handover_window_test is_not_last_slot_before_handover_window
    if_no_active_epoch_is_set_then_can_not_confirm if_in_active_epoch_can_confirm
    if_behind_active_epoch_can_not_confirm if_after_active_epoch_can_not_confirm
    within_handover_period_test not_within_handover_period Handover.new set_active_epoch
    can_preconfirm can_confirm is_first_preconfirmation_slot
    Handover.is_last_slot_before_handover_window Handover.within_handover_period
all_pass = refl

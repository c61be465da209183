-- ===== src/UnitTests/Slots.antt =====
-- preconfirmation/src/slot_model.rs, `mod tests`.
use taiko_preconfer.Prelude.{ℕ, ◌+◌, ◌*◌, ◌/◌, ◌≡◌, refl, Option, some}
use taiko_preconfer.Clock
use taiko_preconfer.Clock.{
  Slot, SlotModel, Duration, as_secs, get_slot, get_timestamp, get_slot_number,
}

abbrev test_genesis_timestamp : ℕ
test_genesis_timestamp = 12345

-- In milliseconds.
abbrev test_slot_duration : Duration
test_slot_duration = 10000

abbrev test_epoch_duration : Duration
test_epoch_duration = 50000

abbrev model : SlotModel
model = record {
  genesis_timestamp = test_genesis_timestamp;
  slot_duration = test_slot_duration;
  epoch_duration = test_epoch_duration;
}

abbrev slot : ℕ → ℕ → Slot
slot epoch n = record { epoch = epoch; slot = n }

unfoldable slot_model_get_timestamp_for_slot_0 : Option ℕ
slot_model_get_timestamp_for_slot_0 = get_timestamp model (slot 0 0)

slot_model_get_timestamp_for_slot_0_passes :
    slot_model_get_timestamp_for_slot_0 ≡ some test_genesis_timestamp
unfolding slot_model_get_timestamp_for_slot_0 get_slot get_timestamp get_slot_number
    Clock.slots_per_epoch
slot_model_get_timestamp_for_slot_0_passes = refl

unfoldable slot_model_get_timestamp_for_slot_3 : Option ℕ
slot_model_get_timestamp_for_slot_3 = get_timestamp model (slot 0 3)

slot_model_get_timestamp_for_slot_3_passes :
    slot_model_get_timestamp_for_slot_3
    ≡ some (test_genesis_timestamp + as_secs test_slot_duration * 3)
unfolding slot_model_get_timestamp_for_slot_3 get_slot get_timestamp get_slot_number
    Clock.slots_per_epoch
slot_model_get_timestamp_for_slot_3_passes = refl

unfoldable slots_per_epoch_test : Option ℕ
slots_per_epoch_test = Clock.slots_per_epoch model

slots_per_epoch_test_passes : slots_per_epoch_test ≡ some 5
unfolding slots_per_epoch_test get_slot get_timestamp get_slot_number Clock.slots_per_epoch
slots_per_epoch_test_passes = refl

unfoldable get_total_slot_number_from_slot : Option ℕ
get_total_slot_number_from_slot = get_slot_number model (slot 10 3)

get_total_slot_number_from_slot_passes : get_total_slot_number_from_slot ≡ some 53
unfolding get_total_slot_number_from_slot get_slot get_timestamp get_slot_number
    Clock.slots_per_epoch
get_total_slot_number_from_slot_passes = refl

unfoldable slot_model_epoch_0_slot_0 : Option Slot
slot_model_epoch_0_slot_0 = get_slot model test_genesis_timestamp

slot_model_epoch_0_slot_0_passes : slot_model_epoch_0_slot_0 ≡ some (slot 0 0)
unfolding slot_model_epoch_0_slot_0 get_slot get_timestamp get_slot_number Clock.slots_per_epoch
slot_model_epoch_0_slot_0_passes = refl

unfoldable slot_model_epoch_0_slot_0_inexact : Option Slot
slot_model_epoch_0_slot_0_inexact =
    get_slot model (test_genesis_timestamp + as_secs test_slot_duration / 2)

slot_model_epoch_0_slot_0_inexact_passes : slot_model_epoch_0_slot_0_inexact ≡ some (slot 0 0)
unfolding slot_model_epoch_0_slot_0_inexact get_slot get_timestamp get_slot_number
    Clock.slots_per_epoch
slot_model_epoch_0_slot_0_inexact_passes = refl

unfoldable slot_model_epoch_1_slot_0 : Option Slot
slot_model_epoch_1_slot_0 = get_slot model (test_genesis_timestamp + as_secs test_epoch_duration)

slot_model_epoch_1_slot_0_passes : slot_model_epoch_1_slot_0 ≡ some (slot 1 0)
unfolding slot_model_epoch_1_slot_0 get_slot get_timestamp get_slot_number Clock.slots_per_epoch
slot_model_epoch_1_slot_0_passes = refl

unfoldable slot_model_epoch_1_slot_3 : Option Slot
slot_model_epoch_1_slot_3 =
    get_slot model
      (test_genesis_timestamp + as_secs test_epoch_duration + 3 * as_secs test_slot_duration)

slot_model_epoch_1_slot_3_passes : slot_model_epoch_1_slot_3 ≡ some (slot 1 3)
unfolding slot_model_epoch_1_slot_3 get_slot get_timestamp get_slot_number Clock.slots_per_epoch
slot_model_epoch_1_slot_3_passes = refl

-- ===== src/Clock.antt =====
-- preconfirmation/src/slot.rs and preconfirmation/src/slot_model.rs: timestamps and L1 slots.
pub mod RoundTrip
pub mod Wakeup
use taiko_preconfer.Prelude.{ℕ, ◌/◌, Option, some, add64, sub64, mul64, div?, mod?, ◌>>=◌}

-- std's Duration, counted in milliseconds: the program builds all of its durations from
-- milliseconds or seconds.
abbrev pub Duration : Type 0
Duration = ℕ

abbrev pub as_secs : Duration → ℕ
as_secs d = d / 1000

pub record Slot : Type 0 where
  pub epoch : ℕ
  pub slot : ℕ

pub record SubSlot : Type 0 where
  pub slot : Slot
  pub sub_slot : ℕ

pub record SlotModel : Type 0 where
  pub genesis_timestamp : ℕ
  pub slot_duration : Duration
  pub epoch_duration : Duration

-- `none` is the panic of a division by a duration below one second.
unfoldable pub get_slot : SlotModel → ℕ → Option Slot
get_slot m timestamp = do
  let diff = sub64 timestamp m.genesis_timestamp
  epoch ← div? diff (as_secs m.epoch_duration)
  in_epoch ← mod? diff (as_secs m.epoch_duration)
  slot ← div? in_epoch (as_secs m.slot_duration)
  some (record { epoch = epoch; slot = slot })

unfoldable pub slots_per_epoch : SlotModel → Option ℕ
slots_per_epoch m = div? (as_secs m.epoch_duration) (as_secs m.slot_duration)

unfoldable pub get_slot_number : SlotModel → Slot → Option ℕ
unfolding slots_per_epoch
get_slot_number m s = do
  per_epoch ← slots_per_epoch m
  some (add64 (mul64 s.epoch per_epoch) s.slot)

unfoldable pub get_timestamp : SlotModel → Slot → Option ℕ
unfolding get_slot_number
get_timestamp m s = do
  slot_number ← get_slot_number m s
  some (add64 m.genesis_timestamp (mul64 (as_secs m.slot_duration) slot_number))

-- ===== src/Handover.antt =====
-- preconfirmation/src/preconf/slot_model.rs: which slots a preconfer may build and confirm in.
pub mod Windows
use taiko_preconfer.Prelude.{
  ℕ, Bool, false, not, ◌&&◌, ◌||◌, Option, none, some, leb, ◌==◌, add64, sub64,
}
use taiko_preconfer.Clock.{Slot}

pub record SlotModel : Type 0 where
  pub active_epoch : Option ℕ
  pub handover_slots : ℕ
  pub slots_per_epoch : ℕ

unfoldable pub new : ℕ → ℕ → SlotModel
new handover_slots slots_per_epoch = record {
  active_epoch = none;
  handover_slots = handover_slots;
  slots_per_epoch = slots_per_epoch;
}

unfoldable pub set_active_epoch : SlotModel → ℕ → SlotModel
set_active_epoch m epoch = record m { active_epoch = some epoch }

unfoldable pub within_handover_period : SlotModel → ℕ → Bool
within_handover_period m slot = leb (sub64 m.slots_per_epoch m.handover_slots) slot

unfoldable pub can_preconfirm : SlotModel → Slot → Bool
unfolding within_handover_period
can_preconfirm m s = elim m.active_epoch [
  | some active ↦
      (add64 s.epoch 1 == active && within_handover_period m s.slot)
      || (s.epoch == active && not (within_handover_period m s.slot))
  | none ↦ false
]

unfoldable pub can_confirm : SlotModel → Slot → Bool
can_confirm m s = elim m.active_epoch [ some active ↦ s.epoch == active | none ↦ false ]

unfoldable pub is_first_preconfirmation_slot : SlotModel → Slot → Bool
is_first_preconfirmation_slot m s = elim m.active_epoch [
  | some next ↦ add64 s.epoch 1 == next && s.slot == sub64 m.slots_per_epoch m.handover_slots
  | none ↦ false
]

unfoldable pub is_handover_start_slot : SlotModel → ℕ → Bool
is_handover_start_slot m slot = slot == sub64 m.slots_per_epoch m.handover_slots

unfoldable pub is_last_slot_before_handover_window : SlotModel → ℕ → Bool
is_last_slot_before_handover_window m slot =
    slot == sub64 (sub64 m.slots_per_epoch m.handover_slots) 1

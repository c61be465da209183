-- ===== src/Loops/Waiting.antt =====
-- taiko-preconfer/src/preconfirmation_loop.rs: the wait for the previous preconfer.
use taiko_preconfer.Prelude.{
  ℕ, ◌+◌, ◌*◌, ◌<◌, ◌≡◌, inl, inr, refl, arith, true, false, Option, none, some, [], ◌==◌,
  Bool-cases, u64_mod, add64, mul64, sub64, div?, ◌>>=◌,
}
use taiko_preconfer.Clock.{Slot, as_secs, get_slot, get_timestamp}
use taiko_preconfer.Handover.{SlotModel, is_first_preconfirmation_slot}
use taiko_preconfer.Loops.{Config, Duty, Position, locate, must_wait}
use taiko_preconfer.Loops.Preconfirm.{waits}

>>=-some :
    {A B : Type 0} (first : Option A) (rest : A → Option B) {result : B}
    → (first >>= rest) ≡ some result
    → (value : A) × (first ≡ some value) × (rest value ≡ some result)
>>=-some none rest h = cc
>>=-some (some value) rest h = (value, refl, h)

locate_lem :
    (c : Config) (timestamp : ℕ) (p : Position)
    → locate c timestamp ≡ some p
    → (p.subslot ≡ add64 (mul64 p.slot.slot p.subslots_per_slot) p.subslot_in_slot)
      × (0 < p.subslots_per_slot)
unfolding locate
locate_lem c timestamp p h =
    let (per_slot, _, h1) =
      >>=-some (div? (as_secs c.slot_model.slot_duration) (as_secs c.l2_slot_duration)) _ h in
    let (slot, _, h2) = >>=-some (get_slot c.slot_model timestamp) _ h1 in
    let (slot_start, _, h3) = >>=-some (get_timestamp c.slot_model slot) _ h2 in
    let (width, positive, h4) =
      >>=-some (div? (as_secs c.slot_model.slot_duration) per_slot) _ h3 in
    let (in_slot, _, h5) = >>=-some (div? (sub64 timestamp slot_start) width) _ h4 in
    (ground arith, ground arith)

late_slot :
    (m : SlotModel) (slot : Slot)
    → 0 < m.handover_slots
    → m.handover_slots < m.slots_per_epoch
    → m.slots_per_epoch < u64_mod
    → is_first_preconfirmation_slot m slot ≡ true
    → 0 < slot.slot
unfolding is_first_preconfirmation_slot
late_slot m slot pos short fits h = ground arith

product_pos : (a b : ℕ) → 0 < a → 0 < b → 0 < a * b
product_pos a b p q = grind arith

-- With a handover of at least one slot that is shorter than an epoch, an iteration never starts the
-- wait for the previous preconfer, at whatever time it runs: the first preconfirmation slot is not
-- the first slot of an epoch. The L2 slots of an epoch are assumed to be counted without overflow.
pub waits_never :
    (c : Config) (timestamp : ℕ) (p : Position) (d : Duty)
    → locate c timestamp ≡ some p
    → 0 < d.windows.handover_slots
    → d.windows.handover_slots < d.windows.slots_per_epoch
    → d.windows.slots_per_epoch < u64_mod
    → p.slot.slot * p.subslots_per_slot + p.subslot_in_slot < u64_mod
    → waits p d ≡ []
unfolding waits must_wait
waits_never c timestamp p d e pos short fits counted =
    let (number, several) = locate_lem c timestamp p e in
    elim (Bool-cases (is_first_preconfirmation_slot d.windows p.slot)) [
      | inl first ↦
          let late = product_pos _ _ (late_slot d.windows p.slot pos short fits first) several in
          let later : (p.subslot == 0) ≡ false = ground (arith, late, number, counted) in
          rw (first, later) refl
      | inr other ↦ rw other refl
    ]

-- ===== src/Handover/Windows.antt =====
-- preconfirmation/src/preconf/slot_model.rs: the windows of an active epoch, over the slots numbered
-- without a break from one epoch to the next.
use native.Mathlib.Decide.{dec_lt}
use taiko_preconfer.Prelude.{
  ℕ, ◌+◌, ◌*◌, ◌≤◌, ◌<◌, ◌≡◌, ap, ◌↔◌, ◌⊎◌, inl, inr, true, some, arith, u64_mod,
}
use taiko_preconfer.Clock.{Slot}
use taiko_preconfer.Handover.{
  SlotModel, can_preconfirm, is_first_preconfirmation_slot, is_last_slot_before_handover_window,
}

-- The handover lasts at most an epoch, and numbers fit their words.
pub record IsValid (m : SlotModel) : Type 0 where
  pub handover_le : m.handover_slots ≤ m.slots_per_epoch
  pub fits : m.slots_per_epoch < u64_mod

-- The number of a slot, counted from the first slot of epoch 0.
abbrev pub number : SlotModel → Slot → ℕ
number m s = s.epoch * m.slots_per_epoch + s.slot

-- The window of the active epoch `a`: as long as an epoch, begun `handover_slots` early.
abbrev pub InWindow : SlotModel → ℕ → ℕ → Type 0
InWindow m a n =
    (a * m.slots_per_epoch ≤ n + m.handover_slots)
    × (n + m.handover_slots < a * m.slots_per_epoch + m.slots_per_epoch)

-- An epoch further on is a whole epoch's slots further on.
next_epoch : (a b k : ℕ) → a < b → a * k + k ≤ b * k
next_epoch a b k h = grind arith

epoch_of :
    (a e k t h : ℕ)
    → t < k
    → h ≤ k
    → a * k ≤ e * k + t + h
    → e * k + t + h < a * k + k
    → (a ≡ e) ⊎ (a ≡ e + 1)
epoch_of a e k t h p q lo hi = elim (dec_lt a e) [
  | yes before ↦ absurd (omega (arith, next_epoch a e k before))
  | no late ↦ elim (dec_lt (e + 1) a) [
    | yes after ↦ absurd (omega (arith, next_epoch (e + 1) a k after))
    | no soon ↦ grind arith
  ]
]

-- `can_preconfirm` with the active epoch read.
can_preconfirm_cases :
    (m : SlotModel) (a : ℕ) (s : Slot)
    → IsValid m
    → m.active_epoch ≡ some a
    → s.epoch + 1 < u64_mod
    → (can_preconfirm m s ≡ true) ↔ (
        ((a ≡ s.epoch + 1) × (m.slots_per_epoch ≤ s.slot + m.handover_slots))
        ⊎ ((a ≡ s.epoch) × (s.slot + m.handover_slots < m.slots_per_epoch)))
unfolding can_preconfirm
can_preconfirm_cases m a s v active fits = (λ c. ground arith, λ c. ground arith)

module _ (m : SlotModel) (v : IsValid m) (a : ℕ) (active : m.active_epoch ≡ some a) (s : Slot)
    (in_epoch : s.slot < m.slots_per_epoch) (fits : s.epoch + 1 < u64_mod) where
  in_window : can_preconfirm m s ≡ true → InWindow m a (number m s)
  in_window c = elim ((can_preconfirm_cases m a s v active fits).0 c) [
    | inl (e, h) ↦ rw e (omega (arith, v.handover_le), omega (arith, v.handover_le))
    | inr (e, h) ↦ rw e (omega arith, omega arith)
  ]

  may_preconfirm : InWindow m a (number m s) → can_preconfirm m s ≡ true
  may_preconfirm w =
      (can_preconfirm_cases m a s v active fits).1
        (elim (epoch_of a s.epoch m.slots_per_epoch s.slot m.handover_slots in_epoch v.handover_le
          w.0 w.1) [
            | inl e ↦ inr (e, omega (arith, w, ap (λ (t : ℕ). t * m.slots_per_epoch) e))
            | inr e ↦ inl (e, omega (arith, w, ap (λ (t : ℕ). t * m.slots_per_epoch) e))
          ])

  -- May preconfirm exactly inside the window.
  pub can_preconfirm_iff : (can_preconfirm m s ≡ true) ↔ InWindow m a (number m s)
  can_preconfirm_iff = (in_window, may_preconfirm)

  is_first_cases :
      (is_first_preconfirmation_slot m s ≡ true)
      ↔ ((a ≡ s.epoch + 1) × (s.slot + m.handover_slots ≡ m.slots_per_epoch))
  unfolding is_first_preconfirmation_slot
  is_first_cases = (λ c. ground (arith, v.handover_le, v.fits), λ c. ground (arith, v.fits))

  -- With a handover of at least one slot a window's first slot is the first one of a handover.
  pub is_first_preconfirmation_slot_iff :
      0 < m.handover_slots
      → (is_first_preconfirmation_slot m s ≡ true)
        ↔ (number m s + m.handover_slots ≡ a * m.slots_per_epoch)
  is_first_preconfirmation_slot_iff p =
      let from : (a ≡ s.epoch + 1) → a * m.slots_per_epoch ≡ (s.epoch + 1) * m.slots_per_epoch =
        λ e. ap (λ (t : ℕ). t * m.slots_per_epoch) e in
      (
        λ c. let parts = is_first_cases.0 c in omega (arith, from parts.0, parts.1),
        λ e.
            is_first_cases.1
              (elim (epoch_of a s.epoch m.slots_per_epoch s.slot m.handover_slots in_epoch
                v.handover_le (omega (arith, e)) (omega (arith, e))) [
                  | inl now ↦ absurd (omega (arith, e, ap (λ (t : ℕ). t * m.slots_per_epoch) now))
                  | inr soon ↦ (soon, omega (arith, e, from soon))
                ]),
      )

  -- With a handover shorter than an epoch the last slot before the handover of the active epoch is
  -- the last slot of the window.
  pub is_last_slot_before_handover_window_iff :
      m.handover_slots < m.slots_per_epoch
      → s.epoch ≡ a
      → (is_last_slot_before_handover_window m s.slot ≡ true)
        ↔ (number m s + m.handover_slots + 1 ≡ a * m.slots_per_epoch + m.slots_per_epoch)
  unfolding is_last_slot_before_handover_window
  is_last_slot_before_handover_window_iff h e =
      let same = ap (λ (t : ℕ). t * m.slots_per_epoch) e in
      (λ c. ground (arith, same, v.fits), λ c. ground (arith, same, v.fits))

-- Two preconfers with the same windows never may build in the same slot, unless they have the same
-- active epoch.
pub can_preconfirm_exclusive :
    (m n : SlotModel) (s : Slot)
    → m.handover_slots ≡ n.handover_slots
    → m.slots_per_epoch ≡ n.slots_per_epoch
    → can_preconfirm m s ≡ true
    → can_preconfirm n s ≡ true
    → m.active_epoch ≡ n.active_epoch
unfolding can_preconfirm
can_preconfirm_exclusive m n s h k c d = ground arith

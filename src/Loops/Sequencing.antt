-- ===== src/Loops/Sequencing.antt =====
-- taiko-preconfer/src/preconfirmation_loop.rs: the flag for the end of sequencing, as a time.
use native.Mathlib.Decide.{dec_lt}
use native.Mathlib.Nat.{mul-add-mod_self_right, mod-eq_of_lt}
use taiko_preconfer.Prelude.{
  ℕ, ◌+◌, ◌*◌, ◌≤◌, ◌<◌, ◌≡◌, ap, ◌∙◌, ◌↔◌, arith, true, some, u64_mod, mod?, mod?_pos,
}
use taiko_preconfer.Clock.{as_secs}
use taiko_preconfer.Clock.RoundTrip.{IsValid}
use taiko_preconfer.Handover.{is_last_slot_before_handover_window}
use taiko_preconfer.Loops.{Config, Duty, Position, is_end_of_sequencing}
use taiko_preconfer.Loops.Location.{IsDivided, IsLocated}

next_multiple : (a b x : ℕ) → a < b → a * x + x ≤ b * x
next_multiple a b x h = grind arith

-- `a` whole units and a part `p` of at most one unit make `b` whole units only if the part is a unit.
whole_part : (a b p x : ℕ) → 0 < p → p ≤ x → a * x + p ≡ b * x → (a + 1 ≡ b) × (p ≡ x)
whole_part a b p x pos le h = elim (dec_lt a b) [
  | no late ↦ absurd (let more = upto a b x (omega arith) in omega arith)
  | yes less ↦ elim (dec_lt (a + 1) b) [
    | yes far ↦ absurd (
        let one = next_multiple (a + 1) b x far in
        let two : (a + 1) * x ≡ a * x + x = omega arith in omega arith)
    | no near ↦
        let same : a + 1 ≡ b = omega arith in
        let two = ap (λ (t : ℕ). t * x) same in (same, omega arith)
  ]
]
  where
    upto : (a b x : ℕ) → b ≤ a → b * x ≤ a * x
    upto a b x h = grind arith

-- A handover of fewer slots than an epoch has, in the same epochs as the slots.
pub record HasHandover (k : ℕ) (d : Duty) : Type 0 where
  pub epoch_lem : d.windows.slots_per_epoch ≡ k
  pub shorter : d.windows.handover_slots < k

-- The L2 slot of the position ends where the last `handover_slots` slots of its epoch begin.
abbrev pub EndsAtHandover : Config → Position → Duty → Type 0
EndsAtHandover c p d =
    p.slot_timestamp
      + as_secs c.l2_slot_duration
      + d.windows.handover_slots * as_secs c.slot_model.slot_duration
    ≡ c.slot_model.genesis_timestamp + (p.slot.epoch + 1) * as_secs c.slot_model.epoch_duration

module _ (c : Config) (k n : ℕ) (valid : IsValid c.slot_model k) (divided : IsDivided c n)
    (k_fits : k < u64_mod) (n_fits : n < u64_mod) (timestamp : ℕ) (p : Position)
    (l : IsLocated c k n valid divided timestamp p) (d : Duty) (h : HasHandover k d) where
  -- The last L2 slot of the last slot before the handover.
  abbrev IsLast : Type 0
  IsLast = (p.slot.slot + d.windows.handover_slots + 1 ≡ k) × (p.subslot_in_slot + 1 ≡ n)

  is_last_iff : (is_end_of_sequencing p d ≡ true) ↔ IsLast
  unfolding is_end_of_sequencing is_last_slot_before_handover_window
  is_last_iff =
      let in_slot : mod? p.subslot p.subslots_per_slot ≡ some p.subslot_in_slot =
        rw (l.number, l.per_slot_lem, mod?_pos _ n divided.several)
          (ap some
            (mul-add-mod_self_right p.slot.slot n p.subslot_in_slot ∙ mod-eq_of_lt l.subslot_lt)) in
      rw (in_slot, l.per_slot_lem, h.epoch_lem)
        (
          λ e. (ground (arith, h.shorter, divided.several), ground (arith, divided.several)),
          λ e. ground (arith, h.shorter, divided.several),
        )

  time_iff : IsLast ↔ EndsAtHandover c p d
  time_iff =
      let l2 = as_secs c.l2_slot_duration in
      let unit = n * l2 in
      let slots = divided.divided in
      let epochs = valid.whole in
      let e = p.slot.epoch in
      let t = p.slot.slot in
      let q = p.subslot_in_slot in
      let hand = d.windows.handover_slots in
      let start : p.slot_timestamp ≡ c.slot_model.genesis_timestamp + unit * (e * k + t) + q * l2 =
        l.starts
        ∙ ap (λ (s : ℕ). c.slot_model.genesis_timestamp + s * (e * k + t) + q * l2) slots in
      let epoch : as_secs c.slot_model.epoch_duration ≡ k * unit =
        epochs ∙ ap (λ (s : ℕ). k * s) slots in
      rw (start, slots, epoch)
        (
          λ (a, b).
              let left = ap (λ (x : ℕ). x * unit) a in
              let right = ap (λ (x : ℕ). x * l2) b in omega (arith, left, right),
          λ same.
              let part : (t + hand) * unit + (q + 1) * l2 ≡ k * unit = omega (arith, same) in
              let some_part : 0 < (q + 1) * l2 = grind (arith, divided.l2_pos) in
              let at_most : (q + 1) * l2 ≤ unit = grind (arith, l.subslot_lt) in
              let (a, b) = whole_part (t + hand) k ((q + 1) * l2) unit some_part at_most part in
              let none_left : q * l2 + l2 ≡ 0 * l2 + n * l2 = omega (arith, b) in
              (omega (arith, a), last q n l2 divided.l2_pos l.subslot_lt b),
        )
    where
      last : (q n l2 : ℕ) → 0 < l2 → q < n → (q + 1) * l2 ≡ n * l2 → q + 1 ≡ n
      last q n l2 pos lt same = elim (dec_lt (q + 1) n) [
        | yes less ↦ absurd (let more = next_multiple (q + 1) n l2 less in omega arith)
        | no near ↦ omega arith
      ]

  pub is_end_of_sequencing_iff : (is_end_of_sequencing p d ≡ true) ↔ EndsAtHandover c p d
  is_end_of_sequencing_iff = (λ e. time_iff.0 (is_last_iff.0 e), λ e. is_last_iff.1 (time_iff.1 e))

-- ===== src/Loops/Safety.antt =====
-- taiko-preconfer/src/preconfirmation_loop.rs and taiko-preconfer/src/confirmation_loop.rs: when a
-- block is built and when a batch is sent.
use taiko_preconfer.Prelude.{
  ℕ, ◌+◌, ◌*◌, ◌≤◌, ◌<◌, ◌≡◌, ◌↔◌, all, length, ◌==◌, u64_mod, ◌⊎◌, inl, inr, refl, arith, Bool,
  true, false, ◌&&◌, Option, some, List, [], ◌∷◌, ◌++◌, Bool-cases, Option-cases, All, All-append,
  subst,
}
use taiko_preconfer.Prelude.Outcome.{Outcome, ok, >>=-eq-ok}
use taiko_preconfer.Clock.{Slot, as_secs, get_slot}
use taiko_preconfer.Clock.RoundTrip
use taiko_preconfer.Handover.{
  set_active_epoch, within_handover_period, can_preconfirm, can_confirm,
  is_last_slot_before_handover_window,
}
use taiko_preconfer.Handover.Windows
use taiko_preconfer.Handover.Windows.{number, InWindow, can_preconfirm_iff}
use taiko_preconfer.Whitelist.{Address, ActiveOperator, is_current_and_next}
use taiko_preconfer.Anchor.{ValidAnchor, AnchorHeader, id_and_state_root}
use taiko_preconfer.Loops.{
  Config, Duty, Position, SendCall, enter, may_build, must_wait, is_end_of_sequencing, activate,
  enter_slot, may_confirm, confirmation_step,
}
use taiko_preconfer.Loops.Location.{IsDivided, IsLocated, locate-IsLocated}
use taiko_preconfer.Loops.Sequencing.{EndsAtHandover, HasHandover, is_end_of_sequencing_iff}
use taiko_preconfer.Loops.Preconfirm.{
  Action, wait_for_previous, build_block, Reads, waits, refresh_anchor, work, preconfirmation_step,
}

-- The slot lies in the window of the active epoch.
abbrev pub IsInWindow : Position → Duty → Type 0
IsInWindow p d =
    (a : ℕ) × (d.windows.active_epoch ≡ some a) × InWindow d.windows a (number d.windows p.slot)

-- The preconfer is the operator of both epochs that are known.
abbrev pub IsOnlyOperator : Config → Duty → Type 0
IsOnlyOperator c d =
    (length d.whitelist.operators ≡ 2)
    × All (λ (o : ActiveOperator). o.operator ≡ c.preconfer_address) d.whitelist.operators

-- A block is built at the position's timestamp, by a preconfer that may, and its flag says whether its L2
-- slot ends where the handover begins.
abbrev pub IsLegal : Config → Position → Duty → Action → Type 0
IsLegal c p d wait_for_previous = Unit
IsLegal c p d (build_block timestamp end_of_sequencing) =
    (timestamp ≡ p.slot_timestamp)
    × (IsInWindow p d ⊎ IsOnlyOperator c d)
    × ((end_of_sequencing ≡ true) ↔ EndsAtHandover c p d)

waits-IsLegal : (c : Config) (p : Position) (d e : Duty) → All (IsLegal c p e) (waits p d)
unfolding waits
waits-IsLegal c p d e = elim (Bool-cases (must_wait p d)) [
  | inl t ↦ rw t (tt, tt)
  | inr t ↦ rw t tt
]

all_operators :
    (preconfer : Address) (os : List ActiveOperator)
    → all (λ o. o.operator == preconfer) os ≡ true
    → All (λ (o : ActiveOperator). o.operator ≡ preconfer) os
all_operators preconfer [] h = tt
all_operators preconfer (o ∷ os) h = (ground arith, all_operators preconfer os (ground arith))

only_operator :
    (c : Config) (d : Duty)
    → is_current_and_next d.whitelist c.preconfer_address ≡ true
    → IsOnlyOperator c d
unfolding is_current_and_next
only_operator c d h =
    (ground arith, all_operators c.preconfer_address d.whitelist.operators (ground arith))

in_window :
    (p : Position) (d : Duty)
    → Windows.IsValid d.windows
    → p.slot.slot < d.windows.slots_per_epoch
    → p.slot.epoch + 1 < u64_mod
    → can_preconfirm d.windows p.slot ≡ true
    → IsInWindow p d
unfolding can_preconfirm
in_window p d v lt fits h = elim (Option-cases d.windows.active_epoch) [
  | inl e ↦ absurd (let never = rw (e, can_preconfirm) at h in cc)
  | inr (a, e) ↦ (a, e, (can_preconfirm_iff d.windows v a e p.slot lt fits).0 h)
]

enter-HasHandover :
    (c : Config) (p : Position) (d : Duty) (k : ℕ) → HasHandover k d → HasHandover k (enter c p d)
unfolding enter activate set_active_epoch
enter-HasHandover c p d k h = record {
  epoch_lem = ground (arith, h.epoch_lem);
  shorter = ground (arith, h.shorter);
}

le_mul : (a b : ℕ) → 0 < b → a ≤ a * b
le_mul a b h = grind arith

module _ (c : Config) (k n : ℕ) (valid : RoundTrip.IsValid c.slot_model k) (divided : IsDivided c n)
    (timestamp : ℕ) (fits : timestamp + as_secs c.slot_model.epoch_duration < u64_mod) where
  k_fits : k < u64_mod
  k_fits =
      omega (arith, fits, valid.whole, le_mul k (as_secs c.slot_model.slot_duration) valid.slot_pos)

  n_fits : n < u64_mod
  n_fits =
      let one = le_mul n (as_secs c.l2_slot_duration) divided.l2_pos in
      let two : as_secs c.slot_model.slot_duration ≤ as_secs c.slot_model.slot_duration * k =
        le_mul (as_secs c.slot_model.slot_duration) k valid.epoch_pos in
      omega (arith, fits, valid.whole, divided.divided, one, two)

  epoch_fits :
      (p : Position) → IsLocated c k n valid divided timestamp p → p.slot.epoch + 1 < u64_mod
  epoch_fits p l =
      let s = as_secs c.slot_model.slot_duration in
      let one = le_mul p.slot.epoch k valid.epoch_pos in
      let two : p.slot.epoch * k + p.slot.slot ≤ (p.slot.epoch * k + p.slot.slot) * s =
        le_mul (p.slot.epoch * k + p.slot.slot) s valid.slot_pos in
      let three : k ≤ k * s = le_mul k s valid.slot_pos in
      omega (arith, fits, valid.whole, valid.epoch_pos, l.starts, l.below, one, two, three)

  built-IsLegal :
      (p : Position) (d : Duty)
      → IsLocated c k n valid divided timestamp p
      → HasHandover k d
      → may_build c p d ≡ true
      → IsLegal c p d (build_block p.slot_timestamp (is_end_of_sequencing p d))
  unfolding may_build
  built-IsLegal p d l h allowed = (
    refl,
    elim (Bool-cases (can_preconfirm d.windows p.slot)) [
      | inl e ↦ inl (
          in_window p d
            (record {
              handover_le = omega (arith, h.epoch_lem, h.shorter);
              fits = omega (arith, h.epoch_lem, k_fits);
            })
            (omega (arith, h.epoch_lem, l.slot_lt)) (epoch_fits p l) e)
      | inr e ↦ inr (only_operator c d (ground arith))
    ],
    is_end_of_sequencing_iff c k n valid divided k_fits n_fits timestamp p l d h,
  )

  module _ {E : Type 0} (get_header_by_id : ℕ → Outcome E AnchorHeader) (r : Reads)
      (anchor : ValidAnchor) where
    work-IsLegal :
        (p : Position) (d : Duty) (after : Duty) (anchor' : ValidAnchor) (actions : List Action)
        → IsLocated c k n valid divided timestamp p
        → HasHandover k d
        → work get_header_by_id c r p d anchor ≡ ok (after, anchor', actions)
        → All (IsLegal c p d) actions
    unfolding work
    work-IsLegal p d after anchor' actions l hand h = elim (Bool-cases (may_build c p d)) [
      | inl allowed ↦
          let go = rw (allowed, work) at h in
          let (updated, _, done) =
            >>=-eq-ok (refresh_anchor get_header_by_id c p d.windows anchor) _ go in
          let block = built-IsLegal p d l hand allowed in
          let quiet = waits-IsLegal c p d d in
          elim (Bool-cases (r.waiting_later && r.skip_slot)) [
            | inl e ↦
                let all = rw e at done in
                let same : waits p d ≡ actions = ground arith in
                subst (All (IsLegal c p d)) same quiet
            | inr e ↦
                let all = rw e at done in
                let same : waits p d ++ build_block p.slot_timestamp (is_end_of_sequencing p d) ∷ []
                    ≡ actions =
                  ground arith in
                subst (All (IsLegal c p d)) same
                  (All-append (IsLegal c p d) (waits p d) _ quiet (block, tt))
          ]
      | inr denied ↦
          let go = rw (denied, work) at h in
          let same : [] ≡ actions = ground arith in subst (All (IsLegal c p d)) same tt
    ]

    -- Let L1 slots and epochs be whole numbers of L2 slots and slots, the handover be shorter than an
    -- epoch, and the timestamp lie past the genesis and an epoch below 2^64. If an iteration does not
    -- fail, whatever it reads, it finds the L2 slot that holds the timestamp. A block that it builds is
    -- built at the start of that L2 slot, in the window of the active epoch or by the operator of both
    -- known epochs; and it is flagged as the end of sequencing exactly if its L2 slot ends where the
    -- epoch's handover begins.
    pub preconfirmation_step-IsLegal :
        (d after : Duty) (anchor' : ValidAnchor) (actions : List Action)
        → HasHandover k d
        → c.slot_model.genesis_timestamp ≤ timestamp
        → preconfirmation_step get_header_by_id c r timestamp d anchor
          ≡ ok (after, anchor', actions)
        → (p : Position) × IsLocated c k n valid divided timestamp p
          × All (IsLegal c p (enter c p d)) actions
    unfolding preconfirmation_step
    preconfirmation_step-IsLegal d after anchor' actions hand g h =
        let (p, l) = locate-IsLocated c k n valid divided timestamp g (omega (arith, fits)) in
        let go = rw (l.located, preconfirmation_step) at h in
        elim (Bool-cases r.waiting) [
          | inl w ↦
              let idle = rw w at go in
              let same : [] ≡ actions = ground arith in
              (p, l, subst (All (IsLegal c p (enter c p d))) same tt)
          | inr w ↦ (
            p,
            l,
            work-IsLegal p (enter c p d) after anchor' actions l (enter-HasHandover c p d k hand)
                (rw w at go),
          )
        ]

may_confirm_lem :
    (c : Config) (slot : Slot) (d : Duty)
    → may_confirm c slot d ≡ true
    → ((d.windows.active_epoch ≡ some slot.epoch)
        ⊎ (is_current_and_next d.whitelist c.preconfer_address ≡ true))
      × (is_last_slot_before_handover_window d.windows slot.slot ≡ false)
unfolding may_confirm can_confirm
may_confirm_lem c slot d h = ground arith

-- A call of `send` is made in the active epoch, or by the operator of both epochs, and not in the last
-- slot before the handover, which is left for the next preconfer; it is forced in the handover.
pub confirmation_step_sends :
    (c : Config) (waiting : Bool) (next : Option ℕ) (timestamp : ℕ) (anchor : ValidAnchor)
    (latest : ℕ) (d after : Duty) (call : SendCall)
    → confirmation_step c waiting next timestamp anchor latest d ≡ some (after, some call)
    → (slot : Slot) × (get_slot c.slot_model timestamp ≡ some slot)
      × (waiting ≡ false)
      × (((enter_slot c slot d).windows.active_epoch ≡ some slot.epoch)
          ⊎ (is_current_and_next (enter_slot c slot d).whitelist c.preconfer_address ≡ true))
      × (is_last_slot_before_handover_window (enter_slot c slot d).windows slot.slot ≡ false)
      × (call.force_send ≡ within_handover_period (enter_slot c slot d).windows slot.slot)
      × (call.current_anchor_id ≡ anchor.current_anchor.id)
unfolding confirmation_step id_and_state_root
confirmation_step_sends c waiting next timestamp anchor latest d after call h =
    elim (Option-cases (get_slot c.slot_model timestamp)) [
      | inl e ↦ absurd (let stuck = rw (e, confirmation_step) at h in cc)
      | inr (slot, e) ↦
          let go = rw (e, confirmation_step) at h in
          elim (Bool-cases waiting) [
            | inl w ↦ absurd (let idle = rw w at go in ground arith)
            | inr w ↦
                let busy = rw w at go in
                elim (Bool-cases (may_confirm c slot (enter_slot c slot d))) [
                  | inl m ↦
                      let sent = rw m at busy in
                      let (duty, before) = may_confirm_lem c slot (enter_slot c slot d) m in
                      (slot, e, w, duty, before, ground arith, ground arith)
                  | inr m ↦ absurd (let quiet = rw m at busy in ground arith)
                ]
          ]
    ]

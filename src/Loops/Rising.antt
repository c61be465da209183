-- ===== src/Loops/Rising.antt =====
-- taiko-preconfer/src/preconfirmation_loop.rs, `run`: the sleep at the end of an iteration keeps the loop
-- from building two blocks for an L2 slot.
use native.Mathlib.Decide.{dec_lt}
use native.Mathlib.Nat.{div-add-mod}
use taiko_preconfer.Prelude.{
  ℕ, ◌+◌, ◌*◌, ◌/◌, ◌%◌, ◌≤◌, ◌<◌, ◌≡◌, ◌⊎◌, inl, inr, subst, sym, ◌∙◌, ap, arith, true, false,
  some, List, [], ◌∷◌, ◌++◌, All, All-map, Sorted,
}
use taiko_preconfer.Prelude.Outcome.{Outcome, ok, map_err, map_err-eq-ok, >>=-eq-ok, ok_injective}
use taiko_preconfer.Clock.{as_secs, Duration}
use taiko_preconfer.Clock.RoundTrip.{IsValid}
use taiko_preconfer.Clock.Wakeup.{
  TryFromIntError, remaining_until_next_slot, remaining_until_next_slot-aligned,
  remaining_until_next_slot_fits,
}
use taiko_preconfer.Anchor.{ValidAnchor, AnchorHeader, update_block_number}
use taiko_preconfer.Loops.{Config, Duty, Position, locate, enter}
use taiko_preconfer.Loops.Location.{IsDivided, IsLocated, locate-IsLocated}
use taiko_preconfer.Loops.Preconfirm.{Action, Reads, preconfirmation_step}
use taiko_preconfer.Loops.Runs.{
  Event, iteration, l1_block, continues, pause, preconfirmation_run, built, built-append,
  step-AtMost,
}

next_multiple : (a b x : ℕ) → a < b → a * x + x ≤ b * x
next_multiple a b x h = grind arith

multiple_le : (a b x : ℕ) → a ≤ b → a * x ≤ b * x
multiple_le a b x h = grind arith

next_after : (a b x : ℕ) → a * x < b * x → a * x + x ≤ b * x
next_after a b x h = elim (dec_lt a b) [
  | yes less ↦ next_multiple a b x less
  | no late ↦ absurd (let back = multiple_le b a x (omega arith) in omega arith)
]

-- Iterations take at least a millisecond.
abbrev pub TakesTime : {E : Type 0} → Event E → Type 0
TakesTime (l1_block number) = Unit
TakesTime (iteration late busy r g) = 0 < busy

-- The sleeps are as long as L2 slots, which last whole seconds and are counted from the genesis.
pub record IsAligned (c : Config) : Type 0 where
  pub whole : c.l2_slot_duration ≡ as_secs c.l2_slot_duration * 1000
  pub genesis : c.slot_model.genesis_timestamp % as_secs c.l2_slot_duration ≡ 0

module _ (c : Config) (k n : ℕ) (valid : IsValid c.slot_model k) (divided : IsDivided c n)
    (aligned : IsAligned c) where
  -- The start of an L2 slot is a multiple of its length.
  starts_lem :
      (timestamp : ℕ) (p : Position)
      → IsLocated c k n valid divided timestamp p
      → (m : ℕ) × (p.slot_timestamp ≡ m * as_secs c.l2_slot_duration)
  starts_lem timestamp p l =
      let l2 = as_secs c.l2_slot_duration in
      let slots = p.slot.epoch * k + p.slot.slot in
      let g = c.slot_model.genesis_timestamp in
      let exact : g ≡ l2 * (g / l2) =
        let whole = div-add-mod g l2 in let none_left = aligned.genesis in omega arith in
      let start : p.slot_timestamp ≡ g + (n * l2) * slots + p.subslot_in_slot * l2 =
        l.starts ∙ ap (λ (s : ℕ). g + s * slots + p.subslot_in_slot * l2) divided.divided in
      (g / l2 + n * slots + p.subslot_in_slot, omega (arith, exact, start))

  -- A sleep after an iteration in an L2 slot ends in a later L2 slot.
  sleep_lem :
      (start busy rest : ℕ) (p : Position)
      → IsLocated c k n valid divided (start / 1000) p
      → 0 < busy
      → remaining_until_next_slot c.l2_slot_duration (start + busy) ≡ ok rest
      → (p.slot_timestamp + as_secs c.l2_slot_duration) * 1000 ≤ start + busy + rest
  sleep_lem start busy rest p l pos h =
      let unit = as_secs c.l2_slot_duration * 1000 in
      let positive : 0 < c.l2_slot_duration = omega (arith, aligned.whole, divided.l2_pos) in
      let (slept, computed, _, even) =
        remaining_until_next_slot-aligned c.l2_slot_duration (start + busy) positive
          (remaining_until_next_slot_fits c.l2_slot_duration (start + busy) rest h) in
      let same : slept ≡ rest = ok_injective slept rest (sym computed ∙ h) in
      let wake = start + busy + rest in
      let over : wake % unit ≡ 0 =
        subst (λ (u : ℕ). wake % u ≡ 0) aligned.whole
          (subst (λ (r : ℕ). (start + busy + r) % c.l2_slot_duration ≡ 0) same even) in
      let whole : wake ≡ wake / unit * unit =
        let split = div-add-mod wake unit in omega (arith, over, split) in
      let (m, begins) = starts_lem (start / 1000) p l in
      let past : m * unit < wake / unit * unit = omega (arith, begins, l.below, whole, pos) in
      let next = next_after m (wake / unit) unit past in omega (arith, begins, whole, next)

  -- No block was built, or one for an L2 slot that ends after `now` and before the next iteration.
  abbrev IsOne : ℕ → ℕ → List Action → Type 0
  IsOne now next actions =
      (built actions ≡ [])
      ⊎ ((b : ℕ) × (built actions ≡ b ∷ [])
          × (now < (b + as_secs c.l2_slot_duration) * 1000)
          × ((b + as_secs c.l2_slot_duration) * 1000 ≤ next))

  abbrev After : ℕ → ℕ → Type 0
  After now b = now < (b + as_secs c.l2_slot_duration) * 1000

  pause_lem :
      (r : Reads) (timestamp end_ms rest : ℕ) (d : Duty) (p : Position)
      → locate c timestamp ≡ some p
      → continues c r p (enter c p d) ≡ false
      → pause c r timestamp end_ms d ≡ ok rest
      → remaining_until_next_slot c.l2_slot_duration end_ms ≡ ok rest
  unfolding pause
  pause_lem r timestamp end_ms rest d p e f h =
      let slept : Path (Outcome TryFromIntError Duration)
          (elim (continues c r p (enter c p d)) [
            | true ↦ ok 0
            | false ↦ remaining_until_next_slot c.l2_slot_duration end_ms
          ])
          (ok rest) =
        rw (e, pause) at h in
      rw f at slept

  module _ {E : Type 0} (from : TryFromIntError → E) where
    step-IsOne :
        (now late busy rest : ℕ) (r : Reads) (g : ℕ → Outcome E AnchorHeader) (d after : Duty)
        (anchor anchor' : ValidAnchor) (actions : List Action)
        → c.slot_model.genesis_timestamp * 1000 ≤ now
        → 0 < busy
        → preconfirmation_step g c r ((now + late) / 1000) d anchor ≡ ok (after, anchor', actions)
        → pause c r ((now + late) / 1000) (now + late + busy) d ≡ ok rest
        → IsOne now (now + late + busy + rest) actions
    step-IsOne now late busy rest r g d after anchor anchor' actions genesis pos h sleeps =
        let start = now + late in
        let (p, e, at_most) = step-AtMost g c r anchor (start / 1000) d after anchor' actions h in
        elim at_most [
          | inl none_built ↦ inl none_built
          | inr (one, stays) ↦
              let slept = pause_lem r (start / 1000) (start + busy) rest d p e stays sleeps in
              let fits =
                remaining_until_next_slot_fits c.l2_slot_duration (start + busy) rest slept in
              let (q, l) =
                locate-IsLocated c k n valid divided (start / 1000) (omega arith) (omega arith) in
              let same : q ≡ p = cc in
              let held : IsLocated c k n valid divided (start / 1000) p =
                subst (IsLocated c k n valid divided (start / 1000)) same l in
              inr (
                p.slot_timestamp,
                one,
                omega (arith, held.above),
                sleep_lem start busy rest p held pos slept,
              )
        ]

    run-After :
        (events : List (Event E)) (low now : ℕ) (d after : Duty) (anchor anchor' : ValidAnchor)
        (actions : List Action)
        → low ≤ now
        → c.slot_model.genesis_timestamp * 1000 ≤ now
        → All TakesTime events
        → preconfirmation_run from c events now d anchor ≡ ok (after, anchor', actions)
        → All (After low) (built actions)
    unfolding preconfirmation_run
    run-After [] low now d after anchor anchor' actions le genesis takes h =
        let same : [] ≡ actions = ground arith in subst (λ l. All (After low) (built l)) same tt
    run-After (l1_block number ∷ events) low now d after anchor anchor' actions le genesis takes h =
        run-After events low now d after (update_block_number anchor number) anchor' actions le
          genesis takes.1 h
    run-After (iteration late busy r g ∷ events) low now d after anchor anchor' actions le genesis
          takes h =
        let ((d', v', first), stepped, h1) =
          >>=-eq-ok (preconfirmation_step g c r ((now + late) / 1000) d anchor) _ h in
        let (rest, slept, h2) =
          >>=-eq-ok (map_err from (pause c r ((now + late) / 1000) (now + late + busy) d)) _ h1 in
        let next = now + late + busy + rest in
        let ((d'', v'', later), ran, h3) =
          >>=-eq-ok (preconfirmation_run from c events next d' v') _ h2 in
        let one =
          step-IsOne now late busy rest r g d d' anchor v' first genesis takes.0 stepped (
            map_err-eq-ok from (pause c r ((now + late) / 1000) (now + late + busy) d) rest
              slept) in
        let tail =
          run-After events low next d' d'' v' v'' later (omega arith) (omega arith) takes.1 ran in
        let same : first ++ later ≡ actions = ground arith in
        subst (λ l. All (After low) (built l)) same
          (elim one [
            | inl none_built ↦ rw (built-append first later, none_built) tail
            | inr (b, block, above, below) ↦
                rw (built-append first later, block) (omega arith, tail)
          ])

    -- Let L1 slots and epochs be whole numbers of L2 slots and slots, L2 slots last whole seconds, and the
    -- genesis lie at a multiple of their length. Whatever iterations of at least a millisecond each a run
    -- from the genesis on sees, however late they start and however long they take, and whatever they
    -- read: a run that does not fail builds its blocks for strictly rising timestamps, so that no L2 slot
    -- gets two blocks.
    pub preconfirmation_run-Sorted :
        (events : List (Event E)) (now : ℕ) (d after : Duty) (anchor anchor' : ValidAnchor)
        (actions : List Action)
        → c.slot_model.genesis_timestamp * 1000 ≤ now
        → All TakesTime events
        → preconfirmation_run from c events now d anchor ≡ ok (after, anchor', actions)
        → Sorted ◌<◌ (built actions)
    unfolding preconfirmation_run
    preconfirmation_run-Sorted [] now d after anchor anchor' actions genesis takes h =
        let same : [] ≡ actions = ground arith in subst (λ l. Sorted ◌<◌ (built l)) same tt
    preconfirmation_run-Sorted (l1_block number ∷ events) now d after anchor anchor' actions genesis
          takes h =
        preconfirmation_run-Sorted events now d after (update_block_number anchor number) anchor'
          actions genesis takes.1 h
    preconfirmation_run-Sorted (iteration late busy r g ∷ events) now d after anchor anchor' actions
          genesis takes h =
        let ((d', v', first), stepped, h1) =
          >>=-eq-ok (preconfirmation_step g c r ((now + late) / 1000) d anchor) _ h in
        let (rest, slept, h2) =
          >>=-eq-ok (map_err from (pause c r ((now + late) / 1000) (now + late + busy) d)) _ h1 in
        let next = now + late + busy + rest in
        let ((d'', v'', later), ran, h3) =
          >>=-eq-ok (preconfirmation_run from c events next d' v') _ h2 in
        let one =
          step-IsOne now late busy rest r g d d' anchor v' first genesis takes.0 stepped (
            map_err-eq-ok from (pause c r ((now + late) / 1000) (now + late + busy) d) rest
              slept) in
        let far =
          run-After events next next d' d'' v' v'' later (omega arith) (omega arith) takes.1 ran in
        let tail =
          preconfirmation_run-Sorted events next d' d'' v' v'' later (omega arith) takes.1 ran in
        let same : first ++ later ≡ actions = ground arith in
        subst (λ l. Sorted ◌<◌ (built l)) same
          (elim one [
            | inl none_built ↦ rw (built-append first later, none_built) tail
            | inr (b, block, above, below) ↦
                rw (built-append first later, block)
                  (All-map (After next) (built later) (λ x f. omega arith) far, tail)
          ])

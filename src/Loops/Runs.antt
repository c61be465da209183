-- ===== src/Loops/Runs.antt =====
-- taiko-preconfer/src/preconfirmation_loop.rs, `run`: iterations one after another, while the onchain
-- tracking loop moves the L1 block number on.
use taiko_preconfer.Prelude.{
  ℕ, ◌≡◌, ◌⊎◌, inl, inr, refl, ap, append-nil, subst, arith, ◌&&◌, some, List, [], ◌∷◌, ◌++◌, ◌+◌,
  ◌/◌, ◌||◌, Bool, true, false, Bool-cases, Option-cases,
}
use taiko_preconfer.Prelude.Outcome.{Outcome, ok, or_panic, map_err, >>=-eq-ok, ◌>>=◌}
use taiko_preconfer.Clock.{Duration}
use taiko_preconfer.Clock.Wakeup.{TryFromIntError, remaining_until_next_slot}
use taiko_preconfer.Anchor.{ValidAnchor, AnchorHeader, update_block_number}
use taiko_preconfer.Loops.{
  Config, Duty, Position, locate, enter, may_build, must_wait, is_end_of_sequencing,
}
use taiko_preconfer.Loops.Preconfirm.{
  Action, wait_for_previous, build_block, Reads, waits, refresh_anchor, work, preconfirmation_step,
}

-- An iteration, or a new L1 block. An iteration starts some milliseconds after the sleep before it has
-- ended, and takes some; with it come what it reads and the L1 node's answers.
pub data Event (E : Type 0) : Type 0 where
  iteration : ℕ → ℕ → Reads → (ℕ → Outcome E AnchorHeader) → Event E
  l1_block : ℕ → Event E

-- Whether an iteration ends in `continue`, without a sleep.
unfoldable pub continues : Config → Reads → Position → Duty → Bool
continues c r p d = r.waiting || may_build c p d && (r.waiting_later && r.skip_slot)

-- The sleep after an iteration that has started at `timestamp` and ends at `end_ms`.
unfoldable pub pause : Config → Reads → ℕ → ℕ → Duty → Outcome TryFromIntError Duration
unfolding continues
pause c r timestamp end_ms d = do
  p ← or_panic (locate c timestamp)
  elim (continues c r p (enter c p d)) [
    | true ↦ ok 0
    | false ↦ remaining_until_next_slot c.l2_slot_duration end_ms
  ]

module _ {E : Type 0} (from : TryFromIntError → E) (c : Config) where
  -- The loop from the time `now` in milliseconds on.
  unfoldable pub preconfirmation_run :
      List (Event E) → ℕ → Duty → ValidAnchor → Outcome E (Duty × ValidAnchor × List Action)
  unfolding pause
  preconfirmation_run [] now d anchor = ok (d, anchor, [])
  preconfirmation_run (l1_block number ∷ events) now d anchor =
      preconfirmation_run events now d (update_block_number anchor number)
  preconfirmation_run (iteration late busy r get_header_by_id ∷ events) now d anchor = do
    (d', anchor', actions) ←
        preconfirmation_step get_header_by_id c r ((now + late) / 1000) d anchor
    rest ← map_err from (pause c r ((now + late) / 1000) (now + late + busy) d)
    (d'', anchor'', later) ← preconfirmation_run events (now + late + busy + rest) d' anchor'
    ok (d'', anchor'', actions ++ later)

-- The timestamps of the blocks that are built.
abbrev pub built : List Action → List ℕ
built [] = []
built (wait_for_previous ∷ actions) = built actions
built (build_block timestamp end_of_sequencing ∷ actions) = timestamp ∷ built actions

pub built-append : (xs ys : List Action) → built (xs ++ ys) ≡ built xs ++ built ys
built-append [] ys = refl
built-append (wait_for_previous ∷ xs) ys = built-append xs ys
built-append (build_block t e ∷ xs) ys = ap (◌∷◌ t) (built-append xs ys)

built-waits :
    (p : Position) (d : Duty) (later : List Action) → built (waits p d ++ later) ≡ built later
unfolding waits
built-waits p d later = elim (Bool-cases (must_wait p d)) [ inl e ↦ rw e refl | inr e ↦ rw e refl ]

pub built-waits_only : (p : Position) (d : Duty) → built (waits p d) ≡ []
built-waits_only p d = subst (λ l. built l ≡ []) (append-nil (waits p d)) (built-waits p d [])

-- An iteration builds one block or none, and after a block it does not continue at once.
abbrev pub AtMost : Config → Reads → Position → Duty → List Action → Type 0
AtMost c r p d actions =
    (built actions ≡ []) ⊎ ((built actions ≡ p.slot_timestamp ∷ []) × (continues c r p d ≡ false))

module _ {E : Type 0} (g : ℕ → Outcome E AnchorHeader) (c : Config) (r : Reads)
    (anchor : ValidAnchor) where
  work-AtMost :
      (p : Position) (d after : Duty) (anchor' : ValidAnchor) (actions : List Action)
      → r.waiting ≡ false
      → work g c r p d anchor ≡ ok (after, anchor', actions)
      → AtMost c r p d actions
  unfolding work continues
  work-AtMost p d after anchor' actions idle h = elim (Bool-cases (may_build c p d)) [
    | inr e ↦
        let go = rw (e, work) at h in
        let same : [] ≡ actions = ground arith in subst (AtMost c r p d) same (inl refl)
    | inl e ↦
        let (updated, _, done) =
          >>=-eq-ok (refresh_anchor g c p d.windows anchor) _ (rw (e, work) at h) in
        let blocks = build_block p.slot_timestamp (is_end_of_sequencing p d) ∷ [] in
        elim (Bool-cases (r.waiting_later && r.skip_slot)) [
          | inl f ↦
              let all = rw f at done in
              let same : waits p d ≡ actions = ground arith in
              subst (AtMost c r p d) same (inl (built-waits_only p d))
          | inr f ↦
              let all = rw f at done in
              let same : waits p d ++ blocks ≡ actions = ground arith in
              subst (AtMost c r p d) same (inr (built-waits p d blocks, rw (idle, f, e) refl))
        ]
  ]

  pub step-AtMost :
      (timestamp : ℕ) (d after : Duty) (anchor' : ValidAnchor) (actions : List Action)
      → preconfirmation_step g c r timestamp d anchor ≡ ok (after, anchor', actions)
      → (p : Position) × (locate c timestamp ≡ some p) × AtMost c r p (enter c p d) actions
  unfolding preconfirmation_step
  step-AtMost timestamp d after anchor' actions h = elim (Option-cases (locate c timestamp)) [
    | inl e ↦ absurd (let stuck = rw (e, preconfirmation_step) at h in cc)
    | inr (p, e) ↦
        let go = rw (e, preconfirmation_step) at h in
        elim (Bool-cases r.waiting) [
          | inl w ↦
              let idle = rw w at go in
              let same : [] ≡ actions = ground arith in
              (p, e, subst (AtMost c r p (enter c p d)) same (inl refl))
          | inr w ↦ (p, e, work-AtMost p (enter c p d) after anchor' actions w (rw w at go))
        ]
  ]

-- ===== src/Loops/Sync.antt =====
-- taiko-preconfer/src/preconfirmation_loop.rs: the task that waits for the previous preconfer, and the
-- wait for it in a slot.
use taiko_preconfer.Prelude.{
  ℕ, ◌*◌, ◌+◌, ◌≤◌, ◌≡◌, ◌⊎◌, inl, inr, refl, subst, arith, Bool, true, false, ◌&&◌, none, some,
  List, [], ◌∷◌, All, if◌then◌else◌, ltb, Bool-cases,
}
use taiko_preconfer.Prelude.Outcome.{Outcome, ok, err, panic, >>=-eq-ok}
use taiko_preconfer.Chain.{Header}
use taiko_preconfer.Clock.{Duration}
use taiko_preconfer.Anchor.{ValidAnchor, AnchorHeader}
use taiko_preconfer.Monitor.{SequencingStatus, ready}
use taiko_preconfer.Loops.{Config, Duty, Position, locate, enter, may_build}
use taiko_preconfer.Loops.Preconfirm.{
  Action, Reads, waits, refresh_anchor, work, preconfirmation_step,
}
use taiko_preconfer.Loops.Runs.{built, built-waits_only}

-- The task, over the rounds of `ready` that fit into the timeout: whether it reports that the node is in
-- sync, and the flag `waiting_for_previous_preconfer` that it leaves. An error of `ready` is inside the
-- result of the timeout, and is reported as being in sync.
unfoldable pub previous_task :
    {E : Type 0} → List (Outcome E SequencingStatus × Header) → Bool × Bool
previous_task rounds = elim (ready rounds) [
  | none ↦ (false, false)
  | some result ↦ elim result [
    | ok done ↦ (true, false)
    | err e ↦ (true, false)
    | panic ↦ (false, true)
  ]
]

-- The loop that polls the flag until the deadline; a poll is the time and the flag read at it.
unfoldable pub sync_wait : ℕ → Bool → List (ℕ × Bool) → Bool
sync_wait deadline skip_slot [] = skip_slot
sync_wait deadline skip_slot ((now, waiting) ∷ polls) =
    let polled = sync_wait deadline waiting polls in if ltb now deadline then polled else skip_slot

-- `skip_slot` after the loop.
unfoldable pub skips_slot : Duration → Position → List (ℕ × Bool) → Bool
unfolding sync_wait
skips_slot status_sync_max_delay p polls =
    sync_wait (p.slot_timestamp * 1000 + status_sync_max_delay) true polls

-- Each poll before the deadline sees the flag.
abbrev pub IsWaiting : ℕ → ℕ × Bool → Type 0
IsWaiting deadline (now, waiting) = (deadline ≤ now) ⊎ (waiting ≡ true)

sync_wait_lem :
    (deadline : ℕ) (polls : List (ℕ × Bool))
    → All (IsWaiting deadline) polls
    → sync_wait deadline true polls ≡ true
unfolding sync_wait
sync_wait_lem deadline [] h = refl
sync_wait_lem deadline ((now, waiting) ∷ polls) h = elim (Bool-cases (ltb now deadline)) [
  | inr e ↦ rw (e, sync_wait) refl
  | inl e ↦
      let seen : waiting ≡ true = waits_on h.0 e in
      rw (e, sync_wait) (rw seen (sync_wait_lem deadline polls h.1))
]
  where
    waits_on : IsWaiting deadline (now, waiting) → ltb now deadline ≡ true → waiting ≡ true
    waits_on (inl late) e = absurd (ground arith)
    waits_on (inr flag) e = flag

module _ {E : Type 0} (g : ℕ → Outcome E AnchorHeader) (c : Config) (r : Reads)
    (anchor : ValidAnchor) where
  quiet_work :
      (p : Position) (d after : Duty) (anchor' : ValidAnchor) (actions : List Action)
      → (r.waiting_later && r.skip_slot) ≡ true
      → work g c r p d anchor ≡ ok (after, anchor', actions)
      → built actions ≡ []
  unfolding work
  quiet_work p d after anchor' actions skips h = elim (Bool-cases (may_build c p d)) [
    | inr e ↦
        let go = rw (e, work) at h in
        let same : [] ≡ actions = ground arith in subst (λ l. built l ≡ []) same refl
    | inl e ↦
        let (updated, _, done) =
          >>=-eq-ok (refresh_anchor g c p d.windows anchor) _ (rw (e, work) at h) in
        let all = rw skips at done in
        let same : waits p d ≡ actions = ground arith in
        subst (λ l. built l ≡ []) same (built-waits_only p d)
  ]

  -- An iteration that finds the wait for the previous preconfer going on, either at its start or at every
  -- poll until the slot's deadline, builds no block.
  pub no_block_while_waiting :
      (timestamp : ℕ) (p : Position) (delay : Duration) (polls : List (ℕ × Bool)) (d after : Duty)
      (anchor' : ValidAnchor) (actions : List Action)
      → locate c timestamp ≡ some p
      → (r.waiting ≡ true)
        ⊎ ((r.waiting_later ≡ true)
            × (r.skip_slot ≡ skips_slot delay p polls)
            × All (IsWaiting (p.slot_timestamp * 1000 + delay)) polls)
      → preconfirmation_step g c r timestamp d anchor ≡ ok (after, anchor', actions)
      → built actions ≡ []
  unfolding preconfirmation_step skips_slot
  no_block_while_waiting timestamp p delay polls d after anchor' actions e (inl w) h =
      let idle = rw w at (rw (e, preconfirmation_step) at h) in
      let same : [] ≡ actions = ground arith in subst (λ l. built l ≡ []) same refl
  no_block_while_waiting timestamp p delay polls d after anchor' actions e
        (inr (later, skip, waiting)) h =
      let go = rw (e, preconfirmation_step) at h in
      let skips : r.waiting_later && r.skip_slot ≡ true =
        rw (later, skip) (sync_wait_lem (p.slot_timestamp * 1000 + delay) polls waiting) in
      elim (Bool-cases r.waiting) [
        | inl w ↦
            let idle = rw w at go in
            let same : [] ≡ actions = ground arith in subst (λ l. built l ≡ []) same refl
        | inr w ↦ quiet_work p (enter c p d) after anchor' actions skips (rw w at go)
      ]

-- ===== src/Loops/Preconfirm.antt =====
-- taiko-preconfer/src/preconfirmation_loop.rs: an iteration of the loop as a step.
use taiko_preconfer.Prelude.{
  ℕ, Bool, true, false, ◌&&◌, Option, List, [], ◌∷◌, ◌++◌, if◌then◌else◌, ◌==◌, add64, mod?,
  unwrap_or,
}
use taiko_preconfer.Prelude.Outcome.{Outcome, ok, or_panic, ◌>>=◌}
use taiko_preconfer.Handover
use taiko_preconfer.Handover.{is_last_slot_before_handover_window}
use taiko_preconfer.Whitelist.{Address, update_next_operator}
use taiko_preconfer.Anchor
use taiko_preconfer.Anchor.{ValidAnchor, AnchorHeader}
use taiko_preconfer.Loops.{
  Config, Duty, Position, locate, enter, may_build, must_wait, is_end_of_sequencing,
}

-- What an iteration sets going: the task that waits for the previous preconfer, and a block.
pub data Action : Type 0 where
  wait_for_previous : Action
  build_block : ℕ → Bool → Action

-- What an iteration reads: the flag at its start and after the wait was started, what the wait for
-- the sync leaves of the slot, and the whitelist contract's answer.
pub record Reads : Type 0 where
  pub waiting : Bool
  pub waiting_later : Bool
  pub skip_slot : Bool
  pub next_operator : Option Address

unfoldable pub finish : Reads → Position → Duty → Duty
finish r p d =
    if is_last_slot_before_handover_window d.windows p.slot.slot
    then record d { whitelist = update_next_operator d.whitelist p.slot.epoch r.next_operator }
    else d

unfoldable pub waits : Position → Duty → List Action
unfolding must_wait
waits p d = if must_wait p d then wait_for_previous ∷ [] else []

module _ {E : Type 0} (get_header_by_id : ℕ → Outcome E AnchorHeader) where
  unfoldable pub refresh_anchor :
      Config → Position → Handover.SlotModel → ValidAnchor → Outcome E ValidAnchor
  refresh_anchor c p windows anchor =
      let shifted_slot = add64 p.slot.slot windows.handover_slots in
      if unwrap_or (mod? shifted_slot c.anchor_id_lag) shifted_slot == 0 && p.subslot_in_slot == 0
      then (if shifted_slot == 0
          then Anchor.update_to_latest get_header_by_id anchor
          else Anchor.update get_header_by_id anchor)
      else ok anchor

  -- The iteration past the change of epochs.
  unfoldable pub work :
      Config → Reads → Position → Duty → ValidAnchor → Outcome E (Duty × ValidAnchor × List Action)
  unfolding may_build waits finish is_end_of_sequencing
  work c r p d anchor = elim (may_build c p d) [
    | false ↦ ok (finish r p d, anchor, [])
    | true ↦ refresh_anchor c p d.windows anchor >>= λ updated. ok (
        if r.waiting_later && r.skip_slot then (d, updated, waits p d) else (
          finish r p d,
          updated,
          waits p d ++ build_block p.slot_timestamp (is_end_of_sequencing p d) ∷ [],
        ))
  ]

  unfoldable pub preconfirmation_step :
      Config → Reads → ℕ → Duty → ValidAnchor → Outcome E (Duty × ValidAnchor × List Action)
  unfolding work enter
  preconfirmation_step c r timestamp d anchor = do
    p ← or_panic (locate c timestamp)
    if r.waiting then ok (d, anchor, []) else work c r p (enter c p d) anchor

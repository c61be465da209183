-- ===== src/Application/Deliveries.antt =====
-- The confirmation loop beside the other loops: which batches reach the L1 client.
use taiko_preconfer.Prelude.{
  ℕ, ◌≡◌, ◌⊎◌, inl, inr, refl, subst, ap, true, false, Option, none, some, List, [], ◌∷◌, ◌++◌, All,
  All-append, Option-cases,
}
use taiko_preconfer.Prelude.Outcome.{Outcome, ok, err, panic, log_error, ok_injective, >>=-eq-ok}
use taiko_preconfer.Chain.{Block}
use taiko_preconfer.Clock.{Slot, get_slot}
use taiko_preconfer.Handover.{is_last_slot_before_handover_window, within_handover_period}
use taiko_preconfer.Whitelist.{is_current_and_next}
use taiko_preconfer.Batch.{BlockParams, read_blocks}
use taiko_preconfer.Batch.Readable.{read_blocks_returns}
use taiko_preconfer.Confirm.{
  ConfirmationError, Strategy, candidates, is_sendable, prune, select, send,
}
use taiko_preconfer.Confirm.Select.{select_from_lem}
use taiko_preconfer.Head.{State}
use taiko_preconfer.Head.Invariant.{retain_blocks-Inv}
use taiko_preconfer.Head.Runs.{IsGood, Reach-IsGood}
use taiko_preconfer.Head.Stream.{IsFaithful, get_l2_head_stream, get_l2_head_stream-Reach}
use taiko_preconfer.Loops.{Config, Duty, SendCall, enter_slot, confirmation_step}
use taiko_preconfer.Loops.Confirming.{
  Round, Delivery, Event, arrival, iteration, handed, call_send, carry_out, confirmation_round,
  confirmation_run,
}
use taiko_preconfer.Loops.Safety.{confirmation_step_sends}
use taiko_preconfer.Application.Sending.{IsProposable, selection-IsProposable}

-- Each answer for a number that arrives is the block of that number.
abbrev pub IsTrusted : {E C Tx : Type 0} → Event E C Tx → Type 0
IsTrusted (arrival e) = IsFaithful e
IsTrusted (iteration r) = Unit

module _ {D Tx : Type 0} (get_anchor_block_id : Tx → Outcome D ℕ) where
  module _ (c : Config) (s : Strategy) where
    -- A batch that may be handed to the L1 client when it is: the slot of the clock, the loop's duty in
    -- it, the blocks, and the proposer's reading of them.
    pub record IsLegal (x : Delivery Tx) : Type 0 where
      pub slot : Slot
      pub slot_lem : get_slot c.slot_model x.timestamp ≡ some slot
      pub entitled :
          ((enter_slot c slot x.duty).windows.active_epoch ≡ some slot.epoch)
          ⊎ (is_current_and_next (enter_slot c slot x.duty).whitelist c.preconfer_address ≡ true)
      pub before :
          is_last_slot_before_handover_window (enter_slot c slot x.duty).windows slot.slot ≡ false
      pub forced :
          x.call.force_send ≡ within_handover_period (enter_slot c slot x.duty).windows slot.slot
      pub proposable :
          IsProposable get_anchor_block_id s x.call.l1_slot_timestamp x.last_confirmed_block_id
            x.batch x.anchor_id
      pub reading : List BlockParams × List Tx × ℕ
      pub read : read_blocks x.batch ≡ some reading

    module _ {C : Type 0} where
      handed-IsLegal :
          (r : Round C Tx) (d after : Duty) (call : SendCall) (head : State Tx)
          (o : Outcome (ConfirmationError D C) (Option (List (Block Tx) × ℕ)))
          → IsGood D head
          → confirmation_step c r.waiting r.next_operator r.timestamp r.anchor r.latest_l1_timestamp
              d
            ≡ some (after, some call)
          → select {C = C} get_anchor_block_id s call.l1_slot_timestamp call.force_send
              call.current_anchor_id
              (prune s call.l1_slot_timestamp head.tx_cache)
            ≡ o
          → All IsLegal (handed r d call head o)
      unfolding handed select
      handed-IsLegal r d after call head (err e) good stepped selected = tt
      handed-IsLegal r d after call head panic good stepped selected = tt
      handed-IsLegal r d after call head (ok none) good stepped selected = tt
      handed-IsLegal r d after call head (ok (some (batch, id))) good stepped selected =
          let (slot, at, _, entitled, before, forced, _) =
            confirmation_step_sends c r.waiting r.next_operator r.timestamp r.anchor
              r.latest_l1_timestamp d after call stepped in
          let time = call.l1_slot_timestamp in
          let proposable =
            selection-IsProposable get_anchor_block_id s time head.last_confirmed_block_id
              call.force_send call.current_anchor_id head.tx_cache batch id good
              (select_from_lem get_anchor_block_id s call.force_send call.current_anchor_id
                (candidates time (prune s time head.tx_cache)) (some (batch, id)) selected) in
          let (reading, read) =
            read_blocks_returns get_anchor_block_id id batch proposable.nonempty
              proposable.anchored in
          (
            record {
              slot = slot;
              slot_lem = at;
              entitled = entitled;
              before = before;
              forced = forced;
              proposable = proposable;
              reading = reading;
              read = read;
            },
            tt,
          )

      module _ {E : Type 0} where
        call_send-IsLegal :
            (r : Round C Tx) (d after : Duty) (call : SendCall) (head kept : State Tx)
            (deliveries : List (Delivery Tx))
            → IsGood E head
            → confirmation_step c r.waiting r.next_operator r.timestamp r.anchor
                r.latest_l1_timestamp d
              ≡ some (after, some call)
            → call_send {E = E} get_anchor_block_id c s r d call head ≡ ok (kept, deliveries)
            → IsGood E kept × All IsLegal deliveries
        unfolding call_send
        call_send-IsLegal r d after call head kept deliveries good stepped h =
            let time = call.l1_slot_timestamp in
            let pruned = prune s time head.tx_cache in
            let chosen =
              select {C = C} get_anchor_block_id s time call.force_send call.current_anchor_id
                pruned in
            let (_, logged, h1) =
              >>=-eq-ok
                (log_error
                  (send get_anchor_block_id r.client_send s time call.force_send
                    call.current_anchor_id head.tx_cache).1)
                _ h in
            let same : ◌≡◌ {A = State Tx × List (Delivery Tx)}
                (record head { tx_cache = pruned }, handed r d call head chosen)
                (kept, deliveries) =
              ok_injective _ _ h1 in
            subst (λ p. IsGood E p.0 × All IsLegal p.1) same
              (
                retain_blocks-Inv head.last_confirmed_block_id (is_sendable s time) head.tx_cache
                    good,
                handed-IsLegal r d after call head chosen good stepped refl,
              )

        carry_out-IsLegal :
            (r : Round C Tx) (d after last : Duty) (call : Option SendCall) (head kept : State Tx)
            (deliveries : List (Delivery Tx))
            → IsGood E head
            → confirmation_step c r.waiting r.next_operator r.timestamp r.anchor
                r.latest_l1_timestamp d
              ≡ some (after, call)
            → carry_out {E = E} get_anchor_block_id c s r d after call head
              ≡ ok (last, kept, deliveries)
            → IsGood E kept × All IsLegal deliveries
        carry_out-IsLegal r d after last none head kept deliveries good stepped h =
            let same : ◌≡◌ {A = State Tx × List (Delivery Tx)} (head, []) (kept, deliveries) =
              ap (λ p. (p.1, p.2)) (ok_injective _ _ h) in
            subst (λ p. IsGood E p.0 × All IsLegal p.1) same (good, tt)
        carry_out-IsLegal r d after last (some call) head kept deliveries good stepped h =
            let ((left, sent), confirmed, h1) =
              >>=-eq-ok (call_send {E = E} get_anchor_block_id c s r d call head) _ h in
            let same : ◌≡◌ {A = State Tx × List (Delivery Tx)} (left, sent) (kept, deliveries) =
              ap (λ p. (p.1, p.2)) (ok_injective _ _ h1) in
            subst (λ p. IsGood E p.0 × All IsLegal p.1) same
              (call_send-IsLegal r d after call head left sent good stepped confirmed)

        round-IsLegal :
            (r : Round C Tx) (d after : Duty) (head kept : State Tx)
            (deliveries : List (Delivery Tx))
            → IsGood E head
            → confirmation_round {E = E} get_anchor_block_id c s r d head
              ≡ ok (after, kept, deliveries)
            → IsGood E kept × All IsLegal deliveries
        unfolding confirmation_round
        round-IsLegal r d after head kept deliveries good h =
            elim (Option-cases (
              confirmation_step c r.waiting r.next_operator r.timestamp r.anchor
                r.latest_l1_timestamp d)) [
                  | inl e ↦ absurd (let stuck = rw (e, confirmation_round) at h in cc)
                  | inr ((next, call), e) ↦
                      carry_out-IsLegal r d next after call head kept deliveries good e
                        (rw (e, confirmation_round) at h)
                ]

        -- In a run of the confirmation loop beside the stream of heads, each batch that reaches the L1
        -- client does so in the active epoch or by the operator of both epochs, not in the last slot
        -- before the handover, and is forced just in the handover. It has blocks; they come by rising
        -- number, are past the last confirmed block, own and young enough, and have the one anchor id;
        -- and the proposer reads them without a panic. The cache stays ordered and past the last
        -- confirmed block, if it is so at first and the node answers each request for a number with the
        -- block of that number.
        pub confirmation_run-IsLegal :
            (events : List (Event E C Tx)) (d after : Duty) (head left : State Tx)
            (deliveries : List (Delivery Tx))
            → IsGood E head
            → All IsTrusted events
            → confirmation_run get_anchor_block_id c s events d head ≡ ok (after, left, deliveries)
            → IsGood E left × All IsLegal deliveries
        unfolding confirmation_run
        confirmation_run-IsLegal [] d after head left deliveries good trusted h =
            let same : ◌≡◌ {A = State Tx × List (Delivery Tx)} (head, []) (left, deliveries) =
              ap (λ p. (p.1, p.2)) (ok_injective _ _ h) in
            subst (λ p. IsGood E p.0 × All IsLegal p.1) same (good, tt)
        confirmation_run-IsLegal (arrival e ∷ events) d after head left deliveries good trusted h =
            confirmation_run-IsLegal events d after (get_l2_head_stream head (e ∷ [])).0 left
              deliveries
              (Reach-IsGood E good (get_l2_head_stream-Reach head (e ∷ []) (trusted.0, tt)))
              trusted.1 h
        confirmation_run-IsLegal (iteration r ∷ events) d after head left deliveries good trusted
              h =
            let ((next, kept, now), first, h1) =
              >>=-eq-ok (confirmation_round get_anchor_block_id c s r d head) _ h in
            let ((last, rest, later), others, h2) =
              >>=-eq-ok (confirmation_run get_anchor_block_id c s events next kept) _ h1 in
            let (good', legal) = round-IsLegal r d next head kept now good first in
            let (good'', legal') =
              confirmation_run-IsLegal events next last kept rest later good' trusted.1 others in
            let same : ◌≡◌ {A = State Tx × List (Delivery Tx)} (rest, now ++ later)
                (left, deliveries) =
              ap (λ p. (p.1, p.2)) (ok_injective _ _ h2) in
            subst (λ p. IsGood E p.0 × All IsLegal p.1) same
              (good'', All-append IsLegal now later legal legal')

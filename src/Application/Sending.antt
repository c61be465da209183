-- ===== src/Application/Sending.antt =====
-- taiko-preconfer/src/main.rs: the cache and the batches once the loops run.
use taiko_preconfer.Prelude.{
  ℕ, ◌<◌, ◌≡◌, length, subst, inl, inr, Bool, true, ltb, Option, some, List, ◌++◌, All, All-split,
  Sorted-front,
}
use taiko_preconfer.Prelude.Outcome.{Outcome, ok}
use taiko_preconfer.Chain.{Block}
use taiko_preconfer.Cache.{retain_blocks}
use taiko_preconfer.Cache.Order.{IsOrdered}
use taiko_preconfer.Configuration.{Config}
use taiko_preconfer.Confirm.{Strategy, candidates, prune, select, send, is_sendable}
use taiko_preconfer.Confirm.Select.{HasAnchor, IsSelection, select_from_lem}
use taiko_preconfer.Confirm.Send.{IsSendable, send-IsSendable}
use taiko_preconfer.Head.Invariant.{Inv, Unconfirmed, retain_blocks-Inv}
use taiko_preconfer.Head.Runs.{IsGood, Reach-IsGood}
use taiko_preconfer.Head.Stream.{Event, IsFaithful, get_l2_head_stream, get_l2_head_stream-Reach}
use taiko_preconfer.Application.{Nodes, Launched, launch}
use taiko_preconfer.Application.Launch.{launch-IsReady}

module _ {Tx D : Type 0} (get_anchor_block_id : Tx → Outcome D ℕ) (s : Strategy) (time : ℕ)
    (last : Option ℕ) where
  -- A batch that may be proposed.
  pub record IsProposable (batch : List (Block Tx)) (id : ℕ) : Type 0 where
    pub nonempty : 0 < length batch
    pub ordered : IsOrdered batch
    pub pending : All (λ b. Unconfirmed last b.header.number) batch
    pub sendable : All (IsSendable s time) batch
    pub anchored : All (HasAnchor get_anchor_block_id id) batch

  candidates-Inv :
      (cache : List (Block Tx)) → Inv last cache → Inv last (candidates time (prune s time cache))
  unfolding candidates prune retain_blocks
  candidates-Inv cache inv =
      retain_blocks-Inv last (λ b. ltb b.header.timestamp time) (prune s time cache)
        (retain_blocks-Inv last (is_sendable s time) cache inv)

  candidates-IsSendable :
      (cache : List (Block Tx)) → All (IsSendable s time) (candidates time (prune s time cache))
  unfolding send
  candidates-IsSendable cache =
      send-IsSendable {C = D} {D = D} get_anchor_block_id (λ batch id. ok tt) s time true 0 cache

  batch-IsProposable :
      (cache batch rest : List (Block Tx)) (id : ℕ)
      → Inv last cache
      → candidates time (prune s time cache) ≡ batch ++ rest
      → All (HasAnchor get_anchor_block_id id) batch
      → 0 < length batch
      → IsProposable batch id
  batch-IsProposable cache batch rest id inv split anchored nonempty =
      let good = subst (Inv last) split (candidates-Inv cache inv) in
      record {
        nonempty = nonempty;
        ordered = Sorted-front _ batch rest good.ordered;
        pending = (All-split _ batch rest good.pending).0;
        sendable =
            (All-split (IsSendable s time) batch rest
              (subst (All (IsSendable s time)) split (candidates-IsSendable cache))).0;
        anchored = anchored;
      }

  pub selection-IsProposable :
      (force_send : Bool) (current : ℕ) (cache : List (Block Tx)) (batch : List (Block Tx)) (id : ℕ)
      → Inv last cache
      → IsSelection get_anchor_block_id s force_send current
          (candidates time (prune s time cache))
          (some (batch, id))
      → IsProposable batch id
  selection-IsProposable force_send current cache batch id inv (inl (empty, nothing)) = cc
  selection-IsProposable force_send current cache batch id inv
        (inr (batch', id', pos, (rest, split, anchored, stops), inr (nothing, due))) =
      cc
  selection-IsProposable force_send current cache batch id inv
        (inr (batch', id', pos, (rest, split, anchored, stops), inl (chosen, due))) =
      let same : ◌≡◌ {A = List (Block Tx) × ℕ} (batch', id') (batch, id) = cc in
      subst (λ p. IsProposable p.0 p.1) same
        (batch-IsProposable cache batch' rest id' inv split anchored pos)

module _ {E Tx Provider Key F : Type 0} (n : Nodes E Tx Provider Key) (config : Config F)
    (by_id : (id : ℕ) (b : Block Tx) → n.get_block_by_id id ≡ ok b → b.header.number ≡ id)
    (l : Launched Tx Provider Key F) (launched : launch n config ≡ ok l)
    (events : List (Event E Tx)) (faithful : All IsFaithful events) where
  -- After a start that succeeds, and after any blocks, confirmations and removals that follow, the
  -- cache lists blocks by rising number, all past the last confirmed one, if the node always answers a
  -- request for a number with the block of that number.
  pub launched-IsGood : IsGood E (get_l2_head_stream l.head events).0
  launched-IsGood =
      Reach-IsGood E {s = l.head} (launch-IsReady n config by_id l launched).good
        (get_l2_head_stream-Reach l.head events faithful)

  -- Whenever the confirmation strategy then selects a batch, it has blocks, which come by rising number, are past
  -- the last confirmed block, have this preconfer's address, are built before the slot and young
  -- enough, and have the one anchor id that is handed over with them.
  pub launched-IsProposable :
      {C : Type 0} (time : ℕ) (force_send : Bool) (current : ℕ) (batch : List (Block Tx)) (id : ℕ)
      → (let now = (get_l2_head_stream l.head events).0 in
          select {C = C} n.get_anchor_block_id l.strategy time force_send current
            (prune l.strategy time now.tx_cache)
          ≡ ok (some (batch, id)))
      → (key : Key) × (n.get_signing_key config.private_key ≡ ok key)
        × (l.strategy.address ≡ n.address_of key)
        × IsProposable n.get_anchor_block_id l.strategy time
            (get_l2_head_stream l.head events).0.last_confirmed_block_id
            batch
            id
  unfolding select
  launched-IsProposable {C} time force_send current batch id selected =
      let now = (get_l2_head_stream l.head events).0 in
      let ready = launch-IsReady n config by_id l launched in
      (
        ready.key,
        ready.signed,
        ready.address,
        selection-IsProposable n.get_anchor_block_id l.strategy time now.last_confirmed_block_id
            force_send current now.tx_cache batch id launched-IsGood
            (select_from_lem n.get_anchor_block_id l.strategy force_send current
              (candidates time (prune l.strategy time now.tx_cache)) (some (batch, id)) selected),
      )

-- ===== src/Confirm.antt =====
-- preconfirmation/src/preconf/confirmation_strategy.rs and `ValidTimestamp` of
-- preconfirmation/src/util.rs: which unconfirmed blocks are sent to L1 as one batch, and when.
pub mod Select
pub mod Send
use taiko_preconfer.Prelude.{
  ℕ, Bool, true, false, not, ◌&&◌, ◌||◌, Option, none, some, List, [], ◌∷◌, if◌then◌else◌, ltb, leb,
  ◌==◌, add64, length, retain,
}
use taiko_preconfer.Prelude.Outcome.{Outcome, ok, err, ◌>>=◌}
use taiko_preconfer.Chain.{Block}
use taiko_preconfer.Cache.{retain_blocks}
use taiko_preconfer.Whitelist.{Address}

unfoldable pub is_not_outdated_timestamp : ℕ → ℕ → ℕ → ℕ → ℕ → Bool
is_not_outdated_timestamp last_l2_block_timestamp l1_block_timestamp previous_batch_timestamp
      total_shift max_offset =
    leb previous_batch_timestamp last_l2_block_timestamp
    && leb total_shift last_l2_block_timestamp
    && leb (add64 l1_block_timestamp total_shift) (add64 last_l2_block_timestamp max_offset)

pub record ValidTimestamp : Type 0 where
  pub max_offset : ℕ

unfoldable pub check : ValidTimestamp → ℕ → ℕ → ℕ → ℕ → Bool
unfolding is_not_outdated_timestamp
check v l1_block_timestamp last_l2_block_timestamp previous_batch_timestamp total_shift =
    is_not_outdated_timestamp last_l2_block_timestamp l1_block_timestamp previous_batch_timestamp
      total_shift v.max_offset

-- The errors that `send` returns; the wrapped errors are those of its callees.
pub data ConfirmationError (D C : Type 0) : Type 0 where
  sol_types : D → ConfirmationError D C
  taiko_l1_client : C → ConfirmationError D C
  missing_anchor : ℕ → ConfirmationError D C

-- The strategy without its client and without the cache, which is shared: both are arguments.
pub record Strategy : Type 0 where
  pub max_blocks : ℕ
  pub valid_timestamp : ValidTimestamp
  pub address : Address

-- `map_err(From::from)` of the `?` operator.
abbrev pub decoding : {A D C : Type 0} → Outcome D A → Outcome (ConfirmationError D C) A
decoding (ok a) = ok a
decoding (err e) = err (sol_types e)
decoding Outcome.panic = Outcome.panic

abbrev pub sending : {A D C : Type 0} → Outcome C A → Outcome (ConfirmationError D C) A
sending (ok a) = ok a
sending (err e) = err (taiko_l1_client e)
sending Outcome.panic = Outcome.panic

-- Whether a batch of `in_batch` out of `in_all` candidates is sent now.
unfoldable pub is_due : Strategy → Bool → ℕ → ℕ → ℕ → ℕ → Bool
is_due s force_send current_anchor_id batch_anchor_id in_batch in_all =
    let force =
      force_send || not (in_batch == in_all) || not (batch_anchor_id == current_anchor_id) in
    not (in_batch == 0 || (ltb in_batch s.max_blocks && not force))

module _ {Tx : Type 0} where
  -- What the cache keeps: blocks of this preconfer that are young enough.
  unfoldable pub is_sendable : Strategy → ℕ → Block Tx → Bool
  unfolding check
  is_sendable s l1_slot_timestamp block =
      check s.valid_timestamp l1_slot_timestamp block.header.timestamp 0 0
      && block.header.beneficiary == s.address

  unfoldable pub prune : Strategy → ℕ → List (Block Tx) → List (Block Tx)
  unfolding is_sendable
  prune s l1_slot_timestamp cache = retain_blocks (is_sendable s l1_slot_timestamp) cache

  unfoldable pub candidates : ℕ → List (Block Tx) → List (Block Tx)
  candidates l1_slot_timestamp blocks =
      retain (λ b. ltb b.header.timestamp l1_slot_timestamp) blocks

  -- `get_anchor_block_id_from_bytes` on a transaction's input decodes the call of the anchor contract.
  module _ {D C : Type 0} (get_anchor_block_id : Tx → Outcome D ℕ) where
    abbrev pub first_anchor_id : ℕ → List Tx → Outcome (ConfirmationError D C) ℕ
    first_anchor_id number [] = err (missing_anchor number)
    first_anchor_id number (tx ∷ txs) = decoding (get_anchor_block_id tx)

    unfoldable pub block_anchor_id : Block Tx → Outcome (ConfirmationError D C) ℕ
    block_anchor_id block = first_anchor_id block.header.number block.transactions

    -- The loop that collects `batch_blocks`.
    unfoldable pub batch_blocks :
        ℕ → List (Block Tx) → Outcome (ConfirmationError D C) (List (Block Tx))
    batch_blocks batch_anchor_id [] = ok []
    batch_blocks batch_anchor_id (block ∷ blocks) = do
      id ← block_anchor_id block
      elim (id == batch_anchor_id) [
        | true ↦ batch_blocks batch_anchor_id blocks >>= λ rest. ok (block ∷ rest)
        | false ↦ ok []
      ]

    -- What `send` hands to the client: the blocks and their anchor id, or nothing.
    unfoldable pub select_from :
        Strategy
        → Bool
        → ℕ
        → List (Block Tx)
        → Outcome (ConfirmationError D C) (Option (List (Block Tx) × ℕ))
    select_from s force_send current_anchor_id [] = ok none
    select_from s force_send current_anchor_id (first ∷ blocks) = do
      batch_anchor_id ← block_anchor_id first
      batch ← batch_blocks batch_anchor_id (first ∷ blocks)
      ok (
          if is_due s force_send current_anchor_id batch_anchor_id (length batch)
            (length (first ∷ blocks))
          then some (batch, batch_anchor_id)
          else none)

    unfoldable pub select :
        Strategy
        → ℕ
        → Bool
        → ℕ
        → List (Block Tx)
        → Outcome (ConfirmationError D C) (Option (List (Block Tx) × ℕ))
    unfolding select_from
    select s l1_slot_timestamp force_send current_anchor_id cache =
        select_from s force_send current_anchor_id (candidates l1_slot_timestamp cache)

    abbrev pub deliver :
        (List (Block Tx) → ℕ → Outcome C (Unit {0}))
        → Option (List (Block Tx) × ℕ)
        → Outcome (ConfirmationError D C) (Unit {0})
    deliver client_send none = ok tt
    deliver client_send (some (batch, batch_anchor_id)) =
        sending (client_send batch batch_anchor_id)

    -- The shared cache after the call, and the call's result.
    unfoldable pub send :
        (List (Block Tx) → ℕ → Outcome C (Unit {0}))
        → Strategy
        → ℕ
        → Bool
        → ℕ
        → List (Block Tx)
        → List (Block Tx) × Outcome (ConfirmationError D C) (Unit {0})
    unfolding prune
    send client_send s l1_slot_timestamp force_send current_anchor_id cache =
        let kept = prune s l1_slot_timestamp cache in
        (kept, select s l1_slot_timestamp force_send current_anchor_id kept >>= deliver client_send)

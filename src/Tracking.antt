-- ===== src/Tracking.antt =====
-- taiko-preconfer/src/onchain_tracking_loop.rs, `stream_l2_headers` of
-- preconfirmation/src/stream/l2_head_info_stream.rs, and the start in taiko-preconfer/src/main.rs: what
-- the program keeps of both chains. A stream is the list of its items.
pub mod Complete
pub mod Heads
pub mod Sources
pub mod Startup
use taiko_preconfer.Prelude.{
  ℕ, zero, suc, ◌+◌, ◌-◌, ◌*◌, Bool, true, false, not, ◌&&◌, List, [], ◌∷◌, if◌then◌else◌, ◌==◌,
  leb, is_empty, add64, mul64, as_u32,
}
use taiko_preconfer.Prelude.Outcome.{Outcome, ok, err, panic, ◌>>=◌}
use taiko_preconfer.Chain.{Header, Block}
use taiko_preconfer.Clock
use taiko_preconfer.Clock.{Duration, as_secs}
use taiko_preconfer.Anchor.{ValidAnchor, update_block_number}
use taiko_preconfer.Whitelist.{Address}

-- The state that L1 headers change; both parts are shared.
pub record L1State : Type 0 where
  pub valid_anchor : ValidAnchor
  pub last_l1_timestamp : ℕ

unfoldable pub process_header : L1State → Header → L1State
process_header s header = record {
  valid_anchor = update_block_number s.valid_anchor header.number;
  last_l1_timestamp = header.timestamp;
}

unfoldable pub stream_l1_headers : L1State → List Header → L1State
stream_l1_headers s [] = s
stream_l1_headers s (h ∷ hs) = stream_l1_headers (process_header s h) hs

-- The current L2 header after the stream, and how it ended: an error of the stream ends it.
unfoldable pub stream_l2_headers :
    {E : Type 0} → Header → List (Outcome E Header) → Header × Outcome E (Unit {0})
stream_l2_headers current [] = (current, ok tt)
stream_l2_headers current (ok header ∷ items) = stream_l2_headers header items
stream_l2_headers current (err e ∷ items) = (current, err e)
stream_l2_headers current (panic ∷ items) = (current, panic)

-- `SlotModel::new` as main calls it: an epoch is a multiple of the slot, as a u32.
unfoldable pub slot_model : ℕ → Duration → ℕ → Clock.SlotModel
slot_model genesis_timestamp l1_slot_duration l1_slots_per_epoch = record {
  genesis_timestamp = genesis_timestamp;
  slot_duration = l1_slot_duration;
  epoch_duration = l1_slot_duration * as_u32 l1_slots_per_epoch;
}

-- The blocks after the last confirmed one that this preconfer built. The node's answers and the
-- decoding of the anchor call are arguments.
module _ {E Tx : Type 0} (get_block_by_id : ℕ → Outcome E (Block Tx))
    (get_anchor_block_id : Tx → Outcome E ℕ) (preconfer : Address) (confirmed_anchor_id : ℕ) where
  -- Whether a block is picked up; its first transaction is decoded only if it is this preconfer's.
  unfoldable pub is_unconfirmed : Header → List Tx → Outcome E Bool
  is_unconfirmed header [] = ok false
  is_unconfirmed header (tx ∷ txs) = elim (header.beneficiary == preconfer) [
    | true ↦ get_anchor_block_id tx >>= λ anchor_id. ok (leb confirmed_anchor_id anchor_id)
    | false ↦ ok false
  ]

  -- The loop from `block_id` on with `count` rounds left.
  unfoldable pub unconfirmed_from : ℕ → ℕ → Outcome E (List (Block Tx))
  unfolding is_unconfirmed
  unconfirmed_from zero block_id = ok []
  unconfirmed_from (suc count) block_id = do
    block ← get_block_by_id block_id
    picked ← is_unconfirmed block.header block.transactions
    rest ← unconfirmed_from count (block_id + 1)
    ok (if picked then block ∷ rest else rest)

  -- `(latest_confirmed_block_id + 1)..=latest_l2_header_number`.
  unfoldable pub unconfirmed_l2_blocks : ℕ → ℕ → Outcome E (List (Block Tx))
  unconfirmed_l2_blocks latest_confirmed_block_id latest_l2_header_number =
      unconfirmed_from (latest_l2_header_number - latest_confirmed_block_id)
        (latest_confirmed_block_id + 1)

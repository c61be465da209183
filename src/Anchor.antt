-- ===== src/Anchor.antt =====
-- preconfirmation/src/taiko/anchor.rs: the L1 block that the preconfer's L2 blocks are anchored to.
pub mod Bounds
use taiko_preconfer.Prelude.{ℕ, max, if◌then◌else◌, ltb, sub64}
use taiko_preconfer.Prelude.Outcome.{Outcome, ok, ◌>>=◌}

unfoldable pub compute_valid_anchor_id : ℕ → ℕ → ℕ → ℕ → ℕ
compute_valid_anchor_id block_number max_offset desired_offset last_anchor_id =
    let min_anchor_id = max (sub64 (max block_number max_offset) max_offset) last_anchor_id in
    let desired_anchor_id = sub64 block_number desired_offset in max desired_anchor_id min_anchor_id

-- The parts of an L1 header that are read here. A state root is its 256 bits as a number.
pub record AnchorHeader : Type 0 where
  pub timestamp : ℕ
  pub state_root : ℕ

-- `current_anchor`: the block's id, its time in seconds of the UNIX epoch and its state root.
pub record CurrentAnchor : Type 0 where
  pub id : ℕ
  pub time : ℕ
  pub state_root : ℕ

-- The clones of a ValidAnchor share what stands behind an Arc, so the whole program has one such
-- state. The url serves only the request for a header, which is an argument here.
pub record ValidAnchor : Type 0 where
  pub max_offset : ℕ
  pub desired_offset : ℕ
  pub block_number : ℕ
  pub current_anchor : CurrentAnchor
  pub last_anchor_id : ℕ

unfoldable pub new : ℕ → ℕ → ValidAnchor
new max_offset desired_offset = record {
  max_offset = max_offset;
  desired_offset = desired_offset;
  block_number = 0;
  current_anchor = record { id = 0; time = 0; state_root = 0 };
  last_anchor_id = 0;
}

unfoldable pub update_block_number : ValidAnchor → ℕ → ValidAnchor
update_block_number v block_number =
    if ltb v.block_number block_number then record v { block_number = block_number } else v

unfoldable pub update_last_anchor_id : ValidAnchor → ℕ → ValidAnchor
update_last_anchor_id v last_anchor_id = record v { last_anchor_id = last_anchor_id }

unfoldable pub id_and_state_root : ValidAnchor → ℕ × ℕ
id_and_state_root v = (v.current_anchor.id, v.current_anchor.state_root)

-- `get_header_by_id` asks the L1 node.
module _ {E : Type 0} (get_header_by_id : ℕ → Outcome E AnchorHeader) where
  unfoldable pub update_to : ValidAnchor → ℕ → Outcome E ValidAnchor
  update_to v anchor_id = do
    anchor_header ← get_header_by_id anchor_id
    ok (record v {
      current_anchor = record {
        id = anchor_id;
        time = anchor_header.timestamp;
        state_root = anchor_header.state_root;
      };
    })

  unfoldable pub update_to_latest : ValidAnchor → Outcome E ValidAnchor
  unfolding update_to
  update_to_latest v = update_to v v.block_number

  unfoldable pub update : ValidAnchor → Outcome E ValidAnchor
  unfolding update_to
  update v =
      update_to v
        (compute_valid_anchor_id v.block_number v.max_offset v.desired_offset v.last_anchor_id)

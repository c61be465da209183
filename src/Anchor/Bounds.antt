-- ===== src/Anchor/Bounds.antt =====
-- preconfirmation/src/taiko/anchor.rs: what an anchor id may be.
use taiko_preconfer.Prelude.{ℕ, ◌+◌, ◌≤◌, ◌<◌, arith, u64_mod}
use taiko_preconfer.Anchor.{compute_valid_anchor_id}

-- At most `max_offset` and at most `desired_offset` behind the block number, and not before the last
-- batch's anchor.
pub record IsAllowed (block_number max_offset desired_offset last_anchor_id id : ℕ) : Type 0 where
  pub recent : block_number ≤ id + max_offset
  pub rising : last_anchor_id ≤ id
  pub lag : block_number ≤ id + desired_offset

module _ (b m d l : ℕ) (b_fits : b < u64_mod) (m_fits : m < u64_mod) where
  -- If the block number is at least `desired_offset` and, with `max_offset`, fits a u64, then the id is the
  -- smallest that is at most `max_offset` and at most `desired_offset` behind the block number and not
  -- below the id of the last anchor.
  pub compute_valid_anchor_id-least :
      d ≤ b
      → let id = compute_valid_anchor_id b m d l in
        IsAllowed b m d l id × ((other : ℕ) → IsAllowed b m d l other → id ≤ other)
  unfolding compute_valid_anchor_id
  compute_valid_anchor_id-least h = (omega arith, λ other a. omega arith)

  -- On a shorter chain the subtraction wraps, and the id lies far beyond the chain's head.
  pub compute_valid_anchor_id_wraps :
      b < d → d < u64_mod → u64_mod ≤ compute_valid_anchor_id b m d l + d
  unfolding compute_valid_anchor_id
  compute_valid_anchor_id_wraps h k = omega arith

-- ===== src/Cache.antt =====
-- preconfirmation/src/tx_cache.rs: the unconfirmed L2 blocks. The clones of a TxCache share one list
-- behind a lock, so the list is the state, and each call of a method runs under the lock.
pub mod Order
use taiko_preconfer.Prelude.{
  ℕ, Bool, true, false, List, [], ◌∷◌, ◌++◌, if◌then◌else◌, ◌==◌, leb, retain,
}
use taiko_preconfer.Chain.{Block}

module _ {Tx : Type 0} where
  -- `iter_mut().find(..)` and the assignment through it, or `push` where nothing is found.
  unfoldable pub replace_or_push : Block Tx → List (Block Tx) → List (Block Tx)
  replace_or_push block [] = block ∷ []
  replace_or_push block (b ∷ bs) =
      if b.header.number == block.header.number then block ∷ bs else b ∷ replace_or_push block bs

  -- `sort_by` on the numbers, which is stable: an insertion sort.
  unfoldable pub insert_sorted : Block Tx → List (Block Tx) → List (Block Tx)
  insert_sorted block [] = block ∷ []
  insert_sorted block (b ∷ bs) =
      if leb block.header.number b.header.number then block ∷ b ∷ bs else b ∷ insert_sorted block bs

  unfoldable pub sort : List (Block Tx) → List (Block Tx)
  unfolding insert_sorted
  sort [] = []
  sort (b ∷ bs) = insert_sorted b (sort bs)

  -- A block without transactions is logged as ignored, and stored all the same.
  unfoldable pub add_block : List (Block Tx) → Block Tx → List (Block Tx)
  add_block unconfirmed block = sort (replace_or_push block unconfirmed)

  unfoldable pub clear : List (Block Tx) → List (Block Tx)
  clear unconfirmed = []

  -- `TxCache::retain`.
  unfoldable pub retain_blocks : (Block Tx → Bool) → List (Block Tx) → List (Block Tx)
  retain_blocks f unconfirmed = retain f unconfirmed

-- ===== src/Tracking/Startup.antt =====
-- taiko-preconfer/src/main.rs: the cache that the program starts with.
use taiko_preconfer.Prelude.{
  ℕ, zero, suc, ◌+◌, ◌-◌, ◌≤◌, ◌<◌, ◌≡◌, arith, List, [], ◌∷◌, All, Bool-cases, inl, inr, subst,
}
use taiko_preconfer.Prelude.Outcome.{Outcome, ok, >>=-eq-ok}
use taiko_preconfer.Chain.{Block}
use taiko_preconfer.Cache.Order.{IsOrdered}
use taiko_preconfer.Head.Invariant.{Inv}
use taiko_preconfer.Prelude.{some}
use taiko_preconfer.Tracking.{is_unconfirmed, unconfirmed_from, unconfirmed_l2_blocks}

module _ {E Tx : Type 0} (get_block_by_id : ℕ → Outcome E (Block Tx))
    (get_anchor_block_id : Tx → Outcome E ℕ) (preconfer confirmed_anchor_id : ℕ)
    (by_id : (id : ℕ) (b : Block Tx) → get_block_by_id id ≡ ok b → b.header.number ≡ id) where
  abbrev From : ℕ → Block Tx → Type 0
  From n b = n ≤ b.header.number

  From-weaken : (n : ℕ) (bs : List (Block Tx)) → All (From (n + 1)) bs → All (From n) bs
  From-weaken n [] h = tt
  From-weaken n (b ∷ bs) h = (omega (arith, h.0), From-weaken n bs h.1)

  From-later :
      (n : ℕ) (b : Block Tx) (bs : List (Block Tx))
      → b.header.number ≡ n
      → All (From (n + 1)) bs
      → All (λ later. b.header.number < later.header.number) bs
  From-later n b [] e h = tt
  From-later n b (x ∷ bs) e h = (omega (arith, h.0), From-later n b bs e h.1)

  unconfirmed_from_lem :
      (count id : ℕ) (blocks : List (Block Tx))
      → unconfirmed_from get_block_by_id get_anchor_block_id preconfer confirmed_anchor_id count id
        ≡ ok blocks
      → IsOrdered blocks × All (From id) blocks
  unfolding unconfirmed_from
  unconfirmed_from_lem zero id blocks h =
      let same : [] ≡ blocks = ground arith in
      subst (λ l. IsOrdered l × All (From id) l) same (tt, tt)
  unconfirmed_from_lem (suc count) id blocks h =
      let (b, found, h1) = >>=-eq-ok (get_block_by_id id) _ h in
      let (picked, _, h2) =
        >>=-eq-ok
          (is_unconfirmed get_block_by_id get_anchor_block_id preconfer confirmed_anchor_id b.header
            b.transactions)
          _ h1 in
      let (rest, later, h3) =
        >>=-eq-ok
          (unconfirmed_from get_block_by_id get_anchor_block_id preconfer confirmed_anchor_id count
            (id + 1))
          _ h2 in
      let (ordered, all) = unconfirmed_from_lem count (id + 1) rest later in
      let number = by_id id b found in
      elim (Bool-cases picked) [
        | inl e ↦
            let done = rw e at h3 in
            let same : b ∷ rest ≡ blocks = ground arith in
            subst (λ l. IsOrdered l × All (From id) l) same
              (
                (From-later id b rest number all, ordered),
                (omega (arith, number), From-weaken id rest all),
              )
        | inr e ↦
            let done = rw e at h3 in
            let same : rest ≡ blocks = ground arith in
            subst (λ l. IsOrdered l × All (From id) l) same (ordered, From-weaken id rest all)
      ]

  From-past :
      (last : ℕ) (bs : List (Block Tx))
      → All (From (last + 1)) bs
      → All (λ b. last < b.header.number) bs
  From-past last [] h = tt
  From-past last (b ∷ bs) h = (omega (arith, h.0), From-past last bs h.1)

  -- If the node answers a request for a number with the block of that number, the blocks that are
  -- picked up at the start satisfy the invariant of the cache: they are listed by rising number, and
  -- all of them are past the last confirmed block.
  pub unconfirmed_l2_blocks-Inv :
      (latest_confirmed latest : ℕ) (blocks : List (Block Tx))
      → unconfirmed_l2_blocks get_block_by_id get_anchor_block_id preconfer confirmed_anchor_id
          latest_confirmed latest
        ≡ ok blocks
      → Inv (some latest_confirmed) blocks
  unfolding unconfirmed_l2_blocks
  unconfirmed_l2_blocks-Inv latest_confirmed latest blocks h =
      let (ordered, all) =
        unconfirmed_from_lem (latest - latest_confirmed) (latest_confirmed + 1) blocks h in
      record { ordered = ordered; pending = From-past latest_confirmed blocks all }

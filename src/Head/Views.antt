-- ===== src/Head/Views.antt =====
-- preconfirmation/src/stream/l2_head_info_stream.rs: the cache seen as a map from numbers to blocks.
use taiko_preconfer.Prelude.{
  ℕ, zero, suc, ◌+◌, ◌-◌, ◌≡◌, inl, inr, refl, ap, subst, ◌∙◌, arith, false, ◌&&◌, Option, none,
  some, List, [], ◌∷◌, if◌then◌else◌, ◌==◌, ltb, leb, Bool-cases, Option-cases,
}
use taiko_preconfer.Chain.{Block}
use taiko_preconfer.Cache.{add_block, retain_blocks}
use taiko_preconfer.Cache.Order.{find, find-add_block}
use taiko_preconfer.Head.{update_blocks}
use taiko_preconfer.Head.Invariant.{AnswersById}

-- What is known of the chain past the last confirmed block, without the order in which it came.
abbrev pub View : Type 0 → Type 0
View Tx = ℕ → Option (Block Tx)

abbrev pub or_else : {A : Type 0} → Option A → Option A → Option A
or_else none o = o
or_else (some a) o = some a

module _ {Tx : Type 0} where
  abbrev pub put : Block Tx → View Tx → View Tx
  put b v n = if b.header.number == n then some b else v n

  abbrev pub up_to : ℕ → View Tx → View Tx
  up_to m v n = if leb n m then v n else none

  -- The numbers from `first` on, `count` of them, as the node knows them now.
  abbrev pub reread : (Option ℕ → Option (Block Tx)) → ℕ → ℕ → View Tx → View Tx
  reread get_block first count v n =
      if leb first n && ltb n (first + count) then or_else (get_block (some n)) (v n) else v n

  -- Everything past the number is read again, up to the node's latest block, and cut off there.
  abbrev pub reorganise : (Option ℕ → Option (Block Tx)) → Option (Block Tx) → ℕ → View Tx → View Tx
  reorganise get_block none current v = up_to current v
  reorganise get_block (some latest) current v =
      if ltb current latest.header.number
      then up_to latest.header.number
          (put latest (reread get_block (current + 1) (latest.header.number - (current + 1)) v))
      else up_to current v

  pub find-retain_le :
      (m n : ℕ) (bs : List (Block Tx))
      → find n (retain_blocks (λ b. leb b.header.number m) bs) ≡ up_to m (λ i. find i bs) n
  unfolding retain_blocks
  find-retain_le m n [] = ground arith
  find-retain_le m n (b ∷ bs) = ground (arith, find-retain_le m n bs)

  module _ (get_block : Option ℕ → Option (Block Tx)) (by_id : AnswersById get_block) where
    -- A round more than the rest: the number is looked up, and the others are left to the rest.
    skip_lem :
        (count id n : ℕ) (v : View Tx)
        → get_block (some id) ≡ none
        → reread get_block (id + 1) count v n ≡ reread get_block id (suc count) v n
    skip_lem count id n v e = elim (Bool-cases (id == n)) [
      | inl t ↦
          let same : id ≡ n = ground arith in
          let unknown : get_block (some n) ≡ none = subst (λ i. get_block (some i) ≡ none) same e in
          rw unknown (ground arith)
      | inr f ↦
          let both : leb (id + 1) n && ltb n (id + 1 + count) ≡ leb id n && ltb n (id + suc count) =
            ground arith in
          ap (λ t. if t then or_else (get_block (some n)) (v n) else v n) both
    ]

    take_lem :
        (count id n : ℕ) (v : View Tx) (b : Block Tx)
        → get_block (some id) ≡ some b
        → reread get_block (id + 1) count (put b v) n ≡ reread get_block id (suc count) v n
    take_lem count id n v b e = elim (Bool-cases (id == n)) [
      | inl t ↦
          let same : id ≡ n = ground arith in
          let known : get_block (some n) ≡ some b =
            subst (λ i. get_block (some i) ≡ some b) same e in
          let own : b.header.number ≡ id = by_id id b e in rw known (ground arith)
      | inr f ↦
          let own : b.header.number ≡ id = by_id id b e in
          let other : (b.header.number == n) ≡ false = ground arith in
          let both : leb (id + 1) n && ltb n (id + 1 + count) ≡ leb id n && ltb n (id + suc count) =
            ground arith in
          rw other (ap (λ t. if t then or_else (get_block (some n)) (v n) else v n) both)
    ]

    pub reread-eq :
        (first count n : ℕ) (v w : View Tx)
        → v n ≡ w n
        → reread get_block first count v n ≡ reread get_block first count w n
    reread-eq first count n v w e = rw e refl

    pub update_blocks-reread :
        (count id n : ℕ) (cache : List (Block Tx))
        → find n (update_blocks get_block count id cache).0
          ≡ reread get_block id count (λ i. find i cache) n
    unfolding update_blocks
    update_blocks-reread zero id n cache = ground arith
    update_blocks-reread (suc count) id n cache = elim (Option-cases (get_block (some id))) [
      | inl e ↦
          rw (e, update_blocks)
            (update_blocks-reread count (id + 1) n cache
              ∙ skip_lem count id n (λ i. find i cache) e)
      | inr (b, e) ↦
          rw (e, update_blocks)
            (update_blocks-reread count (id + 1) n (add_block cache b)
              ∙ (reread-eq (id + 1) count n (λ i. find i (add_block cache b))
                    (put b (λ i. find i cache)) (find-add_block n cache b)
                  ∙ take_lem count id n (λ i. find i cache) b e))
    ]

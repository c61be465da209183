-- ===== src/Head/Runs.antt =====
-- preconfirmation/src/stream/l2_head_info_stream.rs with the other user of the cache: any interleaving
-- of stream items and of removals by the confirmation strategy.
use taiko_preconfer.Prelude.{ℕ, ◌≡◌, Bool, List, Option}
use taiko_preconfer.Prelude.Outcome.{Outcome, ok}
use taiko_preconfer.Chain.{Header, Block}
use taiko_preconfer.Cache.{retain_blocks}
use taiko_preconfer.Head.{State, StreamData, handle}
use taiko_preconfer.Head.Invariant.{Inv, AnswersById, handle-Inv, retain_blocks-Inv}

module _ {Tx : Type 0} (E : Type 0) where
  -- What the node and the verifier answer may differ from step to step.
  pub data Step (s : State Tx) : State Tx → Type 0 where
    item :
        {t : State Tx} (get_block : Option ℕ → Option (Block Tx)) (by_id : AnswersById get_block)
        (verify : List (Block Tx) → Outcome E Bool) (d : StreamData Tx) (hs : List Header)
        → handle get_block verify s d ≡ ok (t, hs)
        → Step s t
    prune : (f : Block Tx → Bool) → Step s (record s { tx_cache = retain_blocks f s.tx_cache })

  pub data Reach (s : State Tx) : State Tx → Type 0 where
    here : Reach s s
    next : {t u : State Tx} → Reach s t → Step t u → Reach s u

  abbrev pub IsGood : State Tx → Type 0
  IsGood s = Inv s.last_confirmed_block_id s.tx_cache

  step-IsGood : {s t : State Tx} → IsGood s → Step s t → IsGood t
  step-IsGood {s} {t} v (item get_block by_id verify d hs e) =
      handle-Inv get_block by_id verify s t d hs v e
  step-IsGood {s} v (prune f) = retain_blocks-Inv s.last_confirmed_block_id f s.tx_cache v

  -- Whatever blocks and confirmations arrive, whatever the verifier answers and whatever is removed
  -- meanwhile, a cache that lists blocks by rising number, all past the last confirmed block, stays
  -- such a list, if the node answers each request for a number with the block of that number.
  pub Reach-IsGood : {s t : State Tx} → IsGood s → Reach s t → IsGood t
  Reach-IsGood v here = v
  Reach-IsGood v (next r st) = step-IsGood (Reach-IsGood v r) st

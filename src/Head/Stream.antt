-- ===== src/Head/Stream.antt =====
-- preconfirmation/src/stream/l2_head_info_stream.rs, `get_l2_head_stream` as a whole: the items that it
-- yields, and the cache behind it, while another task removes blocks from the cache.
use taiko_preconfer.Prelude.{ℕ, Bool, Option, List, [], ◌∷◌, ◌++◌, map, All, inl, inr}
use taiko_preconfer.Prelude.Outcome.{Outcome, ok, err, panic, Outcome-cases}
use taiko_preconfer.Chain.{Header, Block}
use taiko_preconfer.Cache.{retain_blocks}
use taiko_preconfer.Head.{State, StreamData, handle}
use taiko_preconfer.Head.Invariant.{AnswersById}
use taiko_preconfer.Head.Runs.{Reach, here, next, item, prune}

-- An item of the merged stream, with what the node and the verifier answer while it is handled; or a
-- removal by the confirmation strategy, between two items.
pub data Event (E Tx : Type 0) : Type 0 where
  received :
      (Option ℕ → Option (Block Tx))
      → (List (Block Tx) → Outcome E Bool)
      → StreamData Tx
      → Event E Tx
  removal : (Block Tx → Bool) → Event E Tx

module _ {E Tx : Type 0} where
  unfoldable pub get_l2_head_stream :
      State Tx → List (Event E Tx) → State Tx × List (Outcome E Header)
  get_l2_head_stream s [] = (s, [])
  get_l2_head_stream s (removal f ∷ events) =
      get_l2_head_stream (record s { tx_cache = retain_blocks f s.tx_cache }) events
  get_l2_head_stream s (received get_block verify d ∷ events) = elim (handle get_block verify s d) [
    | ok (t, headers) ↦ let (u, items) = get_l2_head_stream t events in (u, map ok headers ++ items)
    | err e ↦ (s, err e ∷ [])
    | panic ↦ (s, panic ∷ [])
  ]

  abbrev pub IsFaithful : Event E Tx → Type 0
  IsFaithful (received get_block verify d) = AnswersById get_block
  IsFaithful (removal f) = Unit

  Reach-append : {s t u : State Tx} → Reach E s t → Reach E t u → Reach E s u
  Reach-append r here = r
  Reach-append r (next q st) = next (Reach-append r q) st

  -- The state that the stream leaves behind is reached by steps, one for each event until it ends.
  pub get_l2_head_stream-Reach :
      (s : State Tx) (events : List (Event E Tx))
      → All IsFaithful events
      → Reach E s (get_l2_head_stream s events).0
  unfolding get_l2_head_stream
  get_l2_head_stream-Reach s [] h = here
  get_l2_head_stream-Reach s (removal f ∷ events) h =
      Reach-append (next here (prune f)) (get_l2_head_stream-Reach _ events h.1)
  get_l2_head_stream-Reach s (received get_block verify d ∷ events) h =
      elim (Outcome-cases (handle get_block verify s d)) [
        | inl ((t, headers), e) ↦
            rw (e, get_l2_head_stream)
              (Reach-append (next here (item get_block h.0 verify d headers e))
                (get_l2_head_stream-Reach t events h.1))
        | inr (inl (x, e)) ↦ rw (e, get_l2_head_stream) here
        | inr (inr e) ↦ rw (e, get_l2_head_stream) here
      ]

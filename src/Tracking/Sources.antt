-- ===== src/Tracking/Sources.antt =====
-- taiko-preconfer/src/onchain_tracking_loop.rs: the streams that the program follows, and the loop over
-- both. What a subscription delivers and what polling finds are lists; `turns` says in which order
-- their items arrive.
use taiko_preconfer.Prelude.{ℕ, Bool, true, false, Option, List, [], ◌∷◌, ◌++◌}
use taiko_preconfer.Prelude.Outcome.{Outcome, ok, err, panic, ◌>>=◌}
use taiko_preconfer.Chain.{Header, Block}
use taiko_preconfer.Streams.{
  InboxPoll, get_header_stream, get_block_stream, get_header_polling_stream,
  get_block_polling_stream, get_confirmed_id_polling_stream, get_id_stream, ok_ids,
}
use taiko_preconfer.Tracking.{L1State, stream_l1_headers, stream_l2_headers}

-- `merge`: true is the turn of the first list. When the turns are over, the rest of both follows.
module _ {A : Type 0} where
  unfoldable pub merge : List Bool → List A → List A → List A
  merge [] xs ys = xs ++ ys
  merge (true ∷ turns) [] ys = ys
  merge (true ∷ turns) (x ∷ xs) ys = x ∷ merge turns xs ys
  merge (false ∷ turns) xs [] = xs
  merge (false ∷ turns) xs (y ∷ ys) = y ∷ merge turns xs ys

-- What a stream of blocks or headers is made from: both connections, the subscription, and the
-- answers to polling.
pub record Source (E A Tx : Type 0) : Type 0 where
  pub connect : Outcome E (Unit {0})
  pub connect_ws : Outcome E (Unit {0})
  pub subscribe : Outcome E (List A)
  pub polls : List (Option (Block Tx))

-- `filter_map(|res| res.ok())`.
abbrev pub ok_blocks : {E Tx : Type 0} → List (Outcome E (Block Tx)) → List (Block Tx)
ok_blocks [] = []
ok_blocks (ok b ∷ rest) = b ∷ ok_blocks rest
ok_blocks (err e ∷ rest) = ok_blocks rest
ok_blocks (panic ∷ rest) = ok_blocks rest

module _ {E Tx : Type 0} (turns : List Bool) where
  unfoldable pub create_header_stream : Source E Header Tx → Outcome E (List Header)
  unfolding merge
  create_header_stream source = do
    connected ← source.connect
    connected_ws ← source.connect_ws
    ws_stream ← source.subscribe
    ok (get_header_stream (merge turns ws_stream (get_header_polling_stream source.polls)))

  unfoldable pub create_block_stream :
      Source E (Outcome E (Block Tx)) Tx → Outcome E (List (Block Tx))
  unfolding merge
  create_block_stream source = do
    connected ← source.connect
    connected_ws ← source.connect_ws
    ws_stream ← source.subscribe
    ok (
        get_block_stream
          (merge turns (ok_blocks ws_stream) (get_block_polling_stream source.polls)))

-- The ids of confirmed blocks: those of the event BatchProposed, and those found by polling.
unfoldable pub confirmed_ids :
    {E : Type 0} → List Bool → List (Outcome E ℕ) → List (InboxPoll E) → List ℕ
unfolding merge
confirmed_ids turns batch_proposed polls =
    get_id_stream
      (merge turns (ok_ids batch_proposed) (ok_ids (get_confirmed_id_polling_stream polls)))

-- `run`: both loops end, then the result of the L1 headers is looked at first; that one is no error.
unfoldable pub run :
    {E : Type 0}
    → L1State
    → List Header
    → Header
    → List (Outcome E Header)
    → L1State × Header × Outcome E (Unit {0})
run l1 l1_headers current l2_headers =
    let (head, result) = stream_l2_headers current l2_headers in
    (stream_l1_headers l1 l1_headers, head, result)

-- ===== src/Streams.antt =====
-- preconfirmation/src/stream/header_stream.rs, and the streams of confirmed block ids of
-- preconfirmation/src/stream/l2_head_info_stream.rs. A stream is the list of its items; two streams
-- that are merged give any interleaving of theirs.
pub mod Dedup
pub mod Polling
use taiko_preconfer.Prelude.{
  ℕ, ◌-◌, Bool, true, false, not, ◌||◌, Option, none, some, List, [], ◌∷◌, if◌then◌else◌, ◌==◌, ltb,
}
use taiko_preconfer.Prelude.Int.{ℤ, pos, negsuc, ◌==ℤ◌}
use taiko_preconfer.Prelude.Outcome.{Outcome, ok, err, panic}
use taiko_preconfer.Chain.{Header, Block}

-- The filter of `get_id_stream`, whose closure keeps `last_id`, 0 at first.
unfoldable pub filter_ids : ℕ → List ℕ → List ℕ
filter_ids last_id [] = []
filter_ids last_id (id ∷ ids) =
    let rest = filter_ids id ids in
    let same = filter_ids last_id ids in if not (id == last_id) then id ∷ rest else same

unfoldable pub get_id_stream : List ℕ → List ℕ
unfolding filter_ids
get_id_stream merged = filter_ids 0 merged

-- The variables `last_header_number`, an i128 that starts at -1, and `last_hash`.
pub record LastHeader : Type 0 where
  pub number : ℤ
  pub hash : ℕ

abbrev pub no_header : LastHeader
no_header = record { number = negsuc 0; hash = 0 }

abbrev pub seen : Header → LastHeader
seen h = record { number = pos h.number; hash = h.hash }

abbrev pub is_new : LastHeader → Header → Bool
is_new last h = not (pos h.number ==ℤ last.number) || not (h.hash == last.hash)

unfoldable pub filter_headers : LastHeader → List Header → List Header
filter_headers last [] = []
filter_headers last (h ∷ hs) =
    let rest = filter_headers (seen h) hs in
    let same = filter_headers last hs in if is_new last h then h ∷ rest else same

unfoldable pub get_header_stream : List Header → List Header
unfolding filter_headers
get_header_stream merged = filter_headers no_header merged

module _ {Tx : Type 0} where
  unfoldable pub filter_blocks : LastHeader → List (Block Tx) → List (Block Tx)
  filter_blocks last [] = []
  filter_blocks last (b ∷ bs) =
      let rest = filter_blocks (seen b.header) bs in
      let same = filter_blocks last bs in if is_new last b.header then b ∷ rest else same

  unfoldable pub get_block_stream : List (Block Tx) → List (Block Tx)
  unfolding filter_blocks
  get_block_stream merged = filter_blocks no_header merged

  -- The polling streams, over the node's answers in turn: none stands for an error or no block.
  unfoldable pub poll_headers : LastHeader → List (Option (Block Tx)) → List Header
  poll_headers last [] = []
  poll_headers last (none ∷ polls) = poll_headers last polls
  poll_headers last (some b ∷ polls) =
      let rest = poll_headers (seen b.header) polls in
      let same = poll_headers last polls in if is_new last b.header then b.header ∷ rest else same

  unfoldable pub get_header_polling_stream : List (Option (Block Tx)) → List Header
  unfolding poll_headers
  get_header_polling_stream polls = poll_headers no_header polls

  unfoldable pub poll_blocks : LastHeader → List (Option (Block Tx)) → List (Block Tx)
  poll_blocks last [] = []
  poll_blocks last (none ∷ polls) = poll_blocks last polls
  poll_blocks last (some b ∷ polls) =
      let rest = poll_blocks (seen b.header) polls in
      let same = poll_blocks last polls in if is_new last b.header then b ∷ rest else same

  unfoldable pub get_block_polling_stream : List (Option (Block Tx)) → List (Block Tx)
  unfolding poll_blocks
  get_block_polling_stream polls = poll_blocks no_header polls

-- One round of `get_confirmed_id_polling_stream`: the number of batches that the inbox reports, and
-- the last block id of a batch.
pub record InboxPoll (E : Type 0) : Type 0 where
  pub num_batches : Outcome E ℕ
  pub last_block_id : ℕ → Outcome E ℕ

module _ {E : Type 0} where
  -- An error is yielded and ends the stream; a panic ends it with nothing.
  unfoldable pub poll_ids : ℕ → List (InboxPoll E) → List (Outcome E ℕ)
  poll_ids confirmed_id [] = []
  poll_ids confirmed_id (p ∷ polls) =
      let unchanged = poll_ids confirmed_id polls in
      elim p.num_batches [
        | err e ↦ err e ∷ []
        | panic ↦ []
        | ok n ↦
            if ltb 0 n
            then (elim (p.last_block_id (n - 1)) [
              | err e ↦ err e ∷ []
              | panic ↦ []
              | ok id ↦
                  let rest = poll_ids id polls in
                  if ltb confirmed_id id then ok id ∷ rest else unchanged
            ])
            else unchanged
      ]

  unfoldable pub get_confirmed_id_polling_stream : List (InboxPoll E) → List (Outcome E ℕ)
  unfolding poll_ids
  get_confirmed_id_polling_stream polls = poll_ids 0 polls

  -- `filter_map(|id| id.ok())` of taiko-preconfer/src/onchain_tracking_loop.rs.
  unfoldable pub ok_ids : List (Outcome E ℕ) → List ℕ
  ok_ids [] = []
  ok_ids (ok id ∷ rest) = id ∷ ok_ids rest
  ok_ids (err e ∷ rest) = ok_ids rest
  ok_ids (panic ∷ rest) = ok_ids rest

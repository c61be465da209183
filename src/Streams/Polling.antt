-- ===== src/Streams/Polling.antt =====
-- The polling streams: what a node's answers, or the inbox's, become.
use taiko_preconfer.Prelude.{
  ℕ, ◌-◌, ◌<◌, ◌≡◌, refl, Option, none, some, List, [], ◌∷◌, arith, Bool-cases, inl, inr, ltb,
  ltb→lt, map,
}
use taiko_preconfer.Prelude.Outcome.{Outcome-cases}
use taiko_preconfer.Chain.{Header, Block}
use taiko_preconfer.Streams.{
  LastHeader, seen, no_header, filter_headers, get_header_stream, filter_blocks, get_block_stream,
  poll_headers, get_header_polling_stream, poll_blocks, get_block_polling_stream, InboxPoll,
  poll_ids, get_confirmed_id_polling_stream, ok_ids,
}

-- The answers that are blocks.
abbrev pub answered : {A : Type 0} → List (Option A) → List A
answered [] = []
answered (none ∷ os) = answered os
answered (some a ∷ os) = a ∷ answered os

abbrev pub header_of : {Tx : Type 0} → Block Tx → Header
header_of b = b.header

module _ {Tx : Type 0} where
  poll_headers-filter :
      (last : LastHeader) (polls : List (Option (Block Tx)))
      → poll_headers last polls ≡ filter_headers last (map header_of (answered polls))
  unfolding poll_headers filter_headers
  poll_headers-filter last [] = refl
  poll_headers-filter last (none ∷ polls) = poll_headers-filter last polls
  poll_headers-filter last (some b ∷ polls) =
      ground (arith, poll_headers-filter (seen b.header) polls, poll_headers-filter last polls)

  poll_blocks-filter :
      (last : LastHeader) (polls : List (Option (Block Tx)))
      → poll_blocks last polls ≡ filter_blocks last (answered polls)
  unfolding poll_blocks filter_blocks
  poll_blocks-filter last [] = refl
  poll_blocks-filter last (none ∷ polls) = poll_blocks-filter last polls
  poll_blocks-filter last (some b ∷ polls) =
      ground (arith, poll_blocks-filter (seen b.header) polls, poll_blocks-filter last polls)

  -- Polling skips failed answers and filters the rest as the merged streams are filtered.
  pub polling-stream :
      (polls : List (Option (Block Tx)))
      → (get_header_polling_stream polls ≡ get_header_stream (map header_of (answered polls)))
        × (get_block_polling_stream polls ≡ get_block_stream (answered polls))
  unfolding get_header_polling_stream get_header_stream get_block_polling_stream get_block_stream
  polling-stream polls = (poll_headers-filter no_header polls, poll_blocks-filter no_header polls)

-- Numbers that rise, all above a bound.
abbrev pub RisesAbove : ℕ → List ℕ → Type 0
RisesAbove n [] = Unit {0}
RisesAbove n (id ∷ ids) = (n < id) × RisesAbove id ids

module _ {E : Type 0} where
  poll_ids-RisesAbove :
      (n : ℕ) (polls : List (InboxPoll E)) → RisesAbove n (ok_ids (poll_ids n polls))
  unfolding poll_ids ok_ids
  poll_ids-RisesAbove n [] = tt
  poll_ids-RisesAbove n (p ∷ polls) = elim (Outcome-cases p.num_batches) [
    | inr (inr e) ↦ rw (e, poll_ids) tt
    | inr (inl (x, e)) ↦ rw (e, poll_ids) tt
    | inl (k, e) ↦
        rw (e, poll_ids)
          (elim (Bool-cases (ltb 0 k)) [
            | inr none_yet ↦ rw none_yet (poll_ids-RisesAbove n polls)
            | inl batches ↦ rw batches (elim (Outcome-cases (p.last_block_id (k - 1))) [
              | inr (inr f) ↦ rw (f, poll_ids) tt
              | inr (inl (x, f)) ↦ rw (f, poll_ids) tt
              | inl (id, f) ↦
                  rw (f, poll_ids)
                    (elim (Bool-cases (ltb n id)) [
                      | inr old ↦ rw old (poll_ids-RisesAbove n polls)
                      | inl newer ↦ rw newer (ltb→lt n id newer, poll_ids-RisesAbove id polls)
                    ])
            ])
          ])
  ]

  -- Whatever the inbox answers, the confirmed ids of the polling stream rise.
  pub get_confirmed_id_polling_stream_rises :
      (polls : List (InboxPoll E)) → RisesAbove 0 (ok_ids (get_confirmed_id_polling_stream polls))
  unfolding get_confirmed_id_polling_stream
  get_confirmed_id_polling_stream_rises polls = poll_ids-RisesAbove 0 polls

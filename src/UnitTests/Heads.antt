-- ===== src/UnitTests/Heads.antt =====
-- preconfirmation/src/stream/l2_head_info_stream.rs, `mod tests`.
use taiko_preconfer.Prelude.{
  ℕ, ◌≡◌, refl, Bool, true, false, Option, none, some, List, [], ◌∷◌, ◌++◌, map, unwrap_or,
}
use taiko_preconfer.Prelude.Outcome.{Outcome, ok}
use taiko_preconfer.Chain.{Header, Block}
use taiko_preconfer.Cache.{add_block, sort, replace_or_push, retain_blocks, clear}
use taiko_preconfer.Head
use taiko_preconfer.Head.{StreamData, unconfirmed, confirmed, handle}
use taiko_preconfer.UnitTests.Blocks.{get_header, get_block_with_txs, get_block}
use taiko_preconfer.Head.Stream.{received, get_l2_head_stream}

-- What a test sees: the headers that the stream yields, and the cache.
abbrev Seen : Type 0
Seen = List (Outcome ℕ Header) × List (Block ℕ)

abbrev default_node : Option ℕ → Option (Block ℕ)
default_node id = some (get_block (unwrap_or id 0) 0)

-- The items arrive in this order, at an empty cache; the verifier gives one verdict.
abbrev see : (Option ℕ → Option (Block ℕ)) → Bool → Option ℕ → List (StreamData ℕ) → Seen
see f verdict initial items =
    let (s, headers) =
      get_l2_head_stream (Head.start initial []) (map (received f (λ blocks. ok verdict)) items) in
    (headers, s.tx_cache)

-- Before the confirmations, and at the end.
abbrev see_both : Bool → List (StreamData ℕ) → List (StreamData ℕ) → Seen × Seen
see_both verdict items confirmations =
    (see default_node verdict none items, see default_node verdict none (items ++ confirmations))

unfoldable returns_info_if_no_confirmed_blocks : Seen
returns_info_if_no_confirmed_blocks =
    see default_node true none (unconfirmed (get_block 1 3) ∷ unconfirmed (get_block 2 5) ∷ [])

returns_info_if_no_confirmed_blocks_passes :
    returns_info_if_no_confirmed_blocks
    ≡ (ok (get_header 1 3) ∷ ok (get_header 2 5) ∷ [], get_block 1 3 ∷ get_block 2 5 ∷ [])
unfolding returns_info_if_no_confirmed_blocks get_block get_l2_head_stream Head.start handle
    add_block sort replace_or_push retain_blocks clear
returns_info_if_no_confirmed_blocks_passes = refl

unfoldable replaces_updated_l2_blocks : Seen
replaces_updated_l2_blocks =
    see default_node true none (unconfirmed (get_block 1 3) ∷ unconfirmed (get_block 1 5) ∷ [])

replaces_updated_l2_blocks_passes :
    replaces_updated_l2_blocks
    ≡ (ok (get_header 1 3) ∷ ok (get_header 1 5) ∷ [], get_block 1 5 ∷ [])
unfolding replaces_updated_l2_blocks get_block get_l2_head_stream Head.start handle add_block sort
    replace_or_push retain_blocks clear
replaces_updated_l2_blocks_passes = refl

abbrev second_node : Option ℕ → Option (Block ℕ)
second_node none = some (get_block 2 0)
second_node (some id) = some (get_block id 0)

unfoldable replaces_updated_l2_blocks_and_all_blocks_after : Seen
replaces_updated_l2_blocks_and_all_blocks_after =
    see second_node true none
      (unconfirmed (get_block 1 3) ∷ unconfirmed (get_block 2 4) ∷ unconfirmed (get_block 1 5) ∷ [])

replaces_updated_l2_blocks_and_all_blocks_after_passes :
    replaces_updated_l2_blocks_and_all_blocks_after ≡ (
      ok (get_header 1 3) ∷ ok (get_header 2 4) ∷ ok (get_header 1 5) ∷ ok (get_header 2 0) ∷ [],
      get_block 1 5 ∷ get_block 2 0 ∷ [],
    )
unfolding replaces_updated_l2_blocks_and_all_blocks_after get_block get_l2_head_stream Head.start
    handle add_block sort replace_or_push retain_blocks clear
replaces_updated_l2_blocks_and_all_blocks_after_passes = refl

unfoldable replaces_updated_l2_blocks_with_confirmed_blocks_set : Seen
replaces_updated_l2_blocks_with_confirmed_blocks_set =
    see default_node true (some 1) (unconfirmed (get_block 1 3) ∷ unconfirmed (get_block 1 5) ∷ [])

replaces_updated_l2_blocks_with_confirmed_blocks_set_passes :
    replaces_updated_l2_blocks_with_confirmed_blocks_set
    ≡ (ok (get_header 1 3) ∷ ok (get_header 1 5) ∷ [], [])
unfolding replaces_updated_l2_blocks_with_confirmed_blocks_set get_block get_l2_head_stream
    Head.start handle add_block sort replace_or_push retain_blocks clear
replaces_updated_l2_blocks_with_confirmed_blocks_set_passes = refl

unfoldable returns_info_only_if_block_number_is_bigger : Seen
returns_info_only_if_block_number_is_bigger = see default_node true (some 2) (
    confirmed 2
    ∷ unconfirmed (get_block 1 3)
    ∷ unconfirmed (get_block 2 5)
    ∷ unconfirmed (get_block 3 3)
    ∷ [])

returns_info_only_if_block_number_is_bigger_passes :
    returns_info_only_if_block_number_is_bigger
    ≡ (ok (get_header 2 5) ∷ ok (get_header 3 3) ∷ [], get_block 3 3 ∷ [])
unfolding returns_info_only_if_block_number_is_bigger get_block get_l2_head_stream Head.start handle
    add_block sort replace_or_push retain_blocks clear
returns_info_only_if_block_number_is_bigger_passes = refl

unfoldable removes_confirmed_blocks_without_txs : Seen × Seen
removes_confirmed_blocks_without_txs =
    see_both true
      (unconfirmed (get_block 1 3) ∷ unconfirmed (get_block 2 5) ∷ unconfirmed (get_block 3 3) ∷ [])
      (confirmed 1 ∷ confirmed 2 ∷ [])

removes_confirmed_blocks_without_txs_passes : removes_confirmed_blocks_without_txs ≡ (
  (
    ok (get_header 1 3) ∷ ok (get_header 2 5) ∷ ok (get_header 3 3) ∷ [],
    get_block 1 3 ∷ get_block 2 5 ∷ get_block 3 3 ∷ [],
  ),
  (ok (get_header 1 3) ∷ ok (get_header 2 5) ∷ ok (get_header 3 3) ∷ [], get_block 3 3 ∷ []),
)
unfolding removes_confirmed_blocks_without_txs get_block get_l2_head_stream Head.start handle
    add_block sort replace_or_push retain_blocks clear
removes_confirmed_blocks_without_txs_passes = refl

unfoldable removes_one_confirmed_block_with_one_tx : Seen × Seen
removes_one_confirmed_block_with_one_tx =
    see_both true (unconfirmed (get_block_with_txs 2 3 (0 ∷ [])) ∷ unconfirmed (get_block 3 5) ∷ [])
      (confirmed 1 ∷ confirmed 2 ∷ [])

removes_one_confirmed_block_with_one_tx_passes : removes_one_confirmed_block_with_one_tx ≡ (
  (
    ok (get_header 2 3) ∷ ok (get_header 3 5) ∷ [],
    get_block_with_txs 2 3 (0 ∷ []) ∷ get_block 3 5 ∷ [],
  ),
  (ok (get_header 2 3) ∷ ok (get_header 3 5) ∷ [], get_block 3 5 ∷ []),
)
unfolding removes_one_confirmed_block_with_one_tx get_block get_l2_head_stream Head.start handle
    add_block sort replace_or_push retain_blocks clear
removes_one_confirmed_block_with_one_tx_passes = refl

unfoldable removes_all_blocks_if_txs_cause_mismatch : Seen × Seen
removes_all_blocks_if_txs_cause_mismatch =
    see_both false
      (unconfirmed (get_block_with_txs 2 3 (0 ∷ [])) ∷ unconfirmed (get_block 3 5) ∷ [])
      (confirmed 1 ∷ confirmed 2 ∷ [])

removes_all_blocks_if_txs_cause_mismatch_passes : removes_all_blocks_if_txs_cause_mismatch ≡ (
  (
    ok (get_header 2 3) ∷ ok (get_header 3 5) ∷ [],
    get_block_with_txs 2 3 (0 ∷ []) ∷ get_block 3 5 ∷ [],
  ),
  (ok (get_header 2 3) ∷ ok (get_header 3 5) ∷ ok (get_header 2 0) ∷ [], []),
)
unfolding removes_all_blocks_if_txs_cause_mismatch get_block get_l2_head_stream Head.start handle
    add_block sort replace_or_push retain_blocks clear
removes_all_blocks_if_txs_cause_mismatch_passes = refl

unfoldable removes_one_confirmed_block_with_two_txs : Seen × Seen
removes_one_confirmed_block_with_two_txs =
    see_both true
      (unconfirmed (get_block_with_txs 2 3 (0 ∷ 1 ∷ [])) ∷ unconfirmed (get_block 3 5) ∷ [])
      (confirmed 1 ∷ confirmed 2 ∷ [])

removes_one_confirmed_block_with_two_txs_passes : removes_one_confirmed_block_with_two_txs ≡ (
  (
    ok (get_header 2 3) ∷ ok (get_header 3 5) ∷ [],
    get_block_with_txs 2 3 (0 ∷ 1 ∷ []) ∷ get_block 3 5 ∷ [],
  ),
  (ok (get_header 2 3) ∷ ok (get_header 3 5) ∷ [], get_block 3 5 ∷ []),
)
unfolding removes_one_confirmed_block_with_two_txs get_block get_l2_head_stream Head.start handle
    add_block sort replace_or_push retain_blocks clear
removes_one_confirmed_block_with_two_txs_passes = refl

unfoldable removes_two_confirmed_blocks_with_two_txs : Seen × Seen
removes_two_confirmed_blocks_with_two_txs =
    see_both true
      (unconfirmed (get_block_with_txs 2 3 (0 ∷ 1 ∷ []))
        ∷ unconfirmed (get_block_with_txs 3 5 (2 ∷ 3 ∷ []))
        ∷ unconfirmed (get_block 4 3)
        ∷ [])
      (confirmed 1 ∷ confirmed 3 ∷ [])

removes_two_confirmed_blocks_with_two_txs_passes : removes_two_confirmed_blocks_with_two_txs ≡ (
  (
    ok (get_header 2 3) ∷ ok (get_header 3 5) ∷ ok (get_header 4 3) ∷ [],
    get_block_with_txs 2 3 (0 ∷ 1 ∷ []) ∷ get_block_with_txs 3 5 (2 ∷ 3 ∷ []) ∷ get_block 4 3 ∷ [],
  ),
  (ok (get_header 2 3) ∷ ok (get_header 3 5) ∷ ok (get_header 4 3) ∷ [], get_block 4 3 ∷ []),
)
unfolding removes_two_confirmed_blocks_with_two_txs get_block get_l2_head_stream Head.start handle
    add_block sort replace_or_push retain_blocks clear
removes_two_confirmed_blocks_with_two_txs_passes = refl

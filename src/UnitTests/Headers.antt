-- ===== src/UnitTests/Headers.antt =====
-- preconfirmation/src/stream/header_stream.rs, `mod tests`. A test makes the streams wait for each other, so
-- the items are merged in one order.
use taiko_preconfer.Prelude.{◌≡◌, refl, List, [], ◌∷◌}
use taiko_preconfer.Chain.{Header}
use taiko_preconfer.Streams.{get_header_stream}
use taiko_preconfer.UnitTests.Blocks.{get_header}

unfoldable can_receive_value_from_second_stream : List Header
can_receive_value_from_second_stream = get_header_stream (get_header 3 5 ∷ [])

can_receive_value_from_second_stream_passes :
    can_receive_value_from_second_stream ≡ get_header 3 5 ∷ []
unfolding can_receive_value_from_second_stream get_header_stream get_header
can_receive_value_from_second_stream_passes = refl

unfoldable can_receive_value_from_first_stream : List Header
can_receive_value_from_first_stream = get_header_stream (get_header 3 5 ∷ [])

can_receive_value_from_first_stream_passes :
    can_receive_value_from_first_stream ≡ get_header 3 5 ∷ []
unfolding can_receive_value_from_first_stream get_header_stream get_header
can_receive_value_from_first_stream_passes = refl

unfoldable does_not_receive_value_from_any_stream : List Header
does_not_receive_value_from_any_stream = get_header_stream []

does_not_receive_value_from_any_stream_passes : does_not_receive_value_from_any_stream ≡ []
unfolding does_not_receive_value_from_any_stream get_header_stream get_header
does_not_receive_value_from_any_stream_passes = refl

unfoldable filters_duplicate_blocks : List Header
filters_duplicate_blocks = get_header_stream (get_header 3 5 ∷ get_header 3 5 ∷ [])

filters_duplicate_blocks_passes : filters_duplicate_blocks ≡ get_header 3 5 ∷ []
unfolding filters_duplicate_blocks get_header_stream get_header
filters_duplicate_blocks_passes = refl

unfoldable considers_duplicate_block_numbers_if_hashes_differ : List Header
considers_duplicate_block_numbers_if_hashes_differ =
    get_header_stream (get_header 3 5 ∷ get_header 3 3 ∷ get_header 3 3 ∷ [])

considers_duplicate_block_numbers_if_hashes_differ_passes :
    considers_duplicate_block_numbers_if_hashes_differ ≡ get_header 3 5 ∷ get_header 3 3 ∷ []
unfolding considers_duplicate_block_numbers_if_hashes_differ get_header_stream get_header
considers_duplicate_block_numbers_if_hashes_differ_passes = refl

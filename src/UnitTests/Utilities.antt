-- ===== src/UnitTests/Utilities.antt =====
-- preconfirmation/src/util.rs and preconfirmation/src/taiko/anchor.rs, `mod tests`: the tests that need no
-- ABI decoder.
use Prim.Native.String.{String}
use taiko_preconfer.Prelude.{ℕ, ◌≡◌, refl, Bool, true, not, Option, some, [], ◌∷◌}
use taiko_preconfer.Prelude.Outcome.{Outcome, ok}
use taiko_preconfer.Anchor.{compute_valid_anchor_id}
use taiko_preconfer.Batch.{Bytes, pad_left}
use taiko_preconfer.Confirm.{is_not_outdated_timestamp}
use taiko_preconfer.Hex.{ParseIntError, hex_to_u64, u64_to_hex}
use taiko_preconfer.InboxErrors.{parse_taiko_inbox_error}

unfoldable last_block_timestamp_is_invalid_if_before_last_batch_timestamp : Bool
last_block_timestamp_is_invalid_if_before_last_batch_timestamp =
    not (is_not_outdated_timestamp 1 0 2 0 0)

last_block_timestamp_is_invalid_if_before_last_batch_timestamp_passes :
    last_block_timestamp_is_invalid_if_before_last_batch_timestamp ≡ true
unfolding last_block_timestamp_is_invalid_if_before_last_batch_timestamp is_not_outdated_timestamp
last_block_timestamp_is_invalid_if_before_last_batch_timestamp_passes = refl

unfoldable last_block_timestamp_is_invalid_if_smaller_than_time_shift : Bool
last_block_timestamp_is_invalid_if_smaller_than_time_shift =
    not (is_not_outdated_timestamp 1 0 2 2 0)

last_block_timestamp_is_invalid_if_smaller_than_time_shift_passes :
    last_block_timestamp_is_invalid_if_smaller_than_time_shift ≡ true
unfolding last_block_timestamp_is_invalid_if_smaller_than_time_shift is_not_outdated_timestamp
last_block_timestamp_is_invalid_if_smaller_than_time_shift_passes = refl

unfoldable last_block_timestamp_is_invalid_if_more_than_max_offset_behind_current_block : Bool
last_block_timestamp_is_invalid_if_more_than_max_offset_behind_current_block =
    not (is_not_outdated_timestamp 3 12 2 2 10)

last_block_timestamp_is_invalid_if_more_than_max_offset_behind_current_block_passes :
    last_block_timestamp_is_invalid_if_more_than_max_offset_behind_current_block ≡ true
unfolding last_block_timestamp_is_invalid_if_more_than_max_offset_behind_current_block
    is_not_outdated_timestamp
last_block_timestamp_is_invalid_if_more_than_max_offset_behind_current_block_passes = refl

unfoldable valid_last_block_timestamp : Bool
valid_last_block_timestamp = is_not_outdated_timestamp 3 11 2 2 10

valid_last_block_timestamp_passes : valid_last_block_timestamp ≡ true
unfolding valid_last_block_timestamp is_not_outdated_timestamp
valid_last_block_timestamp_passes = refl

unfoldable convert_sol_error : String
convert_sol_error = parse_taiko_inbox_error "0x1999aed2"

convert_sol_error_passes : convert_sol_error ≡ "TimestampTooSmall()"
unfolding convert_sol_error parse_taiko_inbox_error
convert_sol_error_passes = refl

-- The text "0x10".
abbrev sixteen : Bytes
sixteen = b'0' ∷ b'x' ∷ b'1' ∷ b'0' ∷ []

unfoldable hex_to_u64_test : Outcome ParseIntError ℕ
hex_to_u64_test = hex_to_u64 sixteen

hex_to_u64_test_passes : hex_to_u64_test ≡ ok 16
unfolding hex_to_u64_test hex_to_u64
hex_to_u64_test_passes = refl

unfoldable u64_to_hex_test : Bytes
u64_to_hex_test = u64_to_hex 16

u64_to_hex_test_passes : u64_to_hex_test ≡ sixteen
unfolding u64_to_hex_test u64_to_hex
u64_to_hex_test_passes = refl

unfoldable left_pad : Option Bytes
left_pad = pad_left 5 (3 ∷ 2 ∷ 1 ∷ [])

left_pad_passes : left_pad ≡ some (0 ∷ 0 ∷ 3 ∷ 2 ∷ 1 ∷ [])
unfolding left_pad pad_left
left_pad_passes = refl

unfoldable desired_anchor_id_is_within_bounds : ℕ
desired_anchor_id_is_within_bounds = compute_valid_anchor_id 5 12 2 3

desired_anchor_id_is_within_bounds_passes : desired_anchor_id_is_within_bounds ≡ 3
unfolding desired_anchor_id_is_within_bounds compute_valid_anchor_id
desired_anchor_id_is_within_bounds_passes = refl

unfoldable desired_anchor_id_behind_last_anchor : ℕ
desired_anchor_id_behind_last_anchor = compute_valid_anchor_id 5 12 2 4

desired_anchor_id_behind_last_anchor_passes : desired_anchor_id_behind_last_anchor ≡ 4
unfolding desired_anchor_id_behind_last_anchor compute_valid_anchor_id
desired_anchor_id_behind_last_anchor_passes = refl

unfoldable desired_anchor_id_more_than_max_offset_behind_current_block : ℕ
desired_anchor_id_more_than_max_offset_behind_current_block = compute_valid_anchor_id 5 1 2 3

desired_anchor_id_more_than_max_offset_behind_current_block_passes :
    desired_anchor_id_more_than_max_offset_behind_current_block ≡ 4
unfolding desired_anchor_id_more_than_max_offset_behind_current_block compute_valid_anchor_id
desired_anchor_id_more_than_max_offset_behind_current_block_passes = refl

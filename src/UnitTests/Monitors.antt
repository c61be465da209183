-- ===== src/UnitTests/Monitors.antt =====
-- preconfirmation/src/preconf/sequencing_monitor.rs, `mod tests`.
use taiko_preconfer.Prelude.{ℕ, ◌≡◌, refl, Bool, true, not, Option, some, [], ◌∷◌}
use taiko_preconfer.Prelude.Outcome.{Outcome, ok}
use taiko_preconfer.Chain.{Header}
use taiko_preconfer.Monitor.{SequencingStatus, is_end_of_sequencing_status_unsafe, ready}
use taiko_preconfer.UnitTests.Blocks.{get_header}

abbrev status : ℕ → Header → SequencingStatus
status number header = record {
  highest_unsafe_l2_payload_block_id = number;
  end_of_sequencing_block_hash = header.hash;
}

unfoldable when_hash_and_block_id_match_then_is_end_of_sequencing : Bool
when_hash_and_block_id_match_then_is_end_of_sequencing =
    is_end_of_sequencing_status_unsafe (status 3 (get_header 3 42)) (get_header 3 42)

when_hash_and_block_id_match_then_is_end_of_sequencing_passes :
    when_hash_and_block_id_match_then_is_end_of_sequencing ≡ true
unfolding when_hash_and_block_id_match_then_is_end_of_sequencing is_end_of_sequencing_status_unsafe
    get_header
when_hash_and_block_id_match_then_is_end_of_sequencing_passes = refl

unfoldable when_block_id_is_different_then_is_not_end_of_sequencing : Bool
when_block_id_is_different_then_is_not_end_of_sequencing =
    not (is_end_of_sequencing_status_unsafe (status 6 (get_header 3 42)) (get_header 3 42))

when_block_id_is_different_then_is_not_end_of_sequencing_passes :
    when_block_id_is_different_then_is_not_end_of_sequencing ≡ true
unfolding when_block_id_is_different_then_is_not_end_of_sequencing
    is_end_of_sequencing_status_unsafe get_header
when_block_id_is_different_then_is_not_end_of_sequencing_passes = refl

unfoldable when_hash_is_different_then_is_not_end_of_sequencing : Bool
when_hash_is_different_then_is_not_end_of_sequencing =
    not (is_end_of_sequencing_status_unsafe (status 3 (get_header 3 69)) (get_header 3 42))

when_hash_is_different_then_is_not_end_of_sequencing_passes :
    when_hash_is_different_then_is_not_end_of_sequencing ≡ true
unfolding when_hash_is_different_then_is_not_end_of_sequencing is_end_of_sequencing_status_unsafe
    get_header
when_hash_is_different_then_is_not_end_of_sequencing_passes = refl

unfoldable when_header_and_status_match_then_sequencing_monitor_does_return :
    Option (Outcome ℕ (Unit {0}))
when_header_and_status_match_then_sequencing_monitor_does_return =
    ready ((ok (status 3 (get_header 3 42)), get_header 3 42) ∷ [])

when_header_and_status_match_then_sequencing_monitor_does_return_passes :
    when_header_and_status_match_then_sequencing_monitor_does_return ≡ some (ok tt)
unfolding when_header_and_status_match_then_sequencing_monitor_does_return
    is_end_of_sequencing_status_unsafe get_header ready
when_header_and_status_match_then_sequencing_monitor_does_return_passes = refl

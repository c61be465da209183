-- ===== src/Monitor.antt =====
-- preconfirmation/src/preconf/sequencing_monitor.rs: the wait until the node's status and the last
-- header agree. A round of the loop reads an answer of the node and the shared last header.
pub mod Ready
use taiko_preconfer.Prelude.{ℕ, Bool, true, false, ◌&&◌, Option, none, some, List, [], ◌∷◌, ◌==◌}
use taiko_preconfer.Prelude.Outcome.{Outcome, ok, err, panic}
use taiko_preconfer.Chain.{Header}

pub record SequencingStatus : Type 0 where
  pub highest_unsafe_l2_payload_block_id : ℕ
  pub end_of_sequencing_block_hash : ℕ

unfoldable pub is_end_of_sequencing_status_unsafe : SequencingStatus → Header → Bool
is_end_of_sequencing_status_unsafe status header =
    status.end_of_sequencing_block_hash == header.hash
    && status.highest_unsafe_l2_payload_block_id == header.number

-- The result of `ready` within the given rounds; none if it still polls after them.
unfoldable pub ready :
    {E : Type 0} → List (Outcome E SequencingStatus × Header) → Option (Outcome E (Unit {0}))
ready [] = none
ready ((err e, header) ∷ rounds) = some (err e)
ready ((panic, header) ∷ rounds) = some panic
ready ((ok status, header) ∷ rounds) = elim (is_end_of_sequencing_status_unsafe status header) [
  | true ↦ some (ok tt)
  | false ↦ ready rounds
]

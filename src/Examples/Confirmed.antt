-- ===== src/Examples/Confirmed.antt =====
-- The theorems at concrete inputs: a sidecar, and a batch that comes back as confirmed.
use taiko_preconfer.Prelude.{
  ℕ, ◌≡◌, refl, ◌↔◌, arith, true, false, none, some, List, [], ◌∷◌, if◌then◌else◌, ltb,
}
use taiko_preconfer.Prelude.Outcome.{ok}
use taiko_preconfer.Anchor
use taiko_preconfer.Blob.{create_blob, create_blobs, chunks, tx_bytes_to_blobs}
use taiko_preconfer.Blob.Sidecar.{
  KzgSettings, BlobTransactionSidecar, Proven, tx_bytes_to_sidecar, tx_bytes_to_sidecar-Proven,
}
use taiko_preconfer.Cache.Order.{find}
use taiko_preconfer.Batch.{BlockParams, read_blocks, get_tx_envelopes_without_anchor_from_block}
use taiko_preconfer.Batch.Contract.{contract_hash}
use taiko_preconfer.Batch.Meta.{LastBatchVerifier, verify}
use taiko_preconfer.Head.{State, confirmed, handle}
use taiko_preconfer.Head.Verified.{verify_iff, own_batch_confirmed}
use taiko_preconfer.Examples.Batches.{
  block, cache, cache-HasFirst, codec, stats, batch, inbox, fees, inbox-latest,
}

-- A commitment and a proof are one byte.
abbrev kzg : KzgSettings ℕ
kzg = record {
  blob_to_kzg_commitment = λ blob. ok (5 ∷ []);
  compute_blob_kzg_proof = λ blob commitment. ok (6 ∷ commitment);
}

abbrev sidecar : BlobTransactionSidecar
sidecar = record {
  blobs = create_blob (7 ∷ 8 ∷ []) ∷ [];
  commitments = (5 ∷ []) ∷ [];
  proofs = (6 ∷ 5 ∷ []) ∷ [];
}

sidecar_lem : tx_bytes_to_sidecar kzg (7 ∷ 8 ∷ []) ≡ ok sidecar
unfolding tx_bytes_to_sidecar tx_bytes_to_blobs create_blobs chunks
sidecar_lem = refl

tx_bytes_to_sidecar-Proven_example :
    (sidecar.blobs ≡ tx_bytes_to_blobs (7 ∷ 8 ∷ []))
    × Proven kzg (tx_bytes_to_blobs (7 ∷ 8 ∷ [])) sidecar.commitments sidecar.proofs
tx_bytes_to_sidecar-Proven_example = tx_bytes_to_sidecar-Proven kzg (7 ∷ 8 ∷ []) sidecar sidecar_lem

-- The first two blocks of the cache were proposed as one batch.
abbrev verifier : LastBatchVerifier ℕ
verifier = record { taiko_inbox = inbox; base_fee_config = fees; use_blobs = false }

abbrev both : List BlockParams
both =
    record { num_transactions = 1; time_shift = 0; signal_slots = [] }
    ∷ record { num_transactions = 1; time_shift = 2; signal_slots = [] }
    ∷ []

reads_both : read_blocks (block 1 100 40 ∷ block 2 102 40 ∷ []) ≡ some (both, 1 ∷ 2 ∷ [], 102)
unfolding read_blocks get_tx_envelopes_without_anchor_from_block
reads_both = refl

abbrev state : State ℕ
state = record { last_confirmed_block_id = none; tx_cache = cache; first_confirmation = false }

own_batch_confirmed_example :
    (t : State ℕ) × (handle
        (λ id. none)
        (λ blocks. (verify codec verifier (Anchor.new 96 8) blocks).1)
        state
        (confirmed 2)
      ≡ ok (t, []))
    × (t.last_confirmed_block_id ≡ some 2)
    × ((n : ℕ) → find n t.tx_cache ≡ (if ltb 2 n then find n state.tx_cache else none))
own_batch_confirmed_example =
    own_batch_confirmed codec (block 1 100 40) (block 2 102 40 ∷ []) [] both (1 ∷ 2 ∷ []) 102
      (cache-HasFirst.0, (cache-HasFirst.1.0, tt)) reads_both refl verifier stats batch
      (block 40 90 0).header (block 60 90 0).header inbox-latest refl refl (1 ∷ 2 ∷ []) [] refl
      (λ e. absurd (cc)) refl (λ id. none) (Anchor.new 96 8) state 2 (omega arith) refl

verify_iff_example :
    ((verify codec verifier (Anchor.new 96 8) cache).1 ≡ ok true)
    ↔ (batch.meta_hash ≡ contract_hash codec 77 both (1 ∷ 2 ∷ []) [] batch 9040 90 60 fees false)
verify_iff_example =
    verify_iff codec (block 1 100 40) (block 2 102 40 ∷ []) [] both (1 ∷ 2 ∷ []) 102
      (cache-HasFirst.0, (cache-HasFirst.1.0, tt)) reads_both refl verifier stats batch
      (block 40 90 0).header (block 60 90 0).header inbox-latest refl refl (1 ∷ 2 ∷ []) [] refl
      (λ e. absurd (cc)) (Anchor.new 96 8) cache refl

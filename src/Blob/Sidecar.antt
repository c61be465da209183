-- ===== src/Blob/Sidecar.antt =====
-- preconfirmation/src/blob.rs: the sidecar of a transaction with blobs. c_kzg's commitments and proofs are
-- arguments.
use taiko_preconfer.Prelude.{ℕ, ◌≡◌, refl, subst, List, [], ◌∷◌}
use taiko_preconfer.Prelude.Outcome.{Outcome, ok, ok_injective, ◌>>=◌, >>=-eq-ok}
use taiko_preconfer.Blob.{tx_bytes_to_blobs}

pub record KzgSettings (E : Type 0) : Type 0 where
  pub blob_to_kzg_commitment : List ℕ → Outcome E (List ℕ)
  pub compute_blob_kzg_proof : List ℕ → List ℕ → Outcome E (List ℕ)

pub record BlobTransactionSidecar : Type 0 where
  pub blobs : List (List ℕ)
  pub commitments : List (List ℕ)
  pub proofs : List (List ℕ)

module _ {E : Type 0} (kzg : KzgSettings E) where
  -- The loop: the commitments and proofs of the blobs from here on. The first error ends it.
  unfoldable pub commit : List (List ℕ) → Outcome E (List (List ℕ) × List (List ℕ))
  commit [] = ok ([], [])
  commit (blob ∷ blobs) = do
    commitment ← kzg.blob_to_kzg_commitment blob
    proof ← kzg.compute_blob_kzg_proof blob commitment
    (commitments, proofs) ← commit blobs
    ok (commitment ∷ commitments, proof ∷ proofs)

  unfoldable pub blobs_to_sidecar : List (List ℕ) → Outcome E BlobTransactionSidecar
  unfolding commit
  blobs_to_sidecar blobs = do
    (commitments, proofs) ← commit blobs
    ok (record { blobs = blobs; commitments = commitments; proofs = proofs })

  unfoldable pub tx_bytes_to_sidecar : List ℕ → Outcome E BlobTransactionSidecar
  unfolding blobs_to_sidecar
  tx_bytes_to_sidecar tx_bytes = blobs_to_sidecar (tx_bytes_to_blobs tx_bytes)

  -- One commitment and one proof for each blob, in the order of the blobs.
  abbrev pub Proven : List (List ℕ) → List (List ℕ) → List (List ℕ) → Type 0
  Proven [] [] [] = Unit
  Proven (blob ∷ blobs) (commitment ∷ commitments) (proof ∷ proofs) =
      (kzg.blob_to_kzg_commitment blob ≡ ok commitment)
      × (kzg.compute_blob_kzg_proof blob commitment ≡ ok proof)
      × Proven blobs commitments proofs
  Proven [] [] (proof ∷ proofs) = ⊥
  Proven [] (commitment ∷ commitments) proofs = ⊥
  Proven (blob ∷ blobs) [] proofs = ⊥
  Proven (blob ∷ blobs) (commitment ∷ commitments) [] = ⊥

  commit-Proven :
      (blobs commitments proofs : List (List ℕ))
      → commit blobs ≡ ok (commitments, proofs)
      → Proven blobs commitments proofs
  unfolding commit
  commit-Proven [] commitments proofs h =
      subst (λ p. Proven [] p.0 p.1) (ok_injective _ (commitments, proofs) h) tt
  commit-Proven (blob ∷ blobs) commitments proofs h =
      let (commitment, committed, h1) = >>=-eq-ok (kzg.blob_to_kzg_commitment blob) _ h in
      let (proof, proved, h2) = >>=-eq-ok (kzg.compute_blob_kzg_proof blob commitment) _ h1 in
      let ((cs, ps), rest, h3) = >>=-eq-ok (commit blobs) _ h2 in
      subst (λ p. Proven (blob ∷ blobs) p.0 p.1) (ok_injective _ (commitments, proofs) h3)
        (committed, proved, commit-Proven blobs cs ps rest)

  -- A sidecar holds the blobs of the data, and for each of them, in their order, the commitment to it and
  -- the proof for that commitment.
  pub tx_bytes_to_sidecar-Proven :
      (tx_bytes : List ℕ) (s : BlobTransactionSidecar)
      → tx_bytes_to_sidecar tx_bytes ≡ ok s
      → (s.blobs ≡ tx_bytes_to_blobs tx_bytes)
        × Proven (tx_bytes_to_blobs tx_bytes) s.commitments s.proofs
  unfolding tx_bytes_to_sidecar
  tx_bytes_to_sidecar-Proven tx_bytes s h =
      let ((commitments, proofs), made, done) =
        >>=-eq-ok (commit (tx_bytes_to_blobs tx_bytes)) _ h in
      subst
        (λ (x : BlobTransactionSidecar).
          (x.blobs ≡ tx_bytes_to_blobs tx_bytes)
          × Proven (tx_bytes_to_blobs tx_bytes) x.commitments x.proofs)
        (ok_injective _ s done)
        (refl, commit-Proven (tx_bytes_to_blobs tx_bytes) commitments proofs made)

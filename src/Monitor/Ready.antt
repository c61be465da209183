-- ===== src/Monitor/Ready.antt =====
-- preconfirmation/src/preconf/sequencing_monitor.rs: when the wait ends well.
use taiko_preconfer.Prelude.{
  ◌≡◌, ◌↔◌, inl, inr, refl, ap, arith, true, some, List, [], ◌∷◌, ◌++◌, All, Bool-cases,
}
use taiko_preconfer.Prelude.Outcome.{Outcome, ok, err, panic}
use taiko_preconfer.Chain.{Header}
use taiko_preconfer.Monitor.{SequencingStatus, is_end_of_sequencing_status_unsafe, ready}

-- The status names the header, by hash and number.
abbrev pub Agrees : SequencingStatus → Header → Type 0
Agrees s h =
    (s.end_of_sequencing_block_hash ≡ h.hash) × (s.highest_unsafe_l2_payload_block_id ≡ h.number)

Agrees-iff :
    (s : SequencingStatus) (h : Header)
    → (is_end_of_sequencing_status_unsafe s h ≡ true) ↔ Agrees s h
unfolding is_end_of_sequencing_status_unsafe
Agrees-iff s h = ground arith

module _ {E : Type 0} where
  -- The node answered, and its status did not name the header.
  abbrev pub Polls : Outcome E SequencingStatus × Header → Type 0
  Polls (ok s, h) = ¬ Agrees s h
  Polls (err e, h) = ⊥
  Polls (panic, h) = ⊥

  abbrev pub Answers : Outcome E SequencingStatus × Header → Type 0
  Answers (ok s, h) = Unit
  Answers (err e, h) = ⊥
  Answers (panic, h) = ⊥

  -- The wait ends without an error in the first round in which the node's status names the last
  -- header by hash and number; the node has answered in every round before.
  pub ready-Agrees :
      (rounds : List (Outcome E SequencingStatus × Header))
      → ready rounds ≡ some (ok tt)
      → (before : List (Outcome E SequencingStatus × Header)) × (s : SequencingStatus)
        × (h : Header) × (after : List (Outcome E SequencingStatus × Header)) × (rounds
            ≡ before ++ (ok s, h) ∷ after)
        × All Polls before
        × Agrees s h
  unfolding ready
  ready-Agrees [] e = cc
  ready-Agrees ((err x, h) ∷ rounds) e = absurd (ground arith)
  ready-Agrees ((panic, h) ∷ rounds) e = absurd (ground arith)
  ready-Agrees ((ok s, h) ∷ rounds) e = elim (Bool-cases (is_end_of_sequencing_status_unsafe s h)) [
    | inl t ↦ ([], s, h, rounds, refl, tt, (Agrees-iff s h).0 t)
    | inr f ↦
        let (before, s', h', after, split, polled, agrees) =
          ready-Agrees rounds (rw (f, ready) at e) in
        (
          (ok s, h) ∷ before,
          s',
          h',
          after,
          ap (◌∷◌ (ok s, h)) split,
          (λ a. absurd (ground (arith, (Agrees-iff s h).1 a)), polled),
          agrees,
        )
  ]

  -- If the node answers in every round, and in some round its status names the last header, then the
  -- wait ends, and without an error, whatever would follow that round.
  pub ready_returns :
      (before after : List (Outcome E SequencingStatus × Header)) (s : SequencingStatus)
      (h : Header)
      → All Answers before
      → Agrees s h
      → ready (before ++ (ok s, h) ∷ after) ≡ some (ok tt)
  unfolding ready
  ready_returns [] after s h answered agrees = rw ((Agrees-iff s h).1 agrees, ready) refl
  ready_returns ((err x, g) ∷ before) after s h answered agrees = elim answered.0 [ ]
  ready_returns ((panic, g) ∷ before) after s h answered agrees = elim answered.0 [ ]
  ready_returns ((ok r, g) ∷ before) after s h answered agrees =
      elim (Bool-cases (is_end_of_sequencing_status_unsafe r g)) [
        | inl t ↦ rw (t, ready) refl
        | inr f ↦ rw (f, ready) (ready_returns before after s h answered.1 agrees)
      ]

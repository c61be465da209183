-- ===== src/Confirm/Send.antt =====
-- preconfirmation/src/preconf/confirmation_strategy.rs: what a call of `send` does.
use taiko_preconfer.Prelude.{
  ℕ, ◌≤◌, ◌<◌, ◌≡◌, arith, Bool, true, Option, none, some, List, [], ◌∷◌, ltb, All, retain, add64,
  Bool-cases, inl, inr,
}
use taiko_preconfer.Prelude.Outcome.{Outcome, ok}
use taiko_preconfer.Chain.{Block}
use taiko_preconfer.Cache.{retain_blocks}
use taiko_preconfer.Confirm.{
  Strategy, candidates, is_sendable, check, is_not_outdated_timestamp, prune, send,
}

-- A block of this preconfer, built before the slot and not older than the offset allows.
pub record IsSendable {Tx : Type 0} (s : Strategy) (time : ℕ) (b : Block Tx) : Type 0 where
  pub past : b.header.timestamp < time
  pub own : b.header.beneficiary ≡ s.address
  pub young : add64 time 0 ≤ add64 b.header.timestamp s.valid_timestamp.max_offset

retain-retain-All :
    {A : Type 0} (P : A → Type 0) (p q : A → Bool) (xs : List A)
    → ((x : A) → p x ≡ true → q x ≡ true → P x)
    → All P (retain p (retain q xs))
retain-retain-All P p q [] h = tt
retain-retain-All P p q (x ∷ xs) h = elim (Bool-cases (q x)) [
  | inl e ↦ elim (Bool-cases (p x)) [
    | inl f ↦ rw e (rw f (h x f e, retain-retain-All P p q xs h))
    | inr f ↦ rw e (rw f (retain-retain-All P p q xs h))
  ]
  | inr e ↦ rw e (retain-retain-All P p q xs h)
]

module _ {Tx C D : Type 0} (get_anchor_block_id : Tx → Outcome D ℕ)
    (client_send : List (Block Tx) → ℕ → Outcome C (Unit {0})) (s : Strategy) (time : ℕ)
    (force_send : Bool) (current : ℕ) (cache : List (Block Tx)) where
  -- The client was called with the selected batch and succeeded.
  abbrev pub Sent : Option (List (Block Tx) × ℕ) → Type 0
  Sent none = Unit
  Sent (some (batch, id)) = client_send batch id ≡ ok tt

  -- The candidates of the cache that a call of `send` leaves are this preconfer's own blocks, built
  -- before the slot, and with the allowed offset not before it.
  pub send-IsSendable : All (IsSendable s time) (
      candidates time
        (send {D = D} get_anchor_block_id client_send s time force_send current cache).0)
  unfolding send prune candidates is_sendable check is_not_outdated_timestamp retain_blocks
  send-IsSendable =
      retain-retain-All (IsSendable s time) (λ b. ltb b.header.timestamp time) (is_sendable s time)
        cache λ b p q. (record { past = ground arith; own = ground arith; young = ground arith })

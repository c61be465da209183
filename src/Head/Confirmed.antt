-- ===== src/Head/Confirmed.antt =====
-- preconfirmation/src/stream/l2_head_info_stream.rs: what a confirmation does.
use taiko_preconfer.Prelude.{
  ℕ, ◌<◌, ◌≤◌, ◌≡◌, ◌⊎◌, refl, Bool, true, false, Option, none, some, List, [], ◌∷◌, arith, inl,
  inr, Bool-cases, if◌then◌else◌, ltb, lt→ltb, ltb→lt, unwrap_or, is_empty, retain,
}
use taiko_preconfer.Prelude.Outcome.{Outcome, ok, Outcome-cases, OnOk, OnOk_apply}
use taiko_preconfer.Chain.{Header, Block}
use taiko_preconfer.Cache.{retain_blocks, clear}
use taiko_preconfer.Cache.Order.{find}
use taiko_preconfer.Head.{
  State, StreamData, unconfirmed, confirmed, store, on_unconfirmed, check_confirmation,
  on_confirmed, handle,
}

module _ {Tx : Type 0} where
  find-retain :
      (id n : ℕ) (bs : List (Block Tx))
      → find n (retain (λ b. ltb id b.header.number) bs) ≡ (if ltb id n then find n bs else none)
  find-retain id n [] = ground arith
  find-retain id n (b ∷ bs) = ground (arith, find-retain id n bs)

  module _ (get_block : Option ℕ → Option (Block Tx)) {E : Type 0}
      (verify : List (Block Tx) → Outcome E Bool) (s : State Tx) (id : ℕ)
      (newer : unwrap_or s.last_confirmed_block_id 0 < id) where
    accepted :
        (s.first_confirmation ≡ true) ⊎ (verify s.tx_cache ≡ ok true)
        → check_confirmation get_block verify s ≡ ok true
    unfolding check_confirmation
    accepted agreed = ground arith

    -- A new confirmation that is the first, or that the verifier accepts, drops the blocks up to the
    -- confirmed one, keeps every later block, and passes no header on.
    pub confirmed_in_sync :
        (s.first_confirmation ≡ true) ⊎ (verify s.tx_cache ≡ ok true)
        → (t : State Tx) × (handle get_block verify s (confirmed id) ≡ ok (t, []))
          × (t.last_confirmed_block_id ≡ some id)
          × ((n : ℕ) → find n t.tx_cache ≡ (if ltb id n then find n s.tx_cache else none))
    unfolding handle on_confirmed retain_blocks
    confirmed_in_sync agreed = (
      record {
        last_confirmed_block_id = some id;
        tx_cache = retain (λ b. ltb id b.header.number) s.tx_cache;
        first_confirmation = false;
      },
      rw (lt→ltb _ _ newer, accepted agreed) refl,
      refl,
      λ n. find-retain id n s.tx_cache,
    )

    -- A later confirmation that the verifier rejects empties the cache and passes on the header of
    -- the confirmed block, if the node has it.
    pub confirmed_out_of_sync :
        (b : Block Tx)
        → s.first_confirmation ≡ false
        → verify s.tx_cache ≡ ok false
        → get_block (some id) ≡ some b
        → handle get_block verify s (confirmed id)
          ≡ ok (
            record { last_confirmed_block_id = some id; tx_cache = []; first_confirmation = false },
            b.header ∷ [],
          )
    unfolding handle on_confirmed check_confirmation clear
    confirmed_out_of_sync b later rejected answer =
        rw (lt→ltb _ _ newer, later, rejected, answer, on_confirmed, check_confirmation) refl

  module _ (get_block : Option ℕ → Option (Block Tx)) {E : Type 0}
      (verify : List (Block Tx) → Outcome E Bool) where
    Rises : State Tx → State Tx × List Header → Type 0
    Rises s (t, hs) = unwrap_or s.last_confirmed_block_id 0 ≤ unwrap_or t.last_confirmed_block_id 0

    on_unconfirmed-Rises : (s : State Tx) (b : Block Tx) → Rises s (on_unconfirmed get_block s b)
    unfolding on_unconfirmed Rises
    on_unconfirmed-Rises s b = elim (Bool-cases (is_empty b.transactions)) [
      | inl nothing ↦ rw nothing (omega arith)
      | inr txs ↦ rw txs (elim (Bool-cases (store s.last_confirmed_block_id s.tx_cache b).1) [
        | inl passed ↦ rw passed (omega arith)
        | inr quiet ↦ rw quiet (omega arith)
      ])
    ]

    on_confirmed-Rises :
        (s : State Tx) (id : ℕ) → OnOk (Rises s) (on_confirmed get_block verify s id)
    unfolding on_confirmed Rises
    on_confirmed-Rises s id = elim (Bool-cases (ltb (unwrap_or s.last_confirmed_block_id 0) id)) [
      | inr old ↦ rw old (omega arith)
      | inl newer ↦ rw newer (elim (Outcome-cases (check_confirmation get_block verify s)) [
        | inl (true, e) ↦ rw e (omega (arith, ltb→lt _ _ newer))
        | inl (false, e) ↦ rw e (omega (arith, ltb→lt _ _ newer))
        | inr (inl (x, e)) ↦ rw e tt
        | inr (inr e) ↦ rw e tt
      ])
    ]

    -- The last confirmed id never falls.
    pub last_confirmed_block_id_rises :
        (s t : State Tx) (d : StreamData Tx) (hs : List Header)
        → handle get_block verify s d ≡ ok (t, hs)
        → unwrap_or s.last_confirmed_block_id 0 ≤ unwrap_or t.last_confirmed_block_id 0
    unfolding handle Rises
    last_confirmed_block_id_rises s t (unconfirmed b) hs e =
        OnOk_apply (Rises s) _ (t, hs) (on_unconfirmed-Rises s b) e
    last_confirmed_block_id_rises s t (confirmed id) hs e =
        OnOk_apply (Rises s) _ (t, hs) (on_confirmed-Rises s id) e

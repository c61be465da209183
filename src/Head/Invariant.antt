-- ===== src/Head/Invariant.antt =====
-- preconfirmation/src/stream/l2_head_info_stream.rs: what holds of the cache between two items.
use taiko_preconfer.Prelude.{
  ℕ, suc, zero, ◌+◌, ◌-◌, ◌<◌, ◌≤◌, ◌≡◌, Bool, true, false, Option, none, some, List, arith, inl,
  inr, Bool-cases, Option-cases, ltb, leb, ltb→lt, leb→le, is_empty, unwrap_or, All, All-retain,
  retain-All, Sorted-retain,
}
use taiko_preconfer.Prelude.Outcome.{Outcome, ok, Outcome-cases, OnOk, OnOk_apply}
use taiko_preconfer.Chain.{Header, Block}
use taiko_preconfer.Cache.{add_block, retain_blocks, clear}
use taiko_preconfer.Cache.Order.{IsOrdered, add_block-IsOrdered, All-add_block}
use taiko_preconfer.Head.{
  State, StreamData, unconfirmed, confirmed, store, update_blocks, update_to_latest, refresh,
  on_unconfirmed, check_confirmation, on_confirmed, handle, max_number,
}

-- Past the last confirmed block, if there is one.
abbrev pub Unconfirmed : Option ℕ → ℕ → Type 0
Unconfirmed none n = Unit {0}
Unconfirmed (some last) n = last < n

Unconfirmed-mono : (last : Option ℕ) (m n : ℕ) → Unconfirmed last m → m ≤ n → Unconfirmed last n
Unconfirmed-mono none m n h le = tt
Unconfirmed-mono (some last) m n h le = omega arith

module _ {Tx : Type 0} where
  abbrev Pending : Option ℕ → Block Tx → Type 0
  Pending last b = Unconfirmed last b.header.number

  -- The cache lists blocks by rising number, all past the last confirmed one.
  pub record Inv (last : Option ℕ) (cache : List (Block Tx)) : Type 0 where
    pub ordered : IsOrdered cache
    pub pending : All (Pending last) cache

  add_block-Inv :
      (last : Option ℕ) (cache : List (Block Tx)) (b : Block Tx)
      → Inv last cache
      → Pending last b
      → Inv last (add_block cache b)
  add_block-Inv last cache b v p = record {
    ordered = add_block-IsOrdered cache b v.ordered;
    pending = All-add_block (Pending last) cache b v.pending p;
  }

  pub retain_blocks-Inv :
      (last : Option ℕ) (f : Block Tx → Bool) (cache : List (Block Tx))
      → Inv last cache
      → Inv last (retain_blocks f cache)
  unfolding retain_blocks
  retain_blocks-Inv last f cache v = record {
    ordered = Sorted-retain _ f cache v.ordered;
    pending = All-retain (Pending last) f cache v.pending;
  }

  -- The node answers a request for a number with the block of that number.
  abbrev pub AnswersById : (Option ℕ → Option (Block Tx)) → Type 0
  AnswersById get_block =
      (id : ℕ) (b : Block Tx) → get_block (some id) ≡ some b → b.header.number ≡ id

  module _ (get_block : Option ℕ → Option (Block Tx)) (by_id : AnswersById get_block) where
    update_blocks-Inv :
        (last : Option ℕ) (count id : ℕ) (cache : List (Block Tx))
        → Inv last cache
        → Unconfirmed last id
        → Inv last (update_blocks get_block count id cache).0
    unfolding update_blocks
    update_blocks-Inv last zero id cache v u = v
    update_blocks-Inv last (suc count) id cache v u = elim (Option-cases (get_block (some id))) [
      | inl e ↦
          rw (e, update_blocks)
            (update_blocks-Inv last count (id + 1) cache v
              (Unconfirmed-mono last id (id + 1) u (omega arith)))
      | inr (b, e) ↦
          rw (e, update_blocks)
            (update_blocks-Inv last count (id + 1) (add_block cache b)
              (add_block-Inv last cache b v (rw (by_id id b e) u))
              (Unconfirmed-mono last id (id + 1) u (omega arith)))
    ]

    update_to_latest-Inv :
        (last : Option ℕ) (current : ℕ) (cache : List (Block Tx))
        → Inv last cache
        → Unconfirmed last (current + 1)
        → Inv last (update_to_latest get_block current cache).1
    unfolding update_to_latest
    update_to_latest-Inv last current cache v u = elim (Option-cases (get_block none)) [
      | inl e ↦ rw (e, update_to_latest) v
      | inr (b, e) ↦
          rw (e, update_to_latest)
            (elim (Bool-cases (ltb current b.header.number)) [
              | inr old ↦ rw old v
              | inl newer ↦ rw newer (
                  add_block-Inv last _ b
                    (update_blocks-Inv last (b.header.number - (current + 1)) (current + 1) cache v
                      u)
                    (Unconfirmed-mono last (current + 1) b.header.number u
                      (omega (arith, ltb→lt current b.header.number newer))))
            ])
    ]

    refresh-Inv :
        (last : Option ℕ) (current : ℕ) (cache : List (Block Tx))
        → Inv last cache
        → Unconfirmed last (current + 1)
        → Inv last (refresh get_block current cache).0
    unfolding refresh
    refresh-Inv last current cache v u =
        elim (Bool-cases (ltb current (unwrap_or (max_number cache) current))) [
          | inl more ↦
              rw more (retain_blocks-Inv last _ _ (update_to_latest-Inv last current cache v u))
          | inr done ↦ rw done v
        ]

    -- What `store` passes on is not before the last confirmed block.
    store-Inv :
        (last : Option ℕ) (cache : List (Block Tx)) (b : Block Tx)
        → Inv last cache
        → Inv last (store last cache b).0
          × ((store last cache b).1 ≡ true → Unconfirmed last (b.header.number + 1))
    unfolding store
    store-Inv none cache b v = (add_block-Inv none cache b v tt, λ _. tt)
    store-Inv (some last) cache b v = elim (Bool-cases (leb last b.header.number)) [
      | inr early ↦ rw early (v, λ no_way. cc)
      | inl fits ↦ rw fits (elim (Bool-cases (ltb last b.header.number)) [
        | inr same ↦ rw same (v, λ _. omega (arith, leb→le last b.header.number fits))
        | inl later ↦ rw later (
          add_block-Inv (some last) cache b v (ltb→lt last b.header.number later),
          λ _. omega (arith, ltb→lt last b.header.number later),
        )
      ])
    ]

    on_unconfirmed-Inv :
        (s : State Tx) (b : Block Tx)
        → Inv s.last_confirmed_block_id s.tx_cache
        → let t = (on_unconfirmed get_block s b).0 in Inv t.last_confirmed_block_id t.tx_cache
    unfolding on_unconfirmed
    on_unconfirmed-Inv s b v =
        let last = s.last_confirmed_block_id in
        let stored = store-Inv last s.tx_cache b v in
        elim (Bool-cases (is_empty b.transactions)) [
          | inl nothing ↦ rw nothing v
          | inr txs ↦ rw txs (elim (Bool-cases (store last s.tx_cache b).1) [
            | inr quiet ↦ rw quiet stored.0
            | inl passed ↦ rw passed (
                refresh-Inv last b.header.number (store last s.tx_cache b).0 stored.0
                  (stored.1 passed))
          ])
        ]

    module _ {E : Type 0} (verify : List (Block Tx) → Outcome E Bool) where
      confirmed-Inv :
          (id : ℕ) (cache : List (Block Tx))
          → IsOrdered cache
          → Inv (some id) (retain_blocks (λ b. ltb id b.header.number) cache)
      unfolding retain_blocks
      confirmed-Inv id cache o = record {
        ordered = Sorted-retain _ _ cache o;
        pending = retain-All (Pending (some id)) _ cache (λ b h. ltb→lt id b.header.number h);
      }

      InvAt : State Tx × List Header → Type 0
      InvAt (t, hs) = Inv t.last_confirmed_block_id t.tx_cache

      on_confirmed-Inv :
          (s : State Tx) (id : ℕ)
          → Inv s.last_confirmed_block_id s.tx_cache
          → OnOk InvAt (on_confirmed get_block verify s id)
      unfolding on_confirmed clear InvAt
      on_confirmed-Inv s id v = elim (Bool-cases (ltb (unwrap_or s.last_confirmed_block_id 0) id)) [
        | inr old ↦ rw old v
        | inl newer ↦ rw newer (elim (Outcome-cases (check_confirmation get_block verify s)) [
          | inl (true, e) ↦ rw e (confirmed-Inv id s.tx_cache v.ordered)
          | inl (false, e) ↦ rw e (record { ordered = tt; pending = tt })
          | inr (inl (x, e)) ↦ rw e tt
          | inr (inr e) ↦ rw e tt
        ])
      ]

      -- Every item of the stream leaves the cache in order and past the last confirmed block, if the
      -- node answers a request for a number with the block of that number.
      pub handle-Inv :
          (s t : State Tx) (d : StreamData Tx) (hs : List Header)
          → Inv s.last_confirmed_block_id s.tx_cache
          → handle get_block verify s d ≡ ok (t, hs)
          → Inv t.last_confirmed_block_id t.tx_cache
      unfolding handle InvAt
      handle-Inv s t (unconfirmed b) hs v e =
          OnOk_apply InvAt _ (t, hs) (on_unconfirmed-Inv s b v) e
      handle-Inv s t (confirmed id) hs v e = OnOk_apply InvAt _ (t, hs) (on_confirmed-Inv s id v) e

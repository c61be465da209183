-- ===== src/Head/Refine.antt =====
-- preconfirmation/src/stream/l2_head_info_stream.rs: what the arrival of a block does to the map that
-- the cache stands for.
use taiko_preconfer.Prelude.{
  ℕ, ◌+◌, ◌-◌, ◌≤◌, ◌<◌, ◌≡◌, ◌≢◌, ◌⊎◌, inl, inr, refl, ap, subst, sym, ◌∙◌, arith, true, false,
  Option, none, some, List, [], ◌∷◌, if◌then◌else◌, ◌==◌, ltb, leb, max, unwrap_or, is_empty, All,
  All-map, Bool-cases, Option-cases,
}
use taiko_preconfer.Chain.{Block}
use taiko_preconfer.Cache.{add_block}
use taiko_preconfer.Cache.Order.{find, find-add_block}
use taiko_preconfer.Head.{
  State, max_number, store, update_blocks, update_to_latest, refresh, on_unconfirmed,
}
use taiko_preconfer.Head.Invariant.{AnswersById}
use taiko_preconfer.Head.Views.{View, put, reorganise, find-retain_le, update_blocks-reread}

-- Not before the last confirmed block.
abbrev pub Reaches : Option ℕ → ℕ → Type 0
Reaches none n = Unit
Reaches (some last) n = last ≤ n

module _ {Tx : Type 0} where
  abbrev pub view : List (Block Tx) → View Tx
  view cache n = find n cache

  -- A block is put into the map if it is past the last confirmed one.
  abbrev pub arrive : Option ℕ → Block Tx → View Tx → View Tx
  arrive none b v n = put b v n
  arrive (some last) b v n = if ltb last b.header.number then put b v n else v n

  store-arrive :
      (last : Option ℕ) (cache : List (Block Tx)) (b : Block Tx) (n : ℕ)
      → Reaches last b.header.number
      → find n (store last cache b).0 ≡ arrive last b (view cache) n
  unfolding store
  store-arrive none cache b n h = find-add_block n cache b
  store-arrive (some last) cache b n h = ground (arith, find-add_block n cache b)

  store-yields :
      (last : Option ℕ) (cache : List (Block Tx)) (b : Block Tx)
      → Reaches last b.header.number
      → (store last cache b).1 ≡ true
  unfolding store
  store-yields none cache b h = refl
  store-yields (some last) cache b h =
      let reached : leb last b.header.number ≡ true = ground arith in rw (reached, store) refl

  find_past :
      (m n : ℕ) (bs : List (Block Tx))
      → All (λ b. b.header.number ≤ m) bs
      → m < n
      → find n bs ≡ none
  find_past m n [] h lt = refl
  find_past m n (b ∷ bs) h lt = ground (arith, find_past m n bs h.1 lt)

  -- The highest number is that of a block, and no block is past it.
  abbrev IsHighest : Option ℕ → List (Block Tx) → Type 0
  IsHighest none bs = bs ≡ []
  IsHighest (some m) bs = (find m bs ≢ none) × All (λ b. b.header.number ≤ m) bs

  highest_lem :
      (b : Block Tx) (bs : List (Block Tx)) (k : ℕ)
      → find k bs ≢ none
      → find (max b.header.number k) (b ∷ bs) ≢ none
  highest_lem b bs k found = elim (Bool-cases (leb k b.header.number)) [
    | inl e ↦
        let same : max b.header.number k ≡ b.header.number = ground arith in
        let hit : (b.header.number == max b.header.number k) ≡ true = ground arith in
        λ h. let bad = rw hit at h in cc
    | inr e ↦
        let same : max b.header.number k ≡ k = ground arith in
        let miss : (b.header.number == max b.header.number k) ≡ false = ground arith in
        λ h. found (subst (λ i. find i bs ≡ none) same (rw miss at h))
  ]

  max_number-IsHighest : (bs : List (Block Tx)) → IsHighest (max_number bs) bs
  max_number-IsHighest [] = refl
  max_number-IsHighest (b ∷ bs) =
      let others = max_number-IsHighest bs in
      elim (Option-cases (max_number bs)) [
        | inl e ↦
            let empty : bs ≡ [] = subst (λ o. IsHighest o bs) e others in
            rw e (
              ground arith,
              (
                omega arith,
                subst (λ l. All (λ x. x.header.number ≤ b.header.number) l) (sym empty) tt,
              ),
            )
        | inr (k, e) ↦
            let (found, below) = subst (λ o. IsHighest o bs) e others in
            rw e (
              highest_lem b bs k found,
              (omega arith, All-map (λ x. x.header.number ≤ k) bs (λ x h. omega arith) below),
            )
      ]

  module _ (get_block : Option ℕ → Option (Block Tx)) (by_id : AnswersById get_block) where
    refresh-reorganise :
        (current n : ℕ) (cache : List (Block Tx))
        → ltb current (unwrap_or (max_number cache) current) ≡ true
        → find n (refresh get_block current cache).0
          ≡ reorganise get_block (get_block none) current (view cache) n
    unfolding refresh update_to_latest
    refresh-reorganise current n cache h = elim (Option-cases (get_block none)) [
      | inl e ↦ rw (h, refresh) (rw (e, update_to_latest) (find-retain_le current n cache))
      | inr (latest, e) ↦ elim (Bool-cases (ltb current latest.header.number)) [
        | inr f ↦ rw (h, refresh) (rw (e, update_to_latest) (rw f (find-retain_le current n cache)))
        | inl f ↦
            let count = latest.header.number - (current + 1) in
            let newer = (update_blocks get_block count (current + 1) cache).0 in
            rw (h, refresh)
              (rw (e, update_to_latest)
                (rw f (
                  find-retain_le latest.header.number n (add_block newer latest)
                  ∙ ap (λ o. if leb n latest.header.number then o else none)
                      (find-add_block n newer latest
                        ∙ ap (λ o. if latest.header.number == n then some latest else o)
                            (update_blocks-reread get_block by_id count (current + 1) n cache)))))
      ]
    ]

    reorganise-eq :
        (latest : Option (Block Tx)) (current n : ℕ) (v w : View Tx)
        → v n ≡ w n
        → reorganise get_block latest current v n ≡ reorganise get_block latest current w n
    reorganise-eq none current n v w e = rw e refl
    reorganise-eq (some latest) current n v w e =
        elim (Bool-cases (ltb current latest.header.number)) [
          | inl f ↦ rw f (rw e refl)
          | inr f ↦ rw f (rw e refl)
        ]

    module _ (s : State Tx) (b : Block Tx) (full : is_empty b.transactions ≡ false)
        (reaches : Reaches s.last_confirmed_block_id b.header.number) where
      stored : List (Block Tx)
      stored = (store s.last_confirmed_block_id s.tx_cache b).0

      abbrev pub arrived : View Tx
      arrived = arrive s.last_confirmed_block_id b (view s.tx_cache)

      on_unconfirmed_cache :
          (on_unconfirmed get_block s b).0.tx_cache ≡ (refresh get_block b.header.number stored).0
      unfolding on_unconfirmed stored
      on_unconfirmed_cache =
          rw (full, store-yields s.last_confirmed_block_id s.tx_cache b reaches) refl

      -- Nothing was cached past the block, and the map is the one with the block put into it.
      abbrev pub IsHead : Type 0
      IsHead =
          ((n : ℕ) → b.header.number < n → arrived n ≡ none)
          × ((n : ℕ) → find n (on_unconfirmed get_block s b).0.tx_cache ≡ arrived n)

      -- Something was cached past the block, and the map was reorganised past it.
      abbrev pub IsReorganised : Type 0
      IsReorganised =
          ((m : ℕ) × (b.header.number < m) × (arrived m ≢ none))
          × ((n : ℕ)
              → find n (on_unconfirmed get_block s b).0.tx_cache
                ≡ reorganise get_block (get_block none) b.header.number arrived n)

      arrived_lem : (n : ℕ) → find n stored ≡ arrived n
      unfolding stored
      arrived_lem n = store-arrive s.last_confirmed_block_id s.tx_cache b n reaches

      ahead :
          ltb b.header.number (unwrap_or (max_number stored) b.header.number) ≡ true
          → (m : ℕ) × (b.header.number < m) × (arrived m ≢ none)
      ahead h = elim (Option-cases (max_number stored)) [
        | inl e ↦ absurd (let bad = rw e at h in ground arith)
        | inr (k, e) ↦
            let (found, below) = subst (λ o. IsHighest o stored) e (max_number-IsHighest stored) in
            let later = rw e at h in (k, ground arith, λ gone. found (arrived_lem k ∙ gone))
      ]

      not_ahead :
          ltb b.header.number (unwrap_or (max_number stored) b.header.number) ≡ false
          → (n : ℕ) → b.header.number < n
          → arrived n ≡ none
      not_ahead h n lt = sym (arrived_lem n) ∙ elim (Option-cases (max_number stored)) [
        | inl e ↦
            let empty : stored ≡ [] =
              subst (λ o. IsHighest o stored) e (max_number-IsHighest stored) in
            subst (λ l. find n l ≡ none) (sym empty) refl
        | inr (k, e) ↦
            let (found, below) = subst (λ o. IsHighest o stored) e (max_number-IsHighest stored) in
            let later = rw e at h in find_past k n stored below (ground arith)
      ]

      -- A block with transactions, not before the last confirmed one, either is the head of what is then
      -- known, and the cache becomes the map with the block put in; or blocks past it were cached, and
      -- the cache becomes that map as the node knows it now: every later number is read again, the
      -- node's latest block is put in, and what is past the latest block is dropped. A number that the
      -- node fails to answer keeps its old block.
      pub on_unconfirmed-refines : IsHead ⊎ IsReorganised
      unfolding refresh
      on_unconfirmed-refines =
          elim (Bool-cases (ltb b.header.number (unwrap_or (max_number stored) b.header.number))) [
            | inl h ↦ inr (
              ahead h,
              λ n.
                  ap (find n) on_unconfirmed_cache
                  ∙ (refresh-reorganise b.header.number n stored h
                      ∙ reorganise-eq (get_block none) b.header.number n (view stored) arrived
                          (arrived_lem n)),
            )
            | inr h ↦
                let same : (refresh get_block b.header.number stored).0 ≡ stored =
                  rw (h, refresh) refl in
                inl (not_ahead h, λ n. ap (find n) (on_unconfirmed_cache ∙ same) ∙ arrived_lem n)
          ]

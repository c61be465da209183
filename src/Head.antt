-- ===== src/Head.antt =====
-- preconfirmation/src/stream/l2_head_info_stream.rs, `get_l2_head_stream`: the cache of unconfirmed
-- blocks and the headers that are passed on as the L2 head. An item of the merged stream is handled
-- as one step; the only other writer of the cache is the confirmation strategy, which removes blocks.
pub mod Invariant
pub mod Confirmed
pub mod Refine
pub mod Runs
pub mod Stream
pub mod Verified
pub mod Views
use taiko_preconfer.Prelude.{
  ℕ, suc, zero, ◌+◌, ◌-◌, Bool, true, false, Option, none, some, List, [], ◌∷◌, ◌++◌, if◌then◌else◌,
  ltb, leb, max, is_empty, unwrap_or,
}
use taiko_preconfer.Prelude.Outcome.{Outcome, ok, ◌>>=◌}
use taiko_preconfer.Chain.{Header, Block}
use taiko_preconfer.Cache.{add_block, retain_blocks, clear}

pub data StreamData (Tx : Type 0) : Type 0 where
  unconfirmed : Block Tx → StreamData Tx
  confirmed : ℕ → StreamData Tx

pub record State (Tx : Type 0) : Type 0 where
  pub last_confirmed_block_id : Option ℕ
  pub tx_cache : List (Block Tx)
  pub first_confirmation : Bool

module _ {Tx : Type 0} where
  unfoldable pub start : Option ℕ → List (Block Tx) → State Tx
  start initial_confirmed_block_id tx_cache = record {
    last_confirmed_block_id = initial_confirmed_block_id;
    tx_cache = tx_cache;
    first_confirmation = true;
  }

  -- `iter().map(number).max().unwrap_or(..)`.
  abbrev pub max_number : List (Block Tx) → Option ℕ
  max_number [] = none
  max_number (b ∷ bs) = elim (max_number bs) [
    | none ↦ some b.header.number
    | some n ↦ some (max b.header.number n)
  ]

  -- The cache with the block stored, and whether the block's header is passed on, by the last
  -- confirmed id.
  unfoldable pub store : Option ℕ → List (Block Tx) → Block Tx → List (Block Tx) × Bool
  store (some last) cache block =
      if leb last block.header.number
      then (if ltb last block.header.number then add_block cache block else cache, true)
      else (cache, false)
  store none cache block = (add_block cache block, true)

  module _ (get_block : Option ℕ → Option (Block Tx)) where
    -- The loop over `id..end` with `count` rounds left; the cache and the headers passed on.
    unfoldable pub update_blocks : ℕ → ℕ → List (Block Tx) → List (Block Tx) × List Header
    update_blocks zero id cache = (cache, [])
    update_blocks (suc count) id cache = elim (get_block (some id)) [
      | none ↦ update_blocks count (id + 1) cache
      | some block ↦
          let (cache', headers) = update_blocks count (id + 1) (add_block cache block) in
          (cache', block.header ∷ headers)
    ]

    -- The blocks after the current one are read again; the last number that is kept.
    unfoldable pub update_to_latest : ℕ → List (Block Tx) → ℕ × List (Block Tx) × List Header
    unfolding update_blocks
    update_to_latest current cache = elim (get_block none) [
      | none ↦ (current, cache, [])
      | some latest ↦
          if ltb current latest.header.number
          then (let (cache', headers) =
                update_blocks (latest.header.number - (current + 1)) (current + 1) cache in
              (latest.header.number, add_block cache' latest, headers ++ latest.header ∷ []))
          else (current, cache, [])
    ]

    unfoldable pub refresh : ℕ → List (Block Tx) → List (Block Tx) × List Header
    unfolding update_to_latest
    refresh current cache =
        if ltb current (unwrap_or (max_number cache) current)
        then (let (latest_block_number, cache', headers) = update_to_latest current cache in
            (retain_blocks (λ b. leb b.header.number latest_block_number) cache', headers))
        else (cache, [])

    unfoldable pub on_unconfirmed : State Tx → Block Tx → State Tx × List Header
    unfolding store refresh
    on_unconfirmed s block =
        if is_empty block.transactions
        then (s, [])
        else (let (cache, should_yield) = store s.last_confirmed_block_id s.tx_cache block in
            let (cache', headers) = refresh block.header.number cache in
            if should_yield
            then (record s { tx_cache = cache' }, block.header ∷ headers)
            else (record s { tx_cache = cache }, []))

    module _ {E : Type 0} (verify : List (Block Tx) → Outcome E Bool) where
      -- `first_confirmation || verifier.verify(..).await?`.
      unfoldable pub check_confirmation : State Tx → Outcome E Bool
      check_confirmation s = elim s.first_confirmation [
        | true ↦ ok true
        | false ↦ verify s.tx_cache
      ]

      unfoldable pub on_confirmed : State Tx → ℕ → Outcome E (State Tx × List Header)
      unfolding check_confirmation
      on_confirmed s id =
          if ltb (unwrap_or s.last_confirmed_block_id 0) id
          then (do
            confirmation_successful ← check_confirmation s
            let t = record s { last_confirmed_block_id = some id; first_confirmation = false }
            ok (
                if confirmation_successful
                then (
                  record t { tx_cache = retain_blocks (λ b. ltb id b.header.number) s.tx_cache },
                  [],
                )
                else (
                  record t { tx_cache = clear s.tx_cache },
                  elim (get_block (some id)) [ none ↦ [] | some b ↦ b.header ∷ [] ],
                )))
          else ok (s, [])

      -- One item of the merged stream: the state, and the headers passed on. An error of the verifier
      -- is the stream's last item.
      unfoldable pub handle : State Tx → StreamData Tx → Outcome E (State Tx × List Header)
      unfolding on_unconfirmed on_confirmed
      handle s (unconfirmed block) = ok (on_unconfirmed s block)
      handle s (confirmed id) = on_confirmed s id

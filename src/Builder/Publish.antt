-- ===== src/Builder/Publish.antt =====
-- preconfirmation/src/preconf/block_builder.rs: which block is published, and when none is.
use taiko_preconfer.Prelude.{
  ℕ, ◌≡◌, subst, ap, ◌∙◌, ◌⊎◌, inl, inr, refl, arith, Bool, true, false, not, ◌&&◌, Option, none,
  some, List, [], ◌∷◌, is_empty, add64, as_u32, as_u64, Bool-cases,
}
use taiko_preconfer.Prelude.Outcome.{ok, or_panic, ◌>>=◌, >>=-eq-ok}
use taiko_preconfer.Chain.{Header}
use taiko_preconfer.Whitelist.{Address}
use taiko_preconfer.Batch.{pad_left}
use taiko_preconfer.Builder.{
  L2Client, BuildPreconfBlockRequest, get_signed_anchor_tx, create_executable_data, publish_request,
  publish_preconfirmed_transactions, collect, publish_collected, build_block,
}

is_empty-eq : {A : Type 0} (xs : List A) → is_empty xs ≡ true → xs ≡ []
is_empty-eq [] h = refl
is_empty-eq (x ∷ xs) h = cc

or_panic-eq-ok : {E A : Type 0} (o : Option A) (a : A) → or_panic {E = E} o ≡ ok a → o ≡ some a
or_panic-eq-ok none a h = cc
or_panic-eq-ok (some b) a h = ground arith

module _ {E Tx S : Type 0} (c : L2Client E Tx S) (golden_touch : Address) (anchor_id root : ℕ)
    (last : Header) (time : ℕ) (end_of_sequencing : Bool) where
  -- The transactions of the next block: a signed anchor transaction with the given anchor, and the
  -- mempool's after it; there are some, or it is the end of sequencing.
  pub record IsCollected (base_fee : ℕ) (mempool : List Tx) (anchor_tx : Tx) : Type 0 where
    pub base : c.get_base_fee last.gas_used time ≡ ok base_fee
    pub pool : c.get_mempool_txs (as_u64 base_fee) ≡ ok mempool
    pub wanted : (is_empty mempool ≡ false) ⊎ (end_of_sequencing ≡ true)
    pub nonce : ℕ
    pub nonce_lem : c.get_nonce golden_touch ≡ ok nonce
    pub anchored :
        get_signed_anchor_tx c anchor_id root (as_u32 last.gas_used) nonce base_fee ≡ ok anchor_tx

  -- The request builds the block on the parent with these transactions.
  pub record IsRequest (base_fee : ℕ) (txs : List Tx) (request : BuildPreconfBlockRequest)
      : Type 0 where
    pub parent : request.executable_data.parent_hash ≡ last.hash
    pub number : request.executable_data.block_number ≡ add64 last.number 1
    pub at_time : request.executable_data.timestamp ≡ time
    pub recipient : request.executable_data.fee_recipient ≡ c.address
    pub fee : request.executable_data.base_fee_per_gas ≡ as_u64 base_fee
    pub limit : request.executable_data.gas_limit ≡ 241000000
    pub extra :
        pad_left 32 (c.base_fee_config.sharing_pctg ∷ []) ≡ some request.executable_data.extra_data
    pub compressed : c.compress txs ≡ ok request.executable_data.transactions
    pub flag : request.end_of_sequencing ≡ end_of_sequencing

  publish_request-IsRequest :
      (base_fee : ℕ) (txs : List Tx) (request : BuildPreconfBlockRequest)
      → publish_request c (as_u64 base_fee) time last txs end_of_sequencing ≡ ok request
      → IsRequest base_fee txs request
  unfolding publish_request create_executable_data
  publish_request-IsRequest base_fee txs request h =
      let (executable, made, done) =
        >>=-eq-ok
          (create_executable_data c (as_u64 base_fee) (add64 last.number 1)
            c.base_fee_config.sharing_pctg c.address _ last.hash time txs)
          _ h in
      let (tx_bytes, compressed, made') = >>=-eq-ok (c.compress txs) _ made in
      let (extra, padded, made'') =
        >>=-eq-ok (or_panic (pad_left 32 (c.base_fee_config.sharing_pctg ∷ []))) _ made' in
      let found =
        or_panic-eq-ok {E = E} (pad_left 32 (c.base_fee_config.sharing_pctg ∷ [])) extra padded in
      record {
        parent = ground arith;
        number = ground arith;
        at_time = ground arith;
        recipient = ground arith;
        fee = ground arith;
        limit = ground arith;
        extra = ground (arith, found);
        compressed = ground arith;
        flag = ground arith;
      }

  -- How a call that does not fail ends: nothing is published, since the mempool is empty and
  -- sequencing goes on, or the collected block is sent and its header comes back.
  abbrev pub IsBuilt : Option Header → Type 0
  IsBuilt none =
      (end_of_sequencing ≡ false)
      × ((base_fee : ℕ) × (c.get_base_fee last.gas_used time ≡ ok base_fee)
          × (c.get_mempool_txs (as_u64 base_fee) ≡ ok []))
  IsBuilt (some header) =
      (base_fee : ℕ) × (mempool : List Tx) × (anchor_tx : Tx) × (request : BuildPreconfBlockRequest)
      × IsCollected base_fee mempool anchor_tx
      × IsRequest base_fee (anchor_tx ∷ mempool) request
      × (c.post request ≡ ok header)

  abbrev IsCollection : Option (List Tx × ℕ) → Type 0
  IsCollection none = IsBuilt none
  IsCollection (some (txs, base_fee)) =
      (mempool : List Tx) × (anchor_tx : Tx) × (txs ≡ anchor_tx ∷ mempool)
      × IsCollected base_fee mempool anchor_tx

  collect-IsCollection :
      (o : Option (List Tx × ℕ))
      → collect c golden_touch (anchor_id, root) last time end_of_sequencing ≡ ok o
      → IsCollection o
  unfolding collect
  collect-IsCollection o h =
      let (base_fee, base, h1) = >>=-eq-ok (c.get_base_fee last.gas_used time) _ h in
      let (mempool, pool, h2) = >>=-eq-ok (c.get_mempool_txs (as_u64 base_fee)) _ h1 in
      elim (Bool-cases (is_empty mempool && not end_of_sequencing)) [
        | inl e ↦
            let done = rw e at h2 in
            let same : none ≡ o = ground arith in
            let empty : mempool ≡ [] = is_empty-eq mempool (ground arith) in
            subst IsCollection same (ground arith, (base_fee, base, pool ∙ ap ok empty))
        | inr e ↦
            let go = rw e at h2 in
            let (nonce, nonce_lem, h3) = >>=-eq-ok (c.get_nonce golden_touch) _ go in
            let (anchor_tx, anchored, h4) =
              >>=-eq-ok
                (get_signed_anchor_tx c anchor_id root (as_u32 last.gas_used) nonce base_fee) _
                h3 in
            let same : some (anchor_tx ∷ mempool, base_fee) ≡ o = ground arith in
            subst IsCollection same (
              mempool,
              anchor_tx,
              refl,
              record {
                base = base;
                pool = pool;
                wanted = ground arith;
                nonce = nonce;
                nonce_lem = nonce_lem;
                anchored = anchored;
              },
            )
      ]

  publish_collected-IsBuilt :
      (o : Option (List Tx × ℕ)) (built : Option Header)
      → IsCollection o
      → publish_collected c last time end_of_sequencing o ≡ ok built
      → IsBuilt built
  unfolding publish_collected publish_preconfirmed_transactions
  publish_collected-IsBuilt none built v h =
      let same : none ≡ built = ground arith in subst IsBuilt same v
  publish_collected-IsBuilt (some (txs, base_fee)) built (mempool, anchor_tx, split, v) h =
      let (header, published, h1) =
        >>=-eq-ok (publish_request c (as_u64 base_fee) time last txs end_of_sequencing >>= c.post) _
          h in
      let (request, made, posted) =
        >>=-eq-ok (publish_request c (as_u64 base_fee) time last txs end_of_sequencing) _
          published in
      let same : some header ≡ built = ground arith in
      subst IsBuilt same (
        base_fee,
        mempool,
        anchor_tx,
        request,
        v,
        subst (λ l. IsRequest base_fee l request) split
            (publish_request-IsRequest base_fee txs request made),
        posted,
      )

  -- If `build_block` does not fail, it publishes nothing exactly if the mempool is empty and sequencing
  -- goes on. Else it sends one request, which builds on the last header, at the given time, with the
  -- signed anchor transaction first and the mempool's transactions after it.
  pub build_block-IsBuilt :
      (built : Option Header)
      → build_block c golden_touch (anchor_id, root) last time end_of_sequencing ≡ ok built
      → IsBuilt built
  unfolding build_block
  build_block-IsBuilt built h =
      let (o, collected, go) =
        >>=-eq-ok (collect c golden_touch (anchor_id, root) last time end_of_sequencing) _ h in
      publish_collected-IsBuilt o built (collect-IsCollection o collected) go

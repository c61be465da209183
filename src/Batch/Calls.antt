-- ===== src/Batch/Calls.antt =====
-- preconfirmation/src/taiko/taiko_l1_client.rs, `send`: the call of `proposeBatch` and its blobs.
use taiko_preconfer.Prelude.{
  ℕ, ◌≡◌, ◌⊎◌, inl, inr, refl, ap, ◌∙◌, sym, subst, arith, Bool, true, false, Option, none, some,
  List, [], length, if◌then◌else◌, sub64, as_u8, as_u32,
}
use taiko_preconfer.Prelude.Outcome.{
  Outcome, ok, err, panic, or_panic, log_error, expect, map_or, >>=-eq-ok, ok_injective,
}
use taiko_preconfer.Blob.{tx_bytes_to_blobs}
use taiko_preconfer.Blob.Sidecar.{
  KzgSettings, BlobTransactionSidecar, Proven, tx_bytes_to_sidecar, tx_bytes_to_sidecar-Proven,
}
use taiko_preconfer.Batch.{Bytes, Batch, BlockParams}
use taiko_preconfer.Batch.Meta.{
  Stats2, get_blob_params, get_tx_bytes_and_sidecar, create_propose_batch_params,
  get_latest_confirmed_batch,
}
use taiko_preconfer.Batch.Propose.{TransactionRequest, L1Client, with_blobs, call_params, request}

pub expect-eq-ok : {E F A : Type 0} (m : Outcome E A) (a : A) → expect {F = F} m ≡ ok a → m ≡ ok a
expect-eq-ok (ok b) a h = ground arith
expect-eq-ok (err e) a h = cc
expect-eq-ok panic a h = cc

-- What `log_error` returned: the value, or nothing after an error.
abbrev pub Logged : {E A : Type 0} → Outcome E A → Option A → Type 0
Logged {E} m none = (e : E) × (m ≡ err e)
Logged m (some a) = m ≡ ok a

pub log_error-Logged :
    {E F A : Type 0} (m : Outcome E A) (o : Option A) → log_error {F = F} m ≡ ok o → Logged m o
unfolding log_error
log_error-Logged {E} {F} {A} (ok b) o h =
    let same : some b ≡ o = ground arith in subst (Logged (ok b)) same refl
log_error-Logged {E} {F} {A} (err e) o h =
    let same : none ≡ o = ground arith in subst (Logged (err e)) same (e, refl)
log_error-Logged panic o h = cc

pub or_panic-eq-ok : {E A : Type 0} (o : Option A) (a : A) → or_panic {E = E} o ≡ ok a → o ≡ some a
or_panic-eq-ok none a h = cc
or_panic-eq-ok (some b) a h = ground arith

-- Where the data is: in blobs, each with its commitment and its proof, or in the call.
abbrev pub IsCarried :
    {E : Type 0} → KzgSettings E → Bytes → Bool → Bytes → Option BlobTransactionSidecar → Type 0
IsCarried kzg tx_bytes true tx_list sidecar =
    (s : BlobTransactionSidecar) × (sidecar ≡ some s)
    × (tx_list ≡ [])
    × (s.blobs ≡ tx_bytes_to_blobs tx_bytes)
    × Proven kzg (tx_bytes_to_blobs tx_bytes) s.commitments s.proofs
IsCarried kzg tx_bytes false tx_list sidecar = (sidecar ≡ none) × (tx_list ≡ tx_bytes)

get_tx_bytes_and_sidecar-IsCarried :
    {E F : Type 0} (kzg : KzgSettings E) (tx_bytes : Bytes) (use_blobs : Bool) (tx_list : Bytes)
    (sidecar : Option BlobTransactionSidecar)
    → get_tx_bytes_and_sidecar {F = F} kzg tx_bytes use_blobs ≡ ok (tx_list, sidecar)
    → IsCarried kzg tx_bytes use_blobs tx_list sidecar
unfolding get_tx_bytes_and_sidecar
get_tx_bytes_and_sidecar-IsCarried {E} {F} kzg tx_bytes true tx_list sidecar h =
    let (s, made, done) = >>=-eq-ok (expect {F = F} (tx_bytes_to_sidecar kzg tx_bytes)) _ h in
    let (blobs, proven) =
      tx_bytes_to_sidecar-Proven kzg tx_bytes s
        (expect-eq-ok (tx_bytes_to_sidecar kzg tx_bytes) s made) in
    subst (λ p. IsCarried kzg tx_bytes true p.0 p.1) (ok_injective _ (tx_list, sidecar) done)
      (s, refl, refl, blobs, proven)
get_tx_bytes_and_sidecar-IsCarried {E} {F} kzg tx_bytes false tx_list sidecar h =
    subst (λ p. IsCarried kzg tx_bytes false p.0 p.1) (ok_injective _ (tx_list, sidecar) h)
      (refl, refl)

num_blobs_lem :
    {E : Type 0} (kzg : KzgSettings E) (tx_bytes : Bytes) (use_blobs : Bool) (tx_list : Bytes)
    (sidecar : Option BlobTransactionSidecar)
    → IsCarried kzg tx_bytes use_blobs tx_list sidecar
    → (get_blob_params sidecar (length tx_bytes)).num_blobs
      ≡ (if use_blobs then as_u8 (length (tx_bytes_to_blobs tx_bytes)) else 0)
unfolding get_blob_params
num_blobs_lem kzg tx_bytes true tx_list sidecar (s, side, _, blobs, _) =
    rw side (ap (λ (l : List Bytes). as_u8 (length l)) blobs)
num_blobs_lem kzg tx_bytes false tx_list sidecar (side, _) = rw side refl

module _ {E Tx : Type 0} (c : L1Client E Tx) where
  -- The first argument of the call, field by field.
  abbrev pub encoded_params : List BlockParams → ℕ → ℕ → ℕ → ℕ → ℕ → Bytes
  encoded_params params num_blobs byte_size parent_meta_hash anchor_id last =
      c.encode_propose_batch_params (record {
        bytes_x = [];
        bytes_y = c.encode_batch_params (record {
          proposer = c.preconfer_address;
          coinbase = c.preconfer_address;
          parent_meta_hash = parent_meta_hash;
          anchor_block_id = anchor_id;
          last_block_timestamp = last;
          revert_if_not_first_proposal = false;
          blob_params = record {
            blob_hashes = [];
            first_blob_index = 0;
            num_blobs = num_blobs;
            byte_offset = 0;
            byte_size = byte_size;
            created_in = 0;
          };
          blocks = params;
        });
      })

  -- The hash of the inbox's last batch, or zero if the inbox answers with an error.
  abbrev pub IsParentHash : ℕ → Type 0
  IsParentHash hash =
      ((stats2 : Stats2) × (batch : Batch) × (c.inbox.get_stats2 ≡ ok stats2)
        × (c.inbox.get_batch (sub64 stats2.num_batches 1) ≡ ok batch)
        × (hash ≡ batch.meta_hash))
      ⊎ ((e : E) × (get_latest_confirmed_batch c.inbox ≡ err e) × (hash ≡ 0))

  last_batch :
      (batch : Batch)
      → get_latest_confirmed_batch c.inbox ≡ ok batch
      → (stats2 : Stats2) × (c.inbox.get_stats2 ≡ ok stats2)
        × (c.inbox.get_batch (sub64 stats2.num_batches 1) ≡ ok batch)
  unfolding get_latest_confirmed_batch
  last_batch batch h = >>=-eq-ok c.inbox.get_stats2 _ h

  parent_lem :
      (hash : ℕ) (answer : Outcome E Batch)
      → get_latest_confirmed_batch c.inbox ≡ answer
      → map_or {F = E} 0 (λ batch. batch.meta_hash) answer ≡ ok hash
      → IsParentHash hash
  parent_lem hash (ok batch) e h =
      let (stats2, counted, asked) = last_batch batch e in
      inl (stats2, batch, counted, asked, sym (ok_injective _ hash h))
  parent_lem hash (err failure) e h = inr (failure, e, sym (ok_injective _ hash h))
  parent_lem hash panic e h = cc

  -- Blobs have a fee if the node tells the base fee.
  abbrev pub HasBlobFee : Option BlobTransactionSidecar → Option ℕ → Type 0
  HasBlobFee none fee = fee ≡ none
  HasBlobFee (some sidecar) fee =
      ((base_fee : ℕ) × (c.get_blob_base_fee ≡ ok base_fee) × (fee ≡ some (c.blob_fee base_fee)))
      ⊎ ((e : E) × (c.get_blob_base_fee ≡ err e) × (fee ≡ none))

  -- The parts of a request that are set before the estimates.
  pub record IsCall (anchor_id : ℕ) (params : List BlockParams) (txs : List Tx) (last : ℕ)
      (tx : TransactionRequest) : Type 0 where
    pub tx_bytes : Bytes
    pub parent_meta_hash : ℕ
    pub compressed : c.compress txs ≡ ok tx_bytes
    pub parent : IsParentHash parent_meta_hash
    pub sender : tx.from ≡ c.preconfer_address
    pub router : tx.to ≡ c.router_address
    pub carried : IsCarried c.kzg tx_bytes c.use_blobs tx.tx_list tx.sidecar
    pub blob_fee : HasBlobFee tx.sidecar tx.max_fee_per_blob_gas
    pub call :
        tx.params
        ≡ encoded_params params
            (if c.use_blobs then as_u8 (length (tx_bytes_to_blobs tx_bytes)) else 0)
            (as_u32 (length tx_bytes))
            parent_meta_hash
            anchor_id
            last

  -- A request without gas, fees and nonce.
  abbrev pub IsBare : TransactionRequest → Type 0
  IsBare tx =
      (tx.gas_limit ≡ none)
      × (tx.max_fee_per_gas ≡ none)
      × (tx.max_priority_fee_per_gas ≡ none)
      × (tx.nonce ≡ none)

  -- Blobs and their fee change no other part of the request.
  abbrev Differs : TransactionRequest → Option BlobTransactionSidecar → TransactionRequest → Type 0
  Differs tx sidecar tx' =
      (tx'.from ≡ tx.from)
      × (tx'.to ≡ tx.to)
      × (tx'.params ≡ tx.params)
      × (tx'.tx_list ≡ tx.tx_list)
      × (tx'.sidecar ≡ sidecar)
      × HasBlobFee sidecar tx'.max_fee_per_blob_gas
      × IsBare tx'

  with_blobs-Differs :
      (tx tx' : TransactionRequest) (sidecar : Option BlobTransactionSidecar)
      → tx.sidecar ≡ none
      → tx.max_fee_per_blob_gas ≡ none
      → IsBare tx
      → with_blobs c tx sidecar ≡ ok tx'
      → Differs tx sidecar tx'
  unfolding with_blobs
  with_blobs-Differs tx tx' none e f bare h =
      subst (Differs tx none) (ok_injective tx tx' h) (refl, refl, refl, refl, e, f, bare)
  with_blobs-Differs tx tx' (some sidecar) e f bare h =
      let (fee, logged, h1) = >>=-eq-ok (log_error c.get_blob_base_fee) _ h in
      feed fee (log_error-Logged c.get_blob_base_fee fee logged) h1
    where
      feed :
          (fee : Option ℕ)
          → Logged c.get_blob_base_fee fee
          → Path
              (Outcome E TransactionRequest)
              (ok (elim fee [
                | none ↦ record tx { sidecar = some sidecar }
                | some fee ↦ record tx {
                  sidecar = some sidecar;
                  max_fee_per_blob_gas = some (c.blob_fee fee);
                }
              ]))
              (ok tx')
          → Differs tx (some sidecar) tx'
      feed none (error, failed) k =
          subst (Differs tx (some sidecar)) (ok_injective _ tx' k)
            (refl, refl, refl, refl, refl, inr (error, failed, f), bare)
      feed (some base_fee) asked k =
          subst (Differs tx (some sidecar)) (ok_injective _ tx' k)
            (refl, refl, refl, refl, refl, inl (base_fee, asked, refl), bare)

  call_params_lem :
      (params : List BlockParams) (tx_bytes tx_list : Bytes)
      (sidecar : Option BlobTransactionSidecar) (parent anchor_id last : ℕ)
      → IsCarried c.kzg tx_bytes c.use_blobs tx_list sidecar
      → call_params c params sidecar (length tx_bytes) parent anchor_id last
        ≡ encoded_params params
            (if c.use_blobs then as_u8 (length (tx_bytes_to_blobs tx_bytes)) else 0)
            (as_u32 (length tx_bytes))
            parent
            anchor_id
            last
  unfolding call_params create_propose_batch_params get_blob_params
  call_params_lem params tx_bytes tx_list sidecar parent anchor_id last carried =
      ap (λ (n : ℕ). encoded_params params n (as_u32 (length tx_bytes)) parent anchor_id last)
        (num_blobs_lem c.kzg tx_bytes c.use_blobs tx_list sidecar carried)

  pub request-IsCall :
      (anchor_id : ℕ) (params : List BlockParams) (txs : List Tx) (last : ℕ)
      (tx : TransactionRequest)
      → request c anchor_id (params, txs, last) ≡ ok tx
      → IsCall anchor_id params txs last tx × IsBare tx
  unfolding request
  request-IsCall anchor_id params txs last tx h =
      let (tx_bytes, compressed, h1) = >>=-eq-ok (expect (c.compress txs)) _ h in
      let ((tx_list, sidecar), split, h2) =
        >>=-eq-ok (get_tx_bytes_and_sidecar c.kzg tx_bytes c.use_blobs) _ h1 in
      let (parent, answered, h3) =
        >>=-eq-ok (map_or 0 (λ batch. batch.meta_hash) (get_latest_confirmed_batch c.inbox)) _ h2 in
      let (sender, router, call, list, blobs, fee, bare) =
        with_blobs-Differs _ tx sidecar refl refl (refl, refl, refl, refl) h3 in
      let carried =
        get_tx_bytes_and_sidecar-IsCarried c.kzg tx_bytes c.use_blobs tx_list sidecar split in
      (
        record {
          tx_bytes = tx_bytes;
          parent_meta_hash = parent;
          compressed = expect-eq-ok (c.compress txs) tx_bytes compressed;
          parent = parent_lem parent (get_latest_confirmed_batch c.inbox) refl answered;
          sender = sender;
          router = router;
          carried =
              subst (λ l. IsCarried c.kzg tx_bytes c.use_blobs l tx.sidecar) (sym list)
                (subst (IsCarried c.kzg tx_bytes c.use_blobs tx_list) (sym blobs) carried);
          blob_fee = subst (λ s. HasBlobFee s tx.max_fee_per_blob_gas) (sym blobs) fee;
          call =
              call ∙ call_params_lem params tx_bytes tx_list sidecar parent anchor_id last carried;
        },
        bare,
      )

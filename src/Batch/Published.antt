-- ===== src/Batch/Published.antt =====
-- preconfirmation/src/taiko/taiko_l1_client.rs with preconfirmation/src/compression.rs and
-- preconfirmation/src/blob.rs: what a reader of L1 finds in a proposal.
use taiko_preconfer.Prelude.{
  ℕ, ◌%◌, ◌≤◌, ◌≡◌, subst, sym, refl, ◌∙◌, Bool, true, false, Option, none, some, List, All,
  All-take, length, take, ◌>>=◌,
}
use taiko_preconfer.Prelude.Outcome
use taiko_preconfer.Prelude.Outcome.{Outcome, ok, ok_injective}
use taiko_preconfer.Chain.{Block}
use taiko_preconfer.Blob.{max_blob_data_size}
use taiko_preconfer.Blob.Layout.{IsByte}
use taiko_preconfer.Blob.Sequence.{decode_blobs, decode_blobs-tx_bytes_to_blobs}
use taiko_preconfer.Batch.{Bytes, BlockParams, read_blocks}
use taiko_preconfer.Blob.Sidecar.{KzgSettings, BlobTransactionSidecar}
use taiko_preconfer.Batch.Calls.{IsCarried}
use taiko_preconfer.Batch.Propose.{TransactionRequest, L1Client, propose}
use taiko_preconfer.Batch.Requests.{propose-IsProposed}
use taiko_preconfer.Compression.{Compressor, compress}

-- The data of a proposal: its blobs, if it has a sidecar, and else the list in the call.
abbrev pub payload : Bytes → Option BlobTransactionSidecar → Bytes
payload tx_list none = tx_list
payload tx_list (some s) = decode_blobs s.blobs

-- What libdeflater and alloy's RLP are assumed to do: the used part of the buffer is made of bytes and is
-- inflated to the input, and transactions are decoded from their encoding.
pub record IsCodec {E Tx : Type 0} (comp : Compressor E) (encode : List Tx → Bytes)
    (inflate : Bytes → Option Bytes) (decode : Bytes → Option (List Tx)) : Type 0 where
  pub writes_bytes :
      (bytes buffer out : Bytes) (len : ℕ)
      → comp.zlib_compress bytes buffer ≡ ok (len, out)
      → All IsByte out
  pub inflates :
      (bytes buffer out : Bytes) (len : ℕ)
      → comp.zlib_compress bytes buffer ≡ ok (len, out)
      → inflate (take len out) ≡ some bytes
  pub decodes : (txs : List Tx) → decode (encode txs) ≡ some txs

module _ {E Tx : Type 0} (comp : Compressor E) (encode : List Tx → Bytes)
    (inflate : Bytes → Option Bytes) (decode : Bytes → Option (List Tx))
    (codec : IsCodec comp encode inflate decode) where
  compress_lem :
      (txs : List Tx) (tx_bytes : Bytes)
      → compress comp encode txs ≡ ok tx_bytes
      → All IsByte tx_bytes × ((inflate tx_bytes >>= decode) ≡ some txs)
  unfolding compress
  compress_lem txs tx_bytes h =
      let ((len, out), written, done) = Outcome.>>=-eq-ok (comp.zlib_compress (encode txs) _) _ h in
      let inflated = codec.inflates (encode txs) _ out len written in
      let bytes = All-take IsByte len out (codec.writes_bytes (encode txs) _ out len written) in
      subst (λ b. All IsByte b × ((inflate b >>= decode) ≡ some txs)) (ok_injective _ tx_bytes done)
        (bytes, rw inflated (codec.decodes txs))

  payload_lem :
      (kzg : KzgSettings E) (tx_bytes tx_list : Bytes) (sidecar : Option BlobTransactionSidecar)
      (use_blobs : Bool)
      → All IsByte tx_bytes
      → (use_blobs ≡ true → length tx_bytes % max_blob_data_size % 127 ≤ 123)
      → IsCarried kzg tx_bytes use_blobs tx_list sidecar
      → payload tx_list sidecar ≡ tx_bytes
  payload_lem kzg tx_bytes tx_list sidecar true bytes fits (s, side, _, blobs, _) =
      rw (side, blobs) (decode_blobs-tx_bytes_to_blobs tx_bytes bytes (fits refl))
  payload_lem kzg tx_bytes tx_list sidecar false bytes fits (side, list) = rw side list

  -- Who reads a proposal, in blobs or in the call, finds in it the transactions that `read_blocks` has
  -- read from the batch, if the client's compression is `compress` over a codec with the documented
  -- behaviour, and if, where blobs are used, the compressed data leaves room for the metadata in its last
  -- blob: its length modulo the size of a blob, modulo 127, is at most 123.
  pub payload-propose :
      (c : L1Client E Tx)
      → ((txs : List Tx) → c.compress txs ≡ compress comp encode txs)
      → (blocks : List (Block Tx)) (anchor_id : ℕ) (tx : TransactionRequest)
        (params : List BlockParams) (txs : List Tx) (last : ℕ) (tx_bytes : Bytes)
      → read_blocks blocks ≡ some (params, txs, last)
      → compress comp encode txs ≡ ok tx_bytes
      → (c.use_blobs ≡ true → length tx_bytes % max_blob_data_size % 127 ≤ 123)
      → propose c blocks anchor_id ≡ ok (some tx)
      → (inflate (payload tx.tx_list tx.sidecar) >>= decode) ≡ some txs
  payload-propose c same blocks anchor_id tx params txs last tx_bytes read compressed fits h =
      let (params', txs', last', read', (call, priced)) =
        propose-IsProposed c blocks anchor_id (some tx) h in
      let (bytes, inflated) = compress_lem txs tx_bytes compressed in
      let equal_txs : txs' ≡ txs = cc in
      let made : c.compress txs ≡ ok call.tx_bytes =
        subst (λ t. c.compress t ≡ ok call.tx_bytes) equal_txs call.compressed in
      let equal_bytes : call.tx_bytes ≡ tx_bytes =
        ok_injective _ _ (sym made ∙ (same txs ∙ compressed)) in
      rw
        (payload_lem c.kzg tx_bytes tx.tx_list tx.sidecar c.use_blobs bytes fits (
          subst (λ b. IsCarried c.kzg b c.use_blobs tx.tx_list tx.sidecar) equal_bytes
            call.carried))
        inflated

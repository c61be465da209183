-- ===== src/Examples/Published.antt =====
-- The theorems at concrete inputs: hexadecimal numbers, requests, and what a proposal publishes.
use taiko_preconfer.Prelude.{
  ℕ, ◌+◌, ◌≡◌, refl, subst, ap, ◌>>=◌, arith, true, false, Option, none, some, List, [], ◌∷◌, All,
  all, length, take, ltb, Bool-cases, inl, inr,
}
use taiko_preconfer.Prelude.Outcome
use taiko_preconfer.Prelude.Outcome.{Outcome, ok, err, panic, log_error}
use taiko_preconfer.Chain.{Block}
use taiko_preconfer.Batch.{
  Bytes, BlockParams, read_blocks, get_tx_envelopes_without_anchor_from_block,
}
use taiko_preconfer.Batch.Meta.{
  get_blob_params, get_tx_bytes_and_sidecar, create_propose_batch_params,
  get_latest_confirmed_batch,
}
use taiko_preconfer.Batch.Propose.{L1Client, call_params, request, with_blobs, priced, propose}
use taiko_preconfer.Batch.Published.{IsCodec, payload, payload-propose}
use taiko_preconfer.Blob.Layout.{IsByte}
use taiko_preconfer.Compression.{Compressor, compress}
use taiko_preconfer.Hex.{hex_to_u64, u64_to_hex, ParseIntError}
use taiko_preconfer.Hex.RoundTrip.{hex_to_u64-u64_to_hex}
use taiko_preconfer.Rpc.{
  Json, text, boolean, JsonResponse, Server, get_block_by_id, get_header_by_id,
}
use taiko_preconfer.Examples.Requests.{block, client, proposed}

hex_to_u64-u64_to_hex_example : hex_to_u64 (u64_to_hex 4077156) ≡ ok 4077156
hex_to_u64-u64_to_hex_example = hex_to_u64-u64_to_hex 4077156 (omega arith)

-- Numbers below 256 are kept as they are.
abbrev zlib_compress : Bytes → Bytes → Outcome ℕ (ℕ × Bytes)
zlib_compress bytes buffer = elim (all (λ b. ltb b 256) bytes) [
  | true ↦ ok (length bytes, bytes)
  | false ↦ err 1
]

abbrev compressor : Compressor ℕ
compressor = record { zlib_compress_bound = λ n. n + 12; zlib_compress = zlib_compress }

all-All : (bytes : Bytes) → all (λ b. ltb b 256) bytes ≡ true → All IsByte bytes
all-All [] h = tt
all-All (b ∷ bytes) h = (ground arith, all-All bytes (ground arith))

take-length : (bytes : Bytes) → take (length bytes) bytes ≡ bytes
take-length [] = refl
take-length (b ∷ bytes) = ap (◌∷◌ b) (take-length bytes)

kept :
    (bytes buffer out : Bytes) (len : ℕ)
    → zlib_compress bytes buffer ≡ ok (len, out)
    → All IsByte out × (take len out ≡ bytes)
kept bytes buffer out len h = elim (Bool-cases (all (λ b. ltb b 256) bytes)) [
  | inr e ↦ absurd (let failed = rw (e, zlib_compress) at h in cc)
  | inl e ↦
      let same : ◌≡◌ {A = ℕ × Bytes} (length bytes, bytes) (len, out) =
        Outcome.ok_injective _ _ (rw (e, zlib_compress) at h) in
      subst (λ p. All IsByte p.1 × (take p.0 p.1 ≡ bytes)) same (all-All bytes e, take-length bytes)
]

codec : IsCodec compressor (λ (txs : List ℕ). txs) some some
codec = record {
  writes_bytes = λ bytes buffer out len h. (kept bytes buffer out len h).0;
  inflates = λ bytes buffer out len h. ap some (kept bytes buffer out len h).1;
  decodes = λ txs. refl;
}

abbrev compressing : L1Client ℕ ℕ
compressing = record client { compress = compress compressor (λ txs. txs) }

abbrev params : List BlockParams
params =
    record { num_transactions = 1; time_shift = 0; signal_slots = [] }
    ∷ record { num_transactions = 1; time_shift = 1; signal_slots = [] }
    ∷ []

reads_two : read_blocks (block 6 ∷ block 7 ∷ []) ≡ some (params, 6 ∷ 7 ∷ [], 107)
unfolding read_blocks get_tx_envelopes_without_anchor_from_block
reads_two = refl

compressed : compress compressor (λ (txs : List ℕ). txs) (6 ∷ 7 ∷ []) ≡ ok (6 ∷ 7 ∷ [])
unfolding compress
compressed = refl

proposes : propose compressing (block 6 ∷ block 7 ∷ []) 40 ≡ ok (some proposed)
unfolding propose request with_blobs priced call_params get_blob_params get_tx_bytes_and_sidecar
    create_propose_batch_params get_latest_confirmed_batch read_blocks
    get_tx_envelopes_without_anchor_from_block log_error compress
proposes = refl

payload-propose_example :
    (let decoded : Option (List ℕ) = some (payload proposed.tx_list proposed.sidecar) >>= some in
      decoded)
    ≡ some (6 ∷ 7 ∷ [])
payload-propose_example =
    payload-propose compressor (λ txs. txs) some some codec compressing (λ txs. refl)
      (block 6 ∷ block 7 ∷ []) 40 proposed params (6 ∷ 7 ∷ []) 107 (6 ∷ 7 ∷ []) reads_two compressed
      (λ e. omega arith) proposes

-- A server that names blocks by the number that it reads, and knows those below 100.
abbrev named : Outcome ParseIntError ℕ → Option (Outcome ℕ (JsonResponse (Block ℕ)))
named (ok id) = some (ok (record { jsonrpc = "2.0"; id = 1; result = block id }))
named (err e) = none
named panic = none

abbrev asked : List Json → Option (Outcome ℕ (JsonResponse (Block ℕ)))
asked (text hex ∷ _) = named (hex_to_u64 hex)
asked (boolean b ∷ _) = none
asked [] = none

abbrev server : Server ℕ ℕ
server = record {
  send_for_block = λ method url request. asked request.params;
  send_for_header = λ method url request. none;
}

block_found : get_block_by_id server "http://l1" (some 26) ≡ ok (block 26)
unfolding get_block_by_id hex_to_u64 u64_to_hex
block_found = refl

header_found : get_header_by_id server "http://l1" 26 ≡ ok (block 26).header
unfolding get_header_by_id hex_to_u64 u64_to_hex
header_found = refl

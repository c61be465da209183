-- ===== src/Examples/Batches.antt =====
-- The theorems at concrete inputs: blobs, batches and their confirmation.
use taiko_preconfer.Prelude.{
  ℕ, zero, suc, ◌+◌, ◌++◌, ◌<◌, ◌≡◌, refl, arith, true, false, some, List, [], ◌∷◌, length, All,
  replicate,
}
use taiko_preconfer.Prelude.Outcome.{Outcome, ok}
use taiko_preconfer.Chain.{Block}
use taiko_preconfer.Anchor
use taiko_preconfer.Blob.{create_blob, bytes_per_blob, tx_bytes_to_blobs}
use taiko_preconfer.Blob.Layout.{IsByte}
use taiko_preconfer.Blob.Sequence.{decode_blobs, decode_blobs-tx_bytes_to_blobs}
use taiko_preconfer.Blob.Canonical.{IsCanonical, create_blob-IsCanonical}
use taiko_preconfer.Blob.Loss.{create_blob_drops_last}
use taiko_preconfer.Confirm.{Strategy}
use taiko_preconfer.Batch.{
  Bytes, BlockParams, Batch, BaseFeeConfig, pad_left, read_blocks, block_params,
  get_tx_envelopes_without_anchor_from_block, get_tx_envelopes_without_anchor_from_blocks,
}
use taiko_preconfer.Batch.Agreement.{HasFirst, Near, Splits, last_timestamp, read_blocks-agrees}
use taiko_preconfer.Batch.Meta.{
  Codec, Stats2, Inbox, latest, meta_hash_of, compute_batch_meta_hash, verify_last_batch,
}

abbrev three_bytes : List ℕ
three_bytes = 7 ∷ 200 ∷ 255 ∷ []

three_bytes-IsByte : All IsByte three_bytes
three_bytes-IsByte = (omega arith, (omega arith, (omega arith, tt)))

decode_blobs-tx_bytes_to_blobs_example : decode_blobs (tx_bytes_to_blobs three_bytes) ≡ three_bytes
decode_blobs-tx_bytes_to_blobs_example =
    decode_blobs-tx_bytes_to_blobs three_bytes three_bytes-IsByte (omega arith)

create_blob-IsCanonical_example :
    (length (create_blob three_bytes) ≡ bytes_per_blob) × IsCanonical 4096 (create_blob three_bytes)
create_blob-IsCanonical_example =
    create_blob-IsCanonical three_bytes three_bytes-IsByte (omega arith)

replicate-IsByte : (n : ℕ) → All IsByte (replicate n 3)
replicate-IsByte zero = tt
replicate-IsByte (suc n) = (omega arith, replicate-IsByte n)

create_blob_drops_last_example :
    create_blob (replicate 123 3 ++ 1 ∷ []) ≡ create_blob (replicate 123 3 ++ 2 ∷ [])
create_blob_drops_last_example =
    create_blob_drops_last (replicate 123 3) (replicate-IsByte 123) (omega arith) (omega arith) 1 2
      (omega arith) (omega arith)

-- Transactions are numbers here, and an anchor transaction is the id that it anchors to.
abbrev pub block : ℕ → ℕ → ℕ → Block ℕ
block n timestamp anchor = record {
  header = record {
    number = n;
    timestamp = timestamp;
    beneficiary = 77;
    gas_used = 0;
    state_root = 0;
    hash = 9000 + n;
  };
  transactions = anchor ∷ n ∷ [];
}

abbrev anchor_of : ℕ → Outcome ℕ ℕ
anchor_of tx = ok tx

abbrev accept : List (Block ℕ) → ℕ → Outcome ℕ (Unit {0})
accept blocks anchor = ok tt

abbrev strategy : Strategy
strategy = record { max_blocks = 10; valid_timestamp = record { max_offset = 600 }; address = 77 }

abbrev pub cache : List (Block ℕ)
cache = block 1 100 40 ∷ block 2 102 40 ∷ block 3 104 41 ∷ []

pub cache-HasFirst : All HasFirst cache
cache-HasFirst = (omega arith, (omega arith, (omega arith, tt)))

read_blocks-agrees_example :
    (kept : List (Block ℕ)) × (rest : List (Block ℕ)) × (txs : List ℕ) × (params : List BlockParams)
    × (cache ≡ kept ++ rest)
    × (0 < length kept)
    × Near 100 kept
    × Splits (last_timestamp 100 kept) rest
    × (get_tx_envelopes_without_anchor_from_blocks kept ≡ some txs)
    × (block_params kept ≡ some params)
    × (read_blocks cache ≡ some (params, txs, last_timestamp 100 kept))
read_blocks-agrees_example =
    read_blocks-agrees (block 1 100 40) (block 2 102 40 ∷ block 3 104 41 ∷ []) cache-HasFirst

abbrev percentage : Bytes
percentage = 75 ∷ []

-- A codec that only counts: every hash is a length.
abbrev pub codec : Codec ℕ ℕ
codec = record {
  keccak256 = λ bytes. length bytes;
  encode_txs = λ hash hashes. hash ∷ hashes;
  encode_info = λ info. [];
  encode_metadata = λ metadata. metadata.info_hash ∷ metadata.batch_id ∷ [];
  compress = λ txs. ok txs;
  blob_hash = λ blob. ok 1;
}

abbrev pub stats : Stats2
stats = record { num_batches = 5; last_proposed_in = 60 }

abbrev pub batch : Batch
batch = record {
  meta_hash = 2;
  last_block_id = 2;
  batch_id = 4;
  last_block_timestamp = 102;
  anchor_block_id = 40;
}

abbrev pub inbox : Inbox ℕ
inbox = record {
  get_stats2 = ok stats;
  get_batch = λ id. ok batch;
  get_block_by_number = λ number. ok (some (block number 90 0).header);
}

abbrev pub fees : BaseFeeConfig
fees = record {
  adjustment_quotient = 8;
  sharing_pctg = 75;
  gas_issuance_per_second = 5000000;
  min_gas_excess = 1340000000;
  max_gas_issuance_per_block = 600000000;
}

pub inbox-latest : latest inbox ≡ ok (stats, batch)
unfolding latest
inbox-latest = refl

inbox_verdict : (verify_last_batch codec inbox (Anchor.new 96 8) cache fees false).1 ≡ ok true
unfolding verify_last_batch latest compute_batch_meta_hash meta_hash_of pad_left block_params
    get_tx_envelopes_without_anchor_from_blocks get_tx_envelopes_without_anchor_from_block
inbox_verdict = refl

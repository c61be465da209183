-- ===== src/Compression.antt =====
-- preconfirmation/src/compression.rs: the transactions of a batch as compressed bytes. libdeflater's
-- compressor and alloy's RLP encoder are arguments.
use taiko_preconfer.Prelude.{ℕ, List, length, take, replicate}
use taiko_preconfer.Prelude.Outcome.{Outcome, ok, ◌>>=◌}
use taiko_preconfer.Batch.{Bytes}

-- The compressor at its best level. `zlib_compress` writes to a buffer: it returns how much of the buffer
-- it has used, and the buffer.
pub record Compressor (E : Type 0) : Type 0 where
  pub zlib_compress_bound : ℕ → ℕ
  pub zlib_compress : Bytes → Bytes → Outcome E (ℕ × Bytes)

module _ {E : Type 0} (comp : Compressor E) where
  unfoldable pub compress_bytes : Bytes → Outcome E Bytes
  compress_bytes bytes = do
    (len, out) ← comp.zlib_compress bytes (replicate (comp.zlib_compress_bound (length bytes)) 0)
    ok (take len out)

  unfoldable pub compress : {Tx : Type 0} → (List Tx → Bytes) → List Tx → Outcome E Bytes
  unfolding compress_bytes
  compress encode txs = compress_bytes (encode txs)

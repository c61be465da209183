-- ===== src/Blob.antt =====
-- preconfirmation/src/blob.rs: the bytes of an EIP-4844 blob. Every 32-byte field of a blob must stay
-- below the modulus of the BLS field, so only six bits of a field's first byte are used.
pub mod Sequence
pub mod Sidecar
pub mod Stream
pub mod Fields
pub mod Layout
pub mod Rounds
pub mod Decode
pub mod Loss
pub mod Canonical
use taiko_preconfer.Prelude.{
  ℕ, zero, suc, ◌+◌, ◌-◌, ◌*◌, ◌/◌, ◌%◌, ◌^◌, min, bit_and, bit_or, Bool, List, [], ◌∷◌, ◌++◌,
  if◌then◌else◌, leb, ◌==◌, as_u8, as_u32, length, get_or, take, drop, replicate,
}

abbrev pub metadata_length : ℕ
metadata_length = 4

abbrev pub fields_per_iteration : ℕ
fields_per_iteration = 4

abbrev pub data_size_per_iteration : ℕ
data_size_per_iteration = fields_per_iteration * 31 + 3

abbrev pub max_iterations : ℕ
max_iterations = 1024

abbrev pub max_blob_data_size : ℕ
max_blob_data_size = data_size_per_iteration * max_iterations - metadata_length

abbrev pub encoding_version : ℕ
encoding_version = 0

-- c_kzg's BYTES_PER_BLOB, which EIP-4844 fixes: 4096 fields of 32 bytes.
abbrev pub bytes_per_blob : ℕ
bytes_per_blob = 4096 * 32

abbrev pub mask_1 : ℕ
mask_1 = 0b0011_1111

abbrev pub mask_2 : ℕ
mask_2 = 0b0000_1111

abbrev pub mask_3 : ℕ
mask_3 = 0b1100_0000

abbrev pub mask_4 : ℕ
mask_4 = 0b1111_0000

-- `[0; n]`.
unfoldable pub zeroed : ℕ → List ℕ
zeroed n = replicate n 0

pub record ByteWriter : Type 0 where
  pub written_bytes : ℕ

-- `copy_from_slice` into 32 bytes of the blob.
unfoldable pub write : ByteWriter → List ℕ → List ℕ → List ℕ × ByteWriter
write w blob_bytes buffer = (
  take w.written_bytes blob_bytes ++ (buffer ++ drop (w.written_bytes + 32) blob_bytes),
  record { written_bytes = w.written_bytes + 32 },
)

pub record ByteReader : Type 0 where
  pub read_bytes : ℕ

unfoldable pub read_byte : ByteReader → List ℕ → ℕ × ByteReader
read_byte r input = (
  if leb (length input) r.read_bytes then 0 else get_or input r.read_bytes 0,
  record { read_bytes = r.read_bytes + 1 },
)

-- The whole buffer of `buf_len` bytes is written: `n` bytes of the data, then zeros. The calls below
-- keep `length` within the buffer.
unfoldable pub read_bytes : ByteReader → List ℕ → ℕ → ℕ → List ℕ × ByteReader
read_bytes r input buf_len max_len =
    let remaining = length input - r.read_bytes in
    let n = min max_len remaining in
    if leb (length input) r.read_bytes then (replicate buf_len 0, r) else (
      take n (drop r.read_bytes input) ++ replicate (buf_len - n) 0,
      record { read_bytes = r.read_bytes + n },
    )

unfoldable pub write_version_and_data_size : ℕ → List ℕ → List ℕ × ℕ
write_version_and_data_size size buf31 =
    (encoding_version ∷ as_u8 (size / 2 ^ 16) ∷ as_u8 (size / 2 ^ 8) ∷ as_u8 size ∷ drop 4 buf31, 4)

-- The variables of the loop; `buffer` is `buffer[1..]`, since `buffer[0]` is set before each write.
pub record Encoder : Type 0 where
  pub reader : ByteReader
  pub writer : ByteWriter
  pub buffer : List ℕ
  pub blob_bytes : List ℕ

-- `reader.read_bytes(data, &mut buffer[1..], 31)`.
unfoldable pub fill : List ℕ → Encoder → Encoder
fill input e =
    let (bytes, reader) = read_bytes e.reader input 31 31 in
    record e { reader = reader; buffer = bytes }

-- `buffer[0] = b; writer.write(&mut blob_bytes, &buffer)`.
unfoldable pub emit : ℕ → Encoder → Encoder
emit b e =
    let (blob_bytes, writer) = write e.writer e.blob_bytes (b ∷ e.buffer) in
    record e { writer = writer; blob_bytes = blob_bytes }

unfoldable pub next_byte : List ℕ → Encoder → ℕ × Encoder
next_byte input e = let (b, reader) = read_byte e.reader input in (b, record e { reader = reader })

-- The closure of `for_each` after its `if idx != 0`.
unfoldable pub encode_fields : List ℕ → Encoder → Encoder
encode_fields input e =
    let (x, e1) = next_byte input e in
    let e2 = fill input (emit (bit_and x mask_1) e1) in
    let (y, e3) = next_byte input e2 in
    let e4 = fill input (emit (bit_or (bit_and y mask_2) (bit_and x mask_3 / 2 ^ 2)) e3) in
    let (z, e5) = next_byte input e4 in
    let e6 = fill input (emit (bit_and z mask_1) e5) in
    emit (bit_or (bit_and z mask_3 / 2 ^ 2) (bit_and y mask_4 / 2 ^ 4)) e6

-- The rounds `idx..` of `(0..iterations).for_each`, with `count` rounds left.
unfoldable pub encode_rounds : List ℕ → ℕ → ℕ → Encoder → Encoder
encode_rounds input idx zero e = e
encode_rounds input idx (suc count) e =
    encode_rounds input (idx + 1) count (encode_fields input (if idx == 0 then e else fill input e))

unfoldable pub iterations : List ℕ → ℕ
iterations input = min max_iterations (length input / data_size_per_iteration + 1)

unfoldable pub first_encoder : List ℕ → Encoder
first_encoder input =
    let (buf31, written_bytes) =
      write_version_and_data_size (as_u32 (length input)) (replicate 31 0) in
    let remaining_bytes = min (31 - written_bytes) (length input) in
    let (bytes, reader) =
      read_bytes (record { read_bytes = 0 }) input (31 - written_bytes) remaining_bytes in
    record {
      reader = reader;
      writer = record { written_bytes = 0 };
      buffer = take written_bytes buf31 ++ bytes;
      blob_bytes = zeroed bytes_per_blob;
    }

unfoldable pub create_blob : List ℕ → List ℕ
create_blob input = (encode_rounds input 0 (iterations input) (first_encoder input)).blob_bytes

-- `tx_bytes.chunks(MAX_BLOB_DATA_SIZE)`, on fuel: a list has at most as many chunks as elements.
unfoldable pub chunks : ℕ → ℕ → List ℕ → List (List ℕ)
chunks zero size xs = []
chunks (suc fuel) size [] = []
chunks (suc fuel) size (x ∷ xs) = take size (x ∷ xs) ∷ chunks fuel size (drop size (x ∷ xs))

unfoldable pub create_blobs : List (List ℕ) → List (List ℕ)
create_blobs [] = []
create_blobs (c ∷ cs) = create_blob c ∷ create_blobs cs

unfoldable pub tx_bytes_to_blobs : List ℕ → List (List ℕ)
tx_bytes_to_blobs tx_bytes = create_blobs (chunks (length tx_bytes) max_blob_data_size tx_bytes)

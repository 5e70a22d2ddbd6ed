-- ===== src/Parallel.antt =====
-- src/fdw/parallel.rs: the blob list of a parallel scan in shared memory, and its shared cursor.
pub mod Layout
pub mod Cursor
use parquet_azure_fdw.Prelude.{
  ℕ, zero, suc, ◌+◌, ◌-◌, ◌*◌, ◌/◌, ◌%◌, ◌^◌, Bool, true, false, List, [], ◌∷◌, ◌++◌, Option, none,
  some, Bytes, ltb, leb, if◌then◌else◌, length, take, drop, get_elem?,
}
use parquet_azure_fdw.Error.{FdwError, FdwResult, ok, err, schema_mismatch}
use parquet_azure_fdw.Modify.BlobTable.{Blob}

-- `ParallelDsmStateHeader`, with the payload that follows it in the segment
pub record Segment : Type 0 where
  pub cursor : ℕ
  pub n_blobs : ℕ
  pub total_payload_bytes : ℕ
  pub payload : Bytes

-- `size_of::<ParallelDsmStateHeader>()`: three words of 64 bits
abbrev pub header_size : ℕ
header_size = 24

-- `u32::to_le_bytes`, and back
unfoldable pub to_le_bytes : ℕ → Bytes
to_le_bytes n = n % 256 ∷ n / 256 % 256 ∷ n / 65536 % 256 ∷ n / 16777216 % 256 ∷ []

unfoldable pub from_le_bytes : Bytes → ℕ
from_le_bytes [] = 0
from_le_bytes (b ∷ bytes) = b + 256 * from_le_bytes bytes

unfoldable pub payload_size : List Blob → ℕ
payload_size [] = 0
payload_size ((name, etag) ∷ blobs) = 8 + length name + length etag + payload_size blobs

unfoldable pub dsm_size_for : List Blob → ℕ
dsm_size_for blobs = header_size + payload_size blobs

-- The loop over the blobs; `as u32` wraps.
unfoldable pub write_entries : List Blob → Bytes
write_entries [] = []
write_entries ((name, etag) ∷ blobs) =
    to_le_bytes (length name % 2 ^ 32)
    ++ (to_le_bytes (length etag % 2 ^ 32) ++ (name ++ (etag ++ write_entries blobs)))

unfoldable pub dsm_serialize_blobs : ℕ → List Blob → Segment
dsm_serialize_blobs dst_len blobs = record {
  cursor = 0;
  n_blobs = length blobs;
  total_payload_bytes = dst_len - header_size;
  payload = write_entries blobs;
}

-- A result that is reached without a read outside of the segment; `none` is such a read.
abbrev pub Access {ℓ} : Type ℓ → Type ℓ
Access A = Option (FdwResult A)

module _ {ℓ κ} {A : Type ℓ} {B : Type κ} where
  infixl 5 ◌>>=◌
  abbrev pub ◌>>=◌ : Access A → (A → Access B) → Access B
  none >>= next = none
  some (err problem) >>= next = some (err problem)
  some (ok value) >>= next = next value

-- `copy_nonoverlapping` of `count` bytes from `cur`, and where `cur` is then
unfoldable pub copy_bytes : ℕ → Bytes → Access (Bytes × Bytes)
copy_bytes count cur =
    if leb count (length cur) then some (ok (take count cur, drop count cur)) else none

abbrev pub check : Bool → Access (Unit {0})
check holds = some (if holds then ok tt else err schema_mismatch)

-- `String::from_utf8` is a test of the bytes.
module _ (is_utf8 : Bytes → Bool) where
  -- The loop over `0..n_blobs`.
  unfoldable pub read_entries : ℕ → ℕ → Bytes → ℕ → Access (List Blob)
  read_entries total zero cur bytes_read = some (ok [])
  read_entries total (suc left) cur bytes_read = do
    not_truncated ← check (leb (bytes_read + 8) total)
    (nl_buf, after_nl) ← copy_bytes 4 cur
    (el_buf, after_el) ← copy_bytes 4 after_nl
    let nl = from_le_bytes nl_buf
    let el = from_le_bytes el_buf
    in_bounds ← check (leb (bytes_read + 8 + nl + el) total)
    (name, after_name) ← copy_bytes nl after_el
    (etag, after_etag) ← copy_bytes el after_name
    name_text ← check (is_utf8 name)
    etag_text ← check (is_utf8 etag)
    others ← read_entries total left after_etag (bytes_read + 8 + nl + el)
    some (ok ((name, etag) ∷ others))

  -- The vector's capacity is taken from `n_blobs` unchecked; the allocation, which can abort for a
  -- corrupt count, is not part of the model.
  unfoldable pub dsm_deserialize_blobs : Segment → Access (List Blob)
  dsm_deserialize_blobs src = read_entries src.total_payload_bytes src.n_blobs src.payload 0

-- `ParallelRanges::next_blob`, on the shared cursor (`fetch_add` wraps) and the worker's own list
unfoldable pub next_blob_shared : List Blob → ℕ → Option Blob × ℕ
next_blob_shared blobs cursor = (get_elem? blobs cursor, (cursor + 1) % 2 ^ 64)

-- `ReInitializeDSMForeignScan`
unfoldable pub re_initialize_dsm_foreign_scan : Segment → Segment
re_initialize_dsm_foreign_scan segment = record segment { cursor = 0 }

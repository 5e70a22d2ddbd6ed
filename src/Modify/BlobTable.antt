-- ===== src/Modify/BlobTable.antt =====
-- src/fdw/modify/mod.rs, the chunk table of `build_plan` and `resolve_to_source`
-- (src/fdw/modify/update.rs): which blob, and which row of it, a ctid stands for.
pub mod Laws
use parquet_azure_fdw.Prelude.{
  ℕ, zero, suc, ◌+◌, ◌-◌, ◌*◌, ◌/◌, ◌^◌, max, Option, none, some, List, [], ◌∷◌, ◌++◌, Bytes,
  bytes_eq, ltb, if◌then◌else◌, get_elem?,
}
use parquet_azure_fdw.Error.{FdwResult, ok, err, schema_mismatch, ◌>>=◌}
use parquet_azure_fdw.Modify.RowId.{chunk_rows, RowId}

pub record BlobIdEntry : Type 0 where
  pub name : Bytes
  pub chunk_base_row : ℕ
  pub etag : Bytes

-- `(blob_name, etag)` as a listing or a HEAD returns it
abbrev pub Blob : Type 0
Blob = Bytes × Bytes

-- `nrows.div_ceil(chunk_rows).max(1)`
unfoldable pub chunk_count : ℕ → ℕ
chunk_count nrows = max ((nrows + chunk_rows - 1) / chunk_rows) 1

-- `for chunk in 0..chunks`, from the chunk `chunk` on
unfoldable pub chunk_entries : ℕ → ℕ → Blob → List BlobIdEntry
chunk_entries zero chunk blob = []
chunk_entries (suc left) chunk (name, etag) =
    record { name = name; chunk_base_row = chunk * chunk_rows; etag = etag }
    ∷ chunk_entries left (chunk + 1) (name, etag)

-- The loop over the published blobs. `blob_row_count` opens the blob and reads its footer.
module _ (blob_row_count : Bytes → FdwResult ℕ) where
  unfoldable pub build_blob_table : List Blob → List BlobIdEntry → FdwResult (List BlobIdEntry)
  build_blob_table [] blob_table = ok blob_table
  build_blob_table ((name, etag) ∷ blobs) blob_table = do
    nrows ← blob_row_count name
    -- `u32::try_from(nrows)`
    if ltb nrows (2 ^ 32)
        then build_blob_table blobs (blob_table ++ chunk_entries (chunk_count nrows) 0 (name, etag))
        else err schema_mismatch

-- `while base > 0`: back over the entries of the same blob
unfoldable pub walk_back : List BlobIdEntry → Bytes → ℕ → FdwResult ℕ
walk_back blob_table name zero = ok 0
walk_back blob_table name (suc base) = elim (get_elem? blob_table base) [
  | none ↦ err schema_mismatch
  | some prev ↦ if bytes_eq prev.name name then walk_back blob_table name base else ok (suc base)
]

-- `base` is at most the u32 `blob_id`, so the cast back to u32 changes nothing.
unfoldable pub resolve_to_source : List BlobIdEntry → RowId → FdwResult (ℕ × ℕ)
resolve_to_source blob_table rid = elim (get_elem? blob_table rid.blob_id) [
  | none ↦ err schema_mismatch
  | some entry ↦ do
    base ← walk_back blob_table entry.name rid.blob_id
    ok (base, entry.chunk_base_row + rid.offset)
]

-- ===== src/Modify/RowId.antt =====
-- src/fdw/modify/rowid.rs: the synthetic ctid of a row.
pub mod Laws
use parquet_azure_fdw.Prelude.{ℕ, ◌+◌, ◌-◌, ◌*◌, ◌/◌, ◌%◌, ◌^◌, ◌<◌, min}

-- Rows per chunk: `OffsetNumber::MAX + 1`.
abbrev pub chunk_rows : ℕ
chunk_rows = 65536

-- `blob_id` is a u32 and `offset` a u16 (`Laws.IsRowId` states the ranges).
pub record RowId : Type 0 where
  pub blob_id : ℕ
  pub offset : ℕ

-- Postgres' `ItemPointerData`: the block number in two halves of 16 bits, and the offset number.
pub record ItemPointerData : Type 0 where
  pub bi_hi : ℕ
  pub bi_lo : ℕ
  pub ip_posid : ℕ

-- `u32::saturating_add`
abbrev pub saturating_add32 : ℕ → ℕ → ℕ
saturating_add32 a b = min (a + b) (2 ^ 32 - 1)

unfoldable pub from_absolute : ℕ → ℕ → RowId
from_absolute blob_base_id abs_row = record {
  blob_id = saturating_add32 blob_base_id ((abs_row / chunk_rows) % 2 ^ 32);
  offset = abs_row % chunk_rows % 2 ^ 16;
}

unfoldable pub to_ctid : RowId → ItemPointerData
to_ctid r = record {
  bi_hi = r.blob_id / 2 ^ 16 % 2 ^ 16;
  -- `& 0xffff`
  bi_lo = r.blob_id % 2 ^ 16;
  ip_posid = r.offset;
}

-- The two halves have no bit in common, so `|` is a sum; the shift is one of a u32.
unfoldable pub from_ctid : ItemPointerData → RowId
from_ctid c = record { blob_id = c.bi_hi * 2 ^ 16 % 2 ^ 32 + c.bi_lo; offset = c.ip_posid }

-- A subtraction of two u32, as it wraps in a release build.
unfoldable pub chunk_index_within_blob : RowId → ℕ → ℕ
chunk_index_within_blob r blob_base_id = (r.blob_id + 2 ^ 32 - blob_base_id) % 2 ^ 32

unfoldable pub absolute_row_within_blob : RowId → ℕ → ℕ
absolute_row_within_blob r blob_base_id =
    chunk_index_within_blob r blob_base_id * chunk_rows + r.offset

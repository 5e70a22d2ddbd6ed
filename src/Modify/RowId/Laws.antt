-- ===== src/Modify/RowId/Laws.antt =====
-- The ranges of row ids and the round trips of src/fdw/modify/rowid.rs.
use parquet_azure_fdw.Prelude.{ℕ, ◌+◌, ◌/◌, ◌^◌, ◌<◌, ◌≡◌, arith}
use parquet_azure_fdw.Modify.RowId.{
  chunk_rows, RowId, ItemPointerData, from_absolute, to_ctid, from_ctid, chunk_index_within_blob,
  absolute_row_within_blob,
}

-- The ranges of the fields' types.
pub record IsRowId (r : RowId) : Type 0 where
  pub blob_id_u32 : r.blob_id < 2 ^ 32
  pub offset_u16 : r.offset < 2 ^ 16

pub record IsItemPointer (c : ItemPointerData) : Type 0 where
  pub bi_hi_u16 : c.bi_hi < 2 ^ 16
  pub bi_lo_u16 : c.bi_lo < 2 ^ 16
  pub ip_posid_u16 : c.ip_posid < 2 ^ 16

-- A row id of a u32 and a u16 survives the packing into Postgres' item pointer, the packed fields
-- fit their 16 bits, and every item pointer of 16-bit fields is the packing of what it decodes to.
pub ctid_roundtrip :
    (r : RowId) (c : ItemPointerData)
    → IsRowId r
    → IsItemPointer c
    → (from_ctid (to_ctid r) ≡ r)
      × IsItemPointer (to_ctid r)
      × (to_ctid (from_ctid c) ≡ c)
      × IsRowId (from_ctid c)
unfolding from_ctid to_ctid
ctid_roundtrip r c h k = (
  ground arith,
  record { bi_hi_u16 = omega arith; bi_lo_u16 = omega arith; ip_posid_u16 = omega arith },
  ground arith,
  record { blob_id_u32 = omega arith; offset_u16 = omega arith },
)

-- Where the row's chunk still has an id below 2^32, the id of an absolute row leads back to it, and
-- it is a valid row id whose chunk is the base plus the number of whole chunks before the row.
pub absolute_roundtrip :
    (blob_base_id abs_row : ℕ)
    → blob_base_id + abs_row / chunk_rows < 2 ^ 32
    → (absolute_row_within_blob (from_absolute blob_base_id abs_row) blob_base_id ≡ abs_row)
      × ((from_absolute blob_base_id abs_row).blob_id ≡ blob_base_id + abs_row / chunk_rows)
      × IsRowId (from_absolute blob_base_id abs_row)
unfolding from_absolute absolute_row_within_blob chunk_index_within_blob
absolute_roundtrip b a h =
    (omega arith, omega arith, record { blob_id_u32 = omega arith; offset_u16 = omega arith })

pub from_ctid-to_ctid : (r : RowId) → IsRowId r → from_ctid (to_ctid r) ≡ r
unfolding from_ctid to_ctid
from_ctid-to_ctid r h = ground arith

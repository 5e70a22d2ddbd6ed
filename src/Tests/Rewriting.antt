-- ===== src/Tests/Rewriting.antt =====
-- Row ids and the handoff (src/fdw/modify) at concrete inputs.
use parquet_azure_fdw.Prelude.{◌≡◌, ◌/◌, ◌+◌, refl, arith, List, [], ◌∷◌, codes, some}
use parquet_azure_fdw.Error.{ok, err, schema_mismatch}
use parquet_azure_fdw.Modify.RowId.{
  chunk_rows, RowId, ItemPointerData, from_absolute, to_ctid, from_ctid, absolute_row_within_blob,
}
use parquet_azure_fdw.Modify.RowId.Laws.{IsRowId, IsItemPointer, ctid_roundtrip, absolute_roundtrip}
use parquet_azure_fdw.Modify.BlobTable.{Blob}
use parquet_azure_fdw.Modify.Handoff.{Handoff, entry_of, publish, take_handoff, take_unique}
use parquet_azure_fdw.Modify.Handoff.Laws.{take_handoff-publish, take_unique-publish}

-- A row id that needs both halves of the block number.
abbrev far : RowId
far = record { blob_id = 196613; offset = 65535 }

abbrev pointer : ItemPointerData
pointer = record { bi_hi = 7; bi_lo = 65535; ip_posid = 12 }

ctid_roundtrip_example :
    (from_ctid (to_ctid far) ≡ far)
    × IsItemPointer (to_ctid far)
    × (to_ctid (from_ctid pointer) ≡ pointer)
    × IsRowId (from_ctid pointer)
ctid_roundtrip_example =
    ctid_roundtrip far pointer (record { blob_id_u32 = omega arith; offset_u16 = omega arith })
      (record { bi_hi_u16 = omega arith; bi_lo_u16 = omega arith; ip_posid_u16 = omega arith })

absolute_roundtrip_example :
    (absolute_row_within_blob (from_absolute 3 131080) 3 ≡ 131080)
    × ((from_absolute 3 131080).blob_id ≡ 3 + 131080 / chunk_rows)
    × IsRowId (from_absolute 3 131080)
absolute_roundtrip_example = absolute_roundtrip 3 131080 (omega arith)

abbrev first : List Blob
first = (codes "a.parquet", codes "e1") ∷ []

abbrev second : List Blob
second = (codes "b.parquet", codes "e2") ∷ []

abbrev elsewhere : Handoff
elsewhere = (9, first ∷ []) ∷ []

take_handoff-publish_example :
    ((take_handoff 9 (publish 9 second elsewhere)).0 ≡ some second)
    × (entry_of 9 (take_handoff 9 (publish 9 second elsewhere)).1 ≡ entry_of 9 elsewhere)
unfolding entry_of
take_handoff-publish_example = take_handoff-publish 9 9 second elsewhere λ k. ground arith

take_unique-publish_example :
    ((take_unique 5 (publish 5 first elsewhere)).0 ≡ ok (some first))
    × ((take_unique 5 (publish 5 second (publish 5 first elsewhere))).0 ≡ err schema_mismatch)
    × (entry_of 9 (take_unique 5 (publish 5 first elsewhere)).1 ≡ entry_of 9 elsewhere)
    × (entry_of 9 (take_unique 5 (publish 5 second (publish 5 first elsewhere))).1
        ≡ entry_of 9 elsewhere)
unfolding entry_of
take_unique-publish_example = take_unique-publish 5 9 first second elsewhere refl

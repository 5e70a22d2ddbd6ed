-- ===== src/Tests/Sharing.antt =====
-- The shared segment of a parallel scan (src/fdw/parallel.rs) at concrete inputs.
use parquet_azure_fdw.Prelude.{
  ◌≡◌, ◌≢◌, refl, arith, Bool, true, List, [], ◌∷◌, none, some, Bytes, codes, All, take,
}
use parquet_azure_fdw.Error.{ok}
use parquet_azure_fdw.Modify.BlobTable.{Blob}
use parquet_azure_fdw.Parallel.{Segment, dsm_size_for, dsm_serialize_blobs, dsm_deserialize_blobs}
use parquet_azure_fdw.Parallel.Layout.{
  Text, dsm_deserialize_blobs-dsm_serialize_blobs, dsm_deserialize_blobs_in_bounds,
}
use parquet_azure_fdw.Parallel.Cursor.{calls, handed, handed-dsm_serialize_blobs}

abbrev is_utf8 : Bytes → Bool
is_utf8 text = true

abbrev blobs : List Blob
blobs = (codes "a.parquet", codes "e1") ∷ (codes "b.parquet", codes "") ∷ []

blobs-Text : All (Text is_utf8) blobs
blobs-Text = ((omega arith, omega arith, refl, refl), ((omega arith, omega arith, refl, refl), tt))

dsm_deserialize_blobs-dsm_serialize_blobs_example :
    dsm_deserialize_blobs is_utf8 (dsm_serialize_blobs (dsm_size_for blobs) blobs) ≡ some (ok blobs)
dsm_deserialize_blobs-dsm_serialize_blobs_example =
    dsm_deserialize_blobs-dsm_serialize_blobs is_utf8 blobs blobs-Text

-- A segment of other bytes, which says that it has three blobs.
abbrev garbled : Segment
garbled = record {
  cursor = 0;
  n_blobs = 3;
  total_payload_bytes = 9;
  payload = 1 ∷ 0 ∷ 0 ∷ 0 ∷ 9 ∷ 9 ∷ 0 ∷ 0 ∷ 7 ∷ [];
}

dsm_deserialize_blobs_in_bounds_example : dsm_deserialize_blobs is_utf8 garbled ≢ none
dsm_deserialize_blobs_in_bounds_example =
    dsm_deserialize_blobs_in_bounds is_utf8 garbled (omega arith)

handed-dsm_serialize_blobs_example :
    handed (
      calls
        (λ worker. blobs)
        (5 ∷ 2 ∷ 5 ∷ [])
        (dsm_serialize_blobs (dsm_size_for blobs) blobs).cursor)
    ≡ take 3 blobs
handed-dsm_serialize_blobs_example =
    handed-dsm_serialize_blobs is_utf8 blobs (λ worker. blobs) (5 ∷ 2 ∷ 5 ∷ []) blobs-Text
      (λ worker. dsm_deserialize_blobs-dsm_serialize_blobs is_utf8 blobs blobs-Text) (omega arith)

-- ===== src/Tests/Scanning.antt =====
-- A scan of two blobs (src/fdw/scan.rs): three rows of the first in two batches and one of the second.
use parquet_azure_fdw.Scan.Total.{iterate_foreign_scan_total}
use parquet_azure_fdw.Scan.Stamps.{
  resolve_to_source-build_blob_table, resolve_to_source-Stamped, Stamped, Unfiltered,
}
use parquet_azure_fdw.Prelude.{
  arith, ℕ, ◌≡◌, refl, List, [], ◌∷◌, Bytes, codes, Option, none, some, bytes_eq, if◌then◌else◌,
  get_elem?,
}
use parquet_azure_fdw.Prelude.{length}
use parquet_azure_fdw.Prelude.{All}
use parquet_azure_fdw.Modify.BlobTable.{resolve_to_source, build_blob_table, BlobIdEntry}
use parquet_azure_fdw.Modify.BlobTable.{chunk_entries}
use parquet_azure_fdw.Modify.BlobTable.{chunk_count}
use parquet_azure_fdw.Scan.Invariant.{entries, rows_in}
use parquet_azure_fdw.Modify.RowId.{from_ctid}
use parquet_azure_fdw.Scan.State.{blob_datums}
use parquet_azure_fdw.Scan.Distinct.{Distinct}
use parquet_azure_fdw.Scan.Distinct.{Parses}
use parquet_azure_fdw.Error.{FdwResult, ok, err, schema_mismatch, io}
use parquet_azure_fdw.Modify.BlobTable.{Blob}
use parquet_azure_fdw.Scan.State.{Stream, ScanState}
use parquet_azure_fdw.Scan.Row.{Slot, iterate_foreign_scan}
use parquet_azure_fdw.Scan.Agreement.{Scanned, built, iterated}

abbrev date_to_pg : Bytes → FdwResult ℕ
date_to_pg raw = err schema_mismatch

abbrev open_blob : Bytes → FdwResult (Stream ℕ)
open_blob name =
    if bytes_eq name (codes "a.parquet")
    then ok (ok (10 ∷ 11 ∷ []) ∷ ok (12 ∷ []) ∷ [])
    else ok (ok (20 ∷ []) ∷ [])

abbrev published : List Blob
published = (codes "a.parquet", codes "e1") ∷ (codes "b.parquet", codes "e2") ∷ []

abbrev begun : ScanState ℕ
begun = record {
  blobs = published;
  cur_blob = 0;
  cur_stream = none;
  cur_batch = none;
  cur_row = 0;
  range_producer = record { blobs = published; cursor = 0 };
  blob_id_table = [];
  cur_blob_base_id = 0;
  cur_row_in_blob = 0;
  partition_keys_decl = [];
  partition_datums_for_current_blob = [];
}

abbrev call : ScanState ℕ → FdwResult (Option (Slot ℕ)) × ScanState ℕ
unfolding iterate_foreign_scan
call s = elim (iterate_foreign_scan date_to_pg open_blob s) [ some r ↦ r | none ↦ (err io, s) ]

abbrev after1 : ScanState ℕ
after1 = (call begun).1

abbrev after2 : ScanState ℕ
after2 = (call after1).1

abbrev after3 : ScanState ℕ
after3 = (call after2).1

abbrev after4 : ScanState ℕ
after4 = (call after3).1

-- The slot of the fourth call: the row of the second blob.
abbrev slot4 : Slot ℕ
slot4 = record {
  row = 20;
  partition_values = [];
  tts_tid = record { bi_hi = 0; bi_lo = 1; ip_posid = 0 };
}

returned4 : iterate_foreign_scan date_to_pg open_blob after3 ≡ some (ok (some slot4), after4)
unfolding iterate_foreign_scan
returned4 = refl

scanned3 : Scanned date_to_pg open_blob published [] after3
unfolding iterate_foreign_scan
scanned3 =
    iterated (call after2).0 (iterated (call after1).0 (iterated (call begun).0 built refl) refl)
      refl

distinct4 : Distinct after4.blobs
unfolding iterate_foreign_scan
distinct4 = (((λ e. ground (arith, e)), tt), (tt, tt))

resolve_to_source-Stamped_example :
    (m : Stamped date_to_pg open_blob after4 slot4) × (resolve_to_source after4.blob_id_table
        (from_ctid slot4.tts_tid)
      ≡ ok (length (entries m.before), m.r))
unfolding iterate_foreign_scan
resolve_to_source-Stamped_example =
    resolve_to_source-Stamped date_to_pg open_blob published [] after3 after4 slot4 scanned3
      returned4 (omega arith) distinct4

abbrev file_rows : Bytes → List ℕ
file_rows name = if bytes_eq name (codes "a.parquet") then 10 ∷ 11 ∷ 12 ∷ [] else 20 ∷ []

parses4 : All (Parses date_to_pg after4.partition_keys_decl) after4.blobs
unfolding iterate_foreign_scan blob_datums
parses4 = (([], refl), (([], refl), tt))

unfiltered4 : All (Unfiltered date_to_pg open_blob file_rows) after4.blobs
unfolding iterate_foreign_scan rows_in
unfiltered4 = (refl, (refl, tt))

resolve_to_source-build_blob_table_example :
    (table : List BlobIdEntry) × (base : ℕ) × (row : ℕ) × (entry : BlobIdEntry) × (build_blob_table
        (λ name. ok (length (file_rows name)))
        after4.blobs
        []
      ≡ ok table)
    × (resolve_to_source table (from_ctid slot4.tts_tid) ≡ ok (base, row))
    × (get_elem? table base ≡ some entry)
    × (get_elem? (file_rows entry.name) row ≡ some slot4.row)
unfolding iterate_foreign_scan chunk_entries chunk_count
resolve_to_source-build_blob_table_example =
    resolve_to_source-build_blob_table date_to_pg open_blob published [] after3 after4 slot4
      (λ name. ok (length (file_rows name))) file_rows scanned3 returned4 (omega arith) distinct4
      parses4 unfiltered4 ((refl, omega arith), ((refl, omega arith), tt)) (omega arith)

iterate_foreign_scan_total_example :
    (r : FdwResult (Option (Slot ℕ)) × ScanState ℕ) × (iterate_foreign_scan date_to_pg open_blob
        after4
      ≡ some r)
iterate_foreign_scan_total_example = iterate_foreign_scan_total date_to_pg open_blob after4

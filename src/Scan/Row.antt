-- ===== src/Scan/Row.antt =====
-- `next_row`, `register_chunk_if_boundary`, `iterate_foreign_scan` and `re_scan_foreign_scan` of
-- src/fdw/scan.rs, outside sorted mode.
use mathlib.Core.Option
use parquet_azure_fdw.Modify.Handoff.{Handoff, publish, discard}
use parquet_azure_fdw.Prelude.{
  ℕ, zero, suc, ◌+◌, ◌/◌, ◌%◌, Option, none, some, List, [], ◌∷◌, ◌++◌, Bytes, if◌then◌else◌, leb,
  ◌==◌, get_elem?, length, drop, not,
}
use parquet_azure_fdw.Error.{FdwResult, ok, err}
use parquet_azure_fdw.Partition.Datum.{Datum}
use parquet_azure_fdw.Modify.RowId.{chunk_rows, ItemPointerData, from_absolute, to_ctid}
use parquet_azure_fdw.Modify.BlobTable.{BlobIdEntry, Blob}
use parquet_azure_fdw.Scan.State.{Stream, ScanState, emitted, continued, finished, failed, turn}

-- A row that is not on a chunk boundary, or whose chunk is registered, changes nothing. An index
-- out of range would be a panic; `blob_id_table` has the current blob's first entry.
unfoldable pub register_chunk_if_boundary : List BlobIdEntry → ℕ → ℕ → List BlobIdEntry
register_chunk_if_boundary blob_id_table cur_blob_base_id cur_row_in_blob =
    if cur_row_in_blob == 0
    then blob_id_table
    else if not (cur_row_in_blob % chunk_rows == 0)
    then blob_id_table
    else if leb (cur_blob_base_id + cur_row_in_blob / chunk_rows + 1) (length blob_id_table)
    then blob_id_table
    else elim (get_elem? blob_id_table cur_blob_base_id) [
      | none ↦ blob_id_table
      | some first ↦
          blob_id_table
          ++ record { name = first.name; chunk_base_row = cur_row_in_blob; etag = first.etag } ∷ []
    ]

-- A slot as the executor gets it: the arrow row, the partition columns and `tts_tid`.
pub record Slot (Row : Type 0) : Type 0 where
  pub row : Row
  pub partition_values : List Datum
  pub tts_tid : ItemPointerData

-- The list of blobs in place of the one that the scan published before, for a modify node over
-- the relation, if the node has one.
unfoldable pub republish : Option ℕ → List Blob → Handoff → Handoff
unfolding discard publish
republish none blobs handoff = handoff
republish (some relid) blobs handoff = publish relid blobs (discard relid handoff)

module _ {Row : Type 0} where
  -- What `iterate_foreign_scan` does with the row that `next_row` returned.
  unfoldable pub stamp : Row → ScanState Row → Slot Row × ScanState Row
  unfolding register_chunk_if_boundary from_absolute to_ctid
  stamp row s = (
    record {
      row = row;
      partition_values = s.partition_datums_for_current_blob;
      tts_tid = to_ctid (from_absolute s.cur_blob_base_id s.cur_row_in_blob);
    },
    record s {
      blob_id_table =
          register_chunk_if_boundary s.blob_id_table s.cur_blob_base_id s.cur_row_in_blob;
      cur_row_in_blob = s.cur_row_in_blob + 1;
    },
  )

  -- A row is stamped, anything else is passed on.
  unfoldable pub finish_row :
      FdwResult (Option Row) → ScanState Row → FdwResult (Option (Slot Row)) × ScanState Row
  unfolding stamp
  finish_row (ok (some row)) s = let (slot, s') = stamp row s in (ok (some slot), s')
  finish_row (ok none) s = (ok none, s)
  finish_row (err e) s = (err e, s)

  -- The scan back at its first blob.
  unfoldable pub rewind : ScanState Row → ScanState Row
  rewind s = record s {
    cur_stream = none;
    cur_batch = none;
    cur_row = 0;
    cur_blob = 0;
    blob_id_table = [];
    cur_blob_base_id = 0;
    cur_row_in_blob = 0;
    range_producer = record { blobs = s.blobs; cursor = 0 };
  }

  -- In sorted mode, which the state leaves out, the merge is built again between the two.
  unfoldable pub re_scan_foreign_scan : Option ℕ → ScanState Row → Handoff → ScanState Row × Handoff
  unfolding rewind republish
  re_scan_foreign_scan rel s handoff = (rewind s, republish rel s.blobs handoff)

module _ {Row : Type 0} (open_blob : Bytes → FdwResult (Stream Row)) where
  -- Turns that are sure to be enough: those of the current stream and of the blobs that are left.
  unfoldable pub stream_work : Option (Stream Row) → ℕ
  stream_work none = 0
  stream_work (some stream) = 1 + length stream

  unfoldable pub blobs_work : List Blob → ℕ
  unfolding stream_work
  blobs_work [] = 0
  blobs_work (b ∷ bs) = elim (open_blob b.0) [
    | ok stream ↦ 1 + (stream_work (some stream) + blobs_work bs)
    | err e ↦ 1 + blobs_work bs
  ]

  unfoldable pub work : ScanState Row → ℕ
  unfolding blobs_work stream_work
  work s =
      stream_work s.cur_stream + blobs_work (drop s.range_producer.cursor s.range_producer.blobs)

module _ (date_to_pg : Bytes → FdwResult ℕ) {Row : Type 0}
    (open_blob : Bytes → FdwResult (Stream Row)) where
  -- The loop, on fuel: `none` is out of fuel.
  unfoldable pub next_row_loop : ℕ → ScanState Row → Option (FdwResult (Option Row) × ScanState Row)
  unfolding turn
  next_row_loop zero s = none
  next_row_loop (suc fuel) s = elim (turn date_to_pg open_blob s) [
    | emitted row s' ↦ some (ok (some row), s')
    | continued s' ↦ next_row_loop fuel s'
    | finished s' ↦ some (ok none, s')
    | failed e s' ↦ some (err e, s')
  ]

  unfoldable pub next_row : ScanState Row → Option (FdwResult (Option Row) × ScanState Row)
  unfolding next_row_loop work
  next_row s = next_row_loop (suc (work open_blob s)) s

  unfoldable pub iterate_foreign_scan :
      ScanState Row → Option (FdwResult (Option (Slot Row)) × ScanState Row)
  unfolding next_row finish_row
  iterate_foreign_scan s = Option.map (λ p. finish_row p.0 p.1) (next_row s)

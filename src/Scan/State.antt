-- ===== src/Scan/State.antt =====
-- The state of a scan and one turn of the loop of `next_row` (src/fdw/scan.rs), outside sorted mode.
use parquet_azure_fdw.Prelude.{
  ℕ, ◌+◌, ◌%◌, ◌^◌, Option, none, some, List, [], ◌∷◌, ◌++◌, Bytes, if◌then◌else◌, get_elem?,
  length, is_empty,
}
use parquet_azure_fdw.Error.{FdwResult, ok, err, schema_mismatch, ◌>>=◌, FdwError}
use parquet_azure_fdw.Partition.Path.{Declared, Found, get, partition_values_from_path}
use parquet_azure_fdw.Partition.Datum.{Datum, parse_text_to_datum}
use parquet_azure_fdw.Modify.BlobTable.{BlobIdEntry, Blob}

pub record SequentialRanges : Type 0 where
  pub blobs : List Blob
  pub cursor : ℕ

-- `next_blob`, with the producer it leaves behind
unfoldable pub next_blob : SequentialRanges → Option (Blob × SequentialRanges)
next_blob r = elim (get_elem? r.blobs r.cursor) [
  | none ↦ none
  | some out ↦ some (out, record { blobs = r.blobs; cursor = r.cursor + 1 })
]

-- A batch is its rows, a stream the batches or errors to come.
abbrev pub Stream : Type 0 → Type 0
Stream Row = List (FdwResult (List Row))

pub record ScanState (Row : Type 0) : Type 0 where
  pub blobs : List Blob
  pub cur_blob : ℕ
  pub cur_stream : Option (Stream Row)
  pub cur_batch : Option (List Row)
  pub cur_row : ℕ
  pub range_producer : SequentialRanges
  pub blob_id_table : List BlobIdEntry
  pub cur_blob_base_id : ℕ
  pub cur_row_in_blob : ℕ
  pub partition_keys_decl : Declared
  pub partition_datums_for_current_blob : List Datum

-- What a turn of the loop does: return a row, go on, return at the end of the scan, or fail.
pub data Turn (Row : Type 0) : Type 0 where
  emitted : Row → ScanState Row → Turn Row
  continued : ScanState Row → Turn Row
  finished : ScanState Row → Turn Row
  failed : FdwError → ScanState Row → Turn Row

module _ {Row : Type 0} where
  -- A blob whose values parse becomes the current one.
  unfoldable pub enter_blob : ScanState Row → Blob → List Datum → ScanState Row
  enter_blob s (blob, etag) datums =
      let datums' =
        if is_empty s.partition_keys_decl then s.partition_datums_for_current_blob else datums in
      record s {
        blob_id_table =
            s.blob_id_table ++ record { name = blob; chunk_base_row = 0; etag = etag } ∷ [];
        cur_blob_base_id = length s.blob_id_table % 2 ^ 32;
        cur_row_in_blob = 0;
        partition_datums_for_current_blob = datums';
      }

module _ (date_to_pg : Bytes → FdwResult ℕ) where
  -- The loop over the declared keys. A parse that left a key out would be a panic; the walk of the
  -- path returns all of them.
  unfoldable pub partition_datums : Declared → Found → FdwResult (List Datum)
  unfolding get parse_text_to_datum
  partition_datums [] parsed = ok []
  partition_datums ((key, ty) ∷ decl) parsed = elim (get key parsed) [
    | none ↦ err schema_mismatch
    | some raw ↦ do
      d ← parse_text_to_datum date_to_pg ty raw
      rest ← partition_datums decl parsed
      ok (d ∷ rest)
  ]

  -- The datums of a blob, or that it is skipped.
  unfoldable pub blob_datums : Declared → Bytes → FdwResult (List Datum)
  unfolding partition_values_from_path partition_datums
  blob_datums decl blob =
      if is_empty decl
      then ok []
      else (do parsed ← partition_values_from_path blob decl; partition_datums decl parsed)

  -- `open_blob` is the parquet reader of a blob, under the scan's projection, row groups and filter.
  module _ {Row : Type 0} (open_blob : Bytes → FdwResult (Stream Row)) where
    -- No stream: the next blob, skipped where its partition values do not parse.
    unfoldable pub open_next : ScanState Row → Turn Row
    unfolding next_blob blob_datums enter_blob
    open_next s = elim (next_blob s.range_producer) [
      | none ↦ finished s
      | some (blob, producer) ↦
          let s' = record s { range_producer = producer } in
          elim (blob_datums s.partition_keys_decl blob.0) [
            | err e ↦ continued s'
            | ok datums ↦
                let s'' = enter_blob s' blob datums in
                elim (open_blob blob.0) [
                  | err e ↦ failed e s''
                  | ok stream ↦ continued (record s'' { cur_stream = some stream })
                ]
          ]
    ]

    unfoldable pub pull : ScanState Row → Turn Row
    unfolding open_next
    pull s = elim s.cur_stream [
      | none ↦ open_next s
      | some [] ↦ continued (record s { cur_stream = none; cur_blob = s.cur_blob + 1 })
      | some (ok batch ∷ stream) ↦
          continued (record s { cur_stream = some stream; cur_batch = some batch })
      | some (err e ∷ stream) ↦ failed e (record s { cur_stream = some stream })
    ]

    -- The body of the loop.
    unfoldable pub turn : ScanState Row → Turn Row
    unfolding pull
    turn s = elim s.cur_batch [
      | none ↦ pull s
      | some batch ↦ elim (get_elem? batch s.cur_row) [
        | some row ↦ emitted row (record s { cur_row = s.cur_row + 1 })
        | none ↦ pull (record s { cur_batch = none; cur_row = 0 })
      ]
    ]

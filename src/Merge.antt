-- ===== src/Merge.antt =====
-- src/parquet_io/multifile.rs: the merge of sorted streams. The names of the blobs serve the
-- messages and are not kept in the state. The batches of arrow are a parameter, with their number
-- of rows and the sort key of a row (`build_key`, which reads arrow's arrays).
pub mod Turn
pub mod Conservation
pub mod Exhaustion
pub mod Ascending
use parquet_azure_fdw.Prelude.{
  ℕ, zero, suc, ◌+◌, ◌-◌, Bool, true, false, not, ◌&&◌, ◌||◌, List, [], ◌∷◌, ◌++◌, map, Option,
  none, some, Bytes, ltb, ◌==◌, if◌then◌else◌, length, get_elem?,
}
use parquet_azure_fdw.Error.{FdwResult, ok, err, schema_mismatch, ◌>>=◌, ensure}
use parquet_azure_fdw.Pushdown.Order.{ℤ, int_ord, bytes_ord}

-- A float is a parameter, with `total_cmp`.
pub data SortKeyValue (F : Type 0) : Type 0 where
  null : SortKeyValue F
  i64 date32 timestamp_micros : ℤ → SortKeyValue F
  f64 : F → SortKeyValue F
  utf8 : Bytes → SortKeyValue F

unfoldable pub discriminant : {F : Type 0} → SortKeyValue F → ℕ
discriminant (i64 v) = 0
discriminant (f64 v) = 1
discriminant (utf8 v) = 2
discriminant (date32 v) = 3
discriminant (timestamp_micros v) = 4
discriminant null = 5

module _ {F : Type 0} (float_lt : F → F → Bool) where
  -- `a < b`
  unfoldable pub sort_key_lt : SortKeyValue F → SortKeyValue F → Bool
  unfolding discriminant
  sort_key_lt (i64 a) (i64 b) = int_ord.lt a b
  sort_key_lt (f64 a) (f64 b) = float_lt a b
  sort_key_lt (utf8 a) (utf8 b) = bytes_ord.lt a b
  sort_key_lt (date32 a) (date32 b) = int_ord.lt a b
  sort_key_lt (timestamp_micros a) (timestamp_micros b) = int_ord.lt a b
  sort_key_lt a b = ltb (discriminant a) (discriminant b)

  -- The order of `Vec<SortKeyValue>`
  unfoldable pub keys_lt : List (SortKeyValue F) → List (SortKeyValue F) → Bool
  keys_lt a [] = false
  keys_lt [] (b ∷ bs) = true
  keys_lt (a ∷ more) (b ∷ bs) = sort_key_lt a b || (not (sort_key_lt b a) && keys_lt more bs)

pub record HeapEntry (Key Batch : Type 0) : Type 0 where
  pub key : Key
  pub source_idx : ℕ
  pub batch : Batch
  pub row_in_batch : ℕ

-- `heap` lists the entries of the binary heap; a stream that is exhausted is `none`.
pub record MultiFileSortedStream (Key Batch : Type 0) : Type 0 where
  pub streams : List (Option (List (FdwResult Batch)))
  pub heap : List (HeapEntry Key Batch)
  pub last_emitted : Option Key

module _ {Key Batch : Type 0} (key_lt : Key → Key → Bool) (num_rows : Batch → ℕ)
    (build_key : Batch → ℕ → FdwResult Key) where
  -- `BinaryHeap::pop`: an entry of a least key; the order among equal keys is not promised.
  unfoldable pub pop_heap :
      List (HeapEntry Key Batch) → Option (HeapEntry Key Batch × List (HeapEntry Key Batch))
  pop_heap [] = none
  pop_heap (entry ∷ heap) = elim (pop_heap heap) [
    | none ↦ some (entry, [])
    | some (least, rest) ↦
        if key_lt least.key entry.key then some (least, entry ∷ rest) else some (entry, heap)
  ]

  -- The loop that pulls the next batch that is not empty, and the stream behind it.
  unfoldable pub pull_batch :
      ℕ → List (FdwResult Batch) → FdwResult (Option (HeapEntry Key Batch) × List (FdwResult Batch))
  pull_batch source_idx [] = ok (none, [])
  pull_batch source_idx (err problem ∷ stream) = err problem
  pull_batch source_idx (ok batch ∷ stream) =
      if ltb 0 (num_rows batch)
      then (do
        key ← build_key batch 0
        ok (
          some (record { key = key; source_idx = source_idx; batch = batch; row_in_batch = 0 }),
          stream,
        ))
      else pull_batch source_idx stream

  abbrev pub with_entry :
      Option (HeapEntry Key Batch) → List (HeapEntry Key Batch) → List (HeapEntry Key Batch)
  with_entry none heap = heap
  with_entry (some entry) heap = entry ∷ heap

  -- The loop of `new` over the streams, from the stream `i` on.
  unfoldable pub start_streams :
      ℕ
      → List (List (FdwResult Batch))
      → FdwResult (List (Option (List (FdwResult Batch))) × List (HeapEntry Key Batch))
  start_streams i [] = ok ([], [])
  start_streams i (stream ∷ streams) = do
    (first, behind) ← pull_batch i stream
    (others, heap) ← start_streams (suc i) streams
    ok (some behind ∷ others, with_entry first heap)

  unfoldable pub new_merge :
      List (List (FdwResult Batch)) → List Bytes → FdwResult (MultiFileSortedStream Key Batch)
  new_merge streams blob_names = do
    few ← ensure schema_mismatch (not (ltb 256 (length streams)))
    named ← ensure schema_mismatch (length streams == length blob_names)
    (wrapped, heap) ← start_streams 0 streams
    ok (record { streams = wrapped; heap = heap; last_emitted = none })

  abbrev pub set_stream :
      ℕ
      → Option (List (FdwResult Batch))
      → List (Option (List (FdwResult Batch)))
      → List (Option (List (FdwResult Batch)))
  set_stream i stream [] = []
  set_stream zero stream (s ∷ streams) = stream ∷ streams
  set_stream (suc i) stream (s ∷ streams) = s ∷ set_stream i stream streams

  -- What a stream is after a pull: `none` once it has nothing more to give.
  abbrev pub left_over :
      Option (HeapEntry Key Batch) → List (FdwResult Batch) → Option (List (FdwResult Batch))
  left_over none stream = none
  left_over (some entry) stream = some stream

  -- An index past the streams, at which the code would panic, is an error here; no entry has one.
  -- The source of the row that was taken goes on with the next row, in its batch or in the stream.
  unfoldable pub advance :
      HeapEntry Key Batch
      → List (HeapEntry Key Batch)
      → List (Option (List (FdwResult Batch)))
      → FdwResult (List (HeapEntry Key Batch) × List (Option (List (FdwResult Batch))))
  advance entry heap streams =
      let next_row = entry.row_in_batch + 1 in
      if ltb next_row (num_rows entry.batch)
      then (do
        key ← build_key entry.batch next_row
        ok (record entry { key = key; row_in_batch = next_row } ∷ heap, streams))
      else elim (get_elem? streams entry.source_idx) [
        | none ↦ err schema_mismatch
        | some stream ↦ elim stream [
          | none ↦ err schema_mismatch
          | some items ↦ do
            (next, behind) ← pull_batch entry.source_idx items
            ok (with_entry next heap, set_stream entry.source_idx (left_over next behind) streams)
        ]
      ]

  -- A key below the last one breaks the promise that the files are in order.
  abbrev pub in_order : Option Key → Key → Bool
  in_order none key = true
  in_order (some prev) key = not (key_lt key prev)

  unfoldable pub next_row_merged :
      MultiFileSortedStream Key Batch
      → FdwResult (Option (Batch × ℕ) × MultiFileSortedStream Key Batch)
  next_row_merged state = elim (pop_heap state.heap) [
    | none ↦ ok (none, state)
    | some (entry, rest) ↦ do
      ordered ← ensure schema_mismatch (in_order state.last_emitted entry.key)
      (heap, streams) ← advance entry rest state.streams
      ok (
        some (entry.batch, entry.row_in_batch),
        record { streams = streams; heap = heap; last_emitted = some entry.key },
      )
  ]

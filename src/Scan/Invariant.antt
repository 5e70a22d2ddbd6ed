-- ===== src/Scan/Invariant.antt =====
-- The invariant of a scan (src/fdw/scan.rs).
use parquet_azure_fdw.Prelude.{
  ℕ, zero, suc, ◌+◌, ◌≡◌, refl, ◌∙◌, none, some, List, [], ◌∷◌, ◌++◌, map, get_elem?, take, length,
  append_assoc, arith, append-nil, ◌⊎◌, Bytes, drop, Option, All,
}
use parquet_azure_fdw.Error.{FdwResult, ok, err}
use parquet_azure_fdw.Modify.BlobTable.{BlobIdEntry, Blob, chunk_entries, chunk_count}
use parquet_azure_fdw.Partition.Path.{Declared}
use parquet_azure_fdw.Scan.State.{ScanState, blob_datums, Stream}

-- The blobs that a scan has opened, with the rows that it has emitted of each.
abbrev pub Opened : Type 0
Opened = List (Blob × ℕ)

unfoldable pub entries : Opened → List BlobIdEntry
entries [] = []
entries ((b, n) ∷ h) = chunk_entries (chunk_count n) 0 b ++ entries h

pub entries-append : (g h : Opened) → entries (g ++ h) ≡ entries g ++ entries h
unfolding entries
entries-append [] h = refl
entries-append ((b, n) ∷ g) h = simp (append_assoc, entries-append g h)

pub entries-last :
    (g : Opened) (b : Blob) (n : ℕ)
    → entries (g ++ (b, n) ∷ []) ≡ entries g ++ chunk_entries (chunk_count n) 0 b
unfolding entries
entries-last g b n = entries-append g ((b, n) ∷ []) ∙ rw append-nil refl

pub take-next {ℓ} :
    {A : Type ℓ} (xs : List A) (i : ℕ) (x : A)
    → get_elem? xs i ≡ some x
    → take (i + 1) xs ≡ take i xs ++ x ∷ []
take-next [] i x h = ground arith
take-next (y ∷ xs) zero x h = ground arith
take-next (y ∷ xs) (suc i) x h = ground (arith, take-next xs i x h)

pub drop-get_elem? {ℓ} :
    {A : Type ℓ} (xs : List A) (i : ℕ) (x : A)
    → get_elem? xs i ≡ some x
    → drop i xs ≡ x ∷ drop (i + 1) xs
drop-get_elem? [] i x h = ground arith
drop-get_elem? (y ∷ xs) zero x h = ground arith
drop-get_elem? (y ∷ xs) (suc i) x h = ground (arith, drop-get_elem? xs i x h)

pub drop-end {ℓ} : {A : Type ℓ} (xs : List A) (i : ℕ) → get_elem? xs i ≡ none → drop i xs ≡ []
drop-end [] zero h = refl
drop-end [] (suc i) h = refl
drop-end (y ∷ xs) zero h = ground arith
drop-end (y ∷ xs) (suc i) h = ground (arith, drop-end xs i h)

module _ {Row : Type 0} where
  -- The rows of a stream, in order.
  unfoldable pub rows_of : Stream Row → List Row
  rows_of [] = []
  rows_of (ok batch ∷ stream) = batch ++ rows_of stream
  rows_of (err e ∷ stream) = rows_of stream

  unfoldable pub rows_in : FdwResult (Stream Row) → List Row
  unfolding rows_of
  rows_in (ok stream) = rows_of stream
  rows_in (err e) = []

  unfoldable pub stream_rows : Option (Stream Row) → List Row
  unfolding rows_of
  stream_rows none = []
  stream_rows (some stream) = rows_of stream

  -- What is left of a batch from a row on, and of the stream behind it.
  unfoldable pub unread : Option (Stream Row) → Option (List Row) → ℕ → List Row
  unfolding stream_rows
  unread stream none row = stream_rows stream
  unread stream (some batch) row = drop row batch ++ stream_rows stream

  -- `n` rows before the rest.
  abbrev pub Reads : List Row → ℕ → List Row → Type 0
  Reads whole n rest = (front : List Row) × (whole ≡ front ++ rest) × (length front ≡ n)

  module _ (open_blob : Bytes → FdwResult (Stream Row)) where
    -- The rows that the reader gives of a blob.
    abbrev pub blob_rows : Blob → List Row
    blob_rows b = rows_in (open_blob b.0)

    -- As many rows were emitted of the blob as the reader gives.
    abbrev pub Emitted : Blob × ℕ → Type 0
    Emitted h = h.1 ≡ length (blob_rows h.0)

module _ (date_to_pg : Bytes → FdwResult ℕ) where
  -- The blobs that are not skipped.
  unfoldable pub kept : Declared → List Blob → List Blob
  kept decl [] = []
  kept decl (b ∷ bs) = elim (blob_datums date_to_pg decl b.0) [
    | ok datums ↦ b ∷ kept decl bs
    | err e ↦ kept decl bs
  ]

  pub kept-append :
      (decl : Declared) (bs cs : List Blob) → kept decl (bs ++ cs) ≡ kept decl bs ++ kept decl cs
  unfolding kept
  kept-append decl [] cs = refl
  kept-append decl (b ∷ bs) cs = ground (arith, kept-append decl bs cs)

  module _ {Row : Type 0} where
    -- The table lists the chunks of the opened blobs, for the rows emitted of each; the opened blobs
    -- are those taken from the producer, less the skipped ones.
    pub record Tabled (s : ScanState Row) (opened : Opened) : Type 0 where
      pub published : s.range_producer.blobs ≡ s.blobs
      pub table : s.blob_id_table ≡ entries opened
      pub taken :
          map (λ h. h.0) opened ≡ kept s.partition_keys_decl (take s.range_producer.cursor s.blobs)

    pub record Idle (s : ScanState Row) : Type 0 where
      pub no_stream : s.cur_stream ≡ none
      pub no_batch : s.cur_batch ≡ none
      pub first_row : s.cur_row ≡ 0

    module _ (open_blob : Bytes → FdwResult (Stream Row)) where
      -- The last one opened is the current one, and the rows that are pending or not read yet are
      -- those behind the emitted ones. Of the blobs before, all rows were emitted.
      pub record Open (pending : List Row) (s : ScanState Row) (opened : Opened) : Type 0 where
        pub before : Opened
        pub blob : Blob
        pub split : opened ≡ before ++ (blob, s.cur_row_in_blob) ∷ []
        pub base : s.cur_blob_base_id ≡ length (entries before)
        pub complete : All (Emitted open_blob) before
        pub reads :
            Reads
              (blob_rows open_blob blob)
              s.cur_row_in_blob
              (pending ++ unread s.cur_stream s.cur_batch s.cur_row)
        pub at_start : s.cur_batch ≡ none → s.cur_row ≡ 0

      pub record ScanInv (s : ScanState Row) : Type 0 where
        pub opened : Opened
        pub tabled : Tabled s opened
        pub current : (Idle s × All (Emitted open_blob) opened) ⊎ Open [] s opened

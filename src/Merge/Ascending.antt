-- ===== src/Merge/Ascending.antt =====
-- The order in which the merge of sorted streams gives out rows (src/parquet_io/multifile.rs).
use parquet_azure_fdw.Prelude.{◌≡◌, ℕ, Bool, true, List, [], ◌∷◌, All, Option, none, some}
use parquet_azure_fdw.Error.{FdwResult, ok}
use parquet_azure_fdw.Merge.{HeapEntry, MultiFileSortedStream, with_entry, in_order}

module _ {Key Batch : Type 0} (key_lt : Key → Key → Bool) (num_rows : Batch → ℕ)
    (build_key : Batch → ℕ → FdwResult Key) where
  -- An entry has the sort key of its row.
  abbrev Keyed : HeapEntry Key Batch → Type 0
  Keyed entry = build_key entry.batch entry.row_in_batch ≡ ok entry.key

  abbrev KeyedRest : HeapEntry Key Batch × List (HeapEntry Key Batch) → Type 0
  KeyedRest (entry, rest) = Keyed entry × All Keyed rest

  abbrev KeyedNext : Option (HeapEntry Key Batch) × List (FdwResult Batch) → Type 0
  KeyedNext (fresh, behind) =
      (heap : List (HeapEntry Key Batch))
      → All Keyed heap
      → All Keyed (with_entry key_lt num_rows build_key fresh heap)

  -- The row has a key, which is in order after the last one and is kept as the last one.
  abbrev InTurn : Option Key → Option (Batch × ℕ) × MultiFileSortedStream Key Batch → Type 0
  InTurn last (none, after) = Unit
  InTurn last (some (batch, row), after) =
      All Keyed after.heap
      × ((key : Key) × (build_key batch row ≡ ok key)
          × (in_order key_lt num_rows build_key last key ≡ true)
          × (after.last_emitted ≡ some key))

  -- Rows whose keys do not descend, from a last key on.
  abbrev pub Ascends : Option Key → List (Batch × ℕ) → Type 0
  Ascends last [] = Unit
  Ascends last ((batch, row) ∷ rows) =
      (key : Key) × (build_key batch row ≡ ok key)
      × (in_order key_lt num_rows build_key last key ≡ true)
      × Ascends (some key) rows

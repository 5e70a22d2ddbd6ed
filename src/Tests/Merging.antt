-- ===== src/Tests/Merging.antt =====
-- A merge of two blobs (src/parquet_io/multifile.rs), the first with an empty batch before its rows.
use parquet_azure_fdw.Prelude.{
  ◌≡◌, refl, ℕ, List, [], ◌∷◌, Option, none, some, get_elem?, length, ltb, ◌==◌, Bytes,
}
use parquet_azure_fdw.Error.{FdwResult, ok, err, arrow}
use parquet_azure_fdw.Merge.{
  HeapEntry, MultiFileSortedStream, new_merge, start_streams, pull_batch, next_row_merged, pop_heap,
  advance,
}
use parquet_azure_fdw.Merge.Conservation.{Gives, nothing, next, hits, in_input}
use parquet_azure_fdw.Merge.Exhaustion.{next_row_merged-hits}

abbrev key_at : List ℕ → ℕ → FdwResult ℕ
key_at keys row = elim (get_elem? keys row) [ none ↦ err arrow | some key ↦ ok key ]

abbrev first_keys : List ℕ
first_keys = 1 ∷ 4 ∷ []

abbrev second_keys : List ℕ
second_keys = 2 ∷ []

abbrev two_blobs : List (List (FdwResult (List ℕ)))
two_blobs = (ok [] ∷ ok first_keys ∷ []) ∷ (ok second_keys ∷ []) ∷ []

abbrev two_names : List Bytes
two_names = [] ∷ [] ∷ []

abbrev first_entry : HeapEntry ℕ (List ℕ)
first_entry = record { key = 1; source_idx = 0; batch = first_keys; row_in_batch = 0 }

abbrev second_entry : HeapEntry ℕ (List ℕ)
second_entry = record { key = 2; source_idx = 1; batch = second_keys; row_in_batch = 0 }

abbrev third_entry : HeapEntry ℕ (List ℕ)
third_entry = record { key = 4; source_idx = 0; batch = first_keys; row_in_batch = 1 }

abbrev merging :
    List (HeapEntry ℕ (List ℕ))
    → Option ℕ
    → List (Option (List (FdwResult (List ℕ))))
    → MultiFileSortedStream ℕ (List ℕ)
merging heap last streams = record { streams = streams; heap = heap; last_emitted = last }

abbrev both_open : List (Option (List (FdwResult (List ℕ))))
both_open = some [] ∷ some [] ∷ []

abbrev end_state : MultiFileSortedStream ℕ (List ℕ)
end_state = merging [] (some 4) (none ∷ none ∷ [])

abbrev merged_rows : List (List ℕ × ℕ)
merged_rows = (first_keys, 0) ∷ (second_keys, 0) ∷ (first_keys, 1) ∷ []

merge_run :
    Gives ltb length key_at
      (λ batch row. row == 0)
      (merging (first_entry ∷ second_entry ∷ []) none both_open)
      merged_rows
      end_state
unfolding next_row_merged pop_heap advance pull_batch
merge_run = next {middle = merging (third_entry ∷ second_entry ∷ []) (some 1) both_open} refl (
    next {middle = merging (third_entry ∷ []) (some 2) (some [] ∷ none ∷ [])} refl
      (next {middle = end_state} refl nothing))

next_row_merged-hits_example :
    hits ltb length key_at (λ batch row. row == 0) merged_rows
    ≡ in_input ltb length key_at (λ batch row. row == 0) two_blobs
unfolding new_merge start_streams next_row_merged pop_heap advance pull_batch
next_row_merged-hits_example =
    next_row_merged-hits ltb length key_at (λ batch row. row == 0) two_blobs two_names merged_rows
      (merging (first_entry ∷ second_entry ∷ []) none both_open) end_state end_state refl merge_run
      refl

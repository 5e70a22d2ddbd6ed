-- ===== src/Merge/Turn.antt =====
-- What a successful call of the merge of sorted streams went through (src/parquet_io/multifile.rs).
use parquet_azure_fdw.Modify.Edits.Entries.{ok_eq}
use parquet_azure_fdw.Prelude.{
  ◌≡◌, ℕ, ◌+◌, arith, Bool, true, false, List, ◌∷◌, Option, none, some, get_elem?, Option-cases,
  Bool-cases, inl, inr, ltb, not, length, Bytes, ◌==◌, ◌⊎◌,
}
use parquet_azure_fdw.Error.{>>=-ok, FdwResult, ok, ensure, schema_mismatch}
use parquet_azure_fdw.Merge.{
  HeapEntry, MultiFileSortedStream, pop_heap, pull_batch, with_entry, left_over, set_stream,
  advance, next_row_merged, start_streams, new_merge, in_order,
}

module _ {Key Batch : Type 0} (key_lt : Key → Key → Bool) (num_rows : Batch → ℕ)
    (build_key : Batch → ℕ → FdwResult Key) where
  pub new_merge-started :
      (streams : List (List (FdwResult Batch))) (blob_names : List Bytes)
      (state : MultiFileSortedStream Key Batch)
      → new_merge key_lt num_rows build_key streams blob_names ≡ ok state
      → (started : List (Option (List (FdwResult Batch))) × List (HeapEntry Key Batch))
        × (start_streams key_lt num_rows build_key 0 streams ≡ ok started)
        × (record { streams = started.0; heap = started.1; last_emitted = none } ≡ state)
  unfolding new_merge
  new_merge-started streams blob_names state made =
      let (few, rest1, t1) =
        >>=-ok _ (ensure schema_mismatch (not (ltb 256 (length streams)))) made in
      let (named, rest2, t2) =
        >>=-ok _ (ensure schema_mismatch (length streams == length blob_names)) rest1 in
      let (started, success, t3) =
        >>=-ok _ (start_streams key_lt num_rows build_key 0 streams) rest2 in
      (started, t3, ok_eq success)

  -- A row was taken from the heap, in order, and its source went on.
  abbrev pub Turn :
      MultiFileSortedStream Key Batch
      → Option (Batch × ℕ) × MultiFileSortedStream Key Batch
      → Type 0
  Turn state given =
      (popped : HeapEntry Key Batch × List (HeapEntry Key Batch)) × (moved : List
          (HeapEntry Key Batch)
        × List (Option (List (FdwResult Batch))))
      × (pop_heap key_lt num_rows build_key state.heap ≡ some popped)
      × (in_order key_lt num_rows build_key state.last_emitted popped.0.key ≡ true)
      × (advance key_lt num_rows build_key popped.0 popped.1 state.streams ≡ ok moved)
      × ((
        some (popped.0.batch, popped.0.row_in_batch),
        record { streams = moved.1; heap = moved.0; last_emitted = some popped.0.key },
      )
          ≡ given)

  pub next_row_merged-Turn :
      (state : MultiFileSortedStream Key Batch)
      (given : Option (Batch × ℕ) × MultiFileSortedStream Key Batch)
      → next_row_merged key_lt num_rows build_key state ≡ ok given
      → ((pop_heap key_lt num_rows build_key state.heap ≡ none) × ((none, state) ≡ given))
        ⊎ Turn state given
  unfolding next_row_merged
  next_row_merged-Turn state given done =
      elim (Option-cases (pop_heap key_lt num_rows build_key state.heap)) [
        | inl e ↦ inl (e, ok_eq (rw (e, next_row_merged) at done))
        | inr (popped, e) ↦
            let (ordered, checked, o) =
              >>=-ok _
                (ensure schema_mismatch
                  (in_order key_lt num_rows build_key state.last_emitted popped.0.key))
                (rw (e, next_row_merged) at done) in
            let (moved, success, m) =
              >>=-ok _ (advance key_lt num_rows build_key popped.0 popped.1 state.streams)
                checked in
            inr (popped, moved, e, ground (arith, o), m, ok_eq success)
      ]

  -- The next row of the batch, or the next batch of the stream.
  pub advance-went :
      (entry : HeapEntry Key Batch) (rest : List (HeapEntry Key Batch))
      (streams : List (Option (List (FdwResult Batch))))
      (after : List (HeapEntry Key Batch) × List (Option (List (FdwResult Batch))))
      → advance key_lt num_rows build_key entry rest streams ≡ ok after
      → ((ltb (entry.row_in_batch + 1) (num_rows entry.batch) ≡ true)
          × ((key : Key) × (build_key entry.batch (entry.row_in_batch + 1) ≡ ok key)
              × ((record entry { key = key; row_in_batch = entry.row_in_batch + 1 } ∷ rest, streams)
                  ≡ after)))
        ⊎ ((ltb (entry.row_in_batch + 1) (num_rows entry.batch) ≡ false)
            × ((items : List (FdwResult Batch)) × (pulled : Option (HeapEntry Key Batch)
                  × List (FdwResult Batch))
                × (get_elem? streams entry.source_idx ≡ some (some items))
                × (pull_batch key_lt num_rows build_key entry.source_idx items ≡ ok pulled)
                × ((
                  with_entry key_lt num_rows build_key pulled.0 rest,
                  set_stream key_lt num_rows build_key entry.source_idx
                      (left_over key_lt num_rows build_key pulled.0 pulled.1)
                      streams,
                )
                    ≡ after)))
  unfolding advance
  advance-went entry rest streams after done =
      let next_row = entry.row_in_batch + 1 in
      elim (Bool-cases (ltb next_row (num_rows entry.batch))) [
        | inl e ↦
            let (key, success, built) = >>=-ok _ (build_key entry.batch next_row) (rw e at done) in
            inl (e, (key, built, ok_eq success))
        | inr e ↦ elim (Option-cases (get_elem? streams entry.source_idx)) [
          | inl missing ↦ cc (rw (e, missing) at done)
          | inr (none, found) ↦ cc (rw (e, found) at done)
          | inr (some items, found) ↦
              let (pulled, success, q) =
                >>=-ok _ (pull_batch key_lt num_rows build_key entry.source_idx items)
                  (rw (e, found) at done) in
              inr (e, (items, pulled, found, q, ok_eq success))
        ]
      ]

-- ===== src/Merge/Conservation.antt =====
-- The rows that the merge of sorted streams gives out (src/parquet_io/multifile.rs).
use parquet_azure_fdw.Merge.Turn.{advance-went, next_row_merged-Turn, new_merge-started}
use parquet_azure_fdw.Modify.Edits.Entries.{some_eq, ok_eq}
use parquet_azure_fdw.Prelude.{
  ◌≡◌, refl, ℕ, zero, suc, ◌+◌, ◌-◌, ◌<◌, arith, Bool, List, [], ◌∷◌, All, Option, none, some,
  if◌then◌else◌, get_elem?, Option-cases, Bool-cases, inl, inr, subst, ltb, ltb→lt, ◌∙◌, ap, Bytes,
}
use parquet_azure_fdw.Error.{>>=-ok, FdwResult, ok, err}
use parquet_azure_fdw.Merge.{
  HeapEntry, MultiFileSortedStream, pop_heap, pull_batch, with_entry, left_over, set_stream,
  advance, next_row_merged, start_streams, new_merge,
}

module _ {Key Batch : Type 0} (key_lt : Key → Key → Bool) (num_rows : Batch → ℕ)
    (build_key : Batch → ℕ → FdwResult Key) (p : Batch → ℕ → Bool) where
  abbrev pub hit : Batch → ℕ → ℕ
  hit batch row = if p batch row then 1 else 0

  -- How many of the `n` rows from `row` on pass the test.
  abbrev pub rows_from : Batch → ℕ → ℕ → ℕ
  rows_from batch row zero = 0
  rows_from batch row (suc n) = hit batch row + rows_from batch (row + 1) n

  abbrev pub in_entry : HeapEntry Key Batch → ℕ
  in_entry entry =
      rows_from entry.batch entry.row_in_batch (num_rows entry.batch - entry.row_in_batch)

  abbrev pub in_heap : List (HeapEntry Key Batch) → ℕ
  in_heap [] = 0
  in_heap (entry ∷ heap) = in_entry entry + in_heap heap

  abbrev pub in_stream : List (FdwResult Batch) → ℕ
  in_stream [] = 0
  in_stream (err problem ∷ stream) = in_stream stream
  in_stream (ok batch ∷ stream) = rows_from batch 0 (num_rows batch) + in_stream stream

  abbrev pub in_open : Option (List (FdwResult Batch)) → ℕ
  in_open none = 0
  in_open (some stream) = in_stream stream

  abbrev pub in_streams : List (Option (List (FdwResult Batch))) → ℕ
  in_streams [] = 0
  in_streams (stream ∷ streams) = in_open stream + in_streams streams

  abbrev pub in_input : List (List (FdwResult Batch)) → ℕ
  in_input [] = 0
  in_input (stream ∷ streams) = in_stream stream + in_input streams

  -- The rows that pass the test and were not given out yet.
  abbrev pub waiting : MultiFileSortedStream Key Batch → ℕ
  waiting state = in_heap state.heap + in_streams state.streams

  abbrev pub HasRow : HeapEntry Key Batch → Type 0
  HasRow entry = entry.row_in_batch < num_rows entry.batch

  rows_from-hit :
      (entry : HeapEntry Key Batch)
      → HasRow entry
      → in_entry entry
        ≡ hit entry.batch entry.row_in_batch
          + rows_from entry.batch
              (entry.row_in_batch + 1)
              (num_rows entry.batch - (entry.row_in_batch + 1))
  rows_from-hit entry h =
      let e : num_rows entry.batch - entry.row_in_batch
          ≡ suc (num_rows entry.batch - (entry.row_in_batch + 1)) =
        omega (arith, h) in
      rw e refl

  pub pop_heap-none :
      (heap : List (HeapEntry Key Batch))
      → pop_heap key_lt num_rows build_key heap ≡ none
      → heap ≡ []
  unfolding pop_heap
  pop_heap-none [] done = refl
  pop_heap-none (first ∷ heap) done =
      elim (Option-cases (pop_heap key_lt num_rows build_key heap)) [
        | inl e ↦ cc (rw e at done)
        | inr (again, e) ↦ elim (Bool-cases (key_lt again.0.key first.key)) [
          | inl lt ↦ cc (rw (e, lt) at done)
          | inr lt ↦ cc (rw (e, lt) at done)
        ]
      ]

  abbrev pub Popped :
      List (HeapEntry Key Batch) → HeapEntry Key Batch × List (HeapEntry Key Batch) → Type 0
  Popped heap (entry, rest) =
      HasRow entry × All HasRow rest × (in_heap heap ≡ in_entry entry + in_heap rest)

  pop_heap-Popped :
      (heap : List (HeapEntry Key Batch))
      (popped : HeapEntry Key Batch × List (HeapEntry Key Batch))
      → pop_heap key_lt num_rows build_key heap ≡ some popped
      → All HasRow heap
      → Popped heap popped
  unfolding pop_heap
  pop_heap-Popped [] popped done h = cc
  pop_heap-Popped (first ∷ heap) popped done h =
      elim (Option-cases (pop_heap key_lt num_rows build_key heap)) [
        | inl e ↦
            subst (Popped (first ∷ heap)) (some_eq (rw e at done))
              (h.0, tt, rw (pop_heap-none heap e) refl)
        | inr (again, e) ↦
            let rest_of = pop_heap-Popped heap again e h.1 in
            elim (Bool-cases (key_lt again.0.key first.key)) [
              | inl lt ↦
                  subst (Popped (first ∷ heap)) (some_eq (rw (e, lt) at done))
                    (rest_of.0, (h.0, rest_of.1), omega (arith, rest_of.2))
              | inr lt ↦
                  subst (Popped (first ∷ heap)) (some_eq (rw (e, lt) at done)) (h.0, h.1, refl)
            ]
      ]

  abbrev pub Pulled :
      List (FdwResult Batch) → Option (HeapEntry Key Batch) × List (FdwResult Batch) → Type 0
  Pulled stream (next, behind) =
      ((heap : List (HeapEntry Key Batch))
        → All HasRow heap
        → All HasRow (with_entry key_lt num_rows build_key next heap)
          × (in_heap (with_entry key_lt num_rows build_key next heap) + in_stream behind
              ≡ in_heap heap + in_stream stream))
      × (in_open (left_over key_lt num_rows build_key next behind) ≡ in_stream behind)

  pub whole : (n : ℕ) → n - 0 ≡ n
  whole n = omega arith

  pub pull_batch-Pulled :
      (i : ℕ) (stream : List (FdwResult Batch))
      (pulled : Option (HeapEntry Key Batch) × List (FdwResult Batch))
      → pull_batch key_lt num_rows build_key i stream ≡ ok pulled
      → Pulled stream pulled
  unfolding pull_batch
  pull_batch-Pulled i [] pulled done = subst (Pulled []) (ok_eq done) ((λ heap h. (h, refl)), refl)
  pull_batch-Pulled i (err problem ∷ stream) pulled done = cc
  pull_batch-Pulled i (ok batch ∷ stream) pulled done = elim (Bool-cases (ltb 0 (num_rows batch))) [
    | inl e ↦
        let (key, success, built) = >>=-ok _ (build_key batch 0) (rw e at done) in
        subst (Pulled (ok batch ∷ stream)) (ok_eq success) (
          (λ heap h. ((ltb→lt 0 (num_rows batch) e, h), rw (whole (num_rows batch)) (omega arith))),
          refl,
        )
    | inr e ↦
        let here : num_rows batch ≡ 0 = ground (arith, e) in
        let more = pull_batch-Pulled i stream pulled (rw e at done) in
        ((λ heap h. ((more.0 heap h).0, rw here (omega (arith, (more.0 heap h).1)))), more.1)
  ]

  set_stream-in_streams :
      (i : ℕ) (streams : List (Option (List (FdwResult Batch))))
      (old new : Option (List (FdwResult Batch)))
      → get_elem? streams i ≡ some old
      → in_streams (set_stream key_lt num_rows build_key i new streams) + in_open old
        ≡ in_streams streams + in_open new
  set_stream-in_streams i [] old new h = cc
  set_stream-in_streams zero (s ∷ streams) old new h = rw (some_eq h) (omega arith)
  set_stream-in_streams (suc i) (s ∷ streams) old new h =
      omega (arith, set_stream-in_streams i streams old new h)

  abbrev pub Advanced :
      HeapEntry Key Batch
      → List (HeapEntry Key Batch)
      → List (Option (List (FdwResult Batch)))
      → List (HeapEntry Key Batch) × List (Option (List (FdwResult Batch)))
      → Type 0
  Advanced entry rest streams (heap, after) =
      All HasRow heap
      × (in_entry entry + in_heap rest + in_streams streams
          ≡ hit entry.batch entry.row_in_batch + (in_heap heap + in_streams after))

  advance-Advanced :
      (entry : HeapEntry Key Batch) (rest : List (HeapEntry Key Batch))
      (streams : List (Option (List (FdwResult Batch))))
      (after : List (HeapEntry Key Batch) × List (Option (List (FdwResult Batch))))
      → advance key_lt num_rows build_key entry rest streams ≡ ok after
      → HasRow entry
      → All HasRow rest
      → Advanced entry rest streams after
  advance-Advanced entry rest streams after done h others =
      elim (advance-went key_lt num_rows build_key entry rest streams after done) [
        | inl (e, (key, built, moved)) ↦ subst (Advanced entry rest streams) moved (
          (ltb→lt (entry.row_in_batch + 1) (num_rows entry.batch) e, others),
          omega (arith, rows_from-hit entry h),
        )
        | inr (e, (items, pulled, found, q, moved)) ↦
            let here : num_rows entry.batch - (entry.row_in_batch + 1) ≡ 0 = ground (arith, e) in
            let last_row : in_entry entry ≡ hit entry.batch entry.row_in_batch =
              rows_from-hit entry h ∙ rw here (omega arith) in
            let (fresh, left) = pull_batch-Pulled entry.source_idx items pulled q in
            let (live, kept) = fresh rest others in
            subst (Advanced entry rest streams) moved (
              live,
              omega (
                arith,
                last_row,
                kept,
                left,
                set_stream-in_streams entry.source_idx streams (some items)
                    (left_over key_lt num_rows build_key pulled.0 pulled.1) found,
              ),
            )
      ]

  abbrev pub Given :
      MultiFileSortedStream Key Batch
      → Option (Batch × ℕ) × MultiFileSortedStream Key Batch
      → Type 0
  Given state (none, after) = Unit
  Given state (some (batch, row), after) =
      All HasRow after.heap × (waiting state ≡ hit batch row + waiting after)

  pub next_row_merged-Given :
      (state : MultiFileSortedStream Key Batch)
      (given : Option (Batch × ℕ) × MultiFileSortedStream Key Batch)
      → All HasRow state.heap
      → next_row_merged key_lt num_rows build_key state ≡ ok given
      → Given state given
  next_row_merged-Given state given h done =
      elim (next_row_merged-Turn key_lt num_rows build_key state given done) [
        | inl (e, same) ↦ subst (Given state) same tt
        | inr (popped, moved, e, ordered, m, turned) ↦
            let (live, others, count) = pop_heap-Popped state.heap popped e h in
            let (alive, kept) =
              advance-Advanced popped.0 popped.1 state.streams moved m live others in
            subst (Given state) turned (alive, omega (arith, count, kept))
      ]

  pub start_streams-in_input :
      (i : ℕ) (streams : List (List (FdwResult Batch)))
      (started : List (Option (List (FdwResult Batch))) × List (HeapEntry Key Batch))
      → start_streams key_lt num_rows build_key i streams ≡ ok started
      → All HasRow started.1 × (in_input streams ≡ in_heap started.1 + in_streams started.0)
  unfolding start_streams
  start_streams-in_input i [] started done =
      subst (λ r. All HasRow r.1 × (0 ≡ in_heap r.1 + in_streams r.0)) (ok_eq done) (tt, refl)
  start_streams-in_input i (stream ∷ streams) started done =
      let (pulled, more, first) = >>=-ok _ (pull_batch key_lt num_rows build_key i stream) done in
      let (begun, success, others) =
        >>=-ok _ (start_streams key_lt num_rows build_key (suc i) streams) more in
      let (alive, count) = start_streams-in_input (suc i) streams begun others in
      let (live, kept) = (pull_batch-Pulled i stream pulled first).0 begun.1 alive in
      subst (λ r. All HasRow r.1 × (in_input (stream ∷ streams) ≡ in_heap r.1 + in_streams r.0))
        (ok_eq success) (live, omega (arith, count, kept))

  -- Calls of `next_row` that gave out these rows.
  pub data Gives
      : MultiFileSortedStream Key Batch
        → List (Batch × ℕ)
        → MultiFileSortedStream Key Batch
        → Type 0 where
    nothing : {state : MultiFileSortedStream Key Batch} → Gives state [] state
    next :
        {state middle after : MultiFileSortedStream Key Batch} {batch : Batch} {row : ℕ}
        {rows : List (Batch × ℕ)}
        → next_row_merged key_lt num_rows build_key state ≡ ok (some (batch, row), middle)
        → Gives middle rows after
        → Gives state ((batch, row) ∷ rows) after

  abbrev pub hits : List (Batch × ℕ) → ℕ
  hits [] = 0
  hits ((batch, row) ∷ rows) = hit batch row + hits rows

  pub Gives-waiting :
      {state after : MultiFileSortedStream Key Batch} {rows : List (Batch × ℕ)}
      → Gives state rows after
      → All HasRow state.heap
      → waiting state ≡ hits rows + waiting after
  Gives-waiting (nothing {state}) h = omega arith
  Gives-waiting (next {state} {middle} {after} {batch} {row} {rows} given more) h =
      let (alive, kept) = next_row_merged-Given state (some (batch, row), middle) h given in
      omega (arith, kept, Gives-waiting more alive)

  -- Started on the streams, the merge has given out each row of their batches once or has it
  -- still to give, whatever rows are counted.
  pub new_merge-hits :
      (streams : List (List (FdwResult Batch))) (blob_names : List Bytes)
      {state after : MultiFileSortedStream Key Batch} {rows : List (Batch × ℕ)}
      → new_merge key_lt num_rows build_key streams blob_names ≡ ok state
      → Gives state rows after
      → in_input streams ≡ hits rows + waiting after
  new_merge-hits streams blob_names {state} {after} {rows} made given =
      let (started, t, begun) =
        new_merge-started key_lt num_rows build_key streams blob_names state made in
      let (alive, count) = start_streams-in_input 0 streams started t in
      let heap_of : started.1 ≡ state.heap = ap (λ s. s.heap) begun in
      let streams_of : started.0 ≡ state.streams = ap (λ s. s.streams) begun in
      let kept = Gives-waiting given (subst (All HasRow) heap_of alive) in
      omega (arith, count, kept, ap in_heap heap_of, ap in_streams streams_of)

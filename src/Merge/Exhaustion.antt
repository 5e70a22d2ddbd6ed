-- ===== src/Merge/Exhaustion.antt =====
-- The end of the merge of sorted streams (src/parquet_io/multifile.rs): what the streams hold when
-- the heap is empty.
use parquet_azure_fdw.Merge.Turn.{advance-went, next_row_merged-Turn, new_merge-started}
use parquet_azure_fdw.Modify.Edits.Entries.{some_eq, ok_eq}
use parquet_azure_fdw.Prelude.{
  ◌≡◌, refl, ℕ, zero, suc, ◌+◌, arith, Bool, false, ◌||◌, ◌==◌, List, [], ◌∷◌, Option, none, some,
  get_elem?, Option-cases, Bool-cases, inl, inr, subst, ltb, ◌∙◌, ap, ◌⊎◌, Bytes,
}
use parquet_azure_fdw.Error.{>>=-ok, FdwResult, ok, err}
use parquet_azure_fdw.Merge.{
  HeapEntry, MultiFileSortedStream, pop_heap, pull_batch, with_entry, left_over, set_stream,
  advance, next_row_merged, start_streams, new_merge,
}
use parquet_azure_fdw.Merge.Conservation.{
  in_open, in_streams, Gives, nothing, next, pop_heap-none, in_input, hits, new_merge-hits, in_heap,
}

module _ {Key Batch : Type 0} (key_lt : Key → Key → Bool) (num_rows : Batch → ℕ)
    (build_key : Batch → ℕ → FdwResult Key) (p : Batch → ℕ → Bool) where
  -- The heap has an entry of the stream `i`.
  abbrev feeds : ℕ → List (HeapEntry Key Batch) → Bool
  feeds i [] = false
  feeds i (entry ∷ heap) = (entry.source_idx == i) || feeds i heap

  abbrev held : Option (List (FdwResult Batch)) → ℕ
  held stream = in_open key_lt num_rows build_key p stream

  -- A stream without an entry in the heap has no row left.
  abbrev Served : List (Option (List (FdwResult Batch))) → (ℕ → Bool) → Type 0
  Served streams fed =
      (i : ℕ) (s : Option (List (FdwResult Batch)))
      → get_elem? streams i ≡ some s
      → fed i ≡ false
      → held s ≡ 0

  Served-in_streams :
      (streams : List (Option (List (FdwResult Batch))))
      → Served streams (λ i. false)
      → in_streams key_lt num_rows build_key p streams ≡ 0
  Served-in_streams [] h = refl
  Served-in_streams (s ∷ streams) h = omega (
    arith,
    h 0 s refl refl,
    Served-in_streams streams (λ i t found unfed. h (suc i) t found unfed),
  )

  abbrev FeedsRest :
      List (HeapEntry Key Batch) → HeapEntry Key Batch × List (HeapEntry Key Batch) → Type 0
  FeedsRest heap (entry, rest) = (i : ℕ) → feeds i heap ≡ ((entry.source_idx == i) || feeds i rest)

  pop_heap-feeds :
      (heap : List (HeapEntry Key Batch))
      (popped : HeapEntry Key Batch × List (HeapEntry Key Batch))
      → pop_heap key_lt num_rows build_key heap ≡ some popped
      → FeedsRest heap popped
  unfolding pop_heap
  pop_heap-feeds [] popped done = cc
  pop_heap-feeds (first ∷ heap) popped done =
      elim (Option-cases (pop_heap key_lt num_rows build_key heap)) [
        | inl e ↦
            subst (FeedsRest (first ∷ heap)) (some_eq (rw e at done))
              (λ i. rw (pop_heap-none key_lt num_rows build_key p heap e) refl)
        | inr (again, e) ↦
            let rest_of = pop_heap-feeds heap again e in
            elim (Bool-cases (key_lt again.0.key first.key)) [
              | inl lt ↦
                  subst (FeedsRest (first ∷ heap)) (some_eq (rw (e, lt) at done))
                    (λ i. ground (arith, rest_of i))
              | inr lt ↦ subst (FeedsRest (first ∷ heap)) (some_eq (rw (e, lt) at done)) (λ i. refl)
            ]
      ]

  get_elem?-set_stream :
      (j i : ℕ) (v s : Option (List (FdwResult Batch)))
      (streams : List (Option (List (FdwResult Batch))))
      → get_elem? (set_stream key_lt num_rows build_key j v streams) i ≡ some s
      → ((j ≡ i) × (v ≡ s)) ⊎ (((j == i) ≡ false) × (get_elem? streams i ≡ some s))
  get_elem?-set_stream j i v s [] found = cc
  get_elem?-set_stream zero zero v s (t ∷ streams) found = inl (refl, some_eq found)
  get_elem?-set_stream zero (suc i) v s (t ∷ streams) found = inr (ground arith, found)
  get_elem?-set_stream (suc j) zero v s (t ∷ streams) found = inr (ground arith, found)
  get_elem?-set_stream (suc j) (suc i) v s (t ∷ streams) found =
      elim (get_elem?-set_stream j i v s streams found) [
        | inl (e, w) ↦ inl (ap suc e, w)
        | inr (apart, h) ↦ inr (ground (arith, apart), h)
      ]

  -- After a pull from stream `i`: the stream has an entry, or nothing is left of it.
  abbrev Fed : ℕ → Option (HeapEntry Key Batch) × List (FdwResult Batch) → Type 0
  Fed i (some entry, behind) = (entry.source_idx ≡ i)
  Fed i (none, behind) = behind ≡ []

  pull_batch-Fed :
      (i : ℕ) (stream : List (FdwResult Batch))
      (pulled : Option (HeapEntry Key Batch) × List (FdwResult Batch))
      → pull_batch key_lt num_rows build_key i stream ≡ ok pulled
      → Fed i pulled
  unfolding pull_batch
  pull_batch-Fed i [] pulled done = subst (Fed i) (ok_eq done) refl
  pull_batch-Fed i (err problem ∷ stream) pulled done = cc
  pull_batch-Fed i (ok batch ∷ stream) pulled done = elim (Bool-cases (ltb 0 (num_rows batch))) [
    | inl e ↦
        let (key, success, built) = >>=-ok _ (build_key batch 0) (rw e at done) in
        subst (Fed i) (ok_eq success) refl
    | inr e ↦ pull_batch-Fed i stream pulled (rw e at done)
  ]

  abbrev fed_by : List (HeapEntry Key Batch) → ℕ → Bool
  fed_by heap i = feeds i heap

  -- The stream that was pulled from, and the others.
  refill-Served :
      (j : ℕ) (rest : List (HeapEntry Key Batch)) (streams : List (Option (List (FdwResult Batch))))
      (pulled : Option (HeapEntry Key Batch) × List (FdwResult Batch))
      → Fed j pulled
      → Served streams (λ i. (j == i) || feeds i rest)
      → Served
          (set_stream key_lt num_rows build_key j
            (left_over key_lt num_rows build_key pulled.0 pulled.1)
            streams)
          (fed_by (with_entry key_lt num_rows build_key pulled.0 rest))
  refill-Served j rest streams (none, behind) fed h i s found unfed =
      elim (get_elem?-set_stream j i none s streams found) [
        | inl (e, w) ↦ subst (λ t. held t ≡ 0) w refl
        | inr (apart, old) ↦ h i s old (ground (arith, apart, unfed))
      ]
  refill-Served j rest streams (some entry, behind) fed h i s found unfed =
      elim (get_elem?-set_stream j i (some behind) s streams found) [
        | inl (e, w) ↦ ground (arith, fed, e, unfed)
        | inr (apart, old) ↦ h i s old (ground (arith, fed, unfed))
      ]

  abbrev ServedAll : List (HeapEntry Key Batch) × List (Option (List (FdwResult Batch))) → Type 0
  ServedAll (heap, streams) = Served streams (fed_by heap)

  advance-Served :
      (entry : HeapEntry Key Batch) (rest : List (HeapEntry Key Batch))
      (streams : List (Option (List (FdwResult Batch))))
      (after : List (HeapEntry Key Batch) × List (Option (List (FdwResult Batch))))
      → advance key_lt num_rows build_key entry rest streams ≡ ok after
      → Served streams (λ i. (entry.source_idx == i) || feeds i rest)
      → ServedAll after
  advance-Served entry rest streams after done h =
      elim (advance-went key_lt num_rows build_key entry rest streams after done) [
        | inl (e, (key, built, moved)) ↦ subst ServedAll moved h
        | inr (e, (items, pulled, found, q, moved)) ↦ subst ServedAll moved (
            refill-Served entry.source_idx rest streams pulled
              (pull_batch-Fed entry.source_idx items pulled q) h)
      ]

  abbrev StateServed : Option (Batch × ℕ) × MultiFileSortedStream Key Batch → Type 0
  StateServed (given, state) = Served state.streams (fed_by state.heap)

  next_row_merged-Served :
      (state : MultiFileSortedStream Key Batch)
      (given : Option (Batch × ℕ) × MultiFileSortedStream Key Batch)
      → next_row_merged key_lt num_rows build_key state ≡ ok given
      → Served state.streams (fed_by state.heap)
      → StateServed given
  next_row_merged-Served state given done h =
      elim (next_row_merged-Turn key_lt num_rows build_key state given done) [
        | inl (e, same) ↦ subst StateServed same h
        | inr (popped, moved, e, ordered, m, turned) ↦ subst StateServed turned (
            advance-Served popped.0 popped.1 state.streams moved m
              (λ i s found unfed. h i s found (pop_heap-feeds state.heap popped e i ∙ unfed)))
      ]

  Gives-Served :
      {state after : MultiFileSortedStream Key Batch} {rows : List (Batch × ℕ)}
      → Gives key_lt num_rows build_key p state rows after
      → Served state.streams (fed_by state.heap)
      → Served after.streams (fed_by after.heap)
  Gives-Served nothing h = h
  Gives-Served (next {state} {middle} {after} {batch} {row} {rows} given more) h =
      Gives-Served more (next_row_merged-Served state (some (batch, row), middle) given h)

  abbrev ServedFrom :
      ℕ → List (Option (List (FdwResult Batch))) × List (HeapEntry Key Batch) → Type 0
  ServedFrom j (streams, heap) = Served streams (λ i. feeds (j + i) heap)

  shift : (j i : ℕ) → j + suc i ≡ suc j + i
  shift j i = omega arith

  begin-Served :
      (j : ℕ) (pulled : Option (HeapEntry Key Batch) × List (FdwResult Batch))
      (begun : List (Option (List (FdwResult Batch))) × List (HeapEntry Key Batch))
      → Fed j pulled
      → ServedFrom (suc j) begun
      → ServedFrom j
          (some pulled.1 ∷ begun.0, with_entry key_lt num_rows build_key pulled.0 begun.1)
  begin-Served j (none, behind) begun fed h zero s found unfed =
      subst (λ t. held t ≡ 0) (some_eq found) (rw fed refl)
  begin-Served j (some entry, behind) begun fed h zero s found unfed = ground (arith, fed, unfed)
  begin-Served j (none, behind) begun fed h (suc i) s found unfed =
      h i s found (subst (λ n. feeds n begun.1 ≡ false) (shift j i) unfed)
  begin-Served j (some entry, behind) begun fed h (suc i) s found unfed =
      h i s found (subst (λ n. feeds n begun.1 ≡ false) (shift j i) (ground (arith, unfed)))

  start_streams-Served :
      (j : ℕ) (streams : List (List (FdwResult Batch)))
      (started : List (Option (List (FdwResult Batch))) × List (HeapEntry Key Batch))
      → start_streams key_lt num_rows build_key j streams ≡ ok started
      → ServedFrom j started
  unfolding start_streams
  start_streams-Served j [] started done = subst (ServedFrom j) (ok_eq done) (λ i s found unfed. cc)
  start_streams-Served j (stream ∷ streams) started done =
      let (pulled, more, first) = >>=-ok _ (pull_batch key_lt num_rows build_key j stream) done in
      let (begun, success, others) =
        >>=-ok _ (start_streams key_lt num_rows build_key (suc j) streams) more in
      subst (ServedFrom j) (ok_eq success) (
        begin-Served j pulled begun (pull_batch-Fed j stream pulled first)
          (start_streams-Served (suc j) streams begun others))

  zero_plus : (i : ℕ) → i ≡ 0 + i
  zero_plus i = omega arith

  from_zero :
      (i : ℕ) (heap : List (HeapEntry Key Batch))
      → feeds i heap ≡ false
      → feeds (0 + i) heap ≡ false
  from_zero i heap h = subst (λ n. feeds n heap ≡ false) (zero_plus i) h

  new_merge-Served :
      (streams : List (List (FdwResult Batch))) (blob_names : List Bytes)
      (state : MultiFileSortedStream Key Batch)
      → new_merge key_lt num_rows build_key streams blob_names ≡ ok state
      → Served state.streams (fed_by state.heap)
  new_merge-Served streams blob_names state made =
      let (started, t, begun) =
        new_merge-started key_lt num_rows build_key streams blob_names state made in
      subst (λ s. Served s.streams (fed_by s.heap)) begun
        (λ i s found unfed.
          start_streams-Served 0 streams started t i s found (from_zero i started.1 unfed))

  next_row_merged-end :
      (state last : MultiFileSortedStream Key Batch)
      → next_row_merged key_lt num_rows build_key state ≡ ok (none, last)
      → state.heap ≡ []
  next_row_merged-end state last done =
      elim (next_row_merged-Turn key_lt num_rows build_key state (none, last) done) [
        | inl (e, same) ↦ pop_heap-none key_lt num_rows build_key p state.heap e
        | inr (popped, moved, e, ordered, m, turned) ↦ cc
      ]

  -- Started on the streams and called until it reports the end, the merge gives out each row of
  -- their batches exactly once: whatever rows are counted, as many of them came out as the streams
  -- hold. The runs are those in which every call succeeds.
  pub next_row_merged-hits :
      (streams : List (List (FdwResult Batch))) (blob_names : List Bytes) (rows : List (Batch × ℕ))
      (state after last : MultiFileSortedStream Key Batch)
      → new_merge key_lt num_rows build_key streams blob_names ≡ ok state
      → Gives key_lt num_rows build_key p state rows after
      → next_row_merged key_lt num_rows build_key after ≡ ok (none, last)
      → hits key_lt num_rows build_key p rows ≡ in_input key_lt num_rows build_key p streams
  next_row_merged-hits streams blob_names rows state after last made given ended =
      let empty = next_row_merged-end after last ended in
      let served = Gives-Served given (new_merge-Served streams blob_names state made) in
      let nothing_left : in_streams key_lt num_rows build_key p after.streams ≡ 0 =
        Served-in_streams after.streams (λ i s found unfed. served i s found (rw empty refl)) in
      let kept = new_merge-hits key_lt num_rows build_key p streams blob_names made given in
      omega (arith, kept, nothing_left, ap (in_heap key_lt num_rows build_key p) empty)

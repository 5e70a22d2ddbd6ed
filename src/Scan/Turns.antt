-- ===== src/Scan/Turns.antt =====
-- The invariant of a scan over the turns of `next_row` and its loop (src/fdw/scan.rs).
use parquet_azure_fdw.Scan.Invariant.{
  unread, rows_in, stream_rows, rows_of, drop-end, drop-get_elem?,
}
use parquet_azure_fdw.Scan.Row.{next_row_loop}
use parquet_azure_fdw.Prelude.{
  suc, ℕ, zero, suc, ◌+◌, ◌≡◌, refl, sym, ◌∙◌, Option, none, some, List, [], ◌∷◌, get_elem?,
  Option-cases, inl, inr, ◌⊎◌, Bytes, ap, ◌++◌, drop,
}
use parquet_azure_fdw.Error.{FdwError, FdwResult, ok, err}
use parquet_azure_fdw.Scan.State.{
  Turn, emitted, continued, finished, failed, Stream, ScanState, next_blob, blob_datums, turn, pull,
  open_next,
}
use parquet_azure_fdw.Scan.Keeps.{Quiet, Kept, KeptOpen, Holds, skip-Kept, enter-KeptOpen}

module _ (date_to_pg : Bytes → FdwResult ℕ) {Row : Type 0}
    (open_blob : Bytes → FdwResult (Stream Row)) where
  unread-stream :
      (stream stream' : Option (Stream Row)) (batch : Option (List Row)) (row : ℕ)
      → stream_rows stream ≡ stream_rows stream'
      → unread stream batch row ≡ unread stream' batch row
  unfolding unread
  unread-stream stream stream' none row same = same
  unread-stream stream stream' (some batch) row same = ap (λ rs. drop row batch ++ rs) same

  -- A change of the stream, the batch and the row that hands out the same rows leaves an open blob
  -- open.
  reading-Open :
      (pending pending' : List Row) (s : ScanState Row) (stream : Option (Stream Row))
      (batch : Option (List Row)) (row cur : ℕ)
      → KeptOpen date_to_pg open_blob pending s
      → ((s.cur_batch ≡ none → s.cur_row ≡ 0)
          → (pending ++ unread s.cur_stream s.cur_batch s.cur_row
              ≡ pending' ++ unread stream batch row)
            × (batch ≡ none → row ≡ 0))
      → KeptOpen date_to_pg open_blob pending'
          (record s { cur_stream = stream; cur_batch = batch; cur_row = row; cur_blob = cur })
  reading-Open pending pending' s stream batch row cur inv same fits =
      let (opened, t, o) = inv fits in
      let (front, whole, count) = o.reads in
      let (rest, start) = same o.at_start in
      (
        opened,
        record { published = t.published; table = t.table; taken = t.taken },
        record {
          before = o.before;
          blob = o.blob;
          split = o.split;
          base = o.base;
          complete = o.complete;
          reads = (front, whole ∙ ap (λ rs. front ++ rs) rest, count);
          at_start = start;
        },
      )

  pub KeptOpen-Kept :
      (s : ScanState Row) → KeptOpen date_to_pg open_blob [] s → Kept date_to_pg open_blob s
  KeptOpen-Kept s inv fits =
      let (opened, t, o) = inv fits in record { opened = opened; tabled = t; current = inr o }

  -- A scan with a stream or a batch has an open blob.
  stream-Open :
      (s : ScanState Row) (stream : Stream Row)
      → s.cur_stream ≡ some stream
      → Kept date_to_pg open_blob s
      → KeptOpen date_to_pg open_blob [] s
  stream-Open s stream e inv fits =
      let i = inv fits in
      elim i.current [
        | inl (idle, all) ↦ let clash : none ≡ some stream = sym idle.no_stream ∙ e in cc
        | inr o ↦ (i.opened, i.tabled, o)
      ]

  batch-Open :
      (s : ScanState Row) (batch : List Row)
      → s.cur_batch ≡ some batch
      → Kept date_to_pg open_blob s
      → KeptOpen date_to_pg open_blob [] s
  batch-Open s batch e inv fits =
      let i = inv fits in
      elim i.current [
        | inl (idle, all) ↦ let clash : none ≡ some batch = sym idle.no_batch ∙ e in cc
        | inr o ↦ (i.opened, i.tabled, o)
      ]

  Result-cases {ℓ} :
      {A : Type ℓ} (r : FdwResult A) → ((a : A) × (r ≡ ok a)) ⊎ ((e : FdwError) × (r ≡ err e))
  Result-cases (ok a) = inl (a, refl)
  Result-cases (err e) = inr (e, refl)

  open_next-Holds :
      (s : ScanState Row)
      → Kept date_to_pg open_blob s
      → Quiet date_to_pg open_blob s
      → Holds date_to_pg open_blob (open_next date_to_pg open_blob s)
  unfolding open_next next_blob rows_in stream_rows
  open_next-Holds s inv quiet =
      elim (Option-cases (get_elem? s.range_producer.blobs s.range_producer.cursor)) [
        | inl e ↦ rw (e, open_next) inv
        | inr (b, at) ↦ elim (Result-cases (blob_datums date_to_pg s.partition_keys_decl b.0)) [
          | inr (x, skipped) ↦
              rw (at, open_next) (rw skipped (skip-Kept date_to_pg open_blob s b at x skipped inv))
          | inl (datums, parsed) ↦
              let entered = enter-KeptOpen date_to_pg open_blob s b at datums parsed inv quiet in
              elim (Result-cases (open_blob b.0)) [
                | inr (x, broken) ↦
                    rw (at, open_next)
                      (rw parsed (
                        rw broken
                          (KeptOpen-Kept _ (entered s.cur_stream (rw (quiet.0, broken) refl)))))
                | inl (stream, opened) ↦
                    rw (at, open_next)
                      (rw parsed
                        (rw opened (KeptOpen-Kept _ (entered (some stream) (rw opened refl)))))
              ]
        ]
      ]

  pull-Holds :
      (s : ScanState Row)
      → Kept date_to_pg open_blob s
      → s.cur_batch ≡ none
      → Holds date_to_pg open_blob (pull date_to_pg open_blob s)
  unfolding pull unread stream_rows rows_of
  pull-Holds s inv no_batch = elim (Option-cases s.cur_stream) [
    | inl e ↦ rw (e, pull) (open_next-Holds s inv (e, no_batch))
    | inr ([], e) ↦
        rw (e, pull)
          (KeptOpen-Kept _ (
            reading-Open [] [] s none _ _ _ (stream-Open s _ e inv)
              λ start. (unread-stream s.cur_stream none s.cur_batch s.cur_row (rw e refl), start)))
    | inr (ok batch ∷ stream, e) ↦
        rw (e, pull)
          (KeptOpen-Kept _ (
            reading-Open [] [] s (some stream) (some batch) _ _ (stream-Open s _ e inv)
              λ start. (rw (no_batch, e, start no_batch) refl, λ gone. cc)))
    | inr (err x ∷ stream, e) ↦
        rw (e, pull)
          (KeptOpen-Kept _ (
            reading-Open [] [] s (some stream) _ _ _ (stream-Open s _ e inv) λ start.
              (unread-stream s.cur_stream (some stream) s.cur_batch s.cur_row (rw e refl), start)))
  ]

  turn-Holds :
      (s : ScanState Row)
      → Kept date_to_pg open_blob s
      → Holds date_to_pg open_blob (turn date_to_pg open_blob s)
  unfolding turn unread
  turn-Holds s inv = elim (Option-cases s.cur_batch) [
    | inl e ↦ rw (e, turn) (pull-Holds s inv e)
    | inr (batch, e) ↦
        let reading = batch-Open s batch e inv in
        elim (Option-cases (get_elem? batch s.cur_row)) [
          | inl out ↦
              rw (e, turn)
                (rw out (
                  pull-Holds _
                    (KeptOpen-Kept _ (
                      reading-Open [] [] s _ none 0 _ reading
                        λ start. (rw (e, drop-end batch s.cur_row out) refl, λ gone. refl)))
                    refl))
          | inr (row, at) ↦
              rw (e, turn)
                (rw at (
                  reading-Open [] (row ∷ []) s _ _ (s.cur_row + 1) _ reading
                    λ start. (rw (e, drop-get_elem? batch s.cur_row row at) refl, λ gone. cc)))
        ]
  ]

  -- The loop: with a row, the current blob is open.
  abbrev pub Returned : FdwResult (Option Row) → ScanState Row → Type 0
  Returned (ok (some row)) s = KeptOpen date_to_pg open_blob (row ∷ []) s
  Returned (ok none) s = Kept date_to_pg open_blob s
  Returned (err e) s = Kept date_to_pg open_blob s

  abbrev pub ReturnedSome : Option (FdwResult (Option Row) × ScanState Row) → Type 0
  ReturnedSome none = Unit
  ReturnedSome (some (r, s)) = Returned r s

  loop_turn-Returned :
      (fuel : ℕ) (s : ScanState Row) (t : Turn Row)
      → turn date_to_pg open_blob s ≡ t
      → Holds date_to_pg open_blob t
      → ((s' : ScanState Row)
          → Kept date_to_pg open_blob s'
          → ReturnedSome (next_row_loop date_to_pg open_blob fuel s'))
      → ReturnedSome (next_row_loop date_to_pg open_blob (suc fuel) s)
  unfolding next_row_loop
  loop_turn-Returned fuel s (emitted row s') e h ih = rw (e, next_row_loop) h
  loop_turn-Returned fuel s (continued s') e h ih = rw (e, next_row_loop) (ih s' h)
  loop_turn-Returned fuel s (finished s') e h ih = rw (e, next_row_loop) h
  loop_turn-Returned fuel s (failed x s') e h ih = rw (e, next_row_loop) h

  pub next_row_loop-Returned :
      (fuel : ℕ) (s : ScanState Row)
      → Kept date_to_pg open_blob s
      → ReturnedSome (next_row_loop date_to_pg open_blob fuel s)
  unfolding next_row_loop
  next_row_loop-Returned zero s inv = tt
  next_row_loop-Returned (suc fuel) s inv =
      loop_turn-Returned fuel s _ refl (turn-Holds s inv) λ s' h. next_row_loop-Returned fuel s' h

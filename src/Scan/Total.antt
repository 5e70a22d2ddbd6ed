-- ===== src/Scan/Total.antt =====
-- The turns of the loop of `next_row` (src/fdw/scan.rs) and the count of `work`.
use parquet_azure_fdw.Scan.Invariant.{drop-get_elem?}
use parquet_azure_fdw.Prelude.{
  subst, ℕ, zero, suc, ◌<◌, ◌≤◌, ◌≡◌, refl, Option, none, some, [], ◌∷◌, Bytes, get_elem?, subst,
  arith, Option-cases, inl, inr,
}
use parquet_azure_fdw.Error.{FdwResult, ok, err}
use parquet_azure_fdw.Scan.State.{
  Stream, ScanState, next_blob, enter_blob, Turn, emitted, continued, finished, failed, turn, pull,
  open_next,
}
use parquet_azure_fdw.Scan.Row.{
  next_row_loop, stream_work, blobs_work, work, next_row, finish_row, Slot, iterate_foreign_scan,
}

module _ (date_to_pg : Bytes → FdwResult ℕ) {Row : Type 0}
    (open_blob : Bytes → FdwResult (Stream Row)) where
  -- A turn that goes on leaves less than `n` to do.
  abbrev Below : ℕ → Turn Row → Type 0
  Below n (continued s) = work open_blob s < n
  Below n (emitted row s) = Unit
  Below n (finished s) = Unit
  Below n (failed e s) = Unit

  open_next-Below :
      (s : ScanState Row)
      → s.cur_stream ≡ none
      → Below (work open_blob s) (open_next date_to_pg open_blob s)
  unfolding open_next next_blob enter_blob work stream_work blobs_work
  open_next-Below s idle =
      elim (Option-cases (get_elem? s.range_producer.blobs s.range_producer.cursor)) [
        | inl e ↦ rw (e, open_next) tt
        | inr (blob, e) ↦
            ground (arith, drop-get_elem? s.range_producer.blobs s.range_producer.cursor blob e)
      ]

  pull-Below : (s : ScanState Row) → Below (work open_blob s) (pull date_to_pg open_blob s)
  unfolding pull work stream_work
  pull-Below s = elim (Option-cases s.cur_stream) [
    | inl e ↦
        rw (e, pull)
          (subst (λ w. Below w (open_next date_to_pg open_blob s)) (rw (e, work) refl)
            (open_next-Below s e))
    | inr ([], e) ↦ rw (e, pull) (omega arith)
    | inr (ok batch ∷ stream, e) ↦ rw (e, pull) (omega arith)
    | inr (err x ∷ stream, e) ↦ rw (e, pull) tt
  ]

  turn-Below : (s : ScanState Row) → Below (work open_blob s) (turn date_to_pg open_blob s)
  unfolding turn work
  turn-Below s = elim (Option-cases s.cur_batch) [
    | inl e ↦ rw (e, turn) (pull-Below s)
    | inr (batch, e) ↦ elim (Option-cases (get_elem? batch s.cur_row)) [
      | inl out ↦ rw (e, turn) (rw out (pull-Below (record s { cur_batch = none; cur_row = 0 })))
      | inr (row, at) ↦ rw (e, turn) (rw at tt)
    ]
  ]

  -- A loop that returns.
  abbrev Returns : ℕ → ScanState Row → Type 0
  Returns fuel s =
      (r : FdwResult (Option Row) × ScanState Row) × (next_row_loop date_to_pg open_blob fuel s
        ≡ some r)

  next_row_loop-turn :
      (fuel : ℕ) (s : ScanState Row) (t : Turn Row)
      → turn date_to_pg open_blob s ≡ t
      → Below fuel t
      → ((s' : ScanState Row) → work open_blob s' < fuel → Returns fuel s')
      → Returns (suc fuel) s
  unfolding next_row_loop
  next_row_loop-turn fuel s (emitted row s') e h ih =
      ((ok (some row), s'), rw (e, next_row_loop) refl)
  next_row_loop-turn fuel s (finished s') e h ih = ((ok none, s'), rw (e, next_row_loop) refl)
  next_row_loop-turn fuel s (failed x s') e h ih = ((err x, s'), rw (e, next_row_loop) refl)
  next_row_loop-turn fuel s (continued s') e h ih =
      let (r, returned) = ih s' h in (r, rw (e, next_row_loop) returned)

  Below-weaken : (m n : ℕ) (t : Turn Row) → m ≤ n → Below m t → Below n t
  Below-weaken m n (continued s) le h = omega arith
  Below-weaken m n (emitted row s) le h = tt
  Below-weaken m n (finished s) le h = tt
  Below-weaken m n (failed e s) le h = tt

  next_row_loop_enough : (fuel : ℕ) (s : ScanState Row) → work open_blob s < fuel → Returns fuel s
  next_row_loop_enough zero s h = elim h [ ]
  next_row_loop_enough (suc fuel) s h =
      next_row_loop-turn fuel s _ refl
        (Below-weaken _ _ (turn date_to_pg open_blob s) (omega arith) (turn-Below s))
        λ s' below. next_row_loop_enough fuel s' below

  -- A call of `iterate_foreign_scan` returns, whatever the state, the blobs and the errors: a slot,
  -- the end of the scan or an error, with the state after it.
  pub iterate_foreign_scan_total :
      (s : ScanState Row)
      → (r : FdwResult (Option (Slot Row)) × ScanState Row) × (iterate_foreign_scan date_to_pg
            open_blob s
          ≡ some r)
  unfolding iterate_foreign_scan next_row
  iterate_foreign_scan_total s =
      let (r, returned) = next_row_loop_enough (suc (work open_blob s)) s (omega arith) in
      (finish_row r.0 r.1, rw returned refl)

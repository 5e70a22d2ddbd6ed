-- ===== src/Scan/Agreement.antt =====
-- The states of a scan (src/fdw/scan.rs) as a relation, and its invariant over them.
use parquet_azure_fdw.Modify.Handoff.{Handoff}
use parquet_azure_fdw.Prelude.{
  ℕ, suc, ◌+◌, ◌≡◌, refl, sym, ap, subst, ◌∙◌, Option, none, some, List, [], ◌∷◌, ◌++◌, map, arith,
  Option-cases, inl, inr, Bytes, length-append, append_assoc,
}
use parquet_azure_fdw.Error.{FdwResult, ok, err}
use parquet_azure_fdw.Modify.BlobTable.{Blob, chunk_entries, chunk_count}
use parquet_azure_fdw.Partition.Path.{Declared}
use parquet_azure_fdw.Scan.State.{Stream, ScanState}
use parquet_azure_fdw.Scan.Row.{
  rewind, work, register_chunk_if_boundary, Slot, stamp, next_row, finish_row, iterate_foreign_scan,
  re_scan_foreign_scan,
}
use parquet_azure_fdw.Scan.Register.{length-register, register-entries}
use parquet_azure_fdw.Scan.Invariant.{
  kept, Opened, entries, entries-last, Tabled, Open, Idle, ScanInv, Reads, blob_rows,
}
use parquet_azure_fdw.Scan.Keeps.{map-append, Kept, KeptOpen}
use parquet_azure_fdw.Scan.Turns.{KeptOpen-Kept, Returned, ReturnedSome, next_row_loop-Returned}

module _ (date_to_pg : Bytes → FdwResult ℕ) {Row : Type 0}
    (open_blob : Bytes → FdwResult (Stream Row)) where
  -- The states of a scan: as built, after a row, and rewound.
  pub data Scanned (blobs : List Blob) (decl : Declared) : ScanState Row → Type 0 where
    built : Scanned blobs decl (record {
      blobs = blobs;
      cur_blob = 0;
      cur_stream = none;
      cur_batch = none;
      cur_row = 0;
      range_producer = record { blobs = blobs; cursor = 0 };
      blob_id_table = [];
      cur_blob_base_id = 0;
      cur_row_in_blob = 0;
      partition_keys_decl = decl;
      partition_datums_for_current_blob = [];
    })
    iterated :
        {s s' : ScanState Row} (r : FdwResult (Option (Slot Row)))
        → Scanned blobs decl s
        → iterate_foreign_scan date_to_pg open_blob s ≡ some (r, s')
        → Scanned blobs decl s'
    rescanned :
        {s : ScanState Row} (rel : Option ℕ) (handoff : Handoff)
        → Scanned blobs decl s
        → Scanned blobs decl (re_scan_foreign_scan rel s handoff).0

  -- The table of a state with an open blob.
  pub table-Open :
      (s : ScanState Row) (opened : Opened) (t : Tabled date_to_pg s opened) (pending : List Row)
      (o : Open date_to_pg open_blob pending s opened)
      → s.blob_id_table ≡ entries o.before ++ chunk_entries (chunk_count s.cur_row_in_blob) 0 o.blob
  table-Open s opened t pending o =
      t.table ∙ ap entries o.split ∙ entries-last o.before o.blob s.cur_row_in_blob

  pub names-last :
      (g : Opened) (b : Blob) (m n : ℕ)
      → map (λ h. h.0) (g ++ (b, m) ∷ []) ≡ map (λ h. h.0) (g ++ (b, n) ∷ [])
  names-last g b m n =
      map-append (λ h. h.0) g ((b, m) ∷ []) ∙ sym (map-append (λ h. h.0) g ((b, n) ∷ []))

  one_more :
      (whole : List Row) (n : ℕ) (row : Row) (rest : List Row)
      → Reads whole n (row ∷ rest)
      → Reads whole (n + 1) rest
  one_more whole n row rest (front, split, count) = (
    front ++ row ∷ [],
    split ∙ sym (append_assoc front (row ∷ []) rest),
    omega (arith, length-append front (row ∷ []), count),
  )

  -- The open blob after its row was stamped: one more row is emitted.
  pub stamp-KeptOpen :
      (row : Row) (s : ScanState Row)
      → KeptOpen date_to_pg open_blob (row ∷ []) s
      → KeptOpen date_to_pg open_blob [] (stamp row s).1
  unfolding stamp
  stamp-KeptOpen row s inv fits =
      let r = s.cur_row_in_blob in
      let grows = length-register s.blob_id_table s.cur_blob_base_id r in
      let (opened, t, o) = inv (omega arith) in
      (
        o.before ++ (o.blob, r + 1) ∷ [],
        record {
          published = t.published;
          table =
              (λ i. register_chunk_if_boundary (table-Open s opened t (row ∷ []) o i) (o.base i) r)
              ∙ register-entries (entries o.before) o.blob r
              ∙ sym (entries-last o.before o.blob (r + 1));
          taken = names-last o.before o.blob (r + 1) r ∙ sym (ap (map λ h. h.0) o.split) ∙ t.taken;
        },
        record {
          before = o.before;
          blob = o.blob;
          split = refl;
          base = o.base;
          complete = o.complete;
          reads = one_more (blob_rows open_blob o.blob) r row _ o.reads;
          at_start = o.at_start;
        },
      )

  next_row-Returned :
      (s : ScanState Row)
      → Kept date_to_pg open_blob s
      → ReturnedSome date_to_pg open_blob (next_row date_to_pg open_blob s)
  unfolding next_row
  next_row-Returned s inv =
      next_row_loop-Returned date_to_pg open_blob (suc (work open_blob s)) s inv

  -- A row comes of a state with an open blob, and any other result of one that keeps the invariant.
  pub iterate-comes :
      (s s' : ScanState Row) (r : FdwResult (Option (Slot Row)))
      → Kept date_to_pg open_blob s
      → iterate_foreign_scan date_to_pg open_blob s ≡ some (r, s')
      → (q : FdwResult (Option Row)) × (s1 : ScanState Row) × Returned date_to_pg open_blob q s1
        × (finish_row q s1 ≡ (r, s'))
  unfolding iterate_foreign_scan
  iterate-comes s s' r inv e = elim (Option-cases (next_row date_to_pg open_blob s)) [
    | inl out ↦
        let clash : ◌≡◌ {A = Option (FdwResult (Option (Slot Row)) × ScanState Row)} none
            (some (r, s')) =
          sym (rw out refl) ∙ e in
        cc
    | inr ((q, s1), back) ↦
        let same : some (finish_row q s1) ≡ some (r, s') = sym (rw back refl) ∙ e in
        (q, s1, subst (ReturnedSome date_to_pg open_blob) back (next_row-Returned s inv), cc)
  ]

  finish_row-Kept :
      (q : FdwResult (Option Row)) (s : ScanState Row)
      → Returned date_to_pg open_blob q s
      → Kept date_to_pg open_blob (finish_row q s).1
  unfolding finish_row
  finish_row-Kept (ok (some row)) s h =
      KeptOpen-Kept date_to_pg open_blob _ (stamp-KeptOpen row s h)
  finish_row-Kept (ok none) s h = h
  finish_row-Kept (err e) s h = h

  -- A scan that has opened nothing.
  start-ScanInv :
      (s : ScanState Row)
      → Idle date_to_pg s
      → s.range_producer.blobs ≡ s.blobs
      → s.range_producer.cursor ≡ 0
      → s.blob_id_table ≡ []
      → ScanInv date_to_pg open_blob s
  unfolding entries kept
  start-ScanInv s idle published cursor table = record {
    opened = [];
    tabled = record { published = published; table = table; taken = rw cursor refl };
    current = inl (idle, tt);
  }

  pub Scanned-Kept :
      (blobs : List Blob) (decl : Declared) {s : ScanState Row}
      → Scanned blobs decl s
      → Kept date_to_pg open_blob s
  unfolding re_scan_foreign_scan rewind
  Scanned-Kept blobs decl built = λ fits.
      start-ScanInv _ (record { no_stream = refl; no_batch = refl; first_row = refl }) refl refl
        refl
  Scanned-Kept blobs decl (iterated {s} {s'} r before e) =
      let (q, s1, back, fin) = iterate-comes s s' r (Scanned-Kept blobs decl before) e in
      subst (Kept date_to_pg open_blob) (ap (λ p. p.1) fin) (finish_row-Kept q s1 back)
  Scanned-Kept blobs decl (rescanned rel handoff before) = λ fits.
      start-ScanInv _ (record { no_stream = refl; no_batch = refl; first_row = refl }) refl refl
        refl

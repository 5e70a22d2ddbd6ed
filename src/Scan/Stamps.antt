-- ===== src/Scan/Stamps.antt =====
-- The ctids that `iterate_foreign_scan` (src/fdw/scan.rs) stamps, against the tables in which
-- `resolve_to_source` (src/fdw/modify/update.rs) looks them up.
use parquet_azure_fdw.Scan.Resolving.{
  resolve-ctid, length-entries_last, chunk_count-covers, get_elem?-inside, All-split, first_of,
}
use parquet_azure_fdw.Scan.Register.{register-entries, length-register}
use parquet_azure_fdw.Scan.Turns.{Returned}
use parquet_azure_fdw.Prelude.{
  ap₂, ℕ, ◌+◌, ◌^◌, ◌<◌, ◌≤◌, ◌≡◌, refl, sym, ap, subst, ◌∙◌, Option, none, some, List, [], ◌∷◌,
  ◌++◌, map, take, drop, length, length-append, append_assoc, arith, append-nil, Bytes, All,
  get_elem?, get_elem?-append_right,
}
use parquet_azure_fdw.Error.{FdwResult, ok, err}
use parquet_azure_fdw.Modify.RowId.{from_absolute, to_ctid, from_ctid}
use parquet_azure_fdw.Modify.BlobTable.{
  BlobIdEntry, Blob, chunk_entries, chunk_count, resolve_to_source, build_blob_table,
}
use parquet_azure_fdw.Modify.BlobTable.Laws.{
  entries_of, Counted, build_blob_table-ok, entries_of-append, length-chunk_entries,
}
use parquet_azure_fdw.Partition.Path.{Declared}
use parquet_azure_fdw.Scan.State.{Stream, ScanState}
use parquet_azure_fdw.Scan.Row.{
  register_chunk_if_boundary, Slot, stamp, finish_row, iterate_foreign_scan,
}
use parquet_azure_fdw.Scan.Invariant.{
  Opened, entries, entries-last, kept, Emitted, blob_rows, Reads,
}
use parquet_azure_fdw.Scan.Keeps.{map-append, Fits, KeptOpen}
use parquet_azure_fdw.Scan.Agreement.{names-last, table-Open, Scanned, Scanned-Kept, iterate-comes}
use parquet_azure_fdw.Scan.Distinct.{
  Distinct, Lacks-before, Distinct-kept, Distinct-take, Parses, kept-All, All-take, take-drop,
}

module _ (date_to_pg : Bytes → FdwResult ℕ) {Row : Type 0}
    (open_blob : Bytes → FdwResult (Stream Row)) where
  -- The slot of the row with index `r` among those that the reader gives of the last opened blob,
  -- in a table of the chunks of the rows emitted so far: all rows of the blobs opened before, and
  -- those up to this one of the last.
  pub record Stamped (s : ScanState Row) (slot : Slot Row) : Type 0 where
    pub before : Opened
    pub blob : Blob
    pub r : ℕ
    pub table : s.blob_id_table ≡ entries (before ++ (blob, r + 1) ∷ [])
    pub taken :
        map (λ h. h.0) (before ++ (blob, r + 1) ∷ [])
        ≡ kept date_to_pg s.partition_keys_decl (take s.range_producer.cursor s.blobs)
    pub complete : All (Emitted open_blob) before
    pub origin : get_elem? (blob_rows open_blob blob) r ≡ some slot.row
    pub ctid : slot.tts_tid ≡ to_ctid (from_absolute (length (entries before)) r)

  row_at :
      (whole : List Row) (n : ℕ) (row : Row) (rest : List Row)
      → Reads whole n (row ∷ rest)
      → get_elem? whole n ≡ some row
  row_at whole n row rest (front, split, count) =
      ap₂ get_elem? split (sym count ∙ omega arith) ∙ get_elem?-append_right front (row ∷ rest) 0

  stamp-Stamped :
      (row : Row) (s : ScanState Row)
      → KeptOpen date_to_pg open_blob (row ∷ []) s
      → Fits (stamp row s).1
      → Stamped (stamp row s).1 (stamp row s).0
  unfolding stamp
  stamp-Stamped row s inv fits =
      let (opened, t, o) =
        inv (omega (arith, length-register s.blob_id_table s.cur_blob_base_id s.cur_row_in_blob)) in
      record {
        before = o.before;
        blob = o.blob;
        r = s.cur_row_in_blob;
        table =
            (λ i.
              register_chunk_if_boundary (table-Open date_to_pg open_blob s opened t (row ∷ []) o i)
                (o.base i) s.cur_row_in_blob)
            ∙ register-entries (entries o.before) o.blob s.cur_row_in_blob
            ∙ sym (entries-last o.before o.blob (s.cur_row_in_blob + 1));
        taken =
            names-last date_to_pg open_blob o.before o.blob (s.cur_row_in_blob + 1)
              s.cur_row_in_blob
            ∙ sym (ap (map λ h. h.0) o.split)
            ∙ t.taken;
        complete = o.complete;
        origin = row_at (blob_rows open_blob o.blob) s.cur_row_in_blob row _ o.reads;
        ctid = ap (λ base. to_ctid (from_absolute base s.cur_row_in_blob)) o.base;
      }

  slot-Stamped :
      (q : FdwResult (Option Row)) (s1 s' : ScanState Row) (slot : Slot Row)
      → Returned date_to_pg open_blob q s1
      → finish_row q s1 ≡ (ok (some slot), s')
      → Fits s'
      → Stamped s' slot
  unfolding finish_row
  slot-Stamped (ok (some row)) s1 s' slot h e fits =
      let first : ok (some (stamp row s1).0) ≡ ok (some slot) = ap (λ p. p.0) e in
      let same_slot : (stamp row s1).0 ≡ slot = cc in
      let same_state : (stamp row s1).1 ≡ s' = ap (λ p. p.1) e in
      subst (Stamped s') same_slot (
        subst (λ t. Stamped t (stamp row s1).0) same_state
          (stamp-Stamped row s1 h (subst Fits (sym same_state) fits)))
  slot-Stamped (ok none) s1 s' slot h e fits =
      let first : ok none ≡ ok (some slot) = ap (λ p. p.0) e in cc
  slot-Stamped (err x) s1 s' slot h e fits =
      let first : err x ≡ ok (some slot) = ap (λ p. p.0) e in cc

  -- A row that a scan returns, after any number of rows, errors and rewinds, of blobs of distinct
  -- names, and while the chunk table has at most 2^32 entries: it is the row with some index among
  -- those that the reader gives of the last opened blob; the table lists the chunks of the rows
  -- emitted of each opened blob, which are all rows of those before the last and the rows up to this
  -- one of the last; the opened blobs are the published ones taken so far less the skipped ones; and
  -- the ctid of the row resolves in this table to the first entry of the last opened blob and to the
  -- row's index.
  pub resolve_to_source-Stamped :
      (blobs : List Blob) (decl : Declared) (s s' : ScanState Row) (slot : Slot Row)
      → Scanned date_to_pg open_blob blobs decl s
      → iterate_foreign_scan date_to_pg open_blob s ≡ some (ok (some slot), s')
      → Fits s'
      → Distinct s'.blobs
      → (m : Stamped s' slot) × (resolve_to_source s'.blob_id_table (from_ctid slot.tts_tid)
          ≡ ok (length (entries m.before), m.r))
  resolve_to_source-Stamped blobs decl s s' slot scanned e fits distinct =
      let (q, s1, back, fin) =
        iterate-comes date_to_pg open_blob s s' _
          (Scanned-Kept date_to_pg open_blob blobs decl scanned) e in
      let m = slot-Stamped q s1 s' slot back fin fits in
      let pre = entries m.before in
      let own = chunk_entries (chunk_count (m.r + 1)) 0 m.blob in
      let apart : Distinct (map (λ h. h.0) (m.before ++ (m.blob, m.r + 1) ∷ [])) =
        subst Distinct (sym m.taken)
          (Distinct-kept date_to_pg _ _ (Distinct-take _ s'.blobs distinct)) in
      let shape : s'.blob_id_table ≡ pre ++ (own ++ []) =
        m.table
        ∙ entries-last m.before m.blob (m.r + 1)
        ∙ ap (λ es. pre ++ es) (sym (append-nil own)) in
      (
        m,
        ap₂ resolve_to_source shape (ap from_ctid m.ctid)
            ∙ resolve-ctid pre [] m.blob (chunk_count (m.r + 1)) m.r
                (Lacks-before m.before m.blob _ apart)
                (chunk_count-covers m.r (m.r + 1) (omega arith))
                (omega (arith, ap length m.table, length-entries_last m.before m.blob (m.r + 1))),
      )

  -- The opened blobs, when each row of those before the last was emitted.
  entries-entries_of :
      (rows : Bytes → ℕ) (g : Opened)
      → All (λ h. h.1 ≡ rows h.0.0) g
      → entries g ≡ entries_of rows (map (λ h. h.0) g)
  unfolding entries
  entries-entries_of rows [] h = refl
  entries-entries_of rows ((b, n) ∷ g) (hb, h) =
      ap₂ (λ k es. chunk_entries (chunk_count k) 0 b ++ es) hb (entries-entries_of rows g h)

  -- The published blobs are those opened, in order, and the rest.
  published-opened :
      (s : ScanState Row) (slot : Slot Row) (m : Stamped s slot)
      → All (Parses date_to_pg s.partition_keys_decl) s.blobs
      → s.blobs ≡ map (λ h. h.0) m.before ++ (m.blob ∷ drop s.range_producer.cursor s.blobs)
  published-opened s slot m parses =
      let n = s.range_producer.cursor in
      let taken : map (λ h. h.0) m.before ++ m.blob ∷ [] ≡ take n s.blobs =
        sym (map-append (λ h. h.0) m.before ((m.blob, m.r + 1) ∷ []))
        ∙ m.taken
        ∙ kept-All date_to_pg s.partition_keys_decl _ (All-take _ n s.blobs parses) in
      sym (take-drop n s.blobs)
      ∙ ap (λ bs. bs ++ drop n s.blobs) (sym taken)
      ∙ append_assoc (map (λ h. h.0) m.before) (m.blob ∷ []) (drop n s.blobs)

  -- The reader gives all rows of the blob's file.
  abbrev pub Unfiltered : (Bytes → List Row) → Blob → Type 0
  Unfiltered file_rows b = blob_rows open_blob b ≡ file_rows b.0

  all_rows_out :
      (file_rows : Bytes → List Row) (g : Opened)
      → All (Emitted open_blob) g
      → All (Unfiltered file_rows) (map (λ h. h.0) g)
      → All (λ h. h.1 ≡ length (file_rows h.0.0)) g
  all_rows_out file_rows [] h w = tt
  all_rows_out file_rows ((b, n) ∷ g) (hb, h) (wb, w) =
      (hb ∙ ap length wb, all_rows_out file_rows g h w)

  -- The ctid in the table of `build_plan`, when as many rows were emitted of the blobs before as
  -- that counts.
  resolve-Stamped :
      (blob_row_count : Bytes → FdwResult ℕ) (rows : Bytes → ℕ) (s : ScanState Row)
      (slot : Slot Row) (m : Stamped s slot)
      → Distinct s.blobs
      → All (Parses date_to_pg s.partition_keys_decl) s.blobs
      → Counted rows blob_row_count s.blobs
      → length (entries_of rows s.blobs) ≤ 2 ^ 32
      → All (λ h. h.1 ≡ rows h.0.0) m.before
      → m.r < rows m.blob.0
      → (table : List BlobIdEntry) × (build_blob_table blob_row_count s.blobs [] ≡ ok table)
        × (resolve_to_source table (from_ctid slot.tts_tid) ≡ ok (length (entries m.before), m.r))
        × (get_elem? table (length (entries m.before))
            ≡ some (record { name = m.blob.0; chunk_base_row = 0; etag = m.blob.1 }))
  resolve-Stamped brc rows s slot m distinct parses counted fits all_rows_out has_row =
      let rest = drop s.range_producer.cursor s.blobs in
      let names = map (λ h. h.0) m.before in
      let n = chunk_count (rows m.blob.0) in
      let own = chunk_entries n 0 m.blob in
      let whole = published-opened s slot m parses in
      let pre = entries m.before in
      let shape : entries_of rows s.blobs ≡ pre ++ (own ++ entries_of rows rest) =
        ap (entries_of rows) whole
        ∙ entries_of-append rows names (m.blob ∷ rest)
        ∙ ap (λ es. es ++ (own ++ entries_of rows rest))
            (sym (entries-entries_of rows m.before all_rows_out)) in
      let apart : Distinct (map (λ h. h.0) (m.before ++ (m.blob, m.r + 1) ∷ [])) =
        subst Distinct (sym m.taken)
          (Distinct-kept date_to_pg _ _ (Distinct-take _ s.blobs distinct)) in
      let total : length (entries_of rows s.blobs)
          ≡ length pre + (n + length (entries_of rows rest)) =
        ap length shape
        ∙ length-append pre (own ++ entries_of rows rest)
        ∙ omega
            (arith, length-append own (entries_of rows rest), length-chunk_entries n 0 m.blob) in
      (
        entries_of rows s.blobs,
        build_blob_table-ok rows brc s.blobs [] counted,
        ap₂ resolve_to_source shape (ap from_ctid m.ctid)
            ∙ resolve-ctid pre (entries_of rows rest) m.blob n m.r
                (Lacks-before m.before m.blob _ apart)
                (chunk_count-covers m.r (rows m.blob.0) has_row) (omega arith),
        ap (λ es. get_elem? es (length pre)) shape
            ∙ first_of (rows m.blob.0) m.blob pre (entries_of rows rest) has_row,
      )

  -- The ctid of a row that a scan returns, in the table that `build_plan` lays out for the published
  -- blobs, resolves to an entry of a blob and to a row index, and the row returned is the one with
  -- this index in that blob's file: when every published blob's partition values parse, the names
  -- are distinct, the reader gives all rows of each published blob's file in their order (it opens
  -- and no filter or pruning drops rows), the counts that `blob_row_count` finds are those of the
  -- files, below 2^32, and neither table has more than 2^32 entries.
  pub resolve_to_source-build_blob_table :
      (blobs : List Blob) (decl : Declared) (s s' : ScanState Row) (slot : Slot Row)
      (blob_row_count : Bytes → FdwResult ℕ) (file_rows : Bytes → List Row)
      → Scanned date_to_pg open_blob blobs decl s
      → iterate_foreign_scan date_to_pg open_blob s ≡ some (ok (some slot), s')
      → Fits s'
      → Distinct s'.blobs
      → All (Parses date_to_pg s'.partition_keys_decl) s'.blobs
      → All (Unfiltered file_rows) s'.blobs
      → Counted (λ name. length (file_rows name)) blob_row_count s'.blobs
      → length (entries_of (λ name. length (file_rows name)) s'.blobs) ≤ 2 ^ 32
      → (table : List BlobIdEntry) × (base : ℕ) × (row : ℕ) × (entry : BlobIdEntry)
        × (build_blob_table blob_row_count s'.blobs [] ≡ ok table)
        × (resolve_to_source table (from_ctid slot.tts_tid) ≡ ok (base, row))
        × (get_elem? table base ≡ some entry)
        × (get_elem? (file_rows entry.name) row ≡ some slot.row)
  resolve_to_source-build_blob_table blobs decl s s' slot brc file_rows scanned e fits distinct
        parses whole counted short =
      let (m, found) = resolve_to_source-Stamped blobs decl s s' slot scanned e fits distinct in
      let names = map (λ h. h.0) m.before in
      let (whole_before, whole_last) =
        All-split (Unfiltered file_rows) names m.blob (drop s'.range_producer.cursor s'.blobs)
          (subst (All (Unfiltered file_rows)) (published-opened s' slot m parses) whole) in
      let origin : get_elem? (file_rows m.blob.0) m.r ≡ some slot.row =
        subst (λ rs. get_elem? rs m.r ≡ some slot.row) whole_last m.origin in
      let (table, laid, resolved, first) =
        resolve-Stamped brc (λ name. length (file_rows name)) s' slot m distinct parses counted
          short (all_rows_out file_rows m.before m.complete whole_before)
          (get_elem?-inside (file_rows m.blob.0) m.r slot.row origin) in
      (
        table,
        length (entries m.before),
        m.r,
        record { name = m.blob.0; chunk_base_row = 0; etag = m.blob.1 },
        laid,
        resolved,
        first,
        origin,
      )

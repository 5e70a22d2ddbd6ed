-- ===== src/Scan/Keeps.antt =====
-- The invariant of a scan (src/fdw/scan.rs) when a blob is opened or skipped.
use parquet_azure_fdw.Prelude.{
  ℕ, ◌+◌, ◌^◌, ◌<◌, ◌≤◌, ◌≡◌, refl, sym, ap, subst, ◌∙◌, some, List, [], ◌∷◌, ◌++◌, map, get_elem?,
  take, length, length-append, arith, inl, inr, append-nil, Bytes, All, All-append, none, Option,
}
use parquet_azure_fdw.Error.{FdwError, FdwResult, ok, err}
use parquet_azure_fdw.Modify.BlobTable.{Blob, chunk_entries, chunk_count}
use parquet_azure_fdw.Partition.Path.{Declared}
use parquet_azure_fdw.Partition.Datum.{Datum}
use parquet_azure_fdw.Scan.State.{
  ScanState, blob_datums, enter_blob, Turn, emitted, continued, finished, failed, Stream,
}
use parquet_azure_fdw.Scan.Invariant.{
  Opened, entries, entries-last, take-next, kept, kept-append, Tabled, Open, ScanInv, Emitted,
  unread, stream_rows, blob_rows,
}

-- The indices of the table fit a u32.
abbrev pub Fits : {Row : Type 0} → ScanState Row → Type 0
Fits s = length s.blob_id_table ≤ 2 ^ 32

pub map-append {ℓ κ} :
    {A : Type ℓ} {B : Type κ} (f : A → B) (xs ys : List A) → map f (xs ++ ys) ≡ map f xs ++ map f ys
map-append f [] ys = refl
map-append f (x ∷ xs) ys = ap (λ zs. f x ∷ zs) (map-append f xs ys)

entries-opened :
    (g : Opened) (b : Blob)
    → entries (g ++ (b, 0) ∷ [])
      ≡ entries g ++ record { name = b.0; chunk_base_row = 0; etag = b.1 } ∷ []
unfolding chunk_entries chunk_count
entries-opened g b = entries-last g b 0

module _ (date_to_pg : Bytes → FdwResult ℕ) (decl : Declared) (blobs : List Blob) (i : ℕ) (b : Blob)
    (at : get_elem? blobs i ≡ some b) where
  kept-skipped :
      (e : FdwError)
      → blob_datums date_to_pg decl b.0 ≡ err e
      → kept date_to_pg decl (take (i + 1) blobs) ≡ kept date_to_pg decl (take i blobs)
  unfolding kept
  kept-skipped e skipped =
      rw (take-next blobs i b at, kept-append date_to_pg decl) (rw (skipped, kept) (append-nil _))

  kept-opened :
      (datums : List Datum)
      → blob_datums date_to_pg decl b.0 ≡ ok datums
      → kept date_to_pg decl (take (i + 1) blobs) ≡ kept date_to_pg decl (take i blobs) ++ b ∷ []
  unfolding kept
  kept-opened datums parsed =
      rw (take-next blobs i b at, kept-append date_to_pg decl) (rw (parsed, kept) refl)

module _ (date_to_pg : Bytes → FdwResult ℕ) {Row : Type 0}
    (open_blob : Bytes → FdwResult (Stream Row)) where
  abbrev pub Kept : ScanState Row → Type 0
  Kept s = Fits s → ScanInv date_to_pg open_blob s

  abbrev pub KeptOpen : List Row → ScanState Row → Type 0
  KeptOpen pending s =
      Fits s
      → (opened : Opened) × Tabled date_to_pg s opened × Open date_to_pg open_blob pending s opened

  -- No row is under way, so that the next blob may be opened.
  abbrev pub Quiet : ScanState Row → Type 0
  Quiet s = (s.cur_stream ≡ none) × (s.cur_batch ≡ none)

  abbrev pub Holds : Turn Row → Type 0
  Holds (emitted row s) = KeptOpen (row ∷ []) s
  Holds (continued s) = Kept s
  Holds (finished s) = Kept s
  Holds (failed e s) = Kept s

  -- With no row under way, all rows of the opened blobs were emitted.
  Quiet-Emitted :
      (s : ScanState Row)
      → Quiet s
      → (i : ScanInv date_to_pg open_blob s) → All (Emitted open_blob) i.opened × (s.cur_row ≡ 0)
  unfolding unread
  Quiet-Emitted s (no_stream, no_batch) i = elim i.current [
    | inl (idle, all) ↦ (all, idle.first_row)
    | inr o ↦
        let (front, whole, count) = o.reads in
        let nothing : unread s.cur_stream s.cur_batch s.cur_row ≡ [] =
          rw (no_stream, no_batch) refl in
        (
          subst (All (Emitted open_blob)) (sym o.split) (
              All-append _ o.before ((o.blob, s.cur_row_in_blob) ∷ []) o.complete
                (sym count ∙ ap length (sym (whole ∙ rw nothing (append-nil front))), tt)),
          o.at_start no_batch,
        )
  ]

  -- The state with the producer moved on.
  abbrev pub advance : ScanState Row → ScanState Row
  advance s = record s {
    range_producer = record {
      blobs = s.range_producer.blobs;
      cursor = s.range_producer.cursor + 1;
    };
  }

  module _ (s : ScanState Row) (b : Blob)
      (at : get_elem? s.range_producer.blobs s.range_producer.cursor ≡ some b) where
    -- A skipped blob is taken from the producer and leaves no entry.
    skip-Tabled :
        (opened : Opened) (e : FdwError)
        → blob_datums date_to_pg s.partition_keys_decl b.0 ≡ err e
        → Tabled date_to_pg s opened
        → Tabled date_to_pg (advance s) opened
    skip-Tabled opened e skipped t = record {
      published = t.published;
      table = t.table;
      taken =
          t.taken
          ∙ sym (
              kept-skipped date_to_pg s.partition_keys_decl s.blobs s.range_producer.cursor b
                (subst (λ bs. get_elem? bs s.range_producer.cursor ≡ some b) t.published at) e
                skipped);
    }

    pub skip-Kept :
        (e : FdwError)
        → blob_datums date_to_pg s.partition_keys_decl b.0 ≡ err e
        → Kept s
        → Kept (advance s)
    skip-Kept e skipped inv fits =
        let i = inv fits in
        record {
          opened = i.opened;
          tabled = skip-Tabled i.opened e skipped i.tabled;
          current = elim i.current [
            | inl (idle, all) ↦ inl (
              record {
                no_stream = idle.no_stream;
                no_batch = idle.no_batch;
                first_row = idle.first_row;
              },
              all,
            )
            | inr o ↦ inr (record {
              before = o.before;
              blob = o.blob;
              split = o.split;
              base = o.base;
              complete = o.complete;
              reads = o.reads;
              at_start = o.at_start;
            })
          ];
        }

    -- A blob that is not skipped is the last one opened, with no row emitted.
    pub enter-KeptOpen :
        (datums : List Datum)
        → blob_datums date_to_pg s.partition_keys_decl b.0 ≡ ok datums
        → Kept s
        → Quiet s
        → (stream : Option (Stream Row)) → stream_rows stream ≡ blob_rows open_blob b
        → KeptOpen [] (record (enter_blob (advance s) b datums) { cur_stream = stream })
    unfolding enter_blob unread
    enter-KeptOpen datums parsed inv quiet stream given fits =
        let table_fits : length s.blob_id_table < 2 ^ 32 = omega (
          arith,
          length-append s.blob_id_table
              (record { name = b.0; chunk_base_row = 0; etag = b.1 } ∷ []),
        ) in
        let i = inv (omega arith) in
        (
          i.opened ++ (b, 0) ∷ [],
          record {
            published = i.tabled.published;
            table =
                ap (λ t. t ++ record { name = b.0; chunk_base_row = 0; etag = b.1 } ∷ [])
                  i.tabled.table
                ∙ sym (entries-opened i.opened b);
            taken =
                map-append (λ h. h.0) i.opened ((b, 0) ∷ [])
                ∙ ap (λ bs. bs ++ b ∷ []) i.tabled.taken
                ∙ sym (
                    kept-opened date_to_pg s.partition_keys_decl s.blobs s.range_producer.cursor b
                      (subst (λ bs. get_elem? bs s.range_producer.cursor ≡ some b)
                        i.tabled.published at)
                      datums parsed);
          },
          record {
            before = i.opened;
            blob = b;
            split = refl;
            base = omega (arith, ap length i.tabled.table);
            complete = (Quiet-Emitted s quiet i).0;
            reads = ([], sym given ∙ rw quiet.1 refl, refl);
            at_start = λ e. (Quiet-Emitted s quiet i).1;
          },
        )

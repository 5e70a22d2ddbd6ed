-- ===== src/Modify/BlobTable/Laws.antt =====
-- `resolve_to_source` on the table that `build_plan` lays out (src/fdw/modify/update.rs).
use parquet_azure_fdw.Prelude.{
  ℕ, zero, suc, lt→ltb, append_assoc, append-nil, ◌+◌, ◌*◌, ◌/◌, ◌%◌, ◌^◌, ◌<◌, ◌≤◌, ◌≡◌, ◌≢◌, refl,
  ap, ◌∙◌, false, some, List, [], ◌∷◌, ◌++◌, arith, Bytes, bytes_eq, bytes_eq_iff, bytes_eq_refl,
  length, get_elem?, All, get_elem?-append_right, get_elem?-append_left,
}
use parquet_azure_fdw.Error.{FdwResult, ok}
use parquet_azure_fdw.Modify.RowId.{chunk_rows, RowId, from_absolute}
use parquet_azure_fdw.Modify.BlobTable.{
  build_blob_table, chunk_count, BlobIdEntry, Blob, chunk_entries, walk_back, resolve_to_source,
}

-- No entry of the table belongs to the blob.
abbrev pub Lacks : Bytes → List BlobIdEntry → Type 0
Lacks name = All λ e. e.name ≢ name

pub length-chunk_entries : (n c : ℕ) (b : Blob) → length (chunk_entries n c b) ≡ n
unfolding chunk_entries
length-chunk_entries zero c b = refl
length-chunk_entries (suc n) c b = omega (arith, length-chunk_entries n (c + 1) b)

pub get_elem?-chunk_entries :
    (n c : ℕ) (b : Blob) (k : ℕ)
    → k < n
    → get_elem? (chunk_entries n c b) k
      ≡ some (record { name = b.0; chunk_base_row = (c + k) * chunk_rows; etag = b.1 })
unfolding chunk_entries
get_elem?-chunk_entries zero c b k h = elim h [ ]
get_elem?-chunk_entries (suc n) c b zero h = ground arith
get_elem?-chunk_entries (suc n) c b (suc k) h =
    ground (arith, get_elem?-chunk_entries n (c + 1) b k)

Lacks-get_elem? :
    (name : Bytes) (t : List BlobIdEntry) (i : ℕ) (e : BlobIdEntry)
    → Lacks name t
    → get_elem? t i ≡ some e
    → bytes_eq e.name name ≡ false
Lacks-get_elem? name [] i e h g = ground arith
Lacks-get_elem? name (x ∷ t) zero e h g = ground (arith, bytes_eq_iff e.name name)
Lacks-get_elem? name (x ∷ t) (suc i) e h g = Lacks-get_elem? name t i e h.1 g

get_elem?-lt {ℓ} :
    {A : Type ℓ} (xs : List A) (i : ℕ) → i < length xs → (x : A) × (get_elem? xs i ≡ some x)
get_elem?-lt [] i h = elim h [ ]
get_elem?-lt (x ∷ xs) zero h = (x, refl)
get_elem?-lt (x ∷ xs) (suc i) h = get_elem?-lt xs i (omega arith)

walk_back-step :
    (t : List BlobIdEntry) (b : ℕ) (e : BlobIdEntry)
    → get_elem? t b ≡ some e
    → walk_back t e.name (suc b) ≡ walk_back t e.name b
unfolding walk_back
walk_back-step t b e at = rw (at, walk_back) (rw (bytes_eq_refl e.name) refl)

-- Behind entries of other blobs, a walk from the first entry of `name` stays there, and a walk from
-- an entry of `name` goes back to the first.
module _ (name : Bytes) (pre : List BlobIdEntry) (lacks : Lacks name pre)
    (run : List BlobIdEntry) where
  walk_back-first : (p : ℕ) → p ≡ length pre → walk_back (pre ++ run) name p ≡ ok p
  unfolding walk_back
  walk_back-first zero h = refl
  walk_back-first (suc b) h =
      let (e, at) = get_elem?-lt pre b (omega arith) in
      rw (get_elem?-append_left pre run b (omega arith), at, walk_back)
        (rw (Lacks-get_elem? name pre b e lacks at) refl)

  walk_back-run :
      (k p : ℕ)
      → p ≡ length pre + k
      → ((i : ℕ) → i < k → (e : BlobIdEntry) × (get_elem? run i ≡ some e) × (e.name ≡ name))
      → walk_back (pre ++ run) name p ≡ ok (length pre)
  walk_back-run zero p h same =
      let e : p ≡ length pre = omega arith in rw e (walk_back-first _ refl)
  walk_back-run (suc k) p h same =
      let (e, at, named) = same k (omega arith) in
      let here : get_elem? (pre ++ run) (length pre + k) ≡ some e =
        get_elem?-append_right pre run k ∙ at in
      let split : p ≡ suc (length pre + k) = omega arith in
      rw split (
        rw (← named) (
          walk_back-step (pre ++ run) (length pre + k) e here
          ∙ rw named (walk_back-run k _ refl λ i h. same i (omega arith))))

resolve-at :
    (t : List BlobIdEntry) (rid : RowId) (e : BlobIdEntry) (base : ℕ)
    → get_elem? t rid.blob_id ≡ some e
    → walk_back t e.name rid.blob_id ≡ ok base
    → resolve_to_source t rid ≡ ok (base, e.chunk_base_row + rid.offset)
unfolding resolve_to_source
resolve-at t rid e base at walked = rw (at, resolve_to_source) (rw walked refl)

-- The entries of `build_plan` for one blob, behind entries of other blobs.
module _ (pre post : List BlobIdEntry) (blob : Blob) (n : ℕ) (lacks : Lacks blob.0 pre) where
  abbrev table : List BlobIdEntry
  table = pre ++ (chunk_entries n 0 blob ++ post)

  get_elem?-table :
      (k : ℕ)
      → k < n
      → get_elem? (chunk_entries n 0 blob ++ post) k
        ≡ some (record { name = blob.0; chunk_base_row = (0 + k) * chunk_rows; etag = blob.1 })
  get_elem?-table k h =
      get_elem?-append_left _ post k (omega (arith, length-chunk_entries n 0 blob))
      ∙ get_elem?-chunk_entries n 0 blob k h

  pub resolve-chunk :
      (k offset : ℕ)
      → k < n
      → resolve_to_source table (record { blob_id = length pre + k; offset = offset })
        ≡ ok (length pre, k * chunk_rows + offset)
  resolve-chunk k offset h =
      resolve-at table _ _ _
        (get_elem?-append_right pre (chunk_entries n 0 blob ++ post) k ∙ get_elem?-table k h)
        (walk_back-run blob.0 pre lacks (chunk_entries n 0 blob ++ post) k _ refl
          λ i hi. (_, get_elem?-table i (omega arith), refl))
      ∙ ap ok (ground arith)

  -- The id that a scan gives to row `row` of the blob resolves to that row and to the first chunk.
  pub resolve-from_absolute :
      (row : ℕ)
      → row / chunk_rows < n
      → length pre + n ≤ 2 ^ 32
      → resolve_to_source table (from_absolute (length pre) row) ≡ ok (length pre, row)
  unfolding from_absolute
  resolve-from_absolute row h fits =
      let id : from_absolute (length pre) row
          ≡ record { blob_id = length pre + row / chunk_rows; offset = row % chunk_rows } =
        ground arith in
      rw id (resolve-chunk (row / chunk_rows) (row % chunk_rows) h ∙ ap ok (ground arith))

-- The whole table, blob after blob, when each blob has `rows name` rows.
module _ (rows : Bytes → ℕ) where
  abbrev pub entries_of : List Blob → List BlobIdEntry
  entries_of [] = []
  entries_of (b ∷ bs) = chunk_entries (chunk_count (rows b.0)) 0 b ++ entries_of bs

  -- What `blob_row_count` returns for the published blobs, and the names are distinct.
  abbrev pub Counted : (Bytes → FdwResult ℕ) → List Blob → Type 0
  Counted blob_row_count = All λ b. (blob_row_count b.0 ≡ ok (rows b.0)) × (rows b.0 < 2 ^ 32)

  pub build_blob_table-ok :
      (blob_row_count : Bytes → FdwResult ℕ) (bs : List Blob) (acc : List BlobIdEntry)
      → Counted blob_row_count bs
      → build_blob_table blob_row_count bs acc ≡ ok (acc ++ entries_of bs)
  unfolding build_blob_table
  build_blob_table-ok brc [] acc h = rw append-nil
  build_blob_table-ok brc ((n, e) ∷ bs) acc (((counted, fits)), rest) =
      rw (counted, lt→ltb _ _ fits)
        (build_blob_table-ok brc bs _ rest
          ∙ ap ok
              (append_assoc acc (chunk_entries (chunk_count (rows n)) 0 (n, e)) (entries_of bs)))

  pub entries_of-append :
      (bs cs : List Blob) → entries_of (bs ++ cs) ≡ entries_of bs ++ entries_of cs
  entries_of-append [] cs = refl
  entries_of-append (b ∷ bs) cs = simp (append_assoc, entries_of-append bs cs)

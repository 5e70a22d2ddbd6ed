-- ===== src/Scan/Register.antt =====
-- `register_chunk_if_boundary` (src/fdw/scan.rs) on the entries of a blob whose rows are emitted.
use parquet_azure_fdw.Prelude.{
  ℕ, zero, suc, ◌+◌, ◌*◌, ◌/◌, ◌%◌, ◌<◌, ◌≤◌, ◌≡◌, refl, sym, ap, ◌∙◌, some, List, [], ◌∷◌, ◌++◌,
  get_elem?, get_elem?-append_right, length, length-append, append_assoc, arith, Bool-cases, inl,
  inr, true, false, ◌==◌, leb,
}
use parquet_azure_fdw.Modify.RowId.{chunk_rows}
use parquet_azure_fdw.Modify.BlobTable.{BlobIdEntry, Blob, chunk_entries, chunk_count}
use parquet_azure_fdw.Modify.BlobTable.Laws.{length-chunk_entries, get_elem?-chunk_entries}
use parquet_azure_fdw.Scan.Row.{register_chunk_if_boundary}

chunk_entries-last :
    (n c : ℕ) (b : Blob)
    → chunk_entries (n + 1) c b
      ≡ chunk_entries n c b
        ++ record { name = b.0; chunk_base_row = (c + n) * chunk_rows; etag = b.1 } ∷ []
unfolding chunk_entries
chunk_entries-last zero c b = ground arith
chunk_entries-last (suc n) c b = ground (arith, chunk_entries-last n (c + 1) b)

-- On no boundary, the number of chunks stays.
chunk_count-inside : (r : ℕ) → (r % chunk_rows == 0) ≡ false → chunk_count (r + 1) ≡ chunk_count r
unfolding chunk_count
chunk_count-inside r h = ground arith

chunk_count-start : chunk_count 0 ≡ chunk_count (0 + 1)
unfolding chunk_count
chunk_count-start = refl

chunk_count-boundary :
    (r : ℕ)
    → (r == 0) ≡ false
    → (r % chunk_rows == 0) ≡ true
    → (chunk_count r ≡ r / chunk_rows)
      × (chunk_count (r + 1) ≡ r / chunk_rows + 1)
      × (r / chunk_rows * chunk_rows ≡ r)
unfolding chunk_count
chunk_count-boundary r h k = (ground arith, ground arith, ground arith)

pub length-register :
    (t : List BlobIdEntry) (base r : ℕ) → length t ≤ length (register_chunk_if_boundary t base r)
unfolding register_chunk_if_boundary
length-register t base r = grind (arith, length-append)

-- The first entry of a blob is there to be copied.
get_elem?-first :
    (pre : List BlobIdEntry) (b : Blob) (n : ℕ)
    → 0 < n
    → get_elem? (pre ++ chunk_entries n 0 b) (length pre)
      ≡ some (record { name = b.0; chunk_base_row = 0; etag = b.1 })
get_elem?-first pre b n h =
    ap (get_elem? (pre ++ chunk_entries n 0 b)) (omega arith)
    ∙ get_elem?-append_right pre (chunk_entries n 0 b) 0
    ∙ get_elem?-chunk_entries n 0 b 0 h
    ∙ ground arith

pub register-entries :
    (pre : List BlobIdEntry) (b : Blob) (r : ℕ)
    → register_chunk_if_boundary (pre ++ chunk_entries (chunk_count r) 0 b) (length pre) r
      ≡ pre ++ chunk_entries (chunk_count (r + 1)) 0 b
unfolding register_chunk_if_boundary
register-entries pre b r = elim (Bool-cases (r == 0)) [
  | inl start ↦
      let zero_row : r ≡ 0 = ground arith in
      rw start (ap (λ k. pre ++ chunk_entries k 0 b) (rw zero_row chunk_count-start))
  | inr moved ↦ elim (Bool-cases (r % chunk_rows == 0)) [
    | inl boundary ↦
        let (count, next, base_row) = chunk_count-boundary r moved boundary in
        let many = chunk_entries (chunk_count r) 0 b in
        let total : length (pre ++ many) ≡ length pre + r / chunk_rows =
          length-append pre many ∙ omega (arith, length-chunk_entries (chunk_count r) 0 b) in
        let not_yet : leb (length pre + r / chunk_rows + 1) (length (pre ++ many)) ≡ false =
          ground arith in
        rw (moved, boundary, not_yet, get_elem?-first pre b (chunk_count r) (ground arith))
          (append_assoc pre many _
            ∙ ap (λ es. pre ++ es)
                (ap (λ e. many ++ e ∷ []) (ground arith)
                  ∙ sym (chunk_entries-last (chunk_count r) 0 b)
                  ∙ ap (λ k. chunk_entries k 0 b) (omega arith)))
    | inr inside ↦
        rw (moved, inside)
          (ap (λ k. pre ++ chunk_entries k 0 b) (sym (chunk_count-inside r inside)))
  ]
]

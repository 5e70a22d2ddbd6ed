-- ===== src/Scan/Resolving.antt =====
-- The ctids of src/fdw/scan.rs in tables of chunks, and where an entry of a blob stands.
use parquet_azure_fdw.Prelude.{
  ℕ, ◌+◌, ◌/◌, ◌^◌, ◌<◌, ◌≤◌, ◌≡◌, refl, ap, ◌∙◌, some, List, [], ◌∷◌, ◌++◌, length, length-append,
  arith, All, get_elem?, get_elem?-append_right, zero, suc,
}
use parquet_azure_fdw.Error.{ok}
use parquet_azure_fdw.Modify.RowId.{from_absolute, to_ctid, from_ctid, chunk_rows}
use parquet_azure_fdw.Modify.RowId.Laws.{from_ctid-to_ctid, absolute_roundtrip}
use parquet_azure_fdw.Modify.BlobTable.{
  BlobIdEntry, Blob, chunk_entries, chunk_count, resolve_to_source,
}
use parquet_azure_fdw.Modify.BlobTable.Laws.{Lacks, resolve-from_absolute, length-chunk_entries}
use parquet_azure_fdw.Scan.Invariant.{Opened, entries, entries-last}

-- In a table with the entries of `n` chunks of a blob behind those of others, the ctid of a row of
-- these chunks resolves to it.
pub resolve-ctid :
    (pre post : List BlobIdEntry) (b : Blob) (n row : ℕ)
    → Lacks b.0 pre
    → row / chunk_rows < n
    → length pre + n ≤ 2 ^ 32
    → resolve_to_source
        (pre ++ (chunk_entries n 0 b ++ post))
        (from_ctid (to_ctid (from_absolute (length pre) row)))
      ≡ ok (length pre, row)
resolve-ctid pre post b n row lacks inside fits =
    ap (resolve_to_source (pre ++ (chunk_entries n 0 b ++ post))) (
      from_ctid-to_ctid (from_absolute (length pre) row)
        (absolute_roundtrip (length pre) row (omega arith)).2)
    ∙ resolve-from_absolute pre post b n lacks row inside fits

pub length-entries_last :
    (g : Opened) (b : Blob) (n : ℕ)
    → length (entries (g ++ (b, n) ∷ [])) ≡ length (entries g) + chunk_count n
length-entries_last g b n =
    ap length (entries-last g b n)
    ∙ length-append (entries g) (chunk_entries (chunk_count n) 0 b)
    ∙ omega (arith, length-chunk_entries (chunk_count n) 0 b)

pub chunk_count-covers : (r n : ℕ) → r < n → r / chunk_rows < chunk_count n
unfolding chunk_count
chunk_count-covers r n h = ground arith

pub get_elem?-inside {ℓ} :
    {A : Type ℓ} (xs : List A) (i : ℕ) (x : A) → get_elem? xs i ≡ some x → i < length xs
get_elem?-inside [] i x h = ground arith
get_elem?-inside (y ∷ xs) zero x h = omega arith
get_elem?-inside (y ∷ xs) (suc i) x h = omega (arith, get_elem?-inside xs i x h)

pub All-split {ℓ κ} :
    {A : Type ℓ} (P : A → Type κ) (xs : List A) (y : A) (ys : List A)
    → All P (xs ++ (y ∷ ys))
    → All P xs × P y
All-split P [] y ys (h, hs) = (tt, h)
All-split P (x ∷ xs) y ys (h, hs) =
    let (before, last) = All-split P xs y ys hs in ((h, before), last)

first_chunk :
    (n : ℕ) (b : Blob) (post : List BlobIdEntry)
    → 0 < n
    → get_elem? (chunk_entries n 0 b ++ post) 0
      ≡ some (record { name = b.0; chunk_base_row = 0; etag = b.1 })
unfolding chunk_entries
first_chunk zero b post h = ground (arith, h)
first_chunk (suc n) b post h = refl

-- The first entry of a blob with a row, behind those of others.
pub first_of :
    (n : ℕ) (b : Blob) (pre post : List BlobIdEntry) {r : ℕ}
    → r < n
    → get_elem? (pre ++ (chunk_entries (chunk_count n) 0 b ++ post)) (length pre)
      ≡ some (record { name = b.0; chunk_base_row = 0; etag = b.1 })
unfolding chunk_entries chunk_count
first_of n b pre post h =
    ap (get_elem? (pre ++ (chunk_entries (chunk_count n) 0 b ++ post))) (omega arith)
    ∙ get_elem?-append_right pre (chunk_entries (chunk_count n) 0 b ++ post) 0
    ∙ first_chunk (chunk_count n) b post (ground (arith, h))

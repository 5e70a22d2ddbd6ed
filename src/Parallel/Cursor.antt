-- ===== src/Parallel/Cursor.antt =====
-- The shared cursor of a parallel scan (src/fdw/parallel.rs), under any interleaving of the workers.
use parquet_azure_fdw.Prelude.{
  ℕ, zero, suc, ◌+◌, ◌%◌, ◌^◌, ◌<◌, ◌≡◌, refl, sym, ap, ◌∙◌, arith, Bool, List, [], ◌∷◌, Option,
  none, some, Bytes, length, take, drop, get_elem?, All, Option-cases, inl, inr,
}
use parquet_azure_fdw.Error.{ok}
use parquet_azure_fdw.Modify.BlobTable.{Blob}
use parquet_azure_fdw.Parallel.{
  dsm_size_for, dsm_serialize_blobs, dsm_deserialize_blobs, next_blob_shared,
}
use parquet_azure_fdw.Parallel.Layout.{Text, dsm_deserialize_blobs-dsm_serialize_blobs}

-- The calls of the workers in the order in which they reach the cursor, each with what it returns.
unfoldable pub calls : (ℕ → List Blob) → List ℕ → ℕ → List (ℕ × Option Blob)
calls lists [] cursor = []
calls lists (worker ∷ schedule) cursor =
    let (blob, next) = next_blob_shared (lists worker) cursor in
    (worker, blob) ∷ calls lists schedule next

-- The blobs that the calls return.
abbrev pub handed : List (ℕ × Option Blob) → List Blob
handed [] = []
handed ((worker, none) ∷ others) = handed others
handed ((worker, some blob) ∷ others) = blob ∷ handed others

take-nil : (n : ℕ) → [] ≡ take {A = Blob} n []
take-nil zero = refl
take-nil (suc n) = refl

drop-get_elem? :
    (i n : ℕ) (blobs : List Blob)
    → take (suc n) (drop i blobs) ≡ (elim (get_elem? blobs i) [
      | none ↦ take n (drop (suc i) blobs)
      | some blob ↦ blob ∷ take n (drop (suc i) blobs)
    ])
drop-get_elem? zero n [] = take-nil n
drop-get_elem? zero n (b ∷ blobs) = refl
drop-get_elem? (suc i) n [] = take-nil n
drop-get_elem? (suc i) n (b ∷ blobs) = drop-get_elem? i n blobs

some_ok_eq : {A : Type 0} {x y : A} → some (ok x) ≡ some (ok y) → x ≡ y
some_ok_eq e = cc

handed-calls :
    (lists : ℕ → List Blob) (blobs : List Blob) (schedule : List ℕ) (cursor : ℕ)
    → ((worker : ℕ) → lists worker ≡ blobs)
    → cursor + length schedule < 2 ^ 64
    → handed (calls lists schedule cursor) ≡ take (length schedule) (drop cursor blobs)
unfolding calls next_blob_shared
handed-calls lists blobs [] cursor same small = refl
handed-calls lists blobs (worker ∷ schedule) cursor same small =
    let next : (cursor + 1) % 2 ^ 64 ≡ suc cursor = omega arith in
    let rest = handed-calls lists blobs schedule (suc cursor) same (omega arith) in
    rw (same worker, next, drop-get_elem? cursor (length schedule) blobs)
      (elim (Option-cases (get_elem? blobs cursor)) [
        | inl e ↦ rw e rest
        | inr (blob, e) ↦ rw e (ap (λ bs. blob ∷ bs) rest)
      ])

-- Workers that each read the blob list from the shared segment are handed, whatever the order in
-- which their calls reach the cursor, the blobs of the leader's list one after the other from the
-- first, and nothing once all are handed out: no blob twice, and none left out when there are as
-- many calls as blobs; for fewer than 2^64 calls and texts of fewer than 2^32 bytes of UTF-8.
pub handed-dsm_serialize_blobs :
    (is_utf8 : Bytes → Bool) (blobs : List Blob) (lists : ℕ → List Blob) (schedule : List ℕ)
    → All (Text is_utf8) blobs
    → ((worker : ℕ)
        → dsm_deserialize_blobs is_utf8 (dsm_serialize_blobs (dsm_size_for blobs) blobs)
          ≡ some (ok (lists worker)))
    → length schedule < 2 ^ 64
    → handed (calls lists schedule (dsm_serialize_blobs (dsm_size_for blobs) blobs).cursor)
      ≡ take (length schedule) blobs
unfolding dsm_serialize_blobs
handed-dsm_serialize_blobs is_utf8 blobs lists schedule texts attached small =
    handed-calls lists blobs schedule 0
      (λ worker.
        some_ok_eq
          (sym (attached worker) ∙ dsm_deserialize_blobs-dsm_serialize_blobs is_utf8 blobs texts))
      (omega arith)

-- ===== src/Scan/Distinct.antt =====
-- Blobs of distinct names, as a listing of a container returns them, and what a scan keeps of them
-- (src/fdw/scan.rs).
use parquet_azure_fdw.Prelude.{
  ℕ, zero, suc, ◌≡◌, ◌≢◌, refl, sym, ap, List, [], ◌∷◌, ◌++◌, map, take, drop, All, All-append,
  Bytes,
}
use parquet_azure_fdw.Error.{FdwResult, ok, err}
use parquet_azure_fdw.Partition.Path.{Declared}
use parquet_azure_fdw.Partition.Datum.{Datum}
use parquet_azure_fdw.Modify.BlobTable.{Blob, chunk_entries, chunk_count}
use parquet_azure_fdw.Modify.BlobTable.Laws.{Lacks}
use parquet_azure_fdw.Scan.State.{blob_datums}
use parquet_azure_fdw.Scan.Invariant.{Opened, entries, kept}

abbrev pub Distinct : List Blob → Type 0
Distinct [] = Unit
Distinct (b ∷ bs) = All (λ c. c.0 ≢ b.0) bs × Distinct bs

pub All-take {ℓ κ} :
    {A : Type ℓ} (P : A → Type κ) (n : ℕ) (xs : List A) → All P xs → All P (take n xs)
All-take P zero xs h = tt
All-take P (suc n) [] h = tt
All-take P (suc n) (x ∷ xs) (hx, h) = (hx, All-take P n xs h)

pub Distinct-take : (n : ℕ) (bs : List Blob) → Distinct bs → Distinct (take n bs)
Distinct-take zero bs h = tt
Distinct-take (suc n) [] h = tt
Distinct-take (suc n) (b ∷ bs) (hb, h) = (All-take _ n bs hb, Distinct-take n bs h)

pub take-drop {ℓ} : {A : Type ℓ} (n : ℕ) (xs : List A) → take n xs ++ drop n xs ≡ xs
take-drop zero xs = refl
take-drop (suc n) [] = refl
take-drop (suc n) (x ∷ xs) = ap (λ ys. x ∷ ys) (take-drop n xs)

module _ (date_to_pg : Bytes → FdwResult ℕ) (decl : Declared) where
  All-kept {κ} : (P : Blob → Type κ) (bs : List Blob) → All P bs → All P (kept date_to_pg decl bs)
  unfolding kept
  All-kept P [] h = tt
  All-kept P (b ∷ bs) (hb, h) =
      elim (blob_datums date_to_pg decl b.0)
        as (λ r.
          All P (elim r [
            | ok datums ↦ b ∷ kept date_to_pg decl bs
            | err e ↦ kept date_to_pg decl bs
          ])) [ ok datums ↦ (hb, All-kept P bs h) | err e ↦ All-kept P bs h ]

  pub Distinct-kept : (bs : List Blob) → Distinct bs → Distinct (kept date_to_pg decl bs)
  unfolding kept
  Distinct-kept [] h = tt
  Distinct-kept (b ∷ bs) (hb, h) =
      elim (blob_datums date_to_pg decl b.0)
        as (λ r.
          Distinct (elim r [
            | ok datums ↦ b ∷ kept date_to_pg decl bs
            | err e ↦ kept date_to_pg decl bs
          ])) [ ok datums ↦ (All-kept _ bs hb, Distinct-kept bs h) | err e ↦ Distinct-kept bs h ]

  -- The blobs whose partition values parse.
  abbrev pub Parses : Blob → Type 0
  Parses b = (datums : List Datum) × (blob_datums date_to_pg decl b.0 ≡ ok datums)

  pub kept-All : (bs : List Blob) → All Parses bs → kept date_to_pg decl bs ≡ bs
  unfolding kept
  kept-All [] h = refl
  kept-All (b ∷ bs) ((datums, parsed), h) = rw (parsed, kept) (ap (λ cs. b ∷ cs) (kept-All bs h))

last-holds {κ} :
    (P : Blob → Type κ) (g : Opened) (b : Blob) (n : ℕ)
    → All P (map (λ h. h.0) (g ++ (b, n) ∷ []))
    → P b
last-holds P [] b n h = h.0
last-holds P (x ∷ g) b n h = last-holds P g b n h.1

-- The last of distinct blobs is none of the others.
last-apart :
    (g : Opened) (b : Blob) (n : ℕ)
    → Distinct (map (λ h. h.0) (g ++ (b, n) ∷ []))
    → All (λ h. h.0.0 ≢ b.0) g
last-apart [] b n h = tt
last-apart ((c, m) ∷ g) b n (hc, h) = (λ e. last-holds _ g b n hc (sym e), last-apart g b n h)

Lacks-chunk_entries :
    (name : Bytes) (n c : ℕ) (b : Blob) → b.0 ≢ name → Lacks name (chunk_entries n c b)
unfolding chunk_entries
Lacks-chunk_entries name zero c b h = tt
Lacks-chunk_entries name (suc n) c b h = (h, Lacks-chunk_entries name n _ b h)

Lacks-entries : (name : Bytes) (g : Opened) → All (λ h. h.0.0 ≢ name) g → Lacks name (entries g)
unfolding entries
Lacks-entries name [] h = tt
Lacks-entries name ((b, n) ∷ g) (hb, h) =
    All-append _ (chunk_entries (chunk_count n) 0 b) (entries g)
      (Lacks-chunk_entries name (chunk_count n) 0 b hb) (Lacks-entries name g h)

pub Lacks-before :
    (g : Opened) (b : Blob) (n : ℕ)
    → Distinct (map (λ h. h.0) (g ++ (b, n) ∷ []))
    → Lacks b.0 (entries g)
Lacks-before g b n h = Lacks-entries b.0 g (last-apart g b n h)

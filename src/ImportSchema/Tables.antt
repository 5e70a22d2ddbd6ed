-- ===== src/ImportSchema/Tables.antt =====
-- The tables that `group_blobs_by_directory` (src/fdw/import_schema.rs) makes of a listing.
use parquet_azure_fdw.Prelude.{
  ◌≡◌, refl, sym, ap, subst, ◌∙◌, arith, ℕ, zero, suc, true, false, List, [], ◌∷◌, Bytes,
  Bool-cases, inl, inr, bytes_eq_refl, is_empty, All, get_elem?, some,
}
use parquet_azure_fdw.ImportSchema.{
  directory_of, TextMap, text_keys, claimed, text_lt, group_by_dir, claim_tables, table_of,
  group_blobs_by_directory,
}
use parquet_azure_fdw.ImportSchema.Grouping.{
  in_dir, Unclaimed, claim_tables-Unclaimed, group_by_dir-entries,
}
use parquet_azure_fdw.ImportSchema.Directories.{
  IsDirectory, IsName, Gathers, IsDirectory-directory_of, table_of-IsName, IsName-table_of,
  in_dir-Gathers,
}
use parquet_azure_fdw.ImportSchema.Claims.{
  Wins, IsFilled, claim_tables-Wins, claim_tables-claimed, All-claimed, All-weaken,
  group_by_dir-InOrder,
}

-- The table of a directory: its name, its blobs, which are some, and no directory of the listing
-- with the same table name comes before it.
pub record IsTable (container : Bytes) (blobs : List Bytes) (entry : Bytes × List Bytes)
    : Type 0 where
  pub dir : Bytes
  pub named : IsName container dir entry.0
  pub gathered : Gathers dir blobs entry.1
  pub filled : is_empty entry.1 ≡ false
  pub first :
      (i : ℕ) (blob other : Bytes)
      → get_elem? blobs i ≡ some blob
      → IsDirectory other blob
      → IsName container other entry.0
      → text_lt other dir ≡ false

-- Every blob's directory has its table name among the tables.
abbrev pub Covers : Bytes → List Bytes → TextMap (List Bytes) → Type 0
Covers container blobs tables =
    (i : ℕ) (blob dir table : Bytes)
    → get_elem? blobs i ≡ some blob
    → IsDirectory dir blob
    → IsName container dir table
    → claimed table (text_keys tables) ≡ true

in_dir-filled :
    (blobs : List Bytes) (i : ℕ) (blob : Bytes)
    → get_elem? blobs i ≡ some blob
    → is_empty (in_dir (directory_of blob) blobs) ≡ false
unfolding in_dir
in_dir-filled [] i blob at = cc
in_dir-filled (b ∷ blobs) zero blob at =
    let same : b ≡ blob = cc in
    subst (λ c. is_empty (in_dir (directory_of c) (b ∷ blobs)) ≡ false) same
      (rw (in_dir, bytes_eq_refl (directory_of b)) refl)
in_dir-filled (b ∷ blobs) (suc i) blob at = ground (arith, in_dir-filled blobs i blob at)

-- The directory of a listed blob has an entry.
directory-claimed :
    (blobs : List Bytes) (i : ℕ) (blob dir : Bytes)
    → get_elem? blobs i ≡ some blob
    → IsDirectory dir blob
    → claimed dir (text_keys (group_by_dir blobs [])) ≡ true
directory-claimed blobs i blob dir at own =
    subst (λ d. claimed d (text_keys (group_by_dir blobs [])) ≡ true)
      (IsDirectory-directory_of dir blob own)
      (elim (Bool-cases (claimed (directory_of blob) (text_keys (group_by_dir blobs [])))) [
        | inl e ↦ e
        | inr e ↦
            let empty : true ≡ false =
              ap is_empty (sym ((group_by_dir-entries blobs).1 (directory_of blob) e))
              ∙ in_dir-filled blobs i blob at in
            cc
      ])

abbrev Entry : List Bytes → Bytes × List Bytes → Type 0
Entry blobs e = (e.1 ≡ in_dir e.0 blobs) × IsFilled e

All-both {κ} :
    {A : Type 0} (P Q : A → Type κ) (xs : List A) → All P xs → All Q xs → All (λ x. P x × Q x) xs
All-both P Q [] h k = tt
All-both P Q (x ∷ xs) (hx, h) (kx, k) = ((hx, kx), All-both P Q xs h k)

Wins-IsTable :
    (container : Bytes) (blobs : List Bytes) (out : Bytes × List Bytes)
    → Wins container (Entry blobs) (group_by_dir blobs []) out
    → IsTable container blobs out
Wins-IsTable container blobs out (dir, (own, filled), named, first) = record {
  dir = dir;
  named = subst (IsName container dir) (sym named) (table_of-IsName container dir);
  gathered = subst (Gathers dir blobs) (sym own) (in_dir-Gathers dir blobs);
  filled = filled;
  first = λ i blob other at lies name.
      All-claimed (λ d. table_of container d ≡ out.0 → text_lt d dir ≡ false)
        (group_by_dir blobs []) other (directory-claimed blobs i blob other at lies) first
        (IsName-table_of container other out.0 name);
}

-- Each imported table has the name of a directory, which is the last component of the directory's
-- path and the container's name for the root, and as its blobs those of this directory, at least
-- one, in the order of the listing. No two tables have the same name, each blob's directory has its
-- table name among them, and of the directories with one table name the first in the order of texts
-- has the table.
pub group_blobs_by_directory-IsTable :
    (blobs : List Bytes) (container : Bytes)
    → All (IsTable container blobs) (group_blobs_by_directory blobs container)
      × Unclaimed [] (group_blobs_by_directory blobs container)
      × Covers container blobs (group_blobs_by_directory blobs container)
unfolding group_blobs_by_directory
group_blobs_by_directory-IsTable blobs container =
    let by_dir = group_by_dir blobs [] in
    let (ordered, full) = group_by_dir-InOrder blobs [] tt tt in
    let entries = All-both _ IsFilled by_dir (group_by_dir-entries blobs).0 full in
    (
      All-weaken _ (IsTable container blobs) (claim_tables container by_dir [])
          (λ out free. Wins-IsTable container blobs out free.1)
          (claim_tables-Wins container (Entry blobs) by_dir [] ordered entries),
      claim_tables-Unclaimed container by_dir [],
      λ i blob dir table at lies name.
          subst (λ t. claimed t (text_keys (claim_tables container by_dir [])) ≡ true)
            (IsName-table_of container dir table name)
            (claim_tables-claimed container (Entry blobs) by_dir [] dir
              (directory-claimed blobs i blob dir at lies)),
    )

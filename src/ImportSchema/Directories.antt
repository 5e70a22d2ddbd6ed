-- ===== src/ImportSchema/Directories.antt =====
-- The directory of a blob, the blobs of a directory and the name of its table, described without
-- src/fdw/import_schema.rs, and that the code finds them.
use parquet_azure_fdw.Prelude.{
  ◌≡◌, ◌≢◌, refl, sym, ap, subst, ◌∙◌, arith, true, false, List, [], ◌∷◌, ◌++◌, Bytes, bytes_eq,
  Bool-cases, inl, inr, ◌⊎◌, none, some, contains, bytes_eq_refl, bytes_eq→eq, ◌==◌,
}
use parquet_azure_fdw.ImportSchema.{rsplit_slash, directory_of, table_of}
use parquet_azure_fdw.ImportSchema.Grouping.{in_dir}

-- The text before the last slash, or the root's empty text where there is no slash.
abbrev pub IsDirectory : Bytes → Bytes → Type 0
IsDirectory dir blob =
    ((contains blob b'/' ≡ false) × (dir ≡ []))
    ⊎ ((file : Bytes) × (contains file b'/' ≡ false) × (blob ≡ dir ++ (b'/' ∷ file)))

-- The container for the root, the last component for any other directory.
abbrev pub IsName : Bytes → Bytes → Bytes → Type 0
IsName container dir table =
    ((dir ≡ []) × (table ≡ container))
    ⊎ ((dir ≢ [])
        × (contains table b'/' ≡ false)
        × ((dir ≡ table) ⊎ ((parent : Bytes) × (dir ≡ parent ++ (b'/' ∷ table)))))

-- The blobs of the directory among those listed, in their order.
pub data Gathers (dir : Bytes) : List Bytes → List Bytes → Type 0 where
  done : Gathers dir [] []
  keep :
      {blob : Bytes} {blobs taken : List Bytes}
      → IsDirectory dir blob
      → Gathers dir blobs taken
      → Gathers dir (blob ∷ blobs) (blob ∷ taken)
  skip :
      {blob : Bytes} {blobs taken : List Bytes}
      → ¬ IsDirectory dir blob
      → Gathers dir blobs taken
      → Gathers dir (blob ∷ blobs) taken

rsplit_slash-none : (s : Bytes) → contains s b'/' ≡ false → rsplit_slash s ≡ none
unfolding rsplit_slash
rsplit_slash-none [] h = refl
rsplit_slash-none (c ∷ s) h = ground (arith, h, rsplit_slash-none s)

rsplit_slash-some :
    (dir file : Bytes)
    → contains file b'/' ≡ false
    → rsplit_slash (dir ++ (b'/' ∷ file)) ≡ some (dir, file)
unfolding rsplit_slash
rsplit_slash-some [] file h = rw (rsplit_slash-none file h) refl
rsplit_slash-some (c ∷ dir) file h = rw (rsplit_slash-some dir file h) refl

rsplit_slash-cases :
    (s : Bytes)
    → ((rsplit_slash s ≡ none) × (contains s b'/' ≡ false))
      ⊎ ((before : Bytes) × (behind : Bytes) × (rsplit_slash s ≡ some (before, behind))
          × (s ≡ before ++ (b'/' ∷ behind))
          × (contains behind b'/' ≡ false))
unfolding rsplit_slash
rsplit_slash-cases [] = inl (refl, refl)
rsplit_slash-cases (c ∷ s) = elim (rsplit_slash-cases s) [
  | inr (before, behind, e, shape, last) ↦
      inr (c ∷ before, behind, rw e refl, ap (λ t. c ∷ t) shape, last)
  | inl (e, no_slash) ↦ elim (Bool-cases (c == b'/')) [
    | inl slash ↦
        let same : c ≡ b'/' = ground (arith, slash) in
        inr ([], s, rw (e, slash) refl, ap (λ d. d ∷ s) same, no_slash)
    | inr other ↦ inl (rw (e, other) refl, rw (other, no_slash) refl)
  ]
]

pub directory_of-IsDirectory : (blob : Bytes) → IsDirectory (directory_of blob) blob
unfolding directory_of
directory_of-IsDirectory blob = elim (rsplit_slash-cases blob) [
  | inl (e, no_slash) ↦ rw (e, directory_of) (inl (no_slash, refl))
  | inr (before, behind, e, shape, last) ↦ rw (e, directory_of) (inr (behind, last, shape))
]

pub IsDirectory-directory_of : (dir blob : Bytes) → IsDirectory dir blob → directory_of blob ≡ dir
unfolding directory_of
IsDirectory-directory_of dir blob (inl (no_slash, root)) =
    rw (rsplit_slash-none blob no_slash, directory_of) (sym root)
IsDirectory-directory_of dir blob (inr (file, last, shape)) =
    ap directory_of shape ∙ rw (rsplit_slash-some dir file last, directory_of) refl

pub table_of-IsName : (container dir : Bytes) → IsName container dir (table_of container dir)
unfolding table_of
table_of-IsName container [] = inl (refl, refl)
table_of-IsName container (c ∷ dir) = elim (rsplit_slash-cases (c ∷ dir)) [
  | inl (e, no_slash) ↦ rw (e, table_of) (inr (λ f. cc, no_slash, inl refl))
  | inr (before, behind, e, shape, last) ↦
      rw (e, table_of) (inr (λ f. cc, last, inr (before, shape)))
]

pub IsName-table_of :
    (container dir table : Bytes) → IsName container dir table → table_of container dir ≡ table
unfolding table_of
IsName-table_of container [] table (inl (root, same)) = sym same
IsName-table_of container (c ∷ dir) table (inl (root, same)) = cc
IsName-table_of container [] table (inr (apart, last, shape)) = elim (apart refl) [ ]
IsName-table_of container (c ∷ dir) table (inr (apart, last, inl same)) =
    rw
      (rsplit_slash-none (c ∷ dir) (subst (λ t. contains t b'/' ≡ false) (sym same) last), table_of)
      same
IsName-table_of container (c ∷ dir) table (inr (apart, last, inr (parent, shape))) =
    rw (ap rsplit_slash shape ∙ rsplit_slash-some parent table last, table_of) refl

pub in_dir-Gathers : (dir : Bytes) (blobs : List Bytes) → Gathers dir blobs (in_dir dir blobs)
unfolding in_dir
in_dir-Gathers dir [] = done
in_dir-Gathers dir (blob ∷ blobs) = elim (Bool-cases (bytes_eq (directory_of blob) dir)) [
  | inl e ↦ rw e (
      keep
        (subst (λ d. IsDirectory d blob) (bytes_eq→eq (directory_of blob) dir e)
          (directory_of-IsDirectory blob))
        (in_dir-Gathers dir blobs))
  | inr e ↦ rw e (
      skip
        (λ h.
          let clash : false ≡ true =
            sym e
            ∙ ap (λ d. bytes_eq d dir) (IsDirectory-directory_of dir blob h)
            ∙ bytes_eq_refl dir in
          cc)
        (in_dir-Gathers dir blobs))
]

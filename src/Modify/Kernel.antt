-- ===== src/Modify/Kernel.antt =====
-- src/fdw/modify/kernel.rs: the rewrite of a blob's batches, rows dropped and values replaced.
-- The `arrow` crate's arrays and batches are a parameter, with what its documentation promises.
pub mod Masks
pub mod Rows
pub mod Splice
pub mod Columns
pub mod Lists
pub mod Laws
pub mod Stream
use parquet_azure_fdw.Prelude.{
  ℕ, zero, suc, ◌+◌, ◌-◌, ◌^◌, ◌%◌, ◌≤◌, ◌≡◌, ◌≢◌, min, Bool, true, false, ◌&&◌, List, [], ◌∷◌,
  ◌++◌, map, Option, none, some, ltb, leb, ◌==◌, if◌then◌else◌, length, get_elem?, take, drop,
  concat, any, All, is_empty, lookup, keys, range, sort_unstable,
}
use parquet_azure_fdw.Error.{FdwResult, ok, err, arrow, schema_mismatch, ◌>>=◌}

-- `arrow`'s arrays, each read as the list of its values, and its record batches.
pub record Arrow : Type 1 where
  pub ArrayRef : Type 0
  pub RecordBatch : Type 0
  pub Field : Type 0
  pub Value : Type 0
  pub values : ArrayRef → List Value
  pub slice : ArrayRef → ℕ → ℕ → ArrayRef
  pub concat_arrays : List ArrayRef → Option ArrayRef
  pub num_rows : RecordBatch → ℕ
  pub columns : RecordBatch → List ArrayRef
  pub try_new : List Field → List ArrayRef → Option RecordBatch
  pub filter_record_batch : RecordBatch → List Bool → Option RecordBatch
  -- an array of the field's data type, with no null where the field allows none
  pub Fits : Field → ArrayRef → Type 0

-- The values whose bit of the mask is set.
abbrev pub kept_values {ℓ} : {A : Type ℓ} → List Bool → List A → List A
kept_values [] xs = []
kept_values (bit ∷ mask) [] = []
kept_values (bit ∷ mask) (x ∷ xs) = let rest = kept_values mask xs in if bit then x ∷ rest else rest

-- One array per field, each fitting its field.
abbrev pub FitAll : (a : Arrow) → List a.Field → List a.ArrayRef → Type 0
FitAll a [] [] = Unit
FitAll a (f ∷ fs) (c ∷ cs) = a.Fits f c × FitAll a fs cs
FitAll a [] (c ∷ cs) = ⊥
FitAll a (f ∷ fs) [] = ⊥

pub record IsLawful (a : Arrow) : Type 0 where
  pub values-slice :
      (c : a.ArrayRef) (offset count : ℕ)
      → offset + count ≤ length (a.values c)
      → a.values (a.slice c offset count) ≡ take count (drop offset (a.values c))
  pub Fits-slice :
      (f : a.Field) (c : a.ArrayRef) (offset count : ℕ)
      → offset + count ≤ length (a.values c)
      → a.Fits f c
      → a.Fits f (a.slice c offset count)
  pub concat-ok :
      (f : a.Field) (cs : List a.ArrayRef)
      → cs ≢ []
      → All (a.Fits f) cs
      → (c : a.ArrayRef) × (a.concat_arrays cs ≡ some c)
        × a.Fits f c
        × (a.values c ≡ concat (map a.values cs))
  pub try_new-ok :
      (fs : List a.Field) (cs : List a.ArrayRef) (n : ℕ)
      → cs ≢ []
      → FitAll a fs cs
      → All (λ c. length (a.values c) ≡ n) cs
      → (b : a.RecordBatch) × (a.try_new fs cs ≡ some b) × (a.columns b ≡ cs) × (a.num_rows b ≡ n)
  pub filter-ok :
      (b : a.RecordBatch) (mask : List Bool)
      → length mask ≡ a.num_rows b
      → (kept : a.RecordBatch) × (a.filter_record_batch b mask ≡ some kept)
        × (map a.values (a.columns kept) ≡ map (λ c. kept_values mask (a.values c)) (a.columns b))

-- `values[i]` is a single-row array for column `i`, or nothing.
pub record RowOverride (X : Type 0) : Type 0 where
  pub values : List (Option X)

pub record BlobEdits (X : Type 0) : Type 0 where
  -- a `RoaringBitmap`, by its elements
  pub deletes : List ℕ
  pub updates : List (ℕ × RowOverride X)

-- `BlobEdits::default()`
abbrev pub no_edits : (X : Type 0) → BlobEdits X
no_edits X = record { deletes = []; updates = [] }

-- `o.values.get(col_idx).and_then(|v| v.as_ref())`
unfoldable pub override_at : {X : Type 0} → RowOverride X → ℕ → Option X
override_at ovr col_idx = elim (get_elem? ovr.values col_idx) [ none ↦ none | some value ↦ value ]

-- `edits.updates.get(abs)`, and the override of the column there
unfoldable pub replacement : {X : Type 0} → List (ℕ × RowOverride X) → ℕ → ℕ → Option X
replacement updates col_idx row = elim (lookup row updates) [
  | none ↦ none
  | some ovr ↦ override_at ovr col_idx
]

abbrev pub is_some {ℓ} : {A : Type ℓ} → Option A → Bool
is_some none = false
is_some (some x) = true

-- `map_err(FdwError::Arrow)`
abbrev pub or_arrow {ℓ} : {A : Type ℓ} → Option A → FdwResult A
or_arrow none = err arrow
or_arrow (some x) = ok x

-- `builder.set_bit(local, false)`
abbrev pub clear_bit : ℕ → List Bool → List Bool
clear_bit i [] = []
clear_bit zero (bit ∷ mask) = false ∷ mask
clear_bit (suc i) (bit ∷ mask) = bit ∷ clear_bit i mask

-- `builder.append_n(n, true)`
abbrev pub append_n : ℕ → List Bool
append_n zero = []
append_n (suc n) = true ∷ append_n n

-- The loop over the deleted rows of a batch.
unfoldable pub clear_deleted : ℕ → List ℕ → List Bool → List Bool
clear_deleted base_offset [] mask = mask
clear_deleted base_offset (row ∷ rows) mask =
    clear_deleted base_offset rows (clear_bit (row - base_offset) mask)

module _ (a : Arrow) where
  -- The loop over `hits`: the pieces from the local row `cursor` on.
  unfoldable pub splice :
      a.ArrayRef
      → ℕ
      → ℕ
      → List (ℕ × RowOverride a.ArrayRef)
      → ℕ
      → List ℕ
      → ℕ
      → FdwResult (List a.ArrayRef)
  splice col n base_offset updates col_idx [] cursor =
      ok (if ltb cursor n then a.slice col cursor (n - cursor) ∷ [] else [])
  splice col n base_offset updates col_idx (row ∷ hits) cursor = do
    let local = row - base_offset
    let before = if ltb cursor local then a.slice col cursor (local - cursor) ∷ [] else []
    let rest = splice col n base_offset updates col_idx hits (local + 1)
    elim (replacement updates col_idx row) [
      | none ↦ do pieces ← rest; ok (before ++ a.slice col local 1 ∷ pieces)
      | some value ↦
          if length (a.values value) == 1
          then (do pieces ← rest; ok (before ++ value ∷ pieces))
          else err schema_mismatch
    ]

  -- The body of the loop over the columns.
  unfoldable pub edit_column :
      ℕ → ℕ → List (ℕ × RowOverride a.ArrayRef) → List ℕ → ℕ → a.ArrayRef → FdwResult a.ArrayRef
  edit_column n base_offset updates hits col_idx col =
      if any (λ row. is_some (replacement updates col_idx row)) hits
      then (do
        pieces ← splice col n base_offset updates col_idx hits 0
        or_arrow (a.concat_arrays pieces))
      else ok col

  unfoldable pub edit_columns :
      ℕ
      → ℕ
      → List (ℕ × RowOverride a.ArrayRef)
      → List ℕ
      → ℕ
      → List a.ArrayRef
      → FdwResult (List a.ArrayRef)
  edit_columns n base_offset updates hits col_idx [] = ok []
  edit_columns n base_offset updates hits col_idx (col ∷ cols) = do
    edited ← edit_column n base_offset updates hits col_idx col
    others ← edit_columns n base_offset updates hits (col_idx + 1) cols
    ok (edited ∷ others)

  -- Column overrides for the rows from `base_offset` to before `base_offset + n`.
  unfoldable pub override_columns :
      ℕ → ℕ → List (ℕ × RowOverride a.ArrayRef) → List a.ArrayRef → FdwResult (List a.ArrayRef)
  override_columns n base_offset updates cols = if is_empty updates then ok cols else do
    let hits = range base_offset (base_offset + n) (keys updates)
    if is_empty hits
        then ok cols
        else edit_columns n base_offset updates (sort_unstable hits) 0 cols

  -- The deletes of the batch's rows. `as u32` wraps, and the end is clamped to `u32::MAX`.
  unfoldable pub drop_deleted : ℕ → ℕ → List ℕ → a.RecordBatch → FdwResult a.RecordBatch
  drop_deleted n base_offset deletes updated =
      let deleted = range (base_offset % 2 ^ 32) (min (base_offset + n) (2 ^ 32 - 1)) deletes in
      if is_empty deleted
      then ok updated
      else or_arrow (a.filter_record_batch updated (clear_deleted base_offset deleted (append_n n)))

  unfoldable pub apply_edits_batch :
      a.RecordBatch → ℕ → List a.Field → BlobEdits a.ArrayRef → FdwResult a.RecordBatch
  apply_edits_batch batch base_offset schema edits = do
    cols ← override_columns (a.num_rows batch) base_offset edits.updates (a.columns batch)
    updated ← or_arrow (a.try_new schema cols)
    drop_deleted (a.num_rows batch) base_offset edits.deletes updated

  -- The loop of `apply_edits`, from the row `offset` on.
  unfoldable pub apply_edits_from :
      ℕ → List a.RecordBatch → List a.Field → BlobEdits a.ArrayRef → FdwResult (List a.RecordBatch)
  apply_edits_from offset [] schema edits = ok []
  apply_edits_from offset (batch ∷ input) schema edits = do
    first ← apply_edits_batch batch offset schema edits
    rest ← apply_edits_from (offset + a.num_rows batch) input schema edits
    ok (first ∷ rest)

  unfoldable pub apply_edits :
      List a.RecordBatch → List a.Field → BlobEdits a.ArrayRef → FdwResult (List a.RecordBatch)
  apply_edits input schema edits = apply_edits_from 0 input schema edits

-- ===== src/Modify/Kernel/Stream.antt =====
-- The rewrite of a blob batch by batch (`apply_edits`, src/fdw/modify/kernel.rs), against that of
-- the whole blob row by row.
use parquet_azure_fdw.Prelude.{
  ℕ, zero, suc, ◌+◌, ◌^◌, ◌<◌, ◌≡◌, refl, sym, ap, ap₂, ◌∙◌, arith, List, [], ◌∷◌, ◌++◌, length,
  map, All,
}
use parquet_azure_fdw.Error.{ok}
use parquet_azure_fdw.Modify.Kernel.{
  Arrow, IsLawful, FitAll, BlobEdits, apply_edits, apply_edits_from,
}
use parquet_azure_fdw.Modify.Kernel.Rows.{edited, edited-append}
use parquet_azure_fdw.Modify.Kernel.Laws.{
  IsBatch, IsEdits, edited_columns, apply_edits_batch-edited,
}

-- The column `c`, with no row where there is none.
abbrev nth_column {ℓ} : {A : Type ℓ} → List (List A) → ℕ → List A
nth_column [] c = []
nth_column (vs ∷ vss) zero = vs
nth_column (vs ∷ vss) (suc c) = nth_column vss c

module _ (a : Arrow) where
  -- The values of the column `c` in all of the batches.
  unfoldable pub column_values : ℕ → List a.RecordBatch → List a.Value
  column_values c [] = []
  column_values c (batch ∷ input) =
      nth_column (map a.values (a.columns batch)) c ++ column_values c input

  unfoldable pub total_rows : List a.RecordBatch → ℕ
  total_rows [] = 0
  total_rows (batch ∷ input) = a.num_rows batch + total_rows input

  nth_column-edited :
      (edits : BlobEdits a.ArrayRef) (row k c : ℕ) (vss : List (List a.Value))
      → nth_column (edited_columns a edits row k vss) c
        ≡ edited a edits (k + c) row (nth_column vss c)
  unfolding edited_columns edited
  nth_column-edited edits row k c [] = refl
  nth_column-edited edits row k zero (vs ∷ vss) = ap (λ i. edited a edits i row vs) (omega arith)
  nth_column-edited edits row k (suc c) (vs ∷ vss) =
      nth_column-edited edits row (k + 1) c vss
      ∙ ap (λ i. edited a edits i row (nth_column vss c)) (omega arith)

  nth_column-length :
      (n c : ℕ) (fs : List a.Field) (cols : List a.ArrayRef)
      → FitAll a fs cols
      → All (λ col. length (a.values col) ≡ n) cols
      → c < length fs
      → length (nth_column (map a.values cols) c) ≡ n
  nth_column-length n zero (f ∷ fs) (col ∷ cols) fit (size, sizes) h = size
  nth_column-length n (suc c) (f ∷ fs) (col ∷ cols) (fit, fits) (size, sizes) h =
      nth_column-length n c fs cols fits sizes (omega arith)
  nth_column-length n c [] cols fit sizes h = absurd (omega (arith, h))
  nth_column-length n c (f ∷ fs) [] fit sizes h = absurd fit

module _ (a : Arrow) (lawful : IsLawful a) (schema : List a.Field) (edits : BlobEdits a.ArrayRef)
    (valid : IsEdits a schema edits) (c : ℕ) (within : c < length schema) where
  apply_edits_from-edited :
      (offset : ℕ) (input : List a.RecordBatch)
      → All (IsBatch a schema) input
      → offset + total_rows a input < 2 ^ 32
      → (outs : List a.RecordBatch) × (apply_edits_from a offset input schema edits ≡ ok outs)
        × (column_values a c outs ≡ edited a edits c offset (column_values a c input))
  unfolding apply_edits_from column_values total_rows edited
  apply_edits_from-edited offset [] batches small = ([], refl, refl)
  apply_edits_from-edited offset (batch ∷ input) (is_batch, batches) small =
      let vs = nth_column (map a.values (a.columns batch)) c in
      let (out, rewritten, values_out) =
        apply_edits_batch-edited a lawful schema edits valid offset batch is_batch (omega arith) in
      let (outs, rest, values_outs) =
        apply_edits_from-edited (offset + a.num_rows batch) input batches (omega arith) in
      (
        out ∷ outs,
        rw (apply_edits_from, rewritten, rest) refl,
        ap₂ (λ xs ys. xs ++ ys)
              (ap (λ vss. nth_column vss c) values_out
                ∙ nth_column-edited a edits offset 0 c (map a.values (a.columns batch))
                ∙ ap (λ i. edited a edits i offset vs) (omega arith))
              values_outs
            ∙ ap
                (λ n.
                  edited a edits c offset vs
                  ++ edited a edits c (offset + n) (column_values a c input))
                (sym (
                  nth_column-length a _ c schema (a.columns batch) is_batch.fit is_batch.sizes
                    within))
            ∙ sym (edited-append a edits c offset vs (column_values a c input)),
      )

  -- The rewrite of a blob of fewer than 2^32 rows succeeds, for batches that fit the schema and
  -- edits with one override per row and overrides of one fitting value: a column of all of the
  -- batches has, in order, the values of the blob's rows that are not deleted, with the override's
  -- value where a row has one for the column.
  pub apply_edits-edited :
      (input : List a.RecordBatch)
      → All (IsBatch a schema) input
      → total_rows a input < 2 ^ 32
      → (outs : List a.RecordBatch) × (apply_edits a input schema edits ≡ ok outs)
        × (column_values a c outs ≡ edited a edits c 0 (column_values a c input))
  unfolding apply_edits
  apply_edits-edited input batches small = apply_edits_from-edited 0 input batches (omega arith)

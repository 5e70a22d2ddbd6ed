-- ===== src/Modify/Kernel/Laws.antt =====
-- The rewrite of a blob (src/fdw/modify/kernel.rs) against its description row by row.
use parquet_azure_fdw.Prelude.{
  ℕ, ◌+◌, ◌-◌, ◌%◌, ◌^◌, ◌≤◌, ◌<◌, ◌≡◌, ◌≢◌, refl, sym, ap, ap₂, ◌∙◌, subst, arith, Bool, not, List,
  [], ◌∷◌, none, min, length, contains_key, map, All, Bool-cases, inl, inr, keys, range,
  sort_unstable, Once, contains_key-range, contains_key-sort_unstable, Ascending-sort_unstable,
  All-range, Once-range, lookup-keys, is_empty,
}
use parquet_azure_fdw.Error.{ok}
use parquet_azure_fdw.Modify.Kernel.{
  Arrow, IsLawful, FitAll, BlobEdits, replacement, override_columns, or_arrow, drop_deleted,
  apply_edits_batch, clear_deleted, append_n, kept_values,
}
use parquet_azure_fdw.Modify.Kernel.Lists.{
  All-bound, All-sort_unstable, sort_empty, no_hits, map-map, kept_every, clear_none, All-mapped,
  head_eq, tail_eq,
}
use parquet_azure_fdw.Modify.Kernel.Rows.{
  overridden, overridden-none, length-overridden, edited, kept_values-overridden,
}
use parquet_azure_fdw.Modify.Kernel.Columns.{
  IsHits, edit_columns-Edited, overridden_columns, OverrideFits, Single, replacement-Single,
}
use parquet_azure_fdw.Modify.Kernel.Masks.{
  mask_of, mask_of-ext, clear_deleted-append_n, length-mask_of,
}

-- The columns of a batch as the edits leave them, the column `c` first, from the row `row` on.
unfoldable pub edited_columns :
    (a : Arrow) → BlobEdits a.ArrayRef → ℕ → ℕ → List (List a.Value) → List (List a.Value)
edited_columns a edits row c [] = []
edited_columns a edits row c (vs ∷ vss) =
    edited a edits c row vs ∷ edited_columns a edits row (c + 1) vss

-- A batch of at least one column, each as long as the batch and fitting the schema.
pub record IsBatch (a : Arrow) (schema : List a.Field) (batch : a.RecordBatch) : Type 0 where
  pub some_column : a.columns batch ≢ []
  pub fit : FitAll a schema (a.columns batch)
  pub sizes : All (λ col. length (a.values col) ≡ a.num_rows batch) (a.columns batch)

-- One override per row, of one value for each column it changes.
pub record IsEdits (a : Arrow) (schema : List a.Field) (edits : BlobEdits a.ArrayRef) : Type 0 where
  pub rows_once : Once (keys edits.updates)
  pub overrides_fit : All (λ entry. OverrideFits a schema entry.1.values) edits.updates

module _ (a : Arrow) (lawful : IsLawful a) (schema : List a.Field) (edits : BlobEdits a.ArrayRef)
    (valid : IsEdits a schema edits) where
  hits-IsHits :
      (base n : ℕ)
      → IsHits a lawful edits.updates base n
          (sort_unstable (range base (base + n) (keys edits.updates)))
  unfolding replacement
  hits-IsHits base n =
      let ks = keys edits.updates in
      let within = All-range base (base + n) ks in
      record {
        order =
            Ascending-sort_unstable base _ (Once-range base (base + n) ks valid.rows_once)
              (All-bound _ _ _ (λ k h. h.0) within);
        bound = All-sort_unstable _ _ (All-bound _ _ _ (λ k h. h.1) within);
        complete = λ c k low high miss.
            rw
              (
                replacement,
                lookup-keys k edits.updates (
                    ground (
                      arith,
                      contains_key-sort_unstable k (range base (base + n) ks),
                      contains_key-range base (base + n) k ks,
                    )),
              )
              refl;
      }

  unchanged :
      (base n c : ℕ) (cols : List a.ArrayRef)
      → All (λ col. length (a.values col) ≡ n) cols
      → ((i k : ℕ) → base ≤ k → k < base + n → replacement edits.updates i k ≡ none)
      → overridden_columns a edits.updates base c (map a.values cols) ≡ map a.values cols
  unfolding overridden_columns
  unchanged base n c [] sizes h = refl
  unchanged base n c (col ∷ cols) (size, sizes) h =
      ap₂ (λ v vs. v ∷ vs)
        (overridden-none a edits.updates c base (a.values col)
          λ k low high. h c k low (omega (arith, size)))
        (unchanged base n (c + 1) cols sizes h)

  override_columns-Overridden :
      (base n : ℕ) (cols : List a.ArrayRef)
      → FitAll a schema cols
      → All (λ col. length (a.values col) ≡ n) cols
      → (written : List a.ArrayRef) × (override_columns a n base edits.updates cols ≡ ok written)
        × FitAll a schema written
        × (map a.values written ≡ overridden_columns a edits.updates base 0 (map a.values cols))
  unfolding override_columns
  override_columns-Overridden base n cols fit sizes =
      let hits = range base (base + n) (keys edits.updates) in
      let h = hits-IsHits base n in
      elim (Bool-cases (is_empty edits.updates)) [
        | inl e ↦
            rw (e, override_columns)
              (
                cols,
                refl,
                fit,
                sym (
                    unchanged base n 0 cols sizes
                      λ i k low high. h.complete i k low high (no_hits base n edits.updates k e)),
              )
        | inr e ↦ elim (Bool-cases (is_empty hits)) [
          | inl none_hit ↦
              rw (e, none_hit, override_columns)
                (
                  cols,
                  refl,
                  fit,
                  sym (
                      unchanged base n 0 cols sizes
                        λ i k low high. h.complete i k low high (sort_empty k hits none_hit)),
                )
          | inr some_hit ↦
              rw (e, some_hit, override_columns)
                (edit_columns-Edited a lawful edits.updates base n (sort_unstable hits) schema 0
                  cols h fit sizes
                  λ i f found.
                    subst (λ j. Single a f edits.updates j) {x = i} (omega arith)
                      (replacement-Single a schema i f edits.updates valid.overrides_fit found))
        ]
      ]

  -- Every row of a batch of `n` rows from `base` on, less the deleted ones.
  abbrev mask : ℕ → ℕ → List Bool
  mask base n = mask_of (λ k. not (contains_key k edits.deletes)) base n

  kept-edited :
      (base n c : ℕ) (vss : List (List a.Value))
      → All (λ vs. length vs ≡ n) vss
      → map (kept_values (mask base n)) (overridden_columns a edits.updates base c vss)
        ≡ edited_columns a edits base c vss
  unfolding overridden_columns edited_columns
  kept-edited base n c [] h = refl
  kept-edited base n c (vs ∷ vss) (size, sizes) =
      ap₂ (λ v rest. v ∷ rest)
        (ap (λ m. kept_values (mask base m) (overridden a edits.updates c base vs)) (sym size)
          ∙ kept_values-overridden a edits c base vs)
        (kept-edited base n (c + 1) vss sizes)

  deleted-mask :
      (base n : ℕ)
      → clear_deleted base (range base (base + n) edits.deletes) (append_n n) ≡ mask base n
  deleted-mask base n =
      clear_deleted-append_n base n _ (All-range base (base + n) edits.deletes)
      ∙ mask_of-ext _ _ base n
          λ k low high. ground (arith, contains_key-range base (base + n) k edits.deletes)

  drop_deleted-Kept :
      (base n : ℕ) (updated : a.RecordBatch)
      → a.num_rows updated ≡ n
      → base + n < 2 ^ 32
      → All (λ col. length (a.values col) ≡ n) (a.columns updated)
      → (kept : a.RecordBatch) × (drop_deleted a n base edits.deletes updated ≡ ok kept)
        × (map a.values (a.columns kept)
            ≡ map (kept_values (mask base n)) (map a.values (a.columns updated)))
  unfolding drop_deleted
  drop_deleted-Kept base n updated rows small sizes =
      let deleted = range base (base + n) edits.deletes in
      let low : base % 2 ^ 32 ≡ base = omega arith in
      let high : min (base + n) (2 ^ 32 - 1) ≡ base + n = omega arith in
      rw (low, high, drop_deleted)
        (elim (Bool-cases (is_empty deleted)) [
          | inl e ↦ rw e (
            updated,
            refl,
            kept_every n (map a.values (a.columns updated))
                  (All-mapped (λ vs. length vs ≡ n) a.values (a.columns updated) sizes)
                ∙ ap (λ m. map (kept_values m) (map a.values (a.columns updated)))
                    (sym (clear_none base deleted (append_n n) e) ∙ deleted-mask base n),
          )
          | inr e ↦
              let (kept, filtered, written) =
                lawful.filter-ok updated (clear_deleted base deleted (append_n n))
                  (ap length (deleted-mask base n) ∙ length-mask_of _ base n ∙ sym rows) in
              rw e (
                kept,
                ap or_arrow filtered,
                written
                    ∙ map-map (kept_values (clear_deleted base deleted (append_n n))) a.values
                        (a.columns updated)
                    ∙ ap (λ m. map (kept_values m) (map a.values (a.columns updated)))
                        (deleted-mask base n),
              )
        ])

  written-sizes :
      (base n c : ℕ) (cols written : List a.ArrayRef)
      → map a.values written ≡ overridden_columns a edits.updates base c (map a.values cols)
      → All (λ col. length (a.values col) ≡ n) cols
      → All (λ col. length (a.values col) ≡ n) written
  unfolding overridden_columns
  written-sizes base n c cols [] e sizes = tt
  written-sizes base n c (col ∷ cols) (w ∷ written) e (size, sizes) = (
    ap length (head_eq e) ∙ length-overridden a edits.updates c base (a.values col) ∙ size,
    written-sizes base n (c + 1) cols written (tail_eq e) sizes,
  )
  written-sizes base n c [] (w ∷ written) e sizes = cc

  some_written :
      (base : ℕ) (cols written : List a.ArrayRef)
      → map a.values written ≡ overridden_columns a edits.updates base 0 (map a.values cols)
      → cols ≢ []
      → written ≢ []
  unfolding overridden_columns
  some_written base [] written e h = absurd (h refl)
  some_written base (col ∷ cols) [] e h = cc
  some_written base (col ∷ cols) (w ∷ written) e h = λ none_left. cc

  -- The rewrite of a batch whose rows lie below 2^32 succeeds, for edits with one override per row
  -- and overrides of one fitting value: each column of the result has, in order, the values of the
  -- rows that are not deleted, with the override's value where a row has one for the column.
  pub apply_edits_batch-edited :
      (base : ℕ) (batch : a.RecordBatch)
      → IsBatch a schema batch
      → base + a.num_rows batch < 2 ^ 32
      → (out : a.RecordBatch) × (apply_edits_batch a batch base schema edits ≡ ok out)
        × (map a.values (a.columns out)
            ≡ edited_columns a edits base 0 (map a.values (a.columns batch)))
  unfolding apply_edits_batch
  apply_edits_batch-edited base batch h small =
      let n = a.num_rows batch in
      let cols = a.columns batch in
      let (written, overrode, fit, values_written) =
        override_columns-Overridden base n cols h.fit h.sizes in
      let sizes = written-sizes base n 0 cols written values_written h.sizes in
      let (updated, built, columns_updated, rows_updated) =
        lawful.try_new-ok schema written n
          (some_written base cols written values_written h.some_column) fit sizes in
      let (out, dropped, values_out) =
        drop_deleted-Kept base n updated rows_updated small
          (subst (λ cs. All (λ col. length (a.values col) ≡ n) cs) (sym columns_updated) sizes) in
      (
        out,
        rw (apply_edits_batch, overrode, built) dropped,
        values_out
            ∙ ap (λ cs. map (kept_values (mask base n)) (map a.values cs)) columns_updated
            ∙ ap (map (kept_values (mask base n))) values_written
            ∙ kept-edited base n 0 (map a.values cols)
                (All-mapped (λ vs. length vs ≡ n) a.values cols h.sizes),
      )

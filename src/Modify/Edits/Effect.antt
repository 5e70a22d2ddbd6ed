-- ===== src/Modify/Edits/Effect.antt =====
-- What recording an edit changes (src/fdw/modify/update.rs): the one row that the ctid stands for.
use parquet_azure_fdw.Prelude.{
  ℕ, ◌^◌, ◌%◌, ◌<◌, ◌≡◌, refl, ap, ◌∙◌, arith, Bool, ◌||◌, ◌&&◌, List, Option, some, ◌==◌,
  if◌then◌else◌, lookup, insert, lookup-insert, contains_key, Bool-cases, inl, inr, suc,
}
use parquet_azure_fdw.Error.{ok}
use parquet_azure_fdw.Modify.RowId.{RowId}
use parquet_azure_fdw.Modify.BlobTable.{resolve_to_source}
use parquet_azure_fdw.Modify.Kernel.{RowOverride, BlobEdits}
use parquet_azure_fdw.Modify.Edits.{
  ModifyPlan, max_edits_per_statement, edits_of, check_edit_budget, record_delete, record_update,
  insert_row, saturating_add,
}

contains_key-insert_row :
    (j k : ℕ) (rows : List ℕ) → contains_key k (insert_row j rows) ≡ (j == k || contains_key k rows)
contains_key-insert_row j k rows = ground arith

module _ {X : Type 0} where
  -- Is the row of the blob to be deleted?
  unfoldable pub is_deleted : ModifyPlan X → ℕ → ℕ → Bool
  is_deleted plan base row = let entry = edits_of plan.edits base in contains_key row entry.deletes

  -- The override of the row of the blob.
  unfoldable pub override_of : ModifyPlan X → ℕ → ℕ → Option (RowOverride X)
  override_of plan base row = let entry = edits_of plan.edits base in lookup row entry.updates

  edits_of-insert :
      (edits : List (ℕ × BlobEdits X)) (base k : ℕ) (entry : BlobEdits X)
      → edits_of (insert base entry edits) k ≡ (if base == k then entry else edits_of edits k)
  edits_of-insert edits base k entry = ground (arith, lookup-insert base k entry edits)

  -- A delete is recorded when the budget is not used up and the ctid resolves to a row below 2^32 of
  -- a blob: then exactly that row of that blob becomes deleted, no override changes, and one more
  -- edit is counted.
  pub record_delete-is_deleted :
      (plan : ModifyPlan X) (rid : RowId) (base row k r : ℕ)
      → plan.edit_count < max_edits_per_statement
      → resolve_to_source plan.blob_table rid ≡ ok (base, row)
      → row < 2 ^ 32
      → (after : ModifyPlan X) × (record_delete plan rid ≡ ok after)
        × (is_deleted after k r ≡ (base == k && row == r || is_deleted plan k r))
        × (override_of after k r ≡ override_of plan k r)
        × (after.edit_count ≡ suc plan.edit_count)
  unfolding record_delete check_edit_budget is_deleted override_of
  record_delete-is_deleted plan rid base row k r budget resolved small =
      let entry = edits_of plan.edits base in
      let edited = record entry { deletes = insert_row (row % 2 ^ 32) entry.deletes } in
      let low : row % 2 ^ 32 ≡ row = omega arith in
      (
        record plan {
          edits = insert base edited plan.edits;
          edit_count = saturating_add plan.edit_count 1;
        },
        rw (resolved, record_delete) (ground arith),
        rw (edits_of-insert plan.edits base k edited, is_deleted)
            (elim (Bool-cases (base == k)) [
              | inl e ↦
                  let same : base ≡ k = ground arith in
                  rw (e, low)
                    (contains_key-insert_row row r entry.deletes
                      ∙ ap (λ b. row == r || contains_key r (edits_of plan.edits b).deletes) same)
              | inr e ↦ rw e refl
            ]),
        rw (edits_of-insert plan.edits base k edited, override_of)
            (elim (Bool-cases (base == k)) [
              | inl e ↦
                  let same : base ≡ k = ground arith in
                  rw e (ap (λ b. lookup r (edits_of plan.edits b).updates) same)
              | inr e ↦ rw e refl
            ]),
        omega arith,
      )

  -- An update is recorded when the budget is not used up and the ctid resolves to a row of a blob:
  -- then exactly that row of that blob has the new override, no delete changes, and one more edit
  -- is counted.
  pub record_update-override_of :
      (plan : ModifyPlan X) (rid : RowId) (ovr : RowOverride X) (base row k r : ℕ)
      → plan.edit_count < max_edits_per_statement
      → resolve_to_source plan.blob_table rid ≡ ok (base, row)
      → (after : ModifyPlan X) × (record_update plan rid ovr ≡ ok after)
        × (override_of after k r
            ≡ (if base == k && row == r then some ovr else override_of plan k r))
        × (is_deleted after k r ≡ is_deleted plan k r)
        × (after.edit_count ≡ suc plan.edit_count)
  unfolding record_update check_edit_budget is_deleted override_of
  record_update-override_of plan rid ovr base row k r budget resolved =
      let entry = edits_of plan.edits base in
      let edited = record entry { updates = insert row ovr entry.updates } in
      (
        record plan {
          edits = insert base edited plan.edits;
          edit_count = saturating_add plan.edit_count 1;
        },
        rw (resolved, record_update) (ground arith),
        rw (edits_of-insert plan.edits base k edited, override_of)
            (elim (Bool-cases (base == k)) [
              | inl e ↦
                  let same : base ≡ k = ground arith in
                  rw e (
                    lookup-insert row r ovr entry.updates
                    ∙ ap
                        (λ b.
                          if row == r then some ovr else lookup r (edits_of plan.edits b).updates)
                        same)
              | inr e ↦ rw e refl
            ]),
        rw (edits_of-insert plan.edits base k edited, is_deleted)
            (elim (Bool-cases (base == k)) [
              | inl e ↦
                  let same : base ≡ k = ground arith in
                  rw e (ap (λ b. contains_key r (edits_of plan.edits b).deletes) same)
              | inr e ↦ rw e refl
            ]),
        omega arith,
      )

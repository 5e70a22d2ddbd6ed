-- ===== src/Modify/Edits.antt =====
-- src/fdw/modify/update.rs: the edits of a statement, as ExecForeignUpdate and ExecForeignDelete
-- gather them.
pub mod Effect
pub mod Entries
pub mod Budget
use parquet_azure_fdw.Prelude.{
  ℕ, zero, suc, ◌+◌, ◌-◌, ◌^◌, ◌%◌, min, Bool, true, false, List, [], ◌∷◌, Option, none, some, ltb,
  leb, ◌==◌, if◌then◌else◌, any, lookup, insert, contains_key, length, Bytes, codes,
}
use parquet_azure_fdw.Error.{FdwResult, ok, err, schema_mismatch, ◌>>=◌, ensure}
use parquet_azure_fdw.Modify.RowId.{RowId}
use parquet_azure_fdw.Modify.BlobTable.{BlobIdEntry, resolve_to_source}
use parquet_azure_fdw.Modify.Kernel.{RowOverride, BlobEdits, no_edits}

abbrev pub max_edits_per_statement : ℕ
max_edits_per_statement = 10000000

-- The fields that the edits depend on; `ncols` is `schema.fields().len()`.
pub record ModifyPlan (X : Type 0) : Type 0 where
  pub blob_table : List BlobIdEntry
  pub edits : List (ℕ × BlobEdits X)
  pub ncols : ℕ
  pub update_attnums : List ℕ
  pub edit_count : ℕ

-- `usize::saturating_add`
abbrev pub saturating_add : ℕ → ℕ → ℕ
saturating_add a b = min (a + b) (2 ^ 64 - 1)

-- `RoaringBitmap::insert`
abbrev pub insert_row : ℕ → List ℕ → List ℕ
insert_row row rows = if contains_key row rows then rows else row ∷ rows

-- The loop of `reject_partition_update`.
unfoldable pub reject_partition_update : List ℕ → List ℕ → FdwResult (Unit {0})
reject_partition_update [] partition_attnums = ok tt
reject_partition_update (col ∷ cols) partition_attnums =
    if contains_key col partition_attnums
    then err schema_mismatch
    else reject_partition_update cols partition_attnums

module _ {X : Type 0} where
  -- `plan.edits.entry(base_id).or_default()`
  abbrev pub edits_of : List (ℕ × BlobEdits X) → ℕ → BlobEdits X
  edits_of edits base_id = elim (lookup base_id edits) [ none ↦ no_edits X | some entry ↦ entry ]

  unfoldable pub check_edit_budget : ModifyPlan X → FdwResult (Unit {0})
  check_edit_budget plan =
      if leb max_edits_per_statement plan.edit_count then err schema_mismatch else ok tt

  unfoldable pub record_delete : ModifyPlan X → RowId → FdwResult (ModifyPlan X)
  record_delete plan rid = do
    allowed ← check_edit_budget plan
    (base_id, abs_row) ← resolve_to_source plan.blob_table rid
    let entry = edits_of plan.edits base_id
    -- `abs_row as u32`
    let edited = record entry { deletes = insert_row (abs_row % 2 ^ 32) entry.deletes }
    ok (record plan {
      edits = insert base_id edited plan.edits;
      edit_count = saturating_add plan.edit_count 1;
    })

  unfoldable pub record_update : ModifyPlan X → RowId → RowOverride X → FdwResult (ModifyPlan X)
  record_update plan rid ovr = do
    allowed ← check_edit_budget plan
    (base_id, abs_row) ← resolve_to_source plan.blob_table rid
    let entry = edits_of plan.edits base_id
    let edited = record entry { updates = insert abs_row ovr entry.updates }
    ok (record plan {
      edits = insert base_id edited plan.edits;
      edit_count = saturating_add plan.edit_count 1;
    })

  -- `vec![None; ncols]`
  abbrev pub no_values : ℕ → List (Option X)
  no_values zero = []
  no_values (suc n) = none ∷ no_values n

  -- `values[col] = Some(one)`
  abbrev pub set_value : ℕ → X → List (Option X) → List (Option X)
  set_value col one [] = []
  set_value zero one (v ∷ values) = some one ∷ values
  set_value (suc col) one (v ∷ values) = v ∷ set_value col one values

  -- The loop over `update_attnums`. `datum_to_single_row_array` builds arrow's array of one row
  -- from the slot's value of the column.
  module _ (datum_to_single_row_array : ℕ → FdwResult X) where
    unfoldable pub override_values : ℕ → List ℕ → List (Option X) → FdwResult (List (Option X))
    override_values ncols [] values = ok values
    override_values ncols (col ∷ cols) values = do
      within ← ensure schema_mismatch (ltb col ncols)
      one ← datum_to_single_row_array col
      override_values ncols cols (set_value col one values)

    -- `read_ctid_via_junk` reads the ctid of the row from Postgres' slot.
    unfoldable pub exec_foreign_update : FdwResult RowId → ModifyPlan X → FdwResult (ModifyPlan X)
    exec_foreign_update read_ctid_via_junk plan = do
      rid ← read_ctid_via_junk
      values ← override_values plan.ncols plan.update_attnums (no_values plan.ncols)
      record_update plan rid (record { values = values })

  unfoldable pub exec_foreign_delete : FdwResult RowId → ModifyPlan X → FdwResult (ModifyPlan X)
  exec_foreign_delete read_ctid_via_junk plan = do rid ← read_ctid_via_junk; record_delete plan rid

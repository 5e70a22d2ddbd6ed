-- ===== src/Tests/Gathering.antt =====
-- The edits of a statement (src/fdw/modify/update.rs) at concrete inputs.
use parquet_azure_fdw.Prelude.{
  ℕ, ◌≡◌, refl, arith, ◌&&◌, ◌||◌, List, [], ◌∷◌, none, some, ◌==◌, codes, get_elem?, length,
  if◌then◌else◌,
}
use parquet_azure_fdw.Error.{FdwResult, ok}
use parquet_azure_fdw.Modify.RowId.{RowId}
use parquet_azure_fdw.Modify.BlobTable.{BlobIdEntry, resolve_to_source, walk_back}
use parquet_azure_fdw.Modify.Kernel.{RowOverride}
use parquet_azure_fdw.Modify.Edits.{
  ModifyPlan, record_delete, record_update, exec_foreign_update, exec_foreign_delete,
  check_edit_budget, override_values,
}
use parquet_azure_fdw.Modify.Edits.Effect.{
  is_deleted, override_of, record_delete-is_deleted, record_update-override_of,
}
use parquet_azure_fdw.Modify.Edits.Budget.{
  IsPlan, Gathered, begun, deleted, updated, gathered-IsPlan,
}
use parquet_azure_fdw.Tests.Rebuilding.{list_arrow}

-- One blob of two chunks, and another of one.
abbrev table : List BlobIdEntry
table =
    record { name = codes "a.parquet"; chunk_base_row = 0; etag = codes "e" }
    ∷ record { name = codes "a.parquet"; chunk_base_row = 65536; etag = codes "e" }
    ∷ record { name = codes "b.parquet"; chunk_base_row = 0; etag = codes "f" }
    ∷ []

abbrev fresh : ModifyPlan (List ℕ)
fresh = record {
  blob_table = table;
  edits = [];
  ncols = 2;
  update_attnums = 1 ∷ [];
  edit_count = 0;
}

abbrev rid : RowId
rid = record { blob_id = 1; offset = 5 }

rid_resolved : resolve_to_source table rid ≡ ok (0, 65541)
unfolding resolve_to_source walk_back
rid_resolved = refl

record_delete-is_deleted_example :
    (after : ModifyPlan (List ℕ)) × (record_delete fresh rid ≡ ok after)
    × (is_deleted after 0 65541 ≡ (0 == 0 && 65541 == 65541 || is_deleted fresh 0 65541))
    × (override_of after 0 65541 ≡ override_of fresh 0 65541)
    × (after.edit_count ≡ 1)
record_delete-is_deleted_example =
    record_delete-is_deleted fresh rid 0 65541 0 65541 (omega arith) rid_resolved (omega arith)

abbrev seventy : RowOverride (List ℕ)
seventy = record { values = none ∷ some (70 ∷ []) ∷ [] }

record_update-override_of_example :
    (after : ModifyPlan (List ℕ)) × (record_update fresh rid seventy ≡ ok after)
    × (override_of after 0 65541
        ≡ (if 0 == 0 && 65541 == 65541 then some seventy else override_of fresh 0 65541))
    × (is_deleted after 0 65541 ≡ is_deleted fresh 0 65541)
    × (after.edit_count ≡ 1)
record_update-override_of_example =
    record_update-override_of fresh rid seventy 0 65541 0 65541 (omega arith) rid_resolved

-- A slot holds a row id and the value of every column.
abbrev Slot : Type 0
Slot = RowId × ℕ

abbrev read_ctid : Slot → FdwResult RowId
read_ctid slot = ok slot.0

abbrev single_row : Slot → ℕ → FdwResult (List ℕ)
single_row slot col = ok (slot.1 ∷ [])

abbrev plan : ModifyPlan (List ℕ)
plan = record fresh {
  edits =
      (
        0,
        record {
          deletes = 65541 ∷ [];
          updates = (65541, record { values = none ∷ some (70 ∷ []) ∷ [] }) ∷ [];
        },
      )
      ∷ [];
  edit_count = 2;
}

abbrev between : ModifyPlan (List ℕ)
between = record fresh {
  edits = (0, record { deletes = 65541 ∷ []; updates = [] }) ∷ [];
  edit_count = 1;
}

gathered : Gathered list_arrow (0 ∷ 1 ∷ []) Slot read_ctid single_row fresh plan
unfolding exec_foreign_update exec_foreign_delete record_update record_delete check_edit_budget
    resolve_to_source walk_back override_values
gathered = updated {plan = between} (rid, 70) (deleted {plan = fresh} (rid, 0) begun refl) refl

one_fits :
    (slot : Slot) (col f : ℕ) (one : List ℕ)
    → get_elem? (0 ∷ 1 ∷ []) col ≡ some f
    → single_row slot col ≡ ok one
    → Unit {0} × (length one ≡ 1)
one_fits slot col f one found read = (tt, ground arith)

gathered-IsPlan_example : IsPlan list_arrow (0 ∷ 1 ∷ []) plan
gathered-IsPlan_example =
    gathered-IsPlan list_arrow (0 ∷ 1 ∷ []) Slot read_ctid single_row one_fits fresh plan refl refl
      refl gathered

-- ===== src/Modify/Edits/Budget.antt =====
-- The edits that a statement gathers (src/fdw/modify/update.rs), over any run of ExecForeignDelete
-- and ExecForeignUpdate.
use parquet_azure_fdw.Modify.Edits.Entries.{
  All-insert, weight, total_edits, total_edits-insert, All-edits_of, some_eq, ok_eq, length-insert,
  length-insert_row,
}
use parquet_azure_fdw.Prelude.{
  sym, ℕ, suc, ◌^◌, ◌%◌, ◌≤◌, ◌<◌, ◌≡◌, subst, arith, List, [], ◌∷◌, insert, keys, Once,
  Once-insert, length, All, some, get_elem?, ltb, zero, none, Option, refl, ap,
}
use parquet_azure_fdw.Error.{ok, >>=-ok, ensure, schema_mismatch, FdwResult}
use parquet_azure_fdw.Modify.RowId.{RowId}
use parquet_azure_fdw.Modify.BlobTable.{resolve_to_source}
use parquet_azure_fdw.Modify.Kernel.{Arrow, RowOverride, BlobEdits}
use parquet_azure_fdw.Modify.Kernel.Columns.{OverrideFits}
use parquet_azure_fdw.Modify.Kernel.Laws.{IsEdits}
use parquet_azure_fdw.Modify.Edits.{
  ModifyPlan, max_edits_per_statement, edits_of, check_edit_budget, record_delete, record_update,
  insert_row, saturating_add, set_value, no_values, override_values, exec_foreign_delete,
  exec_foreign_update,
}

-- The edits of a statement: each blob once, each of its overrides fit for the rewrite, no more
-- edits kept than counted, and no more counted than the budget.
pub record IsPlan (a : Arrow) (schema : List a.Field) (plan : ModifyPlan a.ArrayRef) : Type 0 where
  pub blobs_once : Once (keys plan.edits)
  pub edits_valid : All (λ entry. IsEdits a schema entry.1) plan.edits
  pub counted : total_edits plan.edits ≤ plan.edit_count
  pub budget : plan.edit_count ≤ max_edits_per_statement
  pub columns : plan.ncols ≡ length schema

module _ (a : Arrow) (schema : List a.Field) where
  store-IsPlan :
      (plan : ModifyPlan a.ArrayRef) (base : ℕ) (entry : BlobEdits a.ArrayRef)
      → IsPlan a schema plan
      → plan.edit_count < max_edits_per_statement
      → IsEdits a schema entry
      → weight entry ≤ suc (weight (edits_of plan.edits base))
      → IsPlan a schema (record plan {
        edits = insert base entry plan.edits;
        edit_count = saturating_add plan.edit_count 1;
      })
  store-IsPlan plan base entry h room valid small = record {
    blobs_once = Once-insert base entry plan.edits h.blobs_once;
    edits_valid = All-insert (IsEdits a schema) base entry plan.edits valid h.edits_valid;
    counted = omega (arith, total_edits-insert base entry plan.edits, h.counted, small, room);
    budget = omega (arith, room);
    columns = h.columns;
  }

  recorded-IsPlan :
      (plan after : ModifyPlan a.ArrayRef) (rid : RowId)
      → IsPlan a schema plan
      → record_delete plan rid ≡ ok after
      → IsPlan a schema after
  unfolding record_delete check_edit_budget
  recorded-IsPlan plan after rid h done =
      let (allowed, rest, checked) = >>=-ok _ (check_edit_budget plan) done in
      let ((base, row), stored, resolved) = >>=-ok _ (resolve_to_source plan.blob_table rid) rest in
      let entry = edits_of plan.edits base in
      let valid : IsEdits a schema entry =
        All-edits_of (IsEdits a schema) base plan.edits
          (record { rows_once = tt; overrides_fit = tt }) h.edits_valid in
      subst (IsPlan a schema) (ok_eq stored) (
        store-IsPlan plan base (record entry { deletes = insert_row (row % 2 ^ 32) entry.deletes })
          h (ground (arith, checked))
          (record { rows_once = valid.rows_once; overrides_fit = valid.overrides_fit })
          (omega (arith, length-insert_row (row % 2 ^ 32) entry.deletes)))

  updated-IsPlan :
      (plan after : ModifyPlan a.ArrayRef) (rid : RowId) (ovr : RowOverride a.ArrayRef)
      → IsPlan a schema plan
      → OverrideFits a schema ovr.values
      → record_update plan rid ovr ≡ ok after
      → IsPlan a schema after
  unfolding record_update check_edit_budget
  updated-IsPlan plan after rid ovr h fits done =
      let (allowed, rest, checked) = >>=-ok _ (check_edit_budget plan) done in
      let ((base, row), stored, resolved) = >>=-ok _ (resolve_to_source plan.blob_table rid) rest in
      let entry = edits_of plan.edits base in
      let valid : IsEdits a schema entry =
        All-edits_of (IsEdits a schema) base plan.edits
          (record { rows_once = tt; overrides_fit = tt }) h.edits_valid in
      subst (IsPlan a schema) (ok_eq stored) (
        store-IsPlan plan base (record entry { updates = insert row ovr entry.updates }) h
          (ground (arith, checked))
          (record {
            rows_once = Once-insert row ovr entry.updates valid.rows_once;
            overrides_fit =
                All-insert (λ o. OverrideFits a schema o.values) row ovr entry.updates fits
                  valid.overrides_fit;
          })
          (omega (arith, length-insert row ovr entry.updates)))

module _ (a : Arrow) where
  set_value-Fits :
      (fs : List a.Field) (col : ℕ) (f : a.Field) (one : a.ArrayRef)
      (values : List (Option a.ArrayRef))
      → get_elem? fs col ≡ some f
      → a.Fits f one × (length (a.values one) ≡ 1)
      → OverrideFits a fs values
      → OverrideFits a fs (set_value col one values)
  set_value-Fits fs col f one [] found fit h = ground arith
  set_value-Fits [] col f one (v ∷ vs) found fit h = cc
  set_value-Fits (g ∷ fs) zero f one (some w ∷ vs) found fit h =
      (subst (λ k. a.Fits k one × (length (a.values one) ≡ 1)) (sym (some_eq found)) fit, h.1)
  set_value-Fits (g ∷ fs) zero f one (none ∷ vs) found fit h =
      (subst (λ k. a.Fits k one × (length (a.values one) ≡ 1)) (sym (some_eq found)) fit, h)
  set_value-Fits (g ∷ fs) (suc col) f one (some w ∷ vs) found fit h =
      (h.0, set_value-Fits fs col f one vs found fit h.1)
  set_value-Fits (g ∷ fs) (suc col) f one (none ∷ vs) found fit h =
      set_value-Fits fs col f one vs found fit h

  no_values-Fits : (fs : List a.Field) (n : ℕ) → OverrideFits a fs (no_values n)
  no_values-Fits [] n = tt
  no_values-Fits (f ∷ fs) zero = tt
  no_values-Fits (f ∷ fs) (suc n) = no_values-Fits fs n

field_at {ℓ} :
    {A : Type ℓ} (fs : List A) (col : ℕ) → col < length fs → (f : A) × (get_elem? fs col ≡ some f)
field_at (f ∷ fs) zero h = (f, refl)
field_at (f ∷ fs) (suc col) h = field_at fs col (omega arith)
field_at [] col h = absurd (omega (arith, h))

module _ (a : Arrow) (schema : List a.Field) (Slot : Type 0) (read_ctid : Slot → FdwResult RowId)
    (single_row : Slot → ℕ → FdwResult a.ArrayRef) where
  -- The plans that the calls of ExecForeignDelete and ExecForeignUpdate lead to, each on a slot.
  pub data Gathered (start : ModifyPlan a.ArrayRef) : ModifyPlan a.ArrayRef → Type 0 where
    begun : Gathered start start
    deleted :
        {plan after : ModifyPlan a.ArrayRef} (slot : Slot)
        → Gathered start plan
        → exec_foreign_delete (read_ctid slot) plan ≡ ok after
        → Gathered start after
    updated :
        {plan after : ModifyPlan a.ArrayRef} (slot : Slot)
        → Gathered start plan
        → exec_foreign_update (single_row slot) (read_ctid slot) plan ≡ ok after
        → Gathered start after

  module _
      (single : (slot : Slot) (col : ℕ) (f : a.Field) (one : a.ArrayRef)
        → get_elem? schema col ≡ some f
        → single_row slot col ≡ ok one
        → a.Fits f one × (length (a.values one) ≡ 1)) where
    override_values-Fits :
        (slot : Slot) (cols : List ℕ) (values last : List (Option a.ArrayRef))
        → OverrideFits a schema values
        → override_values (single_row slot) (length schema) cols values ≡ ok last
        → OverrideFits a schema last
    unfolding override_values
    override_values-Fits slot [] values last h done = subst (OverrideFits a schema) (ok_eq done) h
    override_values-Fits slot (col ∷ cols) values last h done =
        let (within, rest, checked) =
          >>=-ok _ (ensure schema_mismatch (ltb col (length schema))) done in
        let (one, rest', read) = >>=-ok _ (single_row slot col) rest in
        let (f, found) = field_at schema col (ground (arith, checked)) in
        override_values-Fits slot cols (set_value col one values) last
          (set_value-Fits a schema col f one values found (single slot col f one found read) h)
          rest'

    -- Any run of ExecForeignDelete and ExecForeignUpdate from a plan without edits, whose number
    -- of columns is the schema's, keeps one entry per blob and one override per row, each of a
    -- value that fits for each column it sets, and no more edits than it counts, which are at most
    -- the ten million allowed; when the arrays built from a slot fit and have one value.
    pub gathered-IsPlan :
        (start plan : ModifyPlan a.ArrayRef)
        → start.edits ≡ []
        → start.edit_count ≡ 0
        → start.ncols ≡ length schema
        → Gathered start plan
        → IsPlan a schema plan
    unfolding exec_foreign_delete exec_foreign_update total_edits
    gathered-IsPlan start _ none_kept none_counted columns begun = record {
      blobs_once = subst (λ e. Once (keys e)) (sym none_kept) tt;
      edits_valid = subst (λ e. All (λ entry. IsEdits a schema entry.1) e) (sym none_kept) tt;
      counted = omega (arith, ap total_edits none_kept);
      budget = omega (arith, none_counted);
      columns = columns;
    }
    gathered-IsPlan start plan none_kept none_counted columns
          (deleted {plan = before} slot run done) =
        let h = gathered-IsPlan start before none_kept none_counted columns run in
        let (rid, recorded, read) = >>=-ok _ (read_ctid slot) done in
        recorded-IsPlan a schema before plan rid h recorded
    gathered-IsPlan start plan none_kept none_counted columns
          (updated {plan = before} slot run done) =
        let h = gathered-IsPlan start before none_kept none_counted columns run in
        let (rid, rest, read) = >>=-ok _ (read_ctid slot) done in
        let (values, recorded, built) =
          >>=-ok _
            (override_values (single_row slot) before.ncols before.update_attnums
              (no_values before.ncols))
            rest in
        updated-IsPlan a schema before plan rid (record { values = values }) h
          (override_values-Fits slot before.update_attnums (no_values before.ncols) values
            (no_values-Fits a schema before.ncols)
            (subst
              (λ n.
                override_values (single_row slot) n before.update_attnums (no_values before.ncols)
                ≡ ok values)
              h.columns built))
          recorded

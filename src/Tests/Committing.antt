-- ===== src/Tests/Committing.antt =====
-- A commit (src/fdw/modify) at a concrete input: a file is the column of its values.
use parquet_azure_fdw.Modify.Kernel.Stream.{total_rows}
use parquet_azure_fdw.Modify.Commit.Rewriting.{memory_of, write_all, rewrite_body-apply_edits}
use parquet_azure_fdw.Prelude.{
  arith, ℕ, zero, suc, ◌≡◌, ◌≢◌, refl, true, false, List, [], ◌∷◌, ◌++◌, none, some, Bytes, codes,
  bytes_eq, if◌then◌else◌, All, sort_unstable, keys, sym, ap, subst, ◌∙◌, bytes_eq_refl, ◌==◌,
}
use parquet_azure_fdw.Error.{ok, err, concurrent_update, ◌>>=◌}
use parquet_azure_fdw.Error.Exec.{and_then}
use parquet_azure_fdw.Azure.{
  is_staging_name, get_body_if_match, download_answer, collect_body, delete_answer, delete_if_match,
  delete_unconditional, put_if_match, put_if_none_match, unconditional_answer, upload_answer,
}
use parquet_azure_fdw.Modify.Kernel.{
  BlobEdits, apply_edits_batch, override_columns, edit_columns, edit_column, replacement,
  override_at, splice, drop_deleted, clear_deleted, apply_edits, apply_edits_from,
}
use parquet_azure_fdw.Modify.Coordinator.{
  abort, xact_cb, is_abort, make_staging_name, mark_committed, register_staging,
}
use parquet_azure_fdw.Modify.Commit.{
  Parquet, Commit, commit_plan, stage_all, stage_entry, rewrite_body, rewrite_batches, put_staged,
  swap_all, swap_bytes,
}
use parquet_azure_fdw.Modify.Commit.Laws.{Plain, Elsewhere, Apart}
use parquet_azure_fdw.Modify.Commit.Outcome.{
  IsCommitted, commit_plan-IsCommitted, commit_plan-content, commit_plan-stage_all,
}
use parquet_azure_fdw.Modify.Commit.Abort.{xact_cb-commit_plan}
use parquet_azure_fdw.Tests.Rebuilding.{list_arrow}
use parquet_azure_fdw.Tests.Container.{Container, set, memory, memory-IsConditional}

abbrev first_column : List (List ℕ) → List ℕ
first_column [] = []
first_column (c ∷ cs) = c

abbrev files : Parquet list_arrow
files = record {
  Codec = ℕ;
  Writer = List ℕ;
  open_file = λ body. ok (none, ok (suc zero, body ∷ []) ∷ []);
  memory_size = λ b. 8;
  new_writer = λ fields codec. ok [];
  write = λ written b. ok (written ++ first_column b.1);
  finish = λ written. ok written;
}

abbrev before : Container
before name =
    if bytes_eq name (codes "a.parquet")
    then some (codes "e1", 7 ∷ [])
    else if bytes_eq name (codes "b.parquet")
    then some (codes "e2", 9 ∷ [])
    else none

abbrev plan : Commit memory list_arrow files
plan = record {
  blob_table =
      record { name = codes "a.parquet"; chunk_base_row = 0; etag = codes "e1" }
      ∷ record { name = codes "b.parquet"; chunk_base_row = 0; etag = codes "e2" }
      ∷ [];
  edits =
      (1, record { deletes = 0 ∷ []; updates = [] })
      ∷ (0, record { deletes = []; updates = (0, record { values = some (70 ∷ []) ∷ [] }) ∷ [] })
      ∷ [];
  schema = 0 ∷ [];
  compression = 3;
}

abbrev uuid : ℕ → Bytes
uuid id = codes "0123"

some_eq {ℓ} : {A : Type ℓ} {x y : A} → some x ≡ some y → x ≡ y
some_eq e = cc

committed : (commit_plan memory list_arrow files plan uuid (before, some [])).0 ≡ ok tt
unfolding commit_plan and_then stage_all stage_entry get_body_if_match download_answer collect_body
    rewrite_body rewrite_batches apply_edits_batch override_columns edit_columns edit_column
    replacement override_at splice drop_deleted put_staged delete_answer delete_if_match
    delete_unconditional put_if_match put_if_none_match unconditional_answer upload_answer swap_all
    swap_bytes make_staging_name mark_committed register_staging clear_deleted
committed = refl

apart_by : (x y : Bytes) → bytes_eq x y ≡ false → x ≢ y
apart_by x y h e =
    let same : bytes_eq x y ≡ true = subst (λ z. bytes_eq x z ≡ true) e (bytes_eq_refl x) in cc

table-Plain : All (Plain memory list_arrow files plan) (sort_unstable (keys plan.edits))
unfolding is_staging_name
table-Plain = (
  λ entry e. subst (λ z. is_staging_name z.name ≡ false) (some_eq e) refl,
  (λ entry e. subst (λ z. is_staging_name z.name ≡ false) (some_eq e) refl, tt),
)

table-Apart : Apart memory list_arrow files plan (sort_unstable (keys plan.edits))
table-Apart = (
  λ entry e. (
    λ second f same.
        apart_by (codes "b.parquet") (codes "a.parquet") refl
          (ap (λ z. z.name) (some_eq f) ∙ same ∙ ap (λ z. z.name) (sym (some_eq e))),
    tt,
  ),
  (λ entry e. tt, tt),
)

commit_plan-IsCommitted_example :
    All
      (IsCommitted memory list_arrow files plan before
        (commit_plan memory list_arrow files plan uuid (before, some [])).1.0)
      (sort_unstable (keys plan.edits))
commit_plan-IsCommitted_example =
    commit_plan-IsCommitted memory memory-IsConditional list_arrow files plan uuid (before, some [])
      table-Plain table-Apart committed

table-Elsewhere :
    All
      (Elsewhere memory list_arrow files plan (codes "c.parquet"))
      (sort_unstable (keys plan.edits))
table-Elsewhere = (
  λ entry e same.
      apart_by (codes "a.parquet") (codes "c.parquet") refl (ap (λ z. z.name) (some_eq e) ∙ same),
  (
    λ entry e same.
        apart_by (codes "b.parquet") (codes "c.parquet") refl (ap (λ z. z.name) (some_eq e) ∙ same),
    tt,
  ),
)

commit_plan-content_example :
    memory.content
      (commit_plan memory list_arrow files plan uuid (before, some [])).1.0
      (codes "c.parquet")
    ≡ none
unfolding is_staging_name
commit_plan-content_example =
    commit_plan-content memory memory-IsConditional list_arrow files plan uuid (before, some [])
      (codes "c.parquet") refl table-Plain table-Elsewhere

-- Another writer has changed the first blob.
abbrev changed : Container
changed = set before (codes "a.parquet") (some (codes "e9", 8 ∷ []))

refused :
    (stage_all memory list_arrow files plan uuid
      (sort_unstable (keys plan.edits))
      (changed, some [])).0
    ≡ err (concurrent_update (codes "a.parquet"))
unfolding and_then stage_all stage_entry get_body_if_match download_answer
refused = refl

commit_plan-stage_all_example :
    ((commit_plan memory list_arrow files plan uuid (changed, some [])).0
      ≡ err (concurrent_update (codes "a.parquet")))
    × (memory.content
          (commit_plan memory list_arrow files plan uuid (changed, some [])).1.0
          (codes "b.parquet")
        ≡ some (codes "e2", 9 ∷ []))
unfolding is_staging_name
commit_plan-stage_all_example =
    commit_plan-stage_all memory memory-IsConditional list_arrow files plan uuid (changed, some [])
      (concurrent_update (codes "a.parquet")) (codes "b.parquet") refused refl

xact_cb-commit_plan_example :
    (memory.content
        (xact_cb memory abort (
          (commit_plan memory list_arrow files plan uuid (before, some [])).1.1,
          (commit_plan memory list_arrow files plan uuid (before, some [])).1.0,
        )).1
        (codes "c.parquet")
      ≡ none)
    × ((xact_cb memory abort (
      (commit_plan memory list_arrow files plan uuid (before, some [])).1.1,
      (commit_plan memory list_arrow files plan uuid (before, some [])).1.0,
    )).0
        ≡ none)
unfolding is_staging_name is_abort
xact_cb-commit_plan_example =
    xact_cb-commit_plan memory memory-IsConditional list_arrow files plan uuid before (some [])
      abort (codes "c.parquet") refl tt refl table-Plain table-Elsewhere

abbrev first_edits : BlobEdits (List ℕ)
first_edits = record { deletes = []; updates = (0, record { values = some (70 ∷ []) ∷ [] }) ∷ [] }

rewrite_body-apply_edits_example :
    rewrite_body list_arrow files (0 ∷ []) first_edits 3 (7 ∷ []) ≡ (do
      written ← write_all list_arrow files [] ((1, (70 ∷ []) ∷ []) ∷ [])
      if total_rows list_arrow ((1, (70 ∷ []) ∷ []) ∷ []) == 0 then ok none else ok (some written))
unfolding memory_of total_rows apply_edits apply_edits_from apply_edits_batch override_columns
    edit_columns edit_column replacement override_at splice drop_deleted clear_deleted
rewrite_body-apply_edits_example =
    rewrite_body-apply_edits list_arrow files (0 ∷ []) first_edits 3 (7 ∷ []) none
      ((1, (7 ∷ []) ∷ []) ∷ []) ((1, (70 ∷ []) ∷ []) ∷ []) refl (omega arith) refl refl

-- ===== src/Modify/Commit.antt =====
-- `commit_plan` (src/fdw/modify/update.rs): every edited blob is rewritten into a staging blob, then
-- each is swapped in. The reading and the writing of parquet files are parameters.
pub mod Staging
pub mod Swapping
pub mod Laws
pub mod Outcome
pub mod Abort
pub mod Rewriting
use parquet_azure_fdw.Error.Exec.{Exec, pure, lift, attempt, and_then}
use parquet_azure_fdw.Prelude.{
  ℕ, zero, suc, ◌+◌, Bool, true, false, List, [], ◌∷◌, ◌++◌, Option, none, some, Bytes, ltb, leb,
  ◌==◌, all, if◌then◌else◌, get_elem?, lookup, keys, sort_unstable,
}
use parquet_azure_fdw.Error.{FdwError, FdwResult, ok, err, azure, schema_mismatch, ◌>>=◌, ensure}
use parquet_azure_fdw.Azure.{
  BlobService, max_blob_bytes, get_body_if_match, put_if_match, put_if_none_match, delete_if_match,
  delete_unconditional,
}
use parquet_azure_fdw.Modify.BlobTable.{BlobIdEntry}
use parquet_azure_fdw.Modify.Kernel.{Arrow, BlobEdits, apply_edits_batch}
use parquet_azure_fdw.Modify.Edits.{saturating_add}
use parquet_azure_fdw.Modify.Coordinator.{
  Active, make_staging_name, with_active, register_staging, mark_committed, StatementCoordinator,
}

-- What the commit uses of the `parquet` crate and of the writer over it: the codec of the first
-- column chunk, if the file has one, with the stream of its batches; and a writer.
pub record Parquet (a : Arrow) : Type 1 where
  pub Codec : Type 0
  pub Writer : Type 0
  pub open_file : Bytes → FdwResult (Option Codec × List (FdwResult a.RecordBatch))
  pub memory_size : a.RecordBatch → ℕ
  pub new_writer : List a.Field → Codec → FdwResult Writer
  pub write : Writer → a.RecordBatch → FdwResult Writer
  pub finish : Writer → FdwResult Bytes

-- A blob between the phases; without `new_bytes` its rows are all deleted (`empty_delete`).
pub record Staged : Type 0 where
  pub original_name : Bytes
  pub scan_etag : Bytes
  pub staging_name : Bytes
  pub new_bytes : Option Bytes

abbrev pub or_else {ℓ} : {A : Type ℓ} → Option A → FdwError → FdwResult A
or_else none problem = err problem
or_else (some x) problem = ok x

abbrev pub codec_or {ℓ} : {A : Type ℓ} → Option A → A → A
codec_or none codec = codec
codec_or (some source) codec = source

module _ (a : Arrow) (p : Parquet a) (schema : List a.Field) (edits : BlobEdits a.ArrayRef) where
  -- The loop over the source's batches: the writer, the source's rows and the rows written.
  unfoldable pub rewrite_batches :
      List (FdwResult a.RecordBatch) → ℕ → ℕ → ℕ → p.Writer → FdwResult (p.Writer × ℕ × ℕ)
  rewrite_batches [] offset decoded_bytes total_rows writer = ok (writer, offset, total_rows)
  rewrite_batches (item ∷ items) offset decoded_bytes total_rows writer = do
    batch ← item
    let decoded = saturating_add decoded_bytes (p.memory_size batch)
    bounded ← ensure azure (leb decoded max_blob_bytes)
    out ← apply_edits_batch a batch offset schema edits
    next ← if ltb 0 (a.num_rows out) then p.write writer out else ok writer
    rewrite_batches items (offset + a.num_rows batch) decoded (total_rows + a.num_rows out) next

  -- The rewrite of a blob's body, or nothing when no row is left.
  unfoldable pub rewrite_body : p.Codec → Bytes → FdwResult (Option Bytes)
  rewrite_body compression body = do
    (source_codec, items) ← p.open_file body
    writer ← p.new_writer schema (codec_or source_codec compression)
    (written, offset, total_rows) ← rewrite_batches items 0 0 0 writer
    in_range ← ensure schema_mismatch (all (λ k. ltb k offset) (keys edits.updates))
    if total_rows == 0 then ok none else do bytes ← p.finish written; ok (some bytes)

module _ (svc : BlobService) (a : Arrow) (p : Parquet a) where
  -- The service and the statement's coordinator.
  abbrev pub World : Type 0
  World = svc.State × Active

  -- The fields of the plan that the commit reads.
  pub record Commit : Type 0 where
    pub blob_table : List BlobIdEntry
    pub edits : List (ℕ × BlobEdits a.ArrayRef)
    pub schema : List a.Field
    pub compression : p.Codec

  -- A call of the service, which leaves the coordinator alone.
  abbrev pub call {ℓ} : {A : Type ℓ} → Exec svc.State A → Exec World A
  call f (s, active) = let (result, after) = f s in (result, (after, active))

  -- A call of the coordinator, if a statement is open.
  abbrev pub note : (StatementCoordinator → StatementCoordinator) → Exec World (Unit {0})
  note f (s, active) = (ok tt, (s, with_active f active))

  abbrev pub staged_as : BlobIdEntry → Bytes → Option Bytes → Staged
  staged_as entry staging_name bytes = record {
    original_name = entry.name;
    scan_etag = entry.etag;
    staging_name = staging_name;
    new_bytes = bytes;
  }

  -- The new bytes are registered, then written; with no row left, nothing is staged.
  unfoldable pub put_staged : BlobIdEntry → Bytes → Option Bytes → Exec World Staged
  put_staged entry staging_name none = pure (staged_as entry [] none)
  put_staged entry staging_name (some bytes) =
      and_then (note (register_staging staging_name)) λ registered.
        and_then (call (put_if_none_match svc staging_name bytes))
          λ etag. pure (staged_as entry staging_name (some bytes))

  unfoldable pub stage_entry :
      Commit → BlobEdits a.ArrayRef → BlobIdEntry → Bytes → Exec World Staged
  stage_entry plan edits entry uuid =
      and_then (call (get_body_if_match svc entry.name entry.etag)) λ body.
        and_then (lift (rewrite_body a p plan.schema edits plan.compression body))
          λ rewritten. put_staged entry (make_staging_name uuid entry.name) rewritten

  -- Phase 1, over the sorted ids, which all have edits; `uuid` has the random part of each staging
  -- name.
  unfoldable pub stage_all : Commit → (ℕ → Bytes) → List ℕ → Exec World (List Staged)
  stage_all plan uuid [] = pure []
  stage_all plan uuid (base_id ∷ ids) =
      and_then (lift (or_else (get_elem? plan.blob_table base_id) schema_mismatch)) λ entry.
        and_then (lift (or_else (lookup base_id plan.edits) schema_mismatch)) λ edits.
          and_then (stage_entry plan edits entry (uuid base_id))
            λ staged. and_then (stage_all plan uuid ids) λ others. pure (staged ∷ others)

  -- The new bytes onto the original name, or nothing there; then the staging blob goes, whether or
  -- not its deletion succeeds.
  unfoldable pub swap_bytes : Staged → Option Bytes → Exec World (Unit {0})
  swap_bytes staged none = call (delete_if_match svc staged.original_name staged.scan_etag)
  swap_bytes staged (some bytes) =
      and_then (call (put_if_match svc staged.original_name bytes staged.scan_etag)) λ etag.
        and_then (attempt (call (delete_unconditional svc staged.staging_name)))
          λ ignored. note (mark_committed staged.staging_name)

  -- Phase 2
  unfoldable pub swap_all : List Staged → Exec World (Unit {0})
  swap_all [] = pure tt
  swap_all (staged ∷ others) =
      and_then (swap_bytes staged staged.new_bytes) λ swapped. swap_all others

  unfoldable pub commit_plan : Commit → (ℕ → Bytes) → Exec World (Unit {0})
  commit_plan plan uuid =
      and_then (stage_all plan uuid (sort_unstable (keys plan.edits))) λ staged. swap_all staged

-- ===== src/Modify/Commit/Rewriting.antt =====
-- The rewrite of a body during a commit (src/fdw/modify/update.rs), against that of its batches
-- (src/fdw/modify/kernel.rs).
use parquet_azure_fdw.Prelude.{
  ℕ, ◌+◌, ◌≤◌, ◌≡◌, refl, ◌∙◌, subst, arith, true, List, [], ◌∷◌, map, Option, none, some, Bytes,
  ltb, leb, ◌==◌, all, if◌then◌else◌, keys, ap₂,
}
use parquet_azure_fdw.Error.{FdwResult, ok, err, ◌>>=◌, >>=-ok}
use parquet_azure_fdw.Azure.{max_blob_bytes}
use parquet_azure_fdw.Modify.Kernel.{
  Arrow, BlobEdits, apply_edits_batch, apply_edits, apply_edits_from,
}
use parquet_azure_fdw.Modify.Kernel.Stream.{total_rows}
use parquet_azure_fdw.Modify.Edits.{saturating_add}
use parquet_azure_fdw.Modify.Commit.{Parquet, codec_or, rewrite_batches, rewrite_body}

>>=_cong {ℓ κ} :
    {A : Type ℓ} {B : Type κ} (first : FdwResult A) {f g : A → FdwResult B}
    → ((value : A) → f value ≡ g value)
    → (first >>= f) ≡ (first >>= g)
>>=_cong (ok value) h = h value
>>=_cong (err problem) h = refl

>>=_regroup {ℓ κ μ} :
    {A : Type ℓ} {B : Type κ} {C : Type μ} (first : FdwResult A) (f : A → B) (g : B → FdwResult C)
    {h : A → FdwResult C}
    → ((value : A) → g (f value) ≡ h value)
    → (first >>= (λ value. ok (f value)) >>= g) ≡ (first >>= h)
>>=_regroup (ok value) f g e = e value
>>=_regroup (err problem) f g e = refl

ok_eq {ℓ} : {A : Type ℓ} {x y : A} → ok x ≡ ok y → x ≡ y
ok_eq e = cc

module _ (a : Arrow) (p : Parquet a) where
  -- The memory of the decoded batches.
  unfoldable pub memory_of : List a.RecordBatch → ℕ
  memory_of [] = 0
  memory_of (batch ∷ input) = p.memory_size batch + memory_of input

  -- The batches that have a row, written one after the other.
  unfoldable pub write_all : p.Writer → List a.RecordBatch → FdwResult p.Writer
  write_all writer [] = ok writer
  write_all writer (out ∷ outs) = do
    next ← if ltb 0 (a.num_rows out) then p.write writer out else ok writer
    write_all next outs

  abbrev after_writes : p.Writer → List a.RecordBatch → ℕ → ℕ → FdwResult (p.Writer × ℕ × ℕ)
  after_writes writer outs offset total = do
    written ← write_all writer outs
    ok (written, offset, total + total_rows a outs)

  written_next :
      (first : FdwResult p.Writer) (outs : List a.RecordBatch) (offset total : ℕ)
      {run : p.Writer → FdwResult (p.Writer × ℕ × ℕ)}
      → ((next : p.Writer)
          → run next ≡ (write_all next outs >>= λ written. ok (written, offset, total)))
      → (first >>= run)
        ≡ (first >>= (λ next. write_all next outs) >>= λ written. ok (written, offset, total))
  written_next (ok next) outs offset total h = h next
  written_next (err problem) outs offset total h = refl

  module _ (schema : List a.Field) (edits : BlobEdits a.ArrayRef) where
    rewrite_batches-write_all :
        (input outs : List a.RecordBatch) (offset decoded total : ℕ) (writer : p.Writer)
        → decoded + memory_of input ≤ max_blob_bytes
        → apply_edits_from a offset input schema edits ≡ ok outs
        → rewrite_batches a p schema edits (map ok input) offset decoded total writer
          ≡ after_writes writer outs (offset + total_rows a input) total
    unfolding rewrite_batches write_all memory_of apply_edits_from total_rows
    rewrite_batches-write_all [] outs offset decoded total writer fits applied =
        subst (λ os. ok (writer, offset, total) ≡ after_writes writer os (offset + 0) total)
          {x = []} (ok_eq applied) (ground arith)
    rewrite_batches-write_all (batch ∷ input) outs offset decoded total writer fits applied =
        let (out, applied', first) =
          >>=-ok _ (apply_edits_batch a batch offset schema edits) applied in
        let (others, last, rest) =
          >>=-ok _ (apply_edits_from a (offset + a.num_rows batch) input schema edits) applied' in
        let size = p.memory_size batch in
        let rows = total_rows a input in
        let more : saturating_add decoded size ≡ decoded + size = omega (arith, fits) in
        let bounded : leb (decoded + size) max_blob_bytes ≡ true = ground (arith, fits) in
        subst
          (λ os.
            rewrite_batches a p schema edits (map ok (batch ∷ input)) offset decoded total writer
            ≡ after_writes writer os (offset + total_rows a (batch ∷ input)) total)
          (ok_eq last)
          (rw (rewrite_batches, more, bounded, first)
            (written_next (if ltb 0 (a.num_rows out) then p.write writer out else ok writer) others
              _ _
              λ next.
                rewrite_batches-write_all input others (offset + a.num_rows batch) (decoded + size)
                  (total + a.num_rows out) next (omega (arith, fits)) rest
                ∙ ap₂ (λ o t. write_all next others >>= λ written. ok (written, o, t)) (omega arith)
                    (omega arith)))

    -- A body whose batches can all be read, take no more memory than the cap and are rewritten,
    -- with every override of a row that the body has, becomes the file that the writer makes of the
    -- rewritten batches that have a row, or nothing when none has one.
    pub rewrite_body-apply_edits :
        (compression : p.Codec) (body : Bytes) (source_codec : Option p.Codec)
        (input outs : List a.RecordBatch)
        → p.open_file body ≡ ok (source_codec, map ok input)
        → memory_of input ≤ max_blob_bytes
        → all (λ k. ltb k (total_rows a input)) (keys edits.updates) ≡ true
        → apply_edits a input schema edits ≡ ok outs
        → rewrite_body a p schema edits compression body ≡ (do
          writer ← p.new_writer schema (codec_or source_codec compression)
          written ← write_all writer outs
          if total_rows a outs == 0 then ok none else do bytes ← p.finish written; ok (some bytes))
    unfolding rewrite_body apply_edits
    rewrite_body-apply_edits compression body source_codec input outs opened fits in_range applied =
        rw (opened, rewrite_body)
          (>>=_cong (p.new_writer schema (codec_or source_codec compression)) λ writer.
            rw (rewrite_batches-write_all input outs 0 0 0 writer (omega (arith, fits)) applied) (
              >>=_regroup (write_all writer outs)
                (λ written. (written, 0 + total_rows a input, 0 + total_rows a outs)) _
                λ written.
                  let rows : 0 + total_rows a input ≡ total_rows a input = omega arith in
                  let outs_rows : 0 + total_rows a outs ≡ total_rows a outs = omega arith in
                  rw (rows, outs_rows, in_range) refl))

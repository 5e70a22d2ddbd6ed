-- ===== src/Modify/Commit/Outcome.antt =====
-- The outcomes of a commit (`commit_plan`, src/fdw/modify/update.rs).
use parquet_azure_fdw.Prelude.{
  ℕ, ◌≡◌, refl, sym, ap, ◌∙◌, subst, true, false, List, [], ◌∷◌, Option, none, some, Bytes,
  get_elem?, lookup, keys, sort_unstable, All,
}
use parquet_azure_fdw.Error.{FdwError, FdwResult, ok, err}
use parquet_azure_fdw.Error.Exec.{and_then-ok, and_then_keeps, and_then-err}
use parquet_azure_fdw.Azure.{BlobService, IsConditional, is_staging_name}
use parquet_azure_fdw.Modify.BlobTable.{BlobIdEntry}
use parquet_azure_fdw.Modify.Kernel.{Arrow, BlobEdits}
use parquet_azure_fdw.Modify.Commit.{
  Parquet, Staged, World, Commit, stage_all, swap_bytes, swap_all, commit_plan, rewrite_body,
}
use parquet_azure_fdw.Modify.Commit.Staging.{
  Has, stage_all-Keeps, swap_all-Keeps, OtherThan, delete_unconditional-Keeps, not_staging,
}
use parquet_azure_fdw.Modify.Commit.Swapping.{Becomes, put_if_match-ok, delete_if_match-ok}
use parquet_azure_fdw.Modify.Commit.Laws.{
  Plain, Elsewhere, Apart, AllStaged, stage_all-Staged, value_eq, state_eq,
}

pair_eq {ℓ κ} :
    {A : Type ℓ} {S : Type κ} (r : FdwResult A × S) {v : FdwResult A} → r.0 ≡ v → r ≡ (v, r.1)
pair_eq (result, s) e = ap (λ x. (x, s)) e

module _ (svc : BlobService) (a : Arrow) (p : Parquet a) (plan : Commit svc a p) where
  -- The blob of the id had the version that the scan saw, in the first state, and has, in the
  -- second, its rewrite, or is gone when no row was left.
  pub record IsCommitted (before after : svc.State) (id : ℕ) : Type 0 where
    pub entry : BlobIdEntry
    pub edits : BlobEdits a.ArrayRef
    pub body : Bytes
    pub rewritten : Option Bytes
    pub listed : get_elem? plan.blob_table id ≡ some entry
    pub edited : lookup id plan.edits ≡ some edits
    pub stored : svc.content before entry.name ≡ some (entry.etag, body)
    pub rewrite : rewrite_body a p plan.schema edits plan.compression body ≡ ok rewritten
    pub now : Becomes rewritten (svc.content after entry.name)

module _ (svc : BlobService) (law : IsConditional svc) (a : Arrow) (p : Parquet a)
    (plan : Commit svc a p) where
  swap_bytes-ok :
      (staged : Staged) (new_bytes : Option Bytes) (w after : World svc a p)
      → is_staging_name staged.original_name ≡ false
      → ((bytes : Bytes) → new_bytes ≡ some bytes → is_staging_name staged.staging_name ≡ true)
      → swap_bytes svc a p staged new_bytes w ≡ (ok tt, after)
      → Becomes new_bytes (svc.content after.0 staged.original_name)
  unfolding swap_bytes
  swap_bytes-ok staged none w after plain staging h =
      subst (λ v. svc.content v.0 staged.original_name ≡ none) (state_eq h)
        (delete_if_match-ok svc law staged.original_name staged.scan_etag w.0 (value_eq h))
  swap_bytes-ok staged (some bytes) w after plain staging h =
      let name = staged.original_name in
      let (etag, w1, put, h1) = and_then-ok _ _ w h in
      let (ignored, w2, dropped, h2) = and_then-ok _ _ w1 h1 in
      let (new, stored) =
        put_if_match-ok svc law name bytes staged.scan_etag etag w.0 (value_eq put) in
      let c = some (new, bytes) in
      let stored1 : svc.content w1.0 name ≡ c =
        subst (λ v. svc.content v.0 name ≡ c) (state_eq put) stored in
      let stored2 : svc.content w2.0 name ≡ c =
        subst (λ v. svc.content v.0 name ≡ c) (state_eq dropped)
          ((delete_unconditional-Keeps svc law a p name c staged.staging_name
              (not_staging name staged.staging_name plain (staging bytes refl))).kept
            w1 stored1) in
      (new, subst (λ v. svc.content v.0 name ≡ c) (state_eq h2) stored2)

  others-OtherThan :
      (k : Bytes) (c : Option (Bytes × Bytes)) (plain : is_staging_name k ≡ false) (s : svc.State)
      (ids : List ℕ) (staged : List Staged)
      → AllStaged svc a p plan s ids staged
      → All (Elsewhere svc a p plan k) ids
      → All (OtherThan svc law a p k c plain) staged
  others-OtherThan k c plain s [] [] h apart = tt
  others-OtherThan k c plain s (id ∷ ids) (staged ∷ others) (h, hs) (apart, rest) = (
    (λ e. apart h.entry h.listed (sym h.original ∙ e), h.staging),
    others-OtherThan k c plain s ids others hs rest,
  )
  others-OtherThan k c plain s [] (staged ∷ others) h apart = absurd h
  others-OtherThan k c plain s (id ∷ ids) [] h apart = absurd h

  swap_all-Committed :
      (s : svc.State) (ids : List ℕ) (staged : List Staged) (w after : World svc a p)
      → AllStaged svc a p plan s ids staged
      → All (Plain svc a p plan) ids
      → Apart svc a p plan ids
      → swap_all svc a p staged w ≡ (ok tt, after)
      → All (IsCommitted svc a p plan s after.0) ids
  unfolding swap_all
  swap_all-Committed s [] [] w after h plain apart done = tt
  swap_all-Committed s (id ∷ ids) (staged ∷ others) w after (h, hs) (plain, plains) (apart, rest)
        done =
      let (swapped, w1, first, done') = and_then-ok _ _ w done in
      let name = h.entry.name in
      let name_plain = plain h.entry h.listed in
      let now =
        subst (λ n. Becomes staged.new_bytes (svc.content w1.0 n)) h.original
          (swap_bytes-ok staged staged.new_bytes w w1
            (subst (λ n. is_staging_name n ≡ false) (sym h.original) name_plain) h.staging first) in
      let c = svc.content w1.0 name in
      let kept =
        (swap_all-Keeps svc law a p name c name_plain others
            (others-OtherThan name c name_plain s ids others hs (apart h.entry h.listed))).kept
          w1 refl in
      (
        record {
          entry = h.entry;
          edits = h.edits;
          body = h.body;
          rewritten = staged.new_bytes;
          listed = h.listed;
          edited = h.edited;
          stored = h.stored;
          rewrite = h.rewritten;
          now =
              subst (Becomes staged.new_bytes)
                (sym kept ∙ ap (λ v. svc.content v.0 name) (state_eq done')) now;
        },
        swap_all-Committed s ids others w1 after hs plains rest done',
      )
  swap_all-Committed s [] (staged ∷ others) w after h plain apart done = absurd h
  swap_all-Committed s (id ∷ ids) [] w after h plain apart done = absurd h

  -- A commit that succeeds found each edited blob in the version that the scan saw, and leaves in
  -- its place the rewrite of that version by the blob's edits, or no blob when no row is left;
  -- where different edited ids stand for blobs of different names outside the staging convention.
  pub commit_plan-IsCommitted :
      (uuid : ℕ → Bytes) (w : World svc a p)
      → All (Plain svc a p plan) (sort_unstable (keys plan.edits))
      → Apart svc a p plan (sort_unstable (keys plan.edits))
      → (commit_plan svc a p plan uuid w).0 ≡ ok tt
      → All
          (IsCommitted svc a p plan w.0 (commit_plan svc a p plan uuid w).1.0)
          (sort_unstable (keys plan.edits))
  unfolding commit_plan
  commit_plan-IsCommitted uuid w plain apart done =
      let ids = sort_unstable (keys plan.edits) in
      let (staged, w1, first, swapped) = and_then-ok _ _ w (pair_eq _ done) in
      swap_all-Committed w.0 ids staged w1 _
        (stage_all-Staged svc law a p plan uuid w.0 ids w w1 staged (λ k h. refl) plain first) plain
        apart swapped

  -- However a commit ends, a blob outside the staging convention that has the name of no edited
  -- blob is left as it was, where no edited blob has a name of the staging convention.
  pub commit_plan-content :
      (uuid : ℕ → Bytes) (w : World svc a p) (k : Bytes)
      → is_staging_name k ≡ false
      → All (Plain svc a p plan) (sort_unstable (keys plan.edits))
      → All (Elsewhere svc a p plan k) (sort_unstable (keys plan.edits))
      → svc.content (commit_plan svc a p plan uuid w).1.0 k ≡ svc.content w.0 k
  unfolding commit_plan
  commit_plan-content uuid w k k_plain plain apart =
      let ids = sort_unstable (keys plan.edits) in
      let c = svc.content w.0 k in
      and_then_keeps (Has svc law a p k c) (stage_all svc a p plan uuid ids) _ w
        ((stage_all-Keeps svc law a p k c k_plain plan uuid ids).kept w refl)
        λ staged w1 first has.
          (swap_all-Keeps svc law a p k c k_plain staged (
              others-OtherThan k c k_plain w.0 ids staged
                (stage_all-Staged svc law a p plan uuid w.0 ids w w1 staged (λ j h. refl) plain
                  first)
                apart)).kept
            w1 has

  -- An error of the staging is the commit's, and then every blob outside the staging convention is
  -- left as it was.
  pub commit_plan-stage_all :
      (uuid : ℕ → Bytes) (w : World svc a p) (problem : FdwError) (k : Bytes)
      → (stage_all svc a p plan uuid (sort_unstable (keys plan.edits)) w).0 ≡ err problem
      → is_staging_name k ≡ false
      → ((commit_plan svc a p plan uuid w).0 ≡ err problem)
        × (svc.content (commit_plan svc a p plan uuid w).1.0 k ≡ svc.content w.0 k)
  unfolding commit_plan
  commit_plan-stage_all uuid w problem k failed k_plain =
      let ids = sort_unstable (keys plan.edits) in
      let c = svc.content w.0 k in
      let ended = and_then-err (stage_all svc a p plan uuid ids) _ w problem failed in
      (
        value_eq ended,
        subst (λ v. svc.content v.0 k ≡ c) (sym (state_eq ended))
            ((stage_all-Keeps svc law a p k c k_plain plan uuid ids).kept w refl),
      )

-- ===== src/Modify/Commit/Laws.antt =====
-- The commit of a statement (`commit_plan`, src/fdw/modify/update.rs): what each outcome leaves of
-- the blobs.
use parquet_azure_fdw.Prelude.{
  ℕ, ◌≡◌, ◌≢◌, refl, sym, ap, ◌∙◌, subst, true, false, List, [], ◌∷◌, Option, none, some, Bytes,
  get_elem?, lookup, All,
}
use parquet_azure_fdw.Error.{FdwError, FdwResult, ok, schema_mismatch}
use parquet_azure_fdw.Error.Exec.{and_then-ok}
use parquet_azure_fdw.Azure.{BlobService, IsConditional, is_staging_name}
use parquet_azure_fdw.Modify.BlobTable.{BlobIdEntry}
use parquet_azure_fdw.Modify.Kernel.{Arrow, BlobEdits}
use parquet_azure_fdw.Modify.Coordinator.{make_staging_name}
use parquet_azure_fdw.Modify.Commit.{
  Parquet, Staged, World, Commit, put_staged, stage_entry, stage_all, rewrite_body, or_else,
  staged_as,
}
use parquet_azure_fdw.Modify.Commit.Staging.{stage_entry-Keeps, make_staging_name-is_staging_name}
use parquet_azure_fdw.Modify.Commit.Swapping.{get_body_if_match-ok}

or_else-some :
    {A : Type 0} (o : Option A) (problem : FdwError) (x : A) → or_else o problem ≡ ok x → o ≡ some x
or_else-some none problem x h = cc
or_else-some (some y) problem x h = cc

pub value_eq {ℓ κ} : {A : Type ℓ} {S : Type κ} {r r' : FdwResult A × S} → r ≡ r' → r.0 ≡ r'.0
value_eq e = ap (λ x. x.0) e

pub state_eq {ℓ κ} : {A : Type ℓ} {S : Type κ} {r r' : FdwResult A × S} → r ≡ r' → r.1 ≡ r'.1
state_eq e = ap (λ x. x.1) e

ok_eq {ℓ} : {A : Type ℓ} {x y : A} → ok x ≡ ok y → x ≡ y
ok_eq e = cc

-- Is it the blob of the entry, with the new bytes, which wait under a staging name?
abbrev pub Names : BlobIdEntry → Option Bytes → Staged → Type 0
Names entry rewritten staged =
    (staged.original_name ≡ entry.name)
    × (staged.new_bytes ≡ rewritten)
    × ((bytes : Bytes) → staged.new_bytes ≡ some bytes → is_staging_name staged.staging_name ≡ true)

module _ (svc : BlobService) (a : Arrow) (p : Parquet a) (plan : Commit svc a p) where
  -- The blob of the id has a name outside the staging convention.
  abbrev pub Plain : ℕ → Type 0
  Plain id =
      (entry : BlobIdEntry)
      → get_elem? plan.blob_table id ≡ some entry
      → is_staging_name entry.name ≡ false

  -- The blob of the id is not called `k`.
  abbrev pub Elsewhere : Bytes → ℕ → Type 0
  Elsewhere k id =
      (entry : BlobIdEntry) → get_elem? plan.blob_table id ≡ some entry → entry.name ≢ k

  -- Different ids stand for blobs of different names.
  abbrev pub Apart : List ℕ → Type 0
  Apart [] = Unit
  Apart (id ∷ ids) =
      ((entry : BlobIdEntry)
        → get_elem? plan.blob_table id ≡ some entry
        → All (Elsewhere entry.name) ids)
      × Apart ids

  -- What stages the blob of the id: its content in the state `s` is the version that the scan saw,
  -- and the new bytes are its rewrite.
  pub record IsStaged (s : svc.State) (id : ℕ) (staged : Staged) : Type 0 where
    pub entry : BlobIdEntry
    pub edits : BlobEdits a.ArrayRef
    pub body : Bytes
    pub listed : get_elem? plan.blob_table id ≡ some entry
    pub edited : lookup id plan.edits ≡ some edits
    pub original : staged.original_name ≡ entry.name
    pub staging :
        (bytes : Bytes) → staged.new_bytes ≡ some bytes → is_staging_name staged.staging_name ≡ true
    pub stored : svc.content s entry.name ≡ some (entry.etag, body)
    pub rewritten : rewrite_body a p plan.schema edits plan.compression body ≡ ok staged.new_bytes

  abbrev pub AllStaged : svc.State → List ℕ → List Staged → Type 0
  AllStaged s [] [] = Unit
  AllStaged s (id ∷ ids) (staged ∷ others) = IsStaged s id staged × AllStaged s ids others
  AllStaged s [] (staged ∷ others) = ⊥
  AllStaged s (id ∷ ids) [] = ⊥

module _ (svc : BlobService) (law : IsConditional svc) (a : Arrow) (p : Parquet a)
    (plan : Commit svc a p) where
  put_staged-ok :
      (entry : BlobIdEntry) (uuid : Bytes) (rewritten : Option Bytes) (w after : World svc a p)
      (staged : Staged)
      → put_staged svc a p entry (make_staging_name uuid entry.name) rewritten w
        ≡ (ok staged, after)
      → (staged.original_name ≡ entry.name)
        × (staged.new_bytes ≡ rewritten)
        × ((bytes : Bytes)
            → staged.new_bytes ≡ some bytes
            → is_staging_name staged.staging_name ≡ true)
  unfolding put_staged
  put_staged-ok entry uuid none w after staged h =
      subst (Names entry none) {x = staged_as svc a p entry [] none} (ok_eq (value_eq h))
        (refl, refl, λ bytes e. cc)
  put_staged-ok entry uuid (some bytes) w after staged h =
      let (registered, w1, noted, h1) = and_then-ok _ _ w h in
      let (etag, w2, written, h2) = and_then-ok _ _ w1 h1 in
      subst (Names entry (some bytes))
        {x = staged_as svc a p entry (make_staging_name uuid entry.name) (some bytes)}
        (ok_eq (value_eq h2))
        (refl, refl, λ bytes e. make_staging_name-is_staging_name uuid entry.name)

  stage_entry-ok :
      (edits : BlobEdits a.ArrayRef) (entry : BlobIdEntry) (uuid : Bytes) (w after : World svc a p)
      (staged : Staged)
      → stage_entry svc a p plan edits entry uuid w ≡ (ok staged, after)
      → (body : Bytes) × (svc.content w.0 entry.name ≡ some (entry.etag, body))
        × (rewrite_body a p plan.schema edits plan.compression body ≡ ok staged.new_bytes)
        × (staged.original_name ≡ entry.name)
        × ((bytes : Bytes)
            → staged.new_bytes ≡ some bytes
            → is_staging_name staged.staging_name ≡ true)
  unfolding stage_entry
  stage_entry-ok edits entry uuid w after staged h =
      let (body, w1, got, h1) = and_then-ok _ _ w h in
      let (rewritten, w2, lifted, h2) = and_then-ok _ _ w1 h1 in
      let (original, bytes, staging) = put_staged-ok entry uuid rewritten w2 after staged h2 in
      (
        body,
        get_body_if_match-ok svc law entry.name entry.etag body w.0 (value_eq got),
        value_eq lifted ∙ ap ok (sym bytes),
        original,
        staging,
      )

  -- The plain blobs have, in the world, what they had in the state.
  abbrev pub Same : svc.State → World svc a p → Type 0
  Same s w = (k : Bytes) → is_staging_name k ≡ false → svc.content w.0 k ≡ svc.content s k

  pub stage_all-Staged :
      (uuid : ℕ → Bytes) (s : svc.State) (ids : List ℕ) (w after : World svc a p)
      (staged : List Staged)
      → Same s w
      → All (Plain svc a p plan) ids
      → stage_all svc a p plan uuid ids w ≡ (ok staged, after)
      → AllStaged svc a p plan s ids staged
  unfolding stage_all
  stage_all-Staged uuid s [] w after staged same plain h =
      subst (AllStaged svc a p plan s []) {x = []} (ok_eq (value_eq h)) tt
  stage_all-Staged uuid s (id ∷ ids) w after staged same (plain, plains) h =
      let (entry, w1, listed, h1) = and_then-ok _ _ w h in
      let (edits, w2, edited, h2) = and_then-ok _ _ w1 h1 in
      let (first, w3, staged_first, h3) = and_then-ok _ _ w2 h2 in
      let (others, w4, staged_others, h4) = and_then-ok _ _ w3 h3 in
      let w_same : w ≡ w2 = state_eq listed ∙ state_eq edited in
      let found =
        or_else-some (get_elem? plan.blob_table id) schema_mismatch entry (value_eq listed) in
      let (body, stored, rewritten, original, staging) =
        stage_entry-ok edits entry (uuid id) w2 w3 first staged_first in
      let same3 : Same s w3 = λ k k_plain.
        subst (λ v. svc.content v.0 k ≡ svc.content s k) (state_eq staged_first)
          ((stage_entry-Keeps svc law a p k (svc.content s k) k_plain plan edits entry
              (uuid id)).kept
            w2 (subst (λ v. svc.content v.0 k ≡ svc.content s k) w_same (same k k_plain))) in
      subst (AllStaged svc a p plan s (id ∷ ids)) (ok_eq (value_eq h4)) (
        record {
          entry = entry;
          edits = edits;
          body = body;
          listed = found;
          edited = or_else-some (lookup id plan.edits) schema_mismatch edits (value_eq edited);
          original = original;
          staging = staging;
          stored =
              sym (same entry.name (plain entry found))
              ∙ subst (λ v. svc.content v.0 entry.name ≡ some (entry.etag, body)) (sym w_same)
                  stored;
          rewritten = rewritten;
        },
        stage_all-Staged uuid s ids w3 w4 others same3 plains staged_others,
      )

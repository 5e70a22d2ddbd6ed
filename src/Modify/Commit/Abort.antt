-- ===== src/Modify/Commit/Abort.antt =====
-- A statement whose transaction ends (src/fdw/modify/coordinator.rs): the staging blobs in flight.
use parquet_azure_fdw.Prelude.{
  ℕ, ◌≡◌, refl, ◌∙◌, true, false, List, [], ◌∷◌, Option, none, some, Bytes, bytes_eq, any, keys,
  sort_unstable, All, Bool-cases, inl, inr, not, ◌||◌, is_empty,
}
use parquet_azure_fdw.Error.Exec.{Keeps, Keeps-and_then}
use parquet_azure_fdw.Azure.{BlobService, IsConditional, is_staging_name, delete_unconditional}
use parquet_azure_fdw.Modify.BlobTable.{BlobIdEntry}
use parquet_azure_fdw.Modify.Kernel.{Arrow}
use parquet_azure_fdw.Modify.Coordinator.{
  with_active, Active, XactEvent, abort, parallel_abort, commit, parallel_commit, other_event,
  is_abort, is_commit, xact_cb, sweep, register_staging, mark_committed, make_staging_name,
}
use parquet_azure_fdw.Modify.Commit.{
  Parquet, Staged, World, Commit, put_staged, stage_entry, stage_all, swap_bytes, swap_all,
  commit_plan,
}
use parquet_azure_fdw.Modify.Commit.Staging.{not_staging, make_staging_name-is_staging_name}
use parquet_azure_fdw.Modify.Commit.Laws.{Plain, Elsewhere}
use parquet_azure_fdw.Modify.Commit.Outcome.{commit_plan-content}

-- The staging blobs of the open statement, if any, follow the staging convention.
abbrev pub InFlight : Active → Type 0
InFlight none = Unit
InFlight (some names) = All (λ name. is_staging_name name ≡ true) names

register_staging-InFlight :
    (name : Bytes) (slot : Active)
    → is_staging_name name ≡ true
    → InFlight slot
    → InFlight (with_active (register_staging name) slot)
unfolding register_staging
register_staging-InFlight name none h hs = tt
register_staging-InFlight name (some names) h hs = elim (Bool-cases (any (bytes_eq name) names)) [
  | inl e ↦ rw e hs
  | inr e ↦ rw e (h, hs)
]

mark_committed-InFlight :
    (name : Bytes) (names : List Bytes)
    → InFlight (some names)
    → InFlight (some (mark_committed name names))
unfolding mark_committed
mark_committed-InFlight name [] hs = tt
mark_committed-InFlight name (n ∷ names) (h, hs) = elim (Bool-cases (bytes_eq name n)) [
  | inl e ↦ rw e (mark_committed-InFlight name names hs)
  | inr e ↦ rw e (h, mark_committed-InFlight name names hs)
]

with_active-InFlight :
    (name : Bytes) (slot : Active)
    → InFlight slot
    → InFlight (with_active (mark_committed name) slot)
with_active-InFlight name none hs = tt
with_active-InFlight name (some names) hs = mark_committed-InFlight name names hs

module _ (svc : BlobService) (a : Arrow) (p : Parquet a) where
  abbrev Tracked : World svc a p → Type 0
  Tracked w = InFlight w.1

  put_staged-Tracked :
      (entry : BlobIdEntry) (uuid : Bytes) (rewritten : Option Bytes)
      → Keeps Tracked (put_staged svc a p entry (make_staging_name uuid entry.name) rewritten)
  unfolding put_staged
  put_staged-Tracked entry uuid none = record { kept = λ w h. h }
  put_staged-Tracked entry uuid (some bytes) =
      let name = make_staging_name uuid entry.name in
      Keeps-and_then Tracked _ _
        (record {
          kept = λ (s, slot) h.
              register_staging-InFlight name slot
                (make_staging_name-is_staging_name uuid entry.name) h;
        })
        λ registered.
          Keeps-and_then Tracked _ _ (record { kept = λ w h. h }) λ etag. record { kept = λ w h. h }

  stage_all-Tracked :
      (plan : Commit svc a p) (uuid : ℕ → Bytes) (ids : List ℕ)
      → Keeps Tracked (stage_all svc a p plan uuid ids)
  unfolding stage_all stage_entry
  stage_all-Tracked plan uuid [] = record { kept = λ w h. h }
  stage_all-Tracked plan uuid (id ∷ ids) =
      Keeps-and_then Tracked _ _ (record { kept = λ w h. h })
        λ entry.
          Keeps-and_then Tracked _ _ (record { kept = λ w h. h })
            λ edits.
              Keeps-and_then Tracked _ _
                (Keeps-and_then Tracked _ _ (record { kept = λ w h. h })
                  λ body.
                    Keeps-and_then Tracked _ _ (record { kept = λ w h. h })
                      λ rewritten. put_staged-Tracked entry (uuid id) rewritten)
                λ staged.
                  Keeps-and_then Tracked _ _ (stage_all-Tracked plan uuid ids)
                    λ others. record { kept = λ w h. h }

  swap_bytes-Tracked :
      (staged : Staged) (new_bytes : Option Bytes)
      → Keeps Tracked (swap_bytes svc a p staged new_bytes)
  unfolding swap_bytes
  swap_bytes-Tracked staged none = record { kept = λ w h. h }
  swap_bytes-Tracked staged (some bytes) =
      Keeps-and_then Tracked _ _ (record { kept = λ w h. h })
        λ etag.
          Keeps-and_then Tracked _ _ (record { kept = λ w h. h })
            λ ignored. record {
              kept = λ (s, slot) h. with_active-InFlight staged.staging_name slot h;
            }

  swap_all-Tracked : (staged : List Staged) → Keeps Tracked (swap_all svc a p staged)
  unfolding swap_all
  swap_all-Tracked [] = record { kept = λ w h. h }
  swap_all-Tracked (staged ∷ others) =
      Keeps-and_then Tracked _ _ (swap_bytes-Tracked staged staged.new_bytes)
        λ swapped. swap_all-Tracked others

  commit_plan-Tracked :
      (plan : Commit svc a p) (uuid : ℕ → Bytes) → Keeps Tracked (commit_plan svc a p plan uuid)
  unfolding commit_plan
  commit_plan-Tracked plan uuid =
      Keeps-and_then Tracked _ _ (stage_all-Tracked plan uuid (sort_unstable (keys plan.edits)))
        λ staged. swap_all-Tracked staged

module _ (svc : BlobService) (law : IsConditional svc) where
  sweep-content :
      (k : Bytes) (names : List Bytes) (s : svc.State)
      → is_staging_name k ≡ false
      → InFlight (some names)
      → svc.content (sweep svc names s) k ≡ svc.content s k
  unfolding sweep delete_unconditional
  sweep-content k [] s h hs = refl
  sweep-content k (name ∷ names) s h (staging, hs) =
      sweep-content k names (svc.delete_blob s name).1 h hs
      ∙ law.content-delete_blob s name k (not_staging k name h staging)

  xact_cb-content :
      (event : XactEvent) (slot : Active) (s : svc.State) (k : Bytes)
      → is_staging_name k ≡ false
      → InFlight slot
      → svc.content (xact_cb svc event (slot, s)).1 k ≡ svc.content s k
  unfolding xact_cb is_abort is_commit
  xact_cb-content other_event slot s k h hs = refl
  xact_cb-content commit none s k h hs = refl
  xact_cb-content commit (some names) s k h hs = refl
  xact_cb-content parallel_commit none s k h hs = refl
  xact_cb-content parallel_commit (some names) s k h hs = refl
  xact_cb-content abort none s k h hs = refl
  xact_cb-content abort (some []) s k h hs = refl
  xact_cb-content abort (some (name ∷ names)) s k h hs = sweep-content k (name ∷ names) s h hs
  xact_cb-content parallel_abort none s k h hs = refl
  xact_cb-content parallel_abort (some []) s k h hs = refl
  xact_cb-content parallel_abort (some (name ∷ names)) s k h hs =
      sweep-content k (name ∷ names) s h hs

  xact_cb-closed :
      (event : XactEvent) (slot : Active) (s : svc.State)
      → (is_abort event || is_commit event) ≡ true
      → (xact_cb svc event (slot, s)).0 ≡ none
  unfolding xact_cb
  xact_cb-closed event none s h = rw (xact_cb, h) refl
  xact_cb-closed event (some names) s h =
      elim (Bool-cases (not (is_abort event) || is_empty names)) [
        | inl e ↦ rw (xact_cb, h, e) refl
        | inr e ↦ rw (xact_cb, h, e) refl
      ]

  -- However a commit ends, the end of its transaction, aborted or committed, leaves a blob outside
  -- the staging convention that has the name of no edited blob as it was before the commit, and no
  -- statement open; where no edited blob has a name of the staging convention, and the staging
  -- blobs of the statement all have one.
  pub xact_cb-commit_plan :
      (a : Arrow) (p : Parquet a) (plan : Commit svc a p) (uuid : ℕ → Bytes) (s : svc.State)
      (slot : Active) (event : XactEvent) (k : Bytes)
      → (is_abort event || is_commit event) ≡ true
      → InFlight slot
      → is_staging_name k ≡ false
      → All (Plain svc a p plan) (sort_unstable (keys plan.edits))
      → All (Elsewhere svc a p plan k) (sort_unstable (keys plan.edits))
      → (svc.content
            (xact_cb svc event (
              (commit_plan svc a p plan uuid (s, slot)).1.1,
              (commit_plan svc a p plan uuid (s, slot)).1.0,
            )).1
            k
          ≡ svc.content s k)
        × ((xact_cb svc event (
          (commit_plan svc a p plan uuid (s, slot)).1.1,
          (commit_plan svc a p plan uuid (s, slot)).1.0,
        )).0
            ≡ none)
  xact_cb-commit_plan a p plan uuid s slot event k ends in_flight k_plain plain apart =
      let w = commit_plan svc a p plan uuid (s, slot) in
      (
        xact_cb-content event w.1.1 w.1.0 k k_plain
              ((commit_plan-Tracked svc a p plan uuid).kept (s, slot) in_flight)
            ∙ commit_plan-content svc law a p plan uuid (s, slot) k k_plain plain apart,
        xact_cb-closed event w.1.1 w.1.0 ends,
      )

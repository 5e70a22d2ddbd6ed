-- ===== src/Modify/Coordinator.antt =====
-- src/fdw/modify/coordinator.rs: the staging blobs of a statement in flight, and their removal when
-- the transaction aborts.
use parquet_azure_fdw.Prelude.{
  ◌-◌, Bool, true, false, not, ◌||◌, ◌&&◌, List, [], ◌∷◌, ◌++◌, Option, none, some, Bytes, codes,
  bytes_eq, leb, length, take, drop, any, if◌then◌else◌, is_empty,
}
use parquet_azure_fdw.Azure.{BlobService, delete_unconditional}

-- A `HashSet` of names, by its elements
abbrev pub StatementCoordinator : Type 0
StatementCoordinator = List Bytes

unfoldable pub register_staging : Bytes → StatementCoordinator → StatementCoordinator
register_staging name in_flight =
    if any (bytes_eq name) in_flight then in_flight else name ∷ in_flight

unfoldable pub mark_committed : Bytes → StatementCoordinator → StatementCoordinator
mark_committed name [] = []
mark_committed name (other ∷ in_flight) =
    let rest = mark_committed name in_flight in if bytes_eq name other then rest else other ∷ rest

-- `s.strip_suffix(suffix).unwrap_or(s)`
abbrev pub without_suffix : Bytes → Bytes → Bytes
without_suffix suffix s =
    let stem_length = length s - length suffix in
    if leb (length suffix) (length s) && bytes_eq (drop stem_length s) suffix
    then take stem_length s
    else s

-- `Uuid::new_v4().simple()` is a parameter.
unfoldable pub make_staging_name : Bytes → Bytes → Bytes
make_staging_name uuid original =
    without_suffix (codes ".parquet") original ++ codes ".tmp." ++ uuid ++ codes ".parquet"

-- The thread-local slot; the client in it is the one that the commit uses.
abbrev pub Active : Type 0
Active = Option StatementCoordinator

-- Any prior slot is replaced.
unfoldable pub open_statement : Active → Active
open_statement slot = some []

-- Staging blobs that are left are orphans, with a warning.
unfoldable pub close_statement_success : Active → Active
close_statement_success slot = none

abbrev pub with_active : (StatementCoordinator → StatementCoordinator) → Active → Active
with_active f none = none
with_active f (some coord) = some (f coord)

-- `pg_sys::XactEvent`; `other_event` has the ones before and around a commit.
pub data XactEvent : Type 0 where
  abort parallel_abort commit parallel_commit other_event : XactEvent

unfoldable pub is_abort : XactEvent → Bool
is_abort abort = true
is_abort parallel_abort = true
is_abort event = false

unfoldable pub is_commit : XactEvent → Bool
is_commit commit = true
is_commit parallel_commit = true
is_commit event = false

module _ (svc : BlobService) where
  -- An error of one deletion is only logged.
  unfoldable pub sweep : List Bytes → svc.State → svc.State
  sweep [] s = s
  sweep (name ∷ pending) s =
      let (result, after) = delete_unconditional svc name s in sweep pending after

  unfoldable pub xact_cb : XactEvent → Active × svc.State → Active × svc.State
  xact_cb event (slot, s) =
      if not (is_abort event || is_commit event) then (slot, s) else elim slot [
        | none ↦ (none, s)
        | some in_flight ↦
            if not (is_abort event) || is_empty in_flight
            then (none, s)
            else (none, sweep in_flight s)
      ]

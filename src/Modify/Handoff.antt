-- ===== src/Modify/Handoff.antt =====
-- src/fdw/modify/scan_handoff.rs: the blob lists that scans publish for the modify node over the
-- same relation. A stack has its top first, and the map of the source, which only lookups and
-- removals by key use, is the list of its entries.
pub mod Laws
use parquet_azure_fdw.Prelude.{
  ℕ, ◌≡◌, arith, List, [], ◌∷◌, ◌==◌, Option, none, some, if◌then◌else◌, length, is_empty,
}
use parquet_azure_fdw.Error.{FdwResult, ok, err, schema_mismatch}
use parquet_azure_fdw.Modify.BlobTable.{Blob}

abbrev pub HandoffStack : Type 0
HandoffStack = List (List Blob)

abbrev pub Handoff : Type 0
Handoff = List (ℕ × HandoffStack)

unfoldable pub entry_of : ℕ → Handoff → Option HandoffStack
entry_of relid [] = none
entry_of relid ((k, stack) ∷ h) = if k == relid then some stack else entry_of relid h

-- `insert` of a map: the entry is replaced where it stands, or added.
unfoldable pub set_entry : ℕ → HandoffStack → Handoff → Handoff
set_entry relid stack [] = (relid, stack) ∷ []
set_entry relid stack ((k, old) ∷ h) =
    if k == relid then (k, stack) ∷ h else (k, old) ∷ set_entry relid stack h

unfoldable pub remove_entry : ℕ → Handoff → Handoff
remove_entry relid [] = []
remove_entry relid ((k, old) ∷ h) =
    if k == relid then remove_entry relid h else (k, old) ∷ remove_entry relid h

-- `entry(relid).or_default().push(blobs)`
unfoldable pub publish : ℕ → List Blob → Handoff → Handoff
unfolding entry_of set_entry
publish relid blobs h = elim (entry_of relid h) [
  | none ↦ set_entry relid (blobs ∷ []) h
  | some stack ↦ set_entry relid (blobs ∷ stack) h
]

-- The pop, and the removal of an entry that it leaves empty.
unfoldable pub pop_entry : ℕ → HandoffStack → Handoff → Option (List Blob) × Handoff
unfolding set_entry remove_entry
pop_entry relid [] h = (none, remove_entry relid h)
pop_entry relid (v ∷ stack) h =
    (some v, (if is_empty stack then remove_entry relid h else set_entry relid stack h))

unfoldable pub take_handoff : ℕ → Handoff → Option (List Blob) × Handoff
unfolding entry_of pop_entry
take_handoff relid h = elim (entry_of relid h) [
  | none ↦ (none, h)
  | some stack ↦ pop_entry relid stack h
]

unfoldable pub stacked_count : ℕ → Handoff → ℕ
unfolding entry_of
stacked_count relid h = elim (entry_of relid h) [ none ↦ 0 | some stack ↦ length stack ]

unfoldable pub take_unique : ℕ → Handoff → FdwResult (Option (List Blob)) × Handoff
unfolding entry_of pop_entry remove_entry
take_unique relid h = elim (entry_of relid h) [
  | none ↦ (ok none, h)
  | some [] ↦ let (v, h') = pop_entry relid [] h in (ok v, h')
  | some (top ∷ []) ↦ let (v, h') = pop_entry relid (top ∷ []) h in (ok v, h')
  | some (top ∷ next ∷ stack) ↦ (err schema_mismatch, remove_entry relid h)
]

unfoldable pub discard : ℕ → Handoff → Handoff
unfolding entry_of pop_entry
discard relid h = elim (entry_of relid h) [
  | none ↦ h
  | some stack ↦ let (v, h') = pop_entry relid stack h in h'
]

-- ===== src/Modify/Handoff/Laws.antt =====
-- What `take` and `take_unique` of src/fdw/modify/scan_handoff.rs do after publications.
use parquet_azure_fdw.Prelude.{
  ℕ, ◌≡◌, ◌≢◌, refl, arith, ap, sym, ◌∙◌, true, List, [], ◌∷◌, ◌==◌, ==_refl, ==_iff, Option, none,
  some, if◌then◌else◌, Option-cases, inl, inr,
}
use parquet_azure_fdw.Error.{ok, err, schema_mismatch}
use parquet_azure_fdw.Modify.BlobTable.{Blob}
use parquet_azure_fdw.Modify.Handoff.{
  Handoff, HandoffStack, entry_of, set_entry, remove_entry, publish, pop_entry, take_handoff,
  take_unique,
}

-- The count of an entry that was set or removed, for its key and for the others.
entry_of-set :
    (relid k : ℕ) (stack : HandoffStack) (h : Handoff)
    → entry_of k (set_entry relid stack h) ≡ (if relid == k then some stack else entry_of k h)
unfolding entry_of set_entry
entry_of-set relid k stack [] = ground arith
entry_of-set relid k stack ((j, old) ∷ h) = ground (arith, entry_of-set relid k stack h)

entry_of-remove :
    (relid k : ℕ) (h : Handoff)
    → entry_of k (remove_entry relid h) ≡ (if relid == k then none else entry_of k h)
unfolding entry_of remove_entry
entry_of-remove relid k [] = ground arith
entry_of-remove relid k ((j, old) ∷ h) = ground (arith, entry_of-remove relid k h)

-- What a publication leaves for each relation: one more list for its own.
abbrev pushed : Option HandoffStack → List Blob → HandoffStack
pushed none blobs = blobs ∷ []
pushed (some stack) blobs = blobs ∷ stack

entry_of-publish :
    (relid k : ℕ) (blobs : List Blob) (h : Handoff)
    → entry_of k (publish relid blobs h)
      ≡ (if relid == k then some (pushed (entry_of relid h) blobs) else entry_of k h)
unfolding publish
entry_of-publish relid k blobs h = elim (Option-cases (entry_of relid h)) [
  | inl e ↦ rw (e, publish) (entry_of-set relid k (blobs ∷ []) h)
  | inr (stack, e) ↦ rw (e, publish) (entry_of-set relid k (blobs ∷ stack) h)
]

entry_of-publish_same :
    (relid : ℕ) (blobs : List Blob) (h : Handoff)
    → entry_of relid (publish relid blobs h) ≡ some (pushed (entry_of relid h) blobs)
entry_of-publish_same relid blobs h = entry_of-publish relid relid blobs h ∙ rw (==_refl relid) refl

-- No stack of the map is empty: the state between the calls.
abbrev pub NoEmpty : Handoff → Type 0
NoEmpty h = (k : ℕ) → entry_of k h ≢ some []

same_entry : (relid k : ℕ) (h : Handoff) → (relid == k) ≡ true → entry_of k h ≡ entry_of relid h
same_entry relid k h e =
    let same : relid ≡ k = (==_iff relid k).0 e in ap (λ i. entry_of i h) (sym same)

-- Popping what was pushed onto the stack of `relid`.
popped :
    (relid k : ℕ) (blobs : List Blob) (h : Handoff) (o : Option HandoffStack)
    → entry_of relid h ≡ o
    → o ≢ some []
    → entry_of k (pop_entry relid (pushed o blobs) (publish relid blobs h)).1 ≡ entry_of k h
unfolding pop_entry
popped relid k blobs h none e ne =
    entry_of-remove relid k (publish relid blobs h)
    ∙ ground (arith, entry_of-publish relid k blobs h, same_entry relid k h, e)
popped relid k blobs h (some []) e ne = elim (ne refl) [ ]
popped relid k blobs h (some (top ∷ stack)) e ne =
    entry_of-set relid k (top ∷ stack) (publish relid blobs h)
    ∙ ground (arith, entry_of-publish relid k blobs h, same_entry relid k h, e)

pop-pushed :
    (relid : ℕ) (blobs : List Blob) (h : Handoff) (o : Option HandoffStack)
    → (pop_entry relid (pushed o blobs) h).0 ≡ some blobs
unfolding pop_entry
pop-pushed relid blobs h none = refl
pop-pushed relid blobs h (some stack) = refl

take-entry :
    (relid : ℕ) (h : Handoff) (stack : HandoffStack)
    → entry_of relid h ≡ some stack
    → take_handoff relid h ≡ pop_entry relid stack h
unfolding take_handoff
take-entry relid h stack e = rw (e, take_handoff) refl

-- A list that was just published is what `take` returns, whatever was published for this relation
-- or others before, and every relation's stack is then as it was before the publication. No stack
-- is empty before.
pub take_handoff-publish :
    (relid k : ℕ) (blobs : List Blob) (h : Handoff)
    → NoEmpty h
    → ((take_handoff relid (publish relid blobs h)).0 ≡ some blobs)
      × (entry_of k (take_handoff relid (publish relid blobs h)).1 ≡ entry_of k h)
take_handoff-publish relid k blobs h ne =
    let taken = take-entry relid (publish relid blobs h) _ (entry_of-publish_same relid blobs h) in
    (
      ap (λ r. r.0) taken ∙ pop-pushed relid blobs (publish relid blobs h) (entry_of relid h),
      ap (λ r. entry_of k r.1) taken ∙ popped relid k blobs h (entry_of relid h) refl (ne relid),
    )

unique-entry :
    (relid k : ℕ) (h : Handoff) (o : Option HandoffStack)
    → entry_of relid h ≡ o
    → entry_of k (take_unique relid h).1 ≡ (if relid == k then none else entry_of k h)
unfolding take_unique pop_entry
unique-entry relid k h none e = rw (e, take_unique) (ground (arith, same_entry relid k h, e))
unique-entry relid k h (some []) e = rw (e, take_unique) (entry_of-remove relid k h)
unique-entry relid k h (some (top ∷ [])) e = rw (e, take_unique) (entry_of-remove relid k h)
unique-entry relid k h (some (top ∷ next ∷ stack)) e =
    rw (e, take_unique) (entry_of-remove relid k h)

unique-result :
    (relid : ℕ) (h : Handoff) (top : List Blob)
    → entry_of relid h ≡ some (top ∷ [])
    → (take_unique relid h).0 ≡ ok (some top)
unfolding take_unique pop_entry
unique-result relid h top e = rw (e, take_unique) refl

unique-refused :
    (relid : ℕ) (h : Handoff) (top next : List Blob) (stack : HandoffStack)
    → entry_of relid h ≡ some (top ∷ next ∷ stack)
    → (take_unique relid h).0 ≡ err schema_mismatch
unfolding take_unique
unique-refused relid h top next stack e = rw (e, take_unique) refl

-- Where a relation has nothing published, `take_unique` after one publication returns the published
-- list, and after two it refuses with an error whichever was first; either way the relation has
-- nothing published afterwards and every other relation has what it had.
pub take_unique-publish :
    (relid k : ℕ) (first second : List Blob) (h : Handoff)
    → entry_of relid h ≡ none
    → ((take_unique relid (publish relid first h)).0 ≡ ok (some first))
      × ((take_unique relid (publish relid second (publish relid first h))).0 ≡ err schema_mismatch)
      × (entry_of k (take_unique relid (publish relid first h)).1 ≡ entry_of k h)
      × (entry_of k (take_unique relid (publish relid second (publish relid first h))).1
          ≡ entry_of k h)
take_unique-publish relid k first second h nothing =
    let one : entry_of relid (publish relid first h) ≡ some (first ∷ []) =
      entry_of-publish_same relid first h ∙ ap (λ o. some (pushed o first)) nothing in
    let two : entry_of relid (publish relid second (publish relid first h))
        ≡ some (second ∷ first ∷ []) =
      entry_of-publish_same relid second (publish relid first h)
      ∙ ap (λ o. some (pushed o second)) one in
    let once = entry_of-publish relid k first h in
    let twice = entry_of-publish relid k second (publish relid first h) in
    (
      unique-result relid _ first one,
      unique-refused relid _ second first [] two,
      unique-entry relid k _ _ one ∙ ground (arith, once, same_entry relid k h, nothing),
      unique-entry relid k _ _ two ∙ ground (arith, once, twice, same_entry relid k h, nothing),
    )

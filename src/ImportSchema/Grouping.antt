-- ===== src/ImportSchema/Grouping.antt =====
-- The tables that src/fdw/import_schema.rs makes of the blobs of a container.
use parquet_azure_fdw.Prelude.{
  ◌≡◌, refl, sym, ap, ◌∙◌, arith, false, List, [], ◌∷◌, ◌++◌, Bytes, bytes_eq, if◌then◌else◌, All,
  Bool-cases, inl, inr, append-nil, bytes_eq_refl, ◌||◌, subst, append_assoc, true, bytes_eq→eq,
}
use parquet_azure_fdw.ImportSchema.{
  directory_of, TextMap, text_keys, push_existing, claimed, text_lt, insert_entry, push_entry,
  group_by_dir, claim_tables, table_of,
}

-- The blobs of the directory, in their order.
unfoldable pub in_dir : Bytes → List Bytes → List Bytes
in_dir dir [] = []
in_dir dir (blob ∷ blobs) =
    let rest = in_dir dir blobs in if bytes_eq (directory_of blob) dir then blob ∷ rest else rest

in_dir-append :
    (dir : Bytes) (xs ys : List Bytes) → in_dir dir (xs ++ ys) ≡ in_dir dir xs ++ in_dir dir ys
unfolding in_dir
in_dir-append dir [] ys = refl
in_dir-append dir (x ∷ xs) ys = ground (arith, in_dir-append dir xs ys)

-- Each entry has the blobs of its directory among those seen, and a directory without an entry has
-- none.
record IsGrouped (seen : List Bytes) (by_dir : TextMap (List Bytes)) : Type 0 where
  entries : All (λ e. e.1 ≡ in_dir e.0 seen) by_dir
  complete : (dir : Bytes) → claimed dir (text_keys by_dir) ≡ false → in_dir dir seen ≡ []

in_dir-last :
    (dir blob : Bytes) (seen : List Bytes)
    → in_dir dir (seen ++ blob ∷ [])
      ≡ (if bytes_eq (directory_of blob) dir then in_dir dir seen ++ blob ∷ [] else in_dir dir seen)
unfolding in_dir
in_dir-last dir blob seen =
    in_dir-append dir seen (blob ∷ []) ∙ (elim (Bool-cases (bytes_eq (directory_of blob) dir)) [
      | inl e ↦ rw (in_dir, e) refl
      | inr e ↦ rw (in_dir, e) (append-nil (in_dir dir seen))
    ])

push_existing-entries :
    (blob : Bytes) (seen : List Bytes) (by_dir : TextMap (List Bytes))
    → All (λ e. e.1 ≡ in_dir e.0 seen) by_dir
    → All
        (λ e. e.1 ≡ in_dir e.0 (seen ++ blob ∷ []))
        (push_existing (directory_of blob) blob by_dir)
unfolding push_existing
push_existing-entries blob seen [] h = tt
push_existing-entries blob seen ((key, blobs) ∷ by_dir) (h, hs) = (
  (elim (Bool-cases (bytes_eq (directory_of blob) key)) [
    | inl e ↦ rw e (ap (λ bs. bs ++ blob ∷ []) h)
    | inr e ↦ rw e h
  ])
      ∙ sym (in_dir-last key blob seen),
  push_existing-entries blob seen by_dir hs,
)

first_entry :
    (blob : Bytes) (seen : List Bytes)
    → in_dir (directory_of blob) seen ≡ []
    → blob ∷ [] ≡ in_dir (directory_of blob) (seen ++ blob ∷ [])
first_entry blob seen none_seen =
    rw (in_dir-last (directory_of blob) blob seen, bytes_eq_refl (directory_of blob), none_seen)
      refl

-- Entries of other directories are as they were.
entries_kept :
    (blob : Bytes) (seen : List Bytes) (by_dir : TextMap (List Bytes))
    → claimed (directory_of blob) (text_keys by_dir) ≡ false
    → All (λ e. e.1 ≡ in_dir e.0 seen) by_dir
    → All (λ e. e.1 ≡ in_dir e.0 (seen ++ blob ∷ [])) by_dir
entries_kept blob seen [] fresh h = tt
entries_kept blob seen ((key, blobs) ∷ by_dir) fresh (h, hs) =
    let apart : bytes_eq (directory_of blob) key ≡ false = ground (arith, fresh) in
    (
      rw (in_dir-last key blob seen, apart) h,
      entries_kept blob seen by_dir (ground (arith, fresh)) hs,
    )

insert_entry-entries :
    (blob : Bytes) (seen : List Bytes) (by_dir : TextMap (List Bytes))
    → in_dir (directory_of blob) seen ≡ []
    → claimed (directory_of blob) (text_keys by_dir) ≡ false
    → All (λ e. e.1 ≡ in_dir e.0 seen) by_dir
    → All
        (λ e. e.1 ≡ in_dir e.0 (seen ++ blob ∷ []))
        (insert_entry (directory_of blob) (blob ∷ []) by_dir)
unfolding insert_entry
insert_entry-entries blob seen [] none_seen fresh h = (first_entry blob seen none_seen, tt)
insert_entry-entries blob seen ((key, blobs) ∷ by_dir) none_seen fresh (h, hs) =
    let apart : bytes_eq (directory_of blob) key ≡ false = ground (arith, fresh) in
    let kept : blobs ≡ in_dir key (seen ++ blob ∷ []) = rw (in_dir-last key blob seen, apart) h in
    let behind = insert_entry-entries blob seen by_dir none_seen (ground (arith, fresh)) hs in
    elim (Bool-cases (text_lt (directory_of blob) key)) [
      | inl e ↦ rw e (
        first_entry blob seen none_seen,
        (kept, entries_kept blob seen by_dir (ground (arith, fresh)) hs),
      )
      | inr e ↦ rw e (kept, behind)
    ]

claimed-push_existing :
    (dir dir' blob : Bytes) (by_dir : TextMap (List Bytes))
    → claimed dir (text_keys (push_existing dir' blob by_dir)) ≡ claimed dir (text_keys by_dir)
unfolding push_existing
claimed-push_existing dir dir' blob [] = refl
claimed-push_existing dir dir' blob ((key, blobs) ∷ by_dir) =
    ap (λ b. bytes_eq dir key || b) (claimed-push_existing dir dir' blob by_dir)

claimed-insert_entry :
    (dir dir' : Bytes) (blobs : List Bytes) (by_dir : TextMap (List Bytes))
    → claimed dir (text_keys (insert_entry dir' blobs by_dir))
      ≡ (bytes_eq dir dir' || claimed dir (text_keys by_dir))
unfolding insert_entry
claimed-insert_entry dir dir' blobs [] = refl
claimed-insert_entry dir dir' blobs ((key, others) ∷ by_dir) =
    ground (arith, claimed-insert_entry dir dir' blobs by_dir)

apart_from :
    (dir dir' : Bytes) (names : List Bytes)
    → claimed dir' names ≡ true
    → claimed dir names ≡ false
    → bytes_eq dir' dir ≡ false
apart_from dir dir' names h missing = elim (Bool-cases (bytes_eq dir' dir)) [
  | inr e ↦ e
  | inl e ↦
      let found : claimed dir names ≡ true =
        subst (λ d. claimed d names ≡ true) (bytes_eq→eq dir' dir e) h in
      cc
]

bytes_eq_sym : (a b : Bytes) → bytes_eq a b ≡ false → bytes_eq b a ≡ false
bytes_eq_sym a b h = elim (Bool-cases (bytes_eq b a)) [
  | inr e ↦ e
  | inl e ↦
      let same : bytes_eq a b ≡ true =
        subst (λ x. bytes_eq a x ≡ true) (sym (bytes_eq→eq b a e)) (bytes_eq_refl a) in
      cc
]

claimed-push_entry :
    (dir blob : Bytes) (by_dir : TextMap (List Bytes))
    → claimed dir (text_keys (push_entry (directory_of blob) blob by_dir)) ≡ false
    → (bytes_eq (directory_of blob) dir ≡ false) × (claimed dir (text_keys by_dir) ≡ false)
unfolding push_entry
claimed-push_entry dir blob by_dir h =
    let own = directory_of blob in
    elim (Bool-cases (claimed own (text_keys by_dir))) [
      | inl e ↦
          let missing : claimed dir (text_keys by_dir) ≡ false =
            sym (claimed-push_existing dir own blob by_dir) ∙ (rw (push_entry, e) at h) in
          (apart_from dir own (text_keys by_dir) e missing, missing)
      | inr e ↦
          let none_of : (bytes_eq dir own || claimed dir (text_keys by_dir)) ≡ false =
            sym (claimed-insert_entry dir own (blob ∷ []) by_dir) ∙ (rw (push_entry, e) at h) in
          (bytes_eq_sym dir own (ground (arith, none_of)), ground (arith, none_of))
    ]

push_entry-IsGrouped :
    (blob : Bytes) (seen : List Bytes) (by_dir : TextMap (List Bytes))
    → IsGrouped seen by_dir
    → IsGrouped (seen ++ blob ∷ []) (push_entry (directory_of blob) blob by_dir)
unfolding push_entry
push_entry-IsGrouped blob seen by_dir h = record {
  entries = elim (Bool-cases (claimed (directory_of blob) (text_keys by_dir))) [
    | inl e ↦ rw e (push_existing-entries blob seen by_dir h.entries)
    | inr e ↦
        rw e (insert_entry-entries blob seen by_dir (h.complete (directory_of blob) e) e h.entries)
  ];
  complete = λ dir fresh.
      let (apart, missing) = claimed-push_entry dir blob by_dir fresh in
      rw (in_dir-last dir blob seen, apart) (h.complete dir missing);
}

group_by_dir-IsGrouped :
    (blobs seen : List Bytes) (by_dir : TextMap (List Bytes))
    → IsGrouped seen by_dir
    → IsGrouped (seen ++ blobs) (group_by_dir blobs by_dir)
unfolding group_by_dir
group_by_dir-IsGrouped [] seen by_dir h = subst (λ s. IsGrouped s by_dir) (sym (append-nil seen)) h
group_by_dir-IsGrouped (blob ∷ blobs) seen by_dir h =
    subst (λ s. IsGrouped s (group_by_dir blobs (push_entry (directory_of blob) blob by_dir)))
      (append_assoc seen (blob ∷ []) blobs)
      (group_by_dir-IsGrouped blobs (seen ++ blob ∷ []) (push_entry (directory_of blob) blob by_dir)
        (push_entry-IsGrouped blob seen by_dir h))

-- No name is listed twice, or among the claimed ones.
abbrev pub Unclaimed : List Bytes → TextMap (List Bytes) → Type 0
Unclaimed names [] = Unit
Unclaimed names ((table, blobs) ∷ rest) =
    (claimed table names ≡ false) × Unclaimed (table ∷ names) rest

pub claim_tables-Unclaimed :
    (container : Bytes) (by_dir : TextMap (List Bytes)) (names : List Bytes)
    → Unclaimed names (claim_tables container by_dir names)
unfolding claim_tables
claim_tables-Unclaimed container [] names = tt
claim_tables-Unclaimed container ((dir, of_dir) ∷ by_dir) names =
    elim (Bool-cases (claimed (table_of container dir) names)) [
      | inl e ↦ rw e (claim_tables-Unclaimed container by_dir names)
      | inr e ↦ rw e (e, claim_tables-Unclaimed container by_dir (table_of container dir ∷ names))
    ]

-- Every blob's directory has an entry, and the entry of a directory has its blobs.
pub group_by_dir-entries :
    (blobs : List Bytes)
    → All (λ e. e.1 ≡ in_dir e.0 blobs) (group_by_dir blobs [])
      × ((dir : Bytes)
          → claimed dir (text_keys (group_by_dir blobs [])) ≡ false
          → in_dir dir blobs ≡ [])
unfolding in_dir
group_by_dir-entries blobs =
    let grouped =
      group_by_dir-IsGrouped blobs [] [] (record { entries = tt; complete = λ dir h. refl }) in
    (grouped.entries, grouped.complete)

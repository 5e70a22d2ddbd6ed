-- ===== src/ImportSchema/Claims.antt =====
-- The two passes of `group_blobs_by_directory` (src/fdw/import_schema.rs): the entries stand in the
-- order of their directories, so that of the directories with one table name the first claims it.
use parquet_azure_fdw.Prelude.{
  ◌≡◌, refl, sym, ap, subst, ◌∙◌, arith, true, false, List, [], ◌∷◌, ◌++◌, Bytes, bytes_eq,
  Bool-cases, inl, inr, ◌||◌, bytes_eq_refl, bytes_eq→eq, is_empty, All,
}
use parquet_azure_fdw.ImportSchema.{
  directory_of, TextMap, text_keys, push_existing, claimed, text_lt, insert_entry, push_entry,
  group_by_dir, claim_tables, table_of,
}

pub All-weaken {ℓ κ μ} :
    {A : Type ℓ} (P : A → Type κ) (Q : A → Type μ) (xs : List A)
    → ((x : A) → P x → Q x)
    → All P xs
    → All Q xs
All-weaken P Q [] f h = tt
All-weaken P Q (x ∷ xs) f (hx, h) = (f x hx, All-weaken P Q xs f h)

text_lt_irrefl : (a : Bytes) → text_lt a a ≡ false
text_lt_irrefl [] = refl
text_lt_irrefl (c ∷ a) = ground (arith, text_lt_irrefl a)

text_lt_asym : (a b : Bytes) → text_lt a b ≡ true → text_lt b a ≡ false
text_lt_asym a [] h = ground (arith, h)
text_lt_asym [] (d ∷ b) h = refl
text_lt_asym (c ∷ a) (d ∷ b) h = ground (arith, h, text_lt_asym a b)

text_lt_trans : (a b c : Bytes) → text_lt a b ≡ true → text_lt b c ≡ true → text_lt a c ≡ true
text_lt_trans a [] c h k = ground (arith, h)
text_lt_trans a (y ∷ b) [] h k = ground (arith, k)
text_lt_trans [] (y ∷ b) (z ∷ c) h k = refl
text_lt_trans (x ∷ a) (y ∷ b) (z ∷ c) h k = ground (arith, h, k, text_lt_trans a b c)

text_lt_total : (a b : Bytes) → text_lt a b ≡ false → bytes_eq a b ≡ false → text_lt b a ≡ true
text_lt_total [] [] h k = ground (arith, k)
text_lt_total (c ∷ a) [] h k = refl
text_lt_total [] (d ∷ b) h k = ground (arith, h)
text_lt_total (c ∷ a) (d ∷ b) h k = ground (arith, h, k, text_lt_total a b)

-- Behind a directory in the order of texts.
abbrev pub Behind : Bytes → TextMap (List Bytes) → Type 0
Behind dir by_dir = All (λ e. text_lt dir e.0 ≡ true) by_dir

abbrev pub InOrder : TextMap (List Bytes) → Type 0
InOrder [] = Unit
InOrder ((dir, blobs) ∷ rest) = Behind dir rest × InOrder rest

All-insert_entry {κ} :
    (P : Bytes × List Bytes → Type κ) (dir : Bytes) (blobs : List Bytes)
    (by_dir : TextMap (List Bytes))
    → P (dir, blobs)
    → All P by_dir
    → All P (insert_entry dir blobs by_dir)
unfolding insert_entry
All-insert_entry P dir blobs [] own h = (own, tt)
All-insert_entry P dir blobs ((key, others) ∷ rest) own (hk, h) =
    elim (Bool-cases (text_lt dir key)) [
      | inl e ↦ rw (e, insert_entry) (own, (hk, h))
      | inr e ↦ rw (e, insert_entry) (hk, All-insert_entry P dir blobs rest own h)
    ]

All-push_existing {κ} :
    (P : Bytes × List Bytes → Type κ) (dir blob : Bytes) (by_dir : TextMap (List Bytes))
    → ((key : Bytes) (blobs : List Bytes) → P (key, blobs) → P (key, blobs ++ blob ∷ []))
    → All P by_dir
    → All P (push_existing dir blob by_dir)
unfolding push_existing
All-push_existing P dir blob [] grow h = tt
All-push_existing P dir blob ((key, blobs) ∷ rest) grow (hk, h) =
    elim (Bool-cases (bytes_eq dir key)) [
      | inl e ↦ rw (e, push_existing) (grow key blobs hk, All-push_existing P dir blob rest grow h)
      | inr e ↦ rw (e, push_existing) (hk, All-push_existing P dir blob rest grow h)
    ]

insert_entry-InOrder :
    (dir : Bytes) (blobs : List Bytes) (by_dir : TextMap (List Bytes))
    → claimed dir (text_keys by_dir) ≡ false
    → InOrder by_dir
    → InOrder (insert_entry dir blobs by_dir)
unfolding insert_entry
insert_entry-InOrder dir blobs [] fresh h = (tt, tt)
insert_entry-InOrder dir blobs ((key, others) ∷ rest) fresh (hk, h) =
    elim (Bool-cases (text_lt dir key)) [
      | inl e ↦
          rw (e, insert_entry)
            ((e, All-weaken _ _ rest (λ x behind. text_lt_trans dir key x.0 e behind) hk), (hk, h))
      | inr e ↦
          rw (e, insert_entry)
            (
              All-insert_entry (λ x. text_lt key x.0 ≡ true) dir blobs rest
                  (text_lt_total dir key e (ground (arith, fresh))) hk,
              insert_entry-InOrder dir blobs rest (ground (arith, fresh)) h,
            )
    ]

push_existing-InOrder :
    (dir blob : Bytes) (by_dir : TextMap (List Bytes))
    → InOrder by_dir
    → InOrder (push_existing dir blob by_dir)
unfolding push_existing
push_existing-InOrder dir blob [] h = tt
push_existing-InOrder dir blob ((key, blobs) ∷ rest) (hk, h) = (
  All-push_existing (λ x. text_lt key x.0 ≡ true) dir blob rest (λ k bs behind. behind) hk,
  push_existing-InOrder dir blob rest h,
)

abbrev pub IsFilled : Bytes × List Bytes → Type 0
IsFilled e = is_empty e.1 ≡ false

append_last : (key : Bytes) (blobs : List Bytes) (blob : Bytes) → IsFilled (key, blobs ++ blob ∷ [])
append_last key [] blob = refl
append_last key (b ∷ blobs) blob = refl

pub group_by_dir-InOrder :
    (blobs : List Bytes) (by_dir : TextMap (List Bytes))
    → InOrder by_dir
    → All IsFilled by_dir
    → InOrder (group_by_dir blobs by_dir) × All IsFilled (group_by_dir blobs by_dir)
unfolding group_by_dir push_entry
group_by_dir-InOrder [] by_dir h full = (h, full)
group_by_dir-InOrder (blob ∷ blobs) by_dir h full =
    elim (Bool-cases (claimed (directory_of blob) (text_keys by_dir))) [
      | inl e ↦
          rw (e, push_entry)
            (group_by_dir-InOrder blobs _ (push_existing-InOrder (directory_of blob) blob by_dir h)
              (All-push_existing IsFilled (directory_of blob) blob by_dir
                (λ key own filled. append_last key own blob) full))
      | inr e ↦
          rw (e, push_entry)
            (group_by_dir-InOrder blobs _
              (insert_entry-InOrder (directory_of blob) (blob ∷ []) by_dir e h)
              (All-insert_entry IsFilled (directory_of blob) (blob ∷ []) by_dir refl full))
    ]

module _ (container : Bytes) (P : Bytes × List Bytes → Type 0) where
  -- A table of a directory's entry, the first of the entries that have its name.
  abbrev pub Wins : TextMap (List Bytes) → Bytes × List Bytes → Type 0
  Wins by_dir (table, of_table) =
      (dir : Bytes) × P (dir, of_table)
      × (table ≡ table_of container dir)
      × All (λ e. table_of container e.0 ≡ table → text_lt e.0 dir ≡ false) by_dir

  abbrev Free : List Bytes → TextMap (List Bytes) → Bytes × List Bytes → Type 0
  Free names by_dir out = (claimed out.0 names ≡ false) × Wins by_dir out

  -- An entry whose table name is taken is in nobody's way.
  behind_other :
      (dir : Bytes) (blobs : List Bytes) (rest : TextMap (List Bytes)) (out : Bytes × List Bytes)
      → (table_of container dir ≡ out.0 → true ≡ false)
      → Wins rest out
      → Wins ((dir, blobs) ∷ rest) out
  behind_other dir blobs rest out apart (own, h, named, first) =
      (own, h, named, ((λ e. let clash : true ≡ false = apart e in cc), first))

  pub claim_tables-Wins :
      (by_dir : TextMap (List Bytes)) (names : List Bytes)
      → InOrder by_dir
      → All P by_dir
      → All (Free names by_dir) (claim_tables container by_dir names)
  unfolding claim_tables
  claim_tables-Wins [] names h ps = tt
  claim_tables-Wins ((dir, blobs) ∷ rest) names (hd, h) (pd, ps) =
      let table = table_of container dir in
      elim (Bool-cases (claimed table names)) [
        | inl e ↦
            rw (e, claim_tables)
              (All-weaken _ (Free names ((dir, blobs) ∷ rest)) (claim_tables container rest names)
                (λ out free. (
                  free.0,
                  behind_other dir blobs rest out
                      (λ same. sym e ∙ ap (λ t. claimed t names) same ∙ free.0) free.1,
                ))
                (claim_tables-Wins rest names h ps))
        | inr e ↦
            rw (e, claim_tables)
              (
                (
                  e,
                  (
                    dir,
                    pd,
                    refl,
                    (
                      (λ same. text_lt_irrefl dir),
                      All-weaken _ _ rest (λ x behind same. text_lt_asym dir x.0 behind) hd,
                    ),
                  ),
                ),
                All-weaken _ (Free names ((dir, blobs) ∷ rest))
                    (claim_tables container rest (table ∷ names))
                    (λ out free. (
                      ground (arith, free.0),
                      behind_other dir blobs rest out
                          (λ same.
                            sym (bytes_eq_refl table)
                            ∙ ap (λ t. bytes_eq t table) same
                            ∙ ground (arith, free.0))
                          free.1,
                    ))
                    (claim_tables-Wins rest (table ∷ names) h ps),
              )
      ]

  -- The table name of every entry is claimed in the end.
  pub claim_tables-claimed :
      (by_dir : TextMap (List Bytes)) (names : List Bytes) (dir : Bytes)
      → claimed dir (text_keys by_dir) ≡ true
      → (claimed (table_of container dir) names
          || claimed (table_of container dir) (text_keys (claim_tables container by_dir names)))
        ≡ true
  unfolding claim_tables
  claim_tables-claimed [] names dir h = cc
  claim_tables-claimed ((key, blobs) ∷ rest) names dir h =
      let table = table_of container key in
      elim (Bool-cases (bytes_eq dir key)) [
        | inl e ↦
            subst
              (λ d.
                (claimed (table_of container d) names
                  || claimed (table_of container d)
                      (text_keys (claim_tables container ((key, blobs) ∷ rest) names)))
                ≡ true)
              (sym (bytes_eq→eq dir key e))
              (elim (Bool-cases (claimed table names)) [
                | inl c ↦ rw (c, claim_tables) refl
                | inr c ↦ rw (c, claim_tables, bytes_eq_refl table) refl
              ])
        | inr e ↦
            let further : claimed dir (text_keys rest) ≡ true = ground (arith, h, e) in
            elim (Bool-cases (claimed table names)) [
              | inl c ↦ rw (c, claim_tables) (claim_tables-claimed rest names dir further)
              | inr c ↦
                  rw (c, claim_tables)
                    (ground (arith, claim_tables-claimed rest (table ∷ names) dir further))
            ]
      ]

pub All-claimed {κ} :
    (P : Bytes → Type κ) (by_dir : TextMap (List Bytes)) (dir : Bytes)
    → claimed dir (text_keys by_dir) ≡ true
    → All (λ e. P e.0) by_dir
    → P dir
All-claimed P [] dir h ps = cc
All-claimed P ((key, blobs) ∷ rest) dir h (pk, ps) = elim (Bool-cases (bytes_eq dir key)) [
  | inl e ↦ subst P (sym (bytes_eq→eq dir key e)) pk
  | inr e ↦ All-claimed P rest dir (ground (arith, h, e)) ps
]

-- ===== src/Modify/Edits/Entries.antt =====
-- Lemmas on the entries of a plan (src/fdw/modify/update.rs): how many edits they hold, and what
-- holds of each.
use parquet_azure_fdw.Prelude.{
  ℕ, suc, ◌+◌, ◌≤◌, ◌≡◌, arith, List, [], ◌∷◌, ◌==◌, insert, length, All, contains_key, Bool-cases,
  inl, inr, some,
}
use parquet_azure_fdw.Error.{ok}
use parquet_azure_fdw.Modify.Kernel.{BlobEdits, no_edits}
use parquet_azure_fdw.Modify.Edits.{edits_of, insert_row}

pub All-insert {ℓ} :
    {A : Type ℓ} (Q : A → Type 0) (k : ℕ) (v : A) (m : List (ℕ × A))
    → Q v
    → All (λ e. Q e.1) m
    → All (λ e. Q e.1) (insert k v m)
All-insert Q k v [] h hs = (h, tt)
All-insert Q k v ((j, w) ∷ m) h (hw, hs) = elim (Bool-cases (j == k)) [
  | inl same ↦ rw same (h, hs)
  | inr apart ↦ rw apart (hw, All-insert Q k v m h hs)
]

module _ {X : Type 0} where
  -- The edits of a blob, and of all the blobs.
  abbrev pub weight : BlobEdits X → ℕ
  weight entry = length entry.deletes + length entry.updates

  unfoldable pub total_edits : List (ℕ × BlobEdits X) → ℕ
  total_edits [] = 0
  total_edits ((base, entry) ∷ edits) = weight entry + total_edits edits

  pub total_edits-insert :
      (base : ℕ) (entry : BlobEdits X) (edits : List (ℕ × BlobEdits X))
      → total_edits (insert base entry edits) + weight (edits_of edits base)
        ≡ total_edits edits + weight entry
  unfolding total_edits
  total_edits-insert base entry [] = omega arith
  total_edits-insert base entry ((k, e) ∷ edits) =
      grind (arith, total_edits-insert base entry edits)

  pub All-edits_of :
      (Q : BlobEdits X → Type 0) (base : ℕ) (edits : List (ℕ × BlobEdits X))
      → Q (no_edits X)
      → All (λ e. Q e.1) edits
      → Q (edits_of edits base)
  All-edits_of Q base [] h hs = h
  All-edits_of Q base ((k, e) ∷ edits) h (he, hs) = elim (Bool-cases (k == base)) [
    | inl same ↦ rw (same, edits_of) he
    | inr apart ↦ rw (apart, edits_of) (All-edits_of Q base edits h hs)
  ]

pub some_eq {ℓ} : {A : Type ℓ} {x y : A} → some x ≡ some y → x ≡ y
some_eq e = cc

pub ok_eq {ℓ} : {A : Type ℓ} {x y : A} → ok x ≡ ok y → x ≡ y
ok_eq e = cc

pub length-insert {ℓ} :
    {A : Type ℓ} (k : ℕ) (v : A) (m : List (ℕ × A)) → length (insert k v m) ≤ suc (length m)
length-insert k v [] = omega arith
length-insert k v ((j, w) ∷ m) = elim (Bool-cases (j == k)) [
  | inl same ↦ rw same (omega arith)
  | inr apart ↦ rw apart (omega (arith, length-insert k v m))
]

pub length-insert_row : (row : ℕ) (rows : List ℕ) → length (insert_row row rows) ≤ suc (length rows)
length-insert_row row rows = elim (Bool-cases (contains_key row rows)) [
  | inl e ↦ rw e (omega arith)
  | inr e ↦ rw e (omega arith)
]

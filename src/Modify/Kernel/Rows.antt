-- ===== src/Modify/Kernel/Rows.antt =====
-- The rewrite of src/fdw/modify/kernel.rs described row by row: what becomes of each value of a
-- column, with lemmas on runs of rows.
use parquet_azure_fdw.Prelude.{
  ℕ, zero, suc, ◌+◌, ◌-◌, ◌≤◌, ◌<◌, ◌≡◌, refl, ap, ap₂, ◌∙◌, arith, not, List, [], ◌∷◌, ◌++◌, none,
  some, if◌then◌else◌, length, take, drop, contains_key,
}
use parquet_azure_fdw.Modify.Kernel.{Arrow, RowOverride, BlobEdits, replacement, kept_values}
use parquet_azure_fdw.Modify.Kernel.Masks.{mask_of}

abbrev head_or {ℓ} : {A : Type ℓ} → A → List A → A
head_or x [] = x
head_or x (y ∷ ys) = y

head_or-single {ℓ} : {A : Type ℓ} (x : A) (vs : List A) → length vs ≡ 1 → head_or x vs ∷ [] ≡ vs
head_or-single x (v ∷ []) h = refl
head_or-single x [] h = absurd (omega (arith, h))
head_or-single x (v ∷ w ∷ vs) h = absurd (omega (arith, h))

pub cut {ℓ} :
    {A : Type ℓ} (i m : ℕ) (xs : List A)
    → i ≤ m
    → m < length xs
    → drop i xs ≡ take (m - i) (drop i xs) ++ (take 1 (drop m xs) ++ drop (m + 1) xs)
cut zero zero (x ∷ xs) h k = refl
cut zero (suc m) (x ∷ xs) h k = ground (arith, cut zero m xs)
cut (suc i) (suc m) (x ∷ xs) h k = ground (arith, cut i m xs)
cut i m [] h k = elim k [ ]
cut (suc i) zero (x ∷ xs) h k = elim h [ ]

pub length-take-drop {ℓ} :
    {A : Type ℓ} (i n : ℕ) (xs : List A) → i + n ≤ length xs → length (take n (drop i xs)) ≡ n
length-take-drop zero zero xs h = refl
length-take-drop zero (suc n) (x ∷ xs) h = ap suc (length-take-drop zero n xs (omega arith))
length-take-drop (suc i) n (x ∷ xs) h = length-take-drop i n xs (omega arith)
length-take-drop zero (suc n) [] h = absurd (omega (arith, h))
length-take-drop (suc i) n [] h = absurd (omega (arith, h))

take-nil {ℓ} : {A : Type ℓ} (n : ℕ) → take {A = A} n [] ≡ []
take-nil zero = refl
take-nil (suc n) = refl

pub take-all {ℓ} : {A : Type ℓ} (i : ℕ) (xs : List A) → take (length xs - i) (drop i xs) ≡ drop i xs
take-all zero [] = refl
take-all zero (x ∷ xs) = ground (arith, take-all zero xs)
take-all (suc i) [] = take-nil (0 - suc i)
take-all (suc i) (x ∷ xs) = ground (arith, take-all i xs)

pub drop-none {ℓ} : {A : Type ℓ} (i : ℕ) (xs : List A) → length xs ≤ i → drop i xs ≡ []
drop-none zero [] h = refl
drop-none zero (x ∷ xs) h = absurd (omega (arith, h))
drop-none (suc i) [] h = refl
drop-none (suc i) (x ∷ xs) h = drop-none i xs (omega arith)

pub take-none {ℓ} : {A : Type ℓ} (xs : List A) (n : ℕ) → n ≡ 0 → take n xs ≡ []
take-none xs zero h = refl
take-none xs (suc n) h = absurd (omega (arith, h))

module _ (a : Arrow) (updates : List (ℕ × RowOverride a.ArrayRef)) (col_idx : ℕ) where
  -- The value of the column at the row: its override's, where it has one.
  unfoldable pub value_at : ℕ → a.Value → a.Value
  value_at row x = elim (replacement updates col_idx row) [
    | none ↦ x
    | some r ↦ head_or x (a.values r)
  ]

  -- The values of the rows from `row` on.
  unfoldable pub overridden : ℕ → List a.Value → List a.Value
  overridden row [] = []
  overridden row (x ∷ xs) = value_at row x ∷ overridden (suc row) xs

  pub overridden-append :
      (row : ℕ) (xs ys : List a.Value)
      → overridden row (xs ++ ys) ≡ overridden row xs ++ overridden (row + length xs) ys
  unfolding overridden
  overridden-append row [] ys = ap (λ r. overridden r ys) (omega arith)
  overridden-append row (x ∷ xs) ys =
      ap (λ vs. value_at row x ∷ vs)
        (overridden-append (suc row) xs ys
          ∙ ap (λ r. overridden (suc row) xs ++ overridden r ys) (omega arith))

  value_at-none :
      (row : ℕ) (x : a.Value) → replacement updates col_idx row ≡ none → value_at row x ≡ x
  unfolding value_at
  value_at-none row x h = rw (h, value_at) refl

  pub overridden-none :
      (row : ℕ) (xs : List a.Value)
      → ((k : ℕ) → row ≤ k → k < row + length xs → replacement updates col_idx k ≡ none)
      → overridden row xs ≡ xs
  unfolding overridden
  overridden-none row [] h = refl
  overridden-none row (x ∷ xs) h =
      ap₂ (λ v vs. v ∷ vs) (value_at-none row x (h row (omega arith) (omega arith)))
        (overridden-none (suc row) xs λ k low high. h k (omega arith) (omega arith))

  pub length-overridden : (row : ℕ) (xs : List a.Value) → length (overridden row xs) ≡ length xs
  unfolding overridden
  length-overridden row [] = refl
  length-overridden row (x ∷ xs) = ap suc (length-overridden (suc row) xs)

  -- An override of one value puts that value at its row.
  pub overridden-single :
      (row : ℕ) (xs : List a.Value) (r : a.ArrayRef)
      → length xs ≡ 1
      → replacement updates col_idx row ≡ some r
      → length (a.values r) ≡ 1
      → overridden row xs ≡ a.values r
  unfolding overridden value_at
  overridden-single row (x ∷ []) r h found one =
      rw (found, overridden, value_at) (head_or-single x (a.values r) one)
  overridden-single row [] r h found one = absurd (omega (arith, h))
  overridden-single row (x ∷ y ∷ xs) r h found one = absurd (omega (arith, h))

-- The rows of a column from `row` on as the edits leave them.
unfoldable pub edited : (a : Arrow) → BlobEdits a.ArrayRef → ℕ → ℕ → List a.Value → List a.Value
edited a edits col_idx row [] = []
edited a edits col_idx row (x ∷ xs) =
    let rest = edited a edits col_idx (suc row) xs in
    if contains_key row edits.deletes then rest else value_at a edits.updates col_idx row x ∷ rest

module _ (a : Arrow) (edits : BlobEdits a.ArrayRef) (col_idx : ℕ) where
  pub edited-append :
      (row : ℕ) (xs ys : List a.Value)
      → edited a edits col_idx row (xs ++ ys)
        ≡ edited a edits col_idx row xs ++ edited a edits col_idx (row + length xs) ys
  unfolding edited
  edited-append row [] ys = ap (λ r. edited a edits col_idx r ys) (omega arith)
  edited-append row (x ∷ xs) ys = ground (arith, edited-append (suc row) xs ys)

  pub kept_values-overridden :
      (row : ℕ) (xs : List a.Value)
      → kept_values
          (mask_of (λ k. not (contains_key k edits.deletes)) row (length xs))
          (overridden a edits.updates col_idx row xs)
        ≡ edited a edits col_idx row xs
  unfolding edited overridden
  kept_values-overridden row [] = refl
  kept_values-overridden row (x ∷ xs) = ground (arith, kept_values-overridden (suc row) xs)

-- ===== src/Modify/Kernel/Columns.antt =====
-- The columns of a batch under the overrides of src/fdw/modify/kernel.rs.
use parquet_azure_fdw.Modify.Kernel.Splice.{splice-Spliced}
use parquet_azure_fdw.Error.{ok, FdwResult}
use parquet_azure_fdw.Prelude.{
  map, sym, Ascending, ℕ, zero, suc, ◌+◌, ◌≡◌, subst, arith, Bool, true, false, List, [], ◌∷◌,
  Option, none, some, ◌==◌, length, get_elem?, contains_key, any, All, Bool-cases, inl, inr, ◌<◌,
  ◌≤◌, refl, ap, ◌∙◌, ap₂, ◌≢◌, concat,
}
use parquet_azure_fdw.Modify.Kernel.{
  or_arrow, FitAll, edit_columns, edit_column, IsLawful, is_some, Arrow, RowOverride, replacement,
  override_at, splice,
}
use parquet_azure_fdw.Modify.Kernel.Rows.{length-overridden, overridden-none, overridden}

any-false :
    (p : ℕ → Bool) (k : ℕ) (hits : List ℕ)
    → any p hits ≡ false
    → contains_key k hits ≡ true
    → p k ≡ false
any-false p k (j ∷ hits) h found = elim (Bool-cases (j == k)) [
  | inl e ↦ subst (λ i. p i ≡ false) {x = j} (ground arith) (ground arith)
  | inr e ↦ any-false p k hits (ground arith) (ground arith)
]
any-false p k [] h found = cc

is_some-none {ℓ} : {A : Type ℓ} (o : Option A) → is_some o ≡ false → o ≡ none
is_some-none none h = refl
is_some-none (some x) h = cc

-- A batch with a hit has a row.
filled :
    (p : ℕ → Bool) (base n : ℕ) (hits : List ℕ)
    → any p hits ≡ true
    → Ascending base hits
    → All (λ k. k < base + n) hits
    → n ≢ 0
filled p base n (row ∷ hits) touched (low, order) (high, bound) e = absurd (omega (arith, e))
filled p base n [] touched order bound e = cc

-- The overrides of a row fit the fields, and have one value each.
abbrev pub OverrideFits : (a : Arrow) → List a.Field → List (Option a.ArrayRef) → Type 0
OverrideFits a (f ∷ fs) (some r ∷ rs) =
    (a.Fits f r × (length (a.values r) ≡ 1)) × OverrideFits a fs rs
OverrideFits a (f ∷ fs) (none ∷ rs) = OverrideFits a fs rs
OverrideFits a (f ∷ fs) [] = Unit
OverrideFits a [] rs = Unit

module _ (a : Arrow) where
  -- The column's overrides fit the field, and have one value each.
  abbrev pub Single : a.Field → List (ℕ × RowOverride a.ArrayRef) → ℕ → Type 0
  Single f updates c =
      (k : ℕ) (r : a.ArrayRef)
      → replacement updates c k ≡ some r
      → a.Fits f r × (length (a.values r) ≡ 1)

  override_at-Fits :
      (fs : List a.Field) (rs : List (Option a.ArrayRef)) (c : ℕ) (f : a.Field) (r : a.ArrayRef)
      → OverrideFits a fs rs
      → get_elem? fs c ≡ some f
      → get_elem? rs c ≡ some (some r)
      → a.Fits f r × (length (a.values r) ≡ 1)
  override_at-Fits (f ∷ fs) (some r ∷ rs) zero f' r' (h, hs) e e' =
      let field : f ≡ f' = cc in
      let override : r ≡ r' = cc in
      subst (λ g. a.Fits g r' × (length (a.values r') ≡ 1)) field
        (subst (λ s. a.Fits f s × (length (a.values s) ≡ 1)) override h)
  override_at-Fits (f ∷ fs) (some r ∷ rs) (suc c) f' r' (h, hs) e e' =
      override_at-Fits fs rs c f' r' hs e e'
  override_at-Fits (f ∷ fs) (none ∷ rs) zero f' r' h e e' = cc
  override_at-Fits (f ∷ fs) (none ∷ rs) (suc c) f' r' h e e' = override_at-Fits fs rs c f' r' h e e'
  override_at-Fits (f ∷ fs) [] c f' r' h e e' = cc
  override_at-Fits [] rs c f' r' h e e' = cc

  override_at-some :
      (ovr : RowOverride a.ArrayRef) (c : ℕ) (r : a.ArrayRef)
      → override_at ovr c ≡ some r
      → get_elem? ovr.values c ≡ some (some r)
  unfolding override_at
  override_at-some ovr c r h = ground arith

  pub replacement-Single :
      (fs : List a.Field) (c : ℕ) (f : a.Field) (updates : List (ℕ × RowOverride a.ArrayRef))
      → All (λ entry. OverrideFits a fs entry.1.values) updates
      → get_elem? fs c ≡ some f
      → Single f updates c
  unfolding replacement
  replacement-Single fs c f [] h e k r found = cc
  replacement-Single fs c f ((j, ovr) ∷ updates) (h, hs) e k r found = elim (Bool-cases (j == k)) [
    | inl same ↦ override_at-Fits fs ovr.values c f r h e (override_at-some ovr c r (ground arith))
    | inr apart ↦ replacement-Single fs c f updates hs e k r (ground arith)
  ]

  -- The columns as the overrides leave them.
  unfoldable pub overridden_columns :
      List (ℕ × RowOverride a.ArrayRef) → ℕ → ℕ → List (List a.Value) → List (List a.Value)
  overridden_columns updates base c [] = []
  overridden_columns updates base c (vs ∷ vss) =
      overridden a updates c base vs ∷ overridden_columns updates base (c + 1) vss

module _ (a : Arrow) (lawful : IsLawful a) (updates : List (ℕ × RowOverride a.ArrayRef))
    (base n : ℕ) (hits : List ℕ) where
  -- The rows of the batch with an override, in order.
  pub record IsHits : Type 0 where
    pub order : Ascending base hits
    pub bound : All (λ k. k < base + n) hits
    pub complete :
        (c k : ℕ)
        → base ≤ k
        → k < base + n
        → contains_key k hits ≡ false
        → replacement updates c k ≡ none

  abbrev pub EditedColumn : a.Field → ℕ → a.ArrayRef → FdwResult a.ArrayRef → Type 0
  EditedColumn f c col result =
      (edited : a.ArrayRef) × (result ≡ ok edited)
      × a.Fits f edited
      × (a.values edited ≡ overridden a updates c base (a.values col))

  pub edit_column-Edited :
      (f : a.Field) (c : ℕ) (col : a.ArrayRef)
      → IsHits
      → a.Fits f col
      → length (a.values col) ≡ n
      → Single a f updates c
      → EditedColumn f c col (edit_column a n base updates hits c col)
  unfolding edit_column
  edit_column-Edited f c col h fits size single =
      elim (Bool-cases (any (λ row. is_some (replacement updates c row)) hits)) [
        | inr untouched ↦
            rw (untouched, edit_column)
              (
                col,
                refl,
                fits,
                sym (
                    overridden-none a updates c base (a.values col) λ k low high.
                      elim (Bool-cases (contains_key k hits)) [
                        | inl hit ↦ is_some-none _ (
                            any-false (λ row. is_some (replacement updates c row)) k hits untouched
                              hit)
                        | inr miss ↦ h.complete c k low (omega (arith, size)) miss
                      ]),
              )
        | inl touched ↦
            let (pieces, spliced, fit, values_pieces) =
              splice-Spliced a lawful f col fits updates base c single hits 0 (omega arith)
                (subst (λ r. Ascending r hits) (omega arith) h.order)
                (subst (λ m. All (λ k. k < base + m) hits) (sym size) h.bound)
                (λ k low high miss. h.complete c k (omega arith) (omega (arith, size)) miss) in
            let written : concat (map a.values pieces)
                ≡ overridden a updates c base (a.values col) =
              values_pieces ∙ ap (λ r. overridden a updates c r (a.values col)) (omega arith) in
            let spliced' : splice a col n base updates c hits 0 ≡ ok pieces =
              subst (λ m. splice a col m base updates c hits 0 ≡ ok pieces) size spliced in
            let (out, joined, fit_out, values_out) =
              lawful.concat-ok f pieces
                (λ e.
                  filled (λ row. is_some (replacement updates c row)) base n hits touched h.order
                    h.bound
                    (sym size
                      ∙ sym (length-overridden a updates c base (a.values col))
                      ∙ ap length (sym written)
                      ∙ ap (λ ps. length (concat (map a.values ps))) e))
                fit in
            (
              out,
              rw (touched, edit_column, spliced') (ap or_arrow joined),
              fit_out,
              values_out ∙ written,
            )
      ]

  pub edit_columns-Edited :
      (fs : List a.Field) (c : ℕ) (cols : List a.ArrayRef)
      → IsHits
      → FitAll a fs cols
      → All (λ col. length (a.values col) ≡ n) cols
      → ((i : ℕ) (f : a.Field) → get_elem? fs i ≡ some f → Single a f updates (c + i))
      → (edited : List a.ArrayRef) × (edit_columns a n base updates hits c cols ≡ ok edited)
        × FitAll a fs edited
        × (map a.values edited ≡ overridden_columns a updates base c (map a.values cols))
  unfolding edit_columns overridden_columns
  edit_columns-Edited [] c [] h fits size single = ([], refl, tt, refl)
  edit_columns-Edited (f ∷ fs) c (col ∷ cols) h (fit, fits) (size, sizes) single =
      let (edited, e, fit', values_edited) =
        edit_column-Edited f c col h fit size
          (subst (λ i. Single a f updates i) (omega arith) (single 0 f refl)) in
      let (others, e', fits', values_others) =
        edit_columns-Edited fs (c + 1) cols h fits sizes
          (λ i g found. subst (λ j. Single a g updates j) (omega arith) (single (suc i) g found)) in
      (
        edited ∷ others,
        rw (e, e') refl,
        (fit', fits'),
        ap₂ (λ v vs. v ∷ vs) values_edited values_others,
      )
  edit_columns-Edited (f ∷ fs) c [] h fits sizes single = absurd fits
  edit_columns-Edited [] c (col ∷ cols) h fits sizes single = absurd fits

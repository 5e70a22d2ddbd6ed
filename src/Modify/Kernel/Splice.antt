-- ===== src/Modify/Kernel/Splice.antt =====
-- One column of the rewrite of src/fdw/modify/kernel.rs: the overrides spliced in between slices.
use parquet_azure_fdw.Prelude.{
  subst, ℕ, zero, suc, ◌+◌, ◌-◌, ◌≤◌, ◌<◌, ◌≡◌, refl, sym, ap, ap₂, ◌∙◌, arith, false, List, [],
  ◌∷◌, ◌++◌, append_assoc, none, some, if◌then◌else◌, ltb, length, take, drop, contains_key, concat,
  map, All, All-append, Ascending, Bool-cases, Option-cases, inl, inr, append-nil,
}
use parquet_azure_fdw.Error.{FdwResult, ok, ◌>>=◌}
use parquet_azure_fdw.Modify.Kernel.{Arrow, IsLawful, RowOverride, replacement, splice}
use parquet_azure_fdw.Modify.Kernel.Rows.{
  cut, length-take-drop, take-all, take-none, overridden, overridden-append, overridden-none,
  overridden-single,
}

concat-append {ℓ} :
    {A : Type ℓ} (xss yss : List (List A)) → concat (xss ++ yss) ≡ concat xss ++ concat yss
concat-append [] yss = refl
concat-append (xs ∷ xss) yss =
    ap (λ zs. xs ++ zs) (concat-append xss yss) ∙ sym (append_assoc xs _ _)

map-append {ℓ κ} :
    {A : Type ℓ} {B : Type κ} (f : A → B) (xs ys : List A) → map f (xs ++ ys) ≡ map f xs ++ map f ys
map-append f [] ys = refl
map-append f (x ∷ xs) ys = ap (λ zs. f x ∷ zs) (map-append f xs ys)

Ascending-above : (k low : ℕ) (ks : List ℕ) → Ascending low ks → k < low → contains_key k ks ≡ false
Ascending-above k low [] h below = refl
Ascending-above k low (j ∷ ks) (h, rest) below =
    ground (arith, Ascending-above k (suc j) ks rest (omega arith))

length-drop {ℓ} : {A : Type ℓ} (i : ℕ) (xs : List A) → length (drop i xs) ≡ length xs - i
length-drop zero xs = omega arith
length-drop (suc i) [] = omega arith
length-drop (suc i) (x ∷ xs) = omega (arith, length-drop i xs)

module _ (a : Arrow) (lawful : IsLawful a) (f : a.Field) (col : a.ArrayRef)
    (fits : a.Fits f col) where
  -- The pieces of the column from `cursor` to before `stop`, if there are any.
  between : (cursor stop : ℕ) → List a.ArrayRef
  between cursor stop = if ltb cursor stop then a.slice col cursor (stop - cursor) ∷ [] else []

  Between-values :
      (cursor stop : ℕ)
      → stop ≤ length (a.values col)
      → All (a.Fits f) (between cursor stop)
        × (concat (map a.values (between cursor stop))
            ≡ take (stop - cursor) (drop cursor (a.values col)))
  unfolding between
  Between-values cursor stop h = elim (Bool-cases (ltb cursor stop)) [
    | inl e ↦ rw e (
      (lawful.Fits-slice f col cursor (stop - cursor) (ground arith) fits, tt),
      append-nil _ ∙ lawful.values-slice col cursor (stop - cursor) (ground arith),
    )
    | inr e ↦ rw e (tt, sym (take-none _ (stop - cursor) (ground arith)))
  ]

  module _ (updates : List (ℕ × RowOverride a.ArrayRef)) (base c : ℕ) where
    -- The pieces hold the rows from `base + cursor` on as the overrides leave them.
    abbrev pub Spliced : ℕ → FdwResult (List a.ArrayRef) → Type 0
    Spliced cursor result =
        (pieces : List a.ArrayRef) × (result ≡ ok pieces)
        × All (a.Fits f) pieces
        × (concat (map a.values pieces)
            ≡ overridden a updates c (base + cursor) (drop cursor (a.values col)))

    -- No row from `base + cursor` to before `stop` has an override.
    abbrev Untouched : ℕ → ℕ → Type 0
    Untouched start stop = (k : ℕ) → start ≤ k → k < stop → replacement updates c k ≡ none

    rows-cut :
        (cursor local : ℕ)
        → cursor ≤ local
        → local < length (a.values col)
        → Untouched (base + cursor) (base + local)
        → overridden a updates c (base + cursor) (drop cursor (a.values col))
          ≡ take (local - cursor) (drop cursor (a.values col))
            ++ (overridden a updates c (base + local) (take 1 (drop local (a.values col)))
                ++ overridden a updates c (base + (local + 1)) (drop (local + 1) (a.values col)))
    rows-cut cursor local h k untouched =
        let vs = a.values col in
        let low = take (local - cursor) (drop cursor vs) in
        let one = take 1 (drop local vs) in
        let length-low = length-take-drop cursor (local - cursor) vs (omega arith) in
        ap (overridden a updates c (base + cursor)) (cut cursor local vs h k)
        ∙ overridden-append a updates c (base + cursor) low _
        ∙ ap₂ (λ xs ys. xs ++ ys)
            (overridden-none a updates c (base + cursor) low
              λ j below above. untouched j below (omega (arith, length-low)))
            (ap (λ r. overridden a updates c r (one ++ drop (local + 1) vs))
                (omega (arith, length-low))
              ∙ overridden-append a updates c (base + local) one _
              ∙ ap
                  (λ r.
                    overridden a updates c (base + local) one
                    ++ overridden a updates c r (drop (local + 1) vs))
                  (omega (arith, length-take-drop local 1 vs (omega arith))))

    -- One row's piece, between what stands before it and what comes behind.
    assemble :
        (cursor local : ℕ)
        → cursor ≤ local
        → local < length (a.values col)
        → Untouched (base + cursor) (base + local)
        → (piece : a.ArrayRef) → a.Fits f piece
        → a.values piece
          ≡ overridden a updates c (base + local) (take 1 (drop local (a.values col)))
        → (rest : FdwResult (List a.ArrayRef)) → Spliced (local + 1) rest
        → Spliced cursor (do pieces ← rest; ok (between cursor local ++ piece ∷ pieces))
    assemble cursor local h k untouched piece fit e rest (pieces, returned, fit_rest, e_rest) =
        let (fit_before, e_before) = Between-values cursor local (omega arith) in
        (
          between cursor local ++ piece ∷ pieces,
          ap (λ r. r >>= λ ps. ok (between cursor local ++ piece ∷ ps)) returned,
          All-append _ _ _ fit_before (fit, fit_rest),
          ap concat (map-append a.values (between cursor local) (piece ∷ pieces))
              ∙ concat-append (map a.values (between cursor local)) _
              ∙ ap₂ (λ xs ys. xs ++ ys) e_before (ap₂ (λ xs ys. xs ++ ys) e e_rest)
              ∙ sym (rows-cut cursor local h k untouched),
        )

    module _
        (single : (k : ℕ) (r : a.ArrayRef)
          → replacement updates c k ≡ some r
          → a.Fits f r × (length (a.values r) ≡ 1)) where
      -- From `cursor` on, the rows with an override of the column are among the hits.
      abbrev pub Complete : ℕ → List ℕ → Type 0
      Complete start hits =
          (k : ℕ)
          → start ≤ k
          → k < base + length (a.values col)
          → contains_key k hits ≡ false
          → replacement updates c k ≡ none

      pub splice-Spliced :
          (hits : List ℕ) (cursor : ℕ)
          → cursor ≤ length (a.values col)
          → Ascending (base + cursor) hits
          → All (λ k. k < base + length (a.values col)) hits
          → Complete (base + cursor) hits
          → Spliced cursor (splice a col (length (a.values col)) base updates c hits cursor)
      unfolding splice between
      splice-Spliced [] cursor h order bound complete =
          let vs = a.values col in
          let (fit, e) = Between-values cursor (length vs) (omega arith) in
          (
            between cursor (length vs),
            refl,
            fit,
            e
                ∙ take-all cursor vs
                ∙ sym (
                    overridden-none a updates c (base + cursor) (drop cursor vs) λ k low high.
                      complete k low (omega (arith, length-drop cursor (a.values col))) refl),
          )
      splice-Spliced (row ∷ hits) cursor h (low, order) (high, bound) complete =
          let local = row - base in
          let rest =
            splice-Spliced hits (local + 1) (omega arith)
              (subst (λ r. Ascending r hits) (omega arith) order) bound
              (λ k below above fresh. complete k (omega arith) above (ground arith)) in
          let within : local < length (a.values col) = omega arith in
          let here : base + local ≡ row = omega arith in
          let untouched : Untouched (base + cursor) (base + local) = λ k below above.
            complete k below (omega arith)
              (ground (arith, Ascending-above k (suc row) hits order)) in
          elim (Option-cases (replacement updates c row)) [
            | inl e ↦
                rw (e, splice)
                  (assemble cursor local (omega arith) within untouched (a.slice col local 1)
                    (lawful.Fits-slice f col local 1 (omega arith) fits)
                    (lawful.values-slice col local 1 (omega arith)
                      ∙ sym (
                          overridden-none a updates c (base + local) _ λ k below above.
                            subst (λ r. replacement updates c r ≡ none)
                              (omega (arith, length-take-drop local 1 (a.values col) (omega arith)))
                              e))
                    _ rest)
            | inr (value, e) ↦
                let (fit, one) = single row value e in
                rw (e, splice, one)
                  (assemble cursor local (omega arith) within untouched value fit
                    (sym (
                      overridden-single a updates c (base + local) _ value
                        (length-take-drop local 1 (a.values col) (omega arith))
                        (subst (λ r. replacement updates c r ≡ some value) (sym here) e) one))
                    _ rest)
          ]

-- ===== src/Pushdown/Groups.antt =====
-- The row groups that src/fdw/pushdown.rs keeps, against what the quals mean of their rows.
use parquet_azure_fdw.Prelude.{
  sym, ◌+◌, if◌then◌else◌, zero, suc, ◌==◌, any, All, subst, get_elem?, ℕ, ◌≡◌, ◌≢◌, refl, arith,
  Bool, true, false, List, [], ◌∷◌, some, inl, inr, ◌⊎◌,
}
use parquet_azure_fdw.Pushdown.Order.{PartialOrd}
use parquet_azure_fdw.Pushdown.Expr.{
  PushedOp, ScalarValueRepr, PushedExpr, PushedExprs, leaf, and_expr, or_expr, not_expr, nil, cons,
}
use parquet_azure_fdw.Pushdown.Prune.{
  prune_row_groups, prune_loop, survives, RgVerdict, cannot_match, can_match, indeterminate,
  evaluate_against_rg, evaluate_and, evaluate_or, RowGroup,
}
use parquet_azure_fdw.Pushdown.Truth.{
  Row, Truth, truth, truth_and, truth_or, GroupValid, AllExact, EachExact,
}
use parquet_azure_fdw.Pushdown.Sound.{
  Never, leaf_sound, and-left, and-right, or-both, All-both, All-map,
}

RgVerdict-cases : (v : RgVerdict) → (v ≡ cannot_match) ⊎ ((v ≡ can_match) ⊎ (v ≡ indeterminate))
RgVerdict-cases cannot_match = inl refl
RgVerdict-cases can_match = inr (inl refl)
RgVerdict-cases indeterminate = inr (inr refl)

false-Never : (rows : List Row) → Never (λ row. some false) rows
false-Never [] = tt
false-Never (row ∷ rows) = (ground arith, false-Never rows)

module _ (float32 float64 : PartialOrd ℕ)
    (other : PushedOp → ScalarValueRepr → ScalarValueRepr → Truth) where
  module _ (rg : RowGroup) (fields : ℕ) where
    -- A child that may match, or that is not decided, keeps the group.
    or-any :
        (xs : PushedExprs) (all_cannot : Bool)
        → evaluate_or float32 float64 xs true all_cannot rg fields ≢ cannot_match
    unfolding evaluate_or
    or-any nil all_cannot = ground arith
    or-any (cons x xs) all_cannot = ground (arith, or-any xs all_cannot, or-any xs false)

    or-undecided :
        (xs : PushedExprs) (any_can : Bool)
        → evaluate_or float32 float64 xs any_can false rg fields ≢ cannot_match
    unfolding evaluate_or
    or-undecided nil any_can = ground arith
    or-undecided (cons x xs) any_can = ground (arith, or-undecided xs any_can, or-undecided xs true)

    mutual
      unfolding evaluate_against_rg truth AllExact

      verdict_sound :
          (e : PushedExpr) (rows : List Row)
          → AllExact e
          → GroupValid rg rows
          → evaluate_against_rg float32 float64 e rg fields ≡ cannot_match
          → Never (truth other e) rows
      verdict_sound (leaf q) rows exact valid h =
          leaf_sound float32 float64 other q rg fields rows exact valid h
      verdict_sound (and_expr xs) rows exact valid h = and_sound xs true rows exact valid h
      verdict_sound (or_expr xs) rows exact valid h = or_sound xs false true rows exact valid h
      verdict_sound (not_expr x) rows exact valid h = ground arith

      and_sound :
          (xs : PushedExprs) (all_can : Bool) (rows : List Row)
          → EachExact xs
          → GroupValid rg rows
          → evaluate_and float32 float64 xs all_can rg fields ≡ cannot_match
          → Never (truth_and other xs) rows
      and_sound nil all_can rows exact valid h = ground arith
      and_sound (cons x xs) all_can rows (ex, exs) valid h =
          elim (RgVerdict-cases (evaluate_against_rg float32 float64 x rg fields)) [
            | inl e ↦
                All-map (λ row never. and-left (truth other x row) (truth_and other xs row) never)
                  rows (verdict_sound x rows ex valid e)
            | inr (inl e) ↦
                All-map (λ row never. and-right (truth other x row) (truth_and other xs row) never)
                  rows (and_sound xs all_can rows exs valid (ground (arith, e, h)))
            | inr (inr e) ↦
                All-map (λ row never. and-right (truth other x row) (truth_and other xs row) never)
                  rows (and_sound xs false rows exs valid (ground (arith, e, h)))
          ]

      or_sound :
          (xs : PushedExprs) (any_can all_cannot : Bool) (rows : List Row)
          → EachExact xs
          → GroupValid rg rows
          → evaluate_or float32 float64 xs any_can all_cannot rg fields ≡ cannot_match
          → Never (truth_or other xs) rows
      or_sound nil any_can all_cannot rows exact valid h = false-Never rows
      or_sound (cons x xs) any_can all_cannot rows (ex, exs) valid h =
          elim (RgVerdict-cases (evaluate_against_rg float32 float64 x rg fields)) [
            | inl e ↦
                All-both (λ row. or-both (truth other x row) (truth_or other xs row)) rows
                  (verdict_sound x rows ex valid e)
                  (or_sound xs any_can all_cannot rows exs valid (ground (arith, e, h)))
            | inr (inl e) ↦ ground (arith, e, h, or-any xs all_cannot)
            | inr (inr e) ↦ ground (arith, e, h, or-undecided xs any_can)
          ]

  Never-get_elem? :
      (t : Row → Truth) (rows : List Row) (j : ℕ) (row : Row)
      → Never t rows
      → get_elem? rows j ≡ some row
      → t row ≢ some true
  Never-get_elem? t [] j row h at = ground arith
  Never-get_elem? t (x ∷ rows) zero row h at =
      let same : x ≡ row = cc in subst (λ r. t r ≢ some true) same h.0
  Never-get_elem? t (x ∷ rows) (suc j) row h at = Never-get_elem? t rows j row h.1 at

  survives-kept :
      (exprs : List PushedExpr) (rg : RowGroup) (fields : ℕ) (rows : List Row) (j : ℕ) (row : Row)
      (determinable : Bool)
      → All AllExact exprs
      → GroupValid rg rows
      → get_elem? rows j ≡ some row
      → All (λ e. truth other e row ≡ some true) exprs
      → (survives float32 float64 exprs rg fields determinable).0 ≡ true
  unfolding survives
  survives-kept [] rg fields rows j row det exact valid at sat = refl
  survives-kept (e ∷ exprs) rg fields rows j row det (ex, exact) valid at (now, sat) =
      elim (RgVerdict-cases (evaluate_against_rg float32 float64 e rg fields)) [
        | inl v ↦
            elim (Never-get_elem? (truth other e) rows j row
              (verdict_sound rg fields e rows ex valid v) at now) [ ]
        | inr (inl v) ↦
            rw (v, survives) (survives-kept exprs rg fields rows j row true exact valid at sat)
        | inr (inr v) ↦
            rw (v, survives) (survives-kept exprs rg fields rows j row det exact valid at sat)
      ]

  any-kept :
      (p : ℕ → Bool) (kept : Bool) (idx : ℕ) (keep : List ℕ)
      → any p keep ≡ true
      → any p (if kept then idx ∷ keep else keep) ≡ true
  any-kept p true idx keep h = ground arith
  any-kept p false idx keep h = h

  prune_loop-kept :
      (groups : List RowGroup) (exprs : List PushedExpr) (fields idx i : ℕ) (det : Bool)
      (rg : RowGroup)
      → get_elem? groups i ≡ some rg
      → ((d : Bool) → (survives float32 float64 exprs rg fields d).0 ≡ true)
      → any (λ k. k == idx + i) (prune_loop float32 float64 groups exprs fields idx det).0 ≡ true
  unfolding prune_loop
  prune_loop-kept [] exprs fields idx i det rg at sat = ground arith
  prune_loop-kept (g ∷ groups) exprs fields idx zero det rg at sat =
      let same : g ≡ rg = cc in
      let here : (survives float32 float64 exprs g fields det).0 ≡ true =
        subst (λ r. (survives float32 float64 exprs r fields det).0 ≡ true) (sym same) (sat det) in
      rw here (ground arith)
  prune_loop-kept (g ∷ groups) exprs fields idx (suc i) det rg at sat =
      let next : idx + suc i ≡ idx + 1 + i = omega arith in
      let (kept, det') = survives float32 float64 exprs g fields det in
      let later = prune_loop-kept groups exprs fields (idx + 1) i det' rg at sat in
      rw next (any-kept (λ k. k == idx + 1 + i) kept idx _ later)

  -- Whenever pruning decides which row groups to read, a group with a row for which every pushed
  -- qual is true is among them. The statistics are right about the group's rows, and no literal is a
  -- float or a decimal.
  pub prune_row_groups_sound :
      (groups : List RowGroup) (exprs : List PushedExpr) (fields : ℕ) (keep : List ℕ) (i : ℕ)
      (rg : RowGroup) (rows : List Row) (j : ℕ) (row : Row)
      → prune_row_groups float32 float64 groups exprs fields ≡ some keep
      → get_elem? groups i ≡ some rg
      → GroupValid rg rows
      → get_elem? rows j ≡ some row
      → All AllExact exprs
      → All (λ e. truth other e row ≡ some true) exprs
      → any (λ k. k == i) keep ≡ true
  unfolding prune_row_groups
  prune_row_groups_sound groups exprs fields keep i rg rows j row pruned at valid here exact sat =
      let in_loop =
        prune_loop-kept groups exprs fields 0 i false rg at
          λ d. survives-kept exprs rg fields rows j row d exact valid here sat in
      ground (arith, in_loop, pruned)

-- ===== src/Pushdown/Invert.antt =====
-- `invert_pushed` of src/fdw/pushdown_walk.rs, which pushes a NOT through a qual.
use parquet_azure_fdw.Prelude.{
  ◌≡◌, refl, ap, ap₂, sym, ◌∙◌, arith, Bool, true, false, not, Option, none, some,
}
use parquet_azure_fdw.Pushdown.Order.{from_le, int_ord, bytes_ord}
use parquet_azure_fdw.Pushdown.Expr.{
  inverse, invert_pushed, invert_all, PushedOp, eq_op, ne_op, lt_op, le_op, gt_op, ge_op, is_null,
  is_not_null, ScalarValueRepr, bool_value, i16_value, i32_value, i64_value, f32_value, f64_value,
  utf8_value, date32_value, timestamp_micros, decimal128, PushedExpr, PushedExprs, leaf, and_expr,
  or_expr, not_expr, nil, cons,
}
use parquet_azure_fdw.Pushdown.Truth.{
  Row, Truth, bool_ord, holds, not3, and3, or3, compare_values, test_value, truth, truth_and,
  truth_or,
}

not-not : (b : Bool) → not (not b) ≡ b
not-not true = refl
not-not false = refl

not3-not3 : (t : Truth) → not3 (not3 t) ≡ t
not3-not3 none = refl
not3-not3 (some b) = ap some (not-not b)

not3-and3 : (a b : Truth) → or3 (not3 a) (not3 b) ≡ not3 (and3 a b)
not3-and3 none none = refl
not3-and3 none (some true) = refl
not3-and3 none (some false) = refl
not3-and3 (some true) b = refl
not3-and3 (some false) b = refl

not3-or3 : (a b : Truth) → and3 (not3 a) (not3 b) ≡ not3 (or3 a b)
not3-or3 none none = refl
not3-or3 none (some true) = refl
not3-or3 none (some false) = refl
not3-or3 (some true) b = refl
not3-or3 (some false) b = refl

-- A comparison operator, not a null test.
abbrev pub IsComparison : PushedOp → Type 0
IsComparison is_null = ⊥
IsComparison is_not_null = ⊥
IsComparison _ = Unit

holds-inverse :
    {T : Type 0} (le : T → T → Bool) (op : PushedOp) (v lit : T)
    → IsComparison op
    → holds (from_le le) (inverse op) v lit ≡ not (holds (from_le le) op v lit)
unfolding holds inverse
holds-inverse le eq_op v lit h = refl
holds-inverse le ne_op v lit h = sym (not-not _)
holds-inverse le lt_op v lit h = sym (not-not _)
holds-inverse le le_op v lit h = refl
holds-inverse le gt_op v lit h = sym (not-not _)
holds-inverse le ge_op v lit h = refl
holds-inverse le is_null v lit h = elim h [ ]
holds-inverse le is_not_null v lit h = elim h [ ]

module _ (other : PushedOp → ScalarValueRepr → ScalarValueRepr → Truth)
    (other_inverse : (op : PushedOp) (v lit : ScalarValueRepr)
      → other (inverse op) v lit ≡ not3 (other op v lit)) where
  compare-inverse :
      (op : PushedOp) (v lit : ScalarValueRepr)
      → IsComparison op
      → compare_values other (inverse op) v lit ≡ not3 (compare_values other op v lit)
  unfolding compare_values
  compare-inverse op (i16_value v) (i16_value lit) h = ap some (holds-inverse int_ord.le op v lit h)
  compare-inverse op (i32_value v) (i32_value lit) h = ap some (holds-inverse int_ord.le op v lit h)
  compare-inverse op (i64_value v) (i64_value lit) h = ap some (holds-inverse int_ord.le op v lit h)
  compare-inverse op (date32_value v) (date32_value lit) h =
      ap some (holds-inverse int_ord.le op v lit h)
  compare-inverse op (timestamp_micros v) (timestamp_micros lit) h =
      ap some (holds-inverse int_ord.le op v lit h)
  compare-inverse op (utf8_value v) (utf8_value lit) h =
      ap some (holds-inverse bytes_ord.le op v lit h)
  compare-inverse op (bool_value v) (bool_value lit) h =
      ap some (holds-inverse bool_ord.le op v lit h)
  compare-inverse op (f32_value v) (f32_value lit) h = other_inverse op _ _
  compare-inverse op (f64_value v) (f64_value lit) h = other_inverse op _ _
  compare-inverse op (decimal128 v p s) (decimal128 lit q t) h = other_inverse op _ _
  compare-inverse op v lit h = refl

  test-inverse :
      (op : PushedOp) (cell : Option ScalarValueRepr) (lit : ScalarValueRepr)
      → test_value other (inverse op) cell lit ≡ not3 (test_value other op cell lit)
  unfolding test_value inverse
  test-inverse is_null none lit = refl
  test-inverse is_null (some v) lit = refl
  test-inverse is_not_null none lit = refl
  test-inverse is_not_null (some v) lit = refl
  test-inverse op none lit = ground arith
  test-inverse eq_op (some v) lit = compare-inverse eq_op v lit tt
  test-inverse ne_op (some v) lit = compare-inverse ne_op v lit tt
  test-inverse lt_op (some v) lit = compare-inverse lt_op v lit tt
  test-inverse le_op (some v) lit = compare-inverse le_op v lit tt
  test-inverse gt_op (some v) lit = compare-inverse gt_op v lit tt
  test-inverse ge_op (some v) lit = compare-inverse ge_op v lit tt

  mutual
    unfolding invert_pushed truth

    inverted :
        (e : PushedExpr) (row : Row) → truth other (invert_pushed e) row ≡ not3 (truth other e row)
    inverted (leaf q) row = test-inverse q.op (row q.col) q.value
    inverted (and_expr xs) row = inverted_and xs row
    inverted (or_expr xs) row = inverted_or xs row
    inverted (not_expr x) row = sym (not3-not3 (truth other x row))

    inverted_and :
        (xs : PushedExprs) (row : Row)
        → truth_or other (invert_all xs) row ≡ not3 (truth_and other xs row)
    inverted_and nil row = refl
    inverted_and (cons x xs) row =
        ap₂ or3 (inverted x row) (inverted_and xs row)
        ∙ not3-and3 (truth other x row) (truth_and other xs row)

    inverted_or :
        (xs : PushedExprs) (row : Row)
        → truth_and other (invert_all xs) row ≡ not3 (truth_or other xs row)
    inverted_or nil row = refl
    inverted_or (cons x xs) row =
        ap₂ and3 (inverted x row) (inverted_or xs row)
        ∙ not3-or3 (truth other x row) (truth_or other xs row)

-- The inverted qual is, of every row, the three-valued negation of the qual: true where the qual is
-- false, false where it is true and unknown where it is unknown. The comparison of floats and
-- decimals is any that negates with the operator.
pub truth-invert_pushed :
    (other : PushedOp → ScalarValueRepr → ScalarValueRepr → Truth) (e : PushedExpr) (row : Row)
    → ((op : PushedOp) (v lit : ScalarValueRepr) → other (inverse op) v lit ≡ not3 (other op v lit))
    → truth other (invert_pushed e) row ≡ not3 (truth other e row)
truth-invert_pushed other e row law = inverted other law e row

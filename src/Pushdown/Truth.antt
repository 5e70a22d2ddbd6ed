-- ===== src/Pushdown/Truth.antt =====
-- What a pushed qual means of a row, in SQL's logic of three values, and what the statistics of a
-- row group say of its rows: the specification of src/fdw/pushdown.rs.
use parquet_azure_fdw.Prelude.{
  ℕ, suc, ◌≡◌, Bool, true, false, not, ◌||◌, List, [], ◌∷◌, Option, none, some, get_elem?, length,
  All,
}
use parquet_azure_fdw.Pushdown.Order.{PartialOrd, int_ord, bytes_ord, from_le}
use parquet_azure_fdw.Pushdown.Expr.{
  PushedOp, eq_op, ne_op, lt_op, le_op, gt_op, ge_op, is_null, is_not_null, ScalarValueRepr,
  bool_value, i16_value, i32_value, i64_value, f32_value, f64_value, utf8_value, date32_value,
  timestamp_micros, decimal128, PushedExpr, PushedExprs, leaf, and_expr, or_expr, not_expr, nil,
  cons,
}
use parquet_azure_fdw.Pushdown.Prune.{
  Bounds, int32_bounds, int64_bounds, byte_array_bounds, boolean_bounds, Statistics, ColumnChunk,
  RowGroup,
}

-- A row: the value of each column, `none` for NULL.
abbrev pub Row : Type 0
Row = ℕ → Option ScalarValueRepr

abbrev pub bool_ord : PartialOrd Bool
bool_ord = from_le λ a b. not a || b

unfoldable pub holds : {T : Type 0} → PartialOrd T → PushedOp → T → T → Bool
holds o eq_op v lit = o.eq v lit
holds o ne_op v lit = not (o.eq v lit)
holds o lt_op v lit = o.lt v lit
holds o le_op v lit = o.le v lit
holds o gt_op v lit = o.lt lit v
holds o ge_op v lit = o.le lit v
holds o is_null v lit = false
holds o is_not_null v lit = false

-- The values of three-valued logic; `none` is UNKNOWN.
abbrev pub Truth : Type 0
Truth = Option Bool

abbrev pub not3 : Truth → Truth
not3 none = none
not3 (some b) = some (not b)

abbrev pub and3 : Truth → Truth → Truth
and3 (some false) b = some false
and3 (some true) b = b
and3 none (some false) = some false
and3 none _ = none

abbrev pub or3 : Truth → Truth → Truth
or3 (some true) b = some true
or3 (some false) b = b
or3 none (some true) = some true
or3 none _ = none

-- `other` compares the values whose comparison is not fixed here: floats and decimals.
module _ (other : PushedOp → ScalarValueRepr → ScalarValueRepr → Truth) where
  unfoldable pub compare_values : PushedOp → ScalarValueRepr → ScalarValueRepr → Truth
  unfolding holds
  compare_values op (i16_value v) (i16_value lit) = some (holds int_ord op v lit)
  compare_values op (i32_value v) (i32_value lit) = some (holds int_ord op v lit)
  compare_values op (i64_value v) (i64_value lit) = some (holds int_ord op v lit)
  compare_values op (date32_value v) (date32_value lit) = some (holds int_ord op v lit)
  compare_values op (timestamp_micros v) (timestamp_micros lit) = some (holds int_ord op v lit)
  compare_values op (utf8_value v) (utf8_value lit) = some (holds bytes_ord op v lit)
  compare_values op (bool_value v) (bool_value lit) = some (holds bool_ord op v lit)
  compare_values op (f32_value v) (f32_value lit) = other op (f32_value v) (f32_value lit)
  compare_values op (f64_value v) (f64_value lit) = other op (f64_value v) (f64_value lit)
  compare_values op (decimal128 v p s) (decimal128 lit q t) =
      other op (decimal128 v p s) (decimal128 lit q t)
  compare_values op _ _ = none

  unfoldable pub test_value : PushedOp → Option ScalarValueRepr → ScalarValueRepr → Truth
  unfolding compare_values
  test_value is_null none lit = some true
  test_value is_null (some v) lit = some false
  test_value is_not_null none lit = some false
  test_value is_not_null (some v) lit = some true
  test_value op none lit = none
  test_value op (some v) lit = compare_values op v lit

  unfoldable mutual
    unfolding test_value

    pub truth : PushedExpr → Row → Truth
    truth (leaf q) row = test_value q.op (row q.col) q.value
    truth (and_expr xs) row = truth_and xs row
    truth (or_expr xs) row = truth_or xs row
    truth (not_expr x) row = not3 (truth x row)

    pub truth_and : PushedExprs → Row → Truth
    truth_and nil row = some true
    truth_and (cons x xs) row = and3 (truth x row) (truth_and xs row)

    pub truth_or : PushedExprs → Row → Truth
    truth_or nil row = some false
    truth_or (cons x xs) row = or3 (truth x row) (truth_or xs row)

-- The bounds are bounds of a value.
abbrev pub Within : {T : Type 0} → PartialOrd T → T → Option T → Option T → Type 0
Within {T} o v mn mx =
    ((m : T) → mn ≡ some m → o.le m v ≡ true) × ((m : T) → mx ≡ some m → o.le v m ≡ true)

unfoldable pub InBounds : ScalarValueRepr → Bounds → Type 0
InBounds (i16_value v) (int32_bounds mn mx) = Within int_ord v mn mx
InBounds (i32_value v) (int32_bounds mn mx) = Within int_ord v mn mx
InBounds (date32_value v) (int32_bounds mn mx) = Within int_ord v mn mx
InBounds (i64_value v) (int64_bounds mn mx) = Within int_ord v mn mx
InBounds (timestamp_micros v) (int64_bounds mn mx) = Within int_ord v mn mx
InBounds (utf8_value v) (byte_array_bounds mn mx) = Within bytes_ord v mn mx
InBounds (bool_value v) (boolean_bounds mn mx) = Within bool_ord v mn mx
InBounds _ _ = Unit

unfoldable pub nulls : ℕ → List Row → ℕ
nulls col [] = 0
nulls col (row ∷ rows) = elim (row col) [ none ↦ suc (nulls col rows) | some v ↦ nulls col rows ]

-- The statistics of a column chunk are right about the rows of the group.
pub record ChunkValid (col : ℕ) (chunk : ColumnChunk) (stats : Statistics) (rows : List Row)
    : Type 0 where
  pub counted : (n : ℕ) → stats.null_count ≡ some n → n ≡ nulls col rows
  pub sized : chunk.num_values ≡ length rows
  pub bounded : All (λ row. (v : ScalarValueRepr) → row col ≡ some v → InBounds v stats.bounds) rows

abbrev pub GroupValid : RowGroup → List Row → Type 0
GroupValid rg rows =
    (col : ℕ) (chunk : ColumnChunk) (stats : Statistics)
    → get_elem? rg col ≡ some chunk
    → chunk.statistics ≡ some stats
    → ChunkValid col chunk stats rows

-- Neither floats nor decimals among the literals.
unfoldable pub IsExact : ScalarValueRepr → Type 0
IsExact (f32_value v) = ⊥
IsExact (f64_value v) = ⊥
IsExact (decimal128 v p s) = ⊥
IsExact _ = Unit

unfoldable mutual
  unfolding IsExact

  pub AllExact : PushedExpr → Type 0
  AllExact (leaf q) = IsExact q.value
  AllExact (and_expr xs) = EachExact xs
  AllExact (or_expr xs) = EachExact xs
  AllExact (not_expr x) = AllExact x

  pub EachExact : PushedExprs → Type 0
  EachExact nil = Unit
  EachExact (cons x xs) = AllExact x × EachExact xs

-- ===== src/Pushdown/Prune.antt =====
-- Row-group pruning of src/fdw/pushdown.rs: the verdict of a qual against the statistics of a row
-- group, and the groups that are kept.
use parquet_azure_fdw.Prelude.{
  ℕ, ◌+◌, Bool, true, false, not, ◌&&◌, ◌||◌, List, [], ◌∷◌, Bytes, leb, ◌==◌, if◌then◌else◌,
  Option, none, some, get_elem?, is_empty,
}
use parquet_azure_fdw.Pushdown.Order.{ℤ, PartialOrd, int_ord, bytes_ord}
use parquet_azure_fdw.Pushdown.Expr.{
  PushedOp, eq_op, ne_op, lt_op, le_op, gt_op, ge_op, is_null, is_not_null, ScalarValueRepr,
  bool_value, i16_value, i32_value, i64_value, f32_value, f64_value, utf8_value, date32_value,
  timestamp_micros, PushedQual, PushedExpr, PushedExprs, leaf, and_expr, or_expr, not_expr, nil,
  cons,
}

pub data RgVerdict : Type 0 where
  cannot_match can_match indeterminate : RgVerdict

-- The typed bounds of `Statistics`; each may be absent.
pub data Bounds : Type 0 where
  int32_bounds int64_bounds : Option ℤ → Option ℤ → Bounds
  float_bounds double_bounds : Option ℕ → Option ℕ → Bounds
  byte_array_bounds : Option Bytes → Option Bytes → Bounds
  boolean_bounds : Option Bool → Option Bool → Bounds
  other_bounds : Bounds

pub record Statistics : Type 0 where
  pub null_count : Option ℕ
  pub bounds : Bounds

pub record ColumnChunk : Type 0 where
  pub num_values : ℕ
  pub statistics : Option Statistics

abbrev pub RowGroup : Type 0
RowGroup = List ColumnChunk

-- The verdict of a test that rules every row out.
abbrev pub verdict : Bool → RgVerdict
verdict true = cannot_match
verdict false = can_match

module _ {T : Type 0} (o : PartialOrd T) where
  -- The null tests are decided before; the source has `unreachable!()` there.
  unfoldable pub cmp_op : PushedOp → T → T → T → RgVerdict
  cmp_op eq_op lit mn mx = verdict (o.lt lit mn || o.lt mx lit)
  cmp_op ne_op lit mn mx = verdict (o.eq mn mx && o.eq lit mn)
  cmp_op lt_op lit mn mx = verdict (o.le lit mn)
  cmp_op le_op lit mn mx = verdict (o.lt lit mn)
  cmp_op gt_op lit mn mx = verdict (o.le mx lit)
  cmp_op ge_op lit mn mx = verdict (o.lt mx lit)
  cmp_op is_null lit mn mx = indeterminate
  cmp_op is_not_null lit mn mx = indeterminate

  unfoldable pub cmp_verdict : PushedOp → T → Option T → Option T → RgVerdict
  unfolding cmp_op
  cmp_verdict op lit (some mn) (some mx) = cmp_op op lit mn mx
  cmp_verdict op lit _ _ = indeterminate

unfoldable pub cmp_verdict_bytes : PushedOp → Bytes → Option Bytes → Option Bytes → RgVerdict
unfolding cmp_verdict
cmp_verdict_bytes = cmp_verdict bytes_ord

abbrev pub bool_eq : Bool → Bool → Bool
bool_eq true b = b
bool_eq false b = not b

unfoldable pub cmp_verdict_bool : PushedOp → Bool → Option Bool → Option Bool → RgVerdict
cmp_verdict_bool eq_op v (some mn) (some mx) =
    if bool_eq v mn && bool_eq v mx
    then can_match
    else verdict (not (bool_eq v mn) && not (bool_eq v mx))
cmp_verdict_bool ne_op v (some mn) (some mx) = verdict (bool_eq v mn && bool_eq v mx)
cmp_verdict_bool _ v _ _ = indeterminate

-- The comparison of two floats of either width is the processor's.
module _ (float32 float64 : PartialOrd ℕ) where
  unfoldable pub value_verdict : PushedOp → ScalarValueRepr → Bounds → RgVerdict
  unfolding cmp_verdict cmp_verdict_bytes cmp_verdict_bool
  value_verdict op (i32_value v) (int32_bounds mn mx) = cmp_verdict int_ord op v mn mx
  value_verdict op (i64_value v) (int64_bounds mn mx) = cmp_verdict int_ord op v mn mx
  value_verdict op (i16_value v) (int32_bounds mn mx) = cmp_verdict int_ord op v mn mx
  value_verdict op (f32_value v) (float_bounds mn mx) = cmp_verdict float32 op v mn mx
  value_verdict op (f64_value v) (double_bounds mn mx) = cmp_verdict float64 op v mn mx
  value_verdict op (date32_value v) (int32_bounds mn mx) = cmp_verdict int_ord op v mn mx
  value_verdict op (timestamp_micros v) (int64_bounds mn mx) = cmp_verdict int_ord op v mn mx
  value_verdict op (utf8_value v) (byte_array_bounds mn mx) = cmp_verdict_bytes op v mn mx
  value_verdict op (bool_value v) (boolean_bounds mn mx) = cmp_verdict_bool op v mn mx
  value_verdict op _ _ = indeterminate

  unfoldable pub stats_verdict : PushedOp → ScalarValueRepr → ℕ → Statistics → RgVerdict
  unfolding value_verdict
  stats_verdict is_null value num_values stats = elim stats.null_count [
    | none ↦ indeterminate
    | some n ↦ if n == 0 then cannot_match else can_match
  ]
  stats_verdict is_not_null value num_values stats = elim stats.null_count [
    | none ↦ indeterminate
    | some n ↦ if leb num_values n then cannot_match else can_match
  ]
  stats_verdict op value num_values stats = value_verdict op value stats.bounds

  -- `fields` is the number of the schema's fields; a column behind the group's has no chunk.
  unfoldable pub evaluate_leaf_against_rg : PushedQual → RowGroup → ℕ → RgVerdict
  unfolding stats_verdict
  evaluate_leaf_against_rg q rg fields =
      if leb fields q.col then indeterminate else (elim (get_elem? rg q.col) [
        | none ↦ indeterminate
        | some col ↦ elim col.statistics [
          | none ↦ indeterminate
          | some stats ↦ stats_verdict q.op q.value col.num_values stats
        ]
      ])

  -- The loops over the children keep the source's flags as arguments.
  unfoldable mutual
    unfolding evaluate_leaf_against_rg

    pub evaluate_against_rg : PushedExpr → RowGroup → ℕ → RgVerdict
    evaluate_against_rg (leaf q) rg fields = evaluate_leaf_against_rg q rg fields
    evaluate_against_rg (and_expr xs) rg fields = evaluate_and xs true rg fields
    evaluate_against_rg (or_expr xs) rg fields = evaluate_or xs false true rg fields
    evaluate_against_rg (not_expr x) rg fields = indeterminate

    pub evaluate_and : PushedExprs → Bool → RowGroup → ℕ → RgVerdict
    evaluate_and nil all_can rg fields = if all_can then can_match else indeterminate
    evaluate_and (cons x xs) all_can rg fields = elim (evaluate_against_rg x rg fields) [
      | cannot_match ↦ cannot_match
      | indeterminate ↦ evaluate_and xs false rg fields
      | can_match ↦ evaluate_and xs all_can rg fields
    ]

    pub evaluate_or : PushedExprs → Bool → Bool → RowGroup → ℕ → RgVerdict
    evaluate_or nil any_can all_cannot rg fields =
        if any_can then can_match else if all_cannot then cannot_match else indeterminate
    evaluate_or (cons x xs) any_can all_cannot rg fields = elim (evaluate_against_rg x rg fields) [
      | can_match ↦ evaluate_or xs true all_cannot rg fields
      | cannot_match ↦ evaluate_or xs any_can all_cannot rg fields
      | indeterminate ↦ evaluate_or xs any_can false rg fields
    ]

  -- Whether a group survives the pushed exprs, and whether one of them was determinable.
  unfoldable pub survives : List PushedExpr → RowGroup → ℕ → Bool → Bool × Bool
  unfolding evaluate_against_rg
  survives [] rg fields determinable = (true, determinable)
  survives (e ∷ exprs) rg fields determinable = elim (evaluate_against_rg e rg fields) [
    | cannot_match ↦ (false, true)
    | can_match ↦ survives exprs rg fields true
    | indeterminate ↦ survives exprs rg fields determinable
  ]

  unfoldable pub prune_loop : List RowGroup → List PushedExpr → ℕ → ℕ → Bool → List ℕ × Bool
  unfolding survives
  prune_loop [] exprs fields rg_idx determinable = ([], determinable)
  prune_loop (rg ∷ groups) exprs fields rg_idx determinable =
      let (kept, det) = survives exprs rg fields determinable in
      let (keep, last) = prune_loop groups exprs fields (rg_idx + 1) det in
      (if kept then rg_idx ∷ keep else keep, last)

  unfoldable pub prune_row_groups : List RowGroup → List PushedExpr → ℕ → Option (List ℕ)
  unfolding prune_loop
  prune_row_groups groups exprs fields =
      if is_empty exprs
      then none
      else let (keep, any_determinable) = prune_loop groups exprs fields 0 false in
        if any_determinable then some keep else none

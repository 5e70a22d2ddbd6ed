-- ===== src/Partition/Prune.antt =====
-- Pruning of blobs by their partition values: `split_quals_by_target` and
-- `evaluate_partition_quals_against_blob` of src/fdw/partition.rs.
pub mod Split
use parquet_azure_fdw.Prelude.{
  ℕ, zero, suc, ◌+◌, ◌-◌, ◌/◌, ◌%◌, Bool, true, false, not, ◌&&◌, ◌||◌, Option, none, some, List,
  [], ◌∷◌, ◌++◌, Bytes, bytes_eq, ltb, ◌==◌, if◌then◌else◌, any, get_elem?,
}
use parquet_azure_fdw.Options.PartitionType.{PgPartitionType}
use parquet_azure_fdw.Partition.Path.{Declared, Found, get}
use parquet_azure_fdw.Partition.Datum.{parse_int}
use parquet_azure_fdw.Pushdown.Order.{ℤ, pos, negsuc, PartialOrd, int_ord, bytes_ord}
use parquet_azure_fdw.Pushdown.Expr.{
  PushedOp, eq_op, ne_op, lt_op, le_op, gt_op, ge_op, is_null, is_not_null, ScalarValueRepr,
  i16_value, i32_value, i64_value, utf8_value, date32_value, PushedQual, PushedExpr, PushedExprs,
  leaf, and_expr, or_expr, not_expr, nil, cons,
}

pub data Target : Type 0 where
  partition_target storage_target mixed_target : Target

-- `match (seen_p, seen_s)`
unfoldable pub target_of : Bool → Bool → Target
target_of true true = mixed_target
target_of true false = partition_target
target_of false _ = storage_target

unfoldable mutual
  unfolding target_of

  pub classify_target : PushedExpr → List ℕ → Target
  classify_target (leaf q) attnums =
      if any (λ a. a == q.col) attnums then partition_target else storage_target
  classify_target (and_expr xs) attnums = classify_all xs false false attnums
  classify_target (or_expr xs) attnums = classify_all xs false false attnums
  classify_target (not_expr x) attnums = classify_target x attnums

  pub classify_all : PushedExprs → Bool → Bool → List ℕ → Target
  classify_all nil seen_p seen_s attnums = target_of seen_p seen_s
  classify_all (cons x xs) seen_p seen_s attnums = elim (classify_target x attnums) [
    | partition_target ↦ classify_all xs true seen_s attnums
    | storage_target ↦ classify_all xs seen_p true attnums
    | mixed_target ↦ mixed_target
  ]

unfoldable pub split_quals_by_target : List PushedExpr → List ℕ → List PushedExpr × List PushedExpr
unfolding classify_target
split_quals_by_target [] attnums = ([], [])
split_quals_by_target (e ∷ exprs) attnums =
    let (partition, storage) = split_quals_by_target exprs attnums in
    elim (classify_target e attnums) [
      | partition_target ↦ (e ∷ partition, storage)
      | storage_target ↦ (partition, e ∷ storage)
      | mixed_target ↦ (partition, storage)
    ]

-- `to_string` of an integer; the fuel is more than the number of digits.
unfoldable pub digits : ℕ → ℕ → Bytes
digits zero n = []
digits (suc fuel) n =
    let before = digits fuel (n / 10) in
    if ltb n 10 then (b'0' + n) ∷ [] else before ++ (b'0' + n % 10) ∷ []

unfoldable pub int_text : ℤ → Bytes
unfolding digits
int_text (pos n) = digits (suc n) n
int_text (negsuc n) = b'-' ∷ digits (n + 2) (n + 1)

-- `str::parse::<i64>`
unfoldable pub parse_i64 : Bytes → Option ℤ
unfolding parse_int
parse_i64 s = elim (parse_int 64 s) [
  | none ↦ none
  | some (negative, zero) ↦ some (pos 0)
  | some (false, suc v) ↦ some (pos (suc v))
  | some (true, suc v) ↦ some (negsuc v)
]

unfoldable pub order_test : {T : Type 0} → PartialOrd T → PushedOp → T → T → Bool
order_test o lt_op r l = o.lt r l
order_test o le_op r l = o.le r l
order_test o gt_op r l = o.lt l r
order_test o ge_op r l = o.le l r
order_test o _ r l = false

-- The comparison of an order operator: as numbers where both texts are, else as texts.
unfoldable pub compare_texts : PushedOp → Bytes → Bytes → Bool
unfolding parse_i64 order_test
compare_texts op raw lit = elim (parse_i64 raw) [
  | none ↦ order_test bytes_ord op raw lit
  | some r ↦ elim (parse_i64 lit) [
    | none ↦ order_test bytes_ord op raw lit
    | some l ↦ order_test int_ord op r l
  ]
]

unfoldable pub test_text : PushedOp → Bytes → Bytes → Bool
unfolding compare_texts
test_text eq_op raw lit = bytes_eq raw lit
test_text ne_op raw lit = not (bytes_eq raw lit)
test_text is_null raw lit = false
test_text is_not_null raw lit = true
test_text op raw lit = compare_texts op raw lit

-- `iter().position(|&a| a == col)`
unfoldable pub position : List ℕ → ℕ → Option ℕ
position [] col = none
position (a ∷ attnums) col =
    if a == col
    then some 0
    else (elim (position attnums col) [ none ↦ none | some i ↦ some (suc i) ])

-- `date_text` is chrono's text of a day since 1970.
module _ (date_text : ℤ → Bytes) where
  unfoldable pub literal_text : ScalarValueRepr → Option Bytes
  unfolding int_text
  literal_text (i32_value v) = some (int_text v)
  literal_text (i16_value v) = some (int_text v)
  literal_text (i64_value v) = some (int_text v)
  literal_text (utf8_value s) = some s
  literal_text (date32_value d) = some (date_text d)
  literal_text _ = none

  -- An index beyond the declared keys would be a panic; both lists come of the same options.
  unfoldable pub eval_partition_leaf : PushedQual → List ℕ → Found → Declared → Bool
  unfolding position literal_text test_text get
  eval_partition_leaf q attnums parsed declared = elim (position attnums q.col) [
    | none ↦ true
    | some i ↦ elim (get_elem? declared i) [
      | none ↦ true
      | some key ↦ elim (get key.0 parsed) [
        | none ↦ true
        | some raw ↦ elim (literal_text q.value) [ none ↦ true | some lit ↦ test_text q.op raw lit ]
      ]
    ]
  ]

  unfoldable mutual
    unfolding eval_partition_leaf

    pub eval_one_partition_expr : PushedExpr → List ℕ → Found → Declared → Bool
    eval_one_partition_expr (leaf q) attnums parsed declared =
        eval_partition_leaf q attnums parsed declared
    eval_one_partition_expr (and_expr xs) attnums parsed declared =
        eval_every xs attnums parsed declared
    eval_one_partition_expr (or_expr xs) attnums parsed declared =
        eval_some xs attnums parsed declared
    eval_one_partition_expr (not_expr x) attnums parsed declared =
        not (eval_one_partition_expr x attnums parsed declared)

    pub eval_every : PushedExprs → List ℕ → Found → Declared → Bool
    eval_every nil attnums parsed declared = true
    eval_every (cons x xs) attnums parsed declared =
        eval_one_partition_expr x attnums parsed declared && eval_every xs attnums parsed declared

    pub eval_some : PushedExprs → List ℕ → Found → Declared → Bool
    eval_some nil attnums parsed declared = false
    eval_some (cons x xs) attnums parsed declared =
        eval_one_partition_expr x attnums parsed declared || eval_some xs attnums parsed declared

  unfoldable pub evaluate_partition_quals_against_blob :
      List PushedExpr → List ℕ → Found → Declared → Bool
  unfolding eval_one_partition_expr
  evaluate_partition_quals_against_blob [] attnums parsed declared = true
  evaluate_partition_quals_against_blob (e ∷ exprs) attnums parsed declared =
      eval_one_partition_expr e attnums parsed declared
      && evaluate_partition_quals_against_blob exprs attnums parsed declared

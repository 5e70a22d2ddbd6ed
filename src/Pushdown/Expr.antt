-- ===== src/Pushdown/Expr.antt =====
-- The pushed quals of src/fdw/pushdown.rs, and the operations on them that do not read a file:
-- `inverse`, `collect_cols`, `translate_qual_to_parquet_idx`, `next_lex_upper`, and `invert_pushed` and
-- `like_prefix_literal` of src/fdw/pushdown_walk.rs.
use mathlib.Core.Option
use parquet_azure_fdw.Prelude.{
  ℕ, ◌+◌, Bool, ◌||◌, List, [], ◌∷◌, ◌++◌, Bytes, ltb, ◌==◌, if◌then◌else◌, Option, none, some, any,
  get_elem?, contains, is_empty,
}
use parquet_azure_fdw.Pushdown.Order.{ℤ}

pub data PushedOp : Type 0 where
  eq_op ne_op lt_op le_op gt_op ge_op is_null is_not_null : PushedOp

unfoldable pub inverse : PushedOp → PushedOp
inverse eq_op = ne_op
inverse ne_op = eq_op
inverse lt_op = ge_op
inverse ge_op = lt_op
inverse le_op = gt_op
inverse gt_op = le_op
inverse is_null = is_not_null
inverse is_not_null = is_null

-- Floats are their bit patterns.
pub data ScalarValueRepr : Type 0 where
  null : ScalarValueRepr
  bool_value : Bool → ScalarValueRepr
  i16_value i32_value i64_value : ℤ → ScalarValueRepr
  f32_value f64_value : ℕ → ScalarValueRepr
  utf8_value : Bytes → ScalarValueRepr
  date32_value timestamp_micros : ℤ → ScalarValueRepr
  decimal128 : ℤ → ℕ → ℤ → ScalarValueRepr

pub record PushedQual : Type 0 where
  pub col : ℕ
  pub op : PushedOp
  pub value : ScalarValueRepr

mutual
  pub data PushedExpr : Type 0 where
    leaf : PushedQual → PushedExpr
    and_expr or_expr : PushedExprs → PushedExpr
    not_expr : PushedExpr → PushedExpr

  pub data PushedExprs : Type 0 where
    nil : PushedExprs
    cons : PushedExpr → PushedExprs → PushedExprs

-- `PushedOp::inverse` has an inverse for every operator, so its `Option` is always `Some`, and no
-- `invert_pushed` fails.
unfoldable mutual
  unfolding inverse

  pub invert_pushed : PushedExpr → PushedExpr
  invert_pushed (leaf q) = leaf (record { col = q.col; op = inverse q.op; value = q.value })
  invert_pushed (and_expr xs) = or_expr (invert_all xs)
  invert_pushed (or_expr xs) = and_expr (invert_all xs)
  invert_pushed (not_expr inner) = inner

  pub invert_all : PushedExprs → PushedExprs
  invert_all nil = nil
  invert_all (cons x xs) = cons (invert_pushed x) (invert_all xs)

-- `if !out.contains(&q.col) { out.push(q.col) }`
unfoldable mutual
  pub walk_cols : PushedExpr → List ℕ → List ℕ
  walk_cols (leaf q) out = if any (λ c. c == q.col) out then out else out ++ q.col ∷ []
  walk_cols (and_expr xs) out = walk_all_cols xs out
  walk_cols (or_expr xs) out = walk_all_cols xs out
  walk_cols (not_expr x) out = walk_cols x out

  pub walk_all_cols : PushedExprs → List ℕ → List ℕ
  walk_all_cols nil out = out
  walk_all_cols (cons x xs) out = walk_all_cols xs (walk_cols x out)

unfoldable pub collect_cols : PushedExpr → List ℕ
unfolding walk_cols
collect_cols e = walk_cols e []

unfoldable pub index_map : List (Option ℕ) → ℕ → Option ℕ
index_map m col = elim (get_elem? m col) [ none ↦ none | some p ↦ p ]

unfoldable mutual
  unfolding index_map

  pub translate_qual_to_parquet_idx : PushedExpr → List (Option ℕ) → Option PushedExpr
  translate_qual_to_parquet_idx (leaf q) m = elim (index_map m q.col) [
    | none ↦ none
    | some p ↦ some (leaf (record { col = p; op = q.op; value = q.value }))
  ]
  translate_qual_to_parquet_idx (and_expr xs) m = Option.map and_expr (translate_all xs m)
  translate_qual_to_parquet_idx (or_expr xs) m = Option.map or_expr (translate_all xs m)
  translate_qual_to_parquet_idx (not_expr x) m =
      Option.map not_expr (translate_qual_to_parquet_idx x m)

  pub translate_all : PushedExprs → List (Option ℕ) → Option PushedExprs
  translate_all nil m = some nil
  translate_all (cons x xs) m = elim (translate_qual_to_parquet_idx x m) [
    | none ↦ none
    | some y ↦ elim (translate_all xs m) [ none ↦ none | some ys ↦ some (cons y ys) ]
  ]

-- The loop of `next_lex_upper`, from the last byte back: the last byte that is not 0xff, raised,
-- behind the bytes before it. `String::from_utf8` is the caller's next step.
unfoldable pub raise_last : Bytes → Option Bytes
raise_last [] = none
raise_last (c ∷ s) = elim (raise_last s) [
  | some up ↦ some (c ∷ up)
  | none ↦ if ltb c 255 then some ((c + 1) ∷ []) else none
]

-- `is_utf8` is the check of `String::from_utf8`.
unfoldable pub next_lex_upper : (Bytes → Bool) → Bytes → Option Bytes
unfolding raise_last
next_lex_upper is_utf8 prefix = elim (raise_last prefix) [
  | none ↦ none
  | some up ↦ if is_utf8 up then some up else none
]

-- The text before a last `%`.
unfoldable pub before_percent : Bytes → Option Bytes
before_percent [] = none
before_percent (c ∷ []) = if c == b'%' then some [] else none
before_percent (c ∷ d ∷ s) = Option.map (λ p. c ∷ p) (before_percent (d ∷ s))

unfoldable pub like_prefix_literal : Bytes → Option Bytes
unfolding before_percent
like_prefix_literal pat = elim (before_percent pat) [
  | none ↦ none
  | some prefix ↦
      if contains prefix b'%' || (contains prefix b'_' || contains prefix 92)
      then none
      else if is_empty prefix
      then none
      else some prefix
]

-- ===== src/Pushdown/Sound.antt =====
-- The verdicts of src/fdw/pushdown.rs on a leaf, against what the leaf means of the group's rows.
use parquet_azure_fdw.Prelude.{
  ℕ, ◌≤◌, ◌≡◌, ◌≢◌, refl, arith, Bool, true, false, List, [], ◌∷◌, Option, none, some, get_elem?,
  length, All, inl, inr, Option-cases,
}
use parquet_azure_fdw.Pushdown.Order.{
  PartialOrd, IsTotal, int_ord, bytes_ord, int_ord-IsTotal, bytes_ord-IsTotal,
}
use parquet_azure_fdw.Pushdown.Expr.{
  PushedOp, eq_op, ne_op, lt_op, le_op, gt_op, ge_op, is_null, is_not_null, ScalarValueRepr,
  bool_value, i16_value, i32_value, i64_value, utf8_value, date32_value, timestamp_micros,
  PushedQual,
}
use parquet_azure_fdw.Pushdown.Prune.{
  cannot_match, cmp_op, cmp_verdict, cmp_verdict_bytes, cmp_verdict_bool, cmp_verdict_bytes,
  value_verdict, stats_verdict, evaluate_leaf_against_rg, Bounds, int32_bounds, int64_bounds,
  byte_array_bounds, boolean_bounds, Statistics, ColumnChunk, RowGroup,
}
use parquet_azure_fdw.Pushdown.Truth.{
  Row, bool_ord, holds, Truth, and3, or3, compare_values, test_value, Within, InBounds, nulls,
  ChunkValid, GroupValid, IsExact,
}

module _ {T : Type 0} (o : PartialOrd T) (total : IsTotal o) where
  cmp_op_sound :
      (op : PushedOp) (lit mn mx v : T)
      → o.le mn v ≡ true
      → o.le v mx ≡ true
      → cmp_op o op lit mn mx ≡ cannot_match
      → holds o op v lit ≡ false
  unfolding cmp_op holds
  cmp_op_sound eq_op lit mn mx v low high h = ground (
    arith,
    total.not_lt lit mn,
    total.not_lt mx lit,
    total.eq_le v lit,
    total.le_trans mn v lit low,
    total.le_trans lit v mx,
  )
  cmp_op_sound ne_op lit mn mx v low high h = ground (
    arith,
    total.eq_le mn mx,
    total.eq_le lit mn,
    total.eq_le v lit,
    total.le_trans v mx mn high,
    total.le_trans v mn lit,
    total.le_trans lit mn v,
  )
  cmp_op_sound lt_op lit mn mx v low high h =
      ground (arith, total.not_lt v lit, total.le_trans lit mn v)
  cmp_op_sound le_op lit mn mx v low high h =
      ground (arith, total.not_lt lit mn, total.le_trans mn v lit low)
  cmp_op_sound gt_op lit mn mx v low high h =
      ground (arith, total.not_lt lit v, total.le_trans v mx lit high)
  cmp_op_sound ge_op lit mn mx v low high h =
      ground (arith, total.not_lt mx lit, total.le_trans lit v mx)
  cmp_op_sound is_null lit mn mx v low high h = refl
  cmp_op_sound is_not_null lit mn mx v low high h = refl

  cmp_verdict_sound :
      (op : PushedOp) (lit v : T) (mn mx : Option T)
      → Within o v mn mx
      → cmp_verdict o op lit mn mx ≡ cannot_match
      → holds o op v lit ≡ false
  unfolding cmp_verdict
  cmp_verdict_sound op lit v (some mn) (some mx) (low, high) h =
      cmp_op_sound op lit mn mx v (low mn refl) (high mx refl) h
  cmp_verdict_sound op lit v none mx w h = ground arith
  cmp_verdict_sound op lit v (some mn) none w h = ground arith

bool_eq_sound :
    (lit v mn mx : Bool)
    → bool_ord.le mn v ≡ true
    → bool_ord.le v mx ≡ true
    → cmp_verdict_bool eq_op lit (some mn) (some mx) ≡ cannot_match
    → holds bool_ord eq_op v lit ≡ false
unfolding cmp_verdict_bool holds
bool_eq_sound true true mn mx low high h = ground arith
bool_eq_sound false false mn mx low high h = ground arith
bool_eq_sound true false mn mx low high h = refl
bool_eq_sound false true mn mx low high h = refl

bool_ne_sound :
    (lit v mn mx : Bool)
    → bool_ord.le mn v ≡ true
    → bool_ord.le v mx ≡ true
    → cmp_verdict_bool ne_op lit (some mn) (some mx) ≡ cannot_match
    → holds bool_ord ne_op v lit ≡ false
unfolding cmp_verdict_bool holds
bool_ne_sound true true mn mx low high h = refl
bool_ne_sound false false mn mx low high h = refl
bool_ne_sound true false mn mx low high h = ground arith
bool_ne_sound false true mn mx low high h = ground arith

-- The Boolean bounds: the order of two values is decided by cases.
cmp_verdict_bool_sound :
    (op : PushedOp) (lit v : Bool) (mn mx : Option Bool)
    → Within bool_ord v mn mx
    → cmp_verdict_bool op lit mn mx ≡ cannot_match
    → holds bool_ord op v lit ≡ false
unfolding cmp_verdict_bool holds
cmp_verdict_bool_sound eq_op lit v (some mn) (some mx) (low, high) h =
    bool_eq_sound lit v mn mx (low mn refl) (high mx refl) h
cmp_verdict_bool_sound ne_op lit v (some mn) (some mx) (low, high) h =
    bool_ne_sound lit v mn mx (low mn refl) (high mx refl) h
cmp_verdict_bool_sound _ lit v mn mx w h = ground arith

pub All-map {ℓ κ μ} :
    {A : Type ℓ} {P : A → Type κ} {Q : A → Type μ} (f : (a : A) → P a → Q a) (xs : List A)
    → All P xs
    → All Q xs
All-map f [] h = tt
All-map f (x ∷ xs) (hx, h) = (f x hx, All-map f xs h)

module _ (col : ℕ) where
  nulls-none : (rows : List Row) → nulls col rows ≡ 0 → All (λ row. row col ≢ none) rows
  unfolding nulls
  nulls-none [] h = tt
  nulls-none (row ∷ rows) h = (ground arith, nulls-none rows (ground arith))

  nulls-le : (rows : List Row) → nulls col rows ≤ length rows
  unfolding nulls
  nulls-le [] = omega arith
  nulls-le (row ∷ rows) = ground (arith, nulls-le rows)

  All-nulls : (rows : List Row) → length rows ≤ nulls col rows → All (λ row. row col ≡ none) rows
  unfolding nulls
  All-nulls [] h = tt
  All-nulls (row ∷ rows) h =
      (ground (arith, nulls-le rows), All-nulls rows (ground (arith, nulls-le rows)))

-- No row of the group has the truth value `t` true.
abbrev pub Never : (Row → Truth) → List Row → Type 0
Never t rows = All (λ row. t row ≢ some true) rows

pub and-left : (a b : Truth) → a ≢ some true → and3 a b ≢ some true
and-left none none h = ground arith
and-left none (some true) h = ground arith
and-left none (some false) h = ground arith
and-left (some true) b h = elim (h refl) [ ]
and-left (some false) b h = ground arith

pub and-right : (a b : Truth) → b ≢ some true → and3 a b ≢ some true
and-right none none h = ground arith
and-right none (some true) h = ground arith
and-right none (some false) h = ground arith
and-right (some true) b h = h
and-right (some false) b h = ground arith

pub or-both : (a b : Truth) → a ≢ some true → b ≢ some true → or3 a b ≢ some true
or-both none none h k = ground arith
or-both none (some true) h k = ground arith
or-both none (some false) h k = ground arith
or-both (some true) b h k = elim (h refl) [ ]
or-both (some false) b h k = k

pub All-both {ℓ κ μ ν} :
    {A : Type ℓ} {P : A → Type κ} {Q : A → Type μ} {R : A → Type ν} (f : (a : A) → P a → Q a → R a)
    (xs : List A)
    → All P xs
    → All Q xs
    → All R xs
All-both f [] h k = tt
All-both f (x ∷ xs) (hx, h) (kx, k) = (f x hx kx, All-both f xs h k)

module _ (float32 float64 : PartialOrd ℕ)
    (other : PushedOp → ScalarValueRepr → ScalarValueRepr → Truth) where
  value_verdict_sound :
      (op : PushedOp) (lit v : ScalarValueRepr) (bounds : Bounds)
      → IsExact lit
      → InBounds v bounds
      → value_verdict float32 float64 op lit bounds ≡ cannot_match
      → compare_values other op v lit ≢ some true
  unfolding value_verdict cmp_verdict_bytes InBounds compare_values IsExact
  value_verdict_sound op (i16_value lit) (i16_value v) (int32_bounds mn mx) exact inside h =
      let miss = cmp_verdict_sound int_ord int_ord-IsTotal op lit v mn mx inside h in ground arith
  value_verdict_sound op (i32_value lit) (i32_value v) (int32_bounds mn mx) exact inside h =
      let miss = cmp_verdict_sound int_ord int_ord-IsTotal op lit v mn mx inside h in ground arith
  value_verdict_sound op (date32_value lit) (date32_value v) (int32_bounds mn mx) exact inside h =
      let miss = cmp_verdict_sound int_ord int_ord-IsTotal op lit v mn mx inside h in ground arith
  value_verdict_sound op (i64_value lit) (i64_value v) (int64_bounds mn mx) exact inside h =
      let miss = cmp_verdict_sound int_ord int_ord-IsTotal op lit v mn mx inside h in ground arith
  value_verdict_sound op (timestamp_micros lit) (timestamp_micros v) (int64_bounds mn mx) exact
        inside h =
      let miss = cmp_verdict_sound int_ord int_ord-IsTotal op lit v mn mx inside h in ground arith
  value_verdict_sound op (utf8_value lit) (utf8_value v) (byte_array_bounds mn mx) exact inside h =
      let miss = cmp_verdict_sound bytes_ord bytes_ord-IsTotal op lit v mn mx inside h in
      ground arith
  value_verdict_sound op (bool_value lit) (bool_value v) (boolean_bounds mn mx) exact inside h =
      let miss = cmp_verdict_bool_sound op lit v mn mx inside h in ground arith
  value_verdict_sound op lit v bounds exact inside h = ground arith

  -- A comparison that is ruled out by the bounds.
  compare_sound :
      (op : PushedOp) (lit : ScalarValueRepr) (bounds : Bounds) (cell : Option ScalarValueRepr)
      → op ≢ is_null
      → op ≢ is_not_null
      → IsExact lit
      → ((v : ScalarValueRepr) → cell ≡ some v → InBounds v bounds)
      → value_verdict float32 float64 op lit bounds ≡ cannot_match
      → test_value other op cell lit ≢ some true
  unfolding test_value
  compare_sound is_null lit bounds cell h k exact inside e = elim (h refl) [ ]
  compare_sound is_not_null lit bounds cell h k exact inside e = elim (k refl) [ ]
  compare_sound op lit bounds none h k exact inside e = ground arith
  compare_sound op lit bounds (some v) h k exact inside e =
      value_verdict_sound op lit v bounds exact (inside v refl) e

  is_null-false :
      (cell : Option ScalarValueRepr) (lit : ScalarValueRepr)
      → cell ≢ none
      → test_value other is_null cell lit ≢ some true
  unfolding test_value
  is_null-false none lit h = elim (h refl) [ ]
  is_null-false (some v) lit h = ground arith

  is_not_null-false :
      (cell : Option ScalarValueRepr) (lit : ScalarValueRepr)
      → cell ≡ none
      → test_value other is_not_null cell lit ≢ some true
  unfolding test_value
  is_not_null-false none lit h = ground arith
  is_not_null-false (some v) lit h = ground arith

  stats_sound :
      (op : PushedOp) (lit : ScalarValueRepr) (col : ℕ) (chunk : ColumnChunk) (stats : Statistics)
      (rows : List Row)
      → IsExact lit
      → ChunkValid col chunk stats rows
      → stats_verdict float32 float64 op lit chunk.num_values stats ≡ cannot_match
      → All (λ row. test_value other op (row col) lit ≢ some true) rows
  unfolding stats_verdict
  stats_sound is_null lit col chunk stats rows exact valid h =
      elim (Option-cases stats.null_count) [
        | inl e ↦ ground (arith, e)
        | inr (n, e) ↦
            let counted = valid.counted n e in
            All-map (λ row present. is_null-false (row col) lit present) rows
              (nulls-none col rows (ground (arith, e, counted)))
      ]
  stats_sound is_not_null lit col chunk stats rows exact valid h =
      elim (Option-cases stats.null_count) [
        | inl e ↦ ground (arith, e)
        | inr (n, e) ↦
            let counted = valid.counted n e in
            let sized = valid.sized in
            All-map (λ row absent. is_not_null-false (row col) lit absent) rows
              (All-nulls col rows (ground (arith, e, counted, sized)))
      ]
  stats_sound op lit col chunk stats rows exact valid h =
      All-map
        (λ row inside.
          compare_sound op lit stats.bounds (row col) (ground arith) (ground arith) exact inside h)
        rows valid.bounded

  pub leaf_sound :
      (q : PushedQual) (rg : RowGroup) (fields : ℕ) (rows : List Row)
      → IsExact q.value
      → GroupValid rg rows
      → evaluate_leaf_against_rg float32 float64 q rg fields ≡ cannot_match
      → Never (λ row. test_value other q.op (row q.col) q.value) rows
  unfolding evaluate_leaf_against_rg
  leaf_sound q rg fields rows exact valid h = elim (Option-cases (get_elem? rg q.col)) [
    | inl e ↦ ground (arith, e)
    | inr (chunk, e) ↦ elim (Option-cases chunk.statistics) [
      | inl f ↦ ground (arith, e, f)
      | inr (stats, f) ↦
          stats_sound q.op q.value q.col chunk stats rows exact (valid q.col chunk stats e f)
            (ground (arith, e, f, h))
    ]
  ]

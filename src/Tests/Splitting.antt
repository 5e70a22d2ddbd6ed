-- ===== src/Tests/Splitting.antt =====
-- The splitting of quals (src/fdw/partition.rs) on a table of a stored and a partition column.
use parquet_azure_fdw.Prelude.{refl, arith, List, [], ◌∷◌, All, true, false, codes}
use parquet_azure_fdw.Pushdown.Order.{pos}
use parquet_azure_fdw.Pushdown.Expr.{
  gt_op, eq_op, i32_value, utf8_value, PushedExpr, leaf, and_expr, nil, cons,
}
use parquet_azure_fdw.Partition.Prune.{split_quals_by_target}
use parquet_azure_fdw.Prelude.{zero, suc, none, some}
use parquet_azure_fdw.Partition.Prune.Split.{
  Stored, Translated, ColumnsBelow, split_quals_by_target-Translated, EachLeaf,
  split_quals_by_target-EachLeaf,
}

-- Column 1 is the partition column, all others are stored in place.
abbrev on_file : PushedExpr
on_file = leaf (record { col = 0; op = gt_op; value = i32_value (pos 5) })

abbrev on_path : PushedExpr
on_path = leaf (record { col = 1; op = eq_op; value = utf8_value (codes "eu") })

abbrev quals : List PushedExpr
quals = on_file ∷ on_path ∷ and_expr (cons on_file (cons on_path nil)) ∷ []

split_quals_by_target-EachLeaf_example :
    All (EachLeaf true (1 ∷ [])) (split_quals_by_target quals (1 ∷ [])).0
    × All (EachLeaf false (1 ∷ [])) (split_quals_by_target quals (1 ∷ [])).1
split_quals_by_target-EachLeaf_example = split_quals_by_target-EachLeaf quals (1 ∷ [])

stored : Stored 2 (1 ∷ []) (some 0 ∷ none ∷ [])
stored zero below h = (0, refl)
stored (suc zero) below h = ground arith
stored (suc (suc col)) below h = ground arith

split_quals_by_target-Translated_example :
    All (Translated (some 0 ∷ none ∷ [])) (split_quals_by_target quals (1 ∷ [])).1
unfolding ColumnsBelow
split_quals_by_target-Translated_example =
    split_quals_by_target-Translated quals 2 (1 ∷ []) (some 0 ∷ none ∷ [])
      (omega arith, (omega arith, ((omega arith, (omega arith, tt)), tt))) stored

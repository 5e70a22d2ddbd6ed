-- ===== src/Tests/Pushing.antt =====
-- Pushed quals (src/fdw/pushdown.rs) at concrete values.
use parquet_azure_fdw.Prelude.{
  zero, suc, ◌∙◌, ap, subst, ℕ, ◌≡◌, refl, arith, true, false, [], ◌∷◌, ◌++◌, codes, none, some,
  any, ◌==◌, ◌&&◌, not, contains, starts_with,
}
use parquet_azure_fdw.Pushdown.Order.{pos, PartialOrd, bytes_le, from_le}
use parquet_azure_fdw.Pushdown.Expr.{
  PushedOp, gt_op, ScalarValueRepr, i32_value, PushedExpr, leaf, and_expr, nil, cons, invert_pushed,
  like_prefix_literal, next_lex_upper,
}
use parquet_azure_fdw.Pushdown.Prune.{
  RowGroup, ColumnChunk, Statistics, int32_bounds, prune_row_groups,
}
use parquet_azure_fdw.Pushdown.Truth.{
  AllExact, Row, Truth, truth, not3, GroupValid, ChunkValid, InBounds, nulls,
}
use parquet_azure_fdw.Pushdown.Groups.{prune_row_groups_sound}
use parquet_azure_fdw.Pushdown.Invert.{truth-invert_pushed}
use parquet_azure_fdw.Pushdown.Like.{like_prefix_literal_range}

abbrev bits : PartialOrd ℕ
bits = from_le λ a b. true

abbrev other : PushedOp → ScalarValueRepr → ScalarValueRepr → Truth
other op v lit = none

-- `x > 5`
abbrev above : PushedExpr
above = leaf (record { col = 0; op = gt_op; value = i32_value (pos 5) })

abbrev row : Row
row col = some (i32_value (pos 9))

abbrev stats9 : ℕ → ℕ → Statistics
stats9 mn mx = record { null_count = some 0; bounds = int32_bounds (some (pos mn)) (some (pos mx)) }

abbrev chunk_of : ℕ → ℕ → ColumnChunk
chunk_of mn mx = record { num_values = 1; statistics = some (stats9 mn mx) }

abbrev group : ℕ → ℕ → RowGroup
group mn mx = chunk_of mn mx ∷ []

inside :
    (v : ScalarValueRepr) → row 0 ≡ some v → InBounds v (int32_bounds (some (pos 9)) (some (pos 9)))
unfolding InBounds
inside v e =
    let same : i32_value (pos 9) ≡ v = cc in
    subst (λ w. InBounds w (int32_bounds (some (pos 9)) (some (pos 9)))) same
      ((λ m h. ground (arith, h)), λ m h. ground (arith, h))

chunk_valid : ChunkValid 0 (chunk_of 9 9) (stats9 9 9) (row ∷ [])
unfolding nulls
chunk_valid = record { counted = λ n e. ground (arith, e); sized = refl; bounded = (inside, tt) }

group_valid : GroupValid (group 9 9) (row ∷ [])
group_valid zero chunk stats at has =
    let same_chunk : chunk_of 9 9 ≡ chunk = cc in
    let both : some (stats9 9 9) ≡ some stats = ap (λ c. c.statistics) same_chunk ∙ has in
    let same_stats : stats9 9 9 ≡ stats = cc in
    subst (λ c. ChunkValid 0 c stats (row ∷ [])) same_chunk
      (subst (λ s. ChunkValid 0 (chunk_of 9 9) s (row ∷ [])) same_stats chunk_valid)
group_valid (suc col) chunk stats at has = ground (arith, at)

prune_row_groups_sound_example : any (λ k. k == 1) (1 ∷ []) ≡ true
unfolding prune_row_groups truth AllExact
prune_row_groups_sound_example =
    prune_row_groups_sound bits bits other (group 1 3 ∷ group 9 9 ∷ []) (above ∷ []) 1 (1 ∷ []) 1
      (group 9 9) (row ∷ []) 0 row refl refl group_valid refl (tt, tt) (refl, tt)

truth-invert_pushed_example :
    truth other (invert_pushed (and_expr (cons above nil))) row
    ≡ not3 (truth other (and_expr (cons above nil)) row)
truth-invert_pushed_example =
    truth-invert_pushed other (and_expr (cons above nil)) row λ op v lit. refl

like_prefix_literal_range_example :
    (codes "ab%" ≡ codes "ab" ++ b'%' ∷ [])
    × (contains (codes "ab") b'%' ≡ false)
    × (contains (codes "ab") b'_' ≡ false)
    × (contains (codes "ab") 92 ≡ false)
    × (starts_with (codes "abc") (codes "ab")
        ≡ (bytes_le (codes "ab") (codes "abc") && not (bytes_le (codes "ac") (codes "abc"))))
unfolding like_prefix_literal next_lex_upper
like_prefix_literal_range_example =
    like_prefix_literal_range (λ s. true) (codes "ab%") (codes "ab") (codes "ac") (codes "abc") refl
      refl (omega arith, (omega arith, (omega arith, tt)))

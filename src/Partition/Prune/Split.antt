-- ===== src/Partition/Prune/Split.antt =====
-- Which quals `split_quals_by_target` of src/fdw/partition.rs hands to the blobs' partition values and
-- which to the files.
use parquet_azure_fdw.Prelude.{
  ◌<◌, Option, some, ℕ, ◌≡◌, refl, arith, Bool, true, false, List, [], ◌∷◌, ◌==◌, any, All, inl,
  inr, ◌⊎◌, get_elem?,
}
use parquet_azure_fdw.Pushdown.Expr.{
  index_map, translate_qual_to_parquet_idx, translate_all, PushedExpr, PushedExprs, leaf, and_expr,
  or_expr, not_expr, nil, cons, PushedQual,
}
use parquet_azure_fdw.Partition.Prune.{
  Target, partition_target, storage_target, mixed_target, target_of, classify_target, classify_all,
  split_quals_by_target,
}

-- Every leaf's column is a partition column (`inside` true), or none is.
unfoldable mutual
  pub EachLeaf : Bool → List ℕ → PushedExpr → Type 0
  EachLeaf inside attnums (leaf q) = any (λ a. a == q.col) attnums ≡ inside
  EachLeaf inside attnums (and_expr xs) = EachLeafAll inside attnums xs
  EachLeaf inside attnums (or_expr xs) = EachLeafAll inside attnums xs
  EachLeaf inside attnums (not_expr x) = EachLeaf inside attnums x

  pub EachLeafAll : Bool → List ℕ → PushedExprs → Type 0
  EachLeafAll inside attnums nil = Unit
  EachLeafAll inside attnums (cons x xs) = EachLeaf inside attnums x × EachLeafAll inside attnums xs

Target-cases : (t : Target) → (t ≡ partition_target) ⊎ ((t ≡ storage_target) ⊎ (t ≡ mixed_target))
Target-cases partition_target = inl refl
Target-cases storage_target = inr (inl refl)
Target-cases mixed_target = inr (inr refl)

module _ (attnums : List ℕ) where
  mutual
    unfolding classify_target target_of EachLeaf

    partition-EachLeaf :
        (e : PushedExpr) → classify_target e attnums ≡ partition_target → EachLeaf true attnums e
    partition-EachLeaf (leaf q) h = ground (arith, h)
    partition-EachLeaf (and_expr xs) h = (partition-EachLeafAll xs false false h).1
    partition-EachLeaf (or_expr xs) h = (partition-EachLeafAll xs false false h).1
    partition-EachLeaf (not_expr x) h = partition-EachLeaf x h

    partition-EachLeafAll :
        (xs : PushedExprs) (seen_p seen_s : Bool)
        → classify_all xs seen_p seen_s attnums ≡ partition_target
        → (seen_s ≡ false) × EachLeafAll true attnums xs
    partition-EachLeafAll nil seen_p seen_s h = (ground (arith, h), tt)
    partition-EachLeafAll (cons x xs) seen_p seen_s h =
        elim (Target-cases (classify_target x attnums)) [
          | inl e ↦
              let (s, each) = partition-EachLeafAll xs true seen_s (ground (arith, e, h)) in
              (s, (partition-EachLeaf x e, each))
          | inr (inl e) ↦
              let (s, each) = partition-EachLeafAll xs seen_p true (ground (arith, e, h)) in
              ground (arith, s)
          | inr (inr e) ↦ ground (arith, e, h)
        ]

  mutual
    unfolding classify_target target_of EachLeaf

    storage-EachLeaf :
        (e : PushedExpr) → classify_target e attnums ≡ storage_target → EachLeaf false attnums e
    storage-EachLeaf (leaf q) h = ground (arith, h)
    storage-EachLeaf (and_expr xs) h = (storage-EachLeafAll xs false false h).1
    storage-EachLeaf (or_expr xs) h = (storage-EachLeafAll xs false false h).1
    storage-EachLeaf (not_expr x) h = storage-EachLeaf x h

    storage-EachLeafAll :
        (xs : PushedExprs) (seen_p seen_s : Bool)
        → classify_all xs seen_p seen_s attnums ≡ storage_target
        → (seen_p ≡ false) × EachLeafAll false attnums xs
    storage-EachLeafAll nil seen_p seen_s h = (ground (arith, h), tt)
    storage-EachLeafAll (cons x xs) seen_p seen_s h =
        elim (Target-cases (classify_target x attnums)) [
          | inl e ↦
              let (p, each) = storage-EachLeafAll xs true seen_s (ground (arith, e, h)) in
              ground (arith, p)
          | inr (inl e) ↦
              let (p, each) = storage-EachLeafAll xs seen_p true (ground (arith, e, h)) in
              (p, (storage-EachLeaf x e, each))
          | inr (inr e) ↦ ground (arith, e, h)
        ]

-- The quals that are tested against the partition values have partition columns in all of their
-- leaves, and those that are pushed into the files have them in none.
pub split_quals_by_target-EachLeaf :
    (exprs : List PushedExpr) (attnums : List ℕ)
    → All (EachLeaf true attnums) (split_quals_by_target exprs attnums).0
      × All (EachLeaf false attnums) (split_quals_by_target exprs attnums).1
unfolding split_quals_by_target
split_quals_by_target-EachLeaf [] attnums = (tt, tt)
split_quals_by_target-EachLeaf (e ∷ exprs) attnums =
    let (partition, storage) = split_quals_by_target-EachLeaf exprs attnums in
    elim (Target-cases (classify_target e attnums)) [
      | inl t ↦ rw (t, split_quals_by_target) ((partition-EachLeaf attnums e t, partition), storage)
      | inr (inl t) ↦
          rw (t, split_quals_by_target) (partition, (storage-EachLeaf attnums e t, storage))
      | inr (inr t) ↦ rw (t, split_quals_by_target) (partition, storage)
    ]

-- Every leaf's column is one of the relation's `n` columns.
unfoldable mutual
  pub ColumnsBelow : ℕ → PushedExpr → Type 0
  ColumnsBelow n (leaf q) = q.col < n
  ColumnsBelow n (and_expr xs) = EachColumnsBelow n xs
  ColumnsBelow n (or_expr xs) = EachColumnsBelow n xs
  ColumnsBelow n (not_expr x) = ColumnsBelow n x

  pub EachColumnsBelow : ℕ → PushedExprs → Type 0
  EachColumnsBelow n nil = Unit
  EachColumnsBelow n (cons x xs) = ColumnsBelow n x × EachColumnsBelow n xs

-- Every column of the relation that is no partition column has an index in the files.
abbrev pub Stored : ℕ → List ℕ → List (Option ℕ) → Type 0
Stored n attnums m =
    (col : ℕ)
    → col < n
    → any (λ a. a == col) attnums ≡ false
    → (p : ℕ) × (get_elem? m col ≡ some (some p))

-- The same qual over the columns of the files: of the same shape, each leaf with its operator and
-- its value, and with the index that its column has in the files.
mutual
  pub data Translates (m : List (Option ℕ)) : PushedExpr → PushedExpr → Type 0 where
    leaf_to :
        {q : PushedQual} (p : ℕ)
        → get_elem? m q.col ≡ some (some p)
        → Translates m (leaf q) (leaf (record { col = p; op = q.op; value = q.value }))
    and_to :
        {xs ys : PushedExprs} → TranslatesAll m xs ys → Translates m (and_expr xs) (and_expr ys)
    or_to : {xs ys : PushedExprs} → TranslatesAll m xs ys → Translates m (or_expr xs) (or_expr ys)
    not_to : {x y : PushedExpr} → Translates m x y → Translates m (not_expr x) (not_expr y)

  pub data TranslatesAll (m : List (Option ℕ)) : PushedExprs → PushedExprs → Type 0 where
    nil_to : TranslatesAll m nil nil
    cons_to :
        {x y : PushedExpr} {xs ys : PushedExprs}
        → Translates m x y
        → TranslatesAll m xs ys
        → TranslatesAll m (cons x xs) (cons y ys)

abbrev pub Translated : List (Option ℕ) → PushedExpr → Type 0
Translated m e = (t : PushedExpr) × (translate_qual_to_parquet_idx e m ≡ some t) × Translates m e t

module _ (n : ℕ) (attnums : List ℕ) (m : List (Option ℕ)) (stored : Stored n attnums m) where
  mutual
    unfolding EachLeaf ColumnsBelow translate_qual_to_parquet_idx index_map

    translated : (e : PushedExpr) → EachLeaf false attnums e → ColumnsBelow n e → Translated m e
    translated (leaf q) h b =
        let (p, at) = stored q.col b h in
        (leaf (record { col = p; op = q.op; value = q.value }), ground (arith, at), leaf_to p at)
    translated (and_expr xs) h b =
        let (ts, e, to) = translated_all xs h b in (and_expr ts, ground (arith, e), and_to to)
    translated (or_expr xs) h b =
        let (ts, e, to) = translated_all xs h b in (or_expr ts, ground (arith, e), or_to to)
    translated (not_expr x) h b =
        let (t, e, to) = translated x h b in (not_expr t, ground (arith, e), not_to to)

    translated_all :
        (xs : PushedExprs)
        → EachLeafAll false attnums xs
        → EachColumnsBelow n xs
        → (ts : PushedExprs) × (translate_all xs m ≡ some ts) × TranslatesAll m xs ts
    translated_all nil h b = (nil, refl, nil_to)
    translated_all (cons x xs) (hx, h) (bx, b) =
        let (t, e, to) = translated x hx bx in
        let (ts, es, all_to) = translated_all xs h b in
        (cons t ts, ground (arith, e, es), cons_to to all_to)

  split-Translated :
      (exprs : List PushedExpr)
      → All (ColumnsBelow n) exprs
      → All (Translated m) (split_quals_by_target exprs attnums).1
  unfolding split_quals_by_target
  split-Translated [] b = tt
  split-Translated (e ∷ exprs) (be, b) = elim (Target-cases (classify_target e attnums)) [
    | inl t ↦ rw (t, split_quals_by_target) (split-Translated exprs b)
    | inr (inl t) ↦
        rw (t, split_quals_by_target)
          (translated e (storage-EachLeaf attnums e t) be, split-Translated exprs b)
    | inr (inr t) ↦ rw (t, split_quals_by_target) (split-Translated exprs b)
  ]

-- Each qual that the splitting leaves to the files is translated to a qual of the same shape with the
-- same operators and values, in which each leaf's column is replaced by its index in the files, when
-- the quals only name the relation's columns and every column that is no partition column has an
-- index there.
pub split_quals_by_target-Translated :
    (exprs : List PushedExpr) (n : ℕ) (attnums : List ℕ) (m : List (Option ℕ))
    → All (ColumnsBelow n) exprs
    → Stored n attnums m
    → All (Translated m) (split_quals_by_target exprs attnums).1
split_quals_by_target-Translated exprs n attnums m below stored =
    split-Translated n attnums m stored exprs below

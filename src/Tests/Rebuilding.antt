-- ===== src/Tests/Rebuilding.antt =====
-- The rewrite of a blob (src/fdw/modify/kernel.rs) at a concrete input, with lists for arrays.
use parquet_azure_fdw.Prelude.{
  ℕ, true, ◌≡◌, ◌≢◌, refl, sym, ap, arith, List, [], ◌∷◌, Option, none, some, length, take, drop,
  concat, map, All, if◌then◌else◌, all, ◌==◌,
}
use parquet_azure_fdw.Error.{ok}
use parquet_azure_fdw.Modify.Kernel.{
  Arrow, IsLawful, BlobEdits, apply_edits_batch, apply_edits, kept_values, override_columns,
  edit_columns, edit_column, replacement, override_at, splice, drop_deleted, clear_deleted,
}
use parquet_azure_fdw.Modify.Kernel.Rows.{edited}
use parquet_azure_fdw.Modify.Kernel.Laws.{
  IsBatch, IsEdits, edited_columns, apply_edits_batch-edited,
}
use parquet_azure_fdw.Modify.Kernel.Stream.{column_values, total_rows, apply_edits-edited}

abbrev join : List (List ℕ) → Option (List ℕ)
join [] = none
join (c ∷ cs) = some (concat (c ∷ cs))

abbrev build : List ℕ → List (List ℕ) → Option (ℕ × List (List ℕ))
build fields [] = none
build fields (c ∷ cs) = if all (λ d. length d == length c) cs then some (length c, c ∷ cs) else none

abbrev first_length : List (List ℕ) → ℕ
first_length [] = 0
first_length (c ∷ cs) = length c

abbrev pub list_arrow : Arrow
list_arrow = record {
  ArrayRef = List ℕ;
  RecordBatch = ℕ × List (List ℕ);
  Field = ℕ;
  Value = ℕ;
  values = λ c. c;
  slice = λ c offset count. take count (drop offset c);
  concat_arrays = join;
  num_rows = λ b. b.0;
  columns = λ b. b.1;
  try_new = build;
  filter_record_batch =
      λ b mask. some (first_length (map (kept_values mask) b.1), map (kept_values mask) b.1);
  Fits = λ f c. Unit;
}

map-id : (xss : List (List ℕ)) → map (λ xs. xs) xss ≡ xss
map-id [] = refl
map-id (xs ∷ xss) = ap (λ yss. xs ∷ yss) (map-id xss)

all-lengths :
    (n : ℕ) (cs : List (List ℕ)) → All (λ c. length c ≡ n) cs → all (λ d. length d == n) cs ≡ true
all-lengths n [] h = refl
all-lengths n (c ∷ cs) (h, hs) = ground (arith, all-lengths n cs hs)

build_ok :
    (fs : List ℕ) (cs : List (List ℕ)) (n : ℕ)
    → cs ≢ []
    → All (λ c. length c ≡ n) cs
    → (b : ℕ × List (List ℕ)) × (build fs cs ≡ some b) × (b.1 ≡ cs) × (b.0 ≡ n)
build_ok fs [] n h sizes = absurd (h refl)
build_ok fs (c ∷ cs) n h (size, sizes) =
    rw (size, all-lengths n cs sizes) ((n, c ∷ cs), refl, refl, refl)

join_ok :
    (f : ℕ) (cs : List (List ℕ))
    → cs ≢ []
    → (c : List ℕ) × (join cs ≡ some c) × Unit {0} × (c ≡ concat (map (λ xs. xs) cs))
join_ok f [] h = absurd (h refl)
join_ok f (c ∷ cs) h = (concat (c ∷ cs), refl, tt, ap concat (sym (map-id (c ∷ cs))))

list_arrow-IsLawful : IsLawful list_arrow
list_arrow-IsLawful = record {
  values-slice = λ c offset count h. refl;
  Fits-slice = λ f c offset count h fit. tt;
  concat-ok = λ f cs h fit. join_ok f cs h;
  try_new-ok = λ fs cs n h fit sizes. build_ok fs cs n h sizes;
  filter-ok = λ b mask h. (_, refl, map-id _);
}

-- The row 11 and the row 13 are deleted, and the row 12 gets the value 70 in the second column.
abbrev edits : BlobEdits (List ℕ)
edits = record {
  deletes = 13 ∷ 11 ∷ [];
  updates = (12, record { values = none ∷ some (70 ∷ []) ∷ [] }) ∷ [];
}

edits-IsEdits : IsEdits list_arrow (0 ∷ 1 ∷ []) edits
edits-IsEdits = record { rows_once = (refl, tt); overrides_fit = (((tt, refl), tt), tt) }

abbrev batch : ℕ × List (List ℕ)
batch = (3, (1 ∷ 2 ∷ 3 ∷ []) ∷ (4 ∷ 5 ∷ 6 ∷ []) ∷ [])

batch-IsBatch : IsBatch list_arrow (0 ∷ 1 ∷ []) batch
batch-IsBatch = record { some_column = λ e. cc; fit = (tt, (tt, tt)); sizes = (refl, (refl, tt)) }

apply_edits_batch-edited_example :
    (out : ℕ × List (List ℕ)) × (apply_edits_batch list_arrow batch 10 (0 ∷ 1 ∷ []) edits ≡ ok out)
    × (map (λ c. c) out.1 ≡ edited_columns list_arrow edits 10 0 (map (λ c. c) batch.1))
apply_edits_batch-edited_example =
    apply_edits_batch-edited list_arrow list_arrow-IsLawful (0 ∷ 1 ∷ []) edits edits-IsEdits 10
      batch batch-IsBatch (omega arith)

rewritten :
    apply_edits_batch list_arrow batch 10 (0 ∷ 1 ∷ []) edits
    ≡ ok (2, (1 ∷ 3 ∷ []) ∷ (4 ∷ 70 ∷ []) ∷ [])
unfolding apply_edits_batch override_columns edit_columns edit_column replacement override_at splice
    drop_deleted clear_deleted
rewritten = refl

abbrev blob : List (ℕ × List (List ℕ))
blob = batch ∷ batch ∷ batch ∷ batch ∷ batch ∷ []

apply_edits-edited_example :
    (outs : List (ℕ × List (List ℕ))) × (apply_edits list_arrow blob (0 ∷ 1 ∷ []) edits ≡ ok outs)
    × (column_values list_arrow 1 outs
        ≡ edited list_arrow edits 1 0 (column_values list_arrow 1 blob))
unfolding total_rows
apply_edits-edited_example =
    apply_edits-edited list_arrow list_arrow-IsLawful (0 ∷ 1 ∷ []) edits edits-IsEdits 1
      (omega arith) blob
      (batch-IsBatch, (batch-IsBatch, (batch-IsBatch, (batch-IsBatch, (batch-IsBatch, tt)))))
      (omega arith)

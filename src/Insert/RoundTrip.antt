-- ===== src/Insert/RoundTrip.antt =====
-- The names that an INSERT gives to its blobs, read back: `compute_target_name` of
-- src/fdw/modify/insert.rs against `partition_values_from_path` of src/fdw/partition.rs.
use parquet_azure_fdw.Prelude.{
  bytes_eq→eq, ℕ, ◌≡◌, refl, ap, ◌∙◌, true, false, none, some, List, [], ◌∷◌, ◌++◌, Bytes, bytes_eq,
  length, bytes_eq_refl, eq_ignore_ascii_case, contains, contains-append, is_empty, if◌then◌else◌,
  All, arith, subst, ends_with, not, ◌&&◌, append_assoc, Bool-cases, to_ascii_lowercase, codes, inl,
  inr, append-nil,
}
use parquet_azure_fdw.Error.{ok}
use parquet_azure_fdw.Options.PartitionType.{PgPartitionType}
use parquet_azure_fdw.Partition.Path.{
  Declared, Found, get, find_declared, check_present, partition_values_from_path,
}
use parquet_azure_fdw.Partition.Path.Laws.{add_segment-plain, add_segment-new, get-append}
use parquet_azure_fdw.Insert.Target.{
  generate_blob_name, push_segment, push_values, Layout, compute_target_name, text_partition_string,
}
use parquet_azure_fdw.Insert.Walk.{
  walk-join_ok, walk, walk-push_segment, trim_end-stays, ends_with-append, ends_with-contains,
}

-- The keys' names are usable in a path, and no two agree up to the case of ASCII letters.
abbrev pub Apart : Declared → Type 0
Apart [] = Unit
Apart ((n, ty) ∷ d) = All (λ m. eq_ignore_ascii_case n m.0 ≡ false) d × Apart d

abbrev pub Plain : Bytes × PgPartitionType → Type 0
Plain m = (contains m.0 b'/' ≡ false) × (contains m.0 b'=' ≡ false)

-- What the write side accepts and the read side does too.
abbrev pub Accepted : Bytes → Type 0
Accepted v = (text_partition_string v ≡ ok v) × (contains v b'%' ≡ false)

unfoldable pub pairs : Declared → List Bytes → Found
pairs ((n, ty) ∷ d) (v ∷ vs) = (n, v) ∷ pairs d vs
pairs _ _ = []

text_partition_string-ok :
    (v : Bytes) → text_partition_string v ≡ ok v → (is_empty v ≡ false) × (contains v b'/' ≡ false)
unfolding text_partition_string
text_partition_string-ok v h = (ground arith, ground arith)

-- What stays true of the keys still to be pushed: the walk finds them, and has not yet.
abbrev Pending : Declared → Found → Bytes × PgPartitionType → Type 0
Pending d f m = (find_declared d m.0 ≡ some m.0) × (get m.0 f ≡ none) × Plain m

bytes_eq-ignore : (a b : Bytes) → eq_ignore_ascii_case a b ≡ false → bytes_eq a b ≡ false
bytes_eq-ignore a b h = elim (Bool-cases (bytes_eq a b)) [
  | inl e ↦
      let same : eq_ignore_ascii_case a b ≡ true =
        subst (λ c. eq_ignore_ascii_case a c ≡ true) (bytes_eq→eq a b e)
          (bytes_eq_refl (to_ascii_lowercase a)) in
      cc
  | inr e ↦ e
]

find_declared-cons :
    (n : Bytes) (ty : PgPartitionType) (d e : Declared)
    → All (λ m. eq_ignore_ascii_case n m.0 ≡ false) e
    → All (λ m. find_declared d m.0 ≡ some m.0) e
    → All (λ m. find_declared ((n, ty) ∷ d) m.0 ≡ some m.0) e
unfolding find_declared
find_declared-cons n ty d [] h k = tt
find_declared-cons n ty d (m ∷ e) (hm, h) (km, k) =
    (rw (hm, find_declared) km, find_declared-cons n ty d e h k)

find_declared_self : (d : Declared) → Apart d → All (λ m. find_declared d m.0 ≡ some m.0) d
unfolding find_declared
find_declared_self [] h = tt
find_declared_self ((n, ty) ∷ d) (hn, h) = (
  rw (bytes_eq_refl (to_ascii_lowercase n), find_declared) refl,
  find_declared-cons n ty d d hn (find_declared_self d h),
)

-- After pushing a key that is apart from the rest, the rest is still pending.
pending-after :
    (d : Declared) (f : Found) (n v : Bytes) (e : Declared)
    → All (λ m. eq_ignore_ascii_case n m.0 ≡ false) e
    → All (Pending d f) e
    → All (Pending d (f ++ (n, v) ∷ [])) e
unfolding get
pending-after d f n v [] h k = tt
pending-after d f n v (m ∷ e) (hm, h) ((found, fresh, plain), k) = (
  (found, get-append m.0 f ((n, v) ∷ []) fresh ∙ rw (bytes_eq-ignore n m.0 hm) refl, plain),
  pending-after d f n v e h k,
)

-- One key and its value: the walk of the path has one more pair.
walk-push :
    (d : Declared) (p n v : Bytes) (f : Found)
    → Plain (n, PgPartitionType.text)
    → Accepted v
    → find_declared d n ≡ some n
    → get n f ≡ none
    → walk d p ≡ ok f
    → walk d (push_segment p (n ++ b'=' ∷ v)) ≡ ok (f ++ (n, v) ∷ [])
walk-push d p n v f (slash, equals) (accepted, percent) found fresh walked =
    let (filled, value_slash) = text_partition_string-ok v accepted in
    walk-push_segment d p (n ++ b'=' ∷ v) f
      (contains-append n (b'=' ∷ v) b'/' ∙ rw (slash, value_slash) refl) walked
    ∙ add_segment-new d f n v equals found filled percent fresh

walk-push_values :
    (d e : Declared) (vs : List Bytes) (p : Bytes) (f : Found)
    → length e ≡ length vs
    → Apart e
    → All Accepted vs
    → All (Pending d f) e
    → walk d p ≡ ok f
    → walk d (push_values e vs p) ≡ ok (f ++ pairs e vs)
unfolding push_values pairs
walk-push_values d [] [] p f len apart good pending walked = rw append-nil walked
walk-push_values d [] (v ∷ vs) p f len apart good pending walked = ground arith
walk-push_values d (m ∷ e) [] p f len apart good pending walked = ground arith
walk-push_values d ((n, ty) ∷ e) (v ∷ vs) p f len (ha, apart) (hv, good)
      ((found, fresh, plain), pending) walked =
    walk-push_values d e vs _ (f ++ (n, v) ∷ []) (omega arith) apart good
      (pending-after d f n v e ha pending) (walk-push d p n v f plain hv found fresh walked)
    ∙ ap ok (append_assoc f ((n, v) ∷ []) (pairs e vs))

-- A path that ends with a value, so not with a slash.
abbrev Closed : Bytes → Type 0
Closed p = (is_empty p ≡ false) × (ends_with p b'/' ≡ false)

is_empty-append : (q : Bytes) (x : ℕ) (s : Bytes) → is_empty (q ++ x ∷ s) ≡ false
is_empty-append [] x s = refl
is_empty-append (y ∷ q) x s = refl

value-Closed : (q v : Bytes) → Accepted v → Closed (q ++ b'=' ∷ v)
value-Closed q v (accepted, percent) =
    let (filled, slash) = text_partition_string-ok v accepted in
    (
      is_empty-append q b'=' v,
      ends_with-append q b'=' v b'/' ∙ ends_with-contains (b'=' ∷ v) b'/' (rw slash refl),
    )

push_segment-Closed : (p n v : Bytes) → Accepted v → Closed (push_segment p (n ++ b'=' ∷ v))
unfolding push_segment
push_segment-Closed p n v h =
    elim (not (is_empty p) && not (ends_with p b'/'))
      as (λ b. Closed (if b then p ++ b'/' ∷ (n ++ b'=' ∷ v) else p ++ (n ++ b'=' ∷ v))) [
        | true ↦
            subst Closed (append_assoc p (b'/' ∷ n) (b'=' ∷ v)) (value-Closed (p ++ b'/' ∷ n) v h)
        | false ↦ subst Closed (append_assoc p n (b'=' ∷ v)) (value-Closed (p ++ n) v h)
      ]

push_values-Closed :
    (d : Declared) (vs : List Bytes) (p : Bytes)
    → length d ≡ length vs
    → All Accepted vs
    → Closed p
    → Closed (push_values d vs p)
unfolding push_values
push_values-Closed [] [] p len good h = h
push_values-Closed [] (v ∷ vs) p len good h = ground arith
push_values-Closed ((n, ty) ∷ d) [] p len good h = ground arith
push_values-Closed ((n, ty) ∷ d) (v ∷ vs) p len (hv, good) h =
    push_values-Closed d vs _ (omega arith) good (push_segment-Closed p n v hv)

generate_blob_name-Closed :
    (fresh p : Bytes)
    → Closed p
    → generate_blob_name fresh p ≡ p ++ b'/' ∷ (fresh ++ codes ".parquet")
unfolding generate_blob_name
generate_blob_name-Closed fresh p (filled, e) = rw (trim_end-stays p e) (rw filled refl)

-- Each declared key has a value.
abbrev Has : Found → Bytes × PgPartitionType → Type 0
Has f m = (v : Bytes) × (get m.0 f ≡ some v)

check_present-ok : (d : Declared) (f : Found) → All (Has f) d → check_present d f ≡ ok f
unfolding check_present
check_present-ok [] f h = refl
check_present-ok ((n, ty) ∷ d) f ((v, e), h) = rw (e, check_present) (check_present-ok d f h)

Has-cons : (j v : Bytes) (f : Found) (e : Declared) → All (Has f) e → All (Has ((j, v) ∷ f)) e
unfolding get
Has-cons j v f [] h = tt
Has-cons j v f (m ∷ e) ((w, hm), h) = (
  (elim (Bool-cases (bytes_eq j m.0)) [
    | inl same ↦ (v, rw same refl)
    | inr other ↦ (w, rw other hm)
  ]),
  Has-cons j v f e h,
)

pairs-Has : (d : Declared) (vs : List Bytes) → length d ≡ length vs → All (Has (pairs d vs)) d
unfolding pairs get
pairs-Has [] vs len = tt
pairs-Has ((n, ty) ∷ d) [] len = ground arith
pairs-Has ((n, ty) ∷ d) (v ∷ vs) len =
    ((v, rw (bytes_eq_refl n) refl), Has-cons n v _ d (pairs-Has d vs (omega arith)))

All-Pending :
    (d e : Declared)
    → All Plain e
    → All (λ m. find_declared d m.0 ≡ some m.0) e
    → All (Pending d []) e
unfolding get
All-Pending d [] h k = tt
All-Pending d (m ∷ e) (hm, h) (km, k) = ((km, refl, hm), All-Pending d e h k)

push_values-filled :
    (d : Declared) (vs : List Bytes) (p : Bytes)
    → length d ≡ length vs
    → is_empty vs ≡ false
    → All Accepted vs
    → Closed (push_values d vs p)
unfolding push_values
push_values-filled d [] p len filled good = ground arith
push_values-filled [] (v ∷ vs) p len filled good = ground arith
push_values-filled ((n, ty) ∷ d) (v ∷ vs) p len filled (hv, good) =
    push_values-Closed d vs _ (omega arith) good (push_segment-Closed p n v hv)

-- The generated last segment adds nothing.
walk-generate_blob_name :
    (d : Declared) (fresh p : Bytes) (f : Found)
    → contains fresh b'/' ≡ false
    → contains fresh b'=' ≡ false
    → Closed p
    → walk d p ≡ ok f
    → walk d (generate_blob_name fresh p) ≡ ok f
walk-generate_blob_name d fresh p f slash equals closed walked =
    rw (generate_blob_name-Closed fresh p closed) (
      walk-join_ok d p _ f (contains-append fresh (codes ".parquet") b'/' ∙ rw slash refl) walked
      ∙ add_segment-plain d f _ (contains-append fresh (codes ".parquet") b'=' ∙ rw equals refl))

compute_target_name-filled :
    (fresh : Bytes) (state : Layout) (vs : List Bytes)
    → is_empty vs ≡ false
    → compute_target_name fresh state vs
      ≡ generate_blob_name fresh (push_values state.partition_keys_decl vs state.base_prefix)
unfolding compute_target_name
compute_target_name-filled fresh state [] h = ground arith
compute_target_name-filled fresh state (v ∷ vs) h = refl

-- The name that an INSERT gives to the blob of a group of partition values is read back as exactly
-- those values, in the declared order. The keys are plain and apart, there is one value for each
-- key and at least one, each is a text that the write side accepts and has no `%`, the base prefix
-- has no segment of a key, and the generated part of the name has no `/` and no `=`.
pub partition_values_from_path-compute_target_name :
    (fresh : Bytes) (state : Layout) (vs : List Bytes)
    → length state.partition_keys_decl ≡ length vs
    → is_empty vs ≡ false
    → Apart state.partition_keys_decl
    → All Plain state.partition_keys_decl
    → All Accepted vs
    → contains fresh b'/' ≡ false
    → contains fresh b'=' ≡ false
    → walk state.partition_keys_decl state.base_prefix ≡ ok []
    → partition_values_from_path (compute_target_name fresh state vs) state.partition_keys_decl
      ≡ ok (pairs state.partition_keys_decl vs)
unfolding partition_values_from_path
partition_values_from_path-compute_target_name fresh state vs len filled apart plain good slash
      equals base =
    let d = state.partition_keys_decl in
    rw (compute_target_name-filled fresh state vs filled) (
      rw
        (walk-generate_blob_name d fresh _ (pairs d vs) slash equals
          (push_values-filled d vs state.base_prefix len filled good)
          (walk-push_values d d vs state.base_prefix [] len apart good
            (All-Pending d d plain (find_declared_self d apart)) base))
        (check_present-ok d _ (pairs-Has d vs len)))

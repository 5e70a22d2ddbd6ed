-- ===== src/Insert/Target.antt =====
-- The names of the blobs that an INSERT writes: `pick_target_layout` and `compute_target_name` of
-- src/fdw/modify/insert.rs, `generate_blob_name` of src/azure/writer.rs and the text case of
-- `datum_to_partition_string` in src/convert/partition_datum.rs.
use parquet_azure_fdw.Prelude.{
  Option, none, some, List, [], ◌∷◌, ◌++◌, Bytes, codes, contains, contains_str, ends_with,
  is_empty, split_once, if◌then◌else◌, ◌&&◌, ◌||◌, not, ◌==◌,
}
use parquet_azure_fdw.Error.{FdwResult, ok, err, schema_mismatch}
use parquet_azure_fdw.Partition.Path.{Declared}

-- `s.trim_end_matches('/')`
unfoldable pub trim_end : Bytes → Bytes
trim_end [] = []
trim_end (c ∷ s) = let rest = trim_end s in if is_empty rest && c == b'/' then [] else c ∷ rest

-- The text before the last `/`, and whether there is one: `fname.rfind('/')`.
unfoldable pub before_last_slash : Bytes → Option Bytes
before_last_slash [] = none
before_last_slash (c ∷ s) = elim (before_last_slash s) [
  | some dir ↦ some (c ∷ dir)
  | none ↦ if c == b'/' then some [] else none
]

-- `(base_prefix, legacy_single_target)` of a table's `filename` option
unfoldable pub pick_target_layout : Bytes → Bytes × Option Bytes
unfolding trim_end before_last_slash
pick_target_layout fname = elim (split_once fname b'*') [
  | some (before, _) ↦ (trim_end before, none)
  | none ↦ elim (before_last_slash fname) [ some dir ↦ (dir, some fname) | none ↦ ([], some fname) ]
]

-- What `compute_target_name` reads of the `InsertState`.
pub record Layout : Type 0 where
  pub base_prefix : Bytes
  pub legacy_single_target : Option Bytes
  pub partition_keys_decl : Declared

-- `fresh` is the text `{ts}-{id}` of the clock and of the uuid generator.
unfoldable pub generate_blob_name : Bytes → Bytes → Bytes
unfolding trim_end
generate_blob_name fresh prefix =
    let trimmed = trim_end prefix in
    if is_empty trimmed
    then fresh ++ codes ".parquet"
    else trimmed ++ b'/' ∷ (fresh ++ codes ".parquet")

-- `if !path.is_empty() && !path.ends_with('/') { path.push('/') }`, then `name=value`
unfoldable pub push_segment : Bytes → Bytes → Bytes
push_segment path segment =
    if not (is_empty path) && not (ends_with path b'/')
    then path ++ b'/' ∷ segment
    else path ++ segment

-- The loop over the values: the declared name at the same index, or `p` when there is none.
unfoldable pub push_values : Declared → List Bytes → Bytes → Bytes
push_values declared [] path = path
push_values [] (value ∷ values) path =
    push_values [] values (push_segment path (b'p' ∷ b'=' ∷ value))
push_values ((n, ty) ∷ declared) (value ∷ values) path =
    push_values declared values (push_segment path (n ++ b'=' ∷ value))

unfoldable pub compute_target_name : Bytes → Layout → List Bytes → Bytes
unfolding generate_blob_name push_segment push_values
compute_target_name fresh state [] = elim state.legacy_single_target [
  | some literal ↦ literal
  | none ↦ generate_blob_name fresh state.base_prefix
]
compute_target_name fresh state (value ∷ values) =
    generate_blob_name fresh
      (push_values state.partition_keys_decl (value ∷ values) state.base_prefix)

-- The checks of `datum_to_partition_string` on a text value.
unfoldable pub text_partition_string : Bytes → FdwResult Bytes
text_partition_string owned =
    if is_empty owned
    then err schema_mismatch
    else if contains owned b'/' || contains owned b'='
    then err schema_mismatch
    else if contains_str owned (codes "..")
    then err schema_mismatch
    else ok owned

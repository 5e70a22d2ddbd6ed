-- ===== src/Partition/Path.antt =====
-- `partition_values_from_path` of src/fdw/partition.rs.
pub mod Laws
use parquet_azure_fdw.Prelude.{
  Option, none, some, List, [], ◌∷◌, ◌++◌, Bytes, bytes_eq, eq_ignore_ascii_case, contains, split,
  split_once, is_empty, if◌then◌else◌,
}
use parquet_azure_fdw.Error.{FdwResult, ok, err, schema_mismatch, ◌>>=◌}
use parquet_azure_fdw.Options.PartitionType.{PgPartitionType}

-- The declared partition keys, names with their types.
abbrev pub Declared : Type 0
Declared = List (Bytes × PgPartitionType)

-- The `BTreeMap<String, String>`: only `get`, `insert` and `contains_key` are used of it, so the
-- order of its entries is that of the insertions.
abbrev pub Found : Type 0
Found = List (Bytes × Bytes)

unfoldable pub get : Bytes → Found → Option Bytes
get k [] = none
get k ((j, v) ∷ found) = if bytes_eq j k then some v else get k found

-- `declared.iter().find(|(n, _)| n.eq_ignore_ascii_case(key))`
unfoldable pub find_declared : Declared → Bytes → Option Bytes
find_declared [] key = none
find_declared ((n, ty) ∷ declared) key =
    if eq_ignore_ascii_case n key then some n else find_declared declared key

-- One segment of the path: the body of the loop.
unfoldable pub add_segment : Declared → Found → Bytes → FdwResult Found
add_segment declared found segment = elim (split_once segment b'=') [
  | none ↦ ok found
  | some (key, value) ↦ elim (find_declared declared key) [
    | none ↦ ok found
    | some decl_name ↦
        if is_empty value
        then err schema_mismatch
        else if contains value b'%'
        then err schema_mismatch
        else elim (get decl_name found) [
          | none ↦ ok (found ++ (decl_name, value) ∷ [])
          | some _ ↦ err schema_mismatch
        ]
  ]
]

unfoldable pub add_segments : Declared → List Bytes → Found → FdwResult Found
add_segments declared [] found = ok found
add_segments declared (segment ∷ segments) found = do
  found' ← add_segment declared found segment
  add_segments declared segments found'

-- "All declared keys must be present."
unfoldable pub check_present : Declared → Found → FdwResult Found
unfolding get
check_present [] found = ok found
check_present ((name, ty) ∷ declared) found = elim (get name found) [
  | none ↦ err schema_mismatch
  | some _ ↦ check_present declared found
]

unfoldable pub partition_values_from_path : Bytes → Declared → FdwResult Found
unfolding add_segment add_segments check_present find_declared get
partition_values_from_path blob_name declared = do
  found ← add_segments declared (split blob_name b'/') []
  check_present declared found

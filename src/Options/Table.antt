-- ===== src/Options/Table.antt =====
-- FOREIGN TABLE options: `parse_table_options_from_slice` of src/fdw/options.rs.
use parquet_azure_fdw.Prelude.{
  ℕ, zero, suc, Bool, true, false, not, ◌&&◌, ◌||◌, List, [], ◌∷◌, ◌++◌, map, Bytes, codes,
  bytes_eq, to_ascii_lowercase, eq_ignore_ascii_case, starts_with, split, split_once, length, drop,
  ◌==◌, is_empty, if◌then◌else◌, Option, none, some,
}
use parquet_azure_fdw.Error.{FdwResult, ok, err, invalid_option, ◌>>=◌}
use parquet_azure_fdw.Options.PartitionType.{PgPartitionType, parse}
use parquet_azure_fdw.Options.Names.{
  Compression, snappy, parse_compression, validate_blob_pattern, validate_container_name,
}
use parquet_azure_fdw.Options.Server.{required}
use parquet_azure_fdw.Partition.Datum.{parse_int}

-- The UTF-8 texts of the characters that `str::trim` takes off: Unicode's White_Space.
abbrev pub white_space : List Bytes
white_space =
    (9 ∷ [])
    ∷ (10 ∷ [])
    ∷ (11 ∷ [])
    ∷ (12 ∷ [])
    ∷ (13 ∷ [])
    ∷ (32 ∷ [])
    ∷ (194 ∷ 133 ∷ [])
    ∷ (194 ∷ 160 ∷ [])
    ∷ (225 ∷ 154 ∷ 128 ∷ [])
    ∷ (226 ∷ 128 ∷ 128 ∷ [])
    ∷ (226 ∷ 128 ∷ 129 ∷ [])
    ∷ (226 ∷ 128 ∷ 130 ∷ [])
    ∷ (226 ∷ 128 ∷ 131 ∷ [])
    ∷ (226 ∷ 128 ∷ 132 ∷ [])
    ∷ (226 ∷ 128 ∷ 133 ∷ [])
    ∷ (226 ∷ 128 ∷ 134 ∷ [])
    ∷ (226 ∷ 128 ∷ 135 ∷ [])
    ∷ (226 ∷ 128 ∷ 136 ∷ [])
    ∷ (226 ∷ 128 ∷ 137 ∷ [])
    ∷ (226 ∷ 128 ∷ 138 ∷ [])
    ∷ (226 ∷ 128 ∷ 168 ∷ [])
    ∷ (226 ∷ 128 ∷ 169 ∷ [])
    ∷ (226 ∷ 128 ∷ 175 ∷ [])
    ∷ (226 ∷ 129 ∷ 159 ∷ [])
    ∷ (227 ∷ 128 ∷ 128 ∷ [])
    ∷ []

abbrev pub reversed : {A : Type 0} → List A → List A
reversed [] = []
reversed (x ∷ xs) = reversed xs ++ x ∷ []

-- The length of the first text of the list that `s` starts with, 0 for none.
unfoldable pub leading : List Bytes → Bytes → ℕ
leading [] s = 0
leading (w ∷ ws) s = if starts_with s w then length w else leading ws s

-- Each turn takes one character off, so the length is fuel enough.
unfoldable pub trim_with : ℕ → List Bytes → Bytes → Bytes
unfolding leading
trim_with zero ws s = s
trim_with (suc fuel) ws s =
    let n = leading ws s in let rest = trim_with fuel ws (drop n s) in if n == 0 then s else rest

unfoldable pub trim : Bytes → Bytes
unfolding trim_with
trim s =
    let front = trim_with (length s) white_space s in
    reversed (trim_with (length s) (map reversed white_space) (reversed front))

-- `v.split(',').map(trim).filter(non-empty)`
unfoldable pub trimmed_entries : List Bytes → List Bytes
unfolding trim
trimmed_entries [] = []
trimmed_entries (s ∷ segments) =
    let rest = trimmed_entries segments in if is_empty (trim s) then rest else trim s ∷ rest

-- The loop over the entries of `partition_keys`.
unfoldable pub parse_keys : List Bytes → FdwResult (List (Bytes × PgPartitionType))
unfolding trim parse
parse_keys [] = ok []
parse_keys (entry ∷ entries) = elim (split_once entry b':') [
  | none ↦ err invalid_option
  | some (name, ty_str) ↦ do
    ty ← parse (trim ty_str)
    rest ← parse_keys entries
    ok ((trim name, ty) ∷ rest)
]

unfoldable pub parse_workers : Bytes → FdwResult ℕ
unfolding parse_int
parse_workers v = elim (parse_int 32 v) [
  | none ↦ err invalid_option
  | some (false, n) ↦ ok n
  | some (true, n) ↦ if n == 0 then ok 0 else err invalid_option
]

pub record TableVars : Type 0 where
  pub container : Option Bytes
  pub filename : Option Bytes
  pub compression : Compression
  pub parallel_workers : Option ℕ
  pub partition_columns : Option (List Bytes)
  pub partition_keys : Option (List (Bytes × PgPartitionType))
  pub sorted : List Bytes
  pub files_in_order : Bool

unfoldable pub is_on : Bytes → Bool
is_on v =
    let t = to_ascii_lowercase v in
    bytes_eq t (codes "true")
    || (bytes_eq t (codes "yes") || (bytes_eq t (codes "1") || bytes_eq t (codes "on")))

unfoldable pub set_table_option : TableVars → Bytes → Bytes → FdwResult TableVars
unfolding parse_compression parse_workers trimmed_entries parse_keys is_on
set_table_option vars k v =
    if bytes_eq k (codes "container")
    then ok (record vars { container = some v })
    else if bytes_eq k (codes "filename")
    then ok (record vars { filename = some v })
    else if bytes_eq k (codes "compression")
    then (parse_compression v >>= λ c. ok (record vars { compression = c }))
    else if bytes_eq k (codes "parallel_workers")
    then (parse_workers v >>= λ n. ok (record vars { parallel_workers = some n }))
    else if bytes_eq k (codes "partition_columns")
    then ok (record vars { partition_columns = some (trimmed_entries (split v b',')) })
    else if bytes_eq k (codes "partition_keys")
    then (parse_keys (trimmed_entries (split v b',')) >>= λ keys.
        ok (record vars { partition_keys = some keys }))
    else if bytes_eq k (codes "sorted")
    then ok (record vars { sorted = trimmed_entries (split v b',') })
    else if bytes_eq k (codes "files_in_order")
    then ok (record vars { files_in_order = is_on v })
    else err invalid_option

unfoldable pub set_table_options : List (Bytes × Bytes) → TableVars → FdwResult TableVars
unfolding set_table_option
set_table_options [] vars = ok vars
set_table_options ((k, v) ∷ kv) vars = do
  vars' ← set_table_option vars k v
  set_table_options kv vars'

-- The loop over `cols.iter().zip(keys.iter())`.
unfoldable pub names_agree : List Bytes → List (Bytes × PgPartitionType) → Bool
names_agree (col ∷ cols) ((kname, ty) ∷ keys) =
    eq_ignore_ascii_case col kname && names_agree cols keys
names_agree _ _ = true

unfoldable pub check_partition :
    Option (List Bytes)
    → Option (List (Bytes × PgPartitionType))
    → FdwResult (List Bytes × List (Bytes × PgPartitionType))
unfolding names_agree
check_partition none none = ok ([], [])
check_partition (some cols) none = err invalid_option
check_partition none (some keys) = err invalid_option
check_partition (some cols) (some keys) =
    if not (length cols == length keys)
    then err invalid_option
    else if names_agree cols keys
    then ok (cols, keys)
    else err invalid_option

unfoldable pub check_sorted : Bool → Bool → FdwResult (Unit {0})
check_sorted false false = err invalid_option
check_sorted true true = err invalid_option
check_sorted _ _ = ok tt

pub record TableOptions : Type 0 where
  pub container : Bytes
  pub filename : Bytes
  pub compression : Compression
  pub parallel_workers : Option ℕ
  pub partition_columns : List Bytes
  pub partition_keys : List (Bytes × PgPartitionType)
  pub sorted : List Bytes
  pub files_in_order : Bool

-- The end of the function: the required options and the checks, in the source's order.
unfoldable pub finish_table : TableVars → FdwResult TableOptions
unfolding check_partition check_sorted required
finish_table vars = do
  filename ← required vars.filename
  _ ← validate_blob_pattern filename
  container ← required vars.container
  _ ← validate_container_name container
  partition ← check_partition vars.partition_columns vars.partition_keys
  _ ← check_sorted (is_empty vars.sorted) vars.files_in_order
  ok (record {
    container = container;
    filename = filename;
    compression = vars.compression;
    parallel_workers = vars.parallel_workers;
    partition_columns = partition.0;
    partition_keys = partition.1;
    sorted = vars.sorted;
    files_in_order = vars.files_in_order;
  })

unfoldable pub parse_table_options_from_slice : List (Bytes × Bytes) → FdwResult TableOptions
unfolding set_table_options finish_table
parse_table_options_from_slice kv = do
  vars ← set_table_options kv (record {
    container = none;
    filename = none;
    compression = snappy;
    parallel_workers = none;
    partition_columns = none;
    partition_keys = none;
    sorted = [];
    files_in_order = false;
  })
  finish_table vars

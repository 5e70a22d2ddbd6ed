-- ===== src/ImportSchema.antt =====
-- src/fdw/import_schema.rs: the tables that IMPORT FOREIGN SCHEMA makes of a container's blobs, and
-- the statements that create them.
pub mod Quoting
pub mod Grouping
pub mod Directories
pub mod Claims
pub mod Tables
use parquet_azure_fdw.Prelude.{
  ℕ, zero, suc, ◌+◌, Bool, true, false, not, List, [], ◌∷◌, ◌++◌, Option, none, some, Bytes, codes,
  bytes_eq, ◌==◌, if◌then◌else◌, contains, any, is_empty, ltb, map,
}

-- `q.push(c)`, doubled for the quote itself; the quotes are ASCII, so bytes stand for characters.
unfoldable pub double_quotes : ℕ → Bytes → Bytes
double_quotes quote [] = []
double_quotes quote (c ∷ s) =
    let rest = double_quotes quote s in if c == quote then quote ∷ quote ∷ rest else c ∷ rest

-- `"` and `'`
unfoldable pub quote_ident : Bytes → Bytes
quote_ident s = 34 ∷ double_quotes 34 s ++ 34 ∷ []

unfoldable pub quote_str : Bytes → Bytes
quote_str s = 39 ∷ double_quotes 39 s ++ 39 ∷ []

-- The loop over the columns, each behind a separator but the first.
unfoldable pub ddl_columns : Bytes → List (Bytes × Bytes) → Bytes
ddl_columns separator [] = []
ddl_columns separator ((col, ty) ∷ columns) =
    separator
    ++ codes "    "
    ++ quote_ident col
    ++ codes " "
    ++ ty
    ++ ddl_columns (codes ",\n") columns

unfoldable pub build_create_table_ddl :
    Bytes → Bytes → Bytes → Bytes → Bytes → List (Bytes × Bytes) → Bytes
build_create_table_ddl local_schema table_name server_name container filename_glob columns =
    codes "CREATE FOREIGN TABLE "
    ++ quote_ident local_schema
    ++ codes "."
    ++ quote_ident table_name
    ++ codes " (\n"
    ++ ddl_columns [] columns
    ++ codes "\n) SERVER "
    ++ quote_ident server_name
    ++ codes " OPTIONS ("
    ++ codes "container "
    ++ quote_str container
    ++ codes ", filename "
    ++ quote_str filename_glob
    ++ codes ");"

-- `b.rfind('/')` and what stands before and behind it
unfoldable pub rsplit_slash : Bytes → Option (Bytes × Bytes)
rsplit_slash [] = none
rsplit_slash (c ∷ s) = elim (rsplit_slash s) [
  | some (before, behind) ↦ some (c ∷ before, behind)
  | none ↦ if c == 47 then some ([], s) else none
]

-- The directory of a blob, empty at the root.
unfoldable pub directory_of : Bytes → Bytes
directory_of blob = elim (rsplit_slash blob) [ none ↦ [] | some (before, behind) ↦ before ]

-- The name of the table of a directory.
unfoldable pub table_of : Bytes → Bytes → Bytes
table_of container dir =
    if is_empty dir
    then container
    else elim (rsplit_slash dir) [ none ↦ dir | some (before, behind) ↦ behind ]

-- A `BTreeMap` from texts, in the order of its keys.
abbrev pub TextMap {ℓ} : Type ℓ → Type ℓ
TextMap A = List (Bytes × A)

-- `a < b` for texts
abbrev pub text_lt : Bytes → Bytes → Bool
text_lt a [] = false
text_lt [] (d ∷ b) = true
text_lt (c ∷ a) (d ∷ b) = let rest = text_lt a b in if c == d then rest else ltb c d

abbrev pub claimed : Bytes → List Bytes → Bool
claimed table tables = any (bytes_eq table) tables

-- `by_dir.entry(dir).or_default().push(b)`: behind the blobs of the directory's entry, or into a new
-- entry at the key's place.
unfoldable pub push_existing : Bytes → Bytes → TextMap (List Bytes) → TextMap (List Bytes)
push_existing dir blob [] = []
push_existing dir blob ((key, blobs) ∷ rest) =
    (key, if bytes_eq dir key then blobs ++ blob ∷ [] else blobs) ∷ push_existing dir blob rest

unfoldable pub insert_entry : Bytes → List Bytes → TextMap (List Bytes) → TextMap (List Bytes)
insert_entry dir blobs [] = (dir, blobs) ∷ []
insert_entry dir blobs ((key, others) ∷ rest) =
    let behind = insert_entry dir blobs rest in
    if text_lt dir key then (dir, blobs) ∷ (key, others) ∷ rest else (key, others) ∷ behind

abbrev pub text_keys {ℓ} : {A : Type ℓ} → TextMap A → List Bytes
text_keys = map (λ entry. entry.0)

unfoldable pub push_entry : Bytes → Bytes → TextMap (List Bytes) → TextMap (List Bytes)
push_entry dir blob by_dir =
    if claimed dir (text_keys by_dir)
    then push_existing dir blob by_dir
    else insert_entry dir (blob ∷ []) by_dir

-- First pass: the blobs by their directories.
unfoldable pub group_by_dir : List Bytes → TextMap (List Bytes) → TextMap (List Bytes)
group_by_dir [] by_dir = by_dir
group_by_dir (blob ∷ blobs) by_dir = group_by_dir blobs (push_entry (directory_of blob) blob by_dir)

-- Second pass: a directory whose table name is claimed already is skipped, with a notice. `out` has
-- the same keys as `claimed_by`; it is in the order of the directories here.
unfoldable pub claim_tables : Bytes → TextMap (List Bytes) → List Bytes → TextMap (List Bytes)
claim_tables container [] claimed_by = []
claim_tables container ((dir, blobs) ∷ by_dir) claimed_by =
    let table = table_of container dir in
    let rest = claim_tables container by_dir (table ∷ claimed_by) in
    let skipped = claim_tables container by_dir claimed_by in
    if claimed table claimed_by then skipped else (table, blobs) ∷ rest

unfoldable pub group_blobs_by_directory : List Bytes → Bytes → TextMap (List Bytes)
group_blobs_by_directory blobs container = claim_tables container (group_by_dir blobs []) []

-- ===== src/Tests/Importing.antt =====
-- The import of schemas (src/fdw/import_schema.rs) at concrete inputs.
use parquet_azure_fdw.Prelude.{◌≡◌, ◌++◌, refl, List, [], ◌∷◌, some, Bytes, codes, All}
use parquet_azure_fdw.ImportSchema.{
  quote_ident, quote_str, group_blobs_by_directory, group_by_dir, push_entry, push_existing,
  insert_entry, claim_tables, directory_of, table_of, rsplit_slash,
}
use parquet_azure_fdw.ImportSchema.Quoting.{unquote, unquote-quote_str}
use parquet_azure_fdw.ImportSchema.Grouping.{Unclaimed}
use parquet_azure_fdw.ImportSchema.Tables.{IsTable, Covers, group_blobs_by_directory-IsTable}

unquote-quote_str_example :
    (unquote 34 (quote_ident (codes "it's \"odd\"") ++ codes ", ")
      ≡ some (codes "it's \"odd\"", codes ", "))
    × (unquote 39 (quote_str (codes "it's \"odd\"") ++ codes ", ")
        ≡ some (codes "it's \"odd\"", codes ", "))
unquote-quote_str_example = unquote-quote_str (codes "it's \"odd\"") (codes ", ") refl refl

abbrev listing : List Bytes
listing = codes "b/raw/1" ∷ codes "top" ∷ codes "a/raw/2" ∷ codes "b/raw/3" ∷ []

grouped :
    group_blobs_by_directory listing (codes "box")
    ≡ (codes "box", codes "top" ∷ []) ∷ (codes "raw", codes "a/raw/2" ∷ []) ∷ []
unfolding group_blobs_by_directory group_by_dir push_entry push_existing insert_entry claim_tables
    directory_of table_of rsplit_slash
grouped = refl

group_blobs_by_directory-IsTable_example :
    All (IsTable (codes "box") listing) (group_blobs_by_directory listing (codes "box"))
    × Unclaimed [] (group_blobs_by_directory listing (codes "box"))
    × Covers (codes "box") listing (group_blobs_by_directory listing (codes "box"))
group_blobs_by_directory-IsTable_example = group_blobs_by_directory-IsTable listing (codes "box")

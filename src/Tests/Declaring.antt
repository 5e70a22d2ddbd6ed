-- ===== src/Tests/Declaring.antt =====
-- Option lists (src/fdw/options.rs) at concrete values.
use parquet_azure_fdw.Prelude.{refl, List, [], ◌∷◌, Bytes, codes, none, true}
use parquet_azure_fdw.Options.PartitionType.{text}
use parquet_azure_fdw.Options.Names.{
  validate_account_name, validate_endpoint, validate_blob_pattern, validate_container_name, snappy,
}
use parquet_azure_fdw.Options.Server.{
  ServerOptions, sas_url_method, parse_server_options_from_slice,
}
use parquet_azure_fdw.Options.Table.{TableOptions, parse_table_options_from_slice}
use parquet_azure_fdw.Options.Laws.{
  IsServerOptions, IsTableOptions, parse_server_options-IsServerOptions,
  parse_table_options-IsTableOptions,
}

abbrev server_list : List (Bytes × Bytes)
server_list = (codes "account_name", codes "lake01") ∷ (codes "auth_method", codes "sas_url") ∷ []

abbrev server : ServerOptions
server = record {
  account_name = codes "lake01";
  endpoint = codes "blob.core.windows.net";
  auth_method = sas_url_method;
  enable_pushdown = true;
}

parse_server_options-IsServerOptions_example : IsServerOptions server
unfolding parse_server_options_from_slice validate_account_name validate_endpoint
parse_server_options-IsServerOptions_example =
    parse_server_options-IsServerOptions server_list server refl

abbrev table_list : List (Bytes × Bytes)
table_list =
    (codes "container", codes "my-data")
    ∷ (codes "filename", codes "lake/*.parquet")
    ∷ (codes "partition_columns", codes "Region")
    ∷ (codes "partition_keys", codes " region : text ")
    ∷ (codes "sorted", codes "id")
    ∷ (codes "files_in_order", codes "ON")
    ∷ []

abbrev table : TableOptions
table = record {
  container = codes "my-data";
  filename = codes "lake/*.parquet";
  compression = snappy;
  parallel_workers = none;
  partition_columns = codes "Region" ∷ [];
  partition_keys = (codes "region", text) ∷ [];
  sorted = codes "id" ∷ [];
  files_in_order = true;
}

parse_table_options-IsTableOptions_example : IsTableOptions table
unfolding parse_table_options_from_slice validate_blob_pattern validate_container_name
parse_table_options-IsTableOptions_example =
    parse_table_options-IsTableOptions table_list table refl

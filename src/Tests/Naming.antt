-- ===== src/Tests/Naming.antt =====
-- The name of a partitioned blob (src/fdw/modify/insert.rs) at concrete values.
use parquet_azure_fdw.Prelude.{◌≡◌, refl, List, [], ◌∷◌, Bytes, codes, none}
use parquet_azure_fdw.Error.{ok}
use parquet_azure_fdw.Options.PartitionType.{text}
use parquet_azure_fdw.Partition.Path.{
  partition_values_from_path, find_declared, add_segment, add_segments,
}
use parquet_azure_fdw.Insert.Target.{Layout, compute_target_name, text_partition_string}
use parquet_azure_fdw.Insert.RoundTrip.{pairs, partition_values_from_path-compute_target_name}

abbrev sales : Layout
sales = record {
  base_prefix = codes "lake/sales";
  legacy_single_target = none;
  partition_keys_decl = (codes "region", text) ∷ (codes "team", text) ∷ [];
}

abbrev values : List Bytes
values = codes "eu" ∷ codes "blue" ∷ []

partition_values_from_path-compute_target_name_example :
    partition_values_from_path
      (compute_target_name (codes "17-ab") sales values)
      sales.partition_keys_decl
    ≡ ok (pairs sales.partition_keys_decl values)
unfolding text_partition_string add_segments add_segment find_declared
partition_values_from_path-compute_target_name_example =
    partition_values_from_path-compute_target_name (codes "17-ab") sales values refl refl
      ((refl, tt), (tt, tt)) ((refl, refl), ((refl, refl), tt)) ((refl, refl), ((refl, refl), tt))
      refl refl refl

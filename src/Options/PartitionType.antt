-- ===== src/Options/PartitionType.antt =====
-- `PgPartitionType` of src/fdw/options.rs: the column types of partition keys.
use parquet_azure_fdw.Prelude.{Bytes, bytes_eq, codes, to_ascii_lowercase, if◌then◌else◌, ◌||◌}
use parquet_azure_fdw.Error.{FdwResult, ok, err, invalid_option}

pub data PgPartitionType : Type 0 where
  int2 int4 int8 text date : PgPartitionType

unfoldable pub parse : Bytes → FdwResult PgPartitionType
parse s =
    let t = to_ascii_lowercase s in
    if bytes_eq t (codes "int2") || bytes_eq t (codes "smallint")
    then ok int2
    else if bytes_eq t (codes "int4") || (bytes_eq t (codes "integer") || bytes_eq t (codes "int"))
    then ok int4
    else if bytes_eq t (codes "int8") || bytes_eq t (codes "bigint")
    then ok int8
    else if bytes_eq t (codes "text")
    then ok text
    else if bytes_eq t (codes "date")
    then ok date
    else err invalid_option

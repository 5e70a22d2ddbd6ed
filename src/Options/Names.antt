-- ===== src/Options/Names.antt =====
-- The validators of names of src/fdw/options.rs, and the small parsers that the option lists use:
-- `parse_auth_method` of src/azure/auth.rs and `Compression::parse` of src/parquet_io/writer.rs.
use parquet_azure_fdw.Prelude.{
  ℕ, Bool, not, ◌&&◌, ◌||◌, List, [], ◌∷◌, Bytes, codes, bytes_eq, to_ascii_lowercase,
  eq_ignore_ascii_case, contains, contains_str, starts_with, ends_with, split, any, all, length,
  leb, ◌==◌, is_empty, if◌then◌else◌, Option, none, some, split_once,
}
use parquet_azure_fdw.Error.{FdwResult, ok, err, invalid_option, ensure, ◌>>=◌}

abbrev pub is_lower_or_digit : ℕ → Bool
is_lower_or_digit c = (leb b'a' c && leb c b'z') || (leb b'0' c && leb c b'9')

unfoldable pub validate_account_name : Bytes → FdwResult (Unit {0})
validate_account_name name =
    ensure invalid_option
      (leb 3 (length name) && (leb (length name) 24 && all is_lower_or_digit name))

unfoldable pub container_ok : Bytes → Bool
container_ok name =
    leb 3 (length name)
    && (leb (length name) 63
        && (all (λ c. is_lower_or_digit c || c == b'-') name
            && (not (starts_with name (codes "-"))
                && (not (ends_with name b'-') && not (contains_str name (codes "--"))))))

unfoldable pub validate_container_name : Bytes → FdwResult (Unit {0})
unfolding container_ok
validate_container_name name = ensure invalid_option (container_ok name)

-- The name of the field is only in the message.
unfoldable pub validate_blob_pattern : Bytes → FdwResult (Unit {0})
validate_blob_pattern pattern =
    if is_empty pattern
    then err invalid_option
    else if starts_with pattern (codes "/")
    then err invalid_option
    else if any (λ seg. bytes_eq seg (codes "..")) (split pattern b'/')
    then err invalid_option
    else ok tt

abbrev pub allowed_endpoint_suffixes : List Bytes
allowed_endpoint_suffixes =
    codes "blob.core.windows.net"
    ∷ codes "dfs.core.windows.net"
    ∷ codes "blob.core.chinacloudapi.cn"
    ∷ codes "dfs.core.chinacloudapi.cn"
    ∷ codes "blob.core.usgovcloudapi.net"
    ∷ codes "dfs.core.usgovcloudapi.net"
    ∷ codes "blob.core.cloudapi.de"
    ∷ codes "dfs.core.cloudapi.de"
    ∷ codes "127.0.0.1:10000"
    ∷ codes "localhost:10000"
    ∷ []

unfoldable pub validate_endpoint : Bytes → FdwResult (Unit {0})
validate_endpoint endpoint =
    if contains endpoint b'/' || (contains endpoint b'@' || contains endpoint b'?')
    then err invalid_option
    else ensure invalid_option
        (any (λ allowed. eq_ignore_ascii_case endpoint allowed) allowed_endpoint_suffixes)

pub data Compression : Type 0 where
  uncompressed snappy zstd gzip : Compression

unfoldable pub parse_compression : Bytes → FdwResult Compression
parse_compression s =
    let t = to_ascii_lowercase s in
    if bytes_eq t (codes "none") || bytes_eq t []
    then ok uncompressed
    else if bytes_eq t (codes "snappy")
    then ok snappy
    else if bytes_eq t (codes "zstd")
    then ok zstd
    else if bytes_eq t (codes "gzip")
    then ok gzip
    else err invalid_option

-- `options.iter().flatten()`, each entry split at its first `=`
unfoldable pub parse_kv_list : List (Option Bytes) → FdwResult (List (Bytes × Bytes))
parse_kv_list [] = ok []
parse_kv_list (none ∷ options) = parse_kv_list options
parse_kv_list (some entry ∷ options) = elim (split_once entry b'=') [
  | none ↦ err invalid_option
  | some kv ↦ do rest ← parse_kv_list options; ok (kv ∷ rest)
]

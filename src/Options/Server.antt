-- ===== src/Options/Server.antt =====
-- SERVER options: `parse_server_options_from_slice` of src/fdw/options.rs and `AuthMethod` of
-- src/azure/auth.rs.
use parquet_azure_fdw.Prelude.{
  Bool, true, false, ◌||◌, List, [], ◌∷◌, Bytes, codes, bytes_eq, to_ascii_lowercase, if◌then◌else◌,
  Option, none, some,
}
use parquet_azure_fdw.Error.{FdwResult, ok, err, invalid_option, missing_option, ◌>>=◌}
use parquet_azure_fdw.Options.Names.{validate_account_name, validate_endpoint}

pub data AuthMethod : Type 0 where
  managed_identity aad_service_principal sas_url_method : AuthMethod

unfoldable pub parse_auth_method : Bytes → FdwResult AuthMethod
parse_auth_method s =
    if bytes_eq s (codes "managed_identity")
    then ok managed_identity
    else if bytes_eq s (codes "aad_sp")
    then ok aad_service_principal
    else if bytes_eq s (codes "sas_url")
    then ok sas_url_method
    -- `account_key` too
    else err invalid_option

pub record ServerOptions : Type 0 where
  pub account_name : Bytes
  pub endpoint : Bytes
  pub auth_method : AuthMethod
  pub enable_pushdown : Bool

-- The variables of the loop.
pub record ServerVars : Type 0 where
  pub account_name : Option Bytes
  pub endpoint : Bytes
  pub auth_method : Option AuthMethod
  pub enable_pushdown : Bool

unfoldable pub parse_pushdown : Bytes → FdwResult Bool
parse_pushdown v =
    let t = to_ascii_lowercase v in
    if bytes_eq t (codes "true") || (bytes_eq t (codes "on") || bytes_eq t (codes "1"))
    then ok true
    else if bytes_eq t (codes "false") || (bytes_eq t (codes "off") || bytes_eq t (codes "0"))
    then ok false
    else err invalid_option

unfoldable pub set_server_option : ServerVars → Bytes → Bytes → FdwResult ServerVars
unfolding parse_auth_method parse_pushdown
set_server_option vars k v =
    if bytes_eq k (codes "account_name")
    then ok (record vars { account_name = some v })
    else if bytes_eq k (codes "endpoint")
    then ok (record vars { endpoint = v })
    else if bytes_eq k (codes "auth_method")
    then (parse_auth_method v >>= λ m. ok (record vars { auth_method = some m }))
    else if bytes_eq k (codes "enable_pushdown")
    then (parse_pushdown v >>= λ b. ok (record vars { enable_pushdown = b }))
    else err invalid_option

unfoldable pub set_server_options : List (Bytes × Bytes) → ServerVars → FdwResult ServerVars
unfolding set_server_option
set_server_options [] vars = ok vars
set_server_options ((k, v) ∷ kv) vars = do
  vars' ← set_server_option vars k v
  set_server_options kv vars'

-- `o.ok_or(MissingOption)`
unfoldable pub required : {A : Type 0} → Option A → FdwResult A
required none = err missing_option
required (some a) = ok a

-- The end of the function: the required options and the two checks.
unfoldable pub finish_server : ServerVars → FdwResult ServerOptions
unfolding required
finish_server vars = do
  account ← required vars.account_name
  method ← required vars.auth_method
  _ ← validate_account_name account
  _ ← validate_endpoint vars.endpoint
  ok (record {
    account_name = account;
    endpoint = vars.endpoint;
    auth_method = method;
    enable_pushdown = vars.enable_pushdown;
  })

unfoldable pub parse_server_options_from_slice : List (Bytes × Bytes) → FdwResult ServerOptions
unfolding set_server_options finish_server
parse_server_options_from_slice kv = do
  vars ← set_server_options kv (record {
    account_name = none;
    endpoint = codes "blob.core.windows.net";
    auth_method = none;
    enable_pushdown = true;
  })
  finish_server vars

-- ===== src/Options/Laws.antt =====
-- What options that parse are known to satisfy (src/fdw/options.rs).
use parquet_azure_fdw.Options.Container.{IsContainerName, validate_container_name-ok}
use parquet_azure_fdw.Prelude.{
  ◌≡◌, refl, subst, sym, arith, Bool, true, false, not, ◌&&◌, List, [], Bytes, codes, bytes_eq,
  eq_ignore_ascii_case, starts_with, contains, split, length, any, all, leb, is_empty, Option, none,
  some, ℕ, zero, suc, get_elem?, ◌∷◌,
}
use parquet_azure_fdw.Error.{FdwError, FdwResult, ok, err, >>=-ok}
use parquet_azure_fdw.Options.PartitionType.{PgPartitionType}
use parquet_azure_fdw.Options.Names.{
  is_lower_or_digit, validate_account_name, validate_endpoint, validate_blob_pattern,
  validate_container_name, allowed_endpoint_suffixes,
}
use parquet_azure_fdw.Prelude.{◌⊎◌, inl, inr}
use parquet_azure_fdw.Options.Server.{
  ServerVars, required, set_server_options, finish_server, ServerOptions,
  parse_server_options_from_slice,
}
use parquet_azure_fdw.Options.Table.{
  parse_table_options_from_slice, TableVars, set_table_options, finish_table, TableOptions,
  names_agree, check_partition, check_sorted,
}

pub record IsServerOptions (s : ServerOptions) : Type 0 where
  pub account_length : (leb 3 (length s.account_name) && leb (length s.account_name) 24) ≡ true
  pub account_letters : all is_lower_or_digit s.account_name ≡ true
  pub bare_host : contains s.endpoint b'/' ≡ false
  pub trusted :
      any (λ allowed. eq_ignore_ascii_case s.endpoint allowed) allowed_endpoint_suffixes ≡ true

pub record IsTableOptions (t : TableOptions) : Type 0 where
  pub container : IsContainerName t.container
  pub named : is_empty t.filename ≡ false
  pub relative : starts_with t.filename (codes "/") ≡ false
  pub inside : any (λ seg. bytes_eq seg (codes "..")) (split t.filename b'/') ≡ false
  pub same_length : length t.partition_columns ≡ length t.partition_keys
  pub same_names :
      (i : ℕ) (col key : Bytes) (ty : PgPartitionType)
      → get_elem? t.partition_columns i ≡ some col
      → get_elem? t.partition_keys i ≡ some (key, ty)
      → eq_ignore_ascii_case col key ≡ true
  pub sorted_in_order : is_empty t.sorted ≡ not t.files_in_order

account_ok :
    (n : Bytes) (u : Unit {0})
    → validate_account_name n ≡ ok u
    → ((leb 3 (length n) && leb (length n) 24) ≡ true) × (all is_lower_or_digit n ≡ true)
unfolding validate_account_name
account_ok n u h = (ground arith, ground arith)

endpoint_ok :
    (n : Bytes) (u : Unit {0})
    → validate_endpoint n ≡ ok u
    → (contains n b'/' ≡ false)
      × (any (λ allowed. eq_ignore_ascii_case n allowed) allowed_endpoint_suffixes ≡ true)
unfolding validate_endpoint
endpoint_ok n u h = (ground arith, ground arith)

pattern_ok :
    (n : Bytes) (u : Unit {0})
    → validate_blob_pattern n ≡ ok u
    → (is_empty n ≡ false)
      × (starts_with n (codes "/") ≡ false)
      × (any (λ seg. bytes_eq seg (codes "..")) (split n b'/') ≡ false)
unfolding validate_blob_pattern
pattern_ok n u h = (ground arith, ground arith, ground arith)

names_agree-at :
    (cols : List Bytes) (keys : List (Bytes × PgPartitionType)) (i : ℕ) (col key : Bytes)
    (ty : PgPartitionType)
    → names_agree cols keys ≡ true
    → get_elem? cols i ≡ some col
    → get_elem? keys i ≡ some (key, ty)
    → eq_ignore_ascii_case col key ≡ true
unfolding names_agree
names_agree-at [] keys i col key ty h at own = cc
names_agree-at (c ∷ cols) [] i col key ty h at own = cc
names_agree-at (c ∷ cols) ((k, t) ∷ keys) zero col key ty h at own =
    let one : c ≡ col = cc in let two : k ≡ key = cc in rw (sym one, sym two) (ground (arith, h))
names_agree-at (c ∷ cols) ((k, t) ∷ keys) (suc i) col key ty h at own =
    names_agree-at cols keys i col key ty (ground (arith, h)) at own

partition_ok :
    (cols : Option (List Bytes)) (keys : Option (List (Bytes × PgPartitionType)))
    (p : List Bytes × List (Bytes × PgPartitionType))
    → check_partition cols keys ≡ ok p
    → (length p.0 ≡ length p.1) × (names_agree p.0 p.1 ≡ true)
unfolding check_partition names_agree
partition_ok none none p h =
    let same : p ≡ ([], []) = ground (arith, h) in
    subst (λ q. (length q.0 ≡ length q.1) × (names_agree q.0 q.1 ≡ true)) (sym same) (refl, refl)
partition_ok (some cols) none p h = ground arith
partition_ok none (some keys) p h = ground arith
partition_ok (some cols) (some keys) p h =
    let same : p ≡ (cols, keys) = ground (arith, h) in
    subst (λ q. (length q.0 ≡ length q.1) × (names_agree q.0 q.1 ≡ true)) (sym same)
      (ground (arith, h), ground (arith, h))

sorted_ok : (a b : Bool) (u : Unit {0}) → check_sorted a b ≡ ok u → a ≡ not b
unfolding check_sorted
sorted_ok false false u h = ground arith
sorted_ok true true u h = ground arith
sorted_ok true false u h = refl
sorted_ok false true u h = refl

Result-cases {ℓ} :
    {A : Type ℓ} (r : FdwResult A) → ((a : A) × (r ≡ ok a)) ⊎ ((e : FdwError) × (r ≡ err e))
Result-cases (ok a) = inl (a, refl)
Result-cases (err e) = inr (e, refl)

finish_server_ok :
    (vars : ServerVars) (server : ServerOptions)
    → finish_server vars ≡ ok server
    → IsServerOptions server
unfolding finish_server
finish_server_ok vars server h = elim (Result-cases (required vars.account_name)) [
  | inr (x, bad) ↦ ground (arith, bad, h)
  | inl (account, e0) ↦ elim (Result-cases (required vars.auth_method)) [
    | inr (x, bad) ↦ ground (arith, e0, bad, h)
    | inl (method, e1) ↦ elim (Result-cases (validate_account_name account)) [
      | inr (x, bad) ↦ ground (arith, e0, e1, bad, h)
      | inl (u, e2) ↦ elim (Result-cases (validate_endpoint vars.endpoint)) [
        | inr (x, bad) ↦ ground (arith, e0, e1, e2, bad, h)
        | inl (w, e3) ↦
            let made : server ≡ record {
              account_name = account;
              endpoint = vars.endpoint;
              auth_method = method;
              enable_pushdown = vars.enable_pushdown;
            } =
              ground (arith, e0, e1, e2, e3, h) in
            let (lengths, letters) = account_ok account u e2 in
            let (bare, trusted) = endpoint_ok vars.endpoint w e3 in
            subst IsServerOptions (sym made) (record {
              account_length = lengths;
              account_letters = letters;
              bare_host = bare;
              trusted = trusted;
            })
      ]
    ]
  ]
]

-- SERVER options that parse have an account name of 3 to 24 lower-case letters and digits, and an
-- endpoint without a path that is, up to case, one of the known clouds' hosts or of the emulator's.
pub parse_server_options-IsServerOptions :
    (kv : List (Bytes × Bytes)) (server : ServerOptions)
    → parse_server_options_from_slice kv ≡ ok server
    → IsServerOptions server
unfolding parse_server_options_from_slice
parse_server_options-IsServerOptions kv server h =
    let (vars, finished, e) = >>=-ok finish_server (set_server_options kv _) h in
    finish_server_ok vars server finished

finish_table_ok :
    (vars : TableVars) (table : TableOptions) → finish_table vars ≡ ok table → IsTableOptions table
unfolding finish_table
finish_table_ok vars table h = elim (Result-cases (required vars.filename)) [
  | inr (problem, bad) ↦ ground (arith, bad, h)
  | inl (filename, e0) ↦ elim (Result-cases (validate_blob_pattern filename)) [
    | inr (problem, bad) ↦ ground (arith, e0, bad, h)
    | inl (u, e1) ↦ elim (Result-cases (required vars.container)) [
      | inr (problem, bad) ↦ ground (arith, e0, e1, bad, h)
      | inl (container, e2) ↦ elim (Result-cases (validate_container_name container)) [
        | inr (problem, bad) ↦ ground (arith, e0, e1, e2, bad, h)
        | inl (w, e3) ↦
            elim (Result-cases (check_partition vars.partition_columns vars.partition_keys)) [
              | inr (problem, bad) ↦ ground (arith, e0, e1, e2, e3, bad, h)
              | inl (partition, e4) ↦
                  elim (Result-cases (check_sorted (is_empty vars.sorted) vars.files_in_order)) [
                    | inr (problem, bad) ↦ ground (arith, e0, e1, e2, e3, e4, bad, h)
                    | inl (x, e5) ↦
                        let made : table ≡ record {
                          container = container;
                          filename = filename;
                          compression = vars.compression;
                          parallel_workers = vars.parallel_workers;
                          partition_columns = partition.0;
                          partition_keys = partition.1;
                          sorted = vars.sorted;
                          files_in_order = vars.files_in_order;
                        } =
                          ground (arith, e0, e1, e2, e3, e4, e5, h) in
                        let (named, relative, inside) = pattern_ok filename u e1 in
                        let (lengths, names) =
                          partition_ok vars.partition_columns vars.partition_keys partition e4 in
                        subst IsTableOptions (sym made) (record {
                          container = validate_container_name-ok container w e3;
                          named = named;
                          relative = relative;
                          inside = inside;
                          same_length = lengths;
                          same_names = λ i col key ty.
                              names_agree-at partition.0 partition.1 i col key ty names;
                          sorted_in_order =
                              sorted_ok (is_empty vars.sorted) vars.files_in_order x e5;
                        })
                  ]
            ]
      ]
    ]
  ]
]

-- FOREIGN TABLE options that parse have a container name that follows Azure's rules, a blob name or
-- pattern that is not empty, does not start with a slash and has no `..` segment, as many partition
-- keys as partition columns with the same names up to case, and sort columns exactly when the files
-- are declared to be in order.
pub parse_table_options-IsTableOptions :
    (kv : List (Bytes × Bytes)) (table : TableOptions)
    → parse_table_options_from_slice kv ≡ ok table
    → IsTableOptions table
unfolding parse_table_options_from_slice
parse_table_options-IsTableOptions kv table h =
    let (vars, finished, e) = >>=-ok finish_table (set_table_options kv _) h in
    finish_table_ok vars table finished

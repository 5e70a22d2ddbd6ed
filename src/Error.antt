-- ===== src/Error.antt =====
-- src/error.rs: the errors that every component returns. The texts of the messages have no effect
-- on control flow and are left out; `raise` (a call into Postgres that does not return) is not
-- modelled, so an error of the model is a statement that fails.
pub mod Exec
use parquet_azure_fdw.Prelude.{◌≡◌, refl, Bool, true, false, Bytes}

pub data FdwError : Type 0 where
  invalid_option missing_option azure parquet arrow io unsupported_type schema_mismatch : FdwError
  -- the blob that another writer changed; raised with SQLSTATE 40001
  concurrent_update : Bytes → FdwError

pub data FdwResult {ℓ} (A : Type ℓ) : Type ℓ where
  ok : A → FdwResult A
  err : FdwError → FdwResult A

-- `?`: the first error ends a chain.
module _ {ℓ κ} {A : Type ℓ} {B : Type κ} where
  infixl 5 ◌>>=◌
  abbrev pub ◌>>=◌ : FdwResult A → (A → FdwResult B) → FdwResult B
  err problem >>= next = err problem
  ok value >>= next = next value

  -- What a chain that succeeds went through.
  pub >>=-ok :
      (next : A → FdwResult B) {last : B} (first : FdwResult A)
      → (first >>= next) ≡ ok last
      → (value : A) × (next value ≡ ok last) × (first ≡ ok value)
  >>=-ok next (err problem) success = cc
  >>=-ok next (ok value) success = (value, success, refl)

-- `if !holds { return Err(problem) }`
abbrev pub ensure : FdwError → Bool → FdwResult (Unit {0})
ensure problem false = err problem
ensure problem true = ok tt

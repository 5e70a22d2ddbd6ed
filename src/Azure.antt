-- ===== src/Azure.antt =====
-- src/azure/mod.rs: the client of a container, over the calls of the Azure SDK, a parameter.
use parquet_azure_fdw.Prelude.{
  ℕ, ◌*◌, ◌≡◌, ◌≢◌, Bool, false, Option, none, some, Bytes, codes, contains_str, ltb, length,
  if◌then◌else◌,
}
use parquet_azure_fdw.Error.{FdwResult, ok, err, azure, concurrent_update}

abbrev pub max_blob_bytes : ℕ
max_blob_bytes = 512 * 1024 * 1024

-- Names of the staging convention belong to statements in flight or aborted.
unfoldable pub is_staging_name : Bytes → Bool
is_staging_name name = contains_str name (codes ".tmp.")

-- The answer of the service by its HTTP status; `other` has any other status, or none.
pub data Answer (A : Type 0) : Type 0 where
  success : A → Answer A
  precondition_failed not_found other : Answer A

-- The answer to a download: the declared length, and the body, unless its transfer fails.
pub record Download : Type 0 where
  pub content_length : Option ℕ
  pub body : Option Bytes

-- The service, with the etag and the body of each blob. An upload's answer has the new etag.
pub record BlobService : Type 1 where
  pub State : Type 0
  pub content : State → Bytes → Option (Bytes × Bytes)
  pub download : State → Bytes → Bytes → Answer Download × State
  pub upload_if_match : State → Bytes → Bytes → Bytes → Answer (Option Bytes) × State
  pub upload_if_none_match : State → Bytes → Bytes → Answer (Option Bytes) × State
  pub delete_blob_if_match : State → Bytes → Bytes → Answer (Unit {0}) × State
  pub delete_blob : State → Bytes → Answer (Unit {0}) × State

-- What is documented of conditional requests. An upload that fails may have been carried out.
pub record IsConditional (svc : BlobService) : Type 0 where
  pub content-download :
      (s : svc.State) (blob etag k : Bytes)
      → svc.content (svc.download s blob etag).1 k ≡ svc.content s k
  pub download-success :
      (s : svc.State) (blob etag body : Bytes) (d : Download)
      → (svc.download s blob etag).0 ≡ success d
      → d.body ≡ some body
      → svc.content s blob ≡ some (etag, body)
  pub content-upload_if_match :
      (s : svc.State) (blob body etag k : Bytes)
      → blob ≢ k
      → svc.content (svc.upload_if_match s blob body etag).1 k ≡ svc.content s k
  pub upload_if_match-success :
      (s : svc.State) (blob body etag : Bytes) (answer : Option Bytes)
      → (svc.upload_if_match s blob body etag).0 ≡ success answer
      → (old new : Bytes) × (svc.content s blob ≡ some (etag, old))
        × (svc.content (svc.upload_if_match s blob body etag).1 blob ≡ some (new, body))
  pub content-upload_if_none_match :
      (s : svc.State) (blob body k : Bytes)
      → blob ≢ k
      → svc.content (svc.upload_if_none_match s blob body).1 k ≡ svc.content s k
  pub content-delete_blob_if_match :
      (s : svc.State) (blob etag k : Bytes)
      → blob ≢ k
      → svc.content (svc.delete_blob_if_match s blob etag).1 k ≡ svc.content s k
  pub delete_blob_if_match-success :
      (s : svc.State) (blob etag : Bytes)
      → (svc.delete_blob_if_match s blob etag).0 ≡ success tt
      → (old : Bytes) × (svc.content s blob ≡ some (etag, old))
        × (svc.content (svc.delete_blob_if_match s blob etag).1 blob ≡ none)
  pub content-delete_blob :
      (s : svc.State) (blob k : Bytes)
      → blob ≢ k
      → svc.content (svc.delete_blob s blob).1 k ≡ svc.content s k

abbrev over_cap : ℕ → Bool
over_cap len = ltb max_blob_bytes len

abbrev declared_over_cap : Option ℕ → Bool
declared_over_cap none = false
declared_over_cap (some len) = over_cap len

-- The body of a download that the cap allows.
unfoldable pub collect_body : Download → FdwResult Bytes
collect_body resp = if declared_over_cap resp.content_length then err azure else elim (resp.body) [
  | none ↦ err azure
  | some body ↦ if over_cap (length body) then err azure else ok body
]

-- The etag of an upload's answer.
abbrev pub new_etag : Option Bytes → FdwResult Bytes
new_etag none = err azure
new_etag (some etag) = ok etag

-- The results that the client makes of the answers: a blob that changed or disappeared is another
-- writer's update.
unfoldable pub download_answer : Bytes → Answer Download → FdwResult Bytes
download_answer blob (success resp) = collect_body resp
download_answer blob precondition_failed = err (concurrent_update blob)
download_answer blob not_found = err (concurrent_update blob)
download_answer blob other = err azure

unfoldable pub upload_answer : Bytes → Answer (Option Bytes) → FdwResult Bytes
upload_answer blob (success resp) = new_etag resp
upload_answer blob precondition_failed = err (concurrent_update blob)
upload_answer blob not_found = err azure
upload_answer blob other = err azure

unfoldable pub delete_answer : Bytes → Answer (Unit {0}) → FdwResult (Unit {0})
delete_answer blob (success resp) = ok tt
delete_answer blob precondition_failed = err (concurrent_update blob)
delete_answer blob not_found = err (concurrent_update blob)
delete_answer blob other = err azure

-- A blob that is gone already is no error.
unfoldable pub unconditional_answer : Answer (Unit {0}) → FdwResult (Unit {0})
unconditional_answer (success resp) = ok tt
unconditional_answer not_found = ok tt
unconditional_answer precondition_failed = err azure
unconditional_answer other = err azure

module _ (svc : BlobService) where
  unfoldable pub get_body_if_match : Bytes → Bytes → svc.State → FdwResult Bytes × svc.State
  get_body_if_match blob if_match s =
      let (answer, after) = svc.download s blob if_match in (download_answer blob answer, after)

  unfoldable pub put_if_match : Bytes → Bytes → Bytes → svc.State → FdwResult Bytes × svc.State
  put_if_match blob body etag s =
      if over_cap (length body)
      then (err azure, s)
      else (let (answer, after) = svc.upload_if_match s blob body etag in
          (upload_answer blob answer, after))

  unfoldable pub put_if_none_match : Bytes → Bytes → svc.State → FdwResult Bytes × svc.State
  put_if_none_match blob body s =
      if over_cap (length body)
      then (err azure, s)
      else (let (answer, after) = svc.upload_if_none_match s blob body in
          (upload_answer blob answer, after))

  unfoldable pub delete_if_match : Bytes → Bytes → svc.State → FdwResult (Unit {0}) × svc.State
  delete_if_match blob etag s =
      let (answer, after) = svc.delete_blob_if_match s blob etag in
      (delete_answer blob answer, after)

  unfoldable pub delete_unconditional : Bytes → svc.State → FdwResult (Unit {0}) × svc.State
  delete_unconditional blob s =
      let (answer, after) = svc.delete_blob s blob in (unconditional_answer answer, after)

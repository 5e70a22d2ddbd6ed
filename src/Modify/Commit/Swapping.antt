-- ===== src/Modify/Commit/Swapping.antt =====
-- The two phases of the commit (src/fdw/modify/update.rs), when they succeed.
use parquet_azure_fdw.Prelude.{
  ◌≡◌, refl, arith, Option, none, some, Bytes, ltb, length, Bool-cases, inl, inr,
}
use parquet_azure_fdw.Error.{ok, err, azure}
use parquet_azure_fdw.Azure.{
  BlobService, IsConditional, Answer, success, precondition_failed, not_found, other, Download,
  collect_body, get_body_if_match, put_if_match, delete_if_match, max_blob_bytes, download_answer,
  upload_answer, delete_answer,
}

collect_body-ok : (d : Download) (body : Bytes) → collect_body d ≡ ok body → d.body ≡ some body
unfolding collect_body
collect_body-ok d body h = ground arith

-- The stored content after new bytes, or after a deletion.
abbrev pub Becomes : Option Bytes → Option (Bytes × Bytes) → Type 0
Becomes none content = content ≡ none
Becomes (some bytes) content = (etag : Bytes) × (content ≡ some (etag, bytes))

download_answer-ok :
    (blob body : Bytes) (answer : Answer Download)
    → download_answer blob answer ≡ ok body
    → (d : Download) × (answer ≡ success d) × (d.body ≡ some body)
unfolding download_answer
download_answer-ok blob body (success d) h = (d, refl, collect_body-ok d body h)
download_answer-ok blob body precondition_failed h = cc
download_answer-ok blob body not_found h = cc
download_answer-ok blob body other h = cc

upload_answer-ok :
    (blob etag : Bytes) (answer : Answer (Option Bytes))
    → upload_answer blob answer ≡ ok etag
    → (resp : Option Bytes) × (answer ≡ success resp)
unfolding upload_answer
upload_answer-ok blob etag (success resp) h = (resp, refl)
upload_answer-ok blob etag precondition_failed h = cc
upload_answer-ok blob etag not_found h = cc
upload_answer-ok blob etag other h = cc

delete_answer-ok :
    (blob : Bytes) (answer : Answer (Unit {0}))
    → delete_answer blob answer ≡ ok tt
    → answer ≡ success tt
unfolding delete_answer
delete_answer-ok blob (success tt) h = refl
delete_answer-ok blob precondition_failed h = cc
delete_answer-ok blob not_found h = cc
delete_answer-ok blob other h = cc

module _ (svc : BlobService) (law : IsConditional svc) where
  pub get_body_if_match-ok :
      (blob etag body : Bytes) (s : svc.State)
      → (get_body_if_match svc blob etag s).0 ≡ ok body
      → svc.content s blob ≡ some (etag, body)
  unfolding get_body_if_match
  get_body_if_match-ok blob etag body s h =
      let (d, answered, delivered) = download_answer-ok blob body (svc.download s blob etag).0 h in
      law.download-success s blob etag body d answered delivered

  pub put_if_match-ok :
      (blob bytes etag new : Bytes) (s : svc.State)
      → (put_if_match svc blob bytes etag s).0 ≡ ok new
      → Becomes (some bytes) (svc.content (put_if_match svc blob bytes etag s).1 blob)
  unfolding put_if_match
  put_if_match-ok blob bytes etag new s h = elim (Bool-cases (ltb max_blob_bytes (length bytes))) [
    | inl e ↦ (let refused : err azure ≡ ok new = rw (put_if_match, e) at h in cc)
    | inr e ↦
        let answer = svc.upload_if_match s blob bytes etag in
        let (resp, answered) = upload_answer-ok blob new answer.0 (rw (put_if_match, e) at h) in
        let (old, stored, before, now) =
          law.upload_if_match-success s blob bytes etag resp answered in
        rw e (stored, now)
  ]

  pub delete_if_match-ok :
      (blob etag : Bytes) (s : svc.State)
      → (delete_if_match svc blob etag s).0 ≡ ok tt
      → Becomes none (svc.content (delete_if_match svc blob etag s).1 blob)
  unfolding delete_if_match
  delete_if_match-ok blob etag s h =
      let answered = delete_answer-ok blob (svc.delete_blob_if_match s blob etag).0 h in
      let (old, before, now) = law.delete_blob_if_match-success s blob etag answered in now

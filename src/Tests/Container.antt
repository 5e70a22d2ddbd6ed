-- ===== src/Tests/Container.antt =====
-- A container in memory, which meets the assumptions on the service of src/azure/mod.rs.
use parquet_azure_fdw.Prelude.{
  ◌≡◌, ◌≢◌, refl, ap, ◌∙◌, Option, none, some, Bytes, bytes_eq, bytes_eq→eq, bytes_eq_refl, codes,
  if◌then◌else◌, Bool-cases, inl, inr,
}
use parquet_azure_fdw.Azure.{
  BlobService, IsConditional, Answer, success, precondition_failed, not_found, Download,
}

abbrev pub Container : Type 0
Container = Bytes → Option (Bytes × Bytes)

abbrev pub set : Container → Bytes → Option (Bytes × Bytes) → Container
set s blob content k = if bytes_eq blob k then content else s k

-- Does the stored version have the etag?
abbrev check : Bytes → Option (Bytes × Bytes) → Answer (Bytes)
check etag none = not_found
check etag (some (e, body)) = if bytes_eq e etag then success body else precondition_failed

abbrev delivered : Answer Bytes → Answer Download
delivered (success body) = success (record { content_length = none; body = some body })
delivered _ = precondition_failed

abbrev upload : Container → Bytes → Bytes → Answer Bytes → Answer (Option Bytes) × Container
upload s blob body (success old) =
    (success (some (codes "new")), set s blob (some (codes "new", body)))
upload s blob body _ = (precondition_failed, s)

abbrev create :
    Container → Bytes → Bytes → Option (Bytes × Bytes) → Answer (Option Bytes) × Container
create s blob body none = (success (some (codes "new")), set s blob (some (codes "new", body)))
create s blob body (some old) = (precondition_failed, s)

abbrev remove : Container → Bytes → Answer Bytes → Answer (Unit {0}) × Container
remove s blob (success old) = (success tt, set s blob none)
remove s blob _ = (precondition_failed, s)

abbrev pub memory : BlobService
memory = record {
  State = Container;
  content = λ s k. s k;
  download = λ s blob etag. (delivered (check etag (s blob)), s);
  upload_if_match = λ s blob body etag. upload s blob body (check etag (s blob));
  upload_if_none_match = λ s blob body. create s blob body (s blob);
  delete_blob_if_match = λ s blob etag. remove s blob (check etag (s blob));
  delete_blob = λ s blob. (success tt, set s blob none);
}

set_other :
    (s : Container) (blob k : Bytes) (c : Option (Bytes × Bytes)) → blob ≢ k → set s blob c k ≡ s k
set_other s blob k c apart = elim (Bool-cases (bytes_eq blob k)) [
  | inl e ↦ absurd (apart (bytes_eq→eq blob k e))
  | inr e ↦ rw e refl
]

set_same : (s : Container) (blob : Bytes) (c : Option (Bytes × Bytes)) → set s blob c blob ≡ c
set_same s blob c = rw (bytes_eq_refl blob) refl

upload_other :
    (s : Container) (blob body k : Bytes) (answer : Answer Bytes)
    → blob ≢ k
    → (upload s blob body answer).1 k ≡ s k
upload_other s blob body k (success old) apart = set_other s blob k _ apart
upload_other s blob body k precondition_failed apart = refl
upload_other s blob body k not_found apart = refl
upload_other s blob body k Answer.other apart = refl

create_other :
    (s : Container) (blob body k : Bytes) (stored : Option (Bytes × Bytes))
    → blob ≢ k
    → (create s blob body stored).1 k ≡ s k
create_other s blob body k none apart = set_other s blob k _ apart
create_other s blob body k (some old) apart = refl

remove_other :
    (s : Container) (blob k : Bytes) (answer : Answer Bytes)
    → blob ≢ k
    → (remove s blob answer).1 k ≡ s k
remove_other s blob k (success old) apart = set_other s blob k _ apart
remove_other s blob k precondition_failed apart = refl
remove_other s blob k not_found apart = refl
remove_other s blob k Answer.other apart = refl

check_ok :
    (etag old : Bytes) (stored : Option (Bytes × Bytes))
    → check etag stored ≡ success old
    → stored ≡ some (etag, old)
check_ok etag old none h = cc
check_ok etag old (some (e, body)) h = elim (Bool-cases (bytes_eq e etag)) [
  | inl same ↦
      let found : success body ≡ success old = rw same at h in
      let tag = bytes_eq→eq e etag same in let text : body ≡ old = cc in cc
  | inr apart ↦ let refused : precondition_failed ≡ success old = rw apart at h in cc
]

success_eq : {A : Type 0} {x y : A} → success x ≡ success y → x ≡ y
success_eq e = cc

delivered_ok :
    (answer : Answer Bytes) (d : Download) (body : Bytes)
    → delivered answer ≡ success d
    → d.body ≡ some body
    → answer ≡ success body
delivered_ok (success b) d body h text =
    let e : some b ≡ some body = ap (λ x. x.body) (success_eq h) ∙ text in cc
delivered_ok precondition_failed d body h text = cc
delivered_ok not_found d body h text = cc
delivered_ok Answer.other d body h text = cc

upload_ok :
    (s : Container) (blob body : Bytes) (checked : Answer Bytes) (resp : Option Bytes)
    → (upload s blob body checked).0 ≡ success resp
    → (old : Bytes) × (checked ≡ success old)
      × ((upload s blob body checked).1 blob ≡ some (codes "new", body))
upload_ok s blob body (success old) resp h = (old, refl, set_same s blob _)
upload_ok s blob body precondition_failed resp h = cc
upload_ok s blob body not_found resp h = cc
upload_ok s blob body Answer.other resp h = cc

remove_ok :
    (s : Container) (blob : Bytes) (checked : Answer Bytes)
    → (remove s blob checked).0 ≡ success tt
    → (old : Bytes) × (checked ≡ success old) × ((remove s blob checked).1 blob ≡ none)
remove_ok s blob (success old) h = (old, refl, set_same s blob none)
remove_ok s blob precondition_failed h = cc
remove_ok s blob not_found h = cc
remove_ok s blob Answer.other h = cc

pub memory-IsConditional : IsConditional memory
memory-IsConditional = record {
  content-download = λ s blob etag k. refl;
  download-success = λ s blob etag body d answered text.
      check_ok etag body (s blob) (delivered_ok (check etag (s blob)) d body answered text);
  content-upload_if_match =
      λ s blob body etag k apart. upload_other s blob body k (check etag (s blob)) apart;
  upload_if_match-success = λ s blob body etag resp answered.
      let (old, checked, now) = upload_ok s blob body (check etag (s blob)) resp answered in
      (old, codes "new", check_ok etag old (s blob) checked, now);
  content-upload_if_none_match = λ s blob body k apart. create_other s blob body k (s blob) apart;
  content-delete_blob_if_match =
      λ s blob etag k apart. remove_other s blob k (check etag (s blob)) apart;
  delete_blob_if_match-success = λ s blob etag answered.
      let (old, checked, now) = remove_ok s blob (check etag (s blob)) answered in
      (old, check_ok etag old (s blob) checked, now);
  content-delete_blob = λ s blob k apart. set_other s blob k none apart;
}

-- ===== src/Modify/Commit/Staging.antt =====
-- What the calls of the commit (src/fdw/modify/update.rs) leave of the blobs.
use parquet_azure_fdw.Prelude.{
  ℕ, ◌≡◌, ◌≢◌, refl, ap, ◌∙◌, arith, true, false, List, [], ◌∷◌, ◌++◌, append_assoc, Option, none,
  some, Bytes, codes, starts_with, contains_str, ltb, length, All, Bool-cases, inl, inr,
}
use parquet_azure_fdw.Error.Exec.{attempt, Keeps, Keeps-and_then}
use parquet_azure_fdw.Azure.{
  BlobService, IsConditional, is_staging_name, get_body_if_match, put_if_match, put_if_none_match,
  delete_if_match, delete_unconditional, max_blob_bytes,
}
use parquet_azure_fdw.Modify.BlobTable.{BlobIdEntry}
use parquet_azure_fdw.Modify.Kernel.{Arrow, BlobEdits}
use parquet_azure_fdw.Modify.Coordinator.{make_staging_name, without_suffix}
use parquet_azure_fdw.Modify.Commit.{
  Parquet, Staged, World, Commit, call, put_staged, stage_entry, stage_all, swap_bytes, swap_all,
}

starts_with-append : (p s t : Bytes) → starts_with s p ≡ true → starts_with (s ++ t) p ≡ true
starts_with-append [] s t h = refl
starts_with-append (c ∷ p) (x ∷ s) t h = ground (arith, starts_with-append p s t)
starts_with-append (c ∷ p) [] t h = cc

starts_with_self : (p t : Bytes) → starts_with (p ++ t) p ≡ true
starts_with_self [] t = refl
starts_with_self (c ∷ p) t = ground (arith, starts_with_self p t)

contains_str-after : (s t p : Bytes) → starts_with t p ≡ true → contains_str (s ++ t) p ≡ true
contains_str-after [] [] p h = h
contains_str-after [] (x ∷ t) p h = ground (arith, h)
contains_str-after (x ∷ s) t p h = ground (arith, contains_str-after s t p h)

-- A staging name follows the staging convention, whatever the name of the blob.
pub make_staging_name-is_staging_name :
    (uuid original : Bytes) → is_staging_name (make_staging_name uuid original) ≡ true
unfolding is_staging_name make_staging_name
make_staging_name-is_staging_name uuid original =
    let stem = without_suffix (codes ".parquet") original in
    ap (λ s. contains_str s (codes ".tmp."))
      (ap (λ s. s ++ codes ".parquet") (append_assoc stem (codes ".tmp.") uuid)
        ∙ append_assoc stem (codes ".tmp." ++ uuid) (codes ".parquet"))
    ∙ contains_str-after stem (codes ".tmp." ++ uuid ++ codes ".parquet") (codes ".tmp.")
        (ground arith)

pub not_staging :
    (k name : Bytes) → is_staging_name k ≡ false → is_staging_name name ≡ true → name ≢ k
not_staging k name h g e = cc

module _ (svc : BlobService) (law : IsConditional svc) (a : Arrow) (p : Parquet a) where
  -- The blob `k` has the content `c`.
  abbrev pub Has : Bytes → Option (Bytes × Bytes) → World svc a p → Type 0
  Has k c w = svc.content w.0 k ≡ c

  module _ (k : Bytes) (c : Option (Bytes × Bytes)) where
    get_body_if_match-Keeps :
        (blob etag : Bytes) → Keeps (Has k c) (call svc a p (get_body_if_match svc blob etag))
    unfolding get_body_if_match
    get_body_if_match-Keeps blob etag = record {
      kept = λ (s, active) has. law.content-download s blob etag k ∙ has;
    }

    put_if_none_match-Keeps :
        (blob bytes : Bytes)
        → blob ≢ k
        → Keeps (Has k c) (call svc a p (put_if_none_match svc blob bytes))
    unfolding put_if_none_match
    put_if_none_match-Keeps blob bytes apart = record {
      kept = λ (s, active) has. elim (Bool-cases (ltb max_blob_bytes (length bytes))) [
        | inl e ↦ rw e has
        | inr e ↦ rw e (law.content-upload_if_none_match s blob bytes k apart ∙ has)
      ];
    }

    put_if_match-Keeps :
        (blob bytes etag : Bytes)
        → blob ≢ k
        → Keeps (Has k c) (call svc a p (put_if_match svc blob bytes etag))
    unfolding put_if_match
    put_if_match-Keeps blob bytes etag apart = record {
      kept = λ (s, active) has. elim (Bool-cases (ltb max_blob_bytes (length bytes))) [
        | inl e ↦ rw e has
        | inr e ↦ rw e (law.content-upload_if_match s blob bytes etag k apart ∙ has)
      ];
    }

    delete_if_match-Keeps :
        (blob etag : Bytes)
        → blob ≢ k
        → Keeps (Has k c) (call svc a p (delete_if_match svc blob etag))
    unfolding delete_if_match
    delete_if_match-Keeps blob etag apart = record {
      kept = λ (s, active) has. law.content-delete_blob_if_match s blob etag k apart ∙ has;
    }

    pub delete_unconditional-Keeps :
        (blob : Bytes)
        → blob ≢ k
        → Keeps (Has k c) (attempt (call svc a p (delete_unconditional svc blob)))
    unfolding delete_unconditional
    delete_unconditional-Keeps blob apart = record {
      kept = λ (s, active) has. law.content-delete_blob s blob k apart ∙ has;
    }

  module _ (k : Bytes) (c : Option (Bytes × Bytes)) (plain : is_staging_name k ≡ false) where
    put_staged-Keeps :
        (entry : BlobIdEntry) (uuid : Bytes) (rewritten : Option Bytes)
        → Keeps (Has k c) (put_staged svc a p entry (make_staging_name uuid entry.name) rewritten)
    unfolding put_staged
    put_staged-Keeps entry uuid none = record { kept = λ s has. has }
    put_staged-Keeps entry uuid (some bytes) =
        let name = make_staging_name uuid entry.name in
        Keeps-and_then (Has k c) _ _ (record { kept = λ s has. has })
          λ registered.
            Keeps-and_then (Has k c) _ _
              (put_if_none_match-Keeps k c name bytes
                (not_staging k name plain (make_staging_name-is_staging_name uuid entry.name)))
              λ etag. record { kept = λ s has. has }

    pub stage_entry-Keeps :
        (plan : Commit svc a p) (edits : BlobEdits a.ArrayRef) (entry : BlobIdEntry) (uuid : Bytes)
        → Keeps (Has k c) (stage_entry svc a p plan edits entry uuid)
    unfolding stage_entry
    stage_entry-Keeps plan edits entry uuid =
        Keeps-and_then (Has k c) _ _ (get_body_if_match-Keeps k c entry.name entry.etag) λ body.
          Keeps-and_then (Has k c) _ _ (record { kept = λ s has. has })
            λ rewritten. put_staged-Keeps entry uuid rewritten

    pub stage_all-Keeps :
        (plan : Commit svc a p) (uuid : ℕ → Bytes) (ids : List ℕ)
        → Keeps (Has k c) (stage_all svc a p plan uuid ids)
    unfolding stage_all
    stage_all-Keeps plan uuid [] = record { kept = λ s has. has }
    stage_all-Keeps plan uuid (id ∷ ids) =
        Keeps-and_then (Has k c) _ _ (record { kept = λ s has. has })
          λ entry.
            Keeps-and_then (Has k c) _ _ (record { kept = λ s has. has })
              λ edits.
                Keeps-and_then (Has k c) _ _ (stage_entry-Keeps plan edits entry (uuid id))
                  λ staged.
                    Keeps-and_then (Has k c) _ _ (stage_all-Keeps plan uuid ids)
                      λ others. record { kept = λ s has. has }

    -- The staged blobs' names, of which the new ones follow the staging convention.
    abbrev pub OtherThan : Staged → Type 0
    OtherThan staged =
        (staged.original_name ≢ k)
        × ((bytes : Bytes)
            → staged.new_bytes ≡ some bytes
            → is_staging_name staged.staging_name ≡ true)

    pub swap_bytes-Keeps :
        (staged : Staged) (new_bytes : Option Bytes)
        → staged.original_name ≢ k
        → ((bytes : Bytes) → new_bytes ≡ some bytes → is_staging_name staged.staging_name ≡ true)
        → Keeps (Has k c) (swap_bytes svc a p staged new_bytes)
    unfolding swap_bytes
    swap_bytes-Keeps staged none apart staging =
        delete_if_match-Keeps k c staged.original_name staged.scan_etag apart
    swap_bytes-Keeps staged (some bytes) apart staging =
        Keeps-and_then (Has k c) _ _
          (put_if_match-Keeps k c staged.original_name bytes staged.scan_etag apart)
          λ etag.
            Keeps-and_then (Has k c) _ _
              (delete_unconditional-Keeps k c staged.staging_name
                (not_staging k staged.staging_name plain (staging bytes refl)))
              λ ignored. record { kept = λ s has. has }

    pub swap_all-Keeps :
        (staged : List Staged) → All OtherThan staged → Keeps (Has k c) (swap_all svc a p staged)
    unfolding swap_all
    swap_all-Keeps [] apart = record { kept = λ s has. has }
    swap_all-Keeps (staged ∷ others) ((apart, staging), rest) =
        Keeps-and_then (Has k c) _ _ (swap_bytes-Keeps staged staged.new_bytes apart staging)
          λ swapped. swap_all-Keeps others rest

-- ===== src/Parallel/Layout.antt =====
-- The layout of the shared segment (src/fdw/parallel.rs): round trip and bounds.
use parquet_azure_fdw.Prelude.{
  ℕ, zero, suc, ◌+◌, ◌-◌, ◌%◌, ◌^◌, ◌≤◌, ◌<◌, ◌≡◌, ◌≢◌, refl, sym, ap, ◌∙◌, subst, arith, Bool,
  true, false, List, [], ◌∷◌, ◌++◌, none, some, Bytes, leb, length, length-append, take, drop, All,
  Bool-cases, inl, inr,
}
use parquet_azure_fdw.Error.{ok, err}
use parquet_azure_fdw.Modify.BlobTable.{Blob}
use parquet_azure_fdw.Parallel.{
  Segment, header_size, to_le_bytes, from_le_bytes, payload_size, dsm_size_for, write_entries,
  dsm_serialize_blobs, Access, ◌>>=◌, copy_bytes, check, read_entries, dsm_deserialize_blobs,
}

le_bytes_lem : (n : ℕ) → n < 2 ^ 32 → from_le_bytes (to_le_bytes n) ≡ n
unfolding to_le_bytes from_le_bytes
le_bytes_lem n h = omega arith

take-length : (xs ys : Bytes) → take (length xs) (xs ++ ys) ≡ xs
take-length [] ys = refl
take-length (x ∷ xs) ys = ap (λ zs. x ∷ zs) (take-length xs ys)

drop-length : (xs ys : Bytes) → drop (length xs) (xs ++ ys) ≡ ys
drop-length [] ys = refl
drop-length (x ∷ xs) ys = drop-length xs ys

copy_bytes-append :
    (n : ℕ) (xs ys : Bytes) → length xs ≡ n → copy_bytes n (xs ++ ys) ≡ some (ok (xs, ys))
unfolding copy_bytes
copy_bytes-append n xs ys h =
    subst (λ m. copy_bytes m (xs ++ ys) ≡ some (ok (xs, ys))) h
      (rw (copy_bytes, within, take-length xs ys, drop-length xs ys) refl)
  where
    within : leb (length xs) (length (xs ++ ys)) ≡ true
    within = ground (arith, length-append xs ys)

-- The names and etags are texts of fewer than 2^32 bytes.
abbrev pub Text : (Bytes → Bool) → Blob → Type 0
Text is_utf8 blob =
    (length blob.0 < 2 ^ 32)
    × (length blob.1 < 2 ^ 32)
    × (is_utf8 blob.0 ≡ true)
    × (is_utf8 blob.1 ≡ true)

length_bytes :
    (text : Bytes)
    → length text < 2 ^ 32
    → from_le_bytes (to_le_bytes (length text % 2 ^ 32)) ≡ length text
length_bytes text h =
    let small : length text % 2 ^ 32 ≡ length text = omega arith in
    rw small (le_bytes_lem (length text) h)

read_entries-write_entries :
    (is_utf8 : Bytes → Bool) (total bytes_read : ℕ) (blobs : List Blob)
    → All (Text is_utf8) blobs
    → bytes_read + payload_size blobs ≤ total
    → read_entries is_utf8 total (length blobs) (write_entries blobs) bytes_read ≡ some (ok blobs)
unfolding read_entries write_entries payload_size to_le_bytes
read_entries-write_entries is_utf8 total read [] texts fits = refl
read_entries-write_entries is_utf8 total read ((name, etag) ∷ blobs) ((ns, es, nu, eu), texts)
      fits =
    let nl_buf = to_le_bytes (length name % 2 ^ 32) in
    let el_buf = to_le_bytes (length etag % 2 ^ 32) in
    let behind = write_entries blobs in
    let next = read + 8 + length name + length etag in
    let a : leb (read + 8) total ≡ true = ground (arith, fits) in
    let b : copy_bytes 4 (write_entries ((name, etag) ∷ blobs))
        ≡ some (ok (nl_buf, el_buf ++ (name ++ (etag ++ behind)))) =
      copy_bytes-append 4 nl_buf _ refl in
    let c = copy_bytes-append 4 el_buf (name ++ (etag ++ behind)) refl in
    let d : from_le_bytes nl_buf ≡ length name = length_bytes name ns in
    let e : from_le_bytes el_buf ≡ length etag = length_bytes etag es in
    let f : leb next total ≡ true = ground (arith, fits) in
    let g = copy_bytes-append (length name) name (etag ++ behind) refl in
    let h = copy_bytes-append (length etag) etag behind refl in
    let rest = read_entries-write_entries is_utf8 total next blobs texts (omega (arith, fits)) in
    rw (read_entries, a) (rw b (rw c (rw (d, e) (rw f (rw g (rw h (rw (nu, eu) (rw rest refl))))))))

-- A segment of `dsm_size_for` bytes that is written with a list of blobs, each of a name and an etag
-- of fewer than 2^32 bytes of UTF-8, is read back as that list.
pub dsm_deserialize_blobs-dsm_serialize_blobs :
    (is_utf8 : Bytes → Bool) (blobs : List Blob)
    → All (Text is_utf8) blobs
    → dsm_deserialize_blobs is_utf8 (dsm_serialize_blobs (dsm_size_for blobs) blobs)
      ≡ some (ok blobs)
unfolding dsm_deserialize_blobs dsm_serialize_blobs dsm_size_for
dsm_deserialize_blobs-dsm_serialize_blobs is_utf8 blobs texts =
    read_entries-write_entries is_utf8 (header_size + payload_size blobs - header_size) 0 blobs
      texts (omega arith)

-- The access is inside of the segment.
abbrev Reached {ℓ} : {A : Type ℓ} → Access A → Type 0
Reached none = ⊥
Reached (some result) = Unit

Reached->>= {ℓ κ} :
    {A : Type ℓ} {B : Type κ} (m : Access A) (next : A → Access B)
    → Reached m
    → ((value : A) → m ≡ some (ok value) → Reached (next value))
    → Reached (m >>= next)
Reached->>= (some (ok value)) next h hs = hs value refl
Reached->>= (some (err problem)) next h hs = tt
Reached->>= none next h hs = absurd h

copy_bytes-Reached : (n : ℕ) (cur : Bytes) → n ≤ length cur → Reached (copy_bytes n cur)
unfolding copy_bytes
copy_bytes-Reached n cur h =
    let within : leb n (length cur) ≡ true = ground arith in rw (within, copy_bytes) tt

length-drop : (n : ℕ) (cur : Bytes) → length (drop n cur) ≡ length cur - n
length-drop zero cur = omega arith
length-drop (suc n) [] = omega arith
length-drop (suc n) (x ∷ cur) = omega (arith, length-drop n cur)

copy_bytes-length :
    (n : ℕ) (cur taken rest : Bytes)
    → copy_bytes n cur ≡ some (ok (taken, rest))
    → length rest ≡ length cur - n
unfolding copy_bytes
copy_bytes-length n cur taken rest h = elim (Bool-cases (leb n (length cur))) [
  | inl e ↦
      let copied : some (ok (take n cur, drop n cur)) ≡ some (ok (taken, rest)) =
        rw (copy_bytes, e) at h in
      let same : drop n cur ≡ rest = cc in ap length (sym same) ∙ length-drop n cur
  | inr e ↦ let outside : none ≡ some (ok (taken, rest)) = rw (copy_bytes, e) at h in cc
]

check_ok : (holds : Bool) → check holds ≡ some (ok tt) → holds ≡ true
check_ok true h = refl
check_ok false h = cc

read_entries-Reached :
    (is_utf8 : Bytes → Bool) (total left : ℕ) (cur : Bytes) (bytes_read : ℕ)
    → total ≤ bytes_read + length cur
    → Reached (read_entries is_utf8 total left cur bytes_read)
unfolding read_entries
read_entries-Reached is_utf8 total zero cur read h = tt
read_entries-Reached is_utf8 total (suc left) cur read h =
    Reached->>= (check (leb (read + 8) total)) _ tt λ ok1 checked1.
      let fits1 : read + 8 ≤ total = ground (arith, check_ok _ checked1) in
      Reached->>= (copy_bytes 4 cur) _ (copy_bytes-Reached 4 cur (omega arith))
        λ (nl_buf, after_nl) copied1.
          let l1 = copy_bytes-length 4 cur nl_buf after_nl copied1 in
          Reached->>= (copy_bytes 4 after_nl) _ (copy_bytes-Reached 4 after_nl (omega (arith, l1)))
            λ (el_buf, after_el) copied2.
              let l2 = copy_bytes-length 4 after_nl el_buf after_el copied2 in
              let nl = from_le_bytes nl_buf in
              let el = from_le_bytes el_buf in
              Reached->>= (check (leb (read + 8 + nl + el) total)) _ tt λ ok2 checked2.
                let fits2 : read + 8 + nl + el ≤ total = ground (arith, check_ok _ checked2) in
                Reached->>= (copy_bytes nl after_el) _
                  (copy_bytes-Reached nl after_el (omega (arith, l1, l2)))
                  λ (name, after_name) copied3.
                    let l3 = copy_bytes-length nl after_el name after_name copied3 in
                    Reached->>= (copy_bytes el after_name) _
                      (copy_bytes-Reached el after_name (omega (arith, l1, l2, l3)))
                      λ (etag, after_etag) copied4.
                        let l4 = copy_bytes-length el after_name etag after_etag copied4 in
                        Reached->>= (check (is_utf8 name)) _ tt λ ok3 checked3.
                          Reached->>= (check (is_utf8 etag)) _ tt λ ok4 checked4.
                            Reached->>=
                              (read_entries is_utf8 total left after_etag (read + 8 + nl + el)) _
                              (read_entries-Reached is_utf8 total left after_etag
                                (read + 8 + nl + el) (omega (arith, l1, l2, l3, l4)))
                              λ others read_rest. tt

-- Reading a segment whose payload is at least as long as its header says never leaves the payload,
-- whatever its bytes and its number of blobs are.
pub dsm_deserialize_blobs_in_bounds :
    (is_utf8 : Bytes → Bool) (segment : Segment)
    → segment.total_payload_bytes ≤ length segment.payload
    → dsm_deserialize_blobs is_utf8 segment ≢ none
unfolding dsm_deserialize_blobs
dsm_deserialize_blobs_in_bounds is_utf8 segment h e = subst Reached e (
    read_entries-Reached is_utf8 segment.total_payload_bytes segment.n_blobs segment.payload 0
      (omega arith))

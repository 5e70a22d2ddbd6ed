-- ===== src/Options/Container.antt =====
-- The names of containers that `validate_container_name` (src/fdw/options.rs) accepts.
use parquet_azure_fdw.Prelude.{
  ◌≡◌, refl, subst, arith, Bool, true, false, ◌&&◌, List, [], Bytes, codes, starts_with, length,
  all, leb, some, ℕ, zero, suc, ◌≤◌, ◌≢◌, get_elem?, ends_with, contains_str, ◌∷◌, ◌||◌, ◌==◌,
  Bool-cases,
}
use parquet_azure_fdw.Error.{ok}
use parquet_azure_fdw.Options.Names.{is_lower_or_digit, container_ok, validate_container_name}
use parquet_azure_fdw.Prelude.{◌⊎◌, inl, inr}

-- Azure's rules for the names of containers: 3 to 63 lower-case letters, digits and dashes, no dash
-- at the start, and behind each dash a letter or a digit.
pub record IsContainerName (name : Bytes) : Type 0 where
  pub at_least : 3 ≤ length name
  pub at_most : length name ≤ 63
  pub letters :
      (i c : ℕ)
      → get_elem? name i ≡ some c
      → ((b'a' ≤ c) × (c ≤ b'z')) ⊎ (((b'0' ≤ c) × (c ≤ b'9')) ⊎ (c ≡ b'-'))
  pub start : (c : ℕ) → get_elem? name 0 ≡ some c → c ≢ b'-'
  pub dashes :
      (i : ℕ)
      → get_elem? name i ≡ some b'-'
      → (d : ℕ) × (get_elem? name (suc i) ≡ some d) × (d ≢ b'-')

all-at {ℓ} :
    {A : Type ℓ} (p : A → Bool) (xs : List A) (i : ℕ) (x : A)
    → all p xs ≡ true
    → get_elem? xs i ≡ some x
    → p x ≡ true
all-at p [] i x h at = cc
all-at p (y ∷ xs) zero x h at =
    let same : y ≡ x = cc in subst (λ z. p z ≡ true) same (ground (arith, h))
all-at p (y ∷ xs) (suc i) x h at = all-at p xs i x (ground (arith, h)) at

container_letter :
    (c : ℕ)
    → (is_lower_or_digit c || c == b'-') ≡ true
    → ((b'a' ≤ c) × (c ≤ b'z')) ⊎ (((b'0' ≤ c) × (c ≤ b'9')) ⊎ (c ≡ b'-'))
container_letter c h = elim (Bool-cases (leb b'a' c && leb c b'z')) [
  | inl e ↦ inl (ground (arith, e), ground (arith, e))
  | inr e ↦ elim (Bool-cases (leb b'0' c && leb c b'9')) [
    | inl d ↦ inr (inl (ground (arith, d), ground (arith, d)))
    | inr d ↦ inr (inr (ground (arith, h, e, d)))
  ]
]

no_dash_first :
    (n : Bytes) (c : ℕ) → starts_with n (codes "-") ≡ false → get_elem? n 0 ≡ some c → c ≢ b'-'
no_dash_first [] c h at = λ e. cc
no_dash_first (x ∷ n) c h at = λ e. let same : x ≡ c = cc in ground (arith, h, same, e)

behind_dash :
    (n : Bytes) (i : ℕ)
    → ends_with n b'-' ≡ false
    → contains_str n (codes "--") ≡ false
    → get_elem? n i ≡ some b'-'
    → (d : ℕ) × (get_elem? n (suc i) ≡ some d) × (d ≢ b'-')
behind_dash [] i h k at = cc
behind_dash (x ∷ []) zero h k at = let same : x ≡ b'-' = cc in ground (arith, h, same)
behind_dash (x ∷ []) (suc i) h k at = cc
behind_dash (x ∷ y ∷ n) zero h k at =
    let same : x ≡ b'-' = cc in (y, refl, λ e. ground (arith, k, same, e))
behind_dash (x ∷ y ∷ n) (suc i) h k at = behind_dash (y ∷ n) i h (ground (arith, k)) at

pub validate_container_name-ok :
    (n : Bytes) (u : Unit {0}) → validate_container_name n ≡ ok u → IsContainerName n
unfolding validate_container_name container_ok
validate_container_name-ok n u h = record {
  at_least = ground arith;
  at_most = ground arith;
  letters = λ i c at.
      container_letter c (all-at (λ b. is_lower_or_digit b || b == b'-') n i c (ground arith) at);
  start = λ c at. no_dash_first n c (ground arith) at;
  dashes = λ i at. behind_dash n i (ground arith) (ground arith) at;
}

-- ===== src/Modify/Kernel/Lists.antt =====
-- Lemmas on lists, maps and masks for the rewrite of src/fdw/modify/kernel.rs.
use parquet_azure_fdw.Prelude.{
  ℕ, zero, suc, ◌+◌, ◌≡◌, refl, sym, ap, ap₂, arith, Bool, true, false, List, [], ◌∷◌, leb, length,
  contains_key, map, All, Bool-cases, inl, inr, keys, range, sort_unstable, is_empty, insert_sorted,
}
use parquet_azure_fdw.Modify.Kernel.{clear_deleted, append_n, kept_values}

pub All-bound : (P Q : ℕ → Type 0) (ks : List ℕ) → ((k : ℕ) → P k → Q k) → All P ks → All Q ks
All-bound P Q [] f h = tt
All-bound P Q (k ∷ ks) f (h, hs) = (f k h, All-bound P Q ks f hs)

pub All-insert_sorted :
    (P : ℕ → Type 0) (k : ℕ) (ks : List ℕ) → P k → All P ks → All P (insert_sorted k ks)
All-insert_sorted P k [] h hs = (h, tt)
All-insert_sorted P k (j ∷ ks) h (hj, hs) = elim (Bool-cases (leb k j)) [
  | inl e ↦ rw e (h, (hj, hs))
  | inr e ↦ rw e (hj, All-insert_sorted P k ks h hs)
]

pub All-sort_unstable : (P : ℕ → Type 0) (ks : List ℕ) → All P ks → All P (sort_unstable ks)
All-sort_unstable P [] hs = tt
All-sort_unstable P (k ∷ ks) (h, hs) =
    All-insert_sorted P k (sort_unstable ks) h (All-sort_unstable P ks hs)

pub sort_empty :
    (k : ℕ) (ks : List ℕ) → is_empty ks ≡ true → contains_key k (sort_unstable ks) ≡ false
sort_empty k [] h = refl
sort_empty k (j ∷ ks) h = cc

pub no_hits {ℓ} :
    {A : Type ℓ} (base n : ℕ) (updates : List (ℕ × A)) (k : ℕ)
    → is_empty updates ≡ true
    → contains_key k (sort_unstable (range base (base + n) (keys updates))) ≡ false
no_hits base n [] k h = refl
no_hits base n (u ∷ updates) k h = cc

pub kept_values-append_n {ℓ} :
    {A : Type ℓ} (n : ℕ) (xs : List A) → length xs ≡ n → kept_values (append_n n) xs ≡ xs
kept_values-append_n zero [] h = refl
kept_values-append_n (suc n) (x ∷ xs) h =
    ap (λ ys. x ∷ ys) (kept_values-append_n n xs (omega (arith, h)))
kept_values-append_n zero (x ∷ xs) h = absurd (omega (arith, h))
kept_values-append_n (suc n) [] h = absurd (omega (arith, h))

pub map-map {ℓ} :
    {A B C : Type ℓ} (f : B → C) (g : A → B) (xs : List A)
    → map (λ x. f (g x)) xs ≡ map f (map g xs)
map-map f g [] = refl
map-map f g (x ∷ xs) = ap (λ ys. f (g x) ∷ ys) (map-map f g xs)

pub kept_every {ℓ} :
    {A : Type ℓ} (n : ℕ) (vss : List (List A))
    → All (λ vs. length vs ≡ n) vss
    → vss ≡ map (kept_values (append_n n)) vss
kept_every n [] h = refl
kept_every n (vs ∷ vss) (h, hs) =
    ap₂ (λ v rest. v ∷ rest) (sym (kept_values-append_n n vs h)) (kept_every n vss hs)

pub clear_none :
    (base : ℕ) (deleted : List ℕ) (bits : List Bool)
    → is_empty deleted ≡ true
    → clear_deleted base deleted bits ≡ bits
unfolding clear_deleted
clear_none base [] bits h = refl
clear_none base (d ∷ ds) bits h = cc

pub All-mapped {ℓ κ} :
    {A : Type ℓ} {B : Type κ} (P : B → Type 0) (f : A → B) (xs : List A)
    → All (λ x. P (f x)) xs
    → All P (map f xs)
All-mapped P f [] h = tt
All-mapped P f (x ∷ xs) (h, hs) = (h, All-mapped P f xs hs)

pub head_eq {ℓ} : {A : Type ℓ} {x y : A} {xs ys : List A} → (x ∷ xs) ≡ (y ∷ ys) → x ≡ y
head_eq e = cc

pub tail_eq {ℓ} : {A : Type ℓ} {x y : A} {xs ys : List A} → (x ∷ xs) ≡ (y ∷ ys) → xs ≡ ys
tail_eq e = cc

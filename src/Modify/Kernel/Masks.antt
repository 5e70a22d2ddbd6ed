-- ===== src/Modify/Kernel/Masks.antt =====
-- The rows that the rewrite of src/fdw/modify/kernel.rs drops: the mask of a batch, bit by bit.
use parquet_azure_fdw.Prelude.{
  ℕ, zero, suc, ◌+◌, ◌-◌, ◌≤◌, ◌<◌, ◌≡◌, refl, ap, ap₂, ◌∙◌, arith, Bool, true, not, ◌&&◌, List, [],
  ◌∷◌, ◌==◌, length, All, contains_key,
}
use parquet_azure_fdw.Modify.Kernel.{clear_bit, append_n, clear_deleted}

-- The bits of the `n` rows from `row` on, by a test of rows.
abbrev pub mask_of : (ℕ → Bool) → ℕ → ℕ → List Bool
mask_of keep row zero = []
mask_of keep row (suc n) = keep row ∷ mask_of keep (suc row) n

-- Tests that agree on the rows concerned make the same mask.
pub mask_of-ext :
    (f g : ℕ → Bool) (row n : ℕ)
    → ((k : ℕ) → row ≤ k → k < row + n → f k ≡ g k)
    → mask_of f row n ≡ mask_of g row n
mask_of-ext f g row zero h = refl
mask_of-ext f g row (suc n) h = rw (h row (omega arith) (omega arith)) (
    ap (λ m. g row ∷ m) (mask_of-ext f g (suc row) n λ k low high. h k (omega arith) (omega arith)))

pub length-mask_of : (f : ℕ → Bool) (row n : ℕ) → length (mask_of f row n) ≡ n
length-mask_of f row zero = refl
length-mask_of f row (suc n) = ap suc (length-mask_of f (suc row) n)

append_n-mask_of : (row n : ℕ) → append_n n ≡ mask_of (λ k. true) row n
append_n-mask_of row zero = refl
append_n-mask_of row (suc n) = ap (λ m. true ∷ m) (append_n-mask_of (suc row) n)

clear_bit-mask_of :
    (f : ℕ → Bool) (i row n : ℕ)
    → clear_bit i (mask_of f row n) ≡ mask_of (λ k. f k && not (row + i == k)) row n
clear_bit-mask_of f zero row zero = refl
clear_bit-mask_of f (suc i) row zero = refl
clear_bit-mask_of f zero row (suc n) =
    ap₂ (λ bit m. bit ∷ m) (ground arith) (mask_of-ext f _ (suc row) n λ k low high. ground arith)
clear_bit-mask_of f (suc i) row (suc n) =
    ap₂ (λ bit m. bit ∷ m) (ground arith)
      (clear_bit-mask_of f i (suc row) n ∙ mask_of-ext _ _ (suc row) n λ k low high. ground arith)

clear_deleted-mask_of :
    (row n : ℕ) (deleted : List ℕ) (f : ℕ → Bool)
    → All (λ k. (row ≤ k) × (k < row + n)) deleted
    → clear_deleted row deleted (mask_of f row n)
      ≡ mask_of (λ k. f k && not (contains_key k deleted)) row n
unfolding clear_deleted
clear_deleted-mask_of row n [] f h = mask_of-ext f _ row n λ k low high. ground arith
clear_deleted-mask_of row n (d ∷ ds) f (hd, h) =
    rw (clear_bit-mask_of f (d - row) row n)
      (clear_deleted-mask_of row n ds _ h ∙ mask_of-ext _ _ row n λ k low high. ground arith)

-- The mask that the loop leaves marks the rows of the batch that are not among the deleted.
pub clear_deleted-append_n :
    (row n : ℕ) (deleted : List ℕ)
    → All (λ k. (row ≤ k) × (k < row + n)) deleted
    → clear_deleted row deleted (append_n n) ≡ mask_of (λ k. not (contains_key k deleted)) row n
clear_deleted-append_n row n deleted h =
    rw (append_n-mask_of row n) (clear_deleted-mask_of row n deleted (λ k. true) h)

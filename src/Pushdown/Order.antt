-- ===== src/Pushdown/Order.antt =====
-- The comparisons of literals with statistics: Rust's `PartialOrd` of the integers, of byte strings
-- and of the Booleans, with the laws of a total order.
use parquet_azure_fdw.Prelude.{
  ℕ, Bool, true, false, not, ◌&&◌, ◌||◌, [], ◌∷◌, Bytes, ltb, leb, ◌==◌, ◌≡◌, refl, arith,
}

-- Machine integers of any width.
pub data ℤ : Type 0 where
  pos negsuc : ℕ → ℤ

pub record PartialOrd (T : Type 0) : Type 0 where
  pub lt : T → T → Bool
  pub le : T → T → Bool
  pub eq : T → T → Bool

pub record IsTotal {T : Type 0} (o : PartialOrd T) : Type 0 where
  pub not_lt : (a b : T) → o.lt a b ≡ not (o.le b a)
  pub le_trans : (a b c : T) → o.le a b ≡ true → o.le b c ≡ true → o.le a c ≡ true
  pub le_total : (a b : T) → (o.le a b || o.le b a) ≡ true
  pub eq_le : (a b : T) → o.eq a b ≡ (o.le a b && o.le b a)

abbrev pub int_le : ℤ → ℤ → Bool
int_le (pos a) (pos b) = leb a b
int_le (pos a) (negsuc b) = false
int_le (negsuc a) (pos b) = true
int_le (negsuc a) (negsuc b) = leb b a

-- `<` and `==` of a total order, from `<=`
abbrev pub from_le : {T : Type 0} → (T → T → Bool) → PartialOrd T
from_le le = record { lt = λ a b. not (le b a); le = le; eq = λ a b. le a b && le b a }

abbrev pub int_ord : PartialOrd ℤ
int_ord = from_le int_le

-- Bytes compare lexicographically.
abbrev pub bytes_le : Bytes → Bytes → Bool
bytes_le [] b = true
bytes_le (x ∷ a) [] = false
bytes_le (x ∷ a) (y ∷ b) = ltb x y || (x == y && bytes_le a b)

abbrev pub bytes_ord : PartialOrd Bytes
bytes_ord = from_le bytes_le

pub int_le_trans : (a b c : ℤ) → int_le a b ≡ true → int_le b c ≡ true → int_le a c ≡ true
int_le_trans (pos a) (pos b) (pos c) h k = ground arith
int_le_trans (pos a) (pos b) (negsuc c) h k = ground arith
int_le_trans (pos a) (negsuc b) c h k = ground arith
int_le_trans (negsuc a) (pos b) (pos c) h k = ground arith
int_le_trans (negsuc a) (pos b) (negsuc c) h k = ground arith
int_le_trans (negsuc a) (negsuc b) (pos c) h k = ground arith
int_le_trans (negsuc a) (negsuc b) (negsuc c) h k = ground arith

int_le_total : (a b : ℤ) → (int_le a b || int_le b a) ≡ true
int_le_total (pos a) (pos b) = ground arith
int_le_total (pos a) (negsuc b) = refl
int_le_total (negsuc a) (pos b) = refl
int_le_total (negsuc a) (negsuc b) = ground arith

pub int_ord-IsTotal : IsTotal int_ord
int_ord-IsTotal = record {
  not_lt = λ a b. refl;
  le_trans = int_le_trans;
  le_total = int_le_total;
  eq_le = λ a b. refl;
}

bytes_le_trans : (a b c : Bytes) → bytes_le a b ≡ true → bytes_le b c ≡ true → bytes_le a c ≡ true
bytes_le_trans [] b c h k = refl
bytes_le_trans (x ∷ a) [] c h k = ground arith
bytes_le_trans (x ∷ a) (y ∷ b) [] h k = ground arith
bytes_le_trans (x ∷ a) (y ∷ b) (z ∷ c) h k = ground (arith, bytes_le_trans a b c)

bytes_le_total : (a b : Bytes) → (bytes_le a b || bytes_le b a) ≡ true
bytes_le_total [] b = refl
bytes_le_total (x ∷ a) [] = refl
bytes_le_total (x ∷ a) (y ∷ b) = ground (arith, bytes_le_total a b)

pub bytes_ord-IsTotal : IsTotal bytes_ord
bytes_ord-IsTotal = record {
  not_lt = λ a b. refl;
  le_trans = bytes_le_trans;
  le_total = bytes_le_total;
  eq_le = λ a b. refl;
}

-- ===== src/Prelude/Text.antt =====
-- A Rust `String` or `&str` is the list of its UTF-8 bytes; `codes` writes an ASCII one down.
use Prim.Native.Nat.{ℕ, ◌+◌}
use Prim.Native.Char.{code}
use Prim.Native.String.{String}
use mathlib.Core.Path.{◌≡◌, refl}
use mathlib.Core.Logic.{◌↔◌}
use mathlib.Core.Bool.{Bool, true, false, ◌&&◌, ◌||◌}
use mathlib.Core.Option
use mathlib.Core.Option.{Option, none, some}
use mathlib.Core.List.{List, [], ◌∷◌, ◌++◌}
use native.Mathlib.Omega.{arith}
use parquet_azure_fdw.Prelude.Tests.{◌==◌, leb, if◌then◌else◌}

abbrev pub Bytes : Type 0
Bytes = List ℕ

abbrev pub codes : String → Bytes
codes String.[] = []
codes (String.◌∷◌ c s) = code c ∷ codes s

-- `a == b` of two strings
abbrev pub bytes_eq : Bytes → Bytes → Bool
bytes_eq [] [] = true
bytes_eq (a ∷ as') (b ∷ bs) = a == b && bytes_eq as' bs
bytes_eq _ _ = false

pub bytes_eq→eq : (a b : Bytes) → bytes_eq a b ≡ true → a ≡ b
bytes_eq→eq [] [] h = refl
bytes_eq→eq (x ∷ a) (y ∷ b) h = ground (arith, bytes_eq→eq a b)
bytes_eq→eq [] (y ∷ b) h = ground arith
bytes_eq→eq (x ∷ a) [] h = ground arith

pub bytes_eq_refl : (a : Bytes) → bytes_eq a a ≡ true
bytes_eq_refl [] = refl
bytes_eq_refl (x ∷ a) = ground (arith, bytes_eq_refl a)

pub bytes_eq_iff : (a b : Bytes) → (bytes_eq a b ≡ true) ↔ (a ≡ b)
bytes_eq_iff a b = (bytes_eq→eq a b, λ e. rw e (bytes_eq_refl b))

-- `u8::to_ascii_lowercase`
abbrev pub lower : ℕ → ℕ
lower c = if leb b'A' c && leb c b'Z' then c + 32 else c

abbrev pub to_ascii_lowercase : Bytes → Bytes
to_ascii_lowercase [] = []
to_ascii_lowercase (c ∷ s) = lower c ∷ to_ascii_lowercase s

-- `str::eq_ignore_ascii_case`
abbrev pub eq_ignore_ascii_case : Bytes → Bytes → Bool
eq_ignore_ascii_case a b = bytes_eq (to_ascii_lowercase a) (to_ascii_lowercase b)

-- `s.contains(c)` for an ASCII character
abbrev pub contains : Bytes → ℕ → Bool
contains [] c = false
contains (x ∷ s) c = x == c || contains s c

-- `s.starts_with(p)`
abbrev pub starts_with : Bytes → Bytes → Bool
starts_with s [] = true
starts_with [] (c ∷ p) = false
starts_with (x ∷ s) (c ∷ p) = x == c && starts_with s p

-- `s.contains(p)` for a text `p`
abbrev pub contains_str : Bytes → Bytes → Bool
contains_str [] p = starts_with [] p
contains_str (x ∷ s) p = starts_with (x ∷ s) p || contains_str s p

-- `s.ends_with(c)` for an ASCII character
abbrev pub ends_with : Bytes → ℕ → Bool
ends_with [] c = false
ends_with (x ∷ []) c = x == c
ends_with (x ∷ y ∷ s) c = ends_with (y ∷ s) c

-- puts `c` in front of the first segment
abbrev pub cons_segment : ℕ → List Bytes → List Bytes
cons_segment c [] = (c ∷ []) ∷ []
cons_segment c (s ∷ rest) = (c ∷ s) ∷ rest

-- `s.split(c)`: never empty
abbrev pub split : Bytes → ℕ → List Bytes
split [] c = [] ∷ []
split (x ∷ s) c = if x == c then [] ∷ split s c else cons_segment x (split s c)

-- `s.split_once(c)`
abbrev pub split_once : Bytes → ℕ → Option (Bytes × Bytes)
split_once [] c = none
split_once (x ∷ s) c =
    if x == c then some ([], s) else Option.map (λ p. (x ∷ p.0, p.1)) (split_once s c)

abbrev pub is_empty {ℓ} : {A : Type ℓ} → List A → Bool
is_empty [] = true
is_empty (x ∷ s) = false

pub contains-append : (s t : Bytes) (c : ℕ) → contains (s ++ t) c ≡ (contains s c || contains t c)
contains-append [] t c = refl
contains-append (x ∷ s) t c = ground (arith, contains-append s t c)

-- The text before the separator has none.
pub split_once-append :
    (k v : Bytes) (c : ℕ) → contains k c ≡ false → split_once (k ++ c ∷ v) c ≡ some (k, v)
split_once-append [] v c h = ground arith
split_once-append (x ∷ k) v c h = ground (arith, split_once-append k v c)

pub split_once-none : (s : Bytes) (c : ℕ) → contains s c ≡ false → split_once s c ≡ none
split_once-none [] c h = refl
split_once-none (x ∷ s) c h = ground (arith, split_once-none s c)

-- A text with no separator is one segment, and the segments of a joined text are those of its parts.
pub split-one : (s : Bytes) (c : ℕ) → contains s c ≡ false → split s c ≡ s ∷ []
split-one [] c h = refl
split-one (x ∷ s) c h = ground (arith, split-one s c)

cons_segment-append :
    (x : ℕ) (s : Bytes) (c : ℕ) (ys : List Bytes)
    → cons_segment x (split s c ++ ys) ≡ cons_segment x (split s c) ++ ys
cons_segment-append x [] c ys = refl
cons_segment-append x (y ∷ s) c ys = ground (arith, cons_segment-append y s c ys)

pub split-append : (s t : Bytes) (c : ℕ) → split (s ++ c ∷ t) c ≡ split s c ++ split t c
split-append [] t c = ground arith
split-append (x ∷ s) t c = ground (arith, split-append s t c, cons_segment-append x s c (split t c))

-- ===== src/Prelude/Maps.antt =====
-- The standard library's maps and sets with numbers for keys, and its sorting. A map lists each key
-- once; the source never depends on the order in which it does.
use Prim.Native.Nat.{ℕ, suc, ◌≤◌, ◌<◌}
use mathlib.Core.Path.{◌≡◌, refl}
use mathlib.Core.Logic.{inl, inr}
use mathlib.Core.Bool.{Bool, false, ◌||◌, ◌&&◌}
use mathlib.Core.List.{List, [], ◌∷◌, map}
use mathlib.Core.Option.{Option, none, some}
use native.Mathlib.Omega.{arith}
use parquet_azure_fdw.Prelude.Tests.{ltb, leb, ◌==◌, if◌then◌else◌, Bool-cases}
use parquet_azure_fdw.Prelude.Lists.{All}

module _ {ℓ} {A : Type ℓ} where
  abbrev pub lookup : ℕ → List (ℕ × A) → Option A
  lookup k [] = none
  lookup k ((j, v) ∷ rest) = if j == k then some v else lookup k rest

  -- `HashMap::insert`
  abbrev pub insert : ℕ → A → List (ℕ × A) → List (ℕ × A)
  insert k v [] = (k, v) ∷ []
  insert k v ((j, w) ∷ rest) =
      let others = insert k v rest in if j == k then (k, v) ∷ rest else (j, w) ∷ others

  abbrev pub keys : List (ℕ × A) → List ℕ
  keys = map (λ entry. entry.0)

abbrev pub contains_key : ℕ → List ℕ → Bool
contains_key k [] = false
contains_key k (j ∷ rest) = j == k || contains_key k rest

-- The elements from `low` to before `high`, in the order of the list.
abbrev pub range : ℕ → ℕ → List ℕ → List ℕ
range low high [] = []
range low high (k ∷ rest) =
    let others = range low high rest in if leb low k && ltb k high then k ∷ others else others

abbrev pub insert_sorted : ℕ → List ℕ → List ℕ
insert_sorted k [] = k ∷ []
insert_sorted k (j ∷ rest) =
    let others = insert_sorted k rest in if leb k j then k ∷ j ∷ rest else j ∷ others

abbrev pub sort_unstable : List ℕ → List ℕ
sort_unstable [] = []
sort_unstable (k ∷ rest) = insert_sorted k (sort_unstable rest)

-- No key is listed twice.
abbrev pub Once : List ℕ → Type 0
Once [] = Unit
Once (k ∷ rest) = (contains_key k rest ≡ false) × Once rest

-- Each element is at least `low` and below the ones behind it.
abbrev pub Ascending : ℕ → List ℕ → Type 0
Ascending low [] = Unit
Ascending low (k ∷ rest) = (low ≤ k) × Ascending (suc k) rest

module _ {ℓ} {A : Type ℓ} where
  pub lookup-insert :
      (k j : ℕ) (v : A) (m : List (ℕ × A))
      → lookup j (insert k v m) ≡ (if k == j then some v else lookup j m)
  lookup-insert k j v [] = refl
  lookup-insert k j v ((i, w) ∷ rest) = ground (arith, lookup-insert k j v rest)

  contains_key-insert :
      (k j : ℕ) (v : A) (m : List (ℕ × A))
      → contains_key j (keys (insert k v m)) ≡ (k == j || contains_key j (keys m))
  contains_key-insert k j v [] = refl
  contains_key-insert k j v ((i, w) ∷ rest) = ground (arith, contains_key-insert k j v rest)

  pub Once-insert : (k : ℕ) (v : A) (m : List (ℕ × A)) → Once (keys m) → Once (keys (insert k v m))
  Once-insert k v [] h = (refl, tt)
  Once-insert k v ((i, w) ∷ rest) (fresh, h) = elim (Bool-cases (i == k)) [
    | inl e ↦ rw e (ground (arith, fresh), h)
    | inr e ↦ rw e (ground (arith, contains_key-insert k i v rest), Once-insert k v rest h)
  ]

  pub lookup-keys : (k : ℕ) (m : List (ℕ × A)) → contains_key k (keys m) ≡ false → lookup k m ≡ none
  lookup-keys k [] h = refl
  lookup-keys k ((i, w) ∷ rest) h = ground (arith, lookup-keys k rest)

pub contains_key-range :
    (low high k : ℕ) (ks : List ℕ)
    → contains_key k (range low high ks) ≡ (leb low k && ltb k high && contains_key k ks)
contains_key-range low high k [] = ground arith
contains_key-range low high k (j ∷ ks) = ground (arith, contains_key-range low high k ks)

pub Once-range : (low high : ℕ) (ks : List ℕ) → Once ks → Once (range low high ks)
Once-range low high [] h = tt
Once-range low high (j ∷ ks) (fresh, h) = elim (Bool-cases (leb low j && ltb j high)) [
  | inl e ↦ rw e (ground (arith, contains_key-range low high j ks), Once-range low high ks h)
  | inr e ↦ rw e (Once-range low high ks h)
]

contains_key-insert_sorted :
    (k j : ℕ) (ks : List ℕ) → contains_key j (insert_sorted k ks) ≡ (k == j || contains_key j ks)
contains_key-insert_sorted k j [] = refl
contains_key-insert_sorted k j (i ∷ ks) = ground (arith, contains_key-insert_sorted k j ks)

pub contains_key-sort_unstable :
    (k : ℕ) (ks : List ℕ) → contains_key k (sort_unstable ks) ≡ contains_key k ks
contains_key-sort_unstable k [] = refl
contains_key-sort_unstable k (j ∷ ks) =
    ground
      (arith, contains_key-insert_sorted j k (sort_unstable ks), contains_key-sort_unstable k ks)

Ascending-lower : (low low' : ℕ) (ks : List ℕ) → low' ≤ low → Ascending low ks → Ascending low' ks
Ascending-lower low low' [] h a = tt
Ascending-lower low low' (k ∷ ks) h (a, rest) = (omega arith, rest)

Ascending-insert_sorted :
    (low k : ℕ) (ks : List ℕ)
    → low ≤ k
    → contains_key k ks ≡ false
    → Ascending low ks
    → Ascending low (insert_sorted k ks)
Ascending-insert_sorted low k [] h fresh a = (h, tt)
Ascending-insert_sorted low k (j ∷ ks) h fresh (a, rest) = elim (Bool-cases (leb k j)) [
  | inl e ↦ rw e (h, (ground arith, rest))
  | inr e ↦ rw e (a, Ascending-insert_sorted (suc j) k ks (ground arith) (ground arith) rest)
]

-- Distinct elements in order, each at least `low`.
pub Ascending-sort_unstable :
    (low : ℕ) (ks : List ℕ) → Once ks → All (λ k. low ≤ k) ks → Ascending low (sort_unstable ks)
Ascending-sort_unstable low [] h a = tt
Ascending-sort_unstable low (k ∷ ks) (fresh, h) (a, rest) =
    Ascending-insert_sorted low k (sort_unstable ks) a
      (ground (arith, contains_key-sort_unstable k ks)) (Ascending-sort_unstable low ks h rest)

pub All-range : (low high : ℕ) (ks : List ℕ) → All (λ k. (low ≤ k) × (k < high)) (range low high ks)
All-range low high [] = tt
All-range low high (j ∷ ks) = elim (Bool-cases (leb low j && ltb j high)) [
  | inl e ↦ rw e ((ground arith, ground arith), All-range low high ks)
  | inr e ↦ rw e (All-range low high ks)
]

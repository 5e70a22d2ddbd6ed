-- ===== src/Error/Exec.antt =====
-- Fallible calls that change a state: what was changed before an error stays changed.
use parquet_azure_fdw.Prelude.{◌≡◌, refl, ap}
use parquet_azure_fdw.Error.{FdwResult, ok, err, FdwError}

abbrev pub Exec {ℓ κ} : Type ℓ → Type κ → Type (ℓ ⊔ κ)
Exec S A = S → FdwResult A × S

module _ {ℓ κ} {S : Type ℓ} {A : Type κ} where
  abbrev pub pure : A → Exec S A
  pure value s = (ok value, s)

  abbrev pub lift : FdwResult A → Exec S A
  lift result s = (result, s)

  -- `let _ = ...`
  abbrev pub attempt : Exec S A → Exec S (Unit {0})
  attempt m s = let (result, after) = m s in (ok tt, after)

module _ {ℓ κ μ} {S : Type ℓ} {A : Type κ} {B : Type μ} where
  abbrev proceed : (A → Exec S B) → FdwResult A × S → FdwResult B × S
  proceed next (err problem, s) = (err problem, s)
  proceed next (ok value, s) = next value s

  unfoldable pub and_then : Exec S A → (A → Exec S B) → Exec S B
  and_then m next s = proceed next (m s)

  proceed-ok :
      (next : A → Exec S B) (first : FdwResult A × S) {last : B} {after : S}
      → proceed next first ≡ (ok last, after)
      → (value : A) × (between : S) × (first ≡ (ok value, between))
        × (next value between ≡ (ok last, after))
  proceed-ok next (err problem, s) done = cc
  proceed-ok next (ok value, s) done = (value, s, refl, done)

  -- What a chain that succeeds went through.
  pub and_then-ok :
      (m : Exec S A) (next : A → Exec S B) (s : S) {last : B} {after : S}
      → and_then m next s ≡ (ok last, after)
      → (value : A) × (between : S) × (m s ≡ (ok value, between))
        × (next value between ≡ (ok last, after))
  unfolding and_then
  and_then-ok m next s done = proceed-ok next (m s) done

  proceed-err :
      (next : A → Exec S B) (first : FdwResult A × S) (problem : FdwError)
      → first.0 ≡ err problem
      → proceed next first ≡ (err problem, first.1)
  proceed-err next (err p, s) problem e = let same : p ≡ problem = cc in ap (λ q. (err q, s)) same
  proceed-err next (ok value, s) problem e = cc

  -- The first error ends a chain.
  pub and_then-err :
      (m : Exec S A) (next : A → Exec S B) (s : S) (problem : FdwError)
      → (m s).0 ≡ err problem
      → and_then m next s ≡ (err problem, (m s).1)
  unfolding and_then
  and_then-err m next s problem e = proceed-err next (m s) problem e

-- Does the call keep the property of states, however it ends?
pub record Keeps {ℓ κ} {S : Type ℓ} {A : Type κ} (P : S → Type 0) (m : Exec S A) : Type ℓ where
  pub kept : (s : S) → P s → P (m s).1

module _ {ℓ κ μ} {S : Type ℓ} {A : Type κ} {B : Type μ} (P : S → Type 0) where
  proceed-Keeps :
      (next : A → Exec S B) (first : FdwResult A × S)
      → ((value : A) → Keeps P (next value))
      → P first.1
      → P (proceed next first).1
  proceed-Keeps next (err problem, s) h holds = holds
  proceed-Keeps next (ok value, s) h holds = (h value).kept s holds

  pub Keeps-and_then :
      (m : Exec S A) (next : A → Exec S B)
      → Keeps P m
      → ((value : A) → Keeps P (next value))
      → Keeps P (and_then m next)
  unfolding and_then
  Keeps-and_then m next first h = record {
    kept = λ s holds. proceed-Keeps next (m s) h (first.kept s holds);
  }

  keeps_cases :
      (m : Exec S A) (next : A → Exec S B) (s : S) (r : FdwResult A × S)
      → m s ≡ r
      → P r.1
      → ((value : A) (between : S)
          → m s ≡ (ok value, between)
          → P between
          → P (next value between).1)
      → P (proceed next r).1
  keeps_cases m next s (err problem, after) e holds h = holds
  keeps_cases m next s (ok value, after) e holds h = h value after e holds

  -- The second call may rely on the first's result.
  pub and_then_keeps :
      (m : Exec S A) (next : A → Exec S B) (s : S)
      → P (m s).1
      → ((value : A) (between : S)
          → m s ≡ (ok value, between)
          → P between
          → P (next value between).1)
      → P (and_then m next s).1
  unfolding and_then
  and_then_keeps m next s first h = keeps_cases m next s (m s) refl first h

-- ===== src/Insert/Walk.antt =====
-- How the names that `compute_target_name` builds are walked by `partition_values_from_path`.
use parquet_azure_fdw.Prelude.{
  ℕ, subst, ◌≡◌, refl, sym, ap, ◌∙◌, true, false, [], ◌∷◌, ◌++◌, Bytes, contains, split, split-one,
  arith, ends_with, append_assoc, Bool-cases, ==_iff, inl, inr,
}
use parquet_azure_fdw.Error.{FdwResult, ok, err, ◌>>=◌}
use parquet_azure_fdw.Partition.Path.{Declared, Found, add_segment, add_segments}
use parquet_azure_fdw.Partition.Path.Laws.{add_segments-one, add_segment-plain, walk-join}
use parquet_azure_fdw.Insert.Target.{trim_end, push_segment}

-- The pairs found so far, after walking the whole path.
abbrev pub walk : Declared → Bytes → FdwResult Found
walk d p = add_segments d (split p b'/') []

walk-one : (d : Declared) (s : Bytes) → contains s b'/' ≡ false → walk d s ≡ add_segment d [] s
walk-one d s h = rw (split-one s b'/' h) (add_segments-one d s [])

ends_with-last : (p : Bytes) (c : ℕ) → ends_with p c ≡ true → (q : Bytes) × (p ≡ q ++ c ∷ [])
ends_with-last [] c h = ground arith
ends_with-last (x ∷ []) c h = ([], ground (arith, ==_iff x c))
ends_with-last (x ∷ y ∷ s) c h =
    let (q, e) = ends_with-last (y ∷ s) c h in (x ∷ q, ap (λ r. x ∷ r) e)

>>=-ok_same {ℓ} : {A : Type ℓ} (m : FdwResult A) → (m >>= ok) ≡ m
>>=-ok_same (ok a) = refl
>>=-ok_same (err e) = refl

walk-slash : (d : Declared) (q : Bytes) → walk d (q ++ b'/' ∷ []) ≡ walk d q
walk-slash d q =
    walk-join d q [] [] refl
    ∙ (λ i. walk d q >>= λ g. add_segment-plain d g [] refl i)
    ∙ >>=-ok_same (walk d q)

pub walk-join_ok :
    (d : Declared) (p s : Bytes) (f : Found)
    → contains s b'/' ≡ false
    → walk d p ≡ ok f
    → walk d (p ++ b'/' ∷ s) ≡ add_segment d f s
walk-join_ok d p s f h walked = walk-join d p s [] h ∙ rw walked refl

-- A segment pushed onto a path is walked last.
pub walk-push_segment :
    (d : Declared) (p s : Bytes) (f : Found)
    → contains s b'/' ≡ false
    → walk d p ≡ ok f
    → walk d (push_segment p s) ≡ add_segment d f s
unfolding push_segment add_segments add_segment
walk-push_segment d [] s f h walked =
    let none_found : [] ≡ f = ground (arith, walked) in rw (← none_found) (walk-one d s h)
walk-push_segment d (x ∷ p) s f h walked = elim (Bool-cases (ends_with (x ∷ p) b'/')) [
  | inl e ↦
      let (q, split_at) = ends_with-last (x ∷ p) b'/' e in
      let walked' : walk d q ≡ ok f =
        sym (walk-slash d q) ∙ subst (λ r. walk d r ≡ ok f) split_at walked in
      rw e (
        ap (λ r. walk d (r ++ s)) split_at
        ∙ ap (walk d) (append_assoc q (b'/' ∷ []) s)
        ∙ walk-join_ok d q s f h walked')
  | inr e ↦ rw e (walk-join_ok d (x ∷ p) s f h walked)
]

pub trim_end-stays : (p : Bytes) → ends_with p b'/' ≡ false → trim_end p ≡ p
unfolding trim_end
trim_end-stays [] h = refl
trim_end-stays (x ∷ []) h = ground arith
trim_end-stays (x ∷ y ∷ s) h = ground (arith, trim_end-stays (y ∷ s))

pub ends_with-append :
    (p : Bytes) (y : ℕ) (s : Bytes) (c : ℕ) → ends_with (p ++ y ∷ s) c ≡ ends_with (y ∷ s) c
ends_with-append [] y s c = refl
ends_with-append (x ∷ []) y s c = refl
ends_with-append (x ∷ z ∷ p) y s c = ends_with-append (z ∷ p) y s c

pub ends_with-contains : (s : Bytes) (c : ℕ) → contains s c ≡ false → ends_with s c ≡ false
ends_with-contains [] c h = refl
ends_with-contains (x ∷ []) c h = ground arith
ends_with-contains (x ∷ y ∷ s) c h = ground (arith, ends_with-contains (y ∷ s) c)

-- ===== src/Pushdown/Like.antt =====
-- A LIKE with a literal prefix, as src/fdw/pushdown.rs turns it into a range.
use parquet_azure_fdw.Prelude.{
  ==_iff, ◌+◌, ◌<◌, ◌≡◌, refl, ap, ◌∙◌, arith, Bool, false, not, ◌&&◌, none, some, [], ◌∷◌, ◌++◌,
  Bytes, starts_with, All, Option-cases, inl, inr, contains,
}
use parquet_azure_fdw.Pushdown.Order.{bytes_le}
use parquet_azure_fdw.Pushdown.Expr.{
  raise_last, next_lex_upper, before_percent, like_prefix_literal,
}

-- A prefix of bytes 0xff only: what is not below it starts with it.
raise_last-none :
    (p s : Bytes) → All (λ x. x < 256) s → raise_last p ≡ none → starts_with s p ≡ bytes_le p s
unfolding raise_last
raise_last-none [] s h e = ground arith
raise_last-none (c ∷ p) [] h e = refl
raise_last-none (c ∷ p) (x ∷ s) (hx, h) e = elim (Option-cases (raise_last p)) [
  | inl none_up ↦ ground (arith, raise_last-none p s h none_up)
  | inr (up, some_up) ↦ ground (arith, some_up)
]

raise_last-range :
    (p s up : Bytes)
    → All (λ x. x < 256) s
    → raise_last p ≡ some up
    → starts_with s p ≡ (bytes_le p s && not (bytes_le up s))
unfolding raise_last
raise_last-range [] s up h e = ground arith
raise_last-range (c ∷ p) [] up h e = ground arith
raise_last-range (c ∷ p) (x ∷ s) up (hx, h) e = elim (Option-cases (raise_last p)) [
  | inl none_up ↦
      let shape : up ≡ (c + 1) ∷ [] = ground (arith, e, none_up) in
      rw shape (ground (arith, raise_last-none p s h none_up))
  | inr (up', some_up) ↦
      let shape : up ≡ c ∷ up' = ground (arith, e, some_up) in
      rw shape (ground (arith, raise_last-range p s up' h some_up))
]

before_percent-append : (pat p : Bytes) → before_percent pat ≡ some p → pat ≡ p ++ b'%' ∷ []
unfolding before_percent
before_percent-append [] p h = ground arith
before_percent-append (c ∷ []) p h = ground (arith, ==_iff c b'%')
before_percent-append (c ∷ d ∷ s) p h = elim (Option-cases (before_percent (d ∷ s))) [
  | inl e ↦ ground (arith, e)
  | inr (q, e) ↦
      let shape : p ≡ c ∷ q = ground (arith, e, h) in
      rw shape (ap (λ r. c ∷ r) (before_percent-append (d ∷ s) q e))
]

-- A LIKE pattern that is taken for a prefix is a text with none of the wildcards and no escape,
-- followed by one `%`; and when the prefix has an upper bound, a byte string starts with the prefix
-- exactly when it is at or above the prefix and below the bound.
pub like_prefix_literal_range :
    (is_utf8 : Bytes → Bool) (pat prefix upper s : Bytes)
    → like_prefix_literal pat ≡ some prefix
    → next_lex_upper is_utf8 prefix ≡ some upper
    → All (λ x. x < 256) s
    → (pat ≡ prefix ++ b'%' ∷ [])
      × (contains prefix b'%' ≡ false)
      × (contains prefix b'_' ≡ false)
      × (contains prefix 92 ≡ false)
      × (starts_with s prefix ≡ (bytes_le prefix s && not (bytes_le upper s)))
unfolding like_prefix_literal next_lex_upper
like_prefix_literal_range is_utf8 pat prefix upper s h k bytes =
    elim (Option-cases (before_percent pat)) [
      | inl e ↦ ground (arith, e)
      | inr (p, e) ↦
          let same : p ≡ prefix = ground (arith, e, h) in
          let raised : raise_last prefix ≡ some upper = ground (arith, k) in
          (
            before_percent-append pat prefix (e ∙ ap some same),
            ground (arith, e, h, same),
            ground (arith, e, h, same),
            ground (arith, e, h, same),
            raise_last-range prefix s upper bytes raised,
          )
    ]

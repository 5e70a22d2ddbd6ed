-- ===== src/ImportSchema/Quoting.antt =====
-- The quoting of src/fdw/import_schema.rs against the reading of quoted text in SQL.
use parquet_azure_fdw.Prelude.{
  ℕ, ◌≡◌, arith, false, [], ◌∷◌, ◌++◌, append_assoc, Option, none, some, Bytes, ◌==◌, if◌then◌else◌,
  Bool-cases, inl, inr, ap, ◌∙◌,
}
use parquet_azure_fdw.ImportSchema.{double_quotes, quote_ident, quote_str}

-- SQL reads quoted text up to the first quote that is not doubled: the text, and what follows.
unfoldable pub read_quoted : ℕ → Bytes → Option (Bytes × Bytes)
read_quoted quote [] = none
read_quoted quote (c ∷ []) = if c == quote then some ([], []) else none
read_quoted quote (c ∷ d ∷ s) =
    let after = read_quoted quote s in
    let next = read_quoted quote (d ∷ s) in
    if c == quote
    then (if d == quote
        then elim after [ none ↦ none | some (text, rest) ↦ some (quote ∷ text, rest) ]
        else some ([], d ∷ s))
    else elim next [ none ↦ none | some (text, rest) ↦ some (c ∷ text, rest) ]

-- The text does not go on with the quote.
abbrev pub Closes : ℕ → Bytes → Type 0
Closes quote [] = Unit
Closes quote (c ∷ rest) = (c == quote) ≡ false

read_other :
    (quote c : ℕ) (s text rest : Bytes)
    → (c == quote) ≡ false
    → read_quoted quote s ≡ some (text, rest)
    → read_quoted quote (c ∷ s) ≡ some (c ∷ text, rest)
unfolding read_quoted
read_other quote c [] text rest e h = cc
read_other quote c (d ∷ s) text rest e h = ground (arith, e, h)

read_quoted-double_quotes :
    (quote : ℕ) (s rest : Bytes)
    → Closes quote rest
    → read_quoted quote (double_quotes quote s ++ quote ∷ rest) ≡ some (s, rest)
unfolding read_quoted double_quotes
read_quoted-double_quotes quote [] [] h = ground arith
read_quoted-double_quotes quote [] (c ∷ rest) h = ground (arith, h)
read_quoted-double_quotes quote (c ∷ s) rest h =
    let inner = read_quoted-double_quotes quote s rest h in
    elim (Bool-cases (c == quote)) [
      | inl e ↦ let same : quote ≡ c = ground (arith, e) in rw e (ground (arith, inner, same))
      | inr e ↦ rw e (read_other quote c (double_quotes quote s ++ quote ∷ rest) s rest e inner)
    ]

-- What stands at the start of a text between two quotes, and what follows it.
unfoldable pub unquote : ℕ → Bytes → Option (Bytes × Bytes)
unquote quote [] = none
unquote quote (c ∷ s) = let inner = read_quoted quote s in if c == quote then inner else none

-- A quoted identifier or literal is read back as the text it was made of, whatever quotes that has,
-- and what follows it is left; when what follows does not go on with the same quote.
pub unquote-quote_str :
    (s rest : Bytes)
    → Closes 34 rest
    → Closes 39 rest
    → (unquote 34 (quote_ident s ++ rest) ≡ some (s, rest))
      × (unquote 39 (quote_str s ++ rest) ≡ some (s, rest))
unfolding quote_ident quote_str unquote
unquote-quote_str s rest h k = (
  ap (read_quoted 34) (append_assoc (double_quotes 34 s) (34 ∷ []) rest)
      ∙ read_quoted-double_quotes 34 s rest h,
  ap (read_quoted 39) (append_assoc (double_quotes 39 s) (39 ∷ []) rest)
      ∙ read_quoted-double_quotes 39 s rest k,
)

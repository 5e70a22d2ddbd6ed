-- ===== src/Partition/Datum.antt =====
-- `parse_text_to_datum` of src/convert/arrow_to_pg.rs: the text of a partition value read as a datum
-- of the key's type. Rust's `str::parse` of an integer is written out; reading a date is chrono's.
use parquet_azure_fdw.Prelude.{
  ℕ, ◌+◌, ◌*◌, ◌-◌, ◌^◌, Bool, true, false, Option, none, some, [], ◌∷◌, Bytes, if◌then◌else◌, ltb,
  leb, ◌==◌, ◌&&◌,
}
use parquet_azure_fdw.Error.{FdwResult, ok, err, schema_mismatch}
use parquet_azure_fdw.Options.PartitionType.{PgPartitionType, int2, int4, int8, text, date}

-- The datums of partition columns; integers of them are never negative.
pub data Datum : Type 0 where
  int_datum : ℕ → Datum
  text_datum : Bytes → Datum
  date_datum : ℕ → Datum

-- One or more decimal digits; `acc` is the value of those before.
unfoldable pub parse_digits : Bytes → ℕ → Option ℕ
parse_digits [] acc = some acc
parse_digits (c ∷ s) acc =
    if leb b'0' c && leb c b'9' then parse_digits s (10 * acc + (c - b'0')) else none

-- `raw.parse::<iN>()` for a type with `bits` bits: the sign and the magnitude.
unfoldable pub parse_int : ℕ → Bytes → Option (Bool × ℕ)
unfolding parse_digits
parse_int bits [] = none
parse_int bits (c ∷ []) = elim (parse_digits (c ∷ []) 0) [ some v ↦ some (false, v) | none ↦ none ]
parse_int bits (c ∷ d ∷ s) =
    if c == b'-'
    then (elim (parse_digits (d ∷ s) 0) [
      | some v ↦ if leb v (2 ^ (bits - 1)) then some (true, v) else none
      | none ↦ none
    ])
    else (elim (parse_digits (if c == b'+' then d ∷ s else c ∷ d ∷ s) 0) [
      | some v ↦ if ltb v (2 ^ (bits - 1)) then some (false, v) else none
      | none ↦ none
    ])

unfoldable pub int_to_datum : ℕ → Bytes → FdwResult Datum
unfolding parse_int
int_to_datum bits raw = elim (parse_int bits raw) [
  | none ↦ err schema_mismatch
  | some (false, v) ↦ ok (int_datum v)
  -- `v < 0`
  | some (true, v) ↦ if v == 0 then ok (int_datum 0) else err schema_mismatch
]

-- `date_to_pg` is chrono's reading of `%Y-%m-%d` and pgrx's days since 2000-01-01.
module _ (date_to_pg : Bytes → FdwResult ℕ) where
  unfoldable pub parse_text_to_datum : PgPartitionType → Bytes → FdwResult Datum
  unfolding int_to_datum
  parse_text_to_datum int2 raw = int_to_datum 16 raw
  parse_text_to_datum int4 raw = int_to_datum 32 raw
  parse_text_to_datum int8 raw = int_to_datum 64 raw
  parse_text_to_datum text raw = ok (text_datum raw)
  parse_text_to_datum date raw = elim (date_to_pg raw) [
    | ok days ↦ ok (date_datum days)
    | err e ↦ err e
  ]

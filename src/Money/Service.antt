-- ===== src/Money/Service.antt =====
-- src/services/money.ts: the signed amounts of balance arithmetic.
use mergepay_api.Money.Amount
use mergepay_api.Common.{
  Bool, Result, Text, [], err, false, get_or, if◌then◌else◌, is_empty, length, ltb, magnitude,
  neg_ℕ, not, ok, pos, text_eq, throw_if, true, ℕ, ℤ, ◌*◌, ◌+◌, ◌==◌, ◌>>=◌, ◌>>◌, ◌∷◌,
}
use mergepay_api.Money.Decimal.{
  trim, is_raw_decimal, split_point, strip_leading_zeros, strip_trailing_zeros, read_digits,
}
use mergepay_api.Money.Amount.{
  stroops_per_unit, max_stroops, AmountRejectionReason, malformed, excess_precision, out_of_range,
  whitespace_padding, ValidatedAmount, MoneyError, rejected, unsupported_range, padded_frac,
  or_zero, join_point, validate_amount,
}

abbrev pub big_int_abs : ℤ → ℕ
big_int_abs z = magnitude z

-- `stroops < 0n` cannot hold of digits, so the test is left out of the chain.
unfoldable pub validate_unsigned_amount_allow_zero :
    Text → Result AmountRejectionReason ValidatedAmount
validate_unsigned_amount_allow_zero value = do
  let trimmed = trim value
  throw_if (not (text_eq trimmed value)) whitespace_padding
  throw_if (is_empty trimmed) malformed
  throw_if (not (is_raw_decimal trimmed)) malformed
  let whole_raw = get_or (split_point trimmed) 0 []
  let frac_raw = get_or (split_point trimmed) 1 []
  throw_if (ltb 7 (length frac_raw)) excess_precision
  let whole = or_zero (strip_leading_zeros whole_raw)
  let padded = padded_frac frac_raw
  let stroops = read_digits whole * stroops_per_unit + read_digits padded
  throw_if (ltb max_stroops stroops) out_of_range
  ok (record { decimal = join_point whole (strip_trailing_zeros padded); stroops = stroops })

-- The validation's error as the `Error` that its caller throws.
abbrev pub or_throw {ℓ} : {A : Type ℓ} → Result AmountRejectionReason A → Result MoneyError A
or_throw (ok a) = ok a
or_throw (err r) = err (rejected r)

unfoldable pub normalize_amount : Text → Result MoneyError Text
normalize_amount value = do v ← or_throw (validate_amount value); ok v.decimal

abbrev pub starts_with_minus : Text → Bool
starts_with_minus [] = false
starts_with_minus (c ∷ _) = c == b'-'

abbrev pub drop_minus : Text → Text
drop_minus [] = []
drop_minus (c ∷ s) = if c == b'-' then s else c ∷ s

unfoldable pub to_stroops : Text → Result MoneyError ℤ
to_stroops amount = do
  v ← or_throw (validate_unsigned_amount_allow_zero (drop_minus amount))
  ok (if starts_with_minus amount then neg_ℕ v.stroops else pos v.stroops)

-- `fromStroops` at a bigint, the one type that the balance code hands it.
unfoldable pub from_stroops : ℤ → Result MoneyError Text
from_stroops z = do
  throw_if (ltb max_stroops (big_int_abs z)) unsupported_range
  ok (Amount.from_stroops z)

unfoldable pub is_positive : Text → Bool
is_positive amount = elim (normalize_amount amount) [ ok _ ↦ true | err _ ↦ false ]

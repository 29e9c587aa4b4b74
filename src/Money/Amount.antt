-- ===== src/Money/Amount.antt =====
-- src/lib/money.ts, amounts: validation and the conversion between decimal strings and stroops.
use mergepay_api.Common.{
  Result, Text, [], all, err, get_or, if◌then◌else◌, is_empty, length, ltb, ltb_ℤ, magnitude, neg_ℕ,
  not, ok, pos, take, text_eq, throw_if, ℕ, ℤ, ◌%◌, ◌&&◌, ◌*◌, ◌++◌, ◌+ℤ◌, ◌+◌, ◌-ℤ◌, ◌/◌, ◌==◌,
  ◌>>=◌, ◌>>◌, ◌∷◌,
}
use mergepay_api.Money.Decimal.{
  trim, is_digit, is_raw_decimal, split_point, strip_leading_zeros, strip_trailing_zeros,
  read_digits, show_nat, pad_start,
}

abbrev pub stroops_per_unit : ℕ
stroops_per_unit = 10000000

abbrev pub max_stroops : ℕ
max_stroops = 9223372036854775807

pub data AmountRejectionReason : Type 0 where
  malformed zero_or_negative excess_precision out_of_range whitespace_padding :
      AmountRejectionReason

pub record ValidatedAmount : Type 0 where
  pub decimal : Text
  pub stroops : ℕ

-- The errors that the amount functions throw; a rejection carries its reason, not the message.
pub data MoneyError : Type 0 where
  rejected : AmountRejectionReason → MoneyError
  syntax_error negative_amount unsupported_range : MoneyError

abbrev pub zeros_7 : Text
zeros_7 = b'0' ∷ b'0' ∷ b'0' ∷ b'0' ∷ b'0' ∷ b'0' ∷ b'0' ∷ []

-- `(frac + "0000000").slice(0, 7)`
abbrev pub padded_frac : Text → Text
padded_frac frac = take 7 (frac ++ zeros_7)

abbrev pub or_zero : Text → Text
or_zero s = if is_empty s then b'0' ∷ [] else s

-- `frac ? whole + "." + frac : whole`
abbrev pub join_point : Text → Text → Text
join_point whole frac = if is_empty frac then whole else whole ++ b'.' ∷ frac

unfoldable pub validate_amount : Text → Result AmountRejectionReason ValidatedAmount
validate_amount value = do
  let trimmed = trim value
  throw_if (not (text_eq trimmed value)) whitespace_padding
  throw_if (is_empty trimmed) malformed
  throw_if (not (is_raw_decimal trimmed)) malformed
  let whole_raw = get_or (split_point trimmed) 0 []
  let frac_raw = get_or (split_point trimmed) 1 []
  throw_if (ltb 7 (length frac_raw)) excess_precision
  let whole = or_zero (strip_leading_zeros whole_raw)
  let padded = padded_frac frac_raw
  let stroops = read_digits whole * stroops_per_unit + read_digits padded
  throw_if (stroops == 0) zero_or_negative
  throw_if (ltb max_stroops stroops) out_of_range
  ok (record { decimal = join_point whole (strip_trailing_zeros padded); stroops = stroops })

-- `BigInt(s)` on what a canonical decimal is cut into: digits, with a sign in front at most. All
-- other strings are a SyntaxError here; hexadecimal and padded forms are outside the precondition.
unfoldable pub big_int : Text → Result MoneyError ℤ
big_int [] = ok (pos 0)
big_int (c ∷ s) =
    if c == b'-' && not (is_empty s) && all is_digit s
    then ok (neg_ℕ (read_digits s))
    else if all is_digit (c ∷ s)
    then ok (pos (read_digits (c ∷ s)))
    else err syntax_error

abbrev pub scale_units : ℤ → ℤ
scale_units (pos n) = pos (n * stroops_per_unit)
scale_units n = neg_ℕ (magnitude n * stroops_per_unit)

unfoldable pub to_stroops : Text → Result MoneyError ℤ
to_stroops amount = do
  whole ← big_int (get_or (split_point amount) 0 [])
  frac ← big_int (padded_frac (get_or (split_point amount) 1 []))
  ok (scale_units whole +ℤ frac)

abbrev pub sign_of : ℤ → Text
sign_of z = if ltb_ℤ z (pos 0) then b'-' ∷ [] else []

unfoldable pub from_stroops : ℤ → Text
from_stroops z =
    let whole = show_nat (magnitude z / stroops_per_unit) in
    let frac = strip_trailing_zeros (pad_start 7 (show_nat (magnitude z % stroops_per_unit))) in
    sign_of z ++ join_point whole frac

unfoldable pub stroops_to_stellar_amount : ℤ → Text
stroops_to_stellar_amount z =
    sign_of z
    ++ (show_nat (magnitude z / stroops_per_unit)
        ++ b'.' ∷ pad_start 7 (show_nat (magnitude z % stroops_per_unit)))

unfoldable pub compare_amounts : Text → Text → Result MoneyError ℤ
compare_amounts a b = do
  sa ← to_stroops a
  sb ← to_stroops b
  ok (if ltb_ℤ sa sb then neg_ℕ 1 else if ltb_ℤ sb sa then pos 1 else pos 0)

unfoldable pub add_amounts : Text → Text → Result MoneyError Text
add_amounts a b = do ok (from_stroops ((← to_stroops a) +ℤ (← to_stroops b)))

unfoldable pub subtract_amounts : Text → Text → Result MoneyError Text
subtract_amounts a b = do
  sa ← to_stroops a
  sb ← to_stroops b
  throw_if (ltb_ℤ (sa -ℤ sb) (pos 0)) negative_amount
  ok (from_stroops (sa -ℤ sb))

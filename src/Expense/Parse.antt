-- ===== src/Expense/Parse.antt =====
-- The parsing helpers of src/services/expense-calculation.ts, with the errors of the module. An
-- error is its code; the messages are left out.
use mergepay_api.Money.Amount.{MoneyError, max_stroops}
use mergepay_api.Money.Service.{to_stroops}
use mergepay_api.Money.Decimal.{is_raw_decimal, split_point, read_digits}
use mergepay_api.Common.{
  Bool, Option, Result, Text, [], err, get_or, if◌then◌else◌, length, ltb, ltb_ℤ, magnitude, none,
  not, ok, pos, replicate, some, take, throw_if, ℕ, ◌&&◌, ◌*◌, ◌++◌, ◌+◌, ◌==◌, ◌>>=◌, ◌>>◌,
}

pub data ExpenseCalculationErrorCode : Type 0 where
  invalid_amount invalid_rate invalid_percent invalid_participants : ExpenseCalculationErrorCode
  duplicate_participant invalid_split inconsistent_expense : ExpenseCalculationErrorCode
  missing_rate unsupported_asset amount_overflow invalid_rounding : ExpenseCalculationErrorCode

-- What a call throws: an ExpenseCalculationError, or an Error of the money service.
pub data ExpenseError : Type 0 where
  code : ExpenseCalculationErrorCode → ExpenseError
  money : MoneyError → ExpenseError

abbrev pub Calc {ℓ} : Type ℓ → Type ℓ
Calc A = Result ExpenseError A

abbrev pub fail {ℓ} : {A : Type ℓ} → ExpenseCalculationErrorCode → Calc A
fail c = err (code c)

abbrev pub fail_if : Bool → ExpenseCalculationErrorCode → Calc (Unit {0})
fail_if b c = throw_if b (code c)

abbrev pub or_money {ℓ} : {A : Type ℓ} → Result MoneyError A → Calc A
or_money (ok a) = ok a
or_money (err e) = err (money e)

abbrev pub or_invalid_amount {ℓ} : {A : Type ℓ} → Result MoneyError A → Calc A
or_invalid_amount (ok a) = ok a
or_invalid_amount (err _) = fail invalid_amount

-- A decimal arrives as its string (`readDecimal`).
unfoldable pub parse_amount : Bool → Text → Calc ℕ
parse_amount allow_zero raw = do
  stroops ← or_invalid_amount (to_stroops raw)
  fail_if (ltb_ℤ stroops (pos 0)) invalid_amount
  fail_if (not allow_zero && magnitude stroops == 0) invalid_amount
  ok (magnitude stroops)

abbrev pub rate_scale : ℕ
rate_scale = 10000000

abbrev pub percent_scale : ℕ
percent_scale = 1000000

abbrev pub percent_total : ℕ
percent_total = 100 * percent_scale

unfoldable pub parse_rate : Text → Calc ℕ
parse_rate rate = do
  fail_if (not (is_raw_decimal rate)) invalid_rate
  let whole = get_or (split_point rate) 0 []
  let fraction = get_or (split_point rate) 1 []
  fail_if (ltb 7 (length fraction)) invalid_rate
  let scaled = read_digits whole * rate_scale + read_digits (take 7 (fraction ++ replicate 7 b'0'))
  fail_if (scaled == 0) invalid_rate
  ok scaled

-- A percentage is a string, or a number with its `Number.isFinite` and its `String`.
pub data Percent : Type 0 where
  text : Text → Percent
  number : Bool → Text → Percent

unfoldable pub percent_text : Option Percent → Calc Text
percent_text none = fail invalid_percent
percent_text (some (text raw)) = ok raw
percent_text (some (number finite raw)) = if finite then ok raw else fail invalid_percent

unfoldable pub parse_percent : Option Percent → Calc ℕ
parse_percent percent = do
  raw ← percent_text percent
  fail_if (not (is_raw_decimal raw)) invalid_percent
  let whole = get_or (split_point raw) 0 []
  let fraction = get_or (split_point raw) 1 []
  fail_if (ltb 6 (length fraction)) invalid_percent
  ok (read_digits whole * percent_scale + read_digits (take 6 (fraction ++ replicate 6 b'0')))

unfoldable pub assert_within_stroop_range : ℕ → ExpenseCalculationErrorCode → Calc (Unit {0})
assert_within_stroop_range amount c = fail_if (ltb max_stroops amount) c

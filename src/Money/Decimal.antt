-- ===== src/Money/Decimal.antt =====
-- The string operations that src/lib/money.ts and src/services/money.ts make on a decimal: trimming,
-- the pattern /^\d+(?:\.\d+)?$/, splitting at the point, BigInt() and toString() on digits.
use mergepay_api.Common.{
  Bool, List, Text, [], all, false, if◌then◌else◌, is_empty, leb, length, not, replicate, reverse,
  suc, true, zero, ℕ, ◌%◌, ◌&&◌, ◌*◌, ◌++◌, ◌+◌, ◌-◌, ◌/◌, ◌==◌, ◌||◌, ◌∷◌,
}

-- The white space and line terminators that `trim` removes.
unfoldable pub is_space : ℕ → Bool
is_space c =
    (leb 9 c && leb c 13)
    || c == 32
    || c == 160
    || c == 5760
    || (leb 8192 c && leb c 8202)
    || c == 8232
    || c == 8233
    || c == 8239
    || c == 8287
    || c == 12288
    || c == 65279

unfoldable pub trim_start : Text → Text
trim_start [] = []
trim_start (c ∷ s) = if is_space c then trim_start s else c ∷ s

unfoldable pub trim : Text → Text
unfolding trim_start is_space
trim s = reverse (trim_start (reverse (trim_start s)))

unfoldable pub is_digit : ℕ → Bool
is_digit c = leb b'0' c && leb c b'9'

unfoldable pub drop_digits : Text → Text
unfolding is_digit
drop_digits [] = []
drop_digits (c ∷ s) = if is_digit c then drop_digits s else c ∷ s

abbrev pub starts_with_digit : Text → Bool
starts_with_digit [] = false
starts_with_digit (c ∷ _) = is_digit c

unfoldable pub is_fraction : Text → Bool
unfolding is_digit
is_fraction [] = true
is_fraction (c ∷ f) = c == b'.' && not (is_empty f) && all is_digit f

-- /^\d+(?:\.\d+)?$/
unfoldable pub is_raw_decimal : Text → Bool
unfolding is_digit drop_digits is_fraction
is_raw_decimal s = starts_with_digit s && is_fraction (drop_digits s)

abbrev pub cons_first : ℕ → List Text → List Text
cons_first c [] = (c ∷ []) ∷ []
cons_first c (p ∷ ps) = (c ∷ p) ∷ ps

-- `s.split(".")`
unfoldable pub split_point : Text → List Text
split_point [] = [] ∷ []
split_point (c ∷ s) = let rest = split_point s in if c == b'.' then [] ∷ rest else cons_first c rest

-- `s.replace(/^0+(?=\d)/, "")`
unfoldable pub strip_leading_zeros : Text → Text
unfolding is_digit
strip_leading_zeros [] = []
strip_leading_zeros (c ∷ s) =
    if c == b'0' && starts_with_digit s then strip_leading_zeros s else c ∷ s

-- `s.replace(/0+$/, "")`
unfoldable pub strip_trailing_zeros : Text → Text
strip_trailing_zeros [] = []
strip_trailing_zeros (c ∷ s) =
    let rest = strip_trailing_zeros s in if c == b'0' && is_empty rest then [] else c ∷ rest

-- `BigInt(s)` for a string of digits; the empty string reads as 0.
unfoldable pub read_from : ℕ → Text → ℕ
read_from acc [] = acc
read_from acc (c ∷ s) = read_from (acc * 10 + (c - b'0')) s

unfoldable pub read_digits : Text → ℕ
unfolding read_from
read_digits s = read_from 0 s

-- `n.toString()`: the digits of `n`, the last one split off first. The fuel is at least the number
-- of digits, which `show_nat` gives.
unfoldable pub show_fuel : ℕ → ℕ → Text
show_fuel zero n = []
show_fuel (suc f) n =
    let rest = show_fuel f (n / 10) in (if n / 10 == 0 then [] else rest) ++ (b'0' + n % 10) ∷ []

unfoldable pub show_nat : ℕ → Text
unfolding show_fuel
show_nat n = show_fuel (suc n) n

-- `s.padStart(k, "0")`
unfoldable pub pad_start : ℕ → Text → Text
pad_start k s = replicate (k - length s) b'0' ++ s

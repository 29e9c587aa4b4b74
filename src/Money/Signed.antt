-- ===== src/Money/Signed.antt =====
-- The signed amounts of balance arithmetic: printing and reading are inverse in Stellar's range.
use mergepay_api.Money.Amount
use mergepay_api.Money.Service.{
  to_stroops, from_stroops, validate_unsigned_amount_allow_zero, drop_minus, starts_with_minus,
}
use mergepay_api.Money.Decimal.{
  read_digits, show_nat, split_point, strip_leading_zeros, strip_trailing_zeros, is_digit,
}
use mergepay_api.Money.Digits.{Digits, read_digits-show_nat, show_nat-Digits}
use mergepay_api.Money.RoundTrip.{
  frac_7, is_raw_decimal-join_point, join_point-NoSpace, length-frac_7, padded_frac-strip,
  show_nat-head, split_point-join_point, trim-NoSpace, frac_7-Digits, length-strip,
  read_digits-frac_7, strip_leading_zeros-show_nat,
}
use mergepay_api.Money.Amount.{join_point, max_stroops, padded_frac, stroops_per_unit}
use mergepay_api.Common.{
  Text, [], ap, arith, false, get_or, is_empty, length, ltb, ltb_ℤ, magnitude, negsuc, ok, pos,
  subst, suc, sym, text_eq_refl, true, ℕ, ℤ, ◌%◌, ◌*◌, ◌+◌, ◌/◌, ◌>>=◌, ◌∙◌, ◌∷◌, ◌≡◌, ◌≤◌,
}

-- Validation of a text that is already canonical.
module _ (c : ℕ) (w f : Text) (n : ℕ) (whole : Digits (c ∷ w)) (frac : Digits f)
    (short : length f ≤ 7) (no_lead : strip_leading_zeros (c ∷ w) ≡ c ∷ w)
    (no_trail : strip_trailing_zeros (padded_frac f) ≡ f)
    (value : read_digits (c ∷ w) * stroops_per_unit + read_digits (padded_frac f) ≡ n) where
  not_empty : is_empty (join_point (c ∷ w) f) ≡ false
  not_empty = ground arith

  parts :
      (get_or (split_point (join_point (c ∷ w) f)) 0 [] ≡ c ∷ w)
      × (get_or (split_point (join_point (c ∷ w) f)) 1 [] ≡ f)
  parts = split_point-join_point (c ∷ w) f whole frac

  short_test : ltb 7 (length f) ≡ false
  short_test = ground arith

  validate_canonical :
      n ≤ max_stroops
      → validate_unsigned_amount_allow_zero (join_point (c ∷ w) f)
        ≡ ok (record { decimal = join_point (c ∷ w) f; stroops = n })
  unfolding validate_unsigned_amount_allow_zero
  validate_canonical h =
      rw
        (
          trim-NoSpace (join_point (c ∷ w) f) (join_point-NoSpace (c ∷ w) f whole frac),
          text_eq_refl (join_point (c ∷ w) f),
          not_empty,
          is_raw_decimal-join_point c w f whole frac,
          parts.0,
          parts.1,
          short_test,
          no_lead,
          no_trail,
          value,
        )
        (ground arith)

-- The canonical text of a magnitude.
abbrev pub body : ℕ → Text
body n =
    join_point (show_nat (n / stroops_per_unit))
      (strip_trailing_zeros (frac_7 (n % stroops_per_unit)))

pub validate-body :
    (n : ℕ)
    → n ≤ max_stroops
    → validate_unsigned_amount_allow_zero (body n) ≡ ok (record { decimal = body n; stroops = n })
validate-body n h =
    let (c, w, e, _) = show_nat-head (n / stroops_per_unit) in
    let r = n % stroops_per_unit in
    let f = strip_trailing_zeros (frac_7 r) in
    let seven = length-frac_7 r (omega arith) in
    let back = padded_frac-strip (frac_7 r) seven in
    let canonical =
      validate_canonical c w f n (subst Digits e (show_nat-Digits (n / stroops_per_unit)))
        (frac_7-Digits r) (omega (arith, length-strip (frac_7 r)))
        (subst (λ s. strip_leading_zeros s ≡ s) e
          (strip_leading_zeros-show_nat (n / stroops_per_unit)))
        (ap strip_trailing_zeros back) (value_of c w r e back (omega arith)) h in
    subst
      (λ s.
        validate_unsigned_amount_allow_zero (join_point s f)
        ≡ ok (record { decimal = join_point s f; stroops = n }))
      (sym e) canonical
  where
    value_of :
        (c : ℕ) (w : Text) (r : ℕ)
        → show_nat (n / stroops_per_unit) ≡ c ∷ w
        → padded_frac (strip_trailing_zeros (frac_7 r)) ≡ frac_7 r
        → (n / stroops_per_unit) * stroops_per_unit + r ≡ n
        → read_digits (c ∷ w) * stroops_per_unit
            + read_digits (padded_frac (strip_trailing_zeros (frac_7 r)))
          ≡ n
    value_of c w r e back split = rw (← e, back, read_digits-show_nat, read_digits-frac_7) split

join_point-no_minus :
    (c : ℕ) (w f : Text)
    → is_digit c ≡ true
    → (starts_with_minus (join_point (c ∷ w) f) ≡ false)
      × (drop_minus (join_point (c ∷ w) f) ≡ join_point (c ∷ w) f)
unfolding is_digit
join_point-no_minus c w f h = ground arith

body-no_minus : (n : ℕ) → (starts_with_minus (body n) ≡ false) × (drop_minus (body n) ≡ body n)
body-no_minus n =
    let (c, w, e, _) = show_nat-head (n / stroops_per_unit) in
    let f = strip_trailing_zeros (frac_7 (n % stroops_per_unit)) in
    subst
      (λ s.
        (starts_with_minus (join_point s f) ≡ false)
        × (drop_minus (join_point s f) ≡ join_point s f))
      (sym e)
      (join_point-no_minus c w f (subst Digits e (show_nat-Digits (n / stroops_per_unit))).0)

in_range : (n : ℕ) → n ≤ max_stroops → ltb max_stroops n ≡ false
in_range n h = ground arith

from_stroops-pos : (n : ℕ) → Amount.from_stroops (pos n) ≡ body n
unfolding Amount.from_stroops
from_stroops-pos n = rw (let q : ltb_ℤ (pos n) (pos 0) ≡ false = ground arith in q)

from_stroops-negsuc : (n : ℕ) → Amount.from_stroops (negsuc n) ≡ b'-' ∷ body (suc n)
unfolding Amount.from_stroops
from_stroops-negsuc n = rw (let q : ltb_ℤ (negsuc n) (pos 0) ≡ true = ground arith in q)

to_stroops-body : (n : ℕ) → n ≤ max_stroops → to_stroops (body n) ≡ ok (pos n)
unfolding to_stroops
to_stroops-body n h = rw ((body-no_minus n).1, validate-body n h, (body-no_minus n).0)

to_stroops-minus : (n : ℕ) → suc n ≤ max_stroops → to_stroops (b'-' ∷ body (suc n)) ≡ ok (negsuc n)
unfolding to_stroops
to_stroops-minus n h = rw (validate-body (suc n) h) (ground arith)

-- Printing a stroop count in Stellar's range and reading it back gives the same count: no amount
-- is changed by the step from the balance arithmetic to the API and back.
pub to_stroops-from_stroops :
    (z : ℤ) → magnitude z ≤ max_stroops → (from_stroops z >>= to_stroops) ≡ ok z
unfolding from_stroops
to_stroops-from_stroops (pos n) h = rw (in_range n h, from_stroops-pos n) (to_stroops-body n h)
to_stroops-from_stroops (negsuc n) h =
    rw (in_range (suc n) h, from_stroops-negsuc n) (to_stroops-minus n h)

-- `fromStroops` prints every count in Stellar's range.
pub from_stroops-ok :
    (z : ℤ) → magnitude z ≤ max_stroops → from_stroops z ≡ ok (Amount.from_stroops z)
unfolding from_stroops
from_stroops-ok z h = rw (in_range (magnitude z) h)

pub from_stroops-bound : (z : ℤ) {t : Text} → from_stroops z ≡ ok t → magnitude z ≤ max_stroops
unfolding from_stroops
from_stroops-bound z e = ground arith

-- A text that `fromStroops` returned reads back as the count.
pub to_stroops_of_from_stroops : (z : ℤ) (t : Text) → from_stroops z ≡ ok t → to_stroops t ≡ ok z
to_stroops_of_from_stroops z t e =
    ap (λ r. r >>= to_stroops) (sym e) ∙ to_stroops-from_stroops z (from_stroops-bound z e)

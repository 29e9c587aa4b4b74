-- ===== src/Money/Bounds.antt =====
-- The decimals that services/money.ts reads are in Stellar's range.
use mergepay_api.Money.Decimal.{trim, is_raw_decimal, read_digits, split_point, strip_leading_zeros}
use mergepay_api.Money.Amount.{
  malformed, excess_precision, out_of_range, whitespace_padding, AmountRejectionReason,
  ValidatedAmount, max_stroops, or_zero, padded_frac, stroops_per_unit,
}
use mergepay_api.Money.Service.{
  to_stroops, drop_minus, or_throw, starts_with_minus, validate_unsigned_amount_allow_zero,
}
use mergepay_api.Common.{
  >>=-eq-ok, Bool, Result, Text, [], ap, arith, err, false, get_or, if◌then◌else◌, is_empty, length,
  ltb, magnitude, neg_ℕ, not, ok, ok-injective, pos, subst, text_eq, throw_if, true, ℕ, ℤ, ◌*◌, ◌+◌,
  ◌≡◌, ◌≤◌,
}

validated-bound :
    (s : Text) {v : ValidatedAmount}
    → validate_unsigned_amount_allow_zero s ≡ ok v
    → v.stroops ≤ max_stroops
unfolding validate_unsigned_amount_allow_zero
validated-bound s {v} e =
    let frac = get_or (split_point (trim s)) 1 [] in
    let whole = or_zero (strip_leading_zeros (get_or (split_point (trim s)) 0 [])) in
    let stroops = read_digits whole * stroops_per_unit + read_digits (padded_frac frac) in
    let (_, _, e1) = >>=-eq-ok (throw_if (not (text_eq (trim s) s)) whitespace_padding) _ e in
    let (_, _, e2) = >>=-eq-ok (throw_if (is_empty (trim s)) malformed) _ e1 in
    let (_, _, e3) = >>=-eq-ok (throw_if (not (is_raw_decimal (trim s))) malformed) _ e2 in
    let (_, _, e4) = >>=-eq-ok (throw_if (ltb 7 (length frac)) excess_precision) _ e3 in
    let (_, small, e5) = >>=-eq-ok (throw_if (ltb max_stroops stroops) out_of_range) _ e4 in
    subst (λ (v : ValidatedAmount). v.stroops ≤ max_stroops) (ok-injective e5)
      (in_range stroops small)
  where
    in_range :
        (n : ℕ) {u : Unit {0}} → throw_if (ltb max_stroops n) out_of_range ≡ ok u → n ≤ max_stroops
    in_range n h = ground arith

or_throw-inv :
    (r : Result AmountRejectionReason ValidatedAmount) {v : ValidatedAmount}
    → or_throw r ≡ ok v
    → r ≡ ok v
or_throw-inv (ok a) e = ap ok (ok-injective e)
or_throw-inv (err x) e = cc e

-- A decimal that is read is in range.
pub to_stroops-bound : (t : Text) {z : ℤ} → to_stroops t ≡ ok z → magnitude z ≤ max_stroops
unfolding to_stroops
to_stroops-bound t {z} e =
    let (v, ev, e1) =
      >>=-eq-ok (or_throw (validate_unsigned_amount_allow_zero (drop_minus t))) _ e in
    let small = validated-bound (drop_minus t) (or_throw-inv _ ev) in
    subst (λ z. magnitude z ≤ max_stroops) (ok-injective e1)
      (signed (starts_with_minus t) v.stroops small)
  where
    signed :
        (b : Bool) (n : ℕ)
        → n ≤ max_stroops
        → magnitude (if b then neg_ℕ n else pos n) ≤ max_stroops
    signed true n h = ground arith
    signed false n h = h

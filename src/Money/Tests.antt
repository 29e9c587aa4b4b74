-- ===== src/Money/Tests.antt =====
-- The signed amounts on concrete counts.
use mergepay_api.Money.Amount
use mergepay_api.Money.Service.{to_stroops, from_stroops}
use mergepay_api.Common.{arith, codes, err, negsuc, ok, refl, text_eq, ◌>>=◌, ◌≡◌}
use mergepay_api.Money.Decimal.{
  trim, is_raw_decimal, pad_start, read_digits, show_nat, split_point, strip_leading_zeros,
  strip_trailing_zeros,
}
use mergepay_api.Money.Signed.{to_stroops-from_stroops}
use mergepay_api.Money.Amount.{out_of_range, validate_amount}

printed_negative : from_stroops (negsuc 74999999) ≡ ok (codes "-7.5")
unfolding from_stroops Amount.from_stroops strip_trailing_zeros show_nat pad_start
printed_negative = refl

padded_negative : Amount.stroops_to_stellar_amount (negsuc 74999999) ≡ codes "-7.5000000"
unfolding Amount.stroops_to_stellar_amount show_nat pad_start
padded_negative = refl

out_of_range_rejected : validate_amount (codes "922337203685.4775808") ≡ err out_of_range
unfolding validate_amount trim is_raw_decimal split_point strip_leading_zeros strip_trailing_zeros
    read_digits text_eq
out_of_range_rejected = refl

-- Seven and a half units owed.
to_stroops-from_stroops_example :
    (from_stroops (negsuc 74999999) >>= to_stroops) ≡ ok (negsuc 74999999)
to_stroops-from_stroops_example = to_stroops-from_stroops (negsuc 74999999) (ground arith)

-- ===== src/Settlement/Tests.antt =====
-- The settlement engine on concrete balance sheets and expenses.
use mergepay_api.Money.Amount
use mergepay_api.Money.Service.{to_stroops, from_stroops, validate_unsigned_amount_allow_zero}
use mergepay_api.Money.Decimal.{
  trim, is_raw_decimal, split_point, read_digits, show_nat, pad_start, strip_leading_zeros,
  strip_trailing_zeros,
}
use mergepay_api.Settlement.Balances.{
  add, add_shares, add_share, add_settlement, BalanceSettlementRow, BalanceShareRow, NetBalance,
  add_settlements, compute_net_balances, net_map,
}
use mergepay_api.Settlement.Suggest.{
  sides, transfers, settle, Suggestion, insert_party, pay_down, sort_parties, suggest_settlements,
  Party, Transfer, to_suggestion,
}
use mergepay_api.Settlement.Ledger.{
  owes, pays, gets, has_paid, has_received, net_of, owed_to, stroops_of, total_net,
}
use mergepay_api.Settlement.Shares.{
  percentage, ComputedShare, Numbers, ShareInput, compute_shares, fix_remainder, split_total,
}
use mergepay_api.Settlement.Balances.Conserve.{
  compute_net_balances-eq-ledger, compute_net_balances-zero_sum,
}
use mergepay_api.Settlement.Shares.Exact.{
  compute_shares-exact, computed_users, input_users, sum_computed,
}
use mergepay_api.Settlement.Suggest.Clears.{length-suggest_settlements, suggest_settlements-clears}
use mergepay_api.Common.{
  List, Text, [], codes, false, length, neg, negsuc, none, not, ok, pos, refl, some, text_eq,
  traverse, true, ℕ, ◌+ℤ◌, ◌+◌, ◌-ℤ◌, ◌-◌, ◌==◌, ◌∷◌, ◌≡◌, ◌≤◌,
}
use mergepay_api.Settlement.Suggest.Returns.{suggest_settlements_returns, Run}

abbrev ana : Text
ana = codes "ana"

abbrev bob : Text
bob = codes "bob"

abbrev cat : Text
cat = codes "cat"

abbrev trip_shares : List BalanceShareRow
trip_shares =
    record { payer_user_id = ana; user_id = ana; share_amount = codes "10"; settled = false }
    ∷ record { payer_user_id = ana; user_id = bob; share_amount = codes "10"; settled = false }
    ∷ record { payer_user_id = ana; user_id = cat; share_amount = codes "4.5"; settled = false }
    ∷ []

abbrev trip_settlements : List BalanceSettlementRow
trip_settlements =
    record { from_user_id = bob; to_user_id = ana; amount = codes "2.5"; confirmed = true }
    ∷ record { from_user_id = cat; to_user_id = ana; amount = codes "1"; confirmed = false }
    ∷ []

abbrev trip_nets : List NetBalance
trip_nets =
    record { user_id = ana; net = codes "12" }
    ∷ record { user_id = bob; net = codes "-7.5" }
    ∷ record { user_id = cat; net = codes "-4.5" }
    ∷ []

abbrev trip_suggestions : List Suggestion
trip_suggestions =
    record { from_user_id = bob; to_user_id = ana; amount = codes "7.5" }
    ∷ record { from_user_id = cat; to_user_id = ana; amount = codes "4.5" }
    ∷ []

trip_nets_computed : compute_net_balances trip_shares trip_settlements ≡ ok trip_nets
unfolding compute_net_balances net_map add_shares add_settlements add_share add_settlement add
    to_stroops from_stroops validate_unsigned_amount_allow_zero Amount.from_stroops trim
    is_raw_decimal split_point strip_leading_zeros strip_trailing_zeros read_digits show_nat
    pad_start text_eq ◌+ℤ◌ neg
trip_nets_computed = refl

trip_suggested : suggest_settlements trip_nets ≡ ok trip_suggestions
unfolding suggest_settlements sides transfers settle pay_down sort_parties insert_party to_stroops
    from_stroops validate_unsigned_amount_allow_zero Amount.from_stroops trim is_raw_decimal
    split_point strip_leading_zeros strip_trailing_zeros read_digits show_nat pad_start text_eq
trip_suggested = refl

-- What is computed from the trip's rows is the trip's ledger.
compute_net_balances-eq-ledger_example :
    net_of bob trip_nets
    ≡ owed_to bob trip_shares
      -ℤ owes bob trip_shares
      +ℤ has_paid bob trip_settlements
      -ℤ has_received bob trip_settlements
compute_net_balances-eq-ledger_example =
    compute_net_balances-eq-ledger trip_shares trip_settlements trip_nets_computed bob

compute_net_balances-zero_sum_example : total_net trip_nets ≡ pos 0
compute_net_balances-zero_sum_example =
    compute_net_balances-zero_sum trip_shares trip_settlements trip_nets_computed

suggest_settlements-clears_example :
    net_of cat trip_nets +ℤ pays cat trip_suggestions ≡ gets cat trip_suggestions
suggest_settlements-clears_example =
    suggest_settlements-clears trip_nets trip_suggested
      (compute_net_balances-zero_sum trip_shares trip_settlements trip_nets_computed) cat

length-suggest_settlements_example : length trip_suggestions ≤ length trip_nets - 1
length-suggest_settlements_example = length-suggest_settlements trip_nets trip_suggested

-- Percentages in thousandths.
abbrev milli_numbers : Numbers
milli_numbers = record {
  Number = ℕ;
  zero_number = 0;
  add = λ a b. a + b;
  is_off_hundred = λ p. not (p == 100000);
  round_milli = pos;
}

abbrev dinner_shares : List (ShareInput milli_numbers)
dinner_shares =
    record { user_id = ana; amount = none; percent = some 33333 }
    ∷ record { user_id = bob; amount = none; percent = some 33333 }
    ∷ record { user_id = cat; amount = none; percent = some 33334 }
    ∷ []

abbrev dinner_computed : List ComputedShare
dinner_computed =
    record { user_id = ana; share_amount = codes "0.0333332" }
    ∷ record { user_id = bob; share_amount = codes "0.033333" }
    ∷ record { user_id = cat; share_amount = codes "0.033334" }
    ∷ []

dinner_split : compute_shares (codes "0.1000002") percentage dinner_shares ≡ ok dinner_computed
unfolding compute_shares split_total fix_remainder to_stroops from_stroops
    validate_unsigned_amount_allow_zero Amount.from_stroops trim is_raw_decimal split_point
    strip_leading_zeros strip_trailing_zeros read_digits show_nat pad_start text_eq ◌+ℤ◌ ◌-ℤ◌
dinner_split = refl

compute_shares-exact_example :
    (sum_computed dinner_computed ≡ stroops_of (codes "0.1000002"))
    × (computed_users dinner_computed ≡ input_users dinner_shares)
compute_shares-exact_example =
    compute_shares-exact (codes "0.1000002") percentage dinner_shares dinner_split

nets_read :
    (to_stroops (codes "12") ≡ ok (pos 120000000))
    × (to_stroops (codes "-7.5") ≡ ok (negsuc 74999999))
    × (to_stroops (codes "-4.5") ≡ ok (negsuc 44999999))
unfolding to_stroops validate_unsigned_amount_allow_zero trim is_raw_decimal split_point
    strip_leading_zeros strip_trailing_zeros read_digits text_eq
nets_read = (refl, refl, refl)

suggest_settlements_returns_example :
    (r : List Party × List Party) × (ts : List Transfer) × (ss : List Suggestion) × (sides trip_nets
      ≡ ok r)
    × Run (sort_parties [] r.0) (sort_parties [] r.1) ts
    × (traverse to_suggestion ts ≡ ok ss)
    × (suggest_settlements trip_nets ≡ ok ss)
suggest_settlements_returns_example =
    suggest_settlements_returns trip_nets
      ((_, nets_read.0), ((_, nets_read.1), ((_, nets_read.2), tt)))

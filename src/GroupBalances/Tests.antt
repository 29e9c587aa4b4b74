-- ===== src/GroupBalances/Tests.antt =====
-- A group with expenses in two assets.
use mergepay_api.Money.Amount
use mergepay_api.Common.{
  All, Bool, List, Text, [], codes, err, false, if◌then◌else◌, ltb_ℤ, map, neg, none, ok, pos, refl,
  some, text_eq, true, ◌+ℤ◌, ◌-ℤ◌, ◌∷◌, ◌≡◌, ◌≢◌,
}
use mergepay_api.GroupBalances.Limit.{
  ExpenseRow, SettlementRow, ShareRow, add_expense_debts, add_share_debt, add_share_debts,
  add_transfers, over_settlement, verify_settlement_limit,
}
use mergepay_api.Machine.Status.{expired}
use mergepay_api.Settlement.Balances.{
  add, NetBalance, add_settlements, add_share, add_shares, compute_net_balances, net_map,
}
use mergepay_api.Settlement.Suggest.{
  sides, transfers, settle, Suggestion, insert_party, pay_down, sort_parties, suggest_settlements,
}
use mergepay_api.Money.Service.{to_stroops, from_stroops, validate_unsigned_amount_allow_zero}
use mergepay_api.Money.Decimal.{
  trim, is_raw_decimal, pad_start, read_digits, show_nat, split_point, strip_leading_zeros,
  strip_trailing_zeros,
}
use mergepay_api.GroupBalances.ByAsset.{
  Asset, AssetBalanceShareRow, AssetBalancesWithSuggestions, AssetNetBalances,
  assert_supported_settlement_asset, balance_asset_key,
  compute_multi_currency_balances_and_simplifications, compute_net_balances_by_asset, group_for,
  push_settlements, push_share, push_shares,
}
use mergepay_api.GroupBalances.Sheets.{OwnSheet, compute_net_balances_by_asset-OwnSheet}
use mergepay_api.GroupBalances.Outstanding.{
  outstanding_debt, verify_settlement_limit-eq-outstanding,
}
use mergepay_api.GroupBalances.Listed.{
  ClearsOwn, Lists, compute_multi_currency_balances_and_simplifications-Lists,
}
use mergepay_api.GroupBalances.Grouping.{settlements_of, shares_of}

abbrev ana : Text
ana = codes "ana"

abbrev bob : Text
bob = codes "bob"

abbrev share_of_ana : Text → ShareRow
share_of_ana amount = record { user_id = ana; share_amount = amount; settled = false }

-- Ana owes Bob 2 XLM and 3 USDC.
abbrev two_debts : List ExpenseRow
two_debts =
    record { payer_user_id = bob; asset_code = codes "XLM"; shares = share_of_ana (codes "2") ∷ [] }
    ∷ record {
      payer_user_id = bob;
      asset_code = codes "USDC";
      shares = share_of_ana (codes "3") ∷ [];
    }
    ∷ []

abbrev lapsed : SettlementRow
lapsed = record {
  from_user_id = ana;
  to_user_id = bob;
  amount = codes "4";
  asset_code = codes "XLM";
  status = expired;
}

-- A settlement of 5 in one asset passes, although no more than 3 are owed in any.
limit_ignores_assets : verify_settlement_limit two_debts [] ana bob (codes "5") ≡ ok tt
unfolding verify_settlement_limit add_expense_debts add_share_debts add_share_debt add_transfers
    to_stroops validate_unsigned_amount_allow_zero trim is_raw_decimal split_point
    strip_leading_zeros strip_trailing_zeros read_digits text_eq ◌+ℤ◌ ◌-ℤ◌
limit_ignores_assets = refl

verify_settlement_limit-eq-outstanding_example :
    verify_settlement_limit two_debts (lapsed ∷ []) ana bob (codes "2") ≡ (
      if ltb_ℤ (outstanding_debt ana bob two_debts (lapsed ∷ [])) (pos 20000000)
      then err over_settlement
      else ok tt)
unfolding to_stroops validate_unsigned_amount_allow_zero trim is_raw_decimal split_point
    strip_leading_zeros strip_trailing_zeros read_digits text_eq
verify_settlement_limit-eq-outstanding_example =
    verify_settlement_limit-eq-outstanding ana bob refl two_debts (lapsed ∷ []) (codes "2")
      (pos 20000000) (((pos 20000000, refl), tt), (((pos 30000000, refl), tt), tt))
      ((pos 40000000, refl), tt) refl

abbrev xlm : Asset
xlm = record { asset_code = codes "XLM"; asset_issuer = none }

abbrev usdc : Asset
usdc = record { asset_code = codes "USDC"; asset_issuer = some (codes "issuer") }

abbrev mixed_shares : List AssetBalanceShareRow
mixed_shares =
    record {
      row = record {
        payer_user_id = ana;
        user_id = bob;
        share_amount = codes "10";
        settled = false;
      };
      asset = xlm;
    }
    ∷ record {
      row = record {
        payer_user_id = bob;
        user_id = ana;
        share_amount = codes "5";
        settled = false;
      };
      asset = usdc;
    }
    ∷ []

abbrev net_balance : Text → Text → NetBalance
net_balance user amount = record { user_id = user; net = amount }

abbrev xlm_sheet : AssetNetBalances
xlm_sheet = record {
  asset = xlm;
  balances = net_balance ana (codes "10") ∷ net_balance bob (codes "-10") ∷ [];
}

abbrev usdc_sheet : AssetNetBalances
usdc_sheet = record {
  asset = usdc;
  balances = net_balance bob (codes "5") ∷ net_balance ana (codes "-5") ∷ [];
}

abbrev transfer_of : Text → Text → Text → Suggestion
transfer_of from to amount = record { from_user_id = from; to_user_id = to; amount = amount }

abbrev mixed_result : List AssetBalancesWithSuggestions
mixed_result =
    record { asset_balances = xlm_sheet; suggestions = transfer_of bob ana (codes "10") ∷ [] }
    ∷ record { asset_balances = usdc_sheet; suggestions = transfer_of ana bob (codes "5") ∷ [] }
    ∷ []

abbrev same_case : Text → Text
same_case s = s

abbrev any_asset : Asset → Bool
any_asset _ = true

mixed_sheets :
    compute_net_balances_by_asset same_case any_asset mixed_shares []
    ≡ ok (xlm_sheet ∷ usdc_sheet ∷ [])
unfolding compute_net_balances_by_asset push_shares push_share push_settlements group_for
    assert_supported_settlement_asset balance_asset_key compute_net_balances net_map add_shares
    add_share add_settlements add to_stroops from_stroops validate_unsigned_amount_allow_zero trim
    is_raw_decimal split_point strip_leading_zeros strip_trailing_zeros read_digits text_eq show_nat
    pad_start Amount.from_stroops ◌+ℤ◌ neg
mixed_sheets = refl

compute_net_balances_by_asset-OwnSheet_example :
    All (OwnSheet same_case any_asset mixed_shares []) (xlm_sheet ∷ usdc_sheet ∷ [])
compute_net_balances_by_asset-OwnSheet_example =
    compute_net_balances_by_asset-OwnSheet same_case any_asset mixed_shares [] mixed_sheets

mixed_suggestions :
    compute_multi_currency_balances_and_simplifications same_case any_asset mixed_shares []
    ≡ ok mixed_result
unfolding compute_multi_currency_balances_and_simplifications compute_net_balances_by_asset
    push_shares push_share push_settlements group_for assert_supported_settlement_asset
    balance_asset_key compute_net_balances net_map add_shares add_share add_settlements add
    to_stroops from_stroops validate_unsigned_amount_allow_zero trim is_raw_decimal split_point
    strip_leading_zeros strip_trailing_zeros read_digits text_eq show_nat pad_start
    Amount.from_stroops ◌+ℤ◌ neg suggest_settlements sides transfers settle insert_party pay_down
    sort_parties
mixed_suggestions = refl

compute_multi_currency_balances_and_simplifications-Lists_example :
    ((k : Text) (balances : List NetBalance)
      → compute_net_balances
          (shares_of same_case any_asset k mixed_shares)
          (settlements_of same_case any_asset k [])
        ≡ ok balances
      → balances ≢ []
      → Lists same_case any_asset k balances
          (map (λ (a : AssetBalancesWithSuggestions). a.asset_balances) mixed_result))
    × All (ClearsOwn same_case any_asset mixed_shares []) mixed_result
compute_multi_currency_balances_and_simplifications-Lists_example =
    compute_multi_currency_balances_and_simplifications-Lists same_case any_asset mixed_shares []
      mixed_suggestions

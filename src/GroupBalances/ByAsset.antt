-- ===== src/GroupBalances/ByAsset.antt =====
-- computeNetBalancesByAsset of src/services/settlement.ts and
-- computeMultiCurrencyBalancesAndSimplifications of src/services/group-balances.ts. The registry of
-- supported assets and `toUpperCase` are parameters.
use mergepay_api.Common.{
  Bool, List, Option, Result, Text, [], err, is_empty, keep, map_get, map_set, none, not, ok, some,
  throw_if, traverse, ◌++◌, ◌>>=◌, ◌>>◌, ◌∷◌,
}
use mergepay_api.Settlement.Shares.{unsupported_asset, money, SettlementEngineError}
use mergepay_api.Settlement.Suggest.{Suggestion, suggest_settlements}
use mergepay_api.Settlement.Balances.{
  BalanceShareRow, BalanceSettlementRow, NetBalance, compute_net_balances,
}
use mergepay_api.Money.Amount.{MoneyError}

pub record Asset : Type 0 where
  pub asset_code : Text
  pub asset_issuer : Option Text

-- A row with the asset that its amount is denominated in.
pub record AssetBalanceShareRow : Type 0 where
  pub row : BalanceShareRow
  pub asset : Asset

pub record AssetBalanceSettlementRow : Type 0 where
  pub row : BalanceSettlementRow
  pub asset : Asset

pub record AssetNetBalances : Type 0 where
  pub asset : Asset
  pub balances : List NetBalance

pub record AssetBalancesWithSuggestions : Type 0 where
  pub asset_balances : AssetNetBalances
  pub suggestions : List Suggestion

pub record AssetGroup : Type 0 where
  pub asset : Asset
  pub shares : List BalanceShareRow
  pub settlements : List BalanceSettlementRow

abbrev pub AssetGroups : Type 0
AssetGroups = List (Text × AssetGroup)

abbrev pub engine_money {ℓ} : {A : Type ℓ} → Result MoneyError A → Result SettlementEngineError A
engine_money (ok a) = ok a
engine_money (err e) = err (money e)

abbrev pub issuer_text : Option Text → Text
issuer_text none = []
issuer_text (some issuer) = issuer

module _ (to_upper : Text → Text) (is_supported : Asset → Bool) where
  unfoldable pub balance_asset_key : Asset → Text
  balance_asset_key asset =
      to_upper asset.asset_code ++ b':' ∷ b':' ∷ issuer_text asset.asset_issuer

  unfoldable pub assert_supported_settlement_asset : Asset → Result SettlementEngineError (Unit {0})
  assert_supported_settlement_asset asset = throw_if (not (is_supported asset)) unsupported_asset

  -- The group of an asset, a new one if there is none.
  unfoldable pub group_for : AssetGroups → Asset → AssetGroup
  group_for groups asset = elim (map_get (balance_asset_key asset) groups) [
    | some group ↦ group
    | none ↦ record { asset = asset; shares = []; settlements = [] }
  ]

  unfoldable pub push_share :
      AssetGroups → AssetBalanceShareRow → Result SettlementEngineError AssetGroups
  push_share groups s = do
    assert_supported_settlement_asset s.asset
    let group = group_for groups s.asset
    ok (
        map_set (balance_asset_key s.asset) (record group { shares = group.shares ++ s.row ∷ [] })
          groups)

  unfoldable pub push_settlement :
      AssetGroups → AssetBalanceSettlementRow → Result SettlementEngineError AssetGroups
  push_settlement groups s = do
    assert_supported_settlement_asset s.asset
    let group = group_for groups s.asset
    ok (
        map_set (balance_asset_key s.asset)
          (record group { settlements = group.settlements ++ s.row ∷ [] }) groups)

  unfoldable pub push_shares :
      AssetGroups → List AssetBalanceShareRow → Result SettlementEngineError AssetGroups
  push_shares groups [] = ok groups
  push_shares groups (s ∷ rest) = do groups' ← push_share groups s; push_shares groups' rest

  unfoldable pub push_settlements :
      AssetGroups → List AssetBalanceSettlementRow → Result SettlementEngineError AssetGroups
  push_settlements groups [] = ok groups
  push_settlements groups (s ∷ rest) = do
    groups' ← push_settlement groups s
    push_settlements groups' rest

  abbrev pub balances_of_group : Text × AssetGroup → Result SettlementEngineError AssetNetBalances
  balances_of_group (key, group) = do
    balances ← engine_money (compute_net_balances group.shares group.settlements)
    ok (record { asset = group.asset; balances = balances })

  abbrev pub is_listed : AssetNetBalances → Bool
  is_listed a = not (is_empty a.balances)

  unfoldable pub compute_net_balances_by_asset :
      List AssetBalanceShareRow
      → List AssetBalanceSettlementRow
      → Result SettlementEngineError (List AssetNetBalances)
  compute_net_balances_by_asset shares settlements = do
    groups ← push_shares [] shares
    groups' ← push_settlements groups settlements
    all_balances ← traverse balances_of_group groups'
    ok (keep is_listed all_balances)

  abbrev pub with_suggestions :
      AssetNetBalances → Result SettlementEngineError AssetBalancesWithSuggestions
  with_suggestions a = do
    suggestions ← engine_money (suggest_settlements a.balances)
    ok (record { asset_balances = a; suggestions = suggestions })

  unfoldable pub compute_multi_currency_balances_and_simplifications :
      List AssetBalanceShareRow
      → List AssetBalanceSettlementRow
      → Result SettlementEngineError (List AssetBalancesWithSuggestions)
  compute_multi_currency_balances_and_simplifications shares settlements = do
    asset_balances ← compute_net_balances_by_asset shares settlements
    traverse with_suggestions asset_balances

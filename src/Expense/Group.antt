-- ===== src/Expense/Group.antt =====
-- calculateGroupExpenseBreakdown of src/services/expense-calculation.ts, as a whole: the assets and
-- their view in a target asset.
pub mod Merged
pub mod Exact
use mergepay_api.Common.{
  Bool, List, Option, Text, [], false, map_get, none, ok, pos, some, sum, text_eq, traverse, true,
  ℕ, ◌++◌, ◌+◌, ◌>>=◌, ◌>>◌, ◌∷◌,
}
use mergepay_api.Expense.Parse.{
  or_money, fail, Calc, amount_overflow, assert_within_stroop_range, missing_rate,
}
use mergepay_api.Money.Service.{from_stroops}
use mergepay_api.Expense.Breakdown.{
  touch, Accumulators, Amounts, AssetAccumulator, AssetExpenseBreakdown, ConversionRateInput,
  ExpenseRecord, ParticipantAmounts, add_amount, add_expenses, add_rates, amount_of, to_breakdown,
  to_participant,
}
use mergepay_api.GroupBalances.ByAsset.{Asset, balance_asset_key}
use mergepay_api.Expense.Allocate.{convert_allocations}

pub record AppliedRate : Type 0 where
  pub from_asset : Asset
  pub rate : Text

pub record NormalizedExpenseBreakdown : Type 0 where
  pub asset : Asset
  pub total : Text
  pub participants : List ParticipantAmounts
  pub applied_rates : List AppliedRate

pub record GroupExpenseBreakdown : Type 0 where
  pub assets : List AssetExpenseBreakdown
  pub normalized : Option NormalizedExpenseBreakdown

-- The loop's variables; `seen` is read from `order`.
pub record Merge : Type 0 where
  pub paid : Amounts
  pub owed : Amounts
  pub order : List Text
  pub applied_rates : List AppliedRate
  pub total : ℕ

abbrev pub RateTable : Type 0
RateTable = List (Text × (Text × ℕ))

abbrev pub empty_merge : Merge
empty_merge = record { paid = []; owed = []; order = []; applied_rates = []; total = 0 }

abbrev pub amounts_for : List Text → Amounts → List ℕ
amounts_for [] m = []
amounts_for (u ∷ us) m = amount_of u m ∷ amounts_for us m

unfoldable pub touch_all : List Text → List Text → List Text
touch_all order [] = order
touch_all order (u ∷ us) = touch_all (touch order u) us

unfoldable pub add_all : Amounts → List Text → List ℕ → Amounts
add_all m [] ns = m
add_all m (u ∷ us) [] = m
add_all m (u ∷ us) (n ∷ ns) = add_all (add_amount u n m) us ns

-- The amounts that are paid and owed in the target asset, with the rate that was used.
unfoldable pub convert_both :
    Asset → List ℕ → List ℕ → Option (Text × ℕ) → Calc (List ℕ × List ℕ × List AppliedRate)
convert_both asset paid owed none = fail missing_rate
convert_both asset paid owed (some (rate, scaled)) = do
  converted_paid ← convert_allocations paid scaled
  converted_owed ← convert_allocations owed scaled
  ok (converted_paid, converted_owed, record { from_asset = asset; rate = rate } ∷ [])

unfoldable pub in_target :
    Bool → Asset → List ℕ → List ℕ → Option (Text × ℕ) → Calc (List ℕ × List ℕ × List AppliedRate)
in_target true asset paid owed rate = ok (paid, owed, [])
in_target false asset paid owed rate = convert_both asset paid owed rate

abbrev pub enter : Merge → List Text → List ℕ × List ℕ × List AppliedRate → Merge
enter merge users (paid, owed, applied) = record {
  paid = add_all merge.paid users paid;
  owed = add_all merge.owed users owed;
  order = touch_all merge.order users;
  applied_rates = merge.applied_rates ++ applied;
  total = merge.total + sum owed;
}

unfoldable pub to_normalized : Asset → Merge → Calc NormalizedExpenseBreakdown
to_normalized target merge = do
  assert_within_stroop_range merge.total amount_overflow
  participants ← traverse (to_participant merge.paid merge.owed) merge.order
  total_text ← or_money (from_stroops (pos merge.total))
  ok (record {
    asset = target;
    total = total_text;
    participants = participants;
    applied_rates = merge.applied_rates;
  })

module _ (to_upper : Text → Text) (is_supported : Asset → Bool)
    (normalize_asset : Asset → Calc Asset) where
  unfoldable pub merge_asset : RateTable → Text → Merge → AssetAccumulator → Calc Merge
  merge_asset rates target_key merge acc = do
    let key = balance_asset_key to_upper is_supported acc.asset
    converted ←
        in_target (text_eq key target_key) acc.asset (amounts_for acc.order acc.paid)
          (amounts_for acc.order acc.owed) (map_get key rates)
    ok (enter merge acc.order converted)

  unfoldable pub merge_assets : RateTable → Text → Merge → Accumulators → Calc Merge
  merge_assets rates target_key merge [] = ok merge
  merge_assets rates target_key merge ((_, acc) ∷ accumulators) = do
    merge' ← merge_asset rates target_key merge acc
    merge_assets rates target_key merge' accumulators

  unfoldable pub normalize_breakdown :
      RateTable → Accumulators → Option Asset → Calc (Option NormalizedExpenseBreakdown)
  normalize_breakdown rates accumulators none = ok none
  normalize_breakdown rates accumulators (some asset) = do
    target ← normalize_asset asset
    merge ←
        merge_assets rates (balance_asset_key to_upper is_supported target) empty_merge accumulators
    normalized ← to_normalized target merge
    ok (some normalized)

  unfoldable pub calculate_group_expense_breakdown :
      List ExpenseRecord → List ConversionRateInput → Option Asset → Calc GroupExpenseBreakdown
  calculate_group_expense_breakdown expenses rates target_asset = do
    table ← add_rates to_upper is_supported normalize_asset [] rates
    accumulators ← add_expenses to_upper is_supported normalize_asset [] expenses
    assets ← traverse to_breakdown accumulators
    normalized ← normalize_breakdown table accumulators target_asset
    ok (record { assets = assets; normalized = normalized })

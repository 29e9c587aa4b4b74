-- ===== src/Expense/Group/Exact.antt =====
-- The breakdown of a group's expenses balances, in every asset and in the target asset.
use mergepay_api.Common.{
  >>=-eq-ok, All, Bool, List, Option, Text, [], int_laws, none, ok, ok-injective, parts_of, pos,
  some, subst, traverse, ◌≡◌,
}
use mergepay_api.Expense.Breakdown.Totals.{
  printed, Balanced, breakdowns-Balanced, breakdowns-totals, participants-Printed, sum_net,
  sum_owed, sum_paid, sum_totals,
}
use mergepay_api.Money.Service.{from_stroops}
use mergepay_api.Settlement.Ledger.{stroops_of}
use mergepay_api.Expense.Breakdown.{
  Accumulators, ConversionRateInput, ExpenseRecord, add_expenses, add_rates, to_breakdown,
  to_participant,
}
use mergepay_api.Expense.Breakdown.Conserve.{AllOpen, add_expenses-Open}
use mergepay_api.GroupBalances.ByAsset.{Asset, balance_asset_key}
use mergepay_api.Expense.Parse.{Calc, amount_overflow, assert_within_stroop_range}
use mergepay_api.Expense.Group.Merged.{Even, empty_merge-Even, merge_assets-Even}
use mergepay_api.Expense.Group.{
  or_money, GroupExpenseBreakdown, Merge, NormalizedExpenseBreakdown, RateTable,
  calculate_group_expense_breakdown, empty_merge, merge_assets, normalize_breakdown, to_normalized,
}
use mergepay_api.Expense.Breakdown.Sums.{add_expenses-sum, expense_sum}

-- What the participants have paid and what they owe are the total, and their nets cancel.
abbrev pub BalancedView : NormalizedExpenseBreakdown → Type 0
BalancedView n =
    (sum_paid n.participants ≡ stroops_of n.total)
    × (sum_owed n.participants ≡ stroops_of n.total)
    × (sum_net n.participants ≡ pos 0)

to_normalized-Balanced :
    (target : Asset) (merge : Merge) {n : NormalizedExpenseBreakdown}
    → Even merge
    → to_normalized target merge ≡ ok n
    → BalancedView n
unfolding to_normalized
to_normalized-Balanced target merge {n} (_, _, _, paid, owed) e =
    let (_, _, e1) = >>=-eq-ok (assert_within_stroop_range merge.total amount_overflow) _ e in
    let (ps, listed, e2) =
      >>=-eq-ok (traverse (to_participant merge.paid merge.owed) merge.order) _ e1 in
    let (text, et, e3) = >>=-eq-ok (or_money (from_stroops (pos merge.total))) _ e2 in
    let all = printed (pos merge.total) text et in
    let (paids, oweds, nets) = participants-Printed merge.paid merge.owed merge.order listed in
    subst BalancedView (ok-injective e3) (
      omega (int_laws, parts_of all, parts_of paids, paid),
      omega (int_laws, parts_of all, parts_of oweds, owed),
      omega (int_laws, parts_of nets, paid, owed),
    )

abbrev pub BalancedIfAny : Option NormalizedExpenseBreakdown → Type 0
BalancedIfAny none = Unit
BalancedIfAny (some n) = BalancedView n

module _ (to_upper : Text → Text) (is_supported : Asset → Bool)
    (normalize_asset : Asset → Calc Asset) where
  normalize_breakdown-Balanced :
      (rates : RateTable) (m : Accumulators) (target : Option Asset)
      {n : Option NormalizedExpenseBreakdown}
      → AllOpen m
      → normalize_breakdown to_upper is_supported normalize_asset rates m target ≡ ok n
      → BalancedIfAny n
  unfolding normalize_breakdown
  normalize_breakdown-Balanced rates m none {n} h e = subst BalancedIfAny (ok-injective e) tt
  normalize_breakdown-Balanced rates m (some asset) {n} h e =
      let (target, _, e1) = >>=-eq-ok (normalize_asset asset) _ e in
      let key = balance_asset_key to_upper is_supported target in
      let (merge, merged, e2) =
        >>=-eq-ok (merge_assets to_upper is_supported normalize_asset rates key empty_merge m) _
          e1 in
      let (view, made, e3) = >>=-eq-ok (to_normalized target merge) _ e2 in
      let even =
        merge_assets-Even to_upper is_supported normalize_asset rates key empty_merge m h
          empty_merge-Even merged in
      subst BalancedIfAny (ok-injective e3) (to_normalized-Balanced target merge even made)

  -- Where calculateGroupExpenseBreakdown returns, in every asset and in the target asset, if there is
  -- one, what the participants have paid and what they owe both add up to the total, to the stroop,
  -- and their nets add up to zero; and the totals of the assets add up to the shares of all expenses.
  pub calculate_group_expense_breakdown-Balanced :
      (expenses : List ExpenseRecord) (rates : List ConversionRateInput) (target : Option Asset)
      {b : GroupExpenseBreakdown}
      → calculate_group_expense_breakdown to_upper is_supported normalize_asset expenses rates
          target
        ≡ ok b
      → All Balanced b.assets
        × BalancedIfAny b.normalized
        × (sum_totals b.assets ≡ expense_sum expenses)
  unfolding calculate_group_expense_breakdown
  calculate_group_expense_breakdown-Balanced expenses rates target {b} e =
      let (table, _, e1) =
        >>=-eq-ok (add_rates to_upper is_supported normalize_asset [] rates) _ e in
      let (m, tallied, e2) =
        >>=-eq-ok (add_expenses to_upper is_supported normalize_asset [] expenses) _ e1 in
      let (assets, listed, e3) = >>=-eq-ok (traverse to_breakdown m) _ e2 in
      let (view, viewed, e4) =
        >>=-eq-ok (normalize_breakdown to_upper is_supported normalize_asset table m target) _ e3 in
      let balanced =
        add_expenses-Open to_upper is_supported normalize_asset [] expenses tt tallied in
      let sums = add_expenses-sum to_upper is_supported normalize_asset [] expenses tallied in
      let totals = breakdowns-totals m listed in
      subst
        (λ (x : GroupExpenseBreakdown).
          All Balanced x.assets
          × BalancedIfAny x.normalized
          × (sum_totals x.assets ≡ expense_sum expenses))
        (ok-injective e4)
        (
          breakdowns-Balanced m balanced listed,
          normalize_breakdown-Balanced table m target balanced viewed,
          omega (int_laws, parts_of sums, parts_of totals),
        )

-- ===== src/Expense/Tests.antt =====
-- The expense calculation on concrete splits.
use mergepay_api.Money.Amount
use mergepay_api.Expense.Split
use mergepay_api.Money.Service.{to_stroops, from_stroops, validate_unsigned_amount_allow_zero}
use mergepay_api.Expense.Parse.{
  text, assert_within_stroop_range, parse_amount, parse_percent, percent_text, rate_scale,
  parse_rate,
}
use mergepay_api.Expense.Split.{
  percentage, ExpenseSplitResult, SplitParticipant, assert_participants, check_participants,
  split_amounts, split_expense, weights_of,
}
use mergepay_api.Expense.Allocate.{
  bump, floors, indices, allocate_by_weights, by_largest_remainder, convert_allocations, hand_out,
  insert_index, sort_indices,
}
use mergepay_api.Expense.Allocate.Exact.{allocate_by_weights-exact, convert_allocations-exact}
use mergepay_api.Money.Decimal.{
  trim, is_raw_decimal, pad_start, read_digits, show_nat, split_point, strip_leading_zeros,
  strip_trailing_zeros,
}
use mergepay_api.Expense.Split.Exact.{
  participant_users, share_users, split_expense-exact, sum_shares,
}
use mergepay_api.Settlement.Ledger.{stroops_of}
use mergepay_api.Common.{
  All, List, Text, [], codes, false, get_or, length, none, ok, refl, some, sum, text_eq, true, ℕ,
  ◌*◌, ◌+◌, ◌-ℤ◌, ◌/◌, ◌<◌, ◌∷◌, ◌≡◌, ◌≤◌,
}
use mergepay_api.Expense.Split.Returns.{split_expense_returns}
use mergepay_api.GroupBalances.ByAsset.{Asset, balance_asset_key}
use mergepay_api.Expense.Breakdown.{
  touch, AssetExpenseBreakdown, ConversionRateInput, ExpenseRecord, ExpenseShareRecord,
  ParticipantAmounts, add_amount, add_expense, add_expenses, add_owed, add_paid, add_rates,
  assert_no_duplicate_shares, check_declared, check_expense, to_breakdown, to_participant,
}
use mergepay_api.Expense.Breakdown.Totals.{Balanced, sum_totals}
use mergepay_api.Expense.Breakdown.Sums.{expense_sum}
use mergepay_api.Expense.Group.Exact.{BalancedIfAny, calculate_group_expense_breakdown-Balanced}
use mergepay_api.Expense.Group.{
  GroupExpenseBreakdown, NormalizedExpenseBreakdown, add_all, calculate_group_expense_breakdown,
  convert_both, in_target, merge_asset, merge_assets, normalize_breakdown, to_normalized, touch_all,
}

abbrev ones : List ℕ
ones = 1 ∷ 1 ∷ 1 ∷ []

abbrev third_amounts : List ℕ
third_amounts = 34 ∷ 33 ∷ 33 ∷ []

thirds : allocate_by_weights 100 ones ≡ ok (third_amounts, 1)
unfolding allocate_by_weights by_largest_remainder hand_out bump sort_indices insert_index indices
thirds = refl

allocate_by_weights-exact_example :
    (sum third_amounts ≡ 100)
    × (length third_amounts ≡ length ones)
    × (1 < length ones)
    × ((k : ℕ)
        → (get_or (floors 100 (sum ones) ones) k 0 ≤ get_or third_amounts k 0)
          × (get_or third_amounts k 0 ≤ get_or (floors 100 (sum ones) ones) k 0 + 1))
allocate_by_weights-exact_example = allocate_by_weights-exact 100 ones thirds

abbrev odd_amounts : List ℕ
odd_amounts = 3 ∷ 5 ∷ []

abbrev odd_halves : List ℕ
odd_halves = 2 ∷ 2 ∷ []

converted_at_half : convert_allocations odd_amounts 5000000 ≡ ok odd_halves
unfolding convert_allocations by_largest_remainder hand_out bump sort_indices insert_index indices
    assert_within_stroop_range
converted_at_half = refl

convert_allocations-exact_example :
    (sum odd_halves ≡ sum odd_amounts * 5000000 / rate_scale)
    × (length odd_halves ≡ length odd_amounts)
    × ((k : ℕ)
        → (get_or (floors 5000000 rate_scale odd_amounts) k 0 ≤ get_or odd_halves k 0)
          × (get_or odd_halves k 0 ≤ get_or (floors 5000000 rate_scale odd_amounts) k 0 + 1))
convert_allocations-exact_example = convert_allocations-exact odd_amounts 5000000 converted_at_half

abbrev by_percent : List SplitParticipant
by_percent =
    record { user_id = codes "ana"; percent = some (text (codes "33.5")); amount = none }
    ∷ record { user_id = codes "bob"; percent = some (text (codes "66.5")); amount = none }
    ∷ []

abbrev split_by_percent : ExpenseSplitResult
split_by_percent = record {
  amount = codes "0.0000009";
  split_type = percentage;
  shares =
      record { user_id = codes "ana"; amount = codes "0.0000003"; percent = some (codes "33.5") }
      ∷ record { user_id = codes "bob"; amount = codes "0.0000006"; percent = some (codes "66.5") }
      ∷ [];
  remainder_stroops = 1;
}

nine_stroops_split : split_expense (codes "0.0000009") percentage by_percent ≡ ok split_by_percent
unfolding split_expense assert_participants check_participants split_amounts weights_of parse_amount
    parse_percent percent_text allocate_by_weights by_largest_remainder hand_out bump sort_indices
    insert_index indices to_stroops from_stroops validate_unsigned_amount_allow_zero
    Amount.from_stroops trim is_raw_decimal split_point strip_leading_zeros strip_trailing_zeros
    read_digits show_nat pad_start text_eq
nine_stroops_split = refl

split_expense-exact_example :
    (sum_shares split_by_percent.shares ≡ stroops_of (codes "0.0000009"))
    × (stroops_of split_by_percent.amount ≡ stroops_of (codes "0.0000009"))
    × (share_users split_by_percent.shares ≡ participant_users by_percent)
split_expense-exact_example =
    split_expense-exact (codes "0.0000009") percentage by_percent nine_stroops_split

nine_read : parse_amount false (codes "0.0000009") ≡ ok 9
unfolding parse_amount to_stroops validate_unsigned_amount_allow_zero trim is_raw_decimal
    split_point strip_leading_zeros strip_trailing_zeros read_digits text_eq
nine_read = refl

two_distinct : assert_participants by_percent ≡ ok tt
unfolding assert_participants check_participants trim text_eq
two_distinct = refl

split_expense_returns_example :
    (r : ExpenseSplitResult) × (split_expense (codes "0.0000009") Split.equal by_percent ≡ ok r)
split_expense_returns_example =
    split_expense_returns (codes "0.0000009") by_percent nine_read two_distinct

abbrev xlm : Asset
xlm = record { asset_code = codes "XLM"; asset_issuer = none }

abbrev dinner_shares : List ExpenseShareRecord
dinner_shares =
    record { user_id = codes "ana"; share_amount = codes "2.5" }
    ∷ record { user_id = codes "bob"; share_amount = codes "1.5" }
    ∷ []

abbrev dinner_expense : ExpenseRecord
dinner_expense = record {
  payer_user_id = codes "ana";
  amount = some (codes "4");
  asset = xlm;
  shares = dinner_shares;
}

abbrev taxi_expense : ExpenseRecord
taxi_expense = record {
  payer_user_id = codes "cat";
  amount = none;
  asset = xlm;
  shares = record { user_id = codes "bob"; share_amount = codes "1" } ∷ [];
}

abbrev amounts_of : Text → Text → Text → Text → ParticipantAmounts
amounts_of user paid owed net = record { user_id = user; paid = paid; owed = owed; net = net }

abbrev trip_breakdown : List AssetExpenseBreakdown
trip_breakdown =
    record {
      asset = xlm;
      total = codes "5";
      expense_count = 2;
      participants =
          amounts_of (codes "ana") (codes "4") (codes "2.5") (codes "1.5")
          ∷ amounts_of (codes "bob") (codes "0") (codes "2.5") (codes "-2.5")
          ∷ amounts_of (codes "cat") (codes "1") (codes "0") (codes "1")
          ∷ [];
    }
    ∷ []

abbrev one_rate : List ConversionRateInput
one_rate = record { from_asset = xlm; rate = codes "0.1" } ∷ []

abbrev usdc : Asset
usdc = record { asset_code = codes "USDC"; asset_issuer = none }

abbrev trip_in_usdc : NormalizedExpenseBreakdown
trip_in_usdc = record {
  asset = usdc;
  total = codes "0.5";
  participants =
      amounts_of (codes "ana") (codes "0.4") (codes "0.25") (codes "0.15")
      ∷ amounts_of (codes "bob") (codes "0") (codes "0.25") (codes "-0.25")
      ∷ amounts_of (codes "cat") (codes "0.1") (codes "0") (codes "0.1")
      ∷ [];
  applied_rates = record { from_asset = xlm; rate = codes "0.1" } ∷ [];
}

abbrev trip_result : GroupExpenseBreakdown
trip_result = record { assets = trip_breakdown; normalized = some trip_in_usdc }

trip_broken_down :
    calculate_group_expense_breakdown
      (λ s. s)
      (λ _. true)
      (λ a. ok a)
      (dinner_expense ∷ taxi_expense ∷ [])
      one_rate
      (some usdc)
    ≡ ok trip_result
unfolding calculate_group_expense_breakdown normalize_breakdown merge_assets merge_asset in_target
    convert_both touch_all add_all to_normalized convert_allocations by_largest_remainder
    sort_indices insert_index hand_out bump indices add_rates add_expenses add_expense check_expense
    assert_no_duplicate_shares check_declared add_owed add_paid add_amount touch to_breakdown
    to_participant parse_rate parse_amount assert_within_stroop_range balance_asset_key to_stroops
    from_stroops Amount.from_stroops validate_unsigned_amount_allow_zero trim is_raw_decimal
    split_point strip_leading_zeros strip_trailing_zeros read_digits show_nat pad_start text_eq ◌-ℤ◌
trip_broken_down = refl

calculate_group_expense_breakdown-Balanced_example :
    All Balanced trip_breakdown
    × BalancedIfAny (some trip_in_usdc)
    × (sum_totals trip_breakdown ≡ expense_sum (dinner_expense ∷ taxi_expense ∷ []))
calculate_group_expense_breakdown-Balanced_example =
    calculate_group_expense_breakdown-Balanced (λ s. s) (λ _. true) (λ a. ok a)
      (dinner_expense ∷ taxi_expense ∷ []) one_rate (some usdc) trip_broken_down

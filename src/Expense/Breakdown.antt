-- ===== src/Expense/Breakdown.antt =====
-- calculateGroupExpenseBreakdown of src/services/expense-calculation.ts, asset by asset. The registry behind normalizeAsset and `toUpperCase` are parameters; identifiers of expenses, which
-- only messages use, are left out.
pub mod Tally
pub mod Conserve
pub mod Sums
pub mod Totals
use mergepay_api.Common.{
  Bool, List, Option, Text, [], any, false, if◌then◌else◌, is_empty, map_get, map_has, map_set,
  none, ok, pos, some, sum, text_eq, traverse, true, ℕ, ◌++◌, ◌+◌, ◌-ℤ◌, ◌==◌, ◌>>=◌, ◌>>◌, ◌∷◌,
}
use mergepay_api.Money.Decimal.{trim}
use mergepay_api.Expense.Parse.{
  or_money, fail, fail_if, Calc, amount_overflow, assert_within_stroop_range, duplicate_participant,
  inconsistent_expense, invalid_amount, invalid_participants, invalid_rate, parse_amount,
  parse_rate,
}
use mergepay_api.GroupBalances.ByAsset.{Asset, balance_asset_key}
use mergepay_api.Money.Service.{from_stroops}

pub record ExpenseShareRecord : Type 0 where
  pub user_id : Text
  pub share_amount : Text

pub record ExpenseRecord : Type 0 where
  pub payer_user_id : Text
  pub amount : Option Text
  pub asset : Asset
  pub shares : List ExpenseShareRecord

pub record ParticipantAmounts : Type 0 where
  pub user_id : Text
  pub paid : Text
  pub owed : Text
  pub net : Text

pub record AssetExpenseBreakdown : Type 0 where
  pub asset : Asset
  pub total : Text
  pub expense_count : ℕ
  pub participants : List ParticipantAmounts

pub record ConversionRateInput : Type 0 where
  pub from_asset : Asset
  pub rate : Text

abbrev pub Amounts : Type 0
Amounts = List (Text × ℕ)

-- The set `seen` has the members of `order`, and is read from it.
pub record AssetAccumulator : Type 0 where
  pub asset : Asset
  pub paid : Amounts
  pub owed : Amounts
  pub order : List Text
  pub expense_count : ℕ

abbrev pub amount_in : Option ℕ → ℕ
amount_in none = 0
amount_in (some n) = n

abbrev pub amount_of : Text → Amounts → ℕ
amount_of u m = amount_in (map_get u m)

unfoldable pub touch : List Text → Text → List Text
touch order u = if any (text_eq u) order then order else order ++ u ∷ []

unfoldable pub add_amount : Text → ℕ → Amounts → Amounts
add_amount u n m = map_set u (amount_of u m + n) m

abbrev pub sum_amounts : Amounts → ℕ
sum_amounts [] = 0
sum_amounts ((_, n) ∷ m) = n + sum_amounts m

unfoldable pub assert_no_duplicate_shares : List Text → List ExpenseShareRecord → Calc (Unit {0})
assert_no_duplicate_shares seen [] = ok tt
assert_no_duplicate_shares seen (s ∷ shares) = do
  fail_if (is_empty (trim s.user_id)) invalid_participants
  fail_if (any (text_eq s.user_id) seen) duplicate_participant
  assert_no_duplicate_shares (s.user_id ∷ seen) shares

-- The message of a mismatch prints both amounts, which throws on its own out of range.
unfoldable pub check_declared : Option Text → ℕ → Calc (Unit {0})
check_declared none total = ok tt
check_declared (some amount) total = do
  declared ← parse_amount false amount
  if declared == total
      then ok tt
      else or_money (from_stroops (pos declared))
        >>= (λ _. or_money (from_stroops (pos total)) >>= (λ _. fail inconsistent_expense))

unfoldable pub add_owed : AssetAccumulator → List ExpenseShareRecord → List ℕ → AssetAccumulator
add_owed acc [] ns = acc
add_owed acc (s ∷ shares) [] = acc
add_owed acc (s ∷ shares) (n ∷ ns) =
    add_owed
      (record acc { order = touch acc.order s.user_id; owed = add_amount s.user_id n acc.owed })
      shares ns

unfoldable pub add_paid : AssetAccumulator → Text → ℕ → AssetAccumulator
add_paid acc payer total = record acc {
  order = touch acc.order payer;
  paid = add_amount payer total acc.paid;
  expense_count = acc.expense_count + 1;
}

abbrev pub new_accumulator : Asset → AssetAccumulator
new_accumulator asset = record {
  asset = asset;
  paid = [];
  owed = [];
  order = [];
  expense_count = 0;
}

abbrev pub accumulator_or_new : Asset → Option AssetAccumulator → AssetAccumulator
accumulator_or_new asset none = new_accumulator asset
accumulator_or_new asset (some acc) = acc

abbrev pub Accumulators : Type 0
Accumulators = List (Text × AssetAccumulator)

unfoldable pub to_participant : Amounts → Amounts → Text → Calc ParticipantAmounts
to_participant all_paid all_due u = do
  let paid = amount_of u all_paid
  let owed = amount_of u all_due
  assert_within_stroop_range paid amount_overflow
  assert_within_stroop_range owed amount_overflow
  paid_text ← or_money (from_stroops (pos paid))
  owed_text ← or_money (from_stroops (pos owed))
  net_text ← or_money (from_stroops (pos paid -ℤ pos owed))
  ok (record { user_id = u; paid = paid_text; owed = owed_text; net = net_text })

unfoldable pub to_breakdown : Text × AssetAccumulator → Calc AssetExpenseBreakdown
to_breakdown (key, acc) = do
  participants ← traverse (to_participant acc.paid acc.owed) acc.order
  let total = sum_amounts acc.owed
  assert_within_stroop_range total amount_overflow
  total_text ← or_money (from_stroops (pos total))
  ok (record {
    asset = acc.asset;
    total = total_text;
    expense_count = acc.expense_count;
    participants = participants;
  })

module _ (to_upper : Text → Text) (is_supported : Asset → Bool)
    (normalize_asset : Asset → Calc Asset) where
  unfoldable pub add_rates :
      List (Text × (Text × ℕ)) → List ConversionRateInput → Calc (List (Text × (Text × ℕ)))
  add_rates rates [] = ok rates
  add_rates rates (entry ∷ entries) = do
    asset ← normalize_asset entry.from_asset
    let key = balance_asset_key to_upper is_supported asset
    fail_if (map_has key rates) invalid_rate
    scaled ← parse_rate entry.rate
    add_rates (map_set key (entry.rate, scaled) rates) entries

  -- The asset of an expense and the stroops of its shares.
  unfoldable pub check_expense : ExpenseRecord → Calc (Asset × List ℕ)
  check_expense e = do
    fail_if (is_empty (trim e.payer_user_id)) invalid_participants
    fail_if (is_empty e.shares) invalid_participants
    assert_no_duplicate_shares [] e.shares
    asset ← normalize_asset e.asset
    share_stroops ← traverse (λ (s : ExpenseShareRecord). parse_amount true s.share_amount) e.shares
    fail_if (sum share_stroops == 0) invalid_amount
    check_declared e.amount (sum share_stroops)
    ok (asset, share_stroops)

  unfoldable pub add_expense : Accumulators → ExpenseRecord → Calc Accumulators
  add_expense accumulators e = do
    (asset, share_stroops) ← check_expense e
    let key = balance_asset_key to_upper is_supported asset
    let acc = accumulator_or_new asset (map_get key accumulators)
    ok (
        map_set key
          (add_owed (add_paid acc e.payer_user_id (sum share_stroops)) e.shares share_stroops)
          accumulators)

  unfoldable pub add_expenses : Accumulators → List ExpenseRecord → Calc Accumulators
  add_expenses accumulators [] = ok accumulators
  add_expenses accumulators (e ∷ expenses) = do
    accumulators' ← add_expense accumulators e
    add_expenses accumulators' expenses

-- ===== src/Expense/Breakdown/Sums.antt =====
-- The accumulators of a breakdown hold the shares of the expenses, no more and no less.
use mergepay_api.Common.{
  >>=-eq-ok, Bool, Bool-cases, List, Text, [], ap, arith, inl, inr, int_laws, length, map_get,
  map_set, ok, ok-injective, parts_of, pos, refl, sum, sym, text_eq, traverse, true, ℕ, ℤ, ◌+ℤ◌,
  ◌+◌, ◌∙◌, ◌∷◌, ◌≡◌,
}
use mergepay_api.Settlement.Ledger.{stroops_of}
use mergepay_api.Expense.Breakdown.{
  touch, Accumulators, AssetAccumulator, ExpenseRecord, ExpenseShareRecord, accumulator_or_new,
  add_amount, add_expense, add_expenses, add_owed, add_paid, check_expense, sum_amounts,
}
use mergepay_api.GroupBalances.ByAsset.{Asset, balance_asset_key}
use mergepay_api.Expense.Parse.{Calc, parse_amount}
use mergepay_api.Expense.Breakdown.Conserve.{check_expense-length, check_expense-parsed}
use mergepay_api.Expense.Split.Exact.{parse_amount-ok}
use mergepay_api.Expense.Breakdown.Tally.{sum_amounts-add}

-- All that is owed, over the assets.
abbrev pub all_owed : Accumulators → ℕ
all_owed [] = 0
all_owed ((_, acc) ∷ m) = sum_amounts acc.owed + all_owed m

all_owed-set :
    (asset : Asset) (k : Text) (v : AssetAccumulator) (m : Accumulators)
    → all_owed (map_set k v m) + sum_amounts (accumulator_or_new asset (map_get k m)).owed
      ≡ all_owed m + sum_amounts v.owed
all_owed-set asset k v [] = omega arith
all_owed-set asset k v ((j, w) ∷ m) = elim (Bool-cases (text_eq j k)) [
  | inl t ↦ rw t (omega arith)
  | inr f ↦ rw f (omega (arith, all_owed-set asset k v m))
]

add_owed-sum :
    (acc : AssetAccumulator) (shares : List ExpenseShareRecord) (ns : List ℕ)
    → length ns ≡ length shares
    → sum_amounts (add_owed acc shares ns).owed ≡ sum_amounts acc.owed + sum ns
unfolding add_owed
add_owed-sum acc [] [] e = omega arith
add_owed-sum acc [] (n ∷ ns) e = absurd (omega (arith, e))
add_owed-sum acc (s ∷ shares) [] e = absurd (omega (arith, e))
add_owed-sum acc (s ∷ shares) (n ∷ ns) e =
    let more = sum_amounts-add s.user_id n acc.owed in
    omega (
      arith,
      more,
      add_owed-sum
          (record acc { order = touch acc.order s.user_id; owed = add_amount s.user_id n acc.owed })
          shares ns (omega (arith, e)),
    )

add_paid-owed :
    (acc : AssetAccumulator) (payer : Text) (n : ℕ) → (add_paid acc payer n).owed ≡ acc.owed
unfolding add_paid
add_paid-owed acc payer n = refl

-- The stroops of the shares, as they are written.
abbrev pub share_sum : List ExpenseShareRecord → ℤ
share_sum [] = pos 0
share_sum (s ∷ shares) = stroops_of s.share_amount +ℤ share_sum shares

abbrev pub expense_sum : List ExpenseRecord → ℤ
expense_sum [] = pos 0
expense_sum (e ∷ es) = share_sum e.shares +ℤ expense_sum es

parsed-sum :
    (shares : List ExpenseShareRecord) {ns : List ℕ}
    → traverse (λ (s : ExpenseShareRecord). parse_amount true s.share_amount) shares ≡ ok ns
    → pos (sum ns) ≡ share_sum shares
parsed-sum [] {ns} e = ap (λ l. pos (sum l)) (sym (ok-injective e))
parsed-sum (s ∷ shares) {ns} e =
    let (n, en, e1) = >>=-eq-ok (parse_amount true s.share_amount) _ e in
    let (rest, er, e2) =
      >>=-eq-ok (traverse (λ (s : ExpenseShareRecord). parse_amount true s.share_amount) shares) _
        e1 in
    let read = parse_amount-ok true s.share_amount en in
    let IH = parsed-sum shares er in
    ap (λ l. pos (sum l)) (sym (ok-injective e2)) ∙ omega (int_laws, parts_of read, parts_of IH)

module _ (to_upper : Text → Text) (is_supported : Asset → Bool)
    (normalize_asset : Asset → Calc Asset) where
  check_expense-sum :
      (e : ExpenseRecord) {asset : Asset} {ns : List ℕ}
      → check_expense to_upper is_supported normalize_asset e ≡ ok (asset, ns)
      → pos (sum ns) ≡ share_sum e.shares
  check_expense-sum e {asset} {ns} h =
      parsed-sum e.shares (check_expense-parsed to_upper is_supported normalize_asset e h)

  add_expense-sum :
      (m : Accumulators) (e : ExpenseRecord) {m' : Accumulators}
      → add_expense to_upper is_supported normalize_asset m e ≡ ok m'
      → pos (all_owed m') ≡ pos (all_owed m) +ℤ share_sum e.shares
  unfolding add_expense
  add_expense-sum m e {m'} x =
      let (checked, ok_checked, made) =
        >>=-eq-ok (check_expense to_upper is_supported normalize_asset e) _ x in
      let key = balance_asset_key to_upper is_supported checked.0 in
      let acc = accumulator_or_new checked.0 (map_get key m) in
      let total = sum checked.1 in
      let entered = add_owed (add_paid acc e.payer_user_id total) e.shares checked.1 in
      let more =
        add_owed-sum (add_paid acc e.payer_user_id total) e.shares checked.1
          (check_expense-length to_upper is_supported normalize_asset e ok_checked) in
      let same : sum_amounts (add_paid acc e.payer_user_id total).owed ≡ sum_amounts acc.owed =
        ap sum_amounts (add_paid-owed acc e.payer_user_id total) in
      let written = all_owed-set checked.0 key entered m in
      let shares = check_expense-sum e ok_checked in
      ap (λ l. pos (all_owed l)) (sym (ok-injective made))
      ∙ omega (int_laws, more, same, written, parts_of shares)

  pub add_expenses-sum :
      (m : Accumulators) (es : List ExpenseRecord) {m' : Accumulators}
      → add_expenses to_upper is_supported normalize_asset m es ≡ ok m'
      → pos (all_owed m') ≡ pos (all_owed m) +ℤ expense_sum es
  unfolding add_expenses
  add_expenses-sum m [] {m'} x = ap (λ l. pos (all_owed l)) (sym (ok-injective x)) ∙ omega int_laws
  add_expenses-sum m (e ∷ es) {m'} x =
      let (m1, first, rest) =
        >>=-eq-ok (add_expense to_upper is_supported normalize_asset m e) _ x in
      let one = add_expense-sum m e first in
      let IH = add_expenses-sum m1 es rest in omega (int_laws, parts_of one, parts_of IH)

-- ===== src/Expense/Breakdown/Conserve.antt =====
-- Every accumulator of a breakdown balances: what is paid is what is owed.
use mergepay_api.Common.{
  >>=-eq-ok, All, Bool, Bool-cases, List, Text, [], ap, arith, inl, inr, is_empty, length, map_get,
  map_set, ok, ok-injective, refl, subst, sum, text_eq, traverse, true, ℕ, ◌+◌, ◌==◌, ◌∙◌, ◌∷◌, ◌≡◌,
}
use mergepay_api.Expense.Breakdown.{
  trim, touch, Accumulators, AssetAccumulator, ExpenseRecord, ExpenseShareRecord,
  accumulator_or_new, add_amount, add_expense, add_expenses, add_owed, add_paid,
  assert_no_duplicate_shares, check_declared, check_expense, new_accumulator, sum_amounts,
}
use mergepay_api.GroupBalances.ByAsset.{Asset, balance_asset_key}
use mergepay_api.Expense.Parse.{Calc, fail_if, invalid_amount, invalid_participants, parse_amount}
use mergepay_api.Expense.Breakdown.Tally.{
  over, NoDup, Within, add_amount-Within, any-touch, over-add, over-touch, sum_amounts-add,
  touch-NoDup, touch-Within,
}
use mergepay_api.Expense.Split.Exact.{length-traverse}

-- An accumulator of which `t` is still to be entered as owed.
abbrev pub OpenBy : ℕ → AssetAccumulator → Type 0
OpenBy t acc =
    NoDup acc.order
    × Within acc.order acc.paid
    × Within acc.order acc.owed
    × (over acc.order acc.paid ≡ sum_amounts acc.owed + t)
    × (over acc.order acc.owed ≡ sum_amounts acc.owed)

new_accumulator-Open : (asset : Asset) → OpenBy 0 (new_accumulator asset)
new_accumulator-Open asset = (tt, (λ u h. refl), (λ u h. refl), omega arith, refl)

add_paid-Open :
    (acc : AssetAccumulator) (payer : Text) (n : ℕ) → OpenBy 0 acc → OpenBy n (add_paid acc payer n)
unfolding add_paid
add_paid-Open acc payer n (d, wp, wo, paid, owed) =
    let order = touch acc.order payer in
    let there = any-touch acc.order payer in
    let distinct = touch-NoDup acc.order payer d in
    let grown = over-add order payer n acc.paid distinct there in
    let same = over-touch acc.order payer acc.paid wp in
    (
      distinct,
      add_amount-Within order payer n acc.paid there (touch-Within acc.order payer acc.paid wp),
      touch-Within acc.order payer acc.owed wo,
      omega (arith, grown, same, paid),
      over-touch acc.order payer acc.owed wo ∙ owed,
    )

add_owed-Open :
    (acc : AssetAccumulator) (shares : List ExpenseShareRecord) (ns : List ℕ)
    → length ns ≡ length shares
    → OpenBy (sum ns) acc
    → OpenBy 0 (add_owed acc shares ns)
unfolding add_owed
add_owed-Open acc [] [] e h = h
add_owed-Open acc [] (n ∷ ns) e h = absurd (omega (arith, e))
add_owed-Open acc (s ∷ shares) [] e h = h
add_owed-Open acc (s ∷ shares) (n ∷ ns) e (d, wp, wo, paid, owed) =
    let u = s.user_id in
    let order = touch acc.order u in
    let there = any-touch acc.order u in
    let distinct = touch-NoDup acc.order u d in
    let grown = over-add order u n acc.owed distinct there in
    let grown_owed = sum_amounts-add u n acc.owed in
    add_owed-Open (record acc { order = order; owed = add_amount u n acc.owed }) shares ns
      (omega (arith, e))
      (
        distinct,
        touch-Within acc.order u acc.paid wp,
        add_amount-Within order u n acc.owed there (touch-Within acc.order u acc.owed wo),
        omega (arith, over-touch acc.order u acc.paid wp, paid, grown_owed),
        omega (arith, grown, over-touch acc.order u acc.owed wo, owed, grown_owed),
      )

All-map_set :
    (P : AssetAccumulator → Type 0) (k : Text) (v : AssetAccumulator) (m : Accumulators)
    → P v
    → All (λ (e : Text × AssetAccumulator). P e.1) m
    → All (λ (e : Text × AssetAccumulator). P e.1) (map_set k v m)
All-map_set P k v [] p h = (p, tt)
All-map_set P k v ((j, w) ∷ m) p (q, h) = elim (Bool-cases (text_eq j k)) [
  | inl t ↦ rw t (p, h)
  | inr f ↦ rw f (q, All-map_set P k v m p h)
]

found-All :
    (P : AssetAccumulator → Type 0) (asset : Asset) (k : Text) (m : Accumulators)
    → P (new_accumulator asset)
    → All (λ (e : Text × AssetAccumulator). P e.1) m
    → P (accumulator_or_new asset (map_get k m))
found-All P asset k [] p h = p
found-All P asset k ((j, w) ∷ m) p (q, h) = elim (Bool-cases (text_eq j k)) [
  | inl t ↦ rw t q
  | inr f ↦ rw f (found-All P asset k m p h)
]

abbrev pub AllOpen : Accumulators → Type 0
AllOpen = All (λ (e : Text × AssetAccumulator). OpenBy 0 e.1)

module _ (to_upper : Text → Text) (is_supported : Asset → Bool)
    (normalize_asset : Asset → Calc Asset) where
  pub check_expense-parsed :
      (e : ExpenseRecord) {asset : Asset} {ns : List ℕ}
      → check_expense to_upper is_supported normalize_asset e ≡ ok (asset, ns)
      → traverse (λ (s : ExpenseShareRecord). parse_amount true s.share_amount) e.shares ≡ ok ns
  unfolding check_expense
  check_expense-parsed e {asset} {ns} h =
      let (_, _, h1) =
        >>=-eq-ok (fail_if (is_empty (trim e.payer_user_id)) invalid_participants) _ h in
      let (_, _, h2) = >>=-eq-ok (fail_if (is_empty e.shares) invalid_participants) _ h1 in
      let (_, _, h3) = >>=-eq-ok (assert_no_duplicate_shares [] e.shares) _ h2 in
      let (asset', _, h4) = >>=-eq-ok (normalize_asset e.asset) _ h3 in
      let (stroops, parsed, h5) =
        >>=-eq-ok (traverse (λ (s : ExpenseShareRecord). parse_amount true s.share_amount) e.shares)
          _ h4 in
      let (_, _, h6) = >>=-eq-ok (fail_if (sum stroops == 0) invalid_amount) _ h5 in
      let (_, _, h7) = >>=-eq-ok (check_declared e.amount (sum stroops)) _ h6 in
      let same : stroops ≡ ns = ap (λ x. x.1) (ok-injective h7) in parsed ∙ ap ok same

  pub check_expense-length :
      (e : ExpenseRecord) {asset : Asset} {ns : List ℕ}
      → check_expense to_upper is_supported normalize_asset e ≡ ok (asset, ns)
      → length ns ≡ length e.shares
  check_expense-length e {asset} {ns} h =
      length-traverse (λ (s : ExpenseShareRecord). parse_amount true s.share_amount) e.shares
        (check_expense-parsed e h)

  add_expense-Open :
      (m : Accumulators) (e : ExpenseRecord) {m' : Accumulators}
      → AllOpen m
      → add_expense to_upper is_supported normalize_asset m e ≡ ok m'
      → AllOpen m'
  unfolding add_expense
  add_expense-Open m e {m'} h x =
      let (checked, ok_checked, made) =
        >>=-eq-ok (check_expense to_upper is_supported normalize_asset e) _ x in
      let key = balance_asset_key to_upper is_supported checked.0 in
      let acc = accumulator_or_new checked.0 (map_get key m) in
      let total = sum checked.1 in
      let found = found-All (OpenBy 0) checked.0 key m (new_accumulator-Open checked.0) h in
      let entered =
        add_owed-Open (add_paid acc e.payer_user_id total) e.shares checked.1
          (check_expense-length e ok_checked) (add_paid-Open acc e.payer_user_id total found) in
      subst AllOpen (ok-injective made) (All-map_set (OpenBy 0) key _ m entered h)

  pub add_expenses-Open :
      (m : Accumulators) (es : List ExpenseRecord) {m' : Accumulators}
      → AllOpen m
      → add_expenses to_upper is_supported normalize_asset m es ≡ ok m'
      → AllOpen m'
  unfolding add_expenses
  add_expenses-Open m [] {m'} h x = subst AllOpen (ok-injective x) h
  add_expenses-Open m (e ∷ es) {m'} h x =
      let (m1, first, rest) =
        >>=-eq-ok (add_expense to_upper is_supported normalize_asset m e) _ x in
      add_expenses-Open m1 es (add_expense-Open m e h first) rest

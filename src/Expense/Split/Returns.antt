-- ===== src/Expense/Split/Returns.antt =====
-- splitExpense returns on every valid equal split.
use mergepay_api.Money.Amount
use mergepay_api.Money.Service.{to_stroops}
use mergepay_api.Expense.Allocate.{floors, residues, allocate_by_weights, by_largest_remainder}
use mergepay_api.Expense.Parse.{fail_if, invalid_amount, or_invalid_amount, parse_amount}
use mergepay_api.Expense.Split.{
  echo, equal, ExpenseSplitMode, ExpenseSplitResult, ExpenseSplitShare, SplitParticipant,
  assert_participants, make_shares, split_amounts, split_expense, weights_of,
}
use mergepay_api.Money.Amount.{MoneyError, max_stroops}
use mergepay_api.Money.Signed.{from_stroops-ok}
use mergepay_api.Money.Bounds.{to_stroops-bound}
use mergepay_api.Common.{
  >>=-eq-ok, Bool, List, Result, Text, [], ap, arith, err, false, length, ltb_ℤ, magnitude, map,
  not, ok, ok-injective, pos, refl, subst, sum, ℕ, ℤ, ◌&&◌, ◌-◌, ◌<◌, ◌==◌, ◌∷◌, ◌≡◌, ◌≤◌,
}
use mergepay_api.Expense.Allocate.Exact.{allocate_by_weights-exact}

make_shares_returns :
    (mode : ExpenseSplitMode) (ps : List SplitParticipant) (ns : List ℕ)
    → sum ns ≤ max_stroops
    → (ss : List ExpenseSplitShare) × (make_shares mode ps ns ≡ ok ss)
make_shares_returns mode [] ns h = ([], refl)
make_shares_returns mode (p ∷ ps) [] h = ([], refl)
make_shares_returns mode (p ∷ ps) (n ∷ ns) h =
    let (ss, es) = make_shares_returns mode ps ns (omega arith) in
    let share : ExpenseSplitShare = record {
      user_id = p.user_id;
      amount = Amount.from_stroops (pos n);
      percent = echo mode p.percent;
    } in
    (share ∷ ss, rw (from_stroops-ok (pos n) (omega arith), es) refl)

parse_amount-bound :
    (zero_allowed : Bool) (raw : Text) {total : ℕ}
    → parse_amount zero_allowed raw ≡ ok total
    → total ≤ max_stroops
unfolding parse_amount
parse_amount-bound zero_allowed raw {total} e =
    let (z, ez, e1) = >>=-eq-ok (or_invalid_amount (to_stroops raw)) _ e in
    let (_, _, e2) = >>=-eq-ok (fail_if (ltb_ℤ z (pos 0)) invalid_amount) _ e1 in
    let (_, _, e3) =
      >>=-eq-ok (fail_if (not zero_allowed && magnitude z == 0) invalid_amount) _ e2 in
    subst (λ n. n ≤ max_stroops) (ok-injective e3)
      (to_stroops-bound raw (or_invalid-inv (to_stroops raw) ez))
  where
    or_invalid-inv : (r : Result MoneyError ℤ) {z : ℤ} → or_invalid_amount r ≡ ok z → r ≡ ok z
    or_invalid-inv (ok a) e = ap ok (ok-injective e)
    or_invalid-inv (err x) e = cc e

sum-ones : (ps : List SplitParticipant) → sum (map (λ _. 1) ps) ≡ length ps
sum-ones [] = refl
sum-ones (p ∷ ps) = omega (arith, sum-ones ps)

allocate_by_weights_returns :
    (total : ℕ) (ws : List ℕ)
    → 0 < sum ws
    → (amounts : List ℕ) × (remainder : ℕ) × (allocate_by_weights total ws
        ≡ ok (amounts, remainder))
unfolding allocate_by_weights
allocate_by_weights_returns total ws h =
    let amounts = floors total (sum ws) ws in
    let distributed = total - sum amounts in
    let positive : (sum ws == 0) ≡ false = ground arith in
    (
      by_largest_remainder distributed (residues total (sum ws) ws) amounts,
      distributed,
      rw positive refl,
    )

participants_positive :
    (ps : List SplitParticipant) → assert_participants ps ≡ ok tt → 0 < length ps
unfolding assert_participants
participants_positive [] e = cc e
participants_positive (p ∷ ps) e = omega arith

-- Where the amount is a positive decimal in Stellar's range and the participants are named and
-- distinct, an equal split returns.
pub split_expense_returns :
    (amount : Text) (ps : List SplitParticipant) {total : ℕ}
    → parse_amount false amount ≡ ok total
    → assert_participants ps ≡ ok tt
    → (r : ExpenseSplitResult) × (split_expense amount equal ps ≡ ok r)
unfolding split_expense split_amounts weights_of
split_expense_returns amount ps {total} et ep =
    let ws : List ℕ = map (λ _. 1) ps in
    let (amounts, remainder, ea) =
      allocate_by_weights_returns total ws
        (omega (arith, sum-ones ps, participants_positive ps ep)) in
    let (exact, _, _, _) = allocate_by_weights-exact total ws ea in
    let small = parse_amount-bound false amount et in
    let (ss, es) = make_shares_returns equal ps amounts (omega (arith, exact, small)) in
    let result : ExpenseSplitResult = record {
      amount = Amount.from_stroops (pos total);
      split_type = equal;
      shares = ss;
      remainder_stroops = remainder;
    } in
    (result, rw (et, ep, ea, from_stroops-ok (pos total) small, es) refl)

-- ===== src/Expense/Breakdown/Totals.antt =====
-- Every asset of a breakdown balances, in the amounts that are printed.
use mergepay_api.Expense.Breakdown.Tally.{over}
use mergepay_api.Common.{
  >>=-eq-ok, All, List, Text, [], ap, int_laws, ok, ok-injective, parts_of, pos, refl, subst, sym,
  traverse, ℤ, ◌+ℤ◌, ◌-ℤ◌, ◌∙◌, ◌∷◌, ◌≡◌,
}
use mergepay_api.Settlement.Ledger.{stroops_of, stroops_of-ok}
use mergepay_api.Money.Service.{from_stroops}
use mergepay_api.Money.Signed.{to_stroops_of_from_stroops}
use mergepay_api.Expense.Breakdown.{
  or_money, Accumulators, AssetAccumulator, AssetExpenseBreakdown, ParticipantAmounts, amount_of,
  sum_amounts, to_breakdown, to_participant, Amounts,
}
use mergepay_api.Expense.Breakdown.Conserve.{AllOpen, OpenBy}
use mergepay_api.Expense.Parse.{amount_overflow, assert_within_stroop_range}
use mergepay_api.Expense.Split.Exact.{or_money-inv}
use mergepay_api.Expense.Breakdown.Sums.{all_owed}

abbrev pub sum_paid : List ParticipantAmounts → ℤ
sum_paid [] = pos 0
sum_paid (p ∷ ps) = stroops_of p.paid +ℤ sum_paid ps

abbrev pub sum_owed : List ParticipantAmounts → ℤ
sum_owed [] = pos 0
sum_owed (p ∷ ps) = stroops_of p.owed +ℤ sum_owed ps

abbrev pub sum_net : List ParticipantAmounts → ℤ
sum_net [] = pos 0
sum_net (p ∷ ps) = stroops_of p.net +ℤ sum_net ps

-- All that is paid is all that is owed and the total, and the nets cancel.
abbrev pub Balanced : AssetExpenseBreakdown → Type 0
Balanced b =
    (sum_paid b.participants ≡ stroops_of b.total)
    × (sum_owed b.participants ≡ stroops_of b.total)
    × (sum_net b.participants ≡ pos 0)

pub printed : (z : ℤ) (t : Text) → or_money (from_stroops z) ≡ ok t → stroops_of t ≡ z
printed z t e = stroops_of-ok t z (to_stroops_of_from_stroops z t (or_money-inv (from_stroops z) e))

-- What the printed participants add up to.
abbrev pub Printed : Amounts → Amounts → List Text → List ParticipantAmounts → Type 0
Printed all_paid all_due us ps =
    (sum_paid ps ≡ pos (over us all_paid))
    × (sum_owed ps ≡ pos (over us all_due))
    × (sum_net ps ≡ pos (over us all_paid) -ℤ pos (over us all_due))

to_participant-amounts :
    (all_paid all_due : Amounts) (u : Text) {p : ParticipantAmounts}
    → to_participant all_paid all_due u ≡ ok p
    → (stroops_of p.paid ≡ pos (amount_of u all_paid))
      × (stroops_of p.owed ≡ pos (amount_of u all_due))
      × (stroops_of p.net ≡ pos (amount_of u all_paid) -ℤ pos (amount_of u all_due))
unfolding to_participant
to_participant-amounts all_paid all_due u {p} e =
    let paid = amount_of u all_paid in
    let owed = amount_of u all_due in
    let (_, _, e1) = >>=-eq-ok (assert_within_stroop_range paid amount_overflow) _ e in
    let (_, _, e2) = >>=-eq-ok (assert_within_stroop_range owed amount_overflow) _ e1 in
    let (paid_text, ep, e3) = >>=-eq-ok (or_money (from_stroops (pos paid))) _ e2 in
    let (owed_text, eo, e4) = >>=-eq-ok (or_money (from_stroops (pos owed))) _ e3 in
    let (net_text, en, e5) = >>=-eq-ok (or_money (from_stroops (pos paid -ℤ pos owed))) _ e4 in
    subst
      (λ (x : ParticipantAmounts).
        (stroops_of x.paid ≡ pos paid)
        × (stroops_of x.owed ≡ pos owed)
        × (stroops_of x.net ≡ pos paid -ℤ pos owed))
      (ok-injective e5)
      (
        printed (pos paid) paid_text ep,
        printed (pos owed) owed_text eo,
        printed (pos paid -ℤ pos owed) net_text en,
      )

pub participants-Printed :
    (all_paid all_due : Amounts) (us : List Text) {ps : List ParticipantAmounts}
    → traverse (to_participant all_paid all_due) us ≡ ok ps
    → Printed all_paid all_due us ps
participants-Printed all_paid all_due [] {ps} e =
    subst (Printed all_paid all_due []) (ok-injective e) (refl, refl, omega int_laws)
participants-Printed all_paid all_due (u ∷ us) {ps} e =
    let (p, first, e1) = >>=-eq-ok (to_participant all_paid all_due u) _ e in
    let (rest, others, e2) = >>=-eq-ok (traverse (to_participant all_paid all_due) us) _ e1 in
    let (paid, owed, net) = to_participant-amounts all_paid all_due u first in
    let (paids, oweds, nets) = participants-Printed all_paid all_due us others in
    subst (Printed all_paid all_due (u ∷ us)) (ok-injective e2) (
      omega (int_laws, parts_of paid, parts_of paids),
      omega (int_laws, parts_of owed, parts_of oweds),
      omega (int_laws, parts_of net, parts_of nets),
    )

to_breakdown-Balanced :
    (key : Text) (acc : AssetAccumulator) {b : AssetExpenseBreakdown}
    → OpenBy 0 acc
    → to_breakdown (key, acc) ≡ ok b
    → Balanced b
unfolding to_breakdown
to_breakdown-Balanced key acc {b} (_, _, _, paid, owed) e =
    let total = sum_amounts acc.owed in
    let (ps, listed, e1) = >>=-eq-ok (traverse (to_participant acc.paid acc.owed) acc.order) _ e in
    let (_, _, e2) = >>=-eq-ok (assert_within_stroop_range total amount_overflow) _ e1 in
    let (text, et, e3) = >>=-eq-ok (or_money (from_stroops (pos total))) _ e2 in
    let all = printed (pos total) text et in
    let (paids, oweds, nets) = participants-Printed acc.paid acc.owed acc.order listed in
    subst Balanced (ok-injective e3) (
      omega (int_laws, parts_of all, parts_of paids, paid),
      omega (int_laws, parts_of all, parts_of oweds, owed),
      omega (int_laws, parts_of nets, paid, owed),
    )

pub breakdowns-Balanced :
    (m : Accumulators) {bs : List AssetExpenseBreakdown}
    → AllOpen m
    → traverse to_breakdown m ≡ ok bs
    → All Balanced bs
breakdowns-Balanced [] {bs} h e = subst (All Balanced) (ok-injective e) tt
breakdowns-Balanced ((key, acc) ∷ m) {bs} (balanced, h) e =
    let (b, first, e1) = >>=-eq-ok (to_breakdown (key, acc)) _ e in
    let (rest, others, e2) = >>=-eq-ok (traverse to_breakdown m) _ e1 in
    subst (All Balanced) (ok-injective e2)
      (to_breakdown-Balanced key acc balanced first, breakdowns-Balanced m h others)

-- The totals of all assets, in stroops.
abbrev pub sum_totals : List AssetExpenseBreakdown → ℤ
sum_totals [] = pos 0
sum_totals (b ∷ bs) = stroops_of b.total +ℤ sum_totals bs

to_breakdown-total :
    (key : Text) (acc : AssetAccumulator) {b : AssetExpenseBreakdown}
    → to_breakdown (key, acc) ≡ ok b
    → stroops_of b.total ≡ pos (sum_amounts acc.owed)
unfolding to_breakdown
to_breakdown-total key acc {b} e =
    let total = sum_amounts acc.owed in
    let (ps, _, e1) = >>=-eq-ok (traverse (to_participant acc.paid acc.owed) acc.order) _ e in
    let (_, _, e2) = >>=-eq-ok (assert_within_stroop_range total amount_overflow) _ e1 in
    let (text, et, e3) = >>=-eq-ok (or_money (from_stroops (pos total))) _ e2 in
    ap (λ (x : AssetExpenseBreakdown). stroops_of x.total) (sym (ok-injective e3))
    ∙ printed (pos total) text et

pub breakdowns-totals :
    (m : Accumulators) {bs : List AssetExpenseBreakdown}
    → traverse to_breakdown m ≡ ok bs
    → sum_totals bs ≡ pos (all_owed m)
breakdowns-totals [] {bs} e = ap sum_totals (sym (ok-injective e))
breakdowns-totals ((key, acc) ∷ m) {bs} e =
    let (b, first, e1) = >>=-eq-ok (to_breakdown (key, acc)) _ e in
    let (rest, others, e2) = >>=-eq-ok (traverse to_breakdown m) _ e1 in
    let one = to_breakdown-total key acc first in
    let IH = breakdowns-totals m others in
    ap sum_totals (sym (ok-injective e2)) ∙ omega (int_laws, parts_of one, parts_of IH)

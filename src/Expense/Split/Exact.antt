-- ===== src/Expense/Split/Exact.antt =====
-- A split returns shares that add up to the expense, one for each participant.
use mergepay_api.Money.Service.{to_stroops, from_stroops}
use mergepay_api.Money.Signed.{to_stroops_of_from_stroops}
use mergepay_api.Settlement.Ledger.{stroops_of, stroops_of-ok}
use mergepay_api.Expense.Parse.{
  Calc, fail_if, or_money, or_invalid_amount, invalid_amount, invalid_split, invalid_percent,
  parse_amount, parse_percent, percent_total,
}
use mergepay_api.Expense.Allocate.{allocate_by_weights}
use mergepay_api.Expense.Allocate.Exact.{allocate_by_weights-exact}
use mergepay_api.Expense.Split.{
  assert_sum, echo, ExpenseSplitMode, equal, percentage, custom, SplitParticipant,
  ExpenseSplitShare, ExpenseSplitResult, assert_participants, custom_amount, make_shares,
  weights_of, split_amounts, split_expense,
}
use mergepay_api.Common.{
  >>=-eq-ok, Bool, List, Option, Result, Text, [], ap, arith, err, false, int_laws, length,
  length-map, ltb_ℤ, magnitude, negsuc, not, ok, ok-injective, pos, refl, subst, suc, sum, sym,
  traverse, true, ℕ, ℤ, ◌&&◌, ◌+ℤ◌, ◌==◌, ◌>>=◌, ◌∙◌, ◌∷◌, ◌≡◌, ◌≢◌,
}
use mergepay_api.Money.Amount.{MoneyError}

abbrev pub sum_shares : List ExpenseSplitShare → ℤ
sum_shares [] = pos 0
sum_shares (s ∷ ss) = stroops_of s.amount +ℤ sum_shares ss

abbrev pub share_users : List ExpenseSplitShare → List Text
share_users [] = []
share_users (s ∷ ss) = s.user_id ∷ share_users ss

abbrev pub participant_users : List SplitParticipant → List Text
participant_users [] = []
participant_users (p ∷ ps) = p.user_id ∷ participant_users ps

pub length-traverse {ℓ κ μ} :
    {E : Type ℓ} {A : Type κ} {B : Type μ} (f : A → Result E B) (xs : List A) {ys : List B}
    → traverse f xs ≡ ok ys
    → length ys ≡ length xs
length-traverse f [] {ys} e = subst (λ r. length r ≡ 0) (ok-injective e) refl
length-traverse f (x ∷ xs) {ys} e =
    let (y, ey, e1) = >>=-eq-ok (f x) _ e in
    let (rest, er, e2) = >>=-eq-ok (traverse f xs) _ e1 in
    subst (λ r. length r ≡ suc (length xs)) (ok-injective e2) (ap suc (length-traverse f xs er))

pub or_money-inv {ℓ} : {A : Type ℓ} (m : Result MoneyError A) {a : A} → or_money m ≡ ok a → m ≡ ok a
or_money-inv (ok x) e = ap (λ y. ok y) (ok-injective e)
or_money-inv (err x) e = cc

or_invalid_amount-inv {ℓ} :
    {A : Type ℓ} (m : Result MoneyError A) {a : A} → or_invalid_amount m ≡ ok a → m ≡ ok a
or_invalid_amount-inv (ok x) e = ap (λ y. ok y) (ok-injective e)
or_invalid_amount-inv (err x) e = cc

printed-ok : (z : ℤ) (t : Text) → or_money (from_stroops z) ≡ ok t → stroops_of t ≡ z
printed-ok z t e =
    stroops_of-ok t z (to_stroops_of_from_stroops z t (or_money-inv (from_stroops z) e))

magnitude_nonneg : (z : ℤ) → ltb_ℤ z (pos 0) ≡ false → z ≡ pos (magnitude z)
magnitude_nonneg (pos n) h = refl
magnitude_nonneg (negsuc n) h = ground arith

pub parse_amount-ok :
    (zero_ok : Bool) (t : Text) {n : ℕ} → parse_amount zero_ok t ≡ ok n → stroops_of t ≡ pos n
unfolding parse_amount
parse_amount-ok zero_ok t {n} e =
    let (z, ez, e1) = >>=-eq-ok (or_invalid_amount (to_stroops t)) _ e in
    let (_, sign, e2) = >>=-eq-ok (fail_if (ltb_ℤ z (pos 0)) invalid_amount) _ e1 in
    let (_, _, e3) = >>=-eq-ok (fail_if (not zero_ok && magnitude z == 0) invalid_amount) _ e2 in
    stroops_of-ok t z (or_invalid_amount-inv (to_stroops t) ez)
    ∙ magnitude_nonneg z (ground arith)
    ∙ ap pos (ok-injective e3)

abbrev Sums : List SplitParticipant → List ℕ → List ExpenseSplitShare → Type 0
Sums ps ns ss = (sum_shares ss ≡ pos (sum ns)) × (share_users ss ≡ participant_users ps)

cons-Sums :
    (p : SplitParticipant) (ps : List SplitParticipant) (n : ℕ) (ns : List ℕ) (t : Text)
    (o : Option Text) (ss : List ExpenseSplitShare)
    → stroops_of t ≡ pos n
    → Sums ps ns ss
    → Sums (p ∷ ps) (n ∷ ns) (record { user_id = p.user_id; amount = t; percent = o } ∷ ss)
cons-Sums p ps n ns t o ss e (h, k) = (rw (e, h) (omega int_laws), ap (λ us. p.user_id ∷ us) k)

make_shares-Sums :
    (mode : ExpenseSplitMode) (ps : List SplitParticipant) (ns : List ℕ)
    {ss : List ExpenseSplitShare}
    → length ns ≡ length ps
    → make_shares mode ps ns ≡ ok ss
    → Sums ps ns ss
make_shares-Sums mode [] [] {ss} h e = subst (Sums [] []) (ok-injective e) (refl, refl)
make_shares-Sums mode [] (n ∷ ns) {ss} h e = absurd (omega arith)
make_shares-Sums mode (p ∷ ps) [] {ss} h e = absurd (omega arith)
make_shares-Sums mode (p ∷ ps) (n ∷ ns) {ss} h e =
    let (t, et, e1) = >>=-eq-ok (or_money (from_stroops (pos n))) _ e in
    let (rest, er, e2) = >>=-eq-ok (make_shares mode ps ns) _ e1 in
    subst (Sums (p ∷ ps) (n ∷ ns)) (ok-injective e2) (
      cons-Sums p ps n ns t (echo mode p.percent) rest (printed-ok (pos n) t et)
        (make_shares-Sums mode ps ns (omega arith) er))

length-weights_of :
    (mode : ExpenseSplitMode) (ps : List SplitParticipant) {ws : List ℕ}
    → weights_of mode ps ≡ ok ws
    → length ws ≡ length ps
unfolding weights_of
length-weights_of percentage ps {ws} e =
    let (xs, ex, e1) =
      >>=-eq-ok (traverse (λ (p : SplitParticipant). parse_percent p.percent) ps) _ e in
    let (_, _, e2) = >>=-eq-ok (fail_if (not (sum xs == percent_total)) invalid_percent) _ e1 in
    subst (λ r. length r ≡ length ps) (ok-injective e2)
      (length-traverse (λ (p : SplitParticipant). parse_percent p.percent) ps ex)
length-weights_of _ ps {ws} e =
    subst (λ r. length r ≡ length ps) (ok-injective e) (length-map (λ _. 1) ps)

abbrev Fits : ℕ → List SplitParticipant → List ℕ × ℕ → Type 0
Fits total ps (amounts, _) = (sum amounts ≡ total) × (length amounts ≡ length ps)

weighted-Fits :
    (total : ℕ) (mode : ExpenseSplitMode) (ps : List SplitParticipant) (r : List ℕ × ℕ)
    → (weights_of mode ps >>= allocate_by_weights total) ≡ ok r
    → Fits total ps r
weighted-Fits total mode ps r e =
    let (ws, ew, e1) = >>=-eq-ok (weights_of mode ps) _ e in
    let (s, l, _, _) = allocate_by_weights-exact total ws {amounts = r.0} {remainder = r.1} e1 in
    (s, l ∙ length-weights_of mode ps ew)

mismatch-throws :
    (r r' : Calc Text) → (r >>= (λ _. r' >>= (λ _. fail_if true invalid_split))) ≢ ok tt
mismatch-throws (err x) r' e = cc
mismatch-throws (ok t) (err x) e = cc
mismatch-throws (ok t) (ok t') e = cc

assert_sum-eq : (ns : List ℕ) (total : ℕ) → assert_sum ns total ≡ ok tt → sum ns ≡ total
assert_sum-eq ns total e = ground (
  arith,
  mismatch-throws (or_money (from_stroops (pos total))) (or_money (from_stroops (pos (sum ns)))),
)

split_amounts-Fits :
    (total : ℕ) (mode : ExpenseSplitMode) (ps : List SplitParticipant) (r : List ℕ × ℕ)
    → split_amounts total mode ps ≡ ok r
    → Fits total ps r
unfolding split_amounts
split_amounts-Fits total custom ps r e =
    let (ns, en, e1) = >>=-eq-ok (traverse custom_amount ps) _ e in
    let (_, same, e2) = >>=-eq-ok (assert_sum ns total) _ e1 in
    subst (Fits total ps) (ok-injective e2)
      (assert_sum-eq ns total same, length-traverse custom_amount ps en)
split_amounts-Fits total equal ps r e = weighted-Fits total equal ps r e
split_amounts-Fits total percentage ps r e = weighted-Fits total percentage ps r e

-- A split that returns, in every mode, has one share for each participant, in their order, and the
-- shares add up to the expense to the stroop.
pub split_expense-exact :
    (amount : Text) (mode : ExpenseSplitMode) (ps : List SplitParticipant) {r : ExpenseSplitResult}
    → split_expense amount mode ps ≡ ok r
    → (sum_shares r.shares ≡ stroops_of amount)
      × (stroops_of r.amount ≡ stroops_of amount)
      × (share_users r.shares ≡ participant_users ps)
unfolding split_expense
split_expense-exact amount mode ps {r} e =
    let (total, et, e1) = >>=-eq-ok (parse_amount false amount) _ e in
    let (_, _, e2) = >>=-eq-ok (assert_participants ps) _ e1 in
    let (parts, ep, e3) = >>=-eq-ok (split_amounts total mode ps) _ e2 in
    let (t, eq, e4) = >>=-eq-ok (or_money (from_stroops (pos total))) _ e3 in
    let (ss, es, e5) = >>=-eq-ok (make_shares mode ps parts.0) _ e4 in
    let (s, l) = split_amounts-Fits total mode ps parts ep in
    let (sums, users) = make_shares-Sums mode ps parts.0 l es in
    let read = parse_amount-ok false amount et in
    subst
      (λ (x : ExpenseSplitResult).
        (sum_shares x.shares ≡ stroops_of amount)
        × (stroops_of x.amount ≡ stroops_of amount)
        × (share_users x.shares ≡ participant_users ps))
      (ok-injective e5) (sums ∙ ap pos s ∙ sym read, printed-ok (pos total) t eq ∙ sym read, users)

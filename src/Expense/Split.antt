-- ===== src/Expense/Split.antt =====
-- splitExpense of src/services/expense-calculation.ts.
pub mod Exact
pub mod Returns
use mergepay_api.Money.Decimal.{trim}
use mergepay_api.Money.Service.{from_stroops}
use mergepay_api.Expense.Parse.{
  Calc, fail, fail_if, or_money, Percent, text, number, invalid_participants, duplicate_participant,
  invalid_split, invalid_percent, parse_amount, parse_percent, percent_total,
}
use mergepay_api.Expense.Allocate.{allocate_by_weights}
use mergepay_api.Common.{
  List, Option, Text, [], any, false, if◌then◌else◌, is_empty, map, none, not, ok, pos, some, sum,
  text_eq, traverse, true, ℕ, ◌==◌, ◌>>=◌, ◌>>◌, ◌∷◌,
}

pub data ExpenseSplitMode : Type 0 where
  equal percentage custom : ExpenseSplitMode

pub record SplitParticipant : Type 0 where
  pub user_id : Text
  pub percent : Option Percent
  pub amount : Option Text

pub record ExpenseSplitShare : Type 0 where
  pub user_id : Text
  pub amount : Text
  pub percent : Option Text

pub record ExpenseSplitResult : Type 0 where
  pub amount : Text
  pub split_type : ExpenseSplitMode
  pub shares : List ExpenseSplitShare
  pub remainder_stroops : ℕ

-- The loop of `assertParticipants`, with the users seen so far.
unfoldable pub check_participants : List Text → List SplitParticipant → Calc (Unit {0})
check_participants seen [] = ok tt
check_participants seen (p ∷ ps) = do
  fail_if (is_empty (trim p.user_id)) invalid_participants
  fail_if (any (text_eq p.user_id) seen) duplicate_participant
  check_participants (p.user_id ∷ seen) ps

unfoldable pub assert_participants : List SplitParticipant → Calc (Unit {0})
assert_participants ps = do fail_if (is_empty ps) invalid_participants; check_participants [] ps

abbrev pub custom_amount : SplitParticipant → Calc ℕ
custom_amount p = elim p.amount [ none ↦ fail invalid_split | some a ↦ parse_amount true a ]

-- `String(participant.percent)`
abbrev pub percent_string : Percent → Text
percent_string (text raw) = raw
percent_string (number _ raw) = raw

-- A percent is echoed in a percentage split alone.
abbrev pub echo : ExpenseSplitMode → Option Percent → Option Text
echo percentage (some p) = some (percent_string p)
echo _ _ = none

-- `participants.map((participant, index) => …amounts[index]…)`
abbrev pub make_shares :
    ExpenseSplitMode → List SplitParticipant → List ℕ → Calc (List ExpenseSplitShare)
make_shares mode [] amounts = ok []
make_shares mode (p ∷ ps) [] = ok []
make_shares mode (p ∷ ps) (n ∷ ns) = do
  printed ← or_money (from_stroops (pos n))
  rest ← make_shares mode ps ns
  ok (record { user_id = p.user_id; amount = printed; percent = echo mode p.percent } ∷ rest)

abbrev pub make_result :
    ℕ → ExpenseSplitMode → List SplitParticipant → List ℕ × ℕ → Calc ExpenseSplitResult
make_result total mode ps (amounts, remainder) = do
  printed ← or_money (from_stroops (pos total))
  shares ← make_shares mode ps amounts
  ok (record {
    amount = printed;
    split_type = mode;
    shares = shares;
    remainder_stroops = remainder;
  })

-- The weights of a participant list, by mode; the percentages have to total 100.
unfoldable pub weights_of : ExpenseSplitMode → List SplitParticipant → Calc (List ℕ)
weights_of percentage ps = do
  weights ← traverse (λ (p : SplitParticipant). parse_percent p.percent) ps
  fail_if (not (sum weights == percent_total)) invalid_percent
  ok weights
weights_of _ ps = ok (map (λ _. 1) ps)

-- The message of the mismatch prints both sums, which throws on its own out of range.
abbrev pub assert_sum : List ℕ → ℕ → Calc (Unit {0})
assert_sum amounts total =
    if sum amounts == total
    then ok tt
    else or_money (from_stroops (pos total))
      >>= (λ _. or_money (from_stroops (pos (sum amounts))) >>= (λ _. fail invalid_split))

unfoldable pub split_amounts : ℕ → ExpenseSplitMode → List SplitParticipant → Calc (List ℕ × ℕ)
split_amounts total custom ps = do
  amounts ← traverse custom_amount ps
  assert_sum amounts total
  ok (amounts, 0)
split_amounts total mode ps = do weights ← weights_of mode ps; allocate_by_weights total weights

unfoldable pub split_expense :
    Text → ExpenseSplitMode → List SplitParticipant → Calc ExpenseSplitResult
split_expense amount mode ps = do
  total ← parse_amount false amount
  assert_participants ps
  parts ← split_amounts total mode ps
  make_result total mode ps parts

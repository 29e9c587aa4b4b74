-- ===== src/GroupBalances/Limit.antt =====
-- verifySettlementLimit of src/services/group-balances.ts, on the rows of one group.
use mergepay_api.Common.{
  Bool, List, Result, Text, [], err, false, if◌then◌else◌, keep, ltb_ℤ, not, ok, pos, text_eq,
  throw_if, true, ℤ, ◌&&◌, ◌+ℤ◌, ◌-ℤ◌, ◌>>=◌, ◌||◌, ◌∷◌,
}
use mergepay_api.Machine.Status.{SettlementStatus, failed}
use mergepay_api.Money.Service.{to_stroops}
use mergepay_api.Money.Amount.{MoneyError}

pub record ShareRow : Type 0 where
  pub user_id : Text
  pub share_amount : Text
  pub settled : Bool

pub record ExpenseRow : Type 0 where
  pub payer_user_id : Text
  pub asset_code : Text
  pub shares : List ShareRow

pub record SettlementRow : Type 0 where
  pub from_user_id : Text
  pub to_user_id : Text
  pub amount : Text
  pub asset_code : Text
  pub status : SettlementStatus

pub data LimitError : Type 0 where
  money : MoneyError → LimitError
  over_settlement : LimitError

abbrev pub of_money {ℓ} : {A : Type ℓ} → Result MoneyError A → Result LimitError A
of_money (ok a) = ok a
of_money (err e) = err (money e)

abbrev pub has_failed : SettlementStatus → Bool
has_failed failed = true
has_failed _ = false

-- The two users, in one direction.
abbrev pub between : Text → Text → Text → Text → Bool
between a b x y = text_eq x a && text_eq y b

-- The rows that the queries return.
abbrev pub share_selected : Text → Text → ShareRow → Bool
share_selected from to s = text_eq s.user_id from || text_eq s.user_id to

abbrev pub settlement_selected : Text → Text → SettlementRow → Bool
settlement_selected from to s =
    not (has_failed s.status)
    && (between from to s.from_user_id s.to_user_id || between to from s.from_user_id s.to_user_id)

abbrev pub read_and : Text → (ℤ → ℤ) → Result MoneyError ℤ
read_and text next = do z ← to_stroops text; ok (next z)

unfoldable pub add_share_debt : Text → Text → Text → ℤ → ShareRow → Result MoneyError ℤ
add_share_debt from to payer debt s =
    if s.settled
    then ok debt
    else if between from to s.user_id payer
    then read_and s.share_amount (λ z. debt +ℤ z)
    else if between to from s.user_id payer
    then read_and s.share_amount (λ z. debt -ℤ z)
    else ok debt

unfoldable pub add_share_debts : Text → Text → Text → ℤ → List ShareRow → Result MoneyError ℤ
add_share_debts from to payer debt [] = ok debt
add_share_debts from to payer debt (s ∷ shares) = do
  debt' ← add_share_debt from to payer debt s
  add_share_debts from to payer debt' shares

unfoldable pub add_expense_debts : Text → Text → ℤ → List ExpenseRow → Result MoneyError ℤ
add_expense_debts from to debt [] = ok debt
add_expense_debts from to debt (e ∷ expenses) = do
  debt' ← add_share_debts from to e.payer_user_id debt (keep (share_selected from to) e.shares)
  add_expense_debts from to debt' expenses

unfoldable pub add_transfer : Text → Text → ℤ → SettlementRow → Result MoneyError ℤ
add_transfer from to debt s =
    if between from to s.from_user_id s.to_user_id
    then read_and s.amount (λ z. debt -ℤ z)
    else if between to from s.from_user_id s.to_user_id
    then read_and s.amount (λ z. debt +ℤ z)
    else ok debt

unfoldable pub add_transfers : Text → Text → ℤ → List SettlementRow → Result MoneyError ℤ
add_transfers from to debt [] = ok debt
add_transfers from to debt (s ∷ settlements) = do
  debt' ← add_transfer from to debt s
  add_transfers from to debt' settlements

unfoldable pub verify_settlement_limit :
    List ExpenseRow → List SettlementRow → Text → Text → Text → Result LimitError (Unit {0})
verify_settlement_limit expenses settlements from to amount = do
  debt ← of_money (add_expense_debts from to (pos 0) expenses)
  debt' ← of_money (add_transfers from to debt (keep (settlement_selected from to) settlements))
  requested ← of_money (to_stroops amount)
  throw_if (ltb_ℤ debt' requested) over_settlement

-- ===== src/Settlement/Ledger.antt =====
-- The measures by which the engine's inputs and outputs are compared: the stroops that a decimal
-- text stands for, and sums of them over rows.
use mergepay_api.Money.Service.{to_stroops}
use mergepay_api.Settlement.Balances.{NetBalance, BalanceShareRow, BalanceSettlementRow}
use mergepay_api.Settlement.Suggest.{Suggestion}
use mergepay_api.Common.{
  Bool, List, Text, [], err, if◌then◌else◌, not, ok, pos, text_eq, ℤ, ◌+ℤ◌, ◌||◌, ◌∷◌, ◌≡◌,
}

-- The stroops of a decimal text, 0 if it is none.
unfoldable pub stroops_of : Text → ℤ
stroops_of t = elim (to_stroops t) [ ok z ↦ z | err _ ↦ pos 0 ]

abbrev pub when_ℤ : Bool → ℤ → ℤ
when_ℤ b z = if b then z else pos 0

-- The nets of all members together.
abbrev pub total_net : List NetBalance → ℤ
total_net [] = pos 0
total_net (b ∷ bs) = stroops_of b.net +ℤ total_net bs

-- The net of the member `u`.
abbrev pub net_of : Text → List NetBalance → ℤ
net_of u [] = pos 0
net_of u (b ∷ bs) = when_ℤ (text_eq b.user_id u) (stroops_of b.net) +ℤ net_of u bs

-- What the suggested transfers take from the member `u`, and give to it.
abbrev pub pays : Text → List Suggestion → ℤ
pays u [] = pos 0
pays u (s ∷ ss) = when_ℤ (text_eq s.from_user_id u) (stroops_of s.amount) +ℤ pays u ss

abbrev pub gets : Text → List Suggestion → ℤ
gets u [] = pos 0
gets u (s ∷ ss) = when_ℤ (text_eq s.to_user_id u) (stroops_of s.amount) +ℤ gets u ss

-- A share is a debt of its owner to the payer unless it is settled or the payer's own.
abbrev pub is_debt : BalanceShareRow → Bool
is_debt s = not (s.settled || text_eq s.user_id s.payer_user_id)

abbrev pub share_debt : BalanceShareRow → ℤ
share_debt s = when_ℤ (is_debt s) (stroops_of s.share_amount)

-- What is owed to `u` by the shares, and what `u` owes by them.
abbrev pub owed_to : Text → List BalanceShareRow → ℤ
owed_to u [] = pos 0
owed_to u (s ∷ ss) = when_ℤ (text_eq s.payer_user_id u) (share_debt s) +ℤ owed_to u ss

abbrev pub owes : Text → List BalanceShareRow → ℤ
owes u [] = pos 0
owes u (s ∷ ss) = when_ℤ (text_eq s.user_id u) (share_debt s) +ℤ owes u ss

-- Confirmed settlements that `u` has paid, and has received.
abbrev pub confirmed_amount : BalanceSettlementRow → ℤ
confirmed_amount s = when_ℤ s.confirmed (stroops_of s.amount)

abbrev pub has_paid : Text → List BalanceSettlementRow → ℤ
has_paid u [] = pos 0
has_paid u (s ∷ ss) = when_ℤ (text_eq s.from_user_id u) (confirmed_amount s) +ℤ has_paid u ss

abbrev pub has_received : Text → List BalanceSettlementRow → ℤ
has_received u [] = pos 0
has_received u (s ∷ ss) = when_ℤ (text_eq s.to_user_id u) (confirmed_amount s) +ℤ has_received u ss

pub stroops_of-ok : (t : Text) (z : ℤ) → to_stroops t ≡ ok z → stroops_of t ≡ z
unfolding stroops_of
stroops_of-ok t z e = rw (e, stroops_of)

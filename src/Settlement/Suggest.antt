-- ===== src/Settlement/Suggest.antt =====
-- suggestSettlements of src/services/settlement.ts: the greedy settle-up of a balance sheet.
pub mod Loop
pub mod Clears
pub mod Returns
use mergepay_api.Common.{
  Bool, List, Result, Text, [], false, if◌then◌else◌, length, ltb, ltb_ℤ, magnitude, ok, pos, suc,
  traverse, true, zero, ℕ, ℤ, ◌+◌, ◌-◌, ◌==◌, ◌>>=◌, ◌>>◌, ◌∷◌,
}
use mergepay_api.Money.Amount.{MoneyError}
use mergepay_api.Money.Service.{to_stroops, from_stroops}
use mergepay_api.Settlement.Balances.{NetBalance}

-- A debtor or a creditor, with what is left of the amount.
pub record Party : Type 0 where
  pub user_id : Text
  pub amount : ℕ

pub record Transfer : Type 0 where
  pub from_user_id : Text
  pub to_user_id : Text
  pub stroops : ℕ

pub record Suggestion : Type 0 where
  pub from_user_id : Text
  pub to_user_id : Text
  pub amount : Text

-- A member joins the debtors, the creditors or neither, by the sign of the balance.
abbrev pub place : Text → ℤ → List Party × List Party → List Party × List Party
place u stroops (debtors, creditors) =
    let party : Party = record { user_id = u; amount = magnitude stroops } in
    if ltb_ℤ stroops (pos 0)
    then (party ∷ debtors, creditors)
    else if ltb_ℤ (pos 0) stroops
    then (debtors, party ∷ creditors)
    else (debtors, creditors)

-- The debtors and the creditors, in the order of the input.
unfoldable pub sides : List NetBalance → Result MoneyError (List Party × List Party)
sides [] = ok ([], [])
sides (b ∷ bs) = do stroops ← to_stroops b.net; rest ← sides bs; ok (place b.user_id stroops rest)

-- One step of an insertion sort under `(a, b) => (b.amount > a.amount ? 1 : -1)`. That comparator
-- never answers 0, so of two equal amounts the later one moves in front.
unfoldable pub insert_party : Party → List Party → List Party
insert_party p [] = p ∷ []
insert_party p (q ∷ qs) = if ltb p.amount q.amount then q ∷ insert_party p qs else p ∷ q ∷ qs

unfoldable pub sort_parties : List Party → List Party → List Party
sort_parties sorted [] = sorted
sort_parties sorted (p ∷ ps) = sort_parties (insert_party p sorted) ps

-- `party.amount -= transfer`, and the index moves on when nothing is left.
unfoldable pub pay_down : ℕ → Party → List Party → List Party
pay_down t p ps = if p.amount - t == 0 then ps else record p { amount = p.amount - t } ∷ ps

-- The `while` loop over both arrays, on fuel; each round moves one of the indices.
unfoldable pub settle : ℕ → List Party → List Party → List Transfer
settle zero ds cs = []
settle (suc f) [] cs = []
settle (suc f) (d ∷ ds) [] = []
settle (suc f) (d ∷ ds) (c ∷ cs) =
    let t : ℕ = if ltb d.amount c.amount then d.amount else c.amount in
    let rest = settle f (pay_down t d ds) (pay_down t c cs) in
    if ltb 0 t
    then record { from_user_id = d.user_id; to_user_id = c.user_id; stroops = t } ∷ rest
    else rest

unfoldable pub transfers : List Party → List Party → List Transfer
transfers debtors creditors =
    settle (length debtors + length creditors) (sort_parties [] debtors) (sort_parties [] creditors)

abbrev pub to_suggestion : Transfer → Result MoneyError Suggestion
to_suggestion t = do
  text ← from_stroops (pos t.stroops)
  ok (record { from_user_id = t.from_user_id; to_user_id = t.to_user_id; amount = text })

unfoldable pub suggest_settlements : List NetBalance → Result MoneyError (List Suggestion)
suggest_settlements balances = do
  parts ← sides balances
  traverse to_suggestion (transfers parts.0 parts.1)

unfoldable pub is_all_settled : List NetBalance → Result MoneyError Bool
is_all_settled [] = ok true
is_all_settled (b ∷ bs) = do
  stroops ← to_stroops b.net
  if magnitude stroops == 0 then is_all_settled bs else ok false

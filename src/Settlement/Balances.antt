-- ===== src/Settlement/Balances.antt =====
-- computeNetBalances of src/services/settlement.ts: the signed balance of each member.
pub mod Conserve
use mergepay_api.Common.{
  Bool, List, Result, Text, [], if◌then◌else◌, map_get, map_set, neg, none, not, ok, pos, some,
  text_eq, traverse, ℤ, ◌+ℤ◌, ◌>>=◌, ◌>>◌, ◌||◌, ◌∷◌,
}
use mergepay_api.Money.Amount.{MoneyError}
use mergepay_api.Money.Service.{to_stroops, from_stroops}

pub record BalanceShareRow : Type 0 where
  pub payer_user_id : Text
  pub user_id : Text
  pub share_amount : Text
  pub settled : Bool

pub record BalanceSettlementRow : Type 0 where
  pub from_user_id : Text
  pub to_user_id : Text
  pub amount : Text
  pub confirmed : Bool

pub record NetBalance : Type 0 where
  pub user_id : Text
  pub net : Text

-- `Map<string, bigint>`
abbrev pub Nets : Type 0
Nets = List (Text × ℤ)

-- `net.get(userId) ?? 0n`
abbrev pub balance_of : Text → Nets → ℤ
balance_of u net = elim (map_get u net) [ none ↦ pos 0 | some z ↦ z ]

unfoldable pub add : Text → ℤ → Nets → Nets
add u delta net = map_set u (balance_of u net +ℤ delta) net

unfoldable pub add_share : Nets → BalanceShareRow → Result MoneyError Nets
add_share net s = if s.settled || text_eq s.user_id s.payer_user_id then ok net else do
  amt ← to_stroops s.share_amount
  ok (add s.user_id (neg amt) (add s.payer_user_id amt net))

unfoldable pub add_settlement : Nets → BalanceSettlementRow → Result MoneyError Nets
add_settlement net st = if not st.confirmed then ok net else do
  amt ← to_stroops st.amount
  ok (add st.to_user_id (neg amt) (add st.from_user_id amt net))

unfoldable pub add_shares : Nets → List BalanceShareRow → Result MoneyError Nets
add_shares net [] = ok net
add_shares net (s ∷ ss) = do net' ← add_share net s; add_shares net' ss

unfoldable pub add_settlements : Nets → List BalanceSettlementRow → Result MoneyError Nets
add_settlements net [] = ok net
add_settlements net (s ∷ ss) = do net' ← add_settlement net s; add_settlements net' ss

unfoldable pub net_map : List BalanceShareRow → List BalanceSettlementRow → Result MoneyError Nets
net_map shares settlements = do net ← add_shares [] shares; add_settlements net settlements

abbrev pub to_net_balance : Text × ℤ → Result MoneyError NetBalance
to_net_balance (u, z) = do text ← from_stroops z; ok (record { user_id = u; net = text })

unfoldable pub compute_net_balances :
    List BalanceShareRow → List BalanceSettlementRow → Result MoneyError (List NetBalance)
compute_net_balances shares settlements = do
  net ← net_map shares settlements
  traverse to_net_balance net

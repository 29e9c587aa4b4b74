-- ===== src/Settlement/Shares.antt =====
-- computeShares of src/services/settlement.ts: the split of an expense across its participants.
pub mod Exact
use mergepay_api.Common.{
  Bool, List, Option, Result, Text, [], div_ℤ, eqb_ℤ, err, if◌then◌else◌, is_empty, length, ltb_ℤ,
  magnitude, map, none, not, ok, pos, scale, some, sum, throw_if, traverse, ℕ, ℤ, ◌+ℤ◌, ◌-ℤ◌, ◌/◌,
  ◌>>=◌, ◌>>◌, ◌∷◌,
}
use mergepay_api.Money.Amount.{MoneyError}
use mergepay_api.Money.Service.{to_stroops, from_stroops}

pub data SplitType : Type 0 where
  equal custom percentage : SplitType

pub data SettlementEngineError : Type 0 where
  invalid_split_amount invalid_split_participant invalid_split_sum : SettlementEngineError
  invalid_split_percent unsupported_asset : SettlementEngineError
  money : MoneyError → SettlementEngineError

-- The JavaScript numbers in which percentages arrive: a sum, the test `Math.abs(p - 100) > 0.001`
-- and `Math.round(p * 1000)`. Nothing is assumed of them.
pub record Numbers : Type 1 where
  pub Number : Type 0
  pub zero_number : Number
  pub add : Number → Number → Number
  pub is_off_hundred : Number → Bool
  pub round_milli : Number → ℤ

pub record ComputedShare : Type 0 where
  pub user_id : Text
  pub share_amount : Text

pub record Part : Type 0 where
  pub user_id : Text
  pub stroops : ℤ

abbrev pub sum_parts : List Part → ℤ
sum_parts [] = pos 0
sum_parts (p ∷ ps) = p.stroops +ℤ sum_parts ps

abbrev pub or_money {ℓ} : {A : Type ℓ} → Result MoneyError A → Result SettlementEngineError A
or_money (ok a) = ok a
or_money (err e) = err (money e)

abbrev pub to_share : Part → Result SettlementEngineError ComputedShare
to_share p = do
  text ← or_money (from_stroops p.stroops)
  ok (record { user_id = p.user_id; share_amount = text })

-- `computed[0].stroops += remainder`
abbrev pub absorb : ℤ → List Part → List Part
absorb r [] = []
absorb r (p ∷ ps) = record p { stroops = p.stroops +ℤ r } ∷ ps

unfoldable pub fix_remainder : List Part → ℤ → Result SettlementEngineError (List ComputedShare)
fix_remainder computed total = traverse to_share (absorb (total -ℤ sum_parts computed) computed)

module _ (n : Numbers) where
  pub record ShareInput : Type 0 where
    pub user_id : Text
    pub amount : Option Text
    pub percent : Option n.Number

abbrev pub custom_stroops : Option Text → Result SettlementEngineError ℤ
custom_stroops none = err invalid_split_sum
custom_stroops (some a) = or_money (to_stroops a)

-- The message of the mismatch prints the sum, which throws on its own where it is out of range.
abbrev pub assert_sum : ℤ → ℤ → Result SettlementEngineError (Unit {0})
assert_sum sum total =
    if eqb_ℤ sum total then ok tt else or_money (from_stroops sum) >>= (λ _. err invalid_split_sum)

module _ {n : Numbers} where
  abbrev pub custom_part : ShareInput n → Result SettlementEngineError Part
  custom_part s = do v ← custom_stroops s.amount; ok (record { user_id = s.user_id; stroops = v })

  abbrev pub percent_total : n.Number → List (ShareInput n) → Result SettlementEngineError n.Number
  percent_total acc [] = ok acc
  percent_total acc (s ∷ ss) = elim s.percent [
    | none ↦ err invalid_split_percent
    | some p ↦ percent_total (n.add acc p) ss
  ]

  -- `(total * pctMilli) / 100000n`
  abbrev pub percent_part : ℕ → ShareInput n → Part
  percent_part total s = record {
    user_id = s.user_id;
    stroops = div_ℤ (scale total (percent_milli s.percent)) 100000;
  }
    where
      percent_milli : Option n.Number → ℤ
      percent_milli none = n.round_milli n.zero_number
      percent_milli (some p) = n.round_milli p

  abbrev pub equal_part : ℕ → ShareInput n → Part
  equal_part base s = record { user_id = s.user_id; stroops = pos base }

  -- The three modes, on a positive total.
  unfoldable pub split_total :
      ℕ → SplitType → List (ShareInput n) → Result SettlementEngineError (List ComputedShare)
  split_total total custom shares = do
    computed ← traverse custom_part shares
    assert_sum (sum_parts computed) (pos total)
    traverse to_share computed
  split_total total percentage shares = do
    pct_total ← percent_total n.zero_number shares
    throw_if (n.is_off_hundred pct_total) invalid_split_percent
    fix_remainder (map (percent_part total) shares) (pos total)
  split_total total equal shares =
      fix_remainder (map (equal_part (total / length shares)) shares) (pos total)

  unfoldable pub compute_shares :
      Text → SplitType → List (ShareInput n) → Result SettlementEngineError (List ComputedShare)
  compute_shares amount split_type shares = do
    throw_if (is_empty shares) invalid_split_participant
    total ← or_money (to_stroops amount)
    throw_if (not (ltb_ℤ (pos 0) total)) invalid_split_amount
    split_total (magnitude total) split_type shares

-- ===== src/Expense/Allocate.antt =====
-- allocateByWeights, convertAllocations and divideRounded of src/services/expense-calculation.ts.
-- The bigints here come from parsed amounts and weights, which are not negative.
pub mod Order
pub mod Exact
use mergepay_api.Expense.Parse.{
  Calc, fail_if, invalid_split, amount_overflow, rate_scale, assert_within_stroop_range,
}
use mergepay_api.Common.{
  Bool, List, [], get_or, if◌then◌else◌, is_empty, leb, length, ltb, ok, suc, sum, zero, ℕ, ◌%◌,
  ◌*◌, ◌+◌, ◌-◌, ◌/◌, ◌==◌, ◌>>◌, ◌∷◌,
}

-- `amounts.map((_, index) => index)`, from `i` on.
unfoldable pub indices : ℕ → ℕ → List ℕ
indices zero i = []
indices (suc n) i = i ∷ indices n (suc i)

-- The comparator of the sort: the larger remainder first, and of equal ones the smaller index.
abbrev pub comes_first : List ℕ → ℕ → ℕ → Bool
comes_first remainders left right =
    if get_or remainders left 0 == get_or remainders right 0
    then ltb left right
    else ltb (get_or remainders right 0) (get_or remainders left 0)

unfoldable pub insert_index : List ℕ → ℕ → List ℕ → List ℕ
insert_index remainders i [] = i ∷ []
insert_index remainders i (j ∷ js) =
    if comes_first remainders i j then i ∷ j ∷ js else j ∷ insert_index remainders i js

unfoldable pub sort_indices : List ℕ → List ℕ → List ℕ
sort_indices remainders [] = []
sort_indices remainders (i ∷ is) = insert_index remainders i (sort_indices remainders is)

-- `amounts[index] += 1n`
unfoldable pub bump : ℕ → List ℕ → List ℕ
bump i [] = []
bump zero (a ∷ xs) = (a + 1) ∷ xs
bump (suc i) (a ∷ xs) = a ∷ bump i xs

-- The loop over the order, which breaks when nothing remains.
unfoldable pub hand_out : ℕ → List ℕ → List ℕ → List ℕ
hand_out remaining [] amounts = amounts
hand_out remaining (i ∷ order) amounts =
    let rest = hand_out (remaining - 1) order (bump i amounts) in
    if remaining == 0 then amounts else rest

-- Each remainder-ordered index receives one unit until `extra` units are given.
unfoldable pub by_largest_remainder : ℕ → List ℕ → List ℕ → List ℕ
by_largest_remainder extra remainders amounts =
    if ltb 0 extra
    then hand_out extra (sort_indices remainders (indices (length amounts) 0)) amounts
    else amounts

abbrev pub floors : ℕ → ℕ → List ℕ → List ℕ
floors factor divisor [] = []
floors factor divisor (w ∷ ws) = (factor * w / divisor) ∷ floors factor divisor ws

abbrev pub residues : ℕ → ℕ → List ℕ → List ℕ
residues factor divisor [] = []
residues factor divisor (w ∷ ws) = (factor * w % divisor) ∷ residues factor divisor ws

-- The amounts, and `remainderStroops`.
unfoldable pub allocate_by_weights : ℕ → List ℕ → Calc (List ℕ × ℕ)
allocate_by_weights total weights = do
  let weight_sum = sum weights
  fail_if (weight_sum == 0) invalid_split
  let amounts = floors total weight_sum weights
  let distributed = total - sum amounts
  ok (by_largest_remainder distributed (residues total weight_sum weights) amounts, distributed)

unfoldable pub convert_allocations : List ℕ → ℕ → Calc (List ℕ)
convert_allocations amounts rate = if is_empty amounts then ok [] else do
  let target_total = sum amounts * rate / rate_scale
  assert_within_stroop_range target_total amount_overflow
  let converted = floors rate rate_scale amounts
  let residual = target_total - sum converted
  ok (by_largest_remainder residual (residues rate rate_scale amounts) converted)

pub data ConversionRounding : Type 0 where
  down up half_up : ConversionRounding

-- The three modes of the type; any other string is an INVALID_ROUNDING error in the source.
unfoldable pub divide_rounded : ℕ → ℕ → ConversionRounding → ℕ
divide_rounded numerator denominator rounding =
    if numerator % denominator == 0 then numerator / denominator else elim rounding [
      | down ↦ numerator / denominator
      | up ↦ numerator / denominator + 1
      | half_up ↦
          if leb denominator (numerator % denominator * 2)
          then numerator / denominator + 1
          else numerator / denominator
    ]

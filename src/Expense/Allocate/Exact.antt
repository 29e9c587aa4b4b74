-- ===== src/Expense/Allocate/Exact.antt =====
-- The largest-remainder allocation neither creates nor destroys a unit.
use mergepay_api.Expense.Parse.{
  amount_overflow, assert_within_stroop_range, fail_if, invalid_split, rate_scale,
}
use mergepay_api.Expense.Allocate.{
  floors, residues, by_largest_remainder, allocate_by_weights, convert_allocations,
}
use mergepay_api.Expense.Allocate.Order.{
  sum-by_largest_remainder, length-by_largest_remainder, get_or-by_largest_remainder,
}
use mergepay_api.Common.{
  >>=-eq-ok, List, [], ap, arith, get_or, length, ok, ok-injective, refl, subst, suc, sum, ℕ, ◌%◌,
  ◌*◌, ◌+◌, ◌-◌, ◌/◌, ◌<◌, ◌==◌, ◌∙◌, ◌∷◌, ◌≡◌, ◌≤◌,
}

module _ (t d : ℕ) where
  length-floors : (ws : List ℕ) → length (floors t d ws) ≡ length ws
  length-floors [] = refl
  length-floors (w ∷ ws) = ap suc (length-floors ws)

  -- Quotients and remainders together make up the product.
  sum-floors-residues : (ws : List ℕ) → d * sum (floors t d ws) + sum (residues t d ws) ≡ t * sum ws
  sum-floors-residues [] = omega arith
  sum-floors-residues (w ∷ ws) = omega (arith, sum-floors-residues ws)

  -- The remainders leave less than one unit for each weight.
  sum-residues : 0 < d → (ws : List ℕ) → sum (residues t d ws) + length ws ≤ d * length ws
  sum-residues h [] = omega arith
  sum-residues h (w ∷ ws) = omega (arith, sum-residues h ws)

mul_cancel_le : (w a b : ℕ) → 0 < w → w * a ≤ w * b → a ≤ b
mul_cancel_le w a b h k = grind arith

mul_cancel_lt : (w a b : ℕ) → w * a < w * b → a < b
mul_cancel_lt w a b k = grind arith

-- The floors leave less than one unit for each weight.
floors_leave :
    (t d c r : ℕ) (ws : List ℕ)
    → r < d
    → 0 < length ws
    → d * c + r ≡ t * sum ws
    → (sum (floors t d ws) ≤ c) × (c - sum (floors t d ws) < length ws)
floors_leave t d c r ws small pos_n e =
    let q = sum (floors t d ws) in
    let parts = sum-floors-residues t d ws in
    let few = sum-residues t d (omega arith) ws in
    let below : q < c + 1 = mul_cancel_lt d q (c + 1) (omega arith) in
    let k = c - q in
    let split : c ≡ q + k = omega arith in
    let scaled = ap (λ (x : ℕ). d * x) split in
    let gap : k < length ws = mul_cancel_lt d k (length ws) (omega arith) in (omega arith, gap)

abbrev Exact : ℕ → List ℕ → List ℕ × ℕ → Type 0
Exact total weights (amounts, remainder) =
    (sum amounts ≡ total)
    × (length amounts ≡ length weights)
    × (remainder < length weights)
    × ((k : ℕ)
        → (get_or (floors total (sum weights) weights) k 0 ≤ get_or amounts k 0)
          × (get_or amounts k 0 ≤ get_or (floors total (sum weights) weights) k 0 + 1))

length_of_sum : (ws : List ℕ) → 0 < sum ws → 0 < length ws
length_of_sum [] h = h
length_of_sum (w ∷ ws) h = omega arith

by_largest_remainder-Exact :
    (total : ℕ) (ws rs : List ℕ)
    → 0 < sum ws
    → let q = floors total (sum ws) ws in
      Exact total ws (by_largest_remainder (total - sum q) rs q, total - sum q)
by_largest_remainder-Exact total ws rs h =
    let q = floors total (sum ws) ws in
    let extra = total - sum q in
    let (le, lt) = floors_leave total (sum ws) total 0 ws h (length_of_sum ws h) (omega arith) in
    let n = length-floors total (sum ws) ws in
    (
      omega (arith, sum-by_largest_remainder extra rs q (omega arith)),
      length-by_largest_remainder extra rs q ∙ n,
      lt,
      λ k. get_or-by_largest_remainder extra rs q k,
    )

-- A weighted split that returns hands out exactly the total, one amount for each weight; each
-- amount is the floor of its weighted part or one more, and fewer units than there are weights
-- were left over by the floors.
pub allocate_by_weights-exact :
    (total : ℕ) (weights : List ℕ) {amounts : List ℕ} {remainder : ℕ}
    → allocate_by_weights total weights ≡ ok (amounts, remainder)
    → (sum amounts ≡ total)
      × (length amounts ≡ length weights)
      × (remainder < length weights)
      × ((k : ℕ)
          → (get_or (floors total (sum weights) weights) k 0 ≤ get_or amounts k 0)
            × (get_or amounts k 0 ≤ get_or (floors total (sum weights) weights) k 0 + 1))
unfolding allocate_by_weights
allocate_by_weights-exact total weights {amounts} {remainder} e =
    let (_, positive, e1) = >>=-eq-ok (fail_if (sum weights == 0) invalid_split) _ e in
    let h : 0 < sum weights = ground arith in
    subst (Exact total weights) (ok-injective e1) (by_largest_remainder-Exact total weights _ h)

-- A conversion that returns keeps the total: the converted amounts sum to the floor of the
-- converted sum, one for each amount, and each is its own floor or one more.
pub convert_allocations-exact :
    (amounts : List ℕ) (rate : ℕ) {converted : List ℕ}
    → convert_allocations amounts rate ≡ ok converted
    → (sum converted ≡ sum amounts * rate / rate_scale)
      × (length converted ≡ length amounts)
      × ((k : ℕ)
          → (get_or (floors rate rate_scale amounts) k 0 ≤ get_or converted k 0)
            × (get_or converted k 0 ≤ get_or (floors rate rate_scale amounts) k 0 + 1))
unfolding convert_allocations
convert_allocations-exact [] rate {converted} e =
    subst
      (λ c.
        (sum c ≡ 0 * rate / rate_scale)
        × (length c ≡ 0)
        × ((k : ℕ) → (0 ≤ get_or c k 0) × (get_or c k 0 ≤ 0 + 1)))
      (ok-injective e) (omega arith, refl, λ k. omega arith)
convert_allocations-exact (a ∷ amounts) rate {converted} e =
    let ws : List ℕ = a ∷ amounts in
    let target = sum ws * rate / rate_scale in
    let (_, in_range, e1) = >>=-eq-ok (assert_within_stroop_range target amount_overflow) _ e in
    let q = floors rate rate_scale ws in
    let rs = residues rate rate_scale ws in
    let extra = target - sum q in
    let (le, lt) =
      floors_leave rate rate_scale target (rate * sum ws % rate_scale) ws (omega arith)
        (omega arith) (omega arith) in
    let n = length-floors rate rate_scale ws in
    subst
      (λ c.
        (sum c ≡ target)
        × (length c ≡ length ws)
        × ((k : ℕ) → (get_or q k 0 ≤ get_or c k 0) × (get_or c k 0 ≤ get_or q k 0 + 1)))
      (ok-injective e1)
      (
        omega (arith, sum-by_largest_remainder extra rs q (omega arith)),
        length-by_largest_remainder extra rs q ∙ n,
        λ k. get_or-by_largest_remainder extra rs q k,
      )

-- ===== src/Expense/Allocate/Order.antt =====
-- The order in which the leftover units are handed out holds every index once, and what the loop
-- over it does to the amounts.
use mergepay_api.Expense.Allocate.{
  indices, insert_index, sort_indices, bump, hand_out, by_largest_remainder,
}
use mergepay_api.Common.{
  All, List, [], ap, arith, get_or, if◌then◌else◌, length, min, refl, subst, suc, sum, sym, zero, ℕ,
  ◌+◌, ◌-◌, ◌<◌, ◌==◌, ◌∷◌, ◌≡◌, ◌≤◌,
}

abbrev pub count : ℕ → List ℕ → ℕ
count a [] = 0
count a (x ∷ xs) = (if x == a then 1 else 0) + count a xs

abbrev Below : ℕ → List ℕ → Type 0
Below n = All (λ i. i < n)

count-insert_index :
    (rs : List ℕ) (k i : ℕ) (js : List ℕ) → count k (insert_index rs i js) ≡ count k (i ∷ js)
unfolding insert_index
count-insert_index rs k i [] = refl
count-insert_index rs k i (j ∷ js) = ground (arith, count-insert_index rs k i js)

count-sort_indices : (rs : List ℕ) (k : ℕ) (is : List ℕ) → count k (sort_indices rs is) ≡ count k is
unfolding sort_indices
count-sort_indices rs k [] = refl
count-sort_indices rs k (i ∷ is) =
    omega (arith, count-insert_index rs k i (sort_indices rs is), count-sort_indices rs k is)

length-insert_index :
    (rs : List ℕ) (i : ℕ) (js : List ℕ) → length (insert_index rs i js) ≡ suc (length js)
unfolding insert_index
length-insert_index rs i [] = refl
length-insert_index rs i (j ∷ js) = ground (arith, length-insert_index rs i js)

length-sort_indices : (rs is : List ℕ) → length (sort_indices rs is) ≡ length is
unfolding sort_indices
length-sort_indices rs [] = refl
length-sort_indices rs (i ∷ is) =
    omega (arith, length-insert_index rs i (sort_indices rs is), length-sort_indices rs is)

length-indices : (n i : ℕ) → length (indices n i) ≡ n
unfolding indices
length-indices zero i = refl
length-indices (suc n) i = ap suc (length-indices n (suc i))

insert_index-Below :
    (rs : List ℕ) (n i : ℕ) (js : List ℕ) → i < n → Below n js → Below n (insert_index rs i js)
unfolding insert_index
insert_index-Below rs n i [] h hs = (h, tt)
insert_index-Below rs n i (j ∷ js) h hs = ground (arith, insert_index-Below rs n i js h hs.1)

sort_indices-Below : (rs : List ℕ) (n : ℕ) (is : List ℕ) → Below n is → Below n (sort_indices rs is)
unfolding sort_indices
sort_indices-Below rs n [] h = tt
sort_indices-Below rs n (i ∷ is) h =
    insert_index-Below rs n i (sort_indices rs is) h.0 (sort_indices-Below rs n is h.1)

indices-Below : (n i m : ℕ) → n + i ≤ m → Below m (indices n i)
unfolding indices
indices-Below zero i m h = tt
indices-Below (suc n) i m h = (omega arith, indices-Below n (suc i) m (omega arith))

-- No index stands before its start, and each stands once at most.
count-indices_low : (n i k : ℕ) → k < i → count k (indices n i) ≡ 0
unfolding indices
count-indices_low zero i k h = refl
count-indices_low (suc n) i k h = ground (arith, count-indices_low n (suc i) k)

count-indices : (n i k : ℕ) → count k (indices n i) ≤ 1
unfolding indices
count-indices zero i k = omega arith
count-indices (suc n) i k = ground (arith, count-indices n (suc i) k, count-indices_low n (suc i) k)

length-bump : (i : ℕ) (xs : List ℕ) → length (bump i xs) ≡ length xs
unfolding bump
length-bump i [] = refl
length-bump zero (a ∷ xs) = refl
length-bump (suc i) (a ∷ xs) = ap suc (length-bump i xs)

sum-bump : (i : ℕ) (xs : List ℕ) → i < length xs → sum (bump i xs) ≡ sum xs + 1
unfolding bump
sum-bump i [] h = absurd (omega arith)
sum-bump zero (a ∷ xs) h = omega arith
sum-bump (suc i) (a ∷ xs) h = omega (arith, sum-bump i xs (omega arith))

get_or-bump :
    (k i : ℕ) (xs : List ℕ)
    → (get_or xs k 0 ≤ get_or (bump i xs) k 0)
      × (get_or (bump i xs) k 0 ≤ get_or xs k 0 + (if i == k then 1 else 0))
unfolding bump
get_or-bump k i [] = ground arith
get_or-bump zero zero (a ∷ xs) = ground arith
get_or-bump (suc k) zero (a ∷ xs) = ground arith
get_or-bump zero (suc i) (a ∷ xs) = ground arith
get_or-bump (suc k) (suc i) (a ∷ xs) = ground (arith, get_or-bump k i xs)

sum-hand_out :
    (r : ℕ) (order xs : List ℕ)
    → Below (length xs) order
    → sum (hand_out r order xs) ≡ sum xs + min r (length order)
unfolding hand_out
sum-hand_out r [] xs h = omega arith
sum-hand_out r (i ∷ order) xs h =
    let below = subst (λ n. Below n order) (sym (length-bump i xs)) h.1 in
    ground (arith, sum-hand_out (r - 1) order (bump i xs) below, sum-bump i xs h.0)

length-hand_out : (r : ℕ) (order xs : List ℕ) → length (hand_out r order xs) ≡ length xs
unfolding hand_out
length-hand_out r [] xs = refl
length-hand_out r (i ∷ order) xs =
    ground (arith, length-hand_out (r - 1) order (bump i xs), length-bump i xs)

get_or-hand_out :
    (r : ℕ) (order xs : List ℕ) (k : ℕ)
    → (get_or xs k 0 ≤ get_or (hand_out r order xs) k 0)
      × (get_or (hand_out r order xs) k 0 ≤ get_or xs k 0 + count k order)
unfolding hand_out
get_or-hand_out r [] xs k = omega arith
get_or-hand_out r (i ∷ order) xs k =
    ground (arith, get_or-hand_out (r - 1) order (bump i xs) k, get_or-bump k i xs)

module _ (extra : ℕ) (rs xs : List ℕ) where
  order : List ℕ
  order = sort_indices rs (indices (length xs) 0)

  pub sum-by_largest_remainder :
      extra ≤ length xs → sum (by_largest_remainder extra rs xs) ≡ sum xs + extra
  unfolding by_largest_remainder order
  sum-by_largest_remainder h = ground (
    arith,
    sum-hand_out extra order xs (
        sort_indices-Below rs (length xs) (indices (length xs) 0)
          (indices-Below (length xs) 0 (length xs) (omega arith))),
    length-sort_indices rs (indices (length xs) 0),
    length-indices (length xs) 0,
  )

  pub length-by_largest_remainder : length (by_largest_remainder extra rs xs) ≡ length xs
  unfolding by_largest_remainder
  length-by_largest_remainder =
      ground (arith, length-hand_out extra (sort_indices rs (indices (length xs) 0)) xs)

  pub get_or-by_largest_remainder :
      (k : ℕ)
      → (get_or xs k 0 ≤ get_or (by_largest_remainder extra rs xs) k 0)
        × (get_or (by_largest_remainder extra rs xs) k 0 ≤ get_or xs k 0 + 1)
  unfolding by_largest_remainder order
  get_or-by_largest_remainder k = ground (
    arith,
    get_or-hand_out extra order xs k,
    count-sort_indices rs k (indices (length xs) 0),
    count-indices (length xs) 0 k,
  )

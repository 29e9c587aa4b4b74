-- ===== src/Expense/Group/Merged.antt =====
-- The assets, merged in the target asset: what is paid is what is owed, and both are the total.
use mergepay_api.Common.{
  >>=-eq-ok, All, Bool, List, Option, Text, [], any, ap, arith, false, length, map_get, none, ok,
  ok-injective, refl, some, subst, suc, sum, sym, text_eq, true, ℕ, ◌*◌, ◌+◌, ◌/◌, ◌∙◌, ◌∷◌, ◌≡◌,
}
use mergepay_api.Expense.Breakdown.Tally.{
  over, NoDup, Within, add_amount-Within, any-touch, any-touch-keeps, over-add, over-touch,
  touch-NoDup, touch-Within,
}
use mergepay_api.Expense.Breakdown.{touch, Accumulators, Amounts, AssetAccumulator, add_amount}
use mergepay_api.Expense.Breakdown.Conserve.{AllOpen, OpenBy}
use mergepay_api.Expense.Group.{
  enter, AppliedRate, Merge, RateTable, add_all, amounts_for, convert_both, empty_merge, in_target,
  merge_asset, merge_assets, touch_all,
}
use mergepay_api.GroupBalances.ByAsset.{Asset, balance_asset_key}
use mergepay_api.Expense.Parse.{Calc, rate_scale}
use mergepay_api.Expense.Allocate.{convert_allocations}
use mergepay_api.Expense.Allocate.Exact.{convert_allocations-exact}

touch_all-NoDup : (order us : List Text) → NoDup order → NoDup (touch_all order us)
unfolding touch_all
touch_all-NoDup order [] h = h
touch_all-NoDup order (u ∷ us) h = touch_all-NoDup (touch order u) us (touch-NoDup order u h)

touch_all-Within :
    (order us : List Text) (m : Amounts) → Within order m → Within (touch_all order us) m
unfolding touch_all
touch_all-Within order [] m h = h
touch_all-Within order (u ∷ us) m h =
    touch_all-Within (touch order u) us m (touch-Within order u m h)

over-touch_all :
    (order us : List Text) (m : Amounts)
    → Within order m
    → over (touch_all order us) m ≡ over order m
unfolding touch_all
over-touch_all order [] m h = refl
over-touch_all order (u ∷ us) m h =
    over-touch_all (touch order u) us m (touch-Within order u m h) ∙ over-touch order u m h

any-touch_all :
    (order us : List Text) (v : Text)
    → any (text_eq v) order ≡ true
    → any (text_eq v) (touch_all order us) ≡ true
unfolding touch_all
any-touch_all order [] v h = h
any-touch_all order (u ∷ us) v h = any-touch_all (touch order u) us v (any-touch-keeps order u v h)

-- Every participant who is touched is there.
abbrev Members : List Text → List Text → Type 0
Members order = All (λ u. any (text_eq u) order ≡ true)

touch_all-Members : (order us : List Text) → Members (touch_all order us) us
unfolding touch_all
touch_all-Members order [] = tt
touch_all-Members order (u ∷ us) =
    (any-touch_all (touch order u) us u (any-touch order u), touch_all-Members (touch order u) us)

add_all-Within :
    (order us : List Text) (ns : List ℕ) (m : Amounts)
    → Members order us
    → Within order m
    → Within order (add_all m us ns)
unfolding add_all
add_all-Within order [] ns m there h = h
add_all-Within order (u ∷ us) [] m there h = h
add_all-Within order (u ∷ us) (n ∷ ns) m (here, there) h =
    add_all-Within order us ns (add_amount u n m) there (add_amount-Within order u n m here h)

over-add_all :
    (order us : List Text) (ns : List ℕ) (m : Amounts)
    → NoDup order
    → Members order us
    → length ns ≡ length us
    → over order (add_all m us ns) ≡ over order m + sum ns
unfolding add_all
over-add_all order [] [] m d there e = omega arith
over-add_all order [] (n ∷ ns) m d there e = absurd (omega (arith, e))
over-add_all order (u ∷ us) [] m d there e = absurd (omega (arith, e))
over-add_all order (u ∷ us) (n ∷ ns) m d (here, there) e =
    let one = over-add order u n m d here in
    let rest = over-add_all order us ns (add_amount u n m) d there (omega (arith, e)) in
    omega (arith, one, rest)

sum-amounts_for : (us : List Text) (m : Amounts) → sum (amounts_for us m) ≡ over us m
sum-amounts_for [] m = refl
sum-amounts_for (u ∷ us) m = omega (arith, sum-amounts_for us m)

length-amounts_for : (us : List Text) (m : Amounts) → length (amounts_for us m) ≡ length us
length-amounts_for [] m = refl
length-amounts_for (u ∷ us) m = ap suc (length-amounts_for us m)

abbrev pub Even : Merge → Type 0
Even merge =
    NoDup merge.order
    × Within merge.order merge.paid
    × Within merge.order merge.owed
    × (over merge.order merge.paid ≡ merge.total)
    × (over merge.order merge.owed ≡ merge.total)

pub empty_merge-Even : Even empty_merge
empty_merge-Even = (tt, (λ u h. refl), (λ u h. refl), refl, refl)

-- Amounts that are entered together.
abbrev Matched : List Text → List ℕ × List ℕ × List AppliedRate → Type 0
Matched us (paid, owed, applied) =
    (length paid ≡ length us) × (length owed ≡ length us) × (sum paid ≡ sum owed)

enter-Even :
    (merge : Merge) (us : List Text) (c : List ℕ × List ℕ × List AppliedRate)
    → Matched us c
    → Even merge
    → Even (enter merge us c)
enter-Even merge us (paid, owed, applied) (lp, lo, same) (d, wp, wo, ep, eo) =
    let order = touch_all merge.order us in
    let distinct = touch_all-NoDup merge.order us d in
    let there = touch_all-Members merge.order us in
    let wp' = touch_all-Within merge.order us merge.paid wp in
    let wo' = touch_all-Within merge.order us merge.owed wo in
    (
      distinct,
      add_all-Within order us paid merge.paid there wp',
      add_all-Within order us owed merge.owed there wo',
      omega (
        arith,
        over-add_all order us paid merge.paid distinct there lp,
        over-touch_all merge.order us merge.paid wp,
        ep,
        same,
      ),
      omega (
        arith,
        over-add_all order us owed merge.owed distinct there lo,
        over-touch_all merge.order us merge.owed wo,
        eo,
      ),
    )

convert_both-Matched :
    (us : List Text) (asset : Asset) (paid owed : List ℕ) (rate : Option (Text × ℕ))
    {c : List ℕ × List ℕ × List AppliedRate}
    → Matched us (paid, owed, [])
    → convert_both asset paid owed rate ≡ ok c
    → Matched us c
unfolding convert_both
convert_both-Matched us asset paid owed none {c} h e = cc e
convert_both-Matched us asset paid owed (some (rate, scaled)) {c} (lp, lo, same) e =
    let (cp, ep, e1) = >>=-eq-ok (convert_allocations paid scaled) _ e in
    let (co, eo, e2) = >>=-eq-ok (convert_allocations owed scaled) _ e1 in
    let (sp, kp, _) = convert_allocations-exact paid scaled ep in
    let (so, ko, _) = convert_allocations-exact owed scaled eo in
    let equal_sums : sum paid * scaled / rate_scale ≡ sum owed * scaled / rate_scale =
      ap (λ n. n * scaled / rate_scale) same in
    subst (Matched us) (ok-injective e2) (kp ∙ lp, ko ∙ lo, sp ∙ equal_sums ∙ sym so)

in_target-Matched :
    (us : List Text) (same_asset : Bool) (asset : Asset) (paid owed : List ℕ)
    (rate : Option (Text × ℕ)) {c : List ℕ × List ℕ × List AppliedRate}
    → Matched us (paid, owed, [])
    → in_target same_asset asset paid owed rate ≡ ok c
    → Matched us c
unfolding in_target
in_target-Matched us true asset paid owed rate {c} h e = subst (Matched us) (ok-injective e) h
in_target-Matched us false asset paid owed rate {c} h e =
    convert_both-Matched us asset paid owed rate h e

accumulator-Matched :
    (acc : AssetAccumulator)
    → OpenBy 0 acc
    → Matched acc.order (amounts_for acc.order acc.paid, amounts_for acc.order acc.owed, [])
accumulator-Matched acc (_, _, _, paid, owed) = (
  length-amounts_for acc.order acc.paid,
  length-amounts_for acc.order acc.owed,
  omega (arith, sum-amounts_for acc.order acc.paid, sum-amounts_for acc.order acc.owed, paid, owed),
)

module _ (to_upper : Text → Text) (is_supported : Asset → Bool)
    (normalize_asset : Asset → Calc Asset) (rates : RateTable) (target_key : Text) where
  merge_asset-Even :
      (merge : Merge) (acc : AssetAccumulator) {merge' : Merge}
      → OpenBy 0 acc
      → Even merge
      → merge_asset to_upper is_supported normalize_asset rates target_key merge acc ≡ ok merge'
      → Even merge'
  unfolding merge_asset
  merge_asset-Even merge acc {merge'} balanced h e =
      let key = balance_asset_key to_upper is_supported acc.asset in
      let paid = amounts_for acc.order acc.paid in
      let owed = amounts_for acc.order acc.owed in
      let (c, converted, made) =
        >>=-eq-ok (in_target (text_eq key target_key) acc.asset paid owed (map_get key rates)) _
          e in
      let matched =
        in_target-Matched acc.order (text_eq key target_key) acc.asset paid owed (map_get key rates)
          (accumulator-Matched acc balanced) converted in
      subst Even (ok-injective made) (enter-Even merge acc.order c matched h)

  pub merge_assets-Even :
      (merge : Merge) (m : Accumulators) {merge' : Merge}
      → AllOpen m
      → Even merge
      → merge_assets to_upper is_supported normalize_asset rates target_key merge m ≡ ok merge'
      → Even merge'
  unfolding merge_assets
  merge_assets-Even merge [] {merge'} all_balanced h e = subst Even (ok-injective e) h
  merge_assets-Even merge ((k, acc) ∷ m) {merge'} (balanced, more) h e =
      let (merge1, first, rest) =
        >>=-eq-ok (merge_asset to_upper is_supported normalize_asset rates target_key merge acc) _
          e in
      merge_assets-Even merge1 m more (merge_asset-Even merge acc balanced h first) rest

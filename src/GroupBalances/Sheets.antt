-- ===== src/GroupBalances/Sheets.antt =====
-- Every asset's balances are those of its own rows.
use mathlib.Core.List.{append-nil}
use mergepay_api.Common.{
  >>=-eq-ok, All, Bool, Bool-cases, List, Result, Text, [], ap, err, inl, inr, keep, map_get, ok,
  ok-injective, some, subst, sym, traverse, ◌++◌, ◌∙◌, ◌∷◌, ◌≡◌,
}
use mergepay_api.Settlement.Balances.{compute_net_balances}
use mergepay_api.Money.Amount.{MoneyError}
use mergepay_api.GroupBalances.ByAsset.{
  Asset, AssetBalanceSettlementRow, AssetBalanceShareRow, AssetGroup, AssetNetBalances,
  balance_asset_key, balances_of_group, engine_money, AssetGroups, compute_net_balances_by_asset,
  is_listed, push_settlements, push_shares,
}
use mergepay_api.GroupBalances.Grouping.{
  settlements_of, shares_of, DistinctKeys, Found-entries, Keyed, push_settlements-Grown,
  push_shares-Grown, settlements_in, shares_in,
}

pub engine_money-inv {ℓ} :
    {A : Type ℓ} (m : Result MoneyError A) {a : A} → engine_money m ≡ ok a → m ≡ ok a
engine_money-inv (ok b) e = ap ok (ok-injective e)
engine_money-inv (err x) e = cc e

All-keep_listed :
    (P : AssetNetBalances → Type 0) (p : AssetNetBalances → Bool) (xs : List AssetNetBalances)
    → All P xs
    → All P (keep p xs)
All-keep_listed P p [] h = tt
All-keep_listed P p (x ∷ xs) (px, h) = elim (Bool-cases (p x)) [
  | inl t ↦ rw t (px, All-keep_listed P p xs h)
  | inr f ↦ rw f (All-keep_listed P p xs h)
]

module _ (to_upper : Text → Text) (is_supported : Asset → Bool) where
  -- The balances of an asset are those of the asset's own rows.
  abbrev pub OwnSheet :
      List AssetBalanceShareRow → List AssetBalanceSettlementRow → AssetNetBalances → Type 0
  OwnSheet shares settlements a =
      compute_net_balances
        (shares_of to_upper is_supported (balance_asset_key to_upper is_supported a.asset) shares)
        (settlements_of to_upper is_supported (balance_asset_key to_upper is_supported a.asset)
          settlements)
      ≡ ok a.balances

  -- The groups, once all rows are in them.
  abbrev Sorted :
      List AssetBalanceShareRow → List AssetBalanceSettlementRow → Text × AssetGroup → Type 0
  Sorted shares settlements e =
      (e.1.shares ≡ shares_of to_upper is_supported e.0 shares)
      × (e.1.settlements ≡ settlements_of to_upper is_supported e.0 settlements)
      × (balance_asset_key to_upper is_supported e.1.asset ≡ e.0)

  group-OwnSheet :
      (shares : List AssetBalanceShareRow) (settlements : List AssetBalanceSettlementRow)
      (e : Text × AssetGroup) {a : AssetNetBalances}
      → Sorted shares settlements e
      → balances_of_group to_upper is_supported e ≡ ok a
      → OwnSheet shares settlements a
  group-OwnSheet shares settlements (k, g) {a} (es, et, keyed) e =
      let (balances, computed, made) =
        >>=-eq-ok (engine_money (compute_net_balances g.shares g.settlements)) _ e in
      let own : compute_net_balances (shares_of to_upper is_supported k shares)
            (settlements_of to_upper is_supported k settlements)
          ≡ ok balances =
        ap (λ x. compute_net_balances x (settlements_of to_upper is_supported k settlements))
          (sym es)
        ∙ ap (λ y. compute_net_balances g.shares y) (sym et)
        ∙ engine_money-inv (compute_net_balances g.shares g.settlements) computed in
      subst (OwnSheet shares settlements) (ok-injective made) (
        ap
          (λ j.
            compute_net_balances (shares_of to_upper is_supported j shares)
              (settlements_of to_upper is_supported j settlements))
          keyed
        ∙ own)

  groups-OwnSheet :
      (shares : List AssetBalanceShareRow) (settlements : List AssetBalanceSettlementRow)
      (m : AssetGroups) {out : List AssetNetBalances}
      → All (Sorted shares settlements) m
      → traverse (balances_of_group to_upper is_supported) m ≡ ok out
      → All (OwnSheet shares settlements) out
  groups-OwnSheet shares settlements [] {out} h e =
      subst (All (OwnSheet shares settlements)) (ok-injective e) tt
  groups-OwnSheet shares settlements (entry ∷ m) {out} (sorted, h) e =
      let (a, first, e1) = >>=-eq-ok (balances_of_group to_upper is_supported entry) _ e in
      let (rest, others, e2) =
        >>=-eq-ok (traverse (balances_of_group to_upper is_supported) m) _ e1 in
      subst (All (OwnSheet shares settlements)) (ok-injective e2) (
        group-OwnSheet shares settlements entry sorted first,
        groups-OwnSheet shares settlements m h others,
      )

  found-Sorted :
      (shares : List AssetBalanceShareRow) (settlements : List AssetBalanceSettlementRow)
      (whole m : AssetGroups)
      → ((k : Text) → shares_in (map_get k whole) ≡ shares_of to_upper is_supported k shares)
      → ((k : Text)
          → settlements_in (map_get k whole) ≡ settlements_of to_upper is_supported k settlements)
      → Keyed to_upper is_supported whole
      → All (λ (e : Text × AssetGroup). map_get e.0 whole ≡ some e.1) m
      → All (Sorted shares settlements) m
  found-Sorted shares settlements whole [] hs ht keyed h = tt
  found-Sorted shares settlements whole ((k, g) ∷ m) hs ht keyed (found, h) = (
    (sym (ap shares_in found) ∙ hs k, sym (ap settlements_in found) ∙ ht k, keyed k g found),
    found-Sorted shares settlements whole m hs ht keyed h,
  )

  -- The groups that computeNetBalancesByAsset makes hold all rows of their assets.
  abbrev pub Grouped :
      List AssetBalanceShareRow → List AssetBalanceSettlementRow → AssetGroups → Type 0
  Grouped shares settlements m =
      ((k : Text) → shares_in (map_get k m) ≡ shares_of to_upper is_supported k shares)
      × ((k : Text)
          → settlements_in (map_get k m) ≡ settlements_of to_upper is_supported k settlements)
      × Keyed to_upper is_supported m
      × DistinctKeys m

  pub compute_net_balances_by_asset-Grouped :
      (shares : List AssetBalanceShareRow) (settlements : List AssetBalanceSettlementRow)
      {out : List AssetNetBalances}
      → compute_net_balances_by_asset to_upper is_supported shares settlements ≡ ok out
      → (m : AssetGroups) × (every : List AssetNetBalances) × Grouped shares settlements m
        × (traverse (balances_of_group to_upper is_supported) m ≡ ok every)
        × (keep (is_listed to_upper is_supported) every ≡ out)
  unfolding compute_net_balances_by_asset
  compute_net_balances_by_asset-Grouped shares settlements {out} e =
      let (m1, pushed, e1) = >>=-eq-ok (push_shares to_upper is_supported [] shares) _ e in
      let (m2, pushed', e2) =
        >>=-eq-ok (push_settlements to_upper is_supported m1 settlements) _ e1 in
      let (every, listed, e3) =
        >>=-eq-ok (traverse (balances_of_group to_upper is_supported) m2) _ e2 in
      let (s, t, d, h) = push_shares-Grown to_upper is_supported [] shares pushed in
      let (s', t', d', h') = push_settlements-Grown to_upper is_supported m1 settlements pushed' in
      (
        m2,
        every,
        (
          λ k. s' k ∙ append-nil (shares_in (map_get k m1)) ∙ s k,
          λ k. t' k ∙ ap (λ l. l ++ settlements_of to_upper is_supported k settlements) (t k),
          h' (h (λ k g found. cc found)),
          d' (d tt),
        ),
        listed,
        ok-injective e3,
      )

  -- Where computeNetBalancesByAsset returns, the balances that it lists for an asset are what
  -- computeNetBalances makes of the asset's own rows, in their order, and of no others.
  pub compute_net_balances_by_asset-OwnSheet :
      (shares : List AssetBalanceShareRow) (settlements : List AssetBalanceSettlementRow)
      {out : List AssetNetBalances}
      → compute_net_balances_by_asset to_upper is_supported shares settlements ≡ ok out
      → All (OwnSheet shares settlements) out
  compute_net_balances_by_asset-OwnSheet shares settlements {out} e =
      let (m, every, (hs, ht, keyed, distinct), listed, kept) =
        compute_net_balances_by_asset-Grouped shares settlements e in
      let sorted =
        found-Sorted shares settlements m m hs ht keyed
          (Found-entries m m distinct (λ k g found. found)) in
      subst (All (OwnSheet shares settlements)) kept (
        All-keep_listed (OwnSheet shares settlements) (is_listed to_upper is_supported) every
          (groups-OwnSheet shares settlements m sorted listed))

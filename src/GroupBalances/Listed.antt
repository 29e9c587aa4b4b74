-- ===== src/GroupBalances/Listed.antt =====
-- Every asset is listed with its own balances, and its suggestions clear them.
use mergepay_api.GroupBalances.ByAsset.{
  Asset, AssetBalanceSettlementRow, AssetBalanceShareRow, AssetBalancesWithSuggestions, AssetGroup,
  AssetGroups, AssetNetBalances, balance_asset_key, balances_of_group,
  compute_multi_currency_balances_and_simplifications, compute_net_balances_by_asset, engine_money,
  is_listed, with_suggestions,
}
use mergepay_api.GroupBalances.Sheets.{
  Grouped, OwnSheet, compute_net_balances_by_asset-Grouped, compute_net_balances_by_asset-OwnSheet,
  engine_money-inv,
}
use mergepay_api.Settlement.Balances.{
  NetBalance, add_settlements, add_shares, compute_net_balances, net_map,
}
use mergepay_api.Settlement.Balances.Conserve.{compute_net_balances-zero_sum}
use mergepay_api.Settlement.Ledger.{gets, pays, net_of}
use mergepay_api.GroupBalances.Grouping.{settlements_in, settlements_of, shares_in, shares_of}
use mergepay_api.Settlement.Suggest.{suggest_settlements}
use mergepay_api.Settlement.Suggest.Clears.{suggest_settlements-clears}
use mergepay_api.Common.{
  >>=-eq-ok, All, Bool, Bool-cases, List, Option, Text, [], ap, if◌then◌else◌, inl, inr, is_empty,
  keep, map, map_get, none, not, ok, ok-injective, refl, some, subst, sym, text_eq, traverse, true,
  ◌+ℤ◌, ◌∙◌, ◌∷◌, ◌≡◌, ◌≢◌, ◌⊎◌,
}

not_empty : (balances : List NetBalance) → balances ≢ [] → not (is_empty balances) ≡ true
not_empty [] h = absurd (h refl)
not_empty (b ∷ balances) h = refl

empty_sheet :
    {balances : List NetBalance} → compute_net_balances [] [] ≡ ok balances → balances ≡ []
unfolding compute_net_balances net_map add_shares add_settlements
empty_sheet {balances} e = sym (ok-injective e)

module _ (to_upper : Text → Text) (is_supported : Asset → Bool) where
  -- The suggestions for an asset clear its balances, which are those of its own rows.
  abbrev pub ClearsOwn :
      List AssetBalanceShareRow
      → List AssetBalanceSettlementRow
      → AssetBalancesWithSuggestions
      → Type 0
  ClearsOwn shares settlements a =
      OwnSheet to_upper is_supported shares settlements a.asset_balances
      × ((u : Text)
          → net_of u a.asset_balances.balances +ℤ pays u a.suggestions ≡ gets u a.suggestions)

  suggestions-ClearsOwn :
      (shares : List AssetBalanceShareRow) (settlements : List AssetBalanceSettlementRow)
      (as_listed : List AssetNetBalances) {out : List AssetBalancesWithSuggestions}
      → All (OwnSheet to_upper is_supported shares settlements) as_listed
      → traverse (with_suggestions to_upper is_supported) as_listed ≡ ok out
      → All (ClearsOwn shares settlements) out
  suggestions-ClearsOwn shares settlements [] {out} h e =
      subst (All (ClearsOwn shares settlements)) (ok-injective e) tt
  suggestions-ClearsOwn shares settlements (a ∷ more) {out} (own, h) e =
      let (s, first, e1) = >>=-eq-ok (with_suggestions to_upper is_supported a) _ e in
      let (rest, others, e2) =
        >>=-eq-ok (traverse (with_suggestions to_upper is_supported) more) _ e1 in
      let (suggested, computed, made) =
        >>=-eq-ok (engine_money (suggest_settlements a.balances)) _ first in
      subst (All (ClearsOwn shares settlements)) (ok-injective e2) (
        subst (ClearsOwn shares settlements) (ok-injective made) (
          own,
          suggest_settlements-clears a.balances
              (engine_money-inv (suggest_settlements a.balances) computed)
              (compute_net_balances-zero_sum
                (shares_of to_upper is_supported (balance_asset_key to_upper is_supported a.asset)
                  shares)
                (settlements_of to_upper is_supported
                  (balance_asset_key to_upper is_supported a.asset) settlements)
                own),
        ),
        suggestions-ClearsOwn shares settlements more h others,
      )

  -- The asset of the key is listed, with the balances.
  abbrev pub Lists : Text → List NetBalance → List AssetNetBalances → Type 0
  Lists k balances [] = ⊥
  Lists k balances (a ∷ listed) =
      ((balance_asset_key to_upper is_supported a.asset ≡ k) × (a.balances ≡ balances))
      ⊎ Lists k balances listed

  group-Lists :
      (k : Text) (balances : List NetBalance) (m : AssetGroups) (g : AssetGroup)
      {every : List AssetNetBalances}
      → map_get k m ≡ some g
      → balance_asset_key to_upper is_supported g.asset ≡ k
      → compute_net_balances g.shares g.settlements ≡ ok balances
      → traverse (balances_of_group to_upper is_supported) m ≡ ok every
      → Lists k balances every
  group-Lists k balances [] g {every} found keyed computed e = cc found
  group-Lists k balances ((j, h) ∷ m) g {every} found keyed computed e =
      let (a, first, e1) = >>=-eq-ok (balances_of_group to_upper is_supported (j, h)) _ e in
      let (rest, others, e2) =
        >>=-eq-ok (traverse (balances_of_group to_upper is_supported) m) _ e1 in
      let (own, computed', made) =
        >>=-eq-ok (engine_money (compute_net_balances h.shares h.settlements)) _ first in
      subst (Lists k balances) (ok-injective e2) (elim (Bool-cases (text_eq j k)) [
        | inl here ↦
            let at_head : some h ≡ some g =
              subst (λ b. (if b then some h else map_get k m) ≡ some g) here found in
            let same : h ≡ g = cc at_head in
            let balanced : own ≡ balances = ok-injective (
              sym (engine_money-inv (compute_net_balances h.shares h.settlements) computed')
              ∙ ap (λ (x : AssetGroup). compute_net_balances x.shares x.settlements) same
              ∙ computed) in
            inl (
              ap (λ (x : AssetNetBalances). balance_asset_key to_upper is_supported x.asset)
                    (sym (ok-injective made))
                  ∙ ap (λ (x : AssetGroup). balance_asset_key to_upper is_supported x.asset) same
                  ∙ keyed,
              ap (λ (x : AssetNetBalances). x.balances) (sym (ok-injective made)) ∙ balanced,
            )
        | inr other ↦ inr (
            group-Lists k balances m g
              (subst (λ b. (if b then some h else map_get k m) ≡ some g) other found) keyed computed
              others)
      ])

  keep-Lists :
      (k : Text) (balances : List NetBalance) (every : List AssetNetBalances)
      → balances ≢ []
      → Lists k balances every
      → Lists k balances (keep (is_listed to_upper is_supported) every)
  keep-Lists k balances [] some_balance h = h
  keep-Lists k balances (a ∷ every) some_balance (inl (same, own)) =
      let listed : is_listed to_upper is_supported a ≡ true =
        not_empty a.balances (λ e. some_balance (sym own ∙ e)) in
      rw listed (inl (same, own))
  keep-Lists k balances (a ∷ every) some_balance (inr h) =
      let rest = keep-Lists k balances every some_balance h in
      elim (Bool-cases (is_listed to_upper is_supported a)) [
        | inl t ↦ rw t (inr rest)
        | inr f ↦ rw f rest
      ]

  suggestions-listed :
      (listed : List AssetNetBalances) {out : List AssetBalancesWithSuggestions}
      → traverse (with_suggestions to_upper is_supported) listed ≡ ok out
      → map (λ (a : AssetBalancesWithSuggestions). a.asset_balances) out ≡ listed
  suggestions-listed [] {out} e =
      ap (map (λ (a : AssetBalancesWithSuggestions). a.asset_balances)) (sym (ok-injective e))
  suggestions-listed (a ∷ listed) {out} e =
      let (s, first, e1) = >>=-eq-ok (with_suggestions to_upper is_supported a) _ e in
      let (rest, others, e2) =
        >>=-eq-ok (traverse (with_suggestions to_upper is_supported) listed) _ e1 in
      let (suggested, computed, made) =
        >>=-eq-ok (engine_money (suggest_settlements a.balances)) _ first in
      ap (map (λ (x : AssetBalancesWithSuggestions). x.asset_balances)) (sym (ok-injective e2))
      ∙ ap
          (λ (x : AssetBalancesWithSuggestions).
            x.asset_balances ∷ map (λ (y : AssetBalancesWithSuggestions). y.asset_balances) rest)
          (sym (ok-injective made))
      ∙ ap (λ l. a ∷ l) (suggestions-listed listed others)

  Grouped-Lists :
      (shares : List AssetBalanceShareRow) (settlements : List AssetBalanceSettlementRow)
      (m : AssetGroups) (k : Text) (balances : List NetBalance) (o : Option AssetGroup)
      {every : List AssetNetBalances}
      → Grouped to_upper is_supported shares settlements m
      → traverse (balances_of_group to_upper is_supported) m ≡ ok every
      → map_get k m ≡ o
      → compute_net_balances
          (shares_of to_upper is_supported k shares)
          (settlements_of to_upper is_supported k settlements)
        ≡ ok balances
      → balances ≢ []
      → Lists k balances every
  Grouped-Lists shares settlements m k balances o {every} (hs, ht, keyed, _) e found computed
        some_balance =
      let own : compute_net_balances (shares_in o) (settlements_in o) ≡ ok balances =
        ap (λ (x : Option AssetGroup). compute_net_balances (shares_in x) (settlements_in x))
          (sym found)
        ∙ ap (λ x. compute_net_balances x (settlements_in (map_get k m))) (hs k)
        ∙ ap (λ y. compute_net_balances (shares_of to_upper is_supported k shares) y) (ht k)
        ∙ computed in
      by_group o found own
    where
      by_group :
          (o : Option AssetGroup)
          → map_get k m ≡ o
          → compute_net_balances (shares_in o) (settlements_in o) ≡ ok balances
          → Lists k balances every
      by_group none found own = absurd (some_balance (empty_sheet own))
      by_group (some g) found own = group-Lists k balances m g found (keyed k g found) own e

  -- Where computeMultiCurrencyBalancesAndSimplifications returns, every asset whose own rows, the
  -- shares and settlements with its key, make any balances is listed with those balances; and
  -- whatever is listed is an asset with the balances of its own rows, and suggestions that clear
  -- them: for every member, the net plus what it pays is what it gets.
  pub compute_multi_currency_balances_and_simplifications-Lists :
      (shares : List AssetBalanceShareRow) (settlements : List AssetBalanceSettlementRow)
      {out : List AssetBalancesWithSuggestions}
      → compute_multi_currency_balances_and_simplifications to_upper is_supported shares settlements
        ≡ ok out
      → ((k : Text) (balances : List NetBalance)
          → compute_net_balances
              (shares_of to_upper is_supported k shares)
              (settlements_of to_upper is_supported k settlements)
            ≡ ok balances
          → balances ≢ []
          → Lists k balances (map (λ (a : AssetBalancesWithSuggestions). a.asset_balances) out))
        × All (ClearsOwn shares settlements) out
  unfolding compute_multi_currency_balances_and_simplifications
  compute_multi_currency_balances_and_simplifications-Lists shares settlements {out} e =
      let (listed, found, e1) =
        >>=-eq-ok (compute_net_balances_by_asset to_upper is_supported shares settlements) _ e in
      let (m, every, grouped, made, kept) =
        compute_net_balances_by_asset-Grouped to_upper is_supported shares settlements found in
      (
        λ k balances computed some_balance.
            subst (Lists k balances) (kept ∙ sym (suggestions-listed listed e1)) (
              keep-Lists k balances every some_balance (
                Grouped-Lists shares settlements m k balances (map_get k m) grouped made refl
                  computed some_balance)),
        suggestions-ClearsOwn shares settlements listed
            (compute_net_balances_by_asset-OwnSheet to_upper is_supported shares settlements found)
            e1,
      )

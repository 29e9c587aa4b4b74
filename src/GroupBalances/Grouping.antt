-- ===== src/GroupBalances/Grouping.antt =====
-- How the rows of a group are sorted by asset.
use mathlib.Core.List.{append-nil, append_assoc}
use mergepay_api.Common.{
  >>=-eq-ok, All, Bool, Bool-cases, List, Option, Option-cases, Text, [], ap, arith, eq_of_text_eq,
  false, if◌then◌else◌, inl, inr, map_get, map_get-set, map_set, none, ok, ok-injective, refl, some,
  subst, sym, text_eq, text_eq_iff, text_eq_refl, ◌++◌, ◌∙◌, ◌∷◌, ◌≡◌,
}
use mergepay_api.Settlement.Balances.{BalanceSettlementRow, BalanceShareRow}
use mergepay_api.GroupBalances.ByAsset.{
  Asset, AssetBalanceSettlementRow, AssetBalanceShareRow, AssetGroup, AssetGroups,
  balance_asset_key, group_for, assert_supported_settlement_asset, push_settlement,
  push_settlements, push_share, push_shares,
}

abbrev pub shares_in : Option AssetGroup → List BalanceShareRow
shares_in none = []
shares_in (some g) = g.shares

abbrev pub settlements_in : Option AssetGroup → List BalanceSettlementRow
settlements_in none = []
settlements_in (some g) = g.settlements

abbrev pub one_if {ℓ} : {A : Type ℓ} → Bool → A → List A
one_if b a = if b then a ∷ [] else []

-- No key twice.
abbrev pub DistinctKeys : AssetGroups → Type 0
DistinctKeys [] = Unit
DistinctKeys ((k, _) ∷ m) = (map_get k m ≡ none) × DistinctKeys m

text_eq_sym_false : (s t : Text) → text_eq s t ≡ false → text_eq t s ≡ false
text_eq_sym_false s t h = ground (arith, text_eq_iff s t, text_eq_iff t s)

DistinctKeys-set :
    (k : Text) (g : AssetGroup) (m : AssetGroups) → DistinctKeys m → DistinctKeys (map_set k g m)
DistinctKeys-set k g [] h = (refl, tt)
DistinctKeys-set k g ((j, w) ∷ m) (absent, h) = elim (Bool-cases (text_eq j k)) [
  | inl t ↦ rw t (absent, h)
  | inr f ↦
      let kept : map_get j (map_set k g m) ≡ none =
        rw (map_get-set k j g m, text_eq_sym_false j k f) absent in
      rw f (kept, DistinctKeys-set k g m h)
]

-- What is listed is what a lookup finds.
pub Found-entries :
    (whole m : AssetGroups)
    → DistinctKeys m
    → ((k : Text) (g : AssetGroup) → map_get k m ≡ some g → map_get k whole ≡ some g)
    → All (λ (e : Text × AssetGroup). map_get e.0 whole ≡ some e.1) m
Found-entries whole [] d h = tt
Found-entries whole ((k, g) ∷ m) (absent, d) h = (
  h k g (rw (text_eq_refl k) refl),
  Found-entries whole m d (λ j g' found. h j g' (elim (Bool-cases (text_eq k j)) [
    | inl t ↦ cc (found, absent, eq_of_text_eq k j t)
    | inr f ↦ rw f found
  ])),
)

module _ (to_upper : Text → Text) (is_supported : Asset → Bool) where
  abbrev pub key_of : Asset → Text
  key_of = balance_asset_key to_upper is_supported

  -- The rows of the asset with that key, in their order.
  abbrev pub shares_of : Text → List AssetBalanceShareRow → List BalanceShareRow
  shares_of k [] = []
  shares_of k (s ∷ ss) = one_if (text_eq (key_of s.asset) k) s.row ++ shares_of k ss

  abbrev pub settlements_of : Text → List AssetBalanceSettlementRow → List BalanceSettlementRow
  settlements_of k [] = []
  settlements_of k (s ∷ ss) = one_if (text_eq (key_of s.asset) k) s.row ++ settlements_of k ss

  abbrev pub Keyed : AssetGroups → Type 0
  Keyed m = (k : Text) (g : AssetGroup) → map_get k m ≡ some g → key_of g.asset ≡ k

  group_for-in :
      (m : AssetGroups) (a : Asset)
      → ((group_for to_upper is_supported m a).shares ≡ shares_in (map_get (key_of a) m))
        × ((group_for to_upper is_supported m a).settlements
            ≡ settlements_in (map_get (key_of a) m))
        × (Keyed m → key_of (group_for to_upper is_supported m a).asset ≡ key_of a)
  unfolding group_for
  group_for-in m a = elim (Option-cases (map_get (key_of a) m)) [
    | inl n ↦ rw (group_for, n) (refl, refl, λ _. refl)
    | inr (g, s) ↦ rw (group_for, s) (refl, refl, λ keyed. keyed (key_of a) g s)
  ]

  -- What pushing rows does to the groups: it adds shares, for every key, or settlements.
  abbrev pub Grown :
      AssetGroups
      → (Text → List BalanceShareRow)
      → (Text → List BalanceSettlementRow)
      → AssetGroups
      → Type 0
  Grown m f f' m' =
      ((k : Text) → shares_in (map_get k m') ≡ shares_in (map_get k m) ++ f k)
      × ((k : Text) → settlements_in (map_get k m') ≡ settlements_in (map_get k m) ++ f' k)
      × (DistinctKeys m → DistinctKeys m')
      × (Keyed m → Keyed m')

  Grown-refl : (m : AssetGroups) → Grown m (λ _. []) (λ _. []) m
  Grown-refl m = (
    λ k. sym (append-nil (shares_in (map_get k m))),
    λ k. sym (append-nil (settlements_in (map_get k m))),
    λ d. d,
    λ h. h,
  )

  Grown-trans :
      (m m1 m2 : AssetGroups) (f g : Text → List BalanceShareRow)
      (f' g' : Text → List BalanceSettlementRow)
      → Grown m f f' m1
      → Grown m1 g g' m2
      → Grown m (λ k. f k ++ g k) (λ k. f' k ++ g' k) m2
  Grown-trans m m1 m2 f g f' g' (s, t, d, h) (s', t', d', h') = (
    λ k. s' k ∙ ap (λ l. l ++ g k) (s k) ∙ append_assoc (shares_in (map_get k m)) (f k) (g k),
    λ k.
        t' k
        ∙ ap (λ l. l ++ g' k) (t k)
        ∙ append_assoc (settlements_in (map_get k m)) (f' k) (g' k),
    λ x. d' (d x),
    λ x. h' (h x),
  )

  -- The group of an asset is written back with some rows more.
  set-Grown :
      (m : AssetGroups) (a : Asset) (g : AssetGroup) (xs : List BalanceShareRow)
      (ys : List BalanceSettlementRow)
      → g.shares ≡ shares_in (map_get (key_of a) m) ++ xs
      → g.settlements ≡ settlements_in (map_get (key_of a) m) ++ ys
      → (Keyed m → key_of g.asset ≡ key_of a)
      → Grown m
          (λ k. if text_eq (key_of a) k then xs else [])
          (λ k. if text_eq (key_of a) k then ys else [])
          (map_set (key_of a) g m)
  set-Grown m a g xs ys es et keyed = (
    λ k. elim (Bool-cases (text_eq (key_of a) k)) [
      | inl t ↦
          rw (map_get-set (key_of a) k g m, t)
            (es ∙ ap (λ j. shares_in (map_get j m) ++ xs) (eq_of_text_eq (key_of a) k t))
      | inr f ↦ rw (map_get-set (key_of a) k g m, f) (sym (append-nil (shares_in (map_get k m))))
    ],
    λ k. elim (Bool-cases (text_eq (key_of a) k)) [
      | inl t ↦
          rw (map_get-set (key_of a) k g m, t)
            (et ∙ ap (λ j. settlements_in (map_get j m) ++ ys) (eq_of_text_eq (key_of a) k t))
      | inr f ↦
          rw (map_get-set (key_of a) k g m, f) (sym (append-nil (settlements_in (map_get k m))))
    ],
    DistinctKeys-set (key_of a) g m,
    λ h k g' found. elim (Bool-cases (text_eq (key_of a) k)) [
      | inl t ↦
          let written : some g ≡ some g' =
            sym (rw (map_get-set (key_of a) k g m, t) refl) ∙ found in
          let same : g ≡ g' = cc written in
          ap (λ (x : AssetGroup). key_of x.asset) (sym same)
          ∙ keyed h
          ∙ eq_of_text_eq (key_of a) k t
      | inr f ↦
          let kept : map_get k m ≡ some g' =
            sym (rw (map_get-set (key_of a) k g m, f) refl) ∙ found in
          h k g' kept
    ],
  )

  Grown-eq :
      (m m' : AssetGroups) (f g : Text → List BalanceShareRow)
      (f' g' : Text → List BalanceSettlementRow)
      → ((k : Text) → f k ≡ g k)
      → ((k : Text) → f' k ≡ g' k)
      → Grown m f f' m'
      → Grown m g g' m'
  Grown-eq m m' f g f' g' e e' (s, t, d, h) = (
    λ k. s k ∙ ap (λ l. shares_in (map_get k m) ++ l) (e k),
    λ k. t k ∙ ap (λ l. settlements_in (map_get k m) ++ l) (e' k),
    d,
    h,
  )

  push_share-Grown :
      (m : AssetGroups) (s : AssetBalanceShareRow) {m' : AssetGroups}
      → push_share to_upper is_supported m s ≡ ok m'
      → Grown m (λ k. one_if (text_eq (key_of s.asset) k) s.row) (λ _. []) m'
  unfolding push_share
  push_share-Grown m s {m'} e =
      let (_, _, made) =
        >>=-eq-ok (assert_supported_settlement_asset to_upper is_supported s.asset) _ e in
      let (es, et, keyed) = group_for-in m s.asset in
      let group = group_for to_upper is_supported m s.asset in
      subst (Grown m (λ k. one_if (text_eq (key_of s.asset) k) s.row) (λ _. [])) (ok-injective made)
        (Grown-eq m _ (λ k. one_if (text_eq (key_of s.asset) k) s.row) _
          (λ k. if text_eq (key_of s.asset) k then [] else []) (λ _. []) (λ k. refl)
          (λ k. elim (Bool-cases (text_eq (key_of s.asset) k)) [
            | inl t ↦ rw t refl
            | inr f ↦ rw f refl
          ])
          (set-Grown m s.asset (record group { shares = group.shares ++ s.row ∷ [] }) (s.row ∷ [])
            [] (ap (λ l. l ++ s.row ∷ []) es)
            (et ∙ sym (append-nil (settlements_in (map_get (key_of s.asset) m)))) keyed))

  push_settlement-Grown :
      (m : AssetGroups) (s : AssetBalanceSettlementRow) {m' : AssetGroups}
      → push_settlement to_upper is_supported m s ≡ ok m'
      → Grown m (λ _. []) (λ k. one_if (text_eq (key_of s.asset) k) s.row) m'
  unfolding push_settlement
  push_settlement-Grown m s {m'} e =
      let (_, _, made) =
        >>=-eq-ok (assert_supported_settlement_asset to_upper is_supported s.asset) _ e in
      let (es, et, keyed) = group_for-in m s.asset in
      let group = group_for to_upper is_supported m s.asset in
      subst (Grown m (λ _. []) (λ k. one_if (text_eq (key_of s.asset) k) s.row)) (ok-injective made)
        (Grown-eq m _ (λ k. if text_eq (key_of s.asset) k then [] else []) (λ _. [])
          (λ k. one_if (text_eq (key_of s.asset) k) s.row) _
          (λ k. elim (Bool-cases (text_eq (key_of s.asset) k)) [
            | inl t ↦ rw t refl
            | inr f ↦ rw f refl
          ])
          (λ k. refl)
          (set-Grown m s.asset (record group { settlements = group.settlements ++ s.row ∷ [] }) []
            (s.row ∷ []) (es ∙ sym (append-nil (shares_in (map_get (key_of s.asset) m))))
            (ap (λ l. l ++ s.row ∷ []) et) keyed))

  pub push_shares-Grown :
      (m : AssetGroups) (ss : List AssetBalanceShareRow) {m' : AssetGroups}
      → push_shares to_upper is_supported m ss ≡ ok m'
      → Grown m (λ k. shares_of k ss) (λ _. []) m'
  unfolding push_shares
  push_shares-Grown m [] {m'} e =
      subst (Grown m (λ _. []) (λ _. [])) (ok-injective e) (Grown-refl m)
  push_shares-Grown m (s ∷ ss) {m'} e =
      let (m1, first, rest) = >>=-eq-ok (push_share to_upper is_supported m s) _ e in
      Grown-trans m m1 m' (λ k. one_if (text_eq (key_of s.asset) k) s.row) (λ k. shares_of k ss)
        (λ _. []) (λ _. []) (push_share-Grown m s first) (push_shares-Grown m1 ss rest)

  pub push_settlements-Grown :
      (m : AssetGroups) (ss : List AssetBalanceSettlementRow) {m' : AssetGroups}
      → push_settlements to_upper is_supported m ss ≡ ok m'
      → Grown m (λ _. []) (λ k. settlements_of k ss) m'
  unfolding push_settlements
  push_settlements-Grown m [] {m'} e =
      subst (Grown m (λ _. []) (λ _. [])) (ok-injective e) (Grown-refl m)
  push_settlements-Grown m (s ∷ ss) {m'} e =
      let (m1, first, rest) = >>=-eq-ok (push_settlement to_upper is_supported m s) _ e in
      Grown-trans m m1 m' (λ _. []) (λ _. []) (λ k. one_if (text_eq (key_of s.asset) k) s.row)
        (λ k. settlements_of k ss) (push_settlement-Grown m s first)
        (push_settlements-Grown m1 ss rest)

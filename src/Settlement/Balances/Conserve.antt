-- ===== src/Settlement/Balances/Conserve.antt =====
-- The net balances: they sum to zero, and each is what the member is owed less what it owes.
use mergepay_api.Money.Service.{to_stroops, from_stroops}
use mergepay_api.Settlement.Balances.{
  BalanceShareRow, Nets, balance_of, add, add_share, BalanceSettlementRow, NetBalance,
  add_settlement, add_settlements, add_shares, compute_net_balances, net_map, to_net_balance,
}
use mergepay_api.Settlement.Ledger.{
  owes, stroops_of, when_ℤ, share_debt, confirmed_amount, has_paid, has_received, net_of, owed_to,
  stroops_of-ok, total_net,
}
use mergepay_api.Common.{
  >>=-eq-ok, Bool, Bool-cases, List, Text, [], eq_of_text_eq, false, if◌then◌else◌, inl, inr,
  int_laws, map_set, neg, not, ok, ok-injective, parts_of, pos, refl, subst, sym, text_eq, traverse,
  true, ℤ, ◌+ℤ◌, ◌-ℤ◌, ◌>>=◌, ◌||◌, ◌∙◌, ◌∷◌, ◌≡◌,
}
use mergepay_api.Money.Signed.{to_stroops_of_from_stroops}

abbrev sum_nets : Nets → ℤ
sum_nets [] = pos 0
sum_nets ((_, z) ∷ m) = z +ℤ sum_nets m

sum_nets-set :
    (u : Text) (z : ℤ) (m : Nets) → sum_nets (map_set u z m) +ℤ balance_of u m ≡ sum_nets m +ℤ z
sum_nets-set u z [] = omega int_laws
sum_nets-set u z ((j, w) ∷ m) = grind (int_laws, sum_nets-set u z m)

sum_nets-add : (u : Text) (d : ℤ) (m : Nets) → sum_nets (add u d m) ≡ sum_nets m +ℤ d
unfolding add
sum_nets-add u d m = omega (int_laws, parts_of (sum_nets-set u (balance_of u m +ℤ d) m))

-- What the entries of the map hold for the member `u`.
abbrev entries_of : Text → Nets → ℤ
entries_of u [] = pos 0
entries_of u ((v, z) ∷ m) = when_ℤ (text_eq v u) z +ℤ entries_of u m

entries_of-set :
    (u v : Text) (z : ℤ) (m : Nets)
    → entries_of v (map_set u z m) +ℤ when_ℤ (text_eq u v) (balance_of u m)
      ≡ entries_of v m +ℤ when_ℤ (text_eq u v) z
entries_of-set u v z [] = elim (Bool-cases (text_eq u v)) [
  | inl same ↦ rw same (omega int_laws)
  | inr other ↦ rw other (omega int_laws)
]
entries_of-set u v z ((j, w) ∷ m) = elim (Bool-cases (text_eq j u)) [
  | inl same ↦ grind (int_laws, eq_of_text_eq j u same)
  | inr other ↦ grind (int_laws, parts_of (entries_of-set u v z m))
]

entries_of-add :
    (u v : Text) (d : ℤ) (m : Nets)
    → entries_of v (add u d m) ≡ entries_of v m +ℤ when_ℤ (text_eq u v) d
unfolding add
entries_of-add u v d m = grind (int_laws, parts_of (entries_of-set u v (balance_of u m +ℤ d) m))

-- The effect of the rows on the map: what each member gains, and that the sum stays.
abbrev Moved : Nets → (Text → ℤ) → Nets → Type 0
Moved m f m' = ((u : Text) → entries_of u m' ≡ entries_of u m +ℤ f u) × (sum_nets m' ≡ sum_nets m)

-- A debt of `z` from `q` to `p`.
abbrev debt : Text → Text → ℤ → Text → ℤ
debt p q z u = when_ℤ (text_eq p u) z -ℤ when_ℤ (text_eq q u) z

pair-Moved : (p q : Text) (z : ℤ) (m : Nets) → Moved m (debt p q z) (add q (neg z) (add p z m))
pair-Moved p q z m = (
  λ u. grind (int_laws, entries_of-add q u (neg z) (add p z m), entries_of-add p u z m),
  omega (int_laws, parts_of (sum_nets-add q (neg z) (add p z m)), parts_of (sum_nets-add p z m)),
)

none-Moved : (p q : Text) (m : Nets) → Moved m (debt p q (pos 0)) m
none-Moved p q m = (λ u. grind int_laws, refl)

-- A row that is read, or skipped.
row-Moved :
    (p q t : Text) (z : ℤ) (skip : Bool) (m m' : Nets)
    → when_ℤ (not skip) (stroops_of t) ≡ z
    → (if skip then ok m else (to_stroops t >>= λ amt. ok (add q (neg amt) (add p amt m)))) ≡ ok m'
    → Moved m (debt p q z) m'
row-Moved p q t z true m m' ez e =
    subst (λ x. Moved m (debt p q x) m') ez
      (subst (Moved m (debt p q (pos 0))) (ok-injective e) (none-Moved p q m))
row-Moved p q t z false m m' ez e =
    let (amt, ea, e1) = >>=-eq-ok (to_stroops t) _ e in
    subst (λ x. Moved m (debt p q x) m') (sym (stroops_of-ok t amt ea) ∙ ez)
      (subst (Moved m (debt p q amt)) (ok-injective e1) (pair-Moved p q amt m))

add_share-Moved :
    (s : BalanceShareRow) (m m' : Nets)
    → add_share m s ≡ ok m'
    → Moved m (debt s.payer_user_id s.user_id (share_debt s)) m'
unfolding add_share
add_share-Moved s m m' e =
    row-Moved s.payer_user_id s.user_id s.share_amount (share_debt s)
      (s.settled || text_eq s.user_id s.payer_user_id) m m' refl e

add_settlement-Moved :
    (s : BalanceSettlementRow) (m m' : Nets)
    → add_settlement m s ≡ ok m'
    → Moved m (debt s.from_user_id s.to_user_id (confirmed_amount s)) m'
unfolding add_settlement
add_settlement-Moved s m m' e =
    row-Moved s.from_user_id s.to_user_id s.amount (confirmed_amount s) (not s.confirmed) m m'
      (not_not s.confirmed) e
  where
    not_not :
        (b : Bool) → when_ℤ (not (not b)) (stroops_of s.amount) ≡ when_ℤ b (stroops_of s.amount)
    not_not true = refl
    not_not false = refl

add_shares-Moved :
    (ss : List BalanceShareRow) (m m' : Nets)
    → add_shares m ss ≡ ok m'
    → Moved m (λ u. owed_to u ss -ℤ owes u ss) m'
unfolding add_shares
add_shares-Moved [] m m' e =
    subst (Moved m (λ u. pos 0 -ℤ pos 0)) (ok-injective e) (λ u. omega int_laws, refl)
add_shares-Moved (s ∷ ss) m m' e =
    let (m1, e1, e2) = >>=-eq-ok (add_share m s) _ e in
    let (h, k) = add_share-Moved s m m1 e1 in
    let (h', k') = add_shares-Moved ss m1 m' e2 in
    (λ u. omega (int_laws, parts_of (h u), parts_of (h' u)), k' ∙ k)

add_settlements-Moved :
    (ss : List BalanceSettlementRow) (m m' : Nets)
    → add_settlements m ss ≡ ok m'
    → Moved m (λ u. has_paid u ss -ℤ has_received u ss) m'
unfolding add_settlements
add_settlements-Moved [] m m' e =
    subst (Moved m (λ u. pos 0 -ℤ pos 0)) (ok-injective e) (λ u. omega int_laws, refl)
add_settlements-Moved (s ∷ ss) m m' e =
    let (m1, e1, e2) = >>=-eq-ok (add_settlement m s) _ e in
    let (h, k) = add_settlement-Moved s m m1 e1 in
    let (h', k') = add_settlements-Moved ss m1 m' e2 in
    (λ u. omega (int_laws, parts_of (h u), parts_of (h' u)), k' ∙ k)

-- The printed balances stand for the entries of the map.
abbrev Printed : Nets → List NetBalance → Type 0
Printed m bs = ((u : Text) → net_of u bs ≡ entries_of u m) × (total_net bs ≡ sum_nets m)

balances-Printed :
    (m : Nets) (bs : List NetBalance) → traverse to_net_balance m ≡ ok bs → Printed m bs
balances-Printed [] bs e = subst (Printed []) (ok-injective e) (λ u. refl, refl)
balances-Printed ((v, z) ∷ m) bs e =
    let (b, eb, e1) = >>=-eq-ok (to_net_balance (v, z)) _ e in
    let (rest, er, e2) = >>=-eq-ok (traverse to_net_balance m) _ e1 in
    let (text, et, e3) = >>=-eq-ok (from_stroops z) _ eb in
    let same = stroops_of-ok text z (to_stroops_of_from_stroops z text et) in
    let (h, k) = balances-Printed m rest er in
    subst (Printed ((v, z) ∷ m)) (ok-injective e2) (
      subst (λ x. Printed ((v, z) ∷ m) (x ∷ rest)) (ok-injective e3)
        (λ u. rw (same, h u), rw (same, k)))

-- Every balance sheet that is computed: the net of a member is what others owe it by unsettled
-- shares, less what it owes, plus the confirmed settlements it has paid, less those it has
-- received.
pub compute_net_balances-eq-ledger :
    (shares : List BalanceShareRow) (settlements : List BalanceSettlementRow) {bs : List NetBalance}
    → compute_net_balances shares settlements ≡ ok bs
    → (u : Text)
    → net_of u bs
      ≡ owed_to u shares -ℤ owes u shares +ℤ has_paid u settlements -ℤ has_received u settlements
unfolding compute_net_balances net_map
compute_net_balances-eq-ledger shares settlements {bs} e u =
    let (m, em, e1) = >>=-eq-ok (net_map shares settlements) _ e in
    let (m1, es, e2) = >>=-eq-ok (add_shares [] shares) _ em in
    let (h, _) = add_shares-Moved shares [] m1 es in
    let (h', _) = add_settlements-Moved settlements m1 m e2 in
    let (p, _) = balances-Printed m bs e1 in
    omega (int_laws, parts_of (h u), parts_of (h' u), parts_of (p u))

-- The nets of every balance sheet that is computed sum to zero.
pub compute_net_balances-zero_sum :
    (shares : List BalanceShareRow) (settlements : List BalanceSettlementRow) {bs : List NetBalance}
    → compute_net_balances shares settlements ≡ ok bs
    → total_net bs ≡ pos 0
unfolding compute_net_balances net_map
compute_net_balances-zero_sum shares settlements {bs} e =
    let (m, em, e1) = >>=-eq-ok (net_map shares settlements) _ e in
    let (m1, es, e2) = >>=-eq-ok (add_shares [] shares) _ em in
    let (_, k) = add_shares-Moved shares [] m1 es in
    let (_, k') = add_settlements-Moved settlements m1 m e2 in
    let (_, q) = balances-Printed m bs e1 in q ∙ k' ∙ k

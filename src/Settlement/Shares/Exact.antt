-- ===== src/Settlement/Shares/Exact.antt =====
-- computeShares returns shares that add up to the expense, one for each participant.
use mergepay_api.Money.Service.{to_stroops, from_stroops}
use mathlib.Core.Path.{ap₂}
use mergepay_api.Money.Amount.{MoneyError}
use mergepay_api.Money.Signed.{to_stroops_of_from_stroops}
use mergepay_api.Settlement.Ledger.{stroops_of, stroops_of-ok}
use mergepay_api.Settlement.Shares.{
  SplitType, equal, custom, percentage, SettlementEngineError, invalid_split_amount,
  invalid_split_sum, invalid_split_percent, Numbers, ComputedShare, Part, sum_parts, or_money,
  to_share, absorb, fix_remainder, ShareInput, assert_sum, custom_part, percent_total, percent_part,
  equal_part, split_total, compute_shares, custom_stroops,
}
use mergepay_api.Common.{
  >>=-eq-ok, List, Result, Text, [], ap, arith, eq_of_parts, err, int_laws, length, ltb_ℤ,
  magnitude, map, negsuc, not, ok, ok-injective, pos, refl, subst, sum, sym, throw_if, traverse,
  true, ℕ, ℤ, ◌+ℤ◌, ◌-ℤ◌, ◌/◌, ◌>>=◌, ◌∙◌, ◌∷◌, ◌≡◌, ◌≢◌,
}

abbrev pub sum_computed : List ComputedShare → ℤ
sum_computed [] = pos 0
sum_computed (s ∷ ss) = stroops_of s.share_amount +ℤ sum_computed ss

abbrev pub computed_users : List ComputedShare → List Text
computed_users [] = []
computed_users (s ∷ ss) = s.user_id ∷ computed_users ss

abbrev part_users : List Part → List Text
part_users [] = []
part_users (p ∷ ps) = p.user_id ∷ part_users ps

or_money-inv {ℓ} : {A : Type ℓ} (m : Result MoneyError A) {a : A} → or_money m ≡ ok a → m ≡ ok a
or_money-inv (ok x) e = ap (λ y. ok y) (ok-injective e)
or_money-inv (err x) e = cc

abbrev Sums : List Part → List ComputedShare → Type 0
Sums ps ss = (sum_computed ss ≡ sum_parts ps) × (computed_users ss ≡ part_users ps)

cons-Sums :
    (p : Part) (ps : List Part) (t : Text) (ss : List ComputedShare)
    → stroops_of t ≡ p.stroops
    → Sums ps ss
    → Sums (p ∷ ps) (record { user_id = p.user_id; share_amount = t } ∷ ss)
cons-Sums p ps t ss e (h, k) = (rw (e, h), ap (λ us. p.user_id ∷ us) k)

shares-Sums : (ps : List Part) {ss : List ComputedShare} → traverse to_share ps ≡ ok ss → Sums ps ss
shares-Sums [] {ss} e = subst (Sums []) (ok-injective e) (refl, refl)
shares-Sums (p ∷ ps) {ss} e =
    let (s, es, e1) = >>=-eq-ok (to_share p) _ e in
    let (rest, er, e2) = >>=-eq-ok (traverse to_share ps) _ e1 in
    let (t, et, e3) = >>=-eq-ok (or_money (from_stroops p.stroops)) _ es in
    subst (Sums (p ∷ ps)) (ok-injective e2) (
      subst (λ x. Sums (p ∷ ps) (x ∷ rest)) (ok-injective e3)
        (cons-Sums p ps t rest
          (stroops_of-ok t p.stroops
            (to_stroops_of_from_stroops p.stroops t (or_money-inv (from_stroops p.stroops) et)))
          (shares-Sums ps er)))

-- The first part takes up what is missing.
absorb-sum :
    (p : Part) (ps : List Part) (total : ℤ)
    → (sum_parts (absorb (total -ℤ sum_parts (p ∷ ps)) (p ∷ ps)) ≡ total)
      × (part_users (absorb (total -ℤ sum_parts (p ∷ ps)) (p ∷ ps)) ≡ part_users (p ∷ ps))
absorb-sum p ps total = (omega int_laws, refl)

fix_remainder-sums :
    (p : Part) (ps : List Part) (total : ℤ) {ss : List ComputedShare}
    → fix_remainder (p ∷ ps) total ≡ ok ss
    → (sum_computed ss ≡ total) × (computed_users ss ≡ part_users (p ∷ ps))
unfolding fix_remainder
fix_remainder-sums p ps total {ss} e =
    let (s, u) = shares-Sums (absorb (total -ℤ sum_parts (p ∷ ps)) (p ∷ ps)) e in
    let (s', u') = absorb-sum p ps total in (s ∙ s', u ∙ u')

mismatch-throws :
    (r : Result SettlementEngineError Text) → (r >>= (λ _. throw_if true invalid_split_sum)) ≢ ok tt
mismatch-throws (ok t) e = cc
mismatch-throws (err x) e = cc

assert_sum-eq : (sum total : ℤ) → assert_sum sum total ≡ ok tt → sum ≡ total
assert_sum-eq sum total e =
    ground (arith, eq_of_parts sum total, mismatch-throws (or_money (from_stroops sum)))

module _ {n : Numbers} where
  abbrev pub input_users : List (ShareInput n) → List Text
  input_users [] = []
  input_users (s ∷ ss) = s.user_id ∷ input_users ss

  users-map :
      (f : ShareInput n → Part) (ss : List (ShareInput n))
      → ((s : ShareInput n) → (f s).user_id ≡ s.user_id)
      → part_users (map f ss) ≡ input_users ss
  users-map f [] h = refl
  users-map f (s ∷ ss) h = ap₂ (λ u us. u ∷ us) (h s) (users-map f ss h)

  custom_part-user : (s : ShareInput n) {p : Part} → custom_part s ≡ ok p → p.user_id ≡ s.user_id
  custom_part-user s {p} e =
      let (v, _, e1) = >>=-eq-ok (custom_stroops s.amount) _ e in
      sym (ap (λ (x : Part). x.user_id) (ok-injective e1))

  users-custom :
      (ss : List (ShareInput n)) {ps : List Part}
      → traverse custom_part ss ≡ ok ps
      → part_users ps ≡ input_users ss
  users-custom [] {ps} e = subst (λ x. part_users x ≡ []) (ok-injective e) refl
  users-custom (s ∷ ss) {ps} e =
      let (p, ep, e1) = >>=-eq-ok (custom_part s) _ e in
      let (rest, er, e2) = >>=-eq-ok (traverse custom_part ss) _ e1 in
      subst (λ x. part_users x ≡ input_users (s ∷ ss)) (ok-injective e2)
        (ap₂ (λ u us. u ∷ us) (custom_part-user s ep) (users-custom ss er))

  split_total-sums :
      (total : ℕ) (mode : SplitType) (s : ShareInput n) (ss : List (ShareInput n))
      {out : List ComputedShare}
      → split_total total mode (s ∷ ss) ≡ ok out
      → (sum_computed out ≡ pos total) × (computed_users out ≡ input_users (s ∷ ss))
  unfolding split_total
  split_total-sums total custom s ss {out} e =
      let (ps, ep, e1) = >>=-eq-ok (traverse custom_part (s ∷ ss)) _ e in
      let (_, same, e2) = >>=-eq-ok (assert_sum (sum_parts ps) (pos total)) _ e1 in
      let (h, u) = shares-Sums ps e2 in
      (h ∙ assert_sum-eq (sum_parts ps) (pos total) same, u ∙ users-custom (s ∷ ss) ep)
  split_total-sums total percentage s ss {out} e =
      let (pct, _, e1) = >>=-eq-ok (percent_total n.zero_number (s ∷ ss)) _ e in
      let (_, _, e2) = >>=-eq-ok (throw_if (n.is_off_hundred pct) invalid_split_percent) _ e1 in
      let (h, u) =
        fix_remainder-sums (percent_part total s) (map (percent_part total) ss) (pos total) e2 in
      (h, u ∙ users-map (percent_part total) (s ∷ ss) (λ _. refl))
  split_total-sums total equal s ss {out} e =
      let base = total / length (s ∷ ss) in
      let (h, u) =
        fix_remainder-sums (equal_part base s) (map (equal_part base) ss) (pos total) e in
      (h, u ∙ users-map (equal_part base) (s ∷ ss) (λ _. refl))

  -- A split that returns, in every mode and whatever the percentages, has one share for each
  -- participant, in their order, and the shares add up to the expense to the stroop.
  pub compute_shares-exact :
      (amount : Text) (mode : SplitType) (shares : List (ShareInput n)) {out : List ComputedShare}
      → compute_shares amount mode shares ≡ ok out
      → (sum_computed out ≡ stroops_of amount) × (computed_users out ≡ input_users shares)
  unfolding compute_shares
  compute_shares-exact amount mode [] {out} e = cc
  compute_shares-exact amount mode (s ∷ ss) {out} e =
      let (z, ez, e1) = >>=-eq-ok (or_money (to_stroops amount)) _ e in
      let (_, positive, e2) =
        >>=-eq-ok (throw_if (not (ltb_ℤ (pos 0) z)) invalid_split_amount) _ e1 in
      let (h, u) = split_total-sums (magnitude z) mode s ss e2 in
      (
        h
            ∙ sym (positive_pos z (ground arith))
            ∙ sym (stroops_of-ok amount z (or_money-inv (to_stroops amount) ez)),
        u,
      )
    where
      positive_pos : (z : ℤ) → ltb_ℤ (pos 0) z ≡ true → z ≡ pos (magnitude z)
      positive_pos (pos k) h = refl
      positive_pos (negsuc k) h = ground arith

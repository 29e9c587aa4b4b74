-- ===== src/Settlement/Suggest/Clears.antt =====
-- The suggested transfers clear a balance sheet whose nets sum to zero.
use mergepay_api.Money.Service.{to_stroops, from_stroops}
use mergepay_api.Settlement.Balances.{NetBalance}
use mergepay_api.Settlement.Ledger.{stroops_of, total_net, net_of, pays, gets, stroops_of-ok}
use mergepay_api.Settlement.Suggest.{
  place, transfers, Party, Transfer, Suggestion, sides, to_suggestion, suggest_settlements,
}
use mergepay_api.Settlement.Suggest.Loop.{
  total, held, paid, received, length-transfers, transfers_pay,
}
use mergepay_api.Common.{
  >>=-eq-ok, List, Text, [], arith, int_laws, length, negsuc, ok, ok-injective, parts_of, pos, refl,
  subst, suc, traverse, zero, ℤ, ◌+ℤ◌, ◌+◌, ◌-◌, ◌∷◌, ◌≡◌, ◌≤◌,
}
use mergepay_api.Money.Signed.{to_stroops_of_from_stroops}

-- The two sides hold the debts and the credits of the sheet.
abbrev Sides : List NetBalance → List Party × List Party → Type 0
Sides bs s =
    ((u : Text) → net_of u bs +ℤ pos (held u s.0) ≡ pos (held u s.1))
    × (total_net bs +ℤ pos (total s.0) ≡ pos (total s.1))
    × (length s.0 + length s.1 ≤ length bs)

place-Sides :
    (b : NetBalance) (bs : List NetBalance) (z : ℤ) (r : List Party × List Party)
    → stroops_of b.net ≡ z
    → Sides bs r
    → Sides (b ∷ bs) (place b.user_id z r)
place-Sides b bs (pos zero) r e (h, t, l) =
    (λ u. grind (int_laws, h u), grind (int_laws, t), ground arith)
place-Sides b bs (pos (suc n)) r e (h, t, l) =
    (λ u. grind (int_laws, h u), grind (int_laws, t), ground arith)
place-Sides b bs (negsuc n) r e (h, t, l) =
    (λ u. grind (int_laws, h u), grind (int_laws, t), ground arith)

sides-Sides : (bs : List NetBalance) (s : List Party × List Party) → sides bs ≡ ok s → Sides bs s
unfolding sides
sides-Sides [] s e =
    subst (Sides []) (ok-injective e) (λ u. omega int_laws, omega int_laws, omega arith)
sides-Sides (b ∷ bs) s e =
    let (z, ez, e1) = >>=-eq-ok (to_stroops b.net) _ e in
    let (r, er, e2) = >>=-eq-ok (sides bs) _ e1 in
    subst (Sides (b ∷ bs)) (ok-injective e2)
      (place-Sides b bs z r (stroops_of-ok b.net z ez) (sides-Sides bs r er))

-- The texts of the suggestions stand for the stroops of the transfers.
abbrev Printed : List Transfer → List Suggestion → Type 0
Printed ts ss =
    ((u : Text) → (pays u ss ≡ pos (paid u ts)) × (gets u ss ≡ pos (received u ts)))
    × (length ss ≡ length ts)

suggestion-Printed :
    (t : Transfer) (ts : List Transfer) (s : Text) (ss : List Suggestion)
    → stroops_of s ≡ pos t.stroops
    → Printed ts ss
    → Printed
        (t ∷ ts)
        (record { from_user_id = t.from_user_id; to_user_id = t.to_user_id; amount = s } ∷ ss)
suggestion-Printed t ts s ss e (h, l) = (λ u. grind (int_laws, h u), omega arith)

suggestions-Printed :
    (ts : List Transfer) (ss : List Suggestion) → traverse to_suggestion ts ≡ ok ss → Printed ts ss
suggestions-Printed [] ss e = subst (Printed []) (ok-injective e) (λ u. (refl, refl), refl)
suggestions-Printed (t ∷ ts) ss e =
    let (s, es, e1) = >>=-eq-ok (to_suggestion t) _ e in
    let (rest, er, e2) = >>=-eq-ok (traverse to_suggestion ts) _ e1 in
    let (text, et, e3) = >>=-eq-ok (from_stroops (pos t.stroops)) _ es in
    subst (Printed (t ∷ ts)) (ok-injective e2) (
      subst (λ x. Printed (t ∷ ts) (x ∷ rest)) (ok-injective e3)
        (suggestion-Printed t ts text rest
          (stroops_of-ok text (pos t.stroops) (to_stroops_of_from_stroops (pos t.stroops) text et))
          (suggestions-Printed ts rest er)))

-- Where the nets of a balance sheet sum to zero, the suggested transfers clear it: for every
-- member, the net plus what it pays minus what it gets is zero.
pub suggest_settlements-clears :
    (bs : List NetBalance) {ss : List Suggestion}
    → suggest_settlements bs ≡ ok ss
    → total_net bs ≡ pos 0
    → (u : Text) → net_of u bs +ℤ pays u ss ≡ gets u ss
unfolding suggest_settlements
suggest_settlements-clears bs {ss} e zero_sum u =
    let (r, er, e1) = >>=-eq-ok (sides bs) _ e in
    let (net, tot, len) = sides-Sides bs r er in
    let (texts, n) = suggestions-Printed (transfers r.0 r.1) ss e1 in
    let (p, g) = texts u in
    let (tp, tg) = transfers_pay u r.0 r.1 (omega (int_laws, parts_of tot, parts_of zero_sum)) in
    omega (int_laws, parts_of (net u), parts_of p, parts_of g, parts_of zero_sum, parts_of tot)

-- A balance sheet of n members is settled in at most n - 1 transfers.
pub length-suggest_settlements :
    (bs : List NetBalance) {ss : List Suggestion}
    → suggest_settlements bs ≡ ok ss
    → length ss ≤ length bs - 1
unfolding suggest_settlements
length-suggest_settlements bs {ss} e =
    let (r, er, e1) = >>=-eq-ok (sides bs) _ e in
    let (net, tot, len) = sides-Sides bs r er in
    let (texts, n) = suggestions-Printed (transfers r.0 r.1) ss e1 in
    omega (arith, length-transfers r.0 r.1)

-- ===== src/Settlement/Suggest/Returns.antt =====
-- suggestSettlements returns wherever the nets are decimals in Stellar's range.
use mergepay_api.Money.Amount
use mergepay_api.Money.Amount.{max_stroops}
use mergepay_api.Money.Service.{to_stroops}
use mergepay_api.Settlement.Suggest.{
  place, transfers, settle, sides, Party, Suggestion, Transfer, insert_party, pay_down,
  sort_parties, suggest_settlements, to_suggestion,
}
use mergepay_api.Settlement.Balances.{NetBalance}
use mergepay_api.Money.Signed.{from_stroops-ok}
use mergepay_api.Common.{
  Bool-cases, List, Text, [], arith, if◌then◌else◌, inl, inr, length, ltb, ltb_ℤ, magnitude, ok,
  pos, refl, subst, suc, sym, traverse, zero, ℕ, ℤ, ◌+◌, ◌-◌, ◌==◌, ◌∷◌, ◌≡◌, ◌≤◌,
}
use mergepay_api.Money.Bounds.{to_stroops-bound}
use mergepay_api.Settlement.Suggest.Loop.{
  smaller, cons_transfer, length-pay_down, length-sort_parties, settle-cons,
}

-- No amount of the list is above `m`.
abbrev Capped : ℕ → List Party → Type 0
Capped m [] = Unit {0}
Capped m (p ∷ ps) = (p.amount ≤ m) × Capped m ps

abbrev CappedTransfers : ℕ → List Transfer → Type 0
CappedTransfers m [] = Unit {0}
CappedTransfers m (t ∷ ts) = (t.stroops ≤ m) × CappedTransfers m ts

insert_party-Capped :
    (m : ℕ) (p : Party) (ps : List Party)
    → p.amount ≤ m
    → Capped m ps
    → Capped m (insert_party p ps)
unfolding insert_party
insert_party-Capped m p [] h k = (h, tt)
insert_party-Capped m p (q ∷ qs) h (kq, kqs) = elim (Bool-cases (ltb p.amount q.amount)) [
  | inl less ↦ rw less (kq, insert_party-Capped m p qs h kqs)
  | inr other ↦ rw other (h, (kq, kqs))
]

sort_parties-Capped :
    (m : ℕ) (sorted ps : List Party)
    → Capped m sorted
    → Capped m ps
    → Capped m (sort_parties sorted ps)
unfolding sort_parties
sort_parties-Capped m sorted [] h k = h
sort_parties-Capped m sorted (p ∷ ps) h (kp, kps) =
    sort_parties-Capped m (insert_party p sorted) ps (insert_party-Capped m p sorted kp h) kps

pay_down-Capped :
    (m t : ℕ) (p : Party) (ps : List Party)
    → p.amount ≤ m
    → Capped m ps
    → Capped m (pay_down t p ps)
unfolding pay_down
pay_down-Capped m t p ps h k = elim (Bool-cases (p.amount - t == 0)) [
  | inl empty ↦ rw empty k
  | inr left ↦ rw left (omega arith, k)
]

settle-Capped : (m f : ℕ) (ds cs : List Party) → Capped m ds → CappedTransfers m (settle f ds cs)
unfolding settle
settle-Capped m zero ds cs h = tt
settle-Capped m (suc f) [] cs h = tt
settle-Capped m (suc f) (d ∷ ds) [] h = tt
settle-Capped m (suc f) (d ∷ ds) (c ∷ cs) (hd, hds) =
    let t : ℕ = if ltb d.amount c.amount then d.amount else c.amount in
    let rest =
      settle-Capped m f (pay_down t d ds) (pay_down t c cs) (pay_down-Capped m t d ds hd hds) in
    let small : t ≤ m = ground arith in
    elim (Bool-cases (ltb 0 t)) [
      | inl some_left ↦ rw some_left (small, rest)
      | inr nothing ↦ rw nothing rest
    ]

place-Capped :
    (m : ℕ) (u : Text) (z : ℤ) (r : List Party × List Party)
    → magnitude z ≤ m
    → Capped m r.0
    → Capped m (place u z r).0
place-Capped m u z (ds, cs) h k = elim (Bool-cases (ltb_ℤ z (pos 0))) [
  | inl debt ↦ rw debt (h, k)
  | inr other ↦ elim (Bool-cases (ltb_ℤ (pos 0) z)) [
    | inl credit ↦ rw (other, credit) k
    | inr nought ↦ rw (other, nought) k
  ]
]

-- Every net is a decimal that is read.
abbrev pub Readable : List NetBalance → Type 0
Readable [] = Unit {0}
Readable (b ∷ bs) = ((z : ℤ) × (to_stroops b.net ≡ ok z)) × Readable bs

sides-Capped :
    (bs : List NetBalance)
    → Readable bs
    → (r : List Party × List Party) × (sides bs ≡ ok r) × Capped max_stroops r.0
unfolding sides
sides-Capped [] h = (([], []), refl, tt)
sides-Capped (b ∷ bs) ((z, ez), h) =
    let (r, er, k) = sides-Capped bs h in
    (
      place b.user_id z r,
      rw (ez, er) refl,
      place-Capped max_stroops b.user_id z r (to_stroops-bound b.net ez) k,
    )

suggestions_returned :
    (ts : List Transfer)
    → CappedTransfers max_stroops ts
    → (ss : List Suggestion) × (traverse to_suggestion ts ≡ ok ss)
suggestions_returned [] h = ([], refl)
suggestions_returned (t ∷ ts) (ht, hts) =
    let (ss, es) = suggestions_returned ts hts in
    let text = Amount.from_stroops (pos t.stroops) in
    let first : Suggestion = record {
      from_user_id = t.from_user_id;
      to_user_id = t.to_user_id;
      amount = text;
    } in
    (first ∷ ss, rw (from_stroops-ok (pos t.stroops) ht, es) refl)

-- The runs of the `while` loop that end, with the transfers that they make, whatever their length:
-- the loop stops at the end of either array, and else makes a round and goes on.
pub data Run : List Party → List Party → List Transfer → Type 0 where
  no_debtor : {cs : List Party} → Run [] cs []
  no_creditor : {d : Party} {ds : List Party} → Run (d ∷ ds) [] []
  round :
      {d c : Party} {ds cs : List Party} {rest : List Transfer}
      → Run (pay_down (smaller d c) d ds) (pay_down (smaller d c) c cs) rest
      → Run (d ∷ ds) (c ∷ cs) (cons_transfer (smaller d c) d c rest)

-- As many rounds as there are members in the arrays are enough for the loop to end.
settle-Run : (f : ℕ) (ds cs : List Party) → length ds + length cs ≤ f → Run ds cs (settle f ds cs)
unfolding settle
settle-Run zero [] cs h = no_debtor
settle-Run zero (d ∷ ds) cs h = absurd (omega arith)
settle-Run (suc f) [] cs h = no_debtor
settle-Run (suc f) (d ∷ ds) [] h = no_creditor
settle-Run (suc f) (d ∷ ds) (c ∷ cs) h =
    let t = smaller d c in
    subst (Run (d ∷ ds) (c ∷ cs)) (sym (settle-cons f d c ds cs)) (
      round (
        settle-Run f (pay_down t d ds) (pay_down t c cs)
          (omega (arith, length-pay_down d c ds cs))))

transfers-Run :
    (ds cs : List Party) → Run (sort_parties [] ds) (sort_parties [] cs) (transfers ds cs)
unfolding transfers
transfers-Run ds cs =
    settle-Run (length ds + length cs) (sort_parties [] ds) (sort_parties [] cs)
      (omega (arith, length-sort_parties [] ds, length-sort_parties [] cs))

-- Where every net is a decimal in Stellar's range, whatever the nets sum to, the settle-up loop
-- ends on the sorted debtors and creditors of the sheet, and `suggestSettlements` returns a
-- suggestion for each of its transfers, with the amount in print.
pub suggest_settlements_returns :
    (bs : List NetBalance)
    → Readable bs
    → (r : List Party × List Party) × (ts : List Transfer) × (ss : List Suggestion) × (sides bs
        ≡ ok r)
      × Run (sort_parties [] r.0) (sort_parties [] r.1) ts
      × (traverse to_suggestion ts ≡ ok ss)
      × (suggest_settlements bs ≡ ok ss)
unfolding suggest_settlements transfers
suggest_settlements_returns bs h =
    let (r, er, k) = sides-Capped bs h in
    let sorted = sort_parties-Capped max_stroops [] r.0 tt k in
    let ts = transfers r.0 r.1 in
    let (ss, es) = suggestions_returned ts (
      settle-Capped max_stroops (length r.0 + length r.1) (sort_parties [] r.0)
        (sort_parties [] r.1) sorted) in
    (r, ts, ss, er, transfers-Run r.0 r.1, es, rw (er, es) refl)

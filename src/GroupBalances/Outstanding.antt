-- ===== src/GroupBalances/Outstanding.antt =====
-- What verifySettlementLimit compares an amount with.
use mergepay_api.Common.{
  All, Bool, Bool-cases, List, Text, [], ap, arith, err, false, if◌then◌else◌, inl, inr, int_laws,
  keep, ltb_ℤ, not, ok, pos, refl, text_eq, text_eq_iff, throw_if, true, ℤ, ◌&&◌, ◌+ℤ◌, ◌-ℤ◌, ◌∙◌,
  ◌∷◌, ◌≡◌,
}
use mergepay_api.Settlement.Ledger.{stroops_of, when_ℤ, stroops_of-ok}
use mergepay_api.GroupBalances.Limit.{
  between, ExpenseRow, SettlementRow, ShareRow, add_expense_debts, add_share_debt, add_share_debts,
  add_transfer, add_transfers, has_failed, over_settlement, read_and, settlement_selected,
  share_selected, verify_settlement_limit,
}
use mergepay_api.Money.Service.{to_stroops}

-- What `a` owes `b` by unsettled shares, in whatever asset.
abbrev pub claim : Text → Text → Text → ShareRow → ℤ
claim a b payer s =
    when_ℤ (not s.settled && between a b s.user_id payer) (stroops_of s.share_amount)

abbrev pub claims : Text → Text → Text → List ShareRow → ℤ
claims a b payer [] = pos 0
claims a b payer (s ∷ shares) = claim a b payer s +ℤ claims a b payer shares

abbrev pub owed_between : Text → Text → List ExpenseRow → ℤ
owed_between a b [] = pos 0
owed_between a b (e ∷ expenses) = claims a b e.payer_user_id e.shares +ℤ owed_between a b expenses

-- What `a` has sent to `b`, or may still send, by settlements that have not failed.
abbrev pub sent_between : Text → Text → List SettlementRow → ℤ
sent_between a b [] = pos 0
sent_between a b (s ∷ settlements) =
    when_ℤ (not (has_failed s.status) && between a b s.from_user_id s.to_user_id)
      (stroops_of s.amount)
    +ℤ sent_between a b settlements

abbrev pub outstanding_debt : Text → Text → List ExpenseRow → List SettlementRow → ℤ
outstanding_debt from to expenses settlements =
    owed_between from to expenses
    -ℤ owed_between to from expenses
    -ℤ sent_between from to settlements
    +ℤ sent_between to from settlements

abbrev pub Readable : Text → Type 0
Readable t = (z : ℤ) × (to_stroops t ≡ ok z)

-- Adding what a row holds, if it is read at all.
read_amount : (t : Text) (next : ℤ → ℤ) → Readable t → read_and t next ≡ ok (next (stroops_of t))
read_amount t next (z, e) = rw (e, stroops_of-ok t z e) refl

add_share_debt-eq :
    (from to payer : Text) (debt : ℤ) (s : ShareRow)
    → text_eq from to ≡ false
    → Readable s.share_amount
    → add_share_debt from to payer debt s
      ≡ ok (debt +ℤ claim from to payer s -ℤ claim to from payer s)
unfolding add_share_debt
add_share_debt-eq from to payer debt s other read = elim (Bool-cases s.settled) [
  | inl t ↦ rw t (ap ok (grind int_laws))
  | inr f ↦ elim (Bool-cases (between from to s.user_id payer)) [
    | inl t1 ↦
        let back : between to from s.user_id payer ≡ false = ground (
          arith,
          other,
          t1,
          text_eq_iff s.user_id from,
          text_eq_iff s.user_id to,
          text_eq_iff from to,
        ) in
        rw (f, t1, back) (read_amount s.share_amount (λ z. debt +ℤ z) read ∙ ap ok (grind int_laws))
    | inr f1 ↦ elim (Bool-cases (between to from s.user_id payer)) [
      | inl t2 ↦
          rw (f, f1, t2) (read_amount s.share_amount (λ z. debt -ℤ z) read ∙ ap ok (grind int_laws))
      | inr f2 ↦ rw (f, f1, f2) (ap ok (grind int_laws))
    ]
  ]
]

add_transfer-eq :
    (from to : Text) (debt : ℤ) (s : SettlementRow)
    → text_eq from to ≡ false
    → Readable s.amount
    → add_transfer from to debt s
      ≡ ok (
          debt
          -ℤ when_ℤ (between from to s.from_user_id s.to_user_id) (stroops_of s.amount)
          +ℤ when_ℤ (between to from s.from_user_id s.to_user_id) (stroops_of s.amount))
unfolding add_transfer
add_transfer-eq from to debt s other read =
    elim (Bool-cases (between from to s.from_user_id s.to_user_id)) [
      | inl t1 ↦
          let back : between to from s.from_user_id s.to_user_id ≡ false = ground (
            arith,
            other,
            t1,
            text_eq_iff s.from_user_id from,
            text_eq_iff s.from_user_id to,
            text_eq_iff from to,
          ) in
          rw (t1, back) (read_amount s.amount (λ z. debt -ℤ z) read ∙ ap ok (grind int_laws))
      | inr f1 ↦ elim (Bool-cases (between to from s.from_user_id s.to_user_id)) [
        | inl t2 ↦ rw (f1, t2) (read_amount s.amount (λ z. debt +ℤ z) read ∙ ap ok (grind int_laws))
        | inr f2 ↦ rw (f1, f2) (ap ok (grind int_laws))
      ]
    ]

module _ (from to : Text) (other : text_eq from to ≡ false) where
  unselected_share :
      (payer : Text) (s : ShareRow)
      → share_selected from to s ≡ false
      → (claim from to payer s ≡ pos 0) × (claim to from payer s ≡ pos 0)
  unselected_share payer s f = (ground (arith, f), ground (arith, f))

  add_share_debts-eq :
      (payer : Text) (debt : ℤ) (shares : List ShareRow)
      → All (λ (s : ShareRow). Readable s.share_amount) shares
      → add_share_debts from to payer debt (keep (share_selected from to) shares)
        ≡ ok (debt +ℤ claims from to payer shares -ℤ claims to from payer shares)
  unfolding add_share_debts
  add_share_debts-eq payer debt [] h = ap ok (omega int_laws)
  add_share_debts-eq payer debt (s ∷ shares) (read, h) =
      elim (Bool-cases (share_selected from to s)) [
        | inl t ↦
            let step = debt +ℤ claim from to payer s -ℤ claim to from payer s in
            rw (t, add_share_debt-eq from to payer debt s other read)
              (add_share_debts-eq payer step shares h ∙ ap ok (omega int_laws))
        | inr f ↦
            let (none_owed, none_claimed) = unselected_share payer s f in
            rw (f, none_owed, none_claimed)
              (add_share_debts-eq payer debt shares h ∙ ap ok (omega int_laws))
      ]

  add_expense_debts-eq :
      (debt : ℤ) (expenses : List ExpenseRow)
      → All (λ (e : ExpenseRow). All (λ (s : ShareRow). Readable s.share_amount) e.shares) expenses
      → add_expense_debts from to debt expenses
        ≡ ok (debt +ℤ owed_between from to expenses -ℤ owed_between to from expenses)
  unfolding add_expense_debts
  add_expense_debts-eq debt [] h = ap ok (omega int_laws)
  add_expense_debts-eq debt (e ∷ expenses) (read, h) =
      let step =
        debt
        +ℤ claims from to e.payer_user_id e.shares
        -ℤ claims to from e.payer_user_id e.shares in
      rw (add_share_debts-eq e.payer_user_id debt e.shares read)
        (add_expense_debts-eq step expenses h ∙ ap ok (omega int_laws))

  add_transfers-eq :
      (debt : ℤ) (settlements : List SettlementRow)
      → All (λ (s : SettlementRow). Readable s.amount) settlements
      → add_transfers from to debt (keep (settlement_selected from to) settlements)
        ≡ ok (debt -ℤ sent_between from to settlements +ℤ sent_between to from settlements)
  unfolding add_transfers
  add_transfers-eq debt [] h = ap ok (omega int_laws)
  add_transfers-eq debt (s ∷ settlements) (read, h) =
      let there = between from to s.from_user_id s.to_user_id in
      let back = between to from s.from_user_id s.to_user_id in
      elim (Bool-cases (settlement_selected from to s)) [
        | inl t ↦
            let live : has_failed s.status ≡ false = ground (arith, t) in
            let step =
              debt -ℤ when_ℤ there (stroops_of s.amount) +ℤ when_ℤ back (stroops_of s.amount) in
            rw (t, live, add_transfer-eq from to debt s other read)
              (add_transfers-eq step settlements h ∙ ap ok (omega int_laws))
        | inr f ↦
            let out : (not (has_failed s.status) && there) ≡ false = ground (arith, f) in
            let into : (not (has_failed s.status) && back) ≡ false = ground (arith, f) in
            rw (f, out, into) (add_transfers-eq debt settlements h ∙ ap ok (omega int_laws))
      ]

  -- Where all amounts can be read, a settlement between two different users is refused exactly if
  -- it is larger than what the payer owes the receiver, by unsettled shares in every asset, less
  -- what the receiver owes the payer, and less what has been sent, or may still be, by settlements
  -- that have not failed.
  pub verify_settlement_limit-eq-outstanding :
      (expenses : List ExpenseRow) (settlements : List SettlementRow) (amount : Text) (z : ℤ)
      → All (λ (e : ExpenseRow). All (λ (s : ShareRow). Readable s.share_amount) e.shares) expenses
      → All (λ (s : SettlementRow). Readable s.amount) settlements
      → to_stroops amount ≡ ok z
      → verify_settlement_limit expenses settlements from to amount ≡ (
          if ltb_ℤ (outstanding_debt from to expenses settlements) z
          then err over_settlement
          else ok tt)
  unfolding verify_settlement_limit
  verify_settlement_limit-eq-outstanding expenses settlements amount z read_shares read_transfers
        e =
      let owed = add_expense_debts-eq (pos 0) expenses read_shares in
      let debt = pos 0 +ℤ owed_between from to expenses -ℤ owed_between to from expenses in
      let left = add_transfers-eq debt settlements read_transfers in
      let same : debt -ℤ sent_between from to settlements +ℤ sent_between to from settlements
          ≡ outstanding_debt from to expenses settlements =
        omega int_laws in
      rw (owed, left, e, same) (thrown (ltb_ℤ (outstanding_debt from to expenses settlements) z))
    where
      thrown : (b : Bool) → throw_if b over_settlement ≡ (if b then err over_settlement else ok tt)
      thrown true = refl
      thrown false = refl

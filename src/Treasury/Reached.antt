-- ===== src/Treasury/Reached.antt =====
-- The databases that proposals and signing lead to, and the statuses of proposals in them.
use mergepay_api.Common.{
  >>=-eq-ok, Bool-cases, Text, [], ap, err, inl, inr, is_empty, map_get, map_has, map_set, not, ok,
  ok-injective, refl, some, sym, throw_if, ℕ, ◌∙◌, ◌≡◌, ◌⊎◌,
}
use mergepay_api.Treasury.Store.{
  load, submitted, CreateTxProposalParams, Horizon, SubmitSignatureParams, TreasuryDb,
  TreasuryTxProposal, insert_proposal, pending_signatures,
}
use mergepay_api.Treasury.Envelope.{
  Sdk, assert_treasury_envelope_policy, id_taken, parse_treasury_xdr, xdr_not_unsigned,
}
use mergepay_api.Treasury.Propose.{create_proposal, new_proposal, policy_of, treasury_of}
use mergepay_api.Treasury.Persisted.{map_get-set-inv, submit_signature-AllLasting}
use mergepay_api.Treasury.Collect.{submit_signature, Engine}

insert_proposal-inv :
    (id : Text) (p : TreasuryTxProposal) (db : TreasuryDb) {db' : TreasuryDb}
    → insert_proposal id p db ≡ ok db'
    → db'.proposals ≡ map_set id p db.proposals
unfolding insert_proposal
insert_proposal-inv id p db {db'} e = elim (Bool-cases (map_has id db.proposals)) [
  | inl taken ↦
      let thrown : insert_proposal id p db ≡ err id_taken = rw (insert_proposal, taken) refl in
      cc (e, thrown)
  | inr free ↦
      let done : insert_proposal id p db
          ≡ ok (record db { proposals = map_set id p db.proposals }) =
        rw (insert_proposal, free) refl in
      ap (λ (d : TreasuryDb). d.proposals) (ok-injective (sym e ∙ done))
]

create_proposal-inv :
    (sdk : Sdk) (horizon : Horizon) (params : CreateTxProposalParams) (id : Text) (now : ℕ)
    (db : TreasuryDb) {p : TreasuryTxProposal} {db' : TreasuryDb}
    → create_proposal sdk horizon params id now db ≡ ok (p, db')
    → (p.status ≡ pending_signatures) × (db'.proposals ≡ map_set id p db.proposals)
unfolding create_proposal
create_proposal-inv sdk horizon params id now db {p} {db'} e =
    let (treasury, _, e1) = >>=-eq-ok (treasury_of (map_get params.group_id db.groups)) _ e in
    let (tx, _, e2) = >>=-eq-ok (parse_treasury_xdr sdk params.xdr) _ e1 in
    let (_, _, e3) = >>=-eq-ok (throw_if (not (is_empty tx.signatures)) xdr_not_unsigned) _ e2 in
    let (_, _, e4) =
      >>=-eq-ok (assert_treasury_envelope_policy sdk (policy_of treasury) now tx) _ e3 in
    let (account, _, e5) = >>=-eq-ok (load horizon treasury) _ e4 in
    let made = new_proposal params tx.hash treasury account.thresholds.high in
    let (inserted, fresh, e6) = >>=-eq-ok (insert_proposal id made db) _ e5 in
    let same : made ≡ p = ap (λ x. x.0) (ok-injective e6) in
    let kept : inserted.proposals ≡ db'.proposals =
      ap (λ (x : TreasuryTxProposal × TreasuryDb). x.1.proposals) (ok-injective e6) in
    (
      ap (λ (x : TreasuryTxProposal). x.status) (sym same),
      sym kept ∙ insert_proposal-inv id made db fresh ∙ ap (λ q. map_set id q db.proposals) same,
    )

-- The databases that the two operations lead to from one without proposals, with any changes to
-- the other tables; a request that writes over what others have committed starts from an earlier
-- one.
pub data Reached : TreasuryDb → Type 0 where
  start : (db : TreasuryDb) → db.proposals ≡ [] → Reached db
  elsewhere : (db db' : TreasuryDb) → Reached db → db'.proposals ≡ db.proposals → Reached db'
  created :
      (sdk : Sdk) (horizon : Horizon) (params : CreateTxProposalParams) (id : Text) (now : ℕ)
      (db : TreasuryDb) (p : TreasuryTxProposal) (db' : TreasuryDb)
      → Reached db
      → create_proposal sdk horizon params id now db ≡ ok (p, db')
      → Reached db'
  signed :
      (sdk : Sdk) (horizon : Horizon) (args : SubmitSignatureParams) (engine : Engine) (now : ℕ)
      (db committed : TreasuryDb)
      → Reached db
      → Reached committed
      → Reached (submit_signature sdk horizon args engine now db committed).1

-- Whatever requests are made and whatever Stellar answers, a proposal in the database is collecting
-- signatures or submitted: none is ever READY or FAILED.
pub reached_status_lem :
    (db : TreasuryDb)
    → Reached db
    → (id : Text) (p : TreasuryTxProposal) → map_get id db.proposals ≡ some p
    → (p.status ≡ pending_signatures) ⊎ (p.status ≡ submitted)
reached_status_lem _ (start db none_yet) id p found = cc (ap (map_get id) none_yet, found)
reached_status_lem _ (elsewhere db db' before same) id p found =
    reached_status_lem db before id p (ap (map_get id) (sym same) ∙ found)
reached_status_lem _ (created sdk horizon params one now db made db' before e) id p found =
    let (fresh, written) = create_proposal-inv sdk horizon params one now db e in
    elim (map_get-set-inv one id made p db.proposals (ap (map_get id) (sym written) ∙ found)) [
      | inl (_, same) ↦ inl (sym (ap (λ (x : TreasuryTxProposal). x.status) same) ∙ fresh)
      | inr (_, there) ↦ reached_status_lem db before id p there
    ]
reached_status_lem _ (signed sdk horizon args engine now db committed earlier before) id p found =
    submit_signature-AllLasting sdk horizon args engine now db committed
      (reached_status_lem committed before) id p found

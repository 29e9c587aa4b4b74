-- ===== src/Treasury/Weight.antt =====
-- What backs a submission: whose signatures are stored, and what they weigh.
use mergepay_api.Common.{
  Bool-cases, Option-cases, Result, Result-cases, Text, ap, arith, err, inl, inr, keep, ltb,
  map_get, map_set, none, ok, ok-injective, refl, sym, true, ℕ, ◌∙◌, ◌≡◌, ◌≤◌,
}
use mergepay_api.Treasury.Collect.{
  decide, broadcast, outcome, Checked, fail_submission, merged_xdr, submit_merged, as_failed,
  as_pending, as_ready, as_submitted, audit_of, note_submission,
}
use mergepay_api.Treasury.Store.{
  submitted, Horizon, SignatureSubmissionResult, SubmitSignatureParams, TreasuryDb,
  TreasuryTxProposal, update_proposal, add_audit, proposal_ready, pending_signatures,
}
use mergepay_api.Treasury.Envelope.{Sdk, TreasuryError, row_missing}
use mergepay_api.Treasury.Sign.{signed_on, signed_weight}

-- The writes of submitSignature after the signatures leave those as they are.
update_proposal-signatures :
    (id : Text) (change : TreasuryTxProposal → TreasuryTxProposal) (db : TreasuryDb)
    {db' : TreasuryDb}
    → update_proposal id change db ≡ ok db'
    → db'.signatures ≡ db.signatures
unfolding update_proposal
update_proposal-signatures id change db {db'} e = elim (Option-cases (map_get id db.proposals)) [
  | inl gone ↦
      let thrown : update_proposal id change db ≡ err row_missing =
        rw (update_proposal, gone) refl in
      cc (e, thrown)
  | inr (p, found) ↦
      let done : update_proposal id change db
          ≡ ok (record db { proposals = map_set id (change p) db.proposals }) =
        rw (update_proposal, found) refl in
      ap (λ (d : TreasuryDb). d.signatures) (ok-injective (sym e ∙ done))
]

module _ (args : SubmitSignatureParams) (c : Checked) where
  fail_submission-signatures :
      (reason : Text) (db : TreasuryDb)
      → (fail_submission args c reason db).1.signatures ≡ db.signatures
  unfolding fail_submission
  fail_submission-signatures reason db =
      elim (Result-cases (update_proposal args.proposal_id (as_failed reason) db)) [
        | inl (db', e) ↦ rw e (update_proposal-signatures args.proposal_id (as_failed reason) db e)
        | inr (x, e) ↦ rw e refl
      ]

  note_submission-signatures :
      (total : ℕ) (missing hash : Text) (db : TreasuryDb) (m : Result TreasuryError TreasuryDb)
      → ((db' : TreasuryDb) → m ≡ ok db' → db'.signatures ≡ db.signatures)
      → (note_submission args c total missing hash db m).1.signatures ≡ db.signatures
  unfolding note_submission
  note_submission-signatures total missing hash db (err e) same =
      fail_submission-signatures missing db
  note_submission-signatures total missing hash db (ok db') same = same db' refl

  broadcast-signatures :
      (total : ℕ) (missing : Text) (db : TreasuryDb) (answer : Result Text Text)
      → (broadcast args c total missing db answer).1.signatures ≡ db.signatures
  unfolding broadcast
  broadcast-signatures total missing db (err reason) = fail_submission-signatures reason db
  broadcast-signatures total missing db (ok hash) =
      note_submission-signatures total missing hash db
        (update_proposal args.proposal_id (as_submitted hash) db)
        (λ db'. update_proposal-signatures args.proposal_id (as_submitted hash) db)

  submit_merged-signatures :
      (horizon : Horizon) (missing : Text) (total : ℕ) (db : TreasuryDb)
      (m : Result TreasuryError Text)
      → (submit_merged horizon args c missing total db m).1.signatures ≡ db.signatures
  unfolding submit_merged
  submit_merged-signatures horizon missing total db (err e) = refl
  submit_merged-signatures horizon missing total db (ok xdr) =
      broadcast-signatures total missing db (horizon.submit_signed xdr)

  pub decide-signatures :
      (sdk : Sdk) (horizon : Horizon) (missing : Text) (db : TreasuryDb)
      → (decide sdk horizon args c missing db).1.signatures ≡ db.signatures
  unfolding decide
  decide-signatures sdk horizon missing db =
      let all_signatures = keep (signed_on args.proposal_id) db.signatures in
      let required = c.account.thresholds.high in
      elim (Bool-cases (ltb (signed_weight all_signatures) required)) [
        | inl low ↦
            elim (Result-cases (update_proposal args.proposal_id (as_pending required) db)) [
              | inl (db', e) ↦
                  rw (low, e)
                    (update_proposal-signatures args.proposal_id (as_pending required) db e)
              | inr (x, e) ↦ rw (low, e) refl
            ]
        | inr enough ↦
            elim (Result-cases (update_proposal args.proposal_id (as_ready required) db)) [
              | inl (db', e) ↦
                  rw (enough, e)
                    (submit_merged-signatures horizon missing (signed_weight all_signatures)
                        (add_audit (audit_of args c proposal_ready true) db')
                        (merged_xdr sdk c.proposal all_signatures)
                      ∙ update_proposal-signatures args.proposal_id (as_ready required) db e)
              | inr (x, e) ↦ rw (enough, e) refl
            ]
      ]

  -- A submission that is reported had the weight that the account asks for.
  pub decide-weight :
      (sdk : Sdk) (horizon : Horizon) (missing : Text) (db : TreasuryDb)
      {r : SignatureSubmissionResult}
      → (decide sdk horizon args c missing db).0 ≡ ok r
      → r.status ≡ submitted
      → c.account.thresholds.high ≤ signed_weight (keep (signed_on args.proposal_id) db.signatures)
  unfolding decide
  decide-weight sdk horizon missing db {r} e s =
      let total = signed_weight (keep (signed_on args.proposal_id) db.signatures) in
      elim (Bool-cases (ltb total c.account.thresholds.high)) [
        | inl low ↦
            let required = c.account.thresholds.high in
            elim (Result-cases (update_proposal args.proposal_id (as_pending required) db)) [
              | inl (db', u) ↦
                  let back : (decide sdk horizon args c missing db).0
                      ≡ ok (outcome pending_signatures total required none) =
                    rw (low, u) refl in
                  let waiting : pending_signatures ≡ r.status =
                    ap (λ (q : SignatureSubmissionResult). q.status)
                      (ok-injective (sym back ∙ e)) in
                  cc (waiting, s)
              | inr (x, u) ↦
                  let thrown : (decide sdk horizon args c missing db).0 ≡ err x =
                    rw (low, u) refl in
                  cc (thrown, e)
            ]
        | inr enough ↦ ground (arith, enough)
      ]

-- ===== src/Treasury/Persisted.antt =====
-- Which statuses of proposals a transaction commits.
use mergepay_api.Common.{
  Bool, Bool-cases, List, Option-cases, Result, Text, [], any, ap, err, false, if◌then◌else◌, inl,
  inr, keep, ltb, map_get, map_get-set, map_set, none, ok, ok-injective, refl, some, subst, sym,
  text_eq, true, ℕ, ◌∙◌, ◌∷◌, ◌≡◌, ◌⊎◌,
}
use mergepay_api.Treasury.Collect.{
  outcome, decide, broadcast, Attempt, Checked, after_write, as_failed, audit_of, fail_submission,
  as_pending, as_ready, as_submitted, merged_xdr, note_submission, submit_merged, check_submission,
  submit_body, submit_signature, Engine, is_aborted, record_and_decide,
}
use mergepay_api.Treasury.Store.{
  submitted, ProposalStatus, SignatureSubmissionResult, SubmitSignatureParams, TreasuryDb,
  TreasurySignature, TreasuryTxProposal, add_audit, pending_signatures, proposal_failed_audit,
  update_proposal, Horizon, proposal_ready, transaction_of,
}
use mergepay_api.Treasury.Envelope.{upstream, TreasuryError, row_missing, Sdk}
use mergepay_api.Treasury.Sign.{
  insert_signature, record_signatures, same_signer, signed_on, signed_weight,
}

-- Collecting signatures, or submitted.
abbrev pub Lasting : ProposalStatus → Type 0
Lasting status = (status ≡ pending_signatures) ⊎ (status ≡ submitted)

abbrev pub AllLasting : TreasuryDb → Type 0
AllLasting db =
    (id : Text) (p : TreasuryTxProposal) → map_get id db.proposals ≡ some p → Lasting p.status

-- Every proposal but that one.
abbrev pub OthersLasting : Text → TreasuryDb → Type 0
OthersLasting one db =
    (id : Text) (p : TreasuryTxProposal)
    → text_eq one id ≡ false
    → map_get id db.proposals ≡ some p
    → Lasting p.status

update_proposal-inv :
    (id : Text) (change : TreasuryTxProposal → TreasuryTxProposal) (db : TreasuryDb)
    {db' : TreasuryDb}
    → update_proposal id change db ≡ ok db'
    → (p : TreasuryTxProposal) × (db'.proposals ≡ map_set id (change p) db.proposals)
unfolding update_proposal
update_proposal-inv id change db {db'} e = elim (Option-cases (map_get id db.proposals)) [
  | inl gone ↦
      let thrown : update_proposal id change db ≡ err row_missing =
        rw (update_proposal, gone) refl in
      cc (e, thrown)
  | inr (p, found) ↦
      let done : update_proposal id change db
          ≡ ok (record db { proposals = map_set id (change p) db.proposals }) =
        rw (update_proposal, found) refl in
      (p, ap (λ (d : TreasuryDb). d.proposals) (ok-injective (sym e ∙ done)))
]

-- A row that is found after a write is the written one, or was there.
pub map_get-set-inv :
    (one id : Text) (q p : TreasuryTxProposal) (m : List (Text × TreasuryTxProposal))
    → map_get id (map_set one q m) ≡ some p
    → ((text_eq one id ≡ true) × (q ≡ p)) ⊎ ((text_eq one id ≡ false) × (map_get id m ≡ some p))
map_get-set-inv one id q p m e = elim (Bool-cases (text_eq one id)) [
  | inl t ↦
      let written : map_get id (map_set one q m) ≡ some q = rw (map_get-set one id q m, t) refl in
      inl (t, cc (written, e))
  | inr f ↦
      let kept : map_get id (map_set one q m) ≡ map_get id m =
        rw (map_get-set one id q m, f) refl in
      inr (f, sym kept ∙ e)
]

update_proposal-OthersLasting :
    (one : Text) (change : TreasuryTxProposal → TreasuryTxProposal) (db : TreasuryDb)
    {db' : TreasuryDb}
    → update_proposal one change db ≡ ok db'
    → OthersLasting one db
    → OthersLasting one db'
update_proposal-OthersLasting one change db {db'} e h id p other found =
    let (q, written) = update_proposal-inv one change db e in
    elim (map_get-set-inv one id (change q) p db.proposals
      (ap (map_get id) (sym written) ∙ found)) [
        | inl (mine, _) ↦ cc (mine, other)
        | inr (_, there) ↦ h id p other there
      ]

update_proposal-AllLasting :
    (one : Text) (change : TreasuryTxProposal → TreasuryTxProposal) (db : TreasuryDb)
    {db' : TreasuryDb}
    → update_proposal one change db ≡ ok db'
    → ((q : TreasuryTxProposal) → Lasting (change q).status)
    → OthersLasting one db
    → AllLasting db'
update_proposal-AllLasting one change db {db'} e good h id p found =
    let (q, written) = update_proposal-inv one change db e in
    elim (map_get-set-inv one id (change q) p db.proposals
      (ap (map_get id) (sym written) ∙ found)) [
        | inl (_, same) ↦ subst (λ (x : TreasuryTxProposal). Lasting x.status) same (good q)
        | inr (other, there) ↦ h id p other there
      ]

record_signatures-proposals :
    (group : Text) (new : List TreasurySignature) (db : TreasuryDb)
    → (record_signatures group new db).proposals ≡ db.proposals
unfolding record_signatures
record_signatures-proposals group [] db = refl
record_signatures-proposals group (s ∷ new) db =
    record_signatures-proposals group new _ ∙ kept (any (same_signer s) db.signatures)
  where
    kept : (b : Bool) → (if b then db else insert_signature group s db).proposals ≡ db.proposals
    kept true = refl
    kept false = refl

module _ (args : SubmitSignatureParams) (c : Checked) where
  abbrev Answered : Attempt → Type 0
  Answered attempt = (r : SignatureSubmissionResult) → attempt.0 ≡ ok r → AllLasting attempt.1

  fail_submission-Answered :
      (reason : Text) (db : TreasuryDb) → Answered (fail_submission args c reason db)
  unfolding fail_submission
  fail_submission-Answered reason db r e =
      thrown (update_proposal args.proposal_id (as_failed reason) db) r e
    where
      thrown :
          (m : Result TreasuryError TreasuryDb)
          → Answered (
              after_write m db (λ db'. (
                err (upstream reason),
                add_audit (audit_of args c proposal_failed_audit false) db',
              )))
      thrown (err x) r e = cc e
      thrown (ok db') r e = cc e

  noted :
      (total : ℕ) (missing hash : Text) (db : TreasuryDb) (m : Result TreasuryError TreasuryDb)
      → ((db' : TreasuryDb) → m ≡ ok db' → AllLasting db')
      → Answered (note_submission args c total missing hash db m)
  unfolding note_submission
  noted total missing hash db (err x) h r e = fail_submission-Answered missing db r e
  noted total missing hash db (ok db') h r e = h db' refl

  note_submission-Answered :
      (total : ℕ) (missing hash : Text) (db : TreasuryDb)
      → OthersLasting args.proposal_id db
      → Answered (
          note_submission args c total missing hash db
            (update_proposal args.proposal_id (as_submitted hash) db))
  note_submission-Answered total missing hash db h r e =
      noted total missing hash db (update_proposal args.proposal_id (as_submitted hash) db)
        (λ db' u.
          update_proposal-AllLasting args.proposal_id (as_submitted hash) db u (λ q. inr refl) h)
        r e

  broadcast-Answered :
      (total : ℕ) (missing : Text) (db : TreasuryDb) (answer : Result Text Text)
      → OthersLasting args.proposal_id db
      → Answered (broadcast args c total missing db answer)
  unfolding broadcast
  broadcast-Answered total missing db (err reason) h = fail_submission-Answered reason db
  broadcast-Answered total missing db (ok hash) h = note_submission-Answered total missing hash db h

  submit_merged-Answered :
      (horizon : Horizon) (missing : Text) (total : ℕ) (db : TreasuryDb)
      (m : Result TreasuryError Text)
      → OthersLasting args.proposal_id db
      → Answered (submit_merged horizon args c missing total db m)
  unfolding submit_merged
  submit_merged-Answered horizon missing total db (err x) h r e = cc e
  submit_merged-Answered horizon missing total db (ok xdr) h r e =
      broadcast-Answered total missing db (horizon.submit_signed xdr) h r e

  after_write-Answered :
      (m : Result TreasuryError TreasuryDb) (db : TreasuryDb) (next : TreasuryDb → Attempt)
      → ((db' : TreasuryDb) → m ≡ ok db' → Answered (next db'))
      → Answered (after_write m db next)
  after_write-Answered (err x) db next h r e = cc e
  after_write-Answered (ok db') db next h r e = h db' refl r e

  decide-Answered :
      (sdk : Sdk) (horizon : Horizon) (missing : Text) (db : TreasuryDb)
      → AllLasting db
      → Answered (decide sdk horizon args c missing db)
  unfolding decide
  decide-Answered sdk horizon missing db h =
      let others : OthersLasting args.proposal_id db = λ id p _. h id p in
      let all_signatures = keep (signed_on args.proposal_id) db.signatures in
      let total = signed_weight all_signatures in
      let required = c.account.thresholds.high in
      elim (Bool-cases (ltb total required)) [
        | inl low ↦ rw low (
            after_write-Answered (update_proposal args.proposal_id (as_pending required) db) db
              (λ db'. (ok (outcome pending_signatures total required none), db'))
              (λ db' u r e.
                update_proposal-AllLasting args.proposal_id (as_pending required) db u
                  (λ q. inl refl) others))
        | inr enough ↦ rw enough (
            after_write-Answered (update_proposal args.proposal_id (as_ready required) db) db
              (λ db'.
                submit_merged horizon args c missing total
                  (add_audit (audit_of args c proposal_ready true) db')
                  (merged_xdr sdk c.proposal all_signatures))
              (λ db' u.
                submit_merged-Answered horizon missing total
                  (add_audit (audit_of args c proposal_ready true) db')
                  (merged_xdr sdk c.proposal all_signatures)
                  (update_proposal-OthersLasting args.proposal_id (as_ready required) db u others)))
      ]

transaction_of-AllLasting :
    (before : TreasuryDb) (attempt : Attempt)
    → AllLasting before
    → ((r : SignatureSubmissionResult) → attempt.0 ≡ ok r → AllLasting attempt.1)
    → AllLasting (transaction_of before attempt).1
transaction_of-AllLasting before (ok r, after) h k = k r refl
transaction_of-AllLasting before (err x, after) h k = h

record_and_decide-Answered :
    (sdk : Sdk) (horizon : Horizon) (args : SubmitSignatureParams) (engine : Engine)
    (committed : TreasuryDb) (c : Checked) (aborted : Bool)
    → AllLasting committed
    → (r : SignatureSubmissionResult)
    → (record_and_decide sdk horizon args engine committed c aborted).0 ≡ ok r
    → AllLasting (record_and_decide sdk horizon args engine committed c aborted).1
unfolding record_and_decide
record_and_decide-Answered sdk horizon args engine committed c true h r e = cc e
record_and_decide-Answered sdk horizon args engine committed c false h r e =
    let recorded = record_signatures c.proposal.group_id c.new_signatures committed in
    decide-Answered args c sdk horizon engine.missing recorded
      (λ id p found. h id p (
        ap (map_get id)
          (sym (record_signatures-proposals c.proposal.group_id c.new_signatures committed))
        ∙ found))
      r e

submit_body-Answered :
    (sdk : Sdk) (horizon : Horizon) (args : SubmitSignatureParams) (engine : Engine)
    (committed : TreasuryDb) (m : Result TreasuryError Checked)
    → AllLasting committed
    → (r : SignatureSubmissionResult) → (submit_body sdk horizon args engine committed m).0 ≡ ok r
    → AllLasting (submit_body sdk horizon args engine committed m).1
unfolding submit_body
submit_body-Answered sdk horizon args engine committed (err x) h r e = cc e
submit_body-Answered sdk horizon args engine committed (ok c) h r e =
    record_and_decide-Answered sdk horizon args engine committed c (is_aborted engine c committed) h
      r e

pub submit_signature-AllLasting :
    (sdk : Sdk) (horizon : Horizon) (args : SubmitSignatureParams) (engine : Engine) (now : ℕ)
    (db committed : TreasuryDb)
    → AllLasting committed
    → AllLasting (submit_signature sdk horizon args engine now db committed).1
unfolding submit_signature
submit_signature-AllLasting sdk horizon args engine now db committed h =
    transaction_of-AllLasting committed _ h (
      submit_body-Answered sdk horizon args engine committed
        (check_submission sdk horizon args now db) h)

-- ===== src/Treasury/Collect.antt =====
-- src/services/treasury-signatures.ts: submitSignature, composed of its steps. `committed` is the
-- database as the requests that commit meanwhile have left it when this one writes.
use mergepay_api.Common.{
  Bool, List, Option, Result, Text, any, err, false, find, if◌then◌else◌, is_empty, keep, ltb, map,
  map_get, none, not, ok, some, text_eq, throw_if, true, ℕ, ◌&&◌, ◌>>=◌, ◌>>◌,
}
use mergepay_api.Treasury.Envelope.{
  upstream, not_found, Sdk, TreasuryError, already_submitted, assert_treasury_envelope_policy,
  parse_treasury_xdr, proposal_failed, xdr_mismatch_hash, xdr_unsigned, transaction_aborted,
}
use mergepay_api.Treasury.Store.{
  load, ready, failed, submitted, AccountSnapshot, AuditAction, AuditRow, AuthorizedAdmin, Horizon,
  ProposalStatus, SignatureSubmissionResult, SubmitSignatureParams, TreasuryDb, TreasurySignature,
  TreasuryTxProposal, add_audit, pending_signatures, transaction_of, update_proposal,
  proposal_failed_audit, proposal_ready, proposal_submitted,
}
use mergepay_api.Treasury.Sign.{
  authorized_admins, collect_signatures, merge_signatures, record_signatures, signed_on,
  signed_weight, same_signer,
}
use mergepay_api.Treasury.Propose.{policy_of}

abbrev pub outcome : ProposalStatus → ℕ → ℕ → Option Text → SignatureSubmissionResult
outcome status total required hash = record {
  status = status;
  total_weight = total;
  required_weight = required;
  stellar_tx_hash = hash;
}

abbrev pub Attempt : Type 0
Attempt = Result TreasuryError SignatureSubmissionResult × TreasuryDb

-- A write, then what follows it; a write that throws leaves the database to the transaction.
abbrev pub after_write :
    Result TreasuryError TreasuryDb → TreasuryDb → (TreasuryDb → Attempt) → Attempt
after_write (err e) db next = (err e, db)
after_write (ok db') db next = next db'

unfoldable pub check_status : ProposalStatus → Result TreasuryError (Unit {0})
check_status submitted = err already_submitted
check_status failed = err proposal_failed
check_status pending_signatures = ok tt
check_status ready = ok tt

-- The proposal, if signatures may be added to it.
unfoldable pub signable :
    SubmitSignatureParams → Option TreasuryTxProposal → Result TreasuryError TreasuryTxProposal
signable args none = err not_found
signable args (some p) = do
  throw_if (not (text_eq p.group_id args.group_id)) not_found
  check_status p.status
  ok p

-- What is found before the first write.
pub record Checked : Type 0 where
  pub proposal : TreasuryTxProposal
  pub account : AccountSnapshot
  pub actor : Option Text
  pub new_signatures : List TreasurySignature

abbrev pub actor_key : SubmitSignatureParams → List AuthorizedAdmin → Option Text
actor_key args admins =
    elim (find (λ (a : AuthorizedAdmin). text_eq a.user_id args.user_id) admins) [
      | some a ↦ some a.public_key
      | none ↦ args.actor_public_key
    ]

abbrev pub signed_user_ids : Text → List TreasurySignature → List Text
signed_user_ids id signatures =
    map (λ (s : TreasurySignature). s.signer_user_id) (keep (signed_on id) signatures)

unfoldable pub check_submission :
    Sdk → Horizon → SubmitSignatureParams → ℕ → TreasuryDb → Result TreasuryError Checked
check_submission sdk horizon args now db = do
  proposal ← signable args (map_get args.proposal_id db.proposals)
  account ← load horizon proposal.source_account
  let admins = authorized_admins args.group_id account db.members
  tx ← parse_treasury_xdr sdk args.signed_xdr
  throw_if (not (text_eq tx.hash proposal.tx_hash)) xdr_mismatch_hash
  throw_if (is_empty tx.signatures) xdr_unsigned
  _ ← assert_treasury_envelope_policy sdk (policy_of proposal.source_account) now tx
  new ←
      collect_signatures sdk args.proposal_id tx.hash admins
        (signed_user_ids args.proposal_id db.signatures) tx.signatures
  ok (record {
    proposal = proposal;
    account = account;
    actor = actor_key args admins;
    new_signatures = new;
  })

abbrev pub audit_of : SubmitSignatureParams → Checked → AuditAction → Bool → AuditRow
audit_of args c action success = record {
  action = action;
  is_success = success;
  audit_user_id = args.user_id;
  audit_group_id = c.proposal.group_id;
  audit_proposal_id = args.proposal_id;
  audit_public_key = c.actor;
}

abbrev pub as_pending : ℕ → TreasuryTxProposal → TreasuryTxProposal
as_pending required p = record p { status = pending_signatures; required_weight = required }

abbrev pub as_ready : ℕ → TreasuryTxProposal → TreasuryTxProposal
as_ready required p = record p { status = ready; required_weight = required }

abbrev pub as_submitted : Text → TreasuryTxProposal → TreasuryTxProposal
as_submitted hash p = record p { status = submitted; stellar_tx_hash = some hash }

abbrev pub as_failed : Text → TreasuryTxProposal → TreasuryTxProposal
as_failed reason p = record p { status = failed; failure_reason = some reason }

-- Stellar, or a write that follows its answer, has failed.
unfoldable pub fail_submission : SubmitSignatureParams → Checked → Text → TreasuryDb → Attempt
fail_submission args c reason db =
    after_write (update_proposal args.proposal_id (as_failed reason) db) db
      (λ db'. (err (upstream reason), add_audit (audit_of args c proposal_failed_audit false) db'))

-- Stellar has taken the transaction; the write of that may throw, and is then caught too.
unfoldable pub note_submission :
    SubmitSignatureParams
    → Checked
    → ℕ
    → Text
    → Text
    → TreasuryDb
    → Result TreasuryError TreasuryDb
    → Attempt
note_submission args c total missing hash db (err _) = fail_submission args c missing db
note_submission args c total missing hash db (ok db') = (
  ok (outcome submitted total c.account.thresholds.high (some hash)),
  add_audit (audit_of args c proposal_submitted true) db',
)

unfoldable pub broadcast :
    SubmitSignatureParams → Checked → ℕ → Text → TreasuryDb → Result Text Text → Attempt
broadcast args c total missing db (err reason) = fail_submission args c reason db
broadcast args c total missing db (ok hash) =
    note_submission args c total missing hash db
      (update_proposal args.proposal_id (as_submitted hash) db)

-- The proposal's own envelope with every stored signature.
unfoldable pub merged_xdr :
    Sdk → TreasuryTxProposal → List TreasurySignature → Result TreasuryError Text
merged_xdr sdk p signatures = do
  base ← parse_treasury_xdr sdk p.xdr
  ok (sdk.to_xdr (merge_signatures sdk signatures base))

unfoldable pub submit_merged :
    Horizon
    → SubmitSignatureParams
    → Checked
    → Text
    → ℕ
    → TreasuryDb
    → Result TreasuryError Text
    → Attempt
submit_merged horizon args c missing total db (err e) = (err e, db)
submit_merged horizon args c missing total db (ok xdr) =
    broadcast args c total missing db (horizon.submit_signed xdr)

-- The signatures are stored: what their weight decides. `missing` is the message of a write whose
-- row is gone.
unfoldable pub decide :
    Sdk → Horizon → SubmitSignatureParams → Checked → Text → TreasuryDb → Attempt
decide sdk horizon args c missing db =
    let all_signatures = keep (signed_on args.proposal_id) db.signatures in
    let total = signed_weight all_signatures in
    let required = c.account.thresholds.high in
    if ltb total required
    then after_write (update_proposal args.proposal_id (as_pending required) db) db
        (λ db'. (ok (outcome pending_signatures total required none), db'))
    else after_write (update_proposal args.proposal_id (as_ready required) db) db (λ db'.
      submit_merged horizon args c missing total
        (add_audit (audit_of args c proposal_ready true) db')
        (merged_xdr sdk c.proposal all_signatures))

-- What the database does where the code leaves it open: the message of a write whose row is gone,
-- and whether a transaction goes on after an insert that the unique index has refused. PostgreSQL
-- aborts it, and every later statement throws.
pub record Engine : Type 0 where
  pub missing : Text
  pub goes_on : Bool

-- Another request has recorded one of the signers.
unfoldable pub is_aborted : Engine → Checked → TreasuryDb → Bool
is_aborted engine c db =
    not engine.goes_on
    && any (λ (s : TreasurySignature). any (same_signer s) db.signatures) c.new_signatures

unfoldable pub record_and_decide :
    Sdk → Horizon → SubmitSignatureParams → Engine → TreasuryDb → Checked → Bool → Attempt
record_and_decide sdk horizon args engine committed c true = (err transaction_aborted, committed)
record_and_decide sdk horizon args engine committed c false =
    decide sdk horizon args c engine.missing
      (record_signatures c.proposal.group_id c.new_signatures committed)

unfoldable pub submit_body :
    Sdk
    → Horizon
    → SubmitSignatureParams
    → Engine
    → TreasuryDb
    → Result TreasuryError Checked
    → Attempt
submit_body sdk horizon args engine committed (err e) = (err e, committed)
submit_body sdk horizon args engine committed (ok c) =
    record_and_decide sdk horizon args engine committed c (is_aborted engine c committed)

unfoldable pub submit_signature :
    Sdk → Horizon → SubmitSignatureParams → Engine → ℕ → TreasuryDb → TreasuryDb → Attempt
submit_signature sdk horizon args engine now db committed =
    transaction_of committed
      (submit_body sdk horizon args engine committed (check_submission sdk horizon args now db))

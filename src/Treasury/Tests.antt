-- ===== src/Treasury/Tests.antt =====
-- A treasury with two admins, each of weight one, and a threshold of two.
use mergepay_api.Common.{
  All, Option, Text, [], codes, err, false, if◌then◌else◌, keep, length, map, map_get, none, ok,
  pos, refl, some, text_eq, true, ◌++◌, ◌+ℤ◌, ◌<◌, ◌==◌, ◌∷◌, ◌≡◌, ◌≤◌, ◌⊎◌,
}
use mergepay_api.Treasury.Collect.{
  outcome, broadcast, signable, decide, Attempt, check_status, check_submission, fail_submission,
  merged_xdr, note_submission, submit_body, submit_merged, submit_signature, Checked, Engine,
  is_aborted, record_and_decide,
}
use mergepay_api.Treasury.Store.{
  load, submitted, AccountSnapshot, CreateTxProposalParams, GroupMember, Horizon,
  SubmitSignatureParams, TreasuryDb, TreasuryTxProposal, insert_proposal, pending_signatures,
  proposal_created, update_proposal, TreasurySignature,
}
use mergepay_api.Treasury.Envelope.{
  transaction, DecoratedSignature, Envelope, Parsed, Sdk, TreasuryOperation,
  assert_treasury_envelope_policy, check_fee, check_operation, check_operations, parse_treasury_xdr,
  transaction_aborted,
}
use mergepay_api.Status.Window.{assert_time_bounds_match_intent, TimeBounds}
use mergepay_api.Treasury.Sign.{
  authorized_admins, collect_signatures, record_signatures, signed_on, signed_weight,
  on_chain_weight,
}
use mergepay_api.Treasury.Propose.{create_proposal, new_proposal, treasury_of, policy_of}
use mergepay_api.Money.Decimal.{
  trim, is_raw_decimal, read_digits, split_point, strip_leading_zeros, strip_trailing_zeros,
}
use mergepay_api.Money.Amount.{validate_amount}
use mergepay_api.Treasury.Added.{Backed, Open}
use mergepay_api.Treasury.Policy.{CurrentWindow, Reviewable, accepted_envelope_lem}
use mergepay_api.Treasury.Submitted.{
  Extends, submit_signature-Backed, check_submission-OneEach, submitted_needs_weight,
}
use mergepay_api.Treasury.Reached.{signed, start, created, Reached, reached_status_lem}
use mergepay_api.Treasury.Signers.{
  InOrder, assert_treasury_policy, assert_treasury_policy_lem, check_signer, check_signers,
  configured_weight, key_set, weight_of_keys,
}
use mergepay_api.Treasury.Config.{
  ProposedSignerConfig, SignerChange, WellFormed, can_satisfy_threshold, has_duplicate_signers,
  is_current, is_valid_byte, key_errors, validate_proposed_signer_config,
  validate_signer_change_against_account, validate_signer_change_against_account_lem,
  unknown_signers,
}
use mergepay_api.Treasury.Distinct.{OneEach}

abbrev payment : TreasuryOperation
payment = record {
  type = some (codes "payment");
  source = none;
  amount = some (codes "12.5");
  destination = some (codes "shop");
}

abbrev unsigned : Envelope
unsigned = record {
  hash = codes "h";
  source = codes "pot";
  operations = payment ∷ [];
  fee = some 100;
  time_bounds = some (record { min_time = 0; max_time = 600 });
  signatures = [];
}

abbrev ana_signature : DecoratedSignature
ana_signature = record { hint = codes "ana"; signature = codes "anah" }

abbrev bob_signature : DecoratedSignature
bob_signature = record { hint = codes "bob"; signature = codes "bobh" }

abbrev decode : Text → Option Parsed
decode (c ∷ []) =
    if c == b'u'
    then some (transaction unsigned)
    else if c == b'a'
    then some (transaction (record unsigned { signatures = ana_signature ∷ [] }))
    else if c == b'b'
    then some (transaction (record unsigned { signatures = bob_signature ∷ bob_signature ∷ [] }))
    else none
decode _ = none

-- A key is its own hint, and signs by writing itself before the hash.
abbrev toy_sdk : Sdk
toy_sdk = record {
  base_fee = 100;
  is_ed25519_key = λ _. true;
  is_med25519_key = λ _. false;
  from_xdr = decode;
  signature_hint = λ key. some key;
  verify = λ key hash raw. text_eq raw (key ++ hash);
  base64 = λ raw. raw;
  add_signature = λ e key raw.
      some (record e { signatures = record { hint = key; signature = raw } ∷ e.signatures });
  to_xdr = λ e. map (λ (s : DecoratedSignature). length s.signature) e.signatures;
}

abbrev pot : AccountSnapshot
pot = record {
  exists = true;
  signers = (codes "ana", 1) ∷ (codes "bob", 1) ∷ (codes "pot", 0) ∷ [];
  thresholds = record { low = 1; med = 1; high = 2 };
}

abbrev accepting : Horizon
accepting = record { load_account = λ _. ok pot; submit_signed = λ _. ok (codes "tx") }

abbrev rejecting : Horizon
rejecting = record accepting { submit_signed = λ _. err (codes "bad_auth") }

abbrev admin : Text → GroupMember
admin name = record {
  group_id = codes "g";
  user_id = name;
  is_admin = true;
  stellar_public_key = name;
}

abbrev empty_db : TreasuryDb
empty_db = record {
  groups =
      (
        codes "g",
        record { treasury_enabled = true; treasury_account_public_key = some (codes "pot") },
      )
      ∷ [];
  members = admin (codes "ana") ∷ admin (codes "bob") ∷ [];
  proposals = [];
  signatures = [];
  audits = [];
}

abbrev request : CreateTxProposalParams
request = record {
  group_id = codes "g";
  creator_id = codes "ana";
  creator_public_key = codes "ana";
  xdr = codes "u";
  description = none;
}

abbrev proposal : TreasuryTxProposal
proposal = new_proposal request (codes "h") (codes "pot") 2

abbrev proposed_db : TreasuryDb
proposed_db = record empty_db {
  proposals = (codes "p", proposal) ∷ [];
  audits =
      record {
        action = proposal_created;
        is_success = true;
        audit_user_id = codes "ana";
        audit_group_id = codes "g";
        audit_proposal_id = codes "p";
        audit_public_key = some (codes "ana");
      }
      ∷ [];
}

created_proposal :
    create_proposal toy_sdk accepting request (codes "p") 1000 empty_db ≡ ok (proposal, proposed_db)
unfolding create_proposal treasury_of parse_treasury_xdr assert_treasury_envelope_policy
    check_operations check_operation check_fee load insert_proposal assert_time_bounds_match_intent
    validate_amount text_eq trim is_raw_decimal split_point strip_leading_zeros strip_trailing_zeros
    read_digits
created_proposal = refl

abbrev signing : Text → Text → SubmitSignatureParams
signing user xdr = record {
  proposal_id = codes "p";
  group_id = codes "g";
  user_id = user;
  signed_xdr = xdr;
  actor_public_key = none;
}

abbrev by_bob : SubmitSignatureParams
by_bob = signing (codes "bob") (codes "b")

abbrev by_ana : SubmitSignatureParams
by_ana = signing (codes "ana") (codes "a")

-- A refused insert aborts the transaction.
abbrev postgres : Engine
postgres = record { missing = codes "gone"; goes_on = false }

abbrev run : Horizon → SubmitSignatureParams → TreasuryDb → Attempt
run horizon args db = submit_signature toy_sdk horizon args postgres 1000 db db

-- Bob signs twice in one envelope, which counts once.
abbrev after_bob : TreasuryDb
after_bob = (run accepting by_bob proposed_db).1

bob_waits : (run accepting by_bob proposed_db).0 ≡ ok (outcome pending_signatures 1 2 none)
unfolding submit_signature submit_body is_aborted record_and_decide check_submission signable
    check_status load parse_treasury_xdr assert_treasury_envelope_policy check_operations
    check_operation check_fee assert_time_bounds_match_intent validate_amount text_eq trim
    is_raw_decimal split_point strip_leading_zeros strip_trailing_zeros read_digits
    authorized_admins collect_signatures record_signatures decide update_proposal merged_xdr
    submit_merged broadcast note_submission fail_submission
bob_waits = refl

ana_submits : (run accepting by_ana after_bob).0 ≡ ok (outcome submitted 2 2 (some (codes "tx")))
unfolding submit_signature submit_body is_aborted record_and_decide check_submission signable
    check_status load parse_treasury_xdr assert_treasury_envelope_policy check_operations
    check_operation check_fee assert_time_bounds_match_intent validate_amount text_eq trim
    is_raw_decimal split_point strip_leading_zeros strip_trailing_zeros read_digits
    authorized_admins collect_signatures record_signatures decide update_proposal merged_xdr
    submit_merged broadcast note_submission fail_submission
ana_submits = refl

accepted_envelope_lem_example :
    (unsigned.source ≡ codes "pot")
    × (1 ≤ length unsigned.operations)
    × (length unsigned.operations ≤ 10)
    × All (Reviewable toy_sdk (codes "pot")) unsigned.operations
    × ((unsigned.fee ≡ some 100) × (100 ≤ 100) × (100 ≤ 200))
    × ((w : TimeBounds) × (unsigned.time_bounds ≡ some w) × CurrentWindow 1000 w)
unfolding create_proposal treasury_of parse_treasury_xdr assert_treasury_envelope_policy
    check_operations check_operation check_fee load insert_proposal assert_time_bounds_match_intent
    validate_amount text_eq trim is_raw_decimal split_point strip_leading_zeros strip_trailing_zeros
    read_digits
accepted_envelope_lem_example =
    accepted_envelope_lem toy_sdk (policy_of (codes "pot")) 1000 unsigned (codes "payment" ∷ []) 100
      refl

abbrev bob_row : TreasurySignature
bob_row = record {
  proposal_id = codes "p";
  signer_user_id = codes "bob";
  signer_public_key = codes "bob";
  signature = codes "bobh";
  weight = 1;
}

abbrev signed_db : TreasuryDb
signed_db = record proposed_db { signatures = bob_row ∷ [] }

abbrev ana_row : TreasurySignature
ana_row = record {
  proposal_id = codes "p";
  signer_user_id = codes "ana";
  signer_public_key = codes "ana";
  signature = codes "anah";
  weight = 1;
}

-- What is found of Ana's signature where Bob has signed.
abbrev ana_found : Checked
ana_found = record {
  proposal = proposal;
  account = pot;
  actor = some (codes "ana");
  new_signatures = ana_row ∷ [];
}

ana_checked : check_submission toy_sdk accepting by_ana 1000 signed_db ≡ ok ana_found
unfolding check_submission signable check_status load parse_treasury_xdr
    assert_treasury_envelope_policy check_operations check_operation check_fee
    assert_time_bounds_match_intent validate_amount text_eq trim is_raw_decimal split_point
    strip_leading_zeros strip_trailing_zeros read_digits authorized_admins collect_signatures
ana_checked = refl

check_submission-OneEach_example :
    OneEach (bob_row ∷ ana_row ∷ [])
    × ((record_signatures ana_found.proposal.group_id ana_found.new_signatures signed_db).signatures
        ≡ bob_row ∷ ana_row ∷ [])
    × ((engine : Engine) → is_aborted engine ana_found signed_db ≡ false)
check_submission-OneEach_example =
    check_submission-OneEach toy_sdk accepting by_ana 1000 signed_db ana_found (refl, tt)
      ana_checked

-- Another request records Ana's signature after this one has read the tables.
ana_races :
    (submit_signature toy_sdk accepting by_ana postgres 1000 signed_db
      (record signed_db { signatures = ana_row ∷ [] })).0
    ≡ err transaction_aborted
unfolding submit_signature submit_body is_aborted record_and_decide check_submission signable
    check_status load parse_treasury_xdr assert_treasury_envelope_policy check_operations
    check_operation check_fee assert_time_bounds_match_intent validate_amount text_eq trim
    is_raw_decimal split_point strip_leading_zeros strip_trailing_zeros read_digits
    authorized_admins collect_signatures
ana_races = refl

submit_signature-Backed_example :
    Extends
      (Backed toy_sdk signed_db.members by_ana pot (codes "h"))
      signed_db.signatures
      (run accepting by_ana signed_db).1.signatures
unfolding text_eq
submit_signature-Backed_example =
    submit_signature-Backed toy_sdk accepting by_ana postgres 1000 signed_db signed_db proposal pot
      refl refl

submitted_needs_weight_example :
    (p : TreasuryTxProposal) × (account : AccountSnapshot) × (map_get
        (codes "p")
        signed_db.proposals
      ≡ some p)
    × Open p.status
    × (accepting.load_account p.source_account ≡ ok account)
    × (account.thresholds.high
        ≤ signed_weight
            (keep (signed_on (codes "p")) (run accepting by_ana signed_db).1.signatures))
unfolding submit_signature submit_body is_aborted record_and_decide check_submission signable
    check_status load parse_treasury_xdr assert_treasury_envelope_policy check_operations
    check_operation check_fee assert_time_bounds_match_intent validate_amount text_eq trim
    is_raw_decimal split_point strip_leading_zeros strip_trailing_zeros read_digits
    authorized_admins collect_signatures record_signatures decide update_proposal merged_xdr
    submit_merged broadcast note_submission fail_submission
submitted_needs_weight_example =
    submitted_needs_weight toy_sdk accepting by_ana postgres 1000 signed_db signed_db
      (outcome submitted 2 2 (some (codes "tx"))) refl refl

-- Stellar rejects what bob and ana have signed.
abbrev after_rejection : TreasuryDb
after_rejection = (run rejecting by_ana after_bob).1

after_rejection-Reached : Reached after_rejection
after_rejection-Reached =
    let proposed =
      created toy_sdk accepting request (codes "p") 1000 empty_db proposal proposed_db
        (start empty_db refl) created_proposal in
    let bob =
      signed toy_sdk accepting by_bob postgres 1000 proposed_db proposed_db proposed proposed in
    signed toy_sdk rejecting by_ana postgres 1000 after_bob after_bob bob bob

reached_status_lem_example :
    (pending_signatures ≡ pending_signatures) ⊎ (pending_signatures ≡ submitted)
unfolding submit_signature submit_body is_aborted record_and_decide check_submission signable
    check_status load parse_treasury_xdr assert_treasury_envelope_policy check_operations
    check_operation check_fee assert_time_bounds_match_intent validate_amount text_eq trim
    is_raw_decimal split_point strip_leading_zeros strip_trailing_zeros read_digits
    authorized_admins collect_signatures record_signatures decide update_proposal merged_xdr
    submit_merged broadcast note_submission fail_submission
reached_status_lem_example =
    reached_status_lem after_rejection after_rejection-Reached (codes "p") proposal refl

assert_treasury_policy_lem_example :
    (1 ≤ 2)
    × (pot.thresholds.high ≡ 2)
    × All
        (InOrder (key_set [] (some (codes "ana") ∷ some (codes "bob") ∷ [])) (codes "pot"))
        pot.signers
    × All
        (λ key. 0 < on_chain_weight pot key)
        (key_set [] (some (codes "ana") ∷ some (codes "bob") ∷ []))
    × (2 ≤ weight_of_keys pot (key_set [] (some (codes "ana") ∷ some (codes "bob") ∷ [])))
unfolding assert_treasury_policy check_signers check_signer configured_weight text_eq
assert_treasury_policy_lem_example =
    assert_treasury_policy_lem (some (codes "ana") ∷ some (codes "bob") ∷ []) (codes "pot") 2 pot
      refl

abbrev both_signers : ProposedSignerConfig
both_signers = record {
  signers =
      record { public_key = codes "ana"; weight = pos 1 }
      ∷ record { public_key = codes "bob"; weight = pos 2 }
      ∷ [];
  low = pos 1;
  med = pos 1;
  high = pos 2;
}

validate_signer_change_against_account_lem_example :
    WellFormed both_signers
    × All (λ (s : SignerChange). is_current pot s ≡ true) both_signers.signers
    × (pot.exists ≡ true)
    × (both_signers.high ≡ pos 2)
unfolding validate_signer_change_against_account validate_proposed_signer_config key_errors
    unknown_signers has_duplicate_signers can_satisfy_threshold is_valid_byte text_eq ◌+ℤ◌
validate_signer_change_against_account_lem_example =
    validate_signer_change_against_account_lem (λ _. true) both_signers pot refl

-- ===== src/Treasury/Propose.antt =====
-- src/services/treasury-signatures.ts: createProposal.
use mergepay_api.Common.{
  Option, Result, Text, [], err, is_empty, map_get, none, not, ok, some, throw_if, true, ℕ, ◌>>=◌,
  ◌>>◌, ◌||◌,
}
use mergepay_api.Treasury.Store.{
  load, CreateTxProposalParams, Group, Horizon, TreasuryDb, TreasuryTxProposal, add_audit,
  insert_proposal, pending_signatures, proposal_created,
}
use mergepay_api.Treasury.Envelope.{
  Sdk, TreasuryEnvelopePolicy, TreasuryError, assert_treasury_envelope_policy, or_else,
  parse_treasury_xdr, treasury_disabled, xdr_not_unsigned,
}

abbrev pub policy_of : Text → TreasuryEnvelopePolicy
policy_of treasury = record {
  treasury_account_public_key = treasury;
  max_operations = none;
  max_fee_stroops = none;
}

-- The treasury account of a group whose treasury is enabled; an empty key counts as none.
unfoldable pub treasury_of : Option Group → Result TreasuryError Text
treasury_of none = err treasury_disabled
treasury_of (some g) = do
  let key = or_else g.treasury_account_public_key []
  throw_if (not g.treasury_enabled || is_empty key) treasury_disabled
  ok key

abbrev pub new_proposal : CreateTxProposalParams → Text → Text → ℕ → TreasuryTxProposal
new_proposal params hash treasury required = record {
  group_id = params.group_id;
  creator_id = params.creator_id;
  xdr = params.xdr;
  description = params.description;
  tx_hash = hash;
  source_account = treasury;
  required_weight = required;
  status = pending_signatures;
  stellar_tx_hash = none;
  failure_reason = none;
}

-- `id` is the identifier that the database draws.
unfoldable pub create_proposal :
    Sdk
    → Horizon
    → CreateTxProposalParams
    → Text
    → ℕ
    → TreasuryDb
    → Result TreasuryError (TreasuryTxProposal × TreasuryDb)
create_proposal sdk horizon params id now db = do
  treasury ← treasury_of (map_get params.group_id db.groups)
  tx ← parse_treasury_xdr sdk params.xdr
  throw_if (not (is_empty tx.signatures)) xdr_not_unsigned
  _ ← assert_treasury_envelope_policy sdk (policy_of treasury) now tx
  account ← load horizon treasury
  let created = new_proposal params tx.hash treasury account.thresholds.high
  db' ← insert_proposal id created db
  ok (
    created,
    add_audit
        (record {
          action = proposal_created;
          is_success = true;
          audit_user_id = params.creator_id;
          audit_group_id = params.group_id;
          audit_proposal_id = id;
          audit_public_key = some params.creator_public_key;
        })
        db',
  )

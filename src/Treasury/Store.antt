-- ===== src/Treasury/Store.antt =====
-- src/services/treasury-signatures.ts, the tables: proposals, signatures, members and audit rows.
-- Horizon's answers are a record that stands for them; the metadata of audit rows and time stamps
-- are left out.
use mergepay_api.Common.{
  Bool, List, Option, Result, Text, [], err, if◌then◌else◌, map_get, map_has, map_set, none, not,
  ok, some, throw_if, ℕ, ◌++◌, ◌>>◌, ◌∷◌,
}
use mergepay_api.Treasury.Envelope.{
  upstream, TreasuryError, id_taken, row_missing, treasury_unfunded,
}

pub data ProposalStatus : Type 0 where
  pending_signatures ready submitted failed : ProposalStatus

pub data AuditAction : Type 0 where
  proposal_created signature_added proposal_ready proposal_submitted proposal_failed_audit :
      AuditAction

pub record AuditRow : Type 0 where
  pub action : AuditAction
  pub is_success : Bool
  pub audit_user_id : Text
  pub audit_group_id : Text
  pub audit_proposal_id : Text
  pub audit_public_key : Option Text

pub record Group : Type 0 where
  pub treasury_enabled : Bool
  pub treasury_account_public_key : Option Text

pub record GroupMember : Type 0 where
  pub group_id : Text
  pub user_id : Text
  pub is_admin : Bool
  pub stellar_public_key : Text

pub record TreasuryTxProposal : Type 0 where
  pub group_id : Text
  pub creator_id : Text
  pub xdr : Text
  pub description : Option Text
  pub tx_hash : Text
  pub source_account : Text
  pub required_weight : ℕ
  pub status : ProposalStatus
  pub stellar_tx_hash : Option Text
  pub failure_reason : Option Text

pub record TreasurySignature : Type 0 where
  pub proposal_id : Text
  pub signer_user_id : Text
  pub signer_public_key : Text
  pub signature : Text
  pub weight : ℕ

pub record TreasuryDb : Type 0 where
  pub groups : List (Text × Group)
  pub members : List GroupMember
  pub proposals : List (Text × TreasuryTxProposal)
  pub signatures : List TreasurySignature
  pub audits : List AuditRow

pub record Thresholds : Type 0 where
  pub low : ℕ
  pub med : ℕ
  pub high : ℕ

pub record AccountSnapshot : Type 0 where
  pub exists : Bool
  pub signers : List (Text × ℕ)
  pub thresholds : Thresholds

-- The two calls of services/stellar.ts: a throw is its message.
pub record Horizon : Type 0 where
  pub load_account : Text → Result Text AccountSnapshot
  pub submit_signed : Text → Result Text Text

pub record SubmitSignatureParams : Type 0 where
  pub proposal_id : Text
  pub group_id : Text
  pub user_id : Text
  pub signed_xdr : Text
  pub actor_public_key : Option Text

pub record CreateTxProposalParams : Type 0 where
  pub group_id : Text
  pub creator_id : Text
  pub creator_public_key : Text
  pub xdr : Text
  pub description : Option Text

pub record SignatureSubmissionResult : Type 0 where
  pub status : ProposalStatus
  pub total_weight : ℕ
  pub required_weight : ℕ
  pub stellar_tx_hash : Option Text

-- A group admin whose key carries weight on the account.
pub record AuthorizedAdmin : Type 0 where
  pub user_id : Text
  pub public_key : Text
  pub weight : ℕ

-- A database transaction: a throw takes its writes back.
abbrev pub transaction_of {ℓ} :
    {A : Type ℓ}
    → TreasuryDb
    → Result TreasuryError A × TreasuryDb
    → Result TreasuryError A × TreasuryDb
transaction_of before (ok a, after) = (ok a, after)
transaction_of before (err e, after) = (err e, before)

unfoldable pub load : Horizon → Text → Result TreasuryError AccountSnapshot
load horizon key = elim (horizon.load_account key) [
  | err message ↦ err (upstream message)
  | ok account ↦ do throw_if (not account.exists) treasury_unfunded; ok account
]

abbrev pub add_audit : AuditRow → TreasuryDb → TreasuryDb
add_audit row db = record db { audits = db.audits ++ row ∷ [] }

unfoldable pub insert_proposal :
    Text → TreasuryTxProposal → TreasuryDb → Result TreasuryError TreasuryDb
insert_proposal id p db =
    if map_has id db.proposals
    then err id_taken
    else ok (record db { proposals = map_set id p db.proposals })

-- `update` of one proposal, which throws where the row is gone.
unfoldable pub update_proposal :
    Text → (TreasuryTxProposal → TreasuryTxProposal) → TreasuryDb → Result TreasuryError TreasuryDb
update_proposal id change db = elim (map_get id db.proposals) [
  | none ↦ err row_missing
  | some p ↦ ok (record db { proposals = map_set id (change p) db.proposals })
]

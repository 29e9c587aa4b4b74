-- ===== src/Status/Public.antt =====
-- src/services/settlement-status.ts: the status that a client polls, from the stored row and a
-- lookup on the ledger. Of a stored status the eight of the lifecycle are modelled; any other text
-- goes the way of `pending`.
use mergepay_api.Machine.Status
use mergepay_api.Machine.Status.{SettlementStatus}
use mergepay_api.Money.Decimal.{trim}
use mergepay_api.Status.Window.{is_intent_expired, seconds_until_expiry}
use mergepay_api.Common.{
  Bool, List, Option, Text, [], any, codes, false, if◌then◌else◌, is_empty, none, some, text_eq,
  true, ℕ, ℤ, ◌||◌, ◌∷◌,
}

pub data PublicStatus : Type 0 where
  awaiting_signature submitted confirmed failed expired : PublicStatus

unfoldable pub is_terminal_status : PublicStatus → Bool
is_terminal_status awaiting_signature = false
is_terminal_status submitted = false
is_terminal_status confirmed = true
is_terminal_status failed = true
is_terminal_status expired = true

pub record SettlementStatusInput : Type 0 where
  pub status : SettlementStatus
  pub stellar_tx_hash : Option Text
  pub failure_reason : Option Text
  pub failure_category : Option Text
  pub expires_at : Option ℕ

pub record OnChainStatus : Type 0 where
  pub checked : Bool
  pub found : Bool
  pub successful : Option Bool
  pub transaction_hash : Option Text

pub record SettlementFailureInfo : Type 0 where
  pub category : Text
  pub reason : Text

pub record SettlementStatusResult : Type 0 where
  pub status : PublicStatus
  pub on_chain : OnChainStatus
  pub failure : Option SettlementFailureInfo
  pub expires_in_seconds : Option ℤ

-- SETTLEMENT_FAILURE_CATEGORIES
abbrev pub settlement_failure_categories : List Text
settlement_failure_categories =
    codes "validation"
    ∷ codes "insufficient_funds"
    ∷ codes "expired"
    ∷ codes "upstream"
    ∷ codes "ledger_rejected"
    ∷ codes "internal"
    ∷ []

unfoldable pub category_of : Option Text → Text
category_of none = codes "internal"
category_of (some c) = if any (text_eq c) settlement_failure_categories then c else codes "internal"

unfoldable pub reason_of : Option Text → Text
reason_of none = codes "Settlement failed"
reason_of (some r) = if is_empty (trim r) then codes "Settlement failed" else trim r

unfoldable pub to_failure_info : SettlementStatusInput → PublicStatus → Option SettlementFailureInfo
to_failure_info s failed =
    some (record { category = category_of s.failure_category; reason = reason_of s.failure_reason })
to_failure_info s _ = none

unfoldable pub to_public_status : SettlementStatusInput → ℕ → PublicStatus
to_public_status s now = elim s.status [
  | Status.confirmed ↦ confirmed
  | Status.failed ↦ failed
  | Status.expired ↦ expired
  | Status.submitted ↦ if is_intent_expired s.expires_at now then expired else submitted
  | _ ↦ if is_intent_expired s.expires_at now then expired else awaiting_signature
]

-- What comes first of `getTransaction` and the timeout: a throw, nothing (the timeout or no
-- record), or a record with its success.
pub data Lookup : Type 0 where
  threw nothing : Lookup
  answered : Bool → Lookup

unfoldable pub lookup_on_chain : Text → Lookup → OnChainStatus
lookup_on_chain hash threw = record {
  checked = false;
  found = false;
  successful = none;
  transaction_hash = some hash;
}
lookup_on_chain hash nothing = record {
  checked = true;
  found = false;
  successful = none;
  transaction_hash = some hash;
}
lookup_on_chain hash (answered success) = record {
  checked = true;
  found = true;
  successful = some success;
  transaction_hash = some hash;
}

abbrev pub not_looked_up : Option Text → OnChainStatus
not_looked_up hash = record {
  checked = false;
  found = false;
  successful = none;
  transaction_hash = hash;
}

-- A record on the ledger decides; anything else leaves the status.
abbrev pub advance : PublicStatus → OnChainStatus → PublicStatus
advance status on_chain = elim on_chain.successful [
  | none ↦ status
  | some true ↦ if on_chain.found then confirmed else status
  | some false ↦ if on_chain.found then failed else status
]

-- `hash && !isTerminalSettlementStatus(status)`, the empty text being no hash.
abbrev pub hash_to_check : Option Text → PublicStatus → Option Text
hash_to_check none status = none
hash_to_check (some hash) status =
    if is_empty hash || is_terminal_status status then none else some hash

unfoldable pub look_up : Option Text → Option Text → Lookup → OnChainStatus
look_up none stored lookup = not_looked_up stored
look_up (some hash) stored lookup = lookup_on_chain hash lookup

unfoldable pub resolve_settlement_status :
    SettlementStatusInput → ℕ → Lookup → SettlementStatusResult
resolve_settlement_status s now lookup =
    let stored = to_public_status s now in
    let on_chain = look_up (hash_to_check s.stellar_tx_hash stored) s.stellar_tx_hash lookup in
    let status = advance stored on_chain in
    record {
      status = status;
      on_chain = on_chain;
      failure = to_failure_info s status;
      expires_in_seconds = elim s.expires_at [
        | none ↦ none
        | some t ↦ some (seconds_until_expiry t now)
      ];
    }

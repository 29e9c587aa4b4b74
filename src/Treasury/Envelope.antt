-- ===== src/Treasury/Envelope.antt =====
-- src/services/treasury-stellar.ts: what a treasury envelope that was built elsewhere has to be.
-- The decoding of an envelope, and the tests and checks on keys that Stellar's SDK makes, are the
-- fields of a record that stands for the SDK.
use mergepay_api.Common.{
  Bool, List, Option, Result, Text, [], codes, err, false, is_empty, length, ltb, map, none, not,
  ok, some, text_eq, throw_if, true, ℕ, ◌&&◌, ◌*◌, ◌==◌, ◌>>=◌, ◌>>◌, ◌||◌, ◌∷◌,
}
use mergepay_api.Money.Amount.{validate_amount}
use mergepay_api.Status.Window.{TimeBounds, WindowError, assert_time_bounds_match_intent}

pub record TreasuryOperation : Type 0 where
  pub type : Option Text
  pub source : Option Text
  pub amount : Option Text
  pub destination : Option Text

-- A signature with the hint that names its key.
pub record DecoratedSignature : Type 0 where
  pub hint : Text
  pub signature : Text

-- A decoded transaction; `fee` is nothing where it is no finite number.
pub record Envelope : Type 0 where
  pub hash : Text
  pub source : Text
  pub operations : List TreasuryOperation
  pub fee : Option ℕ
  pub time_bounds : Option TimeBounds
  pub signatures : List DecoratedSignature

pub data Parsed : Type 0 where
  fee_bump : Parsed
  transaction : Envelope → Parsed

-- What is used of Stellar's SDK. A throw is nothing, or false where the caller says so.
pub record Sdk : Type 0 where
  pub base_fee : ℕ
  pub is_ed25519_key : Text → Bool
  pub is_med25519_key : Text → Bool
  pub from_xdr : Text → Option Parsed
  pub signature_hint : Text → Option Text
  pub verify : Text → Text → Text → Bool
  pub base64 : Text → Text
  pub add_signature : Envelope → Text → Text → Option Envelope
  pub to_xdr : Envelope → Text

pub data PolicyRule : Type 0 where
  fee_bump_rule source_rule operations_rule operation_source_rule amount_rule destination_rule :
      PolicyRule
  fee_rule : PolicyRule

pub data TreasuryError : Type 0 where
  treasury_disabled treasury_unfunded xdr_malformed xdr_not_unsigned : TreasuryError
  policy_rejected : PolicyRule → TreasuryError
  window_rejected : WindowError → TreasuryError
  not_found already_submitted proposal_failed xdr_mismatch_hash xdr_unsigned : TreasuryError
  unauthorized_signer invalid_signature id_taken row_missing transaction_aborted : TreasuryError
  upstream : Text → TreasuryError

pub record TreasuryEnvelopePolicy : Type 0 where
  pub treasury_account_public_key : Text
  pub max_operations : Option ℕ
  pub max_fee_stroops : Option ℕ

abbrev pub max_treasury_operations : ℕ
max_treasury_operations = 10

-- `o ?? d`.
abbrev pub or_else {ℓ} : {A : Type ℓ} → Option A → A → A
or_else none d = d
or_else (some a) d = a

abbrev pub of_window : Result WindowError (Unit {0}) → Result TreasuryError (Unit {0})
of_window (ok u) = ok u
of_window (err e) = err (window_rejected e)

unfoldable pub parse_treasury_xdr : Sdk → Text → Result TreasuryError Envelope
parse_treasury_xdr sdk xdr = elim (sdk.from_xdr xdr) [
  | none ↦ err xdr_malformed
  | some fee_bump ↦ err (policy_rejected fee_bump_rule)
  | some (transaction tx) ↦ ok tx
]

-- `operation.source && operation.source !== treasury`
abbrev pub is_foreign_source : Text → Option Text → Bool
is_foreign_source treasury none = false
is_foreign_source treasury (some s) = not (is_empty s) && not (text_eq s treasury)

abbrev pub is_valid_amount : Text → Bool
is_valid_amount amount = elim (validate_amount amount) [ ok _ ↦ true | err _ ↦ false ]

abbrev pub pays_amount : Text → Bool
pays_amount type = text_eq type (codes "payment")

abbrev pub names_account : Text → Bool
names_account type =
    text_eq type (codes "payment")
    || text_eq type (codes "createAccount")
    || text_eq type (codes "accountMerge")

unfoldable pub check_operation : Sdk → Text → TreasuryOperation → Result TreasuryError (Unit {0})
check_operation sdk treasury operation = do
  let type = or_else operation.type []
  let destination = or_else operation.destination []
  throw_if (is_foreign_source treasury operation.source) (policy_rejected operation_source_rule)
  throw_if (pays_amount type && not (is_valid_amount (or_else operation.amount [])))
      (policy_rejected amount_rule)
  throw_if
      (names_account type
        && not (sdk.is_ed25519_key destination)
        && not (sdk.is_med25519_key destination))
      (policy_rejected destination_rule)

unfoldable pub check_operations :
    Sdk → Text → List TreasuryOperation → Result TreasuryError (Unit {0})
check_operations sdk treasury [] = ok tt
check_operations sdk treasury (operation ∷ rest) = do
  check_operation sdk treasury operation
  check_operations sdk treasury rest

-- A fee that is no number is below every minimum.
unfoldable pub check_fee : ℕ → ℕ → Option ℕ → Result TreasuryError ℕ
check_fee lowest highest none = err (policy_rejected fee_rule)
check_fee lowest highest (some fee) = do
  throw_if (ltb fee lowest) (policy_rejected fee_rule)
  throw_if (ltb highest fee) (policy_rejected fee_rule)
  ok fee

-- The operation types and the fee that the inspection found, at the time `now`.
unfoldable pub assert_treasury_envelope_policy :
    Sdk → TreasuryEnvelopePolicy → ℕ → Envelope → Result TreasuryError (List Text × ℕ)
assert_treasury_envelope_policy sdk policy now tx = do
  let treasury = policy.treasury_account_public_key
  let count = length tx.operations
  throw_if (not (text_eq tx.source treasury)) (policy_rejected source_rule)
  throw_if (count == 0) (policy_rejected operations_rule)
  throw_if (ltb (or_else policy.max_operations max_treasury_operations) count)
      (policy_rejected operations_rule)
  check_operations sdk treasury tx.operations
  fee ←
      check_fee (sdk.base_fee * count) (or_else policy.max_fee_stroops (sdk.base_fee * 2 * count))
        tx.fee
  of_window (assert_time_bounds_match_intent tx.time_bounds none now)
  ok (map (λ (o : TreasuryOperation). or_else o.type (codes "unknown")) tx.operations, fee)

-- ===== src/Treasury/Sign.antt =====
-- src/services/treasury-signatures.ts: the steps of submitSignature.
use mergepay_api.Common.{
  Bool, List, Option, Result, Text, [], any, err, false, find, if◌then◌else◌, ltb, map_get, map_set,
  none, not, ok, some, text_eq, throw_if, true, ℕ, ◌&&◌, ◌++◌, ◌+◌, ◌>>=◌, ◌>>◌, ◌∷◌,
}
use mergepay_api.Treasury.Store.{
  AccountSnapshot, AuthorizedAdmin, GroupMember, TreasuryDb, TreasurySignature, add_audit,
  signature_added, AuditRow,
}
use mergepay_api.Treasury.Envelope.{
  DecoratedSignature, Envelope, Sdk, TreasuryError, invalid_signature, or_else, unauthorized_signer,
}

-- `new Map(signers)`, in which the last of two entries for a key counts.
abbrev pub weight_map : List (Text × ℕ) → List (Text × ℕ) → List (Text × ℕ)
weight_map [] m = m
weight_map ((key, weight) ∷ signers) m = weight_map signers (map_set key weight m)

abbrev pub on_chain_weight : AccountSnapshot → Text → ℕ
on_chain_weight account key = or_else (map_get key (weight_map account.signers [])) 0

abbrev pub is_admin_of : Text → GroupMember → Bool
is_admin_of group m = text_eq m.group_id group && m.is_admin

unfoldable pub authorized_admins : Text → AccountSnapshot → List GroupMember → List AuthorizedAdmin
authorized_admins group account [] = []
authorized_admins group account (m ∷ members) =
    let rest = authorized_admins group account members in
    let weight = on_chain_weight account m.stellar_public_key in
    if is_admin_of group m && ltb 0 weight
    then record { user_id = m.user_id; public_key = m.stellar_public_key; weight = weight } ∷ rest
    else rest

abbrev pub has_hint : Sdk → Text → AuthorizedAdmin → Bool
has_hint sdk hint a = elim (sdk.signature_hint a.public_key) [
  | none ↦ false
  | some h ↦ text_eq h hint
]

abbrev pub new_signature : Sdk → Text → AuthorizedAdmin → Text → TreasurySignature
new_signature sdk id a signature = record {
  proposal_id = id;
  signer_user_id = a.user_id;
  signer_public_key = a.public_key;
  signature = sdk.base64 signature;
  weight = a.weight;
}

-- `if (!o) throw e`.
abbrev pub present_or {ℓ} : {A : Type ℓ} → TreasuryError → Option A → Result TreasuryError A
present_or e none = err e
present_or e (some a) = ok a

-- The new signatures of an envelope; `seen` has the users whose signature is recorded already.
unfoldable pub collect_signatures :
    Sdk
    → Text
    → Text
    → List AuthorizedAdmin
    → List Text
    → List DecoratedSignature
    → Result TreasuryError (List TreasurySignature)
collect_signatures sdk id hash admins seen [] = ok []
collect_signatures sdk id hash admins seen (decorated ∷ rest) = do
  matched ← present_or unauthorized_signer (find (has_hint sdk decorated.hint) admins)
  throw_if (not (sdk.verify matched.public_key hash decorated.signature)) invalid_signature
  let known = any (text_eq matched.user_id) seen
  new ← collect_signatures sdk id hash admins (if known then seen else matched.user_id ∷ seen) rest
  ok (if known then new else new_signature sdk id matched decorated.signature ∷ new)

-- The unique index of src/prisma/schema.prisma, on the proposal and the user: two rows that it does
-- not take beside each other.
abbrev pub same_signer : TreasurySignature → TreasurySignature → Bool
same_signer s t = text_eq s.proposal_id t.proposal_id && text_eq s.signer_user_id t.signer_user_id

abbrev pub signature_audit : Text → TreasurySignature → AuditRow
signature_audit group s = record {
  action = signature_added;
  is_success = true;
  audit_user_id = s.signer_user_id;
  audit_group_id = group;
  audit_proposal_id = s.proposal_id;
  audit_public_key = some s.signer_public_key;
}

abbrev pub insert_signature : Text → TreasurySignature → TreasuryDb → TreasuryDb
insert_signature group s db =
    add_audit (signature_audit group s) (record db { signatures = db.signatures ++ s ∷ [] })

-- A signer whom a concurrent request has recorded is passed over: the unique index refuses the row,
-- and the `catch` goes on.
unfoldable pub record_signatures : Text → List TreasurySignature → TreasuryDb → TreasuryDb
record_signatures group [] db = db
record_signatures group (s ∷ new) db =
    record_signatures group new
      (if any (same_signer s) db.signatures then db else insert_signature group s db)

abbrev pub signed_on : Text → TreasurySignature → Bool
signed_on id s = text_eq s.proposal_id id

abbrev pub signed_weight : List TreasurySignature → ℕ
signed_weight [] = 0
signed_weight (s ∷ signatures) = s.weight + signed_weight signatures

abbrev pub merge_signatures : Sdk → List TreasurySignature → Envelope → Envelope
merge_signatures sdk [] base = base
merge_signatures sdk (s ∷ signatures) base =
    merge_signatures sdk signatures
      (or_else (sdk.add_signature base s.signer_public_key s.signature) base)

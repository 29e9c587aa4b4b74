-- ===== src/Treasury/Added.antt =====
-- Which signatures a request adds, and what it has read when it adds them.
use mergepay_api.Common.{
  >>=-eq-ok, All, Bool, Bool-cases, List, Option, Result-cases, Text, [], any, ap, arith, err,
  false, find, find-All, if◌then◌else◌, inl, inr, is_empty, ltb, map_get, none, not, ok,
  ok-injective, refl, some, subst, sym, text_eq, text_eq_iff, text_eq_refl, throw_if, true, ℕ, ◌&&◌,
  ◌<◌, ◌>>◌, ◌∙◌, ◌∷◌, ◌≡◌, ◌≢◌,
}
use mergepay_api.Treasury.Store.{
  ready, load, submitted, failed, AccountSnapshot, AuthorizedAdmin, GroupMember,
  SubmitSignatureParams, TreasurySignature, Horizon, TreasuryDb, ProposalStatus, TreasuryTxProposal,
  pending_signatures,
}
use mergepay_api.Treasury.Collect.{
  signable, Checked, check_submission, check_status, signed_user_ids,
}
use mergepay_api.Treasury.Envelope.{
  not_found, upstream, DecoratedSignature, Sdk, invalid_signature, unauthorized_signer,
  assert_treasury_envelope_policy, parse_treasury_xdr, treasury_unfunded, xdr_mismatch_hash,
  xdr_unsigned,
}
use mergepay_api.Treasury.Sign.{
  authorized_admins, collect_signatures, is_admin_of, on_chain_weight, has_hint, present_or,
  new_signature,
}
use mergepay_api.Treasury.Propose.{policy_of}
use mergepay_api.Treasury.Distinct.{NewSigners, collect_signatures-NewSigners}

abbrev pub is_admin_with : Text → Text → Text → GroupMember → Bool
is_admin_with group user key m =
    is_admin_of group m && text_eq m.user_id user && text_eq m.stellar_public_key key

-- A signature of the transaction by an admin of the group whose key has its weight on the account.
abbrev pub Backed :
    Sdk
    → List GroupMember
    → SubmitSignatureParams
    → AccountSnapshot
    → Text
    → TreasurySignature
    → Type 0
Backed sdk members args account hash s =
    (s.proposal_id ≡ args.proposal_id)
    × (0 < s.weight)
    × (s.weight ≡ on_chain_weight account s.signer_public_key)
    × (any (is_admin_with args.group_id s.signer_user_id s.signer_public_key) members ≡ true)
    × ((raw : Text) × (s.signature ≡ sdk.base64 raw)
        × (sdk.verify s.signer_public_key hash raw ≡ true))

abbrev pub Entitled : Text → AccountSnapshot → List GroupMember → AuthorizedAdmin → Type 0
Entitled group account members a =
    (0 < a.weight)
    × (a.weight ≡ on_chain_weight account a.public_key)
    × (any (is_admin_with group a.user_id a.public_key) members ≡ true)

Entitled-more :
    (group : Text) (account : AccountSnapshot) (m : GroupMember) (members : List GroupMember)
    (admins : List AuthorizedAdmin)
    → All (Entitled group account members) admins
    → All (Entitled group account (m ∷ members)) admins
Entitled-more group account m members [] h = tt
Entitled-more group account m members (a ∷ admins) ((w, same, admin), h) =
    ((w, same, ground (arith, admin)), Entitled-more group account m members admins h)

authorized_admins-Entitled :
    (group : Text) (account : AccountSnapshot) (members : List GroupMember)
    → All (Entitled group account members) (authorized_admins group account members)
unfolding authorized_admins
authorized_admins-Entitled group account [] = tt
authorized_admins-Entitled group account (m ∷ members) =
    let weight = on_chain_weight account m.stellar_public_key in
    let rest =
      Entitled-more group account m members (authorized_admins group account members)
        (authorized_admins-Entitled group account members) in
    elim (Bool-cases (is_admin_of group m && ltb 0 weight)) [
      | inl t ↦ rw t (
        (
          ground (arith, t),
          refl,
          ground (arith, t, text_eq_refl m.user_id, text_eq_refl m.stellar_public_key),
        ),
        rest,
      )
      | inr f ↦ rw f rest
    ]

All-unless :
    (P : TreasurySignature → Type 0) (known : Bool) (s : TreasurySignature)
    (rest : List TreasurySignature)
    → P s
    → All P rest
    → All P (if known then rest else s ∷ rest)
All-unless P true s rest p h = h
All-unless P false s rest p h = (p, h)

found_of_ok :
    (o : Option AuthorizedAdmin) {a : AuthorizedAdmin}
    → present_or unauthorized_signer o ≡ ok a
    → o ≡ some a
found_of_ok none e = cc e
found_of_ok (some b) e = ap some (ok-injective e)

collect_signatures-Backed :
    (sdk : Sdk) (args : SubmitSignatureParams) (account : AccountSnapshot) (hash : Text)
    (members : List GroupMember) (admins : List AuthorizedAdmin) (seen : List Text)
    (signatures : List DecoratedSignature) {new : List TreasurySignature}
    → All (Entitled args.group_id account members) admins
    → collect_signatures sdk args.proposal_id hash admins seen signatures ≡ ok new
    → All (Backed sdk members args account hash) new
unfolding collect_signatures
collect_signatures-Backed sdk args account hash members admins seen [] {new} h e =
    subst (All (Backed sdk members args account hash)) (ok-injective e) tt
collect_signatures-Backed sdk args account hash members admins seen (d ∷ ds) {new} h e =
    let (matched, found, e1) =
      >>=-eq-ok (present_or unauthorized_signer (find (has_hint sdk d.hint) admins)) _ e in
    let (_, verified, e2) =
      >>=-eq-ok (throw_if (not (sdk.verify matched.public_key hash d.signature)) invalid_signature)
        _ e1 in
    let known = any (text_eq matched.user_id) seen in
    let (rest, collected, e3) =
      >>=-eq-ok
        (collect_signatures sdk args.proposal_id hash admins
          (if known then seen else matched.user_id ∷ seen) ds)
        _ e2 in
    let IH =
      collect_signatures-Backed sdk args account hash members admins
        (if known then seen else matched.user_id ∷ seen) ds h collected in
    let (weight, same, admin) =
      find-All (Entitled args.group_id account members) (has_hint sdk d.hint) admins matched h
        (found_of_ok (find (has_hint sdk d.hint) admins) found) in
    let valid : sdk.verify matched.public_key hash d.signature ≡ true = ground (arith, verified) in
    subst (All (Backed sdk members args account hash)) (ok-injective e3) (
      All-unless (Backed sdk members args account hash) known
        (new_signature sdk args.proposal_id matched d.signature) rest
        (refl, weight, same, admin, (d.signature, refl, valid)) IH)

abbrev pub Open : ProposalStatus → Type 0
Open status = (status ≢ submitted) × (status ≢ failed)

check_status-Open : (status : ProposalStatus) → check_status status ≡ ok tt → Open status
unfolding check_status
check_status-Open pending_signatures e = (λ s. cc s, λ s. cc s)
check_status-Open ready e = (λ s. cc s, λ s. cc s)
check_status-Open submitted e = cc e
check_status-Open failed e = cc e

signable-inv :
    (args : SubmitSignatureParams) (o : Option TreasuryTxProposal) {p : TreasuryTxProposal}
    → signable args o ≡ ok p
    → (o ≡ some p) × Open p.status
unfolding signable
signable-inv args none {p} e = cc e
signable-inv args (some q) {p} e =
    let (_, own, e1) =
      >>=-eq-ok (throw_if (not (text_eq q.group_id args.group_id)) not_found) _ e in
    let (_, status, e2) = >>=-eq-ok (check_status q.status) _ e1 in
    let same : q ≡ p = ok-injective e2 in
    (
      ap some same,
      subst (λ (x : TreasuryTxProposal). Open x.status) same (check_status-Open q.status status),
    )

load-inv :
    (horizon : Horizon) (key : Text) {account : AccountSnapshot}
    → load horizon key ≡ ok account
    → horizon.load_account key ≡ ok account
unfolding load
load-inv horizon key {account} e = elim (Result-cases (horizon.load_account key)) [
  | inl (a, found) ↦
      let opened : load horizon key ≡ (do throw_if (not a.exists) treasury_unfunded; ok a) =
        rw (load, found) refl in
      let (_, exists, same) =
        >>=-eq-ok (throw_if (not a.exists) treasury_unfunded) (λ _. ok a) (sym opened ∙ e) in
      found ∙ ap ok (ok-injective same)
  | inr (m, thrown) ↦
      let opened : load horizon key ≡ err (upstream m) = rw (load, thrown) refl in cc (opened, e)
]

-- What check_submission has read and found: the proposal, the account and signatures by admins
-- who have not signed.
abbrev pub Sound : Sdk → Horizon → SubmitSignatureParams → TreasuryDb → Checked → Type 0
Sound sdk horizon args db c =
    (map_get args.proposal_id db.proposals ≡ some c.proposal)
    × (horizon.load_account c.proposal.source_account ≡ ok c.account)
    × Open c.proposal.status
    × All (Backed sdk db.members args c.account c.proposal.tx_hash) c.new_signatures
    × NewSigners args.proposal_id (signed_user_ids args.proposal_id db.signatures) c.new_signatures

pub check_submission-Sound :
    (sdk : Sdk) (horizon : Horizon) (args : SubmitSignatureParams) (now : ℕ) (db : TreasuryDb)
    (c : Checked)
    → check_submission sdk horizon args now db ≡ ok c
    → Sound sdk horizon args db c
unfolding check_submission
check_submission-Sound sdk horizon args now db c e =
    let (p, signed, e1) = >>=-eq-ok (signable args (map_get args.proposal_id db.proposals)) _ e in
    let (account, loaded, e2) = >>=-eq-ok (load horizon p.source_account) _ e1 in
    let (tx, parsed, e3) = >>=-eq-ok (parse_treasury_xdr sdk args.signed_xdr) _ e2 in
    let (_, same, e4) =
      >>=-eq-ok (throw_if (not (text_eq tx.hash p.tx_hash)) xdr_mismatch_hash) _ e3 in
    let (_, signatures, e5) = >>=-eq-ok (throw_if (is_empty tx.signatures) xdr_unsigned) _ e4 in
    let (_, policy, e6) =
      >>=-eq-ok (assert_treasury_envelope_policy sdk (policy_of p.source_account) now tx) _ e5 in
    let admins = authorized_admins args.group_id account db.members in
    let seen = signed_user_ids args.proposal_id db.signatures in
    let (new, collected, e7) =
      >>=-eq-ok (collect_signatures sdk args.proposal_id tx.hash admins seen tx.signatures) _ e6 in
    let (found, may) = signable-inv args (map_get args.proposal_id db.proposals) signed in
    let hash : tx.hash ≡ p.tx_hash = ground (arith, text_eq_iff tx.hash p.tx_hash, same) in
    let backed =
      collect_signatures-Backed sdk args account tx.hash db.members admins seen tx.signatures
        (authorized_admins-Entitled args.group_id account db.members) collected in
    subst (Sound sdk horizon args db) (ok-injective e7) (
      found,
      load-inv horizon p.source_account loaded,
      may,
      subst (λ h. All (Backed sdk db.members args account h) new) hash backed,
      collect_signatures-NewSigners sdk args.proposal_id tx.hash admins seen tx.signatures
          collected,
    )

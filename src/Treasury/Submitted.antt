-- ===== src/Treasury/Submitted.antt =====
-- What a request for signing leaves in the database, whatever its outcome.
use mathlib.Core.List.{append-nil}
use mergepay_api.Common.{
  All, Bool, List, Result, Text, [], any, ap, arith, err, false, if◌then◌else◌, keep, map_get, ok,
  ok-injective, refl, some, subst, sym, true, ℕ, ◌++◌, ◌∙◌, ◌∷◌, ◌≡◌, ◌≤◌,
}
use mergepay_api.Treasury.Collect.{
  decide, Attempt, Checked, check_submission, submit_body, submit_signature, Engine, is_aborted,
  record_and_decide,
}
use mergepay_api.Treasury.Store.{
  submitted, AccountSnapshot, Horizon, SignatureSubmissionResult, SubmitSignatureParams, TreasuryDb,
  TreasurySignature, TreasuryTxProposal, transaction_of,
}
use mergepay_api.Treasury.Added.{Backed, Open, check_submission-Sound}
use mergepay_api.Treasury.Envelope.{Sdk, TreasuryError}
use mergepay_api.Treasury.Sign.{
  insert_signature, record_signatures, same_signer, signed_on, signed_weight,
}
use mergepay_api.Treasury.Weight.{decide-signatures, decide-weight}
use mergepay_api.Treasury.Distinct.{
  append_snoc, OneEach, NewSigners-OneEach, record_signatures-all, none_refused,
}

abbrev pub Extends :
    (TreasurySignature → Type 0) → List TreasurySignature → List TreasurySignature → Type 0
Extends P before after = (added : List TreasurySignature) × (after ≡ before ++ added) × All P added

insert_unless-Extends :
    (P : TreasurySignature → Type 0) (group : Text) (s : TreasurySignature) (db : TreasuryDb)
    (known : Bool) {after : List TreasurySignature}
    → P s
    → Extends P (if known then db else insert_signature group s db).signatures after
    → Extends P db.signatures after
insert_unless-Extends P group s db true {after} p h = h
insert_unless-Extends P group s db false {after} p (added, same, backed) =
    (s ∷ added, same ∙ append_snoc db.signatures added s, (p, backed))

record_signatures-Extends :
    (P : TreasurySignature → Type 0) (group : Text) (new : List TreasurySignature) (db : TreasuryDb)
    → All P new
    → Extends P db.signatures (record_signatures group new db).signatures
unfolding record_signatures
record_signatures-Extends P group [] db h = ([], sym (append-nil db.signatures), tt)
record_signatures-Extends P group (s ∷ new) db (p, h) =
    insert_unless-Extends P group s db (any (same_signer s) db.signatures) p
      (record_signatures-Extends P group new _ h)

transaction_of-ok :
    (before : TreasuryDb) (attempt : Attempt) {r : SignatureSubmissionResult}
    → (transaction_of before attempt).0 ≡ ok r
    → (attempt.0 ≡ ok r) × ((transaction_of before attempt).1 ≡ attempt.1)
transaction_of-ok before (ok a, after) e = (e, refl)
transaction_of-ok before (err x, after) e = cc e

-- The new signatures that a request finds are by different users, and by none who has signed the
-- proposal in the database that it reads: with them, no user has two signatures on one proposal,
-- if none had. So, where no other request commits meanwhile, writing them stores each of them
-- behind the signatures that were there, and the unique index refuses none, so that the
-- transaction is not aborted.
pub check_submission-OneEach :
    (sdk : Sdk) (horizon : Horizon) (args : SubmitSignatureParams) (now : ℕ) (db : TreasuryDb)
    (c : Checked)
    → OneEach db.signatures
    → check_submission sdk horizon args now db ≡ ok c
    → OneEach (db.signatures ++ c.new_signatures)
      × ((record_signatures c.proposal.group_id c.new_signatures db).signatures
          ≡ db.signatures ++ c.new_signatures)
      × ((engine : Engine) → is_aborted engine c db ≡ false)
unfolding is_aborted
check_submission-OneEach sdk horizon args now db c h e =
    let (_, _, _, _, new) = check_submission-Sound sdk horizon args now db c e in
    let one = NewSigners-OneEach args.proposal_id db.signatures c.new_signatures h new in
    let accepted = none_refused args.proposal_id db.signatures c.new_signatures new in
    (
      one,
      record_signatures-all c.proposal.group_id c.new_signatures db one,
      λ engine. ground (arith, accepted),
    )

module _ (sdk : Sdk) (horizon : Horizon) (args : SubmitSignatureParams) (engine : Engine) where
  transaction_of-signatures :
      (P : List TreasurySignature → Type 0) (before : TreasuryDb) (attempt : Attempt)
      → P before.signatures
      → P attempt.1.signatures
      → P (transaction_of before attempt).1.signatures
  transaction_of-signatures P before (ok a, after) h k = k
  transaction_of-signatures P before (err e, after) h k = h

  record_and_decide-signatures :
      (P : List TreasurySignature → Type 0) (committed : TreasuryDb) (c : Checked) (aborted : Bool)
      → P committed.signatures
      → P (record_signatures c.proposal.group_id c.new_signatures committed).signatures
      → P (record_and_decide sdk horizon args engine committed c aborted).1.signatures
  unfolding record_and_decide
  record_and_decide-signatures P committed c true h k = h
  record_and_decide-signatures P committed c false h k =
      subst P
        (sym (
          decide-signatures args c sdk horizon engine.missing
            (record_signatures c.proposal.group_id c.new_signatures committed)))
        k

  submit_body-signatures :
      (P : List TreasurySignature → Type 0) (committed : TreasuryDb)
      (m : Result TreasuryError Checked)
      → P committed.signatures
      → ((c : Checked)
          → m ≡ ok c
          → P (record_signatures c.proposal.group_id c.new_signatures committed).signatures)
      → P (submit_body sdk horizon args engine committed m).1.signatures
  unfolding submit_body
  submit_body-signatures P committed (err e) h k = h
  submit_body-signatures P committed (ok c) h k =
      record_and_decide-signatures P committed c (is_aborted engine c committed) h (k c refl)

  submit_signature-signatures :
      (P : List TreasurySignature → Type 0) (now : ℕ) (db committed : TreasuryDb)
      → P committed.signatures
      → ((c : Checked)
          → check_submission sdk horizon args now db ≡ ok c
          → P (record_signatures c.proposal.group_id c.new_signatures committed).signatures)
      → P (submit_signature sdk horizon args engine now db committed).1.signatures
  unfolding submit_signature
  submit_signature-signatures P now db committed h k =
      transaction_of-signatures P committed _ h
        (submit_body-signatures P committed (check_submission sdk horizon args now db) h k)

  -- A request for signing keeps the signatures that are stored and adds at most such ones: on its
  -- proposal, of the proposal's transaction, by admins of the group, each with the weight that its
  -- key has on the proposal's account at that time, and that is not zero.
  pub submit_signature-Backed :
      (now : ℕ) (db committed : TreasuryDb) (p : TreasuryTxProposal) (account : AccountSnapshot)
      → map_get args.proposal_id db.proposals ≡ some p
      → horizon.load_account p.source_account ≡ ok account
      → Extends
          (Backed sdk db.members args account p.tx_hash)
          committed.signatures
          (submit_signature sdk horizon args engine now db committed).1.signatures
  submit_signature-Backed now db committed p account found loaded =
      submit_signature-signatures
        (Extends (Backed sdk db.members args account p.tx_hash) committed.signatures) now db
        committed ([], sym (append-nil committed.signatures), tt)
        (λ c e.
          let (found', loaded', _, backed, _) =
            check_submission-Sound sdk horizon args now db c e in
          let same : c.proposal ≡ p = cc (found, found') in
          let account' : c.account ≡ account = ok-injective (
            sym loaded'
            ∙ ap (λ (q : TreasuryTxProposal). horizon.load_account q.source_account) same
            ∙ loaded) in
          record_signatures-Extends (Backed sdk db.members args account p.tx_hash)
            c.proposal.group_id c.new_signatures committed
            (subst
              (λ (q : TreasuryTxProposal).
                All (Backed sdk db.members args account q.tx_hash) c.new_signatures)
              same
              (subst (λ a. All (Backed sdk db.members args a c.proposal.tx_hash) c.new_signatures)
                account' backed)))

  abbrev HeavyEnough : Checked → TreasuryDb → Attempt → Type 0
  HeavyEnough c committed attempt =
      c.account.thresholds.high
      ≤ signed_weight
          (keep (signed_on args.proposal_id) (transaction_of committed attempt).1.signatures)

  record_and_decide-weight :
      (committed : TreasuryDb) (c : Checked) (aborted : Bool) {r : SignatureSubmissionResult}
      → (transaction_of committed (record_and_decide sdk horizon args engine committed c aborted)).0
        ≡ ok r
      → r.status ≡ submitted
      → HeavyEnough c committed (record_and_decide sdk horizon args engine committed c aborted)
  unfolding record_and_decide
  record_and_decide-weight committed c true {r} e s = cc e
  record_and_decide-weight committed c false {r} e s =
      let recorded = record_signatures c.proposal.group_id c.new_signatures committed in
      let attempt = decide sdk horizon args c engine.missing recorded in
      let (answered, after) = transaction_of-ok committed attempt e in
      let stored : recorded.signatures ≡ (transaction_of committed attempt).1.signatures = sym (
        ap (λ (d : TreasuryDb). d.signatures) after
        ∙ decide-signatures args c sdk horizon engine.missing recorded) in
      subst (λ l. c.account.thresholds.high ≤ signed_weight (keep (signed_on args.proposal_id) l))
        stored (decide-weight args c sdk horizon engine.missing recorded answered s)

  submit_body-weight :
      (committed : TreasuryDb) (m : Result TreasuryError Checked) {r : SignatureSubmissionResult}
      → (transaction_of committed (submit_body sdk horizon args engine committed m)).0 ≡ ok r
      → r.status ≡ submitted
      → (c : Checked) × (m ≡ ok c)
        × HeavyEnough c committed (submit_body sdk horizon args engine committed m)
  unfolding submit_body
  submit_body-weight committed (err x) {r} e s = cc e
  submit_body-weight committed (ok c) {r} e s =
      (c, refl, record_and_decide-weight committed c (is_aborted engine c committed) e s)

  -- A request that is answered SUBMITTED found the proposal neither submitted nor failed, and the
  -- signatures that are stored for it when it answers weigh at least the high threshold that the
  -- account has then.
  pub submitted_needs_weight :
      (now : ℕ) (db committed : TreasuryDb) (r : SignatureSubmissionResult)
      → (submit_signature sdk horizon args engine now db committed).0 ≡ ok r
      → r.status ≡ submitted
      → (p : TreasuryTxProposal) × (account : AccountSnapshot) × (map_get args.proposal_id
            db.proposals
          ≡ some p)
        × Open p.status
        × (horizon.load_account p.source_account ≡ ok account)
        × (account.thresholds.high
            ≤ signed_weight (
                keep
                  (signed_on args.proposal_id)
                  (submit_signature sdk horizon args engine now db committed).1.signatures))
  unfolding submit_signature
  submitted_needs_weight now db committed r e s =
      let (c, checked, heavy) =
        submit_body-weight committed (check_submission sdk horizon args now db) e s in
      let (found, loaded, may, _, _) = check_submission-Sound sdk horizon args now db c checked in
      (c.proposal, c.account, found, may, loaded, heavy)

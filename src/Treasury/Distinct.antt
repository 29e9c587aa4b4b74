-- ===== src/Treasury/Distinct.antt =====
-- The new signatures that a request finds: none by a user who has signed the proposal already.
-- No user has two signatures on one proposal.
use mathlib.Core.List.{append-nil}
use mergepay_api.Treasury.Store.{AuthorizedAdmin, TreasurySignature, TreasuryDb}
use mergepay_api.Treasury.Envelope.{DecoratedSignature, Sdk, invalid_signature, unauthorized_signer}
use mergepay_api.Treasury.Sign.{
  collect_signatures, has_hint, new_signature, present_or, same_signer, insert_signature,
  record_signatures,
}
use mergepay_api.Common.{
  >>=-eq-ok, All, Bool, List, Text, [], any, ap, arith, false, find, if◌then◌else◌, not, ok,
  ok-injective, refl, subst, sym, text_eq, text_eq_iff, throw_if, true, ◌++◌, ◌||◌, ◌∙◌, ◌∷◌, ◌≡◌,
}
use mergepay_api.Treasury.Collect.{signed_user_ids}

abbrev pub OneEach : List TreasurySignature → Type 0
OneEach [] = Unit
OneEach (s ∷ signatures) = (any (same_signer s) signatures ≡ false) × OneEach signatures

same_signer_sym : (s t : TreasurySignature) → same_signer s t ≡ same_signer t s
same_signer_sym s t = ground (
  arith,
  text_eq_iff s.proposal_id t.proposal_id,
  text_eq_iff t.proposal_id s.proposal_id,
  text_eq_iff s.signer_user_id t.signer_user_id,
  text_eq_iff t.signer_user_id s.signer_user_id,
)

-- New signatures on the proposal, by different users, none of them among `seen`.
abbrev pub NewSigners : Text → List Text → List TreasurySignature → Type 0
NewSigners id seen new =
    All
      (λ (s : TreasurySignature).
        (s.proposal_id ≡ id) × (any (text_eq s.signer_user_id) seen ≡ false))
      new
    × OneEach new

NewSigners-fewer :
    (id user : Text) (seen : List Text) (new : List TreasurySignature)
    → NewSigners id (user ∷ seen) new
    → NewSigners id seen new
NewSigners-fewer id user seen [] h = h
NewSigners-fewer id user seen (s ∷ new) (((same, fresh), others), (one, h)) =
    let (rest, _) = NewSigners-fewer id user seen new (others, h) in
    (((same, ground arith), rest), (one, h))

-- The signatures of other users have another signer.
other_signers :
    (id : Text) (seen : List Text) (s : TreasurySignature) (new : List TreasurySignature)
    → NewSigners id (s.signer_user_id ∷ seen) new
    → any (same_signer s) new ≡ false
other_signers id seen s [] h = refl
other_signers id seen s (t ∷ new) (((same, fresh), others), (one, h)) = ground (
  arith,
  other_signers id seen s new (others, h),
  text_eq_iff t.signer_user_id s.signer_user_id,
  text_eq_iff s.signer_user_id t.signer_user_id,
)

NewSigners-unless :
    (id : Text) (seen : List Text) (known : Bool) (s : TreasurySignature)
    (rest : List TreasurySignature)
    → s.proposal_id ≡ id
    → any (text_eq s.signer_user_id) seen ≡ known
    → NewSigners id (if known then seen else s.signer_user_id ∷ seen) rest
    → NewSigners id seen (if known then rest else s ∷ rest)
NewSigners-unless id seen true s rest same e h = h
NewSigners-unless id seen false s rest same e h =
    let (others, one) = NewSigners-fewer id s.signer_user_id seen rest h in
    (((same, e), others), (other_signers id seen s rest h, one))

pub collect_signatures-NewSigners :
    (sdk : Sdk) (id hash : Text) (admins : List AuthorizedAdmin) (seen : List Text)
    (signatures : List DecoratedSignature) {new : List TreasurySignature}
    → collect_signatures sdk id hash admins seen signatures ≡ ok new
    → NewSigners id seen new
unfolding collect_signatures
collect_signatures-NewSigners sdk id hash admins seen [] {new} e =
    subst (NewSigners id seen) (ok-injective e) (tt, tt)
collect_signatures-NewSigners sdk id hash admins seen (d ∷ ds) {new} e =
    let (matched, found, e1) =
      >>=-eq-ok (present_or unauthorized_signer (find (has_hint sdk d.hint) admins)) _ e in
    let (_, verified, e2) =
      >>=-eq-ok (throw_if (not (sdk.verify matched.public_key hash d.signature)) invalid_signature)
        _ e1 in
    let known = any (text_eq matched.user_id) seen in
    let (rest, collected, e3) =
      >>=-eq-ok
        (collect_signatures sdk id hash admins (if known then seen else matched.user_id ∷ seen) ds)
        _ e2 in
    let IH =
      collect_signatures-NewSigners sdk id hash admins
        (if known then seen else matched.user_id ∷ seen) ds collected in
    subst (NewSigners id seen) (ok-injective e3)
      (NewSigners-unless id seen known (new_signature sdk id matched d.signature) rest refl refl IH)

-- Where the users of the new signatures are not among the stored signers of the proposal, no
-- signature is refused by the unique index.
not_stored :
    (id : Text) (s : TreasurySignature) (stored : List TreasurySignature)
    → s.proposal_id ≡ id
    → any (text_eq s.signer_user_id) (signed_user_ids id stored) ≡ false
    → any (same_signer s) stored ≡ false
not_stored id s [] same fresh = refl
not_stored id s (t ∷ stored) same fresh = ground (
  arith,
  fresh,
  text_eq_iff t.proposal_id id,
  text_eq_iff s.proposal_id t.proposal_id,
  not_stored id s stored same,
)

pub append_snoc :
    (xs ys : List TreasurySignature) (s : TreasurySignature) → (xs ++ s ∷ []) ++ ys ≡ xs ++ s ∷ ys
append_snoc [] ys s = refl
append_snoc (x ∷ xs) ys s = ap (λ r. x ∷ r) (append_snoc xs ys s)

any-append :
    (p : TreasurySignature → Bool) (xs ys : List TreasurySignature)
    → any p (xs ++ ys) ≡ (any p xs || any p ys)
any-append p [] ys = refl
any-append p (x ∷ xs) ys = ground (arith, any-append p xs ys)

-- No signature of `new` has the signer of one of `stored`.
abbrev Apart : List TreasurySignature → List TreasurySignature → Type 0
Apart stored new = All (λ (s : TreasurySignature). any (same_signer s) stored ≡ false) new

Apart-first :
    (t : TreasurySignature) (stored new : List TreasurySignature)
    → Apart (t ∷ stored) new
    → (any (same_signer t) new ≡ false) × Apart stored new
Apart-first t stored [] h = (refl, tt)
Apart-first t stored (s ∷ new) (apart, h) =
    let (first, rest) = Apart-first t stored new h in
    (ground (arith, first, apart, same_signer_sym s t), (ground arith, rest))

OneEach-append :
    (stored new : List TreasurySignature)
    → OneEach stored
    → Apart stored new
    → OneEach new
    → OneEach (stored ++ new)
OneEach-append [] new h apart k = k
OneEach-append (t ∷ stored) new (one, h) apart k =
    let (first, rest) = Apart-first t stored new apart in
    (
      ground (arith, any-append (same_signer t) stored new, one, first),
      OneEach-append stored new h rest k,
    )

NewSigners-Apart :
    (id : Text) (stored new : List TreasurySignature)
    → NewSigners id (signed_user_ids id stored) new
    → Apart stored new
NewSigners-Apart id stored [] h = tt
NewSigners-Apart id stored (s ∷ new) (((same, fresh), others), (one, h)) =
    (not_stored id s stored same fresh, NewSigners-Apart id stored new (others, h))

Apart-none :
    (stored new : List TreasurySignature)
    → Apart stored new
    → any (λ (s : TreasurySignature). any (same_signer s) stored) new ≡ false
Apart-none stored [] h = refl
Apart-none stored (s ∷ new) (apart, h) = ground (arith, apart, Apart-none stored new h)

pub none_refused :
    (id : Text) (stored new : List TreasurySignature)
    → NewSigners id (signed_user_ids id stored) new
    → any (λ (s : TreasurySignature). any (same_signer s) stored) new ≡ false
none_refused id stored new h = Apart-none stored new (NewSigners-Apart id stored new h)

pub NewSigners-OneEach :
    (id : Text) (stored new : List TreasurySignature)
    → OneEach stored
    → NewSigners id (signed_user_ids id stored) new
    → OneEach (stored ++ new)
NewSigners-OneEach id stored new h k =
    OneEach-append stored new h (NewSigners-Apart id stored new k) k.1

-- The index refuses none of them, so that each is stored.
pub record_signatures-all :
    (group : Text) (new : List TreasurySignature) (db : TreasuryDb)
    → OneEach (db.signatures ++ new)
    → (record_signatures group new db).signatures ≡ db.signatures ++ new
unfolding record_signatures
record_signatures-all group [] db h = sym (append-nil db.signatures)
record_signatures-all group (s ∷ new) db h =
    let fresh : any (same_signer s) db.signatures ≡ false = before_new s db.signatures new h in
    rw (record_signatures, fresh)
      (record_signatures-all group new (insert_signature group s db)
          (subst OneEach (sym (append_snoc db.signatures new s)) h)
        ∙ append_snoc db.signatures new s)
  where
    before_new :
        (s : TreasurySignature) (stored new : List TreasurySignature)
        → OneEach (stored ++ s ∷ new)
        → any (same_signer s) stored ≡ false
    before_new s [] new h = refl
    before_new s (t ∷ stored) new (one, h) = ground (
      arith,
      before_new s stored new h,
      one,
      any-append (same_signer t) stored (s ∷ new),
      same_signer_sym s t,
    )

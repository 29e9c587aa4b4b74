-- ===== src/Treasury/Signers.antt =====
-- src/services/treasury-policy.ts: which signers of the treasury account are in order. The messages
-- of errors are left out.
use mergepay_api.Common.{
  >>=-eq-ok, All, List, Option, Result, Text, [], any, ap, arith, false, if◌then◌else◌, is_empty,
  ltb, none, not, ok, ok-injective, some, sym, text_eq, throw_if, true, ℕ, ◌&&◌, ◌++◌, ◌+◌, ◌<◌,
  ◌==◌, ◌>>=◌, ◌>>◌, ◌||◌, ◌∙◌, ◌∷◌, ◌≡◌, ◌≤◌,
}
use mergepay_api.Treasury.Store.{AccountSnapshot}
use mergepay_api.Treasury.Sign.{on_chain_weight}

pub data SignerPolicyError : Type 0 where
  treasury_unfunded invalid_treasury_policy stale_treasury_policy : SignerPolicyError
  insufficient_treasury_weight : SignerPolicyError

-- A key that is there, `Boolean(key)`, and a `Set` of them in the order of insertion.
abbrev pub add_key : List Text → Option Text → List Text
add_key keys none = keys
add_key keys (some key) = if is_empty key || any (text_eq key) keys then keys else keys ++ key ∷ []

abbrev pub key_set : List Text → List (Option Text) → List Text
key_set keys [] = keys
key_set keys (m ∷ members) = key_set (add_key keys m) members

unfoldable pub check_signer : List Text → Text → Text × ℕ → Result SignerPolicyError (Unit {0})
check_signer expected treasury (key, weight) =
    if text_eq key treasury
    then throw_if (not (weight == 0)) stale_treasury_policy
    else throw_if (not (any (text_eq key) expected) && ltb 0 weight) stale_treasury_policy

unfoldable pub check_signers :
    List Text → Text → List (Text × ℕ) → Result SignerPolicyError (Unit {0})
check_signers expected treasury [] = ok tt
check_signers expected treasury (s ∷ signers) = do
  check_signer expected treasury s
  check_signers expected treasury signers

-- The weight of the configured signers; each must have some.
unfoldable pub configured_weight : AccountSnapshot → List Text → Result SignerPolicyError ℕ
configured_weight account [] = ok 0
configured_weight account (key ∷ keys) = do
  throw_if (on_chain_weight account key == 0) stale_treasury_policy
  rest ← configured_weight account keys
  ok (on_chain_weight account key + rest)

unfoldable pub assert_treasury_policy :
    List (Option Text) → Text → ℕ → AccountSnapshot → Result SignerPolicyError (Unit {0})
assert_treasury_policy members treasury required_signers snapshot = do
  throw_if (not snapshot.exists) SignerPolicyError.treasury_unfunded
  throw_if (ltb required_signers 1) invalid_treasury_policy
  throw_if (not (snapshot.thresholds.high == required_signers)) stale_treasury_policy
  let expected = key_set [] members
  throw_if (is_empty expected) invalid_treasury_policy
  check_signers expected treasury snapshot.signers
  total ← configured_weight snapshot expected
  throw_if (ltb total snapshot.thresholds.high) insufficient_treasury_weight

-- A signer on the account: the treasury's own has no weight, and any other that has is configured.
abbrev pub InOrder : List Text → Text → Text × ℕ → Type 0
InOrder expected treasury (key, weight) =
    (text_eq key treasury ≡ true → weight ≡ 0)
    × (text_eq key treasury ≡ false → 0 < weight → any (text_eq key) expected ≡ true)

abbrev pub weight_of_keys : AccountSnapshot → List Text → ℕ
weight_of_keys account [] = 0
weight_of_keys account (key ∷ keys) = on_chain_weight account key + weight_of_keys account keys

check_signers-InOrder :
    (expected : List Text) (treasury : Text) (signers : List (Text × ℕ))
    → check_signers expected treasury signers ≡ ok tt
    → All (InOrder expected treasury) signers
unfolding check_signers check_signer
check_signers-InOrder expected treasury [] e = tt
check_signers-InOrder expected treasury ((key, weight) ∷ signers) e =
    let (_, first, rest) = >>=-eq-ok (check_signer expected treasury (key, weight)) _ e in
    (
      ((λ own. ground (arith, first, own)), (λ other heavy. ground (arith, first, other, heavy))),
      check_signers-InOrder expected treasury signers rest,
    )

configured_weight-inv :
    (account : AccountSnapshot) (keys : List Text) {total : ℕ}
    → configured_weight account keys ≡ ok total
    → (total ≡ weight_of_keys account keys) × All (λ key. 0 < on_chain_weight account key) keys
unfolding configured_weight
configured_weight-inv account [] {total} e = (sym (ok-injective e), tt)
configured_weight-inv account (key ∷ keys) {total} e =
    let (_, heavy, e1) =
      >>=-eq-ok (throw_if (on_chain_weight account key == 0) stale_treasury_policy) _ e in
    let (rest, others, e2) = >>=-eq-ok (configured_weight account keys) _ e1 in
    let (same, h) = configured_weight-inv account keys others in
    (
      sym (ok-injective e2) ∙ ap (λ n. on_chain_weight account key + n) same,
      (ground (arith, heavy), h),
    )

-- An account that passes the policy of a group has the group's threshold, which is at least one; of
-- its signers only members of the group have weight, never the account's own key; and every member
-- with a key has weight, all of them together enough for the threshold.
pub assert_treasury_policy_lem :
    (members : List (Option Text)) (treasury : Text) (required_signers : ℕ)
    (snapshot : AccountSnapshot)
    → assert_treasury_policy members treasury required_signers snapshot ≡ ok tt
    → (1 ≤ required_signers)
      × (snapshot.thresholds.high ≡ required_signers)
      × All (InOrder (key_set [] members) treasury) snapshot.signers
      × All (λ key. 0 < on_chain_weight snapshot key) (key_set [] members)
      × (required_signers ≤ weight_of_keys snapshot (key_set [] members))
unfolding assert_treasury_policy
assert_treasury_policy_lem members treasury required_signers snapshot e =
    let expected = key_set [] members in
    let (_, _, e1) =
      >>=-eq-ok (throw_if (not snapshot.exists) SignerPolicyError.treasury_unfunded) _ e in
    let (_, least, e2) =
      >>=-eq-ok (throw_if (ltb required_signers 1) invalid_treasury_policy) _ e1 in
    let (_, current, e3) =
      >>=-eq-ok
        (throw_if (not (snapshot.thresholds.high == required_signers)) stale_treasury_policy) _
        e2 in
    let (_, _, e4) = >>=-eq-ok (throw_if (is_empty expected) invalid_treasury_policy) _ e3 in
    let (_, checked, e5) = >>=-eq-ok (check_signers expected treasury snapshot.signers) _ e4 in
    let (total, weighed, enough) = >>=-eq-ok (configured_weight snapshot expected) _ e5 in
    let (same, heavy) = configured_weight-inv snapshot expected weighed in
    let high : snapshot.thresholds.high ≡ required_signers = ground (arith, current) in
    (
      ground (arith, least),
      high,
      check_signers-InOrder expected treasury snapshot.signers checked,
      heavy,
      ground (arith, enough, same, high),
    )

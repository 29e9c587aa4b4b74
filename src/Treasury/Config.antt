-- ===== src/Treasury/Config.antt =====
-- src/services/treasury-validation.ts: proposed signer configurations. The check of a key's format
-- is a parameter; an error keeps what its message names. Weights and thresholds are integers.
use mergepay_api.Common.{
  >>=-eq-ok, All, Bool, Bool-cases, List, Option, Result, Text, [], any, arith, eq_of_parts, eqb_ℤ,
  false, if◌then◌else◌, inl, inr, is_empty, ltb_ℤ, none, not, ok, pos, refl, some, subst, sym,
  text_eq, text_eq_iff, throw_if, true, ℕ, ℤ, ◌&&◌, ◌++◌, ◌+ℤ◌, ◌>>◌, ◌||◌, ◌∙◌, ◌∷◌, ◌≡◌, ◌≤ℤ◌,
}
use mergepay_api.Treasury.Store.{AccountSnapshot}

pub record SignerChange : Type 0 where
  pub public_key : Text
  pub weight : ℤ

pub record ProposedSignerConfig : Type 0 where
  pub signers : List SignerChange
  pub low : ℤ
  pub med : ℤ
  pub high : ℤ

pub data ConfigError : Type 0 where
  invalid_weight unknown_signer invalid_key : Text → ConfigError
  duplicate_keys invalid_low invalid_med invalid_high : ConfigError
  low_above_med med_above_high insufficient_weights : ConfigError

pub data SignerChangeError : Type 0 where
  account_unfunded threshold_mismatch : SignerChangeError
  invalid_signer_config : List ConfigError → SignerChangeError

-- An integer from 0 to 255, for weights and for thresholds.
unfoldable pub is_valid_byte : ℤ → Bool
is_valid_byte n = not (ltb_ℤ n (pos 0)) && not (ltb_ℤ (pos 255) n)

unfoldable pub has_duplicate_signers : List Text → List SignerChange → Bool
has_duplicate_signers keys [] = false
has_duplicate_signers keys (s ∷ signers) =
    any (text_eq s.public_key) keys || has_duplicate_signers (s.public_key ∷ keys) signers

abbrev pub weight_total : List SignerChange → ℤ
weight_total [] = pos 0
weight_total (s ∷ signers) = s.weight +ℤ weight_total signers

unfoldable pub can_satisfy_threshold : ProposedSignerConfig → Bool
can_satisfy_threshold config = not (ltb_ℤ (weight_total config.signers) config.high)

abbrev pub error_if : Bool → ConfigError → List ConfigError
error_if b e = if b then e ∷ [] else []

abbrev pub errors_of :
    (SignerChange → Bool) → (Text → ConfigError) → List SignerChange → List ConfigError
errors_of fine error [] = []
errors_of fine error (s ∷ signers) =
    error_if (not (fine s)) (error s.public_key) ++ errors_of fine error signers

abbrev pub is_current : AccountSnapshot → SignerChange → Bool
is_current snapshot s = any (λ (k : Text × ℕ). text_eq s.public_key k.0) snapshot.signers

-- The walk over the Set of the proposed keys: a key that was there before is not asked for again.
unfoldable pub unknown_signers : AccountSnapshot → List Text → List SignerChange → List ConfigError
unknown_signers snapshot seen [] = []
unknown_signers snapshot seen (s ∷ signers) =
    error_if (not (any (text_eq s.public_key) seen) && not (is_current snapshot s))
      (unknown_signer s.public_key)
    ++ unknown_signers snapshot (s.public_key ∷ seen) signers

unfoldable pub key_errors :
    (Text → Bool) → List SignerChange → Option AccountSnapshot → List ConfigError
key_errors is_key signers none =
    errors_of (λ (s : SignerChange). is_key s.public_key) invalid_key signers
key_errors is_key signers (some snapshot) =
    if snapshot.exists
    then unknown_signers snapshot [] signers
      ++ errors_of (λ (s : SignerChange). is_current snapshot s || is_key s.public_key) invalid_key
          signers
    else errors_of (λ (s : SignerChange). is_key s.public_key) invalid_key signers

-- The errors; the configuration is valid if there are none.
unfoldable pub validate_proposed_signer_config :
    (Text → Bool) → ProposedSignerConfig → Option AccountSnapshot → List ConfigError
validate_proposed_signer_config is_key config snapshot =
    errors_of (λ (s : SignerChange). is_valid_byte s.weight) invalid_weight config.signers
    ++ error_if (has_duplicate_signers [] config.signers) duplicate_keys
    ++ error_if (not (is_valid_byte config.low)) invalid_low
    ++ error_if (not (is_valid_byte config.med)) invalid_med
    ++ error_if (not (is_valid_byte config.high)) invalid_high
    ++ error_if (ltb_ℤ config.med config.low) low_above_med
    ++ error_if (ltb_ℤ config.high config.med) med_above_high
    ++ error_if (not (can_satisfy_threshold config)) insufficient_weights
    ++ key_errors is_key config.signers snapshot

unfoldable pub validate_signer_change_against_account :
    (Text → Bool) → ProposedSignerConfig → AccountSnapshot → Result SignerChangeError (Unit {0})
validate_signer_change_against_account is_key config snapshot = do
  let errors = validate_proposed_signer_config is_key config (some snapshot)
  throw_if (not snapshot.exists) account_unfunded
  throw_if (not (is_empty errors)) (invalid_signer_config errors)
  throw_if (not (eqb_ℤ config.high (pos snapshot.thresholds.high))) threshold_mismatch

append_eq_nil : (xs ys : List ConfigError) → xs ++ ys ≡ [] → (xs ≡ []) × (ys ≡ [])
append_eq_nil [] ys e = (refl, e)
append_eq_nil (x ∷ xs) ys e = cc e

error_if-nil : (b : Bool) (e : ConfigError) → error_if b e ≡ [] → b ≡ false
error_if-nil true e h = cc h
error_if-nil false e h = refl

errors_of-nil :
    (fine : SignerChange → Bool) (error : Text → ConfigError) (signers : List SignerChange)
    → errors_of fine error signers ≡ []
    → All (λ s. fine s ≡ true) signers
errors_of-nil fine error [] e = tt
errors_of-nil fine error (s ∷ signers) e =
    let (first, rest) =
      append_eq_nil (error_if (not (fine s)) (error s.public_key)) (errors_of fine error signers)
        e in
    (
      ground (arith, error_if-nil (not (fine s)) (error s.public_key) first),
      errors_of-nil fine error signers rest,
    )

-- What Stellar asks of a configuration.
abbrev pub WellFormed : ProposedSignerConfig → Type 0
WellFormed config =
    All (λ (s : SignerChange). is_valid_byte s.weight ≡ true) config.signers
    × (has_duplicate_signers [] config.signers ≡ false)
    × ((pos 0 ≤ℤ config.low) × (config.low ≤ℤ config.med) × (config.med ≤ℤ config.high))
    × (config.high ≤ℤ pos 255)
    × (config.high ≤ℤ weight_total config.signers)

no_errors-WellFormed :
    (is_key : Text → Bool) (config : ProposedSignerConfig) (snapshot : Option AccountSnapshot)
    → validate_proposed_signer_config is_key config snapshot ≡ []
    → WellFormed config × (key_errors is_key config.signers snapshot ≡ [])
unfolding validate_proposed_signer_config is_valid_byte can_satisfy_threshold
no_errors-WellFormed is_key config snapshot e =
    let (e1, keys) = append_eq_nil _ _ e in
    let (e2, satisfied) = append_eq_nil _ _ e1 in
    let (e3, med_high) = append_eq_nil _ _ e2 in
    let (e4, low_med) = append_eq_nil _ _ e3 in
    let (e5, high) = append_eq_nil _ _ e4 in
    let (e6, med) = append_eq_nil _ _ e5 in
    let (e7, low) = append_eq_nil _ _ e6 in
    let (weights, distinct) = append_eq_nil _ _ e7 in
    let low' = error_if-nil (not (is_valid_byte config.low)) invalid_low low in
    let med' = error_if-nil (not (is_valid_byte config.med)) invalid_med med in
    let high' = error_if-nil (not (is_valid_byte config.high)) invalid_high high in
    let low_med' = error_if-nil (ltb_ℤ config.med config.low) low_above_med low_med in
    let med_high' = error_if-nil (ltb_ℤ config.high config.med) med_above_high med_high in
    let satisfied' =
      error_if-nil (not (can_satisfy_threshold config)) insufficient_weights satisfied in
    (
      (
        errors_of-nil (λ (s : SignerChange). is_valid_byte s.weight) invalid_weight config.signers
            weights,
        error_if-nil (has_duplicate_signers [] config.signers) duplicate_keys distinct,
        (ground (arith, low'), ground (arith, low_med'), ground (arith, med_high')),
        ground (arith, high'),
        ground (arith, satisfied'),
      ),
      keys,
    )

unknown_signers-nil :
    (snapshot : AccountSnapshot) (seen : List Text) (signers : List SignerChange)
    → ((t : SignerChange) → any (text_eq t.public_key) seen ≡ true → is_current snapshot t ≡ true)
    → unknown_signers snapshot seen signers ≡ []
    → All (λ (s : SignerChange). is_current snapshot s ≡ true) signers
unfolding unknown_signers
unknown_signers-nil snapshot seen [] known e = tt
unknown_signers-nil snapshot seen (s ∷ signers) known e =
    let missing = not (any (text_eq s.public_key) seen) && not (is_current snapshot s) in
    let (first, rest) =
      append_eq_nil (error_if missing (unknown_signer s.public_key))
        (unknown_signers snapshot (s.public_key ∷ seen) signers) e in
    let current : is_current snapshot s ≡ true =
      ground (arith, error_if-nil missing (unknown_signer s.public_key) first, known s) in
    (
      current,
      unknown_signers-nil snapshot (s.public_key ∷ seen) signers
          (λ t h. elim (Bool-cases (text_eq t.public_key s.public_key)) [
            | inl same ↦
                subst (λ key. any (λ (k : Text × ℕ). text_eq key k.0) snapshot.signers ≡ true)
                  (sym ((text_eq_iff t.public_key s.public_key).0 same)) current
            | inr other ↦ known t (ground (arith, h, other))
          ])
          rest,
    )

current_signers :
    (is_key : Text → Bool) (signers : List SignerChange) (snapshot : AccountSnapshot)
    → snapshot.exists ≡ true
    → key_errors is_key signers (some snapshot) ≡ []
    → All (λ (s : SignerChange). is_current snapshot s ≡ true) signers
unfolding key_errors
current_signers is_key signers snapshot live e =
    let missing = unknown_signers snapshot [] signers in
    let malformed =
      errors_of (λ (s : SignerChange). is_current snapshot s || is_key s.public_key) invalid_key
        signers in
    let opened : key_errors is_key signers (some snapshot) ≡ missing ++ malformed = rw live refl in
    let (none_missing, _) = append_eq_nil missing malformed (sym opened ∙ e) in
    unknown_signers-nil snapshot [] signers (λ t e. cc e) none_missing

is_empty-nil : (xs : List ConfigError) → is_empty xs ≡ true → xs ≡ []
is_empty-nil [] e = refl
is_empty-nil (x ∷ xs) e = cc e

-- A change of signers that is let through is of an account that exists, keeps its high threshold,
-- names only signers that it has, none of them twice, and is a configuration that Stellar takes:
-- weights and thresholds from 0 to 255, the thresholds in order, and the weights enough for the high
-- one.
pub validate_signer_change_against_account_lem :
    (is_key : Text → Bool) (config : ProposedSignerConfig) (snapshot : AccountSnapshot)
    → validate_signer_change_against_account is_key config snapshot ≡ ok tt
    → WellFormed config
      × All (λ (s : SignerChange). is_current snapshot s ≡ true) config.signers
      × (snapshot.exists ≡ true)
      × (config.high ≡ pos snapshot.thresholds.high)
unfolding validate_signer_change_against_account
validate_signer_change_against_account_lem is_key config snapshot e =
    let errors = validate_proposed_signer_config is_key config (some snapshot) in
    let (_, live, e1) = >>=-eq-ok (throw_if (not snapshot.exists) account_unfunded) _ e in
    let (_, valid, same) =
      >>=-eq-ok (throw_if (not (is_empty errors)) (invalid_signer_config errors)) _ e1 in
    let exists : snapshot.exists ≡ true = ground (arith, live) in
    let (formed, keys) =
      no_errors-WellFormed is_key config (some snapshot)
        (is_empty-nil errors (ground (arith, valid))) in
    (
      formed,
      current_signers is_key config.signers snapshot exists keys,
      exists,
      ground (arith, same, eq_of_parts config.high (pos snapshot.thresholds.high)),
    )

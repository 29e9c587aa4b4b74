-- ===== src/Treasury/Policy.antt =====
-- What an envelope is that passes the policy, and what it pays at most.
use mergepay_api.Common.{
  >>=-eq-ok, All, List, Option, Text, [], ap, arith, codes, false, length, ltb, none, not, ok,
  ok-injective, refl, some, text_eq, text_eq_iff, text_eq_refl, throw_if, true, ℕ, ◌*◌, ◌+◌, ◌<◌,
  ◌==◌, ◌∙◌, ◌∷◌, ◌≡◌, ◌≤◌, ◌⊎◌,
}
use mergepay_api.Treasury.Envelope.{
  Envelope, Sdk, TreasuryEnvelopePolicy, TreasuryOperation, assert_treasury_envelope_policy,
  check_fee, check_operation, check_operations, is_foreign_source, is_valid_amount,
  max_treasury_operations, of_window, operation_source_rule, operations_rule, or_else, pays_amount,
  policy_rejected, source_rule,
}
use mergepay_api.Status.Window.{
  TimeBounds, assert_time_bounds_match_intent, clock_skew_tolerance_seconds, now_seconds,
}

-- An operation that moves the treasury's funds only, by a valid amount, to a valid account.
abbrev pub Reviewable : Sdk → Text → TreasuryOperation → Type 0
Reviewable sdk treasury o =
    ((s : Text) → o.source ≡ some s → (s ≡ []) ⊎ (s ≡ treasury))
    × (o.type ≡ some (codes "payment") → is_valid_amount (or_else o.amount []) ≡ true)
    × (o.type ≡ some (codes "payment")
        → (sdk.is_ed25519_key (or_else o.destination []) ≡ true)
          ⊎ (sdk.is_med25519_key (or_else o.destination []) ≡ true))

-- A window that ends, has not lapsed and has begun, by the tolerance of the clock.
abbrev pub CurrentWindow : ℕ → TimeBounds → Type 0
CurrentWindow now b =
    (0 < b.max_time)
    × (now_seconds now ≤ b.max_time + clock_skew_tolerance_seconds)
    × (b.min_time ≤ now_seconds now + clock_skew_tolerance_seconds)

is_foreign_source-eq-false :
    (treasury : Text) (o : Option Text)
    → is_foreign_source treasury o ≡ false
    → (s : Text) → o ≡ some s
    → (s ≡ []) ⊎ (s ≡ treasury)
is_foreign_source-eq-false treasury none e s h = cc h
is_foreign_source-eq-false treasury (some []) e s h = ground arith
is_foreign_source-eq-false treasury (some (c ∷ t)) e s h =
    ground (arith, text_eq_iff (c ∷ t) treasury)

pays_payment :
    (type : Option Text) → type ≡ some (codes "payment") → pays_amount (or_else type []) ≡ true
pays_payment type e = rw e (text_eq_refl (codes "payment"))

check_operation-Reviewable :
    (sdk : Sdk) (treasury : Text) (o : TreasuryOperation)
    → check_operation sdk treasury o ≡ ok tt
    → Reviewable sdk treasury o
unfolding check_operation
check_operation-Reviewable sdk treasury o e =
    let (_, own, e1) =
      >>=-eq-ok
        (throw_if (is_foreign_source treasury o.source) (policy_rejected operation_source_rule)) _
        e in
    (
      is_foreign_source-eq-false treasury o.source (ground (arith, own)),
      λ p. ground (arith, pays_payment o.type p),
      λ p. ground (arith, pays_payment o.type p),
    )

check_operations-Reviewable :
    (sdk : Sdk) (treasury : Text) (os : List TreasuryOperation)
    → check_operations sdk treasury os ≡ ok tt
    → All (Reviewable sdk treasury) os
unfolding check_operations
check_operations-Reviewable sdk treasury [] e = tt
check_operations-Reviewable sdk treasury (o ∷ os) e =
    let (_, first, rest) = >>=-eq-ok (check_operation sdk treasury o) _ e in
    (
      check_operation-Reviewable sdk treasury o first,
      check_operations-Reviewable sdk treasury os rest,
    )

current_of_accepted :
    (b : Option TimeBounds) (now : ℕ)
    → of_window (assert_time_bounds_match_intent b none now) ≡ ok tt
    → (w : TimeBounds) × (b ≡ some w) × CurrentWindow now w
unfolding assert_time_bounds_match_intent
current_of_accepted none now e = cc e
current_of_accepted (some b) now e = (b, refl, ground arith)

check_fee-inv :
    (lowest highest : ℕ) (o : Option ℕ) (fee : ℕ)
    → check_fee lowest highest o ≡ ok fee
    → (o ≡ some fee) × (lowest ≤ fee) × (fee ≤ highest)
unfolding check_fee
check_fee-inv lowest highest none fee e = cc e
check_fee-inv lowest highest (some f) fee e = ground arith

-- An envelope that the policy accepts spends from the treasury alone, in at least one operation
-- and no more than the policy allows; its payments have valid amounts and destinations, its fee is
-- within the band for its operations, and it has time bounds that end, that have begun at the time
-- and that have not lapsed then, both by a tolerance of 30 seconds.
pub accepted_envelope_lem :
    (sdk : Sdk) (policy : TreasuryEnvelopePolicy) (now : ℕ) (tx : Envelope) (types : List Text)
    (fee : ℕ)
    → assert_treasury_envelope_policy sdk policy now tx ≡ ok (types, fee)
    → (tx.source ≡ policy.treasury_account_public_key)
      × (1 ≤ length tx.operations)
      × (length tx.operations ≤ or_else policy.max_operations max_treasury_operations)
      × All (Reviewable sdk policy.treasury_account_public_key) tx.operations
      × ((tx.fee ≡ some fee)
          × (sdk.base_fee * length tx.operations ≤ fee)
          × (fee ≤ or_else policy.max_fee_stroops (sdk.base_fee * 2 * length tx.operations)))
      × ((w : TimeBounds) × (tx.time_bounds ≡ some w) × CurrentWindow now w)
unfolding assert_treasury_envelope_policy
accepted_envelope_lem sdk policy now tx types fee e =
    let treasury = policy.treasury_account_public_key in
    let count = length tx.operations in
    let (_, source, e1) =
      >>=-eq-ok (throw_if (not (text_eq tx.source treasury)) (policy_rejected source_rule)) _ e in
    let (_, some_operation, e2) =
      >>=-eq-ok (throw_if (count == 0) (policy_rejected operations_rule)) _ e1 in
    let (_, few, e3) =
      >>=-eq-ok
        (throw_if (ltb (or_else policy.max_operations max_treasury_operations) count)
          (policy_rejected operations_rule))
        _ e2 in
    let (_, reviewed, e4) = >>=-eq-ok (check_operations sdk treasury tx.operations) _ e3 in
    let (paid, within, e5) =
      >>=-eq-ok
        (check_fee (sdk.base_fee * count)
          (or_else policy.max_fee_stroops (sdk.base_fee * 2 * count)) tx.fee)
        _ e4 in
    let (_, current, e6) =
      >>=-eq-ok (of_window (assert_time_bounds_match_intent tx.time_bounds none now)) _ e5 in
    let same : paid ≡ fee = ap (λ x. x.1) (ok-injective e6) in
    (
      ground (arith, source, text_eq_iff tx.source treasury),
      ground (arith, some_operation),
      ground (arith, few),
      check_operations-Reviewable sdk treasury tx.operations reviewed,
      check_fee-inv (sdk.base_fee * count)
          (or_else policy.max_fee_stroops (sdk.base_fee * 2 * count)) tx.fee fee
          (within ∙ ap ok same),
      current_of_accepted tx.time_bounds now current,
    )

-- ===== src/Status/Window.antt =====
-- src/lib/time-bounds.ts: the signing window of a request, in milliseconds and whole seconds.
use mergepay_api.Common.{
  Bool, Option, Result, arith, err, false, ltb, max, min, none, ok, pos, some, throw_if, ℕ, ℤ, ◌*◌,
  ◌+◌, ◌-ℤ◌, ◌/◌, ◌<◌, ◌==◌, ◌>>◌, ◌↔◌, ◌≡◌, ◌≤◌,
}

abbrev pub clock_skew_tolerance_seconds : ℕ
clock_skew_tolerance_seconds = 30

abbrev pub intent_validity_seconds : ℕ
intent_validity_seconds = 300

abbrev pub min_intent_validity_seconds : ℕ
min_intent_validity_seconds = 30

pub record TimeBounds : Type 0 where
  pub min_time : ℕ
  pub max_time : ℕ

pub data WindowError : Type 0 where
  intent_expired xdr_mismatch : WindowError

abbrev pub now_seconds : ℕ → ℕ
now_seconds now = now / 1000

-- The expiry and the validity in seconds, of a requested validity.
unfoldable pub intent_expiry : ℕ → ℕ → ℕ × ℕ
intent_expiry requested now =
    let validity = min (max requested min_intent_validity_seconds) intent_validity_seconds in
    (now + validity * 1000, validity)

unfoldable pub is_intent_expired : Option ℕ → ℕ → Bool
is_intent_expired none now = false
is_intent_expired (some expires_at) now =
    ltb (now_seconds expires_at + clock_skew_tolerance_seconds) (now_seconds now)

abbrev pub seconds_until_expiry : ℕ → ℕ → ℤ
seconds_until_expiry expires_at now = pos (now_seconds expires_at) -ℤ pos (now_seconds now)

unfoldable pub assert_intent_not_expired : Option ℕ → ℕ → Result WindowError (Unit {0})
assert_intent_not_expired expires_at now =
    throw_if (is_intent_expired expires_at now) intent_expired

abbrev pub outlives_intent : TimeBounds → Option ℕ → Bool
outlives_intent bounds none = false
outlives_intent bounds (some expires_at) =
    ltb (now_seconds expires_at + clock_skew_tolerance_seconds) bounds.max_time

unfoldable pub assert_time_bounds_match_intent :
    Option TimeBounds → Option ℕ → ℕ → Result WindowError (Unit {0})
assert_time_bounds_match_intent none expires_at now = err xdr_mismatch
assert_time_bounds_match_intent (some bounds) expires_at now = do
  throw_if (bounds.max_time == 0) xdr_mismatch
  throw_if (outlives_intent bounds expires_at) xdr_mismatch
  throw_if (ltb (bounds.max_time + clock_skew_tolerance_seconds) (now_seconds now)) intent_expired
  throw_if (ltb (now_seconds now + clock_skew_tolerance_seconds) bounds.min_time) xdr_mismatch

-- A transaction whose time bounds end with the request it was built for is accepted exactly where
-- that request has not expired and the bounds have begun, by the tolerance, whatever the clock.
pub intent_bounds_iff :
    (begins expires_at now : ℕ)
    → 0 < now_seconds expires_at
    → (assert_time_bounds_match_intent
          (some (record { min_time = begins; max_time = now_seconds expires_at }))
          (some expires_at)
          now
        ≡ ok tt)
      ↔ ((is_intent_expired (some expires_at) now ≡ false)
          × (begins ≤ now_seconds now + clock_skew_tolerance_seconds))
unfolding assert_time_bounds_match_intent is_intent_expired
intent_bounds_iff begins expires_at now h = ground arith

intent_expiry-seconds :
    (requested now : ℕ)
    → now_seconds (intent_expiry requested now).0
      ≡ now_seconds now + (intent_expiry requested now).1
unfolding intent_expiry
intent_expiry-seconds requested now = omega arith

intent_expiry-bounds :
    (requested now : ℕ)
    → (min_intent_validity_seconds ≤ (intent_expiry requested now).1)
      × ((intent_expiry requested now).1 ≤ intent_validity_seconds)
unfolding intent_expiry
intent_expiry-bounds requested now = omega arith

-- Whatever validity a client asks for, a transaction with the window of the request, from any time
-- that is not after the request to the expiry that the request is given, is accepted from then on
-- for the validity and 30 seconds, and never later; the validity is from 30 to 300 seconds.
pub intent_window_iff :
    (requested begins now later : ℕ)
    → begins ≤ now_seconds now
    → now ≤ later
    → let expiry : ℕ × ℕ = intent_expiry requested now in
      ((assert_time_bounds_match_intent
            (some (record { min_time = begins; max_time = now_seconds expiry.0 }))
            (some expiry.0)
            later
          ≡ ok tt)
        ↔ (now_seconds later ≤ now_seconds now + expiry.1 + clock_skew_tolerance_seconds))
      × (min_intent_validity_seconds ≤ expiry.1)
      × (expiry.1 ≤ intent_validity_seconds)
unfolding is_intent_expired
intent_window_iff requested begins now later begun after =
    let (e, v) = intent_expiry requested now in
    let ends : now_seconds e ≡ now_seconds now + v = intent_expiry-seconds requested now in
    let (least, most) = intent_expiry-bounds requested now in
    let ordered : now_seconds now ≤ now_seconds later = omega arith in
    let accepted = intent_bounds_iff begins e later (omega arith) in
    (ground (arith, accepted), least, most)

-- ===== src/Status/Tests.antt =====
-- Signing windows and polled statuses on concrete rows.
use mergepay_api.Machine.Status
use mergepay_api.Machine.Status.{SettlementStatus, is_terminal_settlement_status}
use mergepay_api.Status.Public.{
  confirmed, answered, nothing, SettlementStatusInput, awaiting_signature, category_of,
  is_terminal_status, look_up, lookup_on_chain, reason_of, resolve_settlement_status,
  to_failure_info, to_public_status,
}
use mergepay_api.Status.Window.{
  TimeBounds, assert_time_bounds_match_intent, clock_skew_tolerance_seconds, intent_bounds_iff,
  is_intent_expired, now_seconds, intent_expiry, intent_validity_seconds, intent_window_iff,
  min_intent_validity_seconds,
}
use mergepay_api.Status.Truth.{confirmed_is_paid}
use mergepay_api.Common.{
  arith, codes, false, none, ok, refl, some, text_eq, true, ◌+◌, ◌↔◌, ◌≡◌, ◌≤◌, ◌⊎◌,
}

abbrev stored_row : SettlementStatus → SettlementStatusInput
stored_row status = record {
  status = status;
  stellar_tx_hash = some (codes "ab12");
  failure_reason = none;
  failure_category = some (codes "weird");
  expires_at = some 300000;
}

-- A row that is being verified reads as unsigned until the ledger answers.
verifying_reads_unsigned :
    (resolve_settlement_status (stored_row Status.verifying) 1000 nothing).status
    ≡ awaiting_signature
unfolding resolve_settlement_status to_public_status is_intent_expired look_up lookup_on_chain
    is_terminal_status
verifying_reads_unsigned = refl

failed_on_chain :
    (resolve_settlement_status (stored_row Status.submitted) 1000 (answered false)).failure
    ≡ some (record { category = codes "internal"; reason = codes "Settlement failed" })
unfolding resolve_settlement_status to_public_status is_intent_expired look_up lookup_on_chain
    is_terminal_status to_failure_info category_of reason_of text_eq
failed_on_chain = refl

paid_on_chain :
    (resolve_settlement_status (stored_row Status.submitted) 1000 (answered true)).status
    ≡ confirmed
unfolding resolve_settlement_status to_public_status is_intent_expired look_up lookup_on_chain
    is_terminal_status
paid_on_chain = refl

expired_is_terminal : is_terminal_settlement_status Status.expired ≡ true
unfolding is_terminal_settlement_status
expired_is_terminal = refl

confirmed_is_paid_example :
    ((stored_row Status.submitted).status ≡ Status.confirmed) ⊎ (answered true ≡ answered true)
confirmed_is_paid_example =
    confirmed_is_paid (stored_row Status.submitted) 1000 (answered true) paid_on_chain

abbrev five_minutes : TimeBounds
five_minutes = record { min_time = 0; max_time = 300 }

five_minutes_accepted :
    assert_time_bounds_match_intent (some five_minutes) (some 300000) 1000 ≡ ok tt
unfolding assert_time_bounds_match_intent
five_minutes_accepted = refl

intent_bounds_iff_example :
    (assert_time_bounds_match_intent
        (some (record { min_time = 100; max_time = now_seconds 300000 }))
        (some 300000)
        200000
      ≡ ok tt)
    ↔ ((is_intent_expired (some 300000) 200000 ≡ false)
        × (100 ≤ now_seconds 200000 + clock_skew_tolerance_seconds))
intent_bounds_iff_example = intent_bounds_iff 100 300000 200000 (ground arith)

intent_window_iff_example :
    ((assert_time_bounds_match_intent
          (some (record { min_time = 5; max_time = now_seconds (intent_expiry 60 10000).0 }))
          (some (intent_expiry 60 10000).0)
          70000
        ≡ ok tt)
      ↔ (now_seconds 70000
          ≤ now_seconds 10000 + (intent_expiry 60 10000).1 + clock_skew_tolerance_seconds))
    × (min_intent_validity_seconds ≤ (intent_expiry 60 10000).1)
    × ((intent_expiry 60 10000).1 ≤ intent_validity_seconds)
intent_window_iff_example = intent_window_iff 60 5 10000 70000 (ground arith) (ground arith)

-- ===== src/Status/Truth.antt =====
-- What a polled status says of the payment.
use mergepay_api.Machine.Status
use mergepay_api.Machine.Status.{is_terminal_settlement_status}
use mergepay_api.Status.Public.{
  confirmed, failed, answered, Lookup, SettlementStatusInput, is_terminal_status, look_up,
  lookup_on_chain, resolve_settlement_status, to_failure_info, to_public_status,
}
use mergepay_api.Common.{arith, false, is_some, true, ℕ, ◌↔◌, ◌≡◌, ◌⊎◌}

-- A settlement is reported confirmed only if its row says so or the ledger has a successful record
-- of the transaction.
pub confirmed_is_paid :
    (s : SettlementStatusInput) (now : ℕ) (lookup : Lookup)
    → (resolve_settlement_status s now lookup).status ≡ confirmed
    → (s.status ≡ Status.confirmed) ⊎ (lookup ≡ answered true)
unfolding resolve_settlement_status to_public_status look_up lookup_on_chain is_terminal_status
confirmed_is_paid s now lookup e = ground arith

-- A row that is confirmed, failed or expired is answered with one status at all times, without a
-- lookup.
pub terminal_row_is_final :
    (s : SettlementStatusInput) (now now' : ℕ) (lookup lookup' : Lookup)
    → is_terminal_settlement_status s.status ≡ true
    → ((resolve_settlement_status s now lookup).status
        ≡ (resolve_settlement_status s now' lookup').status)
      × ((resolve_settlement_status s now lookup).on_chain.checked ≡ false)
unfolding resolve_settlement_status to_public_status look_up lookup_on_chain is_terminal_status
    is_terminal_settlement_status
terminal_row_is_final s now now' lookup lookup' e = ground arith

-- A reason is given exactly with the status failed.
pub failure_iff_failed :
    (s : SettlementStatusInput) (now : ℕ) (lookup : Lookup)
    → (is_some (resolve_settlement_status s now lookup).failure ≡ true)
      ↔ ((resolve_settlement_status s now lookup).status ≡ failed)
unfolding resolve_settlement_status to_failure_info
failure_iff_failed s now lookup = ground arith

-- ===== src/Machine/Reach.antt =====
-- The diagram of the statuses: where each can lead.
use mergepay_api.Machine.Status.{
  SettlementStatus, pending, submitted, verifying, pending_confirmation, confirmed, failed, expired,
  needs_review, can_transition_settlement_status, is_terminal_settlement_status, Transitions, here,
  step,
}
use mergepay_api.Common.{arith, false, refl, true, ◌↔◌, ◌≡◌}

-- From every status that is not terminal there is a way to `confirmed` and one to `failed`.
pub open_statuses_finish :
    (s : SettlementStatus)
    → is_terminal_settlement_status s ≡ false
    → Transitions s confirmed × Transitions s failed
unfolding is_terminal_settlement_status can_transition_settlement_status
open_statuses_finish pending h = (
  step {t = submitted} refl (step {t = verifying} refl (step {t = confirmed} refl here)),
  step {t = failed} refl here,
)
open_statuses_finish submitted h =
    (step {t = verifying} refl (step {t = confirmed} refl here), step {t = failed} refl here)
open_statuses_finish verifying h = (step {t = confirmed} refl here, step {t = failed} refl here)
open_statuses_finish pending_confirmation h =
    (step {t = confirmed} refl here, step {t = failed} refl here)
open_statuses_finish needs_review h = (step {t = confirmed} refl here, step {t = failed} refl here)
open_statuses_finish confirmed h = cc
open_statuses_finish failed h = cc
open_statuses_finish expired h = cc

-- A status that counts as terminal is exactly one with no transition out of it.
pub terminal_iff_stuck :
    (s : SettlementStatus)
    → (is_terminal_settlement_status s ≡ true)
      ↔ ((t : SettlementStatus) → can_transition_settlement_status s t ≡ false)
unfolding is_terminal_settlement_status can_transition_settlement_status
terminal_iff_stuck s = (λ h t. ground arith, stuck s)
  where
    stuck :
        (s : SettlementStatus)
        → ((t : SettlementStatus) → can_transition_settlement_status s t ≡ false)
        → is_terminal_settlement_status s ≡ true
    stuck pending h = cc (h failed)
    stuck submitted h = cc (h failed)
    stuck verifying h = cc (h failed)
    stuck pending_confirmation h = cc (h failed)
    stuck needs_review h = cc (h failed)
    stuck confirmed h = refl
    stuck failed h = refl
    stuck expired h = refl

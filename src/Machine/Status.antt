-- ===== src/Machine/Status.antt =====
-- The statuses of a settlement and the transitions between them.
use mergepay_api.Common.{Bool, List, [], any, false, true, ◌||◌, ◌∷◌, ◌≡◌}

pub data SettlementStatus : Type 0 where
  pending submitted verifying pending_confirmation : SettlementStatus
  confirmed failed expired needs_review : SettlementStatus

-- ALLOWED_TRANSITIONS
unfoldable pub allowed_transitions : SettlementStatus → List SettlementStatus
allowed_transitions pending = submitted ∷ failed ∷ []
allowed_transitions submitted = verifying ∷ failed ∷ []
allowed_transitions verifying = confirmed ∷ failed ∷ needs_review ∷ submitted ∷ []
allowed_transitions pending_confirmation = confirmed ∷ failed ∷ expired ∷ []
allowed_transitions confirmed = []
allowed_transitions failed = []
allowed_transitions expired = []
allowed_transitions needs_review = confirmed ∷ failed ∷ pending_confirmation ∷ expired ∷ []

pub SettlementStatus-discrete : Discrete SettlementStatus
SettlementStatus-discrete = hlevel

-- `a === b` on statuses.
unfoldable pub same_status : SettlementStatus → SettlementStatus → Bool
same_status pending pending = true
same_status submitted submitted = true
same_status verifying verifying = true
same_status pending_confirmation pending_confirmation = true
same_status confirmed confirmed = true
same_status failed failed = true
same_status expired expired = true
same_status needs_review needs_review = true
same_status _ _ = false

unfoldable pub can_transition_settlement_status : SettlementStatus → SettlementStatus → Bool
unfolding allowed_transitions same_status
can_transition_settlement_status from to = any (same_status to) (allowed_transitions from)

unfoldable pub is_terminal_settlement_status : SettlementStatus → Bool
unfolding same_status
is_terminal_settlement_status s =
    same_status s confirmed || same_status s failed || same_status s expired

unfoldable pub is_settlement_recoverable : SettlementStatus → Bool
unfolding same_status
is_settlement_recoverable s =
    same_status s pending || same_status s submitted || same_status s verifying

-- A path of allowed transitions.
pub data Transitions : SettlementStatus → SettlementStatus → Type 0 where
  here : {s : SettlementStatus} → Transitions s s
  step :
      {s t u : SettlementStatus}
      → can_transition_settlement_status s t ≡ true
      → Transitions t u
      → Transitions s u

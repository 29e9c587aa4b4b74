-- ===== src/Machine/Tests.antt =====
-- The lifecycle on a concrete store.
use mergepay_api.Machine.Status.{
  pending, verifying, confirmed, failed, SettlementStatus, Transitions,
  can_transition_settlement_status, is_terminal_settlement_status, same_status,
}
use mergepay_api.Machine.Apply.{
  worker, Params, Settlement, Store, apply_settlement_transition, settlement_completed,
  commit_transition, move_on, settle_linked_share, write_transition,
}
use mergepay_api.Machine.Apply.Safety.{
  Keeps, apply_settlement_transition-Keeps, row_of, terminal_status_absorbs,
}
use mergepay_api.Machine.Reach.{open_statuses_finish}
use mergepay_api.Common.{Text, [], codes, false, none, ok, refl, some, text_eq, true, ◌∷◌, ◌≡◌}

abbrev s1 : Text
s1 = codes "s1"

abbrev row_with : SettlementStatus → Settlement
row_with s = record {
  group_id = codes "g1";
  status = s;
  from_user_id = codes "ana";
  expense_share_id = some (codes "e1");
  retry_count = 0;
  submitted_at = none;
  confirmed_at = none;
  details = [];
}

abbrev store_with : SettlementStatus → Store
store_with s = record {
  settlements = (s1, row_with s) ∷ [];
  settled_shares = (codes "e1", false) ∷ [];
  audit_log = [];
  status_history = [];
}

abbrev confirm : Params
confirm = record {
  settlement_id = s1;
  next_status = confirmed;
  source = worker;
  extra_data = none;
  owner_user_id = none;
  settle_expense_share = true;
}

-- Another transaction fails the settlement between the read and the write: nothing is written.
race_lost :
    apply_settlement_transition (λ _. store_with failed) confirm 5 (store_with verifying)
    ≡ (ok (row_with failed, false), none, store_with failed)
unfolding apply_settlement_transition text_eq move_on same_status can_transition_settlement_status
    write_transition commit_transition settle_linked_share
race_lost = refl

verifying_confirmed :
    (apply_settlement_transition (λ db. db) confirm 5 (store_with verifying)).1
    ≡ some settlement_completed
unfolding apply_settlement_transition text_eq move_on same_status can_transition_settlement_status
    write_transition commit_transition settle_linked_share
verifying_confirmed = refl

pending_open : is_terminal_settlement_status pending ≡ false
unfolding is_terminal_settlement_status
pending_open = refl

failed_row : row_of s1 (store_with failed) ≡ some (row_with failed)
unfolding text_eq
failed_row = refl

failed_terminal : is_terminal_settlement_status failed ≡ true
unfolding is_terminal_settlement_status
failed_terminal = refl

open_statuses_finish_example : Transitions pending confirmed × Transitions pending failed
open_statuses_finish_example = open_statuses_finish pending pending_open

apply_settlement_transition-Keeps_example :
    Keeps
      (store_with verifying)
      (apply_settlement_transition (λ db. db) confirm 5 (store_with verifying)).2
apply_settlement_transition-Keeps_example =
    apply_settlement_transition-Keeps (λ db. db) confirm 5 (store_with verifying)

terminal_status_absorbs_example :
    (after : Settlement) × (row_of s1
        (apply_settlement_transition (λ _. store_with failed) confirm 5 (store_with verifying)).2
      ≡ some after)
    × (after.status ≡ failed)
terminal_status_absorbs_example =
    terminal_status_absorbs (λ _. store_with failed) confirm 5 (store_with verifying) s1
      (row_with failed) failed_row failed_terminal

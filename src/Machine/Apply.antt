-- ===== src/Machine/Apply.antt =====
-- applySettlementTransition of src/services/settlement-machine.ts, on a store that is passed along.
pub mod Safety
use mergepay_api.Machine.Status.{
  SettlementStatus, submitted, confirmed, failed, can_transition_settlement_status, same_status,
}
use mergepay_api.Common.{
  Bool, List, Option, Result, Text, [], err, false, if◌then◌else◌, map_get, map_has, map_set, none,
  not, ok, some, text_eq, throw_if, true, ℕ, ◌&&◌, ◌>>=◌, ◌>>◌, ◌∷◌,
}

pub data SettlementTransitionSource : Type 0 where
  user worker system : SettlementTransitionSource

-- The columns that the transition reads or writes. `details` are the other columns, by name, which
-- `extraData` sets beside the retry count; it carries neither the status nor its timestamps. Times
-- are milliseconds.
pub record Settlement : Type 0 where
  pub group_id : Text
  pub status : SettlementStatus
  pub from_user_id : Text
  pub expense_share_id : Option Text
  pub retry_count : ℕ
  pub submitted_at : Option ℕ
  pub confirmed_at : Option ℕ
  pub details : List (Text × Text)

pub record AuditEntry : Type 0 where
  pub actor_id : Text
  pub group_id : Text
  pub actor_type : SettlementTransitionSource
  pub resource_id : Text
  pub from : SettlementStatus
  pub to : SettlementStatus
  pub retry_count : ℕ

pub record StatusTransition : Type 0 where
  pub entity_id : Text
  pub new_status : SettlementStatus
  pub source : SettlementTransitionSource

-- The tables: settlements by id, whether an expense share is settled, and the two logs, latest
-- entry first.
pub record Store : Type 0 where
  pub settlements : List (Text × Settlement)
  pub settled_shares : List (Text × Bool)
  pub audit_log : List AuditEntry
  pub status_history : List StatusTransition

pub data AppError : Type 0 where
  not_found forbidden invalid_transition record_not_found : AppError

-- The columns that a caller sets beside the status: `retryCount`, where it gives one, and others.
pub record ExtraData : Type 0 where
  pub retry_count : Option ℕ
  pub details : List (Text × Text)

pub record Params : Type 0 where
  pub settlement_id : Text
  pub next_status : SettlementStatus
  pub source : SettlementTransitionSource
  pub extra_data : Option ExtraData
  pub owner_user_id : Option Text
  pub settle_expense_share : Bool

abbrev pub Outcome : Type 0
Outcome = Settlement × Bool × Store

unfoldable pub merge : List (Text × Text) → List (Text × Text) → List (Text × Text)
merge [] details = details
merge ((k, v) ∷ extra) details = merge extra (map_set k v details)

abbrev pub given_or : Option ℕ → ℕ → ℕ
given_or none n = n
given_or (some given) n = given

abbrev pub with_extra : Option ExtraData → Settlement → Settlement
with_extra none s = s
with_extra (some extra) s = record s {
  retry_count = given_or extra.retry_count s.retry_count;
  details = merge extra.details s.details;
}

-- `data: { ...extraData, ...timestamps, status: nextStatus }`
unfoldable pub update_row : Params → ℕ → Settlement → Settlement
update_row p now s =
    let t = with_extra p.extra_data s in
    record t {
      status = p.next_status;
      submitted_at = if same_status p.next_status submitted then some now else t.submitted_at;
      confirmed_at = if same_status p.next_status confirmed then some now else t.confirmed_at;
    }

abbrev pub put_settlement : Text → Settlement → Store → Store
put_settlement id s db = record db { settlements = map_set id s db.settlements }

-- `logActionTx` and `recordStatusTransitionInTransaction`, with the row as it was read.
abbrev pub log_transition : Params → Settlement → Store → Store
log_transition p read db =
    let entry : AuditEntry = record {
      actor_id = read.from_user_id;
      group_id = read.group_id;
      actor_type = p.source;
      resource_id = p.settlement_id;
      from = read.status;
      to = p.next_status;
      retry_count = read.retry_count;
    } in
    let change : StatusTransition = record {
      entity_id = p.settlement_id;
      new_status = p.next_status;
      source = p.source;
    } in
    record db { audit_log = entry ∷ db.audit_log; status_history = change ∷ db.status_history }

-- `expenseShare.update`, which throws where there is no such row.
abbrev pub settle_share : Text → Store → Result AppError Store
settle_share id db =
    if map_has id db.settled_shares
    then ok (record db { settled_shares = map_set id true db.settled_shares })
    else err record_not_found

-- The share is settled with a confirmation, if the caller asked for it and there is one.
unfoldable pub settle_linked_share : Params → Option Text → Store → Result AppError Store
settle_linked_share p none db = ok db
settle_linked_share p (some id) db =
    if p.settle_expense_share && same_status p.next_status confirmed
    then settle_share id db
    else ok db

-- Only the payer passes where an owner is asked for.
abbrev pub is_foreign : Option Text → Settlement → Bool
is_foreign none s = false
is_foreign (some owner) s = not (text_eq s.from_user_id owner)

-- The writes of a transition on the row as it stands.
unfoldable pub commit_transition :
    Params → ℕ → Settlement → Settlement → Store → Result AppError Outcome
commit_transition p now read row db = do
  let row' = update_row p now row
  final ←
      settle_linked_share p read.expense_share_id
        (log_transition p read (put_settlement p.settlement_id row' db))
  ok (row', true, final)

-- The conditional `updateMany` and what follows it, on the store as it is by then. The row is
-- written only if its status may still move to the next one.
unfoldable pub write_transition :
    Params → ℕ → Settlement → Store → Option Settlement → Result AppError Outcome
write_transition p now read db none = err record_not_found
write_transition p now read db (some row) =
    if can_transition_settlement_status row.status p.next_status
    then commit_transition p now read row db
    else ok (row, false, db)

-- A transition to the status that the row has: only the extra columns are written, and a row that
-- is gone by then is a throw.
unfoldable pub keep_status :
    Params → Settlement → Store → Option ExtraData → Option Settlement → Result AppError Outcome
keep_status p read db none row = ok (read, false, db)
keep_status p read db (some extra) none = err record_not_found
keep_status p read db (some extra) (some row) =
    let row' = with_extra (some extra) row in
    ok (row', false, put_settlement p.settlement_id row' db)

-- The part of the transaction after the checks of the row that was read.
unfoldable pub move_on : Params → ℕ → Settlement → Store → Result AppError Outcome
move_on p now read db =
    let row = map_get p.settlement_id db.settlements in
    if same_status p.next_status read.status
    then keep_status p read db p.extra_data row
    else if can_transition_settlement_status read.status p.next_status
    then write_transition p now read db row
    else err invalid_transition

-- The body of the transaction, on the row that was read. `others` is what other transactions
-- commit between the read and the write.
unfoldable pub execute_row :
    (Store → Store) → Params → ℕ → Store → Option Settlement → Result AppError Outcome
execute_row others p now db none = err not_found
execute_row others p now db (some read) = do
  throw_if (is_foreign p.owner_user_id read) forbidden
  move_on p now read (others db)

unfoldable pub execute : (Store → Store) → Params → ℕ → Store → Result AppError Outcome
unfolding execute_row
execute others p now db = execute_row others p now db (map_get p.settlement_id db.settlements)

pub data WebhookEventType : Type 0 where
  settlement_completed settlement_failed : WebhookEventType

-- NOTIFIED_STATUSES
abbrev pub notified_statuses : SettlementStatus → Option WebhookEventType
notified_statuses confirmed = some settlement_completed
notified_statuses failed = some settlement_failed
notified_statuses _ = none

-- The call outside a caller's transaction: a throw rolls back what the transaction wrote, and a
-- committed change to a terminal outcome is announced.
abbrev pub Reply : Type 0
Reply = Result AppError (Settlement × Bool) × Option WebhookEventType × Store

abbrev pub finish : Params → Store → Result AppError Outcome → Reply
finish p rolled_back (err e) = (err e, none, rolled_back)
finish p rolled_back (ok (row, changed, db)) =
    (ok (row, changed), (if changed then notified_statuses p.next_status else none), db)

unfoldable pub apply_settlement_transition : (Store → Store) → Params → ℕ → Store → Reply
unfolding execute
apply_settlement_transition others p now db = finish p (others db) (execute others p now db)

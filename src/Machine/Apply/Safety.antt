-- ===== src/Machine/Apply/Safety.antt =====
-- What a transition can do to the store, whatever other transactions commit meanwhile.
use mergepay_api.Machine.Status.{
  SettlementStatus, can_transition_settlement_status, same_status, is_terminal_settlement_status,
}
use mergepay_api.Machine.Apply.{
  finish, Settlement, Store, Params, AppError, execute, write_transition, keep_status, update_row,
  settle_linked_share, apply_settlement_transition, commit_transition, Outcome, execute_row,
  is_foreign, log_transition, move_on, put_settlement, with_extra, ExtraData,
}
use mergepay_api.Common.{
  Bool-cases, Option, Result, Result-cases, Text, ap, arith, eq_of_text_eq, err, false, inl, inr,
  map_get, map_get-set, none, ok, refl, some, subst, sym, text_eq, true, ℕ, ◌∙◌, ◌≡◌, ◌⊎◌,
}

-- A terminal status has no transition.
terminal_no_transition :
    (s t : SettlementStatus)
    → is_terminal_settlement_status s ≡ true
    → can_transition_settlement_status s t ≡ false
unfolding is_terminal_settlement_status can_transition_settlement_status
terminal_no_transition s t h = ground arith

-- The row of the settlement `id`.
abbrev pub row_of : Text → Store → Option Settlement
row_of id db = map_get id db.settlements

settle_linked_share-settlements :
    (p : Params) (o : Option Text) (db : Store) {db' : Store}
    → settle_linked_share p o db ≡ ok db'
    → db'.settlements ≡ db.settlements
unfolding settle_linked_share
settle_linked_share-settlements p none db e = ground arith
settle_linked_share-settlements p (some id) db e = ground arith

-- A status stays, or moves along an allowed transition.
abbrev pub Advances : SettlementStatus → SettlementStatus → Type 0
Advances s t = (s ≡ t) ⊎ (can_transition_settlement_status s t ≡ true)

-- Every settlement of the store is there afterwards, its status kept or advanced.
abbrev pub Keeps : Store → Store → Type 0
Keeps db db' =
    (id : Text) (before : Settlement)
    → row_of id db ≡ some before
    → (after : Settlement) × (row_of id db' ≡ some after) × Advances before.status after.status

refl-Keeps : (db : Store) → Keeps db db
refl-Keeps db id before h = (before, h, inl refl)

put-Keeps :
    (k : Text) (old new : Settlement) (db : Store)
    → row_of k db ≡ some old
    → Advances old.status new.status
    → Keeps db (put_settlement k new db)
put-Keeps k old new db found step id before h = elim (Bool-cases (text_eq k id)) [
  | inl same ↦ (
    new,
    map_get-set k id new db.settlements ∙ rw same,
    subst (λ (s : Settlement). Advances s.status new.status)
        (same_row id (eq_of_text_eq k id same) h) step,
  )
  | inr other ↦ (before, map_get-set k id new db.settlements ∙ rw other h, inl refl)
]
  where
    same_row :
        (id : Text) {before : Settlement} → k ≡ id → row_of id db ≡ some before → old ≡ before
    same_row id {before} e h = cc (found, e, h)

same_settlements-Keeps :
    (db db1 db2 : Store) → db2.settlements ≡ db1.settlements → Keeps db db1 → Keeps db db2
same_settlements-Keeps db db1 db2 e k id before h =
    let (after, f, a) = k id before h in (after, ap (map_get id) e ∙ f, a)

-- What a call leaves behind, if it does not throw.
abbrev Safe : Store → Result AppError Outcome → Type 0
Safe db (err e) = Unit {0}
Safe db (ok (row, changed, db')) = Keeps db db'

commit-Safe :
    (p : Params) (now : ℕ) (read row : Settlement) (db : Store)
    → row_of p.settlement_id db ≡ some row
    → can_transition_settlement_status row.status p.next_status ≡ true
    → Safe db (commit_transition p now read row db)
unfolding commit_transition
commit-Safe p now read row db found allowed =
    let row' = update_row p now row in
    let put = put_settlement p.settlement_id row' db in
    let logged = log_transition p read put in
    elim (Result-cases (settle_linked_share p read.expense_share_id logged)) [
      | inl (final, e) ↦ rw e (
          same_settlements-Keeps db put final
            (settle_linked_share-settlements p read.expense_share_id logged e)
            (put-Keeps p.settlement_id row row' db found (inr (unfold update_row in allowed))))
      | inr (x, e) ↦ rw e tt
    ]

write-Safe :
    (p : Params) (now : ℕ) (read : Settlement) (db : Store) (o : Option Settlement)
    → row_of p.settlement_id db ≡ o
    → Safe db (write_transition p now read db o)
unfolding write_transition
write-Safe p now read db none found = tt
write-Safe p now read db (some row) found =
    elim (Bool-cases (can_transition_settlement_status row.status p.next_status)) [
      | inl allowed ↦ rw allowed (commit-Safe p now read row db found allowed)
      | inr refused ↦ rw refused (refl-Keeps db)
    ]

keep-Safe :
    (p : Params) (read : Settlement) (db : Store) (x : Option ExtraData) (o : Option Settlement)
    → row_of p.settlement_id db ≡ o
    → Safe db (keep_status p read db x o)
unfolding keep_status
keep-Safe p read db none none found = refl-Keeps db
keep-Safe p read db none (some row) found = refl-Keeps db
keep-Safe p read db (some extra) none found = tt
keep-Safe p read db (some extra) (some row) found =
    put-Keeps p.settlement_id row (with_extra (some extra) row) db found (inl refl)

move_on-Safe :
    (p : Params) (now : ℕ) (read : Settlement) (db : Store) → Safe db (move_on p now read db)
unfolding move_on
move_on-Safe p now read db =
    let row = map_get p.settlement_id db.settlements in
    elim (Bool-cases (same_status p.next_status read.status)) [
      | inl same ↦ rw same (keep-Safe p read db p.extra_data row refl)
      | inr other ↦ elim (Bool-cases (can_transition_settlement_status read.status p.next_status)) [
        | inl allowed ↦ rw (other, allowed) (write-Safe p now read db row refl)
        | inr refused ↦ rw (other, refused) tt
      ]
    ]

execute_row-Safe :
    (others : Store → Store) (p : Params) (now : ℕ) (db : Store) (o : Option Settlement)
    → Safe (others db) (execute_row others p now db o)
unfolding execute_row
execute_row-Safe others p now db none = tt
execute_row-Safe others p now db (some read) = elim (Bool-cases (is_foreign p.owner_user_id read)) [
  | inl foreign ↦ rw foreign tt
  | inr owner ↦ rw owner (move_on-Safe p now read (others db))
]

finish-Keeps :
    (p : Params) (db : Store) (r : Result AppError Outcome) → Safe db r → Keeps db (finish p db r).2
finish-Keeps p db (err e) h = refl-Keeps db
finish-Keeps p db (ok (row, changed, db')) h = h

-- Whatever other transactions commit between the read and the write, and whether the call throws
-- or not, it loses no settlement, and each settlement keeps its status or moves along an allowed
-- transition from the status that the others left.
pub apply_settlement_transition-Keeps :
    (others : Store → Store) (p : Params) (now : ℕ) (db : Store)
    → Keeps (others db) (apply_settlement_transition others p now db).2
unfolding apply_settlement_transition execute
apply_settlement_transition-Keeps others p now db =
    finish-Keeps p (others db)
      (execute_row others p now db (map_get p.settlement_id db.settlements))
      (execute_row-Safe others p now db (map_get p.settlement_id db.settlements))

-- A settlement that is confirmed, failed or expired keeps that status under every call.
pub terminal_status_absorbs :
    (others : Store → Store) (p : Params) (now : ℕ) (db : Store) (id : Text) (before : Settlement)
    → row_of id (others db) ≡ some before
    → is_terminal_settlement_status before.status ≡ true
    → (after : Settlement) × (row_of id (apply_settlement_transition others p now db).2
        ≡ some after)
      × (after.status ≡ before.status)
terminal_status_absorbs others p now db id before found terminal =
    let (after, f, a) = apply_settlement_transition-Keeps others p now db id before found in
    (after, f, stay before.status after.status terminal a)
  where
    stay : (s t : SettlementStatus) → is_terminal_settlement_status s ≡ true → Advances s t → t ≡ s
    stay s t h (inl e) = sym e
    stay s t h (inr e) = cc (e, terminal_no_transition s t h)

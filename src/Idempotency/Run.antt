-- ===== src/Idempotency/Run.antt =====
-- runIdempotent of src/services/idempotency.ts with reclaim and finalize, for one key: the row that
-- (userId, scope, key) names, and the database that the operation works on.
use mergepay_api.Common.{
  Bool, Option, Result, Text, err, false, if◌then◌else◌, is_some, ltb, none, not, ok, some, text_eq,
  true, ℕ, ◌&&◌, ◌+◌, ◌||◌,
}

pub data IdempotencyState : Type 0 where
  in_progress completed failed : IdempotencyState

-- A status is absent where the column holds none of the three.
pub record KeyRow : Type 0 where
  pub request_hash : Text
  pub response_json : Option Text
  pub status : Option IdempotencyState
  pub updated_at : Option ℕ
  pub created_at : Option ℕ

abbrev pub in_progress_timeout_ms : ℕ
in_progress_timeout_ms = 60000

unfoldable pub state_of : KeyRow → IdempotencyState
state_of row = elim row.status [
  | some s ↦ s
  | none ↦ if is_some row.response_json then completed else failed
]

abbrev pub started_at : KeyRow → Option ℕ
started_at row = elim row.updated_at [ some t ↦ some t | none ↦ row.created_at ]

unfoldable pub is_abandoned : KeyRow → ℕ → Bool
is_abandoned row now = elim (started_at row) [
  | none ↦ false
  | some t ↦ ltb (t + in_progress_timeout_ms) now
]

-- What a request throws: the two conflicts, the unique index, the update of a row that is gone or
-- of a database that fails, and what the operation throws.
pub data IdempotencyError (E : Type 0) : Type 0 where
  conflict still_in_progress unique_violation update_failed : IdempotencyError E
  operation_failed : E → IdempotencyError E

pub record World (D : Type 0) : Type 0 where
  pub row : Option KeyRow
  pub store : D

abbrev pub is_failed : Option IdempotencyState → Bool
is_failed (some failed) = true
is_failed _ = false

abbrev pub is_in_progress : Option IdempotencyState → Bool
is_in_progress (some in_progress) = true
is_in_progress _ = false

-- `updatedAt: { lt: staleBefore }`, which no null satisfies.
abbrev pub is_stale : Option ℕ → ℕ → Bool
is_stale none now = false
is_stale (some t) now = ltb (t + in_progress_timeout_ms) now

-- The condition of the update in `reclaim`.
unfoldable pub is_reclaimable : Text → ℕ → KeyRow → Bool
is_reclaimable hash now row =
    text_eq row.request_hash hash
    && (is_failed row.status || (is_in_progress row.status && is_stale row.updated_at now))

abbrev pub reserved : KeyRow → ℕ → KeyRow
reserved row now = record row {
  status = some in_progress;
  response_json = none;
  updated_at = some now;
}

abbrev pub new_reservation : Text → ℕ → KeyRow
new_reservation hash now = record {
  request_hash = hash;
  response_json = none;
  status = some in_progress;
  updated_at = some now;
  created_at = some now;
}

-- The operation in its transaction, its result as JSON and back, and whether the database takes
-- the write that records a result, and the one that records a failure.
pub record Environment (R D E : Type 0) : Type 0 where
  pub operation : D → Result E (R × D)
  pub to_json : R → Text
  pub of_json : Option Text → R
  pub takes_result : Bool
  pub takes_failure : Bool

abbrev pub Reply : Type 0 → Type 0 → Type 0 → Type 0
Reply R D E = Result (IdempotencyError E) R × World D

-- The update of the key's row, which fails where there is none.
abbrev pub set_outcome :
    {D : Type 0} → IdempotencyState → Option Text → ℕ → World D → Option (World D)
set_outcome s json now w = elim w.row [
  | none ↦ none
  | some row ↦ some (record w {
    row = some (record row { status = some s; response_json = json; updated_at = some now });
  })
]

module _ {R D E : Type 0} where
  -- The outcome is marked `failed` if that can be written, and the first error is thrown.
  unfoldable pub mark_failed : Bool → IdempotencyError E → ℕ → World D → Reply R D E
  mark_failed takes e now w = elim (set_outcome failed none now w) [
    | none ↦ (err e, w)
    | some w' ↦ (err e, if takes then w' else w)
  ]

  unfoldable pub record_result : Environment R D E → R → ℕ → World D → Reply R D E
  record_result env r now w =
      let done = set_outcome completed (some (env.to_json r)) now w in
      if env.takes_result
      then elim done [
        | none ↦ mark_failed env.takes_failure update_failed now w
        | some w' ↦ (ok r, w')
      ]
      else mark_failed env.takes_failure update_failed now w

  unfoldable pub finalize : Environment R D E → ℕ → World D → Reply R D E
  finalize env now w = elim (env.operation w.store) [
    | ok (r, store') ↦ record_result env r now (record w { store = store' })
    | err e ↦ mark_failed env.takes_failure (operation_failed e) now w
  ]

  -- A request that lost the key to another one answers from that one's row.
  unfoldable pub answer_from :
      Environment R D E → IdempotencyError E → Text → World D → Option KeyRow → Reply R D E
  answer_from env missing hash w none = (err missing, w)
  answer_from env missing hash w (some winner) =
      if not (text_eq winner.request_hash hash) then (err conflict, w) else elim (state_of winner) [
        | completed ↦ (ok (env.of_json winner.response_json), w)
        | _ ↦ (err still_in_progress, w)
      ]

  unfoldable pub reclaim_and_run :
      Environment R D E → Text → ℕ → World D → Option KeyRow → Reply R D E
  reclaim_and_run env hash now w none = answer_from env still_in_progress hash w none
  reclaim_and_run env hash now w (some row) =
      if is_reclaimable hash now row
      then finalize env now (record w { row = some (reserved row now) })
      else answer_from env still_in_progress hash w (some row)

  unfoldable pub create_and_run :
      Environment R D E → Text → ℕ → World D → Option KeyRow → Reply R D E
  create_and_run env hash now w none =
      finalize env now (record w { row = some (new_reservation hash now) })
  create_and_run env hash now w (some row) = answer_from env unique_violation hash w (some row)

  -- What follows the lookup, on the world as the other requests have left it by then.
  unfoldable pub run_found : Environment R D E → Text → ℕ → World D → Option KeyRow → Reply R D E
  run_found env hash now w none = create_and_run env hash now w w.row
  run_found env hash now w (some row) =
      if not (text_eq row.request_hash hash) then (err conflict, w) else elim (state_of row) [
        | completed ↦ (ok (env.of_json row.response_json), w)
        | in_progress ↦
            if is_abandoned row now
            then reclaim_and_run env hash now w w.row
            else (err still_in_progress, w)
        | failed ↦ reclaim_and_run env hash now w w.row
      ]

  -- A request with a key. `others` is what other requests do between the lookup and the claim.
  unfoldable pub run_idempotent :
      Environment R D E → (World D → World D) → Text → ℕ → World D → Reply R D E
  run_idempotent env others hash now w = run_found env hash now (others w) w.row

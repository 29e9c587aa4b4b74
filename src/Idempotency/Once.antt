-- ===== src/Idempotency/Once.antt =====
-- When a request with an idempotency key runs its operation, and what a retry gets.
use mergepay_api.Idempotency.Run.{
  Reply, finalize, failed, completed, Environment, IdempotencyError, IdempotencyState, KeyRow,
  World, answer_from, create_and_run, in_progress, is_abandoned, is_reclaimable, mark_failed,
  operation_failed, reclaim_and_run, record_result, run_found, run_idempotent, state_of,
  still_in_progress, unique_violation, update_failed,
}
use mergepay_api.Common.{
  Bool-cases, Option, Text, ap, arith, err, false, if◌then◌else◌, inl, inr, none, ok, refl, some,
  subst, sym, text_eq, text_eq_refl, true, ℕ, ◌∙◌, ◌≡◌, ◌⊎◌,
}

-- The key may be claimed by a request: no row, or one of the same payload that failed or was
-- abandoned.
abbrev pub MayClaim : Text → ℕ → Option KeyRow → Type 0
MayClaim hash now none = Unit {0}
MayClaim hash now (some row) = is_reclaimable hash now row ≡ true

-- The key's row and the database after a first request.
abbrev pub after_first : {D : Type 0} → Text → ℕ → IdempotencyState → Option Text → D → World D
after_first hash now s json store = record {
  row = some (record {
    request_hash = hash;
    response_json = json;
    status = some s;
    updated_at = some now;
    created_at = some now;
  });
  store = store;
}

abbrev pub fresh : {D : Type 0} → D → World D
fresh store = record { row = none; store = store }

module _ {R D E : Type 0} where
  answer_from-world :
      (env : Environment R D E) (missing : IdempotencyError E) (hash : Text) (w : World D)
      (o : Option KeyRow)
      → (answer_from env missing hash w o).1 ≡ w
  unfolding answer_from
  answer_from-world env missing hash w none = refl
  answer_from-world env missing hash w (some row) = ground arith

  abbrev Guarded : Text → ℕ → World D → Reply R D E → Type 0
  Guarded hash now w reply = (reply.1 ≡ w) ⊎ MayClaim hash now w.row

  reclaim-Guarded :
      (env : Environment R D E) (hash : Text) (now : ℕ) (w : World D) (o : Option KeyRow)
      → w.row ≡ o
      → Guarded hash now w (reclaim_and_run env hash now w o)
  unfolding reclaim_and_run
  reclaim-Guarded env hash now w none e = inl (answer_from-world env still_in_progress hash w none)
  reclaim-Guarded env hash now w (some row) e = elim (Bool-cases (is_reclaimable hash now row)) [
    | inl claimed ↦ inr (subst (MayClaim hash now) (sym e) claimed)
    | inr refused ↦ inl (rw refused (answer_from-world env still_in_progress hash w (some row)))
  ]

  create-Guarded :
      (env : Environment R D E) (hash : Text) (now : ℕ) (w : World D) (o : Option KeyRow)
      → w.row ≡ o
      → Guarded hash now w (create_and_run env hash now w o)
  unfolding create_and_run
  create-Guarded env hash now w none e = inr (subst (MayClaim hash now) (sym e) tt)
  create-Guarded env hash now w (some row) e =
      inl (answer_from-world env unique_violation hash w (some row))

  found-Guarded :
      (env : Environment R D E) (hash : Text) (now : ℕ) (w : World D) (o : Option KeyRow)
      → Guarded hash now w (run_found env hash now w o)
  unfolding run_found
  found-Guarded env hash now w none = create-Guarded env hash now w w.row refl
  found-Guarded env hash now w (some row) = elim (Bool-cases (text_eq row.request_hash hash)) [
    | inr other ↦ rw other (inl refl)
    | inl same ↦ rw same (by_state (state_of row))
  ]
    where
      by_state :
          (s : IdempotencyState)
          → Guarded hash now w (elim s [
            | completed ↦ (ok (env.of_json row.response_json), w)
            | in_progress ↦
                if is_abandoned row now
                then reclaim_and_run env hash now w w.row
                else (err still_in_progress, w)
            | failed ↦ reclaim_and_run env hash now w w.row
          ])
      by_state completed = inl refl
      by_state failed = reclaim-Guarded env hash now w w.row refl
      by_state in_progress = elim (Bool-cases (is_abandoned row now)) [
        | inl claimed ↦ rw claimed (reclaim-Guarded env hash now w w.row refl)
        | inr refused ↦ rw refused (inl refl)
      ]

  -- Whatever other requests do between the lookup and the claim: a request either leaves the key's
  -- row and the database as they left them, or the key could be claimed at that moment, that is,
  -- it had no row, or one of the same payload that failed or was abandoned. So an operation never
  -- runs beside a live reservation, after a completed request, or for another payload.
  pub runs_only_if_claimed :
      (env : Environment R D E) (others : World D → World D) (hash : Text) (now : ℕ) (w : World D)
      → ((run_idempotent env others hash now w).1 ≡ others w) ⊎ MayClaim hash now (others w).row
  unfolding run_idempotent
  runs_only_if_claimed env others hash now w = found-Guarded env hash now (others w) w.row

  first_returns :
      (env : Environment R D E) (hash : Text) (now : ℕ) (store : D) (r : R) (store' : D)
      → env.operation store ≡ ok (r, store')
      → env.takes_result ≡ true
      → run_idempotent env (λ x. x) hash now (fresh store)
        ≡ (ok r, after_first hash now completed (some (env.to_json r)) store')
  unfolding run_idempotent run_found create_and_run finalize record_result mark_failed
  first_returns env hash now store r store' runs takes =
      rw (finalize, runs, record_result, takes) refl

  first_throws :
      (env : Environment R D E) (hash : Text) (now : ℕ) (store : D) (e : E)
      → env.operation store ≡ err e
      → env.takes_failure ≡ true
      → run_idempotent env (λ x. x) hash now (fresh store)
        ≡ (err (operation_failed e), after_first hash now failed none store)
  unfolding run_idempotent run_found create_and_run finalize record_result mark_failed
  first_throws env hash now store e fails takes = rw (finalize, fails, mark_failed, takes) refl

  first_loses_result :
      (env : Environment R D E) (hash : Text) (now : ℕ) (store : D) (r : R) (store' : D)
      → env.operation store ≡ ok (r, store')
      → env.takes_result ≡ false
      → env.takes_failure ≡ true
      → run_idempotent env (λ x. x) hash now (fresh store)
        ≡ (err update_failed, after_first hash now failed none store')
  unfolding run_idempotent run_found create_and_run finalize record_result mark_failed
  first_loses_result env hash now store r store' runs lost takes =
      rw (finalize, runs, record_result, lost, mark_failed, takes) refl

  retry_runs :
      (env : Environment R D E) (hash : Text) (now now' : ℕ) (store : D) (r : R) (store' : D)
      → env.operation store ≡ ok (r, store')
      → env.takes_result ≡ true
      → ((run_idempotent env (λ x. x) hash now' (after_first hash now failed none store)).0 ≡ ok r)
        × ((run_idempotent env (λ x. x) hash now' (after_first hash now failed none store)).1.store
            ≡ store')
  unfolding run_idempotent run_found state_of reclaim_and_run is_reclaimable finalize record_result
  retry_runs env hash now now' store r store' runs takes =
      rw (run_found, text_eq_refl hash, finalize, runs, record_result, takes) (refl, refl)

  -- What a first request leaves that returns `r`, from the time of its claim on.
  abbrev pub completed_row : Environment R D E → Text → ℕ → R → KeyRow
  completed_row env hash now r = record {
    request_hash = hash;
    response_json = some (env.to_json r);
    status = some completed;
    updated_at = some now;
    created_at = some now;
  }

  claim_returns :
      (env : Environment R D E) (others : World D → World D) (hash : Text) (now : ℕ) (w : World D)
      (r : R) (store' : D)
      → w.row ≡ none
      → (others w).row ≡ none
      → env.operation (others w).store ≡ ok (r, store')
      → env.takes_result ≡ true
      → run_idempotent env others hash now w
        ≡ (ok r, record { row = some (completed_row env hash now r); store = store' })
  unfolding run_idempotent run_found create_and_run finalize record_result mark_failed
  claim_returns env others hash now w r store' absent absent' runs takes =
      rw (absent, run_found, absent', create_and_run, finalize, runs, record_result, takes) refl

  replay_found :
      (env : Environment R D E) (hash : Text) (now : ℕ) (w : World D) (row : KeyRow)
      → row.request_hash ≡ hash
      → row.status ≡ some completed
      → run_found env hash now w (some row) ≡ (ok (env.of_json row.response_json), w)
  unfolding run_found state_of
  replay_found env hash now w row same done = rw (same, text_eq_refl hash, done) refl

  replay :
      (env : Environment R D E) (others : World D → World D) (hash : Text) (now : ℕ) (w : World D)
      (row : KeyRow)
      → w.row ≡ some row
      → row.request_hash ≡ hash
      → row.status ≡ some completed
      → run_idempotent env others hash now w ≡ (ok (env.of_json row.response_json), others w)
  unfolding run_idempotent
  replay env others hash now w row stands same done =
      ap (run_found env hash now (others w)) stands
      ∙ replay_found env hash now (others w) row same done

  -- A first request that returns, whatever other requests do between its lookup and its claim, as
  -- long as they do not take the key, has run its operation on the database as it was at the
  -- claim. Every retry with the payload that finds the row which that request has left replays the
  -- stored result, in whatever database and at whatever time, and whatever other requests do
  -- beside it, it changes nothing itself.
  pub retry_replays :
      (env : Environment R D E) (others : World D → World D) (hash : Text) (now : ℕ) (w : World D)
      (r : R) (store' : D)
      → w.row ≡ none
      → (others w).row ≡ none
      → env.operation (others w).store ≡ ok (r, store')
      → env.takes_result ≡ true
      → (env' : Environment R D E) (others' : World D → World D) (now' : ℕ) (later : World D)
      → later.row ≡ (run_idempotent env others hash now w).1.row
      → let first : Reply R D E = run_idempotent env others hash now w in
        (first.0 ≡ ok r)
        × (first.1.store ≡ store')
        × (run_idempotent env' others' hash now' later
            ≡ (ok (env'.of_json (some (env.to_json r))), others' later))
  retry_replays env others hash now w r store' absent absent' runs takes env' others' now' later
        stands =
      let first = claim_returns env others hash now w r store' absent absent' runs takes in
      (
        ap (λ x. x.0) first,
        ap (λ x. x.1.store) first,
        replay env' others' hash now' later (completed_row env hash now r)
            (stands ∙ ap (λ x. x.1.row) first) refl refl,
      )

  -- A first request whose operation throws leaves the database as it was, and a retry with the
  -- payload runs its operation on it and returns what that returns.
  pub retry_after_failure :
      (env : Environment R D E) (hash : Text) (now : ℕ) (store : D) (e : E)
      → env.operation store ≡ err e
      → env.takes_failure ≡ true
      → (env' : Environment R D E) (now' : ℕ) (r : R) (store' : D)
      → env'.operation store ≡ ok (r, store')
      → env'.takes_result ≡ true
      → let first : Reply R D E = run_idempotent env (λ x. x) hash now (fresh store) in
        let second : Reply R D E = run_idempotent env' (λ x. x) hash now' first.1 in
        (first.0 ≡ err (operation_failed e))
        × (first.1.store ≡ store)
        × (second.0 ≡ ok r)
        × (second.1.store ≡ store')
  retry_after_failure env hash now store e fails takes env' now' r store' runs takes' =
      rw (first_throws env hash now store e fails takes) (
        refl,
        refl,
        (retry_runs env' hash now now' store r store' runs takes').0,
        (retry_runs env' hash now now' store r store' runs takes').1,
      )

  -- Where the operation commits but its result cannot be recorded, the request throws, the key is
  -- marked failed, and a retry runs the operation a second time, on the database that the first
  -- run has changed.
  pub unrecorded_result_runs_again :
      (env : Environment R D E) (hash : Text) (now : ℕ) (store : D) (r : R) (store' : D)
      → env.operation store ≡ ok (r, store')
      → env.takes_result ≡ false
      → env.takes_failure ≡ true
      → (env' : Environment R D E) (now' : ℕ) (r' : R) (store'' : D)
      → env'.operation store' ≡ ok (r', store'')
      → env'.takes_result ≡ true
      → let first : Reply R D E = run_idempotent env (λ x. x) hash now (fresh store) in
        let second : Reply R D E = run_idempotent env' (λ x. x) hash now' first.1 in
        (first.0 ≡ err update_failed) × (first.1.store ≡ store') × (second.1.store ≡ store'')
  unrecorded_result_runs_again env hash now store r store' runs lost takes env' now' r' store''
        again takes' =
      rw (first_loses_result env hash now store r store' runs lost takes)
        (refl, refl, (retry_runs env' hash now now' store' r' store'' again takes').1)

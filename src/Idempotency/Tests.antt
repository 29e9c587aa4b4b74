-- ===== src/Idempotency/Tests.antt =====
-- Idempotency keys over a counter, which the operation raises.
use mergepay_api.Idempotency.Run.{
  Environment, World, new_reservation, operation_failed, run_idempotent, update_failed,
}
use mergepay_api.Idempotency.Once.{
  fresh, MayClaim, retry_after_failure, retry_replays, runs_only_if_claimed,
  unrecorded_result_runs_again,
}
use mergepay_api.Common.{
  Bool, Result, Text, [], codes, err, false, get_or, none, ok, refl, some, true, ℕ, ◌+◌, ◌∷◌, ◌≡◌,
  ◌⊎◌,
}

abbrev hash : Text
hash = codes "h"

abbrev raise : ℕ → Result Bool (ℕ × ℕ)
raise n = ok (n + 1, n + 1)

abbrev refuse : ℕ → Result Bool (ℕ × ℕ)
refuse n = err true

abbrev counting : (ℕ → Result Bool (ℕ × ℕ)) → Bool → Environment ℕ ℕ Bool
counting operation takes_result = record {
  operation = operation;
  to_json = λ n. n ∷ [];
  of_json = λ json. elim json [ none ↦ 0 | some t ↦ get_or t 0 0 ];
  takes_result = takes_result;
  takes_failure = true;
}

-- A live reservation of another request, made between the lookup and the claim.
abbrev reserve : World ℕ → World ℕ
reserve w = record w { row = some (new_reservation hash 10) }

runs_only_if_claimed_example :
    ((run_idempotent (counting raise true) reserve hash 20 (fresh 7)).1 ≡ reserve (fresh 7))
    ⊎ MayClaim hash 20 (reserve (fresh 7)).row
runs_only_if_claimed_example = runs_only_if_claimed (counting raise true) reserve hash 20 (fresh 7)

-- Another request changes the database.
abbrev disturb : World ℕ → World ℕ
disturb w = record w { store = w.store + 5 }

abbrev replay_world : World ℕ
replay_world = record {
  row = (run_idempotent (counting raise true) disturb hash 10 (fresh 7)).1.row;
  store = 40;
}

retry_replays_example :
    ((run_idempotent (counting raise true) disturb hash 10 (fresh 7)).0 ≡ ok 13)
    × ((run_idempotent (counting raise true) disturb hash 10 (fresh 7)).1.store ≡ 13)
    × (run_idempotent (counting raise true) disturb hash 90000 replay_world
        ≡ (ok 13, disturb replay_world))
retry_replays_example =
    retry_replays (counting raise true) disturb hash 10 (fresh 7) 13 13 refl refl refl refl
      (counting raise true) disturb 90000 replay_world refl

retry_after_failure_example :
    ((run_idempotent (counting refuse true) (λ x. x) hash 10 (fresh 7)).0
      ≡ err (operation_failed true))
    × ((run_idempotent (counting refuse true) (λ x. x) hash 10 (fresh 7)).1.store ≡ 7)
    × ((run_idempotent
          (counting raise true)
          (λ x. x)
          hash
          20
          (run_idempotent (counting refuse true) (λ x. x) hash 10 (fresh 7)).1).0
        ≡ ok 8)
    × ((run_idempotent
          (counting raise true)
          (λ x. x)
          hash
          20
          (run_idempotent (counting refuse true) (λ x. x) hash 10 (fresh 7)).1).1.store
        ≡ 8)
retry_after_failure_example =
    retry_after_failure (counting refuse true) hash 10 7 true refl refl (counting raise true) 20 8 8
      refl refl

-- The counter is raised twice for one key.
unrecorded_result_runs_again_example :
    ((run_idempotent (counting raise false) (λ x. x) hash 10 (fresh 7)).0 ≡ err update_failed)
    × ((run_idempotent (counting raise false) (λ x. x) hash 10 (fresh 7)).1.store ≡ 8)
    × ((run_idempotent
          (counting raise true)
          (λ x. x)
          hash
          20
          (run_idempotent (counting raise false) (λ x. x) hash 10 (fresh 7)).1).1.store
        ≡ 9)
unrecorded_result_runs_again_example =
    unrecorded_result_runs_again (counting raise false) hash 10 7 8 8 refl refl refl
      (counting raise true) 20 9 9 refl refl

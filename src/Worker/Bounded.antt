-- ===== src/Worker/Bounded.antt =====
-- How often a job is attempted, and which attempt decides.
use mergepay_api.Worker.Retry.{
  succeeded, Job, run_attempts, WorkerJobExecutionResult, execute_worker_job_with_retry,
  is_permanent, after_sleep, dead_letter,
}
use mergepay_api.Common.{
  Bool-cases, Result-cases, arith, err, false, inl, inr, leb, length, ok, refl, some, subst, suc,
  true, zero, ℕ, ◌+◌, ◌<◌, ◌==◌, ◌||◌, ◌≡◌, ◌≤◌, ◌⊎◌,
}

module _ {R E : Type 0} where
  run_attempts-counts :
      (job : Job R E) (left attempt : ℕ)
      → suc left + attempt ≡ job.max_attempts + 1
      → (attempt ≤ (run_attempts job (suc left) attempt).attempts)
        × ((run_attempts job (suc left) attempt).attempts ≤ job.max_attempts)
        × (length (run_attempts job (suc left) attempt).slept + attempt
            ≡ (run_attempts job (suc left) attempt).attempts)
  unfolding run_attempts
  run_attempts-counts job zero attempt h = ground arith
  run_attempts-counts job (suc left) attempt h =
      ground (arith, run_attempts-counts job left (suc attempt) (omega (arith, h)))

  -- A job that may be attempted at all is attempted at least once and never more than the policy
  -- allows, and it sleeps between two attempts and at no other time.
  pub attempts_bounded :
      (job : Job R E)
      → 0 < job.max_attempts
      → (1 ≤ (execute_worker_job_with_retry job).attempts)
        × ((execute_worker_job_with_retry job).attempts ≤ job.max_attempts)
        × (length (execute_worker_job_with_retry job).slept + 1
            ≡ (execute_worker_job_with_retry job).attempts)
  unfolding execute_worker_job_with_retry
  attempts_bounded job h = started (job.max_attempts) refl h
    where
      started :
          (m : ℕ)
          → m ≡ job.max_attempts
          → 0 < m
          → (1 ≤ (run_attempts job m 1).attempts)
            × ((run_attempts job m 1).attempts ≤ job.max_attempts)
            × (length (run_attempts job m 1).slept + 1 ≡ (run_attempts job m 1).attempts)
      started zero e h = omega arith
      started (suc left) e h = run_attempts-counts job left 1 (omega (arith, e))

  -- An attempt that failed without ending the job.
  abbrev pub Retried : Job R E → ℕ → Type 0
  Retried job k = (e : E) × (job.task k ≡ err e) × (is_permanent (job.classify e) ≡ false)

  -- What the last attempt gave, as the result says.
  abbrev pub Decided : Job R E → WorkerJobExecutionResult R E → Type 0
  Decided job x =
      ((r : R) × (job.task x.attempts ≡ ok r)
        × (x.result ≡ some r)
        × (x.success ≡ true)
        × (x.dead_lettered ≡ false))
      ⊎ ((e : E) × (job.task x.attempts ≡ err e)
          × (x.error ≡ some e)
          × (x.success ≡ false)
          × (x.dead_lettered ≡ true))

  run_ok :
      (job : Job R E) (left attempt : ℕ) {r : R}
      → job.task attempt ≡ ok r
      → run_attempts job (suc left) attempt ≡ succeeded attempt r
  unfolding run_attempts
  run_ok job left attempt e = rw (run_attempts, e) refl

  run_stops :
      (job : Job R E) (left attempt : ℕ) {e : E}
      → job.task attempt ≡ err e
      → is_permanent (job.classify e) || leb job.max_attempts attempt ≡ true
      → run_attempts job (suc left) attempt ≡ dead_letter attempt (some e)
  unfolding run_attempts
  run_stops job left attempt e h = rw (run_attempts, e, h) refl

  run_goes_on :
      (job : Job R E) (left attempt : ℕ) {e : E}
      → job.task attempt ≡ err e
      → is_permanent (job.classify e) || leb job.max_attempts attempt ≡ false
      → run_attempts job (suc left) attempt
        ≡ after_sleep (job.delay attempt) (run_attempts job left (suc attempt))
  unfolding run_attempts
  run_goes_on job left attempt e h = rw (run_attempts, e, h) refl

  -- The attempts from `first` on, up to the last one, were failures that did not end the job.
  abbrev pub Settled : Job R E → ℕ → WorkerJobExecutionResult R E → Type 0
  Settled job first x = Decided job x × ((k : ℕ) → first ≤ k → k < x.attempts → Retried job k)

  stopped-Settled :
      (job : Job R E) (left attempt : ℕ) {e : E}
      → job.task attempt ≡ err e
      → is_permanent (job.classify e) || leb job.max_attempts attempt ≡ true
      → Settled job attempt (run_attempts job (suc left) attempt)
  stopped-Settled job left attempt {e} ee stops =
      rw (run_stops job left attempt ee stops)
        (inr (e, ee, refl, refl, refl), λ k low high. absurd (omega (arith, low, high)))

  returned-Settled :
      (job : Job R E) (left attempt : ℕ) {r : R}
      → job.task attempt ≡ ok r
      → Settled job attempt (run_attempts job (suc left) attempt)
  returned-Settled job left attempt {r} er =
      rw (run_ok job left attempt er)
        (inl (r, er, refl, refl, refl), λ k low high. absurd (omega (arith, low, high)))

  run_attempts-Settled :
      (job : Job R E) (left attempt : ℕ)
      → suc left + attempt ≡ job.max_attempts + 1
      → Settled job attempt (run_attempts job (suc left) attempt)
  run_attempts-Settled job zero attempt h = elim (Result-cases (job.task attempt)) [
    | inl (r, er) ↦ returned-Settled job zero attempt er
    | inr (e, ee) ↦ stopped-Settled job zero attempt ee (ground arith)
  ]
  run_attempts-Settled job (suc left) attempt h = elim (Result-cases (job.task attempt)) [
    | inl (r, er) ↦ returned-Settled job (suc left) attempt er
    | inr (e, ee) ↦
        elim (Bool-cases (is_permanent (job.classify e) || leb job.max_attempts attempt)) [
          | inl stops ↦ stopped-Settled job (suc left) attempt ee stops
          | inr more ↦
              let (decided, retried) =
                run_attempts-Settled job left (suc attempt) (omega (arith, h)) in
              rw (run_goes_on job (suc left) attempt ee more) (
                decided,
                λ k low high. elim (Bool-cases (k == attempt)) [
                  | inl here ↦ subst (Retried job) (ground arith) (e, ee, ground arith)
                  | inr other ↦ retried k (ground arith) high
                ],
              )
        ]
  ]

  -- A job that may be attempted ends with its last attempt: it succeeds with what that returned, or
  -- is dead-lettered with what that threw. Every attempt before it failed, and not permanently.
  pub job_outcome_lem :
      (job : Job R E) → 0 < job.max_attempts → Settled job 1 (execute_worker_job_with_retry job)
  unfolding execute_worker_job_with_retry
  job_outcome_lem job h = started job.max_attempts refl h
    where
      started : (m : ℕ) → m ≡ job.max_attempts → 0 < m → Settled job 1 (run_attempts job m 1)
      started zero e h = absurd (omega arith)
      started (suc left) e h = run_attempts-Settled job left 1 (omega (arith, e))

-- ===== src/Worker/Tests.antt =====
-- A job whose first attempt fails for a moment.
use mergepay_api.Worker.Retry.{
  Job, transient, permanent, succeeded, execute_worker_job_with_retry, run_attempts,
}
use mergepay_api.Worker.Bounded.{Settled, attempts_bounded, job_outcome_lem}
use mergepay_api.Common.{
  Result, [], arith, err, if◌then◌else◌, length, ok, refl, ℕ, ◌*◌, ◌+◌, ◌==◌, ◌∷◌, ◌≡◌, ◌≤◌,
}

abbrev flaky : ℕ → Result ℕ ℕ
flaky attempt = if attempt == 1 then err 503 else ok 7

abbrev flaky_job : Job ℕ ℕ
flaky_job = record {
  task = flaky;
  classify = λ e. if e == 400 then permanent else transient;
  delay = λ attempt. attempt * 500;
  max_attempts = 3;
}

second_attempt_decides :
    execute_worker_job_with_retry flaky_job ≡ record (succeeded 2 7) { slept = 500 ∷ [] }
unfolding execute_worker_job_with_retry run_attempts
second_attempt_decides = refl

attempts_bounded_example :
    (1 ≤ (execute_worker_job_with_retry flaky_job).attempts)
    × ((execute_worker_job_with_retry flaky_job).attempts ≤ 3)
    × (length (execute_worker_job_with_retry flaky_job).slept + 1
        ≡ (execute_worker_job_with_retry flaky_job).attempts)
attempts_bounded_example = attempts_bounded flaky_job (ground arith)

job_outcome_lem_example : Settled flaky_job 1 (execute_worker_job_with_retry flaky_job)
job_outcome_lem_example = job_outcome_lem flaky_job (ground arith)

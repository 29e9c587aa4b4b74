-- ===== src/Worker/Retry.antt =====
-- executeWorkerJobWithRetry of src/worker/job-retry-handler.ts. The task, the classification of its
-- failures and the delay before a retry are parameters; the callbacks and the log do not throw.
use mergepay_api.Common.{
  Bool, List, Option, Result, [], err, false, if◌then◌else◌, leb, none, ok, some, suc, true, zero,
  ℕ, ◌||◌, ◌∷◌,
}

pub data JobFailureCategory : Type 0 where
  transient permanent indeterminate : JobFailureCategory

abbrev pub is_permanent : JobFailureCategory → Bool
is_permanent permanent = true
is_permanent _ = false

-- What the loop returns, with the delays it slept, the first one first.
pub record WorkerJobExecutionResult (R E : Type 0) : Type 0 where
  pub success : Bool
  pub result : Option R
  pub error : Option E
  pub attempts : ℕ
  pub dead_lettered : Bool
  pub slept : List ℕ

-- A job: the task by attempt, and how its failures are classified and spaced.
pub record Job (R E : Type 0) : Type 0 where
  pub task : ℕ → Result E R
  pub classify : E → JobFailureCategory
  pub delay : ℕ → ℕ
  pub max_attempts : ℕ

module _ {R E : Type 0} where
  abbrev pub succeeded : ℕ → R → WorkerJobExecutionResult R E
  succeeded attempt r = record {
    success = true;
    result = some r;
    error = none;
    attempts = attempt;
    dead_lettered = false;
    slept = [];
  }

  abbrev pub dead_letter : ℕ → Option E → WorkerJobExecutionResult R E
  dead_letter attempt e = record {
    success = false;
    result = none;
    error = e;
    attempts = attempt;
    dead_lettered = true;
    slept = [];
  }

  abbrev pub after_sleep : ℕ → WorkerJobExecutionResult R E → WorkerJobExecutionResult R E
  after_sleep delay x = record x { slept = delay ∷ x.slept }

  -- The loop from `attempt` on, with the number of attempts that are left.
  unfoldable pub run_attempts : Job R E → ℕ → ℕ → WorkerJobExecutionResult R E
  run_attempts job zero attempt = dead_letter job.max_attempts none
  run_attempts job (suc left) attempt =
      let rest = run_attempts job left (suc attempt) in
      elim (job.task attempt) [
        | ok r ↦ succeeded attempt r
        | err e ↦
            if is_permanent (job.classify e) || leb job.max_attempts attempt
            then dead_letter attempt (some e)
            else after_sleep (job.delay attempt) rest
      ]

  unfoldable pub execute_worker_job_with_retry : Job R E → WorkerJobExecutionResult R E
  execute_worker_job_with_retry job = run_attempts job job.max_attempts 1

-- ===== src/Scheduler/Outcome.antt =====
-- How a task goes on after one execution: the end of the job that scanAndDispatch enqueues.
use coroutine_rpc_scheduler.Common.{
  Bool, String, arith, false, if◌then◌else◌, leb, refl, some, suc, true, zero, ℕ, ◌*◌, ◌+◌, ◌/◌,
  ◌<◌, ◌==◌, ◌↔◌, ◌≡◌, ◌≤◌,
}
use coroutine_rpc_scheduler.Scheduler.Retry.{retry_delay_seconds, retry_delay_seconds_bounds}
use coroutine_rpc_scheduler.Tasks.{DateTime, task_disabled, task_scheduled, TaskMeta}

-- The four values that the job passes to completeTaskExecution.
pub record NextState : Type 0 where
  pub status : ℕ
  pub next_run_at : DateTime
  pub retry_count : ℕ

-- `cron` is CronParser::nextExecution, in milliseconds, with 0 for no next time; `end_ms` is the end
-- of the execution.
unfoldable pub next_state : (String → ℕ → ℕ) → Bool → Bool → ℕ → TaskMeta → NextState
next_state cron shutting_down success end_ms task =
    let end_time : DateTime = some (end_ms / 1000) in
    let next_ms = cron task.cron_expr end_ms in
    let retries = task.retry_count + 1 in
    if shutting_down
    then record {
      status = task_scheduled;
      next_run_at = task.next_run_at;
      retry_count = task.retry_count;
    }
    else if success
    then (if next_ms == 0
        then record { status = task_disabled; next_run_at = end_time; retry_count = 0 }
        else record {
          status = task_scheduled;
          next_run_at = some (next_ms / 1000);
          retry_count = 0;
        })
    else if leb task.max_retries retries
    then record { status = task_disabled; next_run_at = end_time; retry_count = retries }
    else record {
      status = task_scheduled;
      next_run_at = some ((end_ms + 1000 * retry_delay_seconds retries) / 1000);
      retry_count = retries;
    }

-- The task as the scheduler reads it again after `next_state` was stored.
abbrev pub continue_with : NextState → TaskMeta → TaskMeta
continue_with n task = record task {
  status = n.status;
  next_run_at = n.next_run_at;
  retry_count = n.retry_count;
}

-- `k` executions in a row that fail, at the given ends.
unfoldable pub fail_times : (String → ℕ → ℕ) → (ℕ → ℕ) → ℕ → TaskMeta → TaskMeta
fail_times cron ends zero task = task
fail_times cron ends (suc k) task =
    let before = fail_times cron ends k task in
    continue_with (next_state cron false false (ends k) before) before

-- In a shutdown the task stays as it was scheduled.
pub next_state_shutdown :
    (cron : String → ℕ → ℕ) (shutting_down success : Bool) (end_ms : ℕ) (task : TaskMeta)
    → let n = next_state cron shutting_down success end_ms task in
      shutting_down ≡ true
      → (n.status ≡ task_scheduled)
        × (n.next_run_at ≡ task.next_run_at)
        × (n.retry_count ≡ task.retry_count)
unfolding next_state
next_state_shutdown cron shutting_down success end_ms task h =
    (ground (arith, h), ground (arith, h), ground (arith, h))

-- A success clears the retries, and disables a task without a next time.
pub next_state_success :
    (cron : String → ℕ → ℕ) (shutting_down success : Bool) (end_ms : ℕ) (task : TaskMeta)
    → let n = next_state cron shutting_down success end_ms task in
      let next_ms = cron task.cron_expr end_ms in
      shutting_down ≡ false
      → success ≡ true
      → (n.retry_count ≡ 0)
        × ((n.status ≡ task_disabled) ↔ (next_ms ≡ 0))
        × (0 < next_ms → (n.status ≡ task_scheduled) × (n.next_run_at ≡ some (next_ms / 1000)))
unfolding next_state
next_state_success cron shutting_down success end_ms task h k = (
  ground (arith, h, k),
  (λ e. ground (arith, h, k), λ e. ground (arith, h, k)),
  λ pos. (ground (arith, h, k), ground (arith, h, k)),
)

-- A failing execution never loses count: it raises the retry count by one, and the task is
-- disabled exactly when the count reaches `max_retries`; otherwise it runs again 5 to 300 seconds
-- after the end.
pub next_state_failure :
    (cron : String → ℕ → ℕ) (end_ms : ℕ) (task : TaskMeta)
    → let n = next_state cron false false end_ms task in
      (n.retry_count ≡ task.retry_count + 1)
      × ((n.status ≡ task_disabled) ↔ (task.max_retries ≤ task.retry_count + 1))
      × (task.retry_count + 1 < task.max_retries
          → (at : ℕ) × (n.status ≡ task_scheduled)
            × (n.next_run_at ≡ some at)
            × (end_ms / 1000 + 5 ≤ at)
            × (at ≤ end_ms / 1000 + 300))
unfolding next_state
next_state_failure cron end_ms task = (
  ground arith,
  (λ e. ground arith, λ h. ground arith),
  λ h. (
    (end_ms + 1000 * retry_delay_seconds (task.retry_count + 1)) / 1000,
    ground arith,
    ground arith,
    omega (arith, (retry_delay_seconds_bounds (task.retry_count + 1)).0),
    omega (arith, (retry_delay_seconds_bounds (task.retry_count + 1)).1),
  ),
)

-- The same, where a job ends outside of a shutdown without success.
pub next_state_failing :
    (cron : String → ℕ → ℕ) (shutting_down success : Bool) (end_ms : ℕ) (task : TaskMeta)
    → let n = next_state cron shutting_down success end_ms task in
      shutting_down ≡ false
      → success ≡ false
      → (n.retry_count ≡ task.retry_count + 1)
        × ((n.status ≡ task_disabled) ↔ (task.max_retries ≤ task.retry_count + 1))
        × (task.retry_count + 1 < task.max_retries
            → (at : ℕ) × (n.status ≡ task_scheduled)
              × (n.next_run_at ≡ some at)
              × (end_ms / 1000 + 5 ≤ at)
              × (at ≤ end_ms / 1000 + 300))
next_state_failing cron shutting_down success end_ms task h k =
    rw (h, k) (next_state_failure cron end_ms task)

fail_times_count :
    (cron : String → ℕ → ℕ) (ends : ℕ → ℕ) (k : ℕ) (task : TaskMeta)
    → ((fail_times cron ends k task).retry_count ≡ task.retry_count + k)
      × ((fail_times cron ends k task).max_retries ≡ task.max_retries)
unfolding fail_times
fail_times_count cron ends zero task = (omega arith, refl)
fail_times_count cron ends (suc k) task =
    let (count, cap) = fail_times_count cron ends k task in
    (omega (arith, (next_state_failure cron (ends k) (fail_times cron ends k task)).0), cap)

-- A task that starts with no failures and fails every time stays scheduled through its first
-- `max_retries - 1` failures, and is disabled by failure number `max_retries`.
pub fail_times_disables :
    (cron : String → ℕ → ℕ) (ends : ℕ → ℕ) (k : ℕ) (task : TaskMeta)
    → task.retry_count ≡ 0
    → ((suc k < task.max_retries) → (fail_times cron ends (suc k) task).status ≡ task_scheduled)
      × ((task.max_retries ≡ suc k) → (fail_times cron ends (suc k) task).status ≡ task_disabled)
unfolding fail_times
fail_times_disables cron ends k task h =
    let (count, cap) = fail_times_count cron ends k task in
    let before = fail_times cron ends k task in
    let (_, disabled, scheduled) = next_state_failure cron (ends k) before in
    ((λ lt. (scheduled (omega arith)).1), (λ e. disabled.1 (omega arith)))

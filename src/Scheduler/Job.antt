-- ===== src/Scheduler/Job.antt =====
-- The job that TaskScheduler::scanAndDispatch enqueues, as the thread pool runs it, and
-- TaskScheduler::recoverStaleExecutions.
pub mod Laws
use coroutine_rpc_scheduler.Common.{
  Bool, List, Option, String, [], false, if◌then◌else◌, none, some, str_append, str_empty, ℕ, ◌/◌,
  ◌∷◌,
}
use coroutine_rpc_scheduler.Cancellation.{
  is_canceled, link_cancellation_tokens, token, Flags, Source,
}
use coroutine_rpc_scheduler.Cancellation.Registry.{unregister_task}
use coroutine_rpc_scheduler.Metrics.{
  Metrics, inc_task_success, inc_task_failure, observe_task_duration,
}
use coroutine_rpc_scheduler.Redis.Server.{RedisServer, Attempt}
use coroutine_rpc_scheduler.Redis.Lock.{lock_key, Rounds, lock, unlock}
use coroutine_rpc_scheduler.Redis.Services.{discover_services}
use coroutine_rpc_scheduler.Scheduler.Execute.{ExecutionOutcome, Messages, PoolReply, execute_task}
use coroutine_rpc_scheduler.Scheduler.LockRenewer.{remove}
use coroutine_rpc_scheduler.Scheduler.Dispatch.{task_lock_ttl_sec}
use coroutine_rpc_scheduler.Scheduler.Outcome.{next_state}
use coroutine_rpc_scheduler.Scheduler.World.{World, Job}
use coroutine_rpc_scheduler.Tasks.{TaskMeta}
use coroutine_rpc_scheduler.Tasks.Store.{
  Reply, Server, recover_task_execution, complete_task_execution,
}
use coroutine_rpc_scheduler.Tasks.History.{TaskHistory, add_history}

-- What the environment does while one job runs: the clocks, the worker that the pool reached, an
-- exception of `executeTask` (with its message, or none where it is no std::exception), what other
-- threads do to the flags during the call and while the history is stored, and the fate of each
-- call to the database and to Redis.
pub record JobTurn : Type 0 where
  pub start_ms : ℕ
  pub request_ms : ℕ
  pub end_ms : ℕ
  pub duration_ms : ℕ
  pub call : List ℕ → PoolReply
  pub raised : Option (Option String)
  pub during_call : Flags → Flags
  pub during_history : Flags → Flags
  pub discover_attempt : Attempt
  pub history_reply : Reply
  pub complete_reply : Reply
  pub unlock_attempt : Attempt

abbrev pub failed_with : String → ExecutionOutcome
failed_with error = record { success = false; result = ""; error = error; endpoint = "" }

-- The two catch clauses around `executeTask`.
abbrev pub caught : Option (Option String) → ExecutionOutcome → ExecutionOutcome
caught none outcome = outcome
caught (some none) outcome = failed_with "Unknown task execution exception"
caught (some (some what)) outcome = failed_with what

-- The history that the job stores.
abbrev pub history_of : String → JobTurn → Job → ExecutionOutcome → TaskHistory
history_of node_id turn job outcome = record {
  execution_id = job.execution_id;
  task_id = job.task.id;
  exec_node = if str_empty outcome.endpoint then node_id else outcome.endpoint;
  success = outcome.success;
  result = outcome.result;
  error = outcome.error;
  start_time = some (turn.start_ms / 1000);
  end_time = some (turn.end_ms / 1000);
}

abbrev pub count_outcome : Bool → Metrics → Metrics
count_outcome success m = if success then inc_task_success m else inc_task_failure m

-- What the scheduler is configured with.
pub record Settings : Type 0 where
  pub node_id : String
  pub service_name : String
  pub auth_token : String
  pub task_timeout : Option ℕ
  pub cron : String → ℕ → ℕ

module _ (srv : Server) (redis : RedisServer) (msgs : Messages) (cfg : Settings)
    (shutdown : Source) where
  -- The action of `execution_cleanup`.
  unfoldable pub execution_cleanup : Attempt → Job → World redis → World redis
  unfolding unregister_task remove
  execution_cleanup attempt job w = record w {
    registry = unregister_task job.task.id job.execution_id w.registry;
    renewer = remove job.lock_key job.lock_value w.renewer;
    store = (unlock redis attempt job.lock_key job.lock_value w.store).1;
  }

  -- The call of `executeTask`, with the endpoints that it discovers.
  unfoldable pub job_outcome : JobTurn → Job → World redis → ExecutionOutcome
  unfolding execute_task
  job_outcome turn job w =
      let cancellation = link_cancellation_tokens (token shutdown ∷ token job.source ∷ []) in
      let endpoints =
        (discover_services redis turn.discover_attempt
          (str_append cfg.service_name (str_append ":" job.task.handler)) w.store).0 in
      caught turn.raised (
        execute_task msgs cfg.auth_token cfg.task_timeout turn.request_ms (cancellation w.flags)
          (cancellation (turn.during_call w.flags)) endpoints turn.call job.task job.execution_id)

  -- The job up to its cleanup.
  unfoldable pub finish_job : JobTurn → Job → ExecutionOutcome → World redis → World redis
  unfolding next_state add_history
  finish_job turn job outcome w =
      let task = job.task in
      let called = turn.during_call w.flags in
      let stored = turn.during_history called in
      let observed = observe_task_duration turn.duration_ms w.metrics in
      let n = next_state cfg.cron (is_canceled shutdown stored) outcome.success turn.end_ms task in
      record w {
        flags = stored;
        metrics =
            if is_canceled shutdown called
            then observed
            else count_outcome outcome.success observed;
        history =
            (add_history turn.history_reply (history_of cfg.node_id turn job outcome) w.history).1;
        table =
            (complete_task_execution srv turn.complete_reply task.id job.execution_id n.status
              n.next_run_at (some (turn.end_ms / 1000)) n.retry_count w.table).1;
      }

  unfoldable pub run_job : JobTurn → Job → World redis → World redis
  unfolding job_outcome finish_job execution_cleanup
  run_job turn job w =
      execution_cleanup turn.unlock_attempt job (finish_job turn job (job_outcome turn job w) w)

  -- One round of `recoverStaleExecutions`. Its `lock` waits 0 ms, so that one round of it is
  -- enough.
  unfoldable pub recover_one : Rounds redis → Reply → Attempt → TaskMeta → World redis → World redis
  recover_one rounds reply attempt task w =
      let key = str_append "task:" task.id in
      let value =
        str_append "recovery:"
          (str_append cfg.node_id (str_append ":" task.current_execution_id)) in
      elim (lock redis rounds 1 key value task_lock_ttl_sec 0 w.store) [
        | none ↦ w
        | some (got, store) ↦
            if got
            then record w {
              table =
                  (recover_task_execution srv reply task.id task.current_execution_id w.table).1;
              store = (unlock redis attempt key value store).1;
            }
            else record w { store = store }
      ]

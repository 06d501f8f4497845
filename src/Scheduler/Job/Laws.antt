-- ===== src/Scheduler/Job/Laws.antt =====
-- What a job leaves behind, and what a recovery does to a task whose lock is held.
use coroutine_rpc_scheduler.Common.{
  List, Option-cases, String, arith, eq_iff, false, inl, inr, lookup, none, refl, some, str_append,
  true, ℕ, ◌+◌, ◌/◌, ◌<◌, ◌||◌, ◌↔◌, ◌≡◌, ◌≢◌, ◌≤◌,
}
use coroutine_rpc_scheduler.Cancellation.{Source, is_canceled, token, link_cancellation_tokens}
use coroutine_rpc_scheduler.Redis.Server.{RedisServer}
use coroutine_rpc_scheduler.Redis.Lock.{Rounds, lock_key, lock}
use coroutine_rpc_scheduler.Redis.Server.{Attempt}
use coroutine_rpc_scheduler.Redis.LockLaws.{lock_excluded}
use coroutine_rpc_scheduler.Scheduler.Execute.{PoolReply, Messages, execute_task, PoolReply}
use coroutine_rpc_scheduler.Scheduler.Dispatch.{task_lock_ttl_sec}
use coroutine_rpc_scheduler.Scheduler.Job.{
  JobTurn, Settings, finish_job, job_outcome, run_job, recover_one, execution_cleanup,
}
use coroutine_rpc_scheduler.Scheduler.Outcome.{
  next_state, next_state_shutdown, next_state_success, next_state_failing,
}
use coroutine_rpc_scheduler.Scheduler.World.{World, Job}
use coroutine_rpc_scheduler.Tasks.{TaskRow, TaskMeta, task_disabled, task_scheduled}
use coroutine_rpc_scheduler.Tasks.Store.{
  Server, Reply, answered, statement, complete_task_execution, complete_row, is_completable,
}
use coroutine_rpc_scheduler.Tasks.Lease.{IsLeased, lookup-update_row, complete_task_execution_stale}

module _ (srv : Server) (redis : RedisServer) (msgs : Messages) (cfg : Settings)
    (shutdown : Source) where
  run_job_row :
      (turn : JobTurn) (job : Job) (w : World redis) (r : TaskRow)
      → IsLeased job.task.id job.execution_id w.table r
      → turn.complete_reply ≡ answered
      → let outcome = job_outcome srv redis msgs cfg shutdown turn job w in
        let w' = run_job srv redis msgs cfg shutdown turn job w in
        let n =
          next_state cfg.cron
            (is_canceled shutdown w'.flags)
            outcome.success
            turn.end_ms
            job.task in
        lookup job.task.id w'.table
        ≡ some (complete_row n.status n.next_run_at (some (turn.end_ms / 1000)) n.retry_count r)
  unfolding run_job finish_job execution_cleanup complete_task_execution statement
  run_job_row turn job w r h reply =
      let n =
        next_state cfg.cron
          (is_canceled shutdown (run_job srv redis msgs cfg shutdown turn job w).flags)
          (job_outcome srv redis msgs cfg shutdown turn job w).success turn.end_ms job.task in
      ground (
        arith,
        reply,
        h.found,
        h.running,
        h.held,
        eq_iff job.task.id job.task.id,
        eq_iff job.execution_id job.execution_id,
        lookup-update_row job.task.id job.task.id (is_completable job.execution_id)
            (complete_row n.status n.next_run_at (some (turn.end_ms / 1000)) n.retry_count) w.table,
      )

  -- A job whose execution holds the row gives it back once its completion is answered: the row has
  -- no execution, node or start any more, and the end of the job as its last run. In a shutdown the
  -- task stays scheduled for the same time, with the retries that it had. Otherwise a success clears
  -- the retries, and schedules the task for its next time, or disables it where there is none; and a
  -- failure counts one retry more, disables the task exactly when max_retries is reached, and
  -- schedules it 5 to 300 seconds after the end before that.
  pub run_job_completes :
      (turn : JobTurn) (job : Job) (w : World redis) (r : TaskRow)
      → IsLeased job.task.id job.execution_id w.table r
      → turn.complete_reply ≡ answered
      → let success = (job_outcome srv redis msgs cfg shutdown turn job w).success in
        let w' = run_job srv redis msgs cfg shutdown turn job w in
        let shutting_down = is_canceled shutdown w'.flags in
        let next_ms = cfg.cron job.task.cron_expr turn.end_ms in
        let retries = job.task.retry_count + 1 in
        (r' : TaskRow) × (lookup job.task.id w'.table ≡ some r')
        × (r'.current_execution_id ≡ none)
        × (r'.running_node ≡ none)
        × (r'.started_at ≡ none)
        × (r'.last_run_at ≡ some (turn.end_ms / 1000))
        × (shutting_down ≡ true
            → (r'.status ≡ task_scheduled)
              × (r'.next_run_at ≡ job.task.next_run_at)
              × (r'.retry_count ≡ job.task.retry_count))
        × (shutting_down ≡ false
            → success ≡ true
            → (r'.retry_count ≡ 0)
              × ((r'.status ≡ task_disabled) ↔ (next_ms ≡ 0))
              × (0 < next_ms
                  → (r'.status ≡ task_scheduled) × (r'.next_run_at ≡ some (next_ms / 1000))))
        × (shutting_down ≡ false
            → success ≡ false
            → (r'.retry_count ≡ retries)
              × ((r'.status ≡ task_disabled) ↔ (job.task.max_retries ≤ retries))
              × (retries < job.task.max_retries
                  → (at : ℕ) × (r'.status ≡ task_scheduled)
                    × (r'.next_run_at ≡ some at)
                    × (turn.end_ms / 1000 + 5 ≤ at)
                    × (at ≤ turn.end_ms / 1000 + 300)))
  run_job_completes turn job w r h reply =
      let success = (job_outcome srv redis msgs cfg shutdown turn job w).success in
      let shutting_down =
        is_canceled shutdown (run_job srv redis msgs cfg shutdown turn job w).flags in
      let n = next_state cfg.cron shutting_down success turn.end_ms job.task in
      (
        complete_row n.status n.next_run_at (some (turn.end_ms / 1000)) n.retry_count r,
        run_job_row turn job w r h reply,
        refl,
        refl,
        refl,
        refl,
        next_state_shutdown cfg.cron shutting_down success turn.end_ms job.task,
        next_state_success cfg.cron shutting_down success turn.end_ms job.task,
        next_state_failing cfg.cron shutting_down success turn.end_ms job.task,
      )

  -- A job whose execution no longer holds the row, because the task was canceled, recovered or
  -- deleted meanwhile, leaves the whole table as it is.
  pub run_job_stale :
      (turn : JobTurn) (job : Job) (w : World redis)
      → ((r : TaskRow)
          → lookup job.task.id w.table ≡ some r
          → r.current_execution_id ≢ some job.execution_id)
      → (run_job srv redis msgs cfg shutdown turn job w).table ≡ w.table
  unfolding run_job finish_job execution_cleanup
  run_job_stale turn job w h =
      let n =
        next_state cfg.cron
          (is_canceled shutdown (run_job srv redis msgs cfg shutdown turn job w).flags)
          (job_outcome srv redis msgs cfg shutdown turn job w).success turn.end_ms job.task in
      ground (
        arith,
        complete_task_execution_stale srv job.task.id job.execution_id n.status n.next_run_at
            (some (turn.end_ms / 1000)) n.retry_count w.table turn.complete_reply h,
      )

  -- A job whose task or scheduler is canceled when it starts is no success, and no worker is asked:
  -- the outcome is the same whatever the pool would answer.
  pub job_outcome_canceled :
      (turn : JobTurn) (job : Job) (w : World redis) (call : List ℕ → PoolReply)
      → (is_canceled job.source w.flags || is_canceled shutdown w.flags) ≡ true
      → ((job_outcome srv redis msgs cfg shutdown turn job w).success ≡ false)
        × (job_outcome srv redis msgs cfg shutdown (record turn { call = call }) job w
            ≡ job_outcome srv redis msgs cfg shutdown turn job w)
  unfolding job_outcome execute_task link_cancellation_tokens token
  job_outcome_canceled turn job w call h = elim (Option-cases turn.raised) [
    | inl n ↦ (ground (arith, n), ground (arith, n))
    | inr (what, n) ↦ elim (Option-cases what) [
      | inl m ↦ (ground (arith, n, m), ground (arith, n, m))
      | inr (text, m) ↦ (ground (arith, n, m), ground (arith, n, m))
    ]
  ]

  -- A stale task whose lock somebody holds is not recovered: the table stays as it is, and so does
  -- the lock, whatever becomes of the calls to Redis, as long as nobody frees it meanwhile.
  pub recover_one_excluded :
      (rounds : Rounds redis) (reply : Reply) (attempt : Attempt) (task : TaskMeta)
      (w : World redis) (other : String)
      → ((j : ℕ) (u : redis.State)
          → redis.get (lock_key redis (str_append "task:" task.id)) u ≡ some other
          → redis.get (lock_key redis (str_append "task:" task.id)) (rounds.meanwhile j u)
            ≡ some other)
      → redis.get (lock_key redis (str_append "task:" task.id)) w.store ≡ some other
      → let w' = recover_one srv redis msgs cfg shutdown rounds reply attempt task w in
        (w'.table ≡ w.table)
        × (redis.get (lock_key redis (str_append "task:" task.id)) w'.store ≡ some other)
  unfolding recover_one
  recover_one_excluded rounds reply attempt task w other keep h =
      let key = str_append "task:" task.id in
      let value =
        str_append "recovery:"
          (str_append cfg.node_id (str_append ":" task.current_execution_id)) in
      elim (Option-cases (lock redis rounds 1 key value task_lock_ttl_sec 0 w.store)) [
        | inl n ↦ (ground (arith, n), ground (arith, n, h))
        | inr (got, n) ↦
            let excluded =
              lock_excluded redis rounds 1 key value other task_lock_ttl_sec 0 w.store keep h got
                n in
            (ground (arith, n, excluded), ground (arith, n, excluded))
      ]

-- ===== src/Scheduler/Dispatch.antt =====
-- TaskScheduler::scanAndDispatch, for one due task.
pub mod Laws
pub mod Cleanup
use coroutine_rpc_scheduler.Common.{
  Bool, Option, String, StringMap, [], false, if◌then◌else◌, insert, is_empty, lookup, ltb, none,
  not, some, str_append, true, ℕ, ◌&&◌, ◌*◌, ◌++◌, ◌-◌, ◌/◌, ◌==◌, ◌∷◌,
}
use coroutine_rpc_scheduler.Cancellation.{make_source, cancel as cancel_source}
use coroutine_rpc_scheduler.Cancellation.Registry.{register_task, unregister_task}
use coroutine_rpc_scheduler.Metrics.{
  inc_lock_acquire_success, inc_lock_acquire_failure, observe_schedule_delay,
}
use coroutine_rpc_scheduler.Redis.Server.{RedisServer, Attempt}
use coroutine_rpc_scheduler.Redis.Lock.{Rounds, lock, unlock, lock_key}
use coroutine_rpc_scheduler.Redis.Services.{discover_services}
use coroutine_rpc_scheduler.Scheduler.LockRenewer.{add, remove}
use coroutine_rpc_scheduler.Scheduler.World.{World, Job}
use coroutine_rpc_scheduler.Tasks.{Table, TaskMeta, task_scheduled, task_disabled}
use coroutine_rpc_scheduler.Tasks.Store.{
  Server, Reply, claim_task_execution, complete_task_execution, update_task_runtime,
}

abbrev pub task_lock_ttl_sec : ℕ
task_lock_ttl_sec = 60

abbrev pub lock_wait_ms : ℕ
lock_wait_ms = 100

-- `lock` sleeps 50 ms between its rounds, so it makes 4 at most in 100 ms.
abbrev pub lock_fuel : ℕ
lock_fuel = 4

-- What the environment does while one task is dispatched: the execution id that is made for it,
-- the clocks (the system's, the database server's in seconds, the steady one), the fate of each
-- call, whether the thread pool takes the job, and what happens between the claim of the row and the
-- check for cancellation: what other statements do to the table (a cancel over RPC disables the
-- row), and whether the source of the execution is canceled (by that cancel, or by the renewer that
-- lost the lease).
module _ (redis : RedisServer) where
  pub record Turn : Type 0 where
    pub execution_id : String
    pub now_ms : ℕ
    pub server_now : ℕ
    pub steady_ms : ℕ
    pub rounds : Rounds redis
    pub claim_reply : Reply
    pub table_meanwhile : Table → Table
    pub canceled_meanwhile : Bool
    pub accepted : Bool
    pub complete_reply : Reply
    pub unlock_attempt : Attempt
    pub discover_attempt : Attempt
    pub runtime_reply : Reply

module _ (srv : Server) (redis : RedisServer) (node_id : String) where
  -- The action of `enqueue_cleanup`.
  unfoldable pub enqueue_cleanup : Turn redis → Job → Bool → World redis → World redis
  unfolding unregister_task remove
  enqueue_cleanup turn job claimed w =
      let task = job.task in
      let restored =
        (complete_task_execution srv turn.complete_reply task.id job.execution_id task_scheduled
          task.next_run_at task.last_run_at task.retry_count w.table).1 in
      record w {
        registry = unregister_task task.id job.execution_id w.registry;
        renewer = remove job.lock_key job.lock_value w.renewer;
        table = if claimed then restored else w.table;
        store = (unlock redis turn.unlock_attempt job.lock_key job.lock_value w.store).1;
      }

  -- What the branch that has the lock takes before it checks for cancellation: the lease, the
  -- registration and the claim, and what others do meanwhile. The answer is the claim's.
  unfoldable pub hold_task :
      Turn redis → TaskMeta → String → String → World redis → Bool × Job × World redis
  unfolding make_source add register_task
  hold_task turn task key value w =
      let e = turn.execution_id in
      let (source, flags) = make_source w.flags in
      let (claimed, table) =
        claim_task_execution srv turn.claim_reply turn.server_now task.id e node_id task_scheduled
          task.next_run_at w.table in
      (
        claimed,
        record {
          task = task;
          lock_key = key;
          lock_value = value;
          execution_id = e;
          source = source;
        },
        record w {
          flags = if turn.canceled_meanwhile then cancel_source source flags else flags;
          renewer = add turn.steady_ms key value task_lock_ttl_sec source w.renewer;
          registry = register_task task.id e source w.registry;
          table = turn.table_meanwhile table;
        },
      )

  -- The branch where the lock was acquired.
  unfoldable pub dispatch_locked :
      Turn redis → TaskMeta → String → String → World redis → World redis
  unfolding enqueue_cleanup hold_task
  dispatch_locked turn task key value w =
      let (claimed, job, held) = hold_task turn task key value w in
      if not claimed
      then enqueue_cleanup turn job false held
      else if turn.canceled_meanwhile
      then enqueue_cleanup turn job true held
      else if not turn.accepted
      then enqueue_cleanup turn job true held
      else record held { queue = w.queue ++ (job ∷ []) }

  abbrev pub task_key : TaskMeta → String
  task_key task = str_append "task:" task.id

  abbrev pub owner : Turn redis → String
  owner turn = str_append node_id (str_append ":" turn.execution_id)

  -- From the observation of the delay on. Where the fuel of `lock` ran out nothing is known; the
  -- fuel is enough (`lock_total`), and the branch stands for no run of the code.
  unfoldable pub dispatch_task : Turn redis → TaskMeta → World redis → World redis
  unfolding dispatch_locked
  dispatch_task turn task w =
      let delay : ℕ = elim task.next_run_at [ none ↦ 0 | some due ↦ turn.now_ms - 1000 * due ] in
      let w' = record w { metrics = observe_schedule_delay delay w.metrics } in
      elim (lock redis turn.rounds lock_fuel (task_key task) (owner turn) task_lock_ttl_sec
        lock_wait_ms w'.store) [
          | none ↦ w'
          | some (got, store) ↦
              if got
              then dispatch_locked turn task (task_key task) (owner turn)
                  (record w' { store = store; metrics = inc_lock_acquire_success w'.metrics })
              else record w' { store = store; metrics = inc_lock_acquire_failure w'.metrics }
        ]

  -- The misfire policy `skip`: an overdue task is moved to its next time, or disabled without one.
  -- `none` means that the task is not skipped.
  unfoldable pub skip_misfire :
      Bool → ℕ → (String → ℕ → ℕ) → Turn redis → TaskMeta → World redis → Option (World redis)
  skip_misfire policy_skip grace cron turn task w = elim task.next_run_at [
    | none ↦ none
    | some due ↦
        let next_ms = cron task.cron_expr turn.now_ms in
        if policy_skip && ltb grace (turn.now_ms / 1000 - due)
        then some (record w {
          table =
              if next_ms == 0
              then (update_task_runtime srv turn.runtime_reply task.id task_disabled
                  task.next_run_at task.last_run_at task.retry_count w.table).1
              else (update_task_runtime srv turn.runtime_reply task.id task_scheduled
                  (some (next_ms / 1000)) task.last_run_at task.retry_count w.table).1;
        })
        else none
  ]

  -- The answers of discovery that one scan remembers, by handler.
  abbrev pub Availability : Type 0
  Availability = StringMap Bool

  -- One round of the loop over the due tasks.
  unfoldable pub scan_task :
      Bool
      → ℕ
      → (String → ℕ → ℕ)
      → String
      → Turn redis
      → TaskMeta
      → World redis × Availability
      → World redis × Availability
  unfolding skip_misfire dispatch_task
  scan_task policy_skip grace cron service_name turn task (w, known) =
      elim (skip_misfire policy_skip grace cron turn task w) [
        | some w' ↦ (w', known)
        | none ↦ elim (lookup task.handler known) [
          | some available ↦ (if available then dispatch_task turn task w else w, known)
          | none ↦
              let (found, store) =
                discover_services redis turn.discover_attempt
                  (str_append service_name (str_append ":" task.handler)) w.store in
              let known' = insert task.handler (not (is_empty found)) known in
              let w' = record w { store = store } in
              (if is_empty found then w' else dispatch_task turn task w', known')
        ]
      ]

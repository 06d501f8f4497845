-- ===== src/Scheduler/Scan.antt =====
-- TaskScheduler::scanAndDispatch of src/scheduler/task_scheduler.cpp as a whole: the recovery of
-- stale executions, and the loop over the due tasks. `meanwhile` is what other threads and nodes do
-- between two rounds, to anything but the record of the enqueued jobs.
pub mod Jobs
use coroutine_rpc_scheduler.Common.{Bool, List, [], max, ℕ, ◌*◌, ◌+◌, ◌∷◌}
use coroutine_rpc_scheduler.Cancellation.{Source}
use coroutine_rpc_scheduler.Redis.Server.{RedisServer, Attempt}
use coroutine_rpc_scheduler.Redis.Lock.{Rounds}
use coroutine_rpc_scheduler.Scheduler.Dispatch.{task_lock_ttl_sec, Turn, Availability, scan_task}
use coroutine_rpc_scheduler.Scheduler.Execute.{Messages}
use coroutine_rpc_scheduler.Scheduler.Job.{recover_one, Settings}
use coroutine_rpc_scheduler.Scheduler.World.{World}
use coroutine_rpc_scheduler.Tasks.{TaskMeta}
use coroutine_rpc_scheduler.Tasks.Queries.{ReadReply, get_due_tasks, get_stale_running_tasks}
use coroutine_rpc_scheduler.Tasks.Store.{Server, Reply}

abbrev pub stale_recovery_batch_size : ℕ
stale_recovery_batch_size = 50

abbrev pub due_batch_size : ℕ
due_batch_size = 100

module _ (srv : Server) (redis : RedisServer) (msgs : Messages) (cfg : Settings)
    (shutdown : Source) where
  -- The environment of one round of the recovery.
  pub record RecoverTurn : Type 0 where
    pub rounds : Rounds redis
    pub reply : Reply
    pub attempt : Attempt

  -- The environment of a scan. Rounds are counted from 0 in each of the two loops.
  pub record ScanTurn : Type 0 where
    pub stale_read : ReadReply
    pub stale_now : ℕ
    pub recover : ℕ → RecoverTurn
    pub due_read : ReadReply
    pub due_now : ℕ
    pub dispatch : ℕ → Turn redis
    pub meanwhile : ℕ → World redis → World redis

  abbrev pub between : ScanTurn → ℕ → World redis → World redis
  between turn i w = record (turn.meanwhile i w) { queue = w.queue }

  unfoldable pub recover_tasks : ScanTurn → ℕ → List TaskMeta → World redis → World redis
  unfolding recover_one
  recover_tasks turn i [] w = w
  recover_tasks turn i (task ∷ tasks) w =
      let t = turn.recover i in
      let w' = recover_one srv redis msgs cfg shutdown t.rounds t.reply t.attempt task w in
      recover_tasks turn (i + 1) tasks (between turn i w')

  -- The configured time is 0 where it is not positive.
  unfoldable pub recover_stale_executions : ScanTurn → ℕ → World redis → World redis
  unfolding recover_tasks
  recover_stale_executions turn running_stale_timeout_sec w =
      let stale_after_sec = max running_stale_timeout_sec (task_lock_ttl_sec * 2) in
      recover_tasks turn 0
        (get_stale_running_tasks turn.stale_read turn.stale_now stale_after_sec
          stale_recovery_batch_size w.table)
        w

  unfoldable pub scan_tasks :
      Bool
      → ℕ
      → ScanTurn
      → ℕ
      → List TaskMeta
      → World redis
      → Availability srv redis cfg.node_id
      → World redis
  unfolding scan_task
  scan_tasks policy_skip grace turn i [] w known = w
  scan_tasks policy_skip grace turn i (task ∷ tasks) w known =
      let (w', known') =
        scan_task srv redis cfg.node_id policy_skip grace cfg.cron cfg.service_name
          (turn.dispatch i) task (w, known) in
      scan_tasks policy_skip grace turn (i + 1) tasks (between turn i w') known'

  -- The due tasks of a scan: those that the table holds behind the recovery.
  abbrev pub due_tasks : ScanTurn → ℕ → World redis → List TaskMeta
  due_tasks turn running_stale_timeout_sec w =
      get_due_tasks turn.due_read turn.due_now due_batch_size
        (recover_stale_executions turn running_stale_timeout_sec w).table

  unfoldable pub scan_and_dispatch : Bool → ℕ → ℕ → ScanTurn → World redis → World redis
  unfolding recover_stale_executions scan_tasks
  scan_and_dispatch policy_skip grace running_stale_timeout_sec turn w =
      scan_tasks policy_skip grace turn 0 (due_tasks turn running_stale_timeout_sec w)
        (recover_stale_executions turn running_stale_timeout_sec w) []

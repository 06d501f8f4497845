-- ===== src/Scheduler/Scan/Jobs.antt =====
-- Which jobs a scan enqueues.
use coroutine_rpc_scheduler.Common.{
  Bool, Bool-cases, List, Option-cases, String, [], ap, append-nil, append_assoc, arith, inl, inr,
  is_empty, length, lookup, max, none, refl, some, str_append, subst, sym, ℕ, ◌*◌, ◌++◌, ◌+◌, ◌-◌,
  ◌∙◌, ◌∷◌, ◌≡◌, ◌≤◌, ◌⊎◌,
}
use coroutine_rpc_scheduler.Cancellation.{Source}
use coroutine_rpc_scheduler.Redis.Server.{RedisServer, Attempt}
use coroutine_rpc_scheduler.Redis.Lock.{Rounds, lock}
use coroutine_rpc_scheduler.Scheduler.Dispatch.{
  Turn, enqueue_cleanup, hold_task, dispatch_locked, task_lock_ttl_sec, lock_wait_ms, lock_fuel,
  task_key, owner, dispatch_task, skip_misfire, Availability, scan_task,
}
use coroutine_rpc_scheduler.Scheduler.Execute.{Messages}
use coroutine_rpc_scheduler.Scheduler.Job.{Settings, recover_one}
use coroutine_rpc_scheduler.Scheduler.Scan.{
  ScanTurn, between, recover_tasks, scan_tasks, stale_recovery_batch_size, due_batch_size,
  recover_stale_executions, due_tasks, scan_and_dispatch,
}
use coroutine_rpc_scheduler.Metrics.{inc_lock_acquire_success, observe_schedule_delay}
use coroutine_rpc_scheduler.Redis.Services.{discover_services}
use coroutine_rpc_scheduler.Tasks.Queries.{get_stale_running_tasks, length-get_due_tasks-le}
use coroutine_rpc_scheduler.Scheduler.World.{Job, World}
use coroutine_rpc_scheduler.Tasks.{TaskMeta}
use coroutine_rpc_scheduler.Tasks.Store.{Reply, Server}

-- The jobs are for some of the tasks, in their order, one job for a task at most.
abbrev pub Selects : List TaskMeta → List Job → Type 0
Selects [] jobs = jobs ≡ []
Selects (task ∷ tasks) jobs =
    Selects tasks jobs
    ⊎ ((job : Job) × (rest : List Job) × (jobs ≡ job ∷ rest)
        × (job.task ≡ task)
        × Selects tasks rest)

Selects-length :
    (tasks : List TaskMeta) (jobs : List Job) → Selects tasks jobs → length jobs ≤ length tasks
Selects-length [] jobs h = ground (arith, h)
Selects-length (task ∷ tasks) jobs (inl h) = omega (arith, Selects-length tasks jobs h)
Selects-length (task ∷ tasks) jobs (inr (job, rest, e, _, h)) =
    let l = ap length e in omega (arith, l, Selects-length tasks rest h)

module _ (srv : Server) (redis : RedisServer) (node_id : String) where
  -- A dispatch enqueues its own task, or nothing.
  abbrev pub Enqueues : TaskMeta → World redis → World redis → Type 0
  Enqueues task w w' =
      (w'.queue ≡ w.queue) ⊎ ((job : Job) × (w'.queue ≡ w.queue ++ (job ∷ [])) × (job.task ≡ task))

  dispatch_locked-queue :
      (turn : Turn redis) (task : TaskMeta) (key value : String) (w : World redis)
      → Enqueues task w (dispatch_locked srv redis node_id turn task key value w)
  unfolding dispatch_locked enqueue_cleanup hold_task
  dispatch_locked-queue turn task key value w =
      let held = hold_task srv redis node_id turn task key value w in
      let job = held.1 in
      elim (Bool-cases held.0) [
        | inr e ↦ inl (ground (arith, e))
        | inl e ↦ elim (Bool-cases turn.canceled_meanwhile) [
          | inl f ↦ inl (ground (arith, e, f))
          | inr f ↦ elim (Bool-cases turn.accepted) [
            | inr g ↦ inl (ground (arith, e, f, g))
            | inl g ↦ inr (job, ground (arith, e, f, g), refl)
          ]
        ]
      ]

  abbrev delay : Turn redis → TaskMeta → ℕ
  delay turn task = elim task.next_run_at [ none ↦ 0 | some due ↦ turn.now_ms - 1000 * due ]

  dispatch_task-queue :
      (turn : Turn redis) (task : TaskMeta) (w : World redis)
      → Enqueues task w (dispatch_task srv redis node_id turn task w)
  unfolding dispatch_task
  dispatch_task-queue turn task w =
      let key = task_key srv redis node_id task in
      let value = owner srv redis node_id turn in
      elim (Option-cases
        (lock redis turn.rounds lock_fuel key value task_lock_ttl_sec lock_wait_ms w.store)) [
          | inl e ↦ inl (ground (arith, e))
          | inr ((got, store), e) ↦ elim (Bool-cases got) [
            | inr f ↦ inl (ground (arith, e, f))
            | inl f ↦
                let locked = record w {
                  store = store;
                  metrics =
                      inc_lock_acquire_success (observe_schedule_delay (delay turn task) w.metrics);
                } in
                let same : dispatch_task srv redis node_id turn task w
                    ≡ dispatch_locked srv redis node_id turn task key value locked =
                  ground (arith, e, f) in
                subst (Enqueues task w) (sym same)
                  (dispatch_locked-queue turn task key value locked)
          ]
        ]

  skip_misfire-queue :
      (policy_skip : Bool) (grace : ℕ) (cron : String → ℕ → ℕ) (turn : Turn redis) (task : TaskMeta)
      (w w' : World redis)
      → skip_misfire srv redis node_id policy_skip grace cron turn task w ≡ some w'
      → w'.queue ≡ w.queue
  unfolding skip_misfire
  skip_misfire-queue policy_skip grace cron turn task w w' h = ground arith

  scan_task-queue :
      (policy_skip : Bool) (grace : ℕ) (cron : String → ℕ → ℕ) (service_name : String)
      (turn : Turn redis) (task : TaskMeta) (w : World redis)
      (known : Availability srv redis node_id)
      → Enqueues task w
          (scan_task srv redis node_id policy_skip grace cron service_name turn task (w, known)).0
  unfolding scan_task
  scan_task-queue policy_skip grace cron service_name turn task w known =
      let r =
        (scan_task srv redis node_id policy_skip grace cron service_name turn task (w, known)).0 in
      let (found, store) =
        discover_services redis turn.discover_attempt
          (str_append service_name (str_append ":" task.handler)) w.store in
      let seen = record w { store = store } in
      let own = dispatch_task-queue turn task w in
      let own_seen = dispatch_task-queue turn task seen in
      elim (Option-cases (skip_misfire srv redis node_id policy_skip grace cron turn task w)) [
        | inr (w', e) ↦
            let q = skip_misfire-queue policy_skip grace cron turn task w w' e in
            let same : r ≡ w' = ground (arith, e) in inl (ap (λ x. x.queue) same ∙ q)
        | inl e ↦ elim (Option-cases (lookup task.handler known)) [
          | inr (available, f) ↦ elim (Bool-cases available) [
            | inr g ↦ let same : r ≡ w = ground (arith, e, f, g) in inl (ap (λ x. x.queue) same)
            | inl g ↦
                let same : r ≡ dispatch_task srv redis node_id turn task w =
                  ground (arith, e, f, g) in
                subst (Enqueues task w) (sym same) own
          ]
          | inl f ↦ elim (Bool-cases (is_empty found)) [
            | inl g ↦ let same : r ≡ seen = ground (arith, e, f, g) in inl (ap (λ x. x.queue) same)
            | inr g ↦
                let same : r ≡ dispatch_task srv redis node_id turn task seen =
                  ground (arith, e, f, g) in
                subst (Enqueues task w) (sym same) own_seen
          ]
        ]
      ]

module _ (srv : Server) (redis : RedisServer) (msgs : Messages) (cfg : Settings)
    (shutdown : Source) where
  recover_one-queue :
      (rounds : Rounds redis) (reply : Reply) (attempt : Attempt) (task : TaskMeta)
      (w : World redis)
      → (recover_one srv redis msgs cfg shutdown rounds reply attempt task w).queue ≡ w.queue
  unfolding recover_one
  recover_one-queue rounds reply attempt task w = ground arith

  recover_tasks-queue :
      (turn : ScanTurn srv redis msgs cfg shutdown) (i : ℕ) (tasks : List TaskMeta)
      (w : World redis)
      → (recover_tasks srv redis msgs cfg shutdown turn i tasks w).queue ≡ w.queue
  unfolding recover_tasks
  recover_tasks-queue turn i [] w = refl
  recover_tasks-queue turn i (task ∷ tasks) w =
      let t = turn.recover i in
      let w' = recover_one srv redis msgs cfg shutdown t.rounds t.reply t.attempt task w in
      recover_tasks-queue turn (i + 1) tasks (between srv redis msgs cfg shutdown turn i w')
      ∙ recover_one-queue t.rounds t.reply t.attempt task w

  scan_tasks-queue :
      (policy_skip : Bool) (grace : ℕ) (turn : ScanTurn srv redis msgs cfg shutdown) (i : ℕ)
      (tasks : List TaskMeta) (w : World redis) (known : Availability srv redis cfg.node_id)
      → (jobs : List Job) × ((scan_tasks srv redis msgs cfg shutdown policy_skip grace turn i tasks
            w known).queue
          ≡ w.queue ++ jobs)
        × Selects tasks jobs
  unfolding scan_tasks
  scan_tasks-queue policy_skip grace turn i [] w known = ([], sym (append-nil w.queue), refl)
  scan_tasks-queue policy_skip grace turn i (task ∷ tasks) w known =
      let (w', known') =
        scan_task srv redis cfg.node_id policy_skip grace cfg.cron cfg.service_name
          (turn.dispatch i) task (w, known) in
      let (jobs, all, selected) =
        scan_tasks-queue policy_skip grace turn (i + 1) tasks
          (between srv redis msgs cfg shutdown turn i w') known' in
      elim (scan_task-queue srv redis cfg.node_id policy_skip grace cfg.cron cfg.service_name
        (turn.dispatch i) task w known) [
          | inl e ↦ (jobs, all ∙ ap (λ q. q ++ jobs) e, inl selected)
          | inr (job, e, same) ↦ (
            job ∷ jobs,
            all ∙ ap (λ q. q ++ jobs) e ∙ append_assoc w.queue (job ∷ []) jobs,
            inr (job, jobs, refl, same, selected),
          )
        ]

  -- A scan, the recovery of stale executions before it included, enqueues jobs for tasks that were
  -- due behind the recovery, in the order of their times, each at most once and 100 in all at most.
  -- Meanwhile other threads and nodes may change anything else.
  pub scan_and_dispatch_jobs :
      (policy_skip : Bool) (grace stale : ℕ) (turn : ScanTurn srv redis msgs cfg shutdown)
      (w : World redis)
      → (jobs : List Job) × ((scan_and_dispatch srv redis msgs cfg shutdown policy_skip grace stale
            turn w).queue
          ≡ w.queue ++ jobs)
        × Selects (due_tasks srv redis msgs cfg shutdown turn stale w) jobs
        × (length jobs ≤ 100)
  unfolding scan_and_dispatch recover_stale_executions
  scan_and_dispatch_jobs policy_skip grace stale turn w =
      let recovered = recover_stale_executions srv redis msgs cfg shutdown turn stale w in
      let due = due_tasks srv redis msgs cfg shutdown turn stale w in
      let (jobs, all, selected) = scan_tasks-queue policy_skip grace turn 0 due recovered [] in
      let stale_tasks =
        get_stale_running_tasks turn.stale_read turn.stale_now (max stale (task_lock_ttl_sec * 2))
          stale_recovery_batch_size w.table in
      let kept : recovered.queue ≡ w.queue = recover_tasks-queue turn 0 stale_tasks w in
      let few = length-get_due_tasks-le turn.due_read turn.due_now due_batch_size recovered.table in
      (
        jobs,
        all ∙ ap (λ q. q ++ jobs) kept,
        selected,
        omega (arith, few, Selects-length due jobs selected),
      )

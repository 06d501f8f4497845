-- ===== src/Examples/Scheduling.antt =====
-- Dispatching, running and recovering a task, at concrete inputs.
use coroutine_rpc_scheduler.Common.{
  String, [], ap, arith, false, length, lookup, none, refl, some, true, ℕ, ◌+◌, ◌/◌, ◌<◌, ◌↔◌, ◌∷◌,
  ◌≡◌, ◌≤◌,
}
use coroutine_rpc_scheduler.Cancellation.{is_canceled, Flags}
use coroutine_rpc_scheduler.Examples.Memory.{memory, locked, quiet, nothing}
use coroutine_rpc_scheduler.Examples.Calls.{due_task, messages, pool}
use coroutine_rpc_scheduler.Examples.TaskTable.{
  found_rows, one_task, idle_row, claimed, claimed-IsLeased, claimed_by_other,
}
use coroutine_rpc_scheduler.Metrics.{no_metrics}
use coroutine_rpc_scheduler.Redis.Server.{answered as redis_answered, command}
use coroutine_rpc_scheduler.Redis.Lock.{lock_key, lock_script, lock_loop, lock}
use coroutine_rpc_scheduler.Scheduler.World.{World, Job}
use coroutine_rpc_scheduler.Scheduler.Dispatch.{dispatch_task, Turn, dispatch_locked}
use coroutine_rpc_scheduler.Scheduler.Dispatch.Cleanup.{dispatch_locked_released}
use coroutine_rpc_scheduler.Scheduler.Dispatch.Laws.{dispatch_task_excluded, dispatch_task_enqueued}
use coroutine_rpc_scheduler.Scheduler.Job.{JobTurn, Settings, run_job, job_outcome}
use coroutine_rpc_scheduler.Scheduler.Job.Laws.{run_job_completes, run_job_stale}
use coroutine_rpc_scheduler.Scheduler.LockRenewer.{Lease, Renewer}
use coroutine_rpc_scheduler.Tasks.{TaskRow, task_disabled, task_scheduled}
use coroutine_rpc_scheduler.Tasks.Lease.{IsLeased}
use coroutine_rpc_scheduler.Tasks.Store.{
  answered, updated, schedule_matches, claim_row, claim_task_execution,
}

abbrev pub world : World memory
world = record {
  table = one_task;
  history = [];
  store = locked;
  registry = [];
  renewer = record { leases = []; running = true };
  flags = record { next = 1; canceled = λ s. false };
  metrics = no_metrics;
  queue = [];
}

abbrev pub turn : Turn memory
turn = record {
  execution_id = "t:61:0";
  now_ms = 61000;
  server_now = 61;
  steady_ms = 5;
  rounds = quiet;
  claim_reply = answered;
  table_meanwhile = λ t. t;
  canceled_meanwhile = false;
  accepted = true;
  complete_reply = answered;
  unlock_attempt = redis_answered;
  discover_attempt = redis_answered;
  runtime_reply = answered;
}

-- The lock of the task is free.
abbrev free_world : World memory
free_world = record world { store = nothing }

enqueued : length (dispatch_task found_rows memory "node1" turn due_task free_world).queue ≡ 1
unfolding dispatch_task dispatch_locked claim_task_execution updated lookup schedule_matches lock
    lock_loop command lock_script
enqueued = refl

dispatch_task_enqueued_example :
    let w' = dispatch_task found_rows memory "node1" turn due_task free_world in
    (w'.store.values (lock_key memory "task:t") ≡ some "node1:t:61:0")
    × ((r : TaskRow) × IsLeased "t" "t:61:0" w'.table r)
    × (lookup "t" w'.registry ≡ some (record { execution_id = "t:61:0"; source = 1 }))
    × ((l : Lease) × (lookup "task:t" w'.renewer.leases ≡ some l)
        × (l.value ≡ "node1:t:61:0")
        × (l.cancellation ≡ 1))
    × (is_canceled 1 w'.flags ≡ false)
dispatch_task_enqueued_example =
    dispatch_task_enqueued found_rows memory "node1" turn due_task free_world (λ t r leased. leased)
      (λ q. ground (arith, ap length q, enqueued))

abbrev rejected : Turn memory
rejected = record turn { accepted = false }

not_enqueued :
    length
      (dispatch_locked found_rows memory "node1" rejected due_task "task:t" "node1:e" world).queue
    ≡ 0
unfolding dispatch_locked claim_task_execution updated lookup schedule_matches
not_enqueued = refl

dispatch_locked_released_example :
    let w' = dispatch_locked found_rows memory "node1" rejected due_task "task:t" "node1:e" world in
    ((id : String) → lookup id w'.table ≡ lookup id one_task)
    × (lookup "t" w'.registry ≡ none)
    × (lookup "task:t" w'.renewer.leases ≡ none)
    × (w'.store.values (lock_key memory "task:t") ≡ none)
unfolding lookup
dispatch_locked_released_example =
    dispatch_locked_released found_rows memory "node1" rejected due_task "task:t" "node1:e" world
      idle_row refl refl refl refl refl (λ t id. refl) (λ e. ground arith) refl refl refl refl refl
      not_enqueued

abbrev pub settings : Settings
settings = record {
  node_id = "node1";
  service_name = "rpc";
  auth_token = "";
  task_timeout = none;
  cron = λ expr ms. ms + 60000;
}

abbrev job : Job
job = record {
  task = due_task;
  lock_key = "task:t";
  lock_value = "node1:e";
  execution_id = "t:61:0";
  source = 1;
}

abbrev job_turn : JobTurn
job_turn = record {
  start_ms = 61100;
  request_ms = 61101;
  end_ms = 61900;
  duration_ms = 800;
  call = pool;
  raised = none;
  during_call = λ fl. fl;
  during_history = λ fl. fl;
  discover_attempt = redis_answered;
  history_reply = answered;
  complete_reply = answered;
  unlock_attempt = redis_answered;
}

abbrev running : World memory
running = record world { table = claimed }

run_job_completes_example :
    let success =
      (job_outcome found_rows memory messages settings 0 job_turn job running).success in
    let w' = run_job found_rows memory messages settings 0 job_turn job running in
    let shutting_down = is_canceled 0 w'.flags in
    (r' : TaskRow) × (lookup "t" w'.table ≡ some r')
    × (r'.current_execution_id ≡ none)
    × (r'.running_node ≡ none)
    × (r'.started_at ≡ none)
    × (r'.last_run_at ≡ some (61900 / 1000))
    × (shutting_down ≡ true
        → (r'.status ≡ task_scheduled)
          × (r'.next_run_at ≡ due_task.next_run_at)
          × (r'.retry_count ≡ due_task.retry_count))
    × (shutting_down ≡ false
        → success ≡ true
        → (r'.retry_count ≡ 0)
          × ((r'.status ≡ task_disabled) ↔ (61900 + 60000 ≡ 0))
          × (0 < 61900 + 60000
              → (r'.status ≡ task_scheduled) × (r'.next_run_at ≡ some ((61900 + 60000) / 1000))))
    × (shutting_down ≡ false
        → success ≡ false
        → (r'.retry_count ≡ due_task.retry_count + 1)
          × ((r'.status ≡ task_disabled) ↔ (due_task.max_retries ≤ due_task.retry_count + 1))
          × (due_task.retry_count + 1 < due_task.max_retries
              → (at : ℕ) × (r'.status ≡ task_scheduled)
                × (r'.next_run_at ≡ some at)
                × (61900 / 1000 + 5 ≤ at)
                × (at ≤ 61900 / 1000 + 300)))
run_job_completes_example =
    run_job_completes found_rows memory messages settings 0 job_turn job running
      (claim_row 61 "t:61:0" "node1" idle_row) claimed-IsLeased refl

-- A job that was recovered meanwhile.
abbrev old_job : Job
old_job = record job { execution_id = "t:1:9" }

run_job_stale_example :
    (run_job found_rows memory messages settings 0 job_turn old_job running).table ≡ claimed
run_job_stale_example =
    run_job_stale found_rows memory messages settings 0 job_turn old_job running
      (λ r e. claimed_by_other r e)

abbrev lease : Lease
lease = record {
  key = "task:t";
  value = "node1:e";
  ttl_sec = 60;
  next_renew_at = 20000;
  cancellation = 1;
}

abbrev renewer : Renewer
renewer = record { leases = ("task:t", lease) ∷ []; running = true }

abbrev flags : Flags
flags = record { next = 2; canceled = λ s. false }

dispatch_task_excluded_example :
    let w' = dispatch_task found_rows memory "node2" turn due_task world in
    (w'.queue ≡ world.queue)
    × (w'.table ≡ one_task)
    × (w'.registry ≡ world.registry)
    × (w'.renewer ≡ world.renewer)
    × (w'.store.values (lock_key memory "task:t") ≡ some "node1:e")
dispatch_task_excluded_example =
    dispatch_task_excluded found_rows memory "node2" turn due_task world "node1:e" (λ j u h. h) refl

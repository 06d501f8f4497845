-- ===== src/Examples/Requests.antt =====
-- The handlers of the dispatcher and the thread pool, at concrete inputs.
use coroutine_rpc_scheduler.Common.{
  Bool, List, String, [], ap, arith, false, insert, lookup, none, refl, some, str_empty, str_eq,
  true, ℕ, ◌+◌, ◌/◌, ◌<◌, ◌↔◌, ◌∷◌, ◌≡◌, ◌⊎◌,
}
use coroutine_rpc_scheduler.Cancellation.{is_canceled, token}
use coroutine_rpc_scheduler.Cancellation.Registry.{Registry}
use coroutine_rpc_scheduler.Dispatcher.{
  succeeded, Dispatcher, combined, replies, rpc_error, ErrorCode,
}
use coroutine_rpc_scheduler.Dispatcher.Auth.{authorized, authorized_lem}
use coroutine_rpc_scheduler.Dispatcher.Control.{
  Control, Turn, SubmitTaskRequest, UpdateTaskRequest, EnableTaskRequest, TaskRequest,
  handle_update_task, handle_delete_task, handle_cancel_task,
}
use coroutine_rpc_scheduler.Dispatcher.Control.Laws.{
  handle_cancel_task_running, handle_running_task,
}
use coroutine_rpc_scheduler.Handlers.{HandlerEnd, returned, raised, raised_unknown}
use coroutine_rpc_scheduler.Dispatcher.Execution.{
  ExecuteRequest, handle_execute_task, handle_execute_task_lem,
}
use coroutine_rpc_scheduler.Dispatcher.RunNow.{RunTurn, RunState, run_found, run_found_success}
use coroutine_rpc_scheduler.Examples.TaskTable.{
  found_rows, idle_row, one_task, claimed, claimed-IsLeased,
}
use coroutine_rpc_scheduler.Examples.Calls.{due_task}
use coroutine_rpc_scheduler.Metrics.{no_metrics}
use coroutine_rpc_scheduler.Tasks.{TaskRow, task_disabled}
use coroutine_rpc_scheduler.Tasks.Store.{
  updated, update_row, schedule_matches, claim_row, answered, release_row,
}
use coroutine_rpc_scheduler.Tasks.Queries.{read_all}
use coroutine_rpc_scheduler.ThreadPool.{make_config, make_pool}
use coroutine_rpc_scheduler.ThreadPool.Invariant.{
  Event, enqueues, adjusts, polls, wakes, stops, run, IsSound, make_pool-IsSound,
}

abbrev config : Dispatcher
config = record {
  role = combined;
  auth_token = 115 ∷ 51 ∷ [];
  node_id = "node1";
  worker_service_name = "worker";
  has_db = true;
  has_handler = λ h. str_eq h "Echo";
  discover = none;
}

abbrev good : List ℕ
good = 115 ∷ 51 ∷ []

abbrev wrong : List ℕ
wrong = 115 ∷ 52 ∷ []

authorized_lem_example : (authorized good wrong ≡ true) ↔ ((good ≡ []) ⊎ (good ≡ wrong))
authorized_lem_example =
    authorized_lem good wrong (omega arith, (omega arith, tt)) (omega arith, (omega arith, tt))

abbrev cron : String → ℕ → ℕ
cron expr ms = ms + 60000

abbrev turn : Turn
turn = record { now_ms = 61000; server_now = 61; read = read_all; reply = answered }

abbrev control : Control
control = record { table = one_task; flags = record { next = 2; canceled = λ s. false } }

abbrev busy : Control
busy = record control { table = claimed }

abbrev registry : Registry
registry = ("t", record { execution_id = "t:61:0"; source = 1 }) ∷ []

abbrev submit : List ℕ → SubmitTaskRequest
submit token = record {
  cron_expr = "0 * * * * *";
  params = "";
  handler = "Echo";
  auth_token = token;
}

abbrev update : List ℕ → UpdateTaskRequest
update token = record { task = some due_task; auth_token = token }

abbrev enable : List ℕ → EnableTaskRequest
enable token = record { task_id = "t"; enabled = true; auth_token = token }

abbrev on_task : List ℕ → TaskRequest
on_task token = record { task_id = "t"; auth_token = token }

canceled :
    (handle_cancel_task found_rows cron config registry turn (some (on_task good)) busy).0
    ≡ replies true "" ""
unfolding handle_cancel_task lookup updated
canceled = refl

handle_cancel_task_running_example :
    let s' =
      (handle_cancel_task found_rows cron config registry turn (some (on_task good)) busy).1 in
    ((r : TaskRow) × (lookup "t" s'.table ≡ some r)
      × (r.status ≡ task_disabled)
      × (r.current_execution_id ≡ none))
    × (is_canceled 1 s'.flags ≡ true)
unfolding lookup
handle_cancel_task_running_example =
    handle_cancel_task_running found_rows cron config registry turn (on_task good) busy
      (claim_row 61 "t:61:0" "node1" idle_row) "t:61:0"
      (record { execution_id = "t:61:0"; source = 1 }) claimed-IsLeased refl (ap succeeded canceled)

handle_running_task_example :
    let deleted =
      handle_delete_task found_rows cron config registry turn (some (on_task good)) busy in
    let updated =
      handle_update_task found_rows cron config registry turn (some (update good)) busy in
    (succeeded deleted.0 ≡ false)
    × (deleted.1.table ≡ claimed)
    × (succeeded updated.0 ≡ false)
    × (updated.1.table ≡ claimed)
handle_running_task_example =
    handle_running_task found_rows cron config registry turn (on_task good) good due_task busy
      (claim_row 61 "t:61:0" "node1" idle_row) "t:61:0" refl claimed-IsLeased

abbrev execution : ExecuteRequest
execution = record {
  task_id = "t";
  execution_id = "t:61:0";
  params = "";
  handler = "Echo";
  deadline_unix_ms = 66000;
  auth_token = 115 ∷ 51 ∷ [];
}

-- A handler that counts its runs, and throws an exception without a text.
abbrev throws_empty : ExecuteRequest → ℕ → HandlerEnd × ℕ
throws_empty req runs = (raised "", runs + 1)

executed :
    handle_execute_task config throws_empty 61000 (some execution) 0
    ≡ (replies true "Exception: " "", 1)
unfolding handle_execute_task
executed = refl

handle_execute_task_lem_example :
    let (response, runs) = handle_execute_task config throws_empty 61000 (some execution) 0 in
    ((code : ErrorCode) (message : String) → response ≡ rpc_error code message → runs ≡ 0)
    × ((success : Bool) (result error : String)
        → response ≡ replies success result error
        → (authorized good good ≡ true)
          × (config.has_handler "Echo" ≡ true)
          × (0 < 66000 → 61000 < 66000)
          × (runs ≡ 1)
          × ((r : String) → raised "" ≡ returned r → (success ≡ true) × (result ≡ r))
          × ((what : String)
              → raised "" ≡ raised what
              → (success ≡ str_empty what) × (error ≡ what))
          × (raised "" ≡ raised_unknown → (success ≡ false) × (str_empty error ≡ false)))
handle_execute_task_lem_example = handle_execute_task_lem config throws_empty 61000 execution 0

abbrev run_turn : RunTurn
run_turn = record {
  uuid = "9";
  server_now = 61;
  start_ms = 61000;
  end_ms = 62000;
  duration_ms = 1000;
  read = read_all;
  claim_reply = answered;
  history_reply = answered;
  complete_reply = answered;
  invoke_worker = λ e task. record { success = true; result = "ok"; error = ""; endpoint = "a:1" };
  meanwhile = λ t. t;
}

abbrev run_state : RunState
run_state = record { table = one_task; history = []; metrics = no_metrics }

ran : succeeded (run_found found_rows config run_turn due_task run_state).0 ≡ true
unfolding run_found lookup insert update_row updated schedule_matches
ran = refl

run_found_success_example :
    (true ≡ true)
    × (lookup "t" (run_found found_rows config run_turn due_task run_state).1.table
        ≡ some (record (release_row idle_row) { last_run_at = some (62000 / 1000) }))
unfolding lookup
run_found_success_example =
    run_found_success found_rows config run_turn due_task run_state idle_row refl refl refl
      (λ t. refl) ran

abbrev events : List (Event ℕ)
events =
    enqueues (some 7)
    ∷ enqueues (some 8)
    ∷ adjusts 2
    ∷ polls
    ∷ polls
    ∷ polls
    ∷ wakes
    ∷ stops
    ∷ polls
    ∷ wakes
    ∷ []

make_pool-IsSound_example :
    IsSound
      (make_config 1 4 1 10)
      (run (make_config 1 4 1 10) events (make_pool (make_config 1 4 1 10)))
make_pool-IsSound_example = make_pool-IsSound 1 4 1 10 events

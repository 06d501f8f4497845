-- ===== src/Dispatcher/RunNow.antt =====
-- RpcDispatcher::handleRunTaskNow: it claims the row, runs the task on a worker, and gives the row
-- back. `invokeWorker` is its environment: what it hands back, and what other nodes do to the table
-- while the worker runs.
use coroutine_rpc_scheduler.Common.{
  Bool, Option, String, ap, arith, false, if◌then◌else◌, lookup, none, not, some, str_append,
  str_empty, subst, true, ℕ, ◌&&◌, ◌/◌, ◌==◌, ◌∙◌, ◌≡◌,
}
use coroutine_rpc_scheduler.Dispatcher.{
  Dispatcher, Response, replies, rpc_error, handler_available, bad_request, db_error,
  handler_not_found, succeeded, admitted,
}
use coroutine_rpc_scheduler.Dispatcher.Auth.{authorized}
use coroutine_rpc_scheduler.Dispatcher.Control.{TaskRequest}
use coroutine_rpc_scheduler.Metrics.{Metrics, observe_task_duration}
use coroutine_rpc_scheduler.Scheduler.Job.{count_outcome}
use coroutine_rpc_scheduler.Tasks.{
  Table, TaskMeta, task_disabled, task_scheduled, task_running, TaskRow,
}
use coroutine_rpc_scheduler.Tasks.History.{HistoryTable, TaskHistory, add_history}
use coroutine_rpc_scheduler.Tasks.Lease.{
  claim_task_execution_success, complete_task_execution_success,
}
use coroutine_rpc_scheduler.Tasks.Store.{
  claim_row, release_row, complete_row, Server, Reply, claim_task_execution,
  complete_task_execution, release_row,
}
use coroutine_rpc_scheduler.Tasks.Queries.{ReadReply, get_task}

pub record WorkerResult : Type 0 where
  pub success : Bool
  pub result : String
  pub error : String
  pub endpoint : String

pub record RunTurn : Type 0 where
  pub uuid : String
  pub server_now : ℕ
  pub start_ms : ℕ
  pub end_ms : ℕ
  pub duration_ms : ℕ
  pub read : ReadReply
  pub claim_reply : Reply
  pub history_reply : Reply
  pub complete_reply : Reply
  pub invoke_worker : String → TaskMeta → WorkerResult
  pub meanwhile : Table → Table

pub record RunState : Type 0 where
  pub table : Table
  pub history : HistoryTable
  pub metrics : Metrics

abbrev pub join_error : String → String → String
join_error error more = if str_empty error then more else str_append error (str_append "; " more)

module _ (srv : Server) (d : Dispatcher) where
  abbrev pub dispatch_node : String
  dispatch_node = if str_empty d.node_id then "manual-rpc" else d.node_id

  abbrev pub manual_execution : RunTurn → TaskMeta → String
  manual_execution turn task = str_append "manual:" (str_append task.id (str_append ":" turn.uuid))

  -- From the successful claim on.
  unfoldable pub run_claimed : RunTurn → TaskMeta → RunState → Response × RunState
  unfolding add_history complete_task_execution
  run_claimed turn task s =
      let e = manual_execution turn task in
      let out = turn.invoke_worker e task in
      let history : TaskHistory = record {
        execution_id = e;
        task_id = task.id;
        exec_node = if str_empty out.endpoint then dispatch_node else out.endpoint;
        success = out.success;
        result = out.result;
        error = out.error;
        start_time = some (turn.start_ms / 1000);
        end_time = some (turn.end_ms / 1000);
      } in
      let (saved, rows) = add_history turn.history_reply history s.history in
      let (completed, table) =
        complete_task_execution srv turn.complete_reply task.id e task.status task.next_run_at
          (some (turn.end_ms / 1000)) task.retry_count (turn.meanwhile s.table) in
      let with_history =
        if saved then out.error else join_error out.error "Failed to persist execution history" in
      let error =
        if completed
        then with_history
        else join_error with_history "Task state changed while completing execution" in
      (
        replies (out.success && saved && completed) out.result error,
        record {
          table = table;
          history = rows;
          metrics = count_outcome out.success (observe_task_duration turn.duration_ms s.metrics);
        },
      )

  -- The part of handleRunTaskNow after the task was found.
  unfoldable pub run_found : RunTurn → TaskMeta → RunState → Response × RunState
  unfolding handler_available claim_task_execution run_claimed
  run_found turn task s =
      let (claimed, table) =
        claim_task_execution srv turn.claim_reply turn.server_now task.id
          (manual_execution turn task) dispatch_node task.status none s.table in
      let s' = record s { table = table } in
      if task.status == task_running
      then (replies false "" "Task is already running", s)
      else if not (task.status == task_disabled) && not (task.status == task_scheduled)
      then (replies false "" "Task has an invalid status", s)
      else if not (handler_available d task.handler)
      then (rpc_error handler_not_found (str_append "Handler not found: " task.handler), s)
      else if not claimed
      then (replies false "" "Task state changed before execution", s')
      else run_claimed turn task s'

  unfoldable pub handle_run_task_now : RunTurn → Option TaskRequest → RunState → Response × RunState
  unfolding authorized get_task run_found
  handle_run_task_now turn request s =
      admitted d "RunTaskNowRequest" (λ r. r.auth_token) request s
        (λ req.
          if str_empty req.task_id
          then (rpc_error bad_request "Task id is required", s)
          else if not d.has_db
          then (rpc_error db_error "DB client is not available", s)
          else elim (get_task turn.read req.task_id s.table) [
            | none ↦ (replies false "" "Task not found", s)
            | some task ↦ run_found turn task s
          ])

  run_claimed_success :
      (turn : RunTurn) (task : TaskMeta) (s : RunState)
      → succeeded (run_claimed turn task s).0 ≡ true
      → let e = manual_execution turn task in
        ((turn.invoke_worker e task).success ≡ true)
        × ((complete_task_execution srv turn.complete_reply task.id e task.status task.next_run_at
              (some (turn.end_ms / 1000))
              task.retry_count
              (turn.meanwhile s.table)).0
            ≡ true)
  unfolding run_claimed
  run_claimed_success turn task s ok = (ground arith, ground arith)

  run_found_claimed :
      (turn : RunTurn) (task : TaskMeta) (s : RunState)
      → succeeded (run_found turn task s).0 ≡ true
      → let c =
          claim_task_execution srv turn.claim_reply turn.server_now task.id
            (manual_execution turn task)
            dispatch_node
            task.status
            none
            s.table in
        (c.0 ≡ true) × (run_found turn task s ≡ run_claimed turn task (record s { table = c.1 }))
  unfolding run_found
  run_found_claimed turn task s ok = (ground arith, ground arith)

  -- A run of a task on request, answered with success, leaves the task as it was found: the row has
  -- the status, schedule and retry count from before, the end of the run as its last one, and no
  -- execution; and the worker reported success. Nobody changes the row while the worker runs.
  pub run_found_success :
      (turn : RunTurn) (task : TaskMeta) (s : RunState) (r : TaskRow)
      → lookup task.id s.table ≡ some r
      → r.next_run_at ≡ task.next_run_at
      → r.retry_count ≡ task.retry_count
      → ((t : Table) → turn.meanwhile t ≡ t)
      → let (response, s') = run_found turn task s in
        succeeded response ≡ true
        → ((turn.invoke_worker (manual_execution turn task) task).success ≡ true)
          × (lookup task.id s'.table
              ≡ some (record (release_row r) { last_run_at = some (turn.end_ms / 1000) }))
  unfolding run_claimed
  run_found_success turn task s r found next count alone ok =
      let e = manual_execution turn task in
      let now = turn.server_now in
      let last = turn.end_ms / 1000 in
      let (claimed, same) = run_found_claimed turn task s ok in
      let c =
        claim_task_execution srv turn.claim_reply now task.id e dispatch_node task.status none
          s.table in
      let s' : RunState = record s { table = c.1 } in
      let (worked, completed) =
        run_claimed_success turn task s' (subst (λ x. succeeded x.0 ≡ true) same ok) in
      let (r', found', status, row, _) =
        claim_task_execution_success srv now task.id e dispatch_node task.status none s.table
          turn.claim_reply claimed in
      let (r'', held, done) =
        complete_task_execution_success srv task.id e task.status task.next_run_at (some last)
          task.retry_count (turn.meanwhile c.1) turn.complete_reply completed in
      let kept : lookup task.id (turn.meanwhile c.1) ≡ lookup task.id c.1 =
        ap (lookup task.id) (alone c.1) in
      let mine : r'' ≡ claim_row now e dispatch_node r =
        ground (arith, held.found, kept, row, found, found') in
      let before : r.status ≡ task.status = ground (arith, found, found', status) in
      let back : complete_row task.status task.next_run_at (some last) task.retry_count
            (claim_row now e dispatch_node r)
          ≡ record (release_row r) { last_run_at = some last } =
        cc (before, next, count) in
      let given = complete_row task.status task.next_run_at (some last) task.retry_count in
      (
        worked,
        ap (λ x. lookup task.id x.1.table) same
            ∙ done
            ∙ ap (λ x. some (given x)) mine
            ∙ ap some back,
      )

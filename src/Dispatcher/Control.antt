-- ===== src/Dispatcher/Control.antt =====
-- The handlers of the control plane: submit, update, enable, delete and cancel a task.
pub mod Laws
use coroutine_rpc_scheduler.Common.{
  Bool, List, Option, String, false, if◌then◌else◌, ltb, none, not, some, str_append, str_empty,
  true, ℕ, ◌&&◌, ◌/◌, ◌==◌, ◌||◌,
}
use coroutine_rpc_scheduler.Cancellation.{Flags}
use coroutine_rpc_scheduler.Cancellation.Registry.{Registry, cancel}
use coroutine_rpc_scheduler.Dispatcher.{
  Dispatcher, Response, rpc_error, replies, handler_available, admitted, bad_request, db_error,
  handler_not_found,
}
use coroutine_rpc_scheduler.Dispatcher.Auth.{authorized}
use coroutine_rpc_scheduler.Tasks.{Table, TaskMeta, task_disabled, task_scheduled, task_running}
use coroutine_rpc_scheduler.Tasks.Store.{
  Server, Reply, updated, add_task, update_task_definition, delete_task, update_task_runtime,
  cancel_task,
}
use coroutine_rpc_scheduler.Tasks.Queries.{ReadReply, get_task}

-- The requests of proto/rpc.proto.
pub record SubmitTaskRequest : Type 0 where
  pub cron_expr : String
  pub params : String
  pub handler : String
  pub auth_token : List ℕ

-- `task` is none where the field is not set; a `max_retries` that is not positive is 0.
pub record UpdateTaskRequest : Type 0 where
  pub task : Option TaskMeta
  pub auth_token : List ℕ

pub record EnableTaskRequest : Type 0 where
  pub task_id : String
  pub enabled : Bool
  pub auth_token : List ℕ

-- DeleteTaskRequest, CancelTaskRequest and RunTaskNowRequest.
pub record TaskRequest : Type 0 where
  pub task_id : String
  pub auth_token : List ℕ

-- What the handlers change: the table, and the flags of running executions.
pub record Control : Type 0 where
  pub table : Table
  pub flags : Flags

-- How the calls of one request go: the system's clock and the server's, the SELECT and the
-- statement.
pub record Turn : Type 0 where
  pub now_ms : ℕ
  pub server_now : ℕ
  pub read : ReadReply
  pub reply : Reply

module _ (srv : Server) (cron : String → ℕ → ℕ) (d : Dispatcher) (registry : Registry) where
  -- `uuid` is what generate_uuid made.
  unfoldable pub handle_submit_task :
      Turn → String → Option SubmitTaskRequest → Control → Response × Control
  unfolding authorized handler_available add_task
  handle_submit_task turn uuid request s =
      admitted d "SubmitTaskRequest" (λ r. r.auth_token) request s
        (λ req.
          let next_run_ms = cron req.cron_expr turn.now_ms in
          let task : TaskMeta = record {
            id = uuid;
            cron_expr = req.cron_expr;
            params = req.params;
            handler = req.handler;
            status = task_scheduled;
            next_run_at = some (next_run_ms / 1000);
            last_run_at = none;
            retry_count = 0;
            max_retries = 3;
            current_execution_id = "";
            running_node = "";
            started_at = none;
          } in
          let (added, table) = add_task srv turn.reply turn.server_now task s.table in
          let s' = record s { table = table } in
          if str_empty req.cron_expr || str_empty req.handler
          then (rpc_error bad_request "Cron and handler are required", s)
          else if not (handler_available d req.handler)
          then (rpc_error handler_not_found (str_append "Handler not found: " req.handler), s)
          else if next_run_ms == 0
          then (replies false "" "Invalid cron expression", s)
          else if not d.has_db
          then (rpc_error db_error "DB client is not available", s)
          else if added
          then (replies true uuid "", s')
          else (rpc_error db_error "DB insert failed", s'))

  unfoldable pub handle_cancel_task : Turn → Option TaskRequest → Control → Response × Control
  unfolding authorized cancel_task cancel
  handle_cancel_task turn request s =
      admitted d "CancelTaskRequest" (λ r. r.auth_token) request s
        (λ req.
          let (canceled, table) = cancel_task srv turn.reply req.task_id s.table in
          let s' = record s { table = table } in
          if str_empty req.task_id
          then (rpc_error bad_request "Task id is required", s)
          else if not d.has_db
          then (rpc_error db_error "DB client is not available", s)
          else if canceled
          then (replies true "" "", record s' { flags = (cancel req.task_id registry s.flags).1 })
          else (replies false "" "Task not found", s'))

  unfoldable pub handle_delete_task : Turn → Option TaskRequest → Control → Response × Control
  unfolding authorized get_task delete_task
  handle_delete_task turn request s =
      admitted d "DeleteTaskRequest" (λ r. r.auth_token) request s
        (λ req.
          let (deleted, table) = delete_task srv turn.reply req.task_id s.table in
          if str_empty req.task_id
          then (rpc_error bad_request "Task id is required", s)
          else if not d.has_db
          then (rpc_error db_error "DB client is not available", s)
          else elim (get_task turn.read req.task_id s.table) [
            | none ↦ (replies false "" "Task not found", s)
            | some task ↦
                if task.status == task_running
                then (replies false "" "Running task cannot be deleted; cancel it first", s)
                else (
                  replies deleted "" (if deleted then "" else "DB delete failed"),
                  record s { table = table },
                )
          ])

  -- The part of handleEnableTask after the task was found.
  unfoldable pub enable_found : Turn → EnableTaskRequest → TaskMeta → Control → Response × Control
  unfolding cancel_task cancel update_task_runtime
  enable_found turn req task s =
      let (canceled, off) = cancel_task srv turn.reply req.task_id s.table in
      let next_ms = cron task.cron_expr turn.now_ms in
      let (enabled, on) =
        update_task_runtime srv turn.reply task.id task_scheduled (some (next_ms / 1000))
          task.last_run_at task.retry_count s.table in
      if not req.enabled
      then (if canceled
          then (
            replies true "" "",
            record s { table = off; flags = (cancel req.task_id registry s.flags).1 },
          )
          else (replies false "" "DB update failed", record s { table = off }))
      else if task.status == task_running
      then (replies true "" "", s)
      else if next_ms == 0
      then (replies false "" "Invalid cron expression", s)
      else (
        replies enabled "" (if enabled then "" else "DB update failed"),
        record s { table = on },
      )

  unfoldable pub handle_enable_task : Turn → Option EnableTaskRequest → Control → Response × Control
  unfolding authorized get_task enable_found
  handle_enable_task turn request s =
      admitted d "EnableTaskRequest" (λ r. r.auth_token) request s
        (λ req.
          if str_empty req.task_id
          then (rpc_error bad_request "Task id is required", s)
          else if not d.has_db
          then (rpc_error db_error "DB client is not available", s)
          else elim (get_task turn.read req.task_id s.table) [
            | none ↦ (replies false "" "Task not found", s)
            | some task ↦ enable_found turn req task s
          ])

  -- The part of handleUpdateTask after the task was found.
  unfoldable pub update_found : Turn → TaskMeta → TaskMeta → Control → Response × Control
  unfolding handler_available update_task_definition
  update_found turn asked existing s =
      let next_ms = cron asked.cron_expr turn.now_ms in
      let scheduled = asked.status == task_scheduled in
      let task : TaskMeta = record {
        id = asked.id;
        cron_expr = asked.cron_expr;
        params = asked.params;
        handler = asked.handler;
        status = asked.status;
        next_run_at = if scheduled then some (next_ms / 1000) else existing.next_run_at;
        last_run_at = existing.last_run_at;
        retry_count = existing.retry_count;
        max_retries = if ltb 0 asked.max_retries then asked.max_retries else 3;
        current_execution_id = "";
        running_node = "";
        started_at = none;
      } in
      let (updated, table) = update_task_definition srv turn.reply task s.table in
      if existing.status == task_running
      then (replies false "" "Running task cannot be edited; cancel it first", s)
      else if str_empty asked.cron_expr || str_empty asked.handler
      then (rpc_error bad_request "Cron and handler are required", s)
      else if not (asked.status == task_disabled) && not scheduled
      then (rpc_error bad_request "Task status must be disabled or scheduled", s)
      else if not (handler_available d asked.handler)
      then (rpc_error handler_not_found (str_append "Handler not found: " asked.handler), s)
      else if scheduled && next_ms == 0
      then (replies false "" "Invalid cron expression", s)
      else (
        replies updated "" (if updated then "" else "DB update failed"),
        record s { table = table },
      )

  unfoldable pub handle_update_task : Turn → Option UpdateTaskRequest → Control → Response × Control
  unfolding authorized get_task update_found
  handle_update_task turn request s =
      admitted d "UpdateTaskRequest" (λ r. r.auth_token) request s
        (λ req.
          if not d.has_db
          then (rpc_error db_error "DB client is not available", s)
          else elim req.task [
            | none ↦ (rpc_error bad_request "Task id is required", s)
            | some asked ↦
                if str_empty asked.id
                then (rpc_error bad_request "Task id is required", s)
                else elim (get_task turn.read asked.id s.table) [
                  | none ↦ (replies false "" "Task not found", s)
                  | some existing ↦ update_found turn asked existing s
                ]
          ])

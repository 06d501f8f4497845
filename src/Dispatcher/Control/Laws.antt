-- ===== src/Dispatcher/Control/Laws.antt =====
-- What the handlers of the control plane do to the store.
use coroutine_rpc_scheduler.Common.{
  List, String, arith, eq_iff, false, lookup, lookup-insert, none, refl, some, true, ℕ, ◌≡◌,
}
use coroutine_rpc_scheduler.Cancellation.{is_canceled, cancel as cancel_source}
use coroutine_rpc_scheduler.Cancellation.Registry.{Registry, Entry}
use coroutine_rpc_scheduler.Dispatcher.{Dispatcher, succeeded, replies}
use coroutine_rpc_scheduler.Dispatcher.Control.{
  update_found, Turn, Control, TaskRequest, UpdateTaskRequest, handle_cancel_task,
  handle_delete_task, handle_update_task,
}
use coroutine_rpc_scheduler.Tasks.{task_from_result, TaskRow, TaskMeta, task_disabled, task_running}
use coroutine_rpc_scheduler.Tasks.Store.{
  new_row, release_row, update_row, updated, new_row, Server, updated,
}
use coroutine_rpc_scheduler.Tasks.Lease.{IsLeased}

module _ (srv : Server) (cron : String → ℕ → ℕ) (d : Dispatcher) (registry : Registry) where
  -- Canceling a running task, answered with success, disables the row, takes it from its execution
  -- and cancels the source that the execution registered.
  pub handle_cancel_task_running :
      (turn : Turn) (req : TaskRequest) (s : Control) (r : TaskRow) (e : String) (entry : Entry)
      → IsLeased req.task_id e s.table r
      → lookup req.task_id registry ≡ some entry
      → let (response, s') = handle_cancel_task srv cron d registry turn (some req) s in
        succeeded response ≡ true
        → ((r' : TaskRow) × (lookup req.task_id s'.table ≡ some r')
            × (r'.status ≡ task_disabled)
            × (r'.current_execution_id ≡ none))
          × (is_canceled entry.source s'.flags ≡ true)
  unfolding handle_cancel_task update_row updated cancel_source
  handle_cancel_task_running turn req s r e entry h reg ok =
      let id = req.task_id in
      let row : TaskRow = record (release_row r) { status = task_disabled } in
      (
        (row, ground (arith, h.found, lookup-insert id id row s.table, eq_iff id id), refl, refl),
        ground (arith, h.found, reg, lookup-insert id id row s.table, eq_iff id id),
      )

  update_found_running :
      (turn : Turn) (asked existing : TaskMeta) (s : Control)
      → existing.status ≡ task_running
      → update_found srv cron d registry turn asked existing s
        ≡ (replies false "" "Running task cannot be edited; cancel it first", s)
  unfolding update_found
  update_found_running turn asked existing s h = ground (arith, h)

  -- A running task is neither edited nor deleted through the handlers: the table stays as it is, and
  -- the answer is no success.
  pub handle_running_task :
      (turn : Turn) (req : TaskRequest) (auth_token : List ℕ) (asked : TaskMeta) (s : Control)
      (r : TaskRow) (e : String)
      → asked.id ≡ req.task_id
      → IsLeased req.task_id e s.table r
      → let deleted = handle_delete_task srv cron d registry turn (some req) s in
        let update : UpdateTaskRequest = record { task = some asked; auth_token = auth_token } in
        let updated = handle_update_task srv cron d registry turn (some update) s in
        (succeeded deleted.0 ≡ false)
        × (deleted.1.table ≡ s.table)
        × (succeeded updated.0 ≡ false)
        × (updated.1.table ≡ s.table)
  unfolding handle_delete_task handle_update_task task_from_result
  handle_running_task turn req auth_token asked s r e i h =
      let found : lookup asked.id s.table ≡ some r = cc (i, h.found) in
      let existing = task_from_result asked.id r in
      let still = update_found_running turn asked existing s h.running in
      (
        ground (arith, h.found, h.running),
        ground (arith, h.found, h.running),
        ground (arith, found, still),
        ground (arith, found, still),
      )

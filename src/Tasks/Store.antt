-- ===== src/Tasks/Store.antt =====
-- The statements of src/mysql/mysql_client.cpp that change the table `tasks`.
-- The connection and the server are the environment: a `Reply` says how the call of one statement
-- goes, and `Server` which rows that a statement matched the server counts as affected.
use coroutine_rpc_scheduler.Common.{
  Bool, String, erase, false, if◌then◌else◌, insert, leb, lookup, none, not, some, str_empty,
  str_eq, true, ℕ, ◌&&◌, ◌==◌, ◌||◌, ◌≡◌, ◌≢◌,
}
use coroutine_rpc_scheduler.Tasks.{
  Table, task_running, TaskMeta, TaskRow, task_disabled, task_scheduled, DateTime,
}

-- No lease was got; the statement threw and had no effect; it took effect and its answer was lost,
-- so that it threw; it was answered.
pub data Reply : Type 0 where
  no_lease refused reply_lost answered : Reply

-- Whether a matched row counts as affected, given the row before and after. A row that changes
-- counts; one that does not counts under CLIENT_FOUND_ROWS alone.
pub record Server : Type 0 where
  pub counts : TaskRow → TaskRow → Bool
  pub counts_changed : (r s : TaskRow) → r ≢ s → counts r s ≡ true

-- A SELECT that follows an UPDATE in one method is taken to see the table that the UPDATE left.

-- The frame that all of the methods share: lease, statement, answer, catch.
unfoldable pub statement : Reply → Table → Table → Bool → Bool × Table
statement no_lease t t' ok = (false, t)
statement refused t t' ok = (false, t)
statement reply_lost t t' ok = (false, t')
statement answered t t' ok = (ok, t')

-- UPDATE tasks SET … WHERE id=? AND …, with the row's other condition and its assignments.
unfoldable pub update_row : String → (TaskRow → Bool) → (TaskRow → TaskRow) → Table → Table
update_row id holds assign t = elim (lookup id t) [
  | none ↦ t
  | some r ↦ if holds r then insert id (assign r) t else t
]

-- executeUpdate() > 0
unfoldable pub updated : Server → String → (TaskRow → Bool) → (TaskRow → TaskRow) → Table → Bool
updated srv id holds assign t = elim (lookup id t) [
  | none ↦ false
  | some r ↦ holds r && srv.counts r (assign r)
]

abbrev pub not_running : TaskRow → Bool
not_running r = not (r.status == task_running)

unfoldable pub task_exists : Table → String → Bool
task_exists t id = elim (lookup id t) [ none ↦ false | some r ↦ true ]

unfoldable pub task_exists_and_is_not_running : Table → String → Bool
task_exists_and_is_not_running t id = elim (lookup id t) [ none ↦ false | some r ↦ not_running r ]

-- A row with the lease's columns at NULL.
abbrev pub release_row : TaskRow → TaskRow
release_row r = record r { current_execution_id = none; running_node = none; started_at = none }

-- The schedule is compared only where `expected_next_run_at` is not empty.
unfoldable pub schedule_matches : ℕ → DateTime → TaskRow → Bool
schedule_matches now none r = true
schedule_matches now (some at) r = elim r.next_run_at [
  | none ↦ false
  | some due ↦ due == at && leb due now
]

abbrev pub is_claimable : ℕ → ℕ → DateTime → TaskRow → Bool
is_claimable now expected_status expected_next_run_at r =
    r.status == expected_status && schedule_matches now expected_next_run_at r

abbrev pub claim_row : ℕ → String → String → TaskRow → TaskRow
claim_row now execution_id node_id r = record r {
  status = task_running;
  current_execution_id = some execution_id;
  running_node = some node_id;
  started_at = some now;
}

-- current_execution_id=?
abbrev pub holds_execution : String → TaskRow → Bool
holds_execution execution_id r = elim r.current_execution_id [
  | none ↦ false
  | some e ↦ str_eq e execution_id
]

-- … OR (current_execution_id IS NULL AND ?='')
abbrev pub is_recoverable : String → TaskRow → Bool
is_recoverable execution_id r = r.status == task_running && elim r.current_execution_id [
  | none ↦ str_empty execution_id
  | some e ↦ str_eq e execution_id
]

abbrev pub is_completable : String → TaskRow → Bool
is_completable execution_id r = holds_execution execution_id r && r.status == task_running

abbrev pub complete_row : ℕ → DateTime → DateTime → ℕ → TaskRow → TaskRow
complete_row status next_run_at last_run_at retry_count r = record (release_row r) {
  status = status;
  next_run_at = next_run_at;
  last_run_at = last_run_at;
  retry_count = retry_count;
}

-- The row that INSERT makes; the columns that it does not name take their defaults.
abbrev pub new_row : ℕ → TaskMeta → TaskRow
new_row now task = record {
  cron_expr = task.cron_expr;
  params = task.params;
  handler = task.handler;
  status = task.status;
  next_run_at = task.next_run_at;
  last_run_at = none;
  retry_count = task.retry_count;
  max_retries = task.max_retries;
  current_execution_id = none;
  running_node = none;
  started_at = none;
  created_at = now;
}

module _ (srv : Server) where
  -- INSERT; a second row under one primary key is refused by the server, and the method is false.
  unfoldable pub add_task : Reply → ℕ → TaskMeta → Table → Bool × Table
  unfolding statement
  add_task reply now task t = elim (lookup task.id t) [
    | none ↦ statement reply t (insert task.id (new_row now task) t) true
    | some _ ↦ (false, t)
  ]

  unfoldable pub update_task_definition : Reply → TaskMeta → Table → Bool × Table
  unfolding statement task_exists_and_is_not_running
  update_task_definition reply task t =
      let assign : TaskRow → TaskRow = λ r. record r {
        cron_expr = task.cron_expr;
        params = task.params;
        handler = task.handler;
        status = task.status;
        next_run_at = task.next_run_at;
        last_run_at = task.last_run_at;
        retry_count = task.retry_count;
        max_retries = task.max_retries;
      } in
      let t' = update_row task.id not_running assign t in
      statement reply t t'
        (updated srv task.id not_running assign t || task_exists_and_is_not_running t' task.id)

  unfoldable pub delete_task : Reply → String → Table → Bool × Table
  unfolding statement
  delete_task reply id t = elim (lookup id t) [
    | none ↦ statement reply t t false
    | some r ↦
        if not_running r then statement reply t (erase id t) true else statement reply t t false
  ]

  unfoldable pub claim_task_execution :
      Reply → ℕ → String → String → String → ℕ → DateTime → Table → Bool × Table
  unfolding statement
  claim_task_execution reply now id execution_id node_id expected_status expected_next_run_at t =
      let holds = is_claimable now expected_status expected_next_run_at in
      let assign = claim_row now execution_id node_id in
      statement reply t (update_row id holds assign t) (updated srv id holds assign t)

  unfoldable pub recover_task_execution : Reply → String → String → Table → Bool × Table
  unfolding statement
  recover_task_execution reply id execution_id t =
      let holds = is_recoverable execution_id in
      let assign : TaskRow → TaskRow = λ r. record (release_row r) { status = task_scheduled } in
      statement reply t (update_row id holds assign t) (updated srv id holds assign t)

  unfoldable pub complete_task_execution :
      Reply → String → String → ℕ → DateTime → DateTime → ℕ → Table → Bool × Table
  unfolding statement
  complete_task_execution reply id execution_id status next_run_at last_run_at retry_count t =
      let holds = is_completable execution_id in
      let assign = complete_row status next_run_at last_run_at retry_count in
      statement reply t (update_row id holds assign t) (updated srv id holds assign t)

  unfoldable pub update_task_schedule :
      Reply → String → DateTime → DateTime → ℕ → Table → Bool × Table
  unfolding statement task_exists_and_is_not_running
  update_task_schedule reply id next_run_at last_run_at retry_count t =
      let assign : TaskRow → TaskRow = λ r. record r {
        next_run_at = next_run_at;
        last_run_at = last_run_at;
        retry_count = retry_count;
      } in
      let t' = update_row id not_running assign t in
      statement reply t t'
        (updated srv id not_running assign t || task_exists_and_is_not_running t' id)

  unfoldable pub update_task_runtime :
      Reply → String → ℕ → DateTime → DateTime → ℕ → Table → Bool × Table
  unfolding statement task_exists_and_is_not_running
  update_task_runtime reply id status next_run_at last_run_at retry_count t =
      let assign = complete_row status next_run_at last_run_at retry_count in
      let t' = update_row id not_running assign t in
      statement reply t t'
        (updated srv id not_running assign t || task_exists_and_is_not_running t' id)

  unfoldable pub cancel_task : Reply → String → Table → Bool × Table
  unfolding statement task_exists
  cancel_task reply id t =
      let assign : TaskRow → TaskRow = λ r. record (release_row r) { status = task_disabled } in
      let t' = update_row id (λ _. true) assign t in
      statement reply t t' (updated srv id (λ _. true) assign t || task_exists t' id)

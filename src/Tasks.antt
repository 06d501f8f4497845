-- ===== src/Tasks.antt =====
-- The task records of include/corpcron/mysql/mysql_client.hpp, and the table `tasks` of
-- src/mysql/mysql_client.cpp with the columns that the code reads. A date-time text is the second
-- that it stands for, and the empty text is `none`; an int column that the code keeps at 0 or more
-- is a number. A row is stored under its primary key `id`.
pub mod Store
pub mod Queries
pub mod History
pub mod Pages
pub mod Connections
pub mod Schema
pub mod Errors
pub mod Lease
pub mod Invariant
pub mod Trace
use coroutine_rpc_scheduler.Common.{Option, String, StringMap, none, some, ℕ}

-- enum TaskStatus; `status` is an int, so other values are possible.
abbrev pub task_disabled : ℕ
task_disabled = 0

abbrev pub task_scheduled : ℕ
task_scheduled = 1

abbrev pub task_running : ℕ
task_running = 2

abbrev pub DateTime : Type 0
DateTime = Option ℕ

pub record TaskMeta : Type 0 where
  pub id : String
  pub cron_expr : String
  pub params : String
  pub handler : String
  pub status : ℕ
  pub next_run_at : DateTime
  pub last_run_at : DateTime
  pub retry_count : ℕ
  pub max_retries : ℕ
  pub current_execution_id : String
  pub running_node : String
  pub started_at : DateTime

-- `none` is NULL.
pub record TaskRow : Type 0 where
  pub cron_expr : String
  pub params : String
  pub handler : String
  pub status : ℕ
  pub next_run_at : Option ℕ
  pub last_run_at : Option ℕ
  pub retry_count : ℕ
  pub max_retries : ℕ
  pub current_execution_id : Option String
  pub running_node : Option String
  pub started_at : Option ℕ
  pub created_at : ℕ

abbrev pub Table : Type 0
Table = StringMap TaskRow

-- getString of a NULL column is the empty text.
abbrev pub text_or_empty : Option String → String
text_or_empty none = ""
text_or_empty (some s) = s

unfoldable pub task_from_result : String → TaskRow → TaskMeta
task_from_result id r = record {
  id = id;
  cron_expr = r.cron_expr;
  params = r.params;
  handler = r.handler;
  status = r.status;
  next_run_at = r.next_run_at;
  last_run_at = r.last_run_at;
  retry_count = r.retry_count;
  max_retries = r.max_retries;
  current_execution_id = text_or_empty r.current_execution_id;
  running_node = text_or_empty r.running_node;
  started_at = r.started_at;
}

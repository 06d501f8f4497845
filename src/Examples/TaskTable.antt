-- ===== src/Examples/TaskTable.antt =====
-- The table `tasks` with one due task.
use coroutine_rpc_scheduler.Common.{
  AllValues, List, [], ap, arith, eq_iff, false, insert, lookup, none, refl, some, true, ◌∷◌, ◌≡◌,
  ◌≢◌,
}
use coroutine_rpc_scheduler.Tasks.{Table, TaskRow, task_from_result}
use coroutine_rpc_scheduler.Tasks.Store.{
  Server, reply_lost, answered, update_row, updated, schedule_matches, claim_row,
  claim_task_execution,
}
use coroutine_rpc_scheduler.Tasks.Lease.{IsLeased}
use coroutine_rpc_scheduler.Tasks.Invariant.{IsConsistent, run-IsConsistent}
use coroutine_rpc_scheduler.Tasks.Trace.{
  Call, updates, claims, recovers, completes, run, run-IsLeased, claim_task_execution_exclusive,
}
use coroutine_rpc_scheduler.Tasks.History.{TaskHistory}

-- A server that counts every matched row (CLIENT_FOUND_ROWS).
abbrev pub found_rows : Server
found_rows = record { counts = λ _ _. true; counts_changed = λ _ _ _. refl }

abbrev pub idle_row : TaskRow
idle_row = record {
  cron_expr = "0 * * * * *";
  params = "";
  handler = "Echo";
  status = 1;
  next_run_at = some 60;
  last_run_at = none;
  retry_count = 0;
  max_retries = 3;
  current_execution_id = none;
  running_node = none;
  started_at = none;
  created_at = 1;
}

abbrev pub one_task : Table
one_task = ("t", idle_row) ∷ []

abbrev pub claimed : Table
claimed = ("t", claim_row 61 "t:61:0" "node1" idle_row) ∷ []

claim_task_execution_due :
    claim_task_execution found_rows answered 61 "t" "t:61:0" "node1" 1 (some 60) one_task
    ≡ (true, claimed)
unfolding claim_task_execution update_row updated lookup insert schedule_matches
claim_task_execution_due = refl

pub claimed-IsLeased : IsLeased "t" "t:61:0" claimed (claim_row 61 "t:61:0" "node1" idle_row)
unfolding lookup
claimed-IsLeased = record { found = refl; running = refl; held = refl }

abbrev others : List Call
others =
    claims answered 62 "t" "t:62:1" "node2" 1 (some 60)
    ∷ updates answered (task_from_result "t" idle_row)
    ∷ completes reply_lost "t" "t:1:9" 1 none none 0
    ∷ recovers answered "t" "t:1:9"
    ∷ []

run-IsLeased_example :
    IsLeased "t" "t:61:0" (run found_rows others claimed) (claim_row 61 "t:61:0" "node1" idle_row)
unfolding task_from_result
run-IsLeased_example =
    run-IsLeased found_rows "t" "t:61:0" others claimed (claim_row 61 "t:61:0" "node1" idle_row)
      claimed-IsLeased refl

claim_task_execution_exclusive_example :
    claim_task_execution found_rows answered 63 "t" "t:63:2" "node2" 1 (some 60) (
      run found_rows others
        (claim_task_execution found_rows answered 61 "t" "t:61:0" "node1" 1 (some 60) one_task).1)
    ≡ (
      false,
      run found_rows others
          (claim_task_execution found_rows answered 61 "t" "t:61:0" "node1" 1 (some 60) one_task).1,
    )
unfolding task_from_result
claim_task_execution_exclusive_example =
    claim_task_execution_exclusive found_rows "t" "t:61:0" "node1" "t:63:2" "node2" 61 63 1 1
      (some 60) (some 60) answered answered others one_task (omega arith)
      (ap (λ p. p.0) claim_task_execution_due) refl

pub claimed_by_other :
    (r : TaskRow) → lookup "t" claimed ≡ some r → r.current_execution_id ≢ some "t:1:9"
unfolding lookup
claimed_by_other r e h = ground (arith, eq_iff "t:61:0" "t:1:9")

run-IsConsistent_example : AllValues IsConsistent (run found_rows others one_task)
unfolding task_from_result
run-IsConsistent_example = run-IsConsistent found_rows others one_task (omega arith) (ground arith)

abbrev outcome : TaskHistory
outcome = record {
  execution_id = "t:61:0";
  task_id = "t";
  exec_node = "node1";
  success = true;
  result = "Echo: ";
  error = "";
  start_time = some 61;
  end_time = some 62;
}

-- ===== src/Tasks/Trace.antt =====
-- Any sequence of the statements that change `tasks`, issued by any number of nodes: each runs
-- whole on the server, so their interleavings are the sequences of calls.
use coroutine_rpc_scheduler.Common.{
  Bool, List, String, [], any, arith, false, lookup, refl, some, str_eq, true, ℕ, ◌&&◌, ◌==◌, ◌∷◌,
  ◌≡◌, ◌≢◌,
}
use coroutine_rpc_scheduler.Tasks.{Table, task_running, DateTime, TaskMeta, TaskRow}
use coroutine_rpc_scheduler.Tasks.Store.{
  Server, Reply, add_task, update_task_definition, delete_task, claim_task_execution,
  recover_task_execution, complete_task_execution, update_task_schedule, update_task_runtime,
  cancel_task, not_running, is_claimable, is_recoverable, is_completable, claim_row,
}
use coroutine_rpc_scheduler.Tasks.Lease.{
  IsLeased, statement-update_row, add_task-keeps, delete_task-keeps, claim_task_execution_success,
  claim_task_execution_running,
}

-- One call of MySQLClient, with the reply that it meets and the server's clock.
pub data Call : Type 0 where
  adds : Reply → ℕ → TaskMeta → Call
  updates : Reply → TaskMeta → Call
  deletes : Reply → String → Call
  claims : Reply → ℕ → String → String → String → ℕ → DateTime → Call
  recovers : Reply → String → String → Call
  completes : Reply → String → String → ℕ → DateTime → DateTime → ℕ → Call
  reschedules : Reply → String → DateTime → DateTime → ℕ → Call
  sets_runtime : Reply → String → ℕ → DateTime → DateTime → ℕ → Call
  cancels : Reply → String → Call

module _ (srv : Server) where
  unfoldable pub perform : Call → Table → Bool × Table
  perform (adds y now task) t = add_task srv y now task t
  perform (updates y task) t = update_task_definition srv y task t
  perform (deletes y id) t = delete_task srv y id t
  perform (claims y now id e n st at) t = claim_task_execution srv y now id e n st at t
  perform (recovers y id e) t = recover_task_execution srv y id e t
  perform (completes y id e st next last k) t = complete_task_execution srv y id e st next last k t
  perform (reschedules y id next last k) t = update_task_schedule srv y id next last k t
  perform (sets_runtime y id st next last k) t = update_task_runtime srv y id st next last k t
  perform (cancels y id) t = cancel_task srv y id t

  unfoldable pub run : List Call → Table → Table
  unfolding perform
  run [] t = t
  run (c ∷ cs) t = run cs (perform c t).1

-- The call may end the lease that the execution `e` has on `id`: it completes or recovers that
-- execution, or cancels the task; or it claims a task that it expects to be running, which no
-- caller of the program does.
abbrev pub may_release : String → String → Call → Bool
may_release id e (claims _ _ _ _ _ st _) = st == task_running
may_release id e (recovers _ j e') = str_eq j id && str_eq e e'
may_release id e (completes _ j e' _ _ _ _) = str_eq j id && str_eq e e'
may_release id e (cancels _ j) = str_eq j id
may_release id e _ = false

module _ (srv : Server) where
  perform-IsLeased :
      (id e : String) (c : Call) (t : Table) (r : TaskRow)
      → IsLeased id e t r
      → may_release id e c ≡ false
      → lookup id (perform srv c t).1 ≡ some r
  unfolding perform add_task update_task_definition delete_task claim_task_execution
      recover_task_execution complete_task_execution update_task_schedule update_task_runtime
      cancel_task
  perform-IsLeased id e (adds y now task) t r h k = add_task-keeps srv id now task t y h.found
  perform-IsLeased id e (updates y task) t r h k =
      statement-update_row id task.id not_running _ t y _ h.found (ground (arith, h.running))
  perform-IsLeased id e (deletes y j) t r h k = delete_task-keeps srv id j t y h.found h.running
  perform-IsLeased id e (claims y now j e' n st at) t r h k =
      statement-update_row id j (is_claimable now st at) _ t y _ h.found (ground (arith, h.running))
  perform-IsLeased id e (recovers y j e') t r h k =
      statement-update_row id j (is_recoverable e') _ t y _ h.found
        (ground (arith, h.running, h.held))
  perform-IsLeased id e (completes y j e' st next last m) t r h k =
      statement-update_row id j (is_completable e') _ t y _ h.found
        (ground (arith, h.running, h.held))
  perform-IsLeased id e (reschedules y j next last m) t r h k =
      statement-update_row id j not_running _ t y _ h.found (ground (arith, h.running))
  perform-IsLeased id e (sets_runtime y j st next last m) t r h k =
      statement-update_row id j not_running _ t y _ h.found (ground (arith, h.running))
  perform-IsLeased id e (cancels y j) t r h k =
      statement-update_row id j (λ _. true) _ t y _ h.found (ground (arith, k))

  perform-IsLeased' :
      (id e : String) (c : Call) (t : Table) (r : TaskRow)
      → IsLeased id e t r
      → may_release id e c ≡ false
      → IsLeased id e (perform srv c t).1 r
  perform-IsLeased' id e c t r h k = record {
    found = perform-IsLeased id e c t r h k;
    running = h.running;
    held = h.held;
  }

  -- A row that runs under an execution stays exactly as it is through any sequence of calls by any
  -- nodes, whatever their replies, none of which completes or recovers that execution, cancels the
  -- task, or claims it from the running state.
  pub run-IsLeased :
      (id e : String) (cs : List Call) (t : Table) (r : TaskRow)
      → IsLeased id e t r
      → any (may_release id e) cs ≡ false
      → IsLeased id e (run srv cs t) r
  unfolding run
  run-IsLeased id e [] t r h k = h
  run-IsLeased id e (c ∷ cs) t r h k =
      run-IsLeased id e cs (perform srv c t).1 r (perform-IsLeased' id e c t r h (ground arith))
        (ground arith)

  -- Two executions never hold one task: after a claim that was answered true, through any calls
  -- that do not release it, a second claim of the task under any execution is answered false and
  -- changes nothing.
  pub claim_task_execution_exclusive :
      (id e n e' n' : String) (now now' expected expected' : ℕ) (at at' : DateTime)
      (reply reply' : Reply) (cs : List Call) (t : Table)
      → expected' ≢ task_running
      → (claim_task_execution srv reply now id e n expected at t).0 ≡ true
      → any (may_release id e) cs ≡ false
      → let u = run srv cs (claim_task_execution srv reply now id e n expected at t).1 in
        claim_task_execution srv reply' now' id e' n' expected' at' u ≡ (false, u)
  claim_task_execution_exclusive id e n e' n' now now' expected expected' at at' reply reply' cs t d
        h k =
      let (r, _, _, s, _) = claim_task_execution_success srv now id e n expected at t reply h in
      claim_task_execution_running srv id e e' n' now' expected' at' _ reply' (claim_row now e n r)
        (run-IsLeased id e cs _ (claim_row now e n r)
          (record { found = s; running = refl; held = refl }) k)
        d

-- ===== src/Tasks/Invariant.antt =====
-- The columns of the lease agree with `status` in every row.
use coroutine_rpc_scheduler.Common.{
  All, AllValues, Bool, Bool-cases, List, Option-cases, String, [], arith, erase-AllValues, inl,
  inr, insert-AllValues, lookup, lookup-AllValues, none, true, ℕ, ◌∷◌, ◌≡◌, ◌≢◌,
}
use coroutine_rpc_scheduler.Tasks.{Table, task_running, TaskMeta, TaskRow}
use coroutine_rpc_scheduler.Tasks.Store.{
  Server, Reply, no_lease, refused, reply_lost, answered, statement, update_row, not_running,
  is_claimable, is_recoverable, is_completable, new_row, add_task, update_task_definition,
  delete_task, claim_task_execution, recover_task_execution, complete_task_execution,
  update_task_schedule, update_task_runtime, cancel_task,
}
use coroutine_rpc_scheduler.Tasks.Trace.{
  Call, adds, updates, deletes, claims, recovers, completes, reschedules, sets_runtime, cancels,
  perform, run,
}

-- A running row has an execution, a node and a start; any other row has none of the three.
pub record IsConsistent (r : TaskRow) : Type 0 where
  pub leased :
      r.status ≡ task_running
      → (r.current_execution_id ≢ none) × (r.running_node ≢ none) × (r.started_at ≢ none)
  pub idle :
      r.status ≢ task_running
      → (r.current_execution_id ≡ none) × (r.running_node ≡ none) × (r.started_at ≡ none)

-- The call writes no status TASK_RUNNING but by a claim.
abbrev pub WritesNoRunning : Call → Type 0
WritesNoRunning (adds _ _ task) = task.status ≢ task_running
WritesNoRunning (updates _ task) = task.status ≢ task_running
WritesNoRunning (completes _ _ _ st _ _ _) = st ≢ task_running
WritesNoRunning (sets_runtime _ _ st _ _ _) = st ≢ task_running
WritesNoRunning _ = Unit

update_row-AllValues :
    (P : TaskRow → Type 0) (id : String) (holds : TaskRow → Bool) (assign : TaskRow → TaskRow)
    (t : Table)
    → ((r : TaskRow) → P r → holds r ≡ true → P (assign r))
    → AllValues P t
    → AllValues P (update_row id holds assign t)
unfolding update_row
update_row-AllValues P id holds assign t k h = elim (Option-cases (lookup id t)) [
  | inl n ↦ rw (n, update_row) h
  | inr (r, n) ↦ elim (Bool-cases (holds r)) [
    | inl y ↦
        rw (n, update_row)
          (rw y (insert-AllValues P id (assign r) t (k r (lookup-AllValues P id t h n) y) h))
    | inr z ↦ rw (n, update_row) (rw z h)
  ]
]

statement-AllValues :
    (P : TaskRow → Type 0) (id : String) (holds : TaskRow → Bool) (assign : TaskRow → TaskRow)
    (t : Table) (reply : Reply) (done : Bool)
    → ((r : TaskRow) → P r → holds r ≡ true → P (assign r))
    → AllValues P t
    → AllValues P (statement reply t (update_row id holds assign t) done).1
unfolding statement
statement-AllValues P id holds assign t no_lease done k h = h
statement-AllValues P id holds assign t refused done k h = h
statement-AllValues P id holds assign t reply_lost done k h =
    update_row-AllValues P id holds assign t k h
statement-AllValues P id holds assign t answered done k h =
    update_row-AllValues P id holds assign t k h

module _ (srv : Server) where
  add_task-AllValues :
      (reply : Reply) (now : ℕ) (task : TaskMeta) (t : Table)
      → task.status ≢ task_running
      → AllValues IsConsistent t
      → AllValues IsConsistent (add_task srv reply now task t).1
  unfolding add_task
  add_task-AllValues reply now task t w h =
      let added = insert-AllValues IsConsistent task.id (new_row now task) t (ground arith) h in
      elim (Option-cases (lookup task.id t)) [
        | inl n ↦ elim reply [ no_lease ↦ ground (arith, n, h) | _ ↦ ground (arith, n, h, added) ]
        | inr (s, n) ↦ ground (arith, n, h)
      ]

  delete_task-AllValues :
      (reply : Reply) (j : String) (t : Table)
      → AllValues IsConsistent t
      → AllValues IsConsistent (delete_task srv reply j t).1
  unfolding delete_task
  delete_task-AllValues reply j t h =
      let rest = erase-AllValues IsConsistent j t h in ground (arith, h, rest)

  perform-AllValues :
      (c : Call) (t : Table)
      → WritesNoRunning c
      → AllValues IsConsistent t
      → AllValues IsConsistent (perform srv c t).1
  unfolding perform update_task_definition claim_task_execution recover_task_execution
      complete_task_execution update_task_schedule update_task_runtime cancel_task
  perform-AllValues (adds y now task) t w h = add_task-AllValues y now task t w h
  perform-AllValues (updates y task) t w h =
      statement-AllValues IsConsistent task.id not_running _ t y _ (λ r p q. ground (arith, p)) h
  perform-AllValues (deletes y j) t w h = delete_task-AllValues y j t h
  perform-AllValues (claims y now j e' n st at) t w h =
      statement-AllValues IsConsistent j (is_claimable now st at) _ t y _
        (λ r p q. ground (arith, p)) h
  perform-AllValues (recovers y j e') t w h =
      statement-AllValues IsConsistent j (is_recoverable e') _ t y _ (λ r p q. ground (arith, p)) h
  perform-AllValues (completes y j e' st next last m) t w h =
      statement-AllValues IsConsistent j (is_completable e') _ t y _ (λ r p q. ground (arith, p)) h
  perform-AllValues (reschedules y j next last m) t w h =
      statement-AllValues IsConsistent j not_running _ t y _ (λ r p q. ground (arith, p)) h
  perform-AllValues (sets_runtime y j st next last m) t w h =
      statement-AllValues IsConsistent j not_running _ t y _ (λ r p q. ground (arith, p)) h
  perform-AllValues (cancels y j) t w h =
      statement-AllValues IsConsistent j (λ _. true) _ t y _ (λ r p q. ground (arith, p)) h

  -- Any sequence of calls, whatever their replies, keeps every row consistent, if no call but a
  -- claim writes the status TASK_RUNNING.
  pub run-IsConsistent :
      (cs : List Call) (t : Table)
      → All WritesNoRunning cs
      → AllValues IsConsistent t
      → AllValues IsConsistent (run srv cs t)
  unfolding run
  run-IsConsistent [] t w h = h
  run-IsConsistent (c ∷ cs) t w h =
      run-IsConsistent cs (perform srv c t).1 w.1 (perform-AllValues c t w.0 h)

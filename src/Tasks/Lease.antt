-- ===== src/Tasks/Lease.antt =====
-- The execution lease of a row: `status`, `current_execution_id`, `running_node`, `started_at`.
use coroutine_rpc_scheduler.Common.{
  Bool, Option-cases, String, arith, eq_iff, false, if◌then◌else◌, inl, inr, lookup, lookup-erase,
  lookup-insert, none, some, str_eq, true, ℕ, ◌&&◌, ◌≡◌, ◌≢◌,
}
use coroutine_rpc_scheduler.Tasks.{Table, TaskRow, task_running, DateTime, TaskMeta}
use coroutine_rpc_scheduler.Tasks.Store.{
  complete_row, update_row, Reply, Server, claim_row, claim_task_execution, complete_task_execution,
  no_lease, refused, reply_lost, answered, statement, updated, new_row, add_task, delete_task,
}

pub lookup-update_row :
    (id j : String) (holds : TaskRow → Bool) (assign : TaskRow → TaskRow) (t : Table)
    → lookup j (update_row id holds assign t) ≡ elim (lookup j t) [
      | none ↦ none
      | some r ↦ if str_eq id j && holds r then some (assign r) else some r
    ]
unfolding update_row
lookup-update_row id j holds assign t = elim (Option-cases (lookup id t)) [
  | inl n ↦ ground (arith, n, eq_iff id j)
  | inr (r, e) ↦ ground (arith, e, eq_iff id j, lookup-insert id j (assign r) t)
]

-- A statement on the row `j` leaves the row `id` alone, unless the two are one and its condition
-- holds.
pub statement-update_row :
    (id j : String) (holds : TaskRow → Bool) (assign : TaskRow → TaskRow) (t : Table)
    (reply : Reply) (done : Bool) {r : TaskRow}
    → lookup id t ≡ some r
    → str_eq j id && holds r ≡ false
    → lookup id (statement reply t (update_row j holds assign t) done).1 ≡ some r
unfolding statement
statement-update_row id j holds assign t no_lease done e h = e
statement-update_row id j holds assign t refused done e h = e
statement-update_row id j holds assign t reply_lost done e h =
    ground (arith, lookup-update_row j id holds assign t)
statement-update_row id j holds assign t answered done e h =
    ground (arith, lookup-update_row j id holds assign t)

-- The row at `id` is running under the execution `e`.
pub record IsLeased (id e : String) (t : Table) (r : TaskRow) : Type 0 where
  pub found : lookup id t ≡ some r
  pub running : r.status ≡ task_running
  pub held : r.current_execution_id ≡ some e

module _ (srv : Server) where
  -- INSERT never touches a row that is there.
  pub add_task-keeps :
      (id : String) (now : ℕ) (task : TaskMeta) (t : Table) (reply : Reply) {r : TaskRow}
      → lookup id t ≡ some r
      → lookup id (add_task srv reply now task t).1 ≡ some r
  unfolding add_task
  add_task-keeps id now task t reply e = elim (Option-cases (lookup task.id t)) [
    | inl n ↦ ground (arith, n, e, lookup-insert task.id id (new_row now task) t, eq_iff task.id id)
    | inr (s, n) ↦ ground (arith, n, e)
  ]

  -- DELETE leaves a running row alone.
  pub delete_task-keeps :
      (id j : String) (t : Table) (reply : Reply) {r : TaskRow}
      → lookup id t ≡ some r
      → r.status ≡ task_running
      → lookup id (delete_task srv reply j t).1 ≡ some r
  unfolding delete_task
  delete_task-keeps id j t reply {r} e k = elim (Option-cases (lookup j t)) [
    | inl n ↦ ground (arith, n, e)
    | inr (s, n) ↦ ground (arith, n, e, lookup-erase j id t, eq_iff j id)
  ]

  -- A claim that is answered true has made the row running, under the claim's execution and node,
  -- from the claim's moment on, and has left its schedule, its retry count and every other row as
  -- they were.
  pub claim_task_execution_success :
      (now : ℕ) (id e n : String) (expected : ℕ) (at : DateTime) (t : Table) (reply : Reply)
      → let (done, t') = claim_task_execution srv reply now id e n expected at t in
        done ≡ true
        → (r : TaskRow) × (lookup id t ≡ some r)
          × (r.status ≡ expected)
          × (lookup id t' ≡ some (claim_row now e n r))
          × ((j : String) → str_eq id j ≡ false → lookup j t' ≡ lookup j t)
  unfolding claim_task_execution update_row updated
  claim_task_execution_success now id e n expected at t reply h =
      elim (Option-cases (lookup id t)) [
        | inl u ↦ ground (arith, u)
        | inr (r, s) ↦ (
          r,
          s,
          ground (arith, s),
          ground (arith, s, lookup-insert id id (claim_row now e n r) t, eq_iff id id),
          λ j d. ground (arith, s, lookup-insert id j (claim_row now e n r) t),
        )
      ]

  -- While a row is running under one execution, a claim that expects another status is answered
  -- false and changes nothing, whatever execution, node or schedule it names.
  pub claim_task_execution_running :
      (id e e' n : String) (now expected : ℕ) (at : DateTime) (t : Table) (reply : Reply)
      (r : TaskRow)
      → IsLeased id e t r
      → expected ≢ task_running
      → claim_task_execution srv reply now id e' n expected at t ≡ (false, t)
  unfolding claim_task_execution update_row updated
  claim_task_execution_running id e e' n now expected at t reply r h k = ground (arith, h.found)

  -- An execution that does not hold the row completes nothing: the call is answered false and the
  -- table stays as it is.
  pub complete_task_execution_stale :
      (id e : String) (status : ℕ) (next last : DateTime) (retries : ℕ) (t : Table) (reply : Reply)
      → ((r : TaskRow) → lookup id t ≡ some r → r.current_execution_id ≢ some e)
      → complete_task_execution srv reply id e status next last retries t ≡ (false, t)
  unfolding complete_task_execution update_row updated
  complete_task_execution_stale id e status next last retries t reply h =
      elim (Option-cases (lookup id t)) [
        | inl n ↦ ground (arith, n)
        | inr (r, s) ↦ elim (Option-cases r.current_execution_id) [
          | inl n ↦ ground (arith, s, n)
          | inr (e', u) ↦ ground (arith, s, u, h r s, eq_iff e' e)
        ]
      ]

  -- A completion that is answered true was made by the execution that held the row, and has set the
  -- four columns that it was given and freed the row.
  pub complete_task_execution_success :
      (id e : String) (status : ℕ) (next last : DateTime) (retries : ℕ) (t : Table) (reply : Reply)
      → let (done, t') = complete_task_execution srv reply id e status next last retries t in
        done ≡ true
        → (r : TaskRow) × IsLeased id e t r
          × (lookup id t' ≡ some (complete_row status next last retries r))
  unfolding complete_task_execution update_row updated
  complete_task_execution_success id e status next last retries t reply h =
      elim (Option-cases (lookup id t)) [
        | inl n ↦ absurd (ground (arith, n))
        | inr (r, s) ↦ elim (Option-cases r.current_execution_id) [
          | inl n ↦ absurd (ground (arith, s, n))
          | inr (e', u) ↦
              let row = complete_row status next last retries r in
              (
                r,
                record {
                  found = s;
                  running = ground (arith, s, u);
                  held = ground (arith, s, u, eq_iff e' e);
                },
                ground (arith, s, u, lookup-insert id id row t, eq_iff id id),
              )
        ]
      ]

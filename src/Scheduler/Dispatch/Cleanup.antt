-- ===== src/Scheduler/Dispatch/Cleanup.antt =====
-- What scanAndDispatch leaves behind for a task that it locked and did not enqueue.
use coroutine_rpc_scheduler.Common.{
  Bool, Bool-cases, String, [], ap, arith, eq_iff, false, if◌then◌else◌, inl, inr, length,
  length-append, lookup, lookup-erase, lookup-insert, none, refl, some, str_empty, str_eq, sym,
  true, ℕ, ◌∷◌, ◌≡◌, ◌≢◌,
}
use coroutine_rpc_scheduler.Cancellation.{make_source, make_source}
use coroutine_rpc_scheduler.Cancellation.Registry.{
  register_task, Entry, unregister_task, register_task,
}
use coroutine_rpc_scheduler.Redis.Lock.{lock, lock_key, unlock, lock}
use coroutine_rpc_scheduler.Redis.Server.{RedisServer, answered as redis_answered}
use coroutine_rpc_scheduler.Scheduler.LockRenewer.{add, Lease, next_renew_time, remove, add}
use coroutine_rpc_scheduler.Scheduler.Dispatch.{
  hold_task, Turn, dispatch_locked, enqueue_cleanup, task_lock_ttl_sec,
}
use coroutine_rpc_scheduler.Scheduler.World.{World, Job}
use coroutine_rpc_scheduler.Tasks.{Table, DateTime, TaskMeta, TaskRow, task_scheduled}
use coroutine_rpc_scheduler.Tasks.Store.{
  no_lease, refused, reply_lost, answered, update_row, updated, is_completable, statement, Server,
  claim_row, complete_row, release_row, claim_task_execution, Reply, complete_task_execution,
}
use coroutine_rpc_scheduler.Tasks.Lease.{lookup-update_row, claim_task_execution_success}

-- The row as a task that is not running: it has no execution, node or start.
complete_row-claim_row :
    (task : TaskMeta) (now : ℕ) (e n : String) (r : TaskRow)
    → release_row r ≡ r
    → r.status ≡ task_scheduled
    → r.next_run_at ≡ task.next_run_at
    → r.last_run_at ≡ task.last_run_at
    → r.retry_count ≡ task.retry_count
    → complete_row task_scheduled task.next_run_at task.last_run_at task.retry_count
        (claim_row now e n r)
      ≡ r
complete_row-claim_row task now e n r free st next last count = cc

-- A claim that is answered false has changed nothing, where the row had no execution.
claim_task_execution_missed :
    (srv : Server) (reply : Reply) (now : ℕ) (id e n : String) (expected : ℕ) (at : DateTime)
    (t : Table) (r : TaskRow)
    → lookup id t ≡ some r
    → r.current_execution_id ≡ none
    → reply ≢ reply_lost
    → (claim_task_execution srv reply now id e n expected at t).0 ≡ false
    → (claim_task_execution srv reply now id e n expected at t).1 ≡ t
unfolding claim_task_execution statement update_row updated
claim_task_execution_missed srv no_lease now id e n expected at t r found free lost h = refl
claim_task_execution_missed srv refused now id e n expected at t r found free lost h = refl
claim_task_execution_missed srv reply_lost now id e n expected at t r found free lost h =
    absurd (lost refl)
claim_task_execution_missed srv answered now id e n expected at t r found free lost h =
    let changed : r ≢ claim_row now e n r = λ q. ground (arith, free) in
    ground (arith, found, srv.counts_changed r (claim_row now e n r) changed)

-- Completing a claim with what the row had before makes the row as it was.
complete-claim_task_execution :
    (srv : Server) (now : ℕ) (e n : String) (task : TaskMeta) (t u : Table) (r : TaskRow)
    → lookup task.id t ≡ some r
    → ((id : String)
        → lookup id u ≡ (if str_eq task.id id then some (claim_row now e n r) else lookup id t))
    → complete_row task_scheduled task.next_run_at task.last_run_at task.retry_count
        (claim_row now e n r)
      ≡ r
    → (id : String)
    → lookup id
        (complete_task_execution srv answered task.id e task_scheduled task.next_run_at
          task.last_run_at task.retry_count u).1
      ≡ lookup id t
unfolding complete_task_execution statement
complete-claim_task_execution srv now e n task t u r found claimed back id = ground (
  arith,
  found,
  claimed id,
  claimed task.id,
  eq_iff e e,
  eq_iff task.id id,
  eq_iff task.id task.id,
  back,
  lookup-update_row task.id id (is_completable e)
      (complete_row task_scheduled task.next_run_at task.last_run_at task.retry_count) u,
)

module _ (srv : Server) (redis : RedisServer) (node_id : String) where
  -- What the cleanup of an enqueued job takes back, whoever asks for it.
  enqueue_cleanup_lem :
      (turn : Turn redis) (job : Job) (claimed : Bool) (w : World redis) (entry : Entry) (l : Lease)
      → lookup job.task.id w.registry ≡ some entry
      → entry.execution_id ≡ job.execution_id
      → lookup job.lock_key w.renewer.leases ≡ some l
      → l.value ≡ job.lock_value
      → turn.unlock_attempt ≡ redis_answered
      → str_empty job.lock_key ≡ false
      → str_empty job.lock_value ≡ false
      → redis.get (lock_key redis job.lock_key) w.store ≡ some job.lock_value
      → let w' = enqueue_cleanup srv redis node_id turn job claimed w in
        (lookup job.task.id w'.registry ≡ none)
        × (lookup job.lock_key w'.renewer.leases ≡ none)
        × (redis.get (lock_key redis job.lock_key) w'.store ≡ none)
  unfolding enqueue_cleanup unregister_task remove unlock
  enqueue_cleanup_lem turn job claimed w entry l re ee rl lv unlocks ek ev lock =
      let k = lock_key redis job.lock_key in
      (
        ground (
          arith,
          lookup-erase job.task.id job.task.id w.registry,
          eq_iff job.execution_id job.execution_id,
          eq_iff job.task.id job.task.id,
        ),
        ground (
          arith,
          lookup-erase job.lock_key job.lock_key w.renewer.leases,
          eq_iff job.lock_value job.lock_value,
          eq_iff job.lock_key job.lock_key,
        ),
        ground (arith, redis.get-del k k w.store, eq_iff job.lock_value job.lock_value, eq_iff k k),
      )

  -- A dispatch that enqueues nothing takes back all that it did: when the claim's reply was not
  -- lost, nobody changed the table between the claim and the check for cancellation, and the two
  -- calls of the cleanup were answered, every row of the table is as before, no lease and no
  -- registration of the task is left, and the lock is free. Here the task is as it was read from its
  -- row, and the row has no execution, node or start.
  pub dispatch_locked_released :
      (turn : Turn redis) (task : TaskMeta) (key value : String) (w : World redis) (r : TaskRow)
      → lookup task.id w.table ≡ some r
      → release_row r ≡ r
      → r.next_run_at ≡ task.next_run_at
      → r.last_run_at ≡ task.last_run_at
      → r.retry_count ≡ task.retry_count
      → ((t : Table) (id : String) → lookup id (turn.table_meanwhile t) ≡ lookup id t)
      → turn.claim_reply ≢ reply_lost
      → turn.complete_reply ≡ answered
      → turn.unlock_attempt ≡ redis_answered
      → str_empty key ≡ false
      → str_empty value ≡ false
      → redis.get (lock_key redis key) w.store ≡ some value
      → let w' = dispatch_locked srv redis node_id turn task key value w in
        length w'.queue ≡ length w.queue
        → ((id : String) → lookup id w'.table ≡ lookup id w.table)
          × (lookup task.id w'.registry ≡ none)
          × (lookup key w'.renewer.leases ≡ none)
          × (redis.get (lock_key redis key) w'.store ≡ none)
  unfolding dispatch_locked hold_task make_source add register_task
  dispatch_locked_released turn task key value w r found free next last count still lost answer
        unlocks ek ev owned same =
      let (claimed, job, held) = hold_task srv redis node_id turn task key value w in
      let table =
        (claim_task_execution srv turn.claim_reply turn.server_now task.id turn.execution_id node_id
          task_scheduled task.next_run_at w.table).1 in
      let entry : Entry = record { execution_id = turn.execution_id; source = w.flags.next } in
      let l : Lease = record {
        key = key;
        value = value;
        ttl_sec = task_lock_ttl_sec;
        next_renew_at = next_renew_time turn.steady_ms task_lock_ttl_sec;
        cancellation = w.flags.next;
      } in
      let registered : lookup task.id held.registry ≡ some entry =
        (ground (arith, lookup-insert task.id task.id entry w.registry, eq_iff task.id task.id)) in
      let leased : lookup key held.renewer.leases ≡ some l =
        (ground (arith, lookup-insert key key l w.renewer.leases, eq_iff key key)) in
      let taken_back = λ (b : Bool).
        enqueue_cleanup_lem turn job b held entry l registered refl leased refl unlocks ek ev
          owned in
      let longer = length-append w.queue (job ∷ []) in
      (
        λ id. elim (Bool-cases claimed) [
          | inr missed ↦ ground (
            arith,
            missed,
            still table id,
            claim_task_execution_missed srv turn.claim_reply turn.server_now task.id
                turn.execution_id node_id task_scheduled task.next_run_at w.table r found
                (ground (arith, ap (λ s. s.current_execution_id) (sym free))) lost missed,
          )
          | inl got ↦
              let (s, at, sched, row, others) =
                claim_task_execution_success srv turn.server_now task.id turn.execution_id node_id
                  task_scheduled task.next_run_at w.table turn.claim_reply got in
              let whole : (j : String)
                  → lookup j held.table ≡ (
                      if str_eq task.id j
                      then some (claim_row turn.server_now turn.execution_id node_id s)
                      else lookup j w.table) =
                λ j. elim (Bool-cases (str_eq task.id j)) [
                  | inl b ↦ ground (arith, row, eq_iff task.id j, still table j)
                  | inr b ↦ ground (arith, others j b, still table j)
                ] in
              let back =
                complete_row-claim_row task turn.server_now turn.execution_id node_id s
                  (ground (arith, at, found, free)) sched (ground (arith, at, found))
                  (ground (arith, at, found)) (ground (arith, at, found)) in
              let done =
                complete-claim_task_execution srv turn.server_now turn.execution_id node_id task
                  w.table held.table s at whole back id in
              ground (arith, got, answer, done, same, longer)
        ],
        ground (arith, same, longer, taken_back false, taken_back true),
        ground (arith, same, longer, taken_back false, taken_back true),
        ground (arith, same, longer, taken_back false, taken_back true),
      )

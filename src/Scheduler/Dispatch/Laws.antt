-- ===== src/Scheduler/Dispatch/Laws.antt =====
-- When scanAndDispatch enqueues a job.
use coroutine_rpc_scheduler.Common.{
  Bool-cases, Option-cases, String, ap, arith, eq_iff, false, inl, inr, lookup, lookup-insert, none,
  refl, some, subst, sym, true, ℕ, ◌*◌, ◌-◌, ◌∙◌, ◌≡◌, ◌≢◌,
}
use coroutine_rpc_scheduler.Cancellation.{is_canceled}
use coroutine_rpc_scheduler.Cancellation.Registry.{Entry}
use coroutine_rpc_scheduler.Redis.LockLaws.{lock_excluded, lock_acquired}
use coroutine_rpc_scheduler.Redis.Lock.{lock, lock_key, lock}
use coroutine_rpc_scheduler.Redis.Server.{RedisServer}
use coroutine_rpc_scheduler.Metrics.{inc_lock_acquire_success, observe_schedule_delay}
use coroutine_rpc_scheduler.Scheduler.LockRenewer.{Lease, next_renew_time}
use coroutine_rpc_scheduler.Scheduler.Dispatch.{
  dispatch_task, owner, task_key, lock_fuel, lock_wait_ms, hold_task, Turn, dispatch_locked,
  task_lock_ttl_sec,
}
use coroutine_rpc_scheduler.Scheduler.World.{World}
use coroutine_rpc_scheduler.Tasks.{Table, TaskMeta, TaskRow, task_scheduled}
use coroutine_rpc_scheduler.Tasks.Store.{Server, claim_row, claim_task_execution}
use coroutine_rpc_scheduler.Tasks.Lease.{IsLeased, claim_task_execution_success}

module _ (srv : Server) (redis : RedisServer) (node_id : String) where
  abbrev delay : Turn redis → TaskMeta → ℕ
  delay turn task = elim task.next_run_at [ none ↦ 0 | some due ↦ turn.now_ms - 1000 * due ]

  -- What an execution holds of its task.
  abbrev Holds : Turn redis → TaskMeta → World redis → World redis → Type 0
  Holds turn task w w' =
      let e = turn.execution_id in
      let key = task_key srv redis node_id task in
      let value = owner srv redis node_id turn in
      (redis.get (lock_key redis key) w'.store ≡ some value)
      × ((r : TaskRow) × IsLeased task.id e w'.table r)
      × (lookup task.id w'.registry ≡ some (record { execution_id = e; source = w.flags.next }))
      × ((l : Lease) × (lookup key w'.renewer.leases ≡ some l)
          × (l.value ≡ value)
          × (l.cancellation ≡ w.flags.next))
      × (is_canceled w.flags.next w'.flags ≡ false)

  -- The branch that has the lock.
  dispatch_locked_enqueued :
      (turn : Turn redis) (task : TaskMeta) (key value : String) (w : World redis)
      → ((t : Table) (r : TaskRow)
          → IsLeased task.id turn.execution_id t r
          → IsLeased task.id turn.execution_id (turn.table_meanwhile t) r)
      → let w' = dispatch_locked srv redis node_id turn task key value w in
        w'.queue ≢ w.queue
        → let e = turn.execution_id in
          ((r : TaskRow) × IsLeased task.id e w'.table r)
          × (lookup task.id w'.registry ≡ some (record { execution_id = e; source = w.flags.next }))
          × ((l : Lease) × (lookup key w'.renewer.leases ≡ some l)
              × (l.value ≡ value)
              × (l.cancellation ≡ w.flags.next))
          × (is_canceled w.flags.next w'.flags ≡ false)
          × (w'.store ≡ w.store)
  unfolding dispatch_locked hold_task
  dispatch_locked_enqueued turn task key value w keep h =
      let e = turn.execution_id in
      let c =
        claim_task_execution srv turn.claim_reply turn.server_now task.id e node_id task_scheduled
          task.next_run_at w.table in
      let claimed : c.0 ≡ true = ground (arith, h) in
      let kept : turn.canceled_meanwhile ≡ false = ground (arith, h) in
      let taken : turn.accepted ≡ true = ground (arith, h) in
      let (r, _, _, s, _) =
        claim_task_execution_success srv turn.server_now task.id e node_id task_scheduled
          task.next_run_at w.table turn.claim_reply claimed in
      let row = claim_row turn.server_now e node_id r in
      let leased : IsLeased task.id e c.1 row = record { found = s; running = refl; held = refl } in
      let tables : turn.table_meanwhile c.1
          ≡ (dispatch_locked srv redis node_id turn task key value w).table =
        ground (arith, claimed, kept, taken) in
      let entry : Entry = record { execution_id = e; source = w.flags.next } in
      let l : Lease = record {
        key = key;
        value = value;
        ttl_sec = task_lock_ttl_sec;
        next_renew_at = next_renew_time turn.steady_ms task_lock_ttl_sec;
        cancellation = w.flags.next;
      } in
      (
        (row, subst (λ u. IsLeased task.id e u row) tables (keep c.1 row leased)),
        ground (
          arith,
          claimed,
          kept,
          taken,
          lookup-insert task.id task.id entry w.registry,
          eq_iff task.id task.id,
        ),
        (
          l,
          ground (
            arith,
            claimed,
            kept,
            taken,
            lookup-insert key key l w.renewer.leases,
            eq_iff key key,
          ),
          refl,
          refl,
        ),
        ground (arith, claimed, kept, taken),
        ground (arith, claimed, kept, taken),
      )

  -- A dispatch enqueues a job only while its execution holds all of the task: the lock has the
  -- value of this execution, the task's row runs under it, the registry knows it by the job's own
  -- source, the renewer keeps the lock under that source and value, and the source is not canceled.
  -- Nothing that happens to the table between the claim and the enqueue takes a running row from
  -- its execution.
  pub dispatch_task_enqueued :
      (turn : Turn redis) (task : TaskMeta) (w : World redis)
      → ((t : Table) (r : TaskRow)
          → IsLeased task.id turn.execution_id t r
          → IsLeased task.id turn.execution_id (turn.table_meanwhile t) r)
      → let w' = dispatch_task srv redis node_id turn task w in
        w'.queue ≢ w.queue
        → let e = turn.execution_id in
          let key = task_key srv redis node_id task in
          let value = owner srv redis node_id turn in
          (redis.get (lock_key redis key) w'.store ≡ some value)
          × ((r : TaskRow) × IsLeased task.id e w'.table r)
          × (lookup task.id w'.registry ≡ some (record { execution_id = e; source = w.flags.next }))
          × ((l : Lease) × (lookup key w'.renewer.leases ≡ some l)
              × (l.value ≡ value)
              × (l.cancellation ≡ w.flags.next))
          × (is_canceled w.flags.next w'.flags ≡ false)
  unfolding dispatch_task
  dispatch_task_enqueued turn task w keep h =
      let key = task_key srv redis node_id task in
      let value = owner srv redis node_id turn in
      let w' = dispatch_task srv redis node_id turn task w in
      let answer =
        lock redis turn.rounds lock_fuel key value task_lock_ttl_sec lock_wait_ms w.store in
      elim (Option-cases answer) [
        | inl n ↦ absurd (ground (arith, n, h))
        | inr ((got, store), n) ↦ elim (Bool-cases got) [
          | inr f ↦ absurd (ground (arith, n, f, h))
          | inl f ↦
              let locked = record w {
                store = store;
                metrics =
                    inc_lock_acquire_success (observe_schedule_delay (delay turn task) w.metrics);
              } in
              let same : w' ≡ dispatch_locked srv redis node_id turn task key value locked =
                ground (arith, n, f) in
              let held =
                lock_acquired redis turn.rounds lock_fuel key value task_lock_ttl_sec lock_wait_ms
                  w.store store (n ∙ ap (λ b. some (b, store)) f) in
              let (row, registered, leased, live, kept) =
                dispatch_locked_enqueued turn task key value locked keep
                  (λ q. h (ap (λ x. x.queue) same ∙ q)) in
              subst (Holds turn task w) (sym same)
                (ap (redis.get (lock_key redis key)) kept ∙ held, row, registered, leased, live)
        ]
      ]

  -- While another execution holds the lock of a task, and nobody frees it meanwhile, a dispatch of
  -- the task behind the misfire policy, by any node, enqueues nothing, and leaves the table, the
  -- registry, the leases and the lock as they are, whatever becomes of the calls to Redis.
  pub dispatch_task_excluded :
      (turn : Turn redis) (task : TaskMeta) (w : World redis) (other : String)
      → ((j : ℕ) (u : redis.State)
          → redis.get (lock_key redis (task_key srv redis node_id task)) u ≡ some other
          → redis.get (lock_key redis (task_key srv redis node_id task)) (turn.rounds.meanwhile j u)
            ≡ some other)
      → redis.get (lock_key redis (task_key srv redis node_id task)) w.store ≡ some other
      → let w' = dispatch_task srv redis node_id turn task w in
        (w'.queue ≡ w.queue)
        × (w'.table ≡ w.table)
        × (w'.registry ≡ w.registry)
        × (w'.renewer ≡ w.renewer)
        × (redis.get (lock_key redis (task_key srv redis node_id task)) w'.store ≡ some other)
  unfolding dispatch_task
  dispatch_task_excluded turn task w other keep h =
      let key = task_key srv redis node_id task in
      let value = owner srv redis node_id turn in
      elim (Option-cases
        (lock redis turn.rounds lock_fuel key value task_lock_ttl_sec lock_wait_ms w.store)) [
          | inl n ↦ (
            ground (arith, n),
            ground (arith, n),
            ground (arith, n),
            ground (arith, n),
            ground (arith, n, h),
          )
          | inr (got, n) ↦
              let excluded =
                lock_excluded redis turn.rounds lock_fuel key value other task_lock_ttl_sec
                  lock_wait_ms w.store keep h got n in
              (
                ground (arith, n, excluded),
                ground (arith, n, excluded),
                ground (arith, n, excluded),
                ground (arith, n, excluded),
                ground (arith, n, excluded),
              )
        ]

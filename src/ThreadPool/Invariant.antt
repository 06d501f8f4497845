-- ===== src/ThreadPool/Invariant.antt =====
-- Any interleaving of the threads of a pool and of those that use
-- coroutine_rpc_scheduler.Common.{List, Option, [], append_assoc, arith, false, if◌then◌else◌,
-- length, length-append, none, some, true, ℕ, ◌++◌, ◌+◌, ◌<◌, ◌==◌, ◌∷◌, ◌≡◌, ◌≤◌}
use coroutine_rpc_scheduler.Common.{
  List, List-cases, Option, [], append_assoc, arith, false, if◌then◌else◌, inl, inr, length,
  length-append, none, refl, some, true, ℕ, ◌++◌, ◌+◌, ◌<◌, ◌==◌, ◌∷◌, ◌≡◌, ◌≤◌,
}
use coroutine_rpc_scheduler.ThreadPool.{
  PoolConfig, ThreadPool, adjust_pool_size, enqueue, poll, wake, stop, make_config, make_pool,
}

pub data Event {ℓ} (A : Type ℓ) : Type ℓ where
  enqueues : Option A → Event A
  adjusts : ℕ → Event A
  polls wakes stops : Event A

module _ {ℓ} {A : Type ℓ} where
  -- A step of a busy or of a waiting worker needs one.
  unfoldable pub step : PoolConfig → Event A → ThreadPool A → ThreadPool A
  unfolding enqueue adjust_pool_size poll wake stop
  step c (enqueues task) p = (enqueue c task p).1
  step c (adjusts starting) p = adjust_pool_size c starting p
  step c polls p = if p.busy == 0 then p else poll p
  step c wakes p = if p.waiting == 0 then p else wake c p
  step c stops p = stop p

  unfoldable pub run : PoolConfig → List (Event A) → ThreadPool A → ThreadPool A
  unfolding step
  run c [] p = p
  run c (e ∷ es) p = run c es (step c e p)

  pub record IsSound (c : PoolConfig) (p : ThreadPool A) : Type ℓ where
    -- Every thread of the count is in its loop, and those that sleep are the idle ones.
    pub threads : p.current_threads ≡ p.busy + p.waiting
    pub idle : p.idle_count ≡ p.waiting
    pub at_most : p.current_threads ≤ c.max_threads
    pub at_least : p.stopping ≡ false → c.init_threads ≤ p.current_threads
    pub pending : 0 < c.max_pending_tasks → length p.tasks ≤ c.max_pending_tasks
    -- Tasks are started in the order in which they were accepted, each once.
    pub order : p.accepted ≡ p.started ++ p.tasks
    -- When the last thread has gone after `stop`, no task is left.
    pub drained : p.stopping ≡ true → p.current_threads ≡ 0 → p.tasks ≡ []

  step-IsSound :
      (c : PoolConfig) (e : Event A) (p : ThreadPool A)
      → 1 ≤ c.init_threads
      → IsSound c p
      → IsSound c (step c e p)
  unfolding step
  step-IsSound c (enqueues none) p pos h = h
  step-IsSound c (enqueues (some task)) p pos h = record {
    threads = ground (arith, h.threads);
    idle = ground (arith, h.idle);
    at_most = ground (arith, h.at_most);
    at_least = λ q. ground (arith, h.at_least);
    pending = λ q. ground (arith, h.pending q, length-append p.tasks (task ∷ []));
    order = ground (arith, h.order, append_assoc p.started p.tasks (task ∷ []));
    drained = λ q z. ground (arith, h.drained);
  }
  step-IsSound c (adjusts starting) p pos h = record {
    threads = ground (arith, h.threads);
    idle = ground (arith, h.idle);
    at_most = ground (arith, h.at_most);
    at_least = λ q. ground (arith, h.at_least);
    pending = λ q. ground (arith, h.pending q);
    order = ground (arith, h.order);
    drained = λ q z. ground (arith, h.drained);
  }
  step-IsSound c polls p pos h = elim (List-cases p.tasks) [
    | inl e ↦ record {
      threads = ground (arith, e, h.threads);
      idle = ground (arith, e, h.idle);
      at_most = ground (arith, e, h.at_most, h.threads);
      at_least = λ q. ground (arith, e, h.at_least, h.threads, h.idle);
      pending = λ q. ground (arith, e, h.pending q);
      order = ground (arith, e, h.order);
      drained = λ q z. ground (arith, e, h.drained, h.threads, h.idle);
    }
    | inr (t, ts, e) ↦ record {
      threads = ground (arith, e, h.threads);
      idle = ground (arith, e, h.idle);
      at_most = ground (arith, e, h.at_most, h.threads);
      at_least = λ q. ground (arith, e, h.at_least, h.threads, h.idle);
      pending = λ q. ground (arith, e, h.pending q);
      order = ground (arith, e, h.order, append_assoc p.started (t ∷ []) ts);
      drained = λ q z. ground (arith, e, h.drained, h.threads, h.idle);
    }
  ]
  step-IsSound c wakes p pos h = elim (List-cases p.tasks) [
    | inl e ↦ record {
      threads = ground (arith, e, h.threads);
      idle = ground (arith, e, h.idle);
      at_most = ground (arith, e, h.at_most, h.threads);
      at_least = λ q. ground (arith, e, h.at_least, h.threads, h.idle);
      pending = λ q. ground (arith, e, h.pending q);
      order = ground (arith, e, h.order);
      drained = λ q z. ground (arith, e, h.drained, h.threads, h.idle);
    }
    | inr (t, ts, e) ↦ record {
      threads = ground (arith, e, h.threads);
      idle = ground (arith, e, h.idle);
      at_most = ground (arith, e, h.at_most, h.threads);
      at_least = λ q. ground (arith, e, h.at_least, h.threads, h.idle);
      pending = λ q. ground (arith, e, h.pending q);
      order = ground (arith, e, h.order, append_assoc p.started (t ∷ []) ts);
      drained = λ q z. ground (arith, e, h.drained, h.threads, h.idle);
    }
  ]
  step-IsSound c stops p pos h = record {
    threads = h.threads;
    idle = h.idle;
    at_most = h.at_most;
    at_least = λ q. ground arith;
    pending = h.pending;
    order = h.order;
    drained = λ q z. ground (arith, h.drained, h.at_least);
  }

  run-IsSound :
      (c : PoolConfig) (es : List (Event A)) (p : ThreadPool A)
      → 1 ≤ c.init_threads
      → IsSound c p
      → IsSound c (run c es p)
  unfolding run
  run-IsSound c [] p pos h = h
  run-IsSound c (e ∷ es) p pos h = run-IsSound c es (step c e p) pos (step-IsSound c e p pos h)

-- Whatever the threads of a new pool and its users do, in any order: each thread of the count is in
-- its loop, their number stays within its bounds until the pool is stopped, no more tasks than
-- allowed are pending, and the tasks are started in the order in which they were accepted, each
-- once; when the last thread has gone after `stop`, every accepted task was started.
pub make_pool-IsSound {ℓ} :
    {A : Type ℓ} (init_threads max_threads threshold max_pending : ℕ) (es : List (Event A))
    → let c = make_config init_threads max_threads threshold max_pending in
      IsSound c (run c es (make_pool c))
unfolding make_pool make_config
make_pool-IsSound init_threads max_threads threshold max_pending es =
    let c = make_config init_threads max_threads threshold max_pending in
    run-IsSound c es (make_pool c) (omega arith) (record {
      threads = omega arith;
      idle = refl;
      at_most = omega arith;
      at_least = λ q. omega arith;
      pending = λ q. omega arith;
      order = refl;
      drained = λ q z. refl;
    })

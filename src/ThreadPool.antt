-- ===== src/ThreadPool.antt =====
-- DynamicThreadPool of src/common/thread_pool.cpp. A worker is busy, from the start of its thread
-- on, or it waits on the condition variable; a worker that left its loop is gone. What runs under
-- the mutex is one step, and a wait is two: going to sleep, and waking up.
pub mod Invariant
use coroutine_rpc_scheduler.Common.{
  Bool, List, Option, [], false, if◌then◌else◌, is_empty, leb, length, ltb, max, min, none, not,
  some, true, ℕ, ◌&&◌, ◌++◌, ◌+◌, ◌-◌, ◌||◌, ◌∷◌,
}

-- The fields that the constructor sets for good; `idle_timeout_sec` decides when a wait ends, which
-- is up to the environment here.
pub record PoolConfig : Type 0 where
  pub init_threads : ℕ
  pub max_threads : ℕ
  pub backlog_threshold : ℕ
  pub max_pending_tasks : ℕ

-- The constructor's arguments as it keeps them.
unfoldable pub make_config : ℕ → ℕ → ℕ → ℕ → PoolConfig
make_config init_threads max_threads backlog_threshold max_pending_tasks = record {
  init_threads = max 1 init_threads;
  max_threads = max (max 1 init_threads) max_threads;
  backlog_threshold = backlog_threshold;
  max_pending_tasks = max_pending_tasks;
}

-- `busy` and `waiting` count the threads in their loop; `accepted` and `started` record, in order,
-- the tasks that `enqueue` took and those that a worker took.
pub record ThreadPool {ℓ} (A : Type ℓ) : Type ℓ where
  pub tasks : List A
  pub current_threads : ℕ
  pub idle_count : ℕ
  pub stopping : Bool
  pub busy : ℕ
  pub waiting : ℕ
  pub accepted : List A
  pub started : List A

module _ {ℓ} {A : Type ℓ} where
  unfoldable pub make_pool : PoolConfig → ThreadPool A
  make_pool c = record {
    tasks = [];
    current_threads = c.init_threads;
    idle_count = 0;
    stopping = false;
    busy = c.init_threads;
    waiting = 0;
    accepted = [];
    started = [];
  }

  -- `starting` is how many threads the system lets start before it throws.
  unfoldable pub adjust_pool_size : PoolConfig → ℕ → ThreadPool A → ThreadPool A
  adjust_pool_size c starting p =
      let new_threads = min c.max_threads (p.current_threads + 2) in
      let grown = min starting (new_threads - p.current_threads) in
      if p.stopping
      then p
      else if ltb c.backlog_threshold (length p.tasks) && ltb p.current_threads c.max_threads
      then record p { current_threads = p.current_threads + grown; busy = p.busy + grown }
      else p

  -- The part of `enqueue` under the mutex.
  unfoldable pub enqueue : PoolConfig → Option A → ThreadPool A → Bool × ThreadPool A
  enqueue c none p = (false, p)
  enqueue c (some task) p =
      if p.stopping
      then (false, p)
      else if ltb 0 c.max_pending_tasks && leb c.max_pending_tasks (length p.tasks)
      then (false, p)
      else (true, record p { tasks = p.tasks ++ (task ∷ []); accepted = p.accepted ++ (task ∷ []) })

  -- A worker that is busy after its step takes the front task, or leaves the loop, or goes on.
  unfoldable pub take_task : ThreadPool A → ThreadPool A
  take_task p = elim p.tasks [
    | [] ↦
        if p.stopping
        then record p { current_threads = p.current_threads - 1; busy = p.busy - 1 }
        else p
    | task ∷ tasks ↦ record p { tasks = tasks; started = p.started ++ (task ∷ []) }
  ]

  -- A busy worker comes to the mutex: it takes a task, or goes to sleep.
  unfoldable pub poll : ThreadPool A → ThreadPool A
  unfolding take_task
  poll p =
      if is_empty p.tasks
      then record p { idle_count = p.idle_count + 1; busy = p.busy - 1; waiting = p.waiting + 1 }
      else take_task p

  -- A waiting worker wakes up: its predicate holds, or its time is over.
  unfoldable pub wake : PoolConfig → ThreadPool A → ThreadPool A
  unfolding take_task
  wake c p =
      let ready = p.stopping || not (is_empty p.tasks) in
      let idle = p.idle_count - 1 in
      let awake = record p { idle_count = idle; busy = p.busy + 1; waiting = p.waiting - 1 } in
      if not ready && ltb 0 idle && ltb c.init_threads p.current_threads
      then record p {
        idle_count = idle;
        waiting = p.waiting - 1;
        current_threads = p.current_threads - 1;
      }
      else take_task awake

  -- The part of `stop` before it joins the threads.
  unfoldable pub stop : ThreadPool A → ThreadPool A
  stop p = record p { stopping = true }

-- ===== src/Examples/Calls.antt =====
-- The client pool and the execution of a task, at concrete inputs.
use coroutine_rpc_scheduler.Common.{
  Bool, List, String, [], any, arith, drop, false, if◌then◌else◌, keep_if, length, ltb, none, not,
  refl, some, str_empty, str_eq, take, true, ℕ, ◌%◌, ◌&&◌, ◌++◌, ◌+◌, ◌∷◌, ◌≡◌,
}
use coroutine_rpc_scheduler.Pool.{
  Options, make_options, EndpointState, new_state, opened, record_failure, reserve_half_open_probe,
  is_healthy_enough,
}
use coroutine_rpc_scheduler.Pool.Breaker.{
  Event, reserves, succeeds, fails, borrows, releases, run, IsSound, run-IsSound,
  record_failure_cooldown,
}
use coroutine_rpc_scheduler.Pool.Candidates.{
  ordered_candidates, ordered_candidates_lem, unique_endpoints, count_of,
}
use coroutine_rpc_scheduler.Pool.Call.{Visit, States, call}
use coroutine_rpc_scheduler.Pool.Call.Laws.{call_success, IsAnsweredBy}
use coroutine_rpc_scheduler.Scheduler.Execute.{
  Messages, PoolReply, execute_task, ExecuteTaskResponse,
}
use coroutine_rpc_scheduler.Tasks.{TaskMeta}

abbrev options : Options
options = record {
  max_idle_per_endpoint = 4;
  failure_threshold = 2;
  cooldown_ms = 3000;
  health_check_probe = true;
  health_check_timeout_ms = 500;
}

new_state-IsSound : IsSound (make_options options) new_state
unfolding make_options
new_state-IsSound = record {
  counts = (λ e. omega arith, λ e. refl);
  probing = (λ e. ground arith, λ e. ground arith);
  idle = omega arith;
}

abbrev events : List Event
events = borrows 1 ∷ fails 100 ∷ releases 1 false ∷ fails 200 ∷ reserves 3300 ∷ succeeds ∷ []

run-IsSound_example : IsSound (make_options options) (run (make_options options) events new_state)
run-IsSound_example = run-IsSound options events new_state new_state-IsSound

abbrev tripped : EndpointState
tripped = record new_state {
  consecutive_failures = 2;
  unhealthy_until = 3200;
  circuit_state = opened;
}

record_failure_cooldown_example :
    ((reserve_half_open_probe 3100 (
        run options
          (fails 250 ∷ reserves 3000 ∷ [])
          (record_failure options 200 (record new_state { consecutive_failures = 1 })))).0
      ≡ false)
    × (is_healthy_enough 3100 (
          run options
            (fails 250 ∷ reserves 3000 ∷ [])
            (record_failure options 200 (record new_state { consecutive_failures = 1 })))
        ≡ false)
record_failure_cooldown_example =
    record_failure_cooldown options 200 3100 (fails 250 ∷ reserves 3000 ∷ [])
      (record new_state { consecutive_failures = 1 }) (omega arith) (refl, (refl, tt)) (omega arith)

-- The worker b is in its cooldown.
abbrev states : States
states e = if str_eq e "b:2" then tripped else new_state

abbrev workers : List String
workers = "a:1" ∷ "b:2" ∷ "" ∷ "a:1" ∷ "c:3" ∷ []

ordered_candidates_lem_example :
    let found = ordered_candidates states 1000 5 workers in
    let unique = unique_endpoints workers in
    let start = 5 % length unique in
    let healthy : String → Bool = λ e. is_healthy_enough 1000 (states e) in
    (found ≡ keep_if healthy (drop start unique ++ take start unique))
    × ((e : String)
        → count_of e found
          ≡ (if not (str_empty e) && any (str_eq e) workers && healthy e then 1 else 0))
ordered_candidates_lem_example = ordered_candidates_lem states 1000 5 workers

abbrev visits : ℕ → Visit
visits i = record {
  canceled = false;
  expired = false;
  now = 1000 + i;
  probe_done = 0;
  call_done = 1000 + i;
  fresh = i;
  probe = record { ok = false; serial_id = 0; serving = none };
  reply = record {
    ok = ltb 0 i;
    serial_id = 6;
    data' = 1 ∷ [];
    last_error = "timeout";
    ends = false;
  };
  before = λ s. s;
  during_probe = λ s. s;
  during_call = λ s. s;
}

call_second : (call options visits 1000 5 workers states).ok ≡ true
unfolding call is_healthy_enough
call_second = refl

call_success_example :
    let r = call options visits 1000 5 workers states in
    (any (str_eq r.endpoint) workers ≡ true)
    × (is_healthy_enough 1000 (states r.endpoint) ≡ true)
    × ((j : ℕ) × (t : States) × IsAnsweredBy options (visits j) t r)
call_success_example = call_success options visits 1000 5 workers states call_second

abbrev answer : ExecuteTaskResponse
answer = record { success = true; result = "ok"; error = "" }

abbrev pub messages : Messages
messages = record {
  serialize_request = λ r. some (1 ∷ []);
  parse_response = λ bytes. some answer;
  parse_error = λ bytes. none;
}

abbrev pub pool : List ℕ → PoolReply
pool bytes = record {
  ok = true;
  response_serial_id = 6;
  response_data = bytes;
  endpoint = "a:1";
  error = "";
}

abbrev pub due_task : TaskMeta
due_task = record {
  id = "t";
  cron_expr = "0 * * * * *";
  params = "";
  handler = "Echo";
  status = 1;
  next_run_at = some 60;
  last_run_at = none;
  retry_count = 0;
  max_retries = 3;
  current_execution_id = "";
  running_node = "";
  started_at = none;
}

execute_task_ok :
    (execute_task messages "" none 60000 false false workers pool due_task "t:60000:0").success
    ≡ true
unfolding execute_task
execute_task_ok = refl

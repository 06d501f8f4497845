-- ===== src/Examples/Serving.antt =====
-- The acceptor, the ways into the dispatcher, its handlers that read, and the pages of the store,
-- at concrete inputs.
use coroutine_rpc_scheduler.Common.{
  Bool, List, Option, String, [], arith, false, if◌then◌else◌, leb, length, map, min, none, refl,
  some, str_eq, true, ℕ, ◌++◌, ◌+◌, ◌-◌, ◌∷◌, ◌≡◌, ◌⊎◌,
}
use coroutine_rpc_scheduler.Protocol.{Frame}
use coroutine_rpc_scheduler.Server.EventLoop
use coroutine_rpc_scheduler.Server.EventLoop.Stopping.{run_resumes}
use coroutine_rpc_scheduler.Server.Accept.{
  waits, no_more, connection, Acceptor, Event, ready, returned, run, IsCounted, run-IsCounted,
}
use coroutine_rpc_scheduler.Dispatcher.{ErrorCode, combined, Dispatcher}
use coroutine_rpc_scheduler.Dispatcher.Interceptors.{
  RpcContext, responds, throws, make_default_chain,
}
use coroutine_rpc_scheduler.Dispatcher.Core.{
  Handler, streams, Handlers, Core, dispatch_core, dispatch_stream_with_context,
}
use coroutine_rpc_scheduler.Dispatcher.Core.Streams.{
  IsBalanced, LeavesCounts, dispatch_stream_with_context-IsBalanced,
}
use coroutine_rpc_scheduler.Dispatcher.Worker.{
  invoke_worker, IsRemoteSuccess, invoke_worker_success,
}
use coroutine_rpc_scheduler.Scheduler.Execute.{PoolReply}
use coroutine_rpc_scheduler.Tasks.{Table, TaskRow}
use coroutine_rpc_scheduler.Tasks.Queries.{read_all}
use coroutine_rpc_scheduler.Tasks.Pages.{all, TaskQuery, counted, list_tasks}
use coroutine_rpc_scheduler.Tasks.Pages.Reordered.{swap, IsReordered-refl}
use coroutine_rpc_scheduler.Tasks.Pages.Slices.{list_tasks_pages, IsKeyed}
use coroutine_rpc_scheduler.Handlers.{HandlerEnd}
use coroutine_rpc_scheduler.Examples.TaskTable.{idle_row}
use coroutine_rpc_scheduler.Metrics.{no_metrics}
use coroutine_rpc_scheduler.Examples.Calls.{due_task, messages, pool}

abbrev idle : Acceptor
idle = record { active_connections = 0; metrics = no_metrics; open_handlers = 0 }

abbrev accepted : List Event
accepted = ready (connection waits ∷ connection waits ∷ no_more ∷ []) ∷ returned ∷ []

run-IsCounted_example : IsCounted 1 (run 1 accepted idle)
run-IsCounted_example =
    run-IsCounted 1 accepted idle (omega arith)
      (record { active = refl; gauge = refl; within = omega arith })

abbrev error_payload : ErrorCode → String → List ℕ
error_payload code message = []

abbrev fixed : ℕ → Handler ℕ
fixed id payload m s = record {
  outcome = responds (record { serial_id = id; payload = payload });
  metrics = m;
  state = s;
}

abbrev broken : Handler ℕ
broken payload m s = record { outcome = throws "no"; metrics = m; state = s + 1 }

abbrev handlers : Handlers ℕ
handlers = record {
  handle_echo = fixed 2;
  handle_submit_task = broken;
  handle_execute_task = fixed 6;
  handle_cancel_task = fixed 8;
  handle_list_tasks = fixed 10;
  handle_list_history = fixed 12;
  handle_list_services = fixed 14;
  handle_update_task = fixed 16;
  handle_enable_task = fixed 18;
  handle_delete_task = fixed 20;
  handle_run_task_now = fixed 22;
  handle_get_metrics = fixed 24;
  handle_health_check = fixed 26;
  handle_stream_metrics = λ payload m s. record { outcome = streams []; metrics = m; state = s };
}

abbrev no_names : ℕ → Option String
no_names id = none

abbrev core : Core ℕ
core = record {
  role = combined;
  handlers = handlers;
  interceptors = some (make_default_chain error_payload no_names 1 2);
}

abbrev context : RpcContext
context = record {
  request_id = "1";
  remote = "h";
  request_serial_id = 3;
  response_serial_id = 0;
  method_name = "";
  request_bytes = 0;
  response_bytes = 0;
  started_at = 0;
  elapsed = 0;
  success = false;
}

core-LeavesCounts : LeavesCounts error_payload no_names 1 2 core
unfolding dispatch_core
core-LeavesCounts = record {
  core = λ serial_id payload m s. ground arith;
  stream = λ payload m s. (refl, refl, refl);
}

dispatch_stream_with_context-IsBalanced_example :
    let r = dispatch_stream_with_context error_payload core 1 [] context no_metrics 0 in
    ((responses : List Frame) × (r.outcome ≡ streams responses)) × IsBalanced r.metrics
dispatch_stream_with_context-IsBalanced_example =
    dispatch_stream_with_context-IsBalanced error_payload no_names 1 2 core 1 [] context no_metrics
      0 refl core-LeavesCounts refl

abbrev rank : String → ℕ
rank id = if str_eq id "t" then 0 else if str_eq id "u" then 1 else 2

abbrev text_before : String → String → Bool
text_before a b = leb (rank a) (rank b)

leb_total : (a b : ℕ) → leb a b ≡ false → leb b a ≡ true
leb_total a b h = ground (arith, h)

leb_trans : (a b c : ℕ) → leb a b ≡ true → leb b c ≡ true → leb a c ≡ true
leb_trans a b c h k = ground (arith, h, k)

abbrev like : String → String → Bool
like text pattern' = true

abbrev tied : TaskRow
tied = record idle_row { created_at = 5 }

-- All three were created in the same second.
abbrev three_tasks : Table
three_tasks = ("t", tied) ∷ ("u", tied) ∷ ("v", tied) ∷ []

abbrev read_otherwise : Table
read_otherwise = ("u", tied) ∷ ("t", tied) ∷ ("v", tied) ∷ []

three_tasks-IsKeyed : IsKeyed text_before three_tasks
three_tasks-IsKeyed = (
  ((λ h k. refl), ((λ h k. ground (arith, h, k)), ((λ h k. ground (arith, h, k)), tt))),
  (
    ((λ h k. ground (arith, h, k)), ((λ h k. refl), ((λ h k. ground (arith, h, k)), tt))),
    (((λ h k. ground (arith, h, k)), ((λ h k. ground (arith, h, k)), ((λ h k. refl), tt))), tt),
  ),
)

abbrev all_tasks : TaskQuery
all_tasks = record { status_filter = all; keyword = ""; limit = 1; offset = 0 }

list_tasks_pages_example :
    let page = λ (limit offset : ℕ) (read : Table).
      list_tasks like text_before
        (counted read_all)
        (record all_tasks { limit = limit; offset = offset })
        read
        read in
    ((page 2 0 three_tasks).items ++ (page 2 2 read_otherwise).items ≡ (page 4 0 three_tasks).items)
    × ((page 2 0 three_tasks).total ≡ (page 2 2 read_otherwise).total)
    × (length (page 2 0 three_tasks).items ≡ min 2 ((page 2 0 three_tasks).total - 0))
list_tasks_pages_example =
    list_tasks_pages like text_before (λ a b. leb_total (rank a) (rank b))
      (λ a b c. leb_trans (rank a) (rank b) (rank c)) all_tasks 2 2 three_tasks-IsKeyed
      (IsReordered-refl three_tasks) (swap ("t", tied) ("u", tied) (("v", tied) ∷ [])) (omega arith)
      (omega arith) (omega arith)

abbrev node : Dispatcher
node = record {
  role = combined;
  auth_token = [];
  node_id = "node1";
  worker_service_name = "worker";
  has_db = true;
  has_handler = λ h. true;
  discover = none;
}

abbrev call_pool : List String → List ℕ → PoolReply
call_pool endpoints data' = pool data'

abbrev execute : ℕ → HandlerEnd
execute deadline = HandlerEnd.returned "done"

invoke_worker_success_example :
    let r = invoke_worker node messages "" 5000 61000 execute call_pool "t:61:0" due_task in
    ((combined ≡ combined)
      × (true ≡ true)
      × (HandlerEnd.returned "done" ≡ HandlerEnd.returned r.result))
    ⊎ IsRemoteSuccess node messages call_pool due_task
unfolding invoke_worker
invoke_worker_success_example =
    invoke_worker_success node messages "" 5000 61000 execute call_pool "t:61:0" due_task refl

-- Two coroutines wait; one gets its event and waits again, then the loop is stopped.
abbrev waiting_loop : EventLoop.EpollLoop
waiting_loop = record {
  is_open = true;
  stop_requested = false;
  callbacks = 3 ∷ [];
  coroutines = (4, 40) ∷ (5, 50) ∷ [];
  resumed = [];
}

abbrev event_round : EventLoop.LoopRound
event_round = record {
  stopped_meanwhile = false;
  answer = EventLoop.Wait.ready (
      record {
        fd = 4;
        called = record { actions = []; throws = false };
        resumption = record { actions = EventLoop.adds_coroutine 4 40 true ∷ []; throws = false };
      }
      ∷ []);
}

abbrev stopped_round : EventLoop.LoopRound
stopped_round = record { stopped_meanwhile = true; answer = EventLoop.Wait.interrupted }

abbrev wait_again : ℕ → List EventLoop.Action
wait_again coroutine = EventLoop.adds_coroutine 4 coroutine true ∷ []

abbrev left_loop : EventLoop.EpollLoop
left_loop = record waiting_loop {
  stop_requested = true;
  coroutines = [];
  resumed = 40 ∷ 40 ∷ 50 ∷ [];
}

run_left :
    EventLoop.run wait_again (event_round ∷ stopped_round ∷ []) waiting_loop
    ≡ some (true, left_loop)
unfolding EventLoop.run EventLoop.resume_pending_coroutines EventLoop.add_coroutine
run_left = refl

run_resumes_example :
    (at_end : EventLoop.EpollLoop) × (EventLoop.run_loop
        (event_round ∷ stopped_round ∷ [])
        waiting_loop
      ≡ some (true, at_end))
    × (at_end.stop_requested ≡ true)
    × (left_loop.coroutines ≡ [])
    × (left_loop.resumed ≡ at_end.resumed ++ map (λ x. x.1) at_end.coroutines)
run_resumes_example =
    run_resumes wait_again (event_round ∷ stopped_round ∷ []) waiting_loop left_loop run_left

-- ===== src/Dispatcher/Worker.antt =====
-- RpcDispatcher::invokeWorker: a run on request, by a handler of the same process or by a worker.
use coroutine_rpc_scheduler.Common.{
  Bool-cases, List, Option-cases, String, ap, arith, false, if◌then◌else◌, inl, inr, is_empty, none,
  not, refl, some, str_append, str_empty, sym, to_string, true, ℕ, ◌&&◌, ◌+◌, ◌==◌, ◌∙◌, ◌≡◌, ◌⊎◌,
}
use coroutine_rpc_scheduler.Dispatcher.{Dispatcher, combined, control_plane, worker, RpcNodeRole}
use coroutine_rpc_scheduler.Dispatcher.RunNow.{WorkerResult}
use coroutine_rpc_scheduler.Handlers.{HandlerEnd, returned, raised, raised_unknown}
use coroutine_rpc_scheduler.Scheduler.Execute.{
  Messages, PoolReply, execute_task_response_serial_id, rpc_error_serial_id, request_for,
  ExecuteTaskResponse,
}
use coroutine_rpc_scheduler.Tasks.{TaskMeta}

abbrev no_result : WorkerResult
no_result = record { success = false; result = ""; error = ""; endpoint = "" }

-- The result of a handler of this process.
abbrev pub local_result : Dispatcher → HandlerEnd → WorkerResult
local_result d (returned result) = record no_result {
  success = true;
  result = result;
  endpoint = if str_empty d.node_id then "local" else d.node_id;
}
local_result d (raised what) = record no_result { error = what }
local_result d raised_unknown = record no_result { error = "Unknown handler exception" }

-- What becomes of an answer of the pool.
unfoldable pub read_worker_reply : Messages → PoolReply → WorkerResult
read_worker_reply msgs reply =
    let seen = record no_result { endpoint = reply.endpoint } in
    let response : WorkerResult = elim (msgs.parse_response reply.response_data) [
      | none ↦ record seen { error = "Failed to parse ExecuteTaskResponse" }
      | some r ↦ record seen {
        success = r.success;
        result = r.result;
        error =
            if not r.success && str_empty r.error then "Worker reported task failure" else r.error;
      }
    ] in
    if reply.response_serial_id == rpc_error_serial_id
    then elim (msgs.parse_error reply.response_data) [
      | none ↦ record seen { error = "Worker RPC error response parse failed" }
      | some e ↦ record seen {
        error = str_append "RPC error " (str_append (to_string e.code) (str_append ": " e.message));
      }
    ]
    else if not (reply.response_serial_id == execute_task_response_serial_id)
    then record seen {
      error =
          str_append "Unexpected worker response serial_id: " (to_string reply.response_serial_id);
    }
    else response

-- The part behind the handlers of this process. `auth_token` is the text of the dispatcher's token,
-- and `call` the pool of workers, which there is with Redis.
unfoldable pub invoke_remote :
    Dispatcher
    → Messages
    → String
    → ℕ
    → ℕ
    → (List String → List ℕ → PoolReply)
    → String
    → TaskMeta
    → WorkerResult
unfolding read_worker_reply
invoke_remote d msgs auth_token worker_timeout_ms now_ms call execution_id task =
    let request = request_for auth_token now_ms worker_timeout_ms task execution_id in
    elim d.discover [
      | none ↦ record no_result { error = "Worker discovery is not available" }
      | some discover ↦
          let endpoints =
            discover (str_append d.worker_service_name (str_append ":" task.handler)) in
          let sent : WorkerResult = elim (msgs.serialize_request request) [
            | none ↦ record no_result { error = "Failed to serialize ExecuteTaskRequest" }
            | some data' ↦
                let reply = call endpoints data' in
                if reply.ok then read_worker_reply msgs reply else record no_result {
                  endpoint = reply.endpoint;
                  error = if str_empty reply.error then "Worker RPC call failed" else reply.error;
                }
          ] in
          if is_empty endpoints
          then record no_result {
            error = str_append "No worker available for handler: " task.handler;
          }
          else sent
    ]

-- `execute` runs a handler of this process, given the deadline of its context.
unfoldable pub invoke_worker :
    Dispatcher
    → Messages
    → String
    → ℕ
    → ℕ
    → (ℕ → HandlerEnd)
    → (List String → List ℕ → PoolReply)
    → String
    → TaskMeta
    → WorkerResult
unfolding invoke_remote
invoke_worker d msgs auth_token worker_timeout_ms now_ms execute call execution_id task =
    let here = local_result d (execute (now_ms + worker_timeout_ms)) in
    let remote = invoke_remote d msgs auth_token worker_timeout_ms now_ms call execution_id task in
    elim d.role [
      | combined ↦ if d.has_handler task.handler then here else remote
      | control_plane ↦ remote
      | worker ↦ remote
    ]

read_worker_reply_success :
    (msgs : Messages) (reply : PoolReply)
    → (read_worker_reply msgs reply).success ≡ true
    → (reply.response_serial_id ≡ execute_task_response_serial_id)
      × ((response : ExecuteTaskResponse) × (msgs.parse_response reply.response_data
            ≡ some response)
          × (response.success ≡ true))
unfolding read_worker_reply
read_worker_reply_success msgs reply h =
    elim (Option-cases (msgs.parse_response reply.response_data)) [
      | inl e ↦ absurd (ground (arith, e))
      | inr (r, e) ↦ (ground (arith, e), (r, e, ground (arith, e)))
    ]

RpcNodeRole-cases : (r : RpcNodeRole) → (r ≡ combined) ⊎ ((r ≡ control_plane) ⊎ (r ≡ worker))
RpcNodeRole-cases combined = inl refl
RpcNodeRole-cases control_plane = inr (inl refl)
RpcNodeRole-cases worker = inr (inr refl)

-- A discovered worker was asked, and its answer was read and said success.
abbrev pub IsRemoteSuccess :
    Dispatcher → Messages → (List String → List ℕ → PoolReply) → TaskMeta → Type 0
IsRemoteSuccess d msgs call task =
    (discover : String → List String) × (data' : List ℕ) × (response : ExecuteTaskResponse)
    × (d.discover ≡ some discover)
    × (let endpoints = discover (str_append d.worker_service_name (str_append ":" task.handler)) in
        (is_empty endpoints ≡ false)
        × ((call endpoints data').ok ≡ true)
        × ((call endpoints data').response_serial_id ≡ execute_task_response_serial_id)
        × (msgs.parse_response (call endpoints data').response_data ≡ some response)
        × (response.success ≡ true))

invoke_remote_success :
    (d : Dispatcher) (msgs : Messages) (token : String) (timeout now : ℕ)
    (call : List String → List ℕ → PoolReply) (e : String) (task : TaskMeta)
    → (invoke_remote d msgs token timeout now call e task).success ≡ true
    → IsRemoteSuccess d msgs call task
unfolding invoke_remote
invoke_remote_success d msgs token timeout now call e task h =
    let request = request_for token now timeout task e in
    elim (Option-cases d.discover) [
      | inl n ↦ absurd (ground (arith, n))
      | inr (discover, n) ↦ elim (Option-cases (msgs.serialize_request request)) [
        | inl m ↦ absurd (ground (arith, n, m))
        | inr (data', m) ↦
            let endpoints =
              discover (str_append d.worker_service_name (str_append ":" task.handler)) in
            let reply = call endpoints data' in
            let good : (read_worker_reply msgs reply).success ≡ true = ground (arith, n, m) in
            let (id, (response, parsed, success)) = read_worker_reply_success msgs reply good in
            (
              discover,
              data',
              response,
              n,
              (ground (arith, n, m), ground (arith, n, m), id, parsed, success),
            )
      ]
    ]

local_success :
    (d : Dispatcher) (end : HandlerEnd)
    → (local_result d end).success ≡ true
    → end ≡ returned (local_result d end).result
local_success d (returned result) h = refl
local_success d (raised what) h = absurd (cc)
local_success d raised_unknown h = absurd (cc)

-- A run is a success only where a handler of this process returned its result, on a node of both
-- roles that has the handler, or where a discovered worker answered with an ExecuteTaskResponse
-- that could be read and said success.
pub invoke_worker_success :
    (d : Dispatcher) (msgs : Messages) (token : String) (timeout now : ℕ) (execute : ℕ → HandlerEnd)
    (call : List String → List ℕ → PoolReply) (e : String) (task : TaskMeta)
    → let r = invoke_worker d msgs token timeout now execute call e task in
      r.success ≡ true
      → ((d.role ≡ combined)
          × (d.has_handler task.handler ≡ true)
          × (execute (now + timeout) ≡ returned r.result))
        ⊎ IsRemoteSuccess d msgs call task
unfolding invoke_worker
invoke_worker_success d msgs token timeout now execute call e task h =
    let remote = invoke_remote_success d msgs token timeout now call e task in
    let own = local_success d (execute (now + timeout)) in
    elim (RpcNodeRole-cases d.role) [
      | inl c ↦ elim (Bool-cases (d.has_handler task.handler)) [
        | inl has ↦
            let same : invoke_worker d msgs token timeout now execute call e task
                ≡ local_result d (execute (now + timeout)) =
              ground (arith, c, has) in
            let end = own (ap (λ x. x.success) (sym same) ∙ h) in
            inl (c, has, end ∙ ap (λ x. returned x.result) (sym same))
        | inr lacks ↦
            let same : invoke_worker d msgs token timeout now execute call e task
                ≡ invoke_remote d msgs token timeout now call e task =
              ground (arith, c, lacks) in
            inr (remote (ap (λ x. x.success) (sym same) ∙ h))
      ]
      | inr other ↦
          let same : invoke_worker d msgs token timeout now execute call e task
              ≡ invoke_remote d msgs token timeout now call e task =
            ground (arith, other) in
          inr (remote (ap (λ x. x.success) (sym same) ∙ h))
    ]

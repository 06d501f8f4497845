-- ===== src/Scheduler/Execute.antt =====
-- TaskScheduler::executeTask: one execution of a task on a worker. Protobuf and the client pool are
-- parameters.
use coroutine_rpc_scheduler.Tasks.{TaskMeta}
use coroutine_rpc_scheduler.Common.{
  Bool, List, Option, Option-cases, String, arith, false, if◌then◌else◌, inl, inr, is_empty, none,
  some, str_append, to_string, true, ℕ, ◌+◌, ◌==◌, ◌≡◌,
}

pub record ExecutionOutcome : Type 0 where
  pub success : Bool
  pub result : String
  pub error : String
  pub endpoint : String

-- ExecuteTaskRequest, ExecuteTaskResponse and RpcError of proto/rpc.proto.
pub record ExecuteTaskRequest : Type 0 where
  pub task_id : String
  pub execution_id : String
  pub params : String
  pub handler : String
  pub auth_token : String
  pub deadline_unix_ms : ℕ

pub record ExecuteTaskResponse : Type 0 where
  pub success : Bool
  pub result : String
  pub error : String

pub record RpcError : Type 0 where
  pub code : ℕ
  pub message : String

-- SerializeToString, which can fail, and the two ParseFromString.
pub record Messages : Type 0 where
  pub serialize_request : ExecuteTaskRequest → Option (List ℕ)
  pub parse_response : List ℕ → Option ExecuteTaskResponse
  pub parse_error : List ℕ → Option RpcError

-- What RpcClientPool::call hands back.
pub record PoolReply : Type 0 where
  pub ok : Bool
  pub response_serial_id : ℕ
  pub response_data : List ℕ
  pub endpoint : String
  pub error : String

abbrev pub execute_task_request_serial_id : ℕ
execute_task_request_serial_id = 5

abbrev pub execute_task_response_serial_id : ℕ
execute_task_response_serial_id = 6

abbrev pub rpc_error_serial_id : ℕ
rpc_error_serial_id = 100

abbrev no_outcome : ExecutionOutcome
no_outcome = record { success = false; result = ""; error = ""; endpoint = "" }

unfoldable pub read_reply : Messages → PoolReply → ExecutionOutcome
read_reply msgs reply =
    let seen = record no_outcome { endpoint = reply.endpoint } in
    if reply.response_serial_id == rpc_error_serial_id
    then elim (msgs.parse_error reply.response_data) [
      | none ↦ record seen { error = "RPC error response parse failed" }
      | some e ↦ record seen {
        error = str_append "RPC error " (str_append (to_string e.code) (str_append ": " e.message));
      }
    ]
    else if reply.response_serial_id == execute_task_response_serial_id
    then elim (msgs.parse_response reply.response_data) [
      | none ↦ record seen { error = "Failed to parse ExecuteTaskResponse" }
      | some r ↦ record seen { success = r.success; result = r.result; error = r.error }
    ]
    else record seen {
      error = str_append "Unexpected RPC response serial_id: " (to_string reply.response_serial_id);
    }

abbrev pub task_timeout_ms : Option ℕ → ℕ
task_timeout_ms none = 5000
task_timeout_ms (some ms) = ms

abbrev pub request_for : String → ℕ → ℕ → TaskMeta → String → ExecuteTaskRequest
request_for auth_token now_ms timeout task execution_id = record {
  task_id = task.id;
  execution_id = execution_id;
  params = task.params;
  handler = task.handler;
  auth_token = auth_token;
  deadline_unix_ms = now_ms + timeout;
}

-- `canceled` and `canceled_after` are the cancellation token when the method starts and when the
-- call has failed, `endpoints` what discovery answers, `call` the pool's answer to a request, and
-- `configured_timeout_ms` none where the configured number is not positive.
unfoldable pub execute_task :
    Messages
    → String
    → Option ℕ
    → ℕ
    → Bool
    → Bool
    → List String
    → (List ℕ → PoolReply)
    → TaskMeta
    → String
    → ExecutionOutcome
unfolding read_reply
execute_task msgs auth_token configured_timeout_ms now_ms canceled canceled_after endpoints call
      task execution_id =
    let timeout = task_timeout_ms configured_timeout_ms in
    let request = request_for auth_token now_ms timeout task execution_id in
    if canceled
    then record no_outcome { error = "Task execution canceled before RPC dispatch" }
    else if is_empty endpoints
    then record no_outcome { error = str_append "No worker available for handler: " task.handler }
    else elim (msgs.serialize_request request) [
      | none ↦ record no_outcome { error = "Failed to serialize ExecuteTaskRequest" }
      | some data' ↦
          let reply = call data' in
          if reply.ok
          then read_reply msgs reply
          else if canceled_after
          then record no_outcome { endpoint = reply.endpoint; error = "Task execution canceled" }
          else record no_outcome {
            endpoint = reply.endpoint;
            error =
                str_append "RPC call failed or timed out after "
                  (str_append (to_string timeout) (str_append " ms: " reply.error));
          }
    ]

-- An execution is a success only if the task was not canceled before, a worker was known, the pool
-- got an answer, it was an ExecuteTaskResponse that could be read, and it said success.
pub execute_task_success :
    (msgs : Messages) (token : String) (timeout : Option ℕ) (now : ℕ) (canceled after : Bool)
    (endpoints : List String) (call : List ℕ → PoolReply) (task : TaskMeta) (e : String)
    → (execute_task msgs token timeout now canceled after endpoints call task e).success ≡ true
    → (canceled ≡ false)
      × (is_empty endpoints ≡ false)
      × ((data' : List ℕ) × (response : ExecuteTaskResponse) × ((call data').ok ≡ true)
          × ((call data').response_serial_id ≡ execute_task_response_serial_id)
          × (msgs.parse_response (call data').response_data ≡ some response)
          × (response.success ≡ true))
unfolding execute_task
execute_task_success msgs token timeout now canceled after endpoints call task e h =
    let request = request_for token now (task_timeout_ms timeout) task e in
    elim (Option-cases (msgs.serialize_request request)) [
      | inl n ↦ absurd (ground (arith, n))
      | inr (d, n) ↦ elim (Option-cases (msgs.parse_response (call d).response_data)) [
        | inl m ↦ absurd (ground (arith, n, m))
        | inr (r, m) ↦ (
          ground (arith, n, m),
          ground (arith, n, m),
          (d, r, ground (arith, n, m), ground (arith, n, m), m, ground (arith, n, m)),
        )
      ]
    ]

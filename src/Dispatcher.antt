-- ===== src/Dispatcher.antt =====
-- RpcDispatcher of src/rpc/rpc_dispatcher.cpp: the handlers that change the store. Protobuf is a
-- parameter, so that a handler gets the parsed request, or none where parsing fails, and hands back
-- the response before it is serialized.
pub mod Auth
pub mod Control
pub mod RunNow
pub mod Execution
pub mod Interceptors
pub mod Core
pub mod Reading
pub mod Worker
use coroutine_rpc_scheduler.Common.{
  Bool, List, Option, String, false, if◌then◌else◌, is_empty, none, not, some, str_append,
  str_empty, true, ℕ, ◌==◌, ◌||◌,
}
use coroutine_rpc_scheduler.Dispatcher.Auth.{authorized}

pub data ErrorCode : Type 0 where
  bad_request unknown_method internal_error db_error : ErrorCode
  handler_not_found unauthorized deadline_exceeded : ErrorCode
  payload_too_large unavailable resource_exhausted : ErrorCode

-- A response of a handler: an RpcError, or the method's own response. `text` is its task id or its
-- result, where it has one.
pub data Response : Type 0 where
  rpc_error : ErrorCode → String → Response
  replies : Bool → String → String → Response

abbrev pub succeeded : Response → Bool
succeeded (rpc_error code message) = false
succeeded (replies success text error) = success

pub data RpcNodeRole : Type 0 where
  combined control_plane worker : RpcNodeRole

-- What a dispatcher is made with: `has_db` and `discover` are its clients, `discover` none without
-- Redis, and `has_handler` is what the process's registry of handlers holds.
pub record Dispatcher : Type 0 where
  pub role : RpcNodeRole
  pub auth_token : List ℕ
  pub node_id : String
  pub worker_service_name : String
  pub has_db : Bool
  pub has_handler : String → Bool
  pub discover : Option (String → List String)

unfoldable pub handler_available : Dispatcher → String → Bool
handler_available d handler =
    let here = d.has_handler handler in
    let remote : Bool = elim d.discover [
      | none ↦ here
      | some discover ↦
          not (is_empty (discover (str_append d.worker_service_name (str_append ":" handler))))
    ] in
    if str_empty handler then false else elim d.role [
      | control_plane ↦ remote
      | combined ↦ here || remote
      | worker ↦ here || remote
    ]

abbrev pub execute_task_request : ℕ
execute_task_request = 5

-- The methods that each role serves.
unfoldable pub method_allowed : RpcNodeRole → ℕ → Bool
method_allowed combined serial_id = true
method_allowed control_plane serial_id = not (serial_id == execute_task_request)
method_allowed worker serial_id =
    serial_id == 1
    || serial_id == execute_task_request
    || serial_id == 23
    || serial_id == 25
    || serial_id == 27

-- The two checks that every handler of a task begins with.
abbrev pub admitted {ℓ κ} :
    {R : Type ℓ} {S : Type κ}
    → Dispatcher
    → String
    → (R → List ℕ)
    → Option R
    → S
    → (R → Response × S)
    → Response × S
admitted d name token none s go =
    (rpc_error bad_request (str_append "Parse " (str_append name " failed")), s)
admitted d name token (some req) s go =
    let answer = go req in
    if authorized d.auth_token (token req)
    then answer
    else (rpc_error unauthorized "Invalid auth token", s)

-- ===== src/Dispatcher/Core.antt =====
-- RpcDispatcher of src/rpc/rpc_dispatcher.cpp: the choice of a handler by role and serial id, and
-- the ways in with a context. The handlers are an interface.
pub mod Roles
pub mod Streams
use coroutine_rpc_scheduler.Common.{
  Bool, List, Option, String, [], false, if◌then◌else◌, is_empty, length, none, not, some,
  str_append, to_string, ℕ, ◌==◌, ◌∷◌,
}
use coroutine_rpc_scheduler.Dispatcher.{
  ErrorCode, unknown_method, internal_error, RpcNodeRole, execute_task_request, method_allowed,
}
use coroutine_rpc_scheduler.Metrics.{Metrics, inc_rpc_request, inc_rpc_success, inc_rpc_error}
use coroutine_rpc_scheduler.Protocol.{Frame}
use coroutine_rpc_scheduler.Dispatcher.Interceptors.{
  invoke, RpcContext, Outcome, responds, throws, throws_unknown, Next, Interceptor, error_serial_id,
}

pub record Handled {ℓ} (S : Type ℓ) : Type ℓ where
  pub outcome : Outcome
  pub metrics : Metrics
  pub state : S

abbrev pub Handler {ℓ} : Type ℓ → Type ℓ
Handler S = List ℕ → Metrics → S → Handled S

-- What a handler of several responses leaves.
pub data StreamOutcome : Type 0 where
  streams : List Frame → StreamOutcome
  stream_throws : String → StreamOutcome
  stream_throws_unknown : StreamOutcome

pub record StreamHandled {ℓ} (S : Type ℓ) : Type ℓ where
  pub outcome : StreamOutcome
  pub metrics : Metrics
  pub state : S

pub record Handlers {ℓ} (S : Type ℓ) : Type ℓ where
  pub handle_echo : Handler S
  pub handle_submit_task : Handler S
  pub handle_execute_task : Handler S
  pub handle_cancel_task : Handler S
  pub handle_list_tasks : Handler S
  pub handle_list_history : Handler S
  pub handle_list_services : Handler S
  pub handle_update_task : Handler S
  pub handle_enable_task : Handler S
  pub handle_delete_task : Handler S
  pub handle_run_task_now : Handler S
  pub handle_get_metrics : Handler S
  pub handle_health_check : Handler S
  pub handle_stream_metrics : List ℕ → Metrics → S → StreamHandled S

abbrev pub stream_metrics_request : ℕ
stream_metrics_request = 27

-- A record of what the dispatcher is made with, for its ways in.
pub record Core {ℓ} (S : Type ℓ) : Type ℓ where
  pub role : RpcNodeRole
  pub handlers : Handlers S
  pub interceptors : Option (List (Interceptor S))

unfoldable pub make_error_response : (ErrorCode → String → List ℕ) → ErrorCode → String → Frame
make_error_response error_payload code message = record {
  serial_id = error_serial_id;
  payload = error_payload code message;
}

abbrev pub started : ℕ → RpcContext → RpcContext
started now context =
    if context.started_at == 0 then record context { started_at = now } else context

-- The responses behind the catch clauses of a stream.
abbrev pub caught_stream : (ErrorCode → String → List ℕ) → StreamOutcome → List Frame
caught_stream error_payload (streams responses) = responses
caught_stream error_payload (stream_throws what) =
    make_error_response error_payload internal_error what ∷ []
caught_stream error_payload stream_throws_unknown =
    make_error_response error_payload internal_error "Unknown streaming RPC exception" ∷ []

abbrev pub is_success : List Frame → Bool
is_success [] = false
is_success (r ∷ rs) = not (r.serial_id == error_serial_id)

module _ {ℓ} {S : Type ℓ} (error_payload : ErrorCode → String → List ℕ) where
  unfoldable pub dispatch_core : RpcNodeRole → Handlers S → ℕ → Handler S
  unfolding method_allowed make_error_response
  dispatch_core role h serial_id payload m s =
      let refuse : String → Handled S = λ message. record {
        outcome = responds (make_error_response error_payload unknown_method message);
        metrics = m;
        state = s;
      } in
      if not (method_allowed role serial_id)
      then refuse "Method is not available on this node role"
      else if serial_id == 1
      then h.handle_echo payload m s
      else if serial_id == 3
      then h.handle_submit_task payload m s
      else if serial_id == execute_task_request
      then h.handle_execute_task payload m s
      else if serial_id == 7
      then h.handle_cancel_task payload m s
      else if serial_id == 9
      then h.handle_list_tasks payload m s
      else if serial_id == 11
      then h.handle_list_history payload m s
      else if serial_id == 13
      then h.handle_list_services payload m s
      else if serial_id == 15
      then h.handle_update_task payload m s
      else if serial_id == 17
      then h.handle_enable_task payload m s
      else if serial_id == 19
      then h.handle_delete_task payload m s
      else if serial_id == 21
      then h.handle_run_task_now payload m s
      else if serial_id == 23
      then h.handle_get_metrics payload m s
      else if serial_id == 25
      then h.handle_health_check payload m s
      else refuse (str_append "Unknown serial_id: " (to_string serial_id))

  -- The end of the chain.
  unfoldable pub terminal : Core S → List ℕ → Next S
  terminal d payload current m s =
      let r = dispatch_core d.role d.handlers current.request_serial_id payload m s in
      record { outcome = r.outcome; context = current; metrics = r.metrics; state = r.state }

  unfoldable pub dispatch_with_context : Core S → ℕ → List ℕ → Next S
  unfolding terminal
  dispatch_with_context d now payload context m s =
      let context' = started now (record context { request_bytes = length payload }) in
      let plain = terminal d payload context' m s in
      elim d.interceptors [
        | none ↦ plain
        | some chain ↦
            if is_empty chain then plain else invoke chain (terminal d payload) context' m s
      ]

  unfoldable pub dispatch_stream_with_context :
      Core S → ℕ → List ℕ → RpcContext → Metrics → S → StreamHandled S
  unfolding make_error_response inc_rpc_request inc_rpc_success inc_rpc_error
  dispatch_stream_with_context d now payload context m s =
      let one = dispatch_with_context d now payload context m s in
      let once : StreamOutcome = elim one.outcome [
        | responds r ↦ streams (r ∷ [])
        | throws what ↦ stream_throws what
        | throws_unknown ↦ stream_throws_unknown
      ] in
      let r = d.handlers.handle_stream_metrics payload (inc_rpc_request m) s in
      let responses = caught_stream error_payload r.outcome in
      if not (context.request_serial_id == stream_metrics_request)
      then record { outcome = once; metrics = one.metrics; state = one.state }
      else if not (method_allowed d.role context.request_serial_id)
      then record {
        outcome = streams (
            make_error_response error_payload unknown_method
              "Method is not available on this node role"
            ∷ []);
        metrics = m;
        state = s;
      }
      else record {
        outcome = streams responses;
        metrics =
            if is_success responses then inc_rpc_success r.metrics else inc_rpc_error r.metrics;
        state = r.state;
      }

-- ===== src/Dispatcher/Interceptors.antt =====
-- src/rpc/rpc_interceptor.cpp: the chain of interceptors and the default one. An interceptor is a
-- function of the context, the counters and the rest of the chain; logging writes no state. The
-- table of methods is generated code, the parameter `find_method`.
pub mod Counts
use coroutine_rpc_scheduler.Common.{
  Bool, List, Option, String, [], if◌then◌else◌, length, none, not, some, str_empty, ℕ, ◌-◌, ◌==◌,
  ◌∷◌,
}
use coroutine_rpc_scheduler.Dispatcher.{ErrorCode, internal_error}
use coroutine_rpc_scheduler.Metrics.{Metrics, inc_rpc_request, inc_rpc_success, inc_rpc_error}
use coroutine_rpc_scheduler.Protocol.{Frame}

-- `started_at` and the clock are milliseconds of the steady clock, 0 is no start.
pub record RpcContext : Type 0 where
  pub request_id : String
  pub remote : String
  pub request_serial_id : ℕ
  pub response_serial_id : ℕ
  pub method_name : String
  pub request_bytes : ℕ
  pub response_bytes : ℕ
  pub started_at : ℕ
  pub elapsed : ℕ
  pub success : Bool

-- A response, or an exception: with the text of what(), or no std::exception.
pub data Outcome : Type 0 where
  responds : Frame → Outcome
  throws : String → Outcome
  throws_unknown : Outcome

-- What a call leaves: its outcome, the context, and the state, which the handlers change too.
pub record Done {ℓ} (S : Type ℓ) : Type ℓ where
  pub outcome : Outcome
  pub context : RpcContext
  pub metrics : Metrics
  pub state : S

abbrev pub Next {ℓ} : Type ℓ → Type ℓ
Next S = RpcContext → Metrics → S → Done S

-- An interceptor gets the rest of the chain.
abbrev pub Interceptor {ℓ} : Type ℓ → Type ℓ
Interceptor S = Next S → Next S

abbrev pub error_serial_id : ℕ
error_serial_id = 100

unfoldable pub fill_method_name : (ℕ → Option String) → RpcContext → RpcContext
fill_method_name find_method context =
    let name : String = elim (find_method context.request_serial_id) [
      | some name ↦ name
      | none ↦ "unknown"
    ] in
    if not (str_empty context.method_name) then context else record context { method_name = name }

-- `now` is the clock when the response is there.
unfoldable pub fill_response_fields : ℕ → Frame → RpcContext → RpcContext
fill_response_fields now r context = record context {
  response_serial_id = r.serial_id;
  response_bytes = length r.payload;
  success = not (r.serial_id == error_serial_id);
  elapsed = if context.started_at == 0 then context.elapsed else now - context.started_at;
}

module _ {ℓ} {S : Type ℓ} where
  -- RpcInterceptorChain::invoke, which calls the interceptors in the order of `add`.
  unfoldable pub invoke : List (Interceptor S) → Next S → Next S
  invoke [] terminal = terminal
  invoke (i ∷ is) terminal = i (invoke is terminal)

  unfoldable pub exception_interceptor : (ErrorCode → String → List ℕ) → Interceptor S
  exception_interceptor error_payload next context m s =
      let d = next context m s in
      let error : String → Outcome = λ message.
        responds (record {
          serial_id = error_serial_id;
          payload = error_payload internal_error message;
        }) in
      elim d.outcome [
        | responds r ↦ d
        | throws what ↦ record d { outcome = error what }
        | throws_unknown ↦ record d { outcome = error "Unknown RPC exception" }
      ]

  unfoldable pub metrics_interceptor : ℕ → Interceptor S
  unfolding fill_response_fields inc_rpc_request inc_rpc_success inc_rpc_error
  metrics_interceptor now next context m s =
      let d = next context (inc_rpc_request m) s in
      elim d.outcome [
        | throws what ↦ d
        | throws_unknown ↦ d
        | responds r ↦
            let context' = fill_response_fields now r d.context in
            record d {
              context = context';
              metrics =
                  if context'.success then inc_rpc_success d.metrics else inc_rpc_error d.metrics;
            }
      ]

  unfoldable pub logging_interceptor : (ℕ → Option String) → ℕ → Interceptor S
  unfolding fill_method_name fill_response_fields
  logging_interceptor find_method now next context m s =
      let d = next (fill_method_name find_method context) m s in
      elim d.outcome [
        | responds r ↦ record d { context = fill_response_fields now r d.context }
        | throws what ↦ d
        | throws_unknown ↦ d
      ]

  -- makeDefaultRpcInterceptorChain. The clock is read by the second interceptor, then by the first.
  unfoldable pub make_default_chain :
      (ErrorCode → String → List ℕ) → (ℕ → Option String) → ℕ → ℕ → List (Interceptor S)
  make_default_chain error_payload find_method measured logged =
      logging_interceptor find_method logged
      ∷ metrics_interceptor measured
      ∷ exception_interceptor error_payload
      ∷ []

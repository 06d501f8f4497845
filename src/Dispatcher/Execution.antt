-- ===== src/Dispatcher/Execution.antt =====
-- RpcDispatcher::handleExecuteTask, on the worker's side. The handlers are parameters: one ends
-- with a result, or an exception with the text of what(), or one that is no std::exception.
use coroutine_rpc_scheduler.Common.{
  Bool, List, Option, String, ap, arith, false, if◌then◌else◌, leb, ltb, none, not, some,
  str_append, str_empty, true, ℕ, ◌&&◌, ◌<◌, ◌∙◌, ◌≡◌,
}
use coroutine_rpc_scheduler.Dispatcher.{
  Dispatcher, Response, replies, rpc_error, bad_request, handler_not_found, unauthorized,
  deadline_exceeded, ErrorCode,
}
use coroutine_rpc_scheduler.Handlers.{HandlerEnd, returned, raised, raised_unknown}
use coroutine_rpc_scheduler.Dispatcher.Auth.{authorized}

pub record ExecuteRequest : Type 0 where
  pub task_id : String
  pub execution_id : String
  pub params : String
  pub handler : String
  pub deadline_unix_ms : ℕ
  pub auth_token : List ℕ

-- The result and the error after the two catch clauses.
abbrev pub caught : HandlerEnd → String × String
caught (returned result) = (result, "")
caught (raised what) = (str_append "Exception: " what, what)
caught raised_unknown = ("Exception: Unknown handler exception", "Unknown handler exception")

-- `S` is what a handler acts on: `execute` runs one, and returns how it ends and the state that it
-- leaves.
unfoldable pub handle_execute_task {ℓ} :
    {S : Type ℓ}
    → Dispatcher
    → (ExecuteRequest → S → HandlerEnd × S)
    → ℕ
    → Option ExecuteRequest
    → S
    → Response × S
unfolding authorized
handle_execute_task d execute now_ms none s =
    (rpc_error bad_request "Parse ExecuteTaskRequest failed", s)
handle_execute_task d execute now_ms (some req) s =
    let (end, s') = execute req s in
    let (result, error) = caught end in
    if not (authorized d.auth_token req.auth_token)
    then (rpc_error unauthorized "Invalid auth token", s)
    else if str_empty req.handler
    then (rpc_error bad_request "Handler is required", s)
    else if not (d.has_handler req.handler)
    then (rpc_error handler_not_found (str_append "Handler not found: " req.handler), s)
    else if ltb 0 req.deadline_unix_ms && leb req.deadline_unix_ms now_ms
    then (rpc_error deadline_exceeded "Task deadline exceeded before execution", s)
    else (replies (str_empty error) result error, s')

-- A worker runs a handler only for an authorized request, with a handler that it has, before the
-- request's deadline: a request that is refused with an error leaves the state that handlers act on
-- as it was, and one that is answered leaves what the handler left. Then a handler that returns is
-- answered with success and its result, one that throws an exception with a text is answered with
-- success exactly when the text is empty, and one that throws anything else is answered with no
-- success and an error.
pub handle_execute_task_lem {ℓ} :
    {S : Type ℓ} (d : Dispatcher) (execute : ExecuteRequest → S → HandlerEnd × S) (now_ms : ℕ)
    (req : ExecuteRequest) (s : S)
    → let (response, s') = handle_execute_task d execute now_ms (some req) s in
      let (end, acted) = execute req s in
      ((code : ErrorCode) (message : String) → response ≡ rpc_error code message → s' ≡ s)
      × ((success : Bool) (result error : String)
          → response ≡ replies success result error
          → (authorized d.auth_token req.auth_token ≡ true)
            × (d.has_handler req.handler ≡ true)
            × (0 < req.deadline_unix_ms → now_ms < req.deadline_unix_ms)
            × (s' ≡ acted)
            × ((r : String) → end ≡ returned r → (success ≡ true) × (result ≡ r))
            × ((what : String) → end ≡ raised what → (success ≡ str_empty what) × (error ≡ what))
            × (end ≡ raised_unknown → (success ≡ false) × (str_empty error ≡ false)))
unfolding handle_execute_task
handle_execute_task_lem d execute now_ms req s = (
  λ code message h. ground arith,
  λ success result error h.
      let ends : success ≡ str_empty (caught (execute req s).0).1 = ground arith in
      let text : error ≡ (caught (execute req s).0).1 = ground arith in
      let value : result ≡ (caught (execute req s).0).0 = ground arith in
      (
        ground arith,
        ground arith,
        λ p. ground arith,
        ground arith,
        λ r e. (ends ∙ ap (λ x. str_empty (caught x).1) e, value ∙ ap (λ x. (caught x).0) e),
        λ what e. (ends ∙ ap (λ x. str_empty (caught x).1) e, text ∙ ap (λ x. (caught x).1) e),
        λ e. (
          ends ∙ ap (λ x. str_empty (caught x).1) e,
          ap str_empty (text ∙ ap (λ x. (caught x).1) e),
        ),
      ),
)

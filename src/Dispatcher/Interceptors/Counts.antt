-- ===== src/Dispatcher/Interceptors/Counts.antt =====
-- What the default chain of interceptors makes of a request.
use coroutine_rpc_scheduler.Common.{
  List, Option, String, arith, if◌then◌else◌, inl, inr, not, refl, ℕ, ◌==◌, ◌≡◌, ◌⊎◌,
}
use coroutine_rpc_scheduler.Dispatcher.{ErrorCode, internal_error}
use coroutine_rpc_scheduler.Metrics.{Metrics, inc_rpc_request, inc_rpc_success, inc_rpc_error}
use coroutine_rpc_scheduler.Protocol.{Frame}
use coroutine_rpc_scheduler.Dispatcher.Interceptors.{
  invoke, RpcContext, Outcome, responds, throws, throws_unknown, Next, error_serial_id,
  fill_method_name, exception_interceptor, metrics_interceptor, logging_interceptor,
  make_default_chain,
}

pub Outcome-cases :
    (o : Outcome)
    → ((r : Frame) × (o ≡ responds r))
      ⊎ (((what : String) × (o ≡ throws what)) ⊎ (o ≡ throws_unknown))
Outcome-cases (responds r) = inl (r, refl)
Outcome-cases (throws what) = inr (inl (what, refl))
Outcome-cases throws_unknown = inr (inr refl)

-- The response that stands for an outcome, once exceptions are caught.
abbrev pub answer_to : (ErrorCode → String → List ℕ) → Outcome → Frame
answer_to error_payload (responds r) = r
answer_to error_payload (throws what) = record {
  serial_id = error_serial_id;
  payload = error_payload internal_error what;
}
answer_to error_payload throws_unknown = record {
  serial_id = error_serial_id;
  payload = error_payload internal_error "Unknown RPC exception";
}

abbrev pub counted : Frame → Metrics → Metrics
counted r m = if r.serial_id == error_serial_id then inc_rpc_error m else inc_rpc_success m

-- Through the default chain a request never throws: its response is that of the handler, or
-- INTERNAL_ERROR with the text of its exception. The request is counted once, before the handler
-- runs, and behind it once as a success or as an error, as its response is; what the handler does
-- to its own state stays.
pub invoke-default_chain {ℓ} :
    {S : Type ℓ} (error_payload : ErrorCode → String → List ℕ) (find_method : ℕ → Option String)
    (measured logged : ℕ) (terminal : Next S) (context : RpcContext) (m : Metrics) (s : S)
    → let d =
        invoke
          (make_default_chain error_payload find_method measured logged)
          terminal
          context
          m
          s in
      let t = terminal (fill_method_name find_method context) (inc_rpc_request m) s in
      let r = answer_to error_payload t.outcome in
      (d.outcome ≡ responds r)
      × (d.metrics ≡ counted r t.metrics)
      × (d.state ≡ t.state)
      × (d.context.success ≡ not (r.serial_id == error_serial_id))
unfolding invoke make_default_chain logging_interceptor metrics_interceptor exception_interceptor
invoke-default_chain error_payload find_method measured logged terminal context m s =
    let t = terminal (fill_method_name find_method context) (inc_rpc_request m) s in
    elim (Outcome-cases t.outcome) [
      | inl (r, e) ↦ (ground (arith, e), ground (arith, e), ground (arith, e), ground (arith, e))
      | inr (inl (what, e)) ↦
          (ground (arith, e), ground (arith, e), ground (arith, e), ground (arith, e))
      | inr (inr e) ↦ (ground (arith, e), ground (arith, e), ground (arith, e), ground (arith, e))
    ]

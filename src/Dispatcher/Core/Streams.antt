-- ===== src/Dispatcher/Core/Streams.antt =====
-- What every request is answered with, and how it is counted.
use coroutine_rpc_scheduler.Common.{
  Bool-cases, List, Option, String, [], arith, false, if◌then◌else◌, inl, inr, is_empty, length,
  refl, some, subst, sym, ℕ, ◌+◌, ◌==◌, ◌∷◌, ◌≡◌,
}
use coroutine_rpc_scheduler.Dispatcher.{ErrorCode, method_allowed, unknown_method}
use coroutine_rpc_scheduler.Metrics.{Metrics, u64, inc_rpc_request, inc_rpc_success, inc_rpc_error}
use coroutine_rpc_scheduler.Protocol.{Frame}
use coroutine_rpc_scheduler.Dispatcher.Interceptors.{
  RpcContext, make_default_chain, responds, fill_method_name, invoke,
}
use coroutine_rpc_scheduler.Dispatcher.Interceptors.Counts.{
  counted, answer_to, invoke-default_chain,
}
use coroutine_rpc_scheduler.Dispatcher.Core.{
  dispatch_core, streams, Core, dispatch_stream_with_context, stream_metrics_request, started,
  caught_stream, is_success, terminal, dispatch_with_context, make_error_response,
}

-- The requests that were counted are those that were counted as a success or as an error.
abbrev pub IsBalanced : Metrics → Type 0
IsBalanced m = m.rpc_requests_total ≡ u64 (m.rpc_success_total + m.rpc_error_total)

-- The counters of requests are the same.
abbrev pub SameCounts : Metrics → Metrics → Type 0
SameCounts m n =
    (m.rpc_requests_total ≡ n.rpc_requests_total)
    × (m.rpc_success_total ≡ n.rpc_success_total)
    × (m.rpc_error_total ≡ n.rpc_error_total)

counted_once :
    (m n : Metrics) (r : Frame)
    → SameCounts n (inc_rpc_request m)
    → IsBalanced m
    → IsBalanced (counted r n)
unfolding inc_rpc_request inc_rpc_success inc_rpc_error
counted_once m n r same h = ground arith

stream_counted :
    (m n : Metrics) (rs : List Frame)
    → SameCounts n (inc_rpc_request m)
    → IsBalanced m
    → IsBalanced (if is_success rs then inc_rpc_success n else inc_rpc_error n)
unfolding inc_rpc_request inc_rpc_success inc_rpc_error
stream_counted m n rs same h = ground arith

chain_not_empty {ℓ} :
    (S : Type ℓ) (error_payload : ErrorCode → String → List ℕ) (find_method : ℕ → Option String)
    (measured logged : ℕ)
    → is_empty (make_default_chain {S = S} error_payload find_method measured logged) ≡ false
unfolding make_default_chain
chain_not_empty S error_payload find_method measured logged = refl

module _ {ℓ} {S : Type ℓ} (error_payload : ErrorCode → String → List ℕ)
    (find_method : ℕ → Option String) (measured logged : ℕ) where
  -- No handler counts requests by itself.
  pub record LeavesCounts (d : Core S) : Type ℓ where
    pub core :
        (serial_id : ℕ) (payload : List ℕ) (m : Metrics) (s : S)
        → SameCounts (dispatch_core error_payload d.role d.handlers serial_id payload m s).metrics m
    pub stream :
        (payload : List ℕ) (m : Metrics) (s : S)
        → SameCounts (d.handlers.handle_stream_metrics payload m s).metrics m

  chain-IsBalanced :
      (d : Core S) (payload : List ℕ) (context : RpcContext) (m : Metrics) (s : S)
      → LeavesCounts d
      → IsBalanced m
      → let chain = make_default_chain error_payload find_method measured logged in
        let r = invoke chain (terminal error_payload d payload) context m s in
        ((f : Frame) × (r.outcome ≡ responds f)) × IsBalanced r.metrics
  unfolding terminal
  chain-IsBalanced d payload context m s leaves h =
      let end = terminal error_payload d payload in
      let t = end (fill_method_name find_method context) (inc_rpc_request m) s in
      let f = answer_to error_payload t.outcome in
      let (outcome, metrics, _, _) =
        invoke-default_chain error_payload find_method measured logged end context m s in
      let same =
        leaves.core (fill_method_name find_method context).request_serial_id payload
          (inc_rpc_request m) s in
      ((f, outcome), subst IsBalanced (sym metrics) (counted_once m t.metrics f same h))

  with_context-IsBalanced :
      (d : Core S) (now : ℕ) (payload : List ℕ) (context : RpcContext) (m : Metrics) (s : S)
      → d.interceptors ≡ some (make_default_chain error_payload find_method measured logged)
      → LeavesCounts d
      → IsBalanced m
      → let r = dispatch_with_context error_payload d now payload context m s in
        ((f : Frame) × (r.outcome ≡ responds f)) × IsBalanced r.metrics
  unfolding dispatch_with_context
  with_context-IsBalanced d now payload context m s chain leaves h =
      let context' = started now (record context { request_bytes = length payload }) in
      let ((f, outcome), balanced) = chain-IsBalanced d payload context' m s leaves h in
      let not_empty = chain_not_empty S error_payload find_method measured logged in
      ((f, ground (arith, chain, outcome, not_empty)), ground (arith, chain, balanced, not_empty))

  -- Whatever a handler does, its exceptions included, a dispatcher with the default interceptors
  -- answers a request with responses and never throws; and once it has answered, the requests that
  -- it has counted are its successes and its errors. The handlers count no requests by themselves.
  pub dispatch_stream_with_context-IsBalanced :
      (d : Core S) (now : ℕ) (payload : List ℕ) (context : RpcContext) (m : Metrics) (s : S)
      → d.interceptors ≡ some (make_default_chain error_payload find_method measured logged)
      → LeavesCounts d
      → IsBalanced m
      → let r = dispatch_stream_with_context error_payload d now payload context m s in
        ((responses : List Frame) × (r.outcome ≡ streams responses)) × IsBalanced r.metrics
  unfolding dispatch_stream_with_context
  dispatch_stream_with_context-IsBalanced d now payload context m s chain leaves h =
      let one = dispatch_with_context error_payload d now payload context m s in
      let ((f, outcome), balanced) =
        with_context-IsBalanced d now payload context m s chain leaves h in
      let r = d.handlers.handle_stream_metrics payload (inc_rpc_request m) s in
      let refusal =
        make_error_response error_payload unknown_method
          "Method is not available on this node role" in
      let rs = caught_stream error_payload r.outcome in
      let counted = stream_counted m r.metrics rs (leaves.stream payload (inc_rpc_request m) s) h in
      elim (Bool-cases (context.request_serial_id == stream_metrics_request)) [
        | inr other ↦ ((f ∷ [], ground (arith, other, outcome)), ground (arith, other, balanced))
        | inl stream ↦ elim (Bool-cases (method_allowed d.role context.request_serial_id)) [
          | inl allowed ↦
              ((rs, ground (arith, stream, allowed)), ground (arith, stream, allowed, counted))
          | inr refused ↦
              ((refusal ∷ [], ground (arith, stream, refused)), ground (arith, stream, refused, h))
        ]
      ]

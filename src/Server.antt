-- ===== src/Server.antt =====
-- src/net/tcp_server.cpp: clientHandler, the coroutine of one connection, and the awaitable that
-- runs a request on the thread pool. What the kernel, the pool and the dispatcher answer is the
-- environment; lists of answers that end are a coroutine that waits.
pub mod Requests
pub mod Chunks
pub mod Responses
pub mod Replies
pub mod Accept
pub mod EventLoop
use coroutine_rpc_scheduler.Common.{
  Bool, List, Option, String, [], drop, if◌then◌else◌, length, ltb, min, none, some, suc, take,
  zero, ℕ, ◌++◌, ◌+◌, ◌-◌, ◌∷◌,
}
use coroutine_rpc_scheduler.Dispatcher.{
  ErrorCode, internal_error, payload_too_large, unavailable, resource_exhausted,
}
use coroutine_rpc_scheduler.Metrics.{Metrics, inc_malformed_frame, add_bytes_in, add_bytes_out}
use coroutine_rpc_scheduler.Protocol.{
  Frame, complete, incomplete, malformed, too_large, try_encode, try_decode_frame,
}
use coroutine_rpc_scheduler.Protocol.Stream.{no_frame}

-- How the execution of a request goes: no eventfd, no executor or dispatcher, the loop or the pool
-- does not take it, the coroutine is resumed by a shutdown, or dispatchStreamWithContext returns
-- responses or throws.
pub data Fate : Type 0 where
  no_eventfd : String → Fate
  no_executor loop_stopping queue_full interrupted : Fate
  executed : List Frame → Fate
  threw : String → Fate
  threw_unknown : Fate

-- What one call of send answers. `would_block` says whether the wait for the socket succeeds.
pub data Sent : Type 0 where
  took : ℕ → Sent
  would_block : Bool → Sent
  retry failed : Sent

-- The environment of one request: its fate, and the answers of send for each of its responses.
pub record FrameTurn : Type 0 where
  pub fate : Fate
  pub sends : ℕ → List Sent

-- `closed` is a coroutine that has returned, or is about to.
pub data Phase : Type 0 where
  serving closed suspended : Phase

pub record Connection : Type 0 where
  pub phase : Phase
  pub read_buffer : List ℕ
  pub metrics : Metrics
  -- What has been read, dispatched and written so far.
  pub received : List ℕ
  pub requests : List Frame
  pub written : List ℕ

abbrev pub new_connection : Metrics → Connection
new_connection m = record {
  phase = serving;
  read_buffer = [];
  metrics = m;
  received = [];
  requests = [];
  written = [];
}

-- `octets` is what send has taken.
pub record Written : Type 0 where
  pub phase : Phase
  pub octets : List ℕ
  pub metrics : Metrics

-- The loop that sends one encoded response, from the offset `sent` on.
unfoldable pub send_response : List ℕ → ℕ → List Sent → Metrics → Written
unfolding add_bytes_out
send_response response sent [] m = record {
  phase = if ltb sent (length response) then suspended else serving;
  octets = [];
  metrics = m;
}
send_response response sent (answer ∷ answers) m =
    let end : Phase → Written = λ p. record { phase = p; octets = []; metrics = m } in
    let go : Written = elim answer [
      | took k ↦
          let n = min k (length response - sent) in
          let more = send_response response (sent + n) answers (add_bytes_out n m) in
          let octets = take n (drop sent response) ++ more.octets in
          if ltb 0 n then record more { octets = octets } else end closed
      | would_block ready ↦
          let more = send_response response sent answers m in if ready then more else end closed
      | retry ↦ send_response response sent answers m
      | failed ↦ end closed
    ] in
    if ltb sent (length response) then go else end serving

-- What one turn of the outer loop meets: a loop that stops, a wait that fails, or what read answers.
pub data Read : Type 0 where
  stopping not_ready end_of_file again read_failed : Read
  arrived : List ℕ → Read

-- The bytes that a turn brings.
abbrev pub chunk_bytes : Read → List ℕ
chunk_bytes (arrived chunk) = chunk
chunk_bytes stopping = []
chunk_bytes not_ready = []
chunk_bytes end_of_file = []
chunk_bytes again = []
chunk_bytes read_failed = []

abbrev pub chunk_size : ℕ
chunk_size = 4096

abbrev pub error_frame_id : ℕ
error_frame_id = 100

-- `error_payload` is make_rpc_error: a serialized RpcError. `turn` is the environment of a request,
-- given the connection's requests before it.
module _ (error_payload : ErrorCode → String → List ℕ) where
  unfoldable pub error_response : ErrorCode → String → Frame
  error_response code message = record {
    serial_id = error_frame_id;
    payload = error_payload code message;
  }

  abbrev or_empty : List Frame → List Frame
  or_empty [] = error_response internal_error "Empty RPC response" ∷ []
  or_empty (r ∷ rs) = r ∷ rs

  -- RpcDispatchAwaitable, from its constructor to await_resume.
  unfoldable pub rpc_result : Fate → List Frame
  unfolding error_response
  rpc_result (no_eventfd message) = error_response internal_error message ∷ []
  rpc_result no_executor = error_response unavailable "RPC executor is not available" ∷ []
  rpc_result loop_stopping = error_response unavailable "Event loop is stopping" ∷ []
  rpc_result queue_full = error_response resource_exhausted "RPC execution queue is full" ∷ []
  rpc_result interrupted = error_response unavailable "RPC execution interrupted by shutdown" ∷ []
  rpc_result (executed responses) = or_empty responses
  rpc_result (threw what) = error_response internal_error what ∷ []
  rpc_result threw_unknown = error_response internal_error "Unknown RPC execution exception" ∷ []

  -- A response that is too large is replaced by an error.
  unfoldable pub encode_response : Frame → Option (List ℕ)
  unfolding error_response
  encode_response r =
      let other = error_response payload_too_large "Response payload too large" in
      elim (try_encode r.serial_id r.payload) [
        | some b ↦ some b
        | none ↦ try_encode other.serial_id other.payload
      ]

  unfoldable pub write_responses : FrameTurn → ℕ → List Frame → Connection → Connection
  unfolding send_response encode_response
  write_responses turn i [] c = c
  write_responses turn i (r ∷ rs) c = elim (encode_response r) [
    | none ↦ record c { phase = closed }
    | some b ↦
        let w = send_response b 0 (turn.sends i) c.metrics in
        let c' = record c {
          phase = w.phase;
          metrics = w.metrics;
          written = c.written ++ w.octets;
        } in
        elim w.phase [ serving ↦ write_responses turn (i + 1) rs c' | closed ↦ c' | suspended ↦ c' ]
  ]

  module _ (turn : List Frame → Frame → FrameTurn) where
    unfoldable pub handle_frame : Frame → Connection → Connection
    unfolding write_responses rpc_result
    handle_frame f c =
        let t = turn c.requests f in
        write_responses t 0 (rpc_result t.fate) (record c { requests = c.requests ++ (f ∷ []) })

    -- The inner loop. Each frame takes 8 bytes at least, so that the bytes of the buffer are fuel
    -- enough.
    unfoldable pub drain : ℕ → Connection → Connection
    unfolding handle_frame try_decode_frame inc_malformed_frame
    drain zero c = c
    drain (suc fuel) c =
        let d = try_decode_frame c.read_buffer no_frame in
        let reject = record c { phase = closed; metrics = inc_malformed_frame c.metrics } in
        let c' =
          handle_frame d.frame (record c { read_buffer = drop d.frame_size c.read_buffer }) in
        elim d.status [
          | incomplete ↦ c
          | malformed ↦ reject
          | too_large ↦ reject
          | complete ↦ elim c'.phase [ serving ↦ drain fuel c' | closed ↦ c' | suspended ↦ c' ]
        ]

    unfoldable pub on_read : Read → Connection → Connection
    unfolding drain add_bytes_in
    on_read stopping c = record c { phase = closed }
    on_read not_ready c = record c { phase = closed }
    on_read end_of_file c = record c { phase = closed }
    on_read again c = c
    on_read read_failed c = record c { phase = closed }
    on_read (arrived chunk) c =
        let c' = record c {
          read_buffer = c.read_buffer ++ chunk;
          metrics = add_bytes_in (length chunk) c.metrics;
          received = c.received ++ chunk;
        } in
        drain (suc (length c'.read_buffer)) c'

    -- The outer loop.
    unfoldable pub client_handler : List Read → Connection → Connection
    unfolding on_read
    client_handler [] c = c
    client_handler (r ∷ rs) c = elim c.phase [
      | serving ↦ client_handler rs (on_read r c)
      | closed ↦ c
      | suspended ↦ c
    ]

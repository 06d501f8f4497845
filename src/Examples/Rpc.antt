-- ===== src/Examples/Rpc.antt =====
-- The client, the server, and a call between them, at concrete inputs.
use coroutine_rpc_scheduler.Common.{
  All, List, String, [], append-nil, arith, drop, false, inl, length, none, refl, some, sym, take,
  true, ℕ, ◌++◌, ◌+◌, ◌<◌, ◌∙◌, ◌∷◌, ◌≡◌, ◌≢◌,
}
use coroutine_rpc_scheduler.Dispatcher.{ErrorCode}
use coroutine_rpc_scheduler.Protocol.{max_frame_size, try_encode, Frame, u32_at, try_decode_frame}
use coroutine_rpc_scheduler.Protocol.RoundTrip.{AreBytes}
use coroutine_rpc_scheduler.Protocol.Stream.{no_frame, Frames, IsIncomplete}
use coroutine_rpc_scheduler.Client.{
  ok, RpcCallOptions, has_deadline, ready, Look, waiting, wait_for_event, bytes, broken,
  TransferRound, ensure_deadline, send_all, recv_exact, interrupted,
}
use coroutine_rpc_scheduler.Client.Deadline.{wait_for_event_ends}
use coroutine_rpc_scheduler.Client.Call.{
  RpcClient, at_once, ConnectTurn, answered, ensure_connected, CallTurn, Called, exchange, call,
  read_frame,
}
use coroutine_rpc_scheduler.Client.Call.Laws.{call_reply}
use coroutine_rpc_scheduler.Client.Call.Failure.{call_failure}
use coroutine_rpc_scheduler.Client.Stream.{Callback, StreamTurn, call_stream}
use coroutine_rpc_scheduler.Client.Stream.Loop.{BeginsWith, StopsAtLast}
use coroutine_rpc_scheduler.Client.Stream.Laws.{call_stream_lem}
use coroutine_rpc_scheduler.Server.{
  executed, took, FrameTurn, serving, Connection, new_connection, send_response, Read, arrived,
  chunk_bytes, rpc_result, write_responses, client_handler,
}
use coroutine_rpc_scheduler.Server.Chunks.{client_handler_requests, client_handler_chunks}
use coroutine_rpc_scheduler.Server.Responses.{encoded_all}
use coroutine_rpc_scheduler.Server.Replies.{client_handler_replies, replies}
use coroutine_rpc_scheduler.EndToEnd.{call_round_trip}
use coroutine_rpc_scheduler.Metrics.{no_metrics}

abbrev error_payload : ErrorCode → String → List ℕ
error_payload code message = []

abbrev hello : Frame
hello = record { serial_id = 1; payload = b'h' ∷ b'e' ∷ b'l' ∷ b'l' ∷ b'o' ∷ [] }

abbrev hello_bytes : List ℕ
hello_bytes = 0 ∷ 0 ∷ 0 ∷ 9 ∷ 0 ∷ 0 ∷ 0 ∷ 1 ∷ b'h' ∷ b'e' ∷ b'l' ∷ b'l' ∷ b'o' ∷ []

abbrev reply : Frame
reply = record { serial_id = 2; payload = b'o' ∷ b'k' ∷ [] }

abbrev reply_bytes : List ℕ
reply_bytes = 0 ∷ 0 ∷ 0 ∷ 6 ∷ 0 ∷ 0 ∷ 0 ∷ 2 ∷ b'o' ∷ b'k' ∷ []

encodes :
    (try_encode 1 hello.payload ≡ some hello_bytes)
    × (try_encode 2 reply.payload ≡ some reply_bytes)
unfolding try_encode
encodes = (refl, refl)

-- The server reads the request in two pieces, and writes the response at once.
abbrev server_turn : List Frame → Frame → FrameTurn
server_turn before f = record { fate = executed (reply ∷ []); sends = λ i. took 100 ∷ [] }

abbrev two_reads : List Read
two_reads = arrived (take 5 hello_bytes) ∷ arrived (drop 5 hello_bytes) ∷ []

abbrev one_read : List Read
one_read = arrived hello_bytes ∷ []

abbrev served_connection : List Read → Connection
served_connection rs = client_handler error_payload server_turn rs (new_connection no_metrics)

two_reads_served :
    let s = served_connection two_reads in
    (s.phase ≡ serving) × (s.requests ≡ hello ∷ []) × (s.written ≡ reply_bytes)
unfolding client_handler write_responses send_response try_encode
two_reads_served = (refl, refl, refl)

one_read_served : (served_connection one_read).phase ≡ serving
unfolding client_handler write_responses send_response try_encode
one_read_served = refl

two_reads-AreBytes : All (λ r. AreBytes (chunk_bytes r)) two_reads
two_reads-AreBytes = (omega arith, (omega arith, tt))

client_handler_chunks_example :
    let c = served_connection two_reads in
    let c' = served_connection one_read in
    (c.requests ≡ c'.requests) × (c.read_buffer ≡ c'.read_buffer)
client_handler_chunks_example =
    client_handler_chunks error_payload server_turn server_turn no_metrics no_metrics two_reads
      one_read two_reads-AreBytes (omega arith, tt) refl two_reads_served.0 one_read_served

client_handler_requests_example :
    let c = served_connection two_reads in
    Frames c.received c.requests c.read_buffer
    × (c.phase ≡ serving
        → (c.received ≡ hello_bytes)
          × IsIncomplete c.read_buffer
          × (length c.read_buffer < 4 + max_frame_size))
client_handler_requests_example =
    client_handler_requests error_payload server_turn no_metrics two_reads two_reads-AreBytes

client_handler_replies_example :
    let c = served_connection two_reads in
    let all = replies error_payload server_turn [] c.requests in
    (rest : List ℕ) × (c.written ++ rest ≡ all) × (c.phase ≡ serving → rest ≡ [])
client_handler_replies_example =
    client_handler_replies error_payload server_turn no_metrics two_reads

-- A client that connects at once, and whose socket is always ready.
abbrev options : RpcCallOptions
options = record { timeout_ms = 1000; deadline = 0 }

abbrev look : Look
look = record { cancellation_requested = false; now = 0; polled = ready }

abbrev round : TransferRound
round = record { looks = look ∷ []; moved = bytes 100; cancellation_requested = false; now = 0 }

abbrev failing_round : TransferRound
failing_round = record round { moved = broken }

abbrev connecting : ConnectTurn
connecting = record {
  socket_error = none;
  fcntl_error = none;
  is_address = true;
  answer = at_once;
  looks = [];
  pending_error = none;
  incoming = reply_bytes;
}

abbrev client_turn : CallTurn
client_turn = record {
  now = 1;
  connecting = connecting;
  send = round ∷ [];
  reply = record { header = round ∷ []; payload = round ∷ [] };
}

abbrev client : RpcClient
client = record {
  host = "h";
  port = 80;
  connected = false;
  incoming = [];
  last_status = ok;
  last_error = "";
}

abbrev called : Called
called = call options client_turn 1 hello.payload client

called_true : (called.answer ≡ answered true) × (called.sent ≡ hello_bytes)
unfolding call exchange ensure_connected try_encode send_all ensure_deadline read_frame recv_exact
    u32_at try_decode_frame
called_true = (refl, refl)

call_reply_example :
    (try_encode 1 hello.payload ≡ some called.sent)
    × Frames reply_bytes (called.response ∷ []) called.client.incoming
    × (called.client.connected ≡ true)
    × (called.client.last_status ≡ ok)
call_reply_example =
    call_reply options client_turn 1 hello.payload client (omega arith) called_true.0

abbrev failed_turn : CallTurn
failed_turn = record client_turn { send = failing_round ∷ [] }

abbrev failed_call : Called
failed_call = call options failed_turn 1 hello.payload client

called_false : failed_call.answer ≡ answered false
unfolding call exchange ensure_connected try_encode send_all ensure_deadline
called_false = refl

call_failure_example :
    (failed_call.client.connected ≡ false)
    × (failed_call.client.last_status ≢ ok)
    × (failed_call.response ≡ no_frame)
call_failure_example = call_failure options failed_turn 1 hello.payload client called_false

result : rpc_result error_payload (server_turn [] hello).fate ≡ reply ∷ []
unfolding rpc_result
result = refl

call_round_trip_example :
    ((served_connection two_reads).requests ≡ hello ∷ [])
    × (called.response ≡ reply)
    × (called.client.incoming ≡ encoded_all error_payload [] ++ [])
call_round_trip_example =
    call_round_trip error_payload server_turn options client_turn 1 hello.payload client no_metrics
      two_reads reply [] reply_bytes [] (omega arith) refl two_reads-AreBytes (omega arith)
      called_true.0 two_reads_served.0 (sym called_true.1) (sym (append-nil _ ∙ two_reads_served.2))
      result encodes.1 (omega arith)

-- A deadline of 2 ms, and polls that are interrupted until it has passed.
abbrev interrupted_at : ℕ → Look
interrupted_at now = record { cancellation_requested = false; now = now; polled = interrupted }

wait_for_event_ends_example :
    wait_for_event
      (record { timeout_ms = 3000; deadline = 2000000 })
      (interrupted_at 0 ∷ interrupted_at 900000 ∷ interrupted_at 2000000 ∷ [])
    ≢ waiting
unfolding has_deadline
wait_for_event_ends_example =
    wait_for_event_ends (record { timeout_ms = 3000; deadline = 2000000 }) (interrupted_at 0)
      (interrupted_at 900000 ∷ interrupted_at 2000000 ∷ []) refl (inl refl)

-- A callback that wants no more behind the first frame.
abbrev stream_turn : StreamTurn
stream_turn = record {
  now = 1;
  connecting = connecting;
  send = round ∷ [];
  replies = record { header = round ∷ []; payload = round ∷ [] } ∷ [];
}

abbrev on_response : Callback
on_response = some (λ before f. false)

call_stream_lem_example :
    let r = call_stream options stream_turn 1 hello.payload on_response client in
    BeginsWith reply_bytes r.delivered
    × (r.answer ≡ answered true
        → (r.client.connected ≡ false) × StopsAtLast on_response [] r.delivered)
    × (r.answer ≡ answered false → r.client.connected ≡ false)
call_stream_lem_example =
    call_stream_lem options stream_turn 1 hello.payload on_response client (omega arith)

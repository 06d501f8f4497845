-- ===== src/Client/Stream.antt =====
-- RpcClient::callStream. The callback is a parameter, which may remember the frames before; none
-- is an empty function.
pub mod Loop
pub mod Laws
use coroutine_rpc_scheduler.Common.{
  Bool, List, Option, String, [], false, if◌then◌else◌, length, none, some, take, true, ℕ, ◌++◌,
  ◌∷◌,
}
use coroutine_rpc_scheduler.Protocol.{Frame, try_encode}
use coroutine_rpc_scheduler.Client.{
  RpcCallOptions, RpcCallStatus, ok, payload_too_large, status_name, ensure_deadline, gave_up,
  TransferRound, done, running, gave_up, send_all,
}
use coroutine_rpc_scheduler.Client.Call.{
  RpcClient, disconnect, set_last_error, ConnectTurn, Answer, answered, pending, ensure_connected,
  FrameRounds, frame, unread, reading, read_frame, start_call,
}

abbrev pub Callback : Type 0
Callback = Option (List Frame → Frame → Bool)

-- Whether the loop goes on behind a frame.
unfoldable pub wants_more : Callback → List Frame → Frame → Bool
wants_more none before f = true
wants_more (some on_response) before f = on_response before f

-- What `callStream` leaves, with the frames that the callback was given.
pub record Streamed : Type 0 where
  pub answer : Answer
  pub sent : List ℕ
  pub delivered : List Frame
  pub client : RpcClient

unfoldable pub fail_stream : RpcCallStatus → String → List ℕ → List Frame → RpcClient → Streamed
unfolding disconnect set_last_error
fail_stream status error sent delivered c = record {
  answer = answered false;
  sent = sent;
  delivered = delivered;
  client = set_last_error status error (disconnect c);
}

abbrev pub bad_length : String
bad_length = "invalid stream response frame length"

abbrev pub bad_frame : String
bad_frame = "decode stream response frame failed"

unfoldable pub stream_loop :
    RpcCallOptions → Callback → List FrameRounds → List ℕ → List Frame → RpcClient → Streamed
unfolding disconnect wants_more fail_stream
stream_loop o on_response [] sent delivered c = record {
  answer = pending;
  sent = sent;
  delivered = delivered;
  client = c;
}
stream_loop o on_response (rounds ∷ more) sent delivered c =
    let (read, incoming) = read_frame o bad_length bad_frame rounds c.incoming in
    let c' = record c { incoming = incoming } in
    elim read [
      | reading ↦ record { answer = pending; sent = sent; delivered = delivered; client = c' }
      | unread status error ↦ fail_stream status error sent delivered c'
      | frame f ↦
          let next = stream_loop o on_response more sent (delivered ++ (f ∷ [])) c' in
          if wants_more on_response delivered f then next else record {
            answer = answered true;
            sent = sent;
            delivered = delivered ++ (f ∷ []);
            client = record (disconnect c') { last_status = ok };
          }
    ]

pub record StreamTurn : Type 0 where
  pub now : ℕ
  pub connecting : ConnectTurn
  pub send : List TransferRound
  pub replies : List FrameRounds

unfoldable pub stream : RpcCallOptions → StreamTurn → Callback → List ℕ → RpcClient → Streamed
unfolding fail_stream status_name
stream o turn on_response data' c =
    let out = send_all o (length data') 0 turn.send in
    let sent = take out.sent data' in
    let loop = stream_loop o on_response turn.replies sent [] c in
    elim out.ended [
      | running ↦ record { answer = pending; sent = sent; delivered = []; client = c }
      | gave_up status ↦ fail_stream status (status_name status) sent [] c
      | done ↦ loop
    ]

unfoldable pub call_stream :
    RpcCallOptions → StreamTurn → ℕ → List ℕ → Callback → RpcClient → Streamed
unfolding fail_stream start_call
call_stream options turn serial_id request on_response c =
    let o = ensure_deadline turn.now options in
    let (answer, c') = ensure_connected o turn.connecting (start_call c) in
    let stay : Streamed = record { answer = answer; sent = []; delivered = []; client = c' } in
    let go : Streamed = elim (try_encode serial_id request) [
      | none ↦ fail_stream payload_too_large "request payload too large" [] [] c'
      | some data' ↦ stream o turn on_response data' c'
    ] in
    elim answer [ pending ↦ stay | answered connected ↦ if connected then go else stay ]

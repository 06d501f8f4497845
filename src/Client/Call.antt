-- ===== src/Client/Call.antt =====
-- RpcClient of src/rpc/rpc_client.cpp: connect and call. A connection is the bytes that its peer
-- sends from now on.
pub mod Laws
pub mod Failure
use coroutine_rpc_scheduler.Common.{
  Bool, List, Option, String, [], false, if◌then◌else◌, length, ltb, none, not, some, str_append,
  str_empty, take, true, ℕ, ◌++◌, ◌-◌, ◌==◌, ◌||◌,
}
use coroutine_rpc_scheduler.Protocol.{
  Frame, header_size, serial_id_size, max_frame_size, u32_at, try_encode, try_decode_frame,
  is_complete,
}
use coroutine_rpc_scheduler.Protocol.Stream.{no_frame}
use coroutine_rpc_scheduler.Client.{
  RpcCallOptions, RpcCallStatus, ok, connect_failed, payload_too_large, protocol_error, status_name,
  ensure_deadline, Look, event, waiting, gave_up, wait_for_event, TransferRound, done, gave_up,
  send_all, recv_exact, running,
}

-- `connected` is whether there is a socket, `incoming` what its peer sends.
pub record RpcClient : Type 0 where
  pub host : String
  pub port : ℕ
  pub connected : Bool
  pub incoming : List ℕ
  pub last_status : RpcCallStatus
  pub last_error : String

unfoldable pub disconnect : RpcClient → RpcClient
disconnect c = record c { connected = false; incoming = [] }

unfoldable pub set_last_error : RpcCallStatus → String → RpcClient → RpcClient
set_last_error status error c = record c { last_status = status; last_error = error }

pub data Connected : Type 0 where
  at_once in_progress : Connected
  refused : String → Connected

-- What the system calls of `connect` answer: an error's text, or none. `incoming` is what the peer
-- sends on the new connection.
pub record ConnectTurn : Type 0 where
  pub socket_error : Option String
  pub fcntl_error : Option String
  pub is_address : Bool
  pub answer : Connected
  pub looks : List Look
  pub pending_error : Option String
  pub incoming : List ℕ

-- The answer of a method, or none while it runs.
pub data Answer : Type 0 where
  answered : Bool → Answer
  pending : Answer

unfoldable pub connect : RpcCallOptions → ConnectTurn → RpcClient → Answer × RpcClient
unfolding wait_for_event set_last_error status_name
connect o turn c =
    let fail : String → Answer × RpcClient =
      λ error. (answered false, set_last_error connect_failed error c) in
    let open_socket = record c { connected = true; incoming = turn.incoming } in
    let wait : Answer × RpcClient = elim (wait_for_event o turn.looks) [
      | waiting ↦ (pending, open_socket)
      | gave_up status ↦ (answered false, set_last_error status (status_name status) c)
      | event ↦ elim turn.pending_error [
        | some error ↦ fail error
        | none ↦ (answered true, open_socket)
      ]
    ] in
    let start : Answer × RpcClient = elim turn.answer [
      | refused error ↦ fail error
      | at_once ↦ (answered true, open_socket)
      | in_progress ↦ wait
    ] in
    let set_up : Answer × RpcClient = elim turn.socket_error [
      | some error ↦ fail error
      | none ↦ elim turn.fcntl_error [
        | some error ↦ fail error
        | none ↦ if not turn.is_address then fail (str_append "invalid host: " c.host) else start
      ]
    ] in
    if c.connected
    then (answered true, c)
    else if str_empty c.host || (c.port == 0 || ltb 65535 c.port)
    then fail "invalid RPC endpoint"
    else set_up

unfoldable pub ensure_connected : RpcCallOptions → ConnectTurn → RpcClient → Answer × RpcClient
unfolding connect
ensure_connected o turn c = if c.connected then (answered true, c) else connect o turn c

-- The rounds in which a frame's header and its payload are received.
pub record FrameRounds : Type 0 where
  pub header : List TransferRound
  pub payload : List TransferRound

pub data FrameRead : Type 0 where
  frame : Frame → FrameRead
  unread : RpcCallStatus → String → FrameRead
  reading : FrameRead

-- A frame as `call` and `callStream` receive it, with the texts that they give for a wrong length
-- and a wrong frame, and what is left of the peer's bytes.
unfoldable pub read_frame :
    RpcCallOptions → String → String → FrameRounds → List ℕ → FrameRead × List ℕ
unfolding status_name
read_frame o bad_length bad_frame rounds incoming =
    let h = recv_exact o header_size [] rounds.header incoming in
    let total_len = u32_at h.received 0 in
    let b = recv_exact o (total_len - serial_id_size) [] rounds.payload h.incoming in
    let decoded = try_decode_frame (h.received ++ b.received) no_frame in
    let whole : FrameRead = elim b.ended [
      | running ↦ reading
      | gave_up status ↦ unread status (status_name status)
      | done ↦
          if is_complete decoded.status
          then frame decoded.frame
          else unread protocol_error bad_frame
    ] in
    let body : FrameRead × List ℕ =
      if ltb total_len serial_id_size || ltb max_frame_size total_len
      then (unread protocol_error bad_length, h.incoming)
      else (whole, b.incoming) in
    elim h.ended [
      | running ↦ (reading, h.incoming)
      | gave_up status ↦ (unread status (status_name status), h.incoming)
      | done ↦ body
    ]

pub record CallTurn : Type 0 where
  pub now : ℕ
  pub connecting : ConnectTurn
  pub send : List TransferRound
  pub reply : FrameRounds

-- What `call` leaves: its answer, the bytes of the request that have gone out, the out-parameters,
-- and the client.
pub record Called : Type 0 where
  pub answer : Answer
  pub sent : List ℕ
  pub response : Frame
  pub client : RpcClient

unfoldable pub fail_call : RpcCallStatus → String → List ℕ → RpcClient → Called
unfolding disconnect set_last_error
fail_call status error sent c = record {
  answer = answered false;
  sent = sent;
  response = no_frame;
  client = set_last_error status error (disconnect c);
}

-- The part of `call` behind the connection, with the encoded request.
unfoldable pub exchange : RpcCallOptions → CallTurn → List ℕ → RpcClient → Called
unfolding fail_call
exchange o turn data' c =
    let out = send_all o (length data') 0 turn.send in
    let sent = take out.sent data' in
    let (read, incoming) =
      read_frame o "invalid response frame length" "decode response frame failed" turn.reply
        c.incoming in
    let still : RpcClient → Called =
      λ d. record { answer = pending; sent = sent; response = no_frame; client = d } in
    let reply : Called = elim read [
      | reading ↦ still (record c { incoming = incoming })
      | unread status error ↦ fail_call status error sent c
      | frame f ↦ record {
        answer = answered true;
        sent = sent;
        response = f;
        client = record c { incoming = incoming; last_status = ok };
      }
    ] in
    elim out.ended [
      | running ↦ still c
      | gave_up status ↦ fail_call status (status_name status) sent c
      | done ↦ reply
    ]

unfoldable pub start_call : RpcClient → RpcClient
start_call c = record c { last_status = ok; last_error = "" }

unfoldable pub call : RpcCallOptions → CallTurn → ℕ → List ℕ → RpcClient → Called
unfolding fail_call start_call
call options turn serial_id request c =
    let o = ensure_deadline turn.now options in
    let (answer, c') = ensure_connected o turn.connecting (start_call c) in
    let stay : Called = record { answer = answer; sent = []; response = no_frame; client = c' } in
    let go : Called = elim (try_encode serial_id request) [
      | none ↦ fail_call payload_too_large "request payload too large" [] c'
      | some data' ↦ exchange o turn data' c'
    ] in
    elim answer [ pending ↦ stay | answered connected ↦ if connected then go else stay ]

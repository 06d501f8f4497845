-- ===== src/EndToEnd.antt =====
-- The two ends of a call: RpcClient::call of src/rpc/rpc_client.cpp on a new connection to
-- clientHandler of src/net/tcp_server.cpp. The network hands on bytes in order.
use coroutine_rpc_scheduler.Common.{
  All, List, String, [], ap, append-nil, append_assoc, arith, false, refl, some, subst, sym, true,
  ℕ, ◌++◌, ◌∙◌, ◌∷◌, ◌≡◌,
}
use coroutine_rpc_scheduler.Dispatcher.{ErrorCode}
use coroutine_rpc_scheduler.Metrics.{Metrics}
use coroutine_rpc_scheduler.Protocol.{Frame, IsU32, try_encode}
use coroutine_rpc_scheduler.Protocol.RoundTrip.{AreBytes}
use coroutine_rpc_scheduler.Protocol.Stream.{Frames, Frames-unique, Frames-one}
use coroutine_rpc_scheduler.Client.{RpcCallOptions}
use coroutine_rpc_scheduler.Client.Call.{RpcClient, call, answered, CallTurn}
use coroutine_rpc_scheduler.Client.Call.Laws.{call_reply, peer_bytes}
use coroutine_rpc_scheduler.Server.{
  client_handler, FrameTurn, serving, new_connection, Read, chunk_bytes, rpc_result,
}
use coroutine_rpc_scheduler.Server.Chunks.{read_bytes, client_handler_requests, IsIncomplete-nil}
use coroutine_rpc_scheduler.Server.Responses.{encoded, encoded_all, encoded_of_fit}
use coroutine_rpc_scheduler.Server.Replies.{replies, client_handler_replies}

module _ (error_payload : ErrorCode → String → List ℕ) (turn : List Frame → Frame → FrameTurn) where
  -- A server that has read one encoded request, and goes on, has dispatched it and no more, and has
  -- written its responses.
  served :
      (m : Metrics) (rs : List Read) (f : Frame) (b : List ℕ)
      → All (λ r. AreBytes (chunk_bytes r)) rs
      → read_bytes rs ≡ b
      → try_encode f.serial_id f.payload ≡ some b
      → IsU32 f.serial_id
      → let s = client_handler error_payload turn rs (new_connection m) in
        s.phase ≡ serving
        → (s.requests ≡ f ∷ [])
          × (s.written ≡ encoded_all error_payload (rpc_result error_payload (turn [] f).fate))
  unfolding replies
  served m rs f b a e encoded u p =
      let s = client_handler error_payload turn rs (new_connection m) in
      let (fed, more) = client_handler_requests error_payload turn m rs a in
      let (all, whole, _) = more p in
      let (rest, split, none_left) = client_handler_replies error_payload turn m rs in
      let one : Frames s.received (f ∷ []) [] =
        (b, [], encoded, all ∙ e ∙ sym (append-nil b), u, refl) in
      let (requests, _) =
        Frames-unique s.received s.requests (f ∷ []) s.read_buffer [] fed whole one
          IsIncomplete-nil in
      (
        requests,
        sym (append-nil s.written)
            ∙ ap (◌++◌ s.written) (sym (none_left p))
            ∙ split
            ∙ ap (replies error_payload turn []) requests
            ∙ append-nil _,
      )

  -- A call on a new connection that is answered true gets the first response of the dispatcher to
  -- its request, and the server has dispatched that request, once, and no other. Here the server
  -- has read what the client sent, however it was cut, and is still serving; what it wrote is what
  -- the client gets, maybe with more behind; and the response fits a frame.
  pub call_round_trip :
      (options : RpcCallOptions) (t : CallTurn) (serial_id : ℕ) (request : List ℕ) (c : RpcClient)
      (m : Metrics) (rs : List Read) (response : Frame) (more : List Frame) (b later : List ℕ)
      → IsU32 serial_id
      → c.connected ≡ false
      → All (λ r. AreBytes (chunk_bytes r)) rs
      → AreBytes t.connecting.incoming
      → let called = call options t serial_id request c in
        let s = client_handler error_payload turn rs (new_connection m) in
        let f : Frame = record { serial_id = serial_id; payload = request } in
        called.answer ≡ answered true
        → s.phase ≡ serving
        → read_bytes rs ≡ called.sent
        → t.connecting.incoming ≡ s.written ++ later
        → rpc_result error_payload (turn [] f).fate ≡ response ∷ more
        → try_encode response.serial_id response.payload ≡ some b
        → IsU32 response.serial_id
        → (s.requests ≡ f ∷ [])
          × (called.response ≡ response)
          × (called.client.incoming ≡ encoded_all error_payload more ++ later)
  unfolding encoded_all
  call_round_trip options t serial_id request c m rs response more b later u closed_before a a'
        answer p read network result encodes u' =
      let called = call options t serial_id request c in
      let s = client_handler error_payload turn rs (new_connection m) in
      let f : Frame = record { serial_id = serial_id; payload = request } in
      let peer : peer_bytes t c ≡ t.connecting.incoming = ground (arith, closed_before) in
      let (sent, reply, _, _) =
        call_reply options t serial_id request c (subst AreBytes (sym peer) a') answer in
      let (requests, written) = served m rs f called.sent a read sent u p in
      let all = encoded_all error_payload in
      let first : encoded error_payload response ≡ b =
        encoded_of_fit error_payload response b encodes in
      let stream : peer_bytes t c ≡ b ++ (all more ++ later) =
        peer
        ∙ network
        ∙ ap (λ x. x ++ later) (written ∙ ap all result ∙ ap (λ x. x ++ all more) first)
        ∙ append_assoc b (all more) later in
      let (same, rest) =
        Frames-one (peer_bytes t c) called.response response called.client.incoming
          (all more ++ later) reply (b, all more ++ later, encodes, stream, u', refl) in
      (requests, same, rest)

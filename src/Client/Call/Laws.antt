-- ===== src/Client/Call/Laws.antt =====
-- What the answers of RpcClient::call mean.
use coroutine_rpc_scheduler.Common.{
  All-append_left, List, Option-cases, String, [], ap, append-eq_nil, append-nil, append_assoc,
  arith, false, if◌then◌else◌, inl, inr, length, length-append, refl, some, subst, sym, take,
  take-length, true, ℕ, ◌++◌, ◌-◌, ◌<◌, ◌∙◌, ◌∷◌, ◌≡◌, ◌≢◌, ◌≤◌,
}
use coroutine_rpc_scheduler.Protocol.{
  Frame, header_size, serial_id_size, u32_at, try_encode, complete, try_decode_frame, IsU32,
}
use coroutine_rpc_scheduler.Protocol.RoundTrip.{AreBytes, try_decode_frame_sound}
use coroutine_rpc_scheduler.Protocol.Prefix.{u32_at-append}
use coroutine_rpc_scheduler.Protocol.Stream.{no_frame}
use coroutine_rpc_scheduler.Protocol.Stream.{Frames}
use coroutine_rpc_scheduler.Client.{RpcCallOptions, ok, recv_exact, done, send_all, ensure_deadline}
use coroutine_rpc_scheduler.Client.Transfer.{recv_exact_lem, wait_for_event-ne-ok, send_all_lem}
use coroutine_rpc_scheduler.Client.Call.{
  RpcClient, ConnectTurn, answered, ensure_connected, FrameRounds, frame, read_frame, CallTurn,
  exchange, call, Answer, fail_call, start_call,
}

-- The peer's bytes on the connection that a call uses: the open one, or the one that it opens.
abbrev pub peer_bytes : CallTurn → RpcClient → List ℕ
peer_bytes turn c = if c.connected then c.incoming else turn.connecting.incoming

pub ensure_connected_lem :
    (o : RpcCallOptions) (turn : ConnectTurn) (c : RpcClient)
    → (ensure_connected o turn c).0 ≡ answered true
    → ((ensure_connected o turn c).1.incoming ≡ (if c.connected then c.incoming else turn.incoming))
      × ((ensure_connected o turn c).1.connected ≡ true)
      × ((ensure_connected o turn c).1.last_status ≡ c.last_status)
unfolding ensure_connected
ensure_connected_lem o turn c h = ground arith

pub ensure_connected-false :
    (o : RpcCallOptions) (turn : ConnectTurn) (c : RpcClient)
    → (ensure_connected o turn c).0 ≡ answered false
    → ((ensure_connected o turn c).1.connected ≡ false)
      × ((ensure_connected o turn c).1.last_status ≢ ok)
unfolding ensure_connected
ensure_connected-false o turn c h = ground (arith, wait_for_event-ne-ok o turn.looks)

-- A header and as many bytes as it asks for are one frame, and no byte more.
decoded_size :
    (header payload : List ℕ)
    → length header ≡ 8
    → length payload ≡ u32_at header 0 - 4
    → 4 ≤ u32_at header 0
    → (try_decode_frame (header ++ payload) no_frame).status ≡ complete
    → (try_decode_frame (header ++ payload) no_frame).frame_size ≡ length (header ++ payload)
unfolding try_decode_frame
decoded_size header payload h p len e =
    ground (arith, u32_at-append header payload 0, length-append header payload)

frame_bytes :
    (header payload : List ℕ) (f : Frame)
    → AreBytes (header ++ payload)
    → length header ≡ 8
    → length payload ≡ u32_at header 0 - 4
    → 4 ≤ u32_at header 0
    → (try_decode_frame (header ++ payload) no_frame).status ≡ complete
    → (try_decode_frame (header ++ payload) no_frame).frame ≡ f
    → (try_encode f.serial_id f.payload ≡ some (header ++ payload)) × IsU32 f.serial_id
frame_bytes header payload f octets h p len e same =
    let whole = header ++ payload in
    let g = (try_decode_frame whole no_frame).frame in
    let (b, rest, encoded, split, size, u) = try_decode_frame_sound whole no_frame octets e in
    let total : (try_decode_frame whole no_frame).frame_size ≡ length whole =
      decoded_size header payload h p len e in
    let none_left = append-eq_nil b rest whole split (sym total ∙ size) in
    let b≡whole : b ≡ whole = sym (append-nil b) ∙ ap (◌++◌ b) (sym none_left) ∙ sym split in
    (
      subst (λ x. try_encode x.serial_id x.payload ≡ some whole) same
          (subst (λ x. try_encode (g.serial_id) (g.payload) ≡ some x) b≡whole encoded),
      subst (λ x. IsU32 x.serial_id) same u,
    )

pub read_frame_lem :
    (o : RpcCallOptions) (bad_length bad_frame : String) (rounds : FrameRounds) (incoming : List ℕ)
    (f : Frame)
    → AreBytes incoming
    → (read_frame o bad_length bad_frame rounds incoming).0 ≡ frame f
    → (b : List ℕ) × (try_encode f.serial_id f.payload ≡ some b)
      × (incoming ≡ b ++ (read_frame o bad_length bad_frame rounds incoming).1)
      × IsU32 f.serial_id
unfolding read_frame
read_frame_lem o bad_length bad_frame rounds incoming f octets h =
    let r = recv_exact o header_size [] rounds.header incoming in
    let (same, eight) = recv_exact_lem o header_size [] rounds.header incoming (omega arith) in
    let n = u32_at r.received 0 - serial_id_size in
    let b = recv_exact o n [] rounds.payload r.incoming in
    let (same', full) = recv_exact_lem o n [] rounds.payload r.incoming (omega arith) in
    let whole = r.received ++ b.received in
    let rest : incoming ≡ whole ++ b.incoming =
      sym same
      ∙ ap (◌++◌ r.received) (sym same')
      ∙ sym (append_assoc r.received b.received b.incoming) in
    let done_1 : r.ended ≡ done = ground arith in
    let done_2 : b.ended ≡ done = ground arith in
    let octets' = All-append_left (λ x. x < 256) whole b.incoming (subst AreBytes rest octets) in
    let left : (read_frame o bad_length bad_frame rounds incoming).1 ≡ b.incoming = ground arith in
    let (encoded, u) =
      frame_bytes r.received b.received f octets' (eight done_1) (full done_2) (ground arith)
        (ground arith) (ground arith) in
    (whole, encoded, rest ∙ ap (◌++◌ whole) (sym left), u)

exchange_success :
    (o : RpcCallOptions) (turn : CallTurn) (data' : List ℕ) (c : RpcClient)
    → AreBytes c.incoming
    → let r = exchange o turn data' c in
      r.answer ≡ answered true
      → (r.sent ≡ data')
        × (r.client ≡ record c { incoming = r.client.incoming; last_status = ok })
        × Frames c.incoming (r.response ∷ []) r.client.incoming
unfolding exchange
exchange_success o turn data' c octets h =
    let bad_length : String = "invalid response frame length" in
    let bad_frame : String = "decode response frame failed" in
    let (_, full) = send_all_lem o (length data') 0 turn.send (omega arith) in
    let out = send_all o (length data') 0 turn.send in
    let sent_done : out.ended ≡ done = ground arith in
    let r = exchange o turn data' c in
    let got : (read_frame o bad_length bad_frame turn.reply c.incoming).0 ≡ frame r.response =
      ground arith in
    let (reply, encoded, split, u) =
      read_frame_lem o bad_length bad_frame turn.reply c.incoming r.response octets got in
    let all : take out.sent data' ≡ data' =
      ap (λ n. take n data') (full sent_done) ∙ take-length data' in
    (ground arith, ground arith, (reply, r.client.incoming, encoded, split ∙ ground arith, u, refl))

-- The client that a call goes on with, and what its connection answered.
abbrev pub call_options : RpcCallOptions → CallTurn → RpcCallOptions
call_options options turn = ensure_deadline turn.now options

abbrev pub call_connection : RpcCallOptions → CallTurn → RpcClient → Answer × RpcClient
call_connection options turn c =
    ensure_connected (call_options options turn) turn.connecting (start_call c)

call_true :
    (options : RpcCallOptions) (turn : CallTurn) (serial_id : ℕ) (request : List ℕ) (c : RpcClient)
    → (call options turn serial_id request c).answer ≡ answered true
    → ((call_connection options turn c).0 ≡ answered true)
      × ((data' : List ℕ) × (try_encode serial_id request ≡ some data')
          × (call options turn serial_id request c
              ≡ exchange (call_options options turn) turn data' (call_connection options turn c).1))
unfolding call fail_call
call_true options turn serial_id request c h = elim (Option-cases (try_encode serial_id request)) [
  | inl e ↦ absurd (ground (arith, e))
  | inr (data', e) ↦ (ground arith, (data', e, ground (arith, e)))
]

-- A call that is answered true has sent the whole encoded request, and its response is the next
-- frame that the peer sent, on the open connection or the one that the call opened: the bytes
-- behind that frame are left for the next call, and the connection stays open.
pub call_reply :
    (options : RpcCallOptions) (turn : CallTurn) (serial_id : ℕ) (request : List ℕ) (c : RpcClient)
    → AreBytes (peer_bytes turn c)
    → let r = call options turn serial_id request c in
      r.answer ≡ answered true
      → (try_encode serial_id request ≡ some r.sent)
        × Frames (peer_bytes turn c) (r.response ∷ []) r.client.incoming
        × (r.client.connected ≡ true)
        × (r.client.last_status ≡ ok)
unfolding start_call
call_reply options turn serial_id request c octets h =
    let r = call options turn serial_id request c in
    let o = call_options options turn in
    let (connection, (data', encoded, same)) = call_true options turn serial_id request c h in
    let c' = (call_connection options turn c).1 in
    let (started, open_socket, _) =
      ensure_connected_lem o turn.connecting (start_call c) connection in
    let answer = sym (ap (λ r. r.answer) same) ∙ h in
    let (sent, client, reply) =
      exchange_success o turn data' c' (subst AreBytes (sym started) octets) answer in
    (
      encoded ∙ ap some (sym sent ∙ sym (ap (λ r. r.sent) same)),
      subst (λ x. Frames x (r.response ∷ []) r.client.incoming) started
          (subst (λ x. Frames c'.incoming (x.response ∷ []) x.client.incoming) (sym same) reply),
      ground (arith, client, open_socket, same),
      ground (arith, client, same),
    )

-- ===== src/Client/Call/Failure.antt =====
-- What a call of RpcClient leaves behind when it fails.
use coroutine_rpc_scheduler.Common.{
  List, Option-cases, String, [], ap, arith, false, if◌then◌else◌, inl, inr, length, refl, some,
  true, ℕ, ◌-◌, ◌<◌, ◌∙◌, ◌∷◌, ◌≡◌, ◌≢◌, ◌≤◌, ◌⊎◌,
}
use coroutine_rpc_scheduler.Protocol.{Frame, header_size, serial_id_size, u32_at, try_encode}
use coroutine_rpc_scheduler.Protocol.Prefix.{try_encode-length}
use coroutine_rpc_scheduler.Protocol.Stream.{no_frame}
use coroutine_rpc_scheduler.Client.{
  RpcCallOptions, ok, recv_exact, RpcCallStatus, deadline_exceeded, canceled, ensure_deadline,
  remaining_ms, Look, wait_for_event, TransferRound, Ended, one_round, send_all,
}
use coroutine_rpc_scheduler.Client.Transfer.{send_all-ne-ok, recv_exact-ne-ok}
use coroutine_rpc_scheduler.Client.Call.{
  RpcClient, answered, FrameRounds, unread, read_frame, CallTurn, Called, exchange, start_call,
  call, FrameRead, frame, reading, Answer, pending, ensure_connected,
}
use coroutine_rpc_scheduler.Client.Call.Laws.{call_connection, call_options, ensure_connected-false}

pub read_frame-ne-ok :
    (o : RpcCallOptions) (bad_length bad_frame : String) (rounds : FrameRounds) (incoming : List ℕ)
    (error : String)
    → (read_frame o bad_length bad_frame rounds incoming).0 ≢ unread ok error
unfolding read_frame
read_frame-ne-ok o bad_length bad_frame rounds incoming error h =
    let r = recv_exact o header_size [] rounds.header incoming in
    let n = u32_at r.received 0 - serial_id_size in
    ground (
      arith,
      recv_exact-ne-ok o header_size [] rounds.header incoming,
      recv_exact-ne-ok o n [] rounds.payload r.incoming,
    )

pub Answer-cases : (a : Answer) → (a ≡ answered true) ⊎ ((a ≡ answered false) ⊎ (a ≡ pending))
Answer-cases (answered true) = inl refl
Answer-cases (answered false) = inr (inl refl)
Answer-cases pending = inr (inr refl)

pub FrameRead-cases :
    (r : FrameRead)
    → ((f : Frame) × (r ≡ frame f))
      ⊎ ((r ≡ reading) ⊎ ((status : RpcCallStatus) × (error : String) × (r ≡ unread status error)))
FrameRead-cases (frame f) = inl (f, refl)
FrameRead-cases reading = inr (inl refl)
FrameRead-cases (unread status error) = inr (inr (status, error, refl))

abbrev pub HasFailed : Called → Type 0
HasFailed r = (r.client.connected ≡ false) × (r.client.last_status ≢ ok) × (r.response ≡ no_frame)

exchange_failure :
    (o : RpcCallOptions) (turn : CallTurn) (data' : List ℕ) (c : RpcClient)
    → (exchange o turn data' c).answer ≡ answered false
    → HasFailed (exchange o turn data' c)
unfolding exchange
exchange_failure o turn data' c h =
    let bad_length : String = "invalid response frame length" in
    let bad_frame : String = "decode response frame failed" in
    let r = (read_frame o bad_length bad_frame turn.reply c.incoming).0 in
    let sent = send_all-ne-ok o (length data') 0 turn.send in
    elim (FrameRead-cases r) [
      | inl (f, e) ↦ ground (arith, e, sent)
      | inr (inl e) ↦ ground (arith, e, sent)
      | inr (inr (status, error, e)) ↦
          let no = read_frame-ne-ok o bad_length bad_frame turn.reply c.incoming error in
          ground (arith, e, sent, no)
    ]

-- A call that is answered false leaves no socket, whatever it failed on, so that no late byte of
-- its answer can be taken for the answer of the next call; it has a status other than OK, and no
-- response.
pub call_failure :
    (options : RpcCallOptions) (turn : CallTurn) (serial_id : ℕ) (request : List ℕ) (c : RpcClient)
    → let r = call options turn serial_id request c in
      r.answer ≡ answered false
      → (r.client.connected ≡ false) × (r.client.last_status ≢ ok) × (r.response ≡ no_frame)
unfolding call
call_failure options turn serial_id request c h =
    let o = call_options options turn in
    let c' = (call_connection options turn c).1 in
    let lost = ensure_connected-false o turn.connecting (start_call c) in
    elim (Option-cases (try_encode serial_id request)) [
      | inl e ↦ ground (arith, e, lost)
      | inr (data', e) ↦ ground (arith, e, lost, exchange_failure o turn data' c')
    ]

-- The first wait for the socket, once the call is canceled or its deadline has passed.
send_all_late :
    (o : RpcCallOptions) (size : ℕ) (r : TransferRound) (rounds : List TransferRound) (a : Look)
    (looks : List Look)
    → 0 < size
    → r.looks ≡ a ∷ looks
    → (a.cancellation_requested ≡ true) ⊎ (remaining_ms a.now o ≡ 0)
    → send_all o size 0 (r ∷ rounds) ≡ record {
      ended = Ended.gave_up (if a.cancellation_requested then canceled else deadline_exceeded);
      sent = 0;
    }
unfolding send_all one_round wait_for_event
send_all_late o size r rounds a looks pos e late = rw e (ground (arith, late))

past_deadline :
    (o : RpcCallOptions) (now : ℕ) → 0 < o.deadline → o.deadline ≤ now → remaining_ms now o ≡ 0
unfolding remaining_ms
past_deadline o now pos le = ground arith

-- A call on an open connection that is canceled, or late, before its first wait sends no byte: it
-- is answered false, and its status says which.
pub call_late :
    (options : RpcCallOptions) (turn : CallTurn) (serial_id : ℕ) (request data' : List ℕ)
    (c : RpcClient) (r : TransferRound) (rounds : List TransferRound) (a : Look) (looks : List Look)
    → c.connected ≡ true
    → try_encode serial_id request ≡ some data'
    → turn.send ≡ r ∷ rounds
    → r.looks ≡ a ∷ looks
    → let o = ensure_deadline turn.now options in
      (a.cancellation_requested ≡ true) ⊎ ((0 < o.deadline) × (o.deadline ≤ a.now))
      → let called = call options turn serial_id request c in
        (called.answer ≡ answered false)
        × (called.sent ≡ [])
        × (called.client.last_status
            ≡ (if a.cancellation_requested then canceled else deadline_exceeded))
        × (called.client.connected ≡ false)
unfolding call exchange ensure_connected start_call
call_late options turn serial_id request data' c r rounds a looks open_socket encoded first at
      late =
    let o = ensure_deadline turn.now options in
    let (size, _, _) = try_encode-length serial_id request data' encoded in
    let over : (a.cancellation_requested ≡ true) ⊎ (remaining_ms a.now o ≡ 0) = elim late [
      | inl now ↦ inl now
      | inr (pos, le) ↦ inr (past_deadline o a.now pos le)
    ] in
    let out = send_all_late o (length data') r rounds a looks (omega arith) at over in
    let sent = ap (send_all o (length data') 0) first ∙ out in
    (
      ground (arith, open_socket, encoded, sent),
      ground (arith, open_socket, encoded, sent),
      ground (arith, open_socket, encoded, sent),
      ground (arith, open_socket, encoded, sent),
    )

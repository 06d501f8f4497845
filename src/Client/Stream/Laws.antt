-- ===== src/Client/Stream/Laws.antt =====
-- The frames that a stream's callback is given are those of the peer, in order.
use coroutine_rpc_scheduler.Common.{
  List, Option-cases, [], arith, false, if◌then◌else◌, inl, inr, length, subst, sym, take, true, ℕ,
  ◌∙◌, ◌≡◌, ◌≢◌, ◌⊎◌,
}
use coroutine_rpc_scheduler.Protocol.{try_encode}
use coroutine_rpc_scheduler.Protocol.RoundTrip.{AreBytes}
use coroutine_rpc_scheduler.Client.Transfer.{Ended-cases}
use coroutine_rpc_scheduler.Client.{RpcCallOptions, ensure_deadline, send_all}
use coroutine_rpc_scheduler.Client.Call.{
  RpcClient, answered, FrameRounds, Answer, ensure_connected, start_call,
}
use coroutine_rpc_scheduler.Client.Call.Laws.{ensure_connected-false, ensure_connected_lem}
use coroutine_rpc_scheduler.Client.Call.Failure.{Answer-cases}
use coroutine_rpc_scheduler.Client.Stream.Loop.{
  BeginsWith, StopsAtLast, stream_loop_lem, stream_loop_closes,
}
use coroutine_rpc_scheduler.Client.Stream.{
  Callback, stream_loop, Streamed, StreamTurn, call_stream, stream,
}

abbrev HasNothing : Streamed → Type 0
HasNothing r =
    (r.delivered ≡ [])
    × (r.answer ≢ answered true)
    × (r.answer ≡ answered false → r.client.connected ≡ false)

-- A stream is its loop, or has ended before it.
stream_cases :
    (o : RpcCallOptions) (turn : StreamTurn) (on_response : Callback) (data' : List ℕ)
    (c : RpcClient)
    → HasNothing (stream o turn on_response data' c)
      ⊎ ((sent : List ℕ) × (stream o turn on_response data' c
            ≡ stream_loop o on_response turn.replies sent [] c))
unfolding stream
stream_cases o turn on_response data' c =
    let out = send_all o (length data') 0 turn.send in
    elim (Ended-cases out.ended) [
      | inl e ↦ inr (take out.sent data', ground (arith, e))
      | inr (inl e) ↦ inl (ground (arith, e), λ h. ground (arith, e), λ h. ground (arith, e))
      | inr (inr (status, e)) ↦
          inl (ground (arith, e), λ h. ground (arith, e), λ h. ground (arith, e))
    ]

abbrev stream_connection : RpcCallOptions → StreamTurn → RpcClient → Answer × RpcClient
stream_connection options turn c =
    ensure_connected (ensure_deadline turn.now options) turn.connecting (start_call c)

call_stream_cases :
    (options : RpcCallOptions) (turn : StreamTurn) (serial_id : ℕ) (request : List ℕ)
    (on_response : Callback) (c : RpcClient)
    → let r = call_stream options turn serial_id request on_response c in
      let o = ensure_deadline turn.now options in
      HasNothing r
      ⊎ (((stream_connection options turn c).0 ≡ answered true)
          × ((data' : List ℕ) × (r
                ≡ stream o turn on_response data' (stream_connection options turn c).1)))
unfolding call_stream
call_stream_cases options turn serial_id request on_response c =
    let lost =
      ensure_connected-false (ensure_deadline turn.now options) turn.connecting (start_call c) in
    elim (Answer-cases (stream_connection options turn c).0) [
      | inl e ↦ elim (Option-cases (try_encode serial_id request)) [
        | inl f ↦ inl (ground (arith, e, f), λ h. ground (arith, e, f), λ h. ground (arith, e, f))
        | inr (data', f) ↦ inr (e, (data', ground (arith, e, f)))
      ]
      | inr (inl e) ↦ inl (ground (arith, e), λ h. ground (arith, e), λ h. ground (arith, e, lost))
      | inr (inr e) ↦ inl (ground (arith, e), λ h. ground (arith, e), λ h. ground (arith, e))
    ]

abbrev StreamEnds : Callback → List ℕ → Streamed → Type 0
StreamEnds on_response incoming r =
    BeginsWith incoming r.delivered
    × (r.answer ≡ answered true
        → (r.client.connected ≡ false) × StopsAtLast on_response [] r.delivered)
    × (r.answer ≡ answered false → r.client.connected ≡ false)

nothing-StreamEnds :
    (on_response : Callback) (incoming : List ℕ) (r : Streamed)
    → HasNothing r
    → StreamEnds on_response incoming r
nothing-StreamEnds on_response incoming r (none_given, not_true, closes) =
    (subst (BeginsWith incoming) (sym none_given) tt, λ h. absurd (not_true h), closes)

loop-StreamEnds :
    (o : RpcCallOptions) (on_response : Callback) (turns : List FrameRounds) (sent : List ℕ)
    (c : RpcClient)
    → AreBytes c.incoming
    → StreamEnds on_response c.incoming (stream_loop o on_response turns sent [] c)
loop-StreamEnds o on_response turns sent c octets =
    let (fs, added, begins, ends) = stream_loop_lem o on_response sent turns [] c octets in
    (
      subst (BeginsWith c.incoming) (sym added) begins,
      λ h.
          let (closed, stops) = ends h in
          (closed, subst (StopsAtLast on_response []) (sym added) stops),
      stream_loop_closes o on_response sent turns [] c false,
    )

-- The frames that a stream's callback is given are the next frames of the peer, in their order and
-- with none left out, however the stream ends. A stream that is answered true has ended at the
-- first frame behind which the callback wanted no more, and has closed its connection; one that is
-- answered false has closed it too.
pub call_stream_lem :
    (options : RpcCallOptions) (turn : StreamTurn) (serial_id : ℕ) (request : List ℕ)
    (on_response : Callback) (c : RpcClient)
    → let incoming = if c.connected then c.incoming else turn.connecting.incoming in
      AreBytes incoming
      → let r = call_stream options turn serial_id request on_response c in
        BeginsWith incoming r.delivered
        × (r.answer ≡ answered true
            → (r.client.connected ≡ false) × StopsAtLast on_response [] r.delivered)
        × (r.answer ≡ answered false → r.client.connected ≡ false)
unfolding start_call
call_stream_lem options turn serial_id request on_response c octets =
    let o = ensure_deadline turn.now options in
    let c' = (stream_connection options turn c).1 in
    let r = call_stream options turn serial_id request on_response c in
    let incoming = if c.connected then c.incoming else turn.connecting.incoming in
    elim (call_stream_cases options turn serial_id request on_response c) [
      | inl before ↦ nothing-StreamEnds on_response incoming r before
      | inr (connection, (data', same)) ↦
          let (started, _, _) = ensure_connected_lem o turn.connecting (start_call c) connection in
          elim (stream_cases o turn on_response data' c') [
            | inl before ↦ subst (StreamEnds on_response incoming) (sym same) (
                nothing-StreamEnds on_response incoming (stream o turn on_response data' c') before)
            | inr (sent, loop) ↦
                let octets' = subst AreBytes (sym started) octets in
                subst (λ x. StreamEnds on_response x r) started
                  (subst (StreamEnds on_response c'.incoming) (sym (same ∙ loop))
                    (loop-StreamEnds o on_response turn.replies sent c' octets'))
          ]
    ]

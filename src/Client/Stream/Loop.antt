-- ===== src/Client/Stream/Loop.antt =====
-- The loop of callStream: what it delivers, and that it closes its connection when it answers.
use coroutine_rpc_scheduler.Common.{
  All-append_right, Bool, Bool-cases, List, [], ap, append-nil, append_assoc, arith, false, inl,
  inr, refl, some, subst, sym, true, ℕ, ◌++◌, ◌<◌, ◌∙◌, ◌∷◌, ◌≡◌, ◌≢◌, ◌⊎◌,
}
use coroutine_rpc_scheduler.Protocol.{Frame, try_encode}
use coroutine_rpc_scheduler.Protocol.RoundTrip.{AreBytes}
use coroutine_rpc_scheduler.Client.{RpcCallOptions}
use coroutine_rpc_scheduler.Client.Call.{RpcClient, answered, FrameRounds, frame, read_frame}
use coroutine_rpc_scheduler.Client.Call.Laws.{read_frame_lem}
use coroutine_rpc_scheduler.Client.Call.Failure.{FrameRead-cases}
use coroutine_rpc_scheduler.Client.Stream.{
  Callback, wants_more, bad_length, bad_frame, stream_loop, Streamed,
}

-- The bytes begin with the encodings of the frames.
abbrev pub BeginsWith : List ℕ → List Frame → Type 0
BeginsWith octets [] = Unit {0}
BeginsWith octets (f ∷ fs) =
    (b : List ℕ) × (rest : List ℕ) × (try_encode f.serial_id f.payload ≡ some b)
    × (octets ≡ b ++ rest)
    × BeginsWith rest fs

-- The callback wanted more behind each frame but the last, behind which it did not.
abbrev pub StopsAtLast : Callback → List Frame → List Frame → Type 0
StopsAtLast on_response before [] = ⊥
StopsAtLast on_response before (f ∷ fs) =
    ((wants_more on_response before f ≡ false) × (fs ≡ []))
    ⊎ ((wants_more on_response before f ≡ true) × StopsAtLast on_response (before ++ (f ∷ [])) fs)

-- What a loop has added to the frames that were delivered before.
abbrev pub Delivers : Callback → List Frame → List ℕ → Streamed → Type 0
Delivers on_response before incoming r =
    (fs : List Frame) × (r.delivered ≡ before ++ fs)
    × BeginsWith incoming fs
    × (r.answer ≡ answered true → (r.client.connected ≡ false) × StopsAtLast on_response before fs)

module _ (o : RpcCallOptions) (on_response : Callback) (sent : List ℕ) where
  loop_stops :
      (rounds : FrameRounds) (more : List FrameRounds) (before : List Frame) (c : RpcClient)
      → ((f : Frame) → (read_frame o bad_length bad_frame rounds c.incoming).0 ≢ frame f)
      → let r = stream_loop o on_response (rounds ∷ more) sent before c in
        (r.delivered ≡ before) × (r.answer ≢ answered true)
  unfolding stream_loop
  loop_stops rounds more before c other =
      elim (FrameRead-cases (read_frame o bad_length bad_frame rounds c.incoming).0) [
        | inl (f, e) ↦ absurd (other f e)
        | inr (inl e) ↦ (ground (arith, e), λ h. ground (arith, e))
        | inr (inr (status, error, e)) ↦ (ground (arith, e), λ h. ground (arith, e))
      ]

  -- The client behind a frame.
  abbrev behind : FrameRounds → RpcClient → RpcClient
  behind rounds c = record c { incoming = (read_frame o bad_length bad_frame rounds c.incoming).1 }

  loop_frame :
      (rounds : FrameRounds) (more : List FrameRounds) (before : List Frame) (c : RpcClient)
      (f : Frame)
      → (read_frame o bad_length bad_frame rounds c.incoming).0 ≡ frame f
      → let r = stream_loop o on_response (rounds ∷ more) sent before c in
        ((wants_more on_response before f ≡ true)
          × (r ≡ stream_loop o on_response more sent (before ++ (f ∷ [])) (behind rounds c)))
        ⊎ ((wants_more on_response before f ≡ false)
            × (r.delivered ≡ before ++ (f ∷ []))
            × (r.client.connected ≡ false))
  unfolding stream_loop
  loop_frame rounds more before c f e = elim (Bool-cases (wants_more on_response before f)) [
    | inl go ↦ inl (go, ground (arith, e, go))
    | inr end ↦ inr (end, ground (arith, e, end), ground (arith, e, end))
  ]

  -- A loop adds frames of the peer, in their order, to those that it has delivered.
  pub stream_loop_lem :
      (turns : List FrameRounds) (before : List Frame) (c : RpcClient)
      → AreBytes c.incoming
      → Delivers on_response before c.incoming (stream_loop o on_response turns sent before c)
  unfolding stream_loop
  stream_loop_lem [] before c octets = ([], sym (append-nil before), tt, λ h. cc)
  stream_loop_lem (rounds ∷ more) before c octets =
      let read = (read_frame o bad_length bad_frame rounds c.incoming).0 in
      let r = stream_loop o on_response (rounds ∷ more) sent before c in
      let stopped : ((f : Frame) → read ≢ frame f) → Delivers on_response before c.incoming r =
        λ other.
          let (same, not_true) = loop_stops rounds more before c other in
          ([], same ∙ sym (append-nil before), tt, λ h. absurd (not_true h)) in
      elim (FrameRead-cases read) [
        | inl (f, e) ↦
            let (b, encoded, split, _) =
              read_frame_lem o bad_length bad_frame rounds c.incoming f octets e in
            let c' = behind rounds c in
            let rest =
              All-append_right (λ x. x < 256) b c'.incoming (subst AreBytes split octets) in
            let (fs, added, begins, ends) = stream_loop_lem more (before ++ (f ∷ [])) c' rest in
            elim (loop_frame rounds more before c f e) [
              | inl (go, same) ↦ (
                f ∷ fs,
                ap (λ x. x.delivered) same ∙ added ∙ append_assoc before (f ∷ []) fs,
                (b, c'.incoming, encoded, split, begins),
                λ h.
                    let (closed, stops) = ends (ap (λ x. x.answer) (sym same) ∙ h) in
                    (ap (λ x. x.client.connected) same ∙ closed, inr (go, stops)),
              )
              | inr (end, same, closed) ↦ (
                f ∷ [],
                same,
                (b, c'.incoming, encoded, split, tt),
                λ h. (closed, inl (end, refl)),
              )
            ]
        | inr (inl e) ↦ stopped (λ f h. cc)
        | inr (inr (status, error, e)) ↦ stopped (λ f h. cc)
      ]

  -- A loop that answers has closed its connection.
  pub stream_loop_closes :
      (turns : List FrameRounds) (before : List Frame) (c : RpcClient) (b : Bool)
      → (stream_loop o on_response turns sent before c).answer ≡ answered b
      → (stream_loop o on_response turns sent before c).client.connected ≡ false
  unfolding stream_loop
  stream_loop_closes [] before c b h = absurd (cc)
  stream_loop_closes (rounds ∷ more) before c b h =
      elim (FrameRead-cases (read_frame o bad_length bad_frame rounds c.incoming).0) [
        | inl (f, e) ↦
            ground (arith, e, stream_loop_closes more (before ++ (f ∷ [])) (behind rounds c) b)
        | inr (inl e) ↦ ground (arith, e)
        | inr (inr (status, error, e)) ↦ ground (arith, e)
      ]

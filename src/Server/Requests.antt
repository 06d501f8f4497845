-- ===== src/Server/Requests.antt =====
-- The requests of a connection are the frames of its bytes, however they arrive.
use coroutine_rpc_scheduler.Common.{
  All, All-append, List, Option-cases, String, [], arith, drop, inl, inr, length, refl, subst, suc,
  sym, zero, ℕ, ◌++◌, ◌+◌, ◌<◌, ◌∷◌, ◌≡◌, ◌≢◌, ◌⊎◌,
}
use coroutine_rpc_scheduler.Dispatcher.{ErrorCode}
use coroutine_rpc_scheduler.Metrics.{inc_malformed_frame, add_bytes_in}
use coroutine_rpc_scheduler.Protocol.{
  Frame, DecodeStatus, complete, incomplete, malformed, too_large, try_decode_frame,
}
use coroutine_rpc_scheduler.Protocol.RoundTrip.{AreBytes}
use coroutine_rpc_scheduler.Protocol.Stream.{
  Frames, no_frame, IsIncomplete, Frames-snoc, Frames-AreBytes, complete_frame, Frames-append,
}
use coroutine_rpc_scheduler.Server.{
  Connection, FrameTurn, Phase, serving, closed, suspended, send_response, encode_response,
  write_responses, rpc_result, handle_frame, drain, Read, stopping, not_ready, end_of_file, again,
  read_failed, arrived, on_read, client_handler, chunk_bytes,
}

pub Phase-cases : (p : Phase) → (p ≡ serving) ⊎ ((p ≡ closed) ⊎ (p ≡ suspended))
Phase-cases serving = inl refl
Phase-cases closed = inr (inl refl)
Phase-cases suspended = inr (inr refl)

pub DecodeStatus-cases :
    (s : DecodeStatus) → (s ≡ complete) ⊎ ((s ≡ incomplete) ⊎ ((s ≡ malformed) ⊎ (s ≡ too_large)))
DecodeStatus-cases complete = inl refl
DecodeStatus-cases incomplete = inr (inl refl)
DecodeStatus-cases malformed = inr (inr (inl refl))
DecodeStatus-cases too_large = inr (inr (inr refl))

-- What has been read is the requests, and what is left in the buffer.
pub record IsFed (c : Connection) : Type 0 where
  pub octets : AreBytes c.received
  pub fed : Frames c.received c.requests c.read_buffer

-- Two states of a connection that agree on what was read and dispatched.
abbrev pub SameInput : Connection → Connection → Type 0
SameInput c d =
    (c.received ≡ d.received) × (c.requests ≡ d.requests) × (c.read_buffer ≡ d.read_buffer)

module _ (error_payload : ErrorCode → String → List ℕ) where
  pub write_responses-SameInput :
      (turn : FrameTurn) (i : ℕ) (rs : List Frame) (c : Connection)
      → SameInput (write_responses error_payload turn i rs c) c
  unfolding write_responses
  write_responses-SameInput turn i [] c = (refl, refl, refl)
  write_responses-SameInput turn i (r ∷ rs) c =
      elim (Option-cases (encode_response error_payload r)) [
        | inl e ↦ ground (arith, e)
        | inr (b, e) ↦
            let w = send_response b 0 (turn.sends i) c.metrics in
            let c' = record c {
              phase = w.phase;
              metrics = w.metrics;
              written = c.written ++ w.octets;
            } in
            let more = write_responses-SameInput turn (i + 1) rs c' in
            elim (Phase-cases w.phase) [
              | inl p ↦ ground (arith, e, p, more)
              | inr (inl p) ↦ ground (arith, e, p)
              | inr (inr p) ↦ ground (arith, e, p)
            ]
      ]

  module _ (turn : List Frame → Frame → FrameTurn) where
    -- The state of the inner loop behind a complete frame.
    abbrev pub taken : Connection → Connection
    taken c =
        let d = try_decode_frame c.read_buffer no_frame in
        handle_frame error_payload turn d.frame
          (record c { read_buffer = drop d.frame_size c.read_buffer })

    pub taken_input :
        (c : Connection)
        → let d = try_decode_frame c.read_buffer no_frame in
          SameInput (taken c) (record c {
            read_buffer = drop d.frame_size c.read_buffer;
            requests = c.requests ++ (d.frame ∷ []);
          })
    unfolding handle_frame
    taken_input c =
        let d = try_decode_frame c.read_buffer no_frame in
        let t = turn c.requests d.frame in
        write_responses-SameInput t 0 (rpc_result error_payload t.fate) (record c {
          read_buffer = drop d.frame_size c.read_buffer;
          requests = c.requests ++ (d.frame ∷ []);
        })

    taken-IsFed :
        (c : Connection)
        → IsFed c
        → (try_decode_frame c.read_buffer no_frame).status ≡ complete
        → IsFed (taken c) × (length (taken c).read_buffer < length c.read_buffer)
    taken-IsFed c v e =
        let d = try_decode_frame c.read_buffer no_frame in
        let bytes = Frames-AreBytes c.received c.requests c.read_buffer v.fed v.octets in
        let (b, encoded, split, u, shorter) = complete_frame c.read_buffer bytes e in
        let (same, more, left) = taken_input c in
        let fed = subst (Frames c.received c.requests) split v.fed in
        let fed' =
          Frames-snoc c.received c.requests d.frame b (drop d.frame_size c.read_buffer) fed encoded
            u in
        (
          record {
            octets = subst AreBytes (sym same) v.octets;
            fed =
                subst (λ x. Frames x (taken c).requests (taken c).read_buffer) (sym same)
                  (subst (λ x. Frames c.received x (taken c).read_buffer) (sym more)
                    (subst (Frames c.received _) (sym left) fed'));
          },
          subst (λ x. length x < length c.read_buffer) (sym left) shorter,
        )

    -- What the inner loop leaves: a connection that is fed, and with no whole frame in its buffer
    -- while it goes on.
    abbrev pub IsDrained : Connection → Type 0
    IsDrained c = IsFed c × (c.phase ≡ serving → IsIncomplete c.read_buffer)

    abbrev pub rejected : Connection → Connection
    rejected c = record c { phase = closed; metrics = inc_malformed_frame c.metrics }

    -- The ways through one turn of the inner loop.
    pub drain_cases :
        (fuel : ℕ) (c : Connection)
        → let r = drain error_payload turn (suc fuel) c in
          let status = (try_decode_frame c.read_buffer no_frame).status in
          ((status ≡ incomplete) × (r ≡ c))
          ⊎ ((r ≡ rejected c)
              ⊎ ((status ≡ complete)
                  × (((r ≡ taken c) × ((taken c).phase ≢ serving))
                      ⊎ ((r ≡ drain error_payload turn fuel (taken c))
                          × ((taken c).phase ≡ serving)))))
    unfolding drain
    drain_cases fuel c =
        elim (DecodeStatus-cases (try_decode_frame c.read_buffer no_frame).status) [
          | inl e ↦ elim (Phase-cases (taken c).phase) [
            | inl p ↦ inr (inr (e, inr (ground (arith, e, p), p)))
            | inr (inl p) ↦ inr (inr (e, inl (ground (arith, e, p), λ q. ground (arith, p, q))))
            | inr (inr p) ↦ inr (inr (e, inl (ground (arith, e, p), λ q. ground (arith, p, q))))
          ]
          | inr (inl e) ↦ inl (e, ground (arith, e))
          | inr (inr (inl e)) ↦ inr (inl (ground (arith, e)))
          | inr (inr (inr e)) ↦ inr (inl (ground (arith, e)))
        ]

    drain-IsDrained :
        (fuel : ℕ) (c : Connection)
        → IsFed c
        → length c.read_buffer < fuel
        → IsDrained (drain error_payload turn fuel c)
    drain-IsDrained zero c v h = elim h [ ]
    drain-IsDrained (suc fuel) c v h = elim (drain_cases fuel c) [
      | inl (e, same) ↦ subst IsDrained (sym same) (v, λ p. e)
      | inr (inl same) ↦
          subst IsDrained (sym same) (record { octets = v.octets; fed = v.fed }, λ p. absurd (cc))
      | inr (inr (e, inl (same, out))) ↦
          subst IsDrained (sym same) ((taken-IsFed c v e).0, λ p. absurd (out p))
      | inr (inr (e, inr (same, p))) ↦
          let (v', shorter) = taken-IsFed c v e in
          subst IsDrained (sym same) (drain-IsDrained fuel (taken c) v' (omega arith))
    ]

    on_read-IsDrained :
        (r : Read) (c : Connection)
        → IsDrained c
        → AreBytes (chunk_bytes r)
        → IsDrained (on_read error_payload turn r c)
    unfolding on_read
    on_read-IsDrained stopping c (v, w) a =
        (record { octets = v.octets; fed = v.fed }, λ p. absurd (cc))
    on_read-IsDrained not_ready c (v, w) a =
        (record { octets = v.octets; fed = v.fed }, λ p. absurd (cc))
    on_read-IsDrained end_of_file c (v, w) a =
        (record { octets = v.octets; fed = v.fed }, λ p. absurd (cc))
    on_read-IsDrained read_failed c (v, w) a =
        (record { octets = v.octets; fed = v.fed }, λ p. absurd (cc))
    on_read-IsDrained again c h a = h
    on_read-IsDrained (arrived chunk) c (v, w) a =
        let c' = record c {
          read_buffer = c.read_buffer ++ chunk;
          metrics = add_bytes_in (length chunk) c.metrics;
          received = c.received ++ chunk;
        } in
        drain-IsDrained (suc (length c'.read_buffer)) c'
          (record {
            octets = All-append (λ x. x < 256) c.received chunk v.octets a;
            fed = Frames-append c.received chunk c.requests c.read_buffer v.fed;
          })
          (omega arith)

    -- One turn of the outer loop.
    pub client_handler_cases :
        (r : Read) (rs : List Read) (c : Connection)
        → let d = client_handler error_payload turn (r ∷ rs) c in
          ((c.phase ≡ serving)
            × (d ≡ client_handler error_payload turn rs (on_read error_payload turn r c)))
          ⊎ ((c.phase ≢ serving) × (d ≡ c))
    unfolding client_handler
    client_handler_cases r rs c = elim (Phase-cases c.phase) [
      | inl p ↦ inl (p, ground (arith, p))
      | inr (inl p) ↦ inr (λ q. ground (arith, p, q), ground (arith, p))
      | inr (inr p) ↦ inr (λ q. ground (arith, p, q), ground (arith, p))
    ]

    pub client_handler-IsDrained :
        (rs : List Read) (c : Connection)
        → IsDrained c
        → All (λ r. AreBytes (chunk_bytes r)) rs
        → IsDrained (client_handler error_payload turn rs c)
    unfolding client_handler
    client_handler-IsDrained [] c h a = h
    client_handler-IsDrained (r ∷ rs) c h (a, b) = elim (client_handler_cases r rs c) [
      | inl (p, same) ↦ subst IsDrained (sym same) (
          client_handler-IsDrained rs (on_read error_payload turn r c) (on_read-IsDrained r c h a)
            b)
      | inr (out, same) ↦ subst IsDrained (sym same) h
    ]

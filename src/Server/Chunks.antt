-- ===== src/Server/Chunks.antt =====
-- How the bytes of a connection are cut into reads makes no difference to its requests.
use coroutine_rpc_scheduler.Common.{
  All, List, String, [], ap, append-nil, append_assoc, arith, inl, inr, length, refl, subst, suc,
  sym, zero, ℕ, ◌++◌, ◌+◌, ◌<◌, ◌∙◌, ◌∷◌, ◌≡◌,
}
use coroutine_rpc_scheduler.Dispatcher.{ErrorCode}
use coroutine_rpc_scheduler.Metrics.{add_bytes_in, Metrics}
use coroutine_rpc_scheduler.Protocol.{Frame, max_frame_size, try_decode_frame}
use coroutine_rpc_scheduler.Protocol.RoundTrip.{AreBytes}
use coroutine_rpc_scheduler.Protocol.Stream.{Frames, IsIncomplete, Frames-unique}
use coroutine_rpc_scheduler.Server.{
  Connection, FrameTurn, serving, Read, stopping, not_ready, end_of_file, again, read_failed,
  arrived, drain, on_read, client_handler, new_connection, chunk_bytes,
}
use coroutine_rpc_scheduler.Server.Requests.{
  taken, taken_input, drain_cases, client_handler-IsDrained, client_handler_cases,
}

-- All that a list of reads brings.
abbrev pub read_bytes : List Read → List ℕ
read_bytes [] = []
read_bytes (r ∷ rs) = chunk_bytes r ++ read_bytes rs

pub IsIncomplete-nil : IsIncomplete []
unfolding try_decode_frame
IsIncomplete-nil = refl

incomplete_short : (octets : List ℕ) → IsIncomplete octets → length octets < 4 + max_frame_size
unfolding try_decode_frame
incomplete_short octets h = ground arith

module _ (error_payload : ErrorCode → String → List ℕ) (turn : List Frame → Frame → FrameTurn) where
  drain_received :
      (fuel : ℕ) (c : Connection) → (drain error_payload turn fuel c).received ≡ c.received
  unfolding drain
  drain_received zero c = refl
  drain_received (suc fuel) c = elim (drain_cases error_payload turn fuel c) [
    | inl (e, same) ↦ ap (λ x. x.received) same
    | inr (inl same) ↦ ap (λ x. x.received) same
    | inr (inr (e, inl (same, out))) ↦
        ap (λ x. x.received) same ∙ (taken_input error_payload turn c).0
    | inr (inr (e, inr (same, p))) ↦
        ap (λ x. x.received) same
        ∙ drain_received fuel (taken error_payload turn c)
        ∙ (taken_input error_payload turn c).0
  ]

  on_read_received :
      (r : Read) (c : Connection)
      → (on_read error_payload turn r c).phase ≡ serving
      → (on_read error_payload turn r c).received ≡ c.received ++ chunk_bytes r
  unfolding on_read
  on_read_received stopping c p = absurd (cc)
  on_read_received not_ready c p = absurd (cc)
  on_read_received end_of_file c p = absurd (cc)
  on_read_received read_failed c p = absurd (cc)
  on_read_received again c p = sym (append-nil c.received)
  on_read_received (arrived chunk) c p =
      drain_received (suc (length (c.read_buffer ++ chunk))) (record c {
        read_buffer = c.read_buffer ++ chunk;
        metrics = add_bytes_in (length chunk) c.metrics;
        received = c.received ++ chunk;
      })

  serving_before :
      (rs : List Read) (c : Connection)
      → (client_handler error_payload turn rs c).phase ≡ serving
      → c.phase ≡ serving
  unfolding client_handler
  serving_before [] c p = p
  serving_before (r ∷ rs) c p = elim (client_handler_cases error_payload turn r rs c) [
    | inl (now, same) ↦ now
    | inr (out, same) ↦ absurd (out (ap (λ x. x.phase) (sym same) ∙ p))
  ]

  client_handler_received :
      (rs : List Read) (c : Connection)
      → (client_handler error_payload turn rs c).phase ≡ serving
      → (client_handler error_payload turn rs c).received ≡ c.received ++ read_bytes rs
  unfolding client_handler
  client_handler_received [] c p = sym (append-nil c.received)
  client_handler_received (r ∷ rs) c p = elim (client_handler_cases error_payload turn r rs c) [
    | inl (now, same) ↦
        let c' = on_read error_payload turn r c in
        let p' = ap (λ x. x.phase) (sym same) ∙ p in
        ap (λ x. x.received) same
        ∙ client_handler_received rs c' p'
        ∙ ap (λ x. x ++ read_bytes rs) (on_read_received r c (serving_before rs c' p'))
        ∙ append_assoc c.received (chunk_bytes r) (read_bytes rs)
    | inr (out, same) ↦ absurd (out (ap (λ x. x.phase) (sym same) ∙ p))
  ]

  -- The requests of a connection are the frames of the bytes that it has read, in order; while it
  -- is served, what is left is no whole frame, so that it stays within the largest frame, and with
  -- the next chunk within 4 KB more.
  pub client_handler_requests :
      (m : Metrics) (rs : List Read)
      → All (λ r. AreBytes (chunk_bytes r)) rs
      → let c = client_handler error_payload turn rs (new_connection m) in
        Frames c.received c.requests c.read_buffer
        × (c.phase ≡ serving
            → (c.received ≡ read_bytes rs)
              × IsIncomplete c.read_buffer
              × (length c.read_buffer < 4 + max_frame_size))
  client_handler_requests m rs a =
      let c = client_handler error_payload turn rs (new_connection m) in
      let (v, w) =
        client_handler-IsDrained error_payload turn rs (new_connection m)
          (record { octets = tt; fed = refl }, λ p. IsIncomplete-nil) a in
      (
        v.fed,
        λ p. (
          client_handler_received rs (new_connection m) p,
          w p,
          incomplete_short c.read_buffer (w p),
        ),
      )

-- However the same bytes are cut into reads, whatever the dispatcher, the pool and the sockets
-- answer, and whatever else the loops meet: two connections that are still served dispatch the same
-- requests in the same order, and keep the same rest.
pub client_handler_chunks :
    (error_payload : ErrorCode → String → List ℕ) (turn turn' : List Frame → Frame → FrameTurn)
    (m m' : Metrics) (rs rs' : List Read)
    → All (λ r. AreBytes (chunk_bytes r)) rs
    → All (λ r. AreBytes (chunk_bytes r)) rs'
    → read_bytes rs ≡ read_bytes rs'
    → let c = client_handler error_payload turn rs (new_connection m) in
      let c' = client_handler error_payload turn' rs' (new_connection m') in
      c.phase ≡ serving
      → c'.phase ≡ serving
      → (c.requests ≡ c'.requests) × (c.read_buffer ≡ c'.read_buffer)
client_handler_chunks error_payload turn turn' m m' rs rs' a a' e p p' =
    let c = client_handler error_payload turn rs (new_connection m) in
    let c' = client_handler error_payload turn' rs' (new_connection m') in
    let (fed, more) = client_handler_requests error_payload turn m rs a in
    let (all, whole, _) = more p in
    let (fed', more') = client_handler_requests error_payload turn' m' rs' a' in
    let (all', whole', _) = more' p' in
    let same : c'.received ≡ c.received = all' ∙ sym e ∙ sym all in
    Frames-unique c.received c.requests c'.requests c.read_buffer c'.read_buffer fed whole
      (subst (λ x. Frames x c'.requests c'.read_buffer) same fed') whole'

-- ===== src/Server/Replies.antt =====
-- What a connection writes is the encoded responses to its requests, in order.
use coroutine_rpc_scheduler.Common.{
  List, String, [], ap, append-nil, append_assoc, drop, inl, inr, length, refl, subst, suc, sym,
  zero, ℕ, ◌++◌, ◌∙◌, ◌∷◌, ◌≡◌,
}
use coroutine_rpc_scheduler.Dispatcher.{ErrorCode}
use coroutine_rpc_scheduler.Metrics.{Metrics, add_bytes_in}
use coroutine_rpc_scheduler.Protocol.{Frame, try_decode_frame}
use coroutine_rpc_scheduler.Protocol.Stream.{no_frame}
use coroutine_rpc_scheduler.Server.{
  Connection, FrameTurn, serving, rpc_result, handle_frame, drain, new_connection, Read, stopping,
  not_ready, end_of_file, again, read_failed, arrived, on_read, client_handler,
}
use coroutine_rpc_scheduler.Server.Responses.{Writes, encoded_all, write_responses-Writes}
use coroutine_rpc_scheduler.Server.Requests.{taken, drain_cases, taken_input, client_handler_cases}

module _ (error_payload : ErrorCode → String → List ℕ) (turn : List Frame → Frame → FrameTurn) where
  -- The replies to requests, each in the environment that the requests before it lead to.
  unfoldable pub replies : List Frame → List Frame → List ℕ
  replies before [] = []
  replies before (f ∷ fs) =
      encoded_all error_payload (rpc_result error_payload (turn before f).fate)
      ++ replies (before ++ (f ∷ [])) fs

  replies-snoc :
      (before fs : List Frame) (f : Frame)
      → replies before (fs ++ (f ∷ []))
        ≡ replies before fs
          ++ encoded_all error_payload (rpc_result error_payload (turn (before ++ fs) f).fate)
  unfolding replies
  replies-snoc before [] f =
      append-nil _
      ∙ ap (λ x. encoded_all error_payload (rpc_result error_payload (turn x f).fate))
          (sym (append-nil before))
  replies-snoc before (g ∷ fs) f =
      let e = encoded_all error_payload (rpc_result error_payload (turn before g).fate) in
      let d =
        λ (x : List Frame). encoded_all error_payload (rpc_result error_payload (turn x f).fate) in
      ap (◌++◌ e) (replies-snoc (before ++ (g ∷ [])) fs f)
      ∙ sym (append_assoc e (replies (before ++ (g ∷ [])) fs) (d ((before ++ (g ∷ [])) ++ fs)))
      ∙ ap (λ x. (e ++ replies (before ++ (g ∷ [])) fs) ++ d x) (append_assoc before (g ∷ []) fs)

  -- Whatever is written replies to the requests, and to all of them while the connection serves.
  abbrev pub IsAnswered : Connection → Type 0
  IsAnswered c = Writes (replies [] c.requests) c

  taken-IsAnswered :
      (c : Connection) → c.phase ≡ serving → IsAnswered c → IsAnswered (taken error_payload turn c)
  unfolding handle_frame
  taken-IsAnswered c p (rest, split, all) =
      let d = try_decode_frame c.read_buffer no_frame in
      let t = turn c.requests d.frame in
      let rs = rpc_result error_payload t.fate in
      let c' = record c {
        read_buffer = drop d.frame_size c.read_buffer;
        requests = c.requests ++ (d.frame ∷ []);
      } in
      let (_, requests, _) = taken_input error_payload turn c in
      let so_far : c.written ≡ replies [] c.requests =
        sym (append-nil c.written) ∙ ap (◌++◌ c.written) (sym (all p)) ∙ split in
      let reply : c.written ++ encoded_all error_payload rs
          ≡ replies [] (taken error_payload turn c).requests =
        ap (λ x. x ++ encoded_all error_payload rs) so_far
        ∙ sym (replies-snoc [] c.requests d.frame)
        ∙ ap (replies []) (sym requests) in
      subst (λ x. Writes x (taken error_payload turn c)) reply
        (write_responses-Writes error_payload t 0 rs c' p)

  drain-IsAnswered :
      (fuel : ℕ) (c : Connection)
      → c.phase ≡ serving
      → IsAnswered c
      → IsAnswered (drain error_payload turn fuel c)
  unfolding drain
  drain-IsAnswered zero c p h = h
  drain-IsAnswered (suc fuel) c p h = elim (drain_cases error_payload turn fuel c) [
    | inl (e, same) ↦ subst IsAnswered (sym same) h
    | inr (inl same) ↦ subst IsAnswered (sym same) (h.0, h.1, λ q. absurd (cc))
    | inr (inr (e, inl (same, out))) ↦ subst IsAnswered (sym same) (taken-IsAnswered c p h)
    | inr (inr (e, inr (same, now))) ↦
        subst IsAnswered (sym same)
          (drain-IsAnswered fuel (taken error_payload turn c) now (taken-IsAnswered c p h))
  ]

  on_read-IsAnswered :
      (r : Read) (c : Connection)
      → c.phase ≡ serving
      → IsAnswered c
      → IsAnswered (on_read error_payload turn r c)
  unfolding on_read
  on_read-IsAnswered stopping c p h = (h.0, h.1, λ q. absurd (cc))
  on_read-IsAnswered not_ready c p h = (h.0, h.1, λ q. absurd (cc))
  on_read-IsAnswered end_of_file c p h = (h.0, h.1, λ q. absurd (cc))
  on_read-IsAnswered read_failed c p h = (h.0, h.1, λ q. absurd (cc))
  on_read-IsAnswered again c p h = h
  on_read-IsAnswered (arrived chunk) c p h =
      drain-IsAnswered (suc (length (c.read_buffer ++ chunk)))
        (record c {
          read_buffer = c.read_buffer ++ chunk;
          metrics = add_bytes_in (length chunk) c.metrics;
          received = c.received ++ chunk;
        })
        p h

  client_handler-IsAnswered :
      (rs : List Read) (c : Connection)
      → IsAnswered c
      → IsAnswered (client_handler error_payload turn rs c)
  unfolding client_handler
  client_handler-IsAnswered [] c h = h
  client_handler-IsAnswered (r ∷ rs) c h = elim (client_handler_cases error_payload turn r rs c) [
    | inl (p, same) ↦
        subst IsAnswered (sym same) (
          client_handler-IsAnswered rs (on_read error_payload turn r c)
            (on_read-IsAnswered r c p h))
    | inr (out, same) ↦ subst IsAnswered (sym same) h
  ]

  -- A connection writes the encoded responses to its requests, in the order of the requests and
  -- each whole before the next; whenever it closes or waits, what it has written is a beginning of
  -- that, and while it is served, all of it.
  pub client_handler_replies :
      (m : Metrics) (rs : List Read)
      → let c = client_handler error_payload turn rs (new_connection m) in
        (rest : List ℕ) × (c.written ++ rest ≡ replies [] c.requests)
        × (c.phase ≡ serving → rest ≡ [])
  unfolding replies
  client_handler_replies m rs =
      client_handler-IsAnswered rs (new_connection m) ([], refl, λ p. refl)

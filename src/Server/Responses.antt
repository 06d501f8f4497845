-- ===== src/Server/Responses.antt =====
-- What write_responses writes: the encoded responses, up to where it closes or waits.
use coroutine_rpc_scheduler.Common.{
  Bool-cases, List, Option-cases, String, [], ap, append-nil, append_assoc, arith, drop, drop-add,
  drop_of_le, inl, inr, length, ltb, min, none, refl, some, subst, sym, take, take-append-drop, ℕ,
  ◌++◌, ◌+◌, ◌-◌, ◌∙◌, ◌∷◌, ◌≡◌, ◌≢◌, ◌⊎◌,
}
use coroutine_rpc_scheduler.Dispatcher.{ErrorCode}
use coroutine_rpc_scheduler.Metrics.{Metrics, add_bytes_out}
use coroutine_rpc_scheduler.Protocol.{Frame, try_encode}
use coroutine_rpc_scheduler.Server.{
  Connection, Sent, took, would_block, retry, failed, FrameTurn, serving, closed, Written,
  send_response, encode_response, write_responses,
}
use coroutine_rpc_scheduler.Server.Requests.{Phase-cases}

-- What was sent is `unsent` up to a rest, which is empty while the connection is served.
abbrev Sends : List ℕ → Written → Type 0
Sends unsent w = (rest : List ℕ) × (w.octets ++ rest ≡ unsent) × (w.phase ≡ serving → rest ≡ [])

-- The octets that send takes are those of the response from the offset on.
send_response_lem :
    (response : List ℕ) (sent : ℕ) (answers : List Sent) (m : Metrics)
    → Sends (drop sent response) (send_response response sent answers m)
unfolding send_response
send_response_lem response sent [] m =
    (drop sent response, refl, λ p. drop_of_le sent response (ground (arith, p)))
send_response_lem response sent (took k ∷ answers) m =
    let unsent = drop sent response in
    let n = min k (length response - sent) in
    let (rest, eq, all) = send_response_lem response (sent + n) answers (add_bytes_out n m) in
    elim (Bool-cases (ltb sent (length response))) [
      | inr e ↦ rw e (drop sent response, refl, λ p. drop_of_le sent response (ground (arith, e)))
      | inl e ↦ elim (Bool-cases (ltb 0 n)) [
        | inl f ↦ rw e (
            rw f (
              rest,
              append_assoc (take n unsent) _ rest
                  ∙ ap (◌++◌ (take n unsent)) (eq ∙ drop-add sent n response)
                  ∙ take-append-drop n unsent,
              all,
            ))
        | inr f ↦ rw e (rw f (unsent, refl, λ p. absurd (ground (arith, p))))
      ]
    ]
send_response_lem response sent (would_block ready ∷ answers) m =
    elim (Bool-cases (ltb sent (length response))) [
      | inr e ↦ rw e (drop sent response, refl, λ p. drop_of_le sent response (ground (arith, e)))
      | inl e ↦ elim (Bool-cases ready) [
        | inl f ↦ rw e (rw f (send_response_lem response sent answers m))
        | inr f ↦ rw e (rw f (drop sent response, refl, λ p. absurd (ground (arith, p))))
      ]
    ]
send_response_lem response sent (retry ∷ answers) m =
    elim (Bool-cases (ltb sent (length response))) [
      | inr e ↦ rw e (drop sent response, refl, λ p. drop_of_le sent response (ground (arith, e)))
      | inl e ↦ rw e (send_response_lem response sent answers m)
    ]
send_response_lem response sent (failed ∷ answers) m =
    elim (Bool-cases (ltb sent (length response))) [
      | inr e ↦ rw e (drop sent response, refl, λ p. drop_of_le sent response (ground (arith, e)))
      | inl e ↦ rw e (drop sent response, refl, λ p. absurd (ground (arith, p)))
    ]

-- What a connection has written is `reply` up to a rest, which is empty while it is served.
abbrev pub Writes : List ℕ → Connection → Type 0
Writes reply c = (rest : List ℕ) × (c.written ++ rest ≡ reply) × (c.phase ≡ serving → rest ≡ [])

module _ (error_payload : ErrorCode → String → List ℕ) where
  -- The bytes of a response, and of a list of them.
  unfoldable pub encoded : Frame → List ℕ
  encoded r = elim (encode_response error_payload r) [ none ↦ [] | some b ↦ b ]

  unfoldable pub encoded_all : List Frame → List ℕ
  encoded_all [] = []
  encoded_all (r ∷ rs) = encoded r ++ encoded_all rs

  pub encoded_of_fit :
      (r : Frame) (b : List ℕ) → try_encode r.serial_id r.payload ≡ some b → encoded r ≡ b
  unfolding encoded encode_response
  encoded_of_fit r b e = ground (arith, e)

  write_step :
      (turn : FrameTurn) (i : ℕ) (r : Frame) (rs : List Frame) (c : Connection)
      → let x = write_responses error_payload turn i (r ∷ rs) c in
        ((x ≡ record c { phase = closed }) × (encoded r ≡ []))
        ⊎ ((w : Written) × (c' : Connection) × (c'
              ≡ record c { phase = w.phase; metrics = w.metrics; written = c.written ++ w.octets })
            × ((left : List ℕ) × (w.octets ++ left ≡ encoded r) × (w.phase ≡ serving → left ≡ []))
            × (((x ≡ c') × (w.phase ≢ serving))
                ⊎ ((x ≡ write_responses error_payload turn (i + 1) rs c') × (w.phase ≡ serving))))
  unfolding write_responses encoded
  write_step turn i r rs c = elim (Option-cases (encode_response error_payload r)) [
    | inl e ↦ inl (ground (arith, e), ground (arith, e))
    | inr (b, e) ↦
        let w = send_response b 0 (turn.sends i) c.metrics in
        let (left, eq, all) = send_response_lem b 0 (turn.sends i) c.metrics in
        let c' = record c {
          phase = w.phase;
          metrics = w.metrics;
          written = c.written ++ w.octets;
        } in
        inr (
          w,
          c',
          ground (arith, e),
          (left, ground (arith, e, eq), all),
          elim (Phase-cases w.phase) [
            | inl p ↦ inr (ground (arith, e, p), p)
            | inr (inl p) ↦ inl (ground (arith, e, p), λ q. ground (arith, p, q))
            | inr (inr p) ↦ inl (ground (arith, e, p), λ q. ground (arith, p, q))
          ],
        )
  ]

  pub write_responses-Writes :
      (turn : FrameTurn) (i : ℕ) (rs : List Frame) (c : Connection)
      → c.phase ≡ serving
      → Writes (c.written ++ encoded_all rs) (write_responses error_payload turn i rs c)
  unfolding write_responses encoded_all
  write_responses-Writes turn i [] c p = ([], refl, λ q. refl)
  write_responses-Writes turn i (r ∷ rs) c p = elim (write_step turn i r rs c) [
    | inl (same, e) ↦
        subst (Writes (c.written ++ (encoded r ++ encoded_all rs))) (sym same)
          (encoded_all rs, rw e refl, λ q. absurd (cc))
    | inr (w, c', state, (left, sent, all), next) ↦
        let b = encoded r in
        let written : c'.written ≡ c.written ++ w.octets = ap (λ x. x.written) state in
        let phase : c'.phase ≡ w.phase = ap (λ x. x.phase) state in
        elim next [
          | inl (same, out) ↦ subst (Writes (c.written ++ (b ++ encoded_all rs))) (sym same) (
            left ++ encoded_all rs,
            ap (λ x. x ++ (left ++ encoded_all rs)) written
                ∙ append_assoc c.written w.octets (left ++ encoded_all rs)
                ∙ ap (◌++◌ c.written) (
                    sym (append_assoc w.octets left (encoded_all rs))
                    ∙ ap (λ x. x ++ encoded_all rs) sent),
            λ q. absurd (out (sym phase ∙ q)),
          )
          | inr (same, now) ↦
              let whole : c'.written ≡ c.written ++ b =
                written
                ∙ ap (◌++◌ c.written)
                    (sym (append-nil w.octets) ∙ ap (◌++◌ w.octets) (sym (all now)) ∙ sent) in
              let reply : c'.written ++ encoded_all rs ≡ c.written ++ (b ++ encoded_all rs) =
                ap (λ x. x ++ encoded_all rs) whole ∙ append_assoc c.written b (encoded_all rs) in
              subst (Writes (c.written ++ (b ++ encoded_all rs))) (sym same) (
                subst (λ x. Writes x (write_responses error_payload turn (i + 1) rs c')) reply
                  (write_responses-Writes turn (i + 1) rs c' (phase ∙ now)))
        ]
  ]

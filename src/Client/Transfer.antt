-- ===== src/Client/Transfer.antt =====
-- What sendAll and recvExact have moved when they are done.
use coroutine_rpc_scheduler.Common.{
  Bool, List, [], ap, append_assoc, arith, drop, inl, inr, length, length-append, length-take, min,
  refl, suc, take, zero, ℕ, ◌++◌, ◌+◌, ◌-◌, ◌∙◌, ◌∷◌, ◌≡◌, ◌≢◌, ◌≤◌, ◌⊎◌,
}
use coroutine_rpc_scheduler.Client.{
  RpcCallOptions, again, TransferRound, Ended, done, Progress, moved, again, stop, one_round,
  send_all, Receiving, recv_exact, ok, Look, gave_up, wait_for_event, terminal_status, gave_up,
  RpcCallStatus, running,
}

Progress-cases :
    (p : Progress) → ((k : ℕ) × (p ≡ moved k)) ⊎ ((p ≡ again) ⊎ ((e : Ended) × (p ≡ stop e)))
Progress-cases (moved k) = inl (k, refl)
Progress-cases again = inr (inl refl)
Progress-cases (stop e) = inr (inr (e, refl))

pub Ended-cases :
    (e : Ended)
    → (e ≡ done) ⊎ ((e ≡ running) ⊎ ((status : RpcCallStatus) × (e ≡ Ended.gave_up status)))
Ended-cases done = inl refl
Ended-cases running = inr (inl refl)
Ended-cases (gave_up status) = inr (inr (status, refl))

-- A round never ends a loop by itself with success.
one_round-ne-done : (o : RpcCallOptions) (r : TransferRound) → one_round o r ≢ stop done
unfolding one_round
one_round-ne-done o r = ground arith

drop-length-take {ℓ} :
    {A : Type ℓ} (n : ℕ) (xs : List A) → take n xs ++ drop (length (take n xs)) xs ≡ xs
drop-length-take zero xs = refl
drop-length-take (suc n) [] = refl
drop-length-take (suc n) (x ∷ xs) = ap (◌∷◌ x) (drop-length-take n xs)

-- A receive takes the bytes of the peer in their order, and exactly `size` of them when it is done.
abbrev TakesBytes : ℕ → List ℕ → List ℕ → Receiving → Type 0
TakesBytes size received incoming r =
    (r.received ++ r.incoming ≡ received ++ incoming) × (r.ended ≡ done → length r.received ≡ size)

pub recv_exact_lem :
    (o : RpcCallOptions) (size : ℕ) (received : List ℕ) (rounds : List TransferRound)
    (incoming : List ℕ)
    → length received ≤ size
    → TakesBytes size received incoming (recv_exact o size received rounds incoming)
unfolding recv_exact
recv_exact_lem o size received [] incoming h = (refl, λ d. ground arith)
recv_exact_lem o size received (r ∷ rounds) incoming h = elim (Progress-cases (one_round o r)) [
  | inl (k, e) ↦
      let n = min k (size - length received) in
      let chunk = take n incoming in
      let (same, full) =
        recv_exact_lem o size (received ++ chunk) rounds (drop (length chunk) incoming)
          (omega (arith, length-append received chunk, length-take n incoming)) in
      let in_order =
        same
        ∙ append_assoc received chunk (drop (length chunk) incoming)
        ∙ ap (◌++◌ received) (drop-length-take n incoming) in
      rw e (ground arith, λ d. ground arith)
  | inr (inl e) ↦
      let (same, full) = recv_exact_lem o size received rounds incoming h in
      rw e (ground arith, λ d. ground arith)
  | inr (inr (end, e)) ↦
      let no = one_round-ne-done o r in rw e (ground arith, λ d. ground (arith, no))
]

pub send_all_lem :
    (o : RpcCallOptions) (size sent : ℕ) (rounds : List TransferRound)
    → sent ≤ size
    → let s = send_all o size sent rounds in (s.sent ≤ size) × (s.ended ≡ done → s.sent ≡ size)
unfolding send_all
send_all_lem o size sent [] h = (ground arith, λ d. ground arith)
send_all_lem o size sent (r ∷ rounds) h = elim (Progress-cases (one_round o r)) [
  | inl (k, e) ↦
      let (le, full) = send_all_lem o size (sent + min k (size - sent)) rounds (omega arith) in
      rw e (ground arith, λ d. ground arith)
  | inr (inl e) ↦
      let (le, full) = send_all_lem o size sent rounds h in rw e (ground arith, λ d. ground arith)
  | inr (inr (end, e)) ↦
      let no = one_round-ne-done o r in rw e (ground arith, λ d. ground (arith, no))
]

-- A loop that gives up has a status other than OK.
pub wait_for_event-ne-ok :
    (o : RpcCallOptions) (looks : List Look) → wait_for_event o looks ≢ gave_up ok
unfolding wait_for_event
wait_for_event-ne-ok o [] h = cc
wait_for_event-ne-ok o (look ∷ looks) h = ground (arith, wait_for_event-ne-ok o looks)

one_round-ne-ok : (o : RpcCallOptions) (r : TransferRound) → one_round o r ≢ stop (Ended.gave_up ok)
unfolding one_round terminal_status
one_round-ne-ok o r h = ground (arith, wait_for_event-ne-ok o r.looks)

terminal_status-ne-ok :
    (requested : Bool) (now : ℕ) (o : RpcCallOptions) → terminal_status requested now o ≢ ok
unfolding terminal_status
terminal_status-ne-ok requested now o h = ground arith

pub send_all-ne-ok :
    (o : RpcCallOptions) (size sent : ℕ) (rounds : List TransferRound)
    → (send_all o size sent rounds).ended ≢ Ended.gave_up ok
unfolding send_all
send_all-ne-ok o size sent [] h = ground arith
send_all-ne-ok o size sent (r ∷ rounds) h =
    let end = one_round-ne-ok o r in
    let terminal = terminal_status-ne-ok r.cancellation_requested r.now o in
    elim (Progress-cases (one_round o r)) [
      | inl (k, e) ↦
          let more = send_all-ne-ok o size (sent + min k (size - sent)) rounds in
          ground (arith, e, more, terminal)
      | inr (inl e) ↦ let more = send_all-ne-ok o size sent rounds in ground (arith, e, more)
      | inr (inr (_, e)) ↦ ground (arith, e, end)
    ]

pub recv_exact-ne-ok :
    (o : RpcCallOptions) (size : ℕ) (received : List ℕ) (rounds : List TransferRound)
    (incoming : List ℕ)
    → (recv_exact o size received rounds incoming).ended ≢ Ended.gave_up ok
unfolding recv_exact
recv_exact-ne-ok o size received [] incoming h = ground arith
recv_exact-ne-ok o size received (r ∷ rounds) incoming h =
    let end = one_round-ne-ok o r in
    let terminal = terminal_status-ne-ok r.cancellation_requested r.now o in
    elim (Progress-cases (one_round o r)) [
      | inl (k, e) ↦
          let chunk = take (min k (size - length received)) incoming in
          let more =
            recv_exact-ne-ok o size (received ++ chunk) rounds (drop (length chunk) incoming) in
          ground (arith, e, more, terminal)
      | inr (inl e) ↦
          let more = recv_exact-ne-ok o size received rounds incoming in ground (arith, e, more)
      | inr (inr (_, e)) ↦ ground (arith, e, end)
    ]

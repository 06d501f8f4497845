-- ===== src/Client/Deadline.antt =====
-- When waitForEvent and the loops on it give up.
use coroutine_rpc_scheduler.Common.{
  Bool, List, [], any, arith, false, inl, inr, leb, min, refl, true, ℕ, ◌*◌, ◌+◌, ◌-◌, ◌/◌, ◌<◌,
  ◌||◌, ◌∷◌, ◌≡◌, ◌≢◌, ◌≤◌, ◌⊎◌,
}
use coroutine_rpc_scheduler.Client.{
  RpcCallOptions, Look, wait_for_event, waiting, timed_out, poll_slice_ms, remaining_ms,
  has_deadline,
}

-- A poll that times out has taken its time, what is left of the deadline or a slice of it, and the
-- clock does not go back.
abbrev pub takes : RpcCallOptions → Look → ℕ
takes o a = elim a.polled [ timed_out ↦ min (remaining_ms a.now o) poll_slice_ms * 1000000 | _ ↦ 0 ]

abbrev pub TakesTime : RpcCallOptions → List Look → Type 0
TakesTime o [] = Unit {0}
TakesTime o (a ∷ []) = Unit {0}
TakesTime o (a ∷ b ∷ looks) = (a.now + takes o a ≤ b.now) × TakesTime o (b ∷ looks)

abbrev pub timeouts : List Look → ℕ
timeouts [] = 0
timeouts (a ∷ looks) = elim a.polled [ timed_out ↦ 1 | _ ↦ 0 ] + timeouts looks

abbrev left_ms : RpcCallOptions → ℕ → ℕ
left_ms o now = (o.deadline - now) / 1000000

wait_step :
    (o : RpcCallOptions) (a : Look) (looks : List Look)
    → has_deadline o ≡ true
    → wait_for_event o (a ∷ looks) ≡ waiting
    → (wait_for_event o looks ≡ waiting) × (0 < left_ms o a.now)
unfolding wait_for_event remaining_ms
wait_step o a looks h w = (ground arith, ground arith)

left_falls :
    (o : RpcCallOptions) (a : Look) (b : ℕ)
    → has_deadline o ≡ true
    → 0 < left_ms o a.now
    → a.now + takes o a ≤ b
    → left_ms o b + elim a.polled [ timed_out ↦ 1 | _ ↦ 0 ] ≤ left_ms o a.now
unfolding remaining_ms
left_falls o a b h pos le = ground arith

timeouts_end :
    (o : RpcCallOptions) (a : Look) (looks : List Look)
    → has_deadline o ≡ true
    → TakesTime o (a ∷ looks)
    → (o.deadline - a.now) / 1000000 < timeouts (a ∷ looks)
    → wait_for_event o (a ∷ looks) ≢ waiting
timeouts_end o a [] h t n w = let (_, pos) = wait_step o a [] h w in ground arith
timeouts_end o a (b ∷ looks) h t n w =
    let (w', pos) = wait_step o a (b ∷ looks) h w in
    timeouts_end o b looks h t.1 (omega (arith, left_falls o a b.now h pos t.0)) w'

-- The call is canceled, or its deadline has come.
abbrev pub is_over : RpcCallOptions → Look → Bool
is_over o a = a.cancellation_requested || leb o.deadline a.now

not_over :
    (o : RpcCallOptions) (a : Look) (looks : List Look)
    → has_deadline o ≡ true
    → wait_for_event o (a ∷ looks) ≡ waiting
    → is_over o a ≡ false
unfolding wait_for_event remaining_ms
not_over o a looks h w = ground arith

none_over :
    (o : RpcCallOptions) (looks : List Look)
    → has_deadline o ≡ true
    → wait_for_event o looks ≡ waiting
    → any (is_over o) looks ≡ false
none_over o [] h w = refl
none_over o (a ∷ looks) h w =
    let (w', _) = wait_step o a looks h w in
    ground (arith, not_over o a looks h w, none_over o looks h w')

-- The wait ends with its deadline, and with a cancellation: no round goes on once the clock has
-- reached the deadline or the token is canceled, whatever the polls have answered, also where each
-- of them is interrupted. And where the clock does not go back and a poll that times out has taken
-- its time, the wait does not go on past more such polls than there are milliseconds left at the
-- first.
pub wait_for_event_ends :
    (o : RpcCallOptions) (a : Look) (looks : List Look)
    → has_deadline o ≡ true
    → (any (is_over o) (a ∷ looks) ≡ true)
      ⊎ (TakesTime o (a ∷ looks) × ((o.deadline - a.now) / 1000000 < timeouts (a ∷ looks)))
    → wait_for_event o (a ∷ looks) ≢ waiting
wait_for_event_ends o a looks h (inl over) w = ground (arith, none_over o (a ∷ looks) h w, over)
wait_for_event_ends o a looks h (inr (t, n)) w = timeouts_end o a looks h t n w

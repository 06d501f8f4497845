-- ===== src/Pool/Breaker.antt =====
-- The circuit breaker of one endpoint, under any sequence of its operations by any threads.
use coroutine_rpc_scheduler.Common.{
  All, Bool, List, [], arith, dec_lt, false, leb, length, ltb, map, true, ℕ, ◌+◌, ◌<◌, ◌↔◌, ◌∷◌,
  ◌≡◌, ◌≤◌,
}
use coroutine_rpc_scheduler.Pool.{
  Options, closed, half_open, Client, EndpointState, reserve_half_open_probe, borrow, release,
  make_options, record_success, record_failure, opened, is_healthy_enough, finish_half_open_probe,
}

-- An operation, with the clock that it reads.
pub data Event : Type 0 where
  reserves : ℕ → Event
  succeeds : Event
  fails : ℕ → Event
  borrows : Client → Event
  releases : Client → Bool → Event

unfoldable pub step : Options → Event → EndpointState → EndpointState
unfolding record_success record_failure reserve_half_open_probe borrow release
step o (reserves now) st = (reserve_half_open_probe now st).1
step o succeeds st = record_success st
step o (fails now) st = record_failure o now st
step o (borrows fresh) st = (borrow fresh st).1
step o (releases client reusable) st = release o client reusable st

unfoldable pub run : Options → List Event → EndpointState → EndpointState
unfolding step
run o [] st = st
run o (e ∷ es) st = run o es (step o e st)

-- The circuit is closed below the threshold alone, a probe is in flight in the half-open state
-- alone, and no more clients are idle than the options allow.
pub record IsSound (o : Options) (st : EndpointState) : Type 0 where
  pub counts : (st.circuit_state ≡ closed) ↔ (st.consecutive_failures < o.failure_threshold)
  pub probing : (st.half_open_probe_in_flight ≡ true) ↔ (st.circuit_state ≡ half_open)
  pub idle : length st.idle_clients ≤ o.max_idle_per_endpoint

-- With the options of a pool, each operation keeps the state sound.
step-IsSound :
    (options : Options) (e : Event) (st : EndpointState)
    → IsSound (make_options options) st
    → IsSound (make_options options) (step (make_options options) e st)
unfolding step make_options
step-IsSound o (reserves now) st h = record {
  counts = (λ e. ground arith, λ e. ground arith);
  probing = (λ e. ground arith, λ e. ground arith);
  idle = ground arith;
}
step-IsSound o succeeds st h = record {
  counts = (λ e. ground arith, λ e. ground arith);
  probing = (λ e. ground arith, λ e. ground arith);
  idle = ground arith;
}
step-IsSound o (fails now) st h = record {
  counts = (λ e. ground arith, λ e. ground arith);
  probing = (λ e. ground arith, λ e. ground arith);
  idle = ground arith;
}
step-IsSound o (borrows fresh) st h = record {
  counts = (λ e. ground arith, λ e. ground arith);
  probing = (λ e. ground arith, λ e. ground arith);
  idle = ground arith;
}
step-IsSound o (releases c r) st h = record {
  counts = (λ e. ground arith, λ e. ground arith);
  probing = (λ e. ground arith, λ e. ground arith);
  idle = ground arith;
}

-- Whatever threads do to an endpoint, in any order and at any times: its circuit is closed exactly
-- while fewer calls in a row have failed than the threshold, a probe is in flight exactly in the
-- half-open state, and the idle clients stay within their limit.
pub run-IsSound :
    (options : Options) (es : List Event) (st : EndpointState)
    → IsSound (make_options options) st
    → IsSound (make_options options) (run (make_options options) es st)
unfolding run
run-IsSound o [] st h = h
run-IsSound o (e ∷ es) st h = run-IsSound o es (step (make_options o) e st) (step-IsSound o e st h)

fails-run :
    (o : Options) (ts : List ℕ) (st : EndpointState)
    → (run o (map fails ts) st).consecutive_failures ≡ st.consecutive_failures + length ts
unfolding run step record_failure
fails-run o [] st = omega arith
fails-run o (t ∷ ts) st = ground (arith, fails-run o ts (step o (fails t) st))

-- An endpoint is given up by the failure that makes the threshold full, and not by an earlier one:
-- after any number of failures, without a success between them, the circuit is closed exactly
-- while their count, with the failures before, is below the threshold.
pub fails-run_closed :
    (options : Options) (ts : List ℕ) (st : EndpointState)
    → IsSound (make_options options) st
    → ((run (make_options options) (map fails ts) st).circuit_state ≡ closed)
      ↔ (st.consecutive_failures + length ts < (make_options options).failure_threshold)
fails-run_closed o ts st h =
    let sound = run-IsSound o (map fails ts) st h in
    let n = fails-run (make_options o) ts st in
    (λ c. ground (arith, sound.counts.0 c, n), λ c. sound.counts.1 (ground (arith, n, c)))

-- The event records no result of a call or of a probe.
abbrev pub is_silent : Event → Bool
is_silent (reserves now) = true
is_silent succeeds = false
is_silent (fails now) = false
is_silent (borrows fresh) = true
is_silent (releases client reusable) = true

run-probing :
    (o : Options) (es : List Event) (st : EndpointState)
    → st.circuit_state ≡ half_open
    → All (λ e. is_silent e ≡ true) es
    → (run o es st).circuit_state ≡ half_open
unfolding run step borrow release reserve_half_open_probe
run-probing o [] st h q = h
run-probing o (reserves now ∷ es) st h q =
    run-probing o es (step o (reserves now) st) (ground arith) q.1
run-probing o (borrows c ∷ es) st h q = run-probing o es (step o (borrows c) st) (ground arith) q.1
run-probing o (releases c r ∷ es) st h q =
    run-probing o es (step o (releases c r) st) (ground arith) q.1
run-probing o (succeeds ∷ es) st h q = absurd (ground arith)
run-probing o (fails now ∷ es) st h q = absurd (ground arith)

-- One probe at a time: from the moment a thread has reserved the probe, until some result is
-- recorded for the endpoint, no other thread gets the probe and the endpoint is no candidate.
pub reserve_half_open_probe_exclusive :
    (o : Options) (now later : ℕ) (es : List Event) (st : EndpointState)
    → (reserve_half_open_probe now st).0 ≡ true
    → All (λ e. is_silent e ≡ true) es
    → let st' = run o es (reserve_half_open_probe now st).1 in
      ((reserve_half_open_probe later st').0 ≡ false) × (is_healthy_enough later st' ≡ false)
unfolding reserve_half_open_probe is_healthy_enough
reserve_half_open_probe_exclusive o now later es st h q =
    let kept = run-probing o es (reserve_half_open_probe now st).1 (ground arith) q in
    (ground (arith, kept), ground (arith, kept))

-- The event neither records a success, nor does it happen before `start` or, where it asks for the
-- probe, after `stop`.
abbrev pub is_within : ℕ → ℕ → Event → Bool
is_within start stop (reserves now) = ltb now stop
is_within start stop succeeds = false
is_within start stop (fails now) = leb start now
is_within start stop (borrows fresh) = true
is_within start stop (releases client reusable) = true

-- Open until `stop` at the earliest.
record IsCooling (o : Options) (stop : ℕ) (st : EndpointState) : Type 0 where
  opens : st.circuit_state ≡ opened
  until : stop ≤ st.unhealthy_until
  failures : o.failure_threshold ≤ st.consecutive_failures

step-IsCooling :
    (o : Options) (start : ℕ) (e : Event) (st : EndpointState)
    → IsCooling o (start + o.cooldown_ms) st
    → is_within start (start + o.cooldown_ms) e ≡ true
    → IsCooling o (start + o.cooldown_ms) (step o e st)
unfolding step record_failure reserve_half_open_probe borrow release
step-IsCooling o start (reserves now) st h q = record {
  opens = ground (arith, h.opens, h.until);
  until = ground (arith, h.opens, h.until);
  failures = ground (arith, h.failures);
}
step-IsCooling o start succeeds st h q = absurd (ground arith)
step-IsCooling o start (fails now) st h q = record {
  opens = ground (arith, h.opens, h.failures);
  until = ground (arith, h.failures);
  failures = ground (arith, h.failures);
}
step-IsCooling o start (borrows c) st h q = record {
  opens = ground (arith, h.opens);
  until = ground (arith, h.until);
  failures = ground (arith, h.failures);
}
step-IsCooling o start (releases c r) st h q = record {
  opens = ground (arith, h.opens);
  until = ground (arith, h.until);
  failures = ground (arith, h.failures);
}

run-IsCooling :
    (o : Options) (start : ℕ) (es : List Event) (st : EndpointState)
    → IsCooling o (start + o.cooldown_ms) st
    → All (λ e. is_within start (start + o.cooldown_ms) e ≡ true) es
    → IsCooling o (start + o.cooldown_ms) (run o es st)
unfolding run
run-IsCooling o start [] st h q = h
run-IsCooling o start (e ∷ es) st h q =
    run-IsCooling o start es (step o e st) (step-IsCooling o start e st h q.0) q.1

-- The cooldown is kept: after the failure that opens the circuit, through any events of that time
-- but a success, the endpoint is no candidate and no probe of it is allowed before the cooldown has
-- passed since that failure.
pub record_failure_cooldown :
    (o : Options) (start now : ℕ) (es : List Event) (st : EndpointState)
    → o.failure_threshold ≤ st.consecutive_failures + 1
    → All (λ e. is_within start (start + o.cooldown_ms) e ≡ true) es
    → now < start + o.cooldown_ms
    → let st' = run o es (record_failure o start st) in
      ((reserve_half_open_probe now st').0 ≡ false) × (is_healthy_enough now st' ≡ false)
unfolding reserve_half_open_probe is_healthy_enough record_failure
record_failure_cooldown o start now es st h q lt =
    let cooling : IsCooling o (start + o.cooldown_ms) (record_failure o start st) = record {
      opens = ground arith;
      until = ground arith;
      failures = ground arith;
    } in
    let kept = run-IsCooling o start es (record_failure o start st) cooling q in
    (ground (arith, kept.opens, kept.until), ground (arith, kept.opens, kept.until))

-- The probe decides: once it was reserved in a sound state, its success makes the endpoint a
-- candidate at all times, and its failure keeps it away for another cooldown, after which a new
-- probe is allowed.
pub finish_half_open_probe_lem :
    (options : Options) (now ended later : ℕ) (st : EndpointState)
    → IsSound (make_options options) st
    → (reserve_half_open_probe now st).0 ≡ true
    → let o = make_options options in
      let probing = (reserve_half_open_probe now st).1 in
      (is_healthy_enough later (finish_half_open_probe o true ended probing) ≡ true)
      × (is_healthy_enough later (finish_half_open_probe o false ended probing)
          ≡ leb (ended + o.cooldown_ms) later)
      × ((reserve_half_open_probe later (finish_half_open_probe o false ended probing)).0
          ≡ leb (ended + o.cooldown_ms) later)
unfolding reserve_half_open_probe is_healthy_enough finish_half_open_probe
finish_half_open_probe_lem o now ended later st h r =
    let enough : (make_options o).failure_threshold ≤ st.consecutive_failures =
      elim (dec_lt st.consecutive_failures (make_options o).failure_threshold) [
        | yes below ↦ absurd (ground (arith, h.counts.1 below))
        | no reached ↦ omega (arith, reached)
      ] in
    (ground (arith, enough), ground (arith, enough), ground (arith, enough))

-- ===== src/Pool.antt =====
-- RpcClientPool of src/rpc/rpc_client_pool.cpp: what the pool keeps for one endpoint, and the
-- operations on it, which run whole under the endpoint's mutex. Times are milliseconds of the
-- steady clock. `consecutive_failures` is an int that is taken not to reach its limit.
pub mod Breaker
pub mod Address
pub mod Candidates
pub mod Call
use coroutine_rpc_scheduler.Common.{
  Bool, List, [], false, if◌then◌else◌, leb, length, ltb, not, true, ℕ, ◌&&◌, ◌+◌, ◌==◌, ◌||◌, ◌∷◌,
}

-- An int option that is not positive is 0.
pub record Options : Type 0 where
  pub max_idle_per_endpoint : ℕ
  pub failure_threshold : ℕ
  pub cooldown_ms : ℕ
  pub health_check_probe : Bool
  pub health_check_timeout_ms : ℕ

-- The constructor.
unfoldable pub make_options : Options → Options
make_options o = record o {
  max_idle_per_endpoint = if o.max_idle_per_endpoint == 0 then 1 else o.max_idle_per_endpoint;
  failure_threshold = if o.failure_threshold == 0 then 1 else o.failure_threshold;
  health_check_timeout_ms =
      if o.health_check_timeout_ms == 0 then 500 else o.health_check_timeout_ms;
}

pub data CircuitState : Type 0 where
  closed opened half_open : CircuitState

-- An RpcClient by its identity.
abbrev pub Client : Type 0
Client = ℕ

-- The back of the vector of idle clients is the head of the list.
pub record EndpointState : Type 0 where
  pub idle_clients : List Client
  pub consecutive_failures : ℕ
  pub unhealthy_until : ℕ
  pub circuit_state : CircuitState
  pub half_open_probe_in_flight : Bool

abbrev pub new_state : EndpointState
new_state = record {
  idle_clients = [];
  consecutive_failures = 0;
  unhealthy_until = 0;
  circuit_state = closed;
  half_open_probe_in_flight = false;
}

unfoldable pub is_healthy_enough : ℕ → EndpointState → Bool
is_healthy_enough now st = elim st.circuit_state [
  | closed ↦ true
  | opened ↦ leb st.unhealthy_until now && not st.half_open_probe_in_flight
  | half_open ↦ false
]

abbrev pub is_open : CircuitState → Bool
is_open closed = false
is_open opened = true
is_open half_open = false

unfoldable pub reserve_half_open_probe : ℕ → EndpointState → Bool × EndpointState
reserve_half_open_probe now st =
    if not (is_open st.circuit_state) || ltb now st.unhealthy_until || st.half_open_probe_in_flight
    then (false, st)
    else (true, record st { circuit_state = half_open; half_open_probe_in_flight = true })

unfoldable pub record_success : EndpointState → EndpointState
record_success st = record st {
  consecutive_failures = 0;
  unhealthy_until = 0;
  circuit_state = closed;
  half_open_probe_in_flight = false;
}

-- `now` is the clock when the failure is recorded.
unfoldable pub record_failure : Options → ℕ → EndpointState → EndpointState
record_failure o now st =
    let failures = st.consecutive_failures + 1 in
    if leb o.failure_threshold failures
    then record st {
      consecutive_failures = failures;
      unhealthy_until = now + o.cooldown_ms;
      circuit_state = opened;
      half_open_probe_in_flight = false;
    }
    else record st { consecutive_failures = failures }

unfoldable pub finish_half_open_probe : Options → Bool → ℕ → EndpointState → EndpointState
unfolding record_success record_failure
finish_half_open_probe o success now st =
    if success then record_success st else record_failure o now st

-- `fresh` is the client that is made where none is idle.
unfoldable pub borrow : Client → EndpointState → Client × EndpointState
borrow fresh st = elim st.idle_clients [
  | [] ↦ (fresh, st)
  | c ∷ cs ↦ (c, record st { idle_clients = cs })
]

unfoldable pub release : Options → Client → Bool → EndpointState → EndpointState
release o client reusable st =
    if reusable && ltb (length st.idle_clients) o.max_idle_per_endpoint
    then record st { idle_clients = client ∷ st.idle_clients }
    else st

-- ===== src/Pool/Call.antt =====
-- RpcClientPool::call: the endpoints in turn. The pool's map is a function from endpoints to
-- states; one that the map does not know has the state that `stateFor` makes.
pub mod Laws
use coroutine_rpc_scheduler.Common.{
  Bool, List, Option, String, [], false, if◌then◌else◌, is_empty, none, not, some, str_empty,
  str_eq, true, ℕ, ◌&&◌, ◌+◌, ◌==◌, ◌∷◌,
}
use coroutine_rpc_scheduler.Pool.{
  Options, Client, EndpointState, is_healthy_enough, reserve_half_open_probe, record_success,
  record_failure, finish_half_open_probe, borrow, release,
}
use coroutine_rpc_scheduler.Pool.Address.{parse_endpoint}
use coroutine_rpc_scheduler.Pool.Candidates.{ordered_candidates}

abbrev pub States : Type 0
States = String → EndpointState

abbrev pub update : String → EndpointState → States → States
update e st s d = if str_eq e d then st else s d

pub data CallError : Type 0 where
  no_endpoint all_unavailable call_canceled deadline_exceeded all_failed : CallError
  invalid_endpoint health_check_failed circuit_is_open call_failed : String → CallError
  client_error : String → CallError

-- What the probe's client answers: whether its call succeeded, the serial id, and the field
-- `serving` of the response if it can be parsed.
pub record ProbeReply : Type 0 where
  pub ok : Bool
  pub serial_id : ℕ
  pub serving : Option Bool

abbrev pub health_check_response_serial_id : ℕ
health_check_response_serial_id = 26

unfoldable pub health_check_endpoint : Options → ProbeReply → Bool
health_check_endpoint o reply =
    if not o.health_check_probe
    then true
    else reply.ok
      && reply.serial_id == health_check_response_serial_id
      && elim reply.serving [ none ↦ false | some b ↦ b ]

-- RpcClient::call and, after it, lastError and whether lastStatus is Canceled or DeadlineExceeded.
pub record ClientReply : Type 0 where
  pub ok : Bool
  pub serial_id : ℕ
  pub data' : List ℕ
  pub last_error : String
  pub ends : Bool

-- One round of the loop: the options' cancellation and deadline, the clock at the reservation and
-- when a result is recorded, the answers of the two clients, and what other threads do to the
-- states before the round, during the probe and during the call.
pub record Visit : Type 0 where
  pub canceled : Bool
  pub expired : Bool
  pub now : ℕ
  pub probe_done : ℕ
  pub call_done : ℕ
  pub fresh : Client
  pub probe : ProbeReply
  pub reply : ClientReply
  pub before : States → States
  pub during_probe : States → States
  pub during_call : States → States

-- What `call` hands back, with `error` none for a success.
pub record CallResult : Type 0 where
  pub ok : Bool
  pub serial_id : ℕ
  pub data' : List ℕ
  pub endpoint : String
  pub error : Option CallError
  pub states : States

-- `response_serial_id` and `response_data` are as the last client that was called left them.
pub record Response : Type 0 where
  pub serial_id : ℕ
  pub data' : List ℕ

abbrev pub failure : CallError → Response → States → CallResult
failure err seen s = record {
  ok = false;
  serial_id = seen.serial_id;
  data' = seen.data';
  endpoint = "";
  error = some err;
  states = s;
}

-- A round ends the loop, or leaves `last_error` for the next one.
pub data Round : Type 0 where
  stops : CallResult → Round
  continues : CallError → Response → States → Round

unfoldable pub use_client : Options → Visit → String → States → Round
unfolding borrow release record_success record_failure
use_client o v e s =
    let (client, lent) = borrow v.fresh (s e) in
    let t = v.during_call (update e lent s) in
    let back = release o client v.reply.ok (t e) in
    let seen : Response = record { serial_id = v.reply.serial_id; data' = v.reply.data' } in
    let err =
      if str_empty v.reply.last_error then call_failed e else client_error v.reply.last_error in
    let failed = update e (record_failure o v.call_done back) t in
    if v.reply.ok
    then stops (record {
      ok = true;
      serial_id = v.reply.serial_id;
      data' = v.reply.data';
      endpoint = e;
      error = none;
      states = update e (record_success back) t;
    })
    else if v.reply.ends
    then stops (failure err seen failed)
    else continues err seen failed

unfoldable pub visit_one : Options → Visit → String → Response → States → Round
unfolding use_client parse_endpoint reserve_half_open_probe is_healthy_enough finish_half_open_probe
    health_check_endpoint
visit_one o v e seen s =
    let t = v.before s in
    let (reserved, st) = reserve_half_open_probe v.now (t e) in
    let probed = v.during_probe (update e st t) in
    let probe_ok = health_check_endpoint o v.probe in
    let finished = update e (finish_half_open_probe o probe_ok v.probe_done (probed e)) probed in
    if v.canceled
    then stops (failure call_canceled seen t)
    else if v.expired
    then stops (failure deadline_exceeded seen t)
    else elim (parse_endpoint e) [
      | none ↦ continues (invalid_endpoint e) seen (update e (record_failure o v.call_done (t e)) t)
      | some address ↦
          if reserved
          then (if probe_ok
              then use_client o v e finished
              else continues (health_check_failed e) seen finished)
          else if is_healthy_enough v.now (t e)
          then use_client o v e t
          else continues (circuit_is_open e) seen t
    ]

unfoldable pub call_loop :
    Options → (ℕ → Visit) → ℕ → List String → CallError → Response → States → CallResult
unfolding visit_one
call_loop o v i [] last seen s = failure last seen s
call_loop o v i (e ∷ es) last seen s = elim (visit_one o (v i) e seen s) [
  | stops result ↦ result
  | continues err seen' t ↦ call_loop o v (i + 1) es err seen' t
]

unfoldable pub call : Options → (ℕ → Visit) → ℕ → ℕ → List String → States → CallResult
unfolding ordered_candidates call_loop
call o v now turn endpoints s =
    let candidates = ordered_candidates s now turn endpoints in
    let nothing : Response = record { serial_id = 0; data' = [] } in
    let missing = if is_empty endpoints then no_endpoint else all_unavailable in
    if is_empty candidates
    then failure missing nothing s
    else call_loop o v 0 candidates all_failed nothing s

-- ===== src/Pool/Call/Laws.antt =====
-- What a call of the pool gives to its caller.
use coroutine_rpc_scheduler.Common.{
  Bool-cases, List, Option-cases, String, [], any, arith, eq_iff, false, inl, inr, refl, str_eq,
  subst, sym, true, ℕ, ◌+◌, ◌∷◌, ◌≡◌, ◌⊎◌,
}
use coroutine_rpc_scheduler.Pool.{
  Options, reserve_half_open_probe, closed, EndpointState, is_healthy_enough,
  finish_half_open_probe,
}
use coroutine_rpc_scheduler.Pool.Address.{parse_endpoint}
use coroutine_rpc_scheduler.Pool.Candidates.{
  ordered_candidates, ordered_candidates, any-count_of, ordered_candidates_lem,
}
use coroutine_rpc_scheduler.Pool.Call.{
  Round, all_failed, CallError, Visit, States, Response, CallResult, visit_one, stops,
  health_check_endpoint, use_client, update, call_loop, call, continues,
}

-- The client's reply of this round is handed back, its endpoint counts as healthy from then on, and
-- the client was used with a closed circuit or after a health check that this call had reserved.
pub record IsAnsweredBy (o : Options) (v : Visit) (s : States) (r : CallResult) : Type 0 where
  pub went_on : (v.canceled ≡ false) × (v.expired ≡ false)
  pub reply_ok : v.reply.ok ≡ true
  pub same_data : r.data' ≡ v.reply.data'
  pub same_serial_id : r.serial_id ≡ v.reply.serial_id
  pub healthy :
      ((r.states r.endpoint).circuit_state ≡ closed)
      × ((r.states r.endpoint).consecutive_failures ≡ 0)
  pub allowed :
      ((v.before s r.endpoint).circuit_state ≡ closed)
      ⊎ (((reserve_half_open_probe v.now (v.before s r.endpoint)).0 ≡ true)
          × (health_check_endpoint o v.probe ≡ true))

use_client_success :
    (o : Options) (v : Visit) (e : String) (s : States) (r : CallResult)
    → use_client o v e s ≡ stops r
    → r.ok ≡ true
    → (r.endpoint ≡ e)
      × (v.reply.ok ≡ true)
      × (r.data' ≡ v.reply.data')
      × (r.serial_id ≡ v.reply.serial_id)
      × ((r.states e).circuit_state ≡ closed)
      × ((r.states e).consecutive_failures ≡ 0)
unfolding use_client
use_client_success o v e s r h k = (
  ground arith,
  ground arith,
  ground arith,
  ground arith,
  ground (arith, eq_iff e e),
  ground (arith, eq_iff e e),
)

-- An endpoint that is a candidate and whose probe is not reserved has a closed circuit.
healthy_unreserved :
    (now : ℕ) (st : EndpointState)
    → is_healthy_enough now st ≡ true
    → (reserve_half_open_probe now st).0 ≡ false
    → st.circuit_state ≡ closed
unfolding is_healthy_enough reserve_half_open_probe
healthy_unreserved now st h r = ground arith

visit_one_used :
    (o : Options) (v : Visit) (e : String) (seen : Response) (s : States) (r : CallResult)
    → visit_one o v e seen s ≡ stops r
    → r.ok ≡ true
    → (v.canceled ≡ false)
      × (v.expired ≡ false)
      × ((t : States) × (use_client o v e t ≡ stops r))
      × (((v.before s e).circuit_state ≡ closed)
          ⊎ (((reserve_half_open_probe v.now (v.before s e)).0 ≡ true)
              × (health_check_endpoint o v.probe ≡ true)))
unfolding visit_one
visit_one_used o v e seen s r h k =
    let t = v.before s in
    let st = (reserve_half_open_probe v.now (t e)).1 in
    let probed = v.during_probe (update e st t) in
    let probe_ok = health_check_endpoint o v.probe in
    let finished = update e (finish_half_open_probe o probe_ok v.probe_done (probed e)) probed in
    elim (Option-cases (parse_endpoint e)) [
      | inl n ↦ absurd (ground (arith, n))
      | inr (a, n) ↦ elim (Bool-cases (reserve_half_open_probe v.now (t e)).0) [
        | inl b ↦ (
          ground (arith, n, b),
          ground (arith, n, b),
          (finished, ground (arith, n, b)),
          inr (b, ground (arith, n, b)),
        )
        | inr b ↦ (
          ground (arith, n, b),
          ground (arith, n, b),
          (t, ground (arith, n, b)),
          inl (healthy_unreserved v.now (t e) (ground (arith, n, b)) b),
        )
      ]
    ]

visit_one_success :
    (o : Options) (v : Visit) (e : String) (seen : Response) (s : States) (r : CallResult)
    → visit_one o v e seen s ≡ stops r
    → r.ok ≡ true
    → (r.endpoint ≡ e) × IsAnsweredBy o v s r
visit_one_success o v e seen s r h k =
    let (c, x, (t, used), allowed) = visit_one_used o v e seen s r h k in
    let (at, ok, d, id, shut, none_failed) = use_client_success o v e t r used k in
    (
      at,
      record {
        went_on = (c, x);
        reply_ok = ok;
        same_data = d;
        same_serial_id = id;
        healthy = (
          subst (λ x. (r.states x).circuit_state ≡ closed) (sym at) shut,
          subst (λ x. (r.states x).consecutive_failures ≡ 0) (sym at) none_failed,
        );
        allowed =
            subst
              (λ x.
                ((v.before s x).circuit_state ≡ closed)
                ⊎ (((reserve_half_open_probe v.now (v.before s x)).0 ≡ true)
                    × (health_check_endpoint o v.probe ≡ true)))
              (sym at) allowed;
      },
    )

Round-cases :
    (x : Round)
    → ((r : CallResult) × (x ≡ stops r))
      ⊎ ((err : CallError) × (seen : Response) × (t : States) × (x ≡ continues err seen t))
Round-cases (stops r) = inl (r, refl)
Round-cases (continues err seen t) = inr (err, seen, t, refl)

call_loop_success :
    (o : Options) (v : ℕ → Visit) (i : ℕ) (es : List String) (last : CallError) (seen : Response)
    (s : States) (r : CallResult)
    → call_loop o v i es last seen s ≡ r
    → r.ok ≡ true
    → (any (str_eq r.endpoint) es ≡ true) × ((j : ℕ) × (t : States) × IsAnsweredBy o (v j) t r)
unfolding call_loop
call_loop_success o v i [] last seen s r h k = absurd (ground arith)
call_loop_success o v i (e ∷ es) last seen s r h k =
    elim (Round-cases (visit_one o (v i) e seen s)) [
      | inl (r', x) ↦
          let (at, answered) = visit_one_success o (v i) e seen s r (ground (arith, x)) k in
          (ground (arith, at, eq_iff r.endpoint e), (i, s, answered))
      | inr (err, seen', t, x) ↦
          let (found, answered) =
            call_loop_success o v (i + 1) es err seen' t r (ground (arith, x)) k in
          (ground (arith, found), answered)
    ]

-- A call that succeeds hands back the reply of a client of one of the given endpoints, which was
-- healthy when the candidates were chosen. The round of that reply was neither canceled nor late,
-- the client was only used with a closed circuit or after the health check that the round itself
-- had reserved, and the endpoint is left with a closed circuit and no failures.
pub call_success :
    (o : Options) (v : ℕ → Visit) (now turn : ℕ) (endpoints : List String) (s : States)
    → let r = call o v now turn endpoints s in
      r.ok ≡ true
      → (any (str_eq r.endpoint) endpoints ≡ true)
        × (is_healthy_enough now (s r.endpoint) ≡ true)
        × ((j : ℕ) × (t : States) × IsAnsweredBy o (v j) t r)
unfolding call
call_success o v now turn endpoints s k =
    let found = ordered_candidates s now turn endpoints in
    let r = call o v now turn endpoints s in
    let nothing : Response = record { serial_id = 0; data' = [] } in
    let (given, answered) = call_loop_success o v 0 found all_failed nothing s r (ground arith) k in
    let once = (ordered_candidates_lem s now turn endpoints).1 r.endpoint in
    let counted = any-count_of r.endpoint found in
    (ground (arith, given, once, counted), ground (arith, given, once, counted), answered)

-- ===== src/Redis/Services.antt =====
-- The registry of services of src/redis/redis_client.cpp: a set of endpoints for each service, and
-- a key with a time to live for each endpoint.
use coroutine_rpc_scheduler.Common.{
  Bool, List, String, [], any, arith, eq_iff, false, if◌then◌else◌, none, refl, some, str_append,
  str_empty, str_eq, true, ℕ, ◌&&◌, ◌<◌, ◌==◌, ◌||◌, ◌∷◌, ◌≡◌,
}
use coroutine_rpc_scheduler.Redis.Server.{RedisServer, Attempt, answered, command}

abbrev pub set_key : String → String
set_key service_name = str_append "services:" service_name

abbrev pub node_key : String → String → String
node_key service_name endpoint = str_append (set_key service_name) (str_append ":" endpoint)

module _ (redis : RedisServer) where
  open redis use {
    State, get, del, smembers, sadd, srem, set_ex, get-set_ex, get-sadd, get-srem, smembers-set_ex,
    mem-sadd, mem-srem,
  }

  unfoldable pub register_script : String → String → ℕ → State → Bool × State
  register_script service_name endpoint ttl_sec s = (
    true,
    sadd (set_key service_name) endpoint
        (set_ex (node_key service_name endpoint) endpoint ttl_sec s),
  )

  -- The answer is whether the status 'OK' came back.
  unfoldable pub register_service : Attempt → String → String → ℕ → State → Bool × State
  unfolding command register_script
  register_service a service_name endpoint ttl_sec s =
      if str_empty service_name || str_empty endpoint || ttl_sec == 0
      then (false, s)
      else let (r, t) = command a (register_script service_name endpoint ttl_sec) s in
        (elim r [ none ↦ false | some ok ↦ ok ], t)

  unfoldable pub heartbeat : Attempt → String → String → ℕ → State → Bool × State
  unfolding register_service
  heartbeat = register_service

  unfoldable pub unregister_script : String → String → State → Unit {0} × State
  unregister_script service_name endpoint s =
      (tt, del (node_key service_name endpoint) (srem (set_key service_name) endpoint s))

  unfoldable pub unregister_service : Attempt → String → String → State → State
  unfolding command unregister_script
  unregister_service a service_name endpoint s =
      if str_empty service_name || str_empty endpoint
      then s
      else (command a (unregister_script service_name endpoint) s).1

  -- `for _, endpoint in ipairs(members)`: those with a live key stay, the others leave the set.
  unfoldable pub discover_loop : String → List String → State → List String × State
  discover_loop service_name [] s = ([], s)
  discover_loop service_name (e ∷ es) s = elim (get (node_key service_name e) s) [
    | none ↦ discover_loop service_name es (srem (set_key service_name) e s)
    | some _ ↦ let (alive, t) = discover_loop service_name es s in (e ∷ alive, t)
  ]

  unfoldable pub discover_services : Attempt → String → State → List String × State
  unfolding command discover_loop
  discover_services a service_name s =
      if str_empty service_name
      then ([], s)
      else let (r, t) =
          command a (λ u. discover_loop service_name (smembers (set_key service_name) u) u) s in
        (elim r [ none ↦ [] | some alive ↦ alive ], t)

  abbrev pub is_alive : String → String → State → Bool
  is_alive service_name e s = elim (get (node_key service_name e) s) [
    | none ↦ false
    | some _ ↦ true
  ]

  mem-discover_loop :
      (service_name y : String) (es : List String) (s : State)
      → any (str_eq y) (discover_loop service_name es s).0
        ≡ (any (str_eq y) es && is_alive service_name y s)
  unfolding discover_loop
  mem-discover_loop service_name y [] s = refl
  mem-discover_loop service_name y (e ∷ es) s = ground (
    arith,
    mem-discover_loop service_name y es s,
    mem-discover_loop service_name y es (srem (set_key service_name) e s),
    get-srem (set_key service_name) (node_key service_name y) e s,
    eq_iff y e,
  )

  -- Discovery, answered, yields exactly the members of the service's set whose key is alive.
  pub discover_services_lem :
      (service_name y : String) (s : State)
      → str_empty service_name ≡ false
      → any (str_eq y) (discover_services answered service_name s).0
        ≡ (any (str_eq y) (smembers (set_key service_name) s) && is_alive service_name y s)
  unfolding discover_services
  discover_services_lem service_name y s h =
      ground (arith, mem-discover_loop service_name y (smembers (set_key service_name) s) s)

  -- Right after an endpoint was registered, discovery yields it.
  pub discover_services-register_service :
      (service_name endpoint : String) (ttl : ℕ) (s : State)
      → str_empty service_name ≡ false
      → str_empty endpoint ≡ false
      → 0 < ttl
      → let s' = (register_service answered service_name endpoint ttl s).1 in
        (any (str_eq endpoint) (discover_services answered service_name s').0 ≡ true)
  unfolding register_service
  discover_services-register_service service_name endpoint ttl s h k pos = ground (
    arith,
    discover_services_lem service_name endpoint
        (register_service answered service_name endpoint ttl s).1 h,
    mem-sadd (set_key service_name) (set_key service_name) endpoint endpoint
        (set_ex (node_key service_name endpoint) endpoint ttl s),
    get-sadd (set_key service_name) (node_key service_name endpoint) endpoint
        (set_ex (node_key service_name endpoint) endpoint ttl s),
    get-set_ex (node_key service_name endpoint) (node_key service_name endpoint) endpoint ttl s,
    eq_iff endpoint endpoint,
    eq_iff (set_key service_name) (set_key service_name),
    eq_iff (node_key service_name endpoint) (node_key service_name endpoint),
  )

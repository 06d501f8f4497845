-- ===== src/Redis/LockLaws.antt =====
-- What the lock of src/redis/redis_client.cpp gives to those who take it.
use coroutine_rpc_scheduler.Common.{
  Bool, Option-cases, String, ap, arith, eq_iff, false, inl, inr, none, refl, some, str_empty,
  str_eq, suc, true, zero, ℕ, ◌*◌, ◌+◌, ◌/◌, ◌<◌, ◌∙◌, ◌≡◌, ◌≢◌, ◌≤◌,
}
use coroutine_rpc_scheduler.Redis.Server.{
  RedisServer, Attempt, silent, lost_once, lost_twice, retried, answered, command,
}
use coroutine_rpc_scheduler.Redis.Lock.{
  Rounds, lock_script, lock_key, lock_loop, is_true, lock, renew_lock, unlock,
}

module _ (redis : RedisServer) where
  open redis use {
    State, get, setnx, expire, del, setnx_free, get-setnx_free, setnx_taken, get-expire, get-del,
  }

  lock_script_taken :
      (key value : String) (n : ℕ) (s : State) {w : String}
      → get key s ≡ some w
      → lock_script redis key value n s ≡ (false, s)
  unfolding lock_script
  lock_script_taken key value n s {w} h = ground (arith, setnx_taken key value w s h)

  lock_script_free :
      (key value : String) (n : ℕ) (s : State)
      → get key s ≡ none
      → ((lock_script redis key value n s).0 ≡ true)
        × (get key (lock_script redis key value n s).1 ≡ some value)
  unfolding lock_script
  lock_script_free key value n s h = ground (
    arith,
    setnx_free key value s h,
    get-setnx_free key key value s h,
    get-expire key key n (setnx key value s).1,
    eq_iff key key,
  )

  command_taken :
      (a : Attempt) (key value : String) (n : ℕ) (s : State) {w : String}
      → get key s ≡ some w
      → let (r, t) = command a (lock_script redis key value n) s in
        (is_true redis r ≡ false) × (t ≡ s)
  unfolding command
  command_taken silent key value n s h = (refl, refl)
  command_taken lost_once key value n s h = ground (arith, lock_script_taken key value n s h)
  command_taken lost_twice key value n s h = ground (arith, lock_script_taken key value n s h)
  command_taken retried key value n s h = ground (arith, lock_script_taken key value n s h)
  command_taken answered key value n s h = ground (arith, lock_script_taken key value n s h)

  lock_loop_excluded :
      (w : Rounds redis) (key value other : String) (n timeout fuel i : ℕ) (s : State)
      → ((j : ℕ) (u : State)
          → get (lock_key redis key) u ≡ some other
          → get (lock_key redis key) (w.meanwhile j u) ≡ some other)
      → get (lock_key redis key) s ≡ some other
      → (r : Bool × State) → lock_loop redis w key value n timeout fuel i s ≡ some r
      → (r.0 ≡ false) × (get (lock_key redis key) r.1 ≡ some other)
  unfolding lock_loop
  lock_loop_excluded w key value other n timeout zero i s keep h r e = cc
  lock_loop_excluded w key value other n timeout (suc fuel) i s keep h r e =
      let (missed, same) = command_taken (w.attempt i) (lock_key redis key) value n s h in
      let later =
        lock_loop_excluded w key value other n timeout fuel (i + 1) (w.meanwhile i s) keep
          (keep i s h) r in
      ground (arith, missed, same, later, h)

  -- While another value holds the key, and nobody frees it meanwhile, `lock` is never answered true
  -- and leaves the other's lock in place, whatever becomes of the calls to the server.
  pub lock_excluded :
      (w : Rounds redis) (fuel : ℕ) (key value other : String) (n timeout : ℕ) (s : State)
      → ((j : ℕ) (u : State)
          → get (lock_key redis key) u ≡ some other
          → get (lock_key redis key) (w.meanwhile j u) ≡ some other)
      → get (lock_key redis key) s ≡ some other
      → (r : Bool × State) → lock redis w fuel key value n timeout s ≡ some r
      → (r.0 ≡ false) × (get (lock_key redis key) r.1 ≡ some other)
  unfolding lock
  lock_excluded w fuel key value other n timeout s keep h r e =
      let loop = lock_loop_excluded w key value other n timeout fuel 0 s keep h r in
      ground (arith, loop, h)

  -- The last round that fuel is left for meets the timeout.
  lock_loop-ne-none :
      (w : Rounds redis) (key value : String) (n timeout fuel i : ℕ) (s : State)
      → ((j : ℕ) → 50 * j ≤ w.elapsed j)
      → timeout ≤ 50 * (fuel + i)
      → lock_loop redis w key value n timeout (suc fuel) i s ≢ none
  unfolding lock_loop
  lock_loop-ne-none w key value n timeout zero i s slow enough = ground (arith, slow i)
  lock_loop-ne-none w key value n timeout (suc fuel) i s slow enough =
      let t = (command (w.attempt i) (lock_script redis (lock_key redis key) value n) s).1 in
      ground (
        arith,
        lock_loop-ne-none w key value n timeout fuel (i + 1) (w.meanwhile i t) slow (omega arith),
      )

  -- `lock` returns: as each round that goes on sleeps 50 ms at least, timeout / 50 + 2 rounds are
  -- enough, whatever becomes of the calls to the server and whatever other clients do.
  pub lock_total :
      (w : Rounds redis) (key value : String) (n timeout : ℕ) (s : State)
      → ((j : ℕ) → 50 * j ≤ w.elapsed j)
      → (r : Bool × State) × (lock redis w (timeout / 50 + 2) key value n timeout s ≡ some r)
  unfolding lock
  lock_total w key value n timeout s slow =
      elim (Option-cases (lock redis w (timeout / 50 + 2) key value n timeout s)) [
        | inr found ↦ found
        | inl e ↦ absurd (
            ground (
              arith,
              e,
              lock_loop-ne-none w key value n timeout (timeout / 50 + 1) 0 s slow (omega arith),
            ))
      ]

  -- A holder's unlock, answered, frees the key, and the next attempt of another client gets it; an
  -- unlock or a renewal under any other value is answered false and changes nothing.
  pub unlock_lem :
      (key value other : String) (n : ℕ) (s : State)
      → str_empty key ≡ false
      → str_empty value ≡ false
      → str_empty other ≡ false
      → get (lock_key redis key) s ≡ some value
      → let u = unlock redis answered key value s in
        (u.0 ≡ true)
        × ((lock_script redis (lock_key redis key) other n u.1).0 ≡ true)
        × (str_eq value other ≡ false → unlock redis answered key other s ≡ (false, s))
        × (str_eq value other ≡ false → renew_lock redis answered key other n s ≡ (false, s))
  unfolding unlock renew_lock
  unlock_lem key value other n s ek ev eo h = (
    ground (arith, eq_iff value value),
    ground (
      arith,
      eq_iff value value,
      get-del (lock_key redis key) (lock_key redis key) s,
      eq_iff (lock_key redis key) (lock_key redis key),
      lock_script_free (lock_key redis key) other n (del (lock_key redis key) s),
    ),
    λ d. ground arith,
    λ d. ground arith,
  )

  lock_script-true :
      (key value : String) (n : ℕ) (s : State)
      → (lock_script redis key value n s).0 ≡ true
      → get key (lock_script redis key value n s).1 ≡ some value
  lock_script-true key value n s h = elim (Option-cases (get key s)) [
    | inl e ↦ (lock_script_free key value n s e).1
    | inr (v, e) ↦ let taken = lock_script_taken key value n s e in ground (arith, taken, h)
  ]

  command-true :
      (a : Attempt) (key value : String) (n : ℕ) (s : State)
      → let (r, t) = command a (lock_script redis key value n) s in
        is_true redis r ≡ true → get key t ≡ some value
  unfolding command
  command-true silent key value n s h = absurd (cc)
  command-true lost_once key value n s h = absurd (cc)
  command-true lost_twice key value n s h = absurd (cc)
  command-true retried key value n s h =
      lock_script-true key value n (lock_script redis key value n s).1 h
  command-true answered key value n s h = lock_script-true key value n s h

  lock_loop_acquired :
      (w : Rounds redis) (key value : String) (n timeout fuel i : ℕ) (s t : State)
      → lock_loop redis w key value n timeout fuel i s ≡ some (true, t)
      → get (lock_key redis key) t ≡ some value
  unfolding lock_loop
  lock_loop_acquired w key value n timeout zero i s t e = cc
  lock_loop_acquired w key value n timeout (suc fuel) i s t e =
      let c = command (w.attempt i) (lock_script redis (lock_key redis key) value n) s in
      let held = command-true (w.attempt i) (lock_key redis key) value n s in
      let later = lock_loop_acquired w key value n timeout fuel (i + 1) (w.meanwhile i c.1) t in
      elim (Option-cases c.0) [
        | inl m ↦ ground (arith, m, later)
        | inr (got, m) ↦ ground (arith, m, later, held)
      ]

  -- A lock that is answered true is held: the key has the value that was asked for.
  pub lock_acquired :
      (w : Rounds redis) (fuel : ℕ) (key value : String) (n timeout : ℕ) (s t : State)
      → lock redis w fuel key value n timeout s ≡ some (true, t)
      → get (lock_key redis key) t ≡ some value
  unfolding lock
  lock_acquired w fuel key value n timeout s t e =
      ground (arith, lock_loop_acquired w key value n timeout fuel 0 s t)

  -- A lock whose first call the server carries out, but whose reply is lost, is not reported:
  -- `command` runs the script again, which finds the key taken by the lock's own value. However
  -- long `lock` goes on to try then, and whatever becomes of its later calls, it returns false, and
  -- the key still has its value, as long as nobody frees the key meanwhile. Each round that goes on
  -- sleeps 50 ms at least.
  pub lock_lost_reply :
      (w : Rounds redis) (key value : String) (n timeout : ℕ) (s : State)
      → w.attempt 0 ≡ retried
      → str_empty key ≡ false
      → str_empty value ≡ false
      → 0 < n
      → get (lock_key redis key) s ≡ none
      → ((j : ℕ) (u : State)
          → get (lock_key redis key) u ≡ some value
          → get (lock_key redis key) (w.meanwhile j u) ≡ some value)
      → ((j : ℕ) → 50 * j ≤ w.elapsed j)
      → (t : State) × (lock redis w (timeout / 50 + 2) key value n timeout s ≡ some (false, t))
        × (get (lock_key redis key) t ≡ some value)
  unfolding lock lock_loop command
  lock_lost_reply w key value n timeout s a ek ev pos h keep slow =
      let (given, held) = lock_script_free (lock_key redis key) value n s h in
      let t = (lock_script redis (lock_key redis key) value n s).1 in
      let again = lock_script_taken (lock_key redis key) value n t held in
      let ((got, u), e) = lock_total w key value n timeout s slow in
      let later =
        lock_loop_excluded w key value value n timeout (timeout / 50 + 1) 1 (w.meanwhile 0 t) keep
          (keep 0 t held) (got, u) in
      let ended : (got ≡ false) × (get (lock_key redis key) u ≡ some value) =
        ground (arith, a, again, later, held) in
      (u, e ∙ ap (λ b. some (b, u)) ended.0, ended.1)

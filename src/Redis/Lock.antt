-- ===== src/Redis/Lock.antt =====
-- RedisClient::lock, renewLock and unlock. An empty key or value and an expiry that is not
-- positive are refused before the server is asked.
use coroutine_rpc_scheduler.Common.{
  Bool, Option, String, false, if◌then◌else◌, leb, none, some, str_append, str_empty, str_eq, suc,
  true, zero, ℕ, ◌+◌, ◌==◌, ◌||◌,
}
use coroutine_rpc_scheduler.Redis.Server.{RedisServer, Attempt, command}

module _ (redis : RedisServer) where
  open redis use {State, get, setnx, expire, del}

  -- The answer is whether the script returned 'OK'.
  unfoldable pub lock_script : String → String → ℕ → State → Bool × State
  lock_script key value expire_sec s =
      let (set, s') = setnx key value s in
      if set then (true, expire key expire_sec s') else (false, s')

  -- The number that the script returns is 1.
  unfoldable pub renew_script : String → String → ℕ → State → Bool × State
  renew_script key value expire_sec s = elim (get key s) [
    | none ↦ (false, s)
    | some v ↦ if str_eq v value then (true, expire key expire_sec s) else (false, s)
  ]

  unfoldable pub unlock_script : String → String → State → Bool × State
  unlock_script key value s = elim (get key s) [
    | none ↦ (false, s)
    | some v ↦ if str_eq v value then (true, del key s) else (false, s)
  ]

  abbrev pub lock_key : String → String
  lock_key key = str_append "lock:" key

  -- The rounds of the loop of `lock`: how the call of each goes, the milliseconds since `start` when
  -- the round looks at the clock, and what other clients do while the round sleeps.
  pub record Rounds : Type 0 where
    pub attempt : ℕ → Attempt
    pub elapsed : ℕ → ℕ
    pub meanwhile : ℕ → State → State

  -- `while (true)` from round `i` on; `none` means that the fuel ran out.
  unfoldable pub lock_loop :
      Rounds → String → String → ℕ → ℕ → ℕ → ℕ → State → Option (Bool × State)
  lock_loop w key value expire_sec timeout_ms zero i s = none
  lock_loop w key value expire_sec timeout_ms (suc fuel) i s =
      let (r, t) = command (w.attempt i) (lock_script (lock_key key) value expire_sec) s in
      let rest = lock_loop w key value expire_sec timeout_ms fuel (i + 1) (w.meanwhile i t) in
      elim r [
        | none ↦ if leb timeout_ms (w.elapsed i) then some (false, t) else rest
        | some got ↦
            if got
            then some (true, t)
            else if leb timeout_ms (w.elapsed i)
            then some (false, t)
            else rest
      ]

  unfoldable pub lock : Rounds → ℕ → String → String → ℕ → ℕ → State → Option (Bool × State)
  lock w fuel key value expire_sec timeout_ms s =
      if str_empty key || str_empty value || expire_sec == 0
      then some (false, s)
      else lock_loop w key value expire_sec timeout_ms fuel 0 s

  abbrev pub is_true : Option Bool → Bool
  is_true none = false
  is_true (some b) = b

  unfoldable pub renew_lock : Attempt → String → String → ℕ → State → Bool × State
  unfolding command renew_script
  renew_lock a key value expire_sec s =
      if str_empty key || str_empty value || expire_sec == 0
      then (false, s)
      else let (r, t) = command a (renew_script (lock_key key) value expire_sec) s in (is_true r, t)

  unfoldable pub unlock : Attempt → String → String → State → Bool × State
  unfolding command unlock_script
  unlock a key value s =
      if str_empty key || str_empty value
      then (false, s)
      else let (r, t) = command a (unlock_script (lock_key key) value) s in (is_true r, t)

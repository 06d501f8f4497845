-- ===== src/Redis/Server.antt =====
-- The commands of the Redis server that the scripts of src/redis/redis_client.cpp call, and what
-- its documentation says of them. `State` is what the server stores, as it stands at one moment.
use coroutine_rpc_scheduler.Common.{
  Bool, List, Option, String, any, false, if◌then◌else◌, none, not, some, str_eq, true, ℕ, ◌&&◌,
  ◌||◌, ◌≡◌,
}

pub record RedisServer : Type 1 where
  pub State : Type 0
  pub get : String → State → Option String
  pub setnx : String → String → State → Bool × State
  pub expire : String → ℕ → State → State
  pub del : String → State → State
  pub smembers : String → State → List String
  pub sadd : String → String → State → State
  pub srem : String → String → State → State
  pub set_ex : String → String → ℕ → State → State
  -- SETNX sets a key that has no value, and answers whether it did.
  pub setnx_free : (k v : String) (s : State) → get k s ≡ none → (setnx k v s).0 ≡ true
  pub get-setnx_free :
      (k j v : String) (s : State)
      → get k s ≡ none
      → get j (setnx k v s).1 ≡ (if str_eq k j then some v else get j s)
  pub setnx_taken : (k v w : String) (s : State) → get k s ≡ some w → setnx k v s ≡ (false, s)
  -- EXPIRE sets a time to live, and leaves the values.
  pub get-expire : (k j : String) (n : ℕ) (s : State) → get j (expire k n s) ≡ get j s
  pub get-del :
      (k j : String) (s : State) → get j (del k s) ≡ (if str_eq k j then none else get j s)
  -- SET with EX stores the value; SADD, SREM and SMEMBERS keep a set under its key, apart from the
  -- values of other keys.
  pub get-set_ex :
      (k j v : String) (n : ℕ) (s : State)
      → get j (set_ex k v n s) ≡ (if str_eq k j then some v else get j s)
  pub get-sadd : (k j x : String) (s : State) → get j (sadd k x s) ≡ get j s
  pub get-srem : (k j x : String) (s : State) → get j (srem k x s) ≡ get j s
  pub smembers-set_ex :
      (k j v : String) (n : ℕ) (s : State) → smembers j (set_ex k v n s) ≡ smembers j s
  pub smembers-del :
      (k j : String) (s : State) → str_eq k j ≡ false → smembers j (del k s) ≡ smembers j s
  pub mem-sadd :
      (k j x y : String) (s : State)
      → any (str_eq y) (smembers j (sadd k x s))
        ≡ (str_eq k j && str_eq y x || any (str_eq y) (smembers j s))
  pub mem-srem :
      (k j x y : String) (s : State)
      → any (str_eq y) (smembers j (srem k x s))
        ≡ (not (str_eq k j && str_eq y x) && any (str_eq y) (smembers j s))

-- A call of `command`: it got no reply and the script did not run; the script ran, its reply was
-- lost, and there is no new connection; it ran, and `command` ran it once more on a new connection,
-- whose reply is lost too, or is returned; it ran and was answered.
pub data Attempt : Type 0 where
  silent lost_once lost_twice retried answered : Attempt

-- The reply that `command` returns, if any, and what the server stores then.
unfoldable pub command {ℓ} : {S : Type 0} {R : Type ℓ} → Attempt → (S → R × S) → S → Option R × S
command silent script s = (none, s)
command lost_once script s = (none, (script s).1)
command lost_twice script s = (none, (script (script s).1).1)
command retried script s = let (r, s') = script (script s).1 in (some r, s')
command answered script s = let (r, s') = script s in (some r, s')

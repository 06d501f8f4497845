-- ===== src/Examples/Memory.antt =====
-- A Redis server in memory, and the theorems on locks and discovery at it.
use coroutine_rpc_scheduler.Common.{
  Bool, List, Option, String, [], any, arith, eq_iff, false, if◌then◌else◌, keep_if, none, not,
  refl, some, str_eq, true, ◌&&◌, ◌*◌, ◌||◌, ◌∷◌, ◌≡◌,
}
use coroutine_rpc_scheduler.Redis.Server.{answered, RedisServer, retried, command}
use coroutine_rpc_scheduler.Redis.Lock.{Rounds, lock, lock_script, lock_loop}
use coroutine_rpc_scheduler.Redis.LockLaws.{lock_excluded, lock_total, lock_lost_reply}
use coroutine_rpc_scheduler.Redis.Services.{register_service}

pub record Memory : Type 0 where
  pub values : String → Option String
  pub sets : String → List String

abbrev pub put : String → Option String → Memory → Memory
put k v s = record s { values = λ j. if str_eq k j then v else s.values j }

abbrev pub put_set : String → List String → Memory → Memory
put_set k xs s = record s { sets = λ j. if str_eq k j then xs else s.sets j }

abbrev pub insert_once : String → List String → List String
insert_once x xs = if any (str_eq x) xs then xs else x ∷ xs

any-insert_once :
    (x y : String) (xs : List String)
    → any (str_eq y) (insert_once x xs) ≡ (str_eq y x || any (str_eq y) xs)
any-insert_once x y xs = ground (arith, eq_iff y x)

any-keep_if :
    (x y : String) (xs : List String)
    → any (str_eq y) (keep_if (λ z. not (str_eq z x)) xs) ≡ (not (str_eq y x) && any (str_eq y) xs)
any-keep_if x y [] = ground arith
any-keep_if x y (z ∷ xs) = ground (arith, any-keep_if x y xs, eq_iff z x, eq_iff y z, eq_iff y x)

abbrev pub set_once : String → String → Memory → Bool × Memory
set_once k v s = elim (s.values k) [ none ↦ (true, put k (some v) s) | some w ↦ (false, s) ]

pub set_once_free : (k v : String) (s : Memory) → s.values k ≡ none → (set_once k v s).0 ≡ true
set_once_free k v s h = ground (arith, h)

pub values-set_once :
    (k j v : String) (s : Memory)
    → s.values k ≡ none
    → (set_once k v s).1.values j ≡ (if str_eq k j then some v else s.values j)
values-set_once k j v s h = ground (arith, h)

pub set_once_taken :
    (k v w : String) (s : Memory) → s.values k ≡ some w → set_once k v s ≡ (false, s)
set_once_taken k v w s h = ground (arith, h)

abbrev pub delete : String → Memory → Memory
delete k s = put_set k [] (put k none s)

pub sets-delete : (k j : String) (s : Memory) → str_eq k j ≡ false → (delete k s).sets j ≡ s.sets j
sets-delete k j s h = ground (arith, h)

abbrev pub add_member : String → String → Memory → Memory
add_member k x s = put_set k (insert_once x (s.sets k)) s

pub any-add_member :
    (k j x y : String) (s : Memory)
    → any (str_eq y) ((add_member k x s).sets j)
      ≡ (str_eq k j && str_eq y x || any (str_eq y) (s.sets j))
any-add_member k j x y s = ground (arith, any-insert_once x y (s.sets k), eq_iff k j)

abbrev pub remove_member : String → String → Memory → Memory
remove_member k x s = put_set k (keep_if (λ z. not (str_eq z x)) (s.sets k)) s

pub any-remove_member :
    (k j x y : String) (s : Memory)
    → any (str_eq y) ((remove_member k x s).sets j)
      ≡ (not (str_eq k j && str_eq y x) && any (str_eq y) (s.sets j))
any-remove_member k j x y s = ground (arith, any-keep_if x y (s.sets k), eq_iff k j)

abbrev pub memory : RedisServer
memory = record {
  State = Memory;
  get = λ k s. s.values k;
  setnx = set_once;
  expire = λ k n s. s;
  del = delete;
  smembers = λ k s. s.sets k;
  sadd = add_member;
  srem = remove_member;
  set_ex = λ k v n s. put k (some v) s;
  setnx_free = set_once_free;
  get-setnx_free = values-set_once;
  setnx_taken = set_once_taken;
  get-expire = λ k j n s. refl;
  get-del = λ k j s. refl;
  get-set_ex = λ k j v n s. refl;
  get-sadd = λ k j x s. refl;
  get-srem = λ k j x s. refl;
  smembers-set_ex = λ k j v n s. refl;
  smembers-del = sets-delete;
  mem-sadd = any-add_member;
  mem-srem = any-remove_member;
}

abbrev pub nothing : Memory
nothing = record { values = λ k. none; sets = λ k. [] }

abbrev pub locked : Memory
locked = put "lock:task:t" (some "node1:e") nothing

-- Every call is answered, a round takes 50 ms, and no other client does anything.
abbrev pub quiet : Rounds memory
quiet = record { attempt = λ i. answered; elapsed = λ i. 50 * i; meanwhile = λ i s. s }

lock_refused : lock memory quiet 4 "task:t" "node2:f" 60 100 locked ≡ some (false, locked)
unfolding lock lock_loop lock_script command
lock_refused = refl

lock_excluded_example : (false ≡ false) × (locked.values "lock:task:t" ≡ some "node1:e")
lock_excluded_example =
    lock_excluded memory quiet 4 "task:t" "node2:f" "node1:e" 60 100 locked (λ j u h. h) refl
      (false, locked) lock_refused

lock_total_example :
    (r : Bool × Memory) × (lock memory quiet 4 "task:t" "node2:f" 60 100 nothing ≡ some r)
lock_total_example = lock_total memory quiet "task:t" "node2:f" 60 100 nothing (λ j. omega arith)

-- The first reply is lost.
abbrev lossy : Rounds memory
lossy = record quiet { attempt = λ i. retried }

lock_lost_reply_example :
    (t : Memory) × (lock memory lossy 4 "task:t" "node1:e" 60 100 nothing ≡ some (false, t))
    × (t.values "lock:task:t" ≡ some "node1:e")
lock_lost_reply_example =
    lock_lost_reply memory lossy "task:t" "node1:e" 60 100 nothing refl refl refl (omega arith) refl
      (λ j u h. h) (λ j. omega arith)

abbrev registered : Memory
registered = (register_service memory answered "rpc:Echo" "10.0.0.1:9000" 15 nothing).1

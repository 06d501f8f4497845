-- ===== src/Scheduler/LockRenewer.antt =====
-- TaskScheduler::LockRenewer. Times are milliseconds of the steady clock. The thread of `loop` gives
-- up the mutex while it asks Redis, so a round is two steps: `due_leases` before, `settle` after.
use coroutine_rpc_scheduler.Common.{
  Bool, List, String, StringMap, [], any, arith, eq_iff, erase, false, if◌then◌else◌, insert, leb,
  lookup, lookup-erase, lookup-insert, max, none, some, str_eq, true, ℕ, ◌&&◌, ◌*◌, ◌+◌, ◌/◌, ◌<◌,
  ◌∷◌, ◌≡◌, ◌≤◌,
}
use coroutine_rpc_scheduler.Cancellation.{Flags, Source, cancel, is_canceled}

pub record Lease : Type 0 where
  pub key : String
  pub value : String
  pub ttl_sec : ℕ
  pub next_renew_at : ℕ
  pub cancellation : Source

pub record Renewer : Type 0 where
  pub leases : StringMap Lease
  pub running : Bool

unfoldable pub next_renew_time : ℕ → ℕ → ℕ
next_renew_time now ttl_sec = now + 1000 * max 1 (ttl_sec / 3)

unfoldable pub start : Renewer → Renewer
start w = if w.running then w else record w { running = true }

unfoldable pub stop : Renewer → Renewer
stop w = if w.running then record { leases = []; running = false } else w

unfoldable pub add : ℕ → String → String → ℕ → Source → Renewer → Renewer
unfolding next_renew_time
add now key value ttl_sec source w =
    let lease : Lease = record {
      key = key;
      value = value;
      ttl_sec = ttl_sec;
      next_renew_at = next_renew_time now ttl_sec;
      cancellation = source;
    } in
    record w { leases = insert key lease w.leases }

unfoldable pub remove : String → String → Renewer → Renewer
remove key value w = elim (lookup key w.leases) [
  | none ↦ w
  | some l ↦ if str_eq l.value value then record w { leases = erase key w.leases } else w
]

abbrev pub due_leases : ℕ → StringMap Lease → List Lease
due_leases now [] = []
due_leases now ((k, l) ∷ m) =
    if leb l.next_renew_at now then l ∷ due_leases now m else due_leases now m

-- Redis renewed no lease of this key and value: it is among the lost ones.
abbrev pub lease_lost : List Lease → Lease → Bool
lease_lost lost l = any (λ item. str_eq item.key l.key && str_eq item.value l.value) lost

-- One round of the second loop, over a lease that was due.
unfoldable pub settle_one : ℕ → List Lease → Lease → Renewer → Flags → Renewer × Flags
unfolding next_renew_time
settle_one now lost due w fl = elim (lookup due.key w.leases) [
  | none ↦ (w, fl)
  | some l ↦
      if str_eq l.value due.value && lease_lost lost due
      then (record w { leases = erase due.key w.leases }, cancel l.cancellation fl)
      else if str_eq l.value due.value
      then (
        record w {
          leases =
              insert due.key (record l { next_renew_at = next_renew_time now due.ttl_sec })
                w.leases;
        },
        fl,
      )
      else (w, fl)
]

unfoldable pub settle : ℕ → List Lease → List Lease → Renewer → Flags → Renewer × Flags
unfolding settle_one
settle now lost [] w fl = (w, fl)
settle now lost (l ∷ due) w fl =
    let (w', fl') = settle_one now lost l w fl in settle now lost due w' fl'

-- A renewal is due before the time to live has passed, whenever that is two seconds or more, and
-- one second after it was set at the earliest.
pub next_renew_time_bounds :
    (now ttl_sec : ℕ)
    → 2 ≤ ttl_sec
    → (now + 1000 ≤ next_renew_time now ttl_sec)
      × (next_renew_time now ttl_sec < now + 1000 * ttl_sec)
unfolding next_renew_time
next_renew_time_bounds now ttl_sec h = omega arith

-- What a round does with a lease that was due and is still there under its value: if Redis did not
-- renew it, the lease is dropped and its source canceled; if it did, the lease stays, its source is
-- not touched, and its next renewal is set. A key that has another value by now is left alone.
pub settle_one_lem :
    (now : ℕ) (lost : List Lease) (due l : Lease) (w : Renewer) (fl : Flags)
    → lookup due.key w.leases ≡ some l
    → let (w', fl') = settle_one now lost due w fl in
      (str_eq l.value due.value ≡ true
        → lease_lost lost due ≡ true
        → (lookup due.key w'.leases ≡ none) × (is_canceled l.cancellation fl' ≡ true))
      × (str_eq l.value due.value ≡ true
          → lease_lost lost due ≡ false
          → (lookup due.key w'.leases
              ≡ some (record l { next_renew_at = next_renew_time now due.ttl_sec }))
            × (fl' ≡ fl))
      × (str_eq l.value due.value ≡ false → (w' ≡ w) × (fl' ≡ fl))
unfolding settle_one cancel
settle_one_lem now lost due l w fl h = (
  λ v d. ground (arith, h, lookup-erase due.key due.key w.leases, eq_iff due.key due.key),
  λ v d. ground (
    arith,
    h,
    lookup-insert due.key due.key (record l { next_renew_at = next_renew_time now due.ttl_sec })
        w.leases,
    eq_iff due.key due.key,
  ),
  λ v. ground (arith, h),
)

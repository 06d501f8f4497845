-- ===== src/Tasks/Connections.antt =====
-- The connections of MySQLClient in src/mysql/mysql_client.cpp: connect, disconnect and
-- acquireConnection. A slot is shared under its mutex, so that an acquisition is one step; the text
-- of the last error is left aside. What the connector answers is the environment.
pub mod Zones
use coroutine_rpc_scheduler.Common.{
  Bool, List, Option, [], false, get_elem?, if◌then◌else◌, is_empty, length, none, some, suc, true,
  zero, ℕ, ◌%◌, ◌+◌, ◌==◌, ◌∷◌,
}

-- An open connection, and whether its time zone has been set.
pub record Session : Type 0 where
  pub zone_set : Bool

abbrev pub Slot : Type 0
Slot = Option Session

-- How it goes to connect a slot: no connection, one whose SET time_zone fails, or one that is ready.
pub data Attempt : Type 0 where
  no_connection zone_refused attached : Attempt

-- What isClosed says: false, true, or an exception.
pub data Health : Type 0 where
  open_still closed_by_peer unknown : Health

unfoldable pub connect_slot : Attempt → Slot → Bool × Slot
connect_slot no_connection slot = (false, none)
connect_slot zone_refused slot = (false, some (record { zone_set = false }))
connect_slot attached slot = (true, some (record { zone_set = true }))

unfoldable pub ensure_slot : Health → Attempt → Slot → Bool × Slot
unfolding connect_slot
ensure_slot health attempt none = connect_slot attempt none
ensure_slot open_still attempt (some s) = (true, some s)
ensure_slot closed_by_peer attempt (some s) = connect_slot attempt (some s)
ensure_slot unknown attempt (some s) = connect_slot attempt (some s)

-- The slots from number i on, or none where one of them fails.
unfoldable pub connect_slots : (ℕ → Attempt) → ℕ → ℕ → Option (List Slot)
unfolding connect_slot
connect_slots attempts i zero = some []
connect_slots attempts i (suc left) =
    let (connected, slot) = connect_slot (attempts i) none in
    let more = connect_slots attempts (i + 1) left in
    if connected then elim more [ none ↦ none | some slots ↦ some (slot ∷ slots) ] else none

abbrev pub pool_size : ℕ → ℕ
pool_size size = if size == 0 then 1 else size

-- The slots are kept where ensureSchema fails.
unfoldable pub connect_unlocked : ℕ → (ℕ → Attempt) → Bool → Bool × List Slot
unfolding connect_slots
connect_unlocked size attempts schema_is_ready = elim (connect_slots attempts 0 (pool_size size)) [
  | none ↦ (false, [])
  | some [] ↦ (false, [])
  | some (none ∷ slots) ↦ (false, none ∷ slots)
  | some (some s ∷ slots) ↦ (schema_is_ready, some s ∷ slots)
]

pub record Connections : Type 0 where
  pub size : ℕ
  pub slots : List Slot
  pub next_slot : ℕ

abbrev no_slots : List Slot → List Slot
no_slots [] = []
no_slots (slot ∷ slots) = none ∷ no_slots slots

unfoldable pub disconnect : Connections → Connections
disconnect c = record c { slots = no_slots c.slots }

pub record AcquireTurn : Type 0 where
  pub attempts : ℕ → Attempt
  pub schema_is_ready : Bool
  pub health : Health
  pub attempt : Attempt

abbrev pub put : ℕ → Slot → List Slot → List Slot
put i slot [] = []
put zero slot (x ∷ xs) = slot ∷ xs
put (suc i) slot (x ∷ xs) = x ∷ put i slot xs

-- A lease: the number of its slot, and its connection; none is a lease that is not valid.
abbrev pub Lease : Type 0
Lease = Option (ℕ × Session)

abbrev pub lease_of : ℕ → Bool → Slot → Lease
lease_of i connected none = none
lease_of i connected (some s) = if connected then some (i, s) else none

unfoldable pub acquire_connection : AcquireTurn → Connections → Lease × Connections
unfolding connect_unlocked ensure_slot
acquire_connection turn c =
    let first : Bool × List Slot =
      if is_empty c.slots
      then connect_unlocked c.size turn.attempts turn.schema_is_ready
      else (true, c.slots) in
    let (ready, slots) = first in
    let i = c.next_slot % length slots in
    let take_slot : Lease × Connections = elim (get_elem? slots i) [
      | none ↦ (none, record c { slots = slots })
      | some slot ↦
          let (connected, slot') = ensure_slot turn.health turn.attempt slot in
          (
            lease_of i connected slot',
            record c {
              slots = put i slot' slots;
              next_slot = (c.next_slot + 1) % 18446744073709551616;
            },
          )
    ] in
    if ready then take_slot else (none, record c { slots = slots })

-- ===== src/Tasks/Connections/Zones.antt =====
-- The time zone of the connections that MySQLClient hands out.
use coroutine_rpc_scheduler.Common.{
  All, Bool, Bool-cases, List, Option-cases, [], ap, arith, false, get_elem?, if◌then◌else◌, inl,
  inr, is_empty, length, none, refl, some, subst, suc, sym, true, zero, ℕ, ◌%◌, ◌+◌, ◌∙◌, ◌∷◌, ◌≡◌,
  ◌≢◌, ◌⊎◌,
}
use coroutine_rpc_scheduler.Tasks.Connections.{
  Slot, Attempt, no_connection, zone_refused, attached, Health, open_still, closed_by_peer, unknown,
  connect_slot, ensure_slot, connect_slots, connect_unlocked, put, Session, pool_size, Connections,
  AcquireTurn, acquire_connection, lease_of,
}

some-value {ℓ} : {A : Type ℓ} {x y : A} → some x ≡ some y → x ≡ y
some-value {x = x} h = ap (λ o. elim o [ none ↦ x | some z ↦ z ]) h

abbrev pub IsZoned : Slot → Type 0
IsZoned none = Unit {0}
IsZoned (some s) = s.zone_set ≡ true

-- Whatever became of it, a slot that was connected to the end has its time zone.
connect_slot-IsZoned :
    (attempt : Attempt) (slot : Slot)
    → (connect_slot attempt slot).0 ≡ true
    → IsZoned (connect_slot attempt slot).1
unfolding connect_slot
connect_slot-IsZoned no_connection slot h = tt
connect_slot-IsZoned zone_refused slot h = absurd (cc)
connect_slot-IsZoned attached slot h = refl

connect_slot-refused :
    (attempt : Attempt) (slot : Slot)
    → attempt ≢ zone_refused
    → IsZoned (connect_slot attempt slot).1
unfolding connect_slot
connect_slot-refused no_connection slot h = tt
connect_slot-refused zone_refused slot h = absurd (h refl)
connect_slot-refused attached slot h = refl

ensure_slot-IsZoned :
    (health : Health) (attempt : Attempt) (slot : Slot)
    → IsZoned slot
    → let r = ensure_slot health attempt slot in
      (r.0 ≡ true → IsZoned r.1) × (attempt ≢ zone_refused → IsZoned r.1)
unfolding ensure_slot
ensure_slot-IsZoned health attempt none z =
    (connect_slot-IsZoned attempt none, connect_slot-refused attempt none)
ensure_slot-IsZoned open_still attempt (some s) z = (λ h. z, λ h. z)
ensure_slot-IsZoned closed_by_peer attempt (some s) z =
    (connect_slot-IsZoned attempt (some s), connect_slot-refused attempt (some s))
ensure_slot-IsZoned unknown attempt (some s) z =
    (connect_slot-IsZoned attempt (some s), connect_slot-refused attempt (some s))

All-put :
    (i : ℕ) (slot : Slot) (xs : List Slot)
    → IsZoned slot
    → All IsZoned xs
    → All IsZoned (put i slot xs)
All-put i slot [] z a = a
All-put zero slot (x ∷ xs) z (h, a) = (z, a)
All-put (suc i) slot (x ∷ xs) z (h, a) = (h, All-put i slot xs z a)

All-get_elem? :
    (xs : List Slot) (i : ℕ) (slot : Slot)
    → All IsZoned xs
    → get_elem? xs i ≡ some slot
    → IsZoned slot
All-get_elem? [] i slot a h = absurd (cc)
All-get_elem? (x ∷ xs) zero slot (z, a) h = ground (arith, z)
All-get_elem? (x ∷ xs) (suc i) slot (z, a) h = All-get_elem? xs i slot a h

pub connect_slots-All :
    (attempts : ℕ → Attempt) (i left : ℕ) (slots : List Slot)
    → connect_slots attempts i left ≡ some slots
    → All IsZoned slots
unfolding connect_slots
connect_slots-All attempts i zero slots h = subst (All IsZoned) (some-value h) tt
connect_slots-All attempts i (suc left) slots h =
    let one = connect_slot (attempts i) none in
    elim (Option-cases (connect_slots attempts (i + 1) left)) [
      | inl e ↦ absurd (ground (arith, e))
      | inr (more, e) ↦
          let connected : one.0 ≡ true = ground (arith, e) in
          let all : one.1 ∷ more ≡ slots = ground (arith, e, connected) in
          subst (All IsZoned) all (
            connect_slot-IsZoned (attempts i) none connected,
            connect_slots-All attempts (i + 1) left more e,
          )
    ]

connect_unlocked-All :
    (size : ℕ) (attempts : ℕ → Attempt) (schema_is_ready : Bool)
    → All IsZoned (connect_unlocked size attempts schema_is_ready).1
unfolding connect_unlocked
connect_unlocked-All size attempts schema_is_ready =
    let made = (connect_unlocked size attempts schema_is_ready).1 in
    elim (Option-cases (connect_slots attempts 0 (pool_size size))) [
      | inl e ↦ let same : made ≡ [] = ground (arith, e) in subst (All IsZoned) (sym same) tt
      | inr (slots, e) ↦
          let a = connect_slots-All attempts 0 (pool_size size) slots e in
          let same : made ≡ slots = ground (arith, e) in subst (All IsZoned) (sym same) a
    ]

lease_of-IsZoned :
    (i k : ℕ) (connected : Bool) (slot : Slot) (s : Session)
    → (connected ≡ true → IsZoned slot)
    → lease_of k connected slot ≡ some (i, s)
    → s.zone_set ≡ true
lease_of-IsZoned i k connected none s z h = absurd (cc)
lease_of-IsZoned i k connected (some t) s z h = ground (arith, z)

-- The slots that an acquisition finds or makes, and whether they are ready.
abbrev slots_for : AcquireTurn → Connections → Bool × List Slot
slots_for turn c =
    if is_empty c.slots
    then connect_unlocked c.size turn.attempts turn.schema_is_ready
    else (true, c.slots)

slots_for-All :
    (turn : AcquireTurn) (c : Connections) → All IsZoned c.slots → All IsZoned (slots_for turn c).1
slots_for-All turn c a =
    let made = connect_unlocked-All c.size turn.attempts turn.schema_is_ready in
    elim (Bool-cases (is_empty c.slots)) [ inl e ↦ rw e made | inr e ↦ rw e a ]

-- No lease is handed out on a connection without the time zone of the program, as long as the slots
-- hold none; and they hold none again where SET time_zone is not refused to a connection that was
-- just made again. A pool that is connected for the first time drops such a connection.
pub acquire_connection_zone :
    (turn : AcquireTurn) (c : Connections) (i : ℕ) (s : Session)
    → All IsZoned c.slots
    → let r = acquire_connection turn c in
      (r.0 ≡ some (i, s) → s.zone_set ≡ true)
      × (turn.attempt ≢ zone_refused → All IsZoned r.1.slots)
unfolding acquire_connection
acquire_connection_zone turn c i s a =
    let slots = (slots_for turn c).1 in
    let k = c.next_slot % length slots in
    let found = slots_for-All turn c a in
    let left = (acquire_connection turn c).1.slots in
    elim (Bool-cases (slots_for turn c).0) [
      | inr e ↦
          let same : left ≡ slots = ground (arith, e) in
          (λ h. ground (arith, e), λ h. subst (All IsZoned) (sym same) found)
      | inl e ↦ elim (Option-cases (get_elem? slots k)) [
        | inl n ↦
            let same : left ≡ slots = ground (arith, e, n) in
            (λ h. ground (arith, e, n), λ h. subst (All IsZoned) (sym same) found)
        | inr (slot, n) ↦
            let z = All-get_elem? slots k slot found n in
            let t = ensure_slot turn.health turn.attempt slot in
            let (connected, kept) = ensure_slot-IsZoned turn.health turn.attempt slot z in
            let same : left ≡ put k t.1 slots = ground (arith, e, n) in
            let lease : (acquire_connection turn c).0 ≡ lease_of k t.0 t.1 = ground (arith, e, n) in
            (
              λ h. lease_of-IsZoned i k t.0 t.1 s connected (sym lease ∙ h),
              λ h. subst (All IsZoned) (sym same) (All-put k t.1 slots (kept h) found),
            )
      ]
    ]

not_empty : (i : ℕ) (x : Slot) (xs : List Slot) → get_elem? xs i ≡ some x → is_empty xs ≡ false
not_empty i x [] h = absurd (cc)
not_empty i x (y ∷ ys) h = refl

get_elem?-put :
    (i : ℕ) (x y : Slot) (xs : List Slot)
    → get_elem? xs i ≡ some x
    → (get_elem? (put i y xs) i ≡ some y) × (is_empty (put i y xs) ≡ false)
get_elem?-put i x y [] h = absurd (cc)
get_elem?-put zero x y (z ∷ xs) h = (refl, refl)
get_elem?-put (suc i) x y (z ∷ xs) h = ((get_elem?-put i x y xs h).0, refl)

ensure_slot_refused :
    (health : Health) (slot : Slot)
    → (slot ≡ none) ⊎ (health ≢ open_still)
    → ensure_slot health zone_refused slot ≡ (false, some (record { zone_set = false }))
unfolding ensure_slot connect_slot
ensure_slot_refused health none h = refl
ensure_slot_refused open_still (some s) h = absurd (ground arith)
ensure_slot_refused closed_by_peer (some s) h = refl
ensure_slot_refused unknown (some s) h = refl

-- A connection that is made again, and whose SET time_zone is refused, is not handed out at once;
-- but its slot keeps it, and the next acquisition of that slot hands it out as valid, without its
-- time zone, while the connection stays open.
pub acquire_connection_zone_lost :
    (turn later : AcquireTurn) (c c' : Connections) (slot : Slot)
    → let k = c.next_slot % length c.slots in
      get_elem? c.slots k ≡ some slot
      → (slot ≡ none) ⊎ (turn.health ≢ open_still)
      → turn.attempt ≡ zone_refused
      → let r = acquire_connection turn c in
        c'.slots ≡ r.1.slots
        → c'.next_slot % length c'.slots ≡ k
        → later.health ≡ open_still
        → (r.0 ≡ none) × ((acquire_connection later c').0 ≡ some (k, record { zone_set = false }))
unfolding acquire_connection ensure_slot
acquire_connection_zone_lost turn later c c' slot found closed refused slots turn_again open_later =
    let k = c.next_slot % length c.slots in
    let made = some (record { zone_set = false }) in
    let t : ensure_slot turn.health turn.attempt slot ≡ (false, made) =
      ap (λ a. ensure_slot turn.health a slot) refused
      ∙ ensure_slot_refused turn.health slot closed in
    let (kept, filled) = get_elem?-put k slot made c.slots found in
    let some_slots : is_empty c.slots ≡ false = not_empty k slot c.slots found in
    let after : c'.slots ≡ put k made c.slots = slots ∙ ground (arith, some_slots, found, t) in
    let again : get_elem? c'.slots (c'.next_slot % length c'.slots) ≡ some made =
      ap (get_elem? c'.slots) turn_again ∙ ap (λ x. get_elem? x k) after ∙ kept in
    let filled' : is_empty c'.slots ≡ false = ap is_empty after ∙ filled in
    (ground (arith, some_slots, found, t), ground (arith, filled', again, turn_again, open_later))

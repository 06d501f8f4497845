-- ===== src/Handlers/Builtin.antt =====
-- src/worker/builtin_handlers.cpp. The clock is the list of its readings, in milliseconds of the
-- system clock; a list that ends is a handler that still sleeps. `toupper` is that of the C locale.
use Prim.Native.Char.{code}
use coroutine_rpc_scheduler.Common.{
  Bool, List, Option, Option-cases, String, [], arith, false, if◌then◌else◌, inl, inr, is_empty,
  leb, length, ltb, min, none, some, str_append, str_empty, true, ℕ, ◌&&◌, ◌*◌, ◌+◌, ◌-◌, ◌<◌, ◌==◌,
  ◌||◌, ◌∷◌, ◌≡◌, ◌≢◌, ◌≤◌,
}
use coroutine_rpc_scheduler.Handlers.{TaskExecutionContext, HandlerEnd, returned, raised}

abbrev pub codes : String → List ℕ
codes String.[] = []
codes (String.◌∷◌ c s) = code c ∷ codes s

unfoldable pub deadline_exceeded : TaskExecutionContext → ℕ → Bool
deadline_exceeded context now_ms =
    if context.deadline_unix_ms == 0 then false else leb context.deadline_unix_ms now_ms

abbrev is_decimal : ℕ → Bool
is_decimal c = leb 48 c && leb c 57

-- The value of a text of digits; none where another byte stands in it.
unfoldable pub digits_value : ℕ → List ℕ → Option ℕ
digits_value acc [] = some acc
digits_value acc (c ∷ cs) =
    let rest = digits_value (acc * 10 + (c - 48)) cs in if is_decimal c then rest else none

-- std::from_chars for an int, when it has to take all: a minus sign is allowed.
unfoldable pub from_chars : List ℕ → Option (Bool × ℕ)
unfolding digits_value
from_chars [] = none
from_chars (c ∷ cs) =
    let positive : Option (Bool × ℕ) = elim (digits_value 0 (c ∷ cs)) [
      | none ↦ none
      | some n ↦ some (false, n)
    ] in
    let negative : Option (Bool × ℕ) = elim (digits_value 0 cs) [
      | none ↦ none
      | some n ↦ some (true, n)
    ] in
    if c == 45 then if is_empty cs then none else negative else positive

-- none is std::invalid_argument. An int that does not fit is above 30000, or below 0, as well.
unfoldable pub parse_sleep_duration : String → Option ℕ
unfolding from_chars
parse_sleep_duration params = elim (from_chars (codes params)) [
  | none ↦ none
  | some (negative, n) ↦ if (negative && ltb 0 n) || ltb 30000 n then none else some n
]

pub data Slept : Type 0 where
  slept expired sleeping : Slept

abbrev pub slice_ms : ℕ → ℕ
slice_ms remaining = min remaining 25

-- The loop, and the check behind it.
unfoldable pub sleep_loop : TaskExecutionContext → List ℕ → ℕ → Slept
unfolding deadline_exceeded
sleep_loop context [] remaining = sleeping
sleep_loop context (now ∷ clock) remaining =
    let more = sleep_loop context clock (remaining - slice_ms remaining) in
    if deadline_exceeded context now then expired else if ltb 0 remaining then more else slept

-- What the handler `Sleep` ends with; none while it sleeps.
unfoldable pub sleep : List ℕ → TaskExecutionContext → String → Option HandlerEnd
sleep clock context params = elim (parse_sleep_duration params) [
  | none ↦ some (raised "Sleep expects milliseconds in range 0..30000")
  | some duration ↦ elim (sleep_loop context clock duration) [
    | slept ↦ some (returned (str_append "Slept " (str_append params " ms")))
    | expired ↦ some (raised "Task deadline exceeded")
    | sleeping ↦ none
  ]
]

unfoldable pub echo : String → HandlerEnd
echo params = returned (str_append "Echo: " params)

unfoldable pub fail : String → HandlerEnd
fail params = raised (if str_empty params then "Task failed intentionally" else params)

-- A duration that is parsed is within 30 seconds.
pub parse_sleep_duration_bound :
    (params : String) (n : ℕ) → parse_sleep_duration params ≡ some n → n ≤ 30000
unfolding parse_sleep_duration
parse_sleep_duration_bound params n h = ground arith

-- The number of rounds of a sleep.
sleep_loop_ends :
    (context : TaskExecutionContext) (clock : List ℕ) (remaining : ℕ)
    → remaining + 24 < 25 * length clock
    → sleep_loop context clock remaining ≢ sleeping
unfolding sleep_loop
sleep_loop_ends context [] remaining h e = absurd (omega arith)
sleep_loop_ends context (now ∷ clock) remaining h e =
    ground (arith, sleep_loop_ends context clock (remaining - slice_ms remaining))

-- A sleep ends: once the clock has been read 1201 times it has returned or thrown, for all
-- parameters and every deadline.
pub sleep_ends :
    (clock : List ℕ) (context : TaskExecutionContext) (params : String)
    → 1201 ≤ length clock
    → sleep clock context params ≢ none
unfolding sleep
sleep_ends clock context params h e = elim (Option-cases (parse_sleep_duration params)) [
  | inl bad ↦ ground (arith, e, bad)
  | inr (n, good) ↦
      let small = parse_sleep_duration_bound params n good in
      let ends = sleep_loop_ends context clock n (omega (arith, small)) in
      ground (arith, e, good, ends)
]

-- ===== src/Client.antt =====
-- The sockets of src/rpc/rpc_client.cpp: the options of a call, and the loops that wait, send and
-- receive. The kernel is the environment: a `Look` is one round of waitForEvent, and a
-- `TransferRound` is one round of sendAll or recvExact. A list of rounds that ends is a loop that
-- still runs. Deadlines and the clock are in nanoseconds, a deadline of 0 is none.
pub mod Deadline
pub mod Transfer
pub mod Call
pub mod Stream
use coroutine_rpc_scheduler.Common.{
  Bool, List, String, [], drop, if◌then◌else◌, is_empty, leb, length, ltb, min, not, take, ℕ, ◌&&◌,
  ◌*◌, ◌++◌, ◌+◌, ◌-◌, ◌/◌, ◌==◌, ◌∷◌,
}

abbrev pub poll_slice_ms : ℕ
poll_slice_ms = 100

pub data RpcCallStatus : Type 0 where
  ok connect_failed payload_too_large deadline_exceeded : RpcCallStatus
  canceled transport_error protocol_error : RpcCallStatus

unfoldable pub status_name : RpcCallStatus → String
status_name ok = "ok"
status_name connect_failed = "connect failed"
status_name payload_too_large = "payload too large"
status_name deadline_exceeded = "deadline exceeded"
status_name canceled = "canceled"
status_name transport_error = "transport error"
status_name protocol_error = "protocol error"

-- The token of the options is read by the rounds below.
pub record RpcCallOptions : Type 0 where
  pub timeout_ms : ℕ
  pub deadline : ℕ

abbrev pub effective_timeout_ms : ℕ → ℕ
effective_timeout_ms timeout_ms = if ltb 0 timeout_ms then timeout_ms else 3000

unfoldable pub from_timeout : ℕ → ℕ → RpcCallOptions
from_timeout now timeout_ms =
    let t = effective_timeout_ms timeout_ms in
    record { timeout_ms = t; deadline = now + t * 1000000 }

unfoldable pub from_deadline : ℕ → RpcCallOptions
from_deadline deadline = record { timeout_ms = 3000; deadline = deadline }

unfoldable pub has_deadline : RpcCallOptions → Bool
has_deadline o = not (o.deadline == 0)

unfoldable pub ensure_deadline : ℕ → RpcCallOptions → RpcCallOptions
unfolding has_deadline
ensure_deadline now o =
    if not (has_deadline o)
    then record o { deadline = now + effective_timeout_ms o.timeout_ms * 1000000 }
    else o

unfoldable pub is_deadline_exceeded : ℕ → RpcCallOptions → Bool
unfolding has_deadline
is_deadline_exceeded now o = has_deadline o && leb o.deadline now

unfoldable pub remaining_ms : ℕ → RpcCallOptions → ℕ
unfolding has_deadline
remaining_ms now o =
    if not (has_deadline o)
    then effective_timeout_ms o.timeout_ms
    else min ((o.deadline - now) / 1000000) 2147483647

-- What poll answers: the event, another event alone, its time is over, EINTR, another error.
pub data Polled : Type 0 where
  ready hung_up timed_out interrupted failed : Polled

-- One round of waitForEvent: what the token and the clock say, and what poll answers.
pub record Look : Type 0 where
  pub cancellation_requested : Bool
  pub now : ℕ
  pub polled : Polled

pub data Waited : Type 0 where
  event waiting : Waited
  gave_up : RpcCallStatus → Waited

unfoldable pub wait_for_event : RpcCallOptions → List Look → Waited
unfolding remaining_ms
wait_for_event o [] = waiting
wait_for_event o (look ∷ looks) =
    let again = wait_for_event o looks in
    let answer : Waited = elim look.polled [
      | ready ↦ event
      | hung_up ↦ gave_up transport_error
      | timed_out ↦ again
      | interrupted ↦ again
      | failed ↦ gave_up transport_error
    ] in
    if look.cancellation_requested
    then gave_up canceled
    else if leb (remaining_ms look.now o) 0
    then gave_up deadline_exceeded
    else answer

-- What send or recv answers: at most so many bytes, EINTR or EAGAIN, another error.
pub data Moved : Type 0 where
  bytes : ℕ → Moved
  again broken : Moved

-- One round of sendAll or recvExact: the wait, the call, and what terminalStatus reads after it.
pub record TransferRound : Type 0 where
  pub looks : List Look
  pub moved : Moved
  pub cancellation_requested : Bool
  pub now : ℕ

unfoldable pub terminal_status : Bool → ℕ → RpcCallOptions → RpcCallStatus
unfolding is_deadline_exceeded
terminal_status cancellation_requested now o =
    if cancellation_requested
    then canceled
    else if is_deadline_exceeded now o
    then deadline_exceeded
    else transport_error

-- How a loop ends, with the status where it fails.
pub data Ended : Type 0 where
  done running : Ended
  gave_up : RpcCallStatus → Ended

pub data Progress : Type 0 where
  moved : ℕ → Progress
  again : Progress
  stop : Ended → Progress

-- A round of either loop, up to the count that the call answers.
unfoldable pub one_round : RpcCallOptions → TransferRound → Progress
unfolding wait_for_event terminal_status
one_round o r = elim (wait_for_event o r.looks) [
  | waiting ↦ stop running
  | gave_up status ↦ stop (Ended.gave_up status)
  | event ↦ elim r.moved [
    | bytes k ↦ moved k
    | again ↦ Progress.again
    | broken ↦ stop (Ended.gave_up (terminal_status r.cancellation_requested r.now o))
  ]
]

-- `sent` bytes of the data have gone out.
pub record SendState : Type 0 where
  pub ended : Ended
  pub sent : ℕ

unfoldable pub send_all : RpcCallOptions → ℕ → ℕ → List TransferRound → SendState
unfolding one_round terminal_status
send_all o size sent [] = record { ended = if ltb sent size then running else done; sent = sent }
send_all o size sent (r ∷ rounds) =
    let end : Ended → SendState = λ e. record { ended = e; sent = sent } in
    let go : SendState = elim (one_round o r) [
      | moved k ↦
          let n = min k (size - sent) in
          let more = send_all o size (sent + n) rounds in
          if ltb 0 n
          then more
          else end (Ended.gave_up (terminal_status r.cancellation_requested r.now o))
      | again ↦ send_all o size sent rounds
      | stop e ↦ end e
    ] in
    if ltb sent size then go else end done

-- `received` is the filled part of the buffer, `incoming` what the peer sends from then on.
pub record Receiving : Type 0 where
  pub ended : Ended
  pub received : List ℕ
  pub incoming : List ℕ

unfoldable pub recv_exact : RpcCallOptions → ℕ → List ℕ → List TransferRound → List ℕ → Receiving
unfolding one_round terminal_status
recv_exact o size received [] incoming = record {
  ended = if ltb (length received) size then running else done;
  received = received;
  incoming = incoming;
}
recv_exact o size received (r ∷ rounds) incoming =
    let end : Ended → Receiving =
      λ e. record { ended = e; received = received; incoming = incoming } in
    let go : Receiving = elim (one_round o r) [
      | moved k ↦
          let chunk = take (min k (size - length received)) incoming in
          let more = recv_exact o size (received ++ chunk) rounds (drop (length chunk) incoming) in
          if is_empty chunk
          then end (Ended.gave_up (terminal_status r.cancellation_requested r.now o))
          else more
      | again ↦ recv_exact o size received rounds incoming
      | stop e ↦ end e
    ] in
    if ltb (length received) size then go else end done

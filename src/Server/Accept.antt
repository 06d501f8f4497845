-- ===== src/Server/Accept.antt =====
-- TcpServer of src/net/tcp_server.cpp: the listening socket, and the connections that are accepted
-- within their limit. What the system calls answer is the environment.
use coroutine_rpc_scheduler.Common.{
  Bool-cases, List, [], arith, if◌then◌else◌, inl, inr, leb, ltb, ℕ, ◌+◌, ◌-◌, ◌<◌, ◌∷◌, ◌≡◌, ◌≤◌,
}
use coroutine_rpc_scheduler.Metrics.{
  Metrics, u64, inc_active_connection, dec_active_connection, inc_rejected_connection,
}

-- Whether the coroutine of a connection waits, has returned at once, or could not be made.
pub data Started : Type 0 where
  waits returns not_started : Started

-- What accept4 answers: EAGAIN, EINTR, another error, or a connection.
pub data Accepted : Type 0 where
  no_more interrupted failed : Accepted
  connection : Started → Accepted

-- `open_handlers` counts the coroutines that have not returned: each holds a socket.
pub record Acceptor : Type 0 where
  pub active_connections : ℕ
  pub metrics : Metrics
  pub open_handlers : ℕ

-- ~ClientConnectionGuard, at the end of a coroutine. The counter is a size_t.
unfoldable pub end_connection : Acceptor → Acceptor
unfolding dec_active_connection
end_connection s = record {
  active_connections = u64 (s.active_connections + 18446744073709551615);
  metrics = dec_active_connection s.metrics;
  open_handlers = s.open_handlers - 1;
}

unfoldable pub start_handler : Started → Acceptor → Acceptor
unfolding end_connection
start_handler started s =
    let s' = record s {
      active_connections = u64 (s.active_connections + 1);
      metrics = inc_active_connection s.metrics;
    } in
    let opened = record s' { open_handlers = s'.open_handlers + 1 } in
    elim started [
      | waits ↦ opened
      | returns ↦ end_connection opened
      | not_started ↦ record s' {
        active_connections = u64 (s'.active_connections + 18446744073709551615);
        metrics = dec_active_connection s'.metrics;
      }
    ]

-- The loop of accept4, up to an answer that ends it or a loop that stops.
unfoldable pub handle_accept : ℕ → List Accepted → Acceptor → Acceptor
unfolding start_handler inc_active_connection dec_active_connection inc_rejected_connection
handle_accept max_connections [] s = s
handle_accept max_connections (answer ∷ answers) s =
    let rejected = record s { metrics = inc_rejected_connection s.metrics } in
    elim answer [
      | no_more ↦ s
      | failed ↦ s
      | interrupted ↦ handle_accept max_connections answers s
      | connection started ↦
          let next =
            if leb max_connections s.active_connections
            then rejected
            else start_handler started s in
          handle_accept max_connections answers next
    ]

-- What happens to the acceptor: its socket is ready, or a coroutine returns.
pub data Event : Type 0 where
  ready : List Accepted → Event
  returned : Event

unfoldable pub happen : ℕ → Event → Acceptor → Acceptor
unfolding handle_accept end_connection
happen max_connections (ready answers) s = handle_accept max_connections answers s
happen max_connections returned s = if ltb 0 s.open_handlers then end_connection s else s

unfoldable pub run : ℕ → List Event → Acceptor → Acceptor
run max_connections [] s = s
run max_connections (e ∷ es) s = run max_connections es (happen max_connections e s)

-- The counter and the gauge are the open connections, which are within the limit.
pub record IsCounted (max_connections : ℕ) (s : Acceptor) : Type 0 where
  pub active : s.active_connections ≡ s.open_handlers
  pub gauge : s.metrics.active_connections ≡ s.open_handlers
  pub within : s.open_handlers ≤ max_connections

start_handler-IsCounted :
    (max_connections : ℕ) (started : Started) (s : Acceptor)
    → max_connections < 18446744073709551616
    → s.open_handlers < max_connections
    → IsCounted max_connections s
    → IsCounted max_connections (start_handler started s)
unfolding start_handler inc_active_connection dec_active_connection
start_handler-IsCounted max_connections waits s b h v = ground arith
start_handler-IsCounted max_connections returns s b h v = ground arith
start_handler-IsCounted max_connections not_started s b h v = ground arith

handle_accept-IsCounted :
    (max_connections : ℕ) (answers : List Accepted) (s : Acceptor)
    → max_connections < 18446744073709551616
    → IsCounted max_connections s
    → IsCounted max_connections (handle_accept max_connections answers s)
unfolding handle_accept
handle_accept-IsCounted max_connections [] s b v = v
handle_accept-IsCounted max_connections (no_more ∷ answers) s b v = v
handle_accept-IsCounted max_connections (failed ∷ answers) s b v = v
handle_accept-IsCounted max_connections (interrupted ∷ answers) s b v =
    handle_accept-IsCounted max_connections answers s b v
handle_accept-IsCounted max_connections (connection started ∷ answers) s b v =
    handle_accept-IsCounted max_connections answers next b next_is
  where
    next : Acceptor
    next =
        if leb max_connections s.active_connections
        then record s { metrics = inc_rejected_connection s.metrics }
        else start_handler started s

    next_is : IsCounted max_connections next
    next_is = elim (Bool-cases (leb max_connections s.active_connections)) [
      | inl e ↦ rw e (record { active = v.active; gauge = v.gauge; within = v.within })
      | inr e ↦
          rw e (start_handler-IsCounted max_connections started s b (ground (arith, e, v.active)) v)
    ]

happen-IsCounted :
    (max_connections : ℕ) (e : Event) (s : Acceptor)
    → max_connections < 18446744073709551616
    → IsCounted max_connections s
    → IsCounted max_connections (happen max_connections e s)
unfolding happen
happen-IsCounted max_connections (ready answers) s b v =
    handle_accept-IsCounted max_connections answers s b v
happen-IsCounted max_connections returned s b v = ground arith

-- Whatever clients connect and leave, in whatever order, and whatever fails: the server holds no
-- more connections than its limit, its counter and the gauge of the metrics are their number, and
-- the counter never falls below 0. The server starts with no connection.
pub run-IsCounted :
    (max_connections : ℕ) (es : List Event) (s : Acceptor)
    → max_connections < 18446744073709551616
    → IsCounted max_connections s
    → IsCounted max_connections (run max_connections es s)
unfolding run
run-IsCounted max_connections [] s b v = v
run-IsCounted max_connections (e ∷ es) s b v =
    run-IsCounted max_connections es (happen max_connections e s) b
      (happen-IsCounted max_connections e s b v)

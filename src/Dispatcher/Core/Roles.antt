-- ===== src/Dispatcher/Core/Roles.antt =====
-- Which handlers a role can reach.
use coroutine_rpc_scheduler.Common.{List, String, arith, ℕ, ◌≡◌}
use coroutine_rpc_scheduler.Dispatcher.{ErrorCode, control_plane, worker}
use coroutine_rpc_scheduler.Metrics.{Metrics}
use coroutine_rpc_scheduler.Dispatcher.Core.{dispatch_core, Handler, Handlers}

module _ {ℓ} {S : Type ℓ} (error_payload : ErrorCode → String → List ℕ) where
  -- A worker answers with no more than four handlers: whatever the others would do, to the store or
  -- anything else, its answers, counters and state are the same.
  pub dispatch_core-worker :
      (h h' : Handlers S) (serial_id : ℕ) (payload : List ℕ) (m : Metrics) (s : S)
      → h.handle_echo ≡ h'.handle_echo
      → h.handle_execute_task ≡ h'.handle_execute_task
      → h.handle_get_metrics ≡ h'.handle_get_metrics
      → h.handle_health_check ≡ h'.handle_health_check
      → dispatch_core error_payload worker h serial_id payload m s
        ≡ dispatch_core error_payload worker h' serial_id payload m s
  unfolding dispatch_core
  dispatch_core-worker h h' serial_id payload m s echo execute metrics health = ground arith

  -- A node of the control plane never executes a task itself: whatever the handler of a worker would
  -- do, its answers, counters and state are the same.
  pub dispatch_core-control_plane :
      (h : Handlers S) (execute : Handler S) (serial_id : ℕ) (payload : List ℕ) (m : Metrics)
      (s : S)
      → dispatch_core error_payload control_plane h serial_id payload m s
        ≡ dispatch_core error_payload control_plane
            (record h { handle_execute_task = execute })
            serial_id
            payload
            m
            s
  unfolding dispatch_core
  dispatch_core-control_plane h execute serial_id payload m s = ground arith

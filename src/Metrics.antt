-- ===== src/Metrics.antt =====
-- src/metrics/metrics.cpp. A counter is a std::atomic<uint64_t>, and wraps; each change of one is
-- a step of its own. A sample window is an array of 1024 numbers, with the count of all samples.
pub mod Window
pub mod Percentile
pub mod Alerts
use coroutine_rpc_scheduler.Common.{if◌then◌else◌, ltb, ℕ, ◌%◌, ◌+◌, ◌==◌}

abbrev pub u64 : ℕ → ℕ
u64 n = n % 18446744073709551616

abbrev pub sample_window_size : ℕ
sample_window_size = 1024

pub record Samples : Type 0 where
  pub values : ℕ → ℕ
  pub total : ℕ

pub record Metrics : Type 0 where
  pub rpc_requests_total : ℕ
  pub rpc_success_total : ℕ
  pub rpc_error_total : ℕ
  pub active_connections : ℕ
  pub rejected_connections : ℕ
  pub malformed_frames : ℕ
  pub bytes_in_total : ℕ
  pub bytes_out_total : ℕ
  pub task_success_total : ℕ
  pub task_failure_total : ℕ
  pub lock_acquire_success_total : ℕ
  pub lock_acquire_failure_total : ℕ
  pub max_task_duration_ms : ℕ
  pub schedule_delay_max_ms : ℕ
  pub task_durations : Samples
  pub schedule_delays : Samples

abbrev pub no_samples : Samples
no_samples = record { values = λ _. 0; total = 0 }

abbrev pub no_metrics : Metrics
no_metrics = record {
  rpc_requests_total = 0;
  rpc_success_total = 0;
  rpc_error_total = 0;
  active_connections = 0;
  rejected_connections = 0;
  malformed_frames = 0;
  bytes_in_total = 0;
  bytes_out_total = 0;
  task_success_total = 0;
  task_failure_total = 0;
  lock_acquire_success_total = 0;
  lock_acquire_failure_total = 0;
  max_task_duration_ms = 0;
  schedule_delay_max_ms = 0;
  task_durations = no_samples;
  schedule_delays = no_samples;
}

unfoldable pub inc_rpc_request : Metrics → Metrics
inc_rpc_request m = record m { rpc_requests_total = u64 (m.rpc_requests_total + 1) }

unfoldable pub inc_rpc_success : Metrics → Metrics
inc_rpc_success m = record m { rpc_success_total = u64 (m.rpc_success_total + 1) }

unfoldable pub inc_rpc_error : Metrics → Metrics
inc_rpc_error m = record m { rpc_error_total = u64 (m.rpc_error_total + 1) }

unfoldable pub inc_active_connection : Metrics → Metrics
inc_active_connection m = record m { active_connections = u64 (m.active_connections + 1) }

-- fetch_sub wraps at 0.
unfoldable pub dec_active_connection : Metrics → Metrics
dec_active_connection m = record m {
  active_connections = u64 (m.active_connections + 18446744073709551615);
}

unfoldable pub inc_rejected_connection : Metrics → Metrics
inc_rejected_connection m = record m { rejected_connections = u64 (m.rejected_connections + 1) }

unfoldable pub inc_malformed_frame : Metrics → Metrics
inc_malformed_frame m = record m { malformed_frames = u64 (m.malformed_frames + 1) }

unfoldable pub add_bytes_in : ℕ → Metrics → Metrics
add_bytes_in n m = record m { bytes_in_total = u64 (m.bytes_in_total + n) }

unfoldable pub add_bytes_out : ℕ → Metrics → Metrics
add_bytes_out n m = record m { bytes_out_total = u64 (m.bytes_out_total + n) }

unfoldable pub inc_task_success : Metrics → Metrics
inc_task_success m = record m { task_success_total = u64 (m.task_success_total + 1) }

unfoldable pub inc_task_failure : Metrics → Metrics
inc_task_failure m = record m { task_failure_total = u64 (m.task_failure_total + 1) }

unfoldable pub inc_lock_acquire_success : Metrics → Metrics
inc_lock_acquire_success m = record m {
  lock_acquire_success_total = u64 (m.lock_acquire_success_total + 1);
}

unfoldable pub inc_lock_acquire_failure : Metrics → Metrics
inc_lock_acquire_failure m = record m {
  lock_acquire_failure_total = u64 (m.lock_acquire_failure_total + 1);
}

-- The loop of compare_exchange ends with the larger of the two.
unfoldable pub update_max : ℕ → ℕ → ℕ
update_max current observed = if ltb current observed then observed else current

abbrev pub set_at : (ℕ → ℕ) → ℕ → ℕ → ℕ → ℕ
set_at f i v j = if i == j then v else f j

unfoldable pub observe : ℕ → Samples → Samples
observe v s = record {
  values = set_at s.values (s.total % sample_window_size) v;
  total = u64 (s.total + 1);
}

unfoldable pub observe_task_duration : ℕ → Metrics → Metrics
unfolding update_max observe
observe_task_duration duration_ms m = record m {
  max_task_duration_ms = update_max m.max_task_duration_ms duration_ms;
  task_durations = observe duration_ms m.task_durations;
}

unfoldable pub observe_schedule_delay : ℕ → Metrics → Metrics
unfolding update_max observe
observe_schedule_delay delay_ms m = record m {
  schedule_delay_max_ms = update_max m.schedule_delay_max_ms delay_ms;
  schedule_delays = observe delay_ms m.schedule_delays;
}

-- ===== src/Metrics/Alerts.antt =====
-- src/metrics/alert_rules.cpp. `part * 100 / total` is computed in long double, which holds every
-- uint64_t exactly on x86-64; the quotient that the cast truncates is a parameter, `ratio`.
use coroutine_rpc_scheduler.Common.{
  Bool, List, String, [], any, arith, if◌then◌else◌, leb, ltb, or-false, str_eq, ℕ, ◌&&◌, ◌++◌, ◌+◌,
  ◌==◌, ◌||◌, ◌∷◌, ◌≡◌,
}
use coroutine_rpc_scheduler.Metrics.{u64}
use coroutine_rpc_scheduler.Metrics.Percentile.{MetricsSnapshot, snapshot}

pub record AlertRuleConfig : Type 0 where
  pub min_rpc_requests : ℕ
  pub rpc_error_rate_percent : ℕ
  pub min_task_executions : ℕ
  pub task_failure_rate_percent : ℕ
  pub min_lock_attempts : ℕ
  pub lock_failure_rate_percent : ℕ
  pub schedule_delay_p99_ms : ℕ
  pub task_duration_p99_ms : ℕ

-- Every alert has the severity "warning".
pub record Alert : Type 0 where
  pub name : String
  pub severity : String
  pub message : String
  pub observed : ℕ
  pub threshold : ℕ

abbrev pub warning : String → String → ℕ → ℕ → Alert
warning name message observed threshold = record {
  name = name;
  severity = "warning";
  message = message;
  observed = observed;
  threshold = threshold;
}

module _ (ratio : ℕ → ℕ → ℕ) where
  unfoldable pub percent : ℕ → ℕ → ℕ
  percent part total = if total == 0 then 0 else ratio part total

  unfoldable pub add_ratio_alert : List Alert → String → String → ℕ → ℕ → ℕ → ℕ → List Alert
  unfolding percent
  add_ratio_alert alerts name message total part min_total threshold_percent =
      let observed_percent = percent part total in
      if ltb total min_total
      then alerts
      else if leb threshold_percent observed_percent
      then alerts
        ++ (record {
          name = name;
          severity = "warning";
          message = message;
          observed = observed_percent;
          threshold = threshold_percent;
        }
            ∷ [])
      else alerts

  unfoldable pub add_latency_alert : List Alert → String → String → ℕ → ℕ → ℕ → List Alert
  add_latency_alert alerts name message samples observed_ms threshold_ms =
      if samples == 0 || threshold_ms == 0
      then alerts
      else if leb threshold_ms observed_ms
      then alerts
        ++ (record {
          name = name;
          severity = "warning";
          message = message;
          observed = observed_ms;
          threshold = threshold_ms;
        }
            ∷ [])
      else alerts

  unfoldable pub evaluate : MetricsSnapshot → AlertRuleConfig → List Alert
  evaluate snapshot config =
      let m = snapshot.counters in
      let alerts1 =
        add_ratio_alert [] "rpc_error_rate_high" "RPC error rate is above threshold"
          m.rpc_requests_total m.rpc_error_total config.min_rpc_requests
          config.rpc_error_rate_percent in
      let alerts2 =
        add_ratio_alert alerts1 "task_failure_rate_high" "Task failure rate is above threshold"
          (u64 (m.task_success_total + m.task_failure_total)) m.task_failure_total
          config.min_task_executions config.task_failure_rate_percent in
      let alerts3 =
        add_ratio_alert alerts2 "lock_failure_rate_high" "Redis lock acquire failure rate is high"
          (u64 (m.lock_acquire_success_total + m.lock_acquire_failure_total))
          m.lock_acquire_failure_total config.min_lock_attempts config.lock_failure_rate_percent in
      let alerts4 =
        add_latency_alert alerts3 "schedule_delay_p99_high" "Schedule delay p99 is above threshold"
          m.schedule_delays.total snapshot.schedule_delay_p99_ms config.schedule_delay_p99_ms in
      add_latency_alert alerts4 "task_duration_p99_high" "Task duration p99 is above threshold"
        m.task_durations.total snapshot.task_duration_p99_ms config.task_duration_p99_ms

  abbrev pub has_alert : String → List Alert → Bool
  has_alert name = any (λ a. str_eq a.name name)

  any-append :
      (name : String) (xs : List Alert) (a : Alert)
      → has_alert name (xs ++ (a ∷ [])) ≡ (has_alert name xs || str_eq a.name name)
  any-append name [] a = ground arith
  any-append name (x ∷ xs) a = ground (arith, any-append name xs a)

  add_ratio_alert_lem :
      (n name message : String) (alerts : List Alert) (total part min_total threshold : ℕ)
      → has_alert n (add_ratio_alert alerts name message total part min_total threshold) ≡ (
          has_alert n alerts
          || (str_eq name n && (leb min_total total && leb threshold (percent part total))))
  unfolding add_ratio_alert
  add_ratio_alert_lem n name message alerts total part min_total threshold =
      ground (arith, any-append n alerts (warning name message (percent part total) threshold))

  add_latency_alert_lem :
      (n name message : String) (alerts : List Alert) (samples observed threshold : ℕ)
      → has_alert n (add_latency_alert alerts name message samples observed threshold) ≡ (
          has_alert n alerts
          || (str_eq name n && (ltb 0 samples && (ltb 0 threshold && leb threshold observed))))
  unfolding add_latency_alert
  add_latency_alert_lem n name message alerts samples observed threshold =
      ground (arith, any-append n alerts (warning name message observed threshold))

  ruleset laws = (add_ratio_alert_lem, add_latency_alert_lem)

  -- The ratio alerts fire exactly when enough was counted and the rate reaches the threshold, and
  -- the latency alerts exactly when there are samples, the threshold is not 0, and the p99 reaches
  -- it.
  pub evaluate_lem :
      (shot : MetricsSnapshot) (config : AlertRuleConfig)
      → let m = shot.counters in
        let tasks = u64 (m.task_success_total + m.task_failure_total) in
        let locks = u64 (m.lock_acquire_success_total + m.lock_acquire_failure_total) in
        let alerts = evaluate shot config in
        (has_alert "rpc_error_rate_high" alerts ≡ (
          leb config.min_rpc_requests m.rpc_requests_total
          && leb config.rpc_error_rate_percent (percent m.rpc_error_total m.rpc_requests_total)))
        × (has_alert "task_failure_rate_high" alerts ≡ (
            leb config.min_task_executions tasks
            && leb config.task_failure_rate_percent (percent m.task_failure_total tasks)))
        × (has_alert "lock_failure_rate_high" alerts ≡ (
            leb config.min_lock_attempts locks
            && leb config.lock_failure_rate_percent (percent m.lock_acquire_failure_total locks)))
        × (has_alert "schedule_delay_p99_high" alerts ≡ (
            ltb 0 m.schedule_delays.total
            && (ltb 0 config.schedule_delay_p99_ms
                && leb config.schedule_delay_p99_ms shot.schedule_delay_p99_ms)))
        × (has_alert "task_duration_p99_high" alerts ≡ (
            ltb 0 m.task_durations.total
            && (ltb 0 config.task_duration_p99_ms
                && leb config.task_duration_p99_ms shot.task_duration_p99_ms)))
  unfolding evaluate
  evaluate_lem shot config = (
    simp laws (simp or-false),
    simp laws (simp or-false),
    simp laws (simp or-false),
    simp laws (simp or-false),
    simp laws,
  )

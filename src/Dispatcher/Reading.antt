-- ===== src/Dispatcher/Reading.antt =====
-- The handlers of src/rpc/rpc_dispatcher.cpp that only read. A limit, an offset or a count of
-- samples that is not positive is 0, and a total is below 2^31.
pub mod Bounds
use coroutine_rpc_scheduler.Common.{
  Bool, List, Option, String, [], if◌then◌else◌, ltb, none, not, some, str_append, str_empty,
  str_eq, suc, zero, ℕ, ◌+◌, ◌==◌, ◌||◌, ◌∷◌,
}
use coroutine_rpc_scheduler.Dispatcher.{
  Dispatcher, ErrorCode, bad_request, internal_error, db_error, unauthorized,
}
use coroutine_rpc_scheduler.Dispatcher.Auth.{authorized}
use coroutine_rpc_scheduler.Metrics.Percentile.{MetricsSnapshot, snapshot}
use coroutine_rpc_scheduler.Tasks.{TaskMeta, task_scheduled}
use coroutine_rpc_scheduler.Tasks.History.{TaskHistory}
use coroutine_rpc_scheduler.Tasks.Pages.{
  TaskQuery, Filter, all, only, TaskPage, HistoryQuery, HistoryPage, list_tasks, list_history,
}

-- An RpcError, or the method's own response.
pub data ReadResponse {ℓ} (R : Type ℓ) : Type ℓ where
  refused : ErrorCode → String → ReadResponse R
  answers : R → ReadResponse R

-- The two checks that the handlers begin with.
abbrev pub checked {ℓ κ} :
    {Q : Type ℓ} {R : Type κ}
    → Dispatcher
    → String
    → (Q → List ℕ)
    → Option Q
    → (Q → ReadResponse R)
    → ReadResponse R
checked d name token none go = refused bad_request (str_append "Parse " (str_append name " failed"))
checked d name token (some req) go =
    if authorized d.auth_token (token req)
    then go req
    else refused unauthorized "Invalid auth token"

pub record EchoRequest : Type 0 where
  pub message : String
  pub auth_token : List ℕ

unfoldable pub handle_echo : Dispatcher → Option EchoRequest → ReadResponse String
unfolding authorized
handle_echo d request =
    checked d "EchoRequest" (λ r. r.auth_token) request
      (λ req. answers (str_append "Echo: " req.message))

pub record ListTasksRequest : Type 0 where
  pub limit : ℕ
  pub offset : ℕ
  pub keyword : String
  pub status_filter : Option Filter
  pub enabled_only : Bool
  pub auth_token : List ℕ

pub record ListTasksResponse : Type 0 where
  pub tasks : List TaskMeta
  pub total : ℕ
  pub offset : ℕ
  pub limit : ℕ

abbrev pub page_limit : ℕ → ℕ
page_limit limit = let l = if ltb 0 limit then limit else 100 in if ltb 500 l then 500 else l

abbrev pub task_query : ListTasksRequest → TaskQuery
task_query req = record {
  limit = page_limit req.limit;
  offset = req.offset;
  keyword = req.keyword;
  status_filter = elim req.status_filter [
    | some filter ↦ filter
    | none ↦ if req.enabled_only then only task_scheduled else all
  ];
}

-- `list_tasks` is MySQLClient::listTasks.
unfoldable pub handle_list_tasks :
    Dispatcher → (TaskQuery → TaskPage) → Option ListTasksRequest → ReadResponse ListTasksResponse
unfolding authorized
handle_list_tasks d list_tasks request =
    checked d "ListTasksRequest" (λ r. r.auth_token) request
      (λ req.
        let query = task_query req in
        let page = list_tasks query in
        if not d.has_db
        then refused db_error "DB client is not available"
        else answers (record {
          tasks = page.items;
          total = page.total;
          offset = query.offset;
          limit = query.limit;
        }))

pub record ListHistoryRequest : Type 0 where
  pub task_id : String
  pub limit : ℕ
  pub offset : ℕ
  pub keyword : String
  pub success_filter : Option Filter
  pub auth_token : List ℕ

pub record ListHistoryResponse : Type 0 where
  pub history : List TaskHistory
  pub total : ℕ
  pub offset : ℕ
  pub limit : ℕ

abbrev pub history_query : ListHistoryRequest → HistoryQuery
history_query req = record {
  task_id = req.task_id;
  limit = page_limit req.limit;
  offset = req.offset;
  keyword = req.keyword;
  success_filter = elim req.success_filter [ some filter ↦ filter | none ↦ all ];
}

-- `list_history` is MySQLClient::listHistory.
unfoldable pub handle_list_history :
    Dispatcher
    → (HistoryQuery → HistoryPage)
    → Option ListHistoryRequest
    → ReadResponse ListHistoryResponse
unfolding authorized
handle_list_history d list_history request =
    checked d "ListHistoryRequest" (λ r. r.auth_token) request
      (λ req.
        let query = history_query req in
        let page = list_history query in
        if not d.has_db
        then refused db_error "DB client is not available"
        else answers (record {
          history = page.items;
          total = page.total;
          offset = query.offset;
          limit = query.limit;
        }))

pub record ListServicesRequest : Type 0 where
  pub service_name : String
  pub auth_token : List ℕ

unfoldable pub handle_list_services :
    Dispatcher → Option ListServicesRequest → ReadResponse (List String)
unfolding authorized
handle_list_services d request =
    checked d "ListServicesRequest" (λ r. r.auth_token) request
      (λ req. elim d.discover [
        | none ↦ refused internal_error "Redis client is not available"
        | some discover ↦
            answers (discover (if str_empty req.service_name then "rpc" else req.service_name))
      ])

-- GetMetricsRequest; `samples` is StreamMetricsRequest's.
pub record MetricsRequest : Type 0 where
  pub samples : ℕ
  pub auth_token : List ℕ

unfoldable pub handle_get_metrics :
    Dispatcher → MetricsSnapshot → Option MetricsRequest → ReadResponse MetricsSnapshot
unfolding authorized
handle_get_metrics d snapshot request =
    checked d "GetMetricsRequest" (λ r. r.auth_token) request (λ req. answers snapshot)

pub record HealthCheckResponse : Type 0 where
  pub serving : Bool
  pub status : String
  pub node_id : String
  pub unix_time_ms : ℕ

-- A health check has no token. `service_name` is the dispatcher's own.
unfoldable pub handle_health_check :
    Dispatcher → String → ℕ → Option String → ReadResponse HealthCheckResponse
handle_health_check d service_name now_ms none =
    refused bad_request "Parse HealthCheckRequest failed"
handle_health_check d service_name now_ms (some asked) =
    let known_service = str_empty asked || str_eq asked service_name in
    answers (record {
      serving = known_service;
      status = if known_service then "SERVING" else "UNKNOWN_SERVICE";
      node_id = d.node_id;
      unix_time_ms = now_ms;
    })

pub record StreamMetricsResponse : Type 0 where
  pub sequence : ℕ
  pub end_of_stream : Bool
  pub metrics : MetricsSnapshot

abbrev pub sample_count : ℕ → ℕ
sample_count samples = let n = if ltb 0 samples then samples else 3 in if ltb 10 n then 10 else n

-- The loop from `i` on, with so many rounds left; `snapshot` is the i-th that is read.
unfoldable pub stream_samples : (ℕ → MetricsSnapshot) → ℕ → ℕ → ℕ → List StreamMetricsResponse
stream_samples snapshot samples i zero = []
stream_samples snapshot samples i (suc left) =
    record { sequence = i; end_of_stream = i + 1 == samples; metrics = snapshot i }
    ∷ stream_samples snapshot samples (i + 1) left

unfoldable pub handle_stream_metrics :
    Dispatcher
    → (ℕ → MetricsSnapshot)
    → Option MetricsRequest
    → ReadResponse (List StreamMetricsResponse)
unfolding authorized stream_samples
handle_stream_metrics d snapshot request =
    checked d "StreamMetricsRequest" (λ r. r.auth_token) request
      (λ req.
        let samples = sample_count req.samples in
        answers (stream_samples snapshot samples 0 samples))

-- ===== src/Dispatcher/Reading/Bounds.antt =====
-- The sizes of what the reading handlers answer.
use coroutine_rpc_scheduler.Common.{
  Bool, List, String, ap, arith, drop, get_elem?, if◌then◌else◌, keep_if, length, length-map,
  length-take, map, refl, some, suc, sym, zero, ℕ, ◌%◌, ◌+◌, ◌<◌, ◌==◌, ◌∙◌, ◌≡◌, ◌≤◌,
}
use coroutine_rpc_scheduler.Dispatcher.{Dispatcher}
use coroutine_rpc_scheduler.Metrics.Percentile.{MetricsSnapshot, snapshot}
use coroutine_rpc_scheduler.Tasks.{Table}
use coroutine_rpc_scheduler.Tasks.Queries.{to_meta, length-read_rows-le}
use coroutine_rpc_scheduler.Common.Sort.{sort_by}
use coroutine_rpc_scheduler.Tasks.Pages.{
  TaskQuery, PageReply, not_counted, counted, window, newest_first, matches_task, list_tasks,
}
use coroutine_rpc_scheduler.Dispatcher.Reading.{
  handle_stream_metrics, answers, MetricsRequest, StreamMetricsResponse, sample_count,
  stream_samples, ListTasksRequest, ListTasksResponse, page_limit, task_query, handle_list_tasks,
}

length-stream_samples :
    (snapshot : ℕ → MetricsSnapshot) (samples i left : ℕ)
    → length (stream_samples snapshot samples i left) ≡ left
unfolding stream_samples
length-stream_samples snapshot samples i zero = refl
length-stream_samples snapshot samples i (suc left) =
    ap suc (length-stream_samples snapshot samples (i + 1) left)

get_elem?-stream_samples :
    (snapshot : ℕ → MetricsSnapshot) (samples i left k : ℕ)
    → k < left
    → get_elem? (stream_samples snapshot samples i left) k
      ≡ some (record {
        sequence = i + k;
        end_of_stream = i + k + 1 == samples;
        metrics = snapshot (i + k);
      })
unfolding stream_samples
get_elem?-stream_samples snapshot samples i zero k h = elim h [ ]
get_elem?-stream_samples snapshot samples i (suc left) zero h =
    let e : i ≡ i + 0 = omega arith in
    ap (λ n. some (record { sequence = n; end_of_stream = n + 1 == samples; metrics = snapshot n }))
      e
get_elem?-stream_samples snapshot samples i (suc left) (suc k) h =
    let e : i + 1 + k ≡ i + suc k = omega arith in
    get_elem?-stream_samples snapshot samples (i + 1) left k (omega arith)
    ∙ ap
        (λ n.
          some (record { sequence = n; end_of_stream = n + 1 == samples; metrics = snapshot n }))
        e

-- A stream of metrics has between 1 and 10 responses, as many as were asked for within that; they
-- are numbered from 0, and the last of them alone ends the stream, so that a client that reads on
-- until the end stops at the last response.
pub handle_stream_metrics_lem :
    (d : Dispatcher) (snapshot : ℕ → MetricsSnapshot) (req : MetricsRequest)
    (responses : List StreamMetricsResponse) (k : ℕ)
    → handle_stream_metrics d snapshot (some req) ≡ answers responses
    → k < length responses
    → (0 < length responses)
      × (length responses ≤ 10)
      × (0 < req.samples → req.samples ≤ 10 → length responses ≡ req.samples)
      × (get_elem? responses k
          ≡ some (record {
            sequence = k;
            end_of_stream = k + 1 == length responses;
            metrics = snapshot k;
          }))
unfolding handle_stream_metrics
handle_stream_metrics_lem d snapshot req responses k h small =
    let n = sample_count req.samples in
    let same : stream_samples snapshot n 0 n ≡ responses = ground arith in
    let size : length responses ≡ n = ap length (sym same) ∙ length-stream_samples snapshot n 0 n in
    let item = get_elem?-stream_samples snapshot n 0 n k (omega (arith, size)) in
    let zero_add : 0 + k ≡ k = omega arith in
    (
      ground (arith, size),
      ground (arith, size),
      λ a b. ground (arith, size),
      ap (λ x. get_elem? x k) (sym same)
          ∙ item
          ∙ ap
              (λ j.
                some (record { sequence = j; end_of_stream = j + 1 == n; metrics = snapshot j }))
              zero_add
          ∙ ap
              (λ l.
                some (record { sequence = k; end_of_stream = k + 1 == l; metrics = snapshot k }))
              (sym size),
    )

list_tasks-length-le :
    (like text_before : String → String → Bool) (reply : PageReply) (q : TaskQuery) (t t' : Table)
    → 0 < q.limit
    → q.limit < 4294967296
    → length (list_tasks like text_before reply q t t').items ≤ q.limit
unfolding list_tasks
list_tasks-length-le like text_before not_counted q t t' pos small = omega arith
list_tasks-length-le like text_before (counted reply) q t t' pos small =
    let found = sort_by (newest_first text_before) (keep_if (matches_task like q) t') in
    let rows = window q.limit q.offset found in
    let l : (if q.limit == 0 then 100 else q.limit) % 4294967296 ≡ q.limit = ground arith in
    omega (
      arith,
      length-read_rows-le reply (map to_meta rows),
      length-map to_meta rows,
      length-take ((if q.limit == 0 then 100 else q.limit) % 4294967296)
          (drop (q.offset % 4294967296) found),
      l,
    )

-- A page of tasks never has more than 500 of them, nor more than the limit that it reports, which
-- is the request's own where that is between 1 and 500, whatever the store holds and its statements
-- answer.
pub handle_list_tasks_bounds :
    (d : Dispatcher) (like text_before : String → String → Bool) (reply : PageReply) (t t' : Table)
    (req : ListTasksRequest) (r : ListTasksResponse)
    → handle_list_tasks d (λ q. list_tasks like text_before reply q t t') (some req) ≡ answers r
    → (0 < r.limit)
      × (r.limit ≤ 500)
      × (length r.tasks ≤ r.limit)
      × (0 < req.limit → req.limit ≤ 500 → r.limit ≡ req.limit)
unfolding handle_list_tasks
handle_list_tasks_bounds d like text_before reply t t' req r h =
    let page = list_tasks like text_before reply (task_query req) t t' in
    let limit : r.limit ≡ page_limit req.limit = ground arith in
    let tasks : r.tasks ≡ page.items = ground arith in
    let size = list_tasks-length-le like text_before reply (task_query req) t t' in
    let positive : 0 < page_limit req.limit = ground arith in
    let small : page_limit req.limit ≤ 500 = ground arith in
    (
      omega (arith, limit, positive),
      omega (arith, limit, small),
      omega (arith, limit, ap length tasks, size positive (omega (arith, small))),
      λ a b. ground (arith, limit),
    )

-- ===== src/Tasks/Pages.antt =====
-- The paged queries of src/mysql/mysql_client.cpp. `like` is LIKE of the server, and `text_before`
-- its order of the ids. A page is two statements, and the table may change between
-- them. Each is given the table in the order in which its statement reads the rows: rows that an
-- ORDER BY ties stay in that order, which no two statements need to share.
pub mod Reordered
pub mod Slices
use coroutine_rpc_scheduler.Common.{
  Bool, List, String, [], drop, false, if◌then◌else◌, keep_if, leb, length, map, none, reverse,
  some, str_append, str_empty, str_eq, take, true, ℕ, ◌%◌, ◌&&◌, ◌==◌, ◌||◌,
}
use coroutine_rpc_scheduler.Common.Sort.{sort_by}
use coroutine_rpc_scheduler.Tasks.{Table, TaskMeta, TaskRow}
use coroutine_rpc_scheduler.Tasks.Queries.{ReadReply, read_rows, to_meta}
use coroutine_rpc_scheduler.Tasks.History.{HistoryTable, TaskHistory, HistoryRow}

-- An int that filters: -1, a number, or another negative one, which nothing equals.
pub data Filter : Type 0 where
  all nothing : Filter
  only : ℕ → Filter

abbrev pub passes : Filter → ℕ → Bool
passes all n = true
passes nothing n = false
passes (only k) n = n == k

pub record TaskQuery : Type 0 where
  pub status_filter : Filter
  pub keyword : String
  pub limit : ℕ
  pub offset : ℕ

pub record TaskPage : Type 0 where
  pub items : List TaskMeta
  pub total : ℕ

pub record HistoryQuery : Type 0 where
  pub task_id : String
  pub success_filter : Filter
  pub keyword : String
  pub limit : ℕ
  pub offset : ℕ

pub record HistoryPage : Type 0 where
  pub items : List TaskHistory
  pub total : ℕ

-- How the two statements go: no lease or no count, or a count and then the rows.
pub data PageReply : Type 0 where
  not_counted : PageReply
  counted : ReadReply → PageReply

-- LIMIT and OFFSET, as the unsigned int that the code passes.
abbrev pub window {ℓ} : {A : Type ℓ} → ℕ → ℕ → List A → List A
window limit offset xs =
    take ((if limit == 0 then 100 else limit) % 4294967296) (drop (offset % 4294967296) xs)

abbrev pub like_keyword : String → String
like_keyword keyword = str_append "%" (str_append keyword "%")

-- ORDER BY created_at DESC, id DESC
unfoldable pub newest_first : (String → String → Bool) → String × TaskRow → String × TaskRow → Bool
newest_first text_before a b =
    if leb a.1.created_at b.1.created_at
    then leb b.1.created_at a.1.created_at && text_before b.0 a.0
    else true

module _ (like : String → String → Bool) where
  -- The WHERE of listTasks.
  unfoldable pub matches_task : TaskQuery → String × TaskRow → Bool
  matches_task q (id, r) =
      let found = λ (s : String). like s (like_keyword q.keyword) in
      passes q.status_filter r.status
      && (str_empty q.keyword
          || (found id || (found r.handler || (found r.cron_expr || found r.params))))

  unfoldable pub list_tasks :
      (String → String → Bool) → PageReply → TaskQuery → Table → Table → TaskPage
  unfolding matches_task newest_first sort_by read_rows
  list_tasks text_before not_counted q t t' = record { items = []; total = 0 }
  list_tasks text_before (counted reply) q t t' = record {
    items = read_rows reply (
        map to_meta (
          window q.limit q.offset
            (sort_by (newest_first text_before) (keep_if (matches_task q) t'))));
    total = length (keep_if (matches_task q) t);
  }

  -- The WHERE of listHistory, on a row with its execution id.
  unfoldable pub matches_history : HistoryQuery → HistoryRow → Bool
  matches_history q h =
      let found = λ (s : String). like s (like_keyword q.keyword) in
      let f = h.fields in
      let execution : Bool = elim h.key [ none ↦ false | some k ↦ found k ] in
      (str_empty q.task_id || str_eq f.task_id q.task_id)
      && (passes q.success_filter (if f.success then 1 else 0)
          && (str_empty q.keyword
              || (execution
                  || (found f.task_id
                      || (found f.exec_node || (found f.result || found f.error))))))

  unfoldable pub list_history : PageReply → HistoryQuery → HistoryTable → HistoryTable → HistoryPage
  unfolding matches_history read_rows
  list_history not_counted q t t' = record { items = []; total = 0 }
  list_history (counted reply) q t t' = record {
    items =
        read_rows reply (
          map (λ h. h.fields) (window q.limit q.offset (reverse (keep_if (matches_history q) t'))));
    total = length (keep_if (matches_history q) t);
  }

-- The latest rows of one task, or of all where the id is empty.
unfoldable pub get_history : ReadReply → String → ℕ → HistoryTable → List TaskHistory
unfolding read_rows
get_history reply task_id limit t =
    let of_task = keep_if (λ h. str_eq h.fields.task_id task_id) t in
    let rows = if str_empty task_id then t else of_task in
    read_rows reply (map (λ h. h.fields) (take (limit % 4294967296) (reverse rows)))

unfoldable pub get_all_tasks : ReadReply → Table → List TaskMeta
unfolding read_rows
get_all_tasks reply t = read_rows reply (map to_meta t)

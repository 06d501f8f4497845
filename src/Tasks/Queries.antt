-- ===== src/Tasks/Queries.antt =====
-- The SELECT statements of src/mysql/mysql_client.cpp on the table `tasks` that the scheduler and
-- the handlers use. Where the order that a statement asks for leaves ties, the model keeps the
-- order of the table.
use coroutine_rpc_scheduler.Common.{
  Bool, List, Option, String, [], arith, false, if◌then◌else◌, keep_if, leb, length, length-map,
  length-take, lookup, map, none, some, take, true, ℕ, ◌&&◌, ◌+◌, ◌==◌, ◌≤◌,
}
use coroutine_rpc_scheduler.Common.Sort.{sort_by}
use coroutine_rpc_scheduler.Tasks.{
  Table, task_scheduled, task_running, DateTime, TaskMeta, TaskRow, task_from_result,
}

-- How a SELECT goes: no lease; an exception after `n` rows were read; all rows were read.
pub data ReadReply : Type 0 where
  read_nothing : ReadReply
  read_some : ℕ → ReadReply
  read_all : ReadReply

unfoldable pub read_rows {ℓ} : {A : Type ℓ} → ReadReply → List A → List A
read_rows read_nothing rows = []
read_rows (read_some n) rows = take n rows
read_rows read_all rows = rows

-- `none` is the answer false, which leaves the out-parameter alone.
unfoldable pub get_task : ReadReply → String → Table → Option TaskMeta
get_task read_all id t = elim (lookup id t) [ none ↦ none | some r ↦ some (task_from_result id r) ]
get_task read_nothing id t = none
get_task (read_some _) id t = none

-- ASC with NULL first.
abbrev pub date_le : DateTime → DateTime → Bool
date_le none b = true
date_le (some a) none = false
date_le (some a) (some b) = leb a b

abbrev pub is_due : ℕ → TaskRow → Bool
is_due now r =
    r.status == task_scheduled && elim r.next_run_at [ none ↦ true | some at ↦ leb at now ]

-- ORDER BY next_run_at ASC, created_at ASC, over rows paired with their keys.
abbrev pub due_before : String × TaskRow → String × TaskRow → Bool
due_before a b =
    if date_le b.1.next_run_at a.1.next_run_at
    then date_le a.1.next_run_at b.1.next_run_at && leb a.1.created_at b.1.created_at
    else true

abbrev pub to_meta : String × TaskRow → TaskMeta
to_meta a = task_from_result a.0 a.1

unfoldable pub get_due_tasks : ReadReply → ℕ → ℕ → Table → List TaskMeta
unfolding read_rows sort_by
get_due_tasks reply now limit t =
    read_rows reply
      (map to_meta (take limit (sort_by due_before (keep_if (λ a. is_due now a.1) t))))

-- `started_at <= NOW() - stale_after_sec`
abbrev pub is_stale : ℕ → ℕ → TaskRow → Bool
is_stale now stale_after_sec r =
    r.status == task_running
    && elim r.started_at [ none ↦ false | some at ↦ leb (at + stale_after_sec) now ]

unfoldable pub get_stale_running_tasks : ReadReply → ℕ → ℕ → ℕ → Table → List TaskMeta
unfolding read_rows sort_by
get_stale_running_tasks reply now stale_after_sec limit t = read_rows reply (
    map to_meta (
      take limit (
        sort_by (λ a b. date_le a.1.started_at b.1.started_at)
          (keep_if (λ a. is_stale now stale_after_sec a.1) t))))

unfoldable pub get_enabled_tasks : ReadReply → Table → List TaskMeta
unfolding read_rows
get_enabled_tasks reply t = read_rows reply (map to_meta (keep_if (λ a. a.1.status == 1) t))

pub length-read_rows-le {ℓ} :
    {A : Type ℓ} (reply : ReadReply) (rows : List A) → length (read_rows reply rows) ≤ length rows
unfolding read_rows
length-read_rows-le read_nothing rows = omega arith
length-read_rows-le (read_some n) rows = omega (arith, length-take n rows)
length-read_rows-le read_all rows = omega arith

pub length-get_due_tasks-le :
    (reply : ReadReply) (now limit : ℕ) (t : Table)
    → length (get_due_tasks reply now limit t) ≤ limit
unfolding get_due_tasks
length-get_due_tasks-le reply now limit t =
    let rows = sort_by due_before (keep_if (λ a. is_due now a.1) t) in
    omega (
      arith,
      length-read_rows-le reply (map to_meta (take limit rows)),
      length-map to_meta (take limit rows),
      length-take limit rows,
    )

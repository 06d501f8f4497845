-- ===== src/Tasks/History.antt =====
-- The table `task_history` of src/mysql/mysql_client.cpp: an upsert under the unique key
-- `execution_id`. The list is in the order of the auto-increment primary key, the oldest row first.
use coroutine_rpc_scheduler.Common.{
  Bool, List, Option, Option-cases, String, [], arith, eq_iff, false, if◌then◌else◌, inl, inr, max,
  none, refl, some, str_empty, str_eq, suc, true, ℕ, ◌++◌, ◌∷◌, ◌≡◌, ◌≤◌,
}
use coroutine_rpc_scheduler.Tasks.{DateTime}
use coroutine_rpc_scheduler.Tasks.Store.{Reply, refused, reply_lost, no_lease, answered}
use coroutine_rpc_scheduler.Tasks.Queries.{ReadReply, read_nothing, read_some, read_all}

pub record TaskHistory : Type 0 where
  pub execution_id : String
  pub task_id : String
  pub exec_node : String
  pub success : Bool
  pub result : String
  pub error : String
  pub start_time : DateTime
  pub end_time : DateTime

-- A row, with its execution id NULL where the text is empty (set_string_or_null).
pub record HistoryRow : Type 0 where
  pub key : Option String
  pub fields : TaskHistory

abbrev pub HistoryTable : Type 0
HistoryTable = List HistoryRow

abbrev pub string_or_null : String → Option String
string_or_null s = if str_empty s then none else some s

abbrev pub has_key : String → HistoryRow → Bool
has_key e h = elim h.key [ none ↦ false | some k ↦ str_eq k e ]

-- ON DUPLICATE KEY UPDATE leaves `execution_id` and `task_id` as they are.
abbrev pub overwrite : TaskHistory → HistoryRow → HistoryRow
overwrite new h = record h {
  fields = record new { execution_id = h.fields.execution_id; task_id = h.fields.task_id };
}

unfoldable pub upsert : String → TaskHistory → HistoryTable → HistoryTable
upsert e new [] = record { key = some e; fields = new } ∷ []
upsert e new (h ∷ hs) = if has_key e h then overwrite new h ∷ hs else h ∷ upsert e new hs

unfoldable pub insert_history : TaskHistory → HistoryTable → HistoryTable
unfolding upsert
insert_history new hs = elim (string_or_null new.execution_id) [
  | none ↦ hs ++ (record { key = none; fields = new } ∷ [])
  | some e ↦ upsert e new hs
]

unfoldable pub add_history : Reply → TaskHistory → HistoryTable → Bool × HistoryTable
unfolding insert_history
add_history no_lease new hs = (false, hs)
add_history refused new hs = (false, hs)
add_history reply_lost new hs = (false, insert_history new hs)
add_history answered new hs = (true, insert_history new hs)

-- The last row of the task, ORDER BY id DESC LIMIT 1.
abbrev pub last_of : String → HistoryTable → Option TaskHistory
last_of id [] = none
last_of id (h ∷ hs) = elim (last_of id hs) [
  | some later ↦ some later
  | none ↦ if str_eq h.fields.task_id id then some h.fields else none
]

unfoldable pub get_latest_history : ReadReply → String → HistoryTable → Option TaskHistory
get_latest_history read_all id hs = last_of id hs
get_latest_history read_nothing id hs = none
get_latest_history (read_some _) id hs = none

abbrev pub count_if {ℓ} : {A : Type ℓ} → (A → Bool) → List A → ℕ
count_if p [] = 0
count_if p (x ∷ xs) = if p x then suc (count_if p xs) else count_if p xs

unfoldable pub history_count : ReadReply → String → HistoryTable → ℕ
history_count read_all id hs = count_if (λ h. str_eq h.fields.task_id id) hs
history_count read_nothing id hs = 0
history_count (read_some _) id hs = 0

count_if-upsert :
    (e k : String) (new : TaskHistory) (hs : HistoryTable)
    → count_if (has_key k) (upsert e new hs)
      ≡ (if str_eq e k then max 1 (count_if (has_key k) hs) else count_if (has_key k) hs)
unfolding upsert
count_if-upsert e k new [] = ground arith
count_if-upsert e k new (h ∷ hs) = elim (Option-cases h.key) [
  | inl n ↦ ground (arith, n, count_if-upsert e k new hs)
  | inr (j, n) ↦ ground (arith, n, eq_iff j e, eq_iff j k, eq_iff e k, count_if-upsert e k new hs)
]

count_if-append :
    (e : String) (h : HistoryRow) (hs : HistoryTable)
    → has_key e h ≡ false
    → count_if (has_key e) (hs ++ (h ∷ [])) ≡ count_if (has_key e) hs
count_if-append e h [] k = ground (arith, k)
count_if-append e h (g ∷ hs) k = ground (arith, count_if-append e h hs k)

insert_history_unique :
    (e : String) (new : TaskHistory) (hs : HistoryTable)
    → count_if (has_key e) hs ≤ 1
    → count_if (has_key e) (insert_history new hs) ≤ 1
unfolding insert_history
insert_history_unique e new hs h = elim (Option-cases (string_or_null new.execution_id)) [
  | inl n ↦ ground (arith, n, count_if-append e (record { key = none; fields = new }) hs refl)
  | inr (k, n) ↦ ground (arith, n, count_if-upsert k e new hs)
]

-- An execution has one history row at most, however often and with whatever reply its outcome is
-- stored: no call adds a second row under an execution id that has one.
pub add_history_unique :
    (e : String) (reply : Reply) (new : TaskHistory) (hs : HistoryTable)
    → count_if (has_key e) hs ≤ 1
    → count_if (has_key e) (add_history reply new hs).1 ≤ 1
unfolding add_history
add_history_unique e no_lease new hs h = h
add_history_unique e refused new hs h = h
add_history_unique e reply_lost new hs h = insert_history_unique e new hs h
add_history_unique e answered new hs h = insert_history_unique e new hs h

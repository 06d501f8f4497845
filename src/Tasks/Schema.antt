-- ===== src/Tasks/Schema.antt =====
-- MySQLClient::ensureSchema of src/mysql/mysql_client.cpp: the tables, columns and indexes that are
-- there. Types and defaults of the columns are left aside. What the server answers to each step is
-- the environment.
use coroutine_rpc_scheduler.Common.{
  All, Bool, List, String, [], ap, arith, eq_iff, false, if◌then◌else◌, inl, inr, refl, str_eq,
  subst, sym, true, ℕ, ◌&&◌, ◌+◌, ◌||◌, ◌∙◌, ◌∷◌, ◌≡◌, ◌⊎◌,
}

-- Columns and indexes with the table that they belong to.
pub record Schema : Type 0 where
  pub tables : List String
  pub columns : List (String × String)
  pub indexes : List (String × String)

-- A statement: CREATE TABLE IF NOT EXISTS, or one under a question for its column or index.
pub data Step : Type 0 where
  create_table : String → List String → List String → Step
  add_column add_index : String → String → Step

-- What a step meets: it is executed, it fails, or it is done but its answer is lost.
pub data StepReply : Type 0 where
  executed rejected answer_lost : StepReply

abbrev pub has : String → String → List (String × String) → Bool
has table name [] = false
has table name ((t, n) ∷ pairs) = (str_eq t table && str_eq n name) || has table name pairs

abbrev pub has_table : String → List String → Bool
has_table table [] = false
has_table table (t ∷ tables) = str_eq t table || has_table table tables

abbrev pub with_names : String → List String → List (String × String) → List (String × String)
with_names table [] pairs = pairs
with_names table (name ∷ names) pairs = (table, name) ∷ with_names table names pairs

unfoldable pub perform : Step → Schema → Schema
perform (create_table table columns indexes) s = if has_table table s.tables then s else record {
  tables = table ∷ s.tables;
  columns = with_names table columns s.columns;
  indexes = with_names table indexes s.indexes;
}
perform (add_column table column) s =
    if has table column s.columns then s else record s { columns = (table, column) ∷ s.columns }
perform (add_index table index) s =
    if has table index s.indexes then s else record s { indexes = (table, index) ∷ s.indexes }

unfoldable pub run_steps : (ℕ → StepReply) → ℕ → List Step → Schema → Bool × Schema
unfolding perform
run_steps replies i [] s = (true, s)
run_steps replies i (step ∷ steps) s = elim (replies i) [
  | executed ↦ run_steps replies (i + 1) steps (perform step s)
  | rejected ↦ (false, s)
  | answer_lost ↦ (false, perform step s)
]

abbrev pub schema_steps : List Step
schema_steps =
    create_table "tasks"
      ("id" ∷ "cron_expr" ∷ "params" ∷ "handler" ∷ "status" ∷ "next_run_at" ∷ "last_run_at"
        ∷ "retry_count" ∷ "max_retries" ∷ "current_execution_id" ∷ "running_node" ∷ "started_at"
        ∷ "created_at" ∷ "updated_at" ∷ [])
      ("idx_tasks_status_next_run" ∷ "idx_tasks_status_started_at" ∷ [])
    ∷ create_table "task_history"
        ("id" ∷ "execution_id" ∷ "task_id" ∷ "exec_node" ∷ "success" ∷ "result" ∷ "error"
          ∷ "start_time" ∷ "end_time" ∷ [])
        ("uk_task_history_execution_id" ∷ "idx_task_history_task_id" ∷ "idx_task_history_start_time"
          ∷ [])
    ∷ add_column "tasks" "next_run_at"
    ∷ add_column "tasks" "last_run_at"
    ∷ add_column "tasks" "retry_count"
    ∷ add_column "tasks" "max_retries"
    ∷ add_column "tasks" "current_execution_id"
    ∷ add_column "tasks" "running_node"
    ∷ add_column "tasks" "started_at"
    ∷ add_column "task_history" "execution_id"
    ∷ add_column "task_history" "success"
    ∷ add_index "task_history" "uk_task_history_execution_id"
    ∷ add_index "tasks" "idx_tasks_status_started_at"
    ∷ []

unfoldable pub ensure_schema : (ℕ → StepReply) → Schema → Bool × Schema
unfolding run_steps
ensure_schema replies s = run_steps replies 0 schema_steps s

-- What a step is for.
abbrev pub Provides : Schema → Step → Type 0
Provides s (create_table table columns indexes) = has_table table s.tables ≡ true
Provides s (add_column table column) = has table column s.columns ≡ true
Provides s (add_index table index) = has table index s.indexes ≡ true

StepReply-cases : (r : StepReply) → (r ≡ executed) ⊎ ((r ≡ rejected) ⊎ (r ≡ answer_lost))
StepReply-cases executed = inl refl
StepReply-cases rejected = inr (inl refl)
StepReply-cases answer_lost = inr (inr refl)

str_eq_refl : (s : String) → str_eq s s ≡ true
str_eq_refl s = ground (arith, eq_iff s s)

has-with_names :
    (table name t : String) (names : List String) (pairs : List (String × String))
    → has table name pairs ≡ true
    → has table name (with_names t names pairs) ≡ true
has-with_names table name t [] pairs h = h
has-with_names table name t (n ∷ names) pairs h =
    ground (arith, has-with_names table name t names pairs h)

perform-Provides : (step : Step) (s : Schema) → Provides (perform step s) step
unfolding perform
perform-Provides (create_table table columns indexes) s = ground (arith, str_eq_refl table)
perform-Provides (add_column table column) s = ground (arith, str_eq_refl table, str_eq_refl column)
perform-Provides (add_index table index) s = ground (arith, str_eq_refl table, str_eq_refl index)

perform-keeps :
    (step other : Step) (s : Schema) → Provides s other → Provides (perform step s) other
unfolding perform
perform-keeps (create_table table columns indexes) (create_table t cs is) s h = ground arith
perform-keeps (create_table table columns indexes) (add_column t c) s h =
    ground (arith, has-with_names t c table columns s.columns h)
perform-keeps (create_table table columns indexes) (add_index t i) s h =
    ground (arith, has-with_names t i table indexes s.indexes h)
perform-keeps (add_column table column) (create_table t cs is) s h = ground arith
perform-keeps (add_column table column) (add_column t c) s h = ground arith
perform-keeps (add_column table column) (add_index t i) s h = ground arith
perform-keeps (add_index table index) (create_table t cs is) s h = ground arith
perform-keeps (add_index table index) (add_column t c) s h = ground arith
perform-keeps (add_index table index) (add_index t i) s h = ground arith

-- A step that has nothing left to do does nothing.
perform_again : (step : Step) (s : Schema) → Provides s step → perform step s ≡ s
unfolding perform
perform_again (create_table table columns indexes) s h = ground arith
perform_again (add_column table column) s h = ground arith
perform_again (add_index table index) s h = ground arith

-- One step of the loop, on what it meets.
run_steps_next :
    (replies : ℕ → StepReply) (i : ℕ) (step : Step) (steps : List Step) (s : Schema)
    → let r = run_steps replies i (step ∷ steps) s in
      ((replies i ≡ executed) × (r ≡ run_steps replies (i + 1) steps (perform step s)))
      ⊎ ((r ≡ (false, s)) ⊎ (r ≡ (false, perform step s)))
unfolding run_steps
run_steps_next replies i step steps s = elim (StepReply-cases (replies i)) [
  | inl e ↦ inl (e, ground (arith, e))
  | inr (inl e) ↦ inr (inl (ground (arith, e)))
  | inr (inr e) ↦ inr (inr (ground (arith, e)))
]

run_steps-keeps :
    (replies : ℕ → StepReply) (i : ℕ) (steps : List Step) (other : Step) (s : Schema)
    → Provides s other
    → Provides (run_steps replies i steps s).1 other
unfolding run_steps
run_steps-keeps replies i [] other s h = h
run_steps-keeps replies i (step ∷ steps) other s h =
    let done = perform-keeps step other s h in
    let provided : Bool × Schema → Type 0 = λ r. Provides r.1 other in
    elim (run_steps_next replies i step steps s) [
      | inl (_, e) ↦
          subst provided (sym e) (run_steps-keeps replies (i + 1) steps other (perform step s) done)
      | inr (inl e) ↦ subst provided (sym e) h
      | inr (inr e) ↦ subst provided (sym e) done
    ]

run_steps-Provides :
    (replies : ℕ → StepReply) (i : ℕ) (steps : List Step) (s : Schema)
    → (run_steps replies i steps s).0 ≡ true
    → All (Provides (run_steps replies i steps s).1) steps
unfolding run_steps
run_steps-Provides replies i [] s h = tt
run_steps-Provides replies i (step ∷ steps) s h = elim (run_steps_next replies i step steps s) [
  | inl (_, e) ↦
      let s' = perform step s in
      let rest = run_steps-Provides replies (i + 1) steps s' (sym (ap (λ r. r.0) e) ∙ h) in
      subst (λ r. All (Provides r.1) (step ∷ steps)) (sym e)
        (run_steps-keeps replies (i + 1) steps step s' (perform-Provides step s), rest)
  | inr (inl e) ↦ absurd (ground (arith, e))
  | inr (inr e) ↦ absurd (ground (arith, e))
]

run_steps_again :
    (replies : ℕ → StepReply) (i : ℕ) (steps : List Step) (s : Schema)
    → All (Provides s) steps
    → (run_steps replies i steps s).1 ≡ s
unfolding run_steps
run_steps_again replies i [] s a = refl
run_steps_again replies i (step ∷ steps) s (h, a) =
    let same = perform_again step s h in
    elim (run_steps_next replies i step steps s) [
      | inl (_, e) ↦
          ap (λ r. r.1) e
          ∙ ap (λ x. (run_steps replies (i + 1) steps x).1) same
          ∙ run_steps_again replies (i + 1) steps s a
      | inr (inl e) ↦ ap (λ r. r.1) e
      | inr (inr e) ↦ ap (λ r. r.1) e ∙ same
    ]

-- Whatever database it finds, and with other nodes doing the same before it: an ensureSchema that
-- succeeds leaves both tables and every column and index that it looks for, and a later one changes
-- nothing, whatever becomes of its steps. One that fails takes away no table, column or index.
pub ensure_schema_lem :
    (replies later : ℕ → StepReply) (s : Schema) (other : Step)
    → let r = ensure_schema replies s in
      (r.0 ≡ true → All (Provides r.1) schema_steps × ((ensure_schema later r.1).1 ≡ r.1))
      × (Provides s other → Provides r.1 other)
unfolding ensure_schema
ensure_schema_lem replies later s other = (
  λ h.
      let all = run_steps-Provides replies 0 schema_steps s h in
      (all, run_steps_again later 0 schema_steps (run_steps replies 0 schema_steps s).1 all),
  run_steps-keeps replies 0 schema_steps other s,
)

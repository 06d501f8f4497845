-- ===== src/Examples/Store.antt =====
-- The connections and the schema of the store, and a whole scan, at concrete inputs.
use coroutine_rpc_scheduler.Common.{
  All, List, [], arith, false, inr, length, none, refl, some, true, ℕ, ◌++◌, ◌∷◌, ◌≡◌, ◌≤◌,
}
use coroutine_rpc_scheduler.Tasks.Connections.{
  Slot, zone_refused, attached, open_still, closed_by_peer, connect_slot, ensure_slot, Connections,
  AcquireTurn, acquire_connection,
}
use coroutine_rpc_scheduler.Tasks.Connections.Zones.{acquire_connection_zone_lost}
use coroutine_rpc_scheduler.Tasks.Schema.{
  Schema, add_column, StepReply, executed, rejected, has, run_steps, schema_steps, ensure_schema,
  Provides, ensure_schema_lem,
}
use coroutine_rpc_scheduler.Tasks.Queries.{read_all}
use coroutine_rpc_scheduler.Tasks.Store.{answered}
use coroutine_rpc_scheduler.Redis.Server.{answered as redis_answered}
use coroutine_rpc_scheduler.Scheduler.World.{Job}
use coroutine_rpc_scheduler.Scheduler.Scan.{ScanTurn, due_tasks, scan_and_dispatch}
use coroutine_rpc_scheduler.Scheduler.Scan.Jobs.{Selects, scan_and_dispatch_jobs}
use coroutine_rpc_scheduler.Examples.Calls.{messages}
use coroutine_rpc_scheduler.Examples.Memory.{memory, quiet}
use coroutine_rpc_scheduler.Examples.Scheduling.{world, turn, settings}
use coroutine_rpc_scheduler.Examples.TaskTable.{found_rows}

abbrev zoned : Slot
zoned = some (record { zone_set = true })

abbrev two_slots : Connections
two_slots = record { size = 2; slots = zoned ∷ zoned ∷ []; next_slot = 0 }

-- The first slot is made again, and comes up again two acquisitions later.
abbrev after_refusal : Connections
after_refusal = record two_slots {
  slots = some (record { zone_set = false }) ∷ zoned ∷ [];
  next_slot = 2;
}

abbrev refusal : AcquireTurn
refusal = record {
  attempts = λ i. attached;
  schema_is_ready = true;
  health = closed_by_peer;
  attempt = zone_refused;
}

acquire_connection_zone_lost_example :
    ((acquire_connection refusal two_slots).0 ≡ none)
    × ((acquire_connection (record refusal { health = open_still }) after_refusal).0
        ≡ some (0, record { zone_set = false }))
unfolding acquire_connection ensure_slot connect_slot
acquire_connection_zone_lost_example =
    acquire_connection_zone_lost refusal (record refusal { health = open_still }) two_slots
      after_refusal zoned refl (inr (λ e. ground arith)) refl refl refl refl

abbrev all_executed : ℕ → StepReply
all_executed i = executed

-- Tables of an older version.
abbrev old_schema : Schema
old_schema = record {
  tables = "tasks" ∷ "task_history" ∷ [];
  columns = ("tasks", "id") ∷ ("tasks", "status") ∷ [];
  indexes = [];
}

ensure_schema_lem_example :
    let r = ensure_schema all_executed old_schema in
    (r.0 ≡ true → All (Provides r.1) schema_steps × ((ensure_schema (λ i. rejected) r.1).1 ≡ r.1))
    × (has "tasks" "status" old_schema.columns ≡ true → has "tasks" "status" r.1.columns ≡ true)
ensure_schema_lem_example =
    ensure_schema_lem all_executed (λ i. rejected) old_schema (add_column "tasks" "status")

ensure_schema_executed : (ensure_schema all_executed old_schema).0 ≡ true
unfolding ensure_schema run_steps
ensure_schema_executed = refl

abbrev scan_turn : ScanTurn found_rows memory messages settings 0
scan_turn = record {
  stale_read = read_all;
  stale_now = 61;
  recover = λ i. record { rounds = quiet; reply = answered; attempt = redis_answered };
  due_read = read_all;
  due_now = 61;
  dispatch = λ i. turn;
  meanwhile = λ i w. w;
}

scan_and_dispatch_jobs_example :
    let w' =
      scan_and_dispatch found_rows memory messages settings 0 false 300 120 scan_turn world in
    (jobs : List Job) × (w'.queue ≡ world.queue ++ jobs)
    × Selects (due_tasks found_rows memory messages settings 0 scan_turn 120 world) jobs
    × (length jobs ≤ 100)
scan_and_dispatch_jobs_example =
    scan_and_dispatch_jobs found_rows memory messages settings 0 false 300 120 scan_turn world

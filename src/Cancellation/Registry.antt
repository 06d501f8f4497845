-- ===== src/Cancellation/Registry.antt =====
-- src/scheduler/task_cancellation_registry.cpp: the sources of the tasks that this process runs.
use coroutine_rpc_scheduler.Common.{
  Bool, List, String, StringMap, [], any, arith, eq_iff, erase, false, if◌then◌else◌, insert,
  lookup, lookup-erase, lookup-insert, none, some, str_eq, true, ◌&&◌, ◌∷◌, ◌≡◌,
}
use coroutine_rpc_scheduler.Cancellation.{Flags, Source, cancel as cancel_source}

pub record Entry : Type 0 where
  pub execution_id : String
  pub source : Source

abbrev pub Registry : Type 0
Registry = StringMap Entry

unfoldable pub register_task : String → String → Source → Registry → Registry
register_task task_id execution_id source reg =
    insert task_id (record { execution_id = execution_id; source = source }) reg

unfoldable pub unregister_task : String → String → Registry → Registry
unregister_task task_id execution_id reg = elim (lookup task_id reg) [
  | none ↦ reg
  | some e ↦ if str_eq e.execution_id execution_id then erase task_id reg else reg
]

unfoldable pub cancel : String → Registry → Flags → Bool × Flags
cancel task_id reg fl = elim (lookup task_id reg) [
  | none ↦ (false, fl)
  | some e ↦ (true, cancel_source e.source fl)
]

pub data Call : Type 0 where
  registers : String → String → Source → Call
  unregisters : String → String → Call

unfoldable pub run : List Call → Registry → Registry
run [] reg = reg
run (registers id e s ∷ cs) reg = run cs (register_task id e s reg)
run (unregisters id e ∷ cs) reg = run cs (unregister_task id e reg)

-- The call registers the task anew, or unregisters this very execution of it.
abbrev pub touches : String → String → Call → Bool
touches id e (registers j _ _) = str_eq j id
touches id e (unregisters j e') = str_eq j id && str_eq e e'

lookup-run :
    (id : String) (x : Entry) (cs : List Call) (reg : Registry)
    → lookup id reg ≡ some x
    → any (touches id x.execution_id) cs ≡ false
    → lookup id (run cs reg) ≡ some x
unfolding run register_task unregister_task
lookup-run id x [] reg h k = h
lookup-run id x (registers j e s ∷ cs) reg h k =
    lookup-run id x cs (register_task j e s reg)
      (ground (arith, lookup-insert j id (record { execution_id = e; source = s }) reg))
      (ground arith)
lookup-run id x (unregisters j e ∷ cs) reg h k =
    lookup-run id x cs (unregister_task j e reg)
      (ground (arith, lookup-erase j id reg, eq_iff j id)) (ground arith)

-- A cancellation reaches the execution that was registered last: whatever other tasks do, and
-- however often older executions of the task unregister, `cancel` is answered true and cancels
-- the source that was registered, until that execution unregisters or the task is registered anew.
pub cancel-register_task :
    (id e : String) (s : Source) (cs : List Call) (reg : Registry) (fl : Flags)
    → any (touches id e) cs ≡ false
    → cancel id (run cs (register_task id e s reg)) fl ≡ (true, cancel_source s fl)
unfolding cancel register_task
cancel-register_task id e s cs reg fl k =
    let x : Entry = record { execution_id = e; source = s } in
    let found =
      lookup-run id x cs (insert id x reg) (ground (arith, lookup-insert id id x reg, eq_iff id id))
        k in
    ground (arith, found)

-- ===== src/Scheduler/World.antt =====
-- What one scheduler shares with its threads, with the other nodes and with the handlers of RPC:
-- the database, Redis, and the process's registry, renewer, flags and metrics.
use coroutine_rpc_scheduler.Common.{List, String}
use coroutine_rpc_scheduler.Cancellation.{Flags, Source}
use coroutine_rpc_scheduler.Cancellation.Registry.{Registry}
use coroutine_rpc_scheduler.Metrics.{Metrics}
use coroutine_rpc_scheduler.Redis.Server.{RedisServer}
use coroutine_rpc_scheduler.Scheduler.LockRenewer.{Renewer}
use coroutine_rpc_scheduler.Tasks.{Table, TaskMeta}
use coroutine_rpc_scheduler.Tasks.History.{HistoryTable}

-- What the closure captures that scanAndDispatch enqueues.
pub record Job : Type 0 where
  pub task : TaskMeta
  pub lock_key : String
  pub lock_value : String
  pub execution_id : String
  pub source : Source

module _ (redis : RedisServer) where
  pub record World : Type 0 where
    pub table : Table
    pub history : HistoryTable
    pub store : redis.State
    pub registry : Registry
    pub renewer : Renewer
    pub flags : Flags
    pub metrics : Metrics
    pub queue : List Job

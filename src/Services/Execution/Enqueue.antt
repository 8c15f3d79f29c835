-- ===== src/Services/Execution/Enqueue.antt =====
-- createAndEnqueueRun, createFromDefinition and createFromTemplate: a run is saved, then put into
-- the queue, then marked with the time.
pub mod Saved
pub mod Queued
use flotilla_os.Common.{
  ℕ, Bool, true, false, String, List, Option, none, some, Error, Result, ok, err, Go, returns,
  panics, ◌>>=◌, deref, get_elem?, if◌then◌else◌, ◌==◌,
}
use flotilla_os.Utils.Json.{Fields}
use flotilla_os.State.Constants.{eks_engine, eks_spark_engine}
use flotilla_os.State.Types.{Run, Definition, Template, Time}
use flotilla_os.State.RunUpdate.{zero_run}
use flotilla_os.State.TaskTable.{TxFaults, create_run, update_run}
use flotilla_os.World.{World, enqueued, emit, save_run}
use flotilla_os.Services.Execution.Requests.{
  ExecutionRequestCommon, sanitize_execution_request_common_fields,
}
use flotilla_os.Services.Execution.Construct.{
  ReservedEnv, History, construct_run_from_definition, construct_run_from_template,
}

-- What goes wrong, at each of the three calls.
pub record EnqueueFaults : Type 0 where
  pub creation : TxFaults
  pub queue : Option Error
  pub update : TxFaults

abbrev pub Created : Type 0
Created = World × Run × Option Error

unfoldable pub mark_queued : EnqueueFaults → Time → Run → World → Created
mark_queued faults now run w =
    let updates = record zero_run { queued_at = some now } in
    let (tasks, updated, e) = update_run faults.update run.run_id updates w.tasks in
    (record w { tasks = tasks }, updated, e)

unfoldable pub enqueue_run : EnqueueFaults → Time → String → Run → World → Created
enqueue_run faults now engine run w = elim faults.queue [
  | some e ↦ (w, run, some e)
  | none ↦ mark_queued faults now run (emit (enqueued engine run) w)
]

-- The engine whose queue takes a run.
abbrev pub queue_of : String → String
queue_of engine = if engine == eks_engine then eks_engine else eks_spark_engine

-- What follows `CreateRun`, by its error.
unfoldable pub after_creation : EnqueueFaults → Time → Run → World → Option Error → Go Created
after_creation faults now run w (some e) = returns (w, run, some e)
after_creation faults now run w none = do
  engine ← deref run.engine
  returns (enqueue_run faults now (queue_of engine) run w)

unfoldable pub create_and_enqueue_run :
    EnqueueFaults → (String → String) → Time → Run → World → Go Created
create_and_enqueue_run faults md5 now run w =
    let (tasks, e) = create_run faults.creation md5 run w.tasks in
    after_creation faults now run (record w { tasks = tasks }) e

-- The settings of the service, and what a call draws from outside: `rand.Intn`, the run's history,
-- a UUID, the clock, the hash of the database.
pub record Settings : Type 0 where
  pub eks_cluster_override : List String
  pub eks_spot_override : Bool
  pub reserved_env : ReservedEnv

pub record Outside : Type 0 where
  pub pick : ℕ
  pub history : History
  pub uuid : Result String
  pub now : Time
  pub md5 : String → String
  pub faults : EnqueueFaults

unfoldable pub create_constructed : Outside → Result Run → World → Go Created
create_constructed outside (err e) w = returns (w, zero_run, some e)
create_constructed outside (ok run) w =
    create_and_enqueue_run outside.faults outside.md5 outside.now run w

-- `rand.Intn` panics for an empty list of clusters.
unfoldable pub create_from_definition :
    Settings → Outside → Definition → ExecutionRequestCommon → World → Go Created
create_from_definition settings outside d request w = do
  cluster ← deref (get_elem? settings.eks_cluster_override outside.pick)
  run ← construct_run_from_definition settings.reserved_env outside.history outside.uuid d (
      sanitize_execution_request_common_fields settings.eks_spot_override
        (record request { cluster_name = cluster }))
  create_constructed outside run w

unfoldable pub create_from_template :
    Settings
    → Outside
    → Bool
    → Result String
    → Fields
    → Template
    → ExecutionRequestCommon
    → World
    → Go Created
create_from_template settings outside dry_run rendered custom t request w = do
  run ←
      construct_run_from_template settings.reserved_env rendered custom outside.history outside.uuid
        t (sanitize_execution_request_common_fields settings.eks_spot_override request)
  elim run [
    | err e ↦ returns (w, zero_run, some e)
    | ok r ↦ if dry_run then returns (w, r, none) else create_constructed outside (ok r) w
  ]

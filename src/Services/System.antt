-- ===== src/Services/System.antt =====
-- The service and the workers together, as a step relation: the API creates and terminates runs
-- (services/execution.go), the submit, the retry and the status worker take their turns (worker/), and
-- any other call of UpdateRun may come between.
pub mod Settled
pub mod Reached
pub mod Stopped
use flotilla_os.Common.{Bool, String, List, Option, Go, returns, ◌≡◌}
use flotilla_os.State.Types.{Run, Time, UserInfo}
use flotilla_os.State.RunUpdate.Status.{NoRetry}
use flotilla_os.State.TaskTable.{TxFaults, update_run}
use flotilla_os.State.TaskTable.Calls.{Call}
use flotilla_os.World.{World}
use flotilla_os.Worker.Submit.{Engines, Faults, RunReceipt, process_receipt}
use flotilla_os.Worker.Retry.{requeue}
use flotilla_os.Worker.Status.{StatusOutcome, process_eks_run}
use flotilla_os.Services.Execution.Enqueue.{EnqueueFaults, Created, create_and_enqueue_run}
use flotilla_os.Services.Execution.Enqueue.Saved.{IsSaved}
use flotilla_os.Services.Execution.Terminate.{TerminateOutcome, terminate_job}

-- `UpdateRun` on the world's table, by a call of any worker.
abbrev pub call_update : Call → World → World
call_update c w = record w { tasks = (update_run c.faults c.run_id c.updates w.tasks).0 }

-- One step of the system. The retry worker works on rows that it has listed, which may have changed
-- since; no step but its own listing asks for a retry.
pub data SystemStep (w : World) : World → Type 0 where
  create :
      (faults : EnqueueFaults) (md5 : String → String) (now : Time) (run : Run) (created : Created)
      → create_and_enqueue_run faults md5 now run w ≡ returns created
      → SystemStep w created.0
  receive :
      (engines : Engines) (faults : Faults) (receipt : RunReceipt)
      → SystemStep w (process_receipt engines faults receipt w)
  retry :
      (faults : TxFaults) (enqueue_fails : Bool) (run : Run)
      → IsSaved run.run_id w.tasks
      → SystemStep w (requeue faults enqueue_fails run w).0
  terminate :
      (outcome : TerminateOutcome) (user : UserInfo) (run_id : String)
      → SystemStep w (terminate_job outcome user run_id w).0
  poll :
      (outcome : StatusOutcome) (run : Run) (w' : World)
      → NoRetry outcome.fetched.updated
      → process_eks_run outcome run w ≡ returns w'
      → SystemStep w w'
  update : (c : Call) → NoRetry c.updates → SystemStep w (call_update c w)

-- Any number of steps, in any order.
pub data Reach (w : World) : World → Type 0 where
  here : Reach w w
  later : {v u : World} → Reach w v → SystemStep v u → Reach w u

-- ===== src/Services/System/Reached.antt =====
-- What every reachable world keeps: the queue's messages name saved runs, and a run that is stopped
-- stays stopped and is not launched again.
use flotilla_os.Common.{Bool, String, ◌≡◌, ◌⊎◌, inl, inr, arith, Result-cases}
use flotilla_os.State.Constants.{eks_engine}
use flotilla_os.State.Types.{Run, UserInfo}
use flotilla_os.State.TaskTable.{TxFaults, get_run}
use flotilla_os.World.{World, enqueued, terminated, emit, save_run}
use flotilla_os.Worker.Retry.{requeue, requeue_update}
use flotilla_os.Services.Execution.Terminate.{
  TerminateOutcome, terminating_engine, terminate_job, after_read, stop_run, stop_update,
}
use flotilla_os.Services.System.{update}

pub requeue_cases :
    (faults : TxFaults) (enqueue_fails : Bool) (run : Run) (w : World)
    → let w' = save_run faults run.run_id requeue_update w in
      ((requeue faults enqueue_fails run w).0 ≡ w')
      ⊎ ((requeue faults enqueue_fails run w).0 ≡ emit (enqueued eks_engine run) w')
unfolding requeue
requeue_cases faults enqueue_fails run w = ground arith

pub stop_run_cases :
    (outcome : TerminateOutcome) (user : UserInfo) (run : Run) (w : World)
    → let w' = emit (terminated (terminating_engine run) run.run_id) w in
      (stop_run outcome user run w ≡ w)
      ⊎ (stop_run outcome user run w ≡ w')
      ⊎ (stop_run outcome user run w
          ≡ save_run outcome.update run.run_id (stop_update user outcome.now) w')
unfolding stop_run
stop_run_cases outcome user run w = ground arith

pub terminate_job_cases :
    (outcome : TerminateOutcome) (user : UserInfo) (run_id : String) (w : World)
    → ((terminate_job outcome user run_id w).0 ≡ w)
      ⊎ ((run : Run) × ((terminate_job outcome user run_id w).0 ≡ stop_run outcome user run w))
unfolding terminate_job after_read
terminate_job_cases outcome user run_id w =
    elim (Result-cases (get_run outcome.read_fails run_id w.tasks)) [
      | inl (run, read) ↦ inr (run, rw (read, after_read))
      | inr (e, failed) ↦ inl (rw (failed, after_read))
    ]

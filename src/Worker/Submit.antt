-- ===== src/Worker/Submit.antt =====
-- runOnce of worker/submit_worker.go: the runs received from the queues are launched. Its log
-- lines are left out.
pub mod Delivery
pub mod Launches
pub mod Once
use flotilla_os.Common.{
  Bool, true, false, String, List, [], ◌∷◌, Option, none, some, ◌==◌, Error, Result, ok, err,
  if◌then◌else◌, ◌||◌, is_none, points_to, get_or, not,
}
use flotilla_os.State.Constants.{eks_engine, eks_spark_engine, status_queued, status_stopped}
use flotilla_os.State.Types.{Run, Executable, task_definition, template, Definition, Template}
use flotilla_os.State.TaskTable.{TxFaults, get_run}
use flotilla_os.World.{
  World, Event, executed, acked, emit, get_definition, get_template_by_id, save_run,
}

-- What `Execute` returns: the launched run, whether to retry, and its error.
pub record Launch : Type 0 where
  pub launched : Run
  pub retryable : Bool
  pub error : Option Error

-- The two engines, which are called through the interface engine.Engine.
pub record Engines : Type 0 where
  pub eks_execute : Executable → Run → Launch
  pub emr_execute : Executable → Run → Launch

-- What the database refuses while one receipt is processed.
pub record Faults : Type 0 where
  pub run_read_fails : Bool
  pub executable_read_fails : Bool
  pub transaction : TxFaults

-- A received message: the run in it, if any, and the handle that `Done` acknowledges.
pub record RunReceipt : Type 0 where
  pub run : Option Run
  pub handle : String

module _ (engines : Engines) where
  open engines use {eks_execute, emr_execute}

  -- The run with its executable's type and identifier filled in.
  abbrev pub with_executable : Run → Run
  with_executable run = record run {
    executable_type = some (get_or "task_definition" run.executable_type);
    executable_id = some (get_or run.definition_id run.executable_id);
  }

  -- The end of the loop's body, after `Execute`: an error that is retryable leaves the message in
  -- the queue and the run as it is.
  unfoldable pub after_launch : TxFaults → String → String → Launch → World → World
  after_launch faults run_id handle launch w = elim launch.error [
    | none ↦ emit (acked handle) (save_run faults run_id launch.launched w)
    | some e ↦
        if launch.retryable
        then w
        else emit (acked handle)
            (save_run faults run_id (record launch.launched { status = status_stopped }) w)
  ]

  unfoldable pub launch_definition : Faults → String → Run → World → World
  launch_definition faults handle run w =
      elim (get_definition faults.executable_read_fails (get_or "" run.executable_id) w) [
        | err e ↦ emit (acked handle) w
        | ok d ↦
            if is_none run.engine || points_to run.engine eks_engine
            then after_launch faults.transaction run.run_id handle
                (eks_execute (task_definition d) run) (emit (executed eks_engine run.run_id) w)
            else after_launch faults.transaction run.run_id handle
                (emr_execute (task_definition d) run)
                (emit (executed eks_spark_engine run.run_id) w)
      ]

  -- A template runs on the EKS engine whatever engine the run names.
  unfoldable pub launch_template : Faults → String → Run → World → World
  launch_template faults handle run w =
      elim (get_template_by_id faults.executable_read_fails (get_or "" run.executable_id) w) [
        | err e ↦ emit (acked handle) w
        | ok t ↦
            after_launch faults.transaction run.run_id handle (eks_execute (template t) run)
              (emit (executed eks_engine run.run_id) w)
      ]

  -- The switch on the executable's type; any other type is skipped without an acknowledgement.
  unfoldable pub launch : Faults → String → Run → World → World
  launch faults handle run w =
      if points_to run.executable_type "task_definition"
      then launch_definition faults handle run w
      else if points_to run.executable_type "template"
      then launch_template faults handle run w
      else w

  -- The loop's body for one receipt.
  unfoldable pub process_run : Faults → String → Run → World → World
  process_run faults handle run w =
      if run.status == status_queued
      then launch faults handle (with_executable run) w
      else emit (acked handle) w

  unfoldable pub process_stored : Faults → String → Result Run → World → World
  process_stored faults handle (err e) w = emit (acked handle) w
  process_stored faults handle (ok run) w = process_run faults handle run w

  unfoldable pub process_receipt : Faults → RunReceipt → World → World
  process_receipt faults receipt w = elim receipt.run [
    | none ↦ w
    | some message ↦
        process_stored faults receipt.handle (get_run faults.run_read_fails message.run_id w.tasks)
          w
  ]

  -- The loop over the receipts of both engines.
  unfoldable pub run_once : List (Faults × RunReceipt) → World → World
  run_once [] w = w
  run_once ((faults, receipt) ∷ receipts) w = run_once receipts (process_receipt faults receipt w)

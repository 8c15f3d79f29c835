-- ===== src/Worker/Submit/Once.antt =====
-- The submit worker with the EKS engine: a run whose job is created is launched once, however often
-- its message is delivered.
use flotilla_os.Common.{true, false}
use flotilla_os.State.Types.{Run, Time, Executable}
use flotilla_os.State.TaskTable.{no_faults, select_row}
use flotilla_os.World.{World}
use flotilla_os.Adapter.Kubernetes.{JobStatus}
use flotilla_os.Engine.Eks.{PodAnswers, created, execute}
use flotilla_os.Worker.Submit.{Launch, Engines, Faults, with_executable}

-- The EKS engine whose API creates each job, beside any other engine for Spark.
abbrev pub creating : Time → JobStatus → PodAnswers → (Executable → Run → Launch) → Engines
creating now job answers emr_execute = record {
  eks_execute = λ executable run. execute now true (created job) answers run;
  emr_execute = emr_execute;
}

abbrev pub fine : Faults
fine = record { run_read_fails = false; executable_read_fails = false; transaction = no_faults }

module _ (now : Time) (job : JobStatus) (answers : PodAnswers)
    (emr_execute : Executable → Run → Launch) where
  abbrev engines : Engines
  engines = creating now job answers emr_execute

  -- The run that `Execute` returns for a row.
  launched_row : Run → Run
  launched_row row =
      (execute now true (created job) answers (with_executable engines (select_row row))).launched

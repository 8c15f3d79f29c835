-- ===== src/Examples/Workers.antt =====
-- The theorems on the submit worker and the retry worker, at concrete messages.
use flotilla_os.Common.{
  true, false, [], ◌∷◌, none, some, ◌≡◌, refl, ok, pos, returns, string_slice_contains,
}
use flotilla_os.State.Constants.{eks_engine, status_queued, status_running, status_stopped}
use flotilla_os.State.Types.{Run}
use flotilla_os.State.TaskTable.{
  find_row, no_faults, get_run, select_row, update_run, exec_update, update_row, write_columns,
}
use flotilla_os.State.RunUpdate.{update_with, update_status, status_precedence}
use flotilla_os.State.TaskTable.Update.{different}
use flotilla_os.World.{World, executed, acked, emit, save_run, get_definition}
use flotilla_os.Worker.Submit.{
  process_receipt, process_stored, process_run, launch, launch_definition, after_launch, run_once,
}
use flotilla_os.Worker.Submit.Delivery.{run_once-keeps}
use flotilla_os.Worker.Retry.{requeue_all}
use flotilla_os.Worker.Retry.Requeue.{HasStatus, without_failures, requeue_all-queued}
use flotilla_os.Worker.Status.{Fetched, StatusOutcome, process_eks_run}
use flotilla_os.Worker.Status.Saves.{process_eks_run-saves}
use flotilla_os.Adapter.Kubernetes.{JobStatus}
use flotilla_os.Engine.Eks.{PodAnswers}
use flotilla_os.State.Types.{Executable}
use flotilla_os.Worker.Submit.{Launch}
use flotilla_os.Examples.Data.{
  waiting, active, failing, world, launching, no_read_faults, receipt_of,
}

run_once_example :
    find_row "eks-2"
      (run_once launching
        ((no_read_faults, receipt_of active) ∷ (no_read_faults, receipt_of waiting) ∷ [])
        world).tasks
    ≡ some active
unfolding find_row
run_once_example =
    run_once-keeps launching
      ((no_read_faults, receipt_of active) ∷ (no_read_faults, receipt_of waiting) ∷ []) world
      "eks-2" active refl (different status_running status_queued refl)

requeue_all-queued_example :
    HasStatus status_queued "eks-4" (requeue_all (without_failures (failing ∷ [])) world)
unfolding find_row string_slice_contains
requeue_all-queued_example =
    requeue_all-queued (failing ∷ []) "eks-4" world refl (failing, refl, refl)

-- A queued run is launched and acknowledged; another run is only acknowledged.
launched_once :
    (run_once launching
      ((no_read_faults, receipt_of waiting) ∷ (no_read_faults, receipt_of waiting) ∷ [])
      world).events
    ≡ executed eks_engine "eks-1" ∷ acked "handle" ∷ acked "handle" ∷ []
unfolding run_once process_receipt process_stored process_run launch launch_definition after_launch
    get_run select_row find_row get_definition emit save_run update_run exec_update update_row
    write_columns update_with update_status status_precedence
launched_once = refl

-- The job of the active run has failed.
abbrev fetched : Fetched
fetched = record {
  updated = record active { status = status_stopped; exit_code = some (pos 1) };
  error = none;
  same_pod_name = true;
  same_others = true;
}

abbrev polled : StatusOutcome
polled = record {
  read_fails = false;
  fetched = fetched;
  sub_runs = ok [];
  update = no_faults;
  now = 100;
  stopped_at = 101;
}

process_eks_run-saves_example :
    (w' : World) × (process_eks_run polled active world ≡ returns w')
    × ((row' : Run) × (find_row "eks-2" w'.tasks ≡ some row')
        × (row'.status ≡ update_status status_running status_stopped))
unfolding find_row
process_eks_run-saves_example =
    process_eks_run-saves polled active active world refl
      (different status_running status_stopped refl) refl refl
      (different status_running status_stopped refl) refl

-- The job of a run that was queued an hour ago is not found.
abbrev old : Run
old = record active { queued_at = some 0 }

abbrev lost : StatusOutcome
lost = record polled {
  fetched = record fetched { updated = old; error = some "job not found" };
  now = 3600000000000;
}

-- The answers of the Kubernetes API to the launch of the waiting run.
abbrev created_job : JobStatus
created_job = record {
  active = pos 1;
  succeeded = pos 0;
  failed = pos 0;
  start_time = some 10;
  completion_time = none;
}

abbrev no_pods : PodAnswers
no_pods = record { by_name = (none, none); by_job = (none, none) }

abbrev spark : Executable → Run → Launch
spark executable run = record { launched = run; retryable = true; error = none }

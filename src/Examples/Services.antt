-- ===== src/Examples/Services.antt =====
-- The theorems on the execution service, and on the service and the workers together, at concrete
-- requests.
use flotilla_os.Common.{
  pos, true, false, String, [], ◌∷◌, none, some, ◌≡◌, inl, refl, ok, returns, string_slice_contains,
}
use flotilla_os.State.Constants.{
  eks_engine, status_queued, status_running, status_stopped, is_valid_status,
}
use flotilla_os.State.Types.{Run}
use flotilla_os.State.TaskTable.{no_faults, find_row, get_run, update_run}
use flotilla_os.State.TaskTable.Update.{different}
use flotilla_os.World.{World}
use flotilla_os.Worker.Submit.{process_receipt}
use flotilla_os.Worker.Retry.{requeue}
use flotilla_os.Services.Execution.Construct.{new_run_id}
use flotilla_os.Services.Execution.Enqueue.{Created, create_and_enqueue_run, create_from_definition}
use flotilla_os.Services.Execution.Enqueue.Queued.{
  no_enqueue_faults, IsQueuedAt, create_from_definition-queued, create_and_enqueue_run-IsQueuedAt,
}
use flotilla_os.Services.Execution.ExitReason.{
  extract_exit_reason, extract_exit_reason-reasons, reasons,
}
use flotilla_os.Services.Execution.UpdateStatus.{StatusUpdate, update_read, update_status_of}
use flotilla_os.Services.Execution.Terminate.{
  TerminateOutcome, terminate_job, terminate_job-stops, exit_reason_of,
}
use flotilla_os.Examples.Data.{
  waiting, active, failing, world, table, launching, no_read_faults, receipt_of, run_with, request,
  settings, outside, sleeper, user,
}

abbrev uuid : String
uuid = "0b5f5b67-2f6b-4d0c-9c9e-6f4f0f3f2c11"

abbrev run_id : String
run_id = "eks-5b67-2f6b-4d0c-9c9e-6f4f0f3f2c11"

create_from_definition_example :
    (created : Created) × (create_from_definition settings outside sleeper request world
      ≡ returns created)
    × ((row : Run) × IsQueuedAt world eks_engine row created
        × (row.run_id ≡ run_id)
        × (row.status ≡ status_queued)
        × (row.cluster_name ≡ "second")
        × (row.queued_at ≡ some 1000)
        × (row.definition_id ≡ "sleeper"))
unfolding new_run_id find_row
create_from_definition_example =
    create_from_definition-queued settings outside sleeper request world "second" run_id refl refl
      refl refl refl

abbrev fresh : Run
fresh = run_with "eks-9" status_queued

-- The run is created where nothing fails.
made_fresh :
    (created : Created) × (create_and_enqueue_run no_enqueue_faults (λ s. s) 1000 fresh world
      ≡ returns created)
unfolding find_row
made_fresh =
    let (created, done, queued, at) =
      create_and_enqueue_run-IsQueuedAt (λ s. s) 1000 eks_engine fresh world refl refl in
    (created, done)

extract_exit_reason_example :
    string_slice_contains reasons (extract_exit_reason (some ("division by zero" ∷ []))) ≡ true
extract_exit_reason_example = extract_exit_reason-reasons (some ("division by zero" ∷ []))

abbrev stop_request : StatusUpdate
stop_request = record {
  status = status_stopped;
  exit_code = some (pos 1);
  run_exceptions = some ("a timeout" ∷ []);
  exit_reason = none;
}

updated : (update_status_of false no_faults 50 "eks-2" stop_request table).1 ≡ none
unfolding update_status_of is_valid_status get_run find_row update_read update_run
updated = refl

abbrev stops : TerminateOutcome
stops = record {
  read_fails = false;
  sub_runs = ok (waiting ∷ []);
  engine_error = none;
  update = no_faults;
  now = 60;
}

terminate_job_example :
    ((row' : Run) × (find_row "eks-2" (terminate_job stops user "eks-2" world).0.tasks ≡ some row')
      × (row'.status ≡ status_stopped)
      × (row'.exit_code ≡ some (pos 1))
      × (row'.exit_reason ≡ some (exit_reason_of user))
      × (row'.finished_at ≡ some 60))
    × ((terminate_job stops user "eks-2" world).1 ≡ "eks-1" ∷ [])
unfolding find_row is_valid_status
terminate_job_example =
    terminate_job-stops stops user "eks-2" world active (waiting ∷ []) refl refl
      (different status_running status_stopped refl) (inl refl) refl refl refl

-- A run is queued again, a run is launched, and another run is terminated.
abbrev launched : World
launched =
    process_receipt launching no_read_faults (receipt_of waiting)
      (requeue no_faults false failing world).0

-- ===== src/Services/Execution/Terminate.antt =====
-- Terminate and terminateWorker: a run and the runs that it started are stopped. Each job starts a
-- worker, and each worker takes one job, since every path of its loop ends in a `break`.
use Prim.Native.String.{◌++◌ as text_append}
use flotilla_os.Common.{
  Bool, true, false, String, List, [], Option, none, some, ◌≡◌, ◌≢◌, ◌⊎◌, refl, ◌∙◌, ap, arith,
  ◌==◌, ◌||◌, eq_iff, Error, Result, ok, err, if◌then◌else◌, is_none, is_empty, get_or, map, pos,
}
use flotilla_os.State.Constants.{
  eks_engine, eks_spark_engine, status_stopped, status_queued, is_valid_status,
}
use flotilla_os.State.Types.{Run, Time, UserInfo}
use flotilla_os.State.RunUpdate.{zero_run, update_with, update_status, status_precedence}
use flotilla_os.State.TaskTable.{
  TxFaults, no_faults, get_run, find_row, select_row, write_columns, update_run,
}
use flotilla_os.State.TaskTable.Update.{find_row-update_run, get_run_found, update_run-no_faults}
use flotilla_os.State.TaskTable.Rows.{find_row-key}
use flotilla_os.World.{World, terminated, emit, save_run}

-- What the calls of one job return: the read of the run, the runs that it started, the engine's
-- `Terminate`, and the update.
pub record TerminateOutcome : Type 0 where
  pub read_fails : Bool
  pub sub_runs : Result (List Run)
  pub engine_error : Option Error
  pub update : TxFaults
  pub now : Time

unfoldable pub exit_reason_of : UserInfo → String
exit_reason_of user =
    if is_empty user.email
    then "Task terminated by user"
    else text_append "Task terminated by - " user.email

abbrev pub stop_update : UserInfo → Time → Run
stop_update user now = record zero_run {
  status = status_stopped;
  exit_reason = some (exit_reason_of user);
  exit_code = some (pos 1);
  finished_at = some now;
}

abbrev pub terminating_engine : Run → String
terminating_engine run =
    if get_or eks_engine run.engine == eks_spark_engine then eks_spark_engine else eks_engine

-- The part of the job that follows the read of the run.
unfoldable pub stop_run : TerminateOutcome → UserInfo → Run → World → World
stop_run outcome user run w =
    let w' = emit (terminated (terminating_engine run) run.run_id) w in
    if run.status == status_stopped
    then w
    else if is_none outcome.engine_error || run.status == status_queued
    then save_run outcome.update run.run_id (stop_update user outcome.now) w'
    else w'

abbrev pub sub_jobs : Result (List Run) → List String
sub_jobs (err e) = []
sub_jobs (ok runs) = map (λ r. r.run_id) runs

unfoldable pub after_read : TerminateOutcome → UserInfo → Result Run → World → World × List String
after_read outcome user (err e) w = (w, [])
after_read outcome user (ok run) w = (stop_run outcome user run w, sub_jobs outcome.sub_runs)

-- One job: what it does, and the jobs that it puts into the channel.
unfoldable pub terminate_job : TerminateOutcome → UserInfo → String → World → World × List String
terminate_job outcome user run_id w =
    after_read outcome user (get_run outcome.read_fails run_id w.tasks) w

stopped_last :
    (d : String) → is_valid_status d ≡ true → update_status d status_stopped ≡ status_stopped
unfolding update_status status_precedence is_valid_status
stopped_last d h = ground (arith, eq_iff d status_stopped)

stop_run_saves :
    (outcome : TerminateOutcome) (user : UserInfo) (run : Run) (w : World)
    → run.status ≢ status_stopped
    → (outcome.engine_error ≡ none) ⊎ (run.status ≡ status_queued)
    → stop_run outcome user run w
      ≡ save_run outcome.update run.run_id
          (stop_update user outcome.now)
          (emit (terminated (terminating_engine run) run.run_id) w)
unfolding stop_run
stop_run_saves outcome user run w h may =
    ground (arith, eq_iff run.status status_stopped, eq_iff run.status status_queued)

terminate_job_done :
    (outcome : TerminateOutcome) (user : UserInfo) (run_id : String) (w : World) (row : Run)
    (runs : List Run)
    → find_row run_id w.tasks ≡ some row
    → outcome.read_fails ≡ false
    → outcome.sub_runs ≡ ok runs
    → terminate_job outcome user run_id w
      ≡ (stop_run outcome user (select_row row) w, map (λ r. r.run_id) runs)
unfolding terminate_job
terminate_job_done outcome user run_id w row runs found read subs =
    ap (λ fails. after_read outcome user (get_run fails run_id w.tasks) w) read
    ∙ ap (λ r. after_read outcome user r w) (get_run_found run_id w.tasks row found)
    ∙ (unfold after_read in ap (λ r. (stop_run outcome user (select_row row) w, sub_jobs r)) subs)

save_run_found :
    (faults : TxFaults) (run_id : String) (updates : Run) (w : World) (row : Run)
    → find_row run_id w.tasks ≡ some row
    → faults ≡ no_faults
    → find_row run_id (save_run faults row.run_id updates w).tasks
      ≡ some (write_columns row (update_with (select_row row) updates))
unfolding save_run
save_run_found faults run_id updates w row found fine =
    ap (λ k. find_row run_id (update_run faults k updates w.tasks).0)
      (find_row-key run_id w.tasks row found)
    ∙ find_row-update_run faults run_id updates w.tasks row found (
        ap (λ f. (update_run f run_id updates w.tasks).2) fine
        ∙ update_run-no_faults run_id updates w.tasks)

-- A run in the table with a known status other than STOPPED is stopped by a job whose reads and
-- update do not fail, if its engine terminates it, or if it is queued, whatever its engine says:
-- it gets the exit code 1, the reason that names the user, and the end; and a job is put into the
-- channel for each run that it started.
pub terminate_job-stops :
    (outcome : TerminateOutcome) (user : UserInfo) (run_id : String) (w : World) (row : Run)
    (runs : List Run)
    → find_row run_id w.tasks ≡ some row
    → is_valid_status row.status ≡ true
    → row.status ≢ status_stopped
    → (outcome.engine_error ≡ none) ⊎ (row.status ≡ status_queued)
    → outcome.read_fails ≡ false
    → outcome.update ≡ no_faults
    → outcome.sub_runs ≡ ok runs
    → ((row' : Run) × (find_row run_id (terminate_job outcome user run_id w).0.tasks ≡ some row')
        × (row'.status ≡ status_stopped)
        × (row'.exit_code ≡ some (pos 1))
        × (row'.exit_reason ≡ some (exit_reason_of user))
        × (row'.finished_at ≡ some outcome.now))
      × ((terminate_job outcome user run_id w).1 ≡ map (λ r. r.run_id) runs)
unfolding write_columns update_with select_row
terminate_job-stops outcome user run_id w row runs found valid running may read fine subs =
    let job = terminate_job_done outcome user run_id w row runs found read subs in
    let saved = stop_run_saves outcome user (select_row row) w running may in
    let called = emit (terminated (terminating_engine (select_row row)) row.run_id) w in
    (
      (
        write_columns row (update_with (select_row row) (stop_update user outcome.now)),
        ap (λ r. find_row run_id r.0.tasks) job
            ∙ ap (λ v. find_row run_id v.tasks) saved
            ∙ save_run_found outcome.update run_id (stop_update user outcome.now) called row
                (unfold emit in found) fine,
        stopped_last row.status valid,
        refl,
        refl,
        refl,
      ),
      ap (λ r. r.1) job,
    )

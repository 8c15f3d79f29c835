-- ===== src/Services/Execution/UpdateStatus.antt =====
-- UpdateStatus: a run's status is set by hand.
use flotilla_os.Common.{
  ℤ, Bool, true, false, not, String, List, Option, none, some, ◌≡◌, inl, inr, refl, ap, sym, ◌∙◌,
  Error, malformed_input, Result, ok, err, if◌then◌else◌, is_none, get_or, string_slice_contains,
  Bool-cases,
}
use flotilla_os.State.Constants.{is_valid_status}
use flotilla_os.State.Types.{Run, Time}
use flotilla_os.State.RunUpdate.{zero_run, update_with, update_status, over_pointer}
use flotilla_os.State.TaskTable.{TxFaults, select_row, find_row, get_run, write_columns, update_run}
use flotilla_os.State.TaskTable.Update.{
  find_row-update_run, get_run_found, update_run_error_unchanged,
}
use flotilla_os.Services.Execution.ExitReason.{
  extract_exit_reason, extract_exit_reason-reasons, reasons,
}

-- The request to set a status.
pub record StatusUpdate : Type 0 where
  pub status : String
  pub exit_code : Option ℤ
  pub run_exceptions : Option (List String)
  pub exit_reason : Option String

-- `startedAt`: a run that has not started is said to have started when it was queued.
abbrev pub started_or_queued : Run → Option Time
started_or_queued run = if is_none run.started_at then run.queued_at else run.started_at

unfoldable pub status_update_run : StatusUpdate → Time → Run → Run
status_update_run request now run = record zero_run {
  status = request.status;
  exit_code = request.exit_code;
  exit_reason = some (get_or (extract_exit_reason request.run_exceptions) request.exit_reason);
  run_exceptions = request.run_exceptions;
  finished_at = some now;
  started_at = started_or_queued run;
}

unfoldable pub update_read :
    TxFaults → Time → String → StatusUpdate → Result Run → List Run → List Run × Option Error
update_read faults now run_id request (err e) rows = (rows, some e)
update_read faults now run_id request (ok run) rows =
    let (rows', updated, e) = update_run faults run_id (status_update_run request now run) rows in
    (rows', e)

-- The table after the call, and its error.
unfoldable pub update_status_of :
    Bool → TxFaults → Time → String → StatusUpdate → List Run → List Run × Option Error
update_status_of read_fails faults now run_id request rows =
    if not (is_valid_status request.status)
    then (rows, some (malformed_input "status is invalid"))
    else update_read faults now run_id request (get_run read_fails run_id rows) rows

update_read_error :
    (faults : TxFaults) (now : Time) (run_id : String) (request : StatusUpdate) (r : Result Run)
    (rows : List Run) (e : Error)
    → (update_read faults now run_id request r rows).1 ≡ some e
    → (update_read faults now run_id request r rows).0 ≡ rows
unfolding update_read
update_read_error faults now run_id request (err e') rows e h = refl
update_read_error faults now run_id request (ok run) rows e h =
    update_run_error_unchanged faults run_id (status_update_run request now run) rows e h

-- A call that ends in an error, for an unknown status, an unknown run or a failure of the database,
-- leaves the table as it was.
pub update_status_of_error :
    (read_fails : Bool) (faults : TxFaults) (now : Time) (run_id : String) (request : StatusUpdate)
    (rows : List Run) (e : Error)
    → (update_status_of read_fails faults now run_id request rows).1 ≡ some e
    → (update_status_of read_fails faults now run_id request rows).0 ≡ rows
unfolding update_status_of
update_status_of_error read_fails faults now run_id request rows e h =
    elim (Bool-cases (is_valid_status request.status)) [
      | inr unknown ↦ rw unknown
      | inl known ↦ rw known (update_read_error faults now run_id request _ rows e (rw known at h))
    ]

update_status_of_table :
    (faults : TxFaults) (now : Time) (run_id : String) (request : StatusUpdate) (rows : List Run)
    (row : Run)
    → is_valid_status request.status ≡ true
    → find_row run_id rows ≡ some row
    → let (rows', updated, e) =
        update_run faults run_id (status_update_run request now (select_row row)) rows in
      update_status_of false faults now run_id request rows ≡ (rows', e)
unfolding update_status_of update_read
update_status_of_table faults now run_id request rows row valid found =
    rw (valid, get_run_found run_id rows row found, update_read)

started-update :
    (d queued : Option Time)
    → over_pointer d (if is_none d then queued else d) ≡ (if is_none d then queued else d)
started-update none none = refl
started-update none (some t) = refl
started-update (some s) queued = refl

-- A call without an error on a run in the table sets its end, an exit reason, and a start if the run
-- has a start or was queued; its status is the request's unless the run is already further along its
-- lifecycle, and the exit reason, where the request has none, is one of the reasons of the code.
update_status_of_lem :
    (faults : TxFaults) (now : Time) (run_id : String) (request : StatusUpdate) (rows : List Run)
    (row : Run)
    → is_valid_status request.status ≡ true
    → find_row run_id rows ≡ some row
    → (update_status_of false faults now run_id request rows).1 ≡ none
    → (row' : Run) × (find_row run_id (update_status_of false faults now run_id request rows).0
        ≡ some row')
      × (row'.status ≡ update_status row.status request.status)
      × (row'.finished_at ≡ some now)
      × (row'.started_at ≡ started_or_queued row)
      × (row'.exit_reason
          ≡ some (get_or (extract_exit_reason request.run_exceptions) request.exit_reason))
      × (string_slice_contains reasons (extract_exit_reason request.run_exceptions) ≡ true)
unfolding write_columns update_with select_row status_update_run
update_status_of_lem faults now run_id request rows row valid found done =
    let u = status_update_run request now (select_row row) in
    let table = update_status_of_table faults now run_id request rows row valid found in
    (
      write_columns row (update_with (select_row row) u),
      ap (λ t. find_row run_id t.0) table
          ∙ find_row-update_run faults run_id u rows row found (sym (ap (λ t. t.1) table) ∙ done),
      refl,
      refl,
      started-update row.started_at row.queued_at,
      refl,
      extract_exit_reason-reasons request.run_exceptions,
    )

-- ===== src/Worker/Status/Saves.antt =====
-- What the status worker saves: nothing of a run that is stopped, every change of status, and the
-- end of a run whose job is lost.
use flotilla_os.Common.{
  ◌-◌, ◌<◌, true, false, ◌&&◌, String, List, [], ◌∷◌, none, some, ◌≡◌, ◌≢◌, inl, inr, refl, ap, ◌∙◌,
  arith, Result, ok, err, ltb, ◌==◌, eq_iff, contains, if◌then◌else◌, returns, deref, ◌>>=◌,
  Bool-cases,
}
use flotilla_os.State.Constants.{status_stopped, is_valid_status}
use flotilla_os.State.Types.{Run, Time}
use flotilla_os.State.RunUpdate.{update_with, update_status, status_precedence}
use flotilla_os.State.TaskTable.{
  TxFaults, no_faults, get_run, find_row, select_row, write_columns, update_run,
}
use flotilla_os.State.TaskTable.Update.{get_run_found, find_row-update_run, update_run-no_faults}
use flotilla_os.World.{World, save_run}
use flotilla_os.Worker.Status.{
  StatusOutcome, with_spawned, process_lost, process_fetched, process_by, process_loaded,
  process_eks_run, is_stopped_run, lost_run, thirty_minutes,
}

-- A run that is stopped in the table, where it can be read, is left alone, whatever its job says
-- and whatever copy of it the worker has listed.
process_eks_run-stopped :
    (outcome : StatusOutcome) (run row : Run) (w : World)
    → outcome.read_fails ≡ false
    → find_row run.run_id w.tasks ≡ some row
    → row.status ≡ status_stopped
    → process_eks_run outcome run w ≡ returns w
unfolding process_eks_run is_stopped_run select_row
process_eks_run-stopped outcome run row w read found stopped =
    ap (λ r. if is_stopped_run r then returns w else process_loaded outcome run w) loaded
    ∙ ap (λ s. if s == status_stopped then returns w else process_loaded outcome run w) stopped
  where
    loaded : get_run outcome.read_fails run.run_id w.tasks ≡ ok (select_row row)
    loaded =
        ap (λ f. get_run f run.run_id w.tasks) read ∙ get_run_found run.run_id w.tasks row found

pub with_spawned_kept :
    (sub_runs : Result (List Run)) (u : Run)
    → ((with_spawned sub_runs u).0.status ≡ u.status)
      × ((with_spawned sub_runs u).0.run_id ≡ u.run_id)
unfolding with_spawned
with_spawned_kept (err e) u = (refl, refl)
with_spawned_kept (ok []) u = (refl, refl)
with_spawned_kept (ok (r ∷ rs)) u = (refl, refl)

process_fetched-saves :
    (outcome : StatusOutcome) (run : Run) (w : World)
    → run.status ≢ outcome.fetched.updated.status
    → process_fetched outcome run w ≡ (
        let updated = (with_spawned outcome.sub_runs outcome.fetched.updated).0 in
        save_run outcome.update updated.run_id updated w)
unfolding process_fetched
process_fetched-saves outcome run w changed = ground (
  arith,
  (with_spawned_kept outcome.sub_runs outcome.fetched.updated).0,
  eq_iff run.status (with_spawned outcome.sub_runs outcome.fetched.updated).0.status,
)

not_equal : (a b : String) → a ≢ b → (a == b) ≡ false
not_equal a b h = ground (arith, eq_iff a b)

loaded_running :
    (outcome : StatusOutcome) (run row : Run) (w : World)
    → find_row run.run_id w.tasks ≡ some row
    → row.status ≢ status_stopped
    → process_eks_run outcome run w ≡ process_loaded outcome run w
unfolding process_eks_run is_stopped_run get_run select_row
loaded_running outcome run row w found running = elim (Bool-cases outcome.read_fails) [
  | inl fails ↦
      ap
        (λ f.
          if is_stopped_run (get_run f run.run_id w.tasks)
          then returns w
          else process_loaded outcome run w)
        fails
  | inr reads ↦
      ap
        (λ f.
          if is_stopped_run (get_run f run.run_id w.tasks)
          then returns w
          else process_loaded outcome run w)
        reads
      ∙ ap (λ r. if is_stopped_run r then returns w else process_loaded outcome run w)
          (get_run_found run.run_id w.tasks row found)
      ∙ ap (λ b. if b then returns w else process_loaded outcome run w)
          (not_equal row.status status_stopped running)
]

loaded_fetched :
    (outcome : StatusOutcome) (run : Run) (w : World)
    → outcome.fetched.error ≡ none
    → process_loaded outcome run w ≡ returns (process_fetched outcome run w)
unfolding process_loaded process_by
loaded_fetched outcome run w fetched = ap (λ e. process_by e outcome run w) fetched

saved_row :
    (faults : TxFaults) (run_id : String) (u : Run) (w : World) (row : Run)
    → find_row run_id w.tasks ≡ some row
    → u.run_id ≡ run_id
    → faults ≡ no_faults
    → find_row run_id (save_run faults u.run_id u w).tasks
      ≡ some (write_columns row (update_with (select_row row) u))
unfolding save_run
saved_row faults run_id u w row found same fine =
    ap (λ k. find_row run_id (update_run faults k u w.tasks).0) same
    ∙ find_row-update_run faults run_id u w.tasks row found
        (ap (λ f. (update_run f run_id u w.tasks).2) fine ∙ update_run-no_faults run_id u w.tasks)

-- When a run's job has been fetched with another status than the run was listed with, and the
-- update does not fail, the row of a run that is not stopped is updated with that status, whether
-- or not the pointers that the code compares have moved.
pub process_eks_run-saves :
    (outcome : StatusOutcome) (run row : Run) (w : World)
    → find_row run.run_id w.tasks ≡ some row
    → row.status ≢ status_stopped
    → outcome.fetched.error ≡ none
    → outcome.fetched.updated.run_id ≡ run.run_id
    → run.status ≢ outcome.fetched.updated.status
    → outcome.update ≡ no_faults
    → (w' : World) × (process_eks_run outcome run w ≡ returns w')
      × ((row' : Run) × (find_row run.run_id w'.tasks ≡ some row')
          × (row'.status ≡ update_status row.status outcome.fetched.updated.status))
unfolding write_columns update_with select_row
process_eks_run-saves outcome run row w found running fetched same changed fine =
    let u = (with_spawned outcome.sub_runs outcome.fetched.updated).0 in
    let (status_kept, id_kept) = with_spawned_kept outcome.sub_runs outcome.fetched.updated in
    (
      save_run outcome.update u.run_id u w,
      loaded_running outcome run row w found running
          ∙ loaded_fetched outcome run w fetched
          ∙ ap returns (process_fetched-saves outcome run w changed),
      (
        write_columns row (update_with (select_row row) u),
        saved_row outcome.update run.run_id u w row found (id_kept ∙ same) fine,
        ap (update_status row.status) status_kept,
      ),
    )

stopped_last :
    (d : String) → is_valid_status d ≡ true → update_status d status_stopped ≡ status_stopped
unfolding update_status status_precedence is_valid_status
stopped_last d h = ground (arith, eq_iff d status_stopped)

loaded_lost :
    (outcome : StatusOutcome) (run : Run) (w : World) (message : String) (queued_at : Time)
    → outcome.fetched.error ≡ some message
    → run.queued_at ≡ some queued_at
    → contains message "not found" ≡ true
    → thirty_minutes < outcome.now - queued_at
    → process_loaded outcome run w
      ≡ returns (
          save_run outcome.update outcome.fetched.updated.run_id
            (lost_run outcome.stopped_at outcome.fetched.updated)
            w)
unfolding process_loaded process_by process_lost
loaded_lost outcome run w message queued_at failed queued lost late =
    ap (λ e. process_by e outcome run w) failed
    ∙ (ap
          (λ o. deref o >>= λ queued_at. returns (
            if contains message "not found" && ltb thirty_minutes (outcome.now - queued_at)
            then u
            else w))
          queued
        ∙ ap returns (ground (arith)))
  where
    u : World
    u =
        save_run outcome.update outcome.fetched.updated.run_id
          (lost_run outcome.stopped_at outcome.fetched.updated) w

-- A run with a known status other than STOPPED, of which the engine says more than thirty minutes
-- after it was queued that its job is not found, is stopped with an end and a reason, if the
-- update does not fail.
process_eks_run-lost :
    (outcome : StatusOutcome) (run row : Run) (w : World) (message : String) (queued_at : Time)
    → find_row run.run_id w.tasks ≡ some row
    → row.status ≢ status_stopped
    → is_valid_status row.status ≡ true
    → outcome.fetched.error ≡ some message
    → outcome.fetched.updated.run_id ≡ run.run_id
    → run.queued_at ≡ some queued_at
    → contains message "not found" ≡ true
    → thirty_minutes < outcome.now - queued_at
    → outcome.update ≡ no_faults
    → (w' : World) × (process_eks_run outcome run w ≡ returns w')
      × ((row' : Run) × (find_row run.run_id w'.tasks ≡ some row')
          × (row'.status ≡ status_stopped)
          × (row'.finished_at ≡ some outcome.stopped_at)
          × (row'.exit_reason ≡ some "Job either timed out or not found on the EKS cluster."))
unfolding write_columns update_with select_row
process_eks_run-lost outcome run row w message queued_at found running valid failed same queued lost
      late fine =
    let u = lost_run outcome.stopped_at outcome.fetched.updated in
    (
      save_run outcome.update u.run_id u w,
      loaded_running outcome run row w found running
          ∙ loaded_lost outcome run w message queued_at failed queued lost late,
      (
        write_columns row (update_with (select_row row) u),
        saved_row outcome.update run.run_id u w row found same fine,
        stopped_last row.status valid,
        refl,
        refl,
      ),
    )

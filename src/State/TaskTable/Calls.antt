-- ===== src/State/TaskTable/Calls.antt =====
-- Histories of calls of UpdateRun, by any workers: a run that is stopped stays stopped.
use flotilla_os.Common.{
  String, List, [], ◌∷◌, some, ◌≡◌, inl, inr, sym, subst, ◌∙◌, ◌==◌, eq_iff, All, Bool-cases,
}
use flotilla_os.State.Constants.{status_stopped}
use flotilla_os.State.Types.{Run}
use flotilla_os.State.RunUpdate.{update_with}
use flotilla_os.State.RunUpdate.Status.{NoRetry, apply_updates, apply_updates-stopped}
use flotilla_os.State.TaskTable.{TxFaults, select_row, find_row, write_columns, update_run}
use flotilla_os.State.TaskTable.Update.{
  update_run_kept, different, find_row-update_run, find_row-update_run_ne,
}

-- One call of `UpdateRun` in a history of calls, by any worker.
pub record Call : Type 0 where
  pub faults : TxFaults
  pub run_id : String
  pub updates : Run

unfoldable pub run_calls : List Call → List Run → List Run
run_calls [] rows = rows
run_calls (c ∷ cs) rows = run_calls cs (update_run c.faults c.run_id c.updates rows).0

abbrev pub IsStopped : String → List Run → Type 0
IsStopped run_id rows =
    (row : Run) × (find_row run_id rows ≡ some row) × (row.status ≡ status_stopped)

stopped_row :
    (row updates : Run)
    → NoRetry updates
    → row.status ≡ status_stopped
    → (write_columns row (update_with (select_row row) updates)).status ≡ status_stopped
unfolding write_columns select_row update_with apply_updates
stopped_row row updates h e = apply_updates-stopped (select_row row) (updates ∷ []) e (h, tt)

pub update_run-IsStopped :
    (c : Call) (run_id : String) (rows : List Run)
    → NoRetry c.updates
    → IsStopped run_id rows
    → IsStopped run_id (update_run c.faults c.run_id c.updates rows).0
update_run-IsStopped c run_id rows h (row, found, stopped) =
    elim (update_run_kept c.faults c.run_id c.updates rows) [
      | inl kept ↦ (row, rw kept found, stopped)
      | inr done ↦ elim (Bool-cases (c.run_id == run_id)) [
        | inl same ↦
            let e = (eq_iff c.run_id run_id).0 same in
            let found' = subst (λ k. find_row k rows ≡ some row) (sym e) found in
            let written = find_row-update_run c.faults c.run_id c.updates rows row found' done in
            (
              write_columns row (update_with (select_row row) c.updates),
              subst
                  (λ k.
                    find_row k (update_run c.faults c.run_id c.updates rows).0
                    ≡ some (write_columns row (update_with (select_row row) c.updates)))
                  e written,
              stopped_row row c.updates h stopped,
            )
        | inr other ↦ (
          row,
          find_row-update_run_ne c.faults c.run_id run_id c.updates rows
                (λ p. different c.run_id run_id other p)
              ∙ found,
          stopped,
        )
      ]
    ]

-- A run that is stopped in the table stays there and stays stopped, through every history of calls
-- on any runs with any failures, as long as no call asks for a retry.
pub run_calls-IsStopped :
    (cs : List Call) (run_id : String) (rows : List Run)
    → All (λ c. NoRetry c.updates) cs
    → IsStopped run_id rows
    → IsStopped run_id (run_calls cs rows)
unfolding run_calls
run_calls-IsStopped [] run_id rows h s = s
run_calls-IsStopped (c ∷ cs) run_id rows h s =
    run_calls-IsStopped cs run_id _ h.1 (update_run-IsStopped c run_id rows h.0 s)

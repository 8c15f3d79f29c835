-- ===== src/State/TaskTable/Update.antt =====
-- What `UpdateRun` does to the table: to the run that it names, to the others, and on every error.
use flotilla_os.State.TaskTable.Rows.{
  find_row-key, update_row-key, find_row-exec_update_self, find_row-exec_update_ne,
  exec_update_missing,
}
use flotilla_os.Common.{
  Bool, true, false, String, List, [], ◌∷◌, none, some, ◌≡◌, ◌≢◌, ◌⊎◌, inl, inr, refl, arith, ◌==◌,
  eq_iff, Error, ok, map, Option-cases,
}
use flotilla_os.State.Types.{Run}
use flotilla_os.State.RunUpdate.{update_with, zero_run}
use flotilla_os.State.TaskTable.{
  TxFaults, no_faults, select_row, find_row, get_run, write_columns, exec_update, scan_rows,
  update_run,
}

-- A transaction that ends in an error leaves the table as it was.
pub update_run_error_unchanged :
    (faults : TxFaults) (run_id : String) (updates : Run) (rows : List Run) (e : Error)
    → (update_run faults run_id updates rows).2 ≡ some e
    → (update_run faults run_id updates rows).0 ≡ rows
unfolding update_run
update_run_error_unchanged faults run_id updates rows e h = ground arith

-- An update either leaves the table alone or writes the run that it names.
pub update_run_table :
    (faults : TxFaults) (run_id : String) (updates : Run) (rows : List Run)
    → let (rows', e, error) = update_run faults run_id updates rows in
      (rows' ≡ rows) ⊎ (rows' ≡ exec_update run_id e rows)
unfolding update_run
update_run_table faults run_id updates rows = ground arith

pub update_run_kept :
    (faults : TxFaults) (run_id : String) (updates : Run) (rows : List Run)
    → let (rows', e, error) = update_run faults run_id updates rows in
      (rows' ≡ rows) ⊎ (error ≡ none)
unfolding update_run
update_run_kept faults run_id updates rows = ground arith

pub different : (a b : String) → (a == b) ≡ false → a ≢ b
different a b f p = cc (f, (eq_iff a b).1 p)

-- Without an error it writes the row updated with the update.
update_run_done :
    (faults : TxFaults) (run_id : String) (updates : Run) (rows : List Run) (row : Run)
    → find_row run_id rows ≡ some row
    → (update_run faults run_id updates rows).2 ≡ none
    → (update_run faults run_id updates rows).0
      ≡ exec_update run_id (update_with (select_row row) updates) rows
unfolding update_run
update_run_done faults run_id updates rows row found done = ground arith

pub find_row-update_run :
    (faults : TxFaults) (run_id : String) (updates : Run) (rows : List Run) (row : Run)
    → find_row run_id rows ≡ some row
    → (update_run faults run_id updates rows).2 ≡ none
    → find_row run_id (update_run faults run_id updates rows).0
      ≡ some (write_columns row (update_with (select_row row) updates))
find_row-update_run faults run_id updates rows row found done =
    rw (update_run_done faults run_id updates rows row found done)
      (find_row-exec_update_self run_id _ rows row found)

-- What is read of a run after an update.
abbrev pub read_back : Run → Run → Run
read_back row updates = record (update_with (select_row row) updates) {
  run_id = row.run_id;
  user = "";
  task_type = row.task_type;
  command_hash = row.command_hash;
}

pub find_row-update_run_ne :
    (faults : TxFaults) (run_id other : String) (updates : Run) (rows : List Run)
    → run_id ≢ other
    → find_row other (update_run faults run_id updates rows).0 ≡ find_row other rows
find_row-update_run_ne faults run_id other updates rows h =
    elim (update_run_table faults run_id updates rows) [
      | inl same ↦ rw same
      | inr written ↦ rw written (find_row-exec_update_ne run_id other _ rows h)
    ]

-- No update of a run, whatever comes of it, is seen by a reader of another run.
pub get_run-update_run_ne :
    (faults : TxFaults) (run_id other : String) (updates : Run) (rows : List Run)
    → run_id ≢ other
    → get_run false other (update_run faults run_id updates rows).0 ≡ get_run false other rows
unfolding get_run
get_run-update_run_ne faults run_id other updates rows h =
    rw (find_row-update_run_ne faults run_id other updates rows h, get_run)

run_ids-exec_update :
    (run_id : String) (e : Run) (rows : List Run)
    → map (λ r. r.run_id) (exec_update run_id e rows) ≡ map (λ r. r.run_id) rows
unfolding exec_update
run_ids-exec_update run_id e [] = refl
run_ids-exec_update run_id e (x ∷ rows) =
    rw (update_row-key run_id e x, run_ids-exec_update run_id e rows)

-- An update adds, drops and renames no row.
pub run_ids-update_run :
    (faults : TxFaults) (run_id : String) (updates : Run) (rows : List Run)
    → map (λ r. r.run_id) (update_run faults run_id updates rows).0 ≡ map (λ r. r.run_id) rows
run_ids-update_run faults run_id updates rows = elim (update_run_table faults run_id updates rows) [
  | inl same ↦ rw same
  | inr written ↦ rw written (run_ids-exec_update run_id _ rows)
]

-- An update of a run that is not in the table returns no error: it returns the update laid over the
-- empty run, and the table is as it was.
pub update_run_missing :
    (run_id : String) (updates : Run) (rows : List Run)
    → find_row run_id rows ≡ none
    → update_run no_faults run_id updates rows ≡ (rows, update_with zero_run updates, none)
unfolding update_run
update_run_missing run_id updates rows h =
    rw (h, scan_rows) (rw (exec_update_missing run_id _ rows h))

-- A run that is read stands in a row under the identifier that was asked for.
pub get_run-row :
    (fails : Bool) (run_id : String) (rows : List Run) (r : Run)
    → get_run fails run_id rows ≡ ok r
    → (row : Run) × (find_row run_id rows ≡ some row) × (r ≡ select_row row) × (row.run_id ≡ run_id)
unfolding get_run
get_run-row true run_id rows r h = cc
get_run-row false run_id rows r h = elim (Option-cases (find_row run_id rows)) [
  | inl absent ↦ absurd (ground arith)
  | inr (row, found) ↦ (row, found, ground arith, find_row-key run_id rows row found)
]

pub get_run_found :
    (run_id : String) (rows : List Run) (row : Run)
    → find_row run_id rows ≡ some row
    → get_run false run_id rows ≡ ok (select_row row)
unfolding get_run
get_run_found run_id rows row h = rw (h, get_run)

-- A call in which nothing fails returns no error.
pub update_run-no_faults :
    (run_id : String) (updates : Run) (rows : List Run)
    → (update_run no_faults run_id updates rows).2 ≡ none
unfolding update_run scan_rows
update_run-no_faults run_id updates rows = ground arith

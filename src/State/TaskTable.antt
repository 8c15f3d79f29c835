-- ===== src/State/TaskTable.antt =====
-- The table `task` behind state/pg_state_manager.go: GetRun, GetRunByEMRJobId, UpdateRun and
-- CreateRun, with the
-- transaction that each opens. The rows are a list; what the database refuses is an argument.
pub mod Calls
pub mod Rows
pub mod Update
pub mod Create
use flotilla_os.Common.{
  Bool, true, false, String, List, [], ◌∷◌, ◌++◌, Option, none, some, ◌==◌, Error, missing_resource,
  plain_error, Result, ok, err, if◌then◌else◌, get_or, map, any, keep, points_to,
}
use flotilla_os.State.Types.{Run}
use flotilla_os.State.RunUpdate.{update_with, zero_run}

-- What may go wrong in one transaction. A failed scan leaves a run that is filled in part.
pub record TxFaults : Type 0 where
  pub begin_fails : Bool
  pub query_fails : Bool
  pub scan_fails : Option Run
  pub exec_fails : Bool
  pub commit_fails : Bool

abbrev pub no_faults : TxFaults
no_faults = record {
  begin_fails = false;
  query_fails = false;
  scan_fails = none;
  exec_fails = false;
  commit_fails = false;
}

-- `RunSelect`: NULL in `executable_id` and `executable_type` is read as the empty text, and the
-- column `user` is not read.
unfoldable pub select_row : Run → Run
select_row r = record r {
  user = "";
  executable_id = some (get_or "" r.executable_id);
  executable_type = some (get_or "" r.executable_type);
}

unfoldable pub find_row : String → List Run → Option Run
find_row run_id [] = none
find_row run_id (r ∷ rows) = if r.run_id == run_id then some r else find_row run_id rows

-- `GetRun`. `fails` is an error of the database other than `sql.ErrNoRows`.
unfoldable pub get_run : Bool → String → List Run → Result Run
get_run true run_id rows = err (plain_error "issue getting run")
get_run false run_id rows = elim (find_row run_id rows) [
  | none ↦ err (missing_resource "Run not found")
  | some r ↦ ok (select_row r)
]

-- `spark_extension->>'emr_job_id' = $1`
unfoldable pub is_of_emr_job : String → Run → Bool
is_of_emr_job job_id r = elim r.spark_extension [
  | none ↦ false
  | some ext ↦ points_to ext.emr_job_id job_id
]

-- `GetRunByEMRJobId`
unfoldable pub get_run_by_emr_job_id : Bool → String → List Run → Result Run
get_run_by_emr_job_id true job_id rows = err (plain_error "issue getting run")
get_run_by_emr_job_id false job_id rows = elim (keep (is_of_emr_job job_id) rows) [
  | [] ↦ err (missing_resource "Run not found")
  | r ∷ rs ↦ ok (select_row r)
]

-- The columns that `UPDATE task SET` names; the others keep what the row has.
unfoldable pub write_columns : Run → Run → Run
write_columns row existing = record existing {
  run_id = row.run_id;
  user = row.user;
  task_type = row.task_type;
  command_hash = row.command_hash;
}

-- One row of the table under `UPDATE task SET … WHERE run_id = $1`, and all of them.
unfoldable pub update_row : String → Run → Run → Run
update_row run_id existing r = if r.run_id == run_id then write_columns r existing else r

unfoldable pub exec_update : String → Run → List Run → List Run
exec_update run_id existing [] = []
exec_update run_id existing (r ∷ rows) =
    update_row run_id existing r ∷ exec_update run_id existing rows

-- The loop over the rows of the query: a row is scanned if there is one.
unfoldable pub scan_rows : Option Run → Option Run → Run × Bool
scan_rows none scan_fails = (zero_run, false)
scan_rows (some row) none = (select_row row, false)
scan_rows (some row) (some partial) = (partial, true)

-- `UpdateRun`: the table after it, the run that it returns, and its error. A transaction that is
-- not committed leaves the table as it was.
unfoldable pub update_run : TxFaults → String → Run → List Run → List Run × Run × Option Error
unfolding scan_rows
update_run faults run_id updates rows =
    if faults.begin_fails
    then (rows, zero_run, some (plain_error "begin"))
    else if faults.query_fails
    then (rows, zero_run, some (plain_error "query"))
    else let (scanned, scan_failed) = scan_rows (find_row run_id rows) faults.scan_fails in
      if scan_failed
      then (rows, scanned, some (plain_error "scan"))
      else let existing = update_with scanned updates in
        if faults.exec_fails
        then (rows, existing, some (plain_error "update"))
        else if faults.commit_fails
        then (rows, existing, some (plain_error "commit"))
        else (exec_update run_id existing rows, existing, none)

-- The row that `INSERT INTO task` writes: no user, no CloudTrail notifications, and the hash of the
-- command for `command_hash`.
unfoldable pub insert_row : (String → String) → Run → Run
insert_row md5 r = record r {
  user = "";
  cloudtrail_notifications = none;
  command_hash = elim r.command [ none ↦ none | some c ↦ some (md5 c) ];
}

-- `CreateRun`. `run_id` is the primary key of the table, so that a second row is refused.
unfoldable pub create_run : TxFaults → (String → String) → Run → List Run → List Run × Option Error
unfolding insert_row
create_run faults md5 r rows =
    if faults.begin_fails
    then (rows, some (plain_error "begin"))
    else if faults.exec_fails
    then (rows, some (plain_error "issue creating new task run"))
    else if any (λ row. row.run_id == r.run_id) rows
    then (rows, some (plain_error "issue creating new task run"))
    else if faults.commit_fails
    then (rows, some (plain_error "commit"))
    else (rows ++ insert_row md5 r ∷ [], none)

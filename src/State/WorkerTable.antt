-- ===== src/State/WorkerTable.antt =====
-- The table of workers behind state/pg_state_manager.go: ListWorkers, GetWorker, UpdateWorker and
-- BatchUpdateWorkers.
pub mod Updates
use flotilla_os.Common.{
  ℕ, ℤ, pos, Bool, true, false, String, List, [], ◌∷◌, ◌++◌, Option, none, some, Error, plain_error,
  Result, ok, err, if◌then◌else◌, ◌==◌, ◌&&◌, eqb, keep, length, map,
}
use flotilla_os.State.Types.{Worker}
use flotilla_os.State.Validity.{worker_update_with}
use flotilla_os.State.Constants.{eks_engine}

-- What may go wrong in the transaction of an update.
pub record WorkerFaults : Type 0 where
  pub begin_fails : Bool
  pub query_fails : Bool
  pub exec_fails : Bool
  pub commit_fails : Bool

-- `Worker{}`
abbrev pub zero_worker : Worker
zero_worker = record { worker_type = ""; count_per_instance = pos 0; engine = "" }

unfoldable pub is_worker_of : String → String → Worker → Bool
is_worker_of worker_type engine w = w.worker_type == worker_type && w.engine == engine

-- The workers of an engine, and the number of the workers of all engines, which the code counts.
pub record WorkersList : Type 0 where
  pub total : ℕ
  pub workers : List Worker

unfoldable pub list_workers : Bool → String → List Worker → Result WorkersList
list_workers true engine rows = err (plain_error "issue running list workers sql")
list_workers false engine rows =
    ok (record { total = length rows; workers = keep (λ w. w.engine == engine) rows })

-- `GetWorker`: the error is assigned to a variable of the inner scope, and nil is returned.
unfoldable pub get_worker : Bool → String → String → List Worker → Worker × Option Error
get_worker true worker_type engine rows = (zero_worker, none)
get_worker false worker_type engine rows = elim (keep (is_worker_of worker_type engine) rows) [
  | [] ↦ (zero_worker, none)
  | w ∷ ws ↦ (w, none)
]

-- The columns that `WorkerSelect` selects, and the variables that `Scan` is given for them.
abbrev pub selected_columns : ℕ
selected_columns = 3

abbrev pub scanned_variables : ℕ
scanned_variables = 2

-- The loop over the rows: `Scan` returns an error when the numbers of columns and variables differ,
-- and the error of the last row stays.
unfoldable pub scan_workers : List Worker → Worker → Worker × Option Error
scan_workers [] existing = (existing, none)
scan_workers (w ∷ ws) existing =
    if eqb scanned_variables selected_columns
    then scan_workers ws
        (record existing { worker_type = w.worker_type; count_per_instance = w.count_per_instance })
    else (existing, some (plain_error "sql: expected 3 destination arguments in Scan, not 2"))

-- `UPDATE worker SET count_per_instance = $2 WHERE worker_type = $1`
unfoldable pub write_count : String → ℤ → Worker → Worker
write_count worker_type count w =
    if w.worker_type == worker_type then record w { count_per_instance = count } else w

unfoldable pub write_worker :
    WorkerFaults → String → Worker → Worker → List Worker → List Worker × Worker × Option Error
write_worker faults worker_type updates scanned rows =
    let existing = worker_update_with scanned updates in
    if faults.exec_fails
    then (rows, existing, some (plain_error "update"))
    else if faults.commit_fails
    then (rows, existing, some (plain_error "commit"))
    else (map (write_count worker_type existing.count_per_instance) rows, existing, none)

unfoldable pub update_scanned :
    WorkerFaults
    → String
    → Worker
    → Worker × Option Error
    → List Worker
    → List Worker × Worker × Option Error
update_scanned faults worker_type updates (existing, some e) rows = (rows, existing, some e)
update_scanned faults worker_type updates (existing, none) rows =
    write_worker faults worker_type updates existing rows

-- `UpdateWorker`, of the default engine.
unfoldable pub update_worker :
    WorkerFaults → String → Worker → List Worker → List Worker × Worker × Option Error
update_worker faults worker_type updates rows =
    if faults.begin_fails
    then (rows, zero_worker, some (plain_error "begin"))
    else if faults.query_fails
    then (rows, zero_worker, some (plain_error "query"))
    else update_scanned faults worker_type updates
        (scan_workers (keep (is_worker_of worker_type eks_engine) rows) zero_worker) rows

-- `BatchUpdateWorkers`, whose updates are committed one by one.
unfoldable pub update_workers :
    List (WorkerFaults × Worker) → List Worker → List Worker × Option Error
update_workers [] rows = (rows, none)
update_workers ((faults, w) ∷ ws) rows =
    let (rows', _, e) = update_worker faults w.worker_type w rows in
    let rest = update_workers ws rows' in elim e [ some e ↦ (rows', some e) | none ↦ rest ]

unfoldable pub batch_update_workers :
    Bool → List (WorkerFaults × Worker) → List Worker → List Worker × Result WorkersList
batch_update_workers list_fails ws rows =
    let (rows', e) = update_workers ws rows in
    (rows', elim e [ some e ↦ err e | none ↦ list_workers list_fails eks_engine rows' ])

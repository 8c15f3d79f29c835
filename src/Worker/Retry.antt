-- ===== src/Worker/Retry.antt =====
-- runOnce of worker/retry_worker.go: the runs that need a retry are queued again.
pub mod Requeue
use flotilla_os.Common.{
  Bool, true, false, String, List, [], ◌∷◌, Option, none, some, ◌==◌, Error, Result, ok, err,
  if◌then◌else◌,
}
use flotilla_os.State.Constants.{eks_engine, status_queued}
use flotilla_os.State.Types.{Run}
use flotilla_os.State.RunUpdate.{zero_run}
use flotilla_os.State.TaskTable.{TxFaults, update_run}
use flotilla_os.World.{World, Event, enqueued, emit, save_run}

-- The update `state.Run{Status: state.StatusQueued}`.
abbrev pub requeue_update : Run
requeue_update = record zero_run { status = status_queued }

-- One run: what the database refuses, and whether `Enqueue` fails. The result says whether the
-- loop goes on.
unfoldable pub requeue : TxFaults → Bool → Run → World → World × Bool
requeue faults enqueue_fails run w =
    let w' = save_run faults run.run_id requeue_update w in
    elim (update_run faults run.run_id requeue_update w.tasks).2 [
      | some e ↦ (w', false)
      | none ↦ if enqueue_fails then (w', false) else (emit (enqueued eks_engine run) w', true)
    ]

-- The loop, with what goes wrong at each run.
unfoldable pub requeue_all : List (TxFaults × Bool × Run) → World → World
requeue_all [] w = w
requeue_all ((faults, enqueue_fails, run) ∷ runs) w =
    let rest = requeue_all runs (requeue faults enqueue_fails run w).0 in
    if (requeue faults enqueue_fails run w).1 then rest else (requeue faults enqueue_fails run w).0

-- `runOnce`, on what `ListRuns` returns for the status NEEDS_RETRY.
unfoldable pub run_once : Result (List (TxFaults × Bool × Run)) → World → World
run_once (err e) w = w
run_once (ok runs) w = requeue_all runs w

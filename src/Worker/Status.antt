-- ===== src/Worker/Status.antt =====
-- processEKSRun of worker/status_worker.go: a run is brought up to date with its job. Its log lines
-- and metrics are left out.
pub mod Outcomes
pub mod Saves
use flotilla_os.Common.{
  ℕ, ◌-◌, Bool, true, false, not, ◌&&◌, ◌||◌, String, List, [], ◌∷◌, Option, none, some, Result, ok,
  err, Error, ltb, ◌==◌, contains, if◌then◌else◌, is_some, map, Go, returns, panics, deref, ◌>>=◌,
}
use flotilla_os.State.Constants.{status_stopped}
use flotilla_os.State.Types.{Run, Time, SpawnedRun}
use flotilla_os.State.TaskTable.{TxFaults, get_run}
use flotilla_os.World.{World, save_run}

-- What FetchPodMetrics and FetchUpdateStatus leave, with the message of the latter's error. The code
-- compares pointers, so that it matters which pointers of the run they have left in place: that to
-- the pod's name, and all of the other six that are compared.
pub record Fetched : Type 0 where
  pub updated : Run
  pub error : Option String
  pub same_pod_name : Bool
  pub same_others : Bool

-- What else one call meets.
pub record StatusOutcome : Type 0 where
  pub read_fails : Bool
  pub fetched : Fetched
  pub sub_runs : Result (List Run)
  pub update : TxFaults
  pub now : Time
  pub stopped_at : Time

abbrev pub spawned_of : List Run → List SpawnedRun
spawned_of runs = map (λ r. record { run_id = r.run_id }) runs

-- The runs that the run has started, noted in a new slice if there are any.
unfoldable pub with_spawned : Result (List Run) → Run → Run × Bool
with_spawned (err e) updated = (updated, false)
with_spawned (ok []) updated = (updated, false)
with_spawned (ok (r ∷ rs)) updated =
    (record updated { spawned_runs = some (spawned_of (r ∷ rs)) }, true)

abbrev pub thirty_minutes : ℕ
thirty_minutes = 1800000000000

abbrev pub lost_run : Time → Run → Run
lost_run stopped_at updated = record updated {
  status = status_stopped;
  finished_at = some stopped_at;
  exit_reason = some "Job either timed out or not found on the EKS cluster.";
}

-- A run whose job cannot be fetched.
unfoldable pub process_lost : StatusOutcome → String → Run → World → Go World
process_lost outcome message run w = do
  queued_at ← deref run.queued_at
  returns (
      if contains message "not found" && ltb thirty_minutes (outcome.now - queued_at)
      then save_run outcome.update outcome.fetched.updated.run_id
          (lost_run outcome.stopped_at outcome.fetched.updated) w
      else w)

-- A run whose job was fetched. A changed status and a pointer that has moved are both saved.
unfoldable pub process_fetched : StatusOutcome → Run → World → World
process_fetched outcome run w =
    let (updated, spawned) = with_spawned outcome.sub_runs outcome.fetched.updated in
    let saved = save_run outcome.update updated.run_id updated w in
    if not (run.status == updated.status) && outcome.fetched.same_pod_name
    then saved
    else if not outcome.fetched.same_pod_name || not outcome.fetched.same_others || spawned
    then saved
    else w

-- By the error of `FetchUpdateStatus`.
unfoldable pub process_by : Option String → StatusOutcome → Run → World → Go World
process_by (some message) outcome run w = process_lost outcome message run w
process_by none outcome run w = returns (process_fetched outcome run w)

unfoldable pub process_loaded : StatusOutcome → Run → World → Go World
process_loaded outcome run w = process_by outcome.fetched.error outcome run w

unfoldable pub is_stopped_run : Result Run → Bool
is_stopped_run (err e) = false
is_stopped_run (ok run) = run.status == status_stopped

-- `processEKSRun`. A run that cannot be read again is processed all the same.
unfoldable pub process_eks_run : StatusOutcome → Run → World → Go World
process_eks_run outcome run w =
    if is_stopped_run (get_run outcome.read_fails run.run_id w.tasks)
    then returns w
    else process_loaded outcome run w

-- The `cleanupRun` that is started for a run: its job is deleted if its exit code is known, unless
-- the pointer to the pod's name has moved.
unfoldable pub starts_cleanup : StatusOutcome → Run → Bool
starts_cleanup outcome run =
    not (run.status == outcome.fetched.updated.status)
    && outcome.fetched.same_pod_name
    && is_some outcome.fetched.updated.exit_code

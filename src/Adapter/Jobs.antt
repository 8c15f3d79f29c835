-- ===== src/Adapter/Jobs.antt =====
-- AdaptJobToFlotillaRun and the command of AdaptFlotillaDefinitionAndRunToJob: what a job's state
-- makes of its run, and how the command travels to the job and back.
use Prim.Native.String.{◌++◌ as text_append}
use flotilla_os.Common.{
  pos, eq_ℤ, true, ◌&&◌, String, List, [], ◌∷◌, Option, none, some, ◌≡◌, ◌≢◌, ◌⊎◌, inl, inr, refl,
  arith, if◌then◌else◌, ◌==◌, eq_iff, is_none, is_some, length, drop, last_opt, ltb, get_or,
}
use flotilla_os.State.Constants.{status_running, status_stopped}
use flotilla_os.State.Types.{Run, Time}
use flotilla_os.Adapter.Kubernetes.{JobStatus, Pod, Terminated}

-- `strings.Join(lines, "\n")`
unfoldable pub join_lines : List String → String
join_lines [] = ""
join_lines (s ∷ []) = s
join_lines (s ∷ t ∷ rest) = text_append s (text_append "\n" (join_lines (t ∷ rest)))

-- The terminated state of a pod's last container status, if it has one.
unfoldable pub last_terminated : Option Pod → Option Terminated
last_terminated none = none
last_terminated (some pod) = elim (last_opt pod.container_statuses) [
  | none ↦ none
  | some terminated ↦ terminated
]

-- The branches of the chain of tests on a job: it runs, its pod named so has exited, it has
-- succeeded and its pod is gone, it has failed with what its pod says of that, or none of these.
pub data JobOutcome : Type 0 where
  undecided running succeeded : JobOutcome
  exited : String → JobOutcome
  failed : Option Terminated → JobOutcome

unfoldable pub job_outcome : JobStatus → Option Pod → JobOutcome
unfolding last_terminated
job_outcome job pod =
    if eq_ℤ job.active (pos 1) && is_none job.completion_time
    then running
    else if eq_ℤ job.succeeded (pos 1)
    then (elim pod [
      | none ↦ succeeded
      | some p ↦ if p.phase == "Succeeded" then exited p.name else undecided
    ])
    else if eq_ℤ job.failed (pos 1)
    then failed (last_terminated pod)
    else undecided

unfoldable pub adapt_status : JobOutcome → Run → Run
adapt_status undecided run = run
adapt_status running run = record run { status = status_running }
adapt_status succeeded run = record run { status = status_stopped; exit_code = some (pos 0) }
adapt_status (exited name) run = record run {
  exit_reason = some (text_append "Pod " (text_append name " Exited Successfully"));
  status = status_stopped;
  exit_code = some (pos 0);
}
adapt_status (failed none) run = record run { status = status_stopped; exit_code = some (pos 1) }
adapt_status (failed (some t)) run = record run {
  status = status_stopped;
  exit_reason = some t.reason;
  exit_code = some t.exit_code;
}

-- The command of the pod's first container, without the three words that Flotilla puts in front.
unfoldable pub command_of_pod : Option Pod → Option String → Option String
command_of_pod none command = command
command_of_pod (some pod) command = elim pod.containers [
  | [] ↦ command
  | container ∷ others ↦
      if ltb 3 (length container.command)
      then some (join_lines (drop 3 container.command))
      else command
]

-- The rest of the function: the command, the start and the end.
unfoldable pub finish_adapting : Time → JobStatus → Option Pod → Run → Run
finish_adapting now job pod updated = record updated {
  command = command_of_pod pod updated.command;
  started_at = if is_some job.start_time then job.start_time else updated.started_at;
  finished_at =
      if updated.status == status_stopped
      then some (get_or now job.completion_time)
      else updated.finished_at;
}

-- `AdaptJobToFlotillaRun`. The job is never nil where it is called; `now` is `time.Now()`.
unfoldable pub adapt_job_to_flotilla_run : Time → JobStatus → Run → Option Pod → Run
unfolding job_outcome adapt_status finish_adapting
adapt_job_to_flotilla_run now job run pod =
    finish_adapting now job pod (adapt_status (job_outcome job pod) run)

unfoldable pub construct_cmd_slice : String → List String
construct_cmd_slice cmd_string = "bash" ∷ "-l" ∷ "-cex" ∷ cmd_string ∷ []

-- The command of the job's container, and the command that the run keeps.
unfoldable pub job_command : Option String → List String × String
unfolding construct_cmd_slice join_lines
job_command command =
    let cmd_slice = construct_cmd_slice (get_or "" command) in
    (cmd_slice, join_lines (drop 3 cmd_slice))

running_not_stopped : ◌≢◌ {A = String} status_running status_stopped
running_not_stopped = ground (arith, eq_iff status_running status_stopped)

job_outcome-active :
    (job : JobStatus) (pod : Option Pod)
    → job.active ≡ pos 1
    → job.completion_time ≡ none
    → job_outcome job pod ≡ running
unfolding job_outcome
job_outcome-active job pod a c = ground arith

job_outcome-stops :
    (job : JobStatus) (pod : Option Pod)
    → ((job_outcome job pod ≡ undecided) ⊎ (job_outcome job pod ≡ running))
      ⊎ ((eq_ℤ job.succeeded (pos 1) ≡ true) ⊎ (eq_ℤ job.failed (pos 1) ≡ true))
unfolding job_outcome
job_outcome-stops job pod = ground arith

finish_adapting-stopped :
    (now : Time) (job : JobStatus) (pod : Option Pod) (o : JobOutcome) (run : Run)
    → run.status ≢ status_stopped
    → (finish_adapting now job pod (adapt_status o run)).status ≡ status_stopped
    → (is_some (finish_adapting now job pod (adapt_status o run)).exit_code ≡ true)
      × (is_some (finish_adapting now job pod (adapt_status o run)).finished_at ≡ true)
      × (o ≢ undecided)
      × (o ≢ running)
unfolding finish_adapting adapt_status
finish_adapting-stopped now job pod undecided run h e = absurd (h e)
finish_adapting-stopped now job pod running run h e = ground (arith, running_not_stopped)
finish_adapting-stopped now job pod succeeded run h e = ground arith
finish_adapting-stopped now job pod (exited name) run h e = ground arith
finish_adapting-stopped now job pod (failed none) run h e = ground arith
finish_adapting-stopped now job pod (failed (some t)) run h e = ground arith

-- A job stops a run that was not stopped only when the job has succeeded or failed, and a run that
-- it stops has an exit code and the time of its end.
adapt_job-stopped :
    (now : Time) (job : JobStatus) (run : Run) (pod : Option Pod)
    → run.status ≢ status_stopped
    → (adapt_job_to_flotilla_run now job run pod).status ≡ status_stopped
    → let run' = adapt_job_to_flotilla_run now job run pod in
      (is_some run'.exit_code ≡ true)
      × (is_some run'.finished_at ≡ true)
      × ((eq_ℤ job.succeeded (pos 1) ≡ true) ⊎ (eq_ℤ job.failed (pos 1) ≡ true))
unfolding adapt_job_to_flotilla_run
adapt_job-stopped now job run pod h e =
    let (code, end, decided, waited) =
      finish_adapting-stopped now job pod (job_outcome job pod) run h e in
    (
      code,
      end,
      elim (job_outcome-stops job pod) [
        | inl (inl u) ↦ absurd (decided u)
        | inl (inr r) ↦ absurd (waited r)
        | inr s ↦ s
      ],
    )

-- A job that is active and not complete leaves its run running; neither an exit code nor an end is
-- recorded.
pub adapt_job-active :
    (now : Time) (job : JobStatus) (run : Run) (pod : Option Pod)
    → job.active ≡ pos 1
    → job.completion_time ≡ none
    → let run' = adapt_job_to_flotilla_run now job run pod in
      (run'.status ≡ status_running)
      × (run'.exit_code ≡ run.exit_code)
      × (run'.finished_at ≡ run.finished_at)
unfolding adapt_job_to_flotilla_run
adapt_job-active now job run pod a c =
    rw (job_outcome-active job pod a c, adapt_status, finish_adapting) (refl, refl, refl)

-- A job that has failed, and is neither active nor succeeded, stops its run with the exit code of
-- the pod's last container, if that has terminated, and with 1 otherwise.
adapt_job-failed :
    (now : Time) (job : JobStatus) (run : Run) (pod : Option Pod)
    → job.active ≡ pos 0
    → job.succeeded ≡ pos 0
    → job.failed ≡ pos 1
    → let run' = adapt_job_to_flotilla_run now job run pod in
      (run'.status ≡ status_stopped)
      × (run'.exit_code
          ≡ (elim (last_terminated pod) [ none ↦ some (pos 1) | some t ↦ some t.exit_code ]))
unfolding adapt_job_to_flotilla_run
adapt_job-failed now job run pod a s f = ground arith

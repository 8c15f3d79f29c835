-- ===== src/Engine/Eks/Fetch.antt =====
-- FetchPodMetrics and FetchUpdateStatus of execution/engine/eks_engine.go: what a run's job and its pods
-- say of the run.
use Prim.Native.String.{◌++◌ as text_append}
use flotilla_os.Common.{
  ℕ, ◌+◌, ℤ, pos, ltb_ℤ, eq_ℤ, Bool, true, false, not, ◌||◌, List, [], ◌∷◌, Option, none, some,
  Error, plain_error, Result, ok, err, Go, returns, deref, ◌>>=◌, ltb, eqb, contains, if◌then◌else◌,
  is_none, is_empty, points_to, last_opt, length,
}
use flotilla_os.State.Types.{Run, Time, PodEvent}
use flotilla_os.Adapter.Kubernetes.{JobStatus, Pod}
use flotilla_os.Adapter.Jobs.{adapt_job_to_flotilla_run}
use flotilla_os.State.RunUpdate.{zero_run}
use flotilla_os.Engine.Eks.{PodList, PodAnswers, get_pod_list, get_instance_details}

-- `FetchPodMetrics`: what the pod's first container uses, in megabytes and milli-cores, and the
-- error. The largest use so far is kept.
abbrev pub larger : Option ℤ → ℤ → Option ℤ
larger none n = some n
larger (some m) n = if eq_ℤ m (pos 0) || ltb_ℤ m n then some n else some m

unfoldable pub with_usage : List (ℤ × ℤ) → Run → Run
with_usage [] run = run
with_usage ((mem, cpu) ∷ others) run = record run {
  max_memory_used = larger run.max_memory_used mem;
  max_cpu_used = larger run.max_cpu_used cpu;
}

unfoldable pub fetch_pod_metrics : Bool → Result (List (ℤ × ℤ)) → Run → Run × Option Error
fetch_pod_metrics known metrics run =
    if is_none run.pod_name
    then (run, some (plain_error "no pod associated with the run."))
    else if not known
    then (run, some (plain_error "Metrics client not defined."))
    else elim metrics [ err e ↦ (run, some e) | ok containers ↦ (with_usage containers run, none) ]

-- The loop that looks for the most recent pod keeps the address of its variable, which at its end
-- holds the last pod of the list. What remains of the search is whether any pod was newer than the
-- ones before it.
any_newer : Bool → Time → List Pod → Bool
any_newer single newest [] = false
any_newer single newest (p ∷ pods) =
    let rest = any_newer single newest pods in
    if ltb newest p.creation_timestamp || single then true else rest

abbrev is_single : List Pod → Bool
is_single pods = eqb (length pods) 1

unfoldable pub most_recent_pod : List Pod → Option Pod
unfolding any_newer
most_recent_pod pods = if any_newer (is_single pods) 0 pods then last_opt pods else none

abbrev pub pods_of : PodList → List Pod
pods_of (none, e) = []
pods_of (some items, none) = items
pods_of (some items, some message) = []

-- What the most recent pod says of the run. The field `memory` is set to the memory limit in the end.
unfoldable pub with_recent_pod : Option Pod → Run → Run
with_recent_pod none run = run
with_recent_pod (some pod) run =
    let named =
      if points_to run.pod_name pod.name
      then run
      else get_instance_details pod (record run { pod_name = some pod.name }) in
    let placed =
      if is_empty named.instance_dns_name then get_instance_details pod named else named in
    elim (last_opt pod.containers) [
      | none ↦ placed
      | some c ↦ record placed {
        cpu = some c.cpu_request;
        cpu_limit = some c.cpu_limit;
        memory = some c.memory_limit;
      }
    ]

count_scheduled : List PodEvent → ℕ
count_scheduled [] = 0
count_scheduled (e ∷ es) =
    let rest = count_scheduled es in if contains e.reason "Scheduled" then 1 + rest else rest

unfoldable pub with_attempts : Run → Run
unfolding count_scheduled
with_attempts run = elim run.pod_events [
  | none ↦ run
  | some events ↦ record run { attempt_count = some (pos (count_scheduled events)) }
]

abbrev pub one_day : ℕ
one_day = 86400000000000

-- The test for a dangling job.
unfoldable pub is_dangling : Time → PodList → Run → Go Bool
is_dangling now (some [], none) run =
    if is_none run.pod_name
    then returns false
    else deref run.queued_at >>= λ queued_at. returns (ltb (queued_at + one_day) now)
is_dangling now (some (p ∷ pods), none) run = returns false
is_dangling now (none, none) run = returns false
is_dangling now (items, some message) run = returns false

-- `FetchUpdateStatus`, from what the API answers about the job and its pods. The events that would be
-- merged are always none.
unfoldable pub fetch_update_status :
    Time → Bool → Result JobStatus → PodAnswers → Run → Go (Run × Option Error)
fetch_update_status now false job answers run =
    returns (zero_run, some (plain_error (text_append "Invalid cluster name - " run.cluster_name)))
fetch_update_status now true (err e) answers run = returns (run, some e)
fetch_update_status now true (ok job) answers run =
    let pods = get_pod_list now answers run in
    let recent = most_recent_pod (pods_of pods) in
    let run' = with_attempts (with_recent_pod recent run) in
    is_dangling now pods run' >>= λ dangling. returns (
      if dangling
      then (adapt_job_to_flotilla_run now (record job { failed = pos 1 }) run' none, none)
      else (adapt_job_to_flotilla_run now job run' recent, none))

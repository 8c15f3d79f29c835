-- ===== src/Engine/Eks.antt =====
-- execution/engine/eks_engine.go: Execute, getPodName, getPodList, FetchPodMetrics, FetchUpdateStatus
-- and Terminate. What the Kubernetes API answers is an argument; the manifest in S3, log lines and
-- metrics are left out.
pub mod Fetch
pub mod Launching
pub mod Pods
pub mod Polling
use Prim.Native.Char.{Char, code}
use Prim.Native.String.{◌++◌ as text_append}
use flotilla_os.Common.{
  ℕ, ◌+◌, ◌-◌, ℤ, pos, ltb_ℤ, eq_ℤ, Bool, true, false, not, ◌&&◌, ◌||◌, String, List, [], ◌∷◌, ◌++◌,
  Option, none, some, Error, plain_error, Result, ok, err, Go, returns, panics, deref, ◌>>=◌, ltb,
  eqb, leb, ◌==◌, contains, if◌then◌else◌, is_some, is_none, is_empty, points_to, last_opt, length,
  any, get_or,
}
use flotilla_os.State.Constants.{status_running}
use flotilla_os.State.Types.{Run, Time, PodEvent}
use flotilla_os.State.Validity.{pod_event_equal}
use flotilla_os.Adapter.Kubernetes.{JobStatus, Pod, Container}
use flotilla_os.Adapter.Jobs.{adapt_job_to_flotilla_run}
use flotilla_os.State.RunUpdate.{zero_run}
use flotilla_os.Worker.Submit.{Launch}

-- `strings.ToLower` of a character, as far as it makes letters of ASCII.
abbrev pub lower : ℕ → ℕ
lower c =
    if leb 65 c && leb c 90
    then c + 32
    else if eqb c 304
    then 105
    else if eqb c 8490
    then 107
    else c

lower_starts_with : String → String → Bool
lower_starts_with String.[] s = true
lower_starts_with (String.◌∷◌ p t) String.[] = false
lower_starts_with (String.◌∷◌ p t) (String.◌∷◌ c s) =
    let rest = lower_starts_with t s in eqb (code p) (lower (code c)) && rest

-- `strings.Contains(strings.ToLower(s), t)`, for a text `t` of small letters.
unfoldable pub lower_contains : String → String → Bool
unfolding lower_starts_with
lower_contains String.[] t = is_empty t
lower_contains (String.◌∷◌ c s) t = lower_starts_with t (String.◌∷◌ c s) || lower_contains s t

-- What a list of pods is: an error, or the field `Items`, which may be nil.
abbrev pub PodList : Type 0
PodList = Option (List Pod) × Option String

abbrev five_minutes : ℕ
five_minutes = 300000000000

-- What the API answers when a pod is asked for by its name, and when the pods of a job are listed. A
-- pod that is not nil may come with an error.
pub record PodAnswers : Type 0 where
  pub by_name : Option Pod × Option String
  pub by_job : PodList

-- `getPodList`, for a run whose cluster is known.
unfoldable pub get_pod_list : Time → PodAnswers → Run → PodList
get_pod_list now answers run = elim run.pod_name [
  | some name ↦ (elim answers.by_name.0 [
    | some pod ↦ (some (pod ∷ []), answers.by_name.1)
    | none ↦ (none, none)
  ])
  | none ↦ (elim run.queued_at [
    | none ↦ (none, none)
    | some queued_at ↦ if ltb (queued_at + five_minutes) now then answers.by_job else (none, none)
  ])
]

unfoldable pub get_instance_details : Pod → Run → Run
get_instance_details pod run = record run {
  instance_dns_name = if is_empty pod.node_name then run.instance_dns_name else pod.node_name;
}

-- The name, the place and the resources of the last pod, and of its last container.
unfoldable pub with_pod : Option Pod → Run → Run
with_pod none run = run
with_pod (some pod) run =
    let named = record run { pod_name = some pod.name; namespace = some pod.namespace } in
    elim (last_opt pod.containers) [
      | none ↦ named
      | some c ↦ record (get_instance_details pod named) {
        cpu = some c.cpu_request;
        cpu_limit = some c.cpu_limit;
        memory = some c.memory_request;
        memory_limit = some c.memory_limit;
      }
    ]

unfoldable pub get_pod_name : PodList → Run → Run
get_pod_name (items, some message) run = run
get_pod_name (none, none) run = run
get_pod_name (some items, none) run = with_pod (last_opt items) run

-- What the API makes of the job: it is created, or refused with a message.
pub data Creation : Type 0 where
  created : JobStatus → Creation
  refused : String → Creation

-- `Execute`. Whether the run's cluster is known comes first. The error of `AdaptJobToFlotillaRun` is
-- always nil.
unfoldable pub execute : Time → Bool → Creation → PodAnswers → Run → Launch
execute now false creation answers run = record {
  launched = record run {
    exit_reason = some (text_append "Invalid cluster name - " run.cluster_name);
  };
  retryable = false;
  error = some (plain_error (text_append "Invalid cluster name - " run.cluster_name));
}
execute now true (refused message) answers run =
    if lower_contains message "already exists"
    then record { launched = run; retryable = false; error = none }
    else if lower_contains message "is invalid"
    then record {
      launched = record run { exit_reason = some message };
      retryable = false;
      error = some (plain_error message);
    }
    else record { launched = run; retryable = true; error = some (plain_error message) }
execute now true (created job) answers run = record {
  launched =
      record (adapt_job_to_flotilla_run now job (get_pod_name (get_pod_list now answers run) run)
        none) { status = status_running };
  retryable = false;
  error = none;
}

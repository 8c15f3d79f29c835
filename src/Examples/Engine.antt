-- ===== src/Examples/Engine.antt =====
-- The theorems on the EKS engine, at concrete answers of the Kubernetes API.
use flotilla_os.Common.{ℕ, pos, true, String, [], ◌∷◌, none, some, ◌≡◌, ◌↔◌, refl, ok, returns}
use flotilla_os.State.Types.{Run}
use flotilla_os.Adapter.Kubernetes.{JobStatus, Pod}
use flotilla_os.Adapter.Jobs.{adapt_job_to_flotilla_run}
use flotilla_os.Engine.Eks.{PodAnswers, get_pod_list, refused, execute, lower_contains}
use flotilla_os.Engine.Eks.Fetch.{most_recent_pod, pods_of, fetch_update_status}
use flotilla_os.Engine.Eks.Pods.{run_of_pods, fetch_update_status_lem}
use flotilla_os.Engine.Eks.Launching.{IsTransient, execute-retryable}
use flotilla_os.Examples.Data.{waiting, active}

abbrev pod_at : String → ℕ → Pod
pod_at name time = record {
  name = name;
  namespace = "default";
  node_name = "node";
  creation_timestamp = time;
  phase = "Running";
  container_statuses = [];
  containers = [];
}

-- An older pod that is listed after a newer one is taken for the most recent.
most_recent_pod_example :
    most_recent_pod (pod_at "new" 20 ∷ pod_at "old" 10 ∷ []) ≡ some (pod_at "old" 10)
unfolding most_recent_pod
most_recent_pod_example = refl

abbrev answers : PodAnswers
answers = record {
  by_name = (some (pod_at "pod" 20), none);
  by_job = (some (pod_at "pod" 20 ∷ []), none);
}

abbrev job : JobStatus
job = record {
  active = pos 1;
  succeeded = pos 0;
  failed = pos 0;
  start_time = some 10;
  completion_time = none;
}

abbrev placed : Run
placed = record active {
  pod_name = some "pod";
  max_memory_used = some (pos 100);
  max_cpu_used = some (pos 10);
}

fetch_update_status_example :
    fetch_update_status 1000 true (ok job) answers placed
    ≡ returns (
      adapt_job_to_flotilla_run 1000 job
          (run_of_pods 1000 answers placed)
          (most_recent_pod (pods_of (get_pod_list 1000 answers placed))),
      none,
    )
fetch_update_status_example = fetch_update_status_lem 1000 job answers placed

execute-retryable_example :
    ((execute 1000 true (refused "timed out") answers waiting).retryable ≡ true) ↔ (
      (true ≡ true)
      × ((message : String) × (refused "timed out" ≡ refused message) × IsTransient message))
execute-retryable_example = execute-retryable 1000 true (refused "timed out") answers waiting

-- A job that is there already is no error, in whatever case the API says so.
already_there : (execute 1000 true (refused "Job Already Exists") answers waiting).error ≡ none
unfolding execute lower_contains
already_there = refl

-- ===== src/Examples/Adapter.antt =====
-- The theorems on the Kubernetes adapter, at concrete runs and jobs.
use flotilla_os.Common.{
  ℕ, ℤ, pos, negsuc, ◌≤ℤ◌, eq_ℤ, Bool, true, false, not, ◌&&◌, ◌||◌, String, List, [], ◌∷◌, Option,
  none, some, ◌≡◌, ◌≢◌, ◌⊎◌, refl, is_some, arith, string_slice_contains,
}
use flotilla_os.State.Constants.{status_running, status_stopped}
use flotilla_os.State.TaskTable.Update.{different}
use flotilla_os.State.Types.{task_definition, Run, EnvList, TaskResources}
use flotilla_os.Adapter.Kubernetes.{JobStatus, Pod, Container, plain_quantities}
use flotilla_os.Adapter.Resources.{adaptive_resources}
use flotilla_os.Adapter.Resources.Bounds.{IsBounded, adaptive_resources-IsBounded}
use flotilla_os.Adapter.Requirements.{construct_resource_requirements}
use flotilla_os.Adapter.Environ.{
  env_overrides, env_overrides_lem, IsEnvironment, value_of, last_value, sanitize_env_var,
  remove_spaces, remove_dollar,
}
use flotilla_os.Adapter.Affinity.{construct_affinity, matches_all, label_among, node_lifecycle_of}
use flotilla_os.State.Validity.{get_executable_resources}
use flotilla_os.Adapter.JobSpec.{Estimates, adapt_to_job, adapt_to_job-gpu_nodes}
use flotilla_os.Examples.Data.{sleeper, waiting, plain_resources}

abbrev job : JobStatus
job = record {
  active = pos 0;
  succeeded = pos 0;
  failed = pos 0;
  start_time = some 10;
  completion_time = none;
}

abbrev active_job : JobStatus
active_job = record job { active = pos 1 }

abbrev failed_job : JobStatus
failed_job = record job { failed = pos 1; completion_time = some 20 }

abbrev container : Container
container = record {
  command = "bash" ∷ "-l" ∷ "-cex" ∷ "sleep 60" ∷ [];
  cpu_request = pos 512;
  cpu_limit = pos 512;
  memory_request = pos 1024;
  memory_limit = pos 1024;
}

abbrev pod : Pod
pod = record {
  name = "pod";
  namespace = "default";
  node_name = "node";
  creation_timestamp = 5;
  phase = "Failed";
  container_statuses = some (record { reason = "OOMKilled"; exit_code = pos 137 }) ∷ [];
  containers = container ∷ [];
}

active_not_stopped : status_running ≢ status_stopped
active_not_stopped = different status_running status_stopped refl

abbrev estimate : TaskResources
estimate = record { cpu = pos 100000; memory = pos 100 }

adaptive_resources-IsBounded_example :
    IsBounded (adaptive_resources waiting plain_resources (some estimate) true)
adaptive_resources-IsBounded_example =
    adaptive_resources-IsBounded waiting plain_resources (some estimate) true refl

abbrev on_gpu : Run
on_gpu = record waiting { gpu = some (pos 2) }

abbrev own_env : EnvList
own_env = record { name = "A"; value = "1" } ∷ record { name = "B C"; value = "2" } ∷ []

abbrev run_env : EnvList
run_env = record { name = "$A"; value = "3" } ∷ []

env_overrides_example :
    IsEnvironment (env_overrides (some own_env) (some run_env))
    × (value_of "A" (env_overrides (some own_env) (some run_env)) ≡ some "3")
unfolding last_value sanitize_env_var remove_spaces remove_dollar
env_overrides_example = env_overrides_lem (some own_env) (some run_env) "A" refl

abbrev spot_labels : String → Option String
spot_labels key = some "spot"

-- A run with a GPU, however many cpus it asks for, gets the share of a p3 node.
gpu_share : (adaptive_resources on_gpu plain_resources none false).cpu_limit ≡ pos 15000
unfolding adaptive_resources flotilla_os.Common.Int64.mul64
gpu_share = refl

abbrev labels_of_normal : String → Option String
labels_of_normal key = some "normal"

abbrev estimates : Estimates plain_quantities
estimates = record { estimate = none; failing = some [] }

adapt_to_job-gpu_nodes_example :
    ((adapt_to_job plain_quantities
        (task_definition sleeper)
        on_gpu
        "sa"
        "scheduler"
        estimates
        false).name
      ≡ "eks-1")
    × (label_among ("normal" ∷ []) (some "normal") ≡ true)
unfolding adapt_to_job construct_resource_requirements construct_affinity matches_all
    node_lifecycle_of label_among string_slice_contains get_executable_resources
adapt_to_job-gpu_nodes_example =
    adapt_to_job-gpu_nodes plain_quantities (task_definition sleeper) on_gpu "sa" "scheduler"
      estimates false labels_of_normal refl refl

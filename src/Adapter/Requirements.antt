-- ===== src/Adapter/Requirements.antt =====
-- constructResourceRequirements: the resources of the job's container,
-- and what the run records of them.
use flotilla_os.Common.{
  ℤ, Bool, true, Option, none, some, ◌≡◌, ap, arith, if◌then◌else◌, ◌||◌, is_some,
}
use flotilla_os.State.Constants.{ondemand_lifecycle}
use flotilla_os.State.Types.{Run, ExecutableResources, TaskResources}
use flotilla_os.Adapter.Kubernetes.{Quantities}
use flotilla_os.Adapter.Resources.{is_positive, adaptive_resources}

-- The module k8s.io/apimachinery/pkg/api/resource.
module _ (q : Quantities) where
  open q use {Quantity, of_milli, of_mega, of_units, milli, mega, milli-of_milli, mega-of_mega}

  -- `corev1.ResourceList` at the keys that the adapter sets.
  pub record ResourceList : Type 0 where
    pub cpu : Quantity
    pub memory : Quantity
    pub nvidia_gpu : Option Quantity

  pub record ResourceRequirements : Type 0 where
    pub limits : ResourceList
    pub requests : ResourceList

-- The GPUs of the run, else of the definition, if positive.
unfoldable pub wanted_gpu : Run → ExecutableResources → Option ℤ
wanted_gpu run resources =
    if is_positive run.gpu
    then run.gpu
    else if is_positive resources.gpu
    then resources.gpu
    else none

module _ (q : Quantities) where
  open q use {Quantity, of_milli, of_mega, of_units, milli, mega, milli-of_milli, mega-of_mega}

  unfoldable pub construct_resource_requirements :
      Run → ExecutableResources → Option TaskResources → Bool → ResourceRequirements q × Run
  unfolding wanted_gpu
  construct_resource_requirements run resources estimate ara_enabled =
      let r = adaptive_resources run resources estimate ara_enabled in
      let gpu = wanted_gpu run resources in
      let cpu_limit_quantity = of_milli r.cpu_limit in
      let cpu_request_quantity = of_milli r.cpu_request in
      let mem_limit_quantity = of_mega r.mem_limit in
      let mem_request_quantity = of_mega r.mem_request in
      let gpu_quantity : Option Quantity = elim gpu [ none ↦ none | some n ↦ some (of_units n) ] in
      (
        record {
          limits = record {
            cpu = cpu_limit_quantity;
            memory = mem_limit_quantity;
            nvidia_gpu = gpu_quantity;
          };
          requests = record {
            cpu = cpu_request_quantity;
            memory = mem_request_quantity;
            nvidia_gpu = gpu_quantity;
          };
        },
        record run {
          node_lifecycle = if is_some gpu then some ondemand_lifecycle else run.node_lifecycle;
          memory = some (mega mem_request_quantity);
          cpu = some (milli cpu_request_quantity);
          memory_limit = some (mega mem_limit_quantity);
          cpu_limit = some (milli cpu_limit_quantity);
        },
      )

  -- The run records exactly the resources that its container asks for.
  pub construct_resource_requirements-recorded :
      (run : Run) (resources : ExecutableResources) (estimate : Option TaskResources) (ara : Bool)
      → let r = adaptive_resources run resources estimate ara in
        let run' = (construct_resource_requirements run resources estimate ara).1 in
        (run'.cpu ≡ some r.cpu_request)
        × (run'.memory ≡ some r.mem_request)
        × (run'.cpu_limit ≡ some r.cpu_limit)
        × (run'.memory_limit ≡ some r.mem_limit)
  unfolding construct_resource_requirements
  construct_resource_requirements-recorded run resources estimate ara = (
    ap some (milli-of_milli _),
    ap some (mega-of_mega _),
    ap some (milli-of_milli _),
    ap some (mega-of_mega _),
  )

  -- A run on GPUs, its own or its definition's, is never left on a spot node.
  pub construct_resource_requirements-ondemand :
      (run : Run) (resources : ExecutableResources) (estimate : Option TaskResources) (ara : Bool)
      → (is_positive run.gpu || is_positive resources.gpu) ≡ true
      → (construct_resource_requirements run resources estimate ara).1.node_lifecycle
        ≡ some ondemand_lifecycle
  unfolding construct_resource_requirements
  construct_resource_requirements-ondemand run resources estimate ara h = ground arith

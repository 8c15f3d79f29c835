-- ===== src/Adapter/JobSpec.antt =====
-- AdaptFlotillaDefinitionAndRunToJob and constructContainerPorts: the Kubernetes job of a run.
use flotilla_os.Common.{
  ◌-◌, ◌%◌, ℤ, pos, negsuc, Bool, true, ◌||◌, String, List, [], ◌∷◌, ◌++◌, Option, some, ◌≡◌, refl,
  subst, arith, if◌then◌else◌, map, get_or, ltb,
}
use flotilla_os.State.Constants.{ondemand_lifecycle}
use flotilla_os.State.Types.{Run, EnvList, Executable, ExecutableResources, TaskResources}
use flotilla_os.State.Validity.{get_executable_resources}
use flotilla_os.Adapter.Kubernetes.{Quantities}
use flotilla_os.Adapter.Resources.{is_positive}
use flotilla_os.Adapter.Requirements.{
  ResourceRequirements, construct_resource_requirements, construct_resource_requirements-ondemand,
}
use flotilla_os.Adapter.Jobs.{job_command}
use flotilla_os.Adapter.Environ.{env_overrides}
use flotilla_os.Adapter.Affinity.{
  NodeSelectorRequirement, construct_affinity, matches, matches_all, label_among, node_lifecycle_of,
}

-- `int32(port)`
unfoldable pub wrap32 : ℤ → ℤ
wrap32 (pos n) =
    let u = n % 4294967296 in if ltb u 2147483648 then pos u else negsuc (4294967295 - u)
wrap32 (negsuc n) =
    let u = n % 4294967296 in if ltb u 2147483648 then negsuc u else pos (4294967295 - u)

unfoldable pub construct_container_ports : ExecutableResources → List ℤ
construct_container_ports resources = map wrap32 (get_or [] resources.ports)

matches_last :
    (rs : List NodeSelectorRequirement) (r : NodeSelectorRequirement)
    (labels : String → Option String)
    → matches_all (rs ++ r ∷ []) labels ≡ true
    → matches r labels ≡ true
unfolding matches_all
matches_last [] r labels h = ground arith
matches_last (x ∷ rs) r labels h = ground (arith, matches_last rs r labels)

ondemand_nodes :
    (run : Run) → run.node_lifecycle ≡ some ondemand_lifecycle → node_lifecycle_of run ≡ "normal"
unfolding node_lifecycle_of
ondemand_nodes run h = rw h

normal_only :
    (resources : ExecutableResources) (run : Run) (failing : Option (List String))
    (labels : String → Option String)
    → node_lifecycle_of run ≡ "normal"
    → matches_all (construct_affinity resources run failing) labels ≡ true
    → label_among ("normal" ∷ []) (labels "node.kubernetes.io/lifecycle") ≡ true
unfolding construct_affinity matches
normal_only resources run failing labels h m =
    subst (λ l. label_among (l ∷ []) (labels "node.kubernetes.io/lifecycle") ≡ true) h
      (matches_last _ _ labels m)

module _ (q : Quantities) where
  -- The parts of `batchv1.Job` that the adapter sets.
  pub record Job : Type 0 where
    pub name : String
    pub image : String
    pub command : List String
    pub resources : ResourceRequirements q
    pub env : EnvList
    pub ports : List ℤ
    pub affinity : List NodeSelectorRequirement
    pub active_deadline_seconds : Option ℤ
    pub ttl_seconds_after_finished : ℤ
    pub backoff_limit : ℤ
    pub scheduler_name : String
    pub service_account_name : String

  -- What the state manager answers: the estimate, and the failing nodes.
  pub record Estimates : Type 0 where
    pub estimate : Option TaskResources
    pub failing : Option (List String)

  unfoldable pub adapt_to_job : Executable → Run → String → String → Estimates → Bool → Job
  adapt_to_job executable run sa scheduler_name estimates ara_enabled =
      let resources = get_executable_resources executable in
      let (cmd_slice, cmd) = job_command run.command in
      let (requirements, run') =
        construct_resource_requirements q (record run { command = some cmd }) resources
          estimates.estimate ara_enabled in
      record {
        name = run'.run_id;
        image = run'.image;
        command = cmd_slice;
        resources = requirements;
        env = env_overrides resources.env run'.env;
        ports = construct_container_ports resources;
        affinity = construct_affinity resources run' estimates.failing;
        active_deadline_seconds = run'.active_deadline_seconds;
        ttl_seconds_after_finished = pos 3600;
        backoff_limit = pos 0;
        scheduler_name = scheduler_name;
        service_account_name = sa;
      }

  -- A job on GPUs, the run's own or its executable's, may only be placed on a node that is labelled
  -- as an on-demand one, whatever lifecycle the run asks for; and the job is named for the run.
  pub adapt_to_job-gpu_nodes :
      (executable : Executable) (run : Run) (sa scheduler_name : String) (estimates : Estimates)
      (ara_enabled : Bool) (labels : String → Option String)
      → (is_positive run.gpu || is_positive (get_executable_resources executable).gpu) ≡ true
      → matches_all
          (adapt_to_job executable run sa scheduler_name estimates ara_enabled).affinity
          labels
        ≡ true
      → ((adapt_to_job executable run sa scheduler_name estimates ara_enabled).name ≡ run.run_id)
        × (label_among ("normal" ∷ []) (labels "node.kubernetes.io/lifecycle") ≡ true)
  unfolding adapt_to_job
  adapt_to_job-gpu_nodes executable run sa scheduler_name estimates ara_enabled labels gpu m =
      let resources = get_executable_resources executable in
      let run' = record run { command = some (job_command run.command).1 } in
      let made =
        (construct_resource_requirements q run' resources estimates.estimate ara_enabled).1 in
      (
        unfold construct_resource_requirements in refl,
        normal_only resources made estimates.failing labels
            (ondemand_nodes made (
              construct_resource_requirements-ondemand q run' resources estimates.estimate
                ara_enabled gpu))
            m,
      )

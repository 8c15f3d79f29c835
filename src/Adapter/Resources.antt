-- ===== src/Adapter/Resources.antt =====
-- getResourceDefaults, checkResourceBounds and adaptiveResources: how much cpu (in milli-cores) and
-- memory (in megabytes) a run gets.
pub mod Bounds
use flotilla_os.Common.{
  ℕ, ◌/◌, ℤ, pos, pos_part, ltb_ℤ, eq_ℤ, mul64, Bool, true, false, ◌&&◌, ◌||◌, not, Option, none,
  some, if◌then◌else◌,
}
use flotilla_os.State.Constants.{min_cpu, max_cpu, min_mem, max_mem}
use flotilla_os.State.Types.{Run, ExecutableResources, TaskResources}

-- `p != nil && *p != 0`, else `other`.
abbrev pub given_or : Option ℤ → ℤ → ℤ
given_or none other = other
given_or (some n) other = if eq_ℤ n (pos 0) then other else n

-- `p == nil || *p == 0`
abbrev pub is_unset : Option ℤ → Bool
is_unset none = true
is_unset (some n) = eq_ℤ n (pos 0)

-- `p != nil && *p > 0`
abbrev pub is_positive : Option ℤ → Bool
is_positive none = false
is_positive (some n) = ltb_ℤ (pos 0) n

-- The override for very large memory requests. The test makes `mem` positive.
abbrev pub cpu_for_memory : ℤ → ℤ → Option ℤ → ℤ
cpu_for_memory cpu mem gpu =
    if not (ltb_ℤ mem (pos 36864)) && ltb_ℤ mem (pos 131072) && is_unset gpu
    then (let cpu_override : ℤ = pos (pos_part mem / 8) in
        if ltb_ℤ cpu cpu_override then cpu_override else cpu)
    else cpu

unfoldable pub get_resource_defaults : Run → ExecutableResources → ℤ × ℤ
get_resource_defaults run resources =
    let cpu = given_or run.cpu (given_or resources.cpu min_cpu) in
    let mem = given_or run.memory (given_or resources.memory min_mem) in
    (cpu_for_memory cpu mem resources.gpu, mem)

abbrev pub clamp : ℤ → ℤ → ℤ → ℤ
clamp low high n =
    let raised = if ltb_ℤ n low then low else n in if ltb_ℤ high raised then high else raised

abbrev pub check_resource_bounds : ℤ → ℤ → ℤ × ℤ
check_resource_bounds cpu mem = (clamp min_cpu max_cpu cpu, clamp min_mem max_mem mem)

pub record Resources : Type 0 where
  pub cpu_limit : ℤ
  pub mem_limit : ℤ
  pub cpu_request : ℤ
  pub mem_request : ℤ

abbrev pub is_true : Option Bool → Bool
is_true none = false
is_true (some b) = b

-- The requests: the estimate, if adaptive allocation is on for the run and there is one.
abbrev pub requested : Bool → Option TaskResources → ℤ × ℤ → ℤ × ℤ
requested false estimate defaults = defaults
requested true none defaults = defaults
requested true (some estimate) defaults = (estimate.cpu, estimate.memory)

-- Limits that are not below the requests, all within the bounds.
abbrev pub bounded_resources : ℤ × ℤ → ℤ × ℤ → Resources
bounded_resources (cpu_limit, mem_limit) (cpu_request, mem_request) =
    let cpu_limit' = if ltb_ℤ cpu_limit cpu_request then cpu_request else cpu_limit in
    let mem_limit' = if ltb_ℤ mem_limit mem_request then mem_request else mem_limit in
    record {
      cpu_limit = (check_resource_bounds cpu_limit' mem_limit').0;
      mem_limit = (check_resource_bounds cpu_limit' mem_limit').1;
      cpu_request = (check_resource_bounds cpu_request mem_request).0;
      mem_request = (check_resource_bounds cpu_request mem_request).1;
    }

-- The mapping to p3 instance types.
abbrev pub gpu_resources : ℤ → Resources
gpu_resources gpu = record {
  cpu_limit = mul64 gpu (pos 7500);
  mem_limit = mul64 gpu (pos 60000);
  cpu_request = mul64 gpu (pos 6000);
  mem_request = mul64 gpu (pos 50000);
}

abbrev pub for_gpu : Option ℤ → Resources → Resources
for_gpu none r = r
for_gpu (some gpu) r = if ltb_ℤ (pos 0) gpu then gpu_resources gpu else r

-- `estimate` is what `EstimateRunResources` returns, `none` for an error.
unfoldable pub adaptive_resources :
    Run → ExecutableResources → Option TaskResources → Bool → Resources
unfolding get_resource_defaults
adaptive_resources run resources estimate ara_enabled =
    let defaults = get_resource_defaults run resources in
    let adaptive = ara_enabled && is_true resources.adaptive_resource_allocation in
    for_gpu run.gpu (bounded_resources defaults (requested adaptive estimate defaults))

-- ===== src/Adapter/Resources/Bounds.antt =====
-- The bounds of what a run gets.
use flotilla_os.Common.{
  ℕ, ◌≤◌, ◌/◌, ℤ, pos, negsuc, pos_part, ◌≤ℤ◌, ltb_ℤ, Bool, true, false, Option, none, some, ◌≡◌,
  refl, arith, if◌then◌else◌, subst, sym, Bool-cases, ◌&&◌, inl, inr,
}
use flotilla_os.Common.Int64.{mul64_pos}
use flotilla_os.State.Constants.{min_cpu, max_cpu, min_mem, max_mem}
use flotilla_os.State.Types.{Run, ExecutableResources, TaskResources}
use flotilla_os.Adapter.Resources.{
  Resources, is_positive, get_resource_defaults, bounded_resources, gpu_resources, for_gpu,
  requested, adaptive_resources, clamp, is_unset, is_true,
}

abbrev pub Between : ℤ → ℤ → ℤ → Type 0
Between low high n = (low ≤ℤ n) × (n ≤ℤ high)

pub record IsBounded (r : Resources) : Type 0 where
  pub cpu_limit_bounded : Between min_cpu max_cpu r.cpu_limit
  pub mem_limit_bounded : Between min_mem max_mem r.mem_limit
  pub cpu_request_bounded : Between min_cpu max_cpu r.cpu_request
  pub mem_request_bounded : Between min_mem max_mem r.mem_request

pub record IsSchedulable (r : Resources) : Type 0 where
  pub cpu_fits : r.cpu_request ≤ℤ r.cpu_limit
  pub mem_fits : r.mem_request ≤ℤ r.mem_limit

clamp_cpu : (n : ℤ) → Between min_cpu max_cpu (clamp min_cpu max_cpu n)
clamp_cpu n = ground arith

clamp_mem : (n : ℤ) → Between min_mem max_mem (clamp min_mem max_mem n)
clamp_mem n = ground arith

bounded_resources-IsBounded : (d q : ℤ × ℤ) → IsBounded (bounded_resources d q)
bounded_resources-IsBounded (c, m) (cq, mq) = record {
  cpu_limit_bounded = clamp_cpu (if ltb_ℤ c cq then cq else c);
  mem_limit_bounded = clamp_mem (if ltb_ℤ m mq then mq else m);
  cpu_request_bounded = clamp_cpu cq;
  mem_request_bounded = clamp_mem mq;
}

cpu_order :
    (l q : ℤ) → clamp min_cpu max_cpu q ≤ℤ clamp min_cpu max_cpu (if ltb_ℤ l q then q else l)
cpu_order l q = ground arith

mem_order :
    (l q : ℤ) → clamp min_mem max_mem q ≤ℤ clamp min_mem max_mem (if ltb_ℤ l q then q else l)
mem_order l q = ground arith

bounded_resources-IsSchedulable : (d q : ℤ × ℤ) → IsSchedulable (bounded_resources d q)
bounded_resources-IsSchedulable (c, m) (cq, mq) = record {
  cpu_fits = cpu_order c cq;
  mem_fits = mem_order m mq;
}

for_gpu_none : (gpu : Option ℤ) (r : Resources) → is_positive gpu ≡ false → for_gpu gpu r ≡ r
for_gpu_none none r h = refl
for_gpu_none (some n) r h = rw h

-- A run that asks for no GPU gets a request and a limit within the bounds, whatever it, its
-- definition and the estimate ask for.
pub adaptive_resources-IsBounded :
    (run : Run) (resources : ExecutableResources) (estimate : Option TaskResources) (ara : Bool)
    → is_positive run.gpu ≡ false
    → IsBounded (adaptive_resources run resources estimate ara)
unfolding adaptive_resources
adaptive_resources-IsBounded run resources estimate ara h =
    subst IsBounded (sym (for_gpu_none run.gpu _ h)) (
      bounded_resources-IsBounded (get_resource_defaults run resources) (
        requested (ara && is_true resources.adaptive_resource_allocation) estimate
          (get_resource_defaults run resources)))

-- The largest number of GPUs whose memory limit, 60000 for each, is an int64.
abbrev pub max_gpu : ℕ
max_gpu = 153722867280912

gpu_resources-IsSchedulable : (n : ℕ) → n ≤ max_gpu → IsSchedulable (gpu_resources (pos n))
gpu_resources-IsSchedulable n h = record {
  cpu_fits = rw (mul64_pos n 7500 (omega arith), mul64_pos n 6000 (omega arith)) (omega arith);
  mem_fits = rw (mul64_pos n 60000 (omega arith), mul64_pos n 50000 (omega arith)) (omega arith);
}

zero_above : (n : ℕ) → ltb_ℤ (pos 0) (negsuc n) ≡ false
zero_above n = ground arith

-- No run asks for so many GPUs that its limits wrap.
abbrev pub GpuFits : Option ℤ → Type 0
GpuFits none = Unit {0}
GpuFits (some gpu) = gpu ≤ℤ pos max_gpu

for_gpu-IsSchedulable :
    (gpu : Option ℤ) (r : Resources) → GpuFits gpu → IsSchedulable r → IsSchedulable (for_gpu gpu r)
for_gpu-IsSchedulable none r fits s = s
for_gpu-IsSchedulable (some (negsuc n)) r fits s = rw (zero_above n) s
for_gpu-IsSchedulable (some (pos n)) r fits s = elim (Bool-cases (ltb_ℤ (pos 0) (pos n))) [
  | inl some_gpu ↦ rw some_gpu (gpu_resources-IsSchedulable n (omega arith))
  | inr no_gpu ↦ rw no_gpu s
]

-- What a run requests is never above its limit, with or without adaptive allocation and GPUs, as
-- long as the run does not ask for so many GPUs that the products overflow.
adaptive_resources-IsSchedulable :
    (run : Run) (resources : ExecutableResources) (estimate : Option TaskResources) (ara : Bool)
    → GpuFits run.gpu
    → IsSchedulable (adaptive_resources run resources estimate ara)
unfolding adaptive_resources
adaptive_resources-IsSchedulable run resources estimate ara fits =
    for_gpu-IsSchedulable run.gpu _ fits (
      bounded_resources-IsSchedulable (get_resource_defaults run resources) (
        requested (ara && is_true resources.adaptive_resource_allocation) estimate
          (get_resource_defaults run resources)))

-- A memory request in the band from 36864 up to 131072 megabytes, for a definition without GPUs,
-- gets at least one milli-core for every eight megabytes; the memory is the run's own, else the
-- definition's, else the smallest.
pub get_resource_defaults_ratio :
    (run : Run) (resources : ExecutableResources)
    → pos 36864 ≤ℤ (get_resource_defaults run resources).1
    → ltb_ℤ (get_resource_defaults run resources).1 (pos 131072) ≡ true
    → is_unset resources.gpu ≡ true
    → pos (pos_part (get_resource_defaults run resources).1 / 8)
      ≤ℤ (get_resource_defaults run resources).0
unfolding get_resource_defaults
get_resource_defaults_ratio run resources low high no_gpu = ground arith

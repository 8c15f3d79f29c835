-- ===== src/Adapter/Kubernetes.antt =====
-- What the adapter and the engine read of the Kubernetes objects, and the quantities of the module
-- k8s.io/apimachinery, which is not part of the repository: an interface with the laws used.
use flotilla_os.Common.{ℤ, String, List, Option, ◌≡◌}
use flotilla_os.State.Types.{Time}

pub record Quantities : Type 1 where
  pub Quantity : Type 0
  -- `resource.MustParse` of a number with the suffix "m", of one with "M", and of one with none.
  pub of_milli : ℤ → Quantity
  pub of_mega : ℤ → Quantity
  pub of_units : ℤ → Quantity
  -- `ScaledValue(resource.Milli)` and `ScaledValue(resource.Mega)`.
  pub milli : Quantity → ℤ
  pub mega : Quantity → ℤ
  pub milli-of_milli : (n : ℤ) → milli (of_milli n) ≡ n
  pub mega-of_mega : (n : ℤ) → mega (of_mega n) ≡ n

-- The quantities as the numbers themselves.
abbrev pub plain_quantities : Quantities
plain_quantities = record {
  Quantity = ℤ;
  of_milli = λ n. n;
  of_mega = λ n. n;
  of_units = λ n. n;
  milli = λ n. n;
  mega = λ n. n;
  milli-of_milli = λ n i. n;
  mega-of_mega = λ n i. n;
}

-- `batchv1.JobStatus`.
pub record JobStatus : Type 0 where
  pub active : ℤ
  pub succeeded : ℤ
  pub failed : ℤ
  pub start_time : Option Time
  pub completion_time : Option Time

pub record Terminated : Type 0 where
  pub reason : String
  pub exit_code : ℤ

-- A container of a pod's specification, its resources in milli-cores and megabytes.
pub record Container : Type 0 where
  pub command : List String
  pub cpu_request : ℤ
  pub cpu_limit : ℤ
  pub memory_request : ℤ
  pub memory_limit : ℤ

pub record Pod : Type 0 where
  pub name : String
  pub namespace : String
  pub node_name : String
  pub creation_timestamp : Time
  pub phase : String
  -- `State.Terminated` of each container status.
  pub container_statuses : List (Option Terminated)
  pub containers : List Container

-- ===== src/Adapter/Affinity.antt =====
-- constructAffinity, which the EMR engine repeats: on which nodes the pod of a run may be placed.
use flotilla_os.Common.{
  Bool, true, false, not, ◌&&◌, ◌||◌, String, List, [], ◌∷◌, ◌++◌, Option, none, some, ◌≡◌, refl,
  arith, if◌then◌else◌, points_to, string_slice_contains,
}
use flotilla_os.State.Constants.{ondemand_lifecycle}
use flotilla_os.State.Types.{Run, ExecutableResources}
use flotilla_os.Adapter.Resources.{is_positive}

pub data Operator : Type 0 where
  op_in op_not_in : Operator

-- `corev1.NodeSelectorRequirement`.
pub record NodeSelectorRequirement : Type 0 where
  pub key : String
  pub operator : Operator
  pub values : List String

abbrev pub gpu_node_types : List String
gpu_node_types = "p3.2xlarge" ∷ "p3.8xlarge" ∷ "p3.16xlarge" ∷ []

abbrev pub instance_type_requirement : NodeSelectorRequirement
instance_type_requirement = record {
  key = "beta.kubernetes.io/instance-type";
  operator = op_not_in;
  values = gpu_node_types;
}

-- The failing nodes, unless there are none or the list could not be had.
abbrev pub hostname_requirement : Option (List String) → List NodeSelectorRequirement
hostname_requirement none = []
hostname_requirement (some []) = []
hostname_requirement (some (n ∷ ns)) =
    record { key = "kubernetes.io/hostname"; operator = op_not_in; values = n ∷ ns } ∷ []

unfoldable pub node_lifecycle_of : Run → String
node_lifecycle_of run = if points_to run.node_lifecycle ondemand_lifecycle then "normal" else "spot"

-- The requirements that a node has to match. `failing` is what `ListFailingNodes` returns.
unfoldable pub construct_affinity :
    ExecutableResources → Run → Option (List String) → List NodeSelectorRequirement
construct_affinity resources run failing =
    (if not (is_positive resources.gpu) && not (is_positive run.gpu)
      then instance_type_requirement ∷ hostname_requirement failing
      else [])
    ++ record {
      key = "node.kubernetes.io/lifecycle";
      operator = op_in;
      values = node_lifecycle_of run ∷ [];
    }
      ∷ []

-- A label is there and has one of the values.
unfoldable pub label_among : List String → Option String → Bool
label_among values none = false
label_among values (some label) = string_slice_contains values label

abbrev match_label : Operator → List String → Option String → Bool
match_label op_in values label = label_among values label
match_label op_not_in values label = not (label_among values label)

-- What Kubernetes makes of a requirement, for a node with these labels.
unfoldable pub matches : NodeSelectorRequirement → (String → Option String) → Bool
matches r labels = match_label r.operator r.values (labels r.key)

unfoldable pub matches_all : List NodeSelectorRequirement → (String → Option String) → Bool
unfolding matches
matches_all [] labels = true
matches_all (r ∷ rs) labels = matches r labels && matches_all rs labels

label_among-nil : (label : Option String) → label_among [] label ≡ false
unfolding label_among string_slice_contains
label_among-nil none = refl
label_among-nil (some l) = refl

-- Where the list of failing nodes can be had, a node may get the pod of a run exactly when its
-- lifecycle is the run's and, unless the run or its executable asks for a GPU, its instance type
-- has none and it is not known to fail.
construct_affinity_lem :
    (resources : ExecutableResources) (run : Run) (failing : List String)
    (labels : String → Option String)
    → matches_all (construct_affinity resources run (some failing)) labels ≡ (
        label_among (node_lifecycle_of run ∷ []) (labels "node.kubernetes.io/lifecycle")
        && (is_positive resources.gpu
            || is_positive run.gpu
            || not (label_among gpu_node_types (labels "beta.kubernetes.io/instance-type"))
              && not (label_among failing (labels "kubernetes.io/hostname"))))
unfolding matches_all construct_affinity
construct_affinity_lem resources run [] labels =
    ground (arith, label_among-nil (labels "kubernetes.io/hostname"))
construct_affinity_lem resources run (n ∷ ns) labels = ground arith

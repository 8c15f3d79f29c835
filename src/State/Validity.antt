-- ===== src/State/Validity.antt =====
-- Definitions, templates and workers of state/models.go: validation and partial updates.
use flotilla_os.Common.{
  pos, ltb_ℤ, Bool, true, false, String, List, [], ◌∷◌, Option, none, some, ◌≡◌, ◌↔◌, refl, arith,
  is_empty, is_none, ◌&&◌, ◌==◌, eqb, if◌then◌else◌,
}
use flotilla_os.Utils.Json.{Fields, end, field}
use flotilla_os.State.Types.{
  ExecutableResources, Definition, Template, Executable, task_definition, template, Worker,
  PodEvent, Time,
}
use flotilla_os.State.RunUpdate.{over_text, over_pointer}

-- A `validationCondition`: what must not hold, and the reason given when it does.
abbrev pub ValidationCondition : Type 0
ValidationCondition = Bool × String

-- The loop that `Definition.IsValid` and `Template.IsValid` share.
unfoldable pub check_conditions : List ValidationCondition → Bool × List String
check_conditions [] = (true, [])
check_conditions ((condition, reason) ∷ rest) =
    let (valid, reasons) = check_conditions rest in
    if condition then (false, reason ∷ reasons) else (valid, reasons)

unfoldable pub definition_is_valid : Definition → Bool × List String
definition_is_valid d = check_conditions (
    (is_empty d.image, "string [image] must be specified")
    ∷ (is_empty d.alias, "string [alias] must be specified")
    ∷ [])

-- `len(schema) == 0`
abbrev pub is_empty_map : Fields → Bool
is_empty_map end = true
is_empty_map (field k v rest) = false

unfoldable pub template_is_valid : Template → Bool × List String
template_is_valid t = check_conditions (
    (is_empty t.template_name, "string [template_name] must be specified")
    ∷ (is_empty_map t.schema, "schema must be specified")
    ∷ (is_empty t.command_template, "string [command_template] must be specified")
    ∷ (is_empty t.image, "string [image] must be specified")
    ∷ (is_none t.memory, "int [memory] must be specified")
    ∷ [])

unfoldable pub definition_update_with : Definition → Definition → Definition
definition_update_with d other = record {
  definition_id = over_text d.definition_id other.definition_id;
  group_name = over_text d.group_name other.group_name;
  alias = over_text d.alias other.alias;
  command = over_text d.command other.command;
  task_type = over_text d.task_type other.task_type;
  executable_resources = record {
    image = over_text d.image other.image;
    memory = over_pointer d.memory other.memory;
    gpu = over_pointer d.gpu other.gpu;
    cpu = over_pointer d.cpu other.cpu;
    env = over_pointer d.env other.env;
    adaptive_resource_allocation =
        over_pointer d.adaptive_resource_allocation other.adaptive_resource_allocation;
    ports = over_pointer d.ports other.ports;
    tags = over_pointer d.tags other.tags;
  };
}

unfoldable pub worker_update_with : Worker → Worker → Worker
worker_update_with w other =
    if ltb_ℤ other.count_per_instance (pos 0)
    then w
    else record w { count_per_instance = other.count_per_instance }

-- `w.Timestamp.Equal(*other.Timestamp)` with a nil receiver panics; no event of the code has one.
abbrev same_time : Option Time → Option Time → Bool
same_time a none = false
same_time none (some t) = false
same_time (some s) (some t) = eqb s t

unfoldable pub pod_event_equal : PodEvent → PodEvent → Bool
pod_event_equal w other =
    w.reason == other.reason
    && same_time w.timestamp other.timestamp
    && w.source_object == other.source_object
    && w.message == other.message
    && w.event_type == other.event_type

unfoldable pub get_executable_id : Executable → String
get_executable_id (task_definition d) = d.definition_id
get_executable_id (template t) = t.template_id

unfoldable pub get_executable_type : Executable → String
get_executable_type (task_definition d) = "task_definition"
get_executable_type (template t) = "template"

unfoldable pub get_executable_resources : Executable → ExecutableResources
get_executable_resources (task_definition d) = d.executable_resources
get_executable_resources (template t) = t.executable_resources

-- The reasons are given exactly when the value is not valid.
pub check_conditions_lem :
    (cs : List ValidationCondition)
    → ((check_conditions cs).0 ≡ true) ↔ ((check_conditions cs).1 ≡ [])
unfolding check_conditions
check_conditions_lem [] = (λ h. refl, λ h. refl)
check_conditions_lem ((true, r) ∷ cs) = (λ h. cc, λ h. cc)
check_conditions_lem ((false, r) ∷ cs) = check_conditions_lem cs

-- A definition is valid exactly when it has an image and an alias, and the reasons are empty
-- exactly then.
pub definition_is_valid_lem :
    (d : Definition)
    → ((definition_is_valid d).0 ≡ true ↔ (is_empty d.image ≡ false) × (is_empty d.alias ≡ false))
      × ((definition_is_valid d).1 ≡ [] ↔ (is_empty d.image ≡ false) × (is_empty d.alias ≡ false))
unfolding definition_is_valid check_conditions
definition_is_valid_lem d = ground arith

-- A partial update of a valid definition leaves a valid definition.
pub definition_update_with_valid :
    (d other : Definition)
    → (definition_is_valid d).0 ≡ true
    → (definition_is_valid (definition_update_with d other)).0 ≡ true
unfolding definition_is_valid check_conditions definition_update_with
definition_update_with_valid d other h = ground arith

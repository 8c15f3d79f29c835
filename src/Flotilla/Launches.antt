-- ===== src/Flotilla/Launches.antt =====
-- The endpoints of flotilla/endpoints.go that create runs, with the methods of services/execution.go that
-- they call.
pub mod Refused
pub mod Queued
use flotilla_os.Common.{
  Bool, true, false, not, ◌&&◌, ◌||◌, ℤ, String, List, [], ◌∷◌, Option, none, some, Error,
  malformed_input, missing_resource, plain_error, Result, ok, err, then_ok, Go, returns, panics,
  ◌>>=◌, if◌then◌else◌, ◌==◌, is_empty, string_slice_contains,
}
use flotilla_os.Utils.Json.{Json, object, Fields, end, field}
use flotilla_os.State.Constants.{eks_engine, eks_spark_engine, ondemand_lifecycle, spot_lifecycle}
use flotilla_os.State.Types.{Run, Definition, Template, EnvList, SparkExtension}
use flotilla_os.World.{World, get_definition, get_template_by_id}
use flotilla_os.Services.Execution.Requests.{ExecutionRequestCommon, LifecycleRef, request_text}
use flotilla_os.Services.Execution.Enqueue.{
  Settings, Outside, Created, create_from_definition, create_from_template,
}
use flotilla_os.State.RunUpdate.{zero_run}
use flotilla_os.Flotilla.Answers.{Answer, answered, failed, encode_error, decoded}

pub record RunTags : Type 0 where
  pub owner_email : String
  pub team_name : String
  pub owner_id : String

-- `LaunchRequest`, by the field that is read.
pub record LaunchRequest : Type 0 where
  pub env : Option EnvList

pub record LaunchRequestV2 : Type 0 where
  pub run_tags : RunTags
  pub command : Option String
  pub memory : Option ℤ
  pub cpu : Option ℤ
  pub gpu : Option ℤ
  pub engine : Option String
  pub node_lifecycle : Option String
  pub active_deadline_seconds : Option ℤ
  pub spark_extension : Option SparkExtension
  pub env : Option EnvList

-- The lifecycle of the request that is embedded is the one below.
pub record TemplateExecutionRequest : Type 0 where
  pub common : ExecutionRequestCommon
  pub lifecycle : Option String
  pub template_payload : Fields
  pub dry_run : Bool

abbrev pub node_lifecycles : List String
node_lifecycles = ondemand_lifecycle ∷ spot_lifecycle ∷ []

abbrev pub no_request : ExecutionRequestCommon
no_request = record {
  cluster_name = "";
  env = none;
  owner_id = "";
  command = none;
  memory = none;
  cpu = none;
  gpu = none;
  engine = none;
  ephemeral_storage = none;
  node_lifecycle = none;
  active_deadline_seconds = none;
  spark_extension = none;
}

unfoldable pub v1_request : LaunchRequest → ExecutionRequestCommon
v1_request lr = record no_request {
  env = lr.env;
  owner_id = "v1-unknown";
  engine = some eks_engine;
}

-- The engine of a request that names none.
abbrev pub default_engine : Option SparkExtension → String
default_engine none = eks_engine
default_engine (some extension) = eks_spark_engine

abbrev pub engine_or_default : Option String → Option SparkExtension → String
engine_or_default none extension = default_engine extension
engine_or_default (some engine) extension = engine

unfoldable pub v2_request : LaunchRequestV2 → Result ExecutionRequestCommon
v2_request lr =
    if is_empty lr.run_tags.owner_email || is_empty lr.run_tags.team_name
    then err
        (malformed_input "run_tags must exist in body and contain [owner_email] and [team_name]")
    else ok (record no_request {
      env = lr.env;
      owner_id = lr.run_tags.owner_email;
      engine = some (engine_or_default lr.engine lr.spark_extension);
      spark_extension = lr.spark_extension;
    })

-- The same, where `ecs` counts as none.
abbrev pub engine_of_request : Option String → Option SparkExtension → String
engine_of_request none extension = default_engine extension
engine_of_request (some engine) extension =
    if engine == "ecs" then default_engine extension else engine

-- The default is the variable `state.DefaultLifecycle`, which no code compares with.
unfoldable pub checked_lifecycle : Option String → Result LifecycleRef
checked_lifecycle none = ok (request_text spot_lifecycle)
checked_lifecycle (some s) =
    if string_slice_contains node_lifecycles s
    then ok (request_text s)
    else err (malformed_input "Nodelifecyle must be [normal, spot]")

abbrev pub v4_common : LaunchRequestV2 → LifecycleRef → ExecutionRequestCommon
v4_common lr lifecycle = record no_request {
  env = lr.env;
  owner_id = lr.run_tags.owner_id;
  command = lr.command;
  memory = lr.memory;
  cpu = lr.cpu;
  gpu = lr.gpu;
  engine = some (engine_of_request lr.engine lr.spark_extension);
  node_lifecycle = some lifecycle;
  active_deadline_seconds = lr.active_deadline_seconds;
  spark_extension = lr.spark_extension;
}

unfoldable pub v4_request : LaunchRequestV2 → Result ExecutionRequestCommon
v4_request lr =
    if is_empty lr.run_tags.owner_id
    then err (malformed_input "run_tags must exist in body and contain [owner_id]")
    else then_ok (checked_lifecycle lr.node_lifecycle) (λ lifecycle. ok (v4_common lr lifecycle))

unfoldable pub template_run_request : TemplateExecutionRequest → Result ExecutionRequestCommon
template_run_request req =
    if is_empty req.common.owner_id
    then err (
        malformed_input
          "request payload must contain [owner_id]; the run_tags field is deprecated for the v7 endpoint.")
    else then_ok (checked_lifecycle req.lifecycle) (λ lifecycle.
      ok (record req.common { engine = some eks_engine; node_lifecycle = some lifecycle }))

-- `CreateDefinitionRunByDefinitionID`. The Boolean is a failure of the read of the definition.
unfoldable pub create_definition_run_by_definition_id :
    Settings → Outside → Bool → String → ExecutionRequestCommon → World → Go Created
create_definition_run_by_definition_id settings outside fails id req w =
    elim (get_definition fails id w) [
      | err e ↦ returns (w, zero_run, some e)
      | ok d ↦ create_from_definition settings outside d req w
    ]

unfoldable pub find_alias : String → List Definition → Result Definition
find_alias alias [] = err (missing_resource "Definition not found")
find_alias alias (d ∷ ds) = if d.alias == alias then ok d else find_alias alias ds

unfoldable pub create_definition_run_by_alias :
    Settings → Outside → Bool → String → ExecutionRequestCommon → World → Go Created
create_definition_run_by_alias settings outside true alias req w =
    returns (w, zero_run, some (plain_error "issue getting definition"))
create_definition_run_by_alias settings outside false alias req w =
    elim (find_alias alias w.definitions) [
      | err e ↦ returns (w, zero_run, some e)
      | ok d ↦ create_from_definition settings outside d req w
    ]

-- `GetExecutionRequestCustom` of a template's request.
abbrev pub custom_of : TemplateExecutionRequest → Fields
custom_of req = field "template_payload" (object req.template_payload) end

-- `CreateTemplateRunByTemplateID`. What GetExecutableCommand makes of the template and the request is an
-- argument.
unfoldable pub create_template_run_by_template_id :
    Settings
    → Outside
    → Bool
    → (Template → Fields → Result String)
    → String
    → TemplateExecutionRequest
    → ExecutionRequestCommon
    → World
    → Go Created
create_template_run_by_template_id settings outside fails render id req common w =
    elim (get_template_by_id fails id w) [
      | err e ↦ returns (w, zero_run, some e)
      | ok t ↦
          create_from_template settings outside req.dry_run (render t (custom_of req))
            (custom_of req) t common w
    ]

-- The last part of each endpoint: the run, or the error.
unfoldable pub respond : Created → World × Answer Run
respond (w, run, none) = (w, answered run)
respond (w, run, some e) = (w, encode_error e)

-- An endpoint: a request that is refused goes no further.
unfoldable pub launch_run :
    (ExecutionRequestCommon → World → Go Created)
    → Result ExecutionRequestCommon
    → World
    → Go (World × Answer Run)
launch_run service (err e) w = returns (w, encode_error e)
launch_run service (ok req) w = do created ← service req w; returns (respond created)

abbrev pub from_body {ℓ} :
    {A : Type ℓ} → Result A → (A → Result ExecutionRequestCommon) → Result ExecutionRequestCommon
from_body body f = then_ok (decoded body) f

module _ (settings : Settings) (outside : Outside) (fails : Bool) where
  -- `CreateRun`
  unfoldable pub create_run_v1 : Result LaunchRequest → String → World → Go (World × Answer Run)
  create_run_v1 body id w =
      launch_run (create_definition_run_by_definition_id settings outside fails id)
        (from_body body (λ lr. ok (v1_request lr))) w

  unfoldable pub create_run_v2 : Result LaunchRequestV2 → String → World → Go (World × Answer Run)
  create_run_v2 body id w =
      launch_run (create_definition_run_by_definition_id settings outside fails id)
        (from_body body v2_request) w

  unfoldable pub create_run_v4 : Result LaunchRequestV2 → String → World → Go (World × Answer Run)
  create_run_v4 body id w =
      launch_run (create_definition_run_by_definition_id settings outside fails id)
        (from_body body v4_request) w

  unfoldable pub create_run_by_alias :
      Result LaunchRequestV2 → String → World → Go (World × Answer Run)
  create_run_by_alias body alias w =
      launch_run (create_definition_run_by_alias settings outside fails alias)
        (from_body body v4_request) w

  -- The body of CreateTemplateRun, after it was decoded.
  unfoldable pub create_decoded_template_run :
      (Template → Fields → Result String)
      → Result TemplateExecutionRequest
      → String
      → World
      → Go (World × Answer Run)
  create_decoded_template_run render (err e) id w = returns (w, encode_error e)
  create_decoded_template_run render (ok req) id w =
      launch_run (create_template_run_by_template_id settings outside fails render id req)
        (template_run_request req) w

  unfoldable pub create_template_run :
      (Template → Fields → Result String)
      → Result TemplateExecutionRequest
      → String
      → World
      → Go (World × Answer Run)
  create_template_run render body id w = create_decoded_template_run render (decoded body) id w

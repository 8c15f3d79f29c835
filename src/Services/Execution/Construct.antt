-- ===== src/Services/Execution/Construct.antt =====
-- NewRunID of state/models.go, constructBaseRunFromExecutable, constructEnviron and the two
-- functions that fill in the rest of a run.
pub mod Made
use Prim.Native.String.{◌++◌ as text_append}
use Prim.Native.String.append
use flotilla_os.Common.{
  ℕ, zero, suc, ◌+◌, ◌≤◌, ◌<◌, Bool, true, false, ◌&&◌, String, List, [], ◌∷◌, ◌++◌, Option, none,
  some, ◌≡◌, refl, arith, if◌then◌else◌, ◌==◌, is_none, is_some, is_empty, get_or, Error,
  plain_error, Result, ok, err, Go, returns, panics, ◌>>=◌, deref, map,
}
use flotilla_os.Utils.Json.{Fields}
use flotilla_os.State.Constants.{
  eks_engine, eks_spark_engine, default_task_type, status_queued, spot_lifecycle,
}
use flotilla_os.State.Types.{
  Run, EnvList, Executable, Definition, Template, task_definition, template,
}
use flotilla_os.State.RunUpdate.{zero_run}
use flotilla_os.State.Validity.{get_executable_id, get_executable_type, get_executable_resources}
use flotilla_os.Services.Execution.Requests.{
  ExecutionRequestCommon, LifecycleRef, ondemand_variable, lifecycle_text,
}

-- `s[n:]`, which panics past the end. A UUID is ASCII, so a character is a byte.
unfoldable pub slice_from : ℕ → String → Go String
slice_from zero s = returns s
slice_from (suc n) String.[] = panics
slice_from (suc n) (String.◌∷◌ c s) = slice_from n s

unfoldable pub text_length : String → ℕ
text_length String.[] = 0
text_length (String.◌∷◌ c s) = suc (text_length s)

-- `NewRunID`. A UUID that cannot be made is the empty text, and its slice panics before the error is
-- returned.
unfoldable pub new_run_id : String → Result String → Go String
unfolding slice_from text_length
new_run_id engine uuid = do
  rest ← slice_from (suc (text_length engine)) (elim uuid [ ok s ↦ s | err e ↦ "" ])
  returns (text_append engine (text_append "-" rest))

-- What the two queries of the run's history say: `reAttemptRate >= spotReAttemptOverride` and
-- `taskExecutionMinutes > spotThresholdMinutes`.
pub record History : Type 0 where
  pub reattempts_often : Bool
  pub runs_long : Bool

-- The command of the request, else the computed one if it is not empty.
unfoldable pub choose_command : Option String → String → Option String
choose_command none executable_cmd = if is_empty executable_cmd then none else some executable_cmd
choose_command (some command) executable_cmd =
    if is_empty command
    then (if is_empty executable_cmd then some command else some executable_cmd)
    else some command

abbrev pub is_spot : Option LifecycleRef → Bool
is_spot none = false
is_spot (some l) = lifecycle_text l == spot_lifecycle

-- The lifecycle of a run on the EKS engine.
unfoldable pub eks_lifecycle : History → Option LifecycleRef → Option LifecycleRef
eks_lifecycle history node_lifecycle =
    if history.runs_long
    then some ondemand_variable
    else if history.reattempts_often && is_spot node_lifecycle
    then some ondemand_variable
    else node_lifecycle

-- `reservedEnv`, the variables that are computed for each run.
abbrev pub ReservedEnv : Type 0
ReservedEnv = List (String × (Run → String))

-- The map that `NewExecutionService` makes, for an owner's key that is none of the other three.
unfoldable pub reserved_env : String → String → ReservedEnv
reserved_env flotilla_mode owner_key =
    ("FLOTILLA_SERVER_MODE", λ run. flotilla_mode)
    ∷ ("FLOTILLA_RUN_ID", λ run. run.run_id)
    ∷ ("AWS_ROLE_SESSION_NAME", λ run. run.run_id)
    ∷ (owner_key, λ run. run.user)
    ∷ []

unfoldable pub construct_environ : ReservedEnv → Run → Option EnvList → EnvList
construct_environ reserved run env =
    map (λ kf. record { name = kf.0; value = kf.1 run }) reserved ++ get_or [] env

abbrev pub lifecycle_of : Option LifecycleRef → String
lifecycle_of none = spot_lifecycle
lifecycle_of (some l) = lifecycle_text l

-- The run of a prepared request, its environment apart.
unfoldable pub base_run : String → Executable → ExecutionRequestCommon → Run
base_run run_id executable fields = record zero_run {
  run_id = run_id;
  cluster_name = fields.cluster_name;
  image = (get_executable_resources executable).image;
  status = status_queued;
  user = fields.owner_id;
  command = fields.command;
  memory = fields.memory;
  cpu = fields.cpu;
  gpu = fields.gpu;
  engine = fields.engine;
  node_lifecycle = some (lifecycle_of fields.node_lifecycle);
  ephemeral_storage = fields.ephemeral_storage;
  executable_id = some (get_executable_id executable);
  executable_type = some (get_executable_type executable);
  active_deadline_seconds = fields.active_deadline_seconds;
  task_type = default_task_type;
  spark_extension = fields.spark_extension;
}

-- `executable_command` is `GetExecutableCommand` on the request: the command of a definition, or
-- the rendered command of a template.
unfoldable pub prepare_request :
    Result String → History → String → ExecutionRequestCommon → Result ExecutionRequestCommon
unfolding choose_command eks_lifecycle
prepare_request executable_command history engine fields =
    if engine == eks_engine
    then (elim executable_command [
      | err e ↦ err e
      | ok cmd ↦ ok (record fields {
        command = choose_command fields.command cmd;
        node_lifecycle = eks_lifecycle history fields.node_lifecycle;
      })
    ])
    else if engine == eks_spark_engine && is_none fields.spark_extension
    then err (plain_error "spark_extension can't be nil, when using eks-spark engine type")
    else ok fields

unfoldable pub with_environ : ReservedEnv → Option EnvList → Run → Run
with_environ reserved env run = record run { env = some (construct_environ reserved run env) }

unfoldable pub run_of_request :
    ReservedEnv → String → Executable → Result ExecutionRequestCommon → Result Run
unfolding with_environ base_run
run_of_request reserved run_id executable (err e) = err e
run_of_request reserved run_id executable (ok fields) =
    ok (with_environ reserved fields.env (base_run run_id executable fields))

unfoldable pub construct_base_run_from_executable :
    ReservedEnv
    → Result String
    → History
    → Result String
    → Executable
    → ExecutionRequestCommon
    → Go (Result Run)
construct_base_run_from_executable reserved executable_command history uuid executable fields = do
  engine ← deref fields.engine
  run_id ← new_run_id engine uuid
  returns (
      run_of_request reserved run_id executable
        (prepare_request executable_command history engine fields))

abbrev pub map_ok {ℓ κ} : {A : Type ℓ} {B : Type κ} → (A → B) → Result A → Result B
map_ok f (ok a) = ok (f a)
map_ok f (err e) = err e

unfoldable pub from_definition : Definition → Run → Run
from_definition d run = record run {
  definition_id = d.definition_id;
  alias = d.alias;
  group_name = d.group_name;
}

unfoldable pub from_template : Template → Fields → Run → Run
from_template t custom run = record run {
  definition_id = t.template_id;
  alias = t.template_id;
  group_name = "template_group_name";
  execution_request_custom = some custom;
}

-- `constructRunFromDefinition`. The command of a definition is had without an error.
unfoldable pub construct_run_from_definition :
    ReservedEnv → History → Result String → Definition → ExecutionRequestCommon → Go (Result Run)
construct_run_from_definition reserved history uuid d fields = do
  run ←
      construct_base_run_from_executable reserved (ok d.command) history uuid (task_definition d)
        fields
  returns (map_ok (from_definition d) run)

-- `constructRunFromTemplate`. `rendered` is the command of the template on the request, and
-- `custom` the payload that the request carries.
unfoldable pub construct_run_from_template :
    ReservedEnv
    → Result String
    → Fields
    → History
    → Result String
    → Template
    → ExecutionRequestCommon
    → Go (Result Run)
construct_run_from_template reserved rendered custom history uuid t fields = do
  run ← construct_base_run_from_executable reserved rendered history uuid (template t) fields
  returns (map_ok (from_template t custom) run)

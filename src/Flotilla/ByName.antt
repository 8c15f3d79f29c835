-- ===== src/Flotilla/ByName.antt =====
-- CreateTemplateRunByName of flotilla/endpoints.go, and CreateTemplateRunByTemplateName of
-- services/execution.go, on what the state manager knows of a template's name.
use Prim.Native.String.{◌++◌ as text_append}
use flotilla_os.Common.{
  ℤ, Bool, String, Option, none, some, plain_error, Result, ok, err, Go, returns,
}
use flotilla_os.Common.Parsing.{parse_int}
use flotilla_os.Utils.Json.{Fields}
use flotilla_os.State.Types.{Run, Template}
use flotilla_os.State.RunUpdate.{zero_run}
use flotilla_os.World.{World}
use flotilla_os.Services.Execution.Requests.{ExecutionRequestCommon}
use flotilla_os.Services.Execution.Enqueue.{Settings, Outside, Created}
use flotilla_os.Flotilla.Answers.{Answer, encode_error, decoded}
use flotilla_os.Flotilla.Launches.{
  TemplateExecutionRequest, template_run_request, create_template_run_by_template_id, launch_run,
}

-- The reads of the state manager by a name, and by a name and a version; none when there is no such template.
pub record NamedTemplates : Type 0 where
  pub latest : String → Result (Option Template)
  pub by_version : String → ℤ → Result (Option Template)

-- A version that is no number stands for the latest one.
unfoldable pub find_template : NamedTemplates → String → String → Result (Option Template)
find_template named name version = elim (parse_int version) [
  | none ↦ named.latest name
  | some n ↦ named.by_version name n
]

module _ (settings : Settings) (outside : Outside) (fails : Bool)
    (render : Template → Fields → Result String) where
  abbrev launch_found :
      String
      → String
      → TemplateExecutionRequest
      → ExecutionRequestCommon
      → World
      → Result (Option Template)
      → Go Created
  launch_found name version req common w (ok (some t)) =
      create_template_run_by_template_id settings outside fails render t.template_id req common w
  launch_found name version req common w found = returns (
    w,
    zero_run,
    some (
        plain_error (
          text_append "invalid template name or version, template_name: "
            (text_append name (text_append ", template_version: " version)))),
  )

  unfoldable pub create_template_run_by_template_name :
      NamedTemplates
      → String
      → String
      → TemplateExecutionRequest
      → ExecutionRequestCommon
      → World
      → Go Created
  create_template_run_by_template_name named name version req common w =
      launch_found name version req common w (find_template named name version)

  abbrev launch_decoded :
      NamedTemplates
      → String
      → String
      → Result TemplateExecutionRequest
      → World
      → Go (World × Answer Run)
  launch_decoded named name version (err e) w = returns (w, encode_error e)
  launch_decoded named name version (ok req) w =
      launch_run (create_template_run_by_template_name named name version req)
        (template_run_request req) w

  unfoldable pub create_template_run_by_name :
      NamedTemplates
      → Result TemplateExecutionRequest
      → String
      → String
      → World
      → Go (World × Answer Run)
  create_template_run_by_name named body name version w =
      launch_decoded named name version (decoded body) w

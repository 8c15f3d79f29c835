-- ===== src/Examples/Templates.antt =====
-- A store of templates, and the theorem on their versions at it.
use flotilla_os.Common.{
  pos, true, String, List, [], ◌∷◌, ◌++◌, Option, none, some, ok, ◌==◌, if◌then◌else◌,
}
use flotilla_os.Common.Int64.{ltb_ℤ}
use flotilla_os.Utils.Json.{text, end, field}
use flotilla_os.State.Types.{Template}
use flotilla_os.Services.Templates.{CreateTemplateRequest, TemplateStore, template_of}
use flotilla_os.Examples.Data.{plain_resources}

abbrev higher : Template → Option Template → Template
higher t none = t
higher t (some u) = if ltb_ℤ t.version u.version then u else t

best : String → List Template → Option Template
best name [] = none
best name (t ∷ ts) =
    if t.template_name == name then some (higher t (best name ts)) else best name ts

abbrev plain_store : TemplateStore (List Template)
plain_store = record { latest = λ name s. ok (best name s); insert = λ t s. (s ++ t ∷ [], none) }

abbrev known : List Template → List Template
known s = s

abbrev report : CreateTemplateRequest
report = record {
  template_name = "report";
  schema = field "type" (text "object") end;
  command_template = "report {{.day}}";
  defaults = none;
  avatar_uri = "";
  executable_resources = record plain_resources { gpu = some (pos 0) };
}

abbrev stored : List Template
stored =
    record (template_of report true) {
      template_id = "tpl-1";
      version = pos 1;
      command_template = "report";
    }
    ∷ []

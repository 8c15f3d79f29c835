-- ===== src/Services/Templates.antt =====
-- services/template.go: templates and their versions, on what the state manager stores of them.
pub mod Comparison
pub mod Versions
use Prim.Native.String.{◌++◌ as text_append}
use flotilla_os.Common.{
  ℕ, zero, suc, ◌+◌, ◌<◌, ℤ, pos, negsuc, Bool, true, false, not, ◌&&◌, ◌||◌, String, List, [], ◌∷◌,
  ◌++◌, Option, none, some, Error, malformed_input, Result, ok, err, Go, returns, panics, ◌>>=◌,
  deref, if◌then◌else◌, ◌==◌, eq_ℤ, get_or, any, ◌≡◌,
}
use flotilla_os.Common.Int64.{wrap64, ◌≤ℤ◌, ltb_ℤ}
use flotilla_os.Utils.Json.{Fields, end}
use flotilla_os.Utils.DeepEqual.{same_bool, deep_equal}
use flotilla_os.State.Constants.{min_cpu, min_mem}
use flotilla_os.State.Types.{Template, ExecutableResources, EnvVar}
use flotilla_os.State.Validity.{template_is_valid}
use flotilla_os.State.Queries.{join}
use flotilla_os.Services.Execution.Construct.{slice_from}

pub record CreateTemplateRequest : Type 0 where
  pub template_name : String
  pub schema : Fields
  pub command_template : String
  pub defaults : Option Fields
  pub avatar_uri : String
  pub executable_resources : ExecutableResources
  pub open executable_resources use *

pub record CreateTemplateResponse : Type 0 where
  pub did_create : Bool
  pub template : Template

abbrev pub zero_template : Template
zero_template = record {
  template_id = "";
  template_name = "";
  version = pos 0;
  schema = end;
  command_template = "";
  defaults = end;
  avatar_uri = "";
  executable_resources = record {
    image = "";
    memory = none;
    gpu = none;
    cpu = none;
    env = none;
    adaptive_resource_allocation = none;
    ports = none;
    tags = none;
  };
}

abbrev pub no_response : CreateTemplateResponse
no_response = record { did_create = false; template = zero_template }

-- The template of a request, whose adaptive allocation is given.
abbrev pub template_of : CreateTemplateRequest → Bool → Template
template_of req adaptive = record {
  template_id = "";
  template_name = req.template_name;
  version = pos 0;
  schema = req.schema;
  command_template = req.command_template;
  defaults = get_or end req.defaults;
  avatar_uri = req.avatar_uri;
  executable_resources = record req.executable_resources {
    memory = some (get_or min_mem req.memory);
    cpu = some (get_or min_cpu req.cpu);
    adaptive_resource_allocation = some adaptive;
  };
}

-- `constructTemplateFromCreateTemplateRequest`. A request that does not say whether its resources adapt makes
-- the code write through a nil pointer.
unfoldable pub construct_template : CreateTemplateRequest → Go Template
construct_template req = do
  adaptive ← deref req.adaptive_resource_allocation
  returns (template_of req adaptive)

-- `if x { return true }`, before the rest of the function.
abbrev pub or_else : Go Bool → Go Bool → Go Bool
or_else x rest = do differs ← x; if differs then returns true else rest

-- `*prev != *curr`
unfoldable pub pointers_differ {ℓ} : {A : Type ℓ} → (A → A → Bool) → Option A → Option A → Go Bool
pointers_differ same prev curr = do p ← deref prev; c ← deref curr; returns (not (same p c))

unfoldable pub same_items {ℓ} : {A : Type ℓ} → (A → A → Bool) → List A → List A → Bool
same_items same [] [] = true
same_items same (x ∷ xs) (y ∷ ys) = same x y && same_items same xs ys
same_items same xs ys = false

-- Slices behind two pointers, which are compared if neither is nil.
unfoldable pub slices_differ {ℓ} :
    {A : Type ℓ} → (A → A → Bool) → Option (List A) → Option (List A) → Bool
slices_differ same none curr = false
slices_differ same (some xs) none = false
slices_differ same (some xs) (some ys) = not (same_items same xs ys)

abbrev pub same_env : EnvVar → EnvVar → Bool
same_env a b = a.name == b.name && a.value == b.value

unfoldable pub diff : Template → Template → Go Bool
diff prev curr =
    or_else
      (returns (
        not (prev.template_name == curr.template_name)
        || not (prev.command_template == curr.command_template)
        || not (prev.image == curr.image)))
      (or_else (pointers_differ eq_ℤ prev.memory curr.memory) (
        or_else (pointers_differ eq_ℤ prev.gpu curr.gpu) (
          or_else (pointers_differ eq_ℤ prev.cpu curr.cpu) (
            or_else (returns (slices_differ same_env prev.env curr.env)) (
              or_else
                (pointers_differ same_bool prev.adaptive_resource_allocation
                  curr.adaptive_resource_allocation)
                (returns (
                  not (deep_equal prev.defaults curr.defaults)
                  || not (prev.avatar_uri == curr.avatar_uri)
                  || slices_differ eq_ℤ prev.ports curr.ports
                  || slices_differ (λ a b. a == b) prev.tags curr.tags
                  || not (deep_equal prev.schema curr.schema))))))))

-- `NewTemplateID`
unfoldable pub new_template_id : String → Go String
new_template_id uuid = do rest ← slice_from 4 uuid; returns (text_append "tpl-" rest)

-- `prev.Version + 1`
unfoldable pub next_version : ℤ → ℤ
next_version (pos n) = wrap64 (pos (suc n))
next_version (negsuc zero) = pos 0
next_version (negsuc (suc n)) = negsuc n

-- What the service asks of the state manager: the latest template of a name, if there is one, and the
-- insertion of a row.
pub record TemplateStore (S : Type 0) : Type 0 where
  pub latest : String → S → Result (Option Template)
  pub insert : Template → S → S × Option Error

module _ {S : Type 0} (store : TemplateStore S) where
  open store use {latest, insert}

  unfoldable pub write_template : Template → S → S × CreateTemplateResponse × Option Error
  write_template t s =
      let (s', e) = insert t s in (s', record { did_create = true; template = t }, e)

  -- The last part of `Create`, by the latest template of the name.
  unfoldable pub write_version :
      Result (Option Template) → Template → S → Go (S × CreateTemplateResponse × Option Error)
  write_version (err e) curr s = returns (s, no_response, some e)
  write_version (ok none) curr s = returns (write_template (record curr { version = pos 1 }) s)
  write_version (ok (some prev)) curr s = do
    changed ← diff prev curr
    returns (
        if changed
        then write_template (record curr { version = next_version prev.version }) s
        else (s, record { did_create = false; template = prev }, none))

  unfoldable pub write_identified :
      Result String → Template → S → Go (S × CreateTemplateResponse × Option Error)
  write_identified (err e) curr s = returns (s, no_response, some e)
  write_identified (ok uuid) curr s = do
    id ← new_template_id uuid
    write_version (latest curr.template_name s) (record curr { template_id = id }) s

  unfoldable pub write_valid :
      Bool × List String
      → Result String
      → Template
      → S
      → Go (S × CreateTemplateResponse × Option Error)
  write_valid (false, reasons) uuid curr s =
      returns (s, no_response, some (malformed_input (join "\n" reasons)))
  write_valid (true, reasons) uuid curr s = write_identified uuid curr s

  -- `Create`
  unfoldable pub service_create_template :
      CreateTemplateRequest → Result String → S → Go (S × CreateTemplateResponse × Option Error)
  service_create_template req uuid s = do
    curr ← construct_template req
    write_valid (template_is_valid curr) uuid curr s

-- ===== src/Services/Definitions.antt =====
-- services/definition.go: the creation and the update of definitions. What ListDefinitions answers is
-- an argument.
use Prim.Native.String.{◌++◌ as text_append}
use flotilla_os.Common.{
  Bool, true, false, String, List, [], ◌∷◌, Option, none, some, Error, malformed_input,
  conflicting_resource, Result, ok, err, if◌then◌else◌, ◌==◌, any, ◌≡◌, refl, sym, ◌∙◌, ap, subst,
  arith,
}
use flotilla_os.State.Types.{Definition}
use flotilla_os.State.Validity.{definition_is_valid, definition_update_with}
use flotilla_os.State.Queries.{join}
use flotilla_os.State.DefinitionTable.{
  Tables, StatementFaults, get_definition_row, get_definition_by_alias, create_definition,
  update_definition,
}
use flotilla_os.State.DefinitionTable.Reads.{get_definition-create}

-- `Definition{}`
abbrev pub zero_definition : Definition
zero_definition = record {
  definition_id = "";
  group_name = "";
  alias = "";
  command = "";
  task_type = "";
  executable_resources = record {
    image = "";
    memory = none;
    gpu = none;
    cpu = none;
    env = none;
    adaptive_resource_allocation = none;
    ports = none;
    tags = none;
  };
}

-- `aliasExists`, on the definitions that are listed for the alias.
unfoldable pub alias_exists : String → Result (List Definition) → Result Bool
alias_exists alias (err e) = err e
alias_exists alias (ok ds) = ok (any (λ d. d.alias == alias) ds)

unfoldable pub new_definition_id : Definition → Result String → Result String
new_definition_id d (err e) = err e
new_definition_id d (ok uuid) = ok (text_append d.group_name (text_append "-" uuid))

unfoldable pub store_definition :
    StatementFaults → Definition → Result String → Tables → Tables × Definition × Option Error
store_definition faults d (err e) t = (t, zero_definition, some e)
store_definition faults d (ok id) t =
    let created = record d { definition_id = id } in
    let (t', e) = create_definition faults created t in (t', created, e)

unfoldable pub create_unless :
    Result Bool
    → StatementFaults
    → Result String
    → Definition
    → Tables
    → Tables × Definition × Option Error
create_unless (err e) faults uuid d t = (t, zero_definition, some e)
create_unless (ok true) faults uuid d t = (
  t,
  zero_definition,
  some (
      conflicting_resource
        (text_append "definition with alias [" (text_append d.alias "] aleady exists"))),
)
create_unless (ok false) faults uuid d t = store_definition faults d (new_definition_id d uuid) t

-- `Create`
unfoldable pub service_create_definition :
    Result (List Definition)
    → StatementFaults
    → Result String
    → Definition
    → Tables
    → Tables × Definition × Option Error
service_create_definition listed faults uuid d t =
    let (valid, reasons) = definition_is_valid d in
    if valid
    then create_unless (alias_exists d.alias listed) faults uuid d t
    else (t, zero_definition, some (malformed_input (join "\n" reasons)))

-- `Update`, which reads the definition twice. The arguments are failures of the two reads.
unfoldable pub service_update_definition :
    Bool → Bool → StatementFaults → String → Definition → Tables → Tables × Result Definition
service_update_definition first_fails second_fails faults id updates t =
    elim (get_definition_row first_fails id t) [
      | err e ↦ (t, err e)
      | ok d ↦ update_definition second_fails faults id (definition_update_with d updates) t
    ]

store_done :
    (faults : StatementFaults) (d : Definition) (id : Result String) (t : Tables)
    → (store_definition faults d id t).2 ≡ none
    → (k : String) × (id ≡ ok k)
      × (store_definition faults d id t ≡ (
        (create_definition faults (record d { definition_id = k }) t).0,
        record d { definition_id = k },
        none,
      ))
      × ((create_definition faults (record d { definition_id = k }) t).1 ≡ none)
unfolding store_definition
store_done faults d (err e) t done = cc
store_done faults d (ok k) t done = (
  k,
  refl,
  ap
      (λ e. (
        (create_definition faults (record d { definition_id = k }) t).0,
        record d { definition_id = k },
        e,
      ))
      done,
  done,
)

unless_done :
    (exists : Result Bool) (faults : StatementFaults) (uuid : Result String) (d : Definition)
    (t : Tables)
    → (create_unless exists faults uuid d t).2 ≡ none
    → exists ≡ ok false
unfolding create_unless
unless_done (err e) faults uuid d t done = cc
unless_done (ok true) faults uuid d t done = cc
unless_done (ok false) faults uuid d t done = refl

service_valid :
    (listed : Result (List Definition)) (faults : StatementFaults) (uuid : Result String)
    (d : Definition) (t : Tables)
    → (service_create_definition listed faults uuid d t).2 ≡ none
    → (definition_is_valid d).0 ≡ true
unfolding service_create_definition
service_valid listed faults uuid d t done = ground arith

service_step :
    (listed : Result (List Definition)) (faults : StatementFaults) (uuid : Result String)
    (d : Definition) (t : Tables)
    → (definition_is_valid d).0 ≡ true
    → service_create_definition listed faults uuid d t
      ≡ create_unless (alias_exists d.alias listed) faults uuid d t
unfolding service_create_definition
service_step listed faults uuid d t valid = rw (valid, service_create_definition) refl

unless_step :
    (exists : Result Bool) (faults : StatementFaults) (uuid : Result String) (d : Definition)
    (t : Tables)
    → exists ≡ ok false
    → create_unless exists faults uuid d t ≡ store_definition faults d (new_definition_id d uuid) t
unfolding create_unless
unless_step exists faults uuid d t e = rw (e, create_unless) refl

-- What is read of a definition that was created.
abbrev pub as_created : Definition → Definition
as_created d = record d {
  task_type = "";
  executable_resources = record d.executable_resources { ports = some []; tags = some ("" ∷ []) };
}

-- The definition was made of the one that was given, and is read back.
abbrev pub IsCreated : Definition → Result String → Tables × Definition × Option Error → Type 0
IsCreated d uuid (t, created, e) =
    (new_definition_id d uuid ≡ ok created.definition_id)
    × (created ≡ record d { definition_id = created.definition_id })
    × (get_definition_row false created.definition_id t ≡ ok (as_created created))
    × (get_definition_by_alias false d.alias t ≡ ok (as_created created))

-- A creation that the service reports without an error was of a valid definition whose alias was not
-- listed; it has the group's name, a dash and a UUID as its identifier, and is read by this identifier
-- and by its alias as it was given, but for its task type, which is empty, and its ports and tags: it
-- has no port and one empty tag.
pub service_create_definition-read :
    (listed : Result (List Definition)) (faults : StatementFaults) (uuid : Result String)
    (d : Definition) (t : Tables)
    → (service_create_definition listed faults uuid d t).2 ≡ none
    → ((definition_is_valid d).0 ≡ true)
      × (alias_exists d.alias listed ≡ ok false)
      × IsCreated d uuid (service_create_definition listed faults uuid d t)
service_create_definition-read listed faults uuid d t done =
    let valid = service_valid listed faults uuid d t done in
    let step = service_step listed faults uuid d t valid in
    let free =
      unless_done (alias_exists d.alias listed) faults uuid d t
        (subst (λ r. r.2 ≡ none) step done) in
    let step' = step ∙ unless_step (alias_exists d.alias listed) faults uuid d t free in
    let (k, made, stored, created) =
      store_done faults d (new_definition_id d uuid) t (subst (λ r. r.2 ≡ none) step' done) in
    let (by_id, by_alias) =
      get_definition-create faults (record d { definition_id = k }) t created in
    (valid, free, subst (IsCreated d uuid) (sym (step' ∙ stored)) (made, refl, by_id, by_alias))

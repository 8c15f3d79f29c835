-- ===== src/Examples/Definitions.antt =====
-- The theorems on the tables of definitions and workers and on their services, at a few rows.
use flotilla_os.Common.{pos, true, false, List, [], ◌∷◌, some, ok, ◌≡◌, refl, string_slice_contains}
use flotilla_os.Common.Firsts.{distinct_keys}
use flotilla_os.State.Types.{Definition}
use flotilla_os.State.Validity.{check_conditions, definition_is_valid, definition_update_with}
use flotilla_os.State.DefinitionTable.{
  Tables, StatementFaults, get_definition_row, get_definition_by_alias, create_definition,
  update_definition, delete_definition, run_statements, transact, insert_definition,
  port_statements, tag_statements, insert_port, insert_tag, insert_definition_tag,
  update_statements, update_row_of, write_definition, delete_ports, delete_tags, find_by,
  read_definition, select_definition,
}
use flotilla_os.State.DefinitionTable.Reads.{get_definition-create}
use flotilla_os.State.DefinitionTable.Updates.{parts_of, update_definition_forgets}
use flotilla_os.State.DefinitionTable.Deletes.{DeletedOr, delete_definition_lem}
use flotilla_os.State.DefinitionTable.Aliases.{
  IsKeyed, DefinitionCall, create, update, remove, definition_calls, definition_calls-IsKeyed,
}
use flotilla_os.Services.Definitions.{
  alias_exists, service_create_definition, IsCreated, service_create_definition-read,
  zero_definition, new_definition_id, create_unless, store_definition,
}
use flotilla_os.Flotilla.Entities.{
  create_definition_endpoint, update_definition_endpoint, delete_definition_endpoint,
  update_run_endpoint,
}
use flotilla_os.Flotilla.Entities.Unchanged.{IsKept, failed-IsKept}
use flotilla_os.State.TaskTable.{no_faults}
use flotilla_os.Examples.Data.{sleeper, waiting, plain_resources}

abbrev nothing_fails : StatementFaults
nothing_fails = record { begin_fails = false; exec_fails = λ i. false; commit_fails = false }

-- A definition with a port and a tag.
abbrev server : Definition
server = record sleeper {
  definition_id = "server";
  alias = "serve";
  executable_resources = record plain_resources {
    ports = some (pos 80 ∷ []);
    tags = some ("web" ∷ []);
  };
}

abbrev tables : Tables
tables = record {
  definitions = sleeper ∷ [];
  ports = ("sleeper", pos 22) ∷ [];
  tags = "batch" ∷ [];
  definition_tags = ("sleeper", "batch") ∷ [];
  tasks = waiting ∷ [];
}

get_definition-create_example :
    let t' = (create_definition nothing_fails server tables).0 in
    let stored = record server {
      task_type = "";
      executable_resources = record plain_resources { ports = some []; tags = some ("" ∷ []) };
    } in
    (get_definition_row false "server" t' ≡ ok stored)
    × (get_definition_by_alias false "serve" t' ≡ ok stored)
unfolding create_definition transact run_statements insert_definition port_statements tag_statements
    insert_port insert_tag insert_definition_tag
get_definition-create_example = get_definition-create nothing_fails server tables refl

-- A new command for the sleeper.
abbrev new_command : Definition
new_command = record zero_definition { command = "sleep 120" }

abbrev updated : Definition
updated = record sleeper {
  command = "sleep 120";
  executable_resources = record plain_resources { ports = some []; tags = some ("" ∷ []) };
}

update_definition_forgets_example :
    let t' = (update_definition false nothing_fails "sleeper" new_command tables).0 in
    (parts_of "sleeper" t'.ports ≡ [])
    × (parts_of "sleeper" t'.definition_tags ≡ ("sleeper", "") ∷ [])
unfolding update_definition definition_update_with transact run_statements update_statements
    update_row_of write_definition delete_ports delete_tags port_statements tag_statements
    insert_tag insert_definition_tag find_by read_definition select_definition get_definition_row
update_definition_forgets_example =
    update_definition_forgets nothing_fails "sleeper" new_command tables updated refl refl refl

delete_definition_example :
    DeletedOr "sleeper" tables (delete_definition nothing_fails "sleeper" tables)
    × (get_definition_row false "server" (delete_definition nothing_fails "sleeper" tables).0
        ≡ get_definition_row false "server" tables)
delete_definition_example = delete_definition_lem nothing_fails "sleeper" "server" tables refl

abbrev all_calls : List DefinitionCall
all_calls =
    create nothing_fails server
    ∷ update false nothing_fails "server" new_command
    ∷ remove nothing_fails "sleeper"
    ∷ []

definition_calls-IsKeyed_example : IsKeyed (definition_calls all_calls tables).definitions
unfolding distinct_keys string_slice_contains
definition_calls-IsKeyed_example = definition_calls-IsKeyed all_calls tables (refl, refl)

service_create_definition_example :
    ((definition_is_valid server).0 ≡ true)
    × (alias_exists "serve" (ok (sleeper ∷ [])) ≡ ok false)
    × IsCreated server
        (ok "1234")
        (service_create_definition (ok (sleeper ∷ [])) nothing_fails (ok "1234") server tables)
unfolding service_create_definition definition_is_valid check_conditions create_unless alias_exists
    store_definition new_definition_id create_definition transact run_statements insert_definition
    port_statements tag_statements insert_port insert_tag insert_definition_tag
service_create_definition_example =
    service_create_definition-read (ok (sleeper ∷ [])) nothing_fails (ok "1234") server tables refl

-- Every commit fails.
abbrev refusing : StatementFaults
refusing = record nothing_fails { commit_fails = true }

failed-IsKept_example :
    IsKept tables (create_definition_endpoint (ok []) refusing (ok "1234") (ok server) tables)
    × IsKept tables (update_definition_endpoint false true refusing "sleeper" (ok server) tables)
    × IsKept tables (delete_definition_endpoint refusing "sleeper" tables)
    × IsKept
        (waiting ∷ [])
        (update_run_endpoint false no_faults 7 "sleeper" (ok waiting) (waiting ∷ []))
failed-IsKept_example =
    failed-IsKept (ok []) refusing (ok "1234") false true (ok server) "sleeper" tables no_faults 7
      (ok waiting) (waiting ∷ [])

-- ===== src/State/DefinitionTable.antt =====
-- The tables of definitions behind state/pg_state_manager.go: GetDefinition, GetDefinitionByAlias,
-- CreateDefinition, UpdateDefinition and DeleteDefinition, with the constraints of
-- .migrations/V20200123054713__initial_table_create.sql on their rows.
pub mod Reads
pub mod Updates
pub mod Deletes
pub mod Aliases
use Prim.Native.String.{◌++◌ as text_append}
use flotilla_os.Common.{
  ℕ, ◌+◌, ℤ, Bool, true, false, not, ◌&&◌, String, List, [], ◌∷◌, ◌++◌, Option, none, some, Error,
  missing_resource, plain_error, Result, ok, err, if◌then◌else◌, ◌==◌, eq_ℤ, keep, any, map, get_or,
  string_slice_contains,
}
use flotilla_os.State.Types.{Definition, Run, ExecutableResources}
use flotilla_os.State.Validity.{definition_update_with}

-- The tables `task_def`, `task_def_ports`, `tags`, `task_def_tags` and `task`.
pub record Tables : Type 0 where
  pub definitions : List Definition
  pub ports : List (String × ℤ)
  pub tags : List String
  pub definition_tags : List (String × String)
  pub tasks : List Run

-- What may go wrong in a transaction: its start, its end, and each of its statements by number.
pub record StatementFaults : Type 0 where
  pub begin_fails : Bool
  pub exec_fails : ℕ → Bool
  pub commit_fails : Bool

abbrev pub Statement : Type 0
Statement = Tables → Option Tables

unfoldable pub run_statements : (ℕ → Bool) → ℕ → List Statement → Tables → Option Tables
run_statements fails i [] t = some t
run_statements fails i (s ∷ ss) t = elim (fails i) [
  | true ↦ none
  | false ↦ elim (s t) [ none ↦ none | some t' ↦ run_statements fails (i + 1) ss t' ]
]

-- A transaction that is rolled back, or never committed, leaves the tables as they were.
unfoldable pub transact : StatementFaults → String → List Statement → Tables → Tables × Option Error
transact faults issue ss t =
    if faults.begin_fails
    then (t, some (plain_error "begin"))
    else elim (run_statements faults.exec_fails 0 ss t) [
      | none ↦ (t, some (plain_error issue))
      | some t' ↦ if faults.commit_fails then (t, some (plain_error "commit")) else (t', none)
    ]

-- The columns of `task_def` that `INSERT` names.
unfoldable pub definition_row : Definition → Definition
definition_row d = record d {
  task_type = "";
  executable_resources = record d.executable_resources { ports = none; tags = none };
}

-- `DefinitionSelect`, which reads the same tags and ports of every definition: one empty tag, and no
-- port.
unfoldable pub select_definition : Definition → Definition
select_definition d = record d {
  executable_resources = record d.executable_resources { ports = some []; tags = some ("" ∷ []) };
}

unfoldable pub find_by : (Definition → String) → String → List Definition → Option Definition
find_by key k [] = none
find_by key k (d ∷ ds) = if key d == k then some d else find_by key k ds

-- `GetDefinition` and `GetDefinitionByAlias`. The first argument is a failure of the database.
unfoldable pub read_definition : Bool → String → Definition → Result Definition
read_definition true id d = err (plain_error (text_append "issue getting definition with id " id))
read_definition false id d = ok (select_definition d)

unfoldable pub get_definition_row : Bool → String → Tables → Result Definition
get_definition_row fails id t = elim (find_by (λ d. d.definition_id) id t.definitions) [
  | none ↦ elim fails [
    | true ↦ err (plain_error (text_append "issue getting definition with id " id))
    | false ↦
        err (missing_resource (text_append "Definition with ID " (text_append id " not found")))
  ]
  | some d ↦ read_definition fails id d
]

unfoldable pub get_definition_by_alias : Bool → String → Tables → Result Definition
get_definition_by_alias fails alias t = elim (find_by (λ d. d.alias) alias t.definitions) [
  | none ↦ elim fails [
    | true ↦ err (plain_error (text_append "issue getting definition with alias " alias))
    | false ↦
        err
          (missing_resource (text_append "Definition with alias " (text_append alias " not found")))
  ]
  | some d ↦ read_definition fails alias d
]

-- `definition_id` is the primary key of `task_def`, and `alias` is unique.
unfoldable pub insert_definition : Definition → Statement
insert_definition d t =
    if any (λ r. r.definition_id == d.definition_id) t.definitions
    then none
    else if any (λ r. r.alias == d.alias) t.definitions
    then none
    else some (record t { definitions = t.definitions ++ definition_row d ∷ [] })

-- A definition and a port are the key of `task_def_ports`.
unfoldable pub insert_port : String → ℤ → Statement
insert_port id p t =
    if any (λ r. r.0 == id && eq_ℤ r.1 p) t.ports
    then none
    else some (record t { ports = t.ports ++ (id, p) ∷ [] })

-- `INSERT INTO tags(text) SELECT … WHERE NOT EXISTS`
unfoldable pub insert_tag : String → Statement
insert_tag tag t =
    some (if string_slice_contains t.tags tag then t else record t { tags = t.tags ++ tag ∷ [] })

unfoldable pub insert_definition_tag : String → String → Statement
insert_definition_tag id tag t =
    some (record t { definition_tags = t.definition_tags ++ (id, tag) ∷ [] })

unfoldable pub delete_ports : String → Statement
delete_ports id t = some (record t { ports = keep (λ r. not (r.0 == id)) t.ports })

unfoldable pub delete_tags : String → Statement
delete_tags id t =
    some (record t { definition_tags = keep (λ r. not (r.0 == id)) t.definition_tags })

unfoldable pub delete_tasks : String → Statement
delete_tasks id t = some (record t { tasks = keep (λ r. not (r.definition_id == id)) t.tasks })

unfoldable pub delete_row : String → Statement
delete_row id t =
    some (record t { definitions = keep (λ r. not (r.definition_id == id)) t.definitions })

-- `SELECT … FOR UPDATE`
abbrev pub lock_row : Statement
lock_row t = some t

-- The columns that `UPDATE task_def SET` names, in the rows of a definition.
unfoldable pub write_definition : String → Definition → Definition → Definition
write_definition id d r =
    if r.definition_id == id
    then record r {
      alias = d.alias;
      command = d.command;
      executable_resources = record r.executable_resources {
        image = d.image;
        memory = d.memory;
        env = d.env;
        cpu = d.cpu;
        gpu = d.gpu;
        adaptive_resource_allocation = d.adaptive_resource_allocation;
      };
    }
    else r

unfoldable pub update_row_of : String → Definition → Statement
update_row_of id d t =
    if any (λ r. r.alias == d.alias && not (r.definition_id == id)) t.definitions
    then none
    else some (record t { definitions = map (write_definition id d) t.definitions })

unfoldable pub port_statements : String → List ℤ → List Statement
port_statements id [] = []
port_statements id (p ∷ ps) = insert_port id p ∷ port_statements id ps

unfoldable pub tag_statements : String → List String → List Statement
tag_statements id [] = []
tag_statements id (tag ∷ rest) =
    insert_tag tag ∷ insert_definition_tag id tag ∷ tag_statements id rest

-- The loops over the ports and the tags, for pointers that may be nil.
abbrev pub part_statements : String → Definition → List Statement
part_statements id d =
    port_statements id (get_or [] d.ports) ++ tag_statements id (get_or [] d.tags)

unfoldable pub create_definition : StatementFaults → Definition → Tables → Tables × Option Error
create_definition faults d t =
    transact faults "issue creating new task definition"
      (insert_definition d ∷ part_statements d.definition_id d) t

unfoldable pub update_statements : String → Definition → List Statement
update_statements id d =
    lock_row ∷ delete_ports id ∷ delete_tags id ∷ update_row_of id d ∷ part_statements id d

-- `UpdateDefinition`; the first argument is a failure of its read.
unfoldable pub update_definition :
    Bool → StatementFaults → String → Definition → Tables → Tables × Result Definition
update_definition fails faults id updates t = elim (get_definition_row fails id t) [
  | err e ↦ (t, err e)
  | ok existing ↦
      let d = definition_update_with existing updates in
      let (t', e) = transact faults "issue updating definition" (update_statements id d) t in
      (t', elim e [ none ↦ ok d | some e ↦ err e ])
]

unfoldable pub delete_definition : StatementFaults → String → Tables → Tables × Option Error
delete_definition faults id t =
    transact faults "issue deleting definition"
      (delete_ports id ∷ delete_tags id ∷ delete_tasks id ∷ delete_row id ∷ []) t

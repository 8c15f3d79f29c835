-- ===== src/World.antt =====
-- What the services and the workers act on: the tables that they read and write through
-- state.Manager, and what they have sent to the engines and the queue, in order.
use flotilla_os.Common.{
  Bool, true, false, String, List, [], ◌∷◌, ◌++◌, Option, none, some, ◌==◌, missing_resource,
  plain_error, Result, ok, err, if◌then◌else◌,
}
use flotilla_os.State.Types.{Run, Definition, Template}
use flotilla_os.State.TaskTable.{TxFaults, update_run}

-- A message to the outside. An engine is named by `state.EKSEngine` or `state.EKSSparkEngine`.
pub data Event : Type 0 where
  -- `Execute` of a run, by its identifier, on an engine.
  executed : String → String → Event
  -- `Done` of a receipt, by its handle.
  acked : String → Event
  -- `Enqueue` of a run on an engine; an attempt that failed is no event.
  enqueued : String → Run → Event
  -- `Terminate` of a run, by its identifier, on an engine.
  terminated : String → String → Event

pub record World : Type 0 where
  pub tasks : List Run
  pub definitions : List Definition
  pub templates : List Template
  pub events : List Event

unfoldable pub emit : Event → World → World
emit e w = record w { events = w.events ++ e ∷ [] }

find_definition : String → List Definition → Option Definition
find_definition id [] = none
find_definition id (d ∷ ds) = if d.definition_id == id then some d else find_definition id ds

find_template : String → List Template → Option Template
find_template id [] = none
find_template id (t ∷ ts) = if t.template_id == id then some t else find_template id ts

-- `GetDefinition` and `GetTemplateByID`. The first argument is a failure of the database.
unfoldable pub get_definition : Bool → String → World → Result Definition
unfolding find_definition
get_definition true id w = err (plain_error "issue getting definition")
get_definition false id w = elim (find_definition id w.definitions) [
  | none ↦ err (missing_resource "Definition not found")
  | some d ↦ ok d
]

unfoldable pub get_template_by_id : Bool → String → World → Result Template
unfolding find_template
get_template_by_id true id w = err (plain_error "issue getting tpl")
get_template_by_id false id w = elim (find_template id w.templates) [
  | none ↦ err (missing_resource "Template not found")
  | some t ↦ ok t
]

-- `UpdateRun` on the world's table.
unfoldable pub save_run : TxFaults → String → Run → World → World
save_run faults run_id updates w = record w { tasks = (update_run faults run_id updates w.tasks).0 }

-- ===== src/Services/Execution/Enqueue/Queued.antt =====
-- createFromDefinition and createAndEnqueueRun where nothing fails, and where the queue fails.
use flotilla_os.Common.{
  String, [], ◌∷◌, ◌++◌, none, some, ◌≡◌, refl, ◌∙◌, ap, Error, returns, ◌>>=◌, deref, get_elem?,
  get_or,
}
use flotilla_os.State.Constants.{eks_engine, status_queued}
use flotilla_os.State.Types.{Run, Time, Definition}
use flotilla_os.State.RunUpdate.{zero_run, update_with, update_status, status_precedence}
use flotilla_os.State.TaskTable.{
  no_faults, find_row, select_row, insert_row, write_columns, create_run,
}
use flotilla_os.State.TaskTable.Update.{find_row-update_run, update_run-no_faults}
use flotilla_os.State.TaskTable.Create.{create_run_fresh, find_row-append}
use flotilla_os.World.{World, enqueued, emit}
use flotilla_os.Services.Execution.Requests.{
  ExecutionRequestCommon, sanitize_execution_request_common_fields,
}
use flotilla_os.Services.Execution.Construct.{
  new_run_id, construct_run_from_definition, base_run, with_environ, from_definition,
}
use flotilla_os.Services.Execution.Construct.Made.{definition_run, construct_eks}
use flotilla_os.Services.Execution.Enqueue.{
  EnqueueFaults, Created, mark_queued, enqueue_run, queue_of, after_creation,
  create_and_enqueue_run, Settings, Outside, create_constructed, create_from_definition,
}

abbrev pub no_enqueue_faults : EnqueueFaults
no_enqueue_faults = record { creation = no_faults; queue = none; update = no_faults }

-- What is stored of a run that was created, queued and marked.
abbrev pub stored : (String → String) → Time → Run → Run
stored md5 now run =
    let row = insert_row md5 run in
    write_columns row (update_with (select_row row) (record zero_run { queued_at = some now }))

abbrev pub IsQueuedAt : World → String → Run → Created → Type 0
IsQueuedAt w engine row created =
    (created.2 ≡ none)
    × (find_row row.run_id created.0.tasks ≡ some row)
    × ((sent : Run) × (created.0.events ≡ w.events ++ enqueued engine sent ∷ [])
        × (sent.run_id ≡ row.run_id))

after_creation_done :
    (now : Time) (engine : String) (run : Run) (w : World)
    → run.engine ≡ some engine
    → after_creation no_enqueue_faults now run w none
      ≡ returns (mark_queued no_enqueue_faults now run (emit (enqueued (queue_of engine) run) w))
unfolding after_creation enqueue_run
after_creation_done now engine run w e =
    ap
      (λ o. deref o >>= λ n.
        returns (mark_queued no_enqueue_faults now run (emit (enqueued (queue_of n) run) w)))
      e

marked :
    (md5 : String → String) (now : Time) (engine : String) (run : Run) (w : World)
    → find_row run.run_id w.tasks ≡ none
    → IsQueuedAt w engine (stored md5 now run) (
        mark_queued no_enqueue_faults now run
          (emit (enqueued engine run) (record w { tasks = w.tasks ++ insert_row md5 run ∷ [] })))
unfolding mark_queued emit insert_row write_columns
marked md5 now engine run w fresh = (
  update_run-no_faults run.run_id (record zero_run { queued_at = some now })
      (w.tasks ++ insert_row md5 run ∷ []),
  find_row-update_run no_faults run.run_id (record zero_run { queued_at = some now }) _
      (insert_row md5 run) (find_row-append run.run_id w.tasks (insert_row md5 run) fresh refl)
      (update_run-no_faults run.run_id (record zero_run { queued_at = some now })
        (w.tasks ++ insert_row md5 run ∷ [])),
  (run, refl, refl),
)

-- A new run is, where nothing fails, saved and put into the queue of its engine exactly once, and is
-- stored with the time at which it was queued.
pub create_and_enqueue_run-IsQueuedAt :
    (md5 : String → String) (now : Time) (engine : String) (run : Run) (w : World)
    → run.engine ≡ some engine
    → find_row run.run_id w.tasks ≡ none
    → (created : Created) × (create_and_enqueue_run no_enqueue_faults md5 now run w
        ≡ returns created)
      × IsQueuedAt w (queue_of engine) (stored md5 now run) created
      × ((stored md5 now run).queued_at ≡ some now)
unfolding create_and_enqueue_run write_columns update_with
create_and_enqueue_run-IsQueuedAt md5 now engine run w e fresh = (
  mark_queued no_enqueue_faults now run (
      emit (enqueued (queue_of engine) run)
        (record w { tasks = w.tasks ++ insert_row md5 run ∷ [] })),
  ap (λ t. after_creation no_enqueue_faults now run (record w { tasks = t.0 }) t.1)
        (create_run_fresh md5 run w.tasks fresh)
      ∙ after_creation_done now engine run _ e,
  marked md5 now (queue_of engine) run w fresh,
  refl,
)

enqueue_run_refused :
    (faults : EnqueueFaults) (now : Time) (engine : String) (run : Run) (v : World) (e : Error)
    → faults.queue ≡ some e
    → enqueue_run faults now engine run v ≡ (v, run, some e)
unfolding enqueue_run
enqueue_run_refused faults now engine run v e refused = rw refused

queue_refused :
    (faults : EnqueueFaults) (now : Time) (engine : String) (run : Run) (v : World) (e : Error)
    → run.engine ≡ some engine
    → faults.queue ≡ some e
    → after_creation faults now run v none ≡ returns (v, run, some e)
unfolding after_creation
queue_refused faults now engine run v e on refused =
    ap (λ o. deref o >>= λ n. returns (enqueue_run faults now (queue_of n) run v)) on
    ∙ ap returns (enqueue_run_refused faults now (queue_of engine) run v e refused)

-- A new run that is saved but that the queue then refuses stays in the table as it was saved, with no
-- message about it: the caller gets the queue's error, and the row has the status and the empty time
-- of the run that was given.
create_and_enqueue_run_refused :
    (faults : EnqueueFaults) (md5 : String → String) (now : Time) (engine : String) (run : Run)
    (w : World) (e : Error)
    → run.engine ≡ some engine
    → find_row run.run_id w.tasks ≡ none
    → faults.creation ≡ no_faults
    → faults.queue ≡ some e
    → (w' : World) × (create_and_enqueue_run faults md5 now run w ≡ returns (w', run, some e))
      × (find_row run.run_id w'.tasks ≡ some (insert_row md5 run))
      × ((insert_row md5 run).status ≡ run.status)
      × ((insert_row md5 run).queued_at ≡ run.queued_at)
      × (w'.events ≡ w.events)
unfolding create_and_enqueue_run insert_row
create_and_enqueue_run_refused faults md5 now engine run w e on fresh fine refused =
    let w' = record w { tasks = w.tasks ++ insert_row md5 run ∷ [] } in
    (
      w',
      ap (λ t. after_creation faults now run (record w { tasks = t.0 }) t.1)
            (ap (λ f. create_run f md5 run w.tasks) fine ∙ create_run_fresh md5 run w.tasks fresh)
          ∙ queue_refused faults now engine run w' e on refused,
      find_row-append run.run_id w.tasks (insert_row md5 run) fresh refl,
      refl,
      refl,
      refl,
    )

-- The request as `createFromDefinition` prepares it.
abbrev pub prepared : Settings → String → ExecutionRequestCommon → ExecutionRequestCommon
prepared settings cluster request =
    sanitize_execution_request_common_fields settings.eks_spot_override
      (record request { cluster_name = cluster })

prepared_engine :
    (settings : Settings) (cluster : String) (request : ExecutionRequestCommon)
    → get_or eks_engine request.engine ≡ eks_engine
    → (prepared settings cluster request).engine ≡ some eks_engine
unfolding sanitize_execution_request_common_fields
prepared_engine settings cluster request h = ap some h

create_from_definition_done :
    (settings : Settings) (outside : Outside) (d : Definition) (request : ExecutionRequestCommon)
    (w : World) (cluster run_id : String)
    → get_elem? settings.eks_cluster_override outside.pick ≡ some cluster
    → get_or eks_engine request.engine ≡ eks_engine
    → new_run_id eks_engine outside.uuid ≡ returns run_id
    → create_from_definition settings outside d request w
      ≡ create_and_enqueue_run outside.faults outside.md5 outside.now
          (definition_run settings.reserved_env outside.history run_id d
            (prepared settings cluster request))
          w
unfolding create_from_definition create_constructed
create_from_definition_done settings outside d request w cluster run_id picked eks made =
    ap
      (λ c. deref c >>= λ cluster.
        construct_run_from_definition settings.reserved_env outside.history outside.uuid d
          (prepared settings cluster request)
        >>= λ run. create_constructed outside run w)
      picked
    ∙ ap (λ g. g >>= λ run. create_constructed outside run w)
        (construct_eks settings.reserved_env outside.history outside.uuid d
          (prepared settings cluster request) run_id (prepared_engine settings cluster request eks)
          made)

-- A request for a run of a definition on the EKS engine, where nothing fails and the new
-- identifier is not in the table yet, is answered without an error and without a panic: a run with
-- that identifier is in the table, queued, on one of the clusters of the settings, with the time
-- at which it was queued, and one message about it is put into the queue.
pub create_from_definition-queued :
    (settings : Settings) (outside : Outside) (d : Definition) (request : ExecutionRequestCommon)
    (w : World) (cluster run_id : String)
    → get_elem? settings.eks_cluster_override outside.pick ≡ some cluster
    → get_or eks_engine request.engine ≡ eks_engine
    → new_run_id eks_engine outside.uuid ≡ returns run_id
    → find_row run_id w.tasks ≡ none
    → outside.faults ≡ no_enqueue_faults
    → (created : Created) × (create_from_definition settings outside d request w ≡ returns created)
      × ((row : Run) × IsQueuedAt w eks_engine row created
          × (row.run_id ≡ run_id)
          × (row.status ≡ status_queued)
          × (row.cluster_name ≡ cluster)
          × (row.queued_at ≡ some outside.now)
          × (row.definition_id ≡ d.definition_id))
unfolding base_run from_definition with_environ sanitize_execution_request_common_fields insert_row
    select_row write_columns update_with update_status status_precedence
create_from_definition-queued settings outside d request w cluster run_id picked eks made fresh
      fine =
    let fields = prepared settings cluster request in
    let run = definition_run settings.reserved_env outside.history run_id d fields in
    let (created, done, queued, marked_at) =
      create_and_enqueue_run-IsQueuedAt outside.md5 outside.now eks_engine run w
        (prepared_engine settings cluster request eks) fresh in
    (
      created,
      create_from_definition_done settings outside d request w cluster run_id picked eks made
          ∙ ap (λ f. create_and_enqueue_run f outside.md5 outside.now run w) fine
          ∙ done,
      (stored outside.md5 outside.now run, queued, refl, refl, refl, refl, refl),
    )

-- ===== src/Flotilla/Launches/Queued.antt =====
-- A request for a run that is accepted is queued.
use flotilla_os.Common.{
  true, false, String, [], ◌∷◌, ◌++◌, Option, none, some, ok, returns, ◌≡◌, refl, ◌∙◌, ap, subst,
  arith, get_elem?, is_empty,
}
use flotilla_os.State.Constants.{eks_engine, status_queued}
use flotilla_os.State.Types.{Run, Definition}
use flotilla_os.State.TaskTable.{find_row}
use flotilla_os.World.{World, enqueued, get_definition}
use flotilla_os.Services.Execution.Requests.{ExecutionRequestCommon, LifecycleRef, request_text}
use flotilla_os.Services.Execution.Construct.{new_run_id}
use flotilla_os.Services.Execution.Enqueue.{Settings, Outside, Created, create_from_definition}
use flotilla_os.Services.Execution.Enqueue.Queued.{no_enqueue_faults, create_from_definition-queued}
use flotilla_os.Flotilla.Answers.{answered, decoded}
use flotilla_os.Flotilla.Launches.{
  LaunchRequestV2, engine_of_request, checked_lifecycle, v4_common, v4_request,
  create_definition_run_by_definition_id, respond, launch_run, create_run_v4,
}
use flotilla_os.Flotilla.Launches.Refused.{lifecycle_known, accepts}

checked_known :
    (o : Option String)
    → lifecycle_known o ≡ true
    → (l : LifecycleRef) × (checked_lifecycle o ≡ ok l)
unfolding checked_lifecycle
checked_known none h = (request_text "spot", refl)
checked_known (some s) h = (request_text s, rw (h, checked_lifecycle) refl)

v4_accepted :
    (lr : LaunchRequestV2)
    → accepts lr ≡ true
    → (l : LifecycleRef) × (v4_request lr ≡ ok (v4_common lr l))
unfolding v4_request
v4_accepted lr h =
    let (l, checked) = checked_known lr.node_lifecycle (ground arith) in
    let owned : is_empty lr.run_tags.owner_id ≡ false = ground arith in
    (l, rw (owned, checked, v4_request) refl)

by_definition :
    (settings : Settings) (outside : Outside) (id : String) (d : Definition)
    (req : ExecutionRequestCommon) (w : World)
    → get_definition false id w ≡ ok d
    → create_definition_run_by_definition_id settings outside false id req w
      ≡ create_from_definition settings outside d req w
unfolding create_definition_run_by_definition_id
by_definition settings outside id d req w found =
    rw (found, create_definition_run_by_definition_id) refl

v4_launch :
    (settings : Settings) (outside : Outside) (lr : LaunchRequestV2) (id : String)
    (l : LifecycleRef) (created : Created) (w : World)
    → v4_request lr ≡ ok (v4_common lr l)
    → create_definition_run_by_definition_id settings outside false id (v4_common lr l) w
      ≡ returns created
    → create_run_v4 settings outside false (ok lr) id w ≡ returns (respond created)
unfolding create_run_v4 launch_run decoded
v4_launch settings outside lr id l created w made done =
    rw (made, done, create_run_v4, launch_run) refl

responded :
    (created : Created) → created.2 ≡ none → respond created ≡ (created.0, answered created.1)
unfolding respond
responded (w, run, none) h = refl
responded (w, run, some e) h = cc

-- A request to the fourth version that is accepted, for a definition that exists and the EKS engine, is
-- answered with a run, if the service has a cluster, the identifier is new, and nothing refuses a call: the
-- run is in the table as QUEUED, with the definition and the cluster, and its message is put into the queue
-- of the engine.
pub create_run_v4-queued :
    (settings : Settings) (outside : Outside) (lr : LaunchRequestV2) (id : String) (d : Definition)
    (w : World) (cluster run_id : String)
    → accepts lr ≡ true
    → engine_of_request lr.engine lr.spark_extension ≡ eks_engine
    → get_definition false id w ≡ ok d
    → get_elem? settings.eks_cluster_override outside.pick ≡ some cluster
    → new_run_id eks_engine outside.uuid ≡ returns run_id
    → find_row run_id w.tasks ≡ none
    → outside.faults ≡ no_enqueue_faults
    → (w' : World) × (run : Run) × (create_run_v4 settings outside false (ok lr) id w
        ≡ returns (w', answered run))
      × (row : Run) × (find_row run_id w'.tasks ≡ some row)
      × (row.status ≡ status_queued)
      × (row.definition_id ≡ d.definition_id)
      × (row.cluster_name ≡ cluster)
      × (sent : Run) × (w'.events ≡ w.events ++ enqueued eks_engine sent ∷ [])
      × (sent.run_id ≡ run_id)
create_run_v4-queued settings outside lr id d w cluster run_id accepted eks found picked made fresh
      fine =
    let (l, request) = v4_accepted lr accepted in
    let (created, done, queued) =
      create_from_definition-queued settings outside d (v4_common lr l) w cluster run_id picked eks
        made fresh fine in
    let (row, at, same_id, status, on_cluster, _, definition) = queued in
    let (no_error, stored, sent) = at in
    (
      created.0,
      created.1,
      v4_launch settings outside lr id l created w request
            (by_definition settings outside id d (v4_common lr l) w found ∙ done)
          ∙ ap returns (responded created no_error),
      row,
      subst (λ k. find_row k created.0.tasks ≡ some row) same_id stored,
      status,
      definition,
      on_cluster,
      sent.0,
      sent.1,
      sent.2 ∙ same_id,
    )

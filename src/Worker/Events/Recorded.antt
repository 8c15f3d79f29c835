-- ===== src/Worker/Events/Recorded.antt =====
-- The events that a run has.
use flotilla_os.Common.{
  Bool, true, false, not, ◌&&◌, String, List, [], ◌∷◌, ◌++◌, Option, none, some, ◌≡◌, ◌≢◌, ◌⊎◌, inl,
  inr, refl, ◌∙◌, ap, arith, ◌==◌, starts_with, is_empty, get_or, returns, is_none, Bool-cases,
  Option-cases,
}
use flotilla_os.State.Types.{Run, Time, PodEvent}
use flotilla_os.State.EventTypes.{KubernetesEvent}
use flotilla_os.Worker.Events.PodNames.{parse_pod_name}
use flotilla_os.State.RunUpdate.{update_with}
use flotilla_os.State.TaskTable.{
  find_row, get_run, select_row, write_columns, update_run, scan_rows,
}
use flotilla_os.State.TaskTable.Update.{
  find_row-update_run, get_run_found, update_run_error_unchanged,
}
use flotilla_os.Queue.{Delivered}
use flotilla_os.World.{World, acked, emit, save_run}
use flotilla_os.Worker.Events.{
  EventsWorker, EventOutcome, stamp_of, pod_event, with_pod_event, with_pod_name, with_end,
  set_eks_metrics_uri, event_update, acknowledge, record_event, record_in_run, process_event,
}

-- An event of a job of the EKS engine, whose message can be acknowledged.
abbrev pub IsEksMessage : String → Delivered KubernetesEvent → Type 0
IsEksMessage handle d =
    (starts_with d.event.involved_object.job_name "eks" ≡ true)
    × (d.done ≡ some (some handle))
    × (is_empty handle ≡ false)

with_pod_name_events :
    (e : KubernetesEvent) (run : Run) → (with_pod_name e run).pod_events ≡ run.pod_events
unfolding with_pod_name
with_pod_name_events e run = elim (Bool-cases (e.reason == "Scheduled")) [
  | inr other ↦ rw (other, with_pod_name) refl
  | inl scheduled ↦ elim (Option-cases (parse_pod_name e.message)) [
    | inl unnamed ↦ rw (scheduled, unnamed, with_pod_name) refl
    | inr (name, named) ↦ rw (scheduled, named, with_pod_name) refl
  ]
]

with_end_events :
    (stamp : Time) (e : KubernetesEvent) (run : Run)
    → (with_end stamp e run).pod_events ≡ run.pod_events
unfolding with_end
with_end_events stamp e run = ground arith

event_update_events :
    (ew : EventsWorker) (outcome : EventOutcome) (e : KubernetesEvent) (run : Run)
    → (event_update ew outcome e run).pod_events
      ≡ some (get_or [] run.pod_events ++ pod_event (stamp_of outcome) e ∷ [])
unfolding set_eks_metrics_uri
event_update_events ew outcome e run =
    with_end_events (stamp_of outcome) e (with_pod_name e (with_pod_event (stamp_of outcome) e run))
    ∙ with_pod_name_events e (with_pod_event (stamp_of outcome) e run)

-- The database refuses nothing of an event.
unfoldable pub takes : EventOutcome → Bool
takes outcome =
    not outcome.read_fails
    && not outcome.update.begin_fails
    && not outcome.update.query_fails
    && is_none outcome.update.scan_fails
    && not outcome.update.exec_fails
    && not outcome.update.commit_fails

update_run_taken :
    (outcome : EventOutcome) (run_id : String) (updates : Run) (rows : List Run)
    → takes outcome ≡ true
    → (update_run outcome.update run_id updates rows).2 ≡ none
unfolding takes update_run scan_rows
update_run_taken outcome run_id updates rows h = ground arith

update_run_not_taken :
    (outcome : EventOutcome) (run_id : String) (updates : Run) (rows : List Run) (row : Run)
    → takes outcome ≡ false
    → outcome.read_fails ≡ false
    → find_row run_id rows ≡ some row
    → (update_run outcome.update run_id updates rows).2 ≢ none
unfolding takes update_run scan_rows
update_run_not_taken outcome run_id updates rows row h read found = ground arith

pub process_eks_event :
    (ew : EventsWorker) (outcome : EventOutcome) (labels : Option (List (String × String)))
    (d : Delivered KubernetesEvent) (w : World)
    → starts_with d.event.involved_object.job_name "eks" ≡ true
    → process_event ew outcome labels d w ≡ record_in_run ew outcome d w
unfolding process_event
process_eks_event ew outcome labels d w h = rw (h, process_event) refl

pub acknowledged :
    (handle : String) (ack : Option (Option String)) (w : World)
    → ack ≡ some (some handle)
    → is_empty handle ≡ false
    → acknowledge ack w ≡ returns (emit (acked handle) w)
unfolding acknowledge
acknowledged handle ack w same given = rw (same, given, acknowledge) refl

record_event_taken :
    (ew : EventsWorker) (outcome : EventOutcome) (handle : String) (d : Delivered KubernetesEvent)
    (run : Run) (w : World)
    → IsEksMessage handle d
    → takes outcome ≡ true
    → record_event ew outcome d run w
      ≡ returns (
          emit (acked handle) (
            save_run outcome.update d.event.involved_object.job_name
              (event_update ew outcome d.event run)
              w))
unfolding record_event
record_event_taken ew outcome handle d run w (prefix, has_handle, given) h =
    let updates = event_update ew outcome d.event run in
    let job = d.event.involved_object.job_name in
    rw (update_run_taken outcome job updates w.tasks h, record_event)
      (acknowledged handle d.done (save_run outcome.update job updates w) has_handle given)

record_event_refused :
    (ew : EventsWorker) (outcome : EventOutcome) (d : Delivered KubernetesEvent) (run : Run)
    (w : World)
    → (update_run outcome.update d.event.involved_object.job_name
        (event_update ew outcome d.event run)
        w.tasks).2
      ≢ none
    → record_event ew outcome d run w ≡ returns w
unfolding record_event save_run
record_event_refused ew outcome d run w h =
    let updates = event_update ew outcome d.event run in
    let job = d.event.involved_object.job_name in
    elim (Option-cases (update_run outcome.update job updates w.tasks).2) [
      | inl done ↦ absurd (h done)
      | inr (e, failed) ↦
          rw
            (
              failed,
              update_run_error_unchanged outcome.update job updates w.tasks e failed,
              record_event,
            )
            refl
    ]

-- What an event comes to: it is the last one of its run and its message is acknowledged, if the database
-- refuses nothing; otherwise nothing has happened.
abbrev pub IsRecorded :
    EventOutcome → String → Delivered KubernetesEvent → Run → World → World → Type 0
IsRecorded outcome handle d row w w' =
    ((takes outcome ≡ true)
      × (w'.events ≡ w.events ++ acked handle ∷ [])
      × (row' : Run) × (find_row d.event.involved_object.job_name w'.tasks ≡ some row')
      × (row'.pod_events
          ≡ some (get_or [] row.pod_events ++ pod_event (stamp_of outcome) d.event ∷ [])))
    ⊎ ((takes outcome ≡ false) × (w' ≡ w))

written_events :
    (row updates : Run) (events : List PodEvent)
    → updates.pod_events ≡ some events
    → (write_columns row (update_with (select_row row) updates)).pod_events ≡ some events
unfolding write_columns update_with
written_events row updates events h = rw (h) refl

unread :
    (ew : EventsWorker) (outcome : EventOutcome) (d : Delivered KubernetesEvent) (w : World)
    → outcome.read_fails ≡ true
    → record_in_run ew outcome d w ≡ returns w
unfolding record_in_run get_run
unread ew outcome d w h = rw (h, record_in_run) refl

read_row :
    (ew : EventsWorker) (outcome : EventOutcome) (d : Delivered KubernetesEvent) (row : Run)
    (w : World)
    → outcome.read_fails ≡ false
    → find_row d.event.involved_object.job_name w.tasks ≡ some row
    → record_in_run ew outcome d w ≡ record_event ew outcome d (select_row row) w
unfolding record_in_run
read_row ew outcome d row w h found =
    rw
      (
        ap (λ fails. get_run fails d.event.involved_object.job_name w.tasks) h
            ∙ get_run_found d.event.involved_object.job_name w.tasks row found,
        record_in_run,
      )
      refl

taken-read : (outcome : EventOutcome) → takes outcome ≡ true → outcome.read_fails ≡ false
unfolding takes
taken-read outcome h = ground arith

unread-not_taken : (outcome : EventOutcome) → outcome.read_fails ≡ true → takes outcome ≡ false
unfolding takes
unread-not_taken outcome h = ground arith

-- The event of a run in the table, when it is taken.
taken_event :
    (ew : EventsWorker) (outcome : EventOutcome) (handle : String) (d : Delivered KubernetesEvent)
    (row : Run) (w : World)
    → IsEksMessage handle d
    → takes outcome ≡ true
    → find_row d.event.involved_object.job_name w.tasks ≡ some row
    → (w' : World) × (record_in_run ew outcome d w ≡ returns w')
      × IsRecorded outcome handle d row w w'
unfolding emit save_run select_row
taken_event ew outcome handle d row w is h found =
    let job = d.event.involved_object.job_name in
    let updates = event_update ew outcome d.event (select_row row) in
    (
      emit (acked handle) (save_run outcome.update job updates w),
      read_row ew outcome d row w (taken-read outcome h) found
          ∙ record_event_taken ew outcome handle d (select_row row) w is h,
      inl (
        h,
        refl,
        write_columns row (update_with (select_row row) updates),
        find_row-update_run outcome.update job updates w.tasks row found
            (update_run_taken outcome job updates w.tasks h),
        written_events row updates
            (get_or [] row.pod_events ++ pod_event (stamp_of outcome) d.event ∷ [])
            (event_update_events ew outcome d.event (select_row row)),
      ),
    )

refused_event :
    (ew : EventsWorker) (outcome : EventOutcome) (d : Delivered KubernetesEvent) (row : Run)
    (w : World)
    → takes outcome ≡ false
    → find_row d.event.involved_object.job_name w.tasks ≡ some row
    → record_in_run ew outcome d w ≡ returns w
refused_event ew outcome d row w h found = elim (Bool-cases outcome.read_fails) [
  | inl failed ↦ unread ew outcome d w failed
  | inr read ↦
      let job = d.event.involved_object.job_name in
      let updates = event_update ew outcome d.event (select_row row) in
      read_row ew outcome d row w read found
      ∙ record_event_refused ew outcome d (select_row row) w
          (update_run_not_taken outcome job updates w.tasks row h read found)
]

-- An event of a run of the EKS engine that is in the table is added to the end of the run's events and its
-- message is acknowledged, or nothing happens at all: the first if and only if the database refuses neither
-- the read nor the update.
pub process_event-IsRecorded :
    (ew : EventsWorker) (outcome : EventOutcome) (labels : Option (List (String × String)))
    (handle : String) (d : Delivered KubernetesEvent) (row : Run) (w : World)
    → IsEksMessage handle d
    → find_row d.event.involved_object.job_name w.tasks ≡ some row
    → (w' : World) × (process_event ew outcome labels d w ≡ returns w')
      × IsRecorded outcome handle d row w w'
process_event-IsRecorded ew outcome labels handle d row w is found =
    elim (Bool-cases (takes outcome)) [
      | inl h ↦
          let (w', e, recorded) = taken_event ew outcome handle d row w is h found in
          (w', process_eks_event ew outcome labels d w is.0 ∙ e, recorded)
      | inr h ↦ (
        w,
        process_eks_event ew outcome labels d w is.0 ∙ refused_event ew outcome d row w h found,
        inr (h, refl),
      )
    ]

-- ===== src/Worker/Events/Sequence.antt =====
-- Every event that is taken is in its run, in the order of arrival, whatever happens to the events of others.
use flotilla_os.Common.{
  true, false, ◌&&◌, String, List, [], ◌∷◌, ◌++◌, Option, some, ◌≡◌, ◌≢◌, inl, inr, refl, sym, ◌∙◌,
  ap, subst, arith, ◌==◌, eq_iff, get_or, Go, returns, ◌>>=◌, All, keep, map, Bool-cases,
  Option-cases, Result-cases, append_assoc, append-nil,
}
use flotilla_os.State.Types.{Run, PodEvent}
use flotilla_os.State.EventTypes.{KubernetesEvent}
use flotilla_os.State.TaskTable.{find_row, get_run, update_run}
use flotilla_os.State.TaskTable.Update.{different, find_row-update_run_ne}
use flotilla_os.Queue.{Delivered}
use flotilla_os.World.{World, acked, emit, save_run}
use flotilla_os.Worker.Events.{
  EventsWorker, EventOutcome, stamp_of, pod_event, event_update, record_event, record_in_run,
  process_event,
}
use flotilla_os.Worker.Events.Recorded.{
  IsEksMessage, takes, IsRecorded, process_event-IsRecorded, process_eks_event, acknowledged,
}

-- An event with what it meets.
pub record EventInput : Type 0 where
  pub outcome : EventOutcome
  pub labels : Option (List (String × String))
  pub handle : String
  pub delivered : Delivered KubernetesEvent

-- The rounds of the worker, one event each.
unfoldable pub process_events : EventsWorker → List EventInput → World → Go World
process_events ew [] w = returns w
process_events ew (i ∷ is) w =
    process_event ew i.outcome i.labels i.delivered w >>= process_events ew is

-- The events of a run that were taken, as they are written.
abbrev pub events_of : String → List EventInput → List PodEvent
events_of run_id is =
    map (λ i. pod_event (stamp_of i.outcome) i.delivered.event)
      (keep (λ i. takes i.outcome && i.delivered.event.involved_object.job_name == run_id) is)

-- The event of another run.
other_event :
    (ew : EventsWorker) (outcome : EventOutcome) (handle run_id : String)
    (d : Delivered KubernetesEvent) (w : World)
    → IsEksMessage handle d
    → d.event.involved_object.job_name ≢ run_id
    → (w' : World) × (record_in_run ew outcome d w ≡ returns w')
      × (find_row run_id w'.tasks ≡ find_row run_id w.tasks)
unfolding record_in_run record_event emit save_run
other_event ew outcome handle run_id d w (_, has_handle, given) apart =
    let job = d.event.involved_object.job_name in
    elim (Result-cases (get_run outcome.read_fails job w.tasks)) [
      | inr (e, absent) ↦ (w, rw (absent, record_in_run) refl, refl)
      | inl (run, found) ↦
          let updates = event_update ew outcome d.event run in
          let w' = save_run outcome.update job updates w in
          let kept = find_row-update_run_ne outcome.update job run_id updates w.tasks apart in
          elim (Option-cases (update_run outcome.update job updates w.tasks).2) [
            | inr (e, failed) ↦ (w', rw (found, failed, record_in_run, record_event) refl, kept)
            | inl done ↦ (
              emit (acked handle) w',
              rw (found, done, record_in_run, record_event)
                  (acknowledged handle d.done w' has_handle given),
              kept,
            )
          ]
    ]

events_of-cons :
    (run_id : String) (i : EventInput) (is : List EventInput)
    → events_of run_id (i ∷ is) ≡ events_of run_id (i ∷ []) ++ events_of run_id is
events_of-cons run_id i is =
    elim (Bool-cases (takes i.outcome && i.delivered.event.involved_object.job_name == run_id)) [
      | inl kept ↦ rw (kept) refl
      | inr left_out ↦ rw (left_out) refl
    ]

events_of-none :
    (run_id : String) (i : EventInput)
    → (takes i.outcome && i.delivered.event.involved_object.job_name == run_id) ≡ false
    → events_of run_id (i ∷ []) ≡ []
events_of-none run_id i h = rw (h) refl

events_of-one :
    (run_id : String) (i : EventInput)
    → (takes i.outcome && i.delivered.event.involved_object.job_name == run_id) ≡ true
    → events_of run_id (i ∷ []) ≡ pod_event (stamp_of i.outcome) i.delivered.event ∷ []
events_of-one run_id i h = rw (h) refl

-- The row of a run has these events after those that it had.
abbrev pub HasAdded : String → Run → List PodEvent → World → Type 0
HasAdded run_id row events w' =
    (row' : Run) × (find_row run_id w'.tasks ≡ some row')
    × (get_or [] row'.pod_events ≡ get_or [] row.pod_events ++ events)

kept_row :
    (run_id : String) (row : Run) (events : List PodEvent) (w' : World)
    → events ≡ []
    → find_row run_id w'.tasks ≡ some row
    → HasAdded run_id row events w'
kept_row run_id row events w' nothing found = (
  row,
  found,
  sym (ap (λ es. get_or [] row.pod_events ++ es) nothing ∙ append-nil (get_or [] row.pod_events)),
)

recorded-HasAdded :
    (run_id : String) (i : EventInput) (row : Run) (w w' : World)
    → (i.delivered.event.involved_object.job_name == run_id) ≡ true
    → find_row run_id w.tasks ≡ some row
    → IsRecorded i.outcome i.handle i.delivered row w w'
    → HasAdded run_id row (events_of run_id (i ∷ [])) w'
recorded-HasAdded run_id i row w w' same found (inl (h, _, row', found', events)) = (
  row',
  subst (λ k. find_row k w'.tasks ≡ some row')
      ((eq_iff i.delivered.event.involved_object.job_name run_id).0 same) found',
  ap (get_or []) events
      ∙ ap (λ es. get_or [] row.pod_events ++ es) (sym (events_of-one run_id i (ground arith))),
)
recorded-HasAdded run_id i row w w' same found (inr (h, unchanged)) =
    kept_row run_id row (events_of run_id (i ∷ [])) w' (events_of-none run_id i (ground arith))
      (rw (unchanged) found)

abbrev pub IsEksInput : EventInput → Type 0
IsEksInput i = IsEksMessage i.handle i.delivered

one_event :
    (ew : EventsWorker) (run_id : String) (i : EventInput) (row : Run) (w : World)
    → IsEksInput i
    → find_row run_id w.tasks ≡ some row
    → (w' : World) × (process_event ew i.outcome i.labels i.delivered w ≡ returns w')
      × HasAdded run_id row (events_of run_id (i ∷ [])) w'
one_event ew run_id i row w is found =
    let job = i.delivered.event.involved_object.job_name in
    elim (Bool-cases (job == run_id)) [
      | inl same ↦
          let here =
            subst (λ k. find_row k w.tasks ≡ some row) (sym ((eq_iff job run_id).0 same)) found in
          let (w', e, recorded) =
            process_event-IsRecorded ew i.outcome i.labels i.handle i.delivered row w is here in
          (w', e, recorded-HasAdded run_id i row w w' same found recorded)
      | inr apart ↦
          let (w', e, kept) =
            other_event ew i.outcome i.handle run_id i.delivered w is
              (different job run_id apart) in
          (
            w',
            process_eks_event ew i.outcome i.labels i.delivered w is.0 ∙ e,
            kept_row run_id row (events_of run_id (i ∷ [])) w'
                (events_of-none run_id i (ground arith)) (kept ∙ found),
          )
    ]

-- When messages about jobs of the EKS engine have been processed, the events of a run in the table are those
-- that it had and then those of its own messages for which the database refuses neither the read nor the
-- update, in the order of arrival, whatever happens with the messages of other runs.
pub process_events-HasAdded :
    (ew : EventsWorker) (run_id : String) (is : List EventInput) (row : Run) (w : World)
    → All IsEksInput is
    → find_row run_id w.tasks ≡ some row
    → (w' : World) × (process_events ew is w ≡ returns w')
      × HasAdded run_id row (events_of run_id is) w'
unfolding process_events
process_events-HasAdded ew run_id [] row w all found =
    (w, refl, kept_row run_id row [] w refl found)
process_events-HasAdded ew run_id (i ∷ is) row w (first, rest) found =
    let (w₁, e₁, head) = one_event ew run_id i row w first found in
    let (row₁, found₁, added₁) = head in
    let (w', e', tail) = process_events-HasAdded ew run_id is row₁ w₁ rest found₁ in
    let (row', found', added') = tail in
    (
      w',
      ap (λ r. r >>= process_events ew is) e₁ ∙ e',
      (
        row',
        found',
        added'
            ∙ ap (λ es. es ++ events_of run_id is) added₁
            ∙ append_assoc (get_or [] row.pod_events) (events_of run_id (i ∷ []))
                (events_of run_id is)
            ∙ ap (λ es. get_or [] row.pod_events ++ es) (sym (events_of-cons run_id i is)),
      ),
    )

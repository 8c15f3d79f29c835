-- ===== src/Examples/Events.antt =====
-- The theorems on the events worker, at the events of a run.
use flotilla_os.Common.{ℕ, pos, true, false, String, List, [], ◌∷◌, none, some, ◌≡◌, refl, returns}
use flotilla_os.State.EventTypes.{KubernetesEvent, no_kubernetes_event, no_object}
use flotilla_os.State.TaskTable.{no_faults, find_row}
use flotilla_os.Queue.{Delivered}
use flotilla_os.World.{World}
use flotilla_os.Worker.Events.{EventsWorker, EventOutcome, process_event}
use flotilla_os.Worker.Events.PodNames.{
  parse_pod_name, name_here, strip, dashed_words, take_word, is_word_char,
}
use flotilla_os.Worker.Events.Recorded.{IsRecorded, process_event-IsRecorded}
use flotilla_os.Worker.Events.Sequence.{
  EventInput, process_events, events_of, HasAdded, process_events-HasAdded,
}
use flotilla_os.Examples.Data.{active, world}

abbrev worker : EventsWorker
worker = record {
  emr_history_server = "history";
  emr_metrics_server = "emr?";
  eks_metrics_server = "eks?";
  emr_max_pod_events = pos 2000;
}

abbrev seen : ℕ → EventOutcome
seen now = record {
  parsed = none;
  stamped_at = now;
  from_now = now;
  to_now = now;
  job_read_fails = false;
  job_update = no_faults;
  read_fails = false;
  update = no_faults;
}

abbrev message_about : String → String → String → Delivered KubernetesEvent
message_about job reason handle = record {
  event = record no_kubernetes_event {
    reason = reason;
    message = "Created pod: eks-a-b-c-d-e-f";
    involved_object = record no_object { kind = "Job"; job_name = job };
  };
  done = some (some handle);
}

process_event_example :
    (w' : World) × (process_event worker (seen 7) none (message_about "eks-2" "Completed" "h") world
      ≡ returns w')
    × IsRecorded (seen 7) "h" (message_about "eks-2" "Completed" "h") active world w'
unfolding find_row
process_event_example =
    process_event-IsRecorded worker (seen 7) none "h" (message_about "eks-2" "Completed" "h") active
      world (refl, refl, refl) refl

abbrev input : EventOutcome → String → String → String → EventInput
input outcome job reason handle = record {
  outcome = outcome;
  labels = none;
  handle = handle;
  delivered = message_about job reason handle;
}

-- The second event of the run is refused by the database.
abbrev inputs : List EventInput
inputs =
    input (seen 5) "eks-2" "Scheduled" "a"
    ∷ input (record (seen 6) { read_fails = true }) "eks-2" "Pulled" "b"
    ∷ input (seen 7) "eks-1" "Scheduled" "c"
    ∷ input (seen 8) "eks-2" "Completed" "d"
    ∷ []

process_events_example :
    (w' : World) × (process_events worker inputs world ≡ returns w')
    × HasAdded "eks-2" active (events_of "eks-2" inputs) w'
unfolding find_row
process_events_example =
    process_events-HasAdded worker "eks-2" inputs active world
      ((refl, refl, refl), ((refl, refl, refl), ((refl, refl, refl), ((refl, refl, refl), tt))))
      refl

pod_names :
    (parse_pod_name "Created pod: eks-1a-b-c-d-e-f_g-rest" ≡ some "eks-1a-b-c-d-e-f_g")
    × (parse_pod_name "Created eks-1-2" ≡ none)
unfolding parse_pod_name name_here strip dashed_words take_word is_word_char
pod_names = (refl, refl)

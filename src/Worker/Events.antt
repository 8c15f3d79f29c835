-- ===== src/Worker/Events.antt =====
-- worker/events_worker.go: the events of Kubernetes and of EMR are written into their runs. Log lines are
-- left out, as are the names of the queues and the start of the Kubernetes client.
pub mod PodNames
pub mod Recorded
pub mod Sequence
use Prim.Native.String.{◌++◌ as text_append}
use flotilla_os.Common.{
  ℕ, ◌+◌, ◌-◌, ◌/◌, ℤ, pos, negsuc, Bool, true, false, String, List, [], ◌∷◌, ◌++◌, Option, none,
  some, Error, Result, ok, err, if◌then◌else◌, ◌==◌, leb, starts_with, is_empty, get_or, length, Go,
  returns, panics, deref, ◌>>=◌,
}
use flotilla_os.Common.Decimal.{decimal}
use flotilla_os.Common.Int64.{ltb_ℤ}
use flotilla_os.State.Constants.{status_stopped, status_running, status_pending, eks_spark_engine}
use flotilla_os.State.Types.{Run, Time, PodEvent, SparkExtension}
use flotilla_os.State.EventTypes.{KubernetesEvent, EmrEvent, Detail}
use flotilla_os.State.TaskTable.{TxFaults, get_run, update_run, get_run_by_emr_job_id}
use flotilla_os.Queue.{Delivered}
use flotilla_os.World.{World, emit, acked, terminated, save_run}
use flotilla_os.Worker.Events.PodNames.{parse_pod_name}

-- The fields of `eventsWorker` that are read.
pub record EventsWorker : Type 0 where
  pub emr_history_server : String
  pub emr_metrics_server : String
  pub eks_metrics_server : String
  pub emr_max_pod_events : ℤ

-- What else one event meets: what `time.Parse` reads of its time, what `time.Now` gives for the event
-- and for the two ends of the metrics, and what the database refuses.
pub record EventOutcome : Type 0 where
  pub parsed : Option Time
  pub stamped_at : Time
  pub from_now : Time
  pub to_now : Time
  pub job_read_fails : Bool
  pub job_update : TxFaults
  pub read_fails : Bool
  pub update : TxFaults

abbrev pub stamp_of : EventOutcome → Time
stamp_of outcome = get_or outcome.stamped_at outcome.parsed

abbrev pub one_minute : ℕ
one_minute = 60000000000

-- `t.Add(time.Minute*1).UnixNano()/1000000`
abbrev pub minute_after : Time → String
minute_after t = decimal ((t + one_minute) / 1000000)

-- `t.Add(-1*time.Minute*1).UnixNano()/1000000`, whose division cuts towards zero.
unfoldable pub minute_before : Time → String
minute_before t =
    if leb one_minute t
    then decimal ((t - one_minute) / 1000000)
    else if leb 1000000 (one_minute - t)
    then text_append "-" (decimal ((one_minute - t) / 1000000))
    else "0"

-- `Done` of an event: nil, or an acknowledgement, whose error is dropped.
unfoldable pub acknowledge : Option (Option String) → World → Go World
acknowledge none w = panics
acknowledge (some none) w = returns w
acknowledge (some (some handle)) w = returns (if is_empty handle then w else emit (acked handle) w)

abbrev pub pod_event : Time → KubernetesEvent → PodEvent
pod_event stamp e = record {
  timestamp = some stamp;
  event_type = e.event_type;
  reason = e.reason;
  source_object = e.involved_object.name;
  message = e.message;
}

abbrev pub with_pod_event : Time → KubernetesEvent → Run → Run
with_pod_event stamp e run = record run {
  pod_events = some (get_or [] run.pod_events ++ pod_event stamp e ∷ []);
}

unfoldable pub with_pod_name : KubernetesEvent → Run → Run
with_pod_name e run =
    if e.reason == "Scheduled"
    then elim (parse_pod_name e.message) [
      | none ↦ run
      | some name ↦ record run { pod_name = some name }
    ]
    else run

abbrev pub ended : ℤ → Time → KubernetesEvent → Run → Run
ended code stamp e run = record run {
  exit_reason = some e.message;
  exit_code = some code;
  status = status_stopped;
  started_at = run.queued_at;
  finished_at = some stamp;
}

unfoldable pub with_end : Time → KubernetesEvent → Run → Run
with_end stamp e run =
    if e.reason == "DeadlineExceeded"
    then ended (pos 124) stamp e run
    else if e.reason == "Completed"
    then ended (pos 0) stamp e run
    else run

unfoldable pub set_eks_metrics_uri : EventsWorker → EventOutcome → Run → Run
set_eks_metrics_uri ew outcome run =
    let to : String = elim run.finished_at [
      | none ↦ minute_after outcome.to_now
      | some t ↦ minute_after t
    ] in
    let from : String = elim run.started_at [
      | none ↦ minute_before outcome.from_now
      | some t ↦ minute_before t
    ] in
    record run {
      metrics_uri = some (
          text_append ew.eks_metrics_server (
            text_append "var-run_id=" (
              text_append run.run_id
                (text_append "&from=" (text_append from (text_append "&to=" to))))));
    }

abbrev pub emr_metrics_uri : EventsWorker → EventOutcome → String → Run → String
emr_metrics_uri ew outcome app run =
    let to : String = elim run.finished_at [ none ↦ "now" | some t ↦ minute_after t ] in
    let from : String = elim run.started_at [
      | none ↦ minute_before outcome.from_now
      | some t ↦ minute_before t
    ] in
    text_append ew.emr_metrics_server (
      text_append "var-spark_app_selector="
        (text_append app (text_append "&from=" (text_append from (text_append "&to=" to)))))

unfoldable pub set_emr_metrics_uri : EventsWorker → EventOutcome → Run → Run
set_emr_metrics_uri ew outcome run = elim run.spark_extension [
  | none ↦ run
  | some ext ↦ elim ext.spark_app_id [
    | none ↦ run
    | some app ↦ record run { metrics_uri = some (emr_metrics_uri ew outcome app run) }
  ]
]

-- The value of a label of a pod.
unfoldable pub find_label : String → List (String × String) → Option String
find_label key [] = none
find_label key ((k, v) ∷ labels) = if k == key then some v else find_label key labels

-- The labels are those of the pod, and none when the pod cannot be got.
abbrev pub label_of : String → Option (List (String × String)) → Option String
label_of key labels = find_label key (get_or [] labels)

unfoldable pub with_spark_app : EventsWorker → Option String → Run → Go Run
with_spark_app ew none run = returns run
with_spark_app ew (some app) run = do
  ext ← deref run.spark_extension
  returns (record run {
    spark_extension = some (record ext {
      spark_app_id = some app;
      history_uri =
          some (text_append ew.emr_history_server (text_append "/" (text_append app "/jobs")));
    });
  })

-- A run that `UpdateRun` has returned with too many events is terminated.
unfoldable pub limit_pod_events : EventsWorker → Run → World → World
limit_pod_events ew run w = elim run.pod_events [
  | none ↦ w
  | some events ↦
      if ltb_ℤ (pos (length events)) ew.emr_max_pod_events
      then w
      else emit (terminated eks_spark_engine run.run_id) w
]

unfoldable pub record_emr_event :
    EventsWorker → EventOutcome → Option String → KubernetesEvent → Run → World → Go World
record_emr_event ew outcome app e run w = do
  updated ← with_spark_app ew app (with_pod_event (stamp_of outcome) e run)
  let updates = set_emr_metrics_uri ew outcome updated in
      returns (
        limit_pod_events ew (update_run outcome.job_update run.run_id updates w.tasks).1
          (save_run outcome.job_update run.run_id updates w))

unfoldable pub record_labelled :
    EventsWorker
    → EventOutcome
    → Option (List (String × String))
    → KubernetesEvent
    → World
    → Go World
record_labelled ew outcome labels e w =
    elim (label_of "emr-containers.amazonaws.com/job.id" labels) [
      | none ↦ returns w
      | some job_id ↦ elim (get_run_by_emr_job_id outcome.job_read_fails job_id w.tasks) [
        | err x ↦ returns w
        | ok run ↦ record_emr_event ew outcome (label_of "spark-app-selector" labels) e run w
      ]
    ]

-- `processEMRPodEvents`, on the labels of the pod that the event is about.
unfoldable pub process_emr_pod_events :
    EventsWorker
    → EventOutcome
    → Option (List (String × String))
    → Delivered KubernetesEvent
    → World
    → Go World
process_emr_pod_events ew outcome labels d w =
    if d.event.involved_object.kind == "Pod"
    then (record_labelled ew outcome labels d.event w >>= acknowledge d.done)
    else returns w

abbrev pub event_update : EventsWorker → EventOutcome → KubernetesEvent → Run → Run
event_update ew outcome e run =
    set_eks_metrics_uri ew outcome
      (with_end (stamp_of outcome) e (with_pod_name e (with_pod_event (stamp_of outcome) e run)))

-- What follows once the run has been read.
unfoldable pub record_event :
    EventsWorker → EventOutcome → Delivered KubernetesEvent → Run → World → Go World
record_event ew outcome d run w =
    let job = d.event.involved_object.job_name in
    let updates = event_update ew outcome d.event run in
    let w' = save_run outcome.update job updates w in
    elim (update_run outcome.update job updates w.tasks).2 [
      | some e ↦ returns w'
      | none ↦ acknowledge d.done w'
    ]

unfoldable pub record_in_run :
    EventsWorker → EventOutcome → Delivered KubernetesEvent → World → Go World
record_in_run ew outcome d w =
    elim (get_run outcome.read_fails d.event.involved_object.job_name w.tasks) [
      | err e ↦ returns w
      | ok run ↦ record_event ew outcome d run w
    ]

-- `processEvent`. An event of another job than those of the EKS engine is handled as one of EMR first.
unfoldable pub process_event :
    EventsWorker
    → EventOutcome
    → Option (List (String × String))
    → Delivered KubernetesEvent
    → World
    → Go World
process_event ew outcome labels d w =
    (if starts_with d.event.involved_object.job_name "eks"
      then returns w
      else process_emr_pod_events ew outcome labels d w)
    >>= record_in_run ew outcome d

-- A job that is over has run since it was queued, unless its start is known.
abbrev pub emr_ended : ℤ → Time → Option String → Run → Run
emr_ended code stamp reason run = record run {
  exit_code = some code;
  status = status_stopped;
  finished_at = some stamp;
  started_at = elim run.started_at [ none ↦ run.queued_at | some t ↦ some t ];
  exit_reason = reason;
}

unfoldable pub with_emr_state : Time → String → Detail → Run → Run
with_emr_state stamp state detail run =
    if state == "COMPLETED"
    then emr_ended (pos 0) stamp detail.state_details run
    else if state == "RUNNING"
    then record run { status = status_running; started_at = some stamp }
    else if state == "FAILED"
    then emr_ended (negsuc 0) stamp detail.failure_reason run
    else if state == "SUBMITTED"
    then record run { status = status_pending }
    else run

unfoldable pub record_emr_state :
    EventsWorker → EventOutcome → Delivered EmrEvent → Detail → Run → World → Go World
record_emr_state ew outcome d detail run w = do
  time ← deref d.event.time
  state ← deref detail.state
  let updates =
        set_emr_metrics_uri ew outcome (with_emr_state (stamp_of outcome) state detail run) in
      elim (update_run outcome.update run.run_id updates w.tasks).2 [
        | some e ↦ returns (save_run outcome.update run.run_id updates w)
        | none ↦ acknowledge d.done (save_run outcome.update run.run_id updates w)
      ]

unfoldable pub process_emr_detail :
    EventsWorker → EventOutcome → Delivered EmrEvent → Detail → World → Go World
process_emr_detail ew outcome d detail w = do
  job_id ← deref detail.id
  elim (get_run_by_emr_job_id outcome.read_fails job_id w.tasks) [
    | err e ↦ returns w
    | ok run ↦ record_emr_state ew outcome d detail run w
  ]

-- `processEventEMR`
unfoldable pub process_event_emr :
    EventsWorker → EventOutcome → Delivered EmrEvent → World → Go World
process_event_emr ew outcome d w = elim d.event.detail [
  | none ↦ returns w
  | some detail ↦ process_emr_detail ew outcome d detail w
]

-- `runOnce` and `runOnceEMR`, on what was received.
unfoldable pub events_round :
    EventsWorker
    → EventOutcome
    → Option (List (String × String))
    → Result (Delivered KubernetesEvent)
    → World
    → Go World
events_round ew outcome labels (err e) w = returns w
events_round ew outcome labels (ok d) w = process_event ew outcome labels d w

unfoldable pub emr_round :
    EventsWorker → EventOutcome → Result (Delivered EmrEvent) → World → Go World
emr_round ew outcome (err e) w = returns w
emr_round ew outcome (ok d) w = process_event_emr ew outcome d w

-- ===== src/Clients/CloudWatchLogs.antt =====
-- clients/logs/eks_cloudwatch_logs_client.go: a run's log, read from a stream of CloudWatch. The answers of
-- CloudWatch and the decoding of a message are parameters.
use Prim.Native.String.{◌++◌ as text_append}
use flotilla_os.Common.{
  String, List, [], ◌∷◌, Option, none, some, Error, missing_resource, plain_error, Result, ok, err,
  if◌then◌else◌, ltb, is_empty, any, ◌==◌,
}
use flotilla_os.State.Types.{Run, Time}
use flotilla_os.State.Queries.{join}

pub record LogEvent : Type 0 where
  pub timestamp : Time
  pub message : String

-- What GetLogEvents answers: events and the token of the next page, or an error, by its kind and its text.
pub data EventsAnswer : Type 0 where
  fetched : List LogEvent → Option String → EventsAnswer
  not_found throttled refused : String → EventsAnswer

unfoldable pub insert_event : LogEvent → List LogEvent → List LogEvent
insert_event e [] = e ∷ []
insert_event e (f ∷ events) =
    if ltb f.timestamp e.timestamp then f ∷ insert_event e events else e ∷ f ∷ events

-- `sort.Sort(byTimestamp(events))`, which leaves open the order of events of one time.
unfoldable pub sort_events : List LogEvent → List LogEvent
sort_events [] = []
sort_events (e ∷ events) = insert_event e (sort_events events)

-- The text of a message. That of a message that cannot be decoded is overwritten with the empty one.
unfoldable pub message_text : (String → Result String) → LogEvent → String
message_text log_of e = elim (log_of e.message) [ ok log ↦ log | err x ↦ "" ]

unfoldable pub message_texts : (String → Result String) → List LogEvent → List String
message_texts log_of [] = []
message_texts log_of (e ∷ events) = message_text log_of e ∷ message_texts log_of events

unfoldable pub events_to_message : (String → Result String) → List LogEvent → String
events_to_message log_of events = join "" (message_texts log_of (sort_events events))

abbrev page_of :
    (String → Result String) → Option String → EventsAnswer → String × Option String × Option Error
page_of log_of last_seen (not_found message) = ("", none, some (missing_resource message))
page_of log_of last_seen (throttled message) = ("", last_seen, none)
page_of log_of last_seen (refused message) =
    ("", none, some (plain_error (text_append "problem getting logs: " message)))
page_of log_of last_seen (fetched [] token) = ("", token, none)
page_of log_of last_seen (fetched (e ∷ events) token) =
    (events_to_message log_of (e ∷ events), token, none)

abbrev token_of : Option String → Option String
token_of none = none
token_of (some s) = if is_empty s then none else some s

-- `Logs`, where the stream has the name of the pod.
unfoldable pub cloud_watch_logs :
    (String → Option String → EventsAnswer)
    → (String → Result String)
    → Run
    → Option String
    → String × Option String × Option Error
cloud_watch_logs get_log_events log_of run last_seen = elim run.pod_name [
  | none ↦ ("", none, none)
  | some pod ↦ page_of log_of last_seen (get_log_events pod (token_of last_seen))
]

-- The calls of CloudWatch that a start makes.
pub data NamespaceCall : Type 0 where
  describe create_group put_retention : NamespaceCall

abbrev failed_with : String → Option Error → Option Error
failed_with text none = none
failed_with text (some e) = some (plain_error text)

-- `createNamespace`, by the errors of its two calls. The texts are without those of the causes.
unfoldable pub create_namespace : Option Error → Option Error → List NamespaceCall × Option Error
create_namespace (some e) put_error =
    (create_group ∷ [], some (plain_error "problem creating log group"))
create_namespace none put_error = (
  create_group ∷ put_retention ∷ [],
  failed_with "problem setting log group retention policy" put_error,
)

-- `createNamespaceIfNotExists`, by the groups that have the name as their prefix.
unfoldable pub create_namespace_if_not_exists :
    String → Result (List String) → Option Error → Option Error → List NamespaceCall × Option Error
create_namespace_if_not_exists name (err e) create_error put_error =
    (describe ∷ [], some (plain_error "problem checking if log namespace exists"))
create_namespace_if_not_exists name (ok groups) create_error put_error =
    if any (λ group. group == name) groups
    then (describe ∷ [], none)
    else (let (calls, e) = create_namespace create_error put_error in (describe ∷ calls, e))

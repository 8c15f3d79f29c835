-- ===== src/Flotilla/Reads.antt =====
-- The endpoints of flotilla/endpoints.go that read a run, its payload, its events and its logs.
use Prim.Native.Char.{code}
use flotilla_os.Common.{
  ℕ, Bool, true, false, String, List, [], Option, none, some, Error, Result, ok, err, Go, returns,
  ◌>>=◌, deref, if◌then◌else◌, ◌&&◌, eqb, get_or, length,
}
use flotilla_os.Utils.Json.{Fields, end}
use flotilla_os.State.Types.{Run, PodEvent}
use flotilla_os.Engine.Eks.{lower}
use flotilla_os.Clients.S3Logs.{LogPage}
use flotilla_os.Flotilla.Answers.{Answer, answered, encode_error}
use flotilla_os.Flotilla.Entities.{answer_of}
use flotilla_os.Flotilla.Lists.{Params, get_url_param}

abbrev pub get_run_endpoint : Result Run → Answer Run
get_run_endpoint run = answer_of run

-- The run's own payload, or an empty one.
unfoldable pub get_payload_endpoint : Result Run → Answer Fields
get_payload_endpoint (err e) = encode_error e
get_payload_endpoint (ok run) = answered (get_or end run.execution_request_custom)

pub record PodEventList : Type 0 where
  pub total : ℕ
  pub pod_events : List PodEvent

unfoldable pub get_events_endpoint : Result Run → Answer PodEventList
get_events_endpoint (err e) = encode_error e
get_events_endpoint (ok run) =
    let events = get_or [] run.pod_events in
    answered (record { total = length events; pod_events = events })

-- `strings.ToLower(s) == t`
unfoldable pub lower_equals : String → String → Bool
lower_equals String.[] String.[] = true
lower_equals (String.◌∷◌ c s) (String.◌∷◌ d t) =
    let rest = lower_equals s t in eqb (lower (code c)) (code d) && rest
lower_equals s t = false

abbrev pub get_string_bool_val : String → Bool
get_string_bool_val s = lower_equals s "true"

-- An answer with logs: their text and the position to go on from, or what was written as plain text.
pub data LogsAnswer : Type 0 where
  page : String → String → LogsAnswer
  raw : String → LogsAnswer

-- The answer by what the service returns. An error is answered as a page without text.
abbrev page_answer : String → LogPage → Go (Answer LogsAnswer)
page_answer last_seen (log, new_last_seen, some e) = returns (answered (page "" last_seen))
page_answer last_seen (log, new_last_seen, none) = do
  position ← deref new_last_seen
  returns (answered (page log position))

abbrev answer_if_returned : String → Option LogPage → Go (Option (Answer LogsAnswer))
answer_if_returned last_seen none = returns none
answer_if_returned last_seen (some log_page) = do
  answer ← page_answer last_seen log_page
  returns (some answer)

abbrev plain_text : Go (String × Option Error) → Go (Option (Answer LogsAnswer))
plain_text text = do written ← text; returns (some (answered (raw written.0)))

abbrev paged :
    (Option String → String → String → Go (Option LogPage))
    → String
    → Params
    → Go (Option (Answer LogsAnswer))
paged service last_seen params = do
  result ←
      service (some last_seen) (get_url_param params "role" "driver")
        (get_url_param params "facility" "stderr")
  answer_if_returned last_seen result

-- GetLogs, on the two methods of the log service for the run; none when the service never returns.
unfoldable pub get_logs_endpoint :
    (Option String → String → String → Go (Option LogPage))
    → Go (String × Option Error)
    → Params
    → Result Run
    → Go (Option (Answer LogsAnswer))
get_logs_endpoint service text params (err e) = returns (some (encode_error e))
get_logs_endpoint service text params (ok run) =
    if get_string_bool_val (get_url_param params "raw_text" "")
    then plain_text text
    else paged service (get_url_param params "last_seen" "") params

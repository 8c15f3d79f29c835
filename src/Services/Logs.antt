-- ===== src/Services/Logs.antt =====
-- services/logs.go: the log of a run that has one, from a client of logs. The executable is read, but no client
-- uses it.
use flotilla_os.Common.{
  Bool, ◌||◌, String, List, Option, none, some, Error, Result, ok, err, Go, returns, if◌then◌else◌,
  ◌==◌, get_or,
}
use flotilla_os.State.Constants.{status_running, status_stopped}
use flotilla_os.State.Types.{Run}
use flotilla_os.State.TaskTable.{get_run}
use flotilla_os.Clients.S3Logs.{LogPage}

abbrev pub with_default_executable : Run → Run
with_default_executable run = record run {
  executable_type = some (get_or "task_definition" run.executable_type);
  executable_id = some (get_or run.definition_id run.executable_id);
}

abbrev has_logs : Run → Bool
has_logs run = run.status == status_running || run.status == status_stopped

abbrev logs_of_stored : (Run → Go (Option LogPage)) → Result Run → Go (Option LogPage)
logs_of_stored client (err e) = returns (some ("", none, some e))
logs_of_stored client (ok run) =
    if has_logs run
    then client (with_default_executable run)
    else returns (some ("", some "", none))

-- `Logs`; none when the client never returns.
unfoldable pub service_logs :
    (Run → Go (Option LogPage)) → Bool → String → List Run → Go (Option LogPage)
service_logs client read_fails run_id rows = logs_of_stored client (get_run read_fails run_id rows)

abbrev text_of_stored {ℓ} :
    {W : Type ℓ} → (Run → W → Go (W × Option Error)) → Result Run → W → Go (W × Option Error)
text_of_stored client (err e) w = returns (w, some e)
text_of_stored client (ok run) w =
    if has_logs run then client (with_default_executable run) w else returns (w, none)

-- `LogsText`
unfoldable pub service_logs_text {ℓ} :
    {W : Type ℓ}
    → (Run → W → Go (W × Option Error))
    → Bool
    → String
    → List Run
    → W
    → Go (W × Option Error)
service_logs_text client read_fails run_id rows w =
    text_of_stored client (get_run read_fails run_id rows) w

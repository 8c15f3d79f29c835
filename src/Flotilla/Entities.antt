-- ===== src/Flotilla/Entities.antt =====
-- The endpoints of flotilla/endpoints.go for definitions, runs, workers and templates that pass a decoded body
-- on to a service. What the services need besides is an argument.
pub mod Unchanged
use flotilla_os.Common.{
  ℕ, ◌+◌, Bool, true, false, String, List, [], ◌∷◌, ◌++◌, Option, none, some, Error, Result, ok,
  err, Go, returns, ◌>>=◌, if◌then◌else◌,
}
use flotilla_os.State.Constants.{eks_engine}
use flotilla_os.State.Types.{Run, Definition, Worker, UserInfo, Time}
use flotilla_os.State.TaskTable.{TxFaults}
use flotilla_os.State.DefinitionTable.{Tables, StatementFaults, delete_definition}
use flotilla_os.State.WorkerTable.{WorkerFaults, WorkersList, list_workers}
use flotilla_os.Engine.Eks.{lower_contains}
use flotilla_os.Services.Definitions.{service_create_definition, service_update_definition}
use flotilla_os.Services.Workers.{service_get_worker, service_update_worker, service_batch_update}
use flotilla_os.Services.Templates.{
  CreateTemplateRequest, CreateTemplateResponse, TemplateStore, service_create_template,
}
use flotilla_os.Services.Execution.UpdateStatus.{StatusUpdate, update_status_of}
use flotilla_os.Flotilla.Answers.{Answer, answered, failed, encode_error, decoded}

-- The end of an endpoint: the value, unless there is an error.
unfoldable pub answer {ℓ} : {A : Type ℓ} → A → Option Error → Answer A
answer a none = answered a
answer a (some e) = encode_error e

unfoldable pub answer_of {ℓ} : {A : Type ℓ} → Result A → Answer A
answer_of (ok a) = answered a
answer_of (err e) = encode_error e

-- A body that cannot be decoded is answered at once.
unfoldable pub with_body {ℓ κ} :
    {A S : Type ℓ} {B : Type κ} → Result A → (A → S → S × Answer B) → S → S × Answer B
with_body (err e) f s = (s, encode_error e)
with_body (ok a) f s = f a s

unfoldable pub create_definition_endpoint :
    Result (List Definition)
    → StatementFaults
    → Result String
    → Result Definition
    → Tables
    → Tables × Answer Definition
create_definition_endpoint listed faults uuid body t =
    with_body (decoded body)
      (λ d t.
        let (t', created, e) = service_create_definition listed faults uuid d t in
        (t', answer created e))
      t

unfoldable pub update_definition_endpoint :
    Bool → Bool → StatementFaults → String → Result Definition → Tables → Tables × Answer Definition
update_definition_endpoint first_fails second_fails faults id body t =
    with_body (decoded body)
      (λ d t.
        let (t', updated) = service_update_definition first_fails second_fails faults id d t in
        (t', answer_of updated))
      t

-- The answer is `{"deleted": true}`.
unfoldable pub delete_definition_endpoint : StatementFaults → String → Tables → Tables × Answer Bool
delete_definition_endpoint faults id t =
    let (t', e) = delete_definition faults id t in (t', answer true e)

abbrev pub status_update_of : Run → StatusUpdate
status_update_of run = record {
  status = run.status;
  exit_code = run.exit_code;
  run_exceptions = run.run_exceptions;
  exit_reason = run.exit_reason;
}

-- The answer is `{"updated": true}`.
unfoldable pub update_run_endpoint :
    Bool → TxFaults → Time → String → Result Run → List Run → List Run × Answer Bool
update_run_endpoint read_fails faults now run_id body rows =
    with_body (decoded body)
      (λ run rows.
        let (rows', e) =
          update_status_of read_fails faults now run_id (status_update_of run) rows in
        (rows', answer true e))
      rows

-- One value of a header. The header's name is compared in lower case.
unfoldable pub note_header : String → UserInfo → String → UserInfo
note_header name info h =
    let named = if lower_contains name "-name" then record info { name = h } else info in
    if lower_contains name "-email" then record named { email = h } else named

unfoldable pub note_headers : String → List String → UserInfo → UserInfo
note_headers name [] info = info
note_headers name (h ∷ hs) info = note_headers name hs (note_header name info h)

-- `ExtractUserInfo`, with what has been found so far; the headers are in the order of the range.
unfoldable pub extract_user_info : List (String × List String) → UserInfo → UserInfo
extract_user_info [] info = info
extract_user_info ((name, values) ∷ rest) info =
    extract_user_info rest (note_headers name values info)

-- StopRun puts a job into the channel of the workers that terminate, and answers `{"terminated": true}`.
unfoldable pub stop_run_endpoint :
    List (String × List String)
    → String
    → List (String × UserInfo)
    → List (String × UserInfo) × Answer Bool
stop_run_endpoint headers run_id jobs = (
  jobs ++ (run_id, extract_user_info headers (record { name = ""; email = "" })) ∷ [],
  answered true,
)

-- ListWorkers asks for the same list twice. An error of the second call alone has no text, which panics.
abbrev both_lists : Result WorkersList → Result WorkersList → Go (Answer WorkersList)
both_lists (err e) second = returns (encode_error e)
both_lists (ok first) (err e) = Go.panics
both_lists (ok first) (ok second) = returns (
    answered
      (record { total = first.total + second.total; workers = first.workers ++ second.workers }))

unfoldable pub list_workers_endpoint : Bool → Bool → List Worker → Go (Answer WorkersList)
list_workers_endpoint first_fails second_fails rows =
    both_lists (list_workers first_fails eks_engine rows)
      (list_workers second_fails eks_engine rows)

unfoldable pub get_worker_endpoint : Bool → String → List Worker → Answer Worker
get_worker_endpoint fails worker_type rows =
    let (w, e) = service_get_worker fails worker_type eks_engine rows in answer w e

unfoldable pub update_worker_endpoint :
    WorkerFaults → String → Result Worker → List Worker → List Worker × Answer Worker
update_worker_endpoint faults worker_type body rows =
    with_body (decoded body)
      (λ w rows.
        let (rows', updated, e) = service_update_worker faults worker_type w rows in
        (rows', answer updated e))
      rows

unfoldable pub batch_update_workers_endpoint :
    Bool → Result (List (WorkerFaults × Worker)) → List Worker → List Worker × Answer WorkersList
batch_update_workers_endpoint list_fails body rows =
    with_body (decoded body)
      (λ ws rows.
        let (rows', updated) = service_batch_update list_fails ws rows in
        (rows', answer_of updated))
      rows

unfoldable pub create_decoded_template :
    {S : Type 0}
    → TemplateStore S
    → Result String
    → Result CreateTemplateRequest
    → S
    → Go (S × Answer CreateTemplateResponse)
create_decoded_template store uuid (err e) s = returns (s, encode_error e)
create_decoded_template store uuid (ok req) s = do
  result ← service_create_template store req uuid s
  returns (result.0, answer result.1 result.2)

unfoldable pub create_template_endpoint :
    {S : Type 0}
    → TemplateStore S
    → Result String
    → Result CreateTemplateRequest
    → S
    → Go (S × Answer CreateTemplateResponse)
create_template_endpoint store uuid body s = create_decoded_template store uuid (decoded body) s

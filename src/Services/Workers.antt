-- ===== src/Services/Workers.antt =====
-- services/worker.go: the workers' numbers and types, on the table of workers.
use flotilla_os.Common.{
  Bool, true, String, List, [], ◌∷◌, Option, none, some, Error, malformed_input, Result, err,
  if◌then◌else◌, any, ◌≡◌, ◌≢◌, refl, sym, ◌∙◌, ap, subst, Option-cases, inl, inr,
}
use Prim.Native.String.{◌++◌ as text_append}
use flotilla_os.State.Types.{Worker}
use flotilla_os.State.Constants.{is_valid_worker_type}
use flotilla_os.State.Constants.{eks_engine}
use flotilla_os.State.WorkerTable.Updates.{update_worker-IsRefused}
use flotilla_os.State.WorkerTable.{
  WorkerFaults, WorkersList, zero_worker, is_worker_of, get_worker, update_worker,
  batch_update_workers, update_workers,
}

-- `validate`. The list of valid types in the message, whose order is not fixed, is left out.
unfoldable pub validate_worker : String → Option Error
validate_worker worker_type =
    if is_valid_worker_type worker_type
    then none
    else some (
        malformed_input
          (text_append "Worker type: [" (text_append worker_type "] is not a valid worker type")))

unfoldable pub service_get_worker : Bool → String → String → List Worker → Worker × Option Error
service_get_worker fails worker_type engine rows = elim (validate_worker worker_type) [
  | some e ↦ (zero_worker, some e)
  | none ↦ get_worker fails worker_type engine rows
]

unfoldable pub service_update_worker :
    WorkerFaults → String → Worker → List Worker → List Worker × Worker × Option Error
service_update_worker faults worker_type updates rows = elim (validate_worker worker_type) [
  | some e ↦ (rows, zero_worker, some e)
  | none ↦ update_worker faults worker_type updates rows
]

-- The loop over the updates of a batch: the first error.
unfoldable pub validate_all : List (WorkerFaults × Worker) → Option Error
validate_all [] = none
validate_all ((faults, w) ∷ rest) = elim (validate_worker w.worker_type) [
  | some e ↦ some e
  | none ↦ validate_all rest
]

unfoldable pub service_batch_update :
    Bool → List (WorkerFaults × Worker) → List Worker → List Worker × Result WorkersList
service_batch_update list_fails updates rows = elim (validate_all updates) [
  | some e ↦ (rows, err e)
  | none ↦ batch_update_workers list_fails updates rows
]

update_workers_refused :
    (faults : WorkerFaults) (w : Worker) (rest : List (WorkerFaults × Worker)) (rows : List Worker)
    (e : Error)
    → (update_worker faults w.worker_type w rows).2 ≡ some e
    → update_workers ((faults, w) ∷ rest) rows
      ≡ ((update_worker faults w.worker_type w rows).0, some e)
unfolding update_workers
update_workers_refused faults w rest rows e h = rw (h, update_workers) refl

some_error : (x : Option Error) → x ≢ none → (e : Error) × (x ≡ some e)
some_error none h = absurd (h refl)
some_error (some e) h = (e, refl)

batch_refused :
    (list_fails : Bool) (updates : List (WorkerFaults × Worker)) (rows : List Worker) (e : Error)
    → update_workers updates rows ≡ (rows, some e)
    → batch_update_workers list_fails updates rows ≡ (rows, err e)
unfolding batch_update_workers
batch_refused list_fails updates rows e h = rw (h, batch_update_workers) refl

-- Whatever the database answers, a batch whose first worker type is stored for the EKS engine returns an
-- error and leaves the table as it was, whether its worker types are valid or not.
service_batch_update_refused :
    (list_fails : Bool) (faults : WorkerFaults) (w : Worker) (rest : List (WorkerFaults × Worker))
    (rows : List Worker)
    → any (is_worker_of w.worker_type eks_engine) rows ≡ true
    → let (rows', answer) = service_batch_update list_fails ((faults, w) ∷ rest) rows in
      (rows' ≡ rows) × (e : Error) × (answer ≡ err e)
unfolding service_batch_update
service_batch_update_refused list_fails faults w rest rows stored =
    elim (Option-cases (validate_all ((faults, w) ∷ rest))) [
      | inr (e, invalid) ↦ rw (invalid, service_batch_update) (refl, e, refl)
      | inl valid ↦
          let (same, _, refused) = update_worker-IsRefused faults w.worker_type w rows stored in
          let (e, failed) = some_error (update_worker faults w.worker_type w rows).2 refused in
          rw (valid, service_batch_update)
            (subst (λ r. (r.0 ≡ rows) × (x : Error) × (r.1 ≡ err x))
              (sym (
                batch_refused list_fails ((faults, w) ∷ rest) rows e (
                  update_workers_refused faults w rest rows e failed
                  ∙ ap (λ rs. (rs, some e)) same)))
              (refl, e, refl))
    ]

-- ===== src/Flotilla/Entities/Unchanged.antt =====
-- A request about a definition or a run that is answered with an error changes nothing.
use flotilla_os.Common.{
  Bool, true, false, String, List, Option, none, some, Error, Result, ok, err, ◌≡◌, inl, inr, refl,
  Bool-cases, Result-cases,
}
use flotilla_os.State.Types.{Run, Definition, Time}
use flotilla_os.State.Validity.{definition_is_valid, definition_update_with}
use flotilla_os.State.TaskTable.{TxFaults}
use flotilla_os.State.DefinitionTable.{
  Tables, StatementFaults, get_definition_row, create_definition, update_definition,
  delete_definition,
}
use flotilla_os.State.DefinitionTable.Updates.{create_definition_error, update_definition_error}
use flotilla_os.State.DefinitionTable.Deletes.{delete_definition_error}
use flotilla_os.Services.Definitions.{
  alias_exists, new_definition_id, store_definition, create_unless, service_create_definition,
  service_update_definition,
}
use flotilla_os.Services.Execution.UpdateStatus.{update_status_of, update_status_of_error}
use flotilla_os.Flotilla.Answers.{Answer, answered, failed, encode_error, decoded}
use flotilla_os.Flotilla.Entities.{
  answer, answer_of, with_body, create_definition_endpoint, update_definition_endpoint,
  delete_definition_endpoint, update_run_endpoint, status_update_of,
}

-- After an error the state is as it was.
abbrev pub IsKept {ℓ} : {S A : Type ℓ} → S → S × Answer A → Type ℓ
IsKept s (s', answered a) = Unit
IsKept s (s', failed code message) = s' ≡ s

-- The same for the result of a service.
abbrev pub IsKeptBy {ℓ} : {S : Type ℓ} → S → S → Option Error → Type ℓ
IsKeptBy s s' none = Unit
IsKeptBy s s' (some e) = s' ≡ s

answer-IsKept {ℓ} :
    {S A : Type ℓ} (s s' : S) (a : A) (e : Option Error)
    → IsKeptBy s s' e
    → IsKept s (s', answer a e)
unfolding answer encode_error
answer-IsKept s s' a none h = tt
answer-IsKept s s' a (some e) h = h

-- A result that is an error comes with the old state.
abbrev IsKeptResult {ℓ} : {S A : Type ℓ} → S → S → Result A → Type ℓ
IsKeptResult s s' (ok a) = Unit
IsKeptResult s s' (err e) = s' ≡ s

answer_of-IsKept {ℓ} :
    {S A : Type ℓ} (s s' : S) (r : Result A) → IsKeptResult s s' r → IsKept s (s', answer_of r)
unfolding answer_of encode_error
answer_of-IsKept s s' (ok a) h = tt
answer_of-IsKept s s' (err e) h = h

with_body-IsKept {ℓ} :
    {A B S : Type ℓ} (body : Result A) (f : A → S → S × Answer B) (s : S)
    → ((a : A) → IsKept s (f a s))
    → IsKept s (with_body body f s)
unfolding with_body encode_error
with_body-IsKept (err e) f s h = refl
with_body-IsKept (ok a) f s h = h a

error-IsKeptBy {ℓ} :
    {S : Type ℓ} (s s' : S) (e : Option Error)
    → ((x : Error) → e ≡ some x → s' ≡ s)
    → IsKeptBy s s' e
error-IsKeptBy s s' none h = tt
error-IsKeptBy s s' (some x) h = h x refl

outcome-IsKeptResult {ℓ} :
    {S A : Type ℓ} (s s' : S) (r : Result A)
    → ((x : Error) → r ≡ err x → s' ≡ s)
    → IsKeptResult s s' r
outcome-IsKeptResult s s' (ok a) h = tt
outcome-IsKeptResult s s' (err x) h = h x refl

store-IsKeptBy :
    (faults : StatementFaults) (d : Definition) (id : Result String) (t : Tables)
    → let (t', created, e) = store_definition faults d id t in IsKeptBy t t' e
unfolding store_definition
store-IsKeptBy faults d (err x) t = refl
store-IsKeptBy faults d (ok id) t =
    let d' : Definition = record d { definition_id = id } in
    error-IsKeptBy t (create_definition faults d' t).0 (create_definition faults d' t).1
      (λ x h. create_definition_error faults d' t x h)

unless-IsKeptBy :
    (exists : Result Bool) (faults : StatementFaults) (uuid : Result String) (d : Definition)
    (t : Tables)
    → let (t', created, e) = create_unless exists faults uuid d t in IsKeptBy t t' e
unfolding create_unless
unless-IsKeptBy (err x) faults uuid d t = refl
unless-IsKeptBy (ok true) faults uuid d t = refl
unless-IsKeptBy (ok false) faults uuid d t = store-IsKeptBy faults d (new_definition_id d uuid) t

create-IsKeptBy :
    (listed : Result (List Definition)) (faults : StatementFaults) (uuid : Result String)
    (d : Definition) (t : Tables)
    → let (t', created, e) = service_create_definition listed faults uuid d t in IsKeptBy t t' e
unfolding service_create_definition
create-IsKeptBy listed faults uuid d t = elim (Bool-cases (definition_is_valid d).0) [
  | inl valid ↦
      rw (valid, service_create_definition)
        (unless-IsKeptBy (alias_exists d.alias listed) faults uuid d t)
  | inr not_valid ↦ rw (not_valid, service_create_definition) refl
]

update-IsKeptResult :
    (first_fails second_fails : Bool) (faults : StatementFaults) (id : String) (d : Definition)
    (t : Tables)
    → let (t', r) = service_update_definition first_fails second_fails faults id d t in
      IsKeptResult t t' r
unfolding service_update_definition
update-IsKeptResult first_fails second_fails faults id d t =
    elim (Result-cases (get_definition_row first_fails id t)) [
      | inr (x, missing) ↦ rw (missing, service_update_definition) refl
      | inl (found, read) ↦
          let d' = definition_update_with found d in
          rw (read, service_update_definition)
            (outcome-IsKeptResult t (update_definition second_fails faults id d' t).0
              (update_definition second_fails faults id d' t).1
              (λ x h. update_definition_error second_fails faults id d' t x h))
    ]

-- A request to create, to update or to delete a definition, or to set the status of a run, that is answered
-- with an error changes nothing, whatever the body of the request and whatever the database refuses.
pub failed-IsKept :
    (listed : Result (List Definition)) (faults : StatementFaults) (uuid : Result String)
    (first_fails second_fails : Bool) (body : Result Definition) (id : String) (t : Tables)
    (run_faults : TxFaults) (now : Time) (run_body : Result Run) (rows : List Run)
    → IsKept t (create_definition_endpoint listed faults uuid body t)
      × IsKept t (update_definition_endpoint first_fails second_fails faults id body t)
      × IsKept t (delete_definition_endpoint faults id t)
      × IsKept rows (update_run_endpoint first_fails run_faults now id run_body rows)
unfolding create_definition_endpoint update_definition_endpoint delete_definition_endpoint
    update_run_endpoint
failed-IsKept listed faults uuid first_fails second_fails body id t run_faults now run_body rows = (
  with_body-IsKept (decoded body) _ t
      (λ d. answer-IsKept t _ _ _ (create-IsKeptBy listed faults uuid d t)),
  with_body-IsKept (decoded body) _ t
      (λ d. answer_of-IsKept t _ _ (update-IsKeptResult first_fails second_fails faults id d t)),
  answer-IsKept t _ true _ (
      error-IsKeptBy t (delete_definition faults id t).0 (delete_definition faults id t).1
        (λ x h. delete_definition_error faults id t x h)),
  with_body-IsKept (decoded run_body) _ rows (λ run. answer-IsKept rows _ true _ (
      error-IsKeptBy rows
        (update_status_of first_fails run_faults now id (status_update_of run) rows).0
        (update_status_of first_fails run_faults now id (status_update_of run) rows).1
        (λ x h.
          update_status_of_error first_fails run_faults now id (status_update_of run) rows x h))),
)

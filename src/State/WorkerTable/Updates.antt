-- ===== src/State/WorkerTable/Updates.antt =====
-- What an update of the number of workers does.
use flotilla_os.Common.{
  true, false, String, List, [], ◌∷◌, Option, none, some, Error, plain_error, keep, any, ◌≡◌, ◌≢◌,
  inl, inr, refl, sym, ◌∙◌, ap, subst, arith, Bool-cases,
}
use flotilla_os.State.Types.{Worker}
use flotilla_os.State.Constants.{eks_engine}
use flotilla_os.State.WorkerTable.{
  WorkerFaults, zero_worker, is_worker_of, scan_workers, update_scanned, update_worker,
}

scan_fails :
    (worker_type : String) (rows : List Worker)
    → any (is_worker_of worker_type eks_engine) rows ≡ true
    → (e : Error) × (scan_workers (keep (is_worker_of worker_type eks_engine) rows) zero_worker
        ≡ (zero_worker, some e))
unfolding scan_workers
scan_fails worker_type [] h = cc
scan_fails worker_type (w ∷ rows) h = elim (Bool-cases (is_worker_of worker_type eks_engine w)) [
  | inl this ↦ (plain_error "sql: expected 3 destination arguments in Scan, not 2", rw (this) refl)
  | inr other ↦ rw (other) (scan_fails worker_type rows (ground arith))
]

after_scan :
    (faults : WorkerFaults) (worker_type : String) (updates : Worker) (rows : List Worker)
    (scanned : Worker × Option Error) (e : Error)
    → scanned ≡ (zero_worker, some e)
    → update_scanned faults worker_type updates scanned rows ≡ (rows, zero_worker, some e)
unfolding update_scanned
after_scan faults worker_type updates rows scanned e h =
    ap (λ answer. update_scanned faults worker_type updates answer rows) h

scanned_worker :
    (faults : WorkerFaults) (worker_type : String) (updates : Worker) (rows : List Worker)
    → faults.begin_fails ≡ false
    → faults.query_fails ≡ false
    → update_worker faults worker_type updates rows
      ≡ update_scanned faults worker_type updates
          (scan_workers (keep (is_worker_of worker_type eks_engine) rows) zero_worker)
          rows
unfolding update_worker
scanned_worker faults worker_type updates rows begun read = rw (begun, read, update_worker) refl

-- What an update does that is refused.
abbrev pub IsRefused : List Worker → List Worker × Worker × Option Error → Type 0
IsRefused rows (rows', w, e) = (rows' ≡ rows) × (w ≡ zero_worker) × (e ≢ none)

-- Whatever the database answers, the update of a worker type that is stored for the EKS engine returns
-- an error and an empty worker, and leaves the table as it was.
pub update_worker-IsRefused :
    (faults : WorkerFaults) (worker_type : String) (updates : Worker) (rows : List Worker)
    → any (is_worker_of worker_type eks_engine) rows ≡ true
    → IsRefused rows (update_worker faults worker_type updates rows)
unfolding update_worker
update_worker-IsRefused faults worker_type updates rows stored =
    let (e, scanned) = scan_fails worker_type rows stored in
    let refused =
      after_scan faults worker_type updates rows
        (scan_workers (keep (is_worker_of worker_type eks_engine) rows) zero_worker) e scanned in
    elim (Bool-cases faults.begin_fails) [
      | inl begin ↦ rw (begin, update_worker) (refl, refl, λ h. cc)
      | inr begun ↦ elim (Bool-cases faults.query_fails) [
        | inl query ↦ rw (begun, query, update_worker) (refl, refl, λ h. cc)
        | inr read ↦
            subst (IsRefused rows)
              (sym (scanned_worker faults worker_type updates rows begun read ∙ refused))
              (refl, refl, λ h. cc)
      ]
    ]

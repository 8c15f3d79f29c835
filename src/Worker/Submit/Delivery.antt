-- ===== src/Worker/Submit/Delivery.antt =====
-- What one round of the submit worker may do, as a step relation, and that the worker keeps to it.
use mathlib.Core.Option.{some-injective}
use flotilla_os.Common.{
  String, List, [], ◌∷◌, some, ◌≡◌, ◌≢◌, inl, inr, refl, sym, ◌∙◌, subst, ap, ◌==◌, eq_iff, Result,
  ok, err, Result-cases, Bool-cases, Option-cases, get_or, is_none, points_to, ◌||◌,
}
use flotilla_os.State.Constants.{eks_engine, eks_spark_engine, status_queued}
use flotilla_os.State.Types.{Run}
use flotilla_os.State.TaskTable.{TxFaults, find_row, get_run, select_row}
use flotilla_os.State.TaskTable.Update.{get_run-row, find_row-update_run_ne}
use flotilla_os.World.{World, executed, acked, emit, save_run, get_definition, get_template_by_id}
use flotilla_os.Worker.Submit.{
  Launch, Engines, Faults, RunReceipt, with_executable, after_launch, launch_definition,
  launch_template, launch, process_run, process_stored, process_receipt, run_once,
}

-- A run that stands queued in the table.
abbrev pub IsQueued : String → World → Type 0
IsQueued run_id w =
    (row : Run) × (find_row run_id w.tasks ≡ some row) × (row.status ≡ status_queued)

-- What may become of a message: it is left alone; it is acknowledged; its run, which is queued, is
-- launched and the message left for another try; or the run is launched, saved and the message
-- acknowledged.
pub data Step (handle : String) (w : World) : World → Type 0 where
  leave : Step handle w w
  acknowledge : Step handle w (emit (acked handle) w)
  attempt :
      (engine run_id : String) → IsQueued run_id w → Step handle w (emit (executed engine run_id) w)
  submit :
      (engine run_id : String) (faults : TxFaults) (launched : Run)
      → IsQueued run_id w
      → Step handle w
          (emit (acked handle) (save_run faults run_id launched (emit (executed engine run_id) w)))

IsQueued-row :
    (run_id : String) (w : World) (row run : Run)
    → find_row run_id w.tasks ≡ some row
    → run ≡ select_row row
    → row.run_id ≡ run_id
    → run.status ≡ status_queued
    → IsQueued run.run_id w
unfolding select_row
IsQueued-row run_id w row run found read key queued = (
  row,
  subst (λ k. find_row k w.tasks ≡ some row) (sym (ap (λ r. r.run_id) read ∙ key)) found,
  sym (ap (λ r. r.status) read) ∙ queued,
)

module _ (engines : Engines) where
  after_launch-Step :
      (faults : TxFaults) (engine run_id handle : String) (l : Launch) (w : World)
      → IsQueued run_id w
      → Step handle w
          (after_launch engines faults run_id handle l (emit (executed engine run_id) w))
  unfolding after_launch
  after_launch-Step faults engine run_id handle l w q = elim (Option-cases l.error) [
    | inl fine ↦ rw (fine, after_launch) (submit engine run_id faults _ q)
    | inr (e, failed) ↦ elim (Bool-cases l.retryable) [
      | inl again ↦ rw (failed, again, after_launch) (attempt engine run_id q)
      | inr given_up ↦ rw (failed, given_up, after_launch) (submit engine run_id faults _ q)
    ]
  ]

  launch_definition-Step :
      (faults : Faults) (handle : String) (run : Run) (w : World)
      → IsQueued run.run_id w
      → Step handle w (launch_definition engines faults handle run w)
  unfolding launch_definition
  launch_definition-Step faults handle run w q =
      elim (Result-cases
        (get_definition faults.executable_read_fails (get_or "" run.executable_id) w)) [
          | inr (e, missing) ↦ rw (missing, launch_definition) acknowledge
          | inl (d, found) ↦
              elim (Bool-cases (is_none run.engine || points_to run.engine eks_engine)) [
                | inl on_eks ↦
                    rw (found, launch_definition, on_eks)
                      (after_launch-Step faults.transaction eks_engine run.run_id handle _ w q)
                | inr on_emr ↦
                    rw (found, launch_definition, on_emr)
                      (after_launch-Step faults.transaction eks_spark_engine run.run_id handle _ w
                        q)
              ]
        ]

  launch_template-Step :
      (faults : Faults) (handle : String) (run : Run) (w : World)
      → IsQueued run.run_id w
      → Step handle w (launch_template engines faults handle run w)
  unfolding launch_template
  launch_template-Step faults handle run w q =
      elim (Result-cases
        (get_template_by_id faults.executable_read_fails (get_or "" run.executable_id) w)) [
          | inr (e, missing) ↦ rw (missing, launch_template) acknowledge
          | inl (t, found) ↦
              rw (found, launch_template)
                (after_launch-Step faults.transaction eks_engine run.run_id handle _ w q)
        ]

  launch-Step :
      (faults : Faults) (handle : String) (run : Run) (w : World)
      → IsQueued run.run_id w
      → Step handle w (launch engines faults handle run w)
  unfolding launch
  launch-Step faults handle run w q =
      elim (Bool-cases (points_to run.executable_type "task_definition")) [
        | inl d ↦ rw d (launch_definition-Step faults handle run w q)
        | inr not_d ↦ elim (Bool-cases (points_to run.executable_type "template")) [
          | inl t ↦ rw (not_d, t) (launch_template-Step faults handle run w q)
          | inr not_t ↦ rw (not_d, not_t) leave
        ]
      ]

  process_run-Step :
      (faults : Faults) (handle : String) (run : Run) (w : World)
      → (run.status ≡ status_queued → IsQueued run.run_id w)
      → Step handle w (process_run engines faults handle run w)
  unfolding process_run
  process_run-Step faults handle run w q = elim (Bool-cases (run.status == status_queued)) [
    | inl queued ↦ rw queued (
        launch-Step faults handle (with_executable engines run) w
          (q ((eq_iff run.status status_queued).0 queued)))
    | inr other ↦ rw other acknowledge
  ]

  process_stored-Step :
      (faults : Faults) (handle run_id : String) (w : World) (r : Result Run)
      → get_run faults.run_read_fails run_id w.tasks ≡ r
      → Step handle w (process_stored engines faults handle r w)
  unfolding process_stored
  process_stored-Step faults handle run_id w (err e) h = acknowledge
  process_stored-Step faults handle run_id w (ok run) h =
      let (row, found, read, key) = get_run-row faults.run_read_fails run_id w.tasks run h in
      process_run-Step faults handle run w (IsQueued-row run_id w row run found read key)

  pub process_receipt-Step :
      (faults : Faults) (receipt : RunReceipt) (w : World)
      → Step receipt.handle w (process_receipt engines faults receipt w)
  unfolding process_receipt
  process_receipt-Step faults receipt w = elim (Option-cases receipt.run) [
    | inl nothing ↦ rw (nothing, process_receipt) leave
    | inr (message, there) ↦
        rw (there, process_receipt)
          (process_stored-Step faults receipt.handle message.run_id w _ refl)
  ]

same_row :
    (k : String) (rows : List Run) (a b : Run)
    → find_row k rows ≡ some a
    → find_row k rows ≡ some b
    → a ≡ b
same_row k rows a b p q = some-injective a b (sym p ∙ q)

pub Step-keeps :
    {w w' : World} (handle k : String) (row : Run)
    → Step handle w w'
    → find_row k w.tasks ≡ some row
    → row.status ≢ status_queued
    → find_row k w'.tasks ≡ some row
unfolding emit save_run
Step-keeps handle k row leave found h = found
Step-keeps handle k row acknowledge found h = found
Step-keeps handle k row (attempt engine run_id q) found h = found
Step-keeps {w} handle k row (submit engine run_id faults launched (r, r_found, queued)) found h =
    find_row-update_run_ne faults run_id k launched w.tasks (λ e. h (
      ap (λ x. x.status)
        (same_row k w.tasks row r found (subst (λ i. find_row i w.tasks ≡ some r) e r_found))
      ∙ queued))
    ∙ found

module _ (engines : Engines) where
  -- A run that is not queued is left exactly as it is by every round of the submit worker, whichever
  -- messages it receives, in whatever order and however often.
  pub run_once-keeps :
      (receipts : List (Faults × RunReceipt)) (w : World) (k : String) (row : Run)
      → find_row k w.tasks ≡ some row
      → row.status ≢ status_queued
      → find_row k (run_once engines receipts w).tasks ≡ some row
  unfolding run_once
  run_once-keeps [] w k row found h = found
  run_once-keeps ((faults, receipt) ∷ receipts) w k row found h =
      run_once-keeps receipts (process_receipt engines faults receipt w) k row
        (Step-keeps receipt.handle k row (process_receipt-Step engines faults receipt w) found h) h

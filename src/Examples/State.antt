-- ===== src/Examples/State.antt =====
-- The theorems on the state's types and tables, at concrete runs.
use mathlib.Core.List.{perm_append_comm}
use flotilla_os.Common.{ℤ, pos, ◌≤ℤ◌, String, [], ◌∷◌, some, ◌≡◌, refl, string_slice_contains}
use flotilla_os.State.Constants.{status_queued, status_running, status_stopped, status_pending}
use flotilla_os.State.Types.{Run}
use flotilla_os.State.RunUpdate.{update_with, zero_run, update_status, status_precedence}
use flotilla_os.State.RunUpdate.Status.{apply_updates, apply_updates-perm, apply_updates_forward}
use flotilla_os.State.TaskTable.{no_faults, create_run, insert_row}
use flotilla_os.State.TaskTable.Create.{
  run_operations-Unique, Unique, run_ids, run_operations, create, update,
}
use flotilla_os.Examples.Data.{waiting, active, over, table, run_with}

abbrev to_status : String → Run
to_status status = record zero_run { status = status }

apply_updates-perm_example :
    (apply_updates waiting (to_status status_running ∷ to_status status_stopped ∷ [])).status
    ≡ (apply_updates waiting (to_status status_stopped ∷ to_status status_running ∷ [])).status
apply_updates-perm_example =
    apply_updates-perm waiting (to_status status_running ∷ to_status status_stopped ∷ [])
      (to_status status_stopped ∷ to_status status_running ∷ [])
      (perm_append_comm (to_status status_running ∷ []) (to_status status_stopped ∷ []))
      ((λ h. cc), ((λ h. cc), tt))

apply_updates_forward_example :
    (q : ℤ) × (status_precedence
        (apply_updates waiting (to_status status_running ∷ to_status status_pending ∷ [])).status
      ≡ some q)
    × (pos 0 ≤ℤ q)
unfolding status_precedence
apply_updates_forward_example =
    apply_updates_forward waiting (to_status status_running ∷ to_status status_pending ∷ []) (pos 0)
      refl ((λ h. cc), ((λ h. cc), tt))

abbrev fresh : Run
fresh = run_with "eks-9" status_queued

run_operations_example : Unique (
    run_ids (
      run_operations
        (λ s. s)
        (create no_faults fresh ∷ update no_faults active ∷ create no_faults fresh ∷ [])
        table))
unfolding string_slice_contains
run_operations_example =
    run_operations-Unique (λ s. s)
      (create no_faults fresh ∷ update no_faults active ∷ create no_faults fresh ∷ []) table
      (refl, (refl, (refl, (refl, tt))))

-- The second creation of a run under the same identifier is refused.
created_twice :
    run_ids (run_operations (λ s. s) (create no_faults fresh ∷ create no_faults fresh ∷ []) table)
    ≡ "eks-1" ∷ "eks-2" ∷ "eks-3" ∷ "eks-4" ∷ "eks-9" ∷ []
unfolding run_operations create_run insert_row
created_twice = refl

stopped_stays_stopped : (apply_updates over (to_status status_running ∷ [])).status ≡ status_stopped
unfolding apply_updates update_with update_status status_precedence
stopped_stays_stopped = refl

-- ===== src/Worker/Retry/Requeue.antt =====
-- What a round of the retry worker achieves, and the run that it loses when the queue refuses it.
use flotilla_os.Common.{
  Bool, true, false, String, List, [], ◌∷◌, ◌++◌, append_assoc, append-nil, none, some, ◌≡◌, ◌≢◌,
  ◌⊎◌, inl, inr, refl, sym, ◌∙◌, subst, ap, arith, ◌==◌, eq_iff, Bool-cases, map,
  string_slice_contains,
}
use flotilla_os.State.Constants.{eks_engine, status_queued, status_needs_retry}
use flotilla_os.State.Types.{Run}
use flotilla_os.State.RunUpdate.{update_with, update_status, status_precedence}
use flotilla_os.State.TaskTable.{
  TxFaults, no_faults, find_row, update_run, select_row, write_columns,
}
use flotilla_os.State.TaskTable.Update.{
  find_row-update_run, find_row-update_run_ne, update_run-no_faults, different,
}
use flotilla_os.World.{World, enqueued, emit, save_run}
use flotilla_os.Worker.Retry.{requeue_update, requeue, requeue_all}

abbrev pub HasStatus : String → String → World → Type 0
HasStatus status run_id w =
    (row : Run) × (find_row run_id w.tasks ≡ some row) × (row.status ≡ status)

requeued_status :
    (row : Run)
    → (row.status ≡ status_needs_retry) ⊎ (row.status ≡ status_queued)
    → (write_columns row (update_with (select_row row) requeue_update)).status ≡ status_queued
unfolding write_columns update_with select_row update_status status_precedence
requeued_status row (inl h) = rw h
requeued_status row (inr h) = rw h

save_run-requeued :
    (faults : TxFaults) (run_id : String) (w : World)
    → (update_run faults run_id requeue_update w.tasks).2 ≡ none
    → HasStatus status_needs_retry run_id w ⊎ HasStatus status_queued run_id w
    → HasStatus status_queued run_id (save_run faults run_id requeue_update w)
unfolding save_run
save_run-requeued faults run_id w done (inl (row, found, s)) = (
  write_columns row (update_with (select_row row) requeue_update),
  find_row-update_run faults run_id requeue_update w.tasks row found done,
  requeued_status row (inl s),
)
save_run-requeued faults run_id w done (inr (row, found, s)) = (
  write_columns row (update_with (select_row row) requeue_update),
  find_row-update_run faults run_id requeue_update w.tasks row found done,
  requeued_status row (inr s),
)

-- A run that needs a retry, whose status is updated but which the queue then refuses, is lost: it
-- is queued in the table, where no later round of the retry worker finds it, and no message of it
-- is in the queue.
requeue_lost :
    (run : Run) (w : World)
    → HasStatus status_needs_retry run.run_id w
    → let w' = (requeue no_faults true run w).0 in
      HasStatus status_queued run.run_id w' × (w'.events ≡ w.events)
unfolding requeue
requeue_lost run w s =
    rw (update_run-no_faults run.run_id requeue_update w.tasks, requeue)
      (
        save_run-requeued no_faults run.run_id w
            (update_run-no_faults run.run_id requeue_update w.tasks) (inl s),
        unfold save_run in refl,
      )

-- A round in which nothing fails.
abbrev pub without_failures : List Run → List (TxFaults × Bool × Run)
without_failures [] = []
without_failures (r ∷ rs) = (no_faults, false, r) ∷ without_failures rs

requeued : Run → World → World
requeued r w = emit (enqueued eks_engine r) (save_run no_faults r.run_id requeue_update w)

requeue_all-cons :
    (r : Run) (rs : List Run) (w : World)
    → requeue_all (without_failures (r ∷ rs)) w ≡ requeue_all (without_failures rs) (requeued r w)
unfolding requeue_all requeue requeued
requeue_all-cons r rs w = rw (update_run-no_faults r.run_id requeue_update w.tasks, requeue)

events-requeued :
    (r : Run) (w : World) → (requeued r w).events ≡ w.events ++ enqueued eks_engine r ∷ []
unfolding requeued emit save_run
events-requeued r w = refl

-- In a round in which nothing fails, each listed run is put into the queue once, in the order of
-- the list, and nothing else is sent.
requeue_all-events :
    (rs : List Run) (w : World)
    → (requeue_all (without_failures rs) w).events ≡ w.events ++ map (enqueued eks_engine) rs
requeue_all-events [] w = unfold requeue_all in sym (append-nil w.events)
requeue_all-events (r ∷ rs) w =
    ap (λ x. x.events) (requeue_all-cons r rs w)
    ∙ requeue_all-events rs (requeued r w)
    ∙ ap (λ es. es ++ map (enqueued eks_engine) rs) (events-requeued r w)
    ∙ append_assoc w.events (enqueued eks_engine r ∷ []) (map (enqueued eks_engine) rs)

requeued_self :
    (r : Run) (k : String) (w : World)
    → r.run_id ≡ k
    → HasStatus status_needs_retry k w ⊎ HasStatus status_queued k w
    → HasStatus status_queued k (requeued r w)
unfolding requeued emit
requeued_self r k w e s =
    subst (λ i. HasStatus status_queued i (save_run no_faults r.run_id requeue_update w)) e
      (save_run-requeued no_faults r.run_id w (update_run-no_faults r.run_id requeue_update w.tasks)
        (subst (λ i. HasStatus status_needs_retry i w ⊎ HasStatus status_queued i w) (sym e) s))

requeued_other :
    (r : Run) (k status : String) (w : World)
    → r.run_id ≢ k
    → HasStatus status k w
    → HasStatus status k (requeued r w)
unfolding requeued emit save_run
requeued_other r k status w e (row, found, s) =
    (row, find_row-update_run_ne no_faults r.run_id k requeue_update w.tasks e ∙ found, s)

requeue_all-still :
    (rs : List Run) (k : String) (w : World)
    → HasStatus status_queued k w
    → HasStatus status_queued k (requeue_all (without_failures rs) w)
requeue_all-still [] k w s = unfold requeue_all in s
requeue_all-still (r ∷ rs) k w s =
    subst (HasStatus status_queued k) (sym (requeue_all-cons r rs w)) (
      requeue_all-still rs k (requeued r w) (elim (Bool-cases (r.run_id == k)) [
        | inl same ↦ requeued_self r k w ((eq_iff r.run_id k).0 same) (inr s)
        | inr other ↦ requeued_other r k status_queued w (different r.run_id k other) s
      ]))

listed_later :
    (r : Run) (rs : List Run) (k : String)
    → (r.run_id == k) ≡ false
    → string_slice_contains (map (λ x. x.run_id) (r ∷ rs)) k ≡ true
    → string_slice_contains (map (λ x. x.run_id) rs) k ≡ true
unfolding string_slice_contains
listed_later r rs k other m = ground arith

-- In a round in which nothing fails, each listed run that needs a retry is queued in the table.
pub requeue_all-queued :
    (rs : List Run) (k : String) (w : World)
    → string_slice_contains (map (λ r. r.run_id) rs) k ≡ true
    → HasStatus status_needs_retry k w
    → HasStatus status_queued k (requeue_all (without_failures rs) w)
requeue_all-queued [] k w m s = unfold string_slice_contains in cc
requeue_all-queued (r ∷ rs) k w m s =
    subst (HasStatus status_queued k) (sym (requeue_all-cons r rs w))
      (elim (Bool-cases (r.run_id == k)) [
        | inl same ↦
            requeue_all-still rs k _ (requeued_self r k w ((eq_iff r.run_id k).0 same) (inl s))
        | inr other ↦
            requeue_all-queued rs k (requeued r w) (listed_later r rs k other m)
              (requeued_other r k status_needs_retry w (different r.run_id k other) s)
      ])

-- ===== src/Worker/Status/Outcomes.antt =====
-- All that the status worker may do to the world, whatever the engine and the database say.
use flotilla_os.Common.{
  ◌-◌, Bool, true, false, ◌&&◌, String, Option, none, some, ◌≡◌, ◌⊎◌, inl, inr, sym, ◌∙◌, subst,
  arith, ltb, contains, if◌then◌else◌, returns, deref, ◌>>=◌, Bool-cases, returns-injective,
  panics-returns,
}
use flotilla_os.State.Types.{Run, Time}
use flotilla_os.State.RunUpdate.Status.{NoRetry}
use flotilla_os.State.TaskTable.{get_run}
use flotilla_os.World.{World, save_run}
use flotilla_os.Worker.Status.{
  StatusOutcome, with_spawned, process_lost, process_fetched, process_by, process_loaded,
  process_eks_run, is_stopped_run, lost_run, thirty_minutes,
}
use flotilla_os.Worker.Status.Saves.{with_spawned_kept}

-- What may become of the world: nothing, or a run that asks for no retry is saved.
abbrev pub MaySave : StatusOutcome → World → World → Type 0
MaySave outcome w w' =
    (w' ≡ w) ⊎ ((u : Run) × NoRetry u × (w' ≡ save_run outcome.update u.run_id u w))

process_fetched_cases :
    (outcome : StatusOutcome) (run : Run) (w : World)
    → let updated = (with_spawned outcome.sub_runs outcome.fetched.updated).0 in
      (process_fetched outcome run w ≡ w)
      ⊎ (process_fetched outcome run w ≡ save_run outcome.update updated.run_id updated w)
unfolding process_fetched
process_fetched_cases outcome run w = ground arith

abbrev lost_world : StatusOutcome → String → Time → World → World
lost_world outcome message queued w =
    if contains message "not found" && ltb thirty_minutes (outcome.now - queued)
    then save_run outcome.update outcome.fetched.updated.run_id
        (lost_run outcome.stopped_at outcome.fetched.updated) w
    else w

process_fetched-MaySave :
    (outcome : StatusOutcome) (run : Run) (w : World)
    → NoRetry outcome.fetched.updated
    → MaySave outcome w (process_fetched outcome run w)
process_fetched-MaySave outcome run w h = elim (process_fetched_cases outcome run w) [
  | inl same ↦ inl same
  | inr saved ↦ inr (
    (with_spawned outcome.sub_runs outcome.fetched.updated).0,
    (λ e. h (sym (with_spawned_kept outcome.sub_runs outcome.fetched.updated).0 ∙ e)),
    saved,
  )
]

process_lost-MaySave :
    (outcome : StatusOutcome) (message : String) (queued_at : Option Time) (w w' : World)
    → (deref queued_at >>= λ queued. returns (lost_world outcome message queued w)) ≡ returns w'
    → MaySave outcome w w'
process_lost-MaySave outcome message none w w' h = absurd (panics-returns w' h)
process_lost-MaySave outcome message (some queued) w w' h =
    subst (MaySave outcome w) (returns-injective _ w' h)
      (elim (Bool-cases
        (contains message "not found" && ltb thirty_minutes (outcome.now - queued))) [
          | inl lost ↦ inr (lost_run outcome.stopped_at outcome.fetched.updated, (λ e. cc), rw lost)
          | inr early ↦ inl (rw early)
        ])

process_by-MaySave :
    (e : Option String) (outcome : StatusOutcome) (run : Run) (w w' : World)
    → NoRetry outcome.fetched.updated
    → process_by e outcome run w ≡ returns w'
    → MaySave outcome w w'
unfolding process_by process_lost
process_by-MaySave (some message) outcome run w w' h e =
    process_lost-MaySave outcome message run.queued_at w w' e
process_by-MaySave none outcome run w w' h e =
    subst (MaySave outcome w) (returns-injective _ w' e) (process_fetched-MaySave outcome run w h)

pub process_eks_run-MaySave :
    (outcome : StatusOutcome) (run : Run) (w w' : World)
    → NoRetry outcome.fetched.updated
    → process_eks_run outcome run w ≡ returns w'
    → MaySave outcome w w'
unfolding process_eks_run process_loaded
process_eks_run-MaySave outcome run w w' h e =
    unless_stopped (is_stopped_run (get_run outcome.read_fails run.run_id w.tasks)) e
  where
    unless_stopped :
        (b : Bool)
        → (if b then returns w else process_by outcome.fetched.error outcome run w) ≡ returns w'
        → MaySave outcome w w'
    unless_stopped true e = inl (sym (returns-injective w w' e))
    unless_stopped false e = process_by-MaySave outcome.fetched.error outcome run w w' h e

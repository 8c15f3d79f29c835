-- ===== src/Worker/Submit/Launches.antt =====
-- How often the engines were asked to launch a run, and that one that is not queued is not launched.
use flotilla_os.Common.{
  ℕ, ◌+◌, false, String, List, [], ◌∷◌, ◌++◌, some, ◌≡◌, ◌≢◌, inl, inr, refl, sym, subst, ap, ◌∙◌,
  arith, ◌==◌, eq_iff, if◌then◌else◌, Bool-cases,
}
use flotilla_os.State.Constants.{status_queued}
use flotilla_os.State.Types.{Run}
use flotilla_os.State.TaskTable.{find_row}
use flotilla_os.World.{World, Event, executed, acked, enqueued, terminated, emit, save_run}
use flotilla_os.Worker.Submit.Delivery.{Step, IsQueued, leave, acknowledge, attempt, submit}

-- How often the engines were asked to launch a run.
abbrev pub launches : String → List Event → ℕ
launches k [] = 0
launches k (executed engine run_id ∷ es) = if run_id == k then 1 + launches k es else launches k es
launches k (acked handle ∷ es) = launches k es
launches k (enqueued engine run ∷ es) = launches k es
launches k (terminated engine run_id ∷ es) = launches k es

pub launches-append :
    (k : String) (es : List Event) (e : Event)
    → launches k (es ++ e ∷ []) ≡ launches k es + launches k (e ∷ [])
launches-append k [] e = omega arith
launches-append k (executed engine run_id ∷ es) e = ground (arith, launches-append k es e)
launches-append k (acked handle ∷ es) e = launches-append k es e
launches-append k (enqueued engine run ∷ es) e = launches-append k es e
launches-append k (terminated engine run_id ∷ es) e = launches-append k es e

-- A run that stands in the table with another status than queued.
abbrev pub IsNotQueued : String → World → Type 0
IsNotQueued k w = (row : Run) × (find_row k w.tasks ≡ some row) × (row.status ≢ status_queued)

not_queued :
    (k : String) (w : World)
    → IsNotQueued k w
    → (run_id : String) → IsQueued run_id w
    → (run_id == k) ≡ false
not_queued k w (row, found, other_status) run_id (row', found', queued) =
    elim (Bool-cases (run_id == k)) [
      | inr other ↦ other
      | inl same ↦
          let at_k =
            subst (λ i. find_row i w.tasks ≡ some row') ((eq_iff run_id k).0 same) found' in
          absurd
            (other_status (ap (λ r. r.status) (same_some row row' (sym found ∙ at_k)) ∙ queued))
    ]
  where
    same_some : (a b : Run) → some a ≡ some b → a ≡ b
    same_some a b h = cc

pub Step-launches :
    {handle : String} {w w' : World} (k : String)
    → Step handle w w'
    → IsNotQueued k w
    → launches k w'.events ≡ launches k w.events
unfolding emit save_run
Step-launches k leave s = refl
Step-launches {handle} {w} k acknowledge s =
    ground (arith, launches-append k w.events (acked handle))
Step-launches {handle} {w} k (attempt engine run_id q) s =
    ground (arith, launches-append k w.events (executed engine run_id), not_queued k w s run_id q)
Step-launches {handle} {w} k (submit engine run_id faults launched q) s = ground (
  arith,
  launches-append k (w.events ++ executed engine run_id ∷ []) (acked handle),
  launches-append k w.events (executed engine run_id),
  not_queued k w s run_id q,
)

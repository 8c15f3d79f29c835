-- ===== src/Services/System/Settled.antt =====
-- A run that is stopped and was launched a number of times: a message and an update keep both.
use flotilla_os.Common.{ℕ, String, [], ◌∷◌, ◌≡◌, arith}
use flotilla_os.State.Types.{Run}
use flotilla_os.State.RunUpdate.Status.{NoRetry}
use flotilla_os.State.TaskTable.{TxFaults}
use flotilla_os.State.TaskTable.Calls.{IsStopped, update_run-IsStopped}
use flotilla_os.World.{World, Event, emit, save_run}
use flotilla_os.Worker.Submit.Launches.{launches, launches-append}

-- The run is stopped in the table, and was launched a number of times.
abbrev pub Settled : String → ℕ → World → Type 0
Settled k n w = IsStopped k w.tasks × (launches k w.events ≡ n)

pub emit-Settled :
    (k : String) (n : ℕ) (e : Event) (w : World)
    → launches k (e ∷ []) ≡ 0
    → Settled k n w
    → Settled k n (emit e w)
unfolding emit
emit-Settled k n e w other (stopped, count) = (stopped, omega (arith, launches-append k w.events e))

pub save_run-Settled :
    (k : String) (n : ℕ) (faults : TxFaults) (run_id : String) (updates : Run) (w : World)
    → NoRetry updates
    → Settled k n w
    → Settled k n (save_run faults run_id updates w)
unfolding save_run
save_run-Settled k n faults run_id updates w h (stopped, count) = (
  update_run-IsStopped (record { faults = faults; run_id = run_id; updates = updates }) k w.tasks h
      stopped,
  count,
)

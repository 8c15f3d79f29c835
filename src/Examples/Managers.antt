-- ===== src/Examples/Managers.antt =====
-- The theorems on the manager of workers, at two rows of the table of workers.
use flotilla_os.Common.{ℕ, pos, [], ◌∷◌, none, String, refl, ok, string_slice_contains}
use flotilla_os.State.Types.{Worker}
use flotilla_os.Worker.Manager.{Manager, run_once, find_workers, new_worker}
use flotilla_os.Worker.Manager.Counts.{Has}
use flotilla_os.Worker.Manager.Rounds.{has_no_row, run_once-wanted}

abbrev row : String → ℕ → Worker
row name n = record { worker_type = name; count_per_instance = pos n; engine = "eks" }

-- One worker that submits runs and three that retry them.
abbrev manager : Manager
manager = record {
  workers = ("submit", 0 ∷ []) ∷ ("retry", 1 ∷ 2 ∷ 3 ∷ []) ∷ [];
  running = 0 ∷ 1 ∷ 2 ∷ 3 ∷ [];
  started = 4;
}

run_once-wanted_example :
    Has "retry" 1 (run_once (λ t. none) (ok (row "submit" 2 ∷ row "retry" 1 ∷ [])) manager)
unfolding find_workers new_worker string_slice_contains has_no_row
run_once-wanted_example =
    run_once-wanted (λ t. none) (row "submit" 2 ∷ []) (row "retry" 1) [] 3 manager refl refl refl
      (1 ∷ 2 ∷ 3 ∷ [], refl, refl)

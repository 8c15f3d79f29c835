-- ===== src/Worker/Manager.antt =====
-- worker/worker_manager.go, and NewWorker in worker/worker.go: the workers of each type are started and stopped until there are as many
-- as the database wants. A worker is a number,
-- and it runs from the start of its goroutine to the kill of its tomb; log lines are left out.
pub mod Counts
pub mod Rounds
use flotilla_os.Common.{
  ℕ, zero, suc, ◌+◌, ◌-◌, ℤ, pos, negsuc, ltb_ℤ, eq_ℤ, Bool, true, false, not, String, List, [],
  ◌∷◌, ◌++◌, Option, none, some, ◌==◌, Error, plain_error, Result, ok, err, if◌then◌else◌, length,
  drop_last, last_opt, get_or, eqb, keep, string_slice_contains,
}
use Prim.Native.String.{◌++◌ as text_append}
use flotilla_os.State.Types.{Worker}

-- The map from types to workers.
abbrev pub Workers : Type 0
Workers = List (String × List ℕ)

unfoldable pub find_workers : String → Workers → Option (List ℕ)
find_workers t [] = none
find_workers t ((k, ws) ∷ rest) = if k == t then some ws else find_workers t rest

-- `wm.workers[t] = ws`, for a type that is in the map.
unfoldable pub set_workers : String → List ℕ → Workers → Workers
set_workers t ws [] = []
set_workers t ws ((k, old) ∷ rest) =
    if k == t then (k, ws) ∷ rest else (k, old) ∷ set_workers t ws rest

-- The map, the goroutines that run, and the number of those started so far.
pub record Manager : Type 0 where
  pub workers : Workers
  pub running : List ℕ
  pub started : ℕ

abbrev pub stop : ℕ → List ℕ → List ℕ
stop worker running = keep (λ w. not (eqb w worker)) running

unfoldable pub remove_found : String → Option (List ℕ) → Manager → Manager × Option Error
remove_found t none m = (m, some (plain_error (text_append "invalid worker type " t)))
remove_found t (some []) m = (m, none)
remove_found t (some (w ∷ ws)) m = (
  record m {
    workers = set_workers t (drop_last (w ∷ ws)) m.workers;
    running = stop (get_or w (last_opt (w ∷ ws))) m.running;
  },
  none,
)

unfoldable pub remove_worker : String → Manager → Manager × Option Error
remove_worker t m = remove_found t (find_workers t m.workers) m

-- The goroutine is started before the type is looked for in the map.
unfoldable pub add_found : String → Option (List ℕ) → Manager → Manager × Option Error
add_found t none m = (m, some (plain_error (text_append "invalid worker type " t)))
add_found t (some ws) m =
    (record m { workers = set_workers t (ws ++ m.started ∷ []) m.workers }, none)

unfoldable pub start_worker : Manager → Manager
start_worker m = record m { running = m.running ++ m.started ∷ [] }

unfoldable pub number_started : Manager × Option Error → Manager × Option Error
number_started (m, e) = (record m { started = m.started + 1 }, e)

abbrev pub worker_kinds : List String
worker_kinds = "submit" ∷ "retry" ∷ "status" ∷ "worker_manager" ∷ "cloudtrail" ∷ "events" ∷ []

-- The error of `NewWorker` for a type, if it has one. `initialize` is what the
-- worker's `Initialize` answers, which connects to servers and reads the configuration.
unfoldable pub new_worker : (String → Option String) → String → Option Error
new_worker initialize t =
    if string_slice_contains worker_kinds t
    then elim (initialize t) [
      | none ↦ none
      | some e ↦ some (
          plain_error
            (text_append "problem initializing worker [" (text_append t (text_append "]: " e))))
    ]
    else some (plain_error (text_append "no workerType [" (text_append t "] exists")))

unfoldable pub add_worker : (String → Option String) → String → Manager → Manager × Option Error
add_worker initialize t m = elim (new_worker initialize t) [
  | some e ↦ (m, some e)
  | none ↦ number_started (add_found t (find_workers t m.workers) (start_worker m))
]

-- The two loops, which an error ends.
unfoldable pub remove_workers : ℕ → String → Manager → Manager × Option Error
remove_workers zero t m = (m, none)
remove_workers (suc n) t m =
    let (m', e) = remove_worker t m in
    let rest = remove_workers n t m' in elim e [ some e ↦ (m', some e) | none ↦ rest ]

unfoldable pub add_workers :
    (String → Option String) → ℕ → String → Manager → Manager × Option Error
add_workers initialize zero t m = (m, none)
add_workers initialize (suc n) t m =
    let (m', e) = add_worker initialize t m in
    let rest = add_workers initialize n t m' in elim e [ some e ↦ (m', some e) | none ↦ rest ]

-- How many workers there are too many, and too few.
abbrev pub excess : ℕ → ℤ → ℕ
excess current (pos desired) = current - desired
excess current (negsuc n) = current + suc n

abbrev pub missing : ℕ → ℤ → ℕ
missing current (pos desired) = desired - current
missing current (negsuc n) = 0

unfoldable pub update_worker_count :
    (String → Option String) → String → ℕ → ℤ → Manager → Manager × Option Error
update_worker_count initialize t current desired m =
    if ltb_ℤ desired (pos current)
    then remove_workers (excess current desired) t m
    else add_workers initialize (missing current desired) t m

abbrev pub count_of : String → Manager → ℕ
count_of t m = length (get_or [] (find_workers t m.workers))

-- One row of the table of workers, whose error is only logged.
unfoldable pub adjust : (String → Option String) → Worker → Manager → Manager
adjust initialize w m =
    if eq_ℤ (pos (count_of w.worker_type m)) w.count_per_instance
    then m
    else (update_worker_count initialize w.worker_type (count_of w.worker_type m)
        w.count_per_instance m).0

unfoldable pub adjust_all : (String → Option String) → List Worker → Manager → Manager
adjust_all initialize [] m = m
adjust_all initialize (w ∷ ws) m = adjust_all initialize ws (adjust initialize w m)

-- `runOnce`, on what ListWorkers returns.
unfoldable pub run_once : (String → Option String) → Result (List Worker) → Manager → Manager
run_once initialize (err e) m = m
run_once initialize (ok ws) m = adjust_all initialize ws m

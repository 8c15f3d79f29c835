-- ===== src/Engine/Eks/Pods.antt =====
-- What FetchUpdateStatus and FetchPodMetrics make of the pods of a run.
use flotilla_os.Common.{
  ◌+◌, ℤ, pos, ◌≤ℤ◌, ltb_ℤ, eq_ℤ, Bool, true, false, ◌||◌, List, [], ◌∷◌, none, some, ◌≡◌, inl, inr,
  refl, ap, ◌∙◌, arith, ok, returns, deref, ◌>>=◌, ltb, if◌then◌else◌, is_none, All, Option-cases,
  Bool-cases,
}
use flotilla_os.State.Types.{Run, Time}
use flotilla_os.Adapter.Kubernetes.{JobStatus}
use flotilla_os.Adapter.Jobs.{adapt_job_to_flotilla_run}
use flotilla_os.Engine.Eks.{PodAnswers, PodList, get_pod_list}
use flotilla_os.Engine.Eks.Fetch.{
  most_recent_pod, one_day, pods_of, with_recent_pod, with_attempts, is_dangling,
  fetch_update_status, with_usage, larger, fetch_pod_metrics,
}

-- The run as its pods leave it.
abbrev pub run_of_pods : Time → PodAnswers → Run → Run
run_of_pods now answers run =
    with_attempts (with_recent_pod (most_recent_pod (pods_of (get_pod_list now answers run))) run)

attempts_pod_name : (run : Run) → (with_attempts run).pod_name ≡ run.pod_name
unfolding with_attempts
attempts_pod_name run = elim (Option-cases run.pod_events) [
  | inl none_yet ↦ rw none_yet
  | inr (events, there) ↦ rw there
]

no_pods : most_recent_pod [] ≡ none
unfolding most_recent_pod
no_pods = refl

-- The list of a run's pods is empty only for a run that has no pod's name.
empty_list :
    (now : Time) (answers : PodAnswers) (run : Run)
    → get_pod_list now answers run ≡ (some [], none)
    → run.pod_name ≡ none
unfolding get_pod_list
empty_list now answers run h = ground arith

not_dangling :
    (now : Time) (pods : PodList) (run : Run)
    → (pods ≡ (some [], none) → run.pod_name ≡ none)
    → is_dangling now pods run ≡ returns false
unfolding is_dangling
not_dangling now (some [], none) run h =
    ap
      (λ o.
        if is_none o
        then returns false
        else deref run.queued_at >>= λ q. returns (ltb (q + one_day) now))
      (h refl)
not_dangling now (some (p ∷ pods), none) run h = refl
not_dangling now (none, none) run h = refl
not_dangling now (none, some message) run h = refl
not_dangling now (some [], some message) run h = refl
not_dangling now (some (p ∷ pods), some message) run h = refl

recent_pod_name :
    (now : Time) (answers : PodAnswers) (run : Run)
    → get_pod_list now answers run ≡ (some [], none)
    → (run_of_pods now answers run).pod_name ≡ none
unfolding with_recent_pod
recent_pod_name now answers run h =
    attempts_pod_name
      (with_recent_pod (most_recent_pod (pods_of (get_pod_list now answers run))) run)
    ∙ ap (λ pods. (with_recent_pod (most_recent_pod (pods_of pods)) run).pod_name) h
    ∙ ap (λ p. (with_recent_pod p run).pod_name) no_pods
    ∙ empty_list now answers run h

-- The state of a run whose job is read is that of the job and of the pod taken for its most recent
-- one: the branch for a dangling job is never taken, whatever the API answers, since the list of the
-- pods of a run that has a pod's name is never an empty one.
pub fetch_update_status_lem :
    (now : Time) (job : JobStatus) (answers : PodAnswers) (run : Run)
    → fetch_update_status now true (ok job) answers run
      ≡ returns (
        adapt_job_to_flotilla_run now job
            (run_of_pods now answers run)
            (most_recent_pod (pods_of (get_pod_list now answers run))),
        none,
      )
unfolding fetch_update_status
fetch_update_status_lem now job answers run =
    ap
      (λ g. g >>= λ dangling. returns (
        if dangling
        then (
          adapt_job_to_flotilla_run now (record job { failed = pos 1 })
              (run_of_pods now answers run) none,
          none,
        )
        else (
          adapt_job_to_flotilla_run now job (run_of_pods now answers run)
              (most_recent_pod (pods_of (get_pod_list now answers run))),
          none,
        )))
      (not_dangling now (get_pod_list now answers run) (run_of_pods now answers run)
        (recent_pod_name now answers run))

larger-grows : (m n : ℤ) → pos 0 ≤ℤ n → (k : ℤ) × (larger (some m) n ≡ some k) × (m ≤ℤ k)
larger-grows m n h = elim (Bool-cases (eq_ℤ m (pos 0) || ltb_ℤ m n)) [
  | inl raised ↦ (n, rw raised, ground arith)
  | inr kept ↦ (m, rw kept, omega arith)
]

-- The largest uses of a run are at least these.
abbrev pub Grown : ℤ → ℤ → Run → Type 0
Grown mem cpu run =
    ((mem' : ℤ) × (run.max_memory_used ≡ some mem') × (mem ≤ℤ mem'))
    × ((cpu' : ℤ) × (run.max_cpu_used ≡ some cpu') × (cpu ≤ℤ cpu'))

with_usage-grows :
    (containers : List (ℤ × ℤ)) (run : Run) (mem cpu : ℤ)
    → All (λ u. (pos 0 ≤ℤ u.0) × (pos 0 ≤ℤ u.1)) containers
    → run.max_memory_used ≡ some mem
    → run.max_cpu_used ≡ some cpu
    → Grown mem cpu (with_usage containers run)
unfolding with_usage
with_usage-grows [] run mem cpu measured m c = ((mem, m, omega arith), (cpu, c, omega arith))
with_usage-grows ((a, b) ∷ others) run mem cpu measured m c =
    let (mem', em, lm) = larger-grows mem a measured.0.0 in
    let (cpu', ec, lc) = larger-grows cpu b measured.0.1 in
    ((mem', ap (λ o. larger o a) m ∙ em, lm), (cpu', ap (λ o. larger o b) c ∙ ec, lc))

-- The recorded largest use of memory and of cpu never falls, whatever is measured, as long as the
-- measures are not negative.
fetch_pod_metrics-grows :
    (known : Bool) (containers : List (ℤ × ℤ)) (run : Run) (mem cpu : ℤ)
    → All (λ u. (pos 0 ≤ℤ u.0) × (pos 0 ≤ℤ u.1)) containers
    → run.max_memory_used ≡ some mem
    → run.max_cpu_used ≡ some cpu
    → Grown mem cpu (fetch_pod_metrics known (ok containers) run).0
unfolding fetch_pod_metrics
fetch_pod_metrics-grows known containers run mem cpu measured m c =
    elim (Bool-cases (is_none run.pod_name)) [
      | inl no_pod ↦ rw no_pod unchanged
      | inr a_pod ↦ elim (Bool-cases known) [
        | inl is_known ↦ rw (a_pod, is_known) (with_usage-grows containers run mem cpu measured m c)
        | inr unknown ↦ rw (a_pod, unknown) unchanged
      ]
    ]
  where
    unchanged : Grown mem cpu run
    unchanged = ((mem, m, omega arith), (cpu, c, omega arith))

-- ===== src/Worker/Manager/Counts.antt =====
-- The number of workers of a type that a round of the manager leaves, and the workers that it leaks.
use flotilla_os.Common.{
  ℕ, zero, suc, ◌+◌, ◌-◌, ℤ, pos, negsuc, ltb_ℤ, true, false, String, List, [], ◌∷◌, ◌++◌, Option,
  none, some, ◌≡◌, inl, inr, refl, sym, subst, arith, ◌==◌, eq_iff, Error, length, length-append,
  length-drop_last, drop_last, Bool-cases, pos_part,
}
use flotilla_os.Worker.Manager.{
  Workers, find_workers, set_workers, Manager, remove_found, remove_worker, add_found, start_worker,
  number_started, new_worker, add_worker, remove_workers, add_workers, excess, missing,
  update_worker_count,
}

find_workers-set :
    (t : String) (ws old : List ℕ) (m : Workers)
    → find_workers t m ≡ some old
    → find_workers t (set_workers t ws m) ≡ some ws
unfolding find_workers set_workers
find_workers-set t ws old [] h = cc
find_workers-set t ws old ((k, vs) ∷ rest) h = ground (arith, find_workers-set t ws old rest)

pub find_workers-set_other :
    (t k : String) (ws : List ℕ) (m : Workers)
    → (t == k) ≡ false
    → find_workers k (set_workers t ws m) ≡ find_workers k m
unfolding find_workers set_workers
find_workers-set_other t k ws [] h = refl
find_workers-set_other t k ws ((j, vs) ∷ rest) h =
    ground (arith, eq_iff j t, eq_iff j k, eq_iff t k, find_workers-set_other t k ws rest)

-- The workers of a type that is in the map, by their number.
abbrev pub Has : String → ℕ → Manager → Type 0
Has t n m = (ws : List ℕ) × (find_workers t m.workers ≡ some ws) × (length ws ≡ n)

-- A result that leaves this many workers, and no error.
abbrev pub Leaves : String → ℕ → Manager × Option Error → Type 0
Leaves t n r = Has t n r.0 × (r.1 ≡ none)

removed-Leaves :
    (t : String) (ws : List ℕ) (m : Manager)
    → find_workers t m.workers ≡ some ws
    → Leaves t (length ws - 1) (remove_found t (some ws) m)
unfolding remove_found
removed-Leaves t [] m found = (([], found, omega arith), refl)
removed-Leaves t (w ∷ ws) m found = (
  (
    drop_last (w ∷ ws),
    find_workers-set t (drop_last (w ∷ ws)) (w ∷ ws) m.workers found,
    omega (arith, length-drop_last w ws),
  ),
  refl,
)

remove_worker-Leaves :
    (t : String) (n : ℕ) (m : Manager) → Has t n m → Leaves t (n - 1) (remove_worker t m)
unfolding remove_worker
remove_worker-Leaves t n m (ws, found, count) =
    subst (λ o. Leaves t (n - 1) (remove_found t o m)) (sym found)
      (subst (λ k. Leaves t (k - 1) (remove_found t (some ws) m)) count
        (removed-Leaves t ws m found))

added-Leaves :
    (t : String) (ws : List ℕ) (m : Manager)
    → find_workers t m.workers ≡ some ws
    → Leaves t (length ws + 1) (number_started (add_found t (some ws) (start_worker m)))
unfolding add_found start_worker number_started
added-Leaves t ws m found = (
  (
    ws ++ m.started ∷ [],
    find_workers-set t (ws ++ m.started ∷ []) ws m.workers found,
    length-append ws (m.started ∷ []),
  ),
  refl,
)

found_after_start :
    (t : String) (m : Manager) → find_workers t (start_worker m).workers ≡ find_workers t m.workers
unfolding start_worker
found_after_start t m = refl

add_worker-Leaves :
    (initialize : String → Option String) (t : String) (n : ℕ) (m : Manager)
    → new_worker initialize t ≡ none
    → Has t n m
    → Leaves t (n + 1) (add_worker initialize t m)
unfolding add_worker
add_worker-Leaves initialize t n m made (ws, found, count) =
    rw (made, add_worker)
      (subst (λ o. Leaves t (n + 1) (number_started (add_found t o (start_worker m)))) (sym found)
        (subst (λ k. Leaves t (k + 1) (number_started (add_found t (some ws) (start_worker m))))
          count (added-Leaves t ws m found)))

remove_workers-Leaves :
    (k : ℕ) (t : String) (n : ℕ) (m : Manager) → Has t n m → Leaves t (n - k) (remove_workers k t m)
unfolding remove_workers
remove_workers-Leaves zero t n m h = (subst (λ j. Has t j m) (omega arith) h, refl)
remove_workers-Leaves (suc k) t n m h =
    let (h', e) = remove_worker-Leaves t n m h in
    rw (e, remove_workers)
      (subst (λ j. Leaves t j (remove_workers k t (remove_worker t m).0)) (omega arith)
        (remove_workers-Leaves k t (n - 1) (remove_worker t m).0 h'))

add_workers-Leaves :
    (initialize : String → Option String) (k : ℕ) (t : String) (n : ℕ) (m : Manager)
    → new_worker initialize t ≡ none
    → Has t n m
    → Leaves t (n + k) (add_workers initialize k t m)
unfolding add_workers
add_workers-Leaves initialize zero t n m made h = (subst (λ j. Has t j m) (omega arith) h, refl)
add_workers-Leaves initialize (suc k) t n m made h =
    let (h', e) = add_worker-Leaves initialize t n m made h in
    rw (e, add_workers)
      (subst (λ j. Leaves t j (add_workers initialize k t (add_worker initialize t m).0))
        (omega arith)
        (add_workers-Leaves initialize k t (n + 1) (add_worker initialize t m).0 made h'))

excess_lem :
    (current : ℕ) (desired : ℤ)
    → ltb_ℤ desired (pos current) ≡ true
    → current - excess current desired ≡ pos_part desired
excess_lem current (pos d) less = ground arith
excess_lem current (negsuc d) less = omega arith

missing_lem :
    (current : ℕ) (desired : ℤ)
    → ltb_ℤ desired (pos current) ≡ false
    → current + missing current desired ≡ pos_part desired
missing_lem current (pos d) more = ground arith
missing_lem current (negsuc d) more = ground arith

-- The workers of a type that is in the map are as many as are wanted after an update of their
-- number, if no worker fails to be made: too many are stopped, and too few are started. A negative
-- number counts as none.
pub update_worker_count-Leaves :
    (initialize : String → Option String) (t : String) (current : ℕ) (desired : ℤ) (m : Manager)
    → new_worker initialize t ≡ none
    → Has t current m
    → Leaves t (pos_part desired) (update_worker_count initialize t current desired m)
unfolding update_worker_count
update_worker_count-Leaves initialize t current desired m made h =
    elim (Bool-cases (ltb_ℤ desired (pos current))) [
      | inl less ↦
          rw (less, update_worker_count)
            (subst (λ j. Leaves t j (remove_workers (excess current desired) t m))
              (excess_lem current desired less)
              (remove_workers-Leaves (excess current desired) t current m h))
      | inr more ↦
          rw (more, update_worker_count)
            (subst (λ j. Leaves t j (add_workers initialize (missing current desired) t m))
              (missing_lem current desired more)
              (add_workers-Leaves initialize (missing current desired) t current m made h))
    ]

-- A worker of a type that is not in the map, added without an error of NewWorker, is leaked: its
-- goroutine is started, and the map is as it was.
add_worker_leaks :
    (initialize : String → Option String) (t : String) (m : Manager)
    → new_worker initialize t ≡ none
    → find_workers t m.workers ≡ none
    → ((add_worker initialize t m).0.running ≡ m.running ++ m.started ∷ [])
      × ((add_worker initialize t m).0.workers ≡ m.workers)
unfolding add_worker start_worker add_found number_started
add_worker_leaks initialize t m made absent = rw (made, absent, add_worker) (refl, refl)

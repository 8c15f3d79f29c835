-- ===== src/Worker/Manager/Rounds.antt =====
-- A round of the manager of workers: what it does to the type of each row, and to no other type.
use flotilla_os.Common.{
  ℕ, zero, suc, ℤ, pos, negsuc, ltb_ℤ, eq_ℤ, Bool, true, false, not, String, List, [], ◌∷◌, ◌++◌,
  Option, none, some, ◌≡◌, inl, inr, refl, ◌∙◌, subst, arith, ◌==◌, ok, drop_last, Bool-cases,
  Option-cases, pos_part, ◌&&◌,
}
use flotilla_os.State.Types.{Worker}
use flotilla_os.Worker.Manager.{
  find_workers, Manager, remove_found, remove_worker, add_found, start_worker, number_started,
  new_worker, add_worker, remove_workers, add_workers, excess, missing, update_worker_count,
  count_of, adjust, adjust_all, run_once,
}
use flotilla_os.Worker.Manager.Counts.{find_workers-set_other, Has, update_worker_count-Leaves}

-- The workers of a type are the same in both states.
abbrev Same : String → Manager → Manager → Type 0
Same t m' m = find_workers t m'.workers ≡ find_workers t m.workers

removed-Same :
    (k t : String) (o : Option (List ℕ)) (m : Manager)
    → (k == t) ≡ false
    → Same t (remove_found k o m).0 m
unfolding remove_found
removed-Same k t none m h = refl
removed-Same k t (some []) m h = refl
removed-Same k t (some (w ∷ ws)) m h = find_workers-set_other k t (drop_last (w ∷ ws)) m.workers h

remove_worker-Same :
    (k t : String) (m : Manager) → (k == t) ≡ false → Same t (remove_worker k m).0 m
unfolding remove_worker
remove_worker-Same k t m h = removed-Same k t (find_workers k m.workers) m h

added-Same :
    (k t : String) (o : Option (List ℕ)) (m : Manager)
    → (k == t) ≡ false
    → Same t (number_started (add_found k o (start_worker m))).0 m
unfolding add_found start_worker number_started
added-Same k t none m h = refl
added-Same k t (some ws) m h = find_workers-set_other k t (ws ++ m.started ∷ []) m.workers h

add_worker-Same :
    (initialize : String → Option String) (k t : String) (m : Manager)
    → (k == t) ≡ false
    → Same t (add_worker initialize k m).0 m
unfolding add_worker
add_worker-Same initialize k t m h = elim (Option-cases (new_worker initialize k)) [
  | inl made ↦ rw (made, add_worker) (added-Same k t (find_workers k m.workers) m h)
  | inr (e, failed) ↦ rw (failed, add_worker) refl
]

remove_workers-Same :
    (n : ℕ) (k t : String) (m : Manager) → (k == t) ≡ false → Same t (remove_workers n k m).0 m
unfolding remove_workers
remove_workers-Same zero k t m h = refl
remove_workers-Same (suc n) k t m h = elim (Option-cases (remove_worker k m).1) [
  | inl e ↦
      rw (e, remove_workers)
        (remove_workers-Same n k t (remove_worker k m).0 h ∙ remove_worker-Same k t m h)
  | inr (x, e) ↦ rw (e, remove_workers) (remove_worker-Same k t m h)
]

add_workers-Same :
    (initialize : String → Option String) (n : ℕ) (k t : String) (m : Manager)
    → (k == t) ≡ false
    → Same t (add_workers initialize n k m).0 m
unfolding add_workers
add_workers-Same initialize zero k t m h = refl
add_workers-Same initialize (suc n) k t m h = elim (Option-cases (add_worker initialize k m).1) [
  | inl e ↦
      rw (e, add_workers)
        (add_workers-Same initialize n k t (add_worker initialize k m).0 h
          ∙ add_worker-Same initialize k t m h)
  | inr (x, e) ↦ rw (e, add_workers) (add_worker-Same initialize k t m h)
]

update_worker_count-Same :
    (initialize : String → Option String) (k t : String) (current : ℕ) (desired : ℤ) (m : Manager)
    → (k == t) ≡ false
    → Same t (update_worker_count initialize k current desired m).0 m
unfolding update_worker_count
update_worker_count-Same initialize k t current desired m h =
    elim (Bool-cases (ltb_ℤ desired (pos current))) [
      | inl less ↦
          rw (less, update_worker_count) (remove_workers-Same (excess current desired) k t m h)
      | inr more ↦
          rw (more, update_worker_count)
            (add_workers-Same initialize (missing current desired) k t m h)
    ]

adjust-Same :
    (initialize : String → Option String) (w : Worker) (t : String) (m : Manager)
    → (w.worker_type == t) ≡ false
    → Same t (adjust initialize w m) m
unfolding adjust
adjust-Same initialize w t m h =
    elim (Bool-cases (eq_ℤ (pos (count_of w.worker_type m)) w.count_per_instance)) [
      | inl same ↦ rw (same, adjust) refl
      | inr other ↦
          rw (other, adjust)
            (update_worker_count-Same initialize w.worker_type t (count_of w.worker_type m)
              w.count_per_instance m h)
    ]

-- No row is of this type.
unfoldable pub has_no_row : String → List Worker → Bool
has_no_row t [] = true
has_no_row t (w ∷ ws) = not (w.worker_type == t) && has_no_row t ws

no_row-parts : (a b : Bool) → (not a && b) ≡ true → (a ≡ false) × (b ≡ true)
no_row-parts false b h = (refl, h)
no_row-parts true b h = cc

adjust_all-Same :
    (initialize : String → Option String) (ws : List Worker) (t : String) (m : Manager)
    → has_no_row t ws ≡ true
    → Same t (adjust_all initialize ws m) m
unfolding adjust_all has_no_row
adjust_all-Same initialize [] t m h = refl
adjust_all-Same initialize (w ∷ ws) t m h =
    let (first, rest) = no_row-parts (w.worker_type == t) (has_no_row t ws) h in
    adjust_all-Same initialize ws t (adjust initialize w m) rest
    ∙ adjust-Same initialize w t m first

eq_ℤ_pos : (n : ℕ) (d : ℤ) → eq_ℤ (pos n) d ≡ true → n ≡ pos_part d
eq_ℤ_pos n (pos d) h = ground arith
eq_ℤ_pos n (negsuc d) h = ground arith

adjust-Has :
    (initialize : String → Option String) (w : Worker) (n : ℕ) (m : Manager)
    → new_worker initialize w.worker_type ≡ none
    → Has w.worker_type n m
    → Has w.worker_type (pos_part w.count_per_instance) (adjust initialize w m)
unfolding adjust
adjust-Has initialize w n m made (ws, found, count) =
    let h : Has w.worker_type (count_of w.worker_type m) m = (ws, found, rw (found) refl) in
    elim (Bool-cases (eq_ℤ (pos (count_of w.worker_type m)) w.count_per_instance)) [
      | inl same ↦
          rw (same, adjust)
            (subst (λ j. Has w.worker_type j m)
              (eq_ℤ_pos (count_of w.worker_type m) w.count_per_instance same) h)
      | inr other ↦
          rw (other, adjust)
            (update_worker_count-Leaves initialize w.worker_type (count_of w.worker_type m)
              w.count_per_instance m made h).0
    ]

Has-Same : (t : String) (n : ℕ) (m' m : Manager) → Same t m' m → Has t n m → Has t n m'
Has-Same t n m' m same (ws, found, count) = (ws, same ∙ found, count)

adjust_all-Has :
    (initialize : String → Option String) (before : List Worker) (w : Worker) (after : List Worker)
    (n : ℕ) (m : Manager)
    → new_worker initialize w.worker_type ≡ none
    → has_no_row w.worker_type after ≡ true
    → Has w.worker_type n m
    → has_no_row w.worker_type before ≡ true
    → Has w.worker_type
        (pos_part w.count_per_instance)
        (adjust_all initialize (before ++ w ∷ after) m)
unfolding adjust_all has_no_row
adjust_all-Has initialize [] w after n m made alone h b =
    Has-Same w.worker_type (pos_part w.count_per_instance)
      (adjust_all initialize after (adjust initialize w m)) (adjust initialize w m)
      (adjust_all-Same initialize after w.worker_type (adjust initialize w m) alone)
      (adjust-Has initialize w n m made h)
adjust_all-Has initialize (v ∷ before) w after n m made alone h b =
    let (first, rest) =
      no_row-parts (v.worker_type == w.worker_type) (has_no_row w.worker_type before) b in
    adjust_all-Has initialize before w after n (adjust initialize v m) made alone
      (Has-Same w.worker_type n (adjust initialize v m) m
        (adjust-Same initialize v w.worker_type m first) h)
      rest

-- After a round of the manager, a type of workers that it knows has as many workers as its row of
-- the database wants, where a negative number counts as none: whatever the other rows are, if they
-- are of other types, and if no worker of the type fails to be made.
pub run_once-wanted :
    (initialize : String → Option String) (before : List Worker) (w : Worker) (after : List Worker)
    (n : ℕ) (m : Manager)
    → new_worker initialize w.worker_type ≡ none
    → has_no_row w.worker_type before ≡ true
    → has_no_row w.worker_type after ≡ true
    → Has w.worker_type n m
    → Has w.worker_type
        (pos_part w.count_per_instance)
        (run_once initialize (ok (before ++ w ∷ after)) m)
unfolding run_once
run_once-wanted initialize before w after n m made earlier later h =
    adjust_all-Has initialize before w after n m made later h earlier

-- ===== src/State/TaskTable/Rows.antt =====
-- How an update of one row, and the search for a row, act on the list of rows.
use mathlib.Core.Option.{some-injective}
use flotilla_os.Common.{
  Bool, true, false, String, List, [], ◌∷◌, none, some, ◌≡◌, ◌≢◌, inl, inr, refl, sym, ◌∙◌, ap,
  arith, ◌==◌, eq_iff, Bool-cases,
}
use flotilla_os.State.Types.{Run}
use flotilla_os.State.TaskTable.{find_row, write_columns, update_row, exec_update}

pub find_row-key :
    (run_id : String) (rows : List Run) (r : Run)
    → find_row run_id rows ≡ some r
    → r.run_id ≡ run_id
unfolding find_row
find_row-key run_id [] r h = cc
find_row-key run_id (x ∷ rows) r h =
    ground (arith, eq_iff x.run_id run_id, find_row-key run_id rows r)

pub update_row-key : (run_id : String) (e r : Run) → (update_row run_id e r).run_id ≡ r.run_id
unfolding update_row write_columns
update_row-key run_id e r = elim (Bool-cases (r.run_id == run_id)) [
  | inl hit ↦ rw hit
  | inr miss ↦ rw miss
]

update_row_hit :
    (run_id : String) (e r : Run)
    → (r.run_id == run_id) ≡ true
    → update_row run_id e r ≡ write_columns r e
unfolding update_row
update_row_hit run_id e r h = rw h

update_row_miss :
    (run_id : String) (e r : Run) → (r.run_id == run_id) ≡ false → update_row run_id e r ≡ r
unfolding update_row
update_row_miss run_id e r h = rw h

find_row-hit :
    (k : String) (x : Run) (rows : List Run)
    → (x.run_id == k) ≡ true
    → find_row k (x ∷ rows) ≡ some x
unfolding find_row
find_row-hit k x rows h = rw h

find_row-miss :
    (k : String) (x : Run) (rows : List Run)
    → (x.run_id == k) ≡ false
    → find_row k (x ∷ rows) ≡ find_row k rows
unfolding find_row
find_row-miss k x rows h = rw h

exec_update-cons :
    (run_id : String) (e x : Run) (rows : List Run)
    → exec_update run_id e (x ∷ rows) ≡ update_row run_id e x ∷ exec_update run_id e rows
unfolding exec_update
exec_update-cons run_id e x rows = refl

update_row-eq :
    (run_id k : String) (e x : Run) (b : Bool)
    → (x.run_id == k) ≡ b
    → ((update_row run_id e x).run_id == k) ≡ b
update_row-eq run_id k e x b h = ap (λ i. i == k) (update_row-key run_id e x) ∙ h

pub find_row-exec_update_self :
    (run_id : String) (e : Run) (rows : List Run) (r : Run)
    → find_row run_id rows ≡ some r
    → find_row run_id (exec_update run_id e rows) ≡ some (write_columns r e)
find_row-exec_update_self run_id e [] r h = unfold find_row in cc
find_row-exec_update_self run_id e (x ∷ rows) r h = elim (Bool-cases (x.run_id == run_id)) [
  | inl hit ↦
      ap (find_row run_id) (exec_update-cons run_id e x rows)
      ∙ find_row-hit run_id _ _ (update_row-eq run_id run_id e x true hit)
      ∙ ap some (update_row_hit run_id e x hit)
      ∙ ap (λ y. some (write_columns y e))
          (some-injective x r (sym (find_row-hit run_id x rows hit) ∙ h))
  | inr miss ↦
      ap (find_row run_id) (exec_update-cons run_id e x rows)
      ∙ find_row-miss run_id _ _ (update_row-eq run_id run_id e x false miss)
      ∙ find_row-exec_update_self run_id e rows r (sym (find_row-miss run_id x rows miss) ∙ h)
]

other_key : (s a b : String) → a ≢ b → (s == a) ≡ true → (s == b) ≡ false
other_key s a b h e = ground (arith, eq_iff s a, eq_iff s b)

pub find_row-exec_update_ne :
    (run_id other : String) (e : Run) (rows : List Run)
    → run_id ≢ other
    → find_row other (exec_update run_id e rows) ≡ find_row other rows
find_row-exec_update_ne run_id other e [] h = unfold exec_update in refl
find_row-exec_update_ne run_id other e (x ∷ rows) h = elim (Bool-cases (x.run_id == other)) [
  | inl hit ↦
      let miss = other_key x.run_id other run_id (λ p. h (sym p)) hit in
      ap (find_row other) (exec_update-cons run_id e x rows)
      ∙ find_row-hit other _ _ (update_row-eq run_id other e x true hit)
      ∙ ap some (update_row_miss run_id e x miss)
      ∙ sym (find_row-hit other x rows hit)
  | inr miss ↦
      ap (find_row other) (exec_update-cons run_id e x rows)
      ∙ find_row-miss other _ _ (update_row-eq run_id other e x false miss)
      ∙ find_row-exec_update_ne run_id other e rows h
      ∙ sym (find_row-miss other x rows miss)
]

pub exec_update_missing :
    (run_id : String) (e : Run) (rows : List Run)
    → find_row run_id rows ≡ none
    → exec_update run_id e rows ≡ rows
unfolding find_row exec_update
exec_update_missing run_id e [] h = refl
exec_update_missing run_id e (x ∷ rows) h =
    ground (arith, update_row_miss run_id e x, exec_update_missing run_id e rows)

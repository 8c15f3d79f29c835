-- ===== src/State/DefinitionTable/Deletes.antt =====
-- What a deletion of a definition leaves.
use flotilla_os.Common.{
  ℕ, Bool, false, not, String, List, [], ◌∷◌, Option, none, some, Error, ◌==◌, eq_iff, keep, any,
  ◌≡◌, refl, sym, ◌∙◌, ap, subst, arith, Option-cases, inl, inr,
}
use flotilla_os.State.Types.{Definition}
use flotilla_os.State.DefinitionTable.{
  Tables, StatementFaults, Statement, run_statements, transact, find_by, get_definition_row,
  delete_ports, delete_tags, delete_tasks, delete_row, delete_definition,
}
use flotilla_os.State.DefinitionTable.Reads.{transact_done, transact_error}

any-keep-not {ℓ} :
    {A : Type ℓ} (p : A → Bool) (xs : List A) → any p (keep (λ x. not (p x)) xs) ≡ false
any-keep-not p [] = refl
any-keep-not p (x ∷ xs) = ground (arith, any-keep-not p xs)

find_by-keep :
    (id k : String) (ds : List Definition)
    → (id == k) ≡ false
    → find_by (λ r. r.definition_id) k (keep (λ r. not (r.definition_id == id)) ds)
      ≡ find_by (λ r. r.definition_id) k ds
unfolding find_by
find_by-keep id k [] h = refl
find_by-keep id k (x ∷ ds) h =
    ground (
      arith,
      eq_iff x.definition_id id,
      eq_iff x.definition_id k,
      eq_iff id k,
      find_by-keep id k ds,
    )

deleted_tables :
    (fails : ℕ → Bool) (id : String) (t t' : Tables)
    → run_statements fails 0
        (delete_ports id ∷ delete_tags id ∷ delete_tasks id ∷ delete_row id ∷ [])
        t
      ≡ some t'
    → t' ≡ record t {
      definitions = keep (λ r. not (r.definition_id == id)) t.definitions;
      ports = keep (λ r. not (r.0 == id)) t.ports;
      definition_tags = keep (λ r. not (r.0 == id)) t.definition_tags;
      tasks = keep (λ r. not (r.definition_id == id)) t.tasks;
    }
unfolding run_statements delete_ports delete_tags delete_tasks delete_row
deleted_tables fails id t t' h = ground arith

-- After an error nothing has changed, and after a deletion no row of the definition is left.
abbrev pub DeletedOr : String → Tables → Tables × Option Error → Type 0
DeletedOr id t (t', some e) = t' ≡ t
DeletedOr id t (t', none) =
    (any (λ r. r.definition_id == id) t'.definitions ≡ false)
    × (any (λ r. r.0 == id) t'.ports ≡ false)
    × (any (λ r. r.0 == id) t'.definition_tags ≡ false)
    × (any (λ r. r.definition_id == id) t'.tasks ≡ false)

pub delete_definition_error :
    (faults : StatementFaults) (id : String) (t : Tables) (e : Error)
    → (delete_definition faults id t).1 ≡ some e
    → (delete_definition faults id t).0 ≡ t
unfolding delete_definition
delete_definition_error faults id t e failed =
    transact_error faults "issue deleting definition"
      (delete_ports id ∷ delete_tags id ∷ delete_tasks id ∷ delete_row id ∷ []) t e failed

pub delete_definition_done :
    (faults : StatementFaults) (id : String) (t : Tables)
    → (delete_definition faults id t).1 ≡ none
    → (delete_definition faults id t).0 ≡ record t {
      definitions = keep (λ r. not (r.definition_id == id)) t.definitions;
      ports = keep (λ r. not (r.0 == id)) t.ports;
      definition_tags = keep (λ r. not (r.0 == id)) t.definition_tags;
      tasks = keep (λ r. not (r.definition_id == id)) t.tasks;
    }
unfolding delete_definition
delete_definition_done faults id t done =
    let ss : List Statement =
      delete_ports id ∷ delete_tags id ∷ delete_tasks id ∷ delete_row id ∷ [] in
    deleted_tables faults.exec_fails id t (transact faults "issue deleting definition" ss t).0
      (transact_done faults "issue deleting definition" ss t done)

get_definition_row-keep :
    (id other : String) (t t' : Tables)
    → (id == other) ≡ false
    → t'.definitions ≡ keep (λ r. not (r.definition_id == id)) t.definitions
    → get_definition_row false other t' ≡ get_definition_row false other t
unfolding get_definition_row
get_definition_row-keep id other t t' apart e =
    rw
      (
        ap (find_by (λ r. r.definition_id) other) e ∙ find_by-keep id other t.definitions apart,
        get_definition_row,
      )
      refl

-- A deletion that returns no error leaves no row of the definition in any of the four tables that have
-- them, its runs included, and every other definition is read as before. A deletion with an error
-- changes nothing.
pub delete_definition_lem :
    (faults : StatementFaults) (id other : String) (t : Tables)
    → (id == other) ≡ false
    → DeletedOr id t (delete_definition faults id t)
      × (get_definition_row false other (delete_definition faults id t).0
          ≡ get_definition_row false other t)
delete_definition_lem faults id other t apart =
    elim (Option-cases (delete_definition faults id t).1) [
      | inr (x, failed) ↦
          let same = delete_definition_error faults id t x failed in
          (
            subst (λ e. DeletedOr id t ((delete_definition faults id t).0, e)) (sym failed) same,
            ap (get_definition_row false other) same,
          )
      | inl done ↦
          let e = delete_definition_done faults id t done in
          (
            subst (λ x. DeletedOr id t ((delete_definition faults id t).0, x)) (sym done)
                (rw (e) (
                  any-keep-not (λ r. r.definition_id == id) t.definitions,
                  any-keep-not (λ r. r.0 == id) t.ports,
                  any-keep-not (λ r. r.0 == id) t.definition_tags,
                  any-keep-not (λ r. r.definition_id == id) t.tasks,
                )),
            get_definition_row-keep id other t (delete_definition faults id t).0 apart
                (ap (λ t. t.definitions) e),
          )
    ]

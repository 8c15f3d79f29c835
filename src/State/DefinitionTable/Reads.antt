-- ===== src/State/DefinitionTable/Reads.antt =====
-- What is read of a definition after it was created, updated or deleted.
use flotilla_os.Common.{
  ℕ, ◌+◌, ℤ, Bool, false, String, List, [], ◌∷◌, ◌++◌, none, some, Error, ok, ◌==◌, eq_refl, any,
  get_or, ◌≡◌, refl, ◌∙◌, ap, arith, All, Option-cases, inl, inr,
}
use flotilla_os.State.Types.{Definition}
use flotilla_os.State.DefinitionTable.{
  Tables, StatementFaults, Statement, run_statements, transact, definition_row, select_definition,
  find_by, read_definition, get_definition_row, get_definition_by_alias, insert_definition,
  insert_port, insert_tag, insert_definition_tag, port_statements, tag_statements, part_statements,
  create_definition,
}

pub transact_done :
    (faults : StatementFaults) (issue : String) (ss : List Statement) (t : Tables)
    → (transact faults issue ss t).1 ≡ none
    → run_statements faults.exec_fails 0 ss t ≡ some (transact faults issue ss t).0
unfolding transact
transact_done faults issue ss t done = ground arith

pub transact_error :
    (faults : StatementFaults) (issue : String) (ss : List Statement) (t : Tables) (e : Error)
    → (transact faults issue ss t).1 ≡ some e
    → (transact faults issue ss t).0 ≡ t
unfolding transact
transact_error faults issue ss t e failed = ground arith

pub run_statements_head :
    (fails : ℕ → Bool) (i : ℕ) (s : Statement) (ss : List Statement) (t t' : Tables)
    → run_statements fails i (s ∷ ss) t ≡ some t'
    → (t₁ : Tables) × (s t ≡ some t₁) × (run_statements fails (i + 1) ss t₁ ≡ some t')
unfolding run_statements
run_statements_head fails i s ss t t' h = elim (Option-cases (s t)) [
  | inl refused ↦ absurd (ground arith)
  | inr (t₁, made) ↦ (t₁, made, ground arith)
]

abbrev KeepsDefinitions : Statement → Type 0
KeepsDefinitions s = (t t' : Tables) → s t ≡ some t' → t'.definitions ≡ t.definitions

run_statements-KeepsDefinitions :
    (fails : ℕ → Bool) (i : ℕ) (ss : List Statement) (t t' : Tables)
    → All KeepsDefinitions ss
    → run_statements fails i ss t ≡ some t'
    → t'.definitions ≡ t.definitions
unfolding run_statements
run_statements-KeepsDefinitions fails i [] t t' all h = ground arith
run_statements-KeepsDefinitions fails i (s ∷ ss) t t' all h =
    let (t₁, made, rest) = run_statements_head fails i s ss t t' h in
    run_statements-KeepsDefinitions fails (i + 1) ss t₁ t' all.1 rest ∙ all.0 t t₁ made

ports-KeepsDefinitions :
    (id : String) (ps : List ℤ) (ss : List Statement)
    → All KeepsDefinitions ss
    → All KeepsDefinitions (port_statements id ps ++ ss)
unfolding port_statements insert_port
ports-KeepsDefinitions id [] ss h = h
ports-KeepsDefinitions id (p ∷ ps) ss h =
    (λ t t' e. ground arith, ports-KeepsDefinitions id ps ss h)

tags-KeepsDefinitions :
    (id : String) (tags : List String) → All KeepsDefinitions (tag_statements id tags)
unfolding tag_statements insert_tag insert_definition_tag
tags-KeepsDefinitions id [] = tt
tags-KeepsDefinitions id (tag ∷ rest) =
    (λ t t' e. ground arith, (λ t t' e. ground arith, tags-KeepsDefinitions id rest))

pub parts_keep_definitions :
    (fails : ℕ → Bool) (i : ℕ) (id : String) (d : Definition) (t t' : Tables)
    → run_statements fails i (part_statements id d) t ≡ some t'
    → t'.definitions ≡ t.definitions
parts_keep_definitions fails i id d t t' h =
    run_statements-KeepsDefinitions fails i (part_statements id d) t t'
      (ports-KeepsDefinitions id (get_or [] d.ports) (tag_statements id (get_or [] d.tags))
        (tags-KeepsDefinitions id (get_or [] d.tags)))
      h

inserted_row :
    (d : Definition) (t t' : Tables)
    → insert_definition d t ≡ some t'
    → (t'.definitions ≡ t.definitions ++ definition_row d ∷ [])
      × (any (λ r. r.definition_id == d.definition_id) t.definitions ≡ false)
      × (any (λ r. r.alias == d.alias) t.definitions ≡ false)
unfolding insert_definition
inserted_row d t t' h = ground arith

-- The table `task_def` after a creation without an error, and what its constraints allowed.
pub create_definition_done :
    (faults : StatementFaults) (d : Definition) (t : Tables)
    → (create_definition faults d t).1 ≡ none
    → ((create_definition faults d t).0.definitions ≡ t.definitions ++ definition_row d ∷ [])
      × (any (λ r. r.definition_id == d.definition_id) t.definitions ≡ false)
      × (any (λ r. r.alias == d.alias) t.definitions ≡ false)
unfolding create_definition
create_definition_done faults d t done =
    let t' = (create_definition faults d t).0 in
    let (t₁, inserted, rest) =
      run_statements_head faults.exec_fails 0 (insert_definition d)
        (part_statements d.definition_id d) t t'
        (transact_done faults "issue creating new task definition"
          (insert_definition d ∷ part_statements d.definition_id d) t done) in
    let kept = parts_keep_definitions faults.exec_fails (0 + 1) d.definition_id d t₁ t' rest in
    let (made, new_id, new_alias) = inserted_row d t t₁ inserted in (kept ∙ made, new_id, new_alias)

find_by-append :
    (key : Definition → String) (d : Definition) (ds : List Definition)
    → any (λ r. key r == key d) ds ≡ false
    → find_by key (key d) (ds ++ d ∷ []) ≡ some d
unfolding find_by
find_by-append key d [] h = ground (arith, eq_refl (key d))
find_by-append key d (x ∷ ds) h = ground (arith, find_by-append key d ds)

-- A definition whose creation returns no error is read by its identifier and by its alias as it was
-- given, but for its task type, which is empty, and for its ports and tags, which are not the ones given: it
-- has no port and one empty tag.
pub get_definition-create :
    (faults : StatementFaults) (d : Definition) (t : Tables)
    → (create_definition faults d t).1 ≡ none
    → let t' = (create_definition faults d t).0 in
      let stored = record d {
        task_type = "";
        executable_resources = record d.executable_resources {
          ports = some [];
          tags = some ("" ∷ []);
        };
      } in
      (get_definition_row false d.definition_id t' ≡ ok stored)
      × (get_definition_by_alias false d.alias t' ≡ ok stored)
unfolding get_definition_row get_definition_by_alias read_definition definition_row
    select_definition
get_definition-create faults d t done =
    let (made, new_id, new_alias) = create_definition_done faults d t done in
    (
      rw
          (
            ap (find_by (λ r. r.definition_id) d.definition_id) made
                ∙ find_by-append (λ r. r.definition_id) (definition_row d) t.definitions new_id,
            get_definition_row,
          )
          refl,
      rw
          (
            ap (find_by (λ r. r.alias) d.alias) made
                ∙ find_by-append (λ r. r.alias) (definition_row d) t.definitions new_alias,
            get_definition_by_alias,
          )
          refl,
    )

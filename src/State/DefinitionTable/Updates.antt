-- ===== src/State/DefinitionTable/Updates.antt =====
-- What an update of a definition does to its row, its ports and its tags.
use flotilla_os.Common.{
  ℕ, ◌+◌, Bool, true, false, not, ◌&&◌, String, List, [], ◌∷◌, ◌++◌, Option, none, some, Error, ok,
  err, ◌==◌, eq_refl, keep, any, map, ◌≡◌, refl, sym, ◌∙◌, ap, subst, arith, Option-cases, inl, inr,
  ok-injective, Result-cases,
}
use flotilla_os.State.Types.{Definition}
use flotilla_os.State.Validity.{definition_update_with}
use flotilla_os.State.DefinitionTable.{
  Tables, StatementFaults, Statement, run_statements, transact, select_definition, find_by,
  read_definition, get_definition_row, insert_definition, insert_tag, insert_definition_tag,
  delete_ports, delete_tags, lock_row, write_definition, update_row_of, port_statements,
  tag_statements, part_statements, create_definition, update_statements, update_definition,
}
use flotilla_os.State.DefinitionTable.Reads.{transact_done, transact_error, run_statements_head}

-- The rows of a definition in a table of pairs.
abbrev pub parts_of {ℓ} : {A : Type ℓ} → String → List (String × A) → List (String × A)
parts_of id rows = keep (λ r. r.0 == id) rows

parts_of-delete {ℓ} :
    {A : Type ℓ} (id : String) (rows : List (String × A))
    → parts_of id (keep (λ r. not (r.0 == id)) rows) ≡ []
parts_of-delete id [] = refl
parts_of-delete id (r ∷ rows) = ground (arith, parts_of-delete id rows)

parts_of-append {ℓ} :
    {A : Type ℓ} (id : String) (a : A) (rows : List (String × A))
    → parts_of id (rows ++ (id, a) ∷ []) ≡ parts_of id rows ++ (id, a) ∷ []
parts_of-append id a [] = ground (arith, eq_refl id)
parts_of-append id a (r ∷ rows) = ground (arith, parts_of-append id a rows)

pub cleared :
    (fails : ℕ → Bool) (i : ℕ) (id : String) (d : Definition) (ss : List Statement) (t t' : Tables)
    → run_statements fails i
        (lock_row ∷ delete_ports id ∷ delete_tags id ∷ update_row_of id d ∷ ss)
        t
      ≡ some t'
    → (t₁ : Tables) × (j : ℕ) × (run_statements fails j ss t₁ ≡ some t')
      × (t₁.ports ≡ keep (λ r. not (r.0 == id)) t.ports)
      × (t₁.definition_tags ≡ keep (λ r. not (r.0 == id)) t.definition_tags)
      × (t₁.definitions ≡ map (write_definition id d) t.definitions)
      × (any (λ r. r.alias == d.alias && not (r.definition_id == id)) t.definitions ≡ false)
unfolding delete_ports delete_tags update_row_of
cleared fails i id d ss t t' h =
    let (a, made_a, rest_a) =
      run_statements_head fails i lock_row
        (delete_ports id ∷ delete_tags id ∷ update_row_of id d ∷ ss) t t' h in
    let (b, made_b, rest_b) =
      run_statements_head fails (i + 1) (delete_ports id) (delete_tags id ∷ update_row_of id d ∷ ss)
        a t' rest_a in
    let (c, made_c, rest_c) =
      run_statements_head fails (i + 1 + 1) (delete_tags id) (update_row_of id d ∷ ss) b t'
        rest_b in
    let (e, made_e, rest_e) =
      run_statements_head fails (i + 1 + 1 + 1) (update_row_of id d) ss c t' rest_c in
    (e, i + 1 + 1 + 1 + 1, rest_e, ground arith, ground arith, ground arith, ground arith)

one_tag_added :
    (fails : ℕ → Bool) (i : ℕ) (id : String) (t t' : Tables)
    → run_statements fails i (insert_tag "" ∷ insert_definition_tag id "" ∷ []) t ≡ some t'
    → (t'.ports ≡ t.ports) × (t'.definition_tags ≡ t.definition_tags ++ (id, "") ∷ [])
unfolding run_statements insert_tag insert_definition_tag
one_tag_added fails i id t t' h = ground arith

updated_parts :
    (fails : ℕ → Bool) (id : String) (d : Definition) (t t' : Tables)
    → d.ports ≡ some []
    → d.tags ≡ some ("" ∷ [])
    → run_statements fails 0 (update_statements id d) t ≡ some t'
    → (parts_of id t'.ports ≡ []) × (parts_of id t'.definition_tags ≡ (id, "") ∷ [])
unfolding update_statements port_statements tag_statements
updated_parts fails id d t t' no_ports one_tag h =
    let (t₁, j, rest, ports, tags, _, _) = cleared fails 0 id d (part_statements id d) t t' h in
    let last : part_statements id d ≡ insert_tag "" ∷ insert_definition_tag id "" ∷ [] =
      rw (no_ports, one_tag) refl in
    let (ports', tags') =
      one_tag_added fails j id t₁ t'
        (subst (λ ss. run_statements fails j ss t₁ ≡ some t') last rest) in
    (
      ap (parts_of id) (ports' ∙ ports) ∙ parts_of-delete id t.ports,
      ap (parts_of id) tags'
          ∙ parts_of-append id "" t₁.definition_tags
          ∙ ap (λ rows. parts_of id rows ++ (id, "") ∷ []) tags
          ∙ ap (λ rows. rows ++ (id, "") ∷ []) (parts_of-delete id t.definition_tags),
    )

answered :
    (d' d : Definition) (e : Option Error)
    → (elim e [ none ↦ ok d' | some e ↦ err e ]) ≡ ok d
    → (e ≡ none) × (d ≡ d')
answered d' d none h = (refl, sym (ok-injective d' d h))
answered d' d (some e) h = cc

pub update_definition_step :
    (faults : StatementFaults) (id : String) (updates : Definition) (t : Tables) (row : Definition)
    → find_by (λ r. r.definition_id) id t.definitions ≡ some row
    → let d = definition_update_with (select_definition row) updates in
      let (t', e) = transact faults "issue updating definition" (update_statements id d) t in
      update_definition false faults id updates t ≡ (t', elim e [ none ↦ ok d | some e ↦ err e ])
unfolding update_definition get_definition_row read_definition
update_definition_step faults id updates t row found =
    rw (found, update_definition, get_definition_row) refl

pub update_definition_found :
    (faults : StatementFaults) (id : String) (updates : Definition) (t : Tables) (d : Definition)
    → (update_definition false faults id updates t).1 ≡ ok d
    → (row : Definition) × (find_by (λ r. r.definition_id) id t.definitions ≡ some row)
unfolding update_definition get_definition_row
update_definition_found faults id updates t d done =
    elim (Option-cases (find_by (λ r. r.definition_id) id t.definitions)) [
      | inr (row, found) ↦ (row, found)
      | inl absent ↦ absurd (ground arith)
    ]

pub update_definition_done :
    (faults : StatementFaults) (id : String) (updates : Definition) (t : Tables) (d : Definition)
    → (update_definition false faults id updates t).1 ≡ ok d
    → (row : Definition) × (find_by (λ r. r.definition_id) id t.definitions ≡ some row)
      × (d ≡ definition_update_with (select_definition row) updates)
      × (run_statements faults.exec_fails 0 (update_statements id d) t
          ≡ some (update_definition false faults id updates t).0)
update_definition_done faults id updates t d done =
    let (row, found) = update_definition_found faults id updates t d done in
    let d' = definition_update_with (select_definition row) updates in
    let sent = transact faults "issue updating definition" (update_statements id d') t in
    let step = update_definition_step faults id updates t row found in
    let (no_error, same) = answered d' d sent.1 (sym (ap (λ r. r.1) step) ∙ done) in
    (
      row,
      found,
      same,
      subst
          (λ x.
            run_statements faults.exec_fails 0 (update_statements id x) t
            ≡ some (update_definition false faults id updates t).0)
          (sym same)
          (transact_done faults "issue updating definition" (update_statements id d') t no_error
            ∙ ap (λ r. some r.0) (sym step)),
    )

-- An update that returns an error changes nothing.
pub update_definition_error :
    (read_fails : Bool) (faults : StatementFaults) (id : String) (updates : Definition) (t : Tables)
    (e : Error)
    → (update_definition read_fails faults id updates t).1 ≡ err e
    → (update_definition read_fails faults id updates t).0 ≡ t
unfolding update_definition
update_definition_error read_fails faults id updates t e failed =
    elim (Result-cases (get_definition_row read_fails id t)) [
      | inr (x, missing) ↦ rw (missing, update_definition) refl
      | inl (existing, found) ↦
          let d = definition_update_with existing updates in
          elim (Option-cases
            (transact faults "issue updating definition" (update_statements id d) t).1) [
              | inl done ↦ absurd (ground arith)
              | inr (x, failed') ↦
                  rw (found, update_definition)
                    (transact_error faults "issue updating definition" (update_statements id d) t x
                      failed')
            ]
    ]

pub update_definition_unread :
    (faults : StatementFaults) (id : String) (updates : Definition) (t : Tables)
    → (update_definition true faults id updates t).0 ≡ t
unfolding update_definition get_definition_row read_definition
update_definition_unread faults id updates t = ground arith

pub create_definition_error :
    (faults : StatementFaults) (d : Definition) (t : Tables) (e : Error)
    → (create_definition faults d t).1 ≡ some e
    → (create_definition faults d t).0 ≡ t
unfolding create_definition
create_definition_error faults d t e failed =
    transact_error faults "issue creating new task definition"
      (insert_definition d ∷ part_statements d.definition_id d) t e failed

-- An update that names no ports and no tags takes all of them from the definition, and leaves it with
-- one empty tag: since what it reads of the definition has no port and an empty tag, and is written back.
pub update_definition_forgets :
    (faults : StatementFaults) (id : String) (updates : Definition) (t : Tables) (d : Definition)
    → updates.ports ≡ none
    → updates.tags ≡ none
    → (update_definition false faults id updates t).1 ≡ ok d
    → let t' = (update_definition false faults id updates t).0 in
      (parts_of id t'.ports ≡ []) × (parts_of id t'.definition_tags ≡ (id, "") ∷ [])
unfolding definition_update_with select_definition
update_definition_forgets faults id updates t d no_ports no_tags done =
    let (row, found, same, ran) = update_definition_done faults id updates t d done in
    updated_parts faults.exec_fails id d t (update_definition false faults id updates t).0
      (rw (same, no_ports) refl) (rw (same, no_tags) refl) ran

-- ===== src/State/DefinitionTable/Aliases.antt =====
-- Whatever is done to the definitions, no two of them share an identifier or an alias.
use flotilla_os.Common.{
  Bool, true, false, not, ◌&&◌, String, List, [], ◌∷◌, ◌++◌, if◌then◌else◌, ◌==◌, eq_iff, keep, any,
  map, ◌≡◌, refl, sym, ◌∙◌, ap, subst, arith, Option-cases, Result-cases, inl, inr,
  string_slice_contains,
}
use flotilla_os.Common.Firsts.{distinct_keys}
use flotilla_os.State.Types.{Definition}
use flotilla_os.State.DefinitionTable.{
  Tables, StatementFaults, definition_row, write_definition, part_statements, create_definition,
  update_statements, update_definition, delete_definition,
}
use flotilla_os.State.DefinitionTable.Reads.{create_definition_done, parts_keep_definitions}
use flotilla_os.State.DefinitionTable.Updates.{
  update_definition_error, update_definition_unread, create_definition_error,
  update_definition_done, cleared,
}
use flotilla_os.State.DefinitionTable.Deletes.{delete_definition_error, delete_definition_done}

-- The two constraints on the rows of `task_def`.
abbrev pub IsKeyed : List Definition → Type 0
IsKeyed ds =
    (distinct_keys (λ d. d.definition_id) ds ≡ true) × (distinct_keys (λ d. d.alias) ds ≡ true)

contains-append :
    (key : Definition → String) (k : String) (ds : List Definition) (d : Definition)
    → (key d == k) ≡ false
    → string_slice_contains (map key ds) k ≡ false
    → string_slice_contains (map key (ds ++ d ∷ [])) k ≡ false
unfolding string_slice_contains
contains-append key k [] d apart h = ground arith
contains-append key k (x ∷ ds) d apart h = ground (arith, contains-append key k ds d)

distinct-append :
    (key : Definition → String) (ds : List Definition) (d : Definition)
    → any (λ r. key r == key d) ds ≡ false
    → distinct_keys key ds ≡ true
    → distinct_keys key (ds ++ d ∷ []) ≡ true
unfolding distinct_keys string_slice_contains
distinct-append key [] d fresh h = refl
distinct-append key (x ∷ ds) d fresh h = ground (
  arith,
  eq_iff (key x) (key d),
  eq_iff (key d) (key x),
  distinct-append key ds d,
  contains-append key (key x) ds d,
)

contains-keep :
    (key : Definition → String) (p : Definition → Bool) (k : String) (ds : List Definition)
    → string_slice_contains (map key ds) k ≡ false
    → string_slice_contains (map key (keep p ds)) k ≡ false
unfolding string_slice_contains
contains-keep key p k [] h = h
contains-keep key p k (x ∷ ds) h = ground (arith, contains-keep key p k ds)

distinct-keep :
    (key : Definition → String) (p : Definition → Bool) (ds : List Definition)
    → distinct_keys key ds ≡ true
    → distinct_keys key (keep p ds) ≡ true
unfolding distinct_keys
distinct-keep key p [] h = h
distinct-keep key p (x ∷ ds) h =
    ground (arith, distinct-keep key p ds, contains-keep key p (key x) ds)

written_id :
    (id : String) (d r : Definition) → (write_definition id d r).definition_id ≡ r.definition_id
unfolding write_definition
written_id id d r = ground arith

written_alias :
    (id : String) (d r : Definition)
    → (write_definition id d r).alias ≡ (if r.definition_id == id then d.alias else r.alias)
unfolding write_definition
written_alias id d r = ground arith

ids-write :
    (id : String) (d : Definition) (ds : List Definition)
    → map (λ r. r.definition_id) (map (write_definition id d) ds) ≡ map (λ r. r.definition_id) ds
ids-write id d [] = refl
ids-write id d (x ∷ ds) = rw (written_id id d x, ids-write id d ds) refl

distinct_ids-write :
    (id : String) (d : Definition) (ds : List Definition)
    → distinct_keys (λ r. r.definition_id) ds ≡ true
    → distinct_keys (λ r. r.definition_id) (map (write_definition id d) ds) ≡ true
unfolding distinct_keys
distinct_ids-write id d [] h = h
distinct_ids-write id d (x ∷ ds) h = ground (
  arith,
  written_id id d x,
  ap (λ ks. string_slice_contains ks x.definition_id) (ids-write id d ds),
  distinct_ids-write id d ds,
)

-- The aliases that a list has after an update, apart from the new one.
aliases-write :
    (id k : String) (d : Definition) (ds : List Definition)
    → (d.alias == k) ≡ false
    → string_slice_contains (map (λ r. r.alias) ds) k ≡ false
    → string_slice_contains (map (λ r. r.alias) (map (write_definition id d) ds)) k ≡ false
unfolding string_slice_contains
aliases-write id k d [] apart h = h
aliases-write id k d (x ∷ ds) apart h =
    ground (arith, written_alias id d x, aliases-write id k d ds)

-- Without the definition that is updated, no row has its new alias.
new_alias_free :
    (id : String) (d : Definition) (ds : List Definition)
    → string_slice_contains (map (λ r. r.definition_id) ds) id ≡ false
    → any (λ r. r.alias == d.alias && not (r.definition_id == id)) ds ≡ false
    → string_slice_contains (map (λ r. r.alias) (map (write_definition id d) ds)) d.alias ≡ false
unfolding string_slice_contains
new_alias_free id d [] absent free = refl
new_alias_free id d (x ∷ ds) absent free =
    ground (arith, written_alias id d x, new_alias_free id d ds)

distinct_aliases-write :
    (id : String) (d : Definition) (ds : List Definition)
    → distinct_keys (λ r. r.definition_id) ds ≡ true
    → any (λ r. r.alias == d.alias && not (r.definition_id == id)) ds ≡ false
    → distinct_keys (λ r. r.alias) ds ≡ true
    → distinct_keys (λ r. r.alias) (map (write_definition id d) ds) ≡ true
unfolding distinct_keys
distinct_aliases-write id d [] ids free h = h
distinct_aliases-write id d (x ∷ ds) ids free h = ground (
  arith,
  written_alias id d x,
  eq_iff x.definition_id id,
  eq_iff x.alias d.alias,
  eq_iff d.alias x.alias,
  distinct_aliases-write id d ds,
  new_alias_free id d ds,
  aliases-write id x.alias d ds,
)

create-IsKeyed :
    (faults : StatementFaults) (d : Definition) (t : Tables)
    → IsKeyed t.definitions
    → IsKeyed (create_definition faults d t).0.definitions
unfolding create_definition definition_row
create-IsKeyed faults d t (ids, aliases) = elim (Option-cases (create_definition faults d t).1) [
  | inr (e, failed) ↦ rw (create_definition_error faults d t e failed) (ids, aliases)
  | inl done ↦
      let (made, new_id, new_alias) = create_definition_done faults d t done in
      subst IsKeyed (sym made) (
        distinct-append (λ r. r.definition_id) t.definitions (definition_row d) new_id ids,
        distinct-append (λ r. r.alias) t.definitions (definition_row d) new_alias aliases,
      )
]

update-IsKeyed :
    (read_fails : Bool) (faults : StatementFaults) (id : String) (updates : Definition) (t : Tables)
    → IsKeyed t.definitions
    → IsKeyed (update_definition read_fails faults id updates t).0.definitions
update-IsKeyed true faults id updates t keyed =
    rw (update_definition_unread faults id updates t) keyed
update-IsKeyed false faults id updates t (ids, aliases) =
    elim (Result-cases (update_definition false faults id updates t).1) [
      | inr (e, failed) ↦
          rw (update_definition_error false faults id updates t e failed) (ids, aliases)
      | inl (d, done) ↦
          let t' = (update_definition false faults id updates t).0 in
          let (row, found, same, ran) = update_definition_done faults id updates t d done in
          let (t₁, j, rest, _, _, made, free) =
            cleared faults.exec_fails 0 id d (part_statements id d) t t'
              (unfold update_statements in ran) in
          subst IsKeyed (sym (parts_keep_definitions faults.exec_fails j id d t₁ t' rest ∙ made)) (
            distinct_ids-write id d t.definitions ids,
            distinct_aliases-write id d t.definitions ids free aliases,
          )
    ]

delete-IsKeyed :
    (faults : StatementFaults) (id : String) (t : Tables)
    → IsKeyed t.definitions
    → IsKeyed (delete_definition faults id t).0.definitions
delete-IsKeyed faults id t (ids, aliases) = elim (Option-cases (delete_definition faults id t).1) [
  | inr (e, failed) ↦ rw (delete_definition_error faults id t e failed) (ids, aliases)
  | inl done ↦ rw (delete_definition_done faults id t done) (
    distinct-keep (λ r. r.definition_id) (λ r. not (r.definition_id == id)) t.definitions ids,
    distinct-keep (λ r. r.alias) (λ r. not (r.definition_id == id)) t.definitions aliases,
  )
]

-- A call on the definitions, with what the database refuses.
pub data DefinitionCall : Type 0 where
  create : StatementFaults → Definition → DefinitionCall
  update : Bool → StatementFaults → String → Definition → DefinitionCall
  remove : StatementFaults → String → DefinitionCall

unfoldable pub definition_calls : List DefinitionCall → Tables → Tables
definition_calls [] t = t
definition_calls (create faults d ∷ cs) t = definition_calls cs (create_definition faults d t).0
definition_calls (update read_fails faults id updates ∷ cs) t =
    definition_calls cs (update_definition read_fails faults id updates t).0
definition_calls (remove faults id ∷ cs) t = definition_calls cs (delete_definition faults id t).0

-- Whatever is created, updated and deleted, and whatever fails, no two definitions share an
-- identifier or an alias.
pub definition_calls-IsKeyed :
    (cs : List DefinitionCall) (t : Tables)
    → IsKeyed t.definitions
    → IsKeyed (definition_calls cs t).definitions
unfolding definition_calls
definition_calls-IsKeyed [] t h = h
definition_calls-IsKeyed (create faults d ∷ cs) t h =
    definition_calls-IsKeyed cs _ (create-IsKeyed faults d t h)
definition_calls-IsKeyed (update read_fails faults id updates ∷ cs) t h =
    definition_calls-IsKeyed cs _ (update-IsKeyed read_fails faults id updates t h)
definition_calls-IsKeyed (remove faults id ∷ cs) t h =
    definition_calls-IsKeyed cs _ (delete-IsKeyed faults id t h)

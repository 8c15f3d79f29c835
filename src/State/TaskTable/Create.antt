-- ===== src/State/TaskTable/Create.antt =====
-- What `CreateRun` does to the table: the new run is read back, the others are kept, and no two
-- rows share an identifier.
use flotilla_os.Common.{
  get_or, false, String, List, [], ◌∷◌, ◌++◌, none, some, ◌≡◌, ◌⊎◌, inl, inr, refl, ◌∙◌, ap, arith,
  ◌==◌, eq_iff, ok, map, any, is_some, string_slice_contains,
}
use flotilla_os.State.Types.{Run}
use flotilla_os.State.TaskTable.{
  TxFaults, no_faults, select_row, find_row, get_run, update_run, insert_row, create_run,
}
use flotilla_os.State.TaskTable.Update.{run_ids-update_run}

pub find_row-any :
    (run_id : String) (rows : List Run)
    → any (λ row. row.run_id == run_id) rows ≡ is_some (find_row run_id rows)
unfolding find_row
find_row-any run_id [] = refl
find_row-any run_id (x ∷ rows) = ground (arith, find_row-any run_id rows)

pub find_row-append :
    (run_id : String) (rows : List Run) (r : Run)
    → find_row run_id rows ≡ none
    → r.run_id ≡ run_id
    → find_row run_id (rows ++ r ∷ []) ≡ some r
unfolding find_row
find_row-append run_id [] r h e = ground (arith, eq_iff r.run_id run_id)
find_row-append run_id (x ∷ rows) r h e = ground (arith, find_row-append run_id rows r)

find_row-append_old :
    (k : String) (rows : List Run) (r old : Run)
    → find_row k rows ≡ some old
    → find_row k (rows ++ r ∷ []) ≡ some old
unfolding find_row
find_row-append_old k [] r old h = cc
find_row-append_old k (x ∷ rows) r old h = ground (arith, find_row-append_old k rows r old)

pub create_run_done :
    (faults : TxFaults) (md5 : String → String) (r : Run) (rows : List Run)
    → (create_run faults md5 r rows).1 ≡ none
    → ((create_run faults md5 r rows).0 ≡ rows ++ insert_row md5 r ∷ [])
      × (any (λ row. row.run_id == r.run_id) rows ≡ false)
unfolding create_run
create_run_done faults md5 r rows done = ground arith

pub create_run_kept :
    (faults : TxFaults) (md5 : String → String) (r : Run) (rows : List Run)
    → ((create_run faults md5 r rows).0 ≡ rows) ⊎ ((create_run faults md5 r rows).1 ≡ none)
unfolding create_run
create_run_kept faults md5 r rows = ground arith

fresh_row :
    (k : String) (rows : List Run)
    → any (λ row. row.run_id == k) rows ≡ false
    → find_row k rows ≡ none
fresh_row k rows h = ground (arith, find_row-any k rows)

-- A run whose creation returns no error is read back as it was given, but for the user and the
-- CloudTrail notifications, which are not stored, the command's hash, which the database computes, and
-- the executable's identifier and type, which are read as empty texts when they were not given.
get_run-create_run :
    (faults : TxFaults) (md5 : String → String) (r : Run) (rows : List Run)
    → (create_run faults md5 r rows).1 ≡ none
    → get_run false r.run_id (create_run faults md5 r rows).0
      ≡ ok (record r {
        user = "";
        cloudtrail_notifications = none;
        command_hash = elim r.command [ none ↦ none | some c ↦ some (md5 c) ];
        executable_id = some (get_or "" r.executable_id);
        executable_type = some (get_or "" r.executable_type);
      })
unfolding get_run
get_run-create_run faults md5 r rows done =
    let (table, fresh) = create_run_done faults md5 r rows done in
    rw
      (
        ap (find_row r.run_id) table
            ∙ find_row-append r.run_id rows (insert_row md5 r) (fresh_row r.run_id rows fresh)
                (unfold insert_row in refl),
        get_run,
      )
      (unfold insert_row select_row in refl)

-- The creation of a run changes no run that is in the table.
pub find_row-create_run_old :
    (faults : TxFaults) (md5 : String → String) (r : Run) (rows : List Run) (k : String) (old : Run)
    → find_row k rows ≡ some old
    → find_row k (create_run faults md5 r rows).0 ≡ some old
unfolding create_run
find_row-create_run_old faults md5 r rows k old found =
    ground (arith, find_row-append_old k rows (insert_row md5 r) old)

-- The identifiers of the rows, and that they differ from one another.
abbrev pub run_ids : List Run → List String
run_ids = map (λ r. r.run_id)

abbrev pub Unique : List String → Type 0
Unique [] = Unit
Unique (k ∷ ks) = (string_slice_contains ks k ≡ false) × Unique ks

contains-append :
    (ks : List String) (j k : String)
    → string_slice_contains ks k ≡ false
    → (j == k) ≡ false
    → string_slice_contains (ks ++ j ∷ []) k ≡ false
unfolding string_slice_contains
contains-append [] j k h e = ground arith
contains-append (x ∷ ks) j k h e = ground (arith, contains-append ks j k)

pub run_ids-append :
    (rows : List Run) (r : Run) → run_ids (rows ++ r ∷ []) ≡ run_ids rows ++ r.run_id ∷ []
run_ids-append [] r = refl
run_ids-append (x ∷ rows) r = ap (λ ks. x.run_id ∷ ks) (run_ids-append rows r)

any_rest :
    (x : Run) (rows : List Run) (r : Run)
    → any (λ row. row.run_id == r.run_id) (x ∷ rows) ≡ false
    → ((r.run_id == x.run_id) ≡ false) × (any (λ row. row.run_id == r.run_id) rows ≡ false)
any_rest x rows r h = ground (arith, eq_iff x.run_id r.run_id, eq_iff r.run_id x.run_id)

Unique-append :
    (rows : List Run) (r : Run)
    → Unique (run_ids rows)
    → any (λ row. row.run_id == r.run_id) rows ≡ false
    → Unique (run_ids (rows ++ r ∷ []))
unfolding string_slice_contains
Unique-append [] r u h = (refl, tt)
Unique-append (x ∷ rows) r u h =
    let rest = any_rest x rows r h in
    (
      rw (run_ids-append rows r) (contains-append (run_ids rows) r.run_id x.run_id u.0 rest.0),
      Unique-append rows r u.1 rest.1,
    )

-- What may be done to the table: a run is created, or one is updated.
pub data Operation : Type 0 where
  create update : TxFaults → Run → Operation

unfoldable pub run_operations : (String → String) → List Operation → List Run → List Run
run_operations md5 [] rows = rows
run_operations md5 (create faults r ∷ os) rows =
    run_operations md5 os (create_run faults md5 r rows).0
run_operations md5 (update faults r ∷ os) rows =
    run_operations md5 os (update_run faults r.run_id r rows).0

create_run-Unique :
    (faults : TxFaults) (md5 : String → String) (r : Run) (rows : List Run)
    → Unique (run_ids rows)
    → Unique (run_ids (create_run faults md5 r rows).0)
create_run-Unique faults md5 r rows u = elim (create_run_kept faults md5 r rows) [
  | inl kept ↦ rw kept u
  | inr done ↦
      let (table, fresh) = create_run_done faults md5 r rows done in
      rw table (Unique-append rows (insert_row md5 r) u (unfold insert_row in fresh))
]

-- Whatever is created and updated, and whatever fails, no two rows of the table share a run's
-- identifier.
pub run_operations-Unique :
    (md5 : String → String) (os : List Operation) (rows : List Run)
    → Unique (run_ids rows)
    → Unique (run_ids (run_operations md5 os rows))
unfolding run_operations
run_operations-Unique md5 [] rows u = u
run_operations-Unique md5 (create faults r ∷ os) rows u =
    run_operations-Unique md5 os _ (create_run-Unique faults md5 r rows u)
run_operations-Unique md5 (update faults r ∷ os) rows u =
    run_operations-Unique md5 os _ (rw (run_ids-update_run faults r.run_id r rows) u)

pub create_run_fresh :
    (md5 : String → String) (r : Run) (rows : List Run)
    → find_row r.run_id rows ≡ none
    → create_run no_faults md5 r rows ≡ (rows ++ insert_row md5 r ∷ [], none)
unfolding create_run
create_run_fresh md5 r rows h = rw (find_row-any r.run_id rows ∙ ap is_some h)

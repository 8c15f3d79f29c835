-- ===== src/Worker/CloudTrail/Notified.antt =====
-- The records that a run has after the worker has processed a list of them.
use flotilla_os.Common.{
  Bool, true, false, String, List, [], ◌∷◌, ◌++◌, Option, none, some, if◌then◌else◌, ◌==◌, ◌&&◌,
  ◌≡◌, ◌≢◌, refl, sym, ◌∙◌, ap, arith, eq_iff, get_or, is_empty_list, keep, append_assoc,
  Bool-cases, Result-cases, inl, inr, is_none, string_slice_contains,
}
use flotilla_os.Common.Firsts.{firsts, firsts_from, find_key, distinct_keys, firsts_lem}
use flotilla_os.State.Types.{Run, Record}
use flotilla_os.State.RunUpdate.{update_with}
use flotilla_os.State.TaskTable.{no_faults, get_run, select_row, find_row, write_columns}
use flotilla_os.State.TaskTable.Update.{
  different, find_row-update_run, find_row-update_run_ne, get_run_found, update_run-no_faults,
}
use flotilla_os.Worker.CloudTrail.{
  record_text, make_set, get_run_id, add_record, is_of_service, group_records, RecordFaults,
  save_records, save_groups, process_cloud_trail_notifications,
}

-- The records of a list that the service's role of a run made.
unfoldable pub records_of : String → String → List Record → List Record
records_of service_account run_id rs =
    keep (λ r. is_of_service service_account r && get_run_id r == run_id) rs

abbrev Groups : Type 0
Groups = List (String × List Record)

find_group : String → Groups → Option (List Record)
find_group run_id [] = none
find_group run_id ((k, rs) ∷ rest) = if k == run_id then some rs else find_group run_id rest

distinct_groups : Groups → Bool
distinct_groups [] = true
distinct_groups ((k, rs) ∷ rest) = is_none (find_group k rest) && distinct_groups rest

-- The records that a group has when others are added.
abbrev extended : Option (List Record) → List Record → Option (List Record)
extended o [] = o
extended o (r ∷ rs) = some (get_or [] o ++ r ∷ rs)

find_group-add :
    (run_id k : String) (r : Record) (groups : Groups)
    → find_group run_id (add_record k r groups) ≡ (
        if k == run_id
        then some (get_or [] (find_group run_id groups) ++ r ∷ [])
        else find_group run_id groups)
unfolding find_group add_record
find_group-add run_id k r [] = ground arith
find_group-add run_id k r ((j, rs) ∷ rest) =
    ground (arith, eq_iff k run_id, eq_iff j k, eq_iff j run_id, find_group-add run_id k r rest)

distinct-add :
    (k : String) (r : Record) (groups : Groups)
    → distinct_groups groups ≡ true
    → distinct_groups (add_record k r groups) ≡ true
unfolding distinct_groups add_record find_group
distinct-add k r [] h = refl
distinct-add k r ((j, rs) ∷ rest) h =
    ground (arith, eq_iff j k, eq_iff k j, find_group-add j k r rest, distinct-add k r rest)

distinct-group :
    (service_account : String) (rs : List Record) (groups : Groups)
    → distinct_groups groups ≡ true
    → distinct_groups (group_records service_account rs groups) ≡ true
unfolding group_records
distinct-group service_account [] groups h = h
distinct-group service_account (r ∷ rs) groups h =
    elim (Bool-cases (is_of_service service_account r)) [
      | inl ours ↦
          rw (ours, group_records)
            (distinct-group service_account rs (add_record (get_run_id r) r groups)
              (distinct-add (get_run_id r) r groups h))
      | inr other ↦ rw (other, group_records) (distinct-group service_account rs groups h)
    ]

extended-cons :
    (o : Option (List Record)) (r : Record) (rs : List Record)
    → extended (some (get_or [] o ++ r ∷ [])) rs ≡ extended o (r ∷ rs)
extended-cons o r [] = refl
extended-cons o r (x ∷ rs) = ap some (append_assoc (get_or [] o) (r ∷ []) (x ∷ rs))

find_group-group :
    (service_account run_id : String) (rs : List Record) (groups : Groups)
    → find_group run_id (group_records service_account rs groups)
      ≡ extended (find_group run_id groups) (records_of service_account run_id rs)
unfolding group_records records_of
find_group-group service_account run_id [] groups = refl
find_group-group service_account run_id (r ∷ rs) groups =
    let later = records_of service_account run_id rs in
    let added = find_group-group service_account run_id rs (add_record (get_run_id r) r groups) in
    elim (Bool-cases (is_of_service service_account r)) [
      | inr other ↦ rw (other) (find_group-group service_account run_id rs groups)
      | inl ours ↦ elim (Bool-cases (get_run_id r == run_id)) [
        | inl same ↦
            rw (ours, same)
              (added
                ∙ ap (λ o. extended o later)
                    (find_group-add run_id (get_run_id r) r groups ∙ (rw (same) refl))
                ∙ extended-cons (find_group run_id groups) r later)
        | inr apart ↦
            rw (ours, apart)
              (added
                ∙ ap (λ o. extended o later)
                    (find_group-add run_id (get_run_id r) r groups ∙ (rw (apart) refl)))
      ]
    ]

abbrev pub no_record_faults : RecordFaults
no_record_faults = record { read_fails = false; transaction = no_faults }

save_records_other :
    (faults : RecordFaults) (run_id k : String) (records : List Record) (rows : List Run)
    → k ≢ run_id
    → find_row run_id (save_records faults k records rows) ≡ find_row run_id rows
unfolding save_records
save_records_other faults run_id k records rows apart =
    elim (Result-cases (get_run faults.read_fails k rows)) [
      | inr (e, failed) ↦ rw (failed, save_records) refl
      | inl (run, read) ↦
          rw (read, save_records) (find_row-update_run_ne faults.transaction k run_id _ rows apart)
    ]

save_groups_other :
    (faults : String → RecordFaults) (run_id : String) (groups : Groups) (rows : List Run)
    → find_group run_id groups ≡ none
    → find_row run_id (save_groups faults groups rows) ≡ find_row run_id rows
unfolding save_groups find_group
save_groups_other faults run_id [] rows h = refl
save_groups_other faults run_id ((k, records) ∷ rest) rows h = elim (Bool-cases (k == run_id)) [
  | inl same ↦ absurd (ground arith)
  | inr apart ↦
      save_groups_other faults run_id rest (save_records (faults k) k records rows) (ground arith)
      ∙ save_records_other (faults k) run_id k records rows (different k run_id apart)
]

set_is_given :
    (xs : List Record) (r : Record) (rs : List Record)
    → is_empty_list (make_set (xs ++ r ∷ rs)) ≡ false
unfolding make_set firsts firsts_from string_slice_contains
set_is_given [] r rs = refl
set_is_given (x ∷ xs) r rs = refl

-- What a run has of notifications after its records are saved.
abbrev Noted : String → List Record → List Run → Type 0
Noted run_id set rows =
    (row : Run) × (find_row run_id rows ≡ some row) × (row.cloudtrail_notifications ≡ some set)

written_notifications :
    (row : Run) (xs : List Record) (r : Record) (rs : List Record)
    → (write_columns row (
        update_with (select_row row) (record (select_row row) {
          cloudtrail_notifications = some (make_set (xs ++ r ∷ rs));
        }))).cloudtrail_notifications
      ≡ some (make_set (xs ++ r ∷ rs))
unfolding write_columns update_with
written_notifications row xs r rs = rw (set_is_given xs r rs) refl

save_records-Noted :
    (run_id : String) (r : Record) (rs : List Record) (rows : List Run) (row : Run)
    → find_row run_id rows ≡ some row
    → Noted run_id
        (make_set (get_or [] row.cloudtrail_notifications ++ r ∷ rs))
        (save_records no_record_faults run_id (r ∷ rs) rows)
unfolding save_records select_row
save_records-Noted run_id r rs rows row found =
    let old = get_or [] row.cloudtrail_notifications in
    let updates : Run = record (select_row row) {
      cloudtrail_notifications = some (make_set (old ++ r ∷ rs));
    } in
    rw (get_run_found run_id rows row found, save_records)
      (
        write_columns row (update_with (select_row row) updates),
        find_row-update_run no_faults run_id updates rows row found
            (update_run-no_faults run_id updates rows),
        written_notifications row old r rs,
      )

head_group :
    (k run_id : String) (records all : List Record) (rest : Groups)
    → (k == run_id) ≡ true
    → distinct_groups ((k, records) ∷ rest) ≡ true
    → find_group run_id ((k, records) ∷ rest) ≡ some all
    → (records ≡ all) × (find_group run_id rest ≡ none)
unfolding distinct_groups find_group
head_group k run_id records all rest same distinct in_group = ground (arith, eq_iff k run_id)

given_list :
    (xs : List Record)
    → is_empty_list xs ≡ false
    → (r : Record) × (rs : List Record) × (xs ≡ r ∷ rs)
given_list [] h = cc
given_list (r ∷ rs) h = (r, rs, refl)

save_groups-Noted :
    (faults : String → RecordFaults) (run_id : String) (r : Record) (rs : List Record)
    (groups : Groups) (rows : List Run) (row : Run)
    → faults run_id ≡ no_record_faults
    → distinct_groups groups ≡ true
    → find_group run_id groups ≡ some (r ∷ rs)
    → find_row run_id rows ≡ some row
    → Noted run_id
        (make_set (get_or [] row.cloudtrail_notifications ++ r ∷ rs))
        (save_groups faults groups rows)
unfolding save_groups find_group distinct_groups
save_groups-Noted faults run_id r rs [] rows row fine distinct in_group found = cc
save_groups-Noted faults run_id r rs ((k, records) ∷ rest) rows row fine distinct in_group found =
    elim (Bool-cases (k == run_id)) [
      | inl same ↦
          let e = (eq_iff k run_id).0 same in
          let (all, absent) = head_group k run_id records (r ∷ rs) rest same distinct in_group in
          let saved : save_records (faults k) k records rows
              ≡ save_records no_record_faults run_id (r ∷ rs) rows =
            rw (e, fine, all) refl in
          let (row', found', noted) = save_records-Noted run_id r rs rows row found in
          (
            row',
            save_groups_other faults run_id rest (save_records (faults k) k records rows) absent
                ∙ ap (find_row run_id) saved
                ∙ found',
            noted,
          )
      | inr apart ↦
          save_groups-Noted faults run_id r rs rest (save_records (faults k) k records rows) row
            fine (ground arith) (ground arith)
            (save_records_other (faults k) run_id k records rows (different k run_id apart) ∙ found)
    ]

-- When the records of a CloudTrail file have been processed, each run that is in the table and that
-- some record names has the records that it had and all of its own, in their order and without those
-- whose source and name stood before, if the database refuses no call about it; whatever happens with
-- the records of other runs. No source and name stand twice in what it has, and the record with each is the first.
pub process-notified :
    (faults : String → RecordFaults) (service_account run_id : String) (ctn : List Record)
    (rows : List Run) (row : Run)
    → faults run_id ≡ no_record_faults
    → find_row run_id rows ≡ some row
    → is_empty_list (records_of service_account run_id ctn) ≡ false
    → let all = get_or [] row.cloudtrail_notifications ++ records_of service_account run_id ctn in
      (row' : Run) × (find_row run_id
          (process_cloud_trail_notifications faults service_account ctn rows)
        ≡ some row')
      × (row'.cloudtrail_notifications ≡ some (make_set all))
      × (distinct_keys record_text (make_set all) ≡ true)
      × ((text : String) → find_key record_text text (make_set all) ≡ find_key record_text text all)
unfolding process_cloud_trail_notifications make_set distinct_groups find_group
process-notified faults service_account run_id ctn rows row fine found some_record =
    let (r, rs, e) = given_list (records_of service_account run_id ctn) some_record in
    let all = get_or [] row.cloudtrail_notifications ++ records_of service_account run_id ctn in
    let (row', found', noted) =
      save_groups-Noted faults run_id r rs (group_records service_account ctn []) rows row fine
        (distinct-group service_account ctn [] refl)
        (find_group-group service_account run_id ctn [] ∙ ap (extended none) e) found in
    let (distinct, firsts_kept) = firsts_lem record_text all in
    (
      row',
      found',
      noted ∙ ap (λ rs. some (make_set (get_or [] row.cloudtrail_notifications ++ rs))) (sym e),
      distinct,
      firsts_kept,
    )

-- ===== src/Examples/CloudTrails.antt =====
-- The theorem on the CloudTrail worker, at a file with records of two runs.
use flotilla_os.Common.{
  true, String, contains, List, [], ◌∷◌, ◌++◌, some, ◌≡◌, refl, ◌==◌, if◌then◌else◌,
}
use flotilla_os.Common.Firsts.{find_key, distinct_keys}
use flotilla_os.State.Types.{Run, Record}
use flotilla_os.State.TaskTable.{find_row}
use flotilla_os.Worker.CloudTrail.{
  RecordFaults, record_text, make_set, get_run_id, last_part, is_of_service,
  process_cloud_trail_notifications,
}
use flotilla_os.Worker.CloudTrail.Notified.{no_record_faults, records_of, process-notified}
use flotilla_os.Examples.Data.{active, table}

abbrev call : String → String → String → Record
call arn source name = record { arn = arn; event_source = source; event_name = name }

abbrev ours : String
ours = "arn:aws:sts::1:assumed-role/flotilla/eks-2"

-- Two calls of the run `eks-2`, one of them twice, one of another run, and one of another service.
abbrev file : List Record
file =
    call ours "s3" "GetObject"
    ∷ call "arn:aws:sts::1:assumed-role/flotilla/eks-1" "s3" "PutObject"
    ∷ call ours "s3" "GetObject"
    ∷ call "arn:aws:sts::1:assumed-role/other/eks-2" "sqs" "SendMessage"
    ∷ call ours "sns" "Publish"
    ∷ []

abbrev noted : List Record
noted = call ours "s3" "GetObject" ∷ call ours "sns" "Publish" ∷ []

-- The database refuses every call on other runs.
abbrev refusing : String → RecordFaults
refusing run_id =
    if run_id == "eks-2" then no_record_faults else record no_record_faults { read_fails = true }

process-notified_example :
    let all = [] ++ records_of "flotilla" "eks-2" file in
    (row' : Run) × (find_row "eks-2"
        (process_cloud_trail_notifications refusing "flotilla" file table)
      ≡ some row')
    × (row'.cloudtrail_notifications ≡ some (make_set all))
    × (distinct_keys record_text (make_set all) ≡ true)
    × ((text : String) → find_key record_text text (make_set all) ≡ find_key record_text text all)
unfolding find_row records_of is_of_service get_run_id last_part contains
process-notified_example =
    process-notified refusing "flotilla" "eks-2" file table active refl refl refl

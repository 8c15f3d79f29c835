-- ===== src/Worker/CloudTrail.antt =====
-- worker/cloudtrail_worker.go: the records of CloudTrail files are added to the runs whose role made
-- the calls. The objects in S3 and the decoding of their JSON are arguments; log lines are left out.
pub mod Notified
use Prim.Native.String.{◌++◌ as text_append}
use Prim.Native.Char.{code}
use flotilla_os.Common.{
  Bool, true, false, not, String, List, [], ◌∷◌, ◌++◌, Option, none, some, Result, ok, err,
  if◌then◌else◌, ◌==◌, ◌&&◌, contains, eqb, get_or, is_empty_list,
}
use flotilla_os.Common.Firsts.{firsts}
use flotilla_os.State.Types.{Run, Record}
use flotilla_os.State.TaskTable.{TxFaults, get_run, update_run}

-- `Record.String`
unfoldable pub record_text : Record → String
record_text r = text_append r.event_source (text_append "-" r.event_name)

unfoldable pub make_set : List Record → List Record
make_set records = firsts record_text records

-- The last part of a text that slashes divide.
unfoldable pub last_part : String → String → String
last_part part String.[] = part
last_part part (String.◌∷◌ c s) =
    if eqb (code c) 47
    then last_part "" s
    else last_part (text_append part (String.◌∷◌ c String.[])) s

unfoldable pub get_run_id : Record → String
get_run_id r = last_part "" r.arn

-- `runIdRecordMap[runId] = append(runIdRecordMap[runId], record)`
unfoldable pub add_record :
    String → Record → List (String × List Record) → List (String × List Record)
add_record run_id r [] = (run_id, r ∷ []) ∷ []
add_record run_id r ((k, rs) ∷ rest) =
    if k == run_id then (k, rs ++ r ∷ []) ∷ rest else (k, rs) ∷ add_record run_id r rest

unfoldable pub is_of_service : String → Record → Bool
is_of_service service_account r = contains r.arn service_account && contains r.arn "eks-"

-- The first loop of `processCloudTrailNotifications`, with the map so far.
unfoldable pub group_records :
    String → List Record → List (String × List Record) → List (String × List Record)
group_records service_account [] groups = groups
group_records service_account (r ∷ rs) groups =
    group_records service_account rs
      (if is_of_service service_account r then add_record (get_run_id r) r groups else groups)

-- What the database refuses while the records of one run are saved.
pub record RecordFaults : Type 0 where
  pub read_fails : Bool
  pub transaction : TxFaults

unfoldable pub save_records : RecordFaults → String → List Record → List Run → List Run
save_records faults run_id records rows = elim (get_run faults.read_fails run_id rows) [
  | err e ↦ rows
  | ok run ↦
      (update_run faults.transaction run_id
        (record run {
          cloudtrail_notifications =
              some (make_set (get_or [] run.cloudtrail_notifications ++ records));
        })
        rows).0
]

-- The second loop, over the map.
unfoldable pub save_groups :
    (String → RecordFaults) → List (String × List Record) → List Run → List Run
save_groups faults [] rows = rows
save_groups faults ((run_id, records) ∷ rest) rows =
    save_groups faults rest (save_records (faults run_id) run_id records rows)

unfoldable pub process_cloud_trail_notifications :
    (String → RecordFaults) → String → List Record → List Run → List Run
process_cloud_trail_notifications faults service_account records rows =
    save_groups faults (group_records service_account records []) rows

-- An object of the bucket: its key, its content, if S3 gives it, and what the database refuses while
-- it is processed.
pub record Object : Type 0 where
  pub key : String
  pub content : Option String
  pub faults : String → RecordFaults

-- `processS3Keys`. The records are decoded into one variable, which keeps what it has where the
-- content does not replace it; an object that is not given ends the loop.
unfoldable pub process_s3_keys :
    (List Record → String → List Record)
    → String
    → String
    → List Object
    → List Record
    → List Run
    → List Run
process_s3_keys decode region service_account [] ctn rows = rows
process_s3_keys decode region service_account (o ∷ os) ctn rows =
    let skipped = process_s3_keys decode region service_account os ctn rows in
    let read = λ (content : String).
      process_s3_keys decode region service_account os (decode ctn content)
        (process_cloud_trail_notifications o.faults service_account (decode ctn content) rows) in
    if contains o.key region
    then elim o.content [ none ↦ rows | some content ↦ read content ]
    else skipped

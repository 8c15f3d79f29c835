-- ===== src/Clients/S3Logs.antt =====
-- clients/logs/eks_s3_logs_client.go: a run's log, read from the newest of its files in S3. The client of S3,
-- gzip and the decoding of a line are parameters. A position counts lines; since a file has fewer than 2^63,
-- the sums of the code do not wrap.
pub mod Pages
use Prim.Native.String.{◌++◌ as text_append}
use flotilla_os.Common.{
  ℕ, zero, suc, ◌+◌, ℤ, pos_part, Bool, true, false, ◌&&◌, String, List, [], ◌∷◌, Option, none,
  some, Error, plain_error, Result, ok, err, Go, returns, ◌>>=◌, deref, if◌then◌else◌, ltb, leb,
  contains, ◌==◌, get_or,
}
use flotilla_os.Common.Decimal.{decimal}
use flotilla_os.Common.Parsing.{parse_int}
use flotilla_os.State.Constants.{eks_engine, eks_spark_engine}
use flotilla_os.State.Types.{Run, SparkExtension, Time}

abbrev pub max_log_lines : ℕ
max_log_lines = 256

pub record S3Object : Type 0 where
  pub key : String
  pub last_modified : Time

-- What a reader gives: its lines, and the error that ends it, if that is not the end of the file. What
-- follows the last line break is never returned.
pub record Body : Type 0 where
  pub lines : List String
  pub failure : Option Error

-- The fields of the client that come from the configuration.
pub record S3Config : Type 0 where
  pub s3_bucket : String
  pub s3_bucket_root_dir : String
  pub emr_s3_logs_bucket : String
  pub emr_s3_logs_base_path : String

-- The calls of other code: ListObjects and GetObject by bucket and prefix or key, gzip, and the field `log` of
-- the JSON of a line.
pub record S3Calls : Type 0 where
  pub list_objects : String → String → Result (List S3Object)
  pub get_object : String → String → Result Body
  pub unzip : Body → Result Body
  pub log_of : String → Result String

-- The key of the newest object that passes a test, with the key and the time so far.
unfoldable pub latest_key : (String → Bool) → List S3Object → Option String → Time → Option String
latest_key wanted [] key seen = key
latest_key wanted (o ∷ objects) key seen =
    let newer = latest_key wanted objects (some o.key) o.last_modified in
    let same = latest_key wanted objects key seen in
    if wanted o.key && ltb seen o.last_modified then newer else same

-- `lastSeen`, as a position: zero, unless it is a number.
unfoldable pub start_position : Option String → ℤ
start_position none = ℤ.pos 0
start_position (some s) = get_or (ℤ.pos 0) (parse_int s)

-- The lines after some of them; none when there are not as many.
unfoldable pub skip_lines : ℕ → List String → Option (List String)
skip_lines zero lines = some lines
skip_lines (suc n) [] = none
skip_lines (suc n) (l ∷ lines) = skip_lines n lines

abbrev pub LogPage : Type 0
LogPage = String × Option String × Option Error

abbrev no_page : String → LogPage
no_page message = ("", some "", some (plain_error message))

module _ (calls : S3Calls) where
  open calls use {list_objects, get_object, unzip, log_of}

  -- A line that cannot be decoded adds nothing.
  abbrev pub append_log : String → String → String
  append_log acc line = elim (log_of line) [ ok log ↦ text_append acc log | err e ↦ acc ]

  -- The second loop of `logsToMessageString`, for a number of rounds.
  unfoldable pub read_page : ℕ → List String → Option Error → String → ℕ → String × ℕ × Option Error
  read_page zero lines failure acc position = (acc, position, none)
  read_page (suc rounds) [] failure acc position = (acc, suc position, failure)
  read_page (suc rounds) (l ∷ lines) failure acc position =
      read_page rounds lines failure (append_log acc l) (suc position)

  abbrev page_after : ℕ → Option Error → Option (List String) → String × ℕ × Option Error
  page_after start failure none = ("", start, failure)
  page_after start failure (some rest) = read_page (suc max_log_lines) rest failure "" start

  -- `logsToMessageString`, of an object that is there.
  unfoldable pub logs_to_message_string : Body → ℤ → String × ℕ × Option Error
  logs_to_message_string body starting_position =
      let start = pos_part starting_position in
      page_after start body.failure (skip_lines start body.lines)

  -- `logsToMessage`, where the writer is a state and may fail.
  unfoldable pub logs_to_message {ℓ} :
      {W : Type ℓ}
      → (String → W → W × Option Error)
      → List String
      → Option Error
      → W
      → W × Option Error
  logs_to_message write [] failure w = (w, failure)
  logs_to_message write (l ∷ lines) failure w = elim (log_of l) [
    | err e ↦ (w, some e)
    | ok log ↦
        let (w', e) = write log w in
        let rest = logs_to_message write lines failure w' in
        elim e [ none ↦ rest | some e ↦ (w', some e) ]
  ]

  module _ (config : S3Config) where
    open config use {s3_bucket, s3_bucket_root_dir, emr_s3_logs_bucket, emr_s3_logs_base_path}

    abbrev pub to_s3_dir_name : Run → String
    to_s3_dir_name run = text_append s3_bucket_root_dir (text_append "/" run.run_id)

    abbrev object_of_key : String → Option String → Result Body
    object_of_key bucket none = err (plain_error "no s3 files associated with the run.")
    object_of_key bucket (some key) = get_object bucket key

    -- `getS3Object`. The text of an error is read by no caller.
    unfoldable pub get_s3_object : Run → Result Body
    get_s3_object run = elim run.pod_name [
      | none ↦ err (plain_error "no pod associated with the run.")
      | some pod_name ↦ elim (list_objects s3_bucket (to_s3_dir_name run)) [
        | err e ↦ err e
        | ok objects ↦
            object_of_key s3_bucket (latest_key (λ key. contains key run.run_id) objects none 0)
      ]
    ]

    abbrev page_of : Option String → Result Body → LogPage
    page_of last_seen (err e) = no_page "No logs."
    page_of last_seen (ok body) =
        let (acc, position, e) = logs_to_message_string body (start_position last_seen) in
        (acc, some (decimal position), e)

    abbrev path_of : Option String → Option String → Option String → Option String
    path_of (some app) (some job) (some cluster) = some (
        text_append emr_s3_logs_base_path
          (text_append "/" (text_append cluster (text_append "/jobs/" (text_append job "/")))))
    path_of app job cluster = none

    -- `emrDriverLogsPath`, by the extension of the run.
    unfoldable pub emr_driver_logs_path : SparkExtension → Option String
    emr_driver_logs_path spark =
        path_of spark.spark_app_id spark.emr_job_id spark.virtual_cluster_id

    -- The loop over the lines of a file of EMR: the text, and the number of lines.
    unfoldable pub emr_lines : ℕ → List String → ℕ → String → String × ℕ
    emr_lines start [] counter acc = (acc, counter)
    emr_lines start (l ∷ lines) counter acc =
        emr_lines start lines (suc counter) (if leb start counter then text_append acc l else acc)

    -- An error that is not the end of the file comes again, and the loop never ends: none.
    abbrev emr_page : ℕ → Body → Option LogPage
    emr_page start body = elim body.failure [
      | some e ↦ none
      | none ↦
          let (text, counter) = emr_lines start body.lines 0 "" in
          some (text, some (decimal counter), none)
    ]

    abbrev emr_unzipped : ℕ → Result Body → Option LogPage
    emr_unzipped start (err e) = some (no_page "No driver logs found")
    emr_unzipped start (ok body) = emr_page start body

    abbrev emr_object : ℕ → Result Body → Option LogPage
    emr_object start (err e) = some (no_page "No driver logs found")
    emr_object start (ok body) = emr_unzipped start (unzip body)

    abbrev emr_key : ℕ → Option String → Option LogPage
    emr_key start none = some (no_page "No driver logs found")
    emr_key start (some key) = emr_object start (get_object emr_s3_logs_bucket key)

    -- An empty list of objects has no key either, and an error with another text.
    abbrev emr_listed : (String → Bool) → ℕ → Result (List S3Object) → Option LogPage
    emr_listed wanted start (err e) = some (no_page "Problem fetching logs")
    emr_listed wanted start (ok []) = some (no_page "Problem fetching logs")
    emr_listed wanted start (ok (o ∷ objects)) =
        emr_key start (latest_key wanted (o ∷ objects) none 0)

    -- `emrLogsToMessageString`, for a role and a facility, which its caller always gives.
    unfoldable pub emr_logs_to_message_string :
        Run → Option String → String → String → Go (Option LogPage)
    emr_logs_to_message_string run last_seen role facility = do
      spark ← deref run.spark_extension
      returns (elim (emr_driver_logs_path spark) [
        | none ↦ some (no_page "No logs")
        | some dir ↦
            emr_listed (λ key. contains key role && contains key facility)
              (pos_part (start_position last_seen)) (list_objects emr_s3_logs_bucket dir)
      ])

    abbrev logs_of_engine : Bool → Run → Option String → String → String → Go (Option LogPage)
    logs_of_engine true run last_seen role facility =
        emr_logs_to_message_string run last_seen role facility
    logs_of_engine false run last_seen role facility =
        returns (some (page_of last_seen (get_s3_object run)))

    -- `Logs`; none when it never returns.
    unfoldable pub s3_logs : Run → Option String → String → String → Go (Option LogPage)
    s3_logs run last_seen role facility = do
      engine ← deref run.engine
      logs_of_engine (engine == eks_spark_engine) run last_seen role facility

    abbrev todo_text {ℓ} :
        {W : Type ℓ} → (String → W → W × Option Error) → Option String → W → Go (W × Option Error)
    todo_text write engine w = do
      engine ← deref engine
      returns (if engine == eks_spark_engine then ((write "todo!!!" w).0, none) else (w, none))

    -- `LogsText`
    unfoldable pub s3_logs_text {ℓ} :
        {W : Type ℓ} → (String → W → W × Option Error) → Run → W → Go (W × Option Error)
    s3_logs_text write run w =
        if get_or eks_engine run.engine == eks_engine
        then elim (get_s3_object run) [
          | ok body ↦ returns (logs_to_message write body.lines body.failure w)
          | err e ↦ todo_text write run.engine w
        ]
        else todo_text write run.engine w

-- ===== src/State/Types.antt =====
-- The types of state/models.go. A pointer field is an `Option`; where the code compares two
-- pointers, the model of that code says so. A time is a number of nanoseconds.
use flotilla_os.Common.{ℕ, ℤ, String, List, Bool, Option}
use flotilla_os.Utils.Json.{Fields}

abbrev pub Time : Type 0
Time = ℕ

pub record EnvVar : Type 0 where
  pub name : String
  pub value : String

abbrev pub EnvList : Type 0
EnvList = List EnvVar

pub record ExecutableResources : Type 0 where
  pub image : String
  pub memory : Option ℤ
  pub gpu : Option ℤ
  pub cpu : Option ℤ
  pub env : Option EnvList
  pub adaptive_resource_allocation : Option Bool
  pub ports : Option (List ℤ)
  pub tags : Option (List String)

pub record Conf : Type 0 where
  pub name : Option String
  pub value : Option String

pub record SparkSubmitJobDriver : Type 0 where
  pub entry_point : Option String
  pub entry_point_arguments : List (Option String)
  pub spark_submit_conf : List Conf
  pub files : List String
  pub py_files : List String
  pub jars : List String

pub record SparkExtension : Type 0 where
  pub spark_submit_job_driver : Option SparkSubmitJobDriver
  pub application_conf : List Conf
  pub emr_job_id : Option String
  pub spark_app_id : Option String
  pub emr_job_manifest : Option String
  pub history_uri : Option String
  pub metrics_uri : Option String
  pub virtual_cluster_id : Option String
  pub emr_release_label : Option String
  pub executor_init_command : Option String
  pub driver_init_command : Option String
  pub executors : List String

pub record Definition : Type 0 where
  pub definition_id : String
  pub group_name : String
  pub alias : String
  pub command : String
  pub task_type : String
  pub executable_resources : ExecutableResources
  pub open executable_resources use *

pub record Template : Type 0 where
  pub template_id : String
  pub template_name : String
  pub version : ℤ
  pub schema : Fields
  pub command_template : String
  pub defaults : Fields
  pub avatar_uri : String
  pub executable_resources : ExecutableResources
  pub open executable_resources use *

-- `Executable`, the interface that the two implement.
pub data Executable : Type 0 where
  task_definition : Definition → Executable
  template : Template → Executable

pub record PodEvent : Type 0 where
  pub timestamp : Option Time
  pub event_type : String
  pub reason : String
  pub source_object : String
  pub message : String

pub record SpawnedRun : Type 0 where
  pub run_id : String

-- A CloudTrail record, its `userIdentity` by the field `arn`.
pub record Record : Type 0 where
  pub arn : String
  pub event_source : String
  pub event_name : String

pub record Run : Type 0 where
  pub run_id : String
  pub definition_id : String
  pub alias : String
  pub image : String
  pub cluster_name : String
  pub exit_code : Option ℤ
  pub status : String
  pub queued_at : Option Time
  pub started_at : Option Time
  pub finished_at : Option Time
  pub instance_id : String
  pub instance_dns_name : String
  pub group_name : String
  pub user : String
  pub task_type : String
  pub env : Option EnvList
  pub command : Option String
  pub command_hash : Option String
  pub memory : Option ℤ
  pub memory_limit : Option ℤ
  pub cpu : Option ℤ
  pub cpu_limit : Option ℤ
  pub gpu : Option ℤ
  pub exit_reason : Option String
  pub engine : Option String
  pub node_lifecycle : Option String
  pub ephemeral_storage : Option ℤ
  pub pod_name : Option String
  pub namespace : Option String
  pub max_memory_used : Option ℤ
  pub max_cpu_used : Option ℤ
  pub pod_events : Option (List PodEvent)
  pub cloudtrail_notifications : Option (List Record)
  pub executable_id : Option String
  pub executable_type : Option String
  pub execution_request_custom : Option Fields
  pub attempt_count : Option ℤ
  pub spawned_runs : Option (List SpawnedRun)
  pub run_exceptions : Option (List String)
  pub active_deadline_seconds : Option ℤ
  pub spark_extension : Option SparkExtension
  pub metrics_uri : Option String

pub record Worker : Type 0 where
  pub worker_type : String
  pub count_per_instance : ℤ
  pub engine : String

pub record UserInfo : Type 0 where
  pub name : String
  pub email : String

pub record TaskResources : Type 0 where
  pub cpu : ℤ
  pub memory : ℤ

-- ===== src/State/RunUpdate.antt =====
-- `(d *Run) UpdateWith(other Run)` of state/models.go: how a partial update lands on a run.
pub mod Status
pub mod Fields
use flotilla_os.Common.{
  ℤ, pos, negsuc, ltb_ℤ, String, List, Option, none, some, ◌==◌, is_empty, is_empty_list,
  if◌then◌else◌,
}
use flotilla_os.State.Constants.{
  status_running, status_queued, status_needs_retry, status_pending, status_stopped,
}
use flotilla_os.State.Types.{Run, Record}

-- `if len(other) > 0 { d = other }`
abbrev pub over_text : String → String → String
over_text d other = if is_empty other then d else other

-- `if other != nil { d = other }`
abbrev pub over_pointer {ℓ} : {A : Type ℓ} → Option A → Option A → Option A
over_pointer d none = d
over_pointer d (some other) = some other

-- `if other != nil && len(*other) > 0 { d = other }`
abbrev pub over_text_pointer : Option String → Option String → Option String
over_text_pointer d none = d
over_text_pointer d (some other) = if is_empty other then d else some other

-- The same for the records of a CloudTrail notification.
abbrev pub over_records : Option (List Record) → Option (List Record) → Option (List Record)
over_records d none = d
over_records d (some other) = if is_empty_list other then d else some other

-- The map `statusPrecedence`.
unfoldable pub status_precedence : String → Option ℤ
status_precedence status =
    if status == status_needs_retry
    then some (negsuc 0)
    else if status == status_queued
    then some (pos 0)
    else if status == status_pending
    then some (pos 1)
    else if status == status_running
    then some (pos 2)
    else if status == status_stopped
    then some (pos 3)
    else none

abbrev pub ahead : Option ℤ → Option ℤ → String → String → String
ahead none new_status d other = d
ahead (some run_status) none d other = d
ahead (some run_status) (some new_status) d other = if ltb_ℤ run_status new_status then other else d

-- The status that an update leaves.
unfoldable pub update_status : String → String → String
update_status d other =
    if other == status_needs_retry
    then status_needs_retry
    else ahead (status_precedence d) (status_precedence other) d other

-- There is no assignment to the field `active_deadline_seconds` in the code.
unfoldable pub update_with : Run → Run → Run
update_with d other = record {
  run_id = over_text d.run_id other.run_id;
  definition_id = over_text d.definition_id other.definition_id;
  alias = over_text d.alias other.alias;
  image = over_text d.image other.image;
  cluster_name = over_text d.cluster_name other.cluster_name;
  exit_code = over_pointer d.exit_code other.exit_code;
  status = update_status d.status other.status;
  queued_at = over_pointer d.queued_at other.queued_at;
  started_at = over_pointer d.started_at other.started_at;
  finished_at = over_pointer d.finished_at other.finished_at;
  instance_id = over_text d.instance_id other.instance_id;
  instance_dns_name = over_text d.instance_dns_name other.instance_dns_name;
  group_name = over_text d.group_name other.group_name;
  user = over_text d.user other.user;
  task_type = over_text d.task_type other.task_type;
  env = over_pointer d.env other.env;
  command = over_text_pointer d.command other.command;
  command_hash = over_text_pointer d.command_hash other.command_hash;
  memory = over_pointer d.memory other.memory;
  memory_limit = over_pointer d.memory_limit other.memory_limit;
  cpu = over_pointer d.cpu other.cpu;
  cpu_limit = over_pointer d.cpu_limit other.cpu_limit;
  gpu = over_pointer d.gpu other.gpu;
  exit_reason = over_pointer d.exit_reason other.exit_reason;
  engine = over_pointer d.engine other.engine;
  node_lifecycle = over_pointer d.node_lifecycle other.node_lifecycle;
  ephemeral_storage = over_pointer d.ephemeral_storage other.ephemeral_storage;
  pod_name = over_pointer d.pod_name other.pod_name;
  namespace = over_pointer d.namespace other.namespace;
  max_memory_used = over_pointer d.max_memory_used other.max_memory_used;
  max_cpu_used = over_pointer d.max_cpu_used other.max_cpu_used;
  pod_events = over_pointer d.pod_events other.pod_events;
  cloudtrail_notifications = over_records d.cloudtrail_notifications other.cloudtrail_notifications;
  executable_id = over_pointer d.executable_id other.executable_id;
  executable_type = over_pointer d.executable_type other.executable_type;
  execution_request_custom = over_pointer d.execution_request_custom other.execution_request_custom;
  attempt_count = over_pointer d.attempt_count other.attempt_count;
  spawned_runs = over_pointer d.spawned_runs other.spawned_runs;
  run_exceptions = over_pointer d.run_exceptions other.run_exceptions;
  active_deadline_seconds = d.active_deadline_seconds;
  spark_extension = over_pointer d.spark_extension other.spark_extension;
  metrics_uri = over_pointer d.metrics_uri other.metrics_uri;
}

-- `Run{}`
abbrev pub zero_run : Run
zero_run = record {
  run_id = "";
  definition_id = "";
  alias = "";
  image = "";
  cluster_name = "";
  exit_code = none;
  status = "";
  queued_at = none;
  started_at = none;
  finished_at = none;
  instance_id = "";
  instance_dns_name = "";
  group_name = "";
  user = "";
  task_type = "";
  env = none;
  command = none;
  command_hash = none;
  memory = none;
  memory_limit = none;
  cpu = none;
  cpu_limit = none;
  gpu = none;
  exit_reason = none;
  engine = none;
  node_lifecycle = none;
  ephemeral_storage = none;
  pod_name = none;
  namespace = none;
  max_memory_used = none;
  max_cpu_used = none;
  pod_events = none;
  cloudtrail_notifications = none;
  executable_id = none;
  executable_type = none;
  execution_request_custom = none;
  attempt_count = none;
  spawned_runs = none;
  run_exceptions = none;
  active_deadline_seconds = none;
  spark_extension = none;
  metrics_uri = none;
}

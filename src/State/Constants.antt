-- ===== src/State/Constants.antt =====
-- The package variables of state/models.go.
use flotilla_os.Common.{ℤ, pos, String, List, [], ◌∷◌, Bool, ◌||◌, ◌==◌}

abbrev pub eks_engine : String
eks_engine = "eks"

abbrev pub eks_spark_engine : String
eks_spark_engine = "eks-spark"

abbrev pub default_task_type : String
default_task_type = "task"

abbrev pub min_cpu : ℤ
min_cpu = pos 256

abbrev pub max_cpu : ℤ
max_cpu = pos 32000

abbrev pub min_mem : ℤ
min_mem = pos 512

abbrev pub max_mem : ℤ
max_mem = pos 250000

abbrev pub spot_active_deadline_seconds : ℤ
spot_active_deadline_seconds = pos 172800

abbrev pub ondemand_active_deadline_seconds : ℤ
ondemand_active_deadline_seconds = pos 604800

abbrev pub spot_lifecycle : String
spot_lifecycle = "spot"

abbrev pub ondemand_lifecycle : String
ondemand_lifecycle = "ondemand"

abbrev pub engines : List String
engines = eks_engine ∷ eks_spark_engine ∷ []

abbrev pub status_running : String
status_running = "RUNNING"

abbrev pub status_queued : String
status_queued = "QUEUED"

abbrev pub status_needs_retry : String
status_needs_retry = "NEEDS_RETRY"

abbrev pub status_pending : String
status_pending = "PENDING"

abbrev pub status_stopped : String
status_stopped = "STOPPED"

-- The keys of `WorkerTypes`, all of which it maps to true.
unfoldable pub is_valid_worker_type : String → Bool
is_valid_worker_type worker_type =
    worker_type == "retry" || worker_type == "submit" || worker_type == "status"

unfoldable pub is_valid_status : String → Bool
is_valid_status status =
    status == status_running
    || status == status_queued
    || status == status_needs_retry
    || status == status_pending
    || status == status_stopped

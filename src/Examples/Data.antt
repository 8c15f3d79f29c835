-- ===== src/Examples/Data.antt =====
-- The runs, definitions and worlds of the examples.
use flotilla_os.Common.{pos, true, false, String, List, [], ◌∷◌, none, some, ok, plain_error}
use flotilla_os.State.Constants.{status_queued, status_running, status_stopped, status_needs_retry}
use flotilla_os.State.Types.{Run, Definition, ExecutableResources, UserInfo}
use flotilla_os.State.RunUpdate.{zero_run}
use flotilla_os.World.{World}
use flotilla_os.Worker.Submit.{Engines, Faults, RunReceipt}
use flotilla_os.State.TaskTable.{no_faults}
use flotilla_os.Services.Execution.Requests.{ExecutionRequestCommon}
use flotilla_os.Services.Execution.Construct.{reserved_env}
use flotilla_os.Services.Execution.Enqueue.{Settings, Outside}
use flotilla_os.Services.Execution.Enqueue.Queued.{no_enqueue_faults}

abbrev pub plain_resources : ExecutableResources
plain_resources = record {
  image = "image";
  memory = some (pos 1024);
  gpu = none;
  cpu = some (pos 512);
  env = none;
  adaptive_resource_allocation = some true;
  ports = none;
  tags = none;
}

abbrev pub sleeper : Definition
sleeper = record {
  definition_id = "sleeper";
  group_name = "group";
  alias = "sleep";
  command = "sleep 60";
  task_type = "task";
  executable_resources = plain_resources;
}

abbrev pub run_with : String → String → Run
run_with run_id status = record zero_run {
  run_id = run_id;
  definition_id = "sleeper";
  status = status;
  engine = some "eks";
  executable_id = some "sleeper";
  executable_type = some "task_definition";
}

abbrev pub waiting : Run
waiting = run_with "eks-1" status_queued

abbrev pub active : Run
active = run_with "eks-2" status_running

abbrev pub over : Run
over = record (run_with "eks-3" status_stopped) { exit_code = some (pos 0) }

abbrev pub failing : Run
failing = run_with "eks-4" status_needs_retry

abbrev pub table : List Run
table = waiting ∷ active ∷ over ∷ failing ∷ []

abbrev pub world : World
world = record { tasks = table; definitions = sleeper ∷ []; templates = []; events = [] }

-- Engines that launch each run and set it to running.
abbrev pub launching : Engines
launching = record {
  eks_execute = λ executable run. record {
    launched = record run { status = status_running };
    retryable = false;
    error = none;
  };
  emr_execute = λ executable run. record {
    launched = run;
    retryable = true;
    error = some (plain_error "emr");
  };
}

abbrev pub no_read_faults : Faults
no_read_faults = record {
  run_read_fails = false;
  executable_read_fails = false;
  transaction = no_faults;
}

abbrev pub receipt_of : Run → RunReceipt
receipt_of run = record { run = some run; handle = "handle" }

abbrev pub request : ExecutionRequestCommon
request = record {
  cluster_name = "";
  env = some (record { name = "A"; value = "1" } ∷ []);
  owner_id = "owner";
  command = none;
  memory = none;
  cpu = none;
  gpu = none;
  engine = none;
  ephemeral_storage = none;
  node_lifecycle = none;
  active_deadline_seconds = none;
  spark_extension = none;
}

abbrev pub settings : Settings
settings = record {
  eks_cluster_override = "first" ∷ "second" ∷ [];
  eks_spot_override = false;
  reserved_env = reserved_env "test" "FLOTILLA_RUN_OWNER_ID";
}

abbrev pub outside : Outside
outside = record {
  pick = 1;
  history = record { reattempts_often = false; runs_long = true };
  uuid = ok "0b5f5b67-2f6b-4d0c-9c9e-6f4f0f3f2c11";
  now = 1000;
  md5 = λ s. s;
  faults = no_enqueue_faults;
}

abbrev pub user : UserInfo
user = record { name = "Ada"; email = "ada@example.com" }

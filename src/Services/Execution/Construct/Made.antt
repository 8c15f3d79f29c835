-- ===== src/Services/Execution/Construct/Made.antt =====
-- The runs that are made of requests: their identifiers, and the runs of definitions on the EKS engine.
use Prim.Native.String.{◌++◌ as text_append}
use Prim.Native.String.append
use flotilla_os.Common.{
  ℕ, zero, suc, ◌+◌, ◌≤◌, ◌<◌, true, String, none, some, ◌≡◌, refl, arith, is_some, Error,
  plain_error, Result, ok, err, returns, panics,
}
use flotilla_os.State.Constants.{eks_engine, eks_spark_engine, status_queued}
use flotilla_os.State.Types.{Run, Executable, Definition, task_definition}
use flotilla_os.State.Validity.{get_executable_id, get_executable_type}
use flotilla_os.Services.Execution.Requests.{ExecutionRequestCommon}
use flotilla_os.Services.Execution.Construct.{
  slice_from, text_length, new_run_id, History, choose_command, eks_lifecycle, ReservedEnv,
  base_run, prepare_request, with_environ, run_of_request, construct_base_run_from_executable,
  from_definition, construct_run_from_definition,
}

-- What holds of a run that was made for an executable: it is queued, on the request's cluster and
-- engine, it names the executable, it has a lifecycle, and it has not run.
pub record IsRunOf (executable : Executable) (fields : ExecutionRequestCommon) (run : Run)
    : Type 0 where
  pub queued : run.status ≡ status_queued
  pub on_cluster : run.cluster_name ≡ fields.cluster_name
  pub on_engine : run.engine ≡ fields.engine
  pub of_executable : run.executable_id ≡ some (get_executable_id executable)
  pub of_type : run.executable_type ≡ some (get_executable_type executable)
  pub has_lifecycle : is_some run.node_lifecycle ≡ true
  pub not_started : (run.queued_at ≡ none) × (run.started_at ≡ none) × (run.exit_code ≡ none)

slice_from_returns :
    (n : ℕ) (s : String)
    → n ≤ text_length s
    → (rest : String) × (slice_from n s ≡ returns rest) × (n + text_length rest ≡ text_length s)
unfolding slice_from text_length
slice_from_returns zero s h = (s, refl, omega arith)
slice_from_returns (suc n) String.[] h = absurd (omega (arith, h))
slice_from_returns (suc n) (String.◌∷◌ c s) h =
    let (rest, e, l) = slice_from_returns n s (omega (arith, h)) in (rest, e, omega (arith, l))

length-text_append : (s t : String) → text_length (text_append s t) ≡ text_length s + text_length t
unfolding text_length
length-text_append String.[] t = rw (append.nil t) (omega arith)
length-text_append (String.◌∷◌ c s) t =
    rw (append.cons c s t) (omega (arith, length-text_append s t))

dash_length : (rest : String) → text_length (text_append "-" rest) ≡ suc (text_length rest)
unfolding text_length
dash_length rest = omega (arith, length-text_append "-" rest)

-- A new run's identifier is the engine's name, a dash and the end of a UUID that is longer than the
-- engine's name, and it is as long as that UUID.
pub new_run_id_length :
    (engine uuid : String)
    → text_length engine < text_length uuid
    → (run_id : String) × (new_run_id engine (ok uuid) ≡ returns run_id)
      × (text_length run_id ≡ text_length uuid)
unfolding new_run_id
new_run_id_length engine uuid h =
    let (rest, e, l) = slice_from_returns (suc (text_length engine)) uuid h in
    (
      text_append engine (text_append "-" rest),
      rw e,
      omega (arith, l, length-text_append engine (text_append "-" rest), dash_length rest),
    )

-- The request of a run on the EKS engine, and the run that is made for it.
abbrev pub eks_request : String → History → ExecutionRequestCommon → ExecutionRequestCommon
eks_request cmd history fields = record fields {
  command = choose_command fields.command cmd;
  node_lifecycle = eks_lifecycle history fields.node_lifecycle;
}

abbrev pub definition_run :
    ReservedEnv → History → String → Definition → ExecutionRequestCommon → Run
definition_run reserved history run_id d fields = from_definition d (
    with_environ reserved fields.env
      (base_run run_id (task_definition d) (eks_request d.command history fields)))

pub construct_eks :
    (reserved : ReservedEnv) (history : History) (uuid : Result String) (d : Definition)
    (fields : ExecutionRequestCommon) (run_id : String)
    → fields.engine ≡ some eks_engine
    → new_run_id eks_engine uuid ≡ returns run_id
    → construct_run_from_definition reserved history uuid d fields
      ≡ returns (ok (definition_run reserved history run_id d fields))
unfolding construct_run_from_definition construct_base_run_from_executable prepare_request
    run_of_request
construct_eks reserved history uuid d fields run_id e i = rw (e, i)

-- A request for the Spark engine without its extension is refused with an error, whatever the
-- executable; a UUID that cannot be made stops the process with a panic before its error is seen.
pub construct_base_run_refusals :
    (reserved : ReservedEnv) (executable_command : Result String) (history : History)
    (executable : Executable) (fields : ExecutionRequestCommon) (uuid run_id : String) (e : Error)
    → fields.engine ≡ some eks_spark_engine
    → fields.spark_extension ≡ none
    → new_run_id eks_spark_engine (ok uuid) ≡ returns run_id
    → (construct_base_run_from_executable reserved executable_command history
          (ok uuid)
          executable
          fields
        ≡ returns
            (err (plain_error "spark_extension can't be nil, when using eks-spark engine type")))
      × (construct_base_run_from_executable reserved executable_command history
            (err e)
            executable
            fields
          ≡ panics)
unfolding construct_base_run_from_executable prepare_request run_of_request new_run_id slice_from
    text_length
construct_base_run_refusals reserved executable_command history executable fields uuid run_id e
      engine spark i =
    (rw (engine, i, spark), rw engine)

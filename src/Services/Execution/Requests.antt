-- ===== src/Services/Execution/Requests.antt =====
-- sanitizeExecutionRequestCommonFields. The code compares the pointer to the lifecycle with the
-- address of a variable, so a lifecycle is a reference here: to one of the two variables
-- `state.OndemandLifecycle` and `state.SpotLifecycle`, or to a text of the request.
use flotilla_os.Common.{
  ℤ, Bool, true, false, String, Option, none, some, ◌≡◌, arith, if◌then◌else◌, is_none, get_or,
}
use flotilla_os.State.Constants.{
  eks_engine, ondemand_lifecycle, spot_lifecycle, ondemand_active_deadline_seconds,
  spot_active_deadline_seconds,
}
use flotilla_os.State.Types.{EnvList, SparkExtension}

pub data LifecycleRef : Type 0 where
  ondemand_variable spot_variable : LifecycleRef
  request_text : String → LifecycleRef

-- `*p`
abbrev pub lifecycle_text : LifecycleRef → String
lifecycle_text ondemand_variable = ondemand_lifecycle
lifecycle_text spot_variable = spot_lifecycle
lifecycle_text (request_text s) = s

-- `p == &state.OndemandLifecycle`
abbrev pub is_ondemand_variable : Option LifecycleRef → Bool
is_ondemand_variable none = false
is_ondemand_variable (some ondemand_variable) = true
is_ondemand_variable (some spot_variable) = false
is_ondemand_variable (some (request_text s)) = false

pub record ExecutionRequestCommon : Type 0 where
  pub cluster_name : String
  pub env : Option EnvList
  pub owner_id : String
  pub command : Option String
  pub memory : Option ℤ
  pub cpu : Option ℤ
  pub gpu : Option ℤ
  pub engine : Option String
  pub ephemeral_storage : Option ℤ
  pub node_lifecycle : Option LifecycleRef
  pub active_deadline_seconds : Option ℤ
  pub spark_extension : Option SparkExtension

-- `spot_override` is the service's field `eksSpotOverride`.
unfoldable pub sanitize_execution_request_common_fields :
    Bool → ExecutionRequestCommon → ExecutionRequestCommon
sanitize_execution_request_common_fields spot_override fields =
    let node_lifecycle = if spot_override then some ondemand_variable else fields.node_lifecycle in
    record fields {
      engine = some (get_or eks_engine fields.engine);
      node_lifecycle = node_lifecycle;
      active_deadline_seconds = some (
          get_or
            (if is_ondemand_variable node_lifecycle
              then ondemand_active_deadline_seconds
              else spot_active_deadline_seconds)
            fields.active_deadline_seconds);
    }

-- A request that itself asks for an on-demand node, and for no deadline, gets the deadline of a spot
-- node: only the override of the service gives the deadline of an on-demand node.
pub sanitize-request_ondemand :
    (fields : ExecutionRequestCommon)
    → fields.node_lifecycle ≡ some (request_text ondemand_lifecycle)
    → fields.active_deadline_seconds ≡ none
    → (sanitize_execution_request_common_fields false fields).active_deadline_seconds
      ≡ some spot_active_deadline_seconds
unfolding sanitize_execution_request_common_fields
sanitize-request_ondemand fields l d = ground arith

-- A sanitized request has an engine and a deadline, keeps those that it came with, and is sanitized
-- again without a change.
pub sanitize_idem :
    (spot_override : Bool) (fields : ExecutionRequestCommon)
    → let fields' = sanitize_execution_request_common_fields spot_override fields in
      (fields'.engine ≡ some (get_or eks_engine fields.engine))
      × (is_none fields'.active_deadline_seconds ≡ false)
      × (sanitize_execution_request_common_fields spot_override fields' ≡ fields')
unfolding sanitize_execution_request_common_fields
sanitize_idem spot_override fields = ground arith

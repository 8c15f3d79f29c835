-- ===== src/Flotilla/Launches/Refused.antt =====
-- Requests for a run that are answered with 400.
use flotilla_os.Common.{
  Bool, true, false, not, ◌&&◌, ◌||◌, String, Option, none, some, malformed_input, Result, ok, err,
  then_ok, Go, returns, ◌≡◌, inl, inr, refl, arith, Bool-cases, is_empty, string_slice_contains,
}
use flotilla_os.State.Types.{Run}
use flotilla_os.World.{World}
use flotilla_os.Services.Execution.Requests.{ExecutionRequestCommon}
use flotilla_os.Services.Execution.Enqueue.{Settings, Outside, Created}
use flotilla_os.Flotilla.Answers.{Answer, failed, encode_error, decoded, error_text, status_code}
use flotilla_os.Flotilla.Launches.{
  LaunchRequestV2, node_lifecycles, checked_lifecycle, v2_request, v4_request, launch_run,
  create_definition_run_by_definition_id, create_definition_run_by_alias, create_run_v2,
  create_run_v4, create_run_by_alias,
}

-- A lifecycle that the request may name.
abbrev pub lifecycle_known : Option String → Bool
lifecycle_known none = true
lifecycle_known (some s) = string_slice_contains node_lifecycles s

-- What the fourth version asks of a request: an owner, and a known lifecycle if one is named.
abbrev pub accepts : LaunchRequestV2 → Bool
accepts lr = not (is_empty lr.run_tags.owner_id) && lifecycle_known lr.node_lifecycle

-- The answer is 400, and the world is as it was.
abbrev pub IsBadRequest : World → Go (World × Answer Run) → Type 0
IsBadRequest w r = (message : String) × (r ≡ returns (w, failed 400 message))

checked_refused :
    (o : Option String)
    → lifecycle_known o ≡ false
    → checked_lifecycle o ≡ err (malformed_input "Nodelifecyle must be [normal, spot]")
unfolding checked_lifecycle
checked_refused none h = cc
checked_refused (some s) h = rw (h, checked_lifecycle) refl

v4_refused :
    (lr : LaunchRequestV2)
    → accepts lr ≡ false
    → (m : String) × (v4_request lr ≡ err (malformed_input m))
unfolding v4_request
v4_refused lr h = elim (Bool-cases (is_empty lr.run_tags.owner_id)) [
  | inl nobody ↦
      ("run_tags must exist in body and contain [owner_id]", rw (nobody, v4_request) refl)
  | inr owned ↦ (
    "Nodelifecyle must be [normal, spot]",
    rw (owned, checked_refused lr.node_lifecycle (ground arith), v4_request) refl,
  )
]

launch_refused :
    (service : ExecutionRequestCommon → World → Go Created)
    (request : Result ExecutionRequestCommon) (m : String) (w : World)
    → request ≡ err (malformed_input m)
    → IsBadRequest w (launch_run service request w)
unfolding launch_run encode_error error_text status_code
launch_refused service request m w h = (m, rw (h, launch_run) refl)

-- A body that cannot be decoded, or that lacks what is asked for.
abbrev pub is_bad : (LaunchRequestV2 → Bool) → Result LaunchRequestV2 → Bool
is_bad asks (err e) = true
is_bad asks (ok lr) = not (asks lr)

not_accepted : (b : Bool) → not b ≡ true → b ≡ false
not_accepted true h = cc
not_accepted false h = refl

body_refused :
    (body : Result LaunchRequestV2)
    → is_bad accepts body ≡ true
    → (m : String) × (then_ok (decoded body) v4_request ≡ err (malformed_input m))
unfolding decoded
body_refused (err e) h = (error_text e, refl)
body_refused (ok lr) h = v4_refused lr (not_accepted (accepts lr) h)

abbrev pub asks_v2 : LaunchRequestV2 → Bool
asks_v2 lr = not (is_empty lr.run_tags.owner_email || is_empty lr.run_tags.team_name)

v2_body_refused :
    (body : Result LaunchRequestV2)
    → is_bad asks_v2 body ≡ true
    → (m : String) × (then_ok (decoded body) v2_request ≡ err (malformed_input m))
unfolding decoded v2_request
v2_body_refused (err e) h = (error_text e, refl)
v2_body_refused (ok lr) h =
    ("run_tags must exist in body and contain [owner_email] and [team_name]", ground arith)

-- A request for a run whose body cannot be decoded, or has no owner, or a lifecycle that is neither of the
-- two, is answered with 400 by the fourth version of the endpoint and by the one for aliases, and a
-- request without an owner's email and a team by the second version; and nothing is changed.
pub launches_refused :
    (settings : Settings) (outside : Outside) (fails : Bool) (body body' : Result LaunchRequestV2)
    (id alias : String) (w : World)
    → is_bad accepts body ≡ true
    → is_bad asks_v2 body' ≡ true
    → IsBadRequest w (create_run_v4 settings outside fails body id w)
      × IsBadRequest w (create_run_by_alias settings outside fails body alias w)
      × IsBadRequest w (create_run_v2 settings outside fails body' id w)
unfolding create_run_v4 create_run_by_alias create_run_v2
launches_refused settings outside fails body body' id alias w h h' =
    let (m, refused) = body_refused body h in
    let (m', refused') = v2_body_refused body' h' in
    (
      launch_refused (create_definition_run_by_definition_id settings outside fails id)
          (then_ok (decoded body) v4_request) m w refused,
      launch_refused (create_definition_run_by_alias settings outside fails alias)
          (then_ok (decoded body) v4_request) m w refused,
      launch_refused (create_definition_run_by_definition_id settings outside fails id)
          (then_ok (decoded body') v2_request) m' w refused',
    )

-- ===== src/Examples/Endpoints.antt =====
-- The theorems on the HTTP endpoints, at a few requests.
use flotilla_os.Common.{
  pos, false, [], ◌∷◌, ◌++◌, none, some, ok, returns, ◌≡◌, refl, string_slice_contains,
}
use flotilla_os.State.Constants.{status_queued}
use flotilla_os.State.Types.{Run}
use flotilla_os.State.TaskTable.{find_row}
use flotilla_os.World.{World, enqueued, get_definition}
use flotilla_os.Services.Execution.Construct.{new_run_id}
use flotilla_os.Flotilla.Answers.{answered}
use flotilla_os.Flotilla.Launches.{
  LaunchRequestV2, create_run_v2, create_run_v4, create_run_by_alias,
}
use flotilla_os.Flotilla.Launches.Refused.{IsBadRequest, launches_refused}
use flotilla_os.Flotilla.Launches.Queued.{create_run_v4-queued}
use flotilla_os.Flotilla.Lists.{Params, Query}
use flotilla_os.Examples.Data.{sleeper, settings, outside, world}

abbrev launch : LaunchRequestV2
launch = record {
  run_tags = record { owner_email = ""; team_name = "team"; owner_id = "ada" };
  command = none;
  memory = none;
  cpu = none;
  gpu = none;
  engine = some "ecs";
  node_lifecycle = some "ondemand";
  active_deadline_seconds = none;
  spark_extension = none;
  env = none;
}

-- A lifecycle that is none, a body that is no JSON, and an owner without an email.
launches_refused_example :
    let odd = record launch { node_lifecycle = some "normal" } in
    IsBadRequest world (create_run_v4 settings outside false (ok odd) "sleeper" world)
    × IsBadRequest world (create_run_by_alias settings outside false (ok odd) "sleep" world)
    × IsBadRequest world (create_run_v2 settings outside false (ok launch) "sleeper" world)
unfolding string_slice_contains
launches_refused_example =
    launches_refused settings outside false (ok (record launch { node_lifecycle = some "normal" }))
      (ok launch) "sleeper" "sleep" world refl refl

create_run_v4-queued_example :
    (w' : World) × (run : Run) × (create_run_v4 settings outside false (ok launch) "sleeper" world
      ≡ returns (w', answered run))
    × (row : Run) × (find_row "eks-5b67-2f6b-4d0c-9c9e-6f4f0f3f2c11" w'.tasks ≡ some row)
    × (row.status ≡ status_queued)
    × (row.definition_id ≡ "sleeper")
    × (row.cluster_name ≡ "second")
    × (sent : Run) × (w'.events ≡ [] ++ enqueued "eks" sent ∷ [])
    × (sent.run_id ≡ "eks-5b67-2f6b-4d0c-9c9e-6f4f0f3f2c11")
unfolding string_slice_contains get_definition new_run_id find_row
create_run_v4-queued_example =
    create_run_v4-queued settings outside launch "sleeper" sleeper world "second"
      "eks-5b67-2f6b-4d0c-9c9e-6f4f0f3f2c11" refl refl refl refl refl refl refl

abbrev params : Params
params =
    ("limit", "10" ∷ [])
    ∷ ("sort_by", "started_at" ∷ [])
    ∷ ("status", "RUNNING" ∷ "QUEUED" ∷ [])
    ∷ ("engine", "ecs" ∷ [])
    ∷ ("started_at_since", "2020" ∷ [])
    ∷ ("env", "A|1" ∷ "B" ∷ [])
    ∷ []

abbrev runs_query : Query
runs_query = record {
  clauses =
      "where status in ('RUNNING','QUEUED') and engine in ('eks','eks-spark') and started_at > '2020' and env @> '[{\"name\":\"A\",\"value\":\"1\"}]' order by started_at asc NULLS LAST limit $1 offset $2";
  limit = pos 10;
  offset = pos 0;
}

-- ===== src/Flotilla/Lists/Checked.antt =====
-- What is true of a query for runs that is sent to the database.
use Prim.Native.String.{◌++◌ as text_append}
use flotilla_os.Common.{
  Bool, true, ◌||◌, String, List, [], ◌∷◌, ◌++◌, none, some, Result, ◌==◌, ◌≡◌,
  string_slice_contains, All,
}
use flotilla_os.State.Constants.{is_valid_status, eks_engine, eks_spark_engine}
use flotilla_os.World.{World}
use flotilla_os.State.Queries.{run_order_fields, where_text, get_filter, list_runs_clauses}
use flotilla_os.Flotilla.Lists.{ListRequest, Query, check_definition, statuses_of}

-- The clause for the two engines.
abbrev pub engines_clause : String
engines_clause = "engine in ('eks','eks-spark')"

abbrev both_engines : List String
both_engines = eks_engine ∷ eks_spark_engine ∷ []

-- A text of a query, of these clauses and this order.
abbrev pub query_text : List String → String → String → String
query_text clauses field order = text_append (where_text clauses) (
    text_append " " (
      text_append
        (text_append "order by "
          (text_append field (text_append " " (text_append order " NULLS LAST"))))
        " limit $1 offset $2"))

abbrev clauses_of : ListRequest → Result String
clauses_of lr = list_runs_clauses lr.sort_by lr.order lr.filters lr.env_filters (some both_engines)

-- What holds of a query for runs and of the request that it was made for.
abbrev pub IsChecked : Bool → ListRequest → World → Query → Type 0
IsChecked fails lr w q =
    (check_definition fails (get_filter "definition_id" lr.filters) w ≡ none)
    × All (λ s. is_valid_status s ≡ true) (statuses_of (get_filter "status" lr.filters))
    × (string_slice_contains run_order_fields lr.sort_by ≡ true)
    × ((lr.order == "asc" || lr.order == "desc") ≡ true)
    × (clauses : List String) × (string_slice_contains clauses engines_clause ≡ true)
    × (q.clauses ≡ query_text clauses lr.sort_by lr.order)

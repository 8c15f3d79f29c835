-- ===== src/State/Queries.antt =====
-- makeWhereClause, makeEnvWhereClause, orderBy and the texts that ListDefinitions and ListRuns build of them
-- in state/pg_state_manager.go.
use Prim.Native.String.{◌++◌ as text_append}
use flotilla_os.Common.{
  ℕ, zero, suc, Bool, ◌||◌, String, List, [], ◌∷◌, ◌++◌, Option, none, some, plain_error, Result,
  ok, err, then_ok, if◌then◌else◌, ◌==◌, string_slice_contains, map, starts_with,
}
use flotilla_os.State.Constants.{eks_engine}

abbrev pub Filters : Type 0
Filters = List (String × List String)

abbrev pub EnvFilters : Type 0
EnvFilters = List (String × String)

abbrev pub like_fields : List String
like_fields = "image" ∷ "alias" ∷ "group_name" ∷ "command" ∷ "text" ∷ "exit_reason" ∷ []

-- `strings.Join(ss, sep)`
unfoldable pub join : String → List String → String
join sep [] = ""
join sep (s ∷ []) = s
join sep (s ∷ t ∷ rest) = text_append s (text_append sep (join sep (t ∷ rest)))

-- `strings.HasSuffix(s, t)`
unfoldable pub has_suffix : String → String → Bool
has_suffix String.[] t = t == ""
has_suffix (String.◌∷◌ c s) t = (String.◌∷◌ c s) == t || has_suffix s t

-- `strings.Replace(s, t, "", -1)` for a text `t` of six characters. The number counts the characters that
-- are still to be left out.
unfoldable pub without_from : ℕ → String → String → String
without_from n t String.[] = ""
without_from (suc n) t (String.◌∷◌ c s) = without_from n t s
without_from zero t (String.◌∷◌ c s) =
    let inside = without_from 5 t s in
    let rest = without_from zero t s in
    if starts_with (String.◌∷◌ c s) t then inside else String.◌∷◌ c rest

abbrev pub without : String → String → String
without t s = without_from 0 t s

abbrev pub quoted : String → String
quoted s = text_append "'" (text_append s "'")

-- The clause of a filter with one value.
unfoldable pub one_value_clause : String → String → String
one_value_clause k v =
    if string_slice_contains like_fields k
    then text_append k (text_append " like '%" (text_append v "%'"))
    else if has_suffix k "_since"
    then text_append (without "_since" k) (text_append " > " (quoted v))
    else if has_suffix k "_until"
    then text_append (without "_until" k) (text_append " < " (quoted v))
    else text_append k (text_append "=" (quoted v))

-- The values are put into the text as they are.
unfoldable pub make_where_clause : Filters → List String
make_where_clause [] = []
make_where_clause ((k, []) ∷ rest) = make_where_clause rest
make_where_clause ((k, v ∷ []) ∷ rest) = one_value_clause k v ∷ make_where_clause rest
make_where_clause ((k, v ∷ u ∷ vs) ∷ rest) =
    text_append k (text_append " in (" (text_append (join "," (map quoted (v ∷ u ∷ vs))) ")"))
    ∷ make_where_clause rest

unfoldable pub make_env_where_clause : EnvFilters → List String
make_env_where_clause [] = []
make_env_where_clause ((k, v) ∷ rest) =
    text_append "env @> '[{\"name\":\""
      (text_append k (text_append "\",\"value\":\"" (text_append v "\"}]'")))
    ∷ make_env_where_clause rest

abbrev pub definition_order_fields : List String
definition_order_fields = "alias" ∷ "image" ∷ "group_name" ∷ "memory" ∷ []

abbrev pub run_order_fields : List String
run_order_fields =
    "run_id" ∷ "cluster_name" ∷ "status" ∷ "started_at" ∷ "finished_at" ∷ "group_name" ∷ []

abbrev pub template_order_fields : List String
template_order_fields = "template_name" ∷ "version" ∷ []

unfoldable pub order_by : List String → String → String → Result String
order_by fields field order =
    if order == "asc" || order == "desc"
    then (if string_slice_contains fields field
        then ok (
            text_append "order by "
              (text_append field (text_append " " (text_append order " NULLS LAST"))))
        else err (
            plain_error (
              text_append "Invalid field to order by [" (
                text_append field
                  (text_append "], must be one of [" (text_append (join ", " fields) "]"))))))
    else err (
        plain_error
          (text_append "Invalid order string, must be one of ('asc', 'desc'), was " order))

unfoldable pub where_text : List String → String
where_text [] = ""
where_text (c ∷ cs) = text_append "where " (join " and " (c ∷ cs))

-- What follows the `SELECT` of a list.
unfoldable pub list_clauses : List String → String → String → Filters → EnvFilters → Result String
list_clauses fields sort_by order filters env_filters =
    then_ok (order_by fields sort_by order) (λ ordered. ok (
      text_append (where_text (make_where_clause filters ++ make_env_where_clause env_filters))
        (text_append " " (text_append ordered " limit $1 offset $2"))))

-- `m[k] = v`
unfoldable pub set_filter : String → List String → Filters → Filters
set_filter k v [] = (k, v) ∷ []
set_filter k v ((j, u) ∷ rest) = if j == k then (j, v) ∷ rest else (j, u) ∷ set_filter k v rest

unfoldable pub get_filter : String → Filters → Option (List String)
get_filter k [] = none
get_filter k ((j, u) ∷ rest) = if j == k then some u else get_filter k rest

-- `ListRuns`, whose last argument may be nil.
unfoldable pub list_runs_clauses :
    String → String → Filters → EnvFilters → Option (List String) → Result String
list_runs_clauses sort_by order filters env_filters engines =
    list_clauses run_order_fields sort_by order
      (set_filter "engine" (elim engines [ none ↦ eks_engine ∷ [] | some es ↦ es ]) filters)
      env_filters

unfoldable pub list_definitions_clauses : String → String → Filters → EnvFilters → Result String
list_definitions_clauses sort_by order filters env_filters =
    list_clauses definition_order_fields sort_by order filters env_filters

-- ===== src/Flotilla/Lists.antt =====
-- decodeListRequest of flotilla/endpoints.go, the list of runs and of definitions, and List of
-- services/execution.go. A request's parameters are an association list with each key once; what the
-- database answers to a query is an argument.
pub mod Checked
use Prim.Native.String.{◌++◌ as text_append}
use Prim.Native.Char.{Char, code}
use flotilla_os.Common.{
  ℕ, ◌+◌, ◌*◌, ◌-◌, ℤ, pos, negsuc, Bool, true, false, not, ◌&&◌, ◌||◌, String, List, [], ◌∷◌,
  Option, none, some, Error, malformed_input, Result, ok, err, then_ok, if◌then◌else◌, ◌==◌, leb,
  ltb, eqb, string_slice_contains,
}
use flotilla_os.Common.Int64.{two63}
use flotilla_os.Common.Parsing.{digits_from}
use flotilla_os.State.Constants.{is_valid_status, eks_engine, eks_spark_engine}
use flotilla_os.State.Types.{Definition}
use flotilla_os.World.{World, get_definition}
use flotilla_os.State.Queries.{
  Filters, EnvFilters, template_order_fields, set_filter, get_filter, list_runs_clauses,
  list_definitions_clauses,
}

-- `strconv.Atoi` without its error: zero for a text that is no number, and the nearest int64 for a number
-- that is none.
abbrev clamped : Bool → ℕ → ℤ
clamped false n = if ltb n two63 then pos n else pos (two63 - 1)
clamped true n =
    if eqb n 0 then pos 0 else if leb n two63 then negsuc (n - 1) else negsuc (two63 - 1)

abbrev number_or_zero : Bool → String → ℤ
number_or_zero negative String.[] = pos 0
number_or_zero negative (String.◌∷◌ c s) = elim (digits_from 0 (String.◌∷◌ c s)) [
  | none ↦ pos 0
  | some n ↦ clamped negative n
]

unfoldable pub atoi : String → ℤ
atoi String.[] = pos 0
atoi (String.◌∷◌ c s) =
    if eqb (code c) 45
    then number_or_zero true s
    else if eqb (code c) 43
    then number_or_zero false s
    else number_or_zero false (String.◌∷◌ c s)

abbrev pub Params : Type 0
Params = List (String × List String)

unfoldable pub get_url_param : Params → String → String → String
get_url_param params key default_value = elim (get_filter key params) [
  | none ↦ default_value
  | some [] ↦ default_value
  | some (v ∷ vs) ↦ v
]

-- `strings.Split(s, "|")`, where the first argument is the part so far.
unfoldable pub split_bars : String → String → List String
split_bars part String.[] = part ∷ []
split_bars part (String.◌∷◌ c s) =
    if eqb (code c) 124
    then part ∷ split_bars "" s
    else split_bars (text_append part (String.◌∷◌ c String.[])) s

unfoldable pub set_env : String → String → EnvFilters → EnvFilters
set_env k v [] = (k, v) ∷ []
set_env k v ((j, u) ∷ rest) = if j == k then (j, v) ∷ rest else (j, u) ∷ set_env k v rest

abbrev pub add_env : List String → EnvFilters → EnvFilters
add_env (k ∷ v ∷ []) env = set_env k v env
add_env parts env = env

unfoldable pub add_env_filters : List String → EnvFilters → EnvFilters
add_env_filters [] env = env
add_env_filters (kv ∷ kvs) env = add_env_filters kvs (add_env (split_bars "" kv) env)

abbrev pub non_filters : List String
non_filters = "limit" ∷ "offset" ∷ "sort_by" ∷ "order" ∷ []

unfoldable pub get_filters : Params → Filters → EnvFilters → Filters × EnvFilters
get_filters [] filters env = (filters, env)
get_filters ((k, []) ∷ params) filters env = get_filters params filters env
get_filters ((k, v ∷ vs) ∷ params) filters env =
    let skipped = get_filters params filters env in
    let as_env = get_filters params filters (add_env_filters (v ∷ vs) env) in
    let as_filter = get_filters params (set_filter k (v ∷ vs) filters) env in
    if string_slice_contains non_filters k
    then skipped
    else if k == "env"
    then as_env
    else as_filter

pub record ListRequest : Type 0 where
  pub limit : ℤ
  pub offset : ℤ
  pub sort_by : String
  pub order : String
  pub filters : Filters
  pub env_filters : EnvFilters

-- The default order is an argument: `decodeOrderableListRequest` takes that of the entity, and
-- `decodeListRequest` takes `group_name`.
unfoldable pub decode_orderable_list_request : String → Params → ListRequest
decode_orderable_list_request default_field params =
    let (filters, env_filters) = get_filters params [] [] in
    record {
      limit = atoi (get_url_param params "limit" "1024");
      offset = atoi (get_url_param params "offset" "0");
      sort_by = get_url_param params "sort_by" default_field;
      order = get_url_param params "order" "asc";
      filters = filters;
      env_filters = env_filters;
    }

abbrev pub decode_list_request : Params → ListRequest
decode_list_request params = decode_orderable_list_request "group_name" params

-- A query that is sent: the text after its `SELECT`, and its two arguments.
pub record Query : Type 0 where
  pub clauses : String
  pub limit : ℤ
  pub offset : ℤ

-- The filters that `List` checks: a definition that must exist, and the statuses. A filter always has a
-- value, so that the first can be taken.
unfoldable pub check_definition : Bool → Option (List String) → World → Option Error
check_definition fails none w = none
check_definition fails (some []) w = none
check_definition fails (some (id ∷ ids)) w = elim (get_definition fails id w) [
  | ok d ↦ none
  | err e ↦ some e
]

unfoldable pub check_statuses : List String → Option Error
check_statuses [] = none
check_statuses (s ∷ rest) =
    if is_valid_status s
    then check_statuses rest
    else some (malformed_input (text_append "invalid status [" (text_append s "]")))

abbrev pub statuses_of : Option (List String) → List String
statuses_of none = []
statuses_of (some statuses) = statuses

-- `List` of the execution service, up to its query.
unfoldable pub list_runs : Bool → ListRequest → World → Result Query
list_runs fails lr w = elim (check_definition fails (get_filter "definition_id" lr.filters) w) [
  | some e ↦ err e
  | none ↦ elim (check_statuses (statuses_of (get_filter "status" lr.filters))) [
    | some e ↦ err e
    | none ↦
        then_ok
          (list_runs_clauses lr.sort_by lr.order lr.filters lr.env_filters
            (some (eks_engine ∷ eks_spark_engine ∷ [])))
          (λ text. ok (record { clauses = text; limit = lr.limit; offset = lr.offset }))
  ]
]

-- The endpoints ListRuns, ListDefinitionRuns and ListTemplateRuns, up to their query.
unfoldable pub list_runs_of : Bool → Params → World → Result Query
list_runs_of fails params w = list_runs fails (decode_list_request params) w

abbrev pub with_filter : String → String → ListRequest → ListRequest
with_filter key value lr = record lr { filters = set_filter key (value ∷ []) lr.filters }

unfoldable pub list_definition_runs : Bool → String → Params → World → Result Query
list_definition_runs fails id params w =
    list_runs fails (with_filter "definition_id" id (decode_list_request params)) w

unfoldable pub list_template_runs : Bool → String → Params → World → Result Query
list_template_runs fails id params w =
    list_runs fails (with_filter "executable_id" id (decode_list_request params)) w

-- The endpoint ListDefinitions, up to its query.
unfoldable pub list_definitions : Params → Result Query
list_definitions params =
    let lr = decode_list_request params in
    then_ok (list_definitions_clauses lr.sort_by lr.order lr.filters lr.env_filters)
      (λ text. ok (record { clauses = text; limit = lr.limit; offset = lr.offset }))

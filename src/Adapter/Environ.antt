-- ===== src/Adapter/Environ.antt =====
-- envOverrides and sanitizeEnvVar, which the EMR engine repeats: the environment of the container
-- from those of the definition and of the run. The map `pairs` is an association list without
-- repeated keys; Go ranges over it in some order, which the list stands for.
use Prim.Native.Char.{Char, code}
use flotilla_os.Common.{
  Bool, false, String, List, [], ◌∷◌, ◌||◌, Option, none, some, ◌≡◌, refl, ap, ◌∙◌, arith,
  if◌then◌else◌, ◌==◌, eq_iff, is_empty, get_or, eqb,
}
use flotilla_os.State.Types.{EnvList}

-- `strings.Replace(key, " ", "", -1)`
unfoldable pub remove_spaces : String → String
remove_spaces String.[] = ""
remove_spaces (String.◌∷◌ c key) =
    let rest = remove_spaces key in if eqb (code c) b' ' then rest else String.◌∷◌ c rest

-- The removal of the first "$" of a key that begins with one.
unfoldable pub remove_dollar : String → String
remove_dollar String.[] = ""
remove_dollar (String.◌∷◌ c key) = if eqb (code c) b'$' then key else String.◌∷◌ c key

unfoldable pub sanitize_env_var : String → String
unfolding remove_dollar remove_spaces
sanitize_env_var key = remove_spaces (remove_dollar key)

abbrev pub Pairs : Type 0
Pairs = List (String × String)

-- `pairs[name] = value`, and `pairs[name]`.
unfoldable pub assign : String → String → Pairs → Pairs
assign name value [] = (name, value) ∷ []
assign name value ((n, v) ∷ pairs) =
    if n == name then (n, value) ∷ pairs else (n, v) ∷ assign name value pairs

unfoldable pub lookup : String → Pairs → Option String
lookup name [] = none
lookup name ((n, v) ∷ pairs) = if n == name then some v else lookup name pairs

-- The loop over one environment.
unfoldable pub add_all : EnvList → Pairs → Pairs
add_all [] pairs = pairs
add_all (ev ∷ env) pairs = add_all env (assign (sanitize_env_var ev.name) ev.value pairs)

-- The variables of the pairs with a name.
unfoldable pub named : Pairs → EnvList
named [] = []
named ((n, v) ∷ pairs) =
    let rest = named pairs in if is_empty n then rest else record { name = n; value = v } ∷ rest

-- `envOverrides`, from the environment of the executable and that of the run.
unfoldable pub env_overrides : Option EnvList → Option EnvList → EnvList
env_overrides resources_env run_env =
    named (add_all (get_or [] run_env) (add_all (get_or [] resources_env) []))

-- The specification: the value of the last entry of an environment with a given sanitized name.
unfoldable pub last_value : String → EnvList → Option String → Option String
last_value name [] before = before
last_value name (ev ∷ env) before =
    last_value name env (if sanitize_env_var ev.name == name then some ev.value else before)

unfoldable pub value_of : String → EnvList → Option String
value_of name [] = none
value_of name (ev ∷ env) = if ev.name == name then some ev.value else value_of name env

lookup-assign :
    (name value k : String) (pairs : Pairs)
    → lookup k (assign name value pairs) ≡ (if name == k then some value else lookup k pairs)
unfolding lookup assign
lookup-assign name value k [] = refl
lookup-assign name value k ((n, v) ∷ pairs) =
    ground (arith, eq_iff n name, eq_iff n k, eq_iff name k, lookup-assign name value k pairs)

lookup-add_all :
    (k : String) (env : EnvList) (pairs : Pairs)
    → lookup k (add_all env pairs) ≡ last_value k env (lookup k pairs)
unfolding add_all last_value
lookup-add_all k [] pairs = refl
lookup-add_all k (ev ∷ env) pairs =
    lookup-add_all k env (assign (sanitize_env_var ev.name) ev.value pairs)
    ∙ ap (last_value k env) (lookup-assign (sanitize_env_var ev.name) ev.value k pairs)

value_of-named :
    (k : String) (pairs : Pairs) → is_empty k ≡ false → value_of k (named pairs) ≡ lookup k pairs
unfolding value_of named lookup
value_of-named k [] h = refl
value_of-named k ((n, v) ∷ pairs) h = ground (arith, eq_iff n k, value_of-named k pairs)

-- No name is repeated, and none is empty.
abbrev pub IsEnvironment : EnvList → Type 0
IsEnvironment [] = Unit {0}
IsEnvironment (ev ∷ env) =
    (is_empty ev.name ≡ false) × (value_of ev.name env ≡ none) × IsEnvironment env

-- No key of the map is repeated.
abbrev IsMap : Pairs → Type 0
IsMap [] = Unit {0}
IsMap ((n, v) ∷ pairs) = (lookup n pairs ≡ none) × IsMap pairs

assign-IsMap : (name value : String) (pairs : Pairs) → IsMap pairs → IsMap (assign name value pairs)
unfolding assign lookup
assign-IsMap name value [] m = (refl, tt)
assign-IsMap name value ((n, v) ∷ pairs) m = ground (
  arith,
  eq_iff n name,
  eq_iff name n,
  lookup-assign name value n pairs,
  assign-IsMap name value pairs m.1,
)

add_all-IsMap : (env : EnvList) (pairs : Pairs) → IsMap pairs → IsMap (add_all env pairs)
unfolding add_all
add_all-IsMap [] pairs m = m
add_all-IsMap (ev ∷ env) pairs m =
    add_all-IsMap env _ (assign-IsMap (sanitize_env_var ev.name) ev.value pairs m)

named-IsEnvironment : (pairs : Pairs) → IsMap pairs → IsEnvironment (named pairs)
unfolding named
named-IsEnvironment [] m = tt
named-IsEnvironment ((n, v) ∷ pairs) m =
    ground (arith, value_of-named n pairs, named-IsEnvironment pairs m.1)

-- The container's environment names no variable twice and none with the empty name. A variable with a
-- name that is not empty has the value that the run gives it last, and where the run gives it none, the
-- value that the executable gives it last. Names are compared as they are sanitized.
pub env_overrides_lem :
    (resources_env run_env : Option EnvList) (k : String)
    → is_empty k ≡ false
    → IsEnvironment (env_overrides resources_env run_env)
      × (value_of k (env_overrides resources_env run_env)
          ≡ last_value k (get_or [] run_env) (last_value k (get_or [] resources_env) none))
unfolding env_overrides lookup
env_overrides_lem resources_env run_env k h = (
  named-IsEnvironment _
      (add_all-IsMap (get_or [] run_env) _ (add_all-IsMap (get_or [] resources_env) [] tt)),
  value_of-named k _ h
      ∙ lookup-add_all k (get_or [] run_env) _
      ∙ ap (last_value k (get_or [] run_env)) (lookup-add_all k (get_or [] resources_env) []),
)

unfoldable pub has_space : String → Bool
has_space String.[] = false
has_space (String.◌∷◌ c key) = eqb (code c) b' ' || has_space key

has_space-remove_spaces : (key : String) → has_space (remove_spaces key) ≡ false
unfolding has_space remove_spaces
has_space-remove_spaces String.[] = refl
has_space-remove_spaces (String.◌∷◌ c key) = ground (arith, has_space-remove_spaces key)

-- No sanitized name has a space in it.
pub has_space-sanitize_env_var : (key : String) → has_space (sanitize_env_var key) ≡ false
unfolding sanitize_env_var
has_space-sanitize_env_var key = has_space-remove_spaces (remove_dollar key)

-- A sanitized name may begin with a dollar sign all the same: each name that begins with two keeps
-- the second.
pub sanitize_env_var-two_dollars :
    (c d : Char) (key : String)
    → code c ≡ b'$'
    → code d ≡ b'$'
    → sanitize_env_var (String.◌∷◌ c (String.◌∷◌ d key)) ≡ String.◌∷◌ d (remove_spaces key)
unfolding sanitize_env_var
sanitize_env_var-two_dollars c d key hc hd = ground arith

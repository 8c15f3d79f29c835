-- ===== src/Utils/Merge.antt =====
-- utils/utils.go: MergeMaps. A nil map is `none`; a nested map, which Go changes in place, is put back
-- under its key.
pub mod Paths
pub mod Entries
pub mod Prefers
use flotilla_os.Common.{
  String, Bool, true, false, Option, none, some, ◌==◌, if◌then◌else◌, Error, plain_error, Go,
  returns, panics, ◌>>=◌,
}
use flotilla_os.Utils.Json.{
  Json, null, bool, number, text, array, object, typed_map, Fields, end, field,
}

unfoldable pub lookup_field : String → Fields → Option Json
lookup_field k end = none
lookup_field k (field j v rest) = if j == k then some v else lookup_field k rest

-- `m[k] = v`
unfoldable pub set_field : String → Json → Fields → Fields
set_field k v end = field k v end
set_field k v (field j w rest) = if j == k then field j v rest else field j w (set_field k v rest)

-- A read of a map that may be nil.
abbrev pub lookup_in : String → Option Fields → Option Json
lookup_in k none = none
lookup_in k (some a) = lookup_field k a

-- A write to it, which panics where it is nil.
abbrev pub put : String → Json → Option Fields → Go (Option Fields × Option Error)
put k v none = panics
put k v (some a) = returns (some (set_field k v a), none)

-- `u.(map[string]interface{})`, whose `ok` the code does not look at.
abbrev pub map_of : Json → Option Fields
map_of (object f) = some f
map_of u = none

abbrev pub put_back :
    String → Option Fields × Option Error → Option Fields → Option Fields × Option Error
put_back k (some h, e) (some a) = (some (set_field k (object h) a), e)
put_back k (h, e) a = (a, e)

abbrev pub put_absent : String → Json → Option Fields → Go (Option Fields × Option Error)
put_absent k v a = elim (lookup_in k a) [ none ↦ put k v a | some u ↦ returns (a, none) ]

-- `reflect.TypeOf(v).Kind()` panics on a nil value.
unfoldable mutual
  pub merge_value : Json → String → Option Fields → Go (Option Fields × Option Error)
  merge_value null k a = panics
  merge_value (typed_map g) k a = elim (lookup_in k a) [
    | none ↦ put k (typed_map g) a
    | some u ↦
        returns (a, some (plain_error "unable to cast interface{} to map[string]interface{}"))
  ]
  merge_value (object g) k a = elim (lookup_in k a) [
    | none ↦ put k (object g) a
    | some u ↦ merge_maps_recursive g (map_of u) >>= λ r. returns (put_back k r a)
  ]
  merge_value (bool b) k a = put_absent k (bool b) a
  merge_value (number n) k a = put_absent k (number n) a
  merge_value (text t) k a = put_absent k (text t) a
  merge_value (array xs) k a = put_absent k (array xs) a

  pub merge_maps_recursive : Fields → Option Fields → Go (Option Fields × Option Error)
  merge_maps_recursive end a = returns (a, none)
  merge_maps_recursive (field k v rest) a = merge_value v k a >>= λ r. elim r.1 [
    | none ↦ merge_maps_recursive rest r.0
    | some e ↦ returns (r.0, some e)
  ]

unfoldable pub merge_maps : Option Fields → Fields → Go (Option Fields × Option Error)
merge_maps a b = merge_maps_recursive b a

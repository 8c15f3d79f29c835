-- ===== src/Utils/Merge/Paths.antt =====
-- What a merge leaves at each path of keys.
use flotilla_os.Common.{
  String, Bool, true, false, List, [], ◌∷◌, Option, none, some, ◌==◌, eq_iff, eq_refl, ◌≡◌, refl,
  sym, ap, arith, ◌&&◌,
}
use flotilla_os.Utils.Json.{
  Json, null, bool, number, text, array, object, typed_map, Fields, end, field,
}
use flotilla_os.Utils.Merge.{lookup_field, set_field}

-- The value at a path of keys through nested maps.
unfoldable pub value_at : List String → Option Json → Option Json
value_at [] o = o
value_at (k ∷ p) none = none
value_at (k ∷ p) (some (object f)) = value_at p (lookup_field k f)
value_at (k ∷ p) (some u) = none

-- A value that is not a map.
abbrev pub leaf : Option Json → Option Json
leaf none = none
leaf (some (object f)) = none
leaf (some u) = some u

abbrev pub or_else : Option Json → Option Json → Option Json
or_else none y = y
or_else (some u) y = some u

abbrev pub is_absent : Option Json → Bool
is_absent none = true
is_absent (some u) = false

-- The merge of a second map into a first one, as the code can do it: each key once, no nil, a map
-- only where the first has a map or nothing, and no map of another type over a value.
unfoldable mutual
  pub fits_value : Json → Option Json → Bool
  fits_value null x = false
  fits_value (typed_map g) x = is_absent x
  fits_value (object g) none = true
  fits_value (object g) (some (object f)) = fits g f
  fits_value (object g) (some u) = false
  fits_value (bool b) x = true
  fits_value (number n) x = true
  fits_value (text t) x = true
  fits_value (array xs) x = true

  pub fits : Fields → Fields → Bool
  fits end a = true
  fits (field k v rest) a =
      fits_value v (lookup_field k a) && (is_absent (lookup_field k rest) && fits rest a)

-- The third value has at each path what the first has there, or else what the second has.
abbrev pub Merged : Option Json → Option Json → Option Json → Type 0
Merged x y z =
    (p : List String) → leaf (value_at p z) ≡ leaf (or_else (value_at p x) (value_at p y))

pub value_at-none : (p : List String) → value_at p none ≡ none
unfolding value_at
value_at-none [] = refl
value_at-none (k ∷ p) = refl

pub or_else-none : (x : Option Json) → or_else x none ≡ x
or_else-none none = refl
or_else-none (some u) = refl

pub Merged-new : (y : Option Json) → Merged none y y
Merged-new y p = rw (value_at-none p) refl

pub Merged-old : (x : Option Json) → Merged x none x
Merged-old x p = rw (value_at-none p, or_else-none (value_at p x)) refl

-- The second value is no map.
pub Merged-kept : (u w : Json) → leaf (some w) ≡ some w → Merged (some u) (some w) (some u)
unfolding value_at
Merged-kept u w h [] = refl
Merged-kept u null h (k ∷ p) = ap leaf (sym (or_else-none (value_at (k ∷ p) (some u))))
Merged-kept u (bool b) h (k ∷ p) = ap leaf (sym (or_else-none (value_at (k ∷ p) (some u))))
Merged-kept u (number n) h (k ∷ p) = ap leaf (sym (or_else-none (value_at (k ∷ p) (some u))))
Merged-kept u (text t) h (k ∷ p) = ap leaf (sym (or_else-none (value_at (k ∷ p) (some u))))
Merged-kept u (array xs) h (k ∷ p) = ap leaf (sym (or_else-none (value_at (k ∷ p) (some u))))
Merged-kept u (typed_map g) h (k ∷ p) = ap leaf (sym (or_else-none (value_at (k ∷ p) (some u))))
Merged-kept u (object g) h (k ∷ p) = cc

pub Merged-object :
    (f g h : Fields)
    → ((k : String) → Merged (lookup_field k f) (lookup_field k g) (lookup_field k h))
    → Merged (some (object f)) (some (object g)) (some (object h))
unfolding value_at
Merged-object f g h each [] = refl
Merged-object f g h each (k ∷ p) = each k p

pub lookup-set : (k : String) (v : Json) (a : Fields) → lookup_field k (set_field k v a) ≡ some v
unfolding lookup_field set_field
lookup-set k v end = ground (arith, eq_refl k)
lookup-set k v (field j w rest) = ground (arith, eq_refl k, lookup-set k v rest)

pub lookup-set_other :
    (j k : String) (v : Json) (a : Fields)
    → (k == j) ≡ false
    → lookup_field j (set_field k v a) ≡ lookup_field j a
unfolding lookup_field set_field
lookup-set_other j k v end h = ground arith
lookup-set_other j k v (field i w rest) h =
    ground (arith, eq_iff i k, eq_iff i j, eq_iff k j, lookup-set_other j k v rest h)

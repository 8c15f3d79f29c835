-- ===== src/Utils/DeepEqual.antt =====
-- `reflect.DeepEqual` on the values of Json: maps are equal when they have the same keys with equal values,
-- whatever their order. A number is compared by its literal.
use flotilla_os.Common.{ℕ, suc, Bool, true, false, ◌&&◌, none, some, ◌==◌, eqb}
use flotilla_os.Utils.Json.{
  Json, null, bool, number, text, array, object, typed_map, Items, nil, cons, Fields, end, field,
}
use flotilla_os.Utils.Merge.{lookup_field}

abbrev pub same_bool : Bool → Bool → Bool
same_bool true b = b
same_bool false true = false
same_bool false false = true

unfoldable pub count_fields : Fields → ℕ
count_fields end = 0
count_fields (field k v rest) = suc (count_fields rest)

unfoldable mutual
  pub json_equal : Json → Json → Bool
  json_equal null null = true
  json_equal (bool a) (bool b) = same_bool a b
  json_equal (number a) (number b) = a == b
  json_equal (text a) (text b) = a == b
  json_equal (array a) (array b) = items_equal a b
  json_equal (object a) (object b) = eqb (count_fields a) (count_fields b) && fields_within a b
  json_equal (typed_map a) (typed_map b) =
      eqb (count_fields a) (count_fields b) && fields_within a b
  json_equal a b = false

  pub items_equal : Items → Items → Bool
  items_equal nil nil = true
  items_equal (cons v a) (cons w b) = json_equal v w && items_equal a b
  items_equal a b = false

  pub fields_within : Fields → Fields → Bool
  fields_within end b = true
  fields_within (field k v rest) b = elim (lookup_field k b) [
    | none ↦ false
    | some w ↦ json_equal v w && fields_within rest b
  ]

abbrev pub deep_equal : Fields → Fields → Bool
deep_equal a b = json_equal (object a) (object b)

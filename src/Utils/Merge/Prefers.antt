-- ===== src/Utils/Merge/Prefers.antt =====
-- What the merge of two whole maps leaves at each path of keys.
use flotilla_os.Common.{
  String, true, List, none, some, returns, ◌≡◌, refl, ◌∙◌, ap, subst, ◌&&◌, Option-cases, inl, inr,
}
use flotilla_os.Utils.Json.{
  Json, null, bool, number, text, array, object, typed_map, Fields, end, field,
}
use flotilla_os.Utils.Merge.{lookup_field, merge_value, merge_maps_recursive, merge_maps}
use flotilla_os.Utils.Merge.Paths.{
  fits_value, fits, value_at, leaf, or_else, is_absent, Merged-old, Merged-object,
}
use flotilla_os.Utils.Merge.Entries.{
  MergedAt, is_absent-none, and_parts, fits-Others, written-MergedAt, put_absent-MergedAt,
  object_fits, MergedFields, nested-MergedAt, object_absent, typed_map_absent, entry-MergedFields,
}

mutual
  unfolding merge_value fits_value fits merge_maps_recursive lookup_field

  value-merged :
      (v : Json) (k : String) (a : Fields) → fits_value v (lookup_field k a) ≡ true → MergedAt v k a
  value-merged null k a h = cc
  value-merged (bool b) k a h = put_absent-MergedAt (bool b) k a refl refl
  value-merged (number n) k a h = put_absent-MergedAt (number n) k a refl refl
  value-merged (text t) k a h = put_absent-MergedAt (text t) k a refl refl
  value-merged (array xs) k a h = put_absent-MergedAt (array xs) k a refl refl
  value-merged (typed_map g) k a h =
      let absent = is_absent-none (lookup_field k a) h in
      written-MergedAt (typed_map g) k a absent (typed_map_absent g k a absent)
  value-merged (object g) k a h = elim (Option-cases (lookup_field k a)) [
    | inl absent ↦ written-MergedAt (object g) k a absent (object_absent g k a absent)
    | inr (u, found) ↦
        let (f, is_object, fit) =
          object_fits g u (subst (λ o. fits_value (object g) o ≡ true) found h) in
        nested-MergedAt g f k a (found ∙ ap some is_object) (fields-merged g f fit)
  ]

  fields-merged : (b a : Fields) → fits b a ≡ true → MergedFields b a
  fields-merged end a h = (a, refl, λ k. Merged-old (lookup_field k a))
  fields-merged (field k v rest) a h =
      let (fit, others) =
        and_parts (fits_value v (lookup_field k a)) (is_absent (lookup_field k rest) && fits rest a)
          h in
      let (missing, fit') = and_parts (is_absent (lookup_field k rest)) (fits rest a) others in
      let absent = is_absent-none (lookup_field k rest) missing in
      let at = value-merged v k a fit in
      entry-MergedFields k v rest a absent at
        (fields-merged rest at.0 (fits-Others rest a at.0 k absent at.3 ∙ fit'))

-- A merge that fits returns without an error, and the merged map has at every path of keys what
-- the first map has there, or, where the first has nothing, what the second has; values that are
-- themselves maps are compared by what is at the paths through them. It fits when no key of the
-- second map stands twice in it, when its values are not nil, when its maps lie over maps or over
-- nothing, and when its maps of other types lie over nothing, and so on in the maps that lie over
-- maps.
pub merge_maps-prefers :
    (a b : Fields)
    → fits b a ≡ true
    → (c : Fields) × (merge_maps (some a) b ≡ returns (some c, none))
      × ((p : List String)
          → leaf (value_at p (some (object c)))
            ≡ leaf (or_else (value_at p (some (object a))) (value_at p (some (object b)))))
unfolding merge_maps
merge_maps-prefers a b h =
    let (c, e, each) = fields-merged b a h in (c, e, Merged-object a b c each)

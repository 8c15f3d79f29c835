-- ===== src/Examples/Merges.antt =====
-- The theorem on MergeMaps at a payload and its defaults.
use flotilla_os.Common.{String, List, [], ◌∷◌, none, some, ◌≡◌, refl, returns}
use flotilla_os.Utils.Json.{number, text, object, Fields, end, field}
use flotilla_os.Utils.Merge.{lookup_field, merge_maps, set_field, merge_value}
use flotilla_os.Utils.Merge.Paths.{fits, value_at, leaf, or_else}
use flotilla_os.Utils.Merge.Prefers.{merge_maps-prefers}

abbrev payload : Fields
payload = field "name" (text "mine") (field "limits" (object (field "cpu" (number "2") end)) end)

abbrev defaults : Fields
defaults = field "name" (text "other") (
    field "limits" (object (field "cpu" (number "1") (field "memory" (number "512") end)))
      (field "retries" (number "3") end))

merge_maps-prefers_example :
    (c : Fields) × (merge_maps (some payload) defaults ≡ returns (some c, none))
    × ((p : List String)
        → leaf (value_at p (some (object c)))
          ≡ leaf
              (or_else (value_at p (some (object payload))) (value_at p (some (object defaults)))))
unfolding fits lookup_field
merge_maps-prefers_example = merge_maps-prefers payload defaults refl

-- The values that the merged map has at two paths.
merged_values :
    (c : Fields) × (merge_maps (some payload) defaults ≡ returns (some c, none))
    × (value_at ("limits" ∷ "memory" ∷ []) (some (object c)) ≡ some (number "512"))
    × (value_at ("limits" ∷ "cpu" ∷ []) (some (object c)) ≡ some (number "2"))
unfolding merge_maps merge_value lookup_field set_field value_at
merged_values = (
  field "name" (text "mine") (
      field "limits" (object (field "cpu" (number "2") (field "memory" (number "512") end)))
        (field "retries" (number "3") end)),
  refl,
  refl,
  refl,
)

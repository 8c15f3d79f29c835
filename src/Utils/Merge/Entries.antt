-- ===== src/Utils/Merge/Entries.antt =====
-- What the merge of one entry leaves at each path of keys.
use flotilla_os.Common.{
  String, Bool, true, false, Option, none, some, ◌==◌, eq_iff, eq_refl, plain_error, returns, ◌>>=◌,
  ◌≡◌, refl, sym, ◌∙◌, subst, arith, ◌&&◌, Bool-cases, Option-cases, inl, inr,
}
use flotilla_os.Utils.Json.{
  Json, null, bool, number, text, array, object, typed_map, Fields, end, field,
}
use flotilla_os.Utils.Merge.{
  lookup_field, set_field, put, map_of, put_back, put_absent, merge_value, merge_maps_recursive,
}
use flotilla_os.Utils.Merge.Paths.{
  fits_value, fits, value_at, leaf, is_absent, Merged, value_at-none, or_else-none, Merged-new,
  Merged-kept, Merged-object, lookup-set, lookup-set_other,
}

-- Every other key has the value that it had.
abbrev Others : String → Fields → Fields → Type 0
Others k a' a = (j : String) → (k == j) ≡ false → lookup_field j a' ≡ lookup_field j a

-- A merge under one key.
abbrev pub MergedAt : Json → String → Fields → Type 0
MergedAt v k a =
    (a' : Fields) × (merge_value v k (some a) ≡ returns (some a', none))
    × Merged (lookup_field k a) (some v) (lookup_field k a')
    × Others k a' a

fits-field :
    (k : String) (v : Json) (rest a : Fields)
    → fits (field k v rest) a
      ≡ (fits_value v (lookup_field k a) && (is_absent (lookup_field k rest) && fits rest a))
unfolding fits
fits-field k v rest a = refl

absent_parts :
    (k j : String) (v : Json) (rest : Fields)
    → lookup_field k (field j v rest) ≡ none
    → ((j == k) ≡ false) × (lookup_field k rest ≡ none)
unfolding lookup_field
absent_parts k j v rest h = ground arith

pub is_absent-none : (o : Option Json) → is_absent o ≡ true → o ≡ none
is_absent-none none h = refl
is_absent-none (some u) h = cc

pub and_parts : (a b : Bool) → (a && b) ≡ true → (a ≡ true) × (b ≡ true)
and_parts true b h = (refl, h)
and_parts false b h = cc

fits_end : (a : Fields) → fits end a ≡ true
unfolding fits
fits_end a = refl

different_sym : (j k : String) → (j == k) ≡ false → (k == j) ≡ false
different_sym j k h = ground (arith, eq_iff j k, eq_iff k j)

pub fits-Others :
    (rest a a' : Fields) (k : String)
    → lookup_field k rest ≡ none
    → Others k a' a
    → fits rest a' ≡ fits rest a
fits-Others end a a' k absent same = fits_end a' ∙ sym (fits_end a)
fits-Others (field j v rest) a a' k absent same =
    let (other, absent') = absent_parts k j v rest absent in
    rw
      (
        fits-field j v rest a',
        fits-field j v rest a,
        same j (different_sym j k other),
        fits-Others rest a a' k absent' same,
      )
      refl

pub written-MergedAt :
    (v : Json) (k : String) (a : Fields)
    → lookup_field k a ≡ none
    → merge_value v k (some a) ≡ returns (some (set_field k v a), none)
    → MergedAt v k a
written-MergedAt v k a absent e = (
  set_field k v a,
  e,
  subst (λ x. Merged x (some v) (lookup_field k (set_field k v a))) (sym absent)
      (subst (λ z. Merged none (some v) z) (sym (lookup-set k v a)) (Merged-new (some v))),
  λ j h. lookup-set_other j k v a h,
)

kept-MergedAt :
    (v : Json) (k : String) (a : Fields) (u : Json)
    → lookup_field k a ≡ some u
    → merge_value v k (some a) ≡ returns (some a, none)
    → leaf (some v) ≡ some v
    → MergedAt v k a
kept-MergedAt v k a u found e l =
    (a, e, subst (λ x. Merged x (some v) x) (sym found) (Merged-kept u v l), λ j h. refl)

pub put_absent-MergedAt :
    (v : Json) (k : String) (a : Fields)
    → merge_value v k (some a) ≡ put_absent k v (some a)
    → leaf (some v) ≡ some v
    → MergedAt v k a
put_absent-MergedAt v k a e l = elim (Option-cases (lookup_field k a)) [
  | inl absent ↦ written-MergedAt v k a absent (e ∙ (rw (absent, put_absent) refl))
  | inr (u, found) ↦ kept-MergedAt v k a u found (e ∙ (rw (found, put_absent) refl)) l
]

pub object_fits :
    (g : Fields) (u : Json)
    → fits_value (object g) (some u) ≡ true
    → (f : Fields) × (u ≡ object f) × (fits g f ≡ true)
unfolding fits_value
object_fits g (object f) h = (f, refl, h)
object_fits g null h = cc
object_fits g (bool b) h = cc
object_fits g (number n) h = cc
object_fits g (text t) h = cc
object_fits g (array xs) h = cc
object_fits g (typed_map f) h = cc

-- What the merge of two maps leaves, under each key.
abbrev pub MergedFields : Fields → Fields → Type 0
MergedFields b a =
    (c : Fields) × (merge_maps_recursive b (some a) ≡ returns (some c, none))
    × ((k : String) → Merged (lookup_field k a) (lookup_field k b) (lookup_field k c))

object_step :
    (g : Fields) (k : String) (a : Fields)
    → merge_value (object g) k (some a) ≡ (elim (lookup_field k a) [
      | none ↦ put k (object g) (some a)
      | some u ↦ merge_maps_recursive g (map_of u) >>= λ r. returns (put_back k r (some a))
    ])
unfolding merge_value
object_step g k a = refl

typed_map_step :
    (g : Fields) (k : String) (a : Fields)
    → merge_value (typed_map g) k (some a) ≡ (elim (lookup_field k a) [
      | none ↦ put k (typed_map g) (some a)
      | some u ↦
          returns
            (some a, some (plain_error "unable to cast interface{} to map[string]interface{}"))
    ])
unfolding merge_value
typed_map_step g k a = refl

field_step :
    (k : String) (v : Json) (rest a : Fields)
    → merge_maps_recursive (field k v rest) (some a) ≡ (
        merge_value v k (some a) >>= λ r. elim r.1 [
          | none ↦ merge_maps_recursive rest r.0
          | some e ↦ returns (r.0, some e)
        ])
unfolding merge_maps_recursive
field_step k v rest a = refl

pub nested-MergedAt :
    (g f : Fields) (k : String) (a : Fields)
    → lookup_field k a ≡ some (object f)
    → MergedFields g f
    → MergedAt (object g) k a
nested-MergedAt g f k a found (h, e, each) = (
  set_field k (object h) a,
  object_step g k a ∙ (rw (found, e) refl),
  subst (λ x. Merged x (some (object g)) (lookup_field k (set_field k (object h) a))) (sym found)
      (subst (λ z. Merged (some (object f)) (some (object g)) z) (sym (lookup-set k (object h) a))
        (Merged-object f g h each)),
  λ j l. lookup-set_other j k (object h) a l,
)

pub object_absent :
    (g : Fields) (k : String) (a : Fields)
    → lookup_field k a ≡ none
    → merge_value (object g) k (some a) ≡ returns (some (set_field k (object g) a), none)
object_absent g k a absent = object_step g k a ∙ (rw (absent) refl)

pub typed_map_absent :
    (g : Fields) (k : String) (a : Fields)
    → lookup_field k a ≡ none
    → merge_value (typed_map g) k (some a) ≡ returns (some (set_field k (typed_map g) a), none)
typed_map_absent g k a absent = typed_map_step g k a ∙ (rw (absent) refl)

Merged-then : (x y x' z : Option Json) → Merged x y x' → Merged x' none z → Merged x y z
Merged-then x y x' z first second p =
    second p ∙ (rw (value_at-none p, or_else-none (value_at p x')) (first p))

lookup_here : (k : String) (v : Json) (rest : Fields) → lookup_field k (field k v rest) ≡ some v
unfolding lookup_field
lookup_here k v rest = ground (arith, eq_refl k)

lookup_there :
    (j k : String) (v : Json) (rest : Fields)
    → (k == j) ≡ false
    → lookup_field j (field k v rest) ≡ lookup_field j rest
unfolding lookup_field
lookup_there j k v rest h = ground arith

entry_here :
    (k : String) (v : Json) (rest a a' c : Fields)
    → lookup_field k rest ≡ none
    → Merged (lookup_field k a) (some v) (lookup_field k a')
    → Merged (lookup_field k a') (lookup_field k rest) (lookup_field k c)
    → Merged (lookup_field k a) (lookup_field k (field k v rest)) (lookup_field k c)
entry_here k v rest a a' c absent first second =
    subst (λ y. Merged (lookup_field k a) y (lookup_field k c)) (sym (lookup_here k v rest))
      (Merged-then (lookup_field k a) (some v) (lookup_field k a') (lookup_field k c) first
        (subst (λ y. Merged (lookup_field k a') y (lookup_field k c)) absent second))

entry_there :
    (j k : String) (v : Json) (rest a a' c : Fields)
    → (k == j) ≡ false
    → lookup_field j a' ≡ lookup_field j a
    → Merged (lookup_field j a') (lookup_field j rest) (lookup_field j c)
    → Merged (lookup_field j a) (lookup_field j (field k v rest)) (lookup_field j c)
entry_there j k v rest a a' c other same merged =
    subst (λ y. Merged (lookup_field j a) y (lookup_field j c))
      (sym (lookup_there j k v rest other))
      (subst (λ x. Merged x (lookup_field j rest) (lookup_field j c)) same merged)

-- The merge of the remaining entries after one entry.
pub entry-MergedFields :
    (k : String) (v : Json) (rest a : Fields)
    → lookup_field k rest ≡ none
    → (at : MergedAt v k a) → MergedFields rest at.0
    → MergedFields (field k v rest) a
entry-MergedFields k v rest a absent (a', e, merged, same) (c, f, each) = (
  c,
  field_step k v rest a ∙ (rw (e, f) refl),
  λ j. elim (Bool-cases (k == j)) [
    | inl here ↦
        subst (λ i. Merged (lookup_field i a) (lookup_field i (field k v rest)) (lookup_field i c))
          ((eq_iff k j).0 here) (entry_here k v rest a a' c absent merged (each k))
    | inr there ↦ entry_there j k v rest a a' c there (same j there) (each j)
  ],
)

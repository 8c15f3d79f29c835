-- ===== src/Common/Firsts.antt =====
-- The first item with each key: the loop with a map of the keys seen, which several parts write.
use flotilla_os.Common.Tests.{if◌then◌else◌}
use flotilla_os.Common.Text.{◌==◌, eq_iff, eq_refl, string_slice_contains}
use Prim.Native.String.{String}
use mathlib.Core.Path.{◌≡◌, refl}
use mathlib.Core.Bool.{Bool, true, false, not, ◌&&◌}
use mathlib.Core.Option.{Option, none, some}
use mathlib.Core.List.{List, [], ◌∷◌, map}
use native.Mathlib.Omega.{arith}

module _ {ℓ} {A : Type ℓ} (key : A → String) where
  unfoldable pub firsts_from : List String → List A → List A
  firsts_from seen [] = []
  firsts_from seen (x ∷ xs) = elim (string_slice_contains seen (key x)) [
    | true ↦ firsts_from seen xs
    | false ↦ x ∷ firsts_from (key x ∷ seen) xs
  ]

  unfoldable pub firsts : List A → List A
  firsts xs = firsts_from [] xs

  -- The first item with a key.
  unfoldable pub find_key : String → List A → Option A
  find_key k [] = none
  find_key k (x ∷ xs) = if key x == k then some x else find_key k xs

  -- No key stands twice.
  unfoldable pub distinct_keys : List A → Bool
  distinct_keys [] = true
  distinct_keys (x ∷ xs) = not (string_slice_contains (map key xs) (key x)) && distinct_keys xs

  seen_not_kept :
      (k : String) (seen : List String) (xs : List A)
      → string_slice_contains seen k ≡ true
      → string_slice_contains (map key (firsts_from seen xs)) k ≡ false
  unfolding firsts_from string_slice_contains
  seen_not_kept k seen [] h = refl
  seen_not_kept k seen (x ∷ xs) h =
      ground (arith, eq_iff (key x) k, seen_not_kept k seen xs, seen_not_kept k (key x ∷ seen) xs)

  firsts_from-distinct :
      (seen : List String) (xs : List A) → distinct_keys (firsts_from seen xs) ≡ true
  unfolding firsts_from distinct_keys string_slice_contains
  firsts_from-distinct seen [] = refl
  firsts_from-distinct seen (x ∷ xs) = ground (
    arith,
    eq_refl (key x),
    firsts_from-distinct seen xs,
    firsts_from-distinct (key x ∷ seen) xs,
    seen_not_kept (key x) (key x ∷ seen) xs,
  )

  find_key-firsts_from :
      (k : String) (seen : List String) (xs : List A)
      → string_slice_contains seen k ≡ false
      → find_key k (firsts_from seen xs) ≡ find_key k xs
  unfolding firsts_from find_key string_slice_contains
  find_key-firsts_from k seen [] h = refl
  find_key-firsts_from k seen (x ∷ xs) h = ground (
    arith,
    eq_iff (key x) k,
    find_key-firsts_from k seen xs,
    find_key-firsts_from k (key x ∷ seen) xs,
  )

  -- Each key stands once among the first items, and the item with it is the first one of the list.
  pub firsts_lem :
      (xs : List A)
      → (distinct_keys (firsts xs) ≡ true) × ((k : String) → find_key k (firsts xs) ≡ find_key k xs)
  unfolding firsts string_slice_contains
  firsts_lem xs = (firsts_from-distinct [] xs, λ k. find_key-firsts_from k [] xs refl)

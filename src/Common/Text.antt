-- ===== src/Common/Text.antt =====
-- Tests and edits of text. A Go string is compared whole, or walked character by character.
use Prim.Native.String.{String}
use mathlib.Core.Path.{◌≡◌}
use mathlib.Core.Bool.{Bool, true, false, ◌||◌}
use mathlib.Core.Option.{Option, none, some}
use mathlib.Core.List.{List, [], ◌∷◌}
use mathlib.Core.Logic.{inl, inr}
use mathlib.Core.HLevel.{hedberg}
use flotilla_os.Common.Tests.{if◌then◌else◌, Bool-cases}
pub use text.Mathlib.Text.{◌==◌, starts_with}
pub use text.Mathlib.TextEquality.{eq_iff}
pub use text.Mathlib.TextPositions.{eq_refl}

-- `len(s) == 0`
abbrev pub is_empty : String → Bool
is_empty String.[] = true
is_empty (String.◌∷◌ c s) = false

-- `p != nil && *p == s`
abbrev pub points_to : Option String → String → Bool
points_to none s = false
points_to (some t) s = t == s

-- `strings.Contains(s, t)`
unfoldable pub contains : String → String → Bool
contains String.[] t = starts_with "" t
contains (String.◌∷◌ c s) t = starts_with (String.◌∷◌ c s) t || contains s t

-- `utils.StringSliceContains(s, e)`
unfoldable pub string_slice_contains : List String → String → Bool
string_slice_contains [] e = false
string_slice_contains (a ∷ s) e = if a == e then true else string_slice_contains s e

pub text_discrete : Discrete String
text_discrete s t = elim (Bool-cases (s == t)) [
  | inl e ↦ yes ((eq_iff s t).0 e)
  | inr e ↦ no (λ p. cc (e, (eq_iff s t).1 p))
]

pub text_eq_prop : (s t : String) → IsProp (s ≡ t)
text_eq_prop s t = hedberg text_discrete s t

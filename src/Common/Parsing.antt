-- ===== src/Common/Parsing.antt =====
-- `strconv.ParseInt` for base 10 and 64 bits.
use Prim.Native.Nat.{ℕ, ◌+◌, ◌*◌, ◌-◌}
use Prim.Native.String.{String}
use Prim.Native.Char.{code}
use mathlib.Core.Bool.{Bool, true, false, ◌&&◌}
use mathlib.Core.Option.{Option, none, some}
use flotilla_os.Common.Tests.{if◌then◌else◌, ltb, leb, eqb}
use flotilla_os.Common.Int64.{ℤ, pos, negsuc, two63}

-- The number that a text of digits continues.
unfoldable pub digits_from : ℕ → String → Option ℕ
digits_from n String.[] = some n
digits_from n (String.◌∷◌ c s) =
    if leb 48 (code c) && leb (code c) 57 then digits_from (n * 10 + (code c - 48)) s else none

-- A number in the range of an int64.
abbrev in_range : Bool → ℕ → Option ℤ
in_range false n = if ltb n two63 then some (pos n) else none
in_range true n =
    if eqb n 0 then some (pos 0) else if leb n two63 then some (negsuc (n - 1)) else none

abbrev parse_digits : Bool → String → Option ℤ
parse_digits negative String.[] = none
parse_digits negative (String.◌∷◌ c s) = elim (digits_from 0 (String.◌∷◌ c s)) [
  | none ↦ none
  | some n ↦ in_range negative n
]

-- None stands for an error.
unfoldable pub parse_int : String → Option ℤ
parse_int String.[] = none
parse_int (String.◌∷◌ c s) =
    if eqb (code c) 45
    then parse_digits true s
    else if eqb (code c) 43
    then parse_digits false s
    else parse_digits false (String.◌∷◌ c s)

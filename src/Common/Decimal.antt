-- ===== src/Common/Decimal.antt =====
-- `fmt.Sprintf("%d", n)`.
use Prim.Native.Nat.{ℕ, zero, suc, ◌/◌, ◌%◌, ◌<◌}
use Prim.Native.String.{String, ◌++◌}
use mathlib.Core.Path.{◌≡◌, refl, ◌∙◌, sym, ap}
use mathlib.Core.Bool.{true}
use mathlib.Core.Logic.{inl, inr}
use text.Mathlib.TextLemmas.{append_assoc, append-nil, nil-append}
use native.Mathlib.Omega.{arith}
use flotilla_os.Common.Tests.{if◌then◌else◌, ltb, leb, eqb, Bool-cases}

unfoldable pub digit : ℕ → String
digit n =
    if eqb n 0
    then "0"
    else if eqb n 1
    then "1"
    else if eqb n 2
    then "2"
    else if eqb n 3
    then "3"
    else if eqb n 4
    then "4"
    else if eqb n 5
    then "5"
    else if eqb n 6
    then "6"
    else if eqb n 7
    then "7"
    else if eqb n 8
    then "8"
    else "9"

-- The digits of a number before some text; there is a round for each digit.
unfoldable pub digits : ℕ → ℕ → String → String
digits zero n text = text
digits (suc fuel) n text =
    let rest = digits fuel (n / 10) (digit (n % 10) ++ text) in
    if ltb n 10 then digit (n % 10) ++ text else rest

unfoldable pub decimal : ℕ → String
decimal n = digits (suc n) n ""

-- Any number of rounds above the number gives the same text.
digits_enough :
    (fuel fuel' n : ℕ) (text : String)
    → n < fuel
    → n < fuel'
    → digits fuel n text ≡ digits fuel' n text
unfolding digits
digits_enough zero fuel' n text h h' = absurd (omega arith)
digits_enough (suc fuel) zero n text h h' = absurd (omega arith)
digits_enough (suc fuel) (suc fuel') n text h h' = elim (Bool-cases (ltb n 10)) [
  | inl last ↦ rw (last) refl
  | inr more ↦
      rw (more)
        (digits_enough fuel fuel' (n / 10) (digit (n % 10) ++ text) (ground arith) (ground arith))
]

digits-append : (fuel n : ℕ) (a b : String) → digits fuel n (a ++ b) ≡ digits fuel n a ++ b
unfolding digits
digits-append zero n a b = refl
digits-append (suc fuel) n a b = elim (Bool-cases (ltb n 10)) [
  | inl last ↦ rw (last) (sym (append_assoc (digit (n % 10)) a b))
  | inr more ↦ rw (more) (
      ap (digits fuel (n / 10)) (sym (append_assoc (digit (n % 10)) a b))
      ∙ digits-append fuel (n / 10) (digit (n % 10) ++ a) b)
]

decimal_step : (n : ℕ) → leb 10 n ≡ true → decimal n ≡ digits n (n / 10) (digit (n % 10) ++ "")
unfolding decimal digits
decimal_step n h = ground arith

-- The rounds are enough: a number of two digits or more is written as its tenth part, before its last digit.
pub decimal_lem : (n : ℕ) → leb 10 n ≡ true → decimal n ≡ decimal (n / 10) ++ digit (n % 10)
unfolding decimal
decimal_lem n h =
    decimal_step n h
    ∙ ap (digits n (n / 10)) (append-nil (digit (n % 10)) ∙ sym (nil-append (digit (n % 10))))
    ∙ digits-append n (n / 10) "" (digit (n % 10))
    ∙ ap (λ s. s ++ digit (n % 10))
        (digits_enough n (suc (n / 10)) (n / 10) "" (ground arith) (omega arith))

-- ===== src/Services/Templates/Comparison.antt =====
-- When the comparison of two templates does not panic.
use flotilla_os.Common.{Bool, true, false, not, Option, none, some, Go, returns, is_some, ◌≡◌, refl}
use flotilla_os.State.Types.{Template}
use flotilla_os.Services.Templates.{or_else, pointers_differ, diff}

-- A call that returns.
abbrev pub Returns {ℓ} : {A : Type ℓ} → Go A → Type ℓ
Returns {A} r = (a : A) × (r ≡ returns a)

-- Every pointer that is dereferenced is there.
abbrev pub HasPointers : Template → Type 0
HasPointers t =
    (is_some t.memory ≡ true)
    × (is_some t.gpu ≡ true)
    × (is_some t.cpu ≡ true)
    × (is_some t.adaptive_resource_allocation ≡ true)

or_else-Returns : (x rest : Go Bool) → Returns x → Returns rest → Returns (or_else x rest)
or_else-Returns x rest (true, e) r = (true, rw (e) refl)
or_else-Returns x rest (false, e) (b, f) = (b, rw (e, f) refl)

pointers_differ-Returns {ℓ} :
    {A : Type ℓ} (same : A → A → Bool) (prev curr : Option A)
    → is_some prev ≡ true
    → is_some curr ≡ true
    → Returns (pointers_differ same prev curr)
unfolding pointers_differ
pointers_differ-Returns same none curr p c = cc
pointers_differ-Returns same (some x) none p c = cc
pointers_differ-Returns same (some x) (some y) p c = (not (same x y), refl)

pub diff-Returns :
    (prev curr : Template) → HasPointers prev → HasPointers curr → Returns (diff prev curr)
unfolding diff
diff-Returns prev curr (m, g, c, a) (m', g', c', a') =
    or_else-Returns _ _ (_, refl)
      (or_else-Returns _ _ (pointers_differ-Returns _ prev.memory curr.memory m m') (
        or_else-Returns _ _ (pointers_differ-Returns _ prev.gpu curr.gpu g g') (
          or_else-Returns _ _ (pointers_differ-Returns _ prev.cpu curr.cpu c c') (
            or_else-Returns _ _ (_, refl)
              (or_else-Returns _ _
                (pointers_differ-Returns _ prev.adaptive_resource_allocation
                  curr.adaptive_resource_allocation a a')
                (_, refl))))))

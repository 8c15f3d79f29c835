-- ===== src/Services/Templates/Versions.antt =====
-- No two versions of a template share their number.
use flotilla_os.Common.{
  ℕ, suc, ◌<◌, pos, Bool, true, false, not, ◌&&◌, String, List, [], ◌∷◌, ◌++◌, Option, none, some,
  Error, Result, ok, err, Go, returns, panics, ◌==◌, eq_ℤ, any, ◌≡◌, ◌⊎◌,
}
use flotilla_os.Common.Int64.{ltb_ℤ, two63}
use flotilla_os.State.Types.{Template}
use flotilla_os.Services.Templates.Comparison.{HasPointers}
use flotilla_os.Services.Templates.{CreateTemplateResponse, TemplateStore}

-- Two templates with one name and one version.
abbrev pub same_version : Template → Template → Bool
same_version t u = u.template_name == t.template_name && eq_ℤ u.version t.version

unfoldable pub numbered : List Template → Bool
numbered [] = true
numbered (t ∷ ts) = not (any (same_version t) ts) && numbered ts

-- No template of the name has a higher version.
unfoldable pub is_latest : Template → List Template → Bool
is_latest t [] = true
is_latest t (u ∷ ts) =
    not (u.template_name == t.template_name && ltb_ℤ t.version u.version) && is_latest t ts

module _ {S : Type 0} (store : TemplateStore S) (known : S → List Template) where
  open store use {latest, insert}

  -- The answer to a question for the latest template of a name.
  abbrev pub IsLatest : String → List Template → Result (Option Template) → Type 0
  IsLatest name ts (err e) = Unit
  IsLatest name ts (ok none) = any (λ u. u.template_name == name) ts ≡ false
  IsLatest name ts (ok (some t)) = (t.template_name ≡ name) × (is_latest t ts ≡ true)

  -- What the service relies on: the latest template is one, and an insertion adds its row at the end or
  -- changes nothing.
  pub record IsTemplateStore : Type 0 where
    pub latest_is : (name : String) (s : S) → IsLatest name (known s) (latest name s)
    pub inserted :
        (t : Template) (s : S)
        → (known (insert t s).0 ≡ known s) ⊎ (known (insert t s).0 ≡ known s ++ t ∷ [])

  -- The latest version has the pointers that are compared, and a next number that fits in an int64.
  abbrev pub HasNext : Result (Option Template) → Type 0
  HasNext (err e) = Unit
  HasNext (ok none) = Unit
  HasNext (ok (some t)) = HasPointers t × (n : ℕ) × (t.version ≡ pos n) × (suc n < two63)

  module _ (is_store : IsTemplateStore) where
    open is_store use {latest_is, inserted}

    -- After a call that returns, the templates are numbered.
    abbrev AreNumbered : Go (S × CreateTemplateResponse × Option Error) → Type 0
    AreNumbered panics = Unit
    AreNumbered (returns (s, response, e)) = numbered (known s) ≡ true

    -- What `Create` comes to: it returns, and the templates are numbered.
    abbrev pub IsNumberedResult : Go (S × CreateTemplateResponse × Option Error) → Type 0
    IsNumberedResult r =
        (s' : S) × (response : CreateTemplateResponse) × (e : Option Error) × (r
          ≡ returns (s', response, e))
        × (numbered (known s') ≡ true)

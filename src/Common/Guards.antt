-- ===== src/Common/Guards.antt =====
-- Guards in a row, as validation functions have them: `if test { return err }`.
use mathlib.Core.Path.{◌≡◌, refl}
use mathlib.Core.Logic.{◌↔◌}
use mathlib.Core.Bool.{Bool, true, false}
use mathlib.Core.Option.{Option, none, some}
use mathlib.Core.List.{List, [], ◌∷◌}
use gochoreo.Common.Tests.{if◌then◌else◌}
use gochoreo.Common.Lists.{All}

module _ {E : Type 0} where
  -- The guards, each with its error, in the order of the code.
  unfoldable pub first_error : List (Bool × E) → Option E
  first_error [] = none
  first_error ((test, err) ∷ guards) = if test then some err else first_error guards

  abbrev pub Passes : Bool × E → Type 0
  Passes g = g.0 ≡ false

  -- No error comes back exactly if every test fails.
  pub first_error-none :
      (guards : List (Bool × E)) → (first_error guards ≡ none) ↔ All Passes guards
  unfolding first_error
  first_error-none [] = (λ e. tt, λ h. refl)
  first_error-none ((true, err) ∷ guards) = (λ e. cc, λ h. cc)
  first_error-none ((false, err) ∷ guards) =
      (λ e. (refl, (first_error-none guards).0 e), λ h. (first_error-none guards).1 h.1)

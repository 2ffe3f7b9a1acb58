-- ===== src/Prelude/Dict.antt =====
-- A Go map with string keys, as an association list: reading a missing key gives `none`.
use Prim.Native.String.{String}
use mathlib.Core.Path.{◌≡◌, refl}
use mathlib.Core.Option.{Option, none, some}
use mathlib.Core.List.{List, [], ◌∷◌}
use native.Mathlib.Omega.{arith}
use text.Mathlib.TextEquality.{eq_iff}
use virtrigaud.Prelude.Tests.{str_eq, if◌then◌else◌}

-- The entries of a map from strings to `A`.
abbrev pub Dict {ℓ} : Type ℓ → Type ℓ
Dict A = List (String × A)

module _ {ℓ} {A : Type ℓ} where
  unfoldable pub lookup : String → Dict A → Option A
  lookup want [] = none
  lookup want ((name, value) ∷ entries) =
      if str_eq name want then some value else lookup want entries

  -- `m[k] = v`: an entry with the key is overwritten.
  unfoldable pub insert : String → A → Dict A → Dict A
  insert want new [] = (want, new) ∷ []
  insert want new ((name, value) ∷ entries) =
      if str_eq name want then (want, new) ∷ entries else (name, value) ∷ insert want new entries

  -- `delete(m, k)`.
  unfoldable pub erase : String → Dict A → Dict A
  erase want [] = []
  erase want ((name, value) ∷ entries) =
      if str_eq name want then erase want entries else (name, value) ∷ erase want entries

  pub lookup-insert :
      (want other : String) (new : A) (entries : Dict A)
      → lookup other (insert want new entries)
        ≡ (if str_eq want other then some new else lookup other entries)
  unfolding lookup insert
  lookup-insert want other new [] = refl
  lookup-insert want other new ((name, value) ∷ entries) = ground (
    arith,
    eq_iff want other,
    eq_iff name want,
    eq_iff name other,
    lookup-insert want other new entries,
  )

  pub lookup-erase :
      (want other : String) (entries : Dict A)
      → lookup other (erase want entries)
        ≡ (if str_eq want other then none else lookup other entries)
  unfolding lookup erase
  lookup-erase want other [] = ground arith
  lookup-erase want other ((name, value) ∷ entries) = ground (
    arith,
    eq_iff want other,
    eq_iff name want,
    eq_iff name other,
    lookup-erase want other entries,
  )

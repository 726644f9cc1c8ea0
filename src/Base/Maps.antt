-- ===== src/Base/Maps.antt =====
-- A Go map as an association list. Where the program ranges over a map, the order of the list is
-- the order of that run.
use mathlib.Core.Path.{◌≡◌, refl}
use mathlib.Core.Bool.{Bool, true, false}
use mathlib.Core.Option.{Option, none, some}
use mathlib.Core.List.{List, [], ◌∷◌}
use native.Mathlib.Omega.{arith}
use git_bridge.Base.Tests.{if◌then◌else◌}
use git_bridge.Base.Texts.{Text, ◌==◌, ==_iff}

abbrev pub Map {ℓ} : Type ℓ → Type ℓ
Map V = List (Text × V)

module _ {ℓ} {V : Type ℓ} where
  unfoldable pub lookup : Text → Map V → Option V
  lookup k [] = none
  lookup k ((j, v) ∷ m) = if j == k then some v else lookup k m

  unfoldable pub insert : Text → V → Map V → Map V
  insert k v [] = (k, v) ∷ []
  insert k v ((j, w) ∷ m) = if j == k then (k, v) ∷ m else (j, w) ∷ insert k v m

  -- `delete(m, k)`
  unfoldable pub delete : Text → Map V → Map V
  delete k [] = []
  delete k ((j, v) ∷ m) = let rest = delete k m in if j == k then rest else (j, v) ∷ rest

  -- An entry that was put in is found under its key, and nothing else changes.
  pub lookup-insert :
      (put asked : Text) (x : V) (entries : Map V)
      → lookup asked (insert put x entries)
        ≡ (if put == asked then some x else lookup asked entries)
  unfolding insert lookup
  lookup-insert put asked x [] = refl
  lookup-insert put asked x ((name, y) ∷ entries) =
      let below = lookup-insert put asked x entries in
      ground (arith, below, ==_iff name put, ==_iff put asked, ==_iff name asked)

  -- A deleted key has no entry, and nothing else changes.
  pub lookup-delete :
      (gone asked : Text) (entries : Map V)
      → lookup asked (delete gone entries) ≡ (if gone == asked then none else lookup asked entries)
  unfolding delete lookup
  lookup-delete gone asked [] = ground arith
  lookup-delete gone asked ((name, y) ∷ entries) =
      let below = lookup-delete gone asked entries in
      ground (arith, below, ==_iff name gone, ==_iff gone asked, ==_iff name asked)

-- A `map[string]bool` whose members are all true, as the list of its keys.
unfoldable pub member : Text → List Text → Bool
member k [] = false
member k (j ∷ js) = let rest = member k js in if j == k then true else rest

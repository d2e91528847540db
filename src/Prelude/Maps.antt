-- ===== src/Prelude/Maps.antt =====
-- A JavaScript `Map` or record with text keys: an association list in insertion order.
use Prim.Native.String.{String}
use text.Mathlib.Text.{◌==◌}
use text.Mathlib.TextEquality.{eq_iff}
use mathlib.Core.Path.{◌≡◌, refl}
use mathlib.Core.Option.{Option, none, some}
use mathlib.Core.List.{List, [], ◌∷◌}
use native.Mathlib.Omega.{arith}
use copilot_agent_mesh.Prelude.Tests.{if◌then◌else◌}

abbrev pub Dict {ℓ} : Type ℓ → Type ℓ
Dict V = List (String × V)

module _ {ℓ} {V : Type ℓ} where
  -- `get`.
  unfoldable pub lookup : String → Dict V → Option V
  lookup key [] = none
  lookup key (entry ∷ rest) = if entry.0 == key then some entry.1 else lookup key rest

  -- `set` keeps the place of a key that is there, and appends a new one.
  unfoldable pub insert : String → V → Dict V → Dict V
  insert key value [] = (key, value) ∷ []
  insert key value (entry ∷ rest) =
      let kept = insert key value rest in
      if entry.0 == key then (key, value) ∷ rest else entry ∷ kept

  -- `delete`. Every entry under the key goes, though a map has one at most.
  unfoldable pub remove : String → Dict V → Dict V
  remove key [] = []
  remove key (entry ∷ rest) =
      let kept = remove key rest in if entry.0 == key then kept else entry ∷ kept

  pub lookup-insert :
      (key other : String) (value : V) (entries : Dict V)
      → lookup other (insert key value entries)
        ≡ (if key == other then some value else lookup other entries)
  unfolding lookup insert
  lookup-insert key other value [] = refl
  lookup-insert key other value ((here, w) ∷ rest) = ground (
    arith,
    lookup-insert key other value rest,
    eq_iff here other,
    eq_iff here key,
    eq_iff key other,
  )

  pub lookup-remove :
      (key other : String) (entries : Dict V)
      → lookup other (remove key entries) ≡ (if key == other then none else lookup other entries)
  unfolding lookup remove
  lookup-remove key other [] = ground arith
  lookup-remove key other ((here, w) ∷ rest) =
      ground
        (arith, lookup-remove key other rest, eq_iff here other, eq_iff here key, eq_iff key other)

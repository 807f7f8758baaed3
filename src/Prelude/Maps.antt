-- ===== src/Prelude/Maps.antt =====
-- Go's map[string]V as an association list: a read, a write and a delete, with their laws in
-- `if` form. A key occurs at most once in what `insert` builds, and `delete` removes every entry.
use Prim.Native.String.{String}
use mathlib.Core.Path.{◌≡◌, refl}
use mathlib.Core.Bool.{Bool}
use mathlib.Core.Option.{Option, none, some}
use mathlib.Core.List.{List, [], ◌∷◌}
use native.Mathlib.Omega.{arith}
use text.Mathlib.TextEquality.{eq_iff}
use poolpilot_relay.Prelude.Tests.{◌==◌, if◌then◌else◌}

abbrev pub Map {ℓ} : Type ℓ → Type ℓ
Map V = List (String × V)

module _ {ℓ} {V : Type ℓ} where
  unfoldable pub lookup : String → Map V → Option V
  lookup key [] = none
  lookup key (entry ∷ rest) =
      let later = lookup key rest in if entry.0 == key then some entry.1 else later

  -- A write to the map: it replaces the entry of the key, else adds one at the end.
  unfoldable pub insert : String → V → Map V → Map V
  insert key new [] = (key, new) ∷ []
  insert key new (entry ∷ rest) =
      let later = insert key new rest in if entry.0 == key then (key, new) ∷ rest else entry ∷ later

  unfoldable pub delete : String → Map V → Map V
  delete key [] = []
  delete key (entry ∷ rest) =
      let later = delete key rest in if entry.0 == key then later else entry ∷ later

  -- Keeps the entries whose key passes: a loop over the map that deletes the others.
  unfoldable pub restrict : (String → Bool) → Map V → Map V
  restrict p [] = []
  restrict p (entry ∷ rest) =
      let later = restrict p rest in if p entry.0 then entry ∷ later else later

  pub lookup-insert :
      (written read : String) (new : V) (m : Map V)
      → lookup read (insert written new m) ≡ (if written == read then some new else lookup read m)
  unfolding insert lookup
  lookup-insert written read new [] = refl
  lookup-insert written read new (entry ∷ rest) = ground (
    eq_iff entry.0 written,
    eq_iff entry.0 read,
    eq_iff written read,
    arith,
    lookup-insert written read new rest,
  )

  pub lookup-delete :
      (gone read : String) (m : Map V)
      → lookup read (delete gone m) ≡ (if gone == read then none else lookup read m)
  unfolding delete lookup
  lookup-delete gone read [] = ground arith
  lookup-delete gone read (entry ∷ rest) = ground (
    eq_iff entry.0 gone,
    eq_iff entry.0 read,
    eq_iff gone read,
    arith,
    lookup-delete gone read rest,
  )

  pub lookup-restrict :
      (p : String → Bool) (read : String) (m : Map V)
      → lookup read (restrict p m) ≡ (if p read then lookup read m else none)
  unfolding restrict lookup
  lookup-restrict p read [] = ground arith
  lookup-restrict p read (entry ∷ rest) =
      ground (eq_iff entry.0 read, arith, lookup-restrict p read rest)

  pub lookup-insert_self :
      (key : String) (new : V) (m : Map V) → lookup key (insert key new m) ≡ some new
  lookup-insert_self key new m =
      ground (arith, lookup-insert key key new m, (eq_iff key key).1 refl)

-- ===== src/Base/Assoc.antt =====
-- A Go map as an association list: `insert` is assignment, `remove` is delete.
use Prim.Native.String.{String}
use mathlib.Core.Path.{◌≡◌, refl}
use mathlib.Core.Option.{Option, none, some}
use mathlib.Core.List.{List, [], ◌∷◌}
use native.Mathlib.Omega.{arith}
use text.Mathlib.Text.{◌==◌ as ◌=ₛ◌}
use text.Mathlib.TextEquality.{eq_iff}
use event_watch.Base.Tests.{if◌then◌else◌}

module _ {ℓ} {V : Type ℓ} where
  unfoldable pub lookup : String → List (String × V) → Option V
  lookup key [] = none
  lookup key (entry ∷ rest) = if entry.0 =ₛ key then some entry.1 else lookup key rest

  unfoldable pub insert : String → V → List (String × V) → List (String × V)
  insert key value [] = (key, value) ∷ []
  insert key value (entry ∷ rest) =
      if entry.0 =ₛ key then (key, value) ∷ rest else entry ∷ insert key value rest

  unfoldable pub remove : String → List (String × V) → List (String × V)
  remove key [] = []
  remove key (entry ∷ rest) =
      let others = remove key rest in if entry.0 =ₛ key then others else entry ∷ others

  pub lookup-insert :
      (written read : String) (value : V) (m : List (String × V))
      → lookup read (insert written value m)
        ≡ (if written =ₛ read then some value else lookup read m)
  unfolding lookup insert
  lookup-insert written read value [] = refl
  lookup-insert written read value (entry ∷ rest) = ground (
    arith,
    eq_iff entry.0 written,
    eq_iff entry.0 read,
    eq_iff written read,
    lookup-insert written read value rest,
  )

  pub lookup-remove :
      (gone read : String) (m : List (String × V))
      → lookup read (remove gone m) ≡ (if gone =ₛ read then none else lookup read m)
  unfolding lookup remove
  lookup-remove gone read [] = ground arith
  lookup-remove gone read (entry ∷ rest) = ground (
    arith,
    eq_iff entry.0 gone,
    eq_iff entry.0 read,
    eq_iff gone read,
    lookup-remove gone read rest,
  )

  -- No key stands twice.
  abbrev pub HasDistinctKeys : List (String × V) → Type ℓ
  HasDistinctKeys [] = Unit
  HasDistinctKeys ((k, v) ∷ m) = (lookup k m ≡ none) × HasDistinctKeys m

  pub insert-HasDistinctKeys :
      (k : String) (v : V) (m : List (String × V))
      → HasDistinctKeys m
      → HasDistinctKeys (insert k v m)
  unfolding insert lookup
  insert-HasDistinctKeys k v [] h = (refl, tt)
  insert-HasDistinctKeys k v ((j, w) ∷ m) (n, h) =
      ground (arith, eq_iff j k, eq_iff k j, lookup-insert k j v m, insert-HasDistinctKeys k v m h)

  pub remove-HasDistinctKeys :
      (k : String) (m : List (String × V)) → HasDistinctKeys m → HasDistinctKeys (remove k m)
  unfolding remove
  remove-HasDistinctKeys k [] h = tt
  remove-HasDistinctKeys k ((j, w) ∷ m) (n, h) =
      ground (arith, lookup-remove k j m, remove-HasDistinctKeys k m h)

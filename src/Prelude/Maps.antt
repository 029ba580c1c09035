-- ===== src/Prelude/Maps.antt =====
-- A Go map with string keys, as an association list. `set` writes in place or at the end,
-- `delete` drops every entry of a key.
use Prim.Native.Nat.{suc, ◌≤◌, ◌<◌}
use Prim.Native.String.{String}
use mathlib.Core.Path.{◌≡◌, refl}
use mathlib.Core.List.{List, [], ◌∷◌}
use mathlib.Core.Option.{Option, none, some}
use native.Mathlib.Omega.{arith}
use text.Mathlib.Text.{◌==◌}
use text.Mathlib.TextEquality.{eq_iff}
use function.Prelude.Tests.{if◌then◌else◌}
use function.Prelude.Lists.{length}

abbrev pub Map {ℓ} : Type ℓ → Type ℓ
Map V = List (String × V)

module _ {ℓ} {V : Type ℓ} where
  unfoldable pub lookup : String → Map V → Option V
  lookup k [] = none
  lookup k ((j, v) ∷ m) = if j == k then some v else lookup k m

  unfoldable pub set : String → V → Map V → Map V
  set k v [] = (k, v) ∷ []
  set k v ((j, w) ∷ m) = if j == k then (k, v) ∷ m else (j, w) ∷ set k v m

  unfoldable pub delete : String → Map V → Map V
  delete k [] = []
  delete k ((j, v) ∷ m) = let rest = delete k m in if j == k then rest else (j, v) ∷ rest

  abbrev pub keys : Map V → List String
  keys [] = []
  keys ((j, v) ∷ m) = j ∷ keys m

  pub lookup-set :
      (k j : String) (v : V) (m : Map V)
      → lookup j (set k v m) ≡ (if k == j then some v else lookup j m)
  unfolding lookup set
  lookup-set k j v [] = refl
  lookup-set k j v ((i, w) ∷ m) =
      ground (arith, eq_iff k j, eq_iff i k, eq_iff i j, lookup-set k j v m)

  pub lookup-delete :
      (k j : String) (m : Map V) → lookup j (delete k m) ≡ (if k == j then none else lookup j m)
  unfolding lookup delete
  lookup-delete k j [] = ground arith
  lookup-delete k j ((i, w) ∷ m) =
      ground (arith, eq_iff k j, eq_iff i k, eq_iff i j, lookup-delete k j m)

  pub length-delete-le : (k : String) (m : Map V) → length (delete k m) ≤ length m
  unfolding delete
  length-delete-le k [] = omega arith
  length-delete-le k ((i, w) ∷ m) = ground (arith, length-delete-le k m)

  pub length-set-le : (k : String) (v : V) (m : Map V) → length (set k v m) ≤ suc (length m)
  unfolding set
  length-set-le k v [] = omega arith
  length-set-le k v ((i, w) ∷ m) = ground (arith, length-set-le k v m)

  -- A write to a key that is there keeps the size; one to a new key adds an entry.
  pub length-set_old :
      (k : String) (v w : V) (m : Map V) → lookup k m ≡ some w → length (set k v m) ≡ length m
  unfolding lookup set
  length-set_old k v w [] h = cc
  length-set_old k v w ((i, u) ∷ m) h = ground (arith, length-set_old k v w m)

  pub length-set_new :
      (k : String) (v : V) (m : Map V) → lookup k m ≡ none → length (set k v m) ≡ suc (length m)
  unfolding lookup set
  length-set_new k v [] h = refl
  length-set_new k v ((i, u) ∷ m) h = ground (arith, length-set_new k v m)

  pub length-delete-lt :
      (k : String) (w : V) (m : Map V) → lookup k m ≡ some w → length (delete k m) < length m
  unfolding lookup delete
  length-delete-lt k w [] h = cc
  length-delete-lt k w ((i, u) ∷ m) h = ground (arith, length-delete-lt k w m, length-delete-le k m)

pub ruleset map_laws = (lookup-set, lookup-delete)

-- ===== src/Base/Dict.antt =====
-- Go maps as association lists: a key stands at most once, and the list's order is the order in
-- which one `range` visits the keys. Statements range over every list, so over every order.
use mathlib.Core.Path.{◌≡◌, refl}
use mathlib.Core.List.{List, [], ◌∷◌, ◌++◌}
use mathlib.Core.Option.{Option, none, some}
use native.Mathlib.Omega.{arith}
use rediscluster_operator.Base.Tests.{if◌then◌else◌}
use rediscluster_operator.Base.Bytes.{Text, same, same_iff}

module _ {ℓ} {V : Type ℓ} where
  unfoldable pub lookup : Text → List (Text × V) → Option V
  lookup k [] = none
  lookup k ((j, v) ∷ m) = if same j k then some v else lookup k m

  unfoldable pub insert : Text → V → List (Text × V) → List (Text × V)
  insert k v [] = (k, v) ∷ []
  insert k v ((j, w) ∷ m) = if same j k then (j, v) ∷ m else (j, w) ∷ insert k v m

  pub lookup-insert :
      (k j : Text) (v : V) (m : List (Text × V))
      → lookup j (insert k v m) ≡ (if same k j then some v else lookup j m)
  unfolding lookup insert
  lookup-insert k j v [] = refl
  lookup-insert k j v ((i, w) ∷ m) =
      ground (arith, same_iff k j, same_iff i k, same_iff i j, lookup-insert k j v m)

module _ {ℓ} {A : Type ℓ} where
  -- `m[k]` on a map of slices: nil where the key is missing.
  unfoldable pub slice_at : Text → List (Text × List A) → List A
  slice_at k [] = []
  slice_at k ((j, v) ∷ m) = if same j k then v else slice_at k m

  -- `m[k] = append(m[k], xs...)`.
  unfoldable pub append_at : Text → List A → List (Text × List A) → List (Text × List A)
  append_at k xs [] = (k, xs) ∷ []
  append_at k xs ((j, v) ∷ m) = if same j k then (j, v ++ xs) ∷ m else (j, v) ∷ append_at k xs m

  pub slice_at-append_at :
      (k j : Text) (xs : List A) (m : List (Text × List A))
      → slice_at j (append_at k xs m) ≡ (if same k j then slice_at j m ++ xs else slice_at j m)
  unfolding slice_at append_at
  slice_at-append_at k j xs [] = ground arith
  slice_at-append_at k j xs ((i, w) ∷ m) =
      ground (arith, same_iff k j, same_iff i k, same_iff i j, slice_at-append_at k j xs m)

  pub slice_at-insert :
      (k j : Text) (v : List A) (m : List (Text × List A))
      → slice_at j (insert k v m) ≡ (if same k j then v else slice_at j m)
  unfolding slice_at insert
  slice_at-insert k j v [] = refl
  slice_at-insert k j v ((i, w) ∷ m) =
      ground (arith, same_iff k j, same_iff i k, same_iff i j, slice_at-insert k j v m)

  pub slice_of_lookup :
      (k : Text) (m : List (Text × List A)) (v : List A) → lookup k m ≡ some v → slice_at k m ≡ v
  unfolding slice_at lookup
  slice_of_lookup k [] v h = absurd (cc)
  slice_of_lookup k ((j, w) ∷ m) v h = ground (arith, slice_of_lookup k m v)

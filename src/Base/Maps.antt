-- ===== src/Base/Maps.antt =====
-- Two Go maps compared by reflect.DeepEqual, and by what they hold under each key.
use Prim.Native.Nat.{ℕ, ◌+◌, ◌≤◌}
use mathlib.Core.Path.{◌≡◌, refl, sym, ◌∙◌}
use mathlib.Core.Logic.{inl, inr, ◌↔◌}
use mathlib.Core.Bool.{Bool, true, false, ◌&&◌}
use mathlib.Core.List.{List, [], ◌∷◌}
use mathlib.Core.Option.{none, some}
use native.Mathlib.Omega.{arith}
use rediscluster_operator.Base.Tests.{if◌then◌else◌, ◌==◌, Bool-cases, Option-cases}
use rediscluster_operator.Base.Bytes.{Text, same, same_iff, same_refl}
use rediscluster_operator.Base.Lists.{length}
use rediscluster_operator.Base.Dict.{lookup, insert, lookup-insert}

-- Each key stands once.
abbrev pub IsMap {ℓ} : {V : Type ℓ} → List (Text × V) → Type ℓ
IsMap [] = Unit
IsMap ((k, v) ∷ m) = (lookup k m ≡ none) × IsMap m

pub insert-IsMap {ℓ} :
    {V : Type ℓ} (k : Text) (v : V) (m : List (Text × V)) → IsMap m → IsMap (insert k v m)
unfolding insert lookup
insert-IsMap k v [] h = (refl, tt)
insert-IsMap k v ((j, w) ∷ m) h = elim (Bool-cases (same j k)) [
  | inl e ↦ rw e (h.0, h.1)
  | inr e ↦ rw e (
    lookup-insert k j v m ∙ ground (arith, same_iff k j, same_iff j k, h.0),
    insert-IsMap k v m h.1,
  )
]

-- A map of slices of slots: each key of the first has an equal slice in the second.
unfoldable pub included : List (Text × List ℕ) → List (Text × List ℕ) → Bool
included [] m' = true
included ((k, v) ∷ m) m' =
    (elim (lookup k m') [ none ↦ false | some w ↦ same v w ]) && included m m'

-- reflect.DeepEqual of two such maps, whose slices are not nil.
unfoldable pub deep_equal : List (Text × List ℕ) → List (Text × List ℕ) → Bool
unfolding included
deep_equal m m' = (length m == length m') && included m m'

module _ {ℓ} {V : Type ℓ} where
  remove : Text → List (Text × V) → List (Text × V)
  remove k [] = []
  remove k ((j, v) ∷ m) = if same j k then m else (j, v) ∷ remove k m

  lookup-remove :
      (k i : Text) (m : List (Text × V))
      → IsMap m
      → lookup i (remove k m) ≡ (if same k i then none else lookup i m)
  unfolding lookup remove
  lookup-remove k i [] h = ground arith
  lookup-remove k i ((j, v) ∷ m) h =
      ground (arith, same_iff j k, same_iff j i, same_iff k i, h.0, lookup-remove k i m h.1)

  remove-IsMap : (k : Text) (m : List (Text × V)) → IsMap m → IsMap (remove k m)
  unfolding remove
  remove-IsMap k [] h = tt
  remove-IsMap k ((j, v) ∷ m) h = elim (Bool-cases (same j k)) [
    | inl e ↦ rw e h.1
    | inr e ↦ rw e (lookup-remove k j m h.1 ∙ ground (arith, h.0), remove-IsMap k m h.1)
  ]

  length-remove :
      (k : Text) (v : V) (m : List (Text × V))
      → lookup k m ≡ some v
      → length (remove k m) + 1 ≡ length m
  unfolding lookup remove
  length-remove k v [] h = absurd (cc)
  length-remove k v ((j, w) ∷ m) h = ground (arith, length-remove k v m)

included-remove :
    (k : Text) (m m' : List (Text × List ℕ))
    → IsMap m'
    → lookup k m ≡ none
    → included m m' ≡ true
    → included m (remove k m') ≡ true
unfolding included lookup
included-remove k [] m' f n h = refl
included-remove k ((j, v) ∷ m) m' f n h =
    ground (arith, lookup-remove k j m' f, same_iff j k, same_iff k j, included-remove k m m' f)

included_lem :
    (m m' : List (Text × List ℕ))
    → IsMap m
    → IsMap m'
    → length m ≡ length m'
    → included m m' ≡ true
    → (k : Text) → lookup k m ≡ lookup k m'
unfolding included lookup
included_lem [] [] f f' l h k = refl
included_lem [] (x ∷ m') f f' l h k = absurd (omega arith)
included_lem ((j, v) ∷ m) m' f f' l h k = elim (Option-cases (lookup j m')) [
  | inl e ↦ absurd (ground arith)
  | inr (w, e) ↦
      let rest =
        included_lem m (remove j m') f.1 (remove-IsMap j m' f')
          (omega (arith, length-remove j w m' e, l)) (included-remove j m m' f' f.0 (ground arith))
          k in
      ground (arith, rest, lookup-remove j k m' f', same_iff v w, same_iff j k, e)
]

included_of :
    (m m' : List (Text × List ℕ))
    → IsMap m
    → ((k : Text) (v : List ℕ) → lookup k m ≡ some v → lookup k m' ≡ some v)
    → included m m' ≡ true
unfolding included lookup
included_of [] m' f h = refl
included_of ((j, v) ∷ m) m' f h =
    let here : lookup j m' ≡ some v = h j v (rw (same_refl j) refl) in
    let rest = included_of m m' f.1 (λ k w e. h k w (ground (arith, same_iff j k, f.0))) in
    ground (arith, same_refl v)

length-le :
    (m m' : List (Text × List ℕ)) → IsMap m → IsMap m' → included m m' ≡ true → length m ≤ length m'
unfolding included
length-le [] m' f f' h = omega arith
length-le ((j, v) ∷ m) m' f f' h = elim (Option-cases (lookup j m')) [
  | inl e ↦ absurd (ground arith)
  | inr (w, e) ↦ omega (
    arith,
    length-le m (remove j m') f.1 (remove-IsMap j m' f')
        (included-remove j m m' f' f.0 (ground arith)),
    length-remove j w m' e,
  )
]

-- Two maps are deeply equal exactly when they hold the same under each key.
pub deep_equal_iff :
    (m m' : List (Text × List ℕ))
    → IsMap m
    → IsMap m'
    → (deep_equal m m' ≡ true) ↔ ((k : Text) → lookup k m ≡ lookup k m')
unfolding deep_equal
deep_equal_iff m m' f f' = (
  λ h. included_lem m m' f f' (ground arith) (ground arith),
  λ h.
      let forth = included_of m m' f (λ k v e. sym (h k) ∙ e) in
      let back = included_of m' m f' (λ k v e. h k ∙ e) in
      ground (arith, length-le m m' f f' forth, length-le m' m f' f back),
)

-- ===== src/Migration/Quota.antt =====
-- How many slots buildSlotByNodeFromAvailableSlots can give to one new master.
use rediscluster_operator.Base.{
  ℕ, zero, suc, ◌+◌, ◌<◌, ◌≤◌, ◌≡◌, refl, ap, List, [], ◌∷◌, ◌++◌, arith, ◌==◌, if◌then◌else◌, Text,
  slice_at, same_iff, length, length-append, set, max, slice_at-append_at,
}
use rediscluster_operator.Nodes.Heap.{Heap}
use rediscluster_operator.Migration.{
  Nodes, SlotMap, Filling, give, id_at, slots_at, place_slot, place_slots, place_all, slots_of,
  ids_of, build_slot_by_node_from_available_slots,
}

length-set : (m : List (List ℕ)) (i : ℕ) (v : List ℕ) → length (set m i v) ≡ length m
length-set [] i v = refl
length-set (x ∷ m) zero v = refl
length-set (x ∷ m) (suc i) v = ap suc (length-set m i v)

slots_at-set :
    (m : List (List ℕ)) (i j : ℕ) (v : List ℕ)
    → i < length m
    → slots_at (set m i v) j ≡ (if i == j then v else slots_at m j)
unfolding slots_at
slots_at-set [] i j v h = absurd (omega arith)
slots_at-set (x ∷ m) zero zero v h = refl
slots_at-set (x ∷ m) zero (suc j) v h = ground arith
slots_at-set (x ∷ m) (suc i) zero v h = ground arith
slots_at-set (x ∷ m) (suc i) (suc j) v h = ground (arith, slots_at-set m i j v)

-- The number of slots of the node at an index.
abbrev pub load : List (List ℕ) → ℕ → ℕ
load m i = length (slots_at m i)

-- Two indices with one id are one index.
abbrev pub Unique : List Text → Type 0
Unique ids = (i j : ℕ) → i < length ids → j < length ids → id_at ids i ≡ id_at ids j → i ≡ j

module _ (ids : List Text) (nb : ℕ) (init : List (List ℕ)) (u : Unique ids) where
  -- What holds of the node at index `i` between two rounds.
  record Fair (s : Filling) (i : ℕ) : Type 0 where
    added : load init i + length (slice_at (id_at ids i) s.slot_to_add) ≡ load s.slot_of_node i
    ahead : s.id_node < i → load s.slot_of_node i ≡ load init i
    bound : suc i < length ids → load s.slot_of_node i ≤ max nb (load init i + 1)

  record Shape (s : Filling) : Type 0 where
    in_range : s.id_node < length ids
    sized : length s.slot_of_node ≡ length ids

  give-Shape : (s : Filling) (j slot : ℕ) → j < length ids → Shape s → Shape (give ids j slot s)
  unfolding give
  give-Shape s j slot lt sh =
      ground (arith, length-set s.slot_of_node j (slots_at s.slot_of_node j ++ slot ∷ []))

  place_slot-Shape : (s : Filling) (slot : ℕ) → Shape s → Shape (place_slot ids nb s slot)
  unfolding place_slot
  place_slot-Shape s slot sh =
      ground (arith, give-Shape s s.id_node slot, give-Shape s (suc s.id_node) slot)

  place_slot-Fair :
      (s : Filling) (slot i : ℕ)
      → i < length ids
      → Shape s
      → Fair s i
      → Fair (place_slot ids nb s slot) i
  unfolding place_slot give
  place_slot-Fair s slot i lt sh f = ground (
    arith,
    u i s.id_node,
    u i (suc s.id_node),
    same_iff (id_at ids s.id_node) (id_at ids i),
    same_iff (id_at ids (suc s.id_node)) (id_at ids i),
    slots_at-set s.slot_of_node s.id_node i (slots_at s.slot_of_node s.id_node ++ slot ∷ []),
    slots_at-set s.slot_of_node (suc s.id_node) i
        (slots_at s.slot_of_node (suc s.id_node) ++ slot ∷ []),
    length-append (slots_at s.slot_of_node s.id_node) (slot ∷ []),
    length-append (slots_at s.slot_of_node (suc s.id_node)) (slot ∷ []),
    slice_at-append_at (id_at ids s.id_node) (id_at ids i) (slot ∷ []) s.slot_to_add,
    slice_at-append_at (id_at ids (suc s.id_node)) (id_at ids i) (slot ∷ []) s.slot_to_add,
    length-append (slice_at (id_at ids i) s.slot_to_add) (slot ∷ []),
  )

  module _ (i : ℕ) (lt : i < length ids) where
    place_slots-Fair :
        (s : Filling) (slots : List ℕ)
        → Shape s
        → Fair s i
        → Shape (place_slots ids nb s slots) × Fair (place_slots ids nb s slots) i
    unfolding place_slots
    place_slots-Fair s [] sh f = (sh, f)
    place_slots-Fair s (x ∷ xs) sh f =
        place_slots-Fair (place_slot ids nb s x) xs (place_slot-Shape s x sh)
          (place_slot-Fair s x i lt sh f)

    place_all-Fair :
        (s : Filling) (m : SlotMap) → Shape s → Fair s i → Fair (place_all ids nb s m) i
    unfolding place_all
    place_all-Fair s [] sh f = f
    place_all-Fair s ((from, slots) ∷ m) sh f =
        let (sh', f') = place_slots-Fair s slots sh f in
        place_all-Fair (place_slots ids nb s slots) m sh' f'

length-ids_of : (h : Heap) (new : Nodes) → length (ids_of h new) ≡ length new
unfolding ids_of
length-ids_of h [] = refl
length-ids_of h (n ∷ new) = ap suc (length-ids_of h new)

length-slots_of : (h : Heap) (new : Nodes) → length (slots_of h new) ≡ length new
unfolding slots_of
length-slots_of h [] = refl
length-slots_of h (n ∷ new) = ap suc (length-slots_of h new)

-- With ids that tell the new masters apart, each new master but the last ends with at most
-- `nbSlotByNode` slots, or with at most one more than it had.
pub build_slot_by_node-quota :
    (h : Heap) (n : ℕ) (new : Nodes) (nb : ℕ) (m : SlotMap) (i : ℕ)
    → Unique (ids_of h (n ∷ new))
    → suc i < length (n ∷ new)
    → load (slots_of h (n ∷ new)) i
        + length (
            slice_at
              (id_at (ids_of h (n ∷ new)) i)
              (build_slot_by_node_from_available_slots h (n ∷ new) nb m))
      ≤ max nb (load (slots_of h (n ∷ new)) i + 1)
unfolding build_slot_by_node_from_available_slots slice_at
build_slot_by_node-quota h n new nb m i u lt =
    omega (arith, fair.added, fair.bound (omega (arith, ids_length)))
  where
    ids_length : length (ids_of h (n ∷ new)) ≡ length (n ∷ new)
    ids_length = length-ids_of h (n ∷ new)

    start : Filling
    start = record { id_node = 0; slot_of_node = slots_of h (n ∷ new); slot_to_add = [] }

    shape : Shape (ids_of h (n ∷ new)) nb (slots_of h (n ∷ new)) u start
    shape = omega (arith, ids_length, length-slots_of h (n ∷ new))

    at_start : Fair (ids_of h (n ∷ new)) nb (slots_of h (n ∷ new)) u start i
    at_start = record { added = omega arith; ahead = λ _. refl; bound = λ _. omega arith }

    fair :
        Fair
          (ids_of h (n ∷ new))
          nb
          (slots_of h (n ∷ new))
          u
          (place_all (ids_of h (n ∷ new)) nb start m)
          i
    fair =
        place_all-Fair (ids_of h (n ∷ new)) nb (slots_of h (n ∷ new)) u i
          (omega (arith, ids_length)) start m shape at_start

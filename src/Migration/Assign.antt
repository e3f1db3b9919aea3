-- ===== src/Migration/Assign.antt =====
-- buildSlotByNodeFromAvailableSlots of controllers/clustering/migration.go: the slots that it hands
-- out.
use rediscluster_operator.Base.{
  ℕ, suc, ◌+◌, ◌≡◌, ◌∙◌, List, [], ◌∷◌, ◌++◌, arith, count, count-append, Text, append_at,
}
use rediscluster_operator.Nodes.Heap.{Heap}
use rediscluster_operator.Migration.{
  Nodes, SlotMap, Filling, id_at, place_slot, place_slots, place_all, slots_of, ids_of,
  build_slot_by_node_from_available_slots,
}

-- The slots under all keys of a map.
unfoldable pub all_slots : SlotMap → List ℕ
all_slots [] = []
all_slots ((id, slots) ∷ m) = slots ++ all_slots m

pub count-append_at :
    (id : Text) (xs : List ℕ) (m : SlotMap) (e : ℕ)
    → count e (all_slots (append_at id xs m)) ≡ count e (all_slots m) + count e xs
unfolding all_slots append_at
count-append_at id xs [] e = ground (arith, count-append e xs [])
count-append_at id xs ((j, v) ∷ m) e = ground (
  arith,
  count-append_at id xs m e,
  count-append e (v ++ xs) (all_slots m),
  count-append e v xs,
  count-append e v (all_slots m),
  count-append e v (all_slots (append_at id xs m)),
)

count-place_slot :
    (ids : List Text) (nb : ℕ) (s : Filling) (slot e : ℕ)
    → count e (all_slots (place_slot ids nb s slot).slot_to_add)
      ≡ count e (all_slots s.slot_to_add) + count e (slot ∷ [])
unfolding place_slot
count-place_slot ids nb s slot e = ground (
  arith,
  count-append_at (id_at ids s.id_node) (slot ∷ []) s.slot_to_add e,
  count-append_at (id_at ids (suc s.id_node)) (slot ∷ []) s.slot_to_add e,
)

count-place_slots :
    (ids : List Text) (nb : ℕ) (s : Filling) (slots : List ℕ) (e : ℕ)
    → count e (all_slots (place_slots ids nb s slots).slot_to_add)
      ≡ count e (all_slots s.slot_to_add) + count e slots
unfolding place_slots
count-place_slots ids nb s [] e = omega arith
count-place_slots ids nb s (x ∷ xs) e =
    omega
      (arith, count-place_slots ids nb (place_slot ids nb s x) xs e, count-place_slot ids nb s x e)

count-place_all :
    (ids : List Text) (nb : ℕ) (s : Filling) (m : SlotMap) (e : ℕ)
    → count e (all_slots (place_all ids nb s m).slot_to_add)
      ≡ count e (all_slots s.slot_to_add) + count e (all_slots m)
unfolding place_all all_slots
count-place_all ids nb s [] e = omega arith
count-place_all ids nb s ((id, slots) ∷ m) e = omega (
  arith,
  count-place_all ids nb (place_slots ids nb s slots) m e,
  count-place_slots ids nb s slots e,
  count-append e slots (all_slots m),
)

-- With a new master to give them to, every slot of the map, in whatever order it is visited, is
-- assigned as often as the map holds it.
pub count-build_slot_by_node :
    (h : Heap) (n : ℕ) (new : Nodes) (nb : ℕ) (m : SlotMap) (e : ℕ)
    → count e (all_slots (build_slot_by_node_from_available_slots h (n ∷ new) nb m))
      ≡ count e (all_slots m)
unfolding build_slot_by_node_from_available_slots all_slots
count-build_slot_by_node h n new nb m e =
    count-place_all (ids_of h (n ∷ new)) nb
      (record { id_node = 0; slot_of_node = slots_of h (n ∷ new); slot_to_add = [] }) m e
    ∙ omega arith

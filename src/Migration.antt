-- ===== src/Migration.antt =====
-- controllers/clustering/migration.go: which slots go where when the set of masters changes.
-- Slices of `*Node` are lists of pointers into a heap. A map that the source ranges over is a list
-- in the order of one visit; `visit` is that order for the slots to migrate. The quotient of two
-- float64 that math.Ceil rounds up is exact division: slots and nodes are far below 2 ^ 53.
pub mod Lost
pub mod Assign
pub mod Quota
pub mod Migrated
pub mod Under
pub mod Plan
pub mod Feed
pub mod Dispatch
use rediscluster_operator.Base.{
  ℕ, zero, suc, ◌+◌, ◌-◌, ◌*◌, ◌/◌, Bool, true, false, not, ◌≡◌, List, [], ◌∷◌, ◌++◌, Option, none,
  some, Text, same, slice_at, append_at, insert, sort, leb, ltb, ◌==◌, if◌then◌else◌, length, drop,
  set, get_elem?,
}
use rediscluster_operator.Nodes.{Node, ip_port, total_slots}
use rediscluster_operator.Nodes.Heap.{Heap}
use rediscluster_operator.Slots.{contains}

-- A slice of nodes.
abbrev pub Nodes : Type 0
Nodes = List ℕ

-- A map from node ids to slots.
abbrev pub SlotMap : Type 0
SlotMap = List (Text × List ℕ)

-- One round of retrieveSlotToMigrateFrom.
unfoldable pub migrate_from_node : ℕ → Node → SlotMap → SlotMap
migrate_from_node nb_slot_by_node node m =
    let extra = drop nb_slot_by_node node.slots in
    if leb nb_slot_by_node (total_slots node)
    then (if ltb 0 (length extra) then append_at node.id extra m else m)
    else m

-- The loop of retrieveSlotToMigrateFrom, from the map made so far.
unfoldable pub migrate_from_loop : Heap → ℕ → SlotMap → Nodes → SlotMap
migrate_from_loop h nb m [] = m
migrate_from_loop h nb m (node ∷ old) = migrate_from_loop h nb (migrate_from_node nb (h node) m) old

-- retrieveSlotToMigrateFrom
unfoldable pub retrieve_slot_to_migrate_from : Heap → Nodes → ℕ → SlotMap
retrieve_slot_to_migrate_from h old nb_slot_by_node = migrate_from_loop h nb_slot_by_node [] old

-- The inner loop of retrieveSlotToMigrateFromRemovedNodes: `isPresent`.
unfoldable pub is_present : Heap → Nodes → Text → Bool
is_present h [] id = false
is_present h (new ∷ news) id = if same id (h new).id then true else is_present h news id

-- The slice `removedNodes`.
unfoldable pub removed_nodes : Heap → Nodes → Nodes → Nodes
removed_nodes h new [] = []
removed_nodes h new (old ∷ olds) =
    if is_present h new (h old).id then removed_nodes h new olds else old ∷ removed_nodes h new olds

-- The last loop of retrieveSlotToMigrateFromRemovedNodes, from the map made so far.
unfoldable pub migrate_removed_loop : Heap → SlotMap → Nodes → SlotMap
migrate_removed_loop h m [] = m
migrate_removed_loop h m (node ∷ nodes) =
    migrate_removed_loop h (insert (h node).id (h node).slots m) nodes

-- retrieveSlotToMigrateFromRemovedNodes
unfoldable pub retrieve_slot_to_migrate_from_removed_nodes : Heap → Nodes → Nodes → SlotMap
unfolding removed_nodes migrate_removed_loop
retrieve_slot_to_migrate_from_removed_nodes h new old =
    migrate_removed_loop h [] (removed_nodes h new old)

-- The slots of all the nodes, one after another.
unfoldable pub full_range : Heap → Nodes → List ℕ
full_range h [] = []
full_range h (node ∷ nodes) = (h node).slots ++ full_range h nodes

-- `for i := from; i < to; i++ { lost = append(lost, i) }`; one round for each number.
unfoldable pub gap_loop : ℕ → ℕ → List ℕ
gap_loop zero i = []
gap_loop (suc rounds) i = i ∷ gap_loop rounds (i + 1)

unfoldable pub gap : ℕ → ℕ → List ℕ
gap from to = gap_loop (to - from) from

-- The loop of retrieveLostSlots over the sorted slots, then its last loop. Slots are below 2 ^ 64 -
-- 1 here, so `last + 1` does not wrap.
unfoldable pub lost_loop : ℕ → ℕ → List ℕ → List ℕ
unfolding gap
lost_loop nb_slots last [] = gap (last + 1) nb_slots
lost_loop nb_slots last (slot ∷ slots) =
    (if ltb (last + 1) slot then gap (last + 1) slot else []) ++ lost_loop nb_slots slot slots

-- The test of retrieveLostSlots on the first slot.
unfoldable pub starts_lost : List ℕ → List ℕ
starts_lost [] = 0 ∷ []
starts_lost (slot ∷ slots) = if slot == 0 then [] else 0 ∷ []

-- retrieveLostSlots
unfoldable pub retrieve_lost_slots : Heap → Nodes → ℕ → List ℕ
unfolding starts_lost lost_loop
retrieve_lost_slots h old nb_slots =
    let current = sort (full_range h old) in starts_lost current ++ lost_loop nb_slots 0 current

-- The variables of buildSlotByNodeFromAvailableSlots: `idNode`, `slotOfNode` by index and
-- `slotToAddByNode`.
pub record Filling : Type 0 where
  pub id_node : ℕ
  pub slot_of_node : List (List ℕ)
  pub slot_to_add : SlotMap

-- `slotOfNode[i]` of a map with a key for each node.
unfoldable pub slots_at : List (List ℕ) → ℕ → List ℕ
slots_at m i = elim (get_elem? m i) [ none ↦ [] | some slots ↦ slots ]

-- `newMasterNodes[i].ID`; the index is below the length.
unfoldable pub id_at : List Text → ℕ → Text
id_at ids i = elim (get_elem? ids i) [ none ↦ [] | some id ↦ id ]

-- Both appends of a round, at node `i`.
unfoldable pub give : List Text → ℕ → ℕ → Filling → Filling
give ids i slot s = record {
  id_node = i;
  slot_of_node = set s.slot_of_node i (slots_at s.slot_of_node i ++ slot ∷ []);
  slot_to_add = append_at (id_at ids i) (slot ∷ []) s.slot_to_add;
}

-- One round of the inner loop of buildSlotByNodeFromAvailableSlots. `missingSlots > 0` is compared
-- without the subtraction, which is one of signed integers in the source.
unfoldable pub place_slot : List Text → ℕ → Filling → ℕ → Filling
unfolding give
place_slot ids nb_slot_by_node s slot =
    if ltb (length (slots_at s.slot_of_node s.id_node)) nb_slot_by_node
    then give ids s.id_node slot s
    else give ids (if ltb (length ids - 1) (suc s.id_node) then s.id_node else suc s.id_node) slot s

unfoldable pub place_slots : List Text → ℕ → Filling → List ℕ → Filling
place_slots ids nb s [] = s
place_slots ids nb s (slot ∷ slots) = place_slots ids nb (place_slot ids nb s slot) slots

unfoldable pub place_all : List Text → ℕ → Filling → SlotMap → Filling
place_all ids nb s [] = s
place_all ids nb s ((from, slots) ∷ m) = place_all ids nb (place_slots ids nb s slots) m

unfoldable pub ids_of : Heap → Nodes → List Text
ids_of h [] = []
ids_of h (node ∷ nodes) = (h node).id ∷ ids_of h nodes

unfoldable pub slots_of : Heap → Nodes → List (List ℕ)
slots_of h [] = []
slots_of h (node ∷ nodes) = (h node).slots ∷ slots_of h nodes

-- buildSlotByNodeFromAvailableSlots, over the map in the order of its visit.
unfoldable pub build_slot_by_node_from_available_slots : Heap → Nodes → ℕ → SlotMap → SlotMap
build_slot_by_node_from_available_slots h [] nb_slot_by_node m = []
build_slot_by_node_from_available_slots h (n ∷ new) nb_slot_by_node m =
    (place_all (ids_of h (n ∷ new)) nb_slot_by_node
      (record { id_node = 0; slot_of_node = slots_of h (n ∷ new); slot_to_add = [] }) m).slot_to_add

-- `for id, slots := range from { to[id] = slots }`
unfoldable pub override : SlotMap → SlotMap → SlotMap
override to [] = to
override to ((id, slots) ∷ from) = override (insert id slots to) from

-- `slotToMigrateByNode` of BuildSlotsByNode when it is handed over.
unfoldable pub slots_to_migrate : Heap → Nodes → Nodes → ℕ → ℕ → SlotMap
slots_to_migrate h new old nb_slots nb_slot_by_node =
    insert [] (retrieve_lost_slots h old nb_slots) (
      override (retrieve_slot_to_migrate_from h old nb_slot_by_node)
        (retrieve_slot_to_migrate_from_removed_nodes h new old))

-- The number of slots of each node: the quotient rounded up.
abbrev pub slots_by_node : ℕ → ℕ → ℕ
slots_by_node nb_slots nb_node = (nb_slots + (nb_node - 1)) / nb_node

-- BuildSlotsByNode. Its last loop only counts and logs.
unfoldable pub build_slots_by_node : (SlotMap → SlotMap) → Heap → Nodes → Nodes → ℕ → SlotMap
build_slots_by_node visit h [] old nb_slots = []
build_slots_by_node visit h (n ∷ new) old nb_slots =
    let nb = slots_by_node nb_slots (length (n ∷ new)) in
    build_slot_by_node_from_available_slots h (n ∷ new) nb
      (visit (slots_to_migrate h (n ∷ new) old nb_slots nb))

-- ===== src/Migration/Feed.antt =====
-- feedMigInfo of controllers/clustering/migration.go: from which node each planned slot moves.
-- A key of `mapSlotByMigInfo` is a pair of pointers, and `nil` is the missing source.
pub mod Sound
use rediscluster_operator.Base.{
  ℕ, suc, ◌+◌, Bool, true, false, ◌&&◌, List, [], ◌∷◌, ◌++◌, Option, none, some, Text, same, ◌==◌,
  if◌then◌else◌,
}
use rediscluster_operator.Nodes.{Node}
use rediscluster_operator.Nodes.Heap.{Heap}
use rediscluster_operator.Slots.{contains}
use rediscluster_operator.Migration.{Nodes, SlotMap, build_slots_by_node}

-- An entry of mapSlotByMigInfo: its key, a migrationInfo, and its slots.
pub record MigrationInfo : Type 0 where
  pub from : Option ℕ
  pub to : ℕ
  pub slots : List ℕ

abbrev same_from : Option ℕ → Option ℕ → Bool
same_from none none = true
same_from (some p) (some q) = p == q
same_from _ _ = false

-- `mapOut[key] = append(mapOut[key], s)`
unfoldable pub append_info : Option ℕ → ℕ → ℕ → List MigrationInfo → List MigrationInfo
append_info from to s [] = record { from = from; to = to; slots = s ∷ [] } ∷ []
append_info from to s (e ∷ m) =
    if same_from e.from from && e.to == to
    then record e { slots = e.slots ++ s ∷ [] } ∷ m
    else e ∷ append_info from to s m

-- Nodes.GetNodeByID on pointers: `none` is nodeNotFoundedError.
unfoldable pub find_node : Heap → Nodes → Text → Option ℕ
find_node h [] id = none
find_node h (n ∷ nodes) id = if same (h n).id id then some n else find_node h nodes id

-- How the loop over the old masters ends for a slot: the slot is at its node already, it moves
-- between two nodes, or `found` is false.
pub data Source : Type 0 where
  stays : Source
  moves : ℕ → ℕ → Source
  lost : Source

-- The loop of feedMigInfo over the old masters, for the slot `s` planned for the node `id`.
unfoldable pub source_of : Heap → Nodes → Nodes → Text → ℕ → Source
source_of h new [] id s = lost
source_of h new (o ∷ old) id s =
    let rest = source_of h new old id s in
    if same (h o).id id
    then (if contains (h o).slots s then stays else rest)
    else if contains (h o).slots s
    then elim (find_node h new id) [ none ↦ rest | some n ↦ moves o n ]
    else rest

-- `mapOut` and `info.NbslotsToMigrate`, which counts below 2 ^ 31 here.
pub record Feed : Type 0 where
  pub map_out : List MigrationInfo
  pub nb_slots_to_migrate : ℕ

unfoldable pub add_move : Option ℕ → ℕ → ℕ → Feed → Feed
add_move from to s f = record {
  map_out = append_info from to s f.map_out;
  nb_slots_to_migrate = f.nb_slots_to_migrate + 1;
}

-- One round of the loop of feedMigInfo over the slots of a node.
unfoldable pub feed_slot : Heap → Nodes → Nodes → Text → Feed → ℕ → Feed
feed_slot h new old id f s = elim (source_of h new old id s) [
  | stays ↦ f
  | moves o n ↦ add_move (some o) n s f
  | lost ↦ elim (find_node h new id) [ none ↦ f | some n ↦ add_move none n s f ]
]

unfoldable pub feed_slots : Heap → Nodes → Nodes → Text → Feed → List ℕ → Feed
feed_slots h new old id f [] = f
feed_slots h new old id f (s ∷ slots) = feed_slots h new old id (feed_slot h new old id f s) slots

unfoldable pub feed_all : Heap → Nodes → Nodes → Feed → SlotMap → Feed
feed_all h new old f [] = f
feed_all h new old f ((id, slots) ∷ m) = feed_all h new old (feed_slots h new old id f slots) m

-- feedMigInfo; `visit` and `visit'` are the orders in which the two maps are visited.
unfoldable pub feed_mig_info :
    (SlotMap → SlotMap) → (SlotMap → SlotMap) → Heap → Nodes → Nodes → ℕ → Feed
feed_mig_info visit visit' h new old nb_slots =
    feed_all h new old (record { map_out = []; nb_slots_to_migrate = 0 })
      (visit' (build_slots_by_node visit h new old nb_slots))

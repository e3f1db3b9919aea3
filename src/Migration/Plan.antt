-- ===== src/Migration/Plan.antt =====
-- BuildSlotsByNode of controllers/clustering/migration.go: the owners of the slots after the plan.
use rediscluster_operator.Base.{
  ℕ, ◌+◌, ◌<◌, ◌≤◌, Bool, true, ◌≡◌, refl, List, [], ◌∷◌, ◌++◌, arith, if◌then◌else◌, Text,
  slice_at, same, length, drop, take, same_iff, same_refl, count, count-append, slice_at-insert,
  keep, take-append-drop,
}
use mathlib.Core.List.{Perm}
use rediscluster_operator.Nodes.{Node}
use rediscluster_operator.Nodes.Heap.{Heap}
use rediscluster_operator.Slots.{contains, remove_slots}
use rediscluster_operator.Slots.Contains.{contains-count}
use rediscluster_operator.Slots.Edit.{remove_slots-keep, stays}
use rediscluster_operator.Migration.Assign.{all_slots, count-build_slot_by_node}
use rediscluster_operator.Migration.Lost.{count-retrieve_lost_slots}
use rediscluster_operator.Migration.Migrated.{
  occurs, extra, Distinct, slots_to_migrate-eq, slice_at-slots_to_migrate, occurs-member,
  contains-removed_nodes,
}
use rediscluster_operator.Migration.Under.{
  under, under-nil, IsUnder, insert-IsUnder, KeysOnce, migrate_from_loop-IsUnder,
  migrate_removed_loop-IsUnder, all_slots-perm,
}
use rediscluster_operator.Migration.{
  Nodes, SlotMap, retrieve_slot_to_migrate_from, is_present, removed_nodes, migrate_removed_loop,
  ids_of, slots_to_migrate, retrieve_lost_slots, full_range, slots_by_node, build_slots_by_node,
}

-- What the old masters keep when the slots to migrate are removed from each of them.
abbrev pub kept : Heap → SlotMap → Nodes → List ℕ
kept h m [] = []
kept h m (n ∷ nodes) = remove_slots (h n).slots (slice_at (h n).id m) ++ kept h m nodes

count-drop : (nb e : ℕ) (xs : List ℕ) → count e (take nb xs) + count e (drop nb xs) ≡ count e xs
count-drop nb e xs =
    ground (arith, count-append e (take nb xs) (drop nb xs), take-append-drop nb xs)

count-keep-stays :
    (r xs : List ℕ) (e : ℕ) → count e (keep (stays r) xs) ≡ (if contains r e then 0 else count e xs)
count-keep-stays r [] e = ground arith
count-keep-stays r (x ∷ xs) e = ground (arith, count-keep-stays r xs e)

-- A node with no duplicate slot keeps just what it does not give up.
count-kept_node :
    (n : Node) (stay : Bool) (nb e : ℕ)
    → count e n.slots ≤ 1
    → count e (remove_slots n.slots (if stay then extra nb n else n.slots))
        + count e (if stay then extra nb n else n.slots)
      ≡ count e n.slots
count-kept_node n stay nb e u =
    let given = if stay then extra nb n else n.slots in
    ground (
      arith,
      remove_slots-keep n.slots given,
      count-keep-stays given n.slots e,
      contains-count given e,
      count-drop nb e n.slots,
    )

count-kept :
    (h : Heap) (m : SlotMap) (stays_on : Text → Bool) (nb e : ℕ) (nodes : Nodes)
    → ((n : ℕ)
        → contains nodes n ≡ true
        → slice_at (h n).id m ≡ (if stays_on (h n).id then extra nb (h n) else (h n).slots))
    → count e (full_range h nodes) ≤ 1
    → count e (kept h m nodes) + under (ids_of h nodes) m e ≡ count e (full_range h nodes)
unfolding full_range ids_of under contains
count-kept h m stays_on nb e [] given u = refl
count-kept h m stays_on nb e (x ∷ xs) given u = ground (
  arith,
  given x,
  count-append e (h x).slots (full_range h xs),
  count-append e (remove_slots (h x).slots (slice_at (h x).id m)) (kept h m xs),
  count-kept_node (h x) (stays_on (h x).id) nb e,
  count-kept h m stays_on nb e xs (λ n c. given n (ground arith))
      (ground (arith, count-append e (h x).slots (full_range h xs))),
)

module _ (h : Heap) (old : Nodes) (d : Distinct h old) where
  keys_once : KeysOnce ([] ∷ ids_of h old) h old
  unfolding occurs
  keys_once n c =
      ground (arith, d.once (h n).id, d.named, occurs-member h old n c, same_iff [] (h n).id)

  lost_once : occurs [] ([] ∷ ids_of h old) ≡ 1
  unfolding occurs same
  lost_once = ground (arith, d.named)

  removed-KeysOnce : (new : Nodes) → KeysOnce ([] ∷ ids_of h old) h (removed_nodes h new old)
  removed-KeysOnce new n c = keys_once n (ground (arith, contains-removed_nodes h new old n))

  slots_to_migrate-IsUnder :
      (new : Nodes) (nb_slots nb : ℕ)
      → IsUnder ([] ∷ ids_of h old) (slots_to_migrate h new old nb_slots nb)
  unfolding retrieve_slot_to_migrate_from
  slots_to_migrate-IsUnder new nb_slots nb = rw (slots_to_migrate-eq h new old nb_slots nb d) (
      insert-IsUnder ([] ∷ ids_of h old) [] (retrieve_lost_slots h old nb_slots) _ lost_once (
        migrate_removed_loop-IsUnder ([] ∷ ids_of h old) h (removed_nodes h new old) _
          (removed-KeysOnce new)
          (migrate_from_loop-IsUnder ([] ∷ ids_of h old) h nb old [] keys_once nothing)))
    where
      nothing : IsUnder ([] ∷ ids_of h old) []
      nothing e = under-nil ([] ∷ ids_of h old) e

  lost_slots :
      (new : Nodes) (nb_slots nb : ℕ)
      → slice_at [] (slots_to_migrate h new old nb_slots nb) ≡ retrieve_lost_slots h old nb_slots
  lost_slots new nb_slots nb = rw (slots_to_migrate-eq h new old nb_slots nb d) (
      ground (
        arith,
        same_refl [],
        slice_at-insert [] [] (retrieve_lost_slots h old nb_slots) (
            migrate_removed_loop h (retrieve_slot_to_migrate_from h old nb)
              (removed_nodes h new old)),
      ))

-- Take old masters with distinct ids that are not empty, whose slots are disjoint and below
-- `nbSlots`. Whatever new masters are chosen (one at least) and in whatever order the maps are
-- visited: when each old master gives up its slots to migrate and the new masters get the slots
-- that BuildSlotsByNode adds, every slot below `nbSlots` has exactly one owner.
pub build_slots_by_node-covers :
    (visit : SlotMap → SlotMap) (h : Heap) (n : ℕ) (new old : Nodes) (nb_slots e : ℕ)
    → ((m : SlotMap) → Perm (visit m) m)
    → Distinct h old
    → ((s : ℕ) → contains (full_range h old) s ≡ true → s < nb_slots)
    → ((s : ℕ) → count s (full_range h old) ≤ 1)
    → e < nb_slots
    → count e (
          kept h
            (slots_to_migrate h (n ∷ new) old nb_slots (slots_by_node nb_slots (length (n ∷ new))))
            old)
        + count e (all_slots (build_slots_by_node visit h (n ∷ new) old nb_slots))
      ≡ 1
unfolding build_slots_by_node under
build_slots_by_node-covers visit h n new old nb_slots e vp d below once lt =
    let nb = slots_by_node nb_slots (length (n ∷ new)) in
    let m = slots_to_migrate h (n ∷ new) old nb_slots nb in
    ground (
      arith,
      count-build_slot_by_node h n new nb (visit m) e,
      all_slots-perm (visit m) m e (vp m),
      slots_to_migrate-IsUnder h old d (n ∷ new) nb_slots nb e,
      lost_slots h old d (n ∷ new) nb_slots nb,
      count-retrieve_lost_slots h old nb_slots e (omega arith) below,
      contains-count (full_range h old) e,
      count-kept h m (is_present h (n ∷ new)) nb e old
          (slice_at-slots_to_migrate h (n ∷ new) old nb_slots nb d) (once e),
      once e,
    )

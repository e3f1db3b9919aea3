-- ===== src/Migration/Migrated.antt =====
-- What the map of slots to migrate holds for each old master.
use rediscluster_operator.Base.{
  ℕ, ◌+◌, ◌<◌, ◌≤◌, true, false, ◌≡◌, refl, ◌∙◌, ap, List, [], ◌∷◌, ◌++◌, arith, leb, ltb,
  if◌then◌else◌, Text, insert, slice_at, same, length, drop, append-nil, none, lookup,
  lookup-insert, slice_at-insert, slice_at-append_at, same_iff, same_refl,
}
use rediscluster_operator.Nodes.{Node, total_slots}
use rediscluster_operator.Nodes.Heap.{Heap}
use rediscluster_operator.Slots.{contains}
use rediscluster_operator.Migration.{
  Nodes, SlotMap, migrate_from_node, migrate_from_loop, retrieve_slot_to_migrate_from, is_present,
  removed_nodes, migrate_removed_loop, override, ids_of, slots_to_migrate, retrieve_lost_slots,
  retrieve_slot_to_migrate_from_removed_nodes,
}

-- How often a name stands in a list.
unfoldable pub occurs : Text → List Text → ℕ
occurs k [] = 0
occurs k (i ∷ ids) = (if same i k then 1 else 0) + occurs k ids

pub occurs-member :
    (h : Heap) (nodes : Nodes) (n : ℕ)
    → contains nodes n ≡ true
    → 0 < occurs (h n).id (ids_of h nodes)
unfolding occurs contains ids_of
occurs-member h [] n m = cc
occurs-member h (x ∷ xs) n m = ground (arith, occurs-member h xs n, same_refl (h n).id)

-- The slots of a node past its quota.
abbrev pub extra : ℕ → Node → List ℕ
extra nb n = if leb nb (total_slots n) then drop nb n.slots else []

nil_of_length : (xs : List ℕ) → ltb 0 (length xs) ≡ false → xs ≡ []
nil_of_length [] h = refl
nil_of_length (x ∷ xs) h = ground arith

slice_at-migrate_from_node :
    (nb : ℕ) (n : Node) (k : Text) (m : SlotMap)
    → slice_at k (migrate_from_node nb n m)
      ≡ slice_at k m ++ (if same n.id k then extra nb n else [])
unfolding migrate_from_node
slice_at-migrate_from_node nb n k m = ground (
  arith,
  nil_of_length (drop nb n.slots),
  slice_at-append_at n.id k (drop nb n.slots) m,
  append-nil (slice_at k m),
)

-- Only a node with the id adds slots under it.
migrate_from_other :
    (h : Heap) (nb : ℕ) (k : Text) (old : Nodes) (m : SlotMap)
    → occurs k (ids_of h old) ≡ 0
    → slice_at k (migrate_from_loop h nb m old) ≡ slice_at k m
unfolding migrate_from_loop occurs ids_of
migrate_from_other h nb k [] m o = refl
migrate_from_other h nb k (x ∷ xs) m o = ground (
  arith,
  migrate_from_other h nb k xs (migrate_from_node nb (h x) m),
  slice_at-migrate_from_node nb (h x) k m,
  append-nil (slice_at k m),
)

-- A node whose id is its own leaves the slots past its quota under it.
pub migrate_from_self :
    (h : Heap) (nb : ℕ) (n : ℕ) (old : Nodes) (m : SlotMap)
    → contains old n ≡ true
    → occurs (h n).id (ids_of h old) ≡ 1
    → slice_at (h n).id (migrate_from_loop h nb m old) ≡ slice_at (h n).id m ++ extra nb (h n)
unfolding migrate_from_loop occurs ids_of contains
migrate_from_self h nb n [] m c o = cc
migrate_from_self h nb n (x ∷ xs) m c o = ground (
  arith,
  migrate_from_self h nb n xs (migrate_from_node nb (h x) m),
  migrate_from_other h nb (h n).id xs (migrate_from_node nb (h x) m),
  slice_at-migrate_from_node nb (h x) (h n).id m,
  append-nil (slice_at (h n).id m),
  occurs-member h xs n,
  same_refl (h n).id,
)

-- The same two facts of the removed nodes, whose slots all go.
migrate_removed_other :
    (h : Heap) (k : Text) (nodes : Nodes) (m : SlotMap)
    → occurs k (ids_of h nodes) ≡ 0
    → slice_at k (migrate_removed_loop h m nodes) ≡ slice_at k m
unfolding migrate_removed_loop occurs ids_of
migrate_removed_other h k [] m o = refl
migrate_removed_other h k (x ∷ xs) m o = ground (
  arith,
  migrate_removed_other h k xs (insert (h x).id (h x).slots m),
  slice_at-insert (h x).id k (h x).slots m,
)

migrate_removed_self :
    (h : Heap) (n : ℕ) (nodes : Nodes) (m : SlotMap)
    → contains nodes n ≡ true
    → occurs (h n).id (ids_of h nodes) ≡ 1
    → slice_at (h n).id (migrate_removed_loop h m nodes) ≡ (h n).slots
unfolding migrate_removed_loop occurs ids_of contains
migrate_removed_self h n [] m c o = cc
migrate_removed_self h n (x ∷ xs) m c o = ground (
  arith,
  migrate_removed_self h n xs (insert (h x).id (h x).slots m),
  migrate_removed_other h (h n).id xs (insert (h x).id (h x).slots m),
  slice_at-insert (h x).id (h n).id (h x).slots m,
  occurs-member h xs n,
  same_refl (h n).id,
)

pub occurs-removed_nodes :
    (h : Heap) (new old : Nodes) (k : Text)
    → occurs k (ids_of h (removed_nodes h new old))
      ≡ (if is_present h new k then 0 else occurs k (ids_of h old))
unfolding removed_nodes occurs ids_of
occurs-removed_nodes h new [] k = ground arith
occurs-removed_nodes h new (x ∷ xs) k =
    ground (arith, occurs-removed_nodes h new xs k, same_iff (h x).id k)

pub contains-removed_nodes :
    (h : Heap) (new old : Nodes) (n : ℕ)
    → contains (removed_nodes h new old) n
      ≡ (if is_present h new (h n).id then false else contains old n)
unfolding removed_nodes contains
contains-removed_nodes h new [] n = ground arith
contains-removed_nodes h new (x ∷ xs) n = ground (arith, contains-removed_nodes h new xs n)

-- Overriding by the map of the removed nodes is making the map on top.
override-insert :
    (to m : SlotMap) (k : Text) (v : List ℕ)
    → lookup k m ≡ none
    → override to (insert k v m) ≡ insert k v (override to m)
unfolding override insert lookup
override-insert to [] k v o = refl
override-insert to ((j, w) ∷ m) k v o = ground (arith, override-insert (insert j w to) m k v)

override-migrate_removed :
    (h : Heap) (to m : SlotMap) (nodes : Nodes)
    → ((k : Text) → 0 < occurs k (ids_of h nodes) → lookup k m ≡ none)
    → ((k : Text) → occurs k (ids_of h nodes) ≤ 1)
    → override to (migrate_removed_loop h m nodes) ≡ migrate_removed_loop h (override to m) nodes
unfolding migrate_removed_loop occurs ids_of
override-migrate_removed h to m [] fresh once = refl
override-migrate_removed h to m (x ∷ xs) fresh once =
    override-migrate_removed h to (insert (h x).id (h x).slots m) xs
      (λ k p. ground (arith, once k, fresh k, lookup-insert (h x).id k (h x).slots m))
      (λ k. ground (arith, once k))
    ∙ ap (λ t. migrate_removed_loop h t xs)
        (override-insert to m (h x).id (h x).slots
          (fresh (h x).id (ground (arith, same_refl (h x).id))))

-- The old masters are told apart by their ids, and none of them is empty.
pub record Distinct (h : Heap) (old : Nodes) : Type 0 where
  pub once : (k : Text) → occurs k (ids_of h old) ≤ 1
  pub named : occurs [] (ids_of h old) ≡ 0

module _ (h : Heap) (new old : Nodes) (nb_slots nb : ℕ) (d : Distinct h old) where
  pub removed_once : (k : Text) → occurs k (ids_of h (removed_nodes h new old)) ≤ 1
  removed_once k = ground (arith, d.once k, occurs-removed_nodes h new old k)

  -- BuildSlotsByNode's map, with the removed nodes put on top one by one.
  pub slots_to_migrate-eq :
      slots_to_migrate h new old nb_slots nb
      ≡ insert [] (retrieve_lost_slots h old nb_slots) (
          migrate_removed_loop h (retrieve_slot_to_migrate_from h old nb) (removed_nodes h new old))
  unfolding slots_to_migrate retrieve_slot_to_migrate_from_removed_nodes override lookup
  slots_to_migrate-eq = ap (insert [] (retrieve_lost_slots h old nb_slots)) (
      override-migrate_removed h (retrieve_slot_to_migrate_from h old nb) []
        (removed_nodes h new old) (λ k p. refl) removed_once)
      -- For old masters with distinct ids that are not empty: the map of slots to migrate holds, for an

  -- old master that is also a new one, its slots past the quota, and for one that is not, all.
  pub slice_at-slots_to_migrate :
      (n : ℕ)
      → contains old n ≡ true
      → slice_at (h n).id (slots_to_migrate h new old nb_slots nb)
        ≡ (if is_present h new (h n).id then extra nb (h n) else (h n).slots)
  unfolding retrieve_slot_to_migrate_from slice_at
  slice_at-slots_to_migrate n c =
      let once : occurs (h n).id (ids_of h old) ≡ 1 =
        omega (arith, d.once (h n).id, occurs-member h old n c) in
      let from = retrieve_slot_to_migrate_from h old nb in
      let removed = removed_nodes h new old in
      rw slots_to_migrate-eq (
        ground (
          arith,
          once,
          d.named,
          same_iff [] (h n).id,
          slice_at-insert [] (h n).id (retrieve_lost_slots h old nb_slots)
              (migrate_removed_loop h from removed),
          migrate_from_self h nb n old [],
          migrate_removed_self h n removed from,
          migrate_removed_other h (h n).id removed from,
          occurs-removed_nodes h new old (h n).id,
          contains-removed_nodes h new old n,
        ))

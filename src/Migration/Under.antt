-- ===== src/Migration/Under.antt =====
-- Counting the slots of a map under a list of keys, through the steps that build the map.
use rediscluster_operator.Base.{
  ℕ, ◌+◌, ◌*◌, true, ◌≡◌, refl, ◌∙◌, ap, List, [], ◌∷◌, ◌++◌, arith, Text, append_at, insert,
  slice_at, drop, same_iff, count, count-append, slice_at-insert, slice_at-append_at,
}
use mathlib.Core.List.{Perm, Permᴰ}
use mathlib.Core.Logic.{∥∥₁_elim}
use native.Mathlib.Nat.{ℕ_set}
use rediscluster_operator.Nodes.{Node}
use rediscluster_operator.Nodes.Heap.{Heap}
use rediscluster_operator.Slots.{contains}
use rediscluster_operator.Migration.Assign.{all_slots, count-append_at}
use rediscluster_operator.Migration.Migrated.{occurs}
use rediscluster_operator.Migration.{
  Nodes, SlotMap, migrate_from_node, migrate_from_loop, migrate_removed_loop,
}

-- How often a slot stands under the given keys.
unfoldable pub under : List Text → SlotMap → ℕ → ℕ
under [] m e = 0
under (k ∷ ks) m e = count e (slice_at k m) + under ks m e

-- A map whose slots all stand under the given keys.
abbrev pub IsUnder : List Text → SlotMap → Type 0
IsUnder ks m = (e : ℕ) → count e (all_slots m) ≡ under ks m e

count-insert :
    (k : Text) (v : List ℕ) (m : SlotMap) (e : ℕ)
    → count e (all_slots (insert k v m)) + count e (slice_at k m)
      ≡ count e (all_slots m) + count e v
unfolding all_slots insert slice_at
count-insert k v [] e = ground (arith, count-append e v [])
count-insert k v ((j, w) ∷ m) e = ground (
  arith,
  count-insert k v m e,
  count-append e w (all_slots m),
  count-append e v (all_slots m),
  count-append e w (all_slots (insert k v m)),
)

under-insert :
    (ks : List Text) (k : Text) (v : List ℕ) (m : SlotMap) (e : ℕ)
    → under ks (insert k v m) e + occurs k ks * count e (slice_at k m)
      ≡ under ks m e + occurs k ks * count e v
unfolding under occurs
under-insert [] k v m e = omega arith
under-insert (i ∷ ks) k v m e =
    ground (arith, under-insert ks k v m e, slice_at-insert k i v m, same_iff k i, same_iff i k)

under-append_at :
    (ks : List Text) (k : Text) (v : List ℕ) (m : SlotMap) (e : ℕ)
    → under ks (append_at k v m) e ≡ under ks m e + occurs k ks * count e v
unfolding under occurs
under-append_at [] k v m e = omega arith
under-append_at (i ∷ ks) k v m e = ground (
  arith,
  under-append_at ks k v m e,
  slice_at-append_at k i v m,
  same_iff k i,
  same_iff i k,
  count-append e (slice_at i m) v,
)

pub under-nil : (ks : List Text) (e : ℕ) → count e (all_slots []) ≡ under ks [] e
unfolding under slice_at all_slots
under-nil [] e = refl
under-nil (k ∷ ks) e = ground (arith, under-nil ks e)

pub insert-IsUnder :
    (ks : List Text) (k : Text) (v : List ℕ) (m : SlotMap)
    → occurs k ks ≡ 1
    → IsUnder ks m
    → IsUnder ks (insert k v m)
insert-IsUnder ks k v m o u e = ground (arith, u e, count-insert k v m e, under-insert ks k v m e)

migrate_from_node-IsUnder :
    (ks : List Text) (nb : ℕ) (n : Node) (m : SlotMap)
    → occurs n.id ks ≡ 1
    → IsUnder ks m
    → IsUnder ks (migrate_from_node nb n m)
unfolding migrate_from_node
migrate_from_node-IsUnder ks nb n m o u e = ground (
  arith,
  u e,
  count-append_at n.id (drop nb n.slots) m e,
  under-append_at ks n.id (drop nb n.slots) m e,
)

-- Each node's id is one of the keys, once.
abbrev pub KeysOnce : List Text → Heap → Nodes → Type 0
KeysOnce ks h nodes = (n : ℕ) → contains nodes n ≡ true → occurs (h n).id ks ≡ 1

pub migrate_from_loop-IsUnder :
    (ks : List Text) (h : Heap) (nb : ℕ) (old : Nodes) (m : SlotMap)
    → KeysOnce ks h old
    → IsUnder ks m
    → IsUnder ks (migrate_from_loop h nb m old)
unfolding migrate_from_loop contains
migrate_from_loop-IsUnder ks h nb [] m o u = u
migrate_from_loop-IsUnder ks h nb (x ∷ xs) m o u =
    migrate_from_loop-IsUnder ks h nb xs (migrate_from_node nb (h x) m) (λ n c. o n (ground arith))
      (migrate_from_node-IsUnder ks nb (h x) m (o x (ground arith)) u)

pub migrate_removed_loop-IsUnder :
    (ks : List Text) (h : Heap) (nodes : Nodes) (m : SlotMap)
    → KeysOnce ks h nodes
    → IsUnder ks m
    → IsUnder ks (migrate_removed_loop h m nodes)
unfolding migrate_removed_loop contains
migrate_removed_loop-IsUnder ks h [] m o u = u
migrate_removed_loop-IsUnder ks h (x ∷ xs) m o u =
    migrate_removed_loop-IsUnder ks h xs (insert (h x).id (h x).slots m) (λ n c. o n (ground arith))
      (insert-IsUnder ks (h x).id (h x).slots m (o x (ground arith)) u)

-- Visiting a map in another order changes no count.
count-all_slots-perm :
    {m m' : SlotMap} (e : ℕ) → Permᴰ m m' → count e (all_slots m) ≡ count e (all_slots m')
unfolding all_slots
count-all_slots-perm e Permᴰ.nil = refl
count-all_slots-perm e (Permᴰ.cons {a} {b} {l₁ = l} {l₂ = r} p q) =
    let same_slots : a.1 ≡ b.1 = ap (λ x. x.1) p in
    ground (
      arith,
      same_slots,
      count-all_slots-perm e q,
      count-append e a.1 (all_slots l),
      count-append e b.1 (all_slots r),
    )
count-all_slots-perm e (Permᴰ.swap {a} {b} {a'} {b'} {l} p q) =
    let first : a.1 ≡ b'.1 = ap (λ x. x.1) p in
    let second : b.1 ≡ a'.1 = ap (λ x. x.1) q in
    ground (
      arith,
      first,
      second,
      count-append e a.1 (b.1 ++ all_slots l),
      count-append e b.1 (all_slots l),
      count-append e a'.1 (b'.1 ++ all_slots l),
      count-append e b'.1 (all_slots l),
    )
count-all_slots-perm e (Permᴰ.trans p q) = count-all_slots-perm e p ∙ count-all_slots-perm e q

pub all_slots-perm :
    (m m' : SlotMap) (e : ℕ) → Perm m m' → count e (all_slots m) ≡ count e (all_slots m')
all_slots-perm m m' e p = ∥∥₁_elim p (ℕ_set _ _) (count-all_slots-perm e)

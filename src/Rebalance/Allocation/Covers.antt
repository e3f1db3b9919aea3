-- ===== src/Rebalance/Allocation/Covers.antt =====
-- AllocSlots of controllers/clustering/rebalance.go: the slots that each master gets.
use rediscluster_operator.Base.Int.{ℤ, pos}
use rediscluster_operator.Base.{
  ℕ, zero, suc, ◌+◌, ◌-◌, ◌*◌, ◌/◌, ◌<◌, ◌≤◌, true, false, ◌≡◌, refl, ◌∙◌, sym, ap, List, [], ◌∷◌,
  ◌++◌, some, length, le→leb, leb, arith, append-nil,
}
use mathlib.Core.Path.{subst}
use native.Mathlib.Decide.{dec_le}
use native.Mathlib.Nat.{mul-le-mul_left, mul-le-mul_right, div-mul-le_self}
use rediscluster_operator.Nodes.{Node, ip_port}
use rediscluster_operator.Slots.{u64_mod, build_slot_slice}
use rediscluster_operator.Slots.Build.{range_from, build_slot_slice_lem}
use rediscluster_operator.Rebalance.{Command, Admin, add}
use rediscluster_operator.Rebalance.Allocation.{
  round, clamp_last, last_slot, Alloc, alloc_loop, alloc_slots,
}

range_from-append : (a b s : ℕ) → range_from s a ++ range_from (s + a) b ≡ range_from s (a + b)
range_from-append zero b s = ground arith
range_from-append (suc a) b s =
    ground (arith, range_from-append a b (s + 1), regroup s a, regroup_sum a b)
  where
    regroup : (s a : ℕ) → s + suc a ≡ s + 1 + a
    regroup s a = omega arith

    regroup_sum : (a b : ℕ) → suc a + b ≡ suc (a + b)
    regroup_sum a b = omega arith

range_join :
    (first last N : ℕ)
    → first ≤ last
    → last < N
    → range_from first (last + 1 - first) ++ range_from (last + 1) (N - (last + 1))
      ≡ range_from first (N - first)
range_join first last N le lt =
    let start : first + (last + 1 - first) ≡ last + 1 = omega arith in
    let size : last + 1 - first + (N - (last + 1)) ≡ N - first = omega arith in
    ground (arith, range_from-append (last + 1 - first) (N - (last + 1)) first, start, size)

build_to :
    (first last count : ℕ)
    → last + 1 < u64_mod
    → count ≡ last + 1 - first
    → build_slot_slice first last ≡ some (range_from first count)
build_to first last count lt e = rw e (build_slot_slice_lem first last lt)

-- The bound on `Round(cursor + slotsPerNode - 1)` that leaves a slot for each of the `k` masters
-- that are still to come.
round_bound :
    (N index k r : ℕ)
    → suc index + k ≤ N
    → 1 ≤ k
    → r * (2 * (suc index + k)) + (suc index + k) ≤ 2 * (suc index * N)
    → r + (k + 1) ≤ N
round_bound N index k r le one h = elim (dec_le (r + (k + 1)) N) [
  | yes p ↦ p
  | no p ↦
      let over : N ≤ r + k = omega arith in
      absurd (omega (arith, mul-le-mul_right (2 * (suc index + k)) over, mul-le-mul_left k le))
]

clamp_last_lem :
    (N n index first r k : ℕ)
    → suc index + suc k ≡ n
    → r + (suc k + 1) ≤ N
    → first + (suc k + 1) ≤ N
    → (first ≤ clamp_last N n index first (pos r))
      × (clamp_last N n index first (pos r) + (suc k + 1) ≤ N)
unfolding clamp_last
clamp_last_lem N n index first r k e h room = ground arith

clamp_last_end :
    (N n index first : ℕ) (r : ℤ) → suc index ≡ n → first < N → clamp_last N n index first r ≡ N - 1
unfolding clamp_last
clamp_last_end N n index first r e lt = ground arith

last_slot_end :
    (N n index first : ℕ) → suc index ≡ n → first < N → last_slot N n index first ≡ N - 1
unfolding last_slot
last_slot_end N n index first e lt = clamp_last_end N n index first _ e lt

last_slot_lem :
    (N index first k : ℕ)
    → suc index + suc k ≤ N
    → first + (suc k + 1) ≤ N
    → (first ≤ last_slot N (suc index + suc k) index first)
      × (last_slot N (suc index + suc k) index first + (suc k + 1) ≤ N)
unfolding last_slot round
last_slot_lem N index first k le room =
    let n = suc index + suc k in
    let p = suc index * N - n in
    let wide : n ≤ suc index * N = omega (arith, mul-le-mul_right N (first_row index)) in
    let fits : leb n (suc index * N) ≡ true = le→leb n (suc index * N) wide in
    let quotient : (2 * p + n) / (2 * n) * (2 * n) ≤ 2 * p + n =
      div-mul-le_self (2 * p + n) (2 * n) in
    rw fits (
      clamp_last_lem N n index first ((2 * p + n) / (2 * n)) k refl
        (round_bound N index (suc k) ((2 * p + n) / (2 * n)) le (omega arith) (omega arith)) room)
  where
    first_row : (i : ℕ) → 1 ≤ suc i
    first_row i = omega arith

-- The slots of the masters, one after another.
unfoldable pub all_of : List Node → List ℕ
all_of [] = []
all_of (n ∷ nodes) = n.slots ++ all_of nodes

alloc_loop_step :
    (admin : Admin) (N n index first : ℕ) (x : Node) (nodes : List Node) (sent : List Command)
    (slots : List ℕ) (a : Alloc)
    → build_slot_slice first (last_slot N n index first) ≡ some slots
    → admin sent (add (ip_port x) slots) ≡ false
    → alloc_loop admin N n
        (suc index)
        (last_slot N n index first + 1)
        nodes
        (add (ip_port x) slots ∷ sent)
      ≡ some a
    → alloc_loop admin N n index first (x ∷ nodes) sent
      ≡ some (record a { masters = record x { slots = slots } ∷ a.masters })
unfolding alloc_loop
alloc_loop_step admin N n index first x nodes sent slots a b ok rest = ground arith

module _ (admin : Admin) (N : ℕ) (ok : (s : List Command) (c : Command) → admin s c ≡ false)
    (top : N < u64_mod) where
  -- The slots from `first` on go to the masters in order, if no command fails.
  alloc_loop_lem :
      (n index first : ℕ) (x : Node) (nodes : List Node) (sent : List Command)
      → n ≡ suc index + length nodes
      → n ≤ N
      → first + (length nodes + 1) ≤ N
      → (a : Alloc) × (alloc_loop admin N n index first (x ∷ nodes) sent ≡ some a)
        × (a.failed ≡ false)
        × (all_of a.masters ≡ range_from first (N - first))
  unfolding all_of
  alloc_loop_lem n index first x [] sent e le room =
      let slots = range_from first (N - first) in
      let end : last_slot N n index first ≡ N - 1 =
        last_slot_end N n index first (omega arith) (omega arith) in
      let built : build_slot_slice first (last_slot N n index first) ≡ some slots =
        build_to first (last_slot N n index first) (N - first) (omega arith) (omega arith) in
      (
        record {
          masters = record x { slots = slots } ∷ [];
          sent = add (ip_port x) slots ∷ sent;
          failed = false;
        },
        alloc_loop_step admin N n index first x [] sent slots _ built
            (ok sent (add (ip_port x) slots)) (unfold alloc_loop in refl),
        refl,
        append-nil slots,
      )
  alloc_loop_lem n index first x (y ∷ nodes) sent e le room =
      let last = last_slot N n index first in
      let slots = range_from first (last + 1 - first) in
      let k = length nodes in
      let bounds : (first ≤ last) × (last + (suc k + 1) ≤ N) =
        subst
          (λ t. (first ≤ last_slot N t index first) × (last_slot N t index first + (suc k + 1) ≤ N))
          (sym e) (last_slot_lem N index first k (omega arith) room) in
      let built : build_slot_slice first last ≡ some slots =
        build_slot_slice_lem first last (omega arith) in
      let (a, p, f, q) =
        alloc_loop_lem n (suc index) (last + 1) y nodes (add (ip_port x) slots ∷ sent) (omega arith)
          le (omega arith) in
      (
        record a { masters = record x { slots = slots } ∷ a.masters },
        alloc_loop_step admin N n index first x (y ∷ nodes) sent slots a built
            (ok sent (add (ip_port x) slots)) p,
        f,
        ap (λ r. slots ++ r) q ∙ range_join first last N bounds.0 (omega arith),
      )

-- With at least one master, no more masters than slots, fewer than 2 ^ 64 slots, and if no ADDSLOTS
-- fails, AllocSlots
-- returns, and the masters' slots in order are 0, 1, ... up to the last slot, each once.
pub alloc_slots-covers :
    (admin : Admin) (N : ℕ) (x : Node) (nodes : List Node)
    → ((s : List Command) (c : Command) → admin s c ≡ false)
    → N < u64_mod
    → length (x ∷ nodes) ≤ N
    → (a : Alloc) × (alloc_slots admin N (x ∷ nodes) ≡ some a)
      × (a.failed ≡ false)
      × (all_of a.masters ≡ range_from 0 N)
unfolding alloc_slots
alloc_slots-covers admin N x nodes ok top le =
    let (a, p, f, q) =
      alloc_loop_lem admin N ok top (length (x ∷ nodes)) 0 0 x nodes [] (omega arith) le
        (omega arith) in
    (a, p, f, q ∙ ap (range_from 0) (omega arith))
